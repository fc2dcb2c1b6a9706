-- ===== src/Inodes/WriteRead.antt =====
-- write_file followed by read_file.
use file_system_yfs.Base.{
  ℕ, ◌+◌, ◌-◌, ◌^◌, ◌≤◌, ◌<◌, ◌≡◌, ◌≢◌, sym, ap, ◌∙◌, inl, inr, arith, ltb, ◌==◌, Bool-cases,
  Option, some, le→leb, lt→ltb, le→ltb,
}
use file_system_yfs.Base.Memory.{Buf}
use file_system_yfs.Disk.{ndirect, maxfile, inode_num}
use file_system_yfs.Blocks.{IsFormatted}
use file_system_yfs.Blocks.Free.{free_blocks}
use file_system_yfs.Inodes.{InodeManager, Inode, Clock, u16, block_count}
use file_system_yfs.Inodes.Loops.Allocate.{IsFormatted-same}
use file_system_yfs.Inodes.Lifecycle.{Creates}
use file_system_yfs.Inodes.Read.{read_file}
use file_system_yfs.Inodes.Write.{write_cases, write_file, grow_direct, keep_direct, shrink_direct}
use file_system_yfs.Inodes.Struct.{SameInode, Fits, inode_at, get_inode-cases, load_inode-Fits}
use file_system_yfs.Inodes.Holds.{Holds, Owns, Holds-read_file}
use file_system_yfs.Inodes.Resize.{
  keep_direct-type, shrink_direct-type, grow_direct-type, keep_direct-Holds, shrink_direct-Holds,
  grow_direct-Holds,
}

-- `inum` is a file of at most NDIRECT blocks, on a formatted disk, that owns its blocks.
pub record IsFile (im : InodeManager) (inum : ℕ) : Type 0 where
  pub formatted : IsFormatted im
  pub in_table : inum < inode_num
  pub exists : (inode_at im inum).type ≢ 0
  pub direct : block_count (inode_at im inum).size ≤ ndirect
  pub owns : Owns im (inode_at im inum).blocks (block_count (inode_at im inum).size)

-- A new inode is such a file, with no blocks.
pub Creates-IsFile :
    (im im' : InodeManager) (i type : ℕ)
    → IsFormatted im
    → u16 type ≢ 0
    → Creates im im' i type
    → IsFile im' i
unfolding block_count
Creates-IsFile im im' i type f ne c = record {
  formatted = IsFormatted-same c.superblock f;
  in_table = c.below;
  exists = λ z. ne (sym c.type_now ∙ z);
  direct = ground (arith, c.empty);
  owns = record {
    above = λ j l. absurd (ground (arith, c.empty));
    below = λ j l. absurd (ground (arith, c.empty));
    used = λ j l. absurd (ground (arith, c.empty));
    distinct = λ j k lj rj. absurd (ground (arith, c.empty));
  };
}

Fits-SameInode : {a b : Inode} → SameInode a b → Fits b → Fits a
Fits-SameInode s f = record {
  type = rw s.type f.type;
  size = rw s.size f.size;
  atime = rw s.atime f.atime;
  mtime = rw s.mtime f.mtime;
  ctime = rw s.ctime f.ctime;
  blocks = λ i le. rw (s.blocks i le) (f.blocks i le);
}

Owns-SameInode :
    {im : InodeManager} {a b : Inode}
    → SameInode a b
    → block_count b.size ≤ ndirect
    → Owns im b.blocks (block_count b.size)
    → Owns im a.blocks (block_count a.size)
Owns-SameInode {a = a} {b = b} s le o =
    let c : block_count a.size ≡ block_count b.size = ap block_count s.size in
    record {
      above = λ j l. rw (s.blocks j (omega (arith, c))) (o.above j (omega (arith, c)));
      below = λ j l. rw (s.blocks j (omega (arith, c))) (o.below j (omega (arith, c)));
      used = λ j l. rw (s.blocks j (omega (arith, c))) (o.used j (omega (arith, c)));
      distinct = λ j k lj rj lk rk e.
          o.distinct j k lj (omega (arith, c)) lk (omega (arith, c))
            (sym (s.blocks j (omega (arith, c))) ∙ e ∙ s.blocks k (omega (arith, c)));
    }

-- With at most NDIRECT blocks before and after, one of three cases runs.
write_cases_direct {ℓ} :
    (P : InodeManager → Type ℓ) (junk : Buf) (now : Clock) (inum : ℕ) (buf : Buf) (size : ℕ)
    (im : InodeManager) (ino : Inode) (origin need : ℕ)
    → need ≤ ndirect
    → origin ≤ ndirect
    → (origin < need → P (grow_direct junk now inum buf size im ino origin need))
    → (origin ≡ need → P (keep_direct junk now inum buf size im ino need))
    → (need < origin → P (shrink_direct junk now inum buf size im ino origin need))
    → P (write_cases junk now inum buf size im ino origin need)
unfolding write_cases
write_cases_direct P junk now inum buf size im ino origin need d o grow keep shrink =
    rw (write_cases, le→leb need ndirect d)
      (elim (Bool-cases (ltb origin need)) [
        | inl e ↦ rw e (grow (ground arith))
        | inr e ↦ rw e (elim (Bool-cases (origin == need)) [
          | inl q ↦ rw q (keep (ground arith))
          | inr q ↦
              rw (q, lt→ltb need origin (ground arith), le→leb origin ndirect o)
                (shrink (ground arith))
        ])
      ])

module _ (junk : Buf) (now : Clock) (inum : ℕ) (buf : Buf) (size : ℕ) (im : InodeManager)
    (file : IsFile im inum) (small : size < 2 ^ 32) (direct : block_count size ≤ ndirect)
    (room : block_count size - block_count (inode_at im inum).size ≤ free_blocks im) where
  module _ (ino : Inode) (same : SameInode ino (inode_at im inum)) where
    count_same : block_count ino.size ≡ block_count (inode_at im inum).size
    count_same = ap block_count same.size

    write_cases-Holds :
        Holds
          (write_cases junk now inum buf size im ino (block_count ino.size) (block_count size))
          inum
          buf
          size
    write_cases-Holds =
        let fits = Fits-SameInode same (load_inode-Fits (im.d (inum + 3))) in
        let owns = Owns-SameInode same file.direct file.owns in
        let live = λ (z : ino.type ≡ 0). file.exists (sym same.type ∙ z) in
        let le : block_count ino.size ≤ ndirect = omega (arith, count_same, file.direct) in
        write_cases_direct (λ m. Holds m inum buf size) junk now inum buf size im ino _ _ direct le
          (λ more.
            grow_direct-Holds junk now inum buf size im ino _ file.formatted file.in_table fits live
              small direct owns more (omega (arith, count_same)))
          (λ e.
            keep_direct-Holds junk now inum buf size im ino _ file.formatted file.in_table fits live
              small direct owns e)
          (λ fewer.
            shrink_direct-Holds junk now inum buf size im ino _ file.formatted file.in_table fits
              live small direct owns le fewer)

    write_cases-type :
        (inode_at
          (write_cases junk now inum buf size im ino (block_count ino.size) (block_count size))
          inum).type
        ≡ (inode_at im inum).type
    write_cases-type =
        let fits = Fits-SameInode same (load_inode-Fits (im.d (inum + 3))) in
        let owns = Owns-SameInode same file.direct file.owns in
        let live = λ (z : ino.type ≡ 0). file.exists (sym same.type ∙ z) in
        let le : block_count ino.size ≤ ndirect = omega (arith, count_same, file.direct) in
        write_cases_direct (λ m. (inode_at m inum).type ≡ (inode_at im inum).type) junk now inum buf
          size im ino _ _ direct le
          (λ more.
            grow_direct-type junk now inum buf size im ino _ file.formatted file.in_table fits live
              small direct owns more (omega (arith, count_same))
            ∙ same.type)
          (λ e.
            keep_direct-type junk now inum buf size im ino _ file.formatted file.in_table fits live
              small direct owns
            ∙ same.type)
          (λ fewer.
            shrink_direct-type junk now inum buf size im ino _ file.formatted file.in_table fits
              live small direct owns le fewer
            ∙ same.type)

  -- A file of at most NDIRECT blocks that owns its blocks, on a disk with room for the new ones,
  -- is on the disk after write_file: its size is the new one, and its blocks hold the data.
  pub write_file-Holds : Holds (write_file junk now inum buf size im) inum buf size
  unfolding write_file
  write_file-Holds = elim (get_inode-cases junk im inum file.formatted file.in_table) [
    | inl (e, z) ↦ absurd (file.exists z)
    | inr (ino, e, same, _) ↦
        rw (e, write_file, le→ltb maxfile (block_count size) (omega arith))
          (write_cases-Holds ino same)
  ]

  pub write_file-type :
      (inode_at (write_file junk now inum buf size im) inum).type ≡ (inode_at im inum).type
  unfolding write_file
  write_file-type = elim (get_inode-cases junk im inum file.formatted file.in_table) [
    | inl (e, z) ↦ absurd (file.exists z)
    | inr (ino, e, same, _) ↦
        rw (e, write_file, le→ltb maxfile (block_count size) (omega arith))
          (write_cases-type ino same)
  ]

  -- On a disk with room for the blocks by which it grows, and with a new size of at most 100
  -- blocks, write_file keeps a file of at most 100 blocks well formed: it exists, has at most 100
  -- blocks, and its blocks are distinct data blocks that the bitmap has as taken.
  pub write_file-IsFile : IsFile (write_file junk now inum buf size im) inum
  write_file-IsFile =
      let h = write_file-Holds in
      record {
        formatted = h.formatted;
        in_table = file.in_table;
        exists = h.exists;
        direct = rw h.size_at direct;
        owns = rw h.size_at h.owns;
      }

  -- A file of at most 100 blocks that owns its blocks, on a formatted disk with room for its new
  -- blocks, is read back with the size and bytes that write_file was given, whether it grew, kept
  -- its size in blocks or shrank.
  pub read_file-write_file :
      (junk' : Buf) (now' : Clock) (out : Option Buf) (old_size : ℕ)
      → let r = read_file junk' now' (write_file junk now inum buf size im) inum out old_size in
        (r.2 ≡ size) × (b : Buf) × (r.1 ≡ some b) × ((p : ℕ) → p < size → b p ≡ buf p)
  read_file-write_file junk' now' out old_size =
      Holds-read_file junk' now' _ inum buf size out old_size file.in_table direct write_file-Holds
