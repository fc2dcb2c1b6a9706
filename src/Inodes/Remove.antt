-- ===== src/Inodes/Remove.antt =====
-- remove_file counts a file's blocks wrongly: what it leaves behind, and what it frees too much.
use file_system_yfs.Base.{
  ℕ, ◌+◌, ◌/◌, ◌%◌, ◌≤◌, ◌<◌, ◌≡◌, ◌≢◌, ap, ◌∙◌, inl, inr, true, false, arith, lt→ltb,
}
use file_system_yfs.Base.Memory.{Buf}
use file_system_yfs.Disk.{block_size, bpb, bblock, ndirect, inode_num}
use file_system_yfs.Blocks.{is_used, IsFormatted}
use file_system_yfs.Blocks.Cells.{is_used-same}
use file_system_yfs.Inodes.{InodeManager, Inode, free_inode, block_count}
use file_system_yfs.Inodes.Loops.{free_ids}
use file_system_yfs.Inodes.Loops.Copy.{Avoids}
use file_system_yfs.Inodes.Loops.Allocate.{IsFormatted-same}
use file_system_yfs.Inodes.Loops.Release.{InBitmap, free_ids-Releases}
use file_system_yfs.Inodes.Struct.{SameInode, inode_at, get_inode-cases}
use file_system_yfs.Inodes.Lifecycle.{free_inode-Frees}
use file_system_yfs.Inodes.WriteRead.{IsFile}
use file_system_yfs.Inodes.Blocklist.{remove_file, removed_count}

block_count-part : (size : ℕ) → size % block_size ≢ 0 → block_count size ≡ size / block_size + 1
unfolding block_count
block_count-part size h = ground arith

removed_count-part : (size : ℕ) → size % block_size ≢ 0 → removed_count size ≡ size / block_size
unfolding removed_count
removed_count-part size h = ground arith

removed_count-full : (size : ℕ) → size % block_size ≡ 0 → removed_count size ≡ block_count size + 1
unfolding removed_count block_count
removed_count-full size h = ground arith

-- What remove_file of a file with fewer than NDIRECT counted blocks leaves: the inode is gone, and
-- the bitmap is that of the freeing loop.
module _ (junk : Buf) (im : InodeManager) (inum : ℕ) (f : IsFormatted im) (lt : inum < inode_num)
    (exists : (inode_at im inum).type ≢ 0) (few : removed_count (inode_at im inum).size < ndirect)
    (bits : InBitmap (inode_at im inum).blocks 0 (removed_count (inode_at im inum).size)) where
  record Removed (im' : InodeManager) : Type 0 where
    gone : (inode_at im' inum).type ≡ 0
    kept :
        (x : ℕ)
        → x < bpb
        → Avoids x (inode_at im inum).blocks 0 (removed_count (inode_at im inum).size)
        → is_used im' x ≡ is_used im x
    freed :
        (j : ℕ)
        → j < removed_count (inode_at im inum).size
        → is_used im' ((inode_at im inum).blocks j) ≡ false

  loop-Removed :
      (ino : Inode)
      → SameInode ino (inode_at im inum)
      → Removed (free_inode junk (free_ids junk (removed_count ino.size) 0 im ino.blocks) inum)
  loop-Removed ino same =
      let count : removed_count ino.size ≡ removed_count (inode_at im inum).size =
        ap removed_count same.size in
      let id =
        λ (j : ℕ) (l : j < removed_count (inode_at im inum).size). same.blocks j (omega arith) in
      let r =
        free_ids-Releases junk (removed_count ino.size) 0 (removed_count ino.size) im ino.blocks
          (omega arith)
          (λ j l h. rw (same.blocks j (omega (arith, count))) (bits j l (omega (arith, count)))) in
      let im1 = free_ids junk (removed_count ino.size) 0 im ino.blocks in
      let f' = free_inode-Frees junk im1 inum (IsFormatted-same r.superblock f) lt in
      let bit = λ (x : ℕ) (h : x < bpb). is_used-same _ _ x (f'.others (bblock x) (omega arith)) in
      record {
        gone = f'.gone;
        kept = λ x h a.
            bit x h
            ∙ r.kept x (λ j l l' e.
              a j l (omega (arith, count)) (e ∙ same.blocks j (omega (arith, count))));
        freed = λ j l.
            bit _ (bits j (omega arith) l)
            ∙ (rw (← same.blocks j (omega arith)) (r.freed j (omega arith) (omega (arith, count))));
      }

  remove_file-Removed : Removed (remove_file junk im inum)
  unfolding remove_file
  remove_file-Removed = elim (get_inode-cases junk im inum f lt) [
    | inl (_, z) ↦ absurd (exists z)
    | inr (ino, e, same, _) ↦
        rw
          (
            e,
            remove_file,
            lt→ltb (removed_count ino.size) ndirect (omega (arith, ap removed_count same.size)),
          )
          (loop-Removed ino same)
  ]

-- remove_file of a direct file whose last block is not full frees the inode and all blocks but the
-- last, which stays taken.
pub remove_file-leaks :
    (junk : Buf) (im : InodeManager) (inum : ℕ)
    → IsFile im inum
    → (inode_at im inum).size % block_size ≢ 0
    → let im' = remove_file junk im inum in
      let ino = inode_at im inum in
      let last = ino.size / block_size in
      ((inode_at im' inum).type ≡ 0)
      × ((j : ℕ) → j < last → is_used im' (ino.blocks j) ≡ false)
      × (is_used im' (ino.blocks last) ≡ true)
remove_file-leaks junk im inum file part =
    let ino = inode_at im inum in
    let o = file.owns in
    let count : block_count ino.size ≡ ino.size / block_size + 1 = block_count-part ino.size part in
    let rem : removed_count ino.size ≡ ino.size / block_size = removed_count-part ino.size part in
    let r =
      remove_file-Removed junk im inum file.formatted file.in_table file.exists
        (omega (arith, file.direct)) (λ j l h. omega (arith, o.below j (omega arith))) in
    (
      r.gone,
      λ j l. r.freed j (omega arith),
      r.kept _ (omega (arith, o.below (ino.size / block_size) (omega arith))) (λ j l h e.
            absurd (omega (arith, o.distinct _ j (omega arith) (omega arith) l (omega arith) e)))
          ∙ o.used _ (omega arith),
    )

-- A file of at most 98 blocks whose size is a multiple of the block size, 0 included, and of which
-- the entries of these blocks and the entry behind them are below 131072, the bits of the bitmap
-- block: after remove_file the block that the entry behind the last one names, and that the file
-- does not have, is free.
pub remove_file-frees_other :
    (junk : Buf) (im : InodeManager) (inum : ℕ)
    → IsFormatted im
    → inum < inode_num
    → (inode_at im inum).type ≢ 0
    → (inode_at im inum).size % block_size ≡ 0
    → block_count (inode_at im inum).size + 1 < ndirect
    → ((j : ℕ) → j ≤ block_count (inode_at im inum).size → (inode_at im inum).blocks j < bpb)
    → let ino = inode_at im inum in
      is_used (remove_file junk im inum) (ino.blocks (block_count ino.size)) ≡ false
remove_file-frees_other junk im inum f lt exists full few bits =
    let ino = inode_at im inum in
    let rem : removed_count ino.size ≡ block_count ino.size + 1 =
      removed_count-full ino.size full in
    let r =
      remove_file-Removed junk im inum f lt exists (omega arith) (λ j l h. bits j (omega arith)) in
    r.freed (block_count ino.size) (omega arith)
