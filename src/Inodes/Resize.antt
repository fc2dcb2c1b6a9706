-- ===== src/Inodes/Resize.antt =====
-- write_file on files of at most NDIRECT blocks: new blocks, the same blocks, or fewer blocks.
use file_system_yfs.Base.{
  ℕ, ◌-◌, ◌^◌, ◌≤◌, ◌<◌, ◌≡◌, ◌≢◌, sym, ◌∙◌, inl, inr, true, arith, ltb, Bool-cases,
}
use file_system_yfs.Base.Memory.{Buf}
use file_system_yfs.Disk.{block_num, ndirect, inode_num}
use file_system_yfs.Blocks.{is_used, IsFormatted}
use file_system_yfs.Blocks.Free.{free_blocks}
use file_system_yfs.Inodes.{InodeManager, Inode, Clock, block_count}
use file_system_yfs.Inodes.Loops.{Ids, alloc_ids}
use file_system_yfs.Inodes.Loops.Copy.{Distinct}
use file_system_yfs.Inodes.Loops.Allocate.{IsFormatted-same, Extends, alloc_ids-Extends}
use file_system_yfs.Inodes.Loops.Release.{free_ids-Releases}
use file_system_yfs.Inodes.Write.{grow_direct, keep_direct, shrink_direct}
use file_system_yfs.Inodes.Struct.{Fits, inode_at}
use file_system_yfs.Inodes.Holds.{Holds, Owns, Owns-le}
use file_system_yfs.Inodes.Direct.{store_direct-type, store_direct-Holds}

module _ (junk : Buf) (now : Clock) (inum : ℕ) (buf : Buf) (size : ℕ) (im : InodeManager)
    (ino : Inode) (origin : ℕ) (f : IsFormatted im) (lt : inum < inode_num) (fits : Fits ino)
    (live : ino.type ≢ 0) (small : size < 2 ^ 32) (direct : block_count size ≤ ndirect)
    (owns : Owns im ino.blocks origin) where
  -- Case 1-2.
  pub keep_direct-Holds :
      origin ≡ block_count size
      → Holds (keep_direct junk now inum buf size im ino (block_count size)) inum buf size
  unfolding keep_direct
  keep_direct-Holds e =
      store_direct-Holds junk now inum buf size im ino f lt fits live small direct
        (Owns-le im ino.blocks origin (block_count size) (omega arith) owns)

  pub keep_direct-type :
      (inode_at (keep_direct junk now inum buf size im ino (block_count size)) inum).type ≡ ino.type
  unfolding keep_direct
  keep_direct-type = store_direct-type junk now inum buf size im ino f lt fits

  pub shrink_direct-type :
      origin ≤ ndirect
      → block_count size < origin
      → (inode_at (shrink_direct junk now inum buf size im ino origin (block_count size)) inum).type
        ≡ ino.type
  unfolding shrink_direct
  shrink_direct-type le fewer =
      let r =
        free_ids-Releases junk (origin - block_count size) (block_count size) origin im ino.blocks
          (omega arith) (λ j l h. omega (arith, owns.below j h)) in
      store_direct-type junk now inum buf size _ ino (IsFormatted-same r.superblock f) lt fits

  -- Case 1-3.
  pub shrink_direct-Holds :
      origin ≤ ndirect
      → block_count size < origin
      → Holds (shrink_direct junk now inum buf size im ino origin (block_count size)) inum buf size
  unfolding shrink_direct
  shrink_direct-Holds le fewer =
      let r =
        free_ids-Releases junk (origin - block_count size) (block_count size) origin im ino.blocks
          (omega arith) (λ j l h. omega (arith, owns.below j h)) in
      store_direct-Holds junk now inum buf size _ ino (IsFormatted-same r.superblock f) lt fits live
        small direct
        (record {
          above = λ j l. owns.above j (omega arith);
          below = λ j l. owns.below j (omega arith);
          used = λ j l.
              r.kept (ino.blocks j) (λ k lk rk e.
                absurd
                  (omega (arith, owns.distinct j k (omega arith) (omega arith) (omega arith) rk e)))
              ∙ owns.used j (omega arith);
          distinct = λ x y a b a' b'. owns.distinct x y a (omega arith) a' (omega arith);
        })

  -- Case 1-1.
  module _ (more : origin < block_count size)
      (room : block_count size - origin ≤ free_blocks im) where
    grown :
        let r = alloc_ids junk (block_count size - origin) origin im ino.blocks in
        Extends im r.0 ino.blocks r.1 origin (block_count size)
    grown =
        alloc_ids-Extends junk (block_count size - origin) origin (block_count size) im ino.blocks
          (omega arith) f room

    grown_ids : Ids
    grown_ids = (alloc_ids junk (block_count size - origin) origin im ino.blocks).1

    grown-InData : (j : ℕ) → j < block_count size → (1028 ≤ grown_ids j) × (grown_ids j < block_num)
    unfolding grown_ids
    grown-InData j l = elim (Bool-cases (ltb j origin)) [
      | inl e ↦
          rw (grown.kept j (ground arith))
            (owns.above j (ground arith), owns.below j (ground arith))
      | inr e ↦ let n = grown.new j (ground arith) l in (n.above, n.below)
    ]

    -- A block that the file had is none of the new ones.
    old-ne-new :
        (j k : ℕ) → j < origin → origin ≤ k → k < block_count size → grown_ids j ≢ grown_ids k
    unfolding grown_ids
    old-ne-new j k l r h same =
        let n = (grown.new k r h).was_free in ground (arith, n, owns.used j l, grown.kept j l)

    grown-Distinct : Distinct grown_ids 0 (block_count size)
    unfolding grown_ids
    grown-Distinct j k lj rj lk rk same = elim (Bool-cases (ltb j origin)) [
      | inl e ↦ elim (Bool-cases (ltb k origin)) [
        | inl d ↦
            owns.distinct j k lj (ground arith) lk (ground arith)
              (sym (grown.kept j (ground arith)) ∙ same ∙ grown.kept k (ground arith))
        | inr d ↦ absurd (old-ne-new j k (ground arith) (ground arith) rk same)
      ]
      | inr e ↦ elim (Bool-cases (ltb k origin)) [
        | inl d ↦ absurd (old-ne-new k j (ground arith) (ground arith) rj (sym same))
        | inr d ↦ grown.distinct j k (ground arith) rj (ground arith) rk same
      ]
    ]

    grown-used :
        (j : ℕ)
        → j < block_count size
        → is_used (alloc_ids junk (block_count size - origin) origin im ino.blocks).0 (grown_ids j)
          ≡ true
    unfolding grown_ids
    grown-used j l = elim (Bool-cases (ltb j origin)) [
      | inl e ↦ rw (grown.kept j (ground arith)) (grown.still_used _ (owns.used j (ground arith)))
      | inr e ↦ (grown.new j (ground arith) l).now_used
    ]

    grown-lt : (i : ℕ) → i ≤ 100 → grown_ids i < 2 ^ 32
    unfolding grown_ids
    grown-lt i le = elim (Bool-cases (ltb i (block_count size))) [
      | inl e ↦ omega (arith, grown-InData i (ground arith))
      | inr e ↦ rw (grown.beyond i (ground arith)) (fits.blocks i le)
    ]

    pub grow_direct-Holds :
        Holds (grow_direct junk now inum buf size im ino origin (block_count size)) inum buf size
    unfolding grow_direct grown_ids
    grow_direct-Holds =
        store_direct-Holds junk now inum buf size _ (record ino { blocks = grown_ids })
          (IsFormatted-same grown.superblock f) lt
          (record {
            type = fits.type;
            size = fits.size;
            atime = fits.atime;
            mtime = fits.mtime;
            ctime = fits.ctime;
            blocks = grown-lt;
          })
          live small direct
          (record {
            above = λ j l. (grown-InData j l).0;
            below = λ j l. (grown-InData j l).1;
            used = grown-used;
            distinct = grown-Distinct;
          })

    pub grow_direct-type :
        (inode_at (grow_direct junk now inum buf size im ino origin (block_count size)) inum).type
        ≡ ino.type
    unfolding grow_direct grown_ids
    grow_direct-type =
        store_direct-type junk now inum buf size _ (record ino { blocks = grown_ids })
          (IsFormatted-same grown.superblock f) lt
          (record {
            type = fits.type;
            size = fits.size;
            atime = fits.atime;
            mtime = fits.mtime;
            ctime = fits.ctime;
            blocks = grown-lt;
          })
