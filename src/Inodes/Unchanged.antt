-- ===== src/Inodes/Unchanged.antt =====
-- Operations that leave a file as it was: reading any file, and making another one.
use file_system_yfs.Base.{
  ℕ, ◌+◌, ◌≤◌, ◌<◌, ◌≡◌, ◌≢◌, refl, sym, ap, ◌∙◌, inl, inr, true, arith, ltb, leb, ◌==◌, Bool-cases,
  Option, none, some,
}
use file_system_yfs.Base.Memory.{Buf}
use file_system_yfs.Disk.{bblock, ndirect, inode_num}
use file_system_yfs.Blocks.{IsFormatted}
use file_system_yfs.Blocks.Cells.{is_used-same}
use file_system_yfs.Inodes.{
  InodeManager, Inode, Clock, u32, get_inode, put_inode, block_count, load_inode,
}
use file_system_yfs.Inodes.Loops.Allocate.{IsFormatted-same}
use file_system_yfs.Inodes.Lifecycle.{CreatesOrFull}
use file_system_yfs.Inodes.Read.{read_file}
use file_system_yfs.Inodes.Struct.{
  SameInode, Fits, inode_at, get_inode-cases, put_inode_at, put_inode_other, put_inode-sb,
  load_inode-Fits,
}
use file_system_yfs.Inodes.Holds.{Holds}

-- The superblock, the bitmap, the data blocks, and of the inode the type, the size and the block ids.
pub record Unchanged (im im' : InodeManager) (inum : ℕ) : Type 0 where
  pub superblock : im'.sb ≡ im.sb
  pub bitmap : im'.d 2 ≡ im.d 2
  pub data_blocks : (b : ℕ) → 1028 ≤ b → im'.d b ≡ im.d b
  pub type : (inode_at im' inum).type ≡ (inode_at im inum).type
  pub size : (inode_at im' inum).size ≡ (inode_at im inum).size
  pub blocks : (i : ℕ) → i ≤ 100 → (inode_at im' inum).blocks i ≡ (inode_at im inum).blocks i

Unchanged-refl : (im : InodeManager) (inum : ℕ) → Unchanged im im inum
Unchanged-refl im inum = record {
  superblock = refl;
  bitmap = refl;
  data_blocks = λ b h. refl;
  type = refl;
  size = refl;
  blocks = λ i h. refl;
}

pub Holds-Unchanged :
    (im im' : InodeManager) (inum : ℕ) (buf : Buf) (size : ℕ)
    → block_count size ≤ ndirect
    → Unchanged im im' inum
    → Holds im inum buf size
    → Holds im' inum buf size
Holds-Unchanged im im' inum buf size direct u h = record {
  formatted = IsFormatted-same u.superblock h.formatted;
  exists = λ z. h.exists (sym u.type ∙ z);
  size_at = u.size ∙ h.size_at;
  owns = record {
    above = λ j l. rw (u.blocks j (omega arith)) (h.owns.above j l);
    below = λ j l. rw (u.blocks j (omega arith)) (h.owns.below j l);
    used = λ j l.
        let id = (inode_at im inum).blocks j in
        let place : bblock id ≡ 2 = omega (arith, h.owns.below j l) in
        rw (u.blocks j (omega arith))
          (is_used-same im im' id (rw place u.bitmap) ∙ h.owns.used j l);
    distinct = λ j k lj rj lk rk e.
        h.owns.distinct j k lj rj lk rk
          (sym (u.blocks j (omega arith)) ∙ e ∙ u.blocks k (omega arith));
  };
  contents = λ j c l r. rw (u.blocks j (omega arith)) (
      ap (λ b. b c) (u.data_blocks ((inode_at im inum).blocks j) (h.owns.above j l))
      ∙ h.contents j c l r);
}

module _ (junk : Buf) (im : InodeManager) (f : IsFormatted im) where
  -- Putting an inode back with another access time.
  put_inode-Unchanged :
      (i inum : ℕ) (ino : Inode) (time : ℕ)
      → i < inode_num
      → SameInode ino (inode_at im i)
      → Unchanged im (put_inode junk im i (some (record ino { atime = u32 time }))) inum
  put_inode-Unchanged i inum ino time lt same =
      let new : Inode = record ino { atime = u32 time } in
      let old = load_inode-Fits (im.d (i + 3)) in
      let fits : Fits new = record {
        type = rw same.type old.type;
        size = rw same.size old.size;
        atime = omega arith;
        mtime = rw same.mtime old.mtime;
        ctime = rw same.ctime old.ctime;
        blocks = λ k le. rw (same.blocks k le) (old.blocks k le);
      } in
      let now_at = put_inode_at junk im i f lt new fits in
      let elsewhere = put_inode_other junk im i f lt new in
      let sb = put_inode-sb junk im i f lt (some new) in
      elim (Bool-cases (i == inum)) [
        | inl e ↦
            let here : inum ≡ i = ground arith in
            record {
              superblock = sb;
              bitmap = elsewhere 2 (omega arith);
              data_blocks = λ b h. elsewhere b (omega arith);
              type = rw here (now_at.type ∙ same.type);
              size = rw here (now_at.size ∙ same.size);
              blocks = λ k le. rw here (now_at.blocks k le ∙ same.blocks k le);
            }
        | inr e ↦
            let apart : inum + 3 ≢ i + 3 = ground arith in
            let inode_block = ap load_inode (elsewhere (inum + 3) apart) in
            record {
              superblock = sb;
              bitmap = elsewhere 2 (omega arith);
              data_blocks = λ b h. elsewhere b (omega arith);
              type = ap (λ n. n.type) inode_block;
              size = ap (λ n. n.size) inode_block;
              blocks = λ k le. ap (λ n. n.blocks k) inode_block;
            }
      ]

  -- read_file of any number leaves every file as it was.
  pub read_file-Unchanged :
      (now : Clock) (i inum : ℕ) (out : Option Buf) (size : ℕ)
      → Unchanged im (read_file junk now im i out size).0 inum
  unfolding read_file get_inode
  read_file-Unchanged now i inum out size = elim (Bool-cases (ltb i inode_num)) [
    | inl in_table ↦ elim (get_inode-cases junk im i f (ground arith)) [
      | inl (e, z) ↦ rw (e, read_file) (Unchanged-refl im inum)
      | inr (ino, e, same, _) ↦
          rw (e, read_file) (put_inode-Unchanged i inum ino (now 0) (ground arith) same)
    ]
    | inr outside ↦
        let far : leb inode_num i ≡ true = ground arith in
        let absent : get_inode junk im i ≡ none = rw (get_inode, far) refl in
        rw (absent, read_file) (Unchanged-refl im inum)
  ]

-- Making a new file leaves every other one as it was.
pub Creates-Unchanged :
    (im : InodeManager) (type inum : ℕ) (r : InodeManager × ℕ)
    → (inode_at im inum).type ≢ 0
    → CreatesOrFull im type r
    → Unchanged im r.0 inum
Creates-Unchanged im type inum r live (inl made) =
    let apart : inum + 3 ≢ r.1 + 3 =
      λ e. live (ap (λ b. (load_inode (im.d b)).type) e ∙ made.was_free) in
    let inode_block = ap load_inode (made.others (inum + 3) apart) in
    record {
      superblock = made.superblock;
      bitmap = made.others 2 (omega arith);
      data_blocks = λ b h. made.others b (omega (arith, made.below));
      type = ap (λ n. n.type) inode_block;
      size = ap (λ n. n.size) inode_block;
      blocks = λ k le. ap (λ n. n.blocks k) inode_block;
    }
Creates-Unchanged im type inum r live (inr (same, full)) = rw same (Unchanged-refl im inum)

pub Creates-bitmap :
    (im : InodeManager) (type : ℕ) (r : InodeManager × ℕ)
    → CreatesOrFull im type r
    → (r.0.sb ≡ im.sb) × (r.0.d 2 ≡ im.d 2) × (r.1 < inode_num)
Creates-bitmap im type r (inl made) = (made.superblock, made.others 2 (omega arith), made.below)
Creates-bitmap im type r (inr (same, full)) = rw same (refl, refl, omega arith)
