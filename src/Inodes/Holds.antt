-- ===== src/Inodes/Holds.antt =====
-- What it means that the disk holds a file, and that read_file gives a file of at most NDIRECT
-- blocks back.
use file_system_yfs.Base.{
  true, ℕ, ◌+◌, ◌-◌, ◌*◌, ◌/◌, ◌%◌, ◌≤◌, ◌<◌, ◌≡◌, ◌≢◌, refl, ap, ◌∙◌, inl, inr, arith, leb,
  Bool-cases, Option, some, le→leb,
}
use file_system_yfs.Base.Memory.{Buf}
use file_system_yfs.Disk.{block_num, block_size, ndirect, inode_num}
use file_system_yfs.Blocks.{is_used, IsFormatted}
use file_system_yfs.Blocks.Cells.{read_block_in}
use file_system_yfs.Inodes.{InodeManager, Inode, Clock, block_count}
use file_system_yfs.Inodes.Loops.{Ids, read_blocks}
use file_system_yfs.Inodes.Loops.Copy.{Distinct, OnDisk, read_blocks_at}
use file_system_yfs.Inodes.Read.{read_contents, read_file}
use file_system_yfs.Inodes.Struct.{SameInode, inode_at, get_inode-cases}

-- The file has its own blocks: `n` data blocks of the disk, no two alike, all taken in the bitmap.
pub record Owns (im : InodeManager) (ids : Ids) (n : ℕ) : Type 0 where
  pub above : (j : ℕ) → j < n → 1028 ≤ ids j
  pub below : (j : ℕ) → j < n → ids j < block_num
  pub used : (j : ℕ) → j < n → is_used im (ids j) ≡ true
  pub distinct : Distinct ids 0 n

pub Owns-le : (im : InodeManager) (ids : Ids) (n m : ℕ) → m ≤ n → Owns im ids n → Owns im ids m
Owns-le im ids n m le o = record {
  above = λ j l. o.above j (omega arith);
  below = λ j l. o.below j (omega arith);
  used = λ j l. o.used j (omega arith);
  distinct = λ x y a b a' b'. o.distinct x y a (omega arith) a' (omega arith);
}

-- The disk holds a file `inum` of `size` bytes, which owns its blocks, and these are the slices of `buf`.
pub record Holds (im : InodeManager) (inum : ℕ) (buf : Buf) (size : ℕ) : Type 0 where
  pub formatted : IsFormatted im
  pub exists : (inode_at im inum).type ≢ 0
  pub size_at : (inode_at im inum).size ≡ size
  pub owns : Owns im (inode_at im inum).blocks (block_count size)
  pub contents :
      (j c : ℕ)
      → j < block_count size
      → c < block_size
      → im.d ((inode_at im inum).blocks j) c ≡ buf (j * block_size + c)

-- Byte `p` of a file lies in one of its blocks.
pub block_count-lt : (size p : ℕ) → p < size → p / block_size < block_count size
unfolding block_count
block_count-lt size p h = ground arith

pub block_count-le_one : (size : ℕ) → size ≤ block_size → block_count size ≤ 1
unfolding block_count
block_count-le_one size h = ground arith

-- read_file's buffer holds byte `p` of the file at `p`.
read_contents_at :
    (junk : Buf) (im : InodeManager) (ino : Inode) (p : ℕ)
    → block_count ino.size ≤ ndirect
    → OnDisk ino.blocks 0 (block_count ino.size)
    → p < ino.size
    → read_contents junk im ino p ≡ im.d (ino.blocks (p / block_size)) (p % block_size)
unfolding read_contents
read_contents_at junk im ino p direct o h = elim (Bool-cases (leb ino.size block_size)) [
  | inl e ↦
      let d : p / block_size ≡ 0 = ground arith in
      let m : p % block_size ≡ p = ground arith in
      rw (e, d, m)
        (read_block_in im (ino.blocks 0) junk p
          (o 0 (omega arith) (omega (arith, block_count-lt ino.size p h))) (ground arith))
  | inr e ↦
      let at : p ≡ 0 + (p / block_size - 0) * block_size + p % block_size = omega arith in
      rw (e, le→leb _ _ direct)
        (ap (read_blocks (block_count ino.size) 0 im ino.blocks junk 0) at
          ∙ read_blocks_at (block_count ino.size) 0 im ino.blocks junk 0 (p / block_size)
              (p % block_size) (λ j l r. o j l (omega arith)) (omega arith)
              (omega (arith, block_count-lt ino.size p h)) (omega arith))
]

module _ (junk : Buf) (im : InodeManager) (inum : ℕ) (buf : Buf) (size : ℕ)
    (direct : block_count size ≤ ndirect) (held : Holds im inum buf size) (ino : Inode)
    (same : SameInode ino (inode_at im inum)) where
  size_same : ino.size ≡ size
  size_same = same.size ∙ held.size_at

  count_same : block_count ino.size ≡ block_count size
  count_same = ap block_count size_same

  Holds-read_contents : (p : ℕ) → p < size → read_contents junk im ino p ≡ buf p
  Holds-read_contents p h =
      let lt = block_count-lt size p h in
      let c : p % block_size < block_size = omega arith in
      read_contents_at junk im ino p (omega (arith, count_same))
        (λ j l r.
          rw (same.blocks j (omega (arith, count_same)))
            (held.owns.below j (omega (arith, count_same))))
        (omega (arith, size_same))
      ∙ (rw (same.blocks (p / block_size) (omega arith))
          (held.contents (p / block_size) (p % block_size) lt c ∙ ap buf (omega arith)))

-- Reading a file of at most NDIRECT blocks gives its size and its bytes.
pub Holds-read_file :
    (junk : Buf) (now : Clock) (im : InodeManager) (inum : ℕ) (buf : Buf) (size : ℕ)
    (out : Option Buf) (old_size : ℕ)
    → inum < inode_num
    → block_count size ≤ ndirect
    → Holds im inum buf size
    → let r = read_file junk now im inum out old_size in
      (r.2 ≡ size) × (b : Buf) × (r.1 ≡ some b) × ((p : ℕ) → p < size → b p ≡ buf p)
unfolding read_file
Holds-read_file junk now im inum buf size out old_size lt direct held =
    elim (get_inode-cases junk im inum held.formatted lt) [
      | inl (e, z) ↦ absurd (held.exists z)
      | inr (ino, e, same, _) ↦
          rw (e, read_file)
            (
              same.size ∙ held.size_at,
              read_contents junk im ino,
              refl,
              Holds-read_contents junk im inum buf size direct held ino same,
            )
    ]
