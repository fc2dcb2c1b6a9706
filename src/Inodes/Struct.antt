-- ===== src/Inodes/Struct.antt =====
-- Storing an inode and loading it again: get_inode after put_inode.
use file_system_yfs.Base.{
  ℕ, ◌+◌, ◌-◌, ◌%◌, ◌^◌, ◌≤◌, ◌<◌, ◌≡◌, ◌≢◌, refl, ap, ◌∙◌, ◌⊎◌, inl, inr, Option, none, some,
  arith, ◌==◌, if◌then◌else◌, Bool-cases,
}
use file_system_yfs.Base.Memory.{Buf, load_word, store_words, load_word-lt, load_word-store_words}
use file_system_yfs.Disk.{iblock, inode_num}
use file_system_yfs.Blocks.{read_block, IsFormatted}
use file_system_yfs.Blocks.Cells.{
  load_word-read_block, load_word-write_block, write_block_other, write_block-sb,
}
use file_system_yfs.Inodes.{
  InodeManager, Inode, words, inode_words, load_inode, store_inode, get_inode, put_inode, u16,
}

-- The array blocks[NDIRECT + 1] and the fields hold the same values.
pub record SameInode (a b : Inode) : Type 0 where
  pub type : a.type ≡ b.type
  pub size : a.size ≡ b.size
  pub atime : a.atime ≡ b.atime
  pub mtime : a.mtime ≡ b.mtime
  pub ctime : a.ctime ≡ b.ctime
  pub blocks : (i : ℕ) → i ≤ 100 → a.blocks i ≡ b.blocks i

-- The values fit the fields of the structure.
pub record Fits (ino : Inode) : Type 0 where
  pub type : ino.type < 2 ^ 16
  pub size : ino.size < 2 ^ 32
  pub atime : ino.atime < 2 ^ 32
  pub mtime : ino.mtime < 2 ^ 32
  pub ctime : ino.ctime < 2 ^ 32
  pub blocks : (i : ℕ) → i ≤ 100 → ino.blocks i < 2 ^ 32

pub SameInode-trans : {a b c : Inode} → SameInode a b → SameInode b c → SameInode a c
SameInode-trans p q = record {
  type = p.type ∙ q.type;
  size = p.size ∙ q.size;
  atime = p.atime ∙ q.atime;
  mtime = p.mtime ∙ q.mtime;
  ctime = p.ctime ∙ q.ctime;
  blocks = λ i h. p.blocks i h ∙ q.blocks i h;
}

pub load_inode-Fits : (b : Buf) → Fits (load_inode b)
unfolding load_inode
load_inode-Fits b = record {
  type = omega arith;
  size = load_word-lt b 1;
  atime = load_word-lt b 2;
  mtime = load_word-lt b 3;
  ctime = load_word-lt b 4;
  blocks = λ i h. load_word-lt b (5 + i);
}

-- Two buffers whose first words agree hold the same inode.
pub load_inode-same :
    (b c : Buf)
    → ((w : ℕ) → w < inode_words → load_word b w ≡ load_word c w)
    → SameInode (load_inode b) (load_inode c)
unfolding load_inode
load_inode-same b c h = record {
  type = ap u16 (h 0 (omega arith));
  size = h 1 (omega arith);
  atime = h 2 (omega arith);
  mtime = h 3 (omega arith);
  ctime = h 4 (omega arith);
  blocks = λ i le. h (5 + i) (omega arith);
}

-- Loading a stored inode gives its fields and its block ids back.
load_inode-store_inode :
    (b : Buf) (ino : Inode) → Fits ino → SameInode (load_inode (store_inode b ino)) ino
unfolding load_inode store_inode words
load_inode-store_inode b ino f = record {
  type = ground (arith, at 0 (omega arith));
  size = ground (arith, at 1 (omega arith));
  atime = ground (arith, at 2 (omega arith));
  mtime = ground (arith, at 3 (omega arith));
  ctime = ground (arith, at 4 (omega arith));
  blocks = λ i le.
      at (5 + i) (omega arith)
      ∙ (let e : (5 + i) - 5 ≡ i = omega arith in ground (arith, f.blocks i le, e));
}
  where
    at :
        (w : ℕ)
        → w < inode_words
        → load_word (store_words b (words ino) inode_words) w ≡ words ino w % 2 ^ 32
    at w lt = load_word-store_words b (words ino) inode_words w lt

-- The inode that the disk holds under `inum`.
abbrev pub inode_at : InodeManager → ℕ → Inode
inode_at im inum = load_inode (im.d (inum + 3))

pub iblock-IsFormatted :
    (im : InodeManager) (inum : ℕ) → IsFormatted im → iblock inum im.sb.nblocks ≡ inum + 3
iblock-IsFormatted im inum f = omega (arith, f.nblocks)

module _ (junk : Buf) (im : InodeManager) (inum : ℕ) (f : IsFormatted im)
    (h : inum < inode_num) where
  pub read_block-inode_at :
      SameInode (load_inode (read_block im (iblock inum im.sb.nblocks) junk)) (inode_at im inum)
  read_block-inode_at = rw (iblock-IsFormatted im inum f) (
      load_inode-same _ _
        λ w lt. load_word-read_block im (inum + 3) junk w (omega arith) (omega arith))

  get_inode-load :
      let ino = load_inode (read_block im (iblock inum im.sb.nblocks) junk) in
      get_inode junk im inum ≡ (if ino.type == 0 then none else some ino)
  unfolding get_inode
  get_inode-load = ground arith

  -- get_inode finds the inode that the disk holds, unless its type is 0.
  pub get_inode-cases :
      ((get_inode junk im inum ≡ none) × ((inode_at im inum).type ≡ 0))
      ⊎ ((ino : Inode) × (get_inode junk im inum ≡ some ino)
          × SameInode ino (inode_at im inum)
          × ((inode_at im inum).type ≢ 0))
  get_inode-cases =
      let buf = read_block im (iblock inum im.sb.nblocks) junk in
      let same = read_block-inode_at in
      elim (Bool-cases ((load_inode buf).type == 0)) [
        | inl e ↦ inl (rw get_inode-load (rw e), ground (arith, same.type))
        | inr e ↦ inr (load_inode buf, rw get_inode-load (rw e), same, ground (arith, same.type))
      ]

  pub put_inode_at :
      (ino : Inode) → Fits ino → SameInode (inode_at (put_inode junk im inum (some ino)) inum) ino
  unfolding put_inode
  put_inode_at ino fits = rw (iblock-IsFormatted im inum f) (
      SameInode-trans
        (load_inode-same _ _
          λ w lt. load_word-write_block im (inum + 3) _ w (omega arith) (omega arith))
        (load_inode-store_inode _ ino fits))

  pub put_inode_other :
      (ino : Inode) (b : ℕ) → b ≢ inum + 3 → (put_inode junk im inum (some ino)).d b ≡ im.d b
  unfolding put_inode
  put_inode_other ino b ne =
      write_block_other im _ b _ (omega (arith, iblock-IsFormatted im inum f))

  pub put_inode-sb : (ino : Option Inode) → (put_inode junk im inum ino).sb ≡ im.sb
  unfolding put_inode
  put_inode-sb none = refl
  put_inode-sb (some ino) = write_block-sb im _ _
