-- ===== src/Inodes.antt =====
-- The inode layer of yfs/inode_manager.cc: struct inode in its block, and the operations on one
-- inode. The inode manager's only field is its block manager.
pub mod Struct
pub mod Lifecycle
pub mod Loops
pub mod Read
pub mod Write
pub mod Holds
pub mod Direct
pub mod Resize
pub mod WriteRead
pub mod Remove
pub mod Indirect
pub mod Unchanged
pub mod Blocklist
use file_system_yfs.Base.{
  ℕ, zero, suc, ◌+◌, ◌-◌, ◌/◌, ◌%◌, ◌^◌, Bool, true, false, Option, none, some, ltb, leb, ◌==◌,
  if◌then◌else◌,
}
use file_system_yfs.Base.Memory.{Buf, load_word, store_words}
use file_system_yfs.Disk.{iblock, inode_num, block_size}
use file_system_yfs.Blocks
use file_system_yfs.Blocks.{BlockManager, read_block, write_block}

abbrev pub InodeManager : Type 0
InodeManager = BlockManager

abbrev pub u32 : ℕ → ℕ
u32 x = x % 2 ^ 32

abbrev pub u16 : ℕ → ℕ
u16 x = x % 2 ^ 16

-- `blocks i` is blocks[i]; past the array it is what lies there in memory.
pub record Inode : Type 0 where
  pub type : ℕ
  pub size : ℕ
  pub atime : ℕ
  pub mtime : ℕ
  pub ctime : ℕ
  pub blocks : ℕ → ℕ

-- enum types
abbrev pub t_dir : ℕ
t_dir = 1

abbrev pub t_file : ℕ
t_file = 2

abbrev pub t_symlink : ℕ
t_symlink = 3

-- The words of the structure: `type` with its padding, the four fields, the array.
unfoldable pub words : Inode → ℕ → ℕ
words ino i =
    if i == 0
    then u16 ino.type
    else if i == 1
    then ino.size
    else if i == 2
    then ino.atime
    else if i == 3
    then ino.mtime
    else if i == 4
    then ino.ctime
    else ino.blocks (i - 5)

-- sizeof(inode_t) / 4
abbrev pub inode_words : ℕ
inode_words = 106

unfoldable pub load_inode : Buf → Inode
load_inode b = record {
  type = u16 (load_word b 0);
  size = load_word b 1;
  atime = load_word b 2;
  mtime = load_word b 3;
  ctime = load_word b 4;
  blocks = λ i. load_word b (5 + i);
}

unfoldable pub store_inode : Buf → Inode → Buf
store_inode b ino = store_words b (words ino) inode_words

-- inode_manager::get_inode. `junk` is what uninitialised memory holds.
unfoldable pub get_inode : Buf → InodeManager → ℕ → Option Inode
get_inode junk im inum =
    if leb inode_num inum
    then none
    else (let ino = load_inode (read_block im (iblock inum im.sb.nblocks) junk) in
        if ino.type == 0 then none else some ino)

-- inode_manager::put_inode
unfoldable pub put_inode : Buf → InodeManager → ℕ → Option Inode → InodeManager
put_inode junk im inum none = im
put_inode junk im inum (some ino) =
    let block = iblock inum im.sb.nblocks in
    write_block im block (store_inode (read_block im block junk) ino)

-- The answers of time(NULL) during one operation, in the order of the calls.
abbrev pub Clock : Type 0
Clock = ℕ → ℕ

unfoldable pub new_inode : Buf → Clock → ℕ → Inode
new_inode junk now type = record {
  type = u16 type;
  size = 0;
  atime = u32 (now 0);
  mtime = u32 (now 1);
  ctime = u32 (now 2);
  blocks = λ i. load_word junk (5 + i);
}

-- The loop of alloc_inode: `n` inodes are left, from `i` on.
unfoldable pub alloc_inode_from : Buf → Clock → ℕ → ℕ → InodeManager → ℕ → InodeManager × ℕ
alloc_inode_from junk now zero i im type = (im, 0)
alloc_inode_from junk now (suc n) i im type = elim (get_inode junk im i) [
  | none ↦ (put_inode junk im i (some (new_inode junk now type)), i)
  | some ino ↦ alloc_inode_from junk now n (i + 1) im type
]

-- inode_manager::alloc_inode
unfoldable pub alloc_inode : Buf → Clock → InodeManager → ℕ → InodeManager × ℕ
unfolding alloc_inode_from
alloc_inode junk now im type = alloc_inode_from junk now (im.sb.ninodes - 1) 1 im type

abbrev pub zero_inode : Inode
zero_inode = record { type = 0; size = 0; atime = 0; mtime = 0; ctime = 0; blocks = λ i. 0 }

-- inode_manager::free_inode
unfoldable pub free_inode : Buf → InodeManager → ℕ → InodeManager
free_inode junk im inum = elim (get_inode junk im inum) [
  | none ↦ im
  | some ino ↦ put_inode junk im inum (some zero_inode)
]

-- extent_protocol::attr
pub record Attr : Type 0 where
  pub type : ℕ
  pub atime : ℕ
  pub mtime : ℕ
  pub ctime : ℕ
  pub size : ℕ

-- A short as a uint32_t: the sign is extended.
abbrev pub widen : ℕ → ℕ
widen x = if ltb x (2 ^ 15) then x else x + (2 ^ 32 - 2 ^ 16)

-- inode_manager::getattr, which copies atime where mtime is meant.
unfoldable pub getattr : Buf → InodeManager → ℕ → Attr
getattr junk im inum = elim (get_inode junk im inum) [
  | none ↦ record { type = 0; atime = 0; mtime = 0; ctime = 0; size = 0 }
  | some ino ↦ record {
    type = widen ino.type;
    atime = ino.atime;
    mtime = ino.atime;
    ctime = ino.ctime;
    size = ino.size;
  }
]

-- The number of blocks that `size` bytes take.
unfoldable pub block_count : ℕ → ℕ
block_count size = if size % block_size == 0 then size / block_size else size / block_size + 1

-- inode_manager::inode_manager: the root directory must be inode 1; `none` is exit(0).
unfoldable pub init : Buf → Clock → Option InodeManager
init junk now =
    let (im, root) = alloc_inode junk now Blocks.init t_dir in if root == 1 then some im else none
