-- ===== src/Disk.antt =====
-- The disk layer of yfs/inode_manager.cc and the constants of yfs/inode_manager.h: blocks that are
-- read and written whole, with requests for a block that does not exist dropped.
use file_system_yfs.Base.{ℕ, ◌+◌, ◌*◌, ◌/◌, Option, none, some, ltb, ◌==◌, if◌then◌else◌}
use file_system_yfs.Base.Memory.{Buf, memcpy}

abbrev pub block_size : ℕ
block_size = 1024 * 16

abbrev pub disk_size : ℕ
disk_size = 1024 * 1024 * 32

abbrev pub block_num : ℕ
block_num = disk_size / block_size

abbrev pub inode_num : ℕ
inode_num = 1024

-- Bitmap bits per block.
abbrev pub bpb : ℕ
bpb = block_size * 8

abbrev pub ndirect : ℕ
ndirect = 100

abbrev pub nindirect : ℕ
nindirect = block_size / 4

abbrev pub maxfile : ℕ
maxfile = ndirect + nindirect

-- IBLOCK(i, nblocks) with IPB = 1
abbrev pub iblock : ℕ → ℕ → ℕ
iblock i nblocks = nblocks / bpb + i / 1 + 3

abbrev pub bblock : ℕ → ℕ
bblock b = b / bpb + 2

-- blocks[id]
abbrev pub Disk : Type 0
Disk = ℕ → Buf

-- A buffer is NULL where it is `none`.
unfoldable pub read_block : Disk → ℕ → Option Buf → Option Buf
read_block d id none = none
read_block d id (some buf) =
    if ltb id block_num then some (memcpy buf 0 (d id) 0 block_size) else some buf

unfoldable pub write_block : Disk → ℕ → Option Buf → Disk
write_block d id none = d
write_block d id (some buf) =
    if ltb id block_num then (λ b. if b == id then memcpy (d id) 0 buf 0 block_size else d b) else d

-- disk::disk: the whole array is zeroed.
unfoldable pub init : Disk
init b i = 0
