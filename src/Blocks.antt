-- ===== src/Blocks.antt =====
-- The block layer of yfs/inode_manager.cc: the superblock and the block bitmap.
pub mod Bitmap
pub mod Cells
pub mod Alloc
pub mod Free
use Prim.Native.Nat.{bit_and, bit_or}
use mathlib.Core.Option
use file_system_yfs.Base.{
  ℕ, zero, suc, ◌+◌, ◌-◌, ◌*◌, ◌/◌, ◌%◌, ◌^◌, Bool, true, false, Option, none, some, ◌==◌, ◌≡◌,
  if◌then◌else◌,
}
use file_system_yfs.Base.Memory.{Buf}
use file_system_yfs.Disk
use file_system_yfs.Disk.{Disk, block_size, block_num, inode_num, iblock, bblock, bpb}

pub record Superblock : Type 0 where
  pub size : ℕ
  pub nblocks : ℕ
  pub ninodes : ℕ

pub record BlockManager : Type 0 where
  pub d : Disk
  pub sb : Superblock

-- block_manager::block_manager
unfoldable pub init : BlockManager
init = record {
  d = Disk.init;
  sb = record { size = block_size * block_num; nblocks = block_num; ninodes = inode_num };
}

unfoldable pub read_block : BlockManager → ℕ → Buf → Buf
unfolding Disk.read_block
read_block bm id buf = Option.get_or (Disk.read_block bm.d id (some buf)) buf

unfoldable pub write_block : BlockManager → ℕ → Buf → BlockManager
unfolding Disk.write_block
write_block bm id buf = record bm { d = Disk.write_block bm.d id (some buf) }

-- The bit for `index` of a bitmap block, the highest bit of a byte first.
unfoldable pub is_set : Buf → ℕ → Bool
is_set bitmap index = bitmap (index / 8) % 256 / 2 ^ (7 - index % 8) % 2 == 1

unfoldable pub set_bit : Buf → ℕ → Buf
set_bit bitmap index k =
    if k == index / 8
    then bit_or (bitmap (index / 8) % 256) (2 ^ (7 - index % 8)) % 256
    else bitmap k

unfoldable pub clear_bit : Buf → ℕ → Buf
clear_bit bitmap index k =
    if k == index / 8
    then bit_and (bitmap (index / 8) % 256) (255 - 2 ^ (7 - index % 8)) % 256
    else bitmap k

-- The inner loop of alloc_block: the first clear bit among `n` bits from `index` on.
unfoldable pub find_clear : ℕ → ℕ → Buf → Option ℕ
find_clear zero index bitmap = none
find_clear (suc n) index bitmap = elim (is_set bitmap index) [
  | true ↦ find_clear n (index + 1) bitmap
  | false ↦ some index
]

-- The outer loop: `n` bitmap blocks are left, from `block` on.
unfoldable pub scan : ℕ → ℕ → ℕ → BlockManager → Buf → BlockManager × ℕ
scan zero block index bm buf = (bm, 0)
scan (suc n) block index bm buf =
    let bitmap = read_block bm block buf in
    elim (find_clear (block_size * 8 - index) index bitmap) [
      | none ↦ scan n (block + 1) 0 bm bitmap
      | some k ↦ (write_block bm block (set_bit bitmap k), (block - 2) * (8 * block_size) + k)
    ]

abbrev pub fir_data_blockid : BlockManager → ℕ
fir_data_blockid bm = iblock bm.sb.ninodes bm.sb.nblocks + 1

-- `junk` is what the allocated buffer holds at first.
unfoldable pub alloc_block : Buf → BlockManager → BlockManager × ℕ
alloc_block junk bm =
    let first = bblock (fir_data_blockid bm) in
    let last = bblock bm.sb.nblocks in
    scan (last + 1 - first) first (fir_data_blockid bm % (block_size * 8)) bm junk

unfoldable pub free_block : Buf → BlockManager → ℕ → BlockManager
free_block junk bm id =
    let target = bblock id in
    let bitmap = read_block bm target junk in
    write_block bm target (clear_bit bitmap (id % (8 * block_size)))

-- The bitmap's view of block `id`.
unfoldable pub is_used : BlockManager → ℕ → Bool
unfolding is_set
is_used bm id = is_set (bm.d (bblock id)) (id % bpb)

-- The superblock that the constructor writes.
pub record IsFormatted (bm : BlockManager) : Type 0 where
  pub nblocks : bm.sb.nblocks ≡ block_num
  pub ninodes : bm.sb.ninodes ≡ inode_num
