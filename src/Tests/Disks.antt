-- ===== src/Tests/Disks.antt =====
-- The disk layers, on the disk that the constructor makes.
use file_system_yfs.Base.{
  ltb, if◌then◌else◌, ℕ, zero, suc, ◌^◌, ◌+◌, ◌-◌, ◌/◌, ◌%◌, ◌<◌, ◌≡◌, refl, true, false, arith,
  ◌==◌,
}
use file_system_yfs.Base.Memory.{Buf}
use file_system_yfs.Disk
use file_system_yfs.Disk.{bpb, block_num}
use file_system_yfs.Blocks
use file_system_yfs.Blocks.{BlockManager, IsFormatted, is_used, alloc_block, free_block}
use file_system_yfs.Blocks.Alloc.{Takes, Marks, Allocates, alloc_block-Allocates, free_block-Marks}
use file_system_yfs.Blocks.Free.{free_blocks, count_free, alloc_block-free, alloc_block_beyond_disk}

abbrev pub blank : Buf
blank i = 0

pub blank_disk-IsFormatted : IsFormatted Blocks.init
unfolding Blocks.init
blank_disk-IsFormatted = record { nblocks = refl; ninodes = refl }

pub blank_disk_free : free_blocks Blocks.init ≡ 1020
unfolding Blocks.init count_free is_used Disk.init
blank_disk_free = refl

abbrev taken_disk : BlockManager
taken_disk = (alloc_block blank Blocks.init).0

taken : Takes Blocks.init taken_disk (alloc_block blank Blocks.init).1
taken =
    (alloc_block-free blank Blocks.init blank_disk-IsFormatted (omega (arith, blank_disk_free))).0

alloc_block-Allocates_example : Allocates blank Blocks.init (alloc_block blank Blocks.init)
alloc_block-Allocates_example = alloc_block-Allocates blank Blocks.init blank_disk-IsFormatted

free_block-Marks_example : Marks taken_disk (free_block blank taken_disk 1028) 1028 false
free_block-Marks_example = free_block-Marks blank taken_disk 1028 (omega arith)

alloc_block-free_example :
    Takes Blocks.init taken_disk (alloc_block blank Blocks.init).1
    × ((alloc_block blank Blocks.init).1 < 2048)
    × (free_blocks taken_disk + 1 ≡ free_blocks Blocks.init)
alloc_block-free_example =
    alloc_block-free blank Blocks.init blank_disk-IsFormatted (omega (arith, blank_disk_free))

-- A disk whose bitmap has the bits of the disk's blocks set, and no other.
abbrev full_disk : BlockManager
full_disk = record { d = λ b i. if ltb i 256 then 255 else 0; sb = Blocks.init.sb }

high_bit : (k : ℕ) → k < 8 → (255 % 256 / 2 ^ (7 - k) % 2 == 1) ≡ true
high_bit zero h = refl
high_bit (suc zero) h = refl
high_bit (suc (suc zero)) h = refl
high_bit (suc (suc (suc zero))) h = refl
high_bit (suc (suc (suc (suc zero)))) h = refl
high_bit (suc (suc (suc (suc (suc zero))))) h = refl
high_bit (suc (suc (suc (suc (suc (suc zero)))))) h = refl
high_bit (suc (suc (suc (suc (suc (suc (suc zero))))))) h = refl
high_bit (suc (suc (suc (suc (suc (suc (suc (suc k)))))))) h = absurd (omega arith)

full_disk_used : (j : ℕ) → j < block_num → is_used full_disk j ≡ true
unfolding is_used
full_disk_used j h =
    let inside : ltb (j % bpb / 8) 256 ≡ true = ground arith in
    rw inside (high_bit (j % bpb % 8) (omega arith))

full_disk_clear : is_used full_disk block_num ≡ false
unfolding is_used
full_disk_clear = refl

full_disk-IsFormatted : IsFormatted full_disk
unfolding Blocks.init
full_disk-IsFormatted = record { nblocks = refl; ninodes = refl }

alloc_block_beyond_disk_example : (alloc_block blank full_disk).1 ≡ block_num
alloc_block_beyond_disk_example =
    alloc_block_beyond_disk blank full_disk full_disk-IsFormatted (λ j l r. full_disk_used j r)
      full_disk_clear
