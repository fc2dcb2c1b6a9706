-- ===== src/Tests/Stored.antt =====
-- Disks that hold one given inode, with number 5.
use file_system_yfs.Base.{
  if◌then◌else◌, ◌==◌, true, ℕ, ◌+◌, ◌*◌, ◌^◌, ◌<◌, ◌≡◌, ◌≢◌, refl, ap, ◌∙◌, false, arith, some,
}
use file_system_yfs.Base.Memory.{load_word}
use file_system_yfs.Disk
use file_system_yfs.Disk.{block_size, ndirect}
use file_system_yfs.Blocks
use file_system_yfs.Blocks.{IsFormatted, is_used}
use file_system_yfs.Blocks.Cells.{is_used-same}
use file_system_yfs.Inodes.{InodeManager, Inode, put_inode, block_count, t_file}
use file_system_yfs.Inodes.Struct.{
  SameInode, Fits, inode_at, put_inode_at, put_inode_other, put_inode-sb,
}
use file_system_yfs.Inodes.Loops.Allocate.{IsFormatted-same}
use file_system_yfs.Inodes.Write.{write_file}
use file_system_yfs.Inodes.Blocklist.{remove_file}
use file_system_yfs.Inodes.Remove.{remove_file-frees_other}
use file_system_yfs.Inodes.Indirect.{write_file-zeroes}
use file_system_yfs.Tests.Disks.{blank, blank_disk-IsFormatted}
use file_system_yfs.Tests.Files.{clock, letters}

module _ (ino : Inode) (fits : Fits ino) where
  stored : InodeManager
  stored = put_inode blank Blocks.init 5 (some ino)

  stored_same : SameInode (inode_at stored 5) ino
  unfolding stored
  stored_same = put_inode_at blank Blocks.init 5 blank_disk-IsFormatted (omega arith) ino fits

  stored-IsFormatted : IsFormatted stored
  unfolding stored
  stored-IsFormatted =
      IsFormatted-same
        (put_inode-sb blank Blocks.init 5 blank_disk-IsFormatted (omega arith) (some ino))
        blank_disk-IsFormatted

  stored_other : (b i : ℕ) → b ≢ 8 → stored.d b i ≡ 0
  unfolding stored Blocks.init Disk.init
  stored_other b i ne =
      ap (λ d. d i)
        (put_inode_other blank Blocks.init 5 blank_disk-IsFormatted (omega arith) ino b ne)

-- A file of `size` bytes whose blocks are 1100, 1101, ….
abbrev given_inode : ℕ → Inode
given_inode size = record {
  type = t_file;
  size = size;
  atime = 7;
  mtime = 9;
  ctime = 9;
  blocks = λ i. 1100 + i;
}

given-Fits : (size : ℕ) → size < 2 ^ 32 → Fits (given_inode size)
given-Fits size h = record {
  type = omega arith;
  size = h;
  atime = omega arith;
  mtime = omega arith;
  ctime = omega arith;
  blocks = λ i le. omega arith;
}

empty-Fits : Fits (given_inode 0)
empty-Fits = given-Fits 0 (omega arith)

-- A disk whose bitmap has every bit set, with an empty file: block 1100 is taken.
abbrev marked : InodeManager
marked = record { d = λ b i. if b == 2 then 255 else 0; sb = Blocks.init.sb }

marked-IsFormatted : IsFormatted marked
unfolding Blocks.init
marked-IsFormatted = record { nblocks = refl; ninodes = refl }

abbrev empty_disk : InodeManager
empty_disk = put_inode blank marked 5 (some (given_inode 0))

empty_same : SameInode (inode_at empty_disk 5) (given_inode 0)
empty_same = put_inode_at blank marked 5 marked-IsFormatted (omega arith) (given_inode 0) empty-Fits

empty_disk-IsFormatted : IsFormatted empty_disk
empty_disk-IsFormatted =
    IsFormatted-same
      (put_inode-sb blank marked 5 marked-IsFormatted (omega arith) (some (given_inode 0)))
      marked-IsFormatted

no_blocks : block_count (inode_at empty_disk 5).size ≡ 0
no_blocks = ap block_count empty_same.size ∙ count
  where
    count : block_count 0 ≡ 0
    count = unfold block_count in refl

marked_used : is_used marked 1100 ≡ true
unfolding is_used
marked_used = refl

used_before :
    is_used empty_disk ((inode_at empty_disk 5).blocks (block_count (inode_at empty_disk 5).size))
    ≡ true
used_before =
    rw (no_blocks, empty_same.blocks 0 (omega arith))
      (is_used-same marked empty_disk 1100 (
          put_inode_other blank marked 5 marked-IsFormatted (omega arith) (given_inode 0) 2
            (λ e. omega (arith, e)))
        ∙ marked_used)

remove_file-frees_other_example :
    is_used
      (remove_file blank empty_disk 5)
      ((inode_at empty_disk 5).blocks (block_count (inode_at empty_disk 5).size))
    ≡ false
remove_file-frees_other_example =
    remove_file-frees_other blank empty_disk 5 empty_disk-IsFormatted (omega arith)
      (omega (arith, empty_same.type)) (omega (arith, empty_same.size)) (omega (arith, no_blocks))
      (λ j le. omega (arith, no_blocks, empty_same.blocks j (omega (arith, no_blocks))))

-- A file of 101 blocks.
abbrev large_size : ℕ
large_size = 101 * block_size

large-Fits : Fits (given_inode large_size)
large-Fits = given-Fits large_size (omega arith)

abbrev large_disk : InodeManager
large_disk = stored (given_inode large_size) large-Fits

large_same : SameInode (inode_at large_disk 5) (given_inode large_size)
large_same = stored_same (given_inode large_size) large-Fits

large_count : block_count large_size ≡ 101
unfolding block_count
large_count = refl

large_table : (k : ℕ) → load_word (large_disk.d ((inode_at large_disk 5).blocks 100)) k ≡ 0
unfolding load_word
large_table k = omega (arith, cell (4 * k), cell (4 * k + 1), cell (4 * k + 2), cell (4 * k + 3))
  where
    cell : (i : ℕ) → large_disk.d ((inode_at large_disk 5).blocks 100) i ≡ 0
    cell i =
        stored_other (given_inode large_size) large-Fits _ i
          (omega (arith, large_same.blocks 100 (omega arith)))

write_file-zeroes_example :
    (write_file blank clock 5 letters large_size large_disk).d ((inode_at large_disk 5).blocks 0) 0
    ≡ 0
write_file-zeroes_example =
    write_file-zeroes blank clock 5 letters large_size (omega arith) large_disk 0
      (stored-IsFormatted (given_inode large_size) large-Fits) (omega (arith, large_same.type))
      (ap block_count large_same.size) (omega (arith, large_count)) (omega (arith, large_count))
      (omega arith) (omega (arith, large_same.blocks 0 (omega arith)))
      (omega (arith, large_same.blocks 0 (omega arith)))
      (omega (arith, large_same.blocks 100 (omega arith)))
      (omega (arith, large_same.blocks 0 (omega arith), large_same.blocks 100 (omega arith)))
      (λ k h. omega (arith, large_table k, large_same.blocks 0 (omega arith))) 0 (omega arith)
