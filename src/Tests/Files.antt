-- ===== src/Tests/Files.antt =====
-- Files: a new one, one with data, and one with indirect blocks.
use file_system_yfs.Base.{
  ℕ, ◌+◌, ◌-◌, ◌/◌, ◌≤◌, ◌<◌, ◌≡◌, refl, ◌∙◌, true, false, arith, none, some,
}
use file_system_yfs.Base.Memory.{Buf}
use file_system_yfs.Disk.{block_size}
use file_system_yfs.Blocks
use file_system_yfs.Blocks.{BlockManager, IsFormatted, is_used}
use file_system_yfs.Blocks.Free.{free_blocks, free_blocks-same}
use file_system_yfs.Inodes.{InodeManager, Clock, alloc_inode, block_count, t_file}
use file_system_yfs.Inodes.Struct.{inode_at}
use file_system_yfs.Inodes.Lifecycle.{
  Creates, CreatesOrFull, alloc_inode-Creates, alloc_inode_first, inode_at-init,
}
use file_system_yfs.Inodes.Read.{read_file}
use file_system_yfs.Inodes.Write.{write_file}
use file_system_yfs.Inodes.Blocklist.{remove_file}
use file_system_yfs.Inodes.WriteRead.{
  IsFile, Creates-IsFile, write_file-Holds, write_file-IsFile, read_file-write_file,
}
use file_system_yfs.Inodes.Remove.{remove_file-leaks}
use file_system_yfs.Tests.Disks.{blank, blank_disk-IsFormatted, blank_disk_free}

abbrev pub clock : Clock
clock k = 100 + k

abbrev pub new_disk : InodeManager
new_disk = (alloc_inode blank clock Blocks.init t_file).0

new_disk-Creates : Creates Blocks.init new_disk 1 t_file
new_disk-Creates =
    (alloc_inode_first blank clock Blocks.init t_file blank_disk-IsFormatted (inode_at-init 1)).1

pub new_disk-IsFile : IsFile new_disk 1
new_disk-IsFile =
    Creates-IsFile Blocks.init new_disk 1 t_file blank_disk-IsFormatted (omega arith)
      new_disk-Creates

new_disk_free : free_blocks new_disk ≡ 1020
new_disk_free =
    free_blocks-same Blocks.init new_disk (new_disk-Creates.others 2 (omega arith))
    ∙ blank_disk_free

pub three : block_count 3 ≡ 1
unfolding block_count
three = refl

abbrev pub letters : Buf
letters i = b'a' + i

alloc_inode-Creates_example :
    CreatesOrFull Blocks.init t_file (alloc_inode blank clock Blocks.init t_file)
alloc_inode-Creates_example =
    alloc_inode-Creates blank clock Blocks.init t_file blank_disk-IsFormatted

pub new_disk_room : block_count 3 - block_count (inode_at new_disk 1).size ≤ free_blocks new_disk
new_disk_room = omega (arith, three, new_disk_free)

read_file-write_file_example :
    let r = read_file blank clock (write_file blank clock 1 letters 3 new_disk) 1 none 0 in
    (r.2 ≡ 3) × (b : Buf) × (r.1 ≡ some b) × ((p : ℕ) → p < 3 → b p ≡ letters p)
read_file-write_file_example =
    read_file-write_file blank clock 1 letters 3 new_disk new_disk-IsFile (omega arith)
      (omega (arith, three)) new_disk_room blank clock none 0

write_file-IsFile_example : IsFile (write_file blank clock 1 letters 3 new_disk) 1
write_file-IsFile_example =
    write_file-IsFile blank clock 1 letters 3 new_disk new_disk-IsFile (omega arith)
      (omega (arith, three)) new_disk_room

abbrev pub data_disk : InodeManager
data_disk = write_file blank clock 1 letters 3 new_disk

pub data_disk-IsFile : IsFile data_disk 1
data_disk-IsFile =
    write_file-IsFile blank clock 1 letters 3 new_disk new_disk-IsFile (omega arith)
      (omega (arith, three)) new_disk_room

data_disk_size : (inode_at data_disk 1).size ≡ 3
data_disk_size =
    (write_file-Holds blank clock 1 letters 3 new_disk new_disk-IsFile (omega arith)
      (omega (arith, three)) new_disk_room).size_at

remove_file-leaks_example :
    let im' = remove_file blank data_disk 1 in
    let ino = inode_at data_disk 1 in
    let last = ino.size / block_size in
    ((inode_at im' 1).type ≡ 0)
    × ((j : ℕ) → j < last → is_used im' (ino.blocks j) ≡ false)
    × (is_used im' (ino.blocks last) ≡ true)
remove_file-leaks_example =
    remove_file-leaks blank data_disk 1 data_disk-IsFile (omega (arith, data_disk_size))
