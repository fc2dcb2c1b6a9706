-- ===== src/Inodes/Read.antt =====
-- inode_manager::read_file.
use file_system_yfs.Base.{ℕ, ◌-◌, ◌*◌, Option, none, some, leb, if◌then◌else◌}
use file_system_yfs.Base.Memory.{Buf, load_word}
use file_system_yfs.Disk.{block_size, ndirect}
use file_system_yfs.Blocks.{read_block}
use file_system_yfs.Inodes.{InodeManager, Inode, Clock, u32, get_inode, put_inode, block_count}
use file_system_yfs.Inodes.Loops.{read_blocks}

-- What read_file puts into the new buffer: one block, direct blocks, or both kinds.
unfoldable pub read_contents : Buf → InodeManager → Inode → Buf
read_contents junk im ino =
    let read_time = block_count ino.size in
    if leb ino.size block_size
    then read_block im (ino.blocks 0) junk
    else if leb read_time ndirect
    then read_blocks read_time 0 im ino.blocks junk 0
    else (let direct = read_blocks ndirect 0 im ino.blocks junk 0 in
        let indirect = read_block im (ino.blocks ndirect) junk in
        read_blocks (read_time - ndirect) 0 im (load_word indirect) direct (ndirect * block_size))

-- *buf_out and *size before the call are `out` and `size`.
unfoldable pub read_file :
    Buf → Clock → InodeManager → ℕ → Option Buf → ℕ → InodeManager × Option Buf × ℕ
read_file junk now im inum out size = elim (get_inode junk im inum) [
  | none ↦ (im, out, size)
  | some ino ↦ (
    put_inode junk im inum (some (record ino { atime = u32 (now 0) })),
    some (read_contents junk im ino),
    ino.size,
  )
]
