-- ===== src/Inodes/Write.antt =====
-- inode_manager::write_file. The eight cases of the code, by the number of blocks that the file had
-- (`origin`) and that it needs (`need`).
use file_system_yfs.Base.{ℕ, ◌+◌, ◌-◌, ◌*◌, ◌&&◌, none, some, ltb, leb, ◌==◌, if◌then◌else◌}
use file_system_yfs.Base.Memory.{Buf, load_word}
use file_system_yfs.Disk.{block_size, ndirect, maxfile}
use file_system_yfs.Blocks.{read_block, write_block, alloc_block}
use file_system_yfs.Inodes.{InodeManager, Inode, Clock, u32, get_inode, put_inode, block_count}
use file_system_yfs.Inodes.Loops.{
  update, write_blocks, write_indirect, alloc_ids, alloc_words, free_ids,
}

module _ (junk : Buf) (now : Clock) (inum : ℕ) (buf : Buf) (size : ℕ) where
  -- How every case ends: the new size and times, and the inode written back.
  unfoldable pub finish : InodeManager → Inode → InodeManager
  finish im ino =
      put_inode junk im inum
        (some (record ino { size = u32 size; ctime = u32 (now 0); mtime = u32 (now 1) }))

  -- Case 1-1: new direct blocks.
  unfoldable pub grow_direct : InodeManager → Inode → ℕ → ℕ → InodeManager
  grow_direct im ino origin need =
      let (im', blocks) = alloc_ids junk (need - origin) origin im ino.blocks in
      finish (write_blocks need 0 im' blocks buf 0) (record ino { blocks = blocks })

  -- Case 1-2: the same blocks.
  unfoldable pub keep_direct : InodeManager → Inode → ℕ → InodeManager
  keep_direct im ino need = finish (write_blocks need 0 im ino.blocks buf 0) ino

  -- Case 1-3: some direct blocks fewer.
  unfoldable pub shrink_direct : InodeManager → Inode → ℕ → ℕ → InodeManager
  shrink_direct im ino origin need =
      let im' = free_ids junk (origin - need) need im ino.blocks in
      finish (write_blocks need 0 im' ino.blocks buf 0) ino

  -- Case 1-4: no indirect blocks any more.
  unfoldable pub drop_indirect : InodeManager → Inode → ℕ → ℕ → InodeManager
  drop_indirect im ino origin need =
      let ids = load_word (read_block im (ino.blocks ndirect) junk) in
      let im1 = free_ids junk (origin - ndirect) 0 im ids in
      let im2 = free_ids junk (ndirect + 1 - need) need im1 ino.blocks in
      finish (write_blocks need 0 im2 ino.blocks buf 0) ino

  -- How the cases with indirect blocks end: direct blocks, indirect blocks, the block of ids.
  unfoldable pub write_all : InodeManager → Inode → Buf → ℕ → InodeManager
  write_all im ino ids need =
      let im1 = write_blocks ndirect 0 im ino.blocks buf 0 in
      let im2 =
        write_indirect (need - ndirect) 0 im1 ino.blocks (load_word ids) buf
          (ndirect * block_size) in
      finish (write_block im2 (ino.blocks ndirect) ids) ino

  -- Case 2-1: the first indirect blocks.
  unfoldable pub start_indirect : InodeManager → Inode → ℕ → ℕ → InodeManager
  start_indirect im ino origin need =
      let (im1, direct) = alloc_ids junk (ndirect - origin) origin im ino.blocks in
      let (im2, table) = alloc_block junk im1 in
      let blocks = update direct ndirect table in
      let (im3, ids) = alloc_words junk (need - ndirect) 0 im2 junk in
      write_all im3 (record ino { blocks = blocks }) ids need

  -- Case 2-2: more indirect blocks.
  unfoldable pub grow_indirect : InodeManager → Inode → ℕ → ℕ → InodeManager
  grow_indirect im ino origin need =
      let old = read_block im (ino.blocks ndirect) junk in
      let (im1, ids) = alloc_words junk (need - origin) (origin - ndirect) im old in
      write_all im1 ino ids need

  -- Case 2-3: the same blocks.
  unfoldable pub keep_indirect : InodeManager → Inode → ℕ → InodeManager
  keep_indirect im ino need = write_all im ino (read_block im (ino.blocks ndirect) junk) need

  -- Case 2-4: some indirect blocks fewer.
  unfoldable pub shrink_indirect : InodeManager → Inode → ℕ → ℕ → InodeManager
  shrink_indirect im ino origin need =
      let ids = read_block im (ino.blocks ndirect) junk in
      let im1 = free_ids junk (origin - need) (need - ndirect) im (load_word ids) in
      write_all im1 ino ids need

  unfoldable pub write_cases : InodeManager → Inode → ℕ → ℕ → InodeManager
  write_cases im ino origin need =
      if leb need ndirect
      then (if ltb origin need
          then grow_direct im ino origin need
          else if origin == need
          then keep_direct im ino need
          else if ltb need origin && leb origin ndirect
          then shrink_direct im ino origin need
          else drop_indirect im ino origin need)
      else if ltb ndirect need && ltb origin ndirect
      then start_indirect im ino origin need
      else if ltb origin need && leb ndirect origin
      then grow_indirect im ino origin need
      else if need == origin
      then keep_indirect im ino need
      else shrink_indirect im ino origin need

  -- A file that is too large is refused.
  unfoldable pub write_file : InodeManager → InodeManager
  write_file im = elim (get_inode junk im inum) [
    | none ↦ im
    | some ino ↦
        let need = block_count size in
        if ltb maxfile need then im else write_cases im ino (block_count ino.size) need
  ]
