-- ===== src/Inodes/Blocklist.antt =====
-- The operations that look at a file's blocks: remove_file, append_block, get_block_ids, complete,
-- and the block reads and writes that are passed on. `none` is the fault of using a NULL inode.
pub mod Count
use mathlib.Core.Option
use file_system_yfs.Base.{
  ℕ, ◌+◌, ◌-◌, ◌/◌, ◌%◌, Option, none, some, ltb, leb, ◌==◌, if◌then◌else◌, List, ◌++◌,
}
use file_system_yfs.Base.Memory.{Buf, load_word, store_word}
use file_system_yfs.Disk.{block_size, ndirect, maxfile}
use file_system_yfs.Blocks
use file_system_yfs.Blocks.{BlockManager, alloc_block, free_block}
use file_system_yfs.Inodes.{
  InodeManager, Inode, Clock, u32, get_inode, put_inode, free_inode, block_count,
}
use file_system_yfs.Inodes.Loops.{update, free_ids, list_ids}

-- The number of blocks as remove_file computes it, with the two branches exchanged.
unfoldable pub removed_count : ℕ → ℕ
removed_count size = if size % block_size == 0 then size / block_size + 1 else size / block_size

module _ (junk : Buf) (im : InodeManager) where
  -- inode_manager::remove_file
  unfoldable pub remove_file : ℕ → InodeManager
  remove_file inum = elim (get_inode junk im inum) [
    | none ↦ im
    | some ino ↦
        let count = removed_count ino.size in
        let ids = load_word (Blocks.read_block im (ino.blocks ndirect) junk) in
        let direct = free_ids junk count 0 im ino.blocks in
        let indirect = free_ids junk (count - ndirect) 0 im ids in
        if ltb count ndirect
        then free_inode junk direct inum
        else free_inode junk (free_ids junk (ndirect + 1) 0 indirect ino.blocks) inum
  ]

  -- append_block's second half, for a file with `index` blocks: the new id is entered.
  unfoldable pub enter_block : InodeManager → Inode → ℕ → ℕ → InodeManager × Inode
  enter_block im' ino index bid =
      if ltb index ndirect
      then (im', record ino { blocks = update ino.blocks index bid })
      else (let (im2, table) =
            if index == ndirect then alloc_block junk im' else (im', ino.blocks ndirect) in
          let ids = store_word (Blocks.read_block im2 table junk) (index - ndirect) bid in
          (
            Blocks.write_block im2 table ids,
            record ino { blocks = update ino.blocks ndirect table },
          ))

  -- inode_manager::append_block; `bid` is what the reference argument held.
  unfoldable pub append_block : ℕ → ℕ → InodeManager × ℕ
  append_block inum bid = elim (get_inode junk im inum) [
    | none ↦ (im, bid)
    | some ino ↦
        let index = block_count ino.size in
        let (im1, new) = alloc_block junk im in
        let (im2, ino') = enter_block im1 ino index new in
        if ltb maxfile index then (im, bid) else (
          put_inode junk im2 inum (some (record ino' { size = u32 (ino.size + block_size) })),
          new,
        )
  ]

  -- inode_manager::get_block_ids
  unfoldable pub get_block_ids : ℕ → Option (List ℕ)
  get_block_ids inum =
      Option.map
        (λ (ino : Inode).
          let count = block_count ino.size in
          let ids = load_word (Blocks.read_block im (ino.blocks ndirect) junk) in
          if leb count ndirect
          then list_ids count 0 ino.blocks
          else list_ids ndirect 0 ino.blocks ++ list_ids (count - ndirect) 0 ids)
        (get_inode junk im inum)

  -- inode_manager::complete
  unfoldable pub complete : Clock → ℕ → ℕ → Option InodeManager
  complete now inum size =
      Option.map
        (λ (ino : Inode). put_inode junk im inum (
          some (record ino {
            size = u32 size;
            atime = u32 (now 0);
            mtime = u32 (now 1);
            ctime = u32 (now 2);
          })))
        (get_inode junk im inum)

  -- inode_manager::read_block
  unfoldable pub read_block : ℕ → Buf → Buf
  read_block id buf = Blocks.read_block im id buf

  -- inode_manager::write_block
  unfoldable pub write_block : ℕ → Buf → InodeManager
  write_block id buf = Blocks.write_block im id buf
