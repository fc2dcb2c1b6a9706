-- ===== src/Inodes/Direct.antt =====
-- The cases of write_file for files of at most NDIRECT blocks: each leaves the disk holding the file.
use file_system_yfs.Base.{ℕ, ◌+◌, ◌*◌, ◌^◌, ◌≤◌, ◌<◌, ◌≡◌, ◌≢◌, sym, ap, ◌∙◌, arith, some}
use file_system_yfs.Base.Memory.{Buf}
use file_system_yfs.Disk.{block_size, bblock, ndirect, inode_num}
use file_system_yfs.Blocks.{IsFormatted}
use file_system_yfs.Blocks.Cells.{is_used-same}
use file_system_yfs.Inodes.{InodeManager, Inode, Clock, u32, block_count}
use file_system_yfs.Inodes.Loops.{Ids, write_blocks}
use file_system_yfs.Inodes.Loops.Copy.{write_blocks_at, write_blocks-sb, write_blocks_other}
use file_system_yfs.Inodes.Loops.Allocate.{IsFormatted-same}
use file_system_yfs.Inodes.Write.{finish}
use file_system_yfs.Inodes.Struct.{inode_at, Fits, put_inode_at, put_inode_other, put_inode-sb}
use file_system_yfs.Inodes.Holds.{Holds, Owns}

-- write_file's last step makes the file out of blocks that hold the slices already.
module _ (junk : Buf) (now : Clock) (inum : ℕ) (buf : Buf) (size : ℕ) where
  abbrev pub Written : InodeManager → Ids → Type 0
  Written im ids =
      (j c : ℕ) → j < block_count size → c < block_size → im.d (ids j) c ≡ buf (j * block_size + c)

  finish-Holds :
      (im : InodeManager) (ino : Inode)
      → IsFormatted im
      → inum < inode_num
      → Fits ino
      → ino.type ≢ 0
      → size < 2 ^ 32
      → block_count size ≤ ndirect
      → Owns im ino.blocks (block_count size)
      → Written im ino.blocks
      → Holds (finish junk now inum buf size im ino) inum buf size
  unfolding finish
  finish-Holds im ino f lt fits live small direct owns written =
      let ino' : Inode = record ino { size = u32 size; ctime = u32 (now 0); mtime = u32 (now 1) } in
      let fits' : Fits ino' = record {
        type = fits.type;
        size = omega arith;
        atime = fits.atime;
        mtime = omega arith;
        ctime = omega arith;
        blocks = fits.blocks;
      } in
      let same = put_inode_at junk im inum f lt ino' fits' in
      record {
        formatted = IsFormatted-same (put_inode-sb junk im inum f lt (some ino')) f;
        exists = λ z. live (sym same.type ∙ z);
        size_at = same.size ∙ omega arith;
        owns = record {
          above = λ j l. rw (same.blocks j (omega arith)) (owns.above j l);
          below = λ j l. rw (same.blocks j (omega arith)) (owns.below j l);
          used = λ j l. rw (same.blocks j (omega arith)) (
              is_used-same _ _ (ino.blocks j) (
                put_inode_other junk im inum f lt ino' (bblock (ino.blocks j))
                  (omega (arith, owns.below j l)))
              ∙ owns.used j l);
          distinct = λ j k lj rj lk rk e.
              owns.distinct j k lj rj lk rk
                (sym (same.blocks j (omega arith)) ∙ e ∙ same.blocks k (omega arith));
        };
        contents = λ j c l r. rw (same.blocks j (omega arith)) (
            ap (λ b. b c)
              (put_inode_other junk im inum f lt ino' (ino.blocks j)
                (omega (arith, owns.above j l)))
            ∙ written j c l r);
      }

  finish-type :
      (im : InodeManager) (ino : Inode)
      → IsFormatted im
      → inum < inode_num
      → Fits ino
      → (inode_at (finish junk now inum buf size im ino) inum).type ≡ ino.type
  unfolding finish
  finish-type im ino f lt fits =
      let ino' : Inode = record ino { size = u32 size; ctime = u32 (now 0); mtime = u32 (now 1) } in
      let fits' : Fits ino' = record {
        type = fits.type;
        size = omega arith;
        atime = fits.atime;
        mtime = omega arith;
        ctime = omega arith;
        blocks = fits.blocks;
      } in
      (put_inode_at junk im inum f lt ino' fits').type

  pub store_direct-type :
      (im : InodeManager) (ino : Inode)
      → IsFormatted im
      → inum < inode_num
      → Fits ino
      → (inode_at
          (finish junk now inum buf size
            (write_blocks (block_count size) 0 im ino.blocks buf 0)
            ino)
          inum).type
        ≡ ino.type
  store_direct-type im ino f lt fits =
      finish-type _ ino
        (IsFormatted-same (write_blocks-sb (block_count size) 0 im ino.blocks buf 0) f) lt fits

  module _ (im : InodeManager) (ids : Ids) (owns : Owns im ids (block_count size)) where
    write_blocks-Written : Written (write_blocks (block_count size) 0 im ids buf 0) ids
    write_blocks-Written j c l r =
        write_blocks_at (block_count size) 0 im ids buf 0 j c
          (λ x y a b a' b'. owns.distinct x y a (omega arith) a' (omega arith))
          (λ x a b. owns.below x (omega arith)) (omega arith) (omega arith) r
        ∙ ap buf (omega arith)

    -- Writing data blocks leaves the bitmap.
    write_blocks-Owns : Owns (write_blocks (block_count size) 0 im ids buf 0) ids (block_count size)
    write_blocks-Owns = record {
      above = owns.above;
      below = owns.below;
      used = λ j l.
          is_used-same _ _ (ids j) (
            write_blocks_other (block_count size) 0 im ids buf 0 (bblock (ids j))
              (λ k lk rk. omega (arith, owns.below j l, owns.above k (omega arith))))
          ∙ owns.used j l;
      distinct = owns.distinct;
    }

  -- The blocks are in place, and the slices are written.
  pub store_direct-Holds :
      (im : InodeManager) (ino : Inode)
      → IsFormatted im
      → inum < inode_num
      → Fits ino
      → ino.type ≢ 0
      → size < 2 ^ 32
      → block_count size ≤ ndirect
      → Owns im ino.blocks (block_count size)
      → Holds
          (finish junk now inum buf size
            (write_blocks (block_count size) 0 im ino.blocks buf 0)
            ino)
          inum
          buf
          size
  store_direct-Holds im ino f lt fits live small direct owns =
      finish-Holds _ ino
        (IsFormatted-same (write_blocks-sb (block_count size) 0 im ino.blocks buf 0) f) lt fits live
        small direct (write_blocks-Owns im ino.blocks owns)
        (write_blocks-Written im ino.blocks owns)
