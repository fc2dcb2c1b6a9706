-- ===== src/Inodes/Loops.antt =====
-- The loops over block ids that read_file, write_file and remove_file are made of. `n` is the number
-- of rounds left and `i` the loop's index.
pub mod Copy
pub mod Allocate
pub mod Release
use file_system_yfs.Base.{ℕ, zero, suc, ◌+◌, ◌-◌, ◌*◌, ◌/◌, ◌%◌, ◌==◌, if◌then◌else◌, List, [], ◌∷◌}
use file_system_yfs.Base.Memory.{Buf, memcpy, store_word}
use file_system_yfs.Disk.{block_size}
use file_system_yfs.Blocks.{BlockManager, read_block, write_block, alloc_block, free_block}

-- blockid_t ids[]
abbrev pub Ids : Type 0
Ids = ℕ → ℕ

unfoldable pub update : Ids → ℕ → ℕ → Ids
update ids i v j = if j == i then v else ids j

-- bm->read_block(id, buf + off)
unfoldable pub read_at : BlockManager → ℕ → Buf → ℕ → Buf
read_at bm id buf off = memcpy buf off (read_block bm id (λ k. buf (off + k))) 0 block_size

-- for (...) { bm->read_block(ids[i], buf + off); off += BLOCK_SIZE; }
unfoldable pub read_blocks : ℕ → ℕ → BlockManager → Ids → Buf → ℕ → Buf
read_blocks zero i bm ids buf off = buf
read_blocks (suc n) i bm ids buf off =
    read_blocks n (i + 1) bm ids (read_at bm (ids i) buf off) (off + block_size)

abbrev pub zeros : Buf
zeros k = 0

-- for (...) { bm->write_block(ids[i], zero); bm->write_block(ids[i], buf + off); off += BLOCK_SIZE; }
unfoldable pub write_blocks : ℕ → ℕ → BlockManager → Ids → Buf → ℕ → BlockManager
write_blocks zero i bm ids buf off = bm
write_blocks (suc n) i bm ids buf off =
    write_blocks n (i + 1) (write_block (write_block bm (ids i) zeros) (ids i) (λ k. buf (off + k)))
      ids buf (off + block_size)

-- The loop for the indirect blocks, which zeroes the direct block blocks[i] instead.
unfoldable pub write_indirect : ℕ → ℕ → BlockManager → Ids → Ids → Buf → ℕ → BlockManager
write_indirect zero i bm blocks ids buf off = bm
write_indirect (suc n) i bm blocks ids buf off =
    write_indirect n (i + 1)
      (write_block (write_block bm (blocks i) zeros) (ids i) (λ k. buf (off + k))) blocks ids buf
      (off + block_size)

-- for (...) ids[i] = bm->alloc_block();
unfoldable pub alloc_ids : Buf → ℕ → ℕ → BlockManager → Ids → BlockManager × Ids
alloc_ids junk zero i bm ids = (bm, ids)
alloc_ids junk (suc n) i bm ids =
    let (bm', id) = alloc_block junk bm in alloc_ids junk n (i + 1) bm' (update ids i id)

-- The same into a block of ids.
unfoldable pub alloc_words : Buf → ℕ → ℕ → BlockManager → Buf → BlockManager × Buf
alloc_words junk zero i bm b = (bm, b)
alloc_words junk (suc n) i bm b =
    let (bm', id) = alloc_block junk bm in alloc_words junk n (i + 1) bm' (store_word b i id)

-- for (...) bm->free_block(ids[i]);
unfoldable pub free_ids : Buf → ℕ → ℕ → BlockManager → Ids → BlockManager
free_ids junk zero i bm ids = bm
free_ids junk (suc n) i bm ids = free_ids junk n (i + 1) (free_block junk bm (ids i)) ids

-- for (...) block_ids.push_back(ids[i]);
unfoldable pub list_ids : ℕ → ℕ → Ids → List ℕ
list_ids zero i ids = []
list_ids (suc n) i ids = ids i ∷ list_ids n (i + 1) ids
