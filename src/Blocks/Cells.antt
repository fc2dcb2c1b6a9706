-- ===== src/Blocks/Cells.antt =====
-- What a read and a write of a block do, cell by cell.
use file_system_yfs.Base.{
  refl, ℕ, ◌+◌, ◌*◌, ◌/◌, ◌≤◌, ◌<◌, ◌≡◌, ◌≢◌, ◌&&◌, arith, ltb, ◌%◌, ◌==◌, Bool-cases, ==_iff, inl,
  inr, if◌then◌else◌, fun_ext,
}
use file_system_yfs.Base.Memory.{Buf, memcpy, load_word, load_word-same}
use file_system_yfs.Disk.{block_size, block_num, bpb, bblock}
use file_system_yfs.Blocks.{BlockManager, read_block, write_block, is_set, is_used}

pub read_block_cell :
    (bm : BlockManager) (id : ℕ) (buf : Buf) (i : ℕ)
    → read_block bm id buf i ≡ (if ltb id block_num && ltb i block_size then bm.d id i else buf i)
unfolding read_block memcpy
read_block_cell bm id buf i = ground arith

pub write_block_cell :
    (bm : BlockManager) (id b : ℕ) (buf : Buf) (i : ℕ)
    → (write_block bm id buf).d b i
      ≡ (if ltb id block_num && (b == id) && ltb i block_size then buf i else bm.d b i)
unfolding write_block memcpy
write_block_cell bm id b buf i = ground arith

-- A block that is not written, or does not exist, keeps its contents.
pub write_block_other :
    (bm : BlockManager) (id b : ℕ) (buf : Buf) → b ≢ id → (write_block bm id buf).d b ≡ bm.d b
write_block_other bm id b buf h = fun_ext λ i. ground (arith, write_block_cell bm id b buf i)

pub write_block_out :
    (bm : BlockManager) (id : ℕ) (buf : Buf) → block_num ≤ id → write_block bm id buf ≡ bm
unfolding write_block
write_block_out bm id buf h = ground arith

-- Reading a block that exists gives its contents.
pub read_block_in :
    (bm : BlockManager) (id : ℕ) (buf : Buf) (i : ℕ)
    → id < block_num
    → i < block_size
    → read_block bm id buf i ≡ bm.d id i
read_block_in bm id buf i h hi = ground (arith, read_block_cell bm id buf i)

pub write_block_in :
    (bm : BlockManager) (id : ℕ) (buf : Buf) (i : ℕ)
    → id < block_num
    → i < block_size
    → (write_block bm id buf).d id i ≡ buf i
write_block_in bm id buf i h hi = ground (arith, write_block_cell bm id id buf i)

-- The bitmap functions look at the cells of the block alone.
pub is_set-same :
    (b c : Buf) (j : ℕ) → ((i : ℕ) → i < block_size → b i ≡ c i) → j < bpb → is_set b j ≡ is_set c j
unfolding is_set
is_set-same b c j h lt = rw (h (j / 8) (omega arith))

pub is_set-read_block :
    (bm : BlockManager) (t : ℕ) (buf : Buf) (k : ℕ)
    → t < block_num
    → k < bpb
    → is_set (read_block bm t buf) k ≡ is_set (bm.d t) k
is_set-read_block bm t buf k h hk = is_set-same _ _ k (λ i hi. read_block_in bm t buf i h hi) hk

-- Writing a bitmap block decides the bits of that block alone.
pub is_used-write_block :
    (bm : BlockManager) (t : ℕ) (buf : Buf) (j : ℕ)
    → t < block_num
    → is_used (write_block bm t buf) j
      ≡ (if bblock j == t then is_set buf (j % bpb) else is_used bm j)
unfolding is_used
is_used-write_block bm t buf j h = elim (Bool-cases (bblock j == t)) [
  | inl e ↦
      rw (e, (==_iff (bblock j) t).0 e)
        (is_set-same _ buf (j % bpb) (λ i hi. write_block_in bm t buf i h hi) (omega arith))
  | inr e ↦ rw (e, write_block_other bm t (bblock j) buf (ground arith))
]

pub is_used-is_set :
    (bm : BlockManager) (j t : ℕ) → bblock j ≡ t → is_used bm j ≡ is_set (bm.d t) (j % bpb)
unfolding is_used
is_used-is_set bm j t e = rw e

pub write_block-sb : (bm : BlockManager) (id : ℕ) (buf : Buf) → (write_block bm id buf).sb ≡ bm.sb
unfolding write_block
write_block-sb bm id buf = refl

-- A word of a block that exists, as a read sees it and as a write leaves it.
pub load_word-read_block :
    (bm : BlockManager) (id : ℕ) (buf : Buf) (w : ℕ)
    → id < block_num
    → 4 * w + 3 < block_size
    → load_word (read_block bm id buf) w ≡ load_word (bm.d id) w
load_word-read_block bm id buf w h hw =
    load_word-same _ _ w block_size (λ k lt. read_block_in bm id buf k h lt) hw

pub load_word-write_block :
    (bm : BlockManager) (id : ℕ) (buf : Buf) (w : ℕ)
    → id < block_num
    → 4 * w + 3 < block_size
    → load_word ((write_block bm id buf).d id) w ≡ load_word buf w
load_word-write_block bm id buf w h hw =
    load_word-same _ _ w block_size (λ k lt. write_block_in bm id buf k h lt) hw

-- A read depends on nothing but the block that it reads.
pub read_block-same :
    (bm bm' : BlockManager) (id : ℕ) (buf : Buf)
    → bm.d id ≡ bm'.d id
    → read_block bm id buf ≡ read_block bm' id buf
unfolding read_block
read_block-same bm bm' id buf e = rw e

pub is_used-same :
    (bm bm' : BlockManager) (j : ℕ)
    → bm'.d (bblock j) ≡ bm.d (bblock j)
    → is_used bm' j ≡ is_used bm j
unfolding is_used
is_used-same bm bm' j e = rw e
