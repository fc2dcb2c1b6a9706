-- ===== src/Inodes/Loops/Copy.antt =====
-- The loops that write and read a run of blocks move each slice of the buffer to its block and back.
use file_system_yfs.Base.{
  ℕ, zero, suc, ◌+◌, ◌-◌, ◌*◌, ◌≤◌, ◌<◌, ◌≡◌, ◌≢◌, refl, ap, ◌∙◌, inl, inr, arith, ◌==◌, Bool-cases,
}
use file_system_yfs.Base.Memory.{Buf, memcpy_in, memcpy_below}
use file_system_yfs.Disk.{block_size, block_num}
use file_system_yfs.Blocks.{BlockManager, read_block, write_block}
use file_system_yfs.Blocks.Cells.{read_block_in, write_block_in, write_block_other, write_block-sb}
use file_system_yfs.Inodes.Loops.{Ids, zeros, read_at, read_blocks, write_blocks}

-- No block stands twice among the ids from `lo` to `hi`.
abbrev pub Distinct : Ids → ℕ → ℕ → Type 0
Distinct ids lo hi = (j k : ℕ) → lo ≤ j → j < hi → lo ≤ k → k < hi → ids j ≡ ids k → j ≡ k

-- The disk has each of them.
abbrev pub OnDisk : Ids → ℕ → ℕ → Type 0
OnDisk ids lo hi = (j : ℕ) → lo ≤ j → j < hi → ids j < block_num

-- `b` is none of them.
abbrev pub Avoids : ℕ → Ids → ℕ → ℕ → Type 0
Avoids b ids lo hi = (j : ℕ) → lo ≤ j → j < hi → b ≢ ids j

abbrev write_twice : BlockManager → ℕ → Buf → BlockManager
write_twice bm id buf = write_block (write_block bm id zeros) id buf

write_twice_other :
    (bm : BlockManager) (id b : ℕ) (buf : Buf) → b ≢ id → (write_twice bm id buf).d b ≡ bm.d b
write_twice_other bm id b buf ne =
    write_block_other (write_block bm id zeros) id b buf ne ∙ write_block_other bm id b zeros ne

pub write_blocks_other :
    (n i : ℕ) (bm : BlockManager) (ids : Ids) (buf : Buf) (off b : ℕ)
    → Avoids b ids i (i + n)
    → (write_blocks n i bm ids buf off).d b ≡ bm.d b
unfolding write_blocks
write_blocks_other zero i bm ids buf off b h = refl
write_blocks_other (suc n) i bm ids buf off b h =
    write_blocks_other n (i + 1) _ ids buf (off + block_size) b
      (λ j l r. h j (omega arith) (omega arith))
    ∙ write_twice_other bm (ids i) b _ (h i (omega arith) (omega arith))

pub write_blocks-sb :
    (n i : ℕ) (bm : BlockManager) (ids : Ids) (buf : Buf) (off : ℕ)
    → (write_blocks n i bm ids buf off).sb ≡ bm.sb
unfolding write_blocks
write_blocks-sb zero i bm ids buf off = refl
write_blocks-sb (suc n) i bm ids buf off =
    write_blocks-sb n (i + 1) _ ids buf (off + block_size)
    ∙ write_block-sb (write_block bm (ids i) zeros) (ids i) _
    ∙ write_block-sb bm (ids i) zeros

-- After the write loop the block ids[j] holds slice `j` of the buffer.
pub write_blocks_at :
    (n i : ℕ) (bm : BlockManager) (ids : Ids) (buf : Buf) (off j c : ℕ)
    → Distinct ids i (i + n)
    → OnDisk ids i (i + n)
    → i ≤ j
    → j < i + n
    → c < block_size
    → (write_blocks n i bm ids buf off).d (ids j) c ≡ buf (off + (j - i) * block_size + c)
unfolding write_blocks
write_blocks_at zero i bm ids buf off j c d o l r hc = absurd (omega arith)
write_blocks_at (suc n) i bm ids buf off j c d o l r hc = elim (Bool-cases (i == j)) [
  | inl e ↦
      let q : j ≡ i = ground arith in
      rw q (
        ap (λ b. b c)
          (write_blocks_other n (i + 1) _ ids buf (off + block_size) (ids i) λ k l' r' same.
            absurd
              (omega (arith, d i k (omega arith) (omega arith) (omega arith) (omega arith) same)))
        ∙ write_block_in (write_block bm (ids i) zeros) (ids i) _ c
            (o i (omega arith) (omega arith)) hc
        ∙ ap buf (omega arith))
  | inr e ↦
      write_blocks_at n (i + 1) _ ids buf (off + block_size) j c
        (λ x y a b a' b'. d x y (omega arith) (omega arith) (omega arith) (omega arith))
        (λ x a b. o x (omega arith) (omega arith)) (ground arith) (omega arith) hc
      ∙ ap buf (ground arith)
]

read_at_in :
    (bm : BlockManager) (id : ℕ) (buf : Buf) (off c : ℕ)
    → id < block_num
    → c < block_size
    → read_at bm id buf off (off + c) ≡ bm.d id c
unfolding read_at
read_at_in bm id buf off c h hc =
    memcpy_in buf off (read_block bm id (λ k. buf (off + k))) 0 block_size c hc
    ∙ ap (read_block bm id (λ k. buf (off + k))) (omega arith)
    ∙ read_block_in bm id _ c h hc

-- The read loop leaves the cells in front of it.
read_blocks_below :
    (n i : ℕ) (bm : BlockManager) (ids : Ids) (buf : Buf) (off x : ℕ)
    → x < off
    → read_blocks n i bm ids buf off x ≡ buf x
unfolding read_blocks read_at
read_blocks_below zero i bm ids buf off x h = refl
read_blocks_below (suc n) i bm ids buf off x h =
    read_blocks_below n (i + 1) bm ids _ (off + block_size) x (omega arith)
    ∙ memcpy_below buf off _ 0 block_size x h

-- After the read loop slice `j` of the buffer is the block ids[j].
pub read_blocks_at :
    (n i : ℕ) (bm : BlockManager) (ids : Ids) (buf : Buf) (off j c : ℕ)
    → OnDisk ids i (i + n)
    → i ≤ j
    → j < i + n
    → c < block_size
    → read_blocks n i bm ids buf off (off + (j - i) * block_size + c) ≡ bm.d (ids j) c
unfolding read_blocks
read_blocks_at zero i bm ids buf off j c o l r hc = absurd (omega arith)
read_blocks_at (suc n) i bm ids buf off j c o l r hc = elim (Bool-cases (i == j)) [
  | inl e ↦
      let q : j ≡ i = ground arith in
      let p : off + (i - i) * block_size + c ≡ off + c = omega arith in
      rw (q, p)
        (read_blocks_below n (i + 1) bm ids _ (off + block_size) (off + c) (omega arith)
          ∙ read_at_in bm (ids i) buf off c (o i (omega arith) (omega arith)) hc)
  | inr e ↦
      let p : off + (j - i) * block_size + c ≡ (off + block_size) + (j - (i + 1)) * block_size + c =
        ground arith in
      rw p (
        read_blocks_at n (i + 1) bm ids _ (off + block_size) j c
          (λ x a b. o x (omega arith) (omega arith)) (ground arith) (omega arith) hc)
]
