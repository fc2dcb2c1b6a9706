-- ===== src/Blocks/Free.antt =====
-- How many blocks of the disk are free, and what is left after an allocation.
use file_system_yfs.Base.{
  ℕ, zero, suc, ◌+◌, ◌-◌, ◌≤◌, ◌<◌, ◌≡◌, refl, inl, inr, true, false, arith, ltb, ◌==◌,
  if◌then◌else◌, Bool-cases,
}
use file_system_yfs.Base.Memory.{Buf}
use file_system_yfs.Disk.{block_num, bpb, bblock}
use file_system_yfs.Blocks.{BlockManager, alloc_block, is_used, IsFormatted}
use file_system_yfs.Blocks.Cells.{is_used-same}
use file_system_yfs.Blocks.Alloc.{Takes, first_data, bitmap_block, alloc_block-Allocates}

-- Free blocks among the `n` from `lo` on.
unfoldable pub count_free : ℕ → ℕ → BlockManager → ℕ
count_free zero lo bm = 0
count_free (suc n) lo bm = (if is_used bm lo then 0 else 1) + count_free n (lo + 1) bm

-- Free data blocks of the disk.
abbrev pub free_blocks : BlockManager → ℕ
free_blocks bm = count_free (block_num - first_data) first_data bm

-- The bitmap of `bm'` is that of `bm` with `id` taken.
abbrev MarksUsed : BlockManager → BlockManager → ℕ → Type 0
MarksUsed bm bm' id = (j : ℕ) → is_used bm' j ≡ (if id == j then true else is_used bm j)

module _ (bm bm' : BlockManager) (id : ℕ) (m : MarksUsed bm bm' id) where
  count_free-out : (n lo : ℕ) → id < lo → count_free n lo bm' ≡ count_free n lo bm
  unfolding count_free
  count_free-out zero lo h = refl
  count_free-out (suc n) lo h = ground (arith, m lo, count_free-out n (lo + 1))

  count_free-take :
      (n lo : ℕ)
      → is_used bm id ≡ false
      → lo ≤ id
      → id < lo + n
      → count_free n lo bm' + 1 ≡ count_free n lo bm
  unfolding count_free
  count_free-take zero lo u l r = absurd (omega arith)
  count_free-take (suc n) lo u l r = elim (Bool-cases (id == lo)) [
    | inl e ↦ ground (arith, m lo, count_free-out n (lo + 1))
    | inr e ↦ ground (arith, m lo, count_free-take n (lo + 1) u)
  ]

count_free-used :
    (bm : BlockManager) (n lo : ℕ)
    → ((j : ℕ) → lo ≤ j → j < lo + n → is_used bm j ≡ true)
    → count_free n lo bm ≡ 0
unfolding count_free
count_free-used bm zero lo h = refl
count_free-used bm (suc n) lo h =
    ground (arith, h lo, count_free-used bm n (lo + 1) (λ j l r. h j (omega arith) (omega arith)))

count_free-same :
    (bm bm' : BlockManager) (n lo : ℕ)
    → lo + n ≤ bpb
    → bm'.d bitmap_block ≡ bm.d bitmap_block
    → count_free n lo bm' ≡ count_free n lo bm
unfolding count_free
count_free-same bm bm' zero lo h e = refl
count_free-same bm bm' (suc n) lo h e =
    let b : bblock lo ≡ bitmap_block = omega arith in
    let u : is_used bm' lo ≡ is_used bm lo = is_used-same bm bm' lo (rw b e) in
    ground (arith, u, count_free-same bm bm' n (lo + 1) (omega arith) e)

-- The number of free blocks depends on the bitmap alone.
pub free_blocks-same :
    (bm bm' : BlockManager)
    → bm'.d bitmap_block ≡ bm.d bitmap_block
    → free_blocks bm' ≡ free_blocks bm
free_blocks-same bm bm' = count_free-same bm bm' (block_num - first_data) first_data (omega arith)

-- A first fit stays on the disk while the disk has a free block.
taken-lt : (bm bm' : BlockManager) (id : ℕ) → Takes bm bm' id → 0 < free_blocks bm → id < block_num
taken-lt bm bm' id t room = elim (Bool-cases (ltb id block_num)) [
  | inl e ↦ ground arith
  | inr e ↦ absurd (
      omega (
        arith,
        count_free-used bm (block_num - first_data) first_data
            (λ j l r. t.first j l (ground arith)),
      ))
]

-- While the disk has a free block, alloc_block answers a block that the disk has, and exactly one
-- block fewer is free.
pub alloc_block-free :
    (junk : Buf) (bm : BlockManager)
    → IsFormatted bm
    → 0 < free_blocks bm
    → let r = alloc_block junk bm in
      Takes bm r.0 r.1 × (r.1 < block_num) × (free_blocks r.0 + 1 ≡ free_blocks bm)
alloc_block-free junk bm f room = elim (alloc_block-Allocates junk bm f) [
  | inl t ↦
      let lt = taken-lt bm _ _ t room in
      (t, lt, count_free-take bm _ _ t.marks.marked _ first_data t.was_free t.above (omega arith))
  | inr (_, full) ↦ absurd (
      omega (
        arith,
        count_free-used bm (block_num - first_data) first_data (λ j l r. full j l (omega arith)),
      ))
]

-- When every block of the disk is taken, and the bit behind those of the disk's blocks is clear,
-- alloc_block answers block_num, the number of a block that the disk does not have.
pub alloc_block_beyond_disk :
    (junk : Buf) (bm : BlockManager)
    → IsFormatted bm
    → ((j : ℕ) → first_data ≤ j → j < block_num → is_used bm j ≡ true)
    → is_used bm block_num ≡ false
    → (alloc_block junk bm).1 ≡ block_num
alloc_block_beyond_disk junk bm f full clear = elim (alloc_block-Allocates junk bm f) [
  | inl t ↦
      let behind : block_num ≤ (alloc_block junk bm).1 =
        ground (arith, full (alloc_block junk bm).1 t.above, t.was_free) in
      ground (arith, behind, t.first block_num (omega arith), clear)
  | inr (e, all) ↦ absurd (ground (arith, all block_num (omega arith) (omega arith), clear))
]
