-- ===== src/Blocks/Alloc.antt =====
-- alloc_block is a first fit over the bitmap, and free_block gives one block back.
use file_system_yfs.Base.{
  ℕ, zero, suc, ◌+◌, ◌-◌, ◌%◌, ◌≤◌, ◌<◌, ◌≡◌, ◌≢◌, refl, sym, ◌∙◌, ◌⊎◌, inl, inr, Bool, true, false,
  Option, none, some, arith, ◌==◌, if◌then◌else◌, Bool-cases,
}
use file_system_yfs.Base.Memory.{Buf}
use file_system_yfs.Disk.{block_num, bpb, bblock}
use file_system_yfs.Blocks.{
  BlockManager, read_block, write_block, is_set, set_bit, find_clear, scan, alloc_block, free_block,
  is_used, IsFormatted,
}
use file_system_yfs.Blocks.Cells.{
  write_block_other, is_set-read_block, is_used-write_block, is_used-is_set, write_block-sb,
}
use file_system_yfs.Blocks.Bitmap.{is_set-set_bit, is_set-clear_bit}

abbrev pub AllSet : Buf → ℕ → ℕ → Type 0
AllSet b lo hi = (j : ℕ) → lo ≤ j → j < hi → is_set b j ≡ true

AllSet-cons : (b : Buf) (lo hi : ℕ) → is_set b lo ≡ true → AllSet b (lo + 1) hi → AllSet b lo hi
AllSet-cons b lo hi h all j l r = elim (Bool-cases (lo == j)) [
  | inl e ↦ ground (arith, h)
  | inr e ↦ all j (ground arith) r
]

abbrev Found : Buf → ℕ → ℕ → Option ℕ → Type 0
Found b lo hi none = AllSet b lo hi
Found b lo hi (some k) = (lo ≤ k) × (k < hi) × (is_set b k ≡ false) × AllSet b lo k

Found-later :
    (b : Buf) (lo hi : ℕ) (r : Option ℕ)
    → is_set b lo ≡ true
    → Found b (lo + 1) hi r
    → Found b lo hi r
Found-later b lo hi none h f = AllSet-cons b lo hi h f
Found-later b lo hi (some k) h (l, r, c, f) = (omega arith, r, c, AllSet-cons b lo k h f)

-- The inner loop finds the first clear bit of its range, or the range is full.
find_clear-Found : (n lo hi : ℕ) (b : Buf) → lo + n ≡ hi → Found b lo hi (find_clear n lo b)
unfolding find_clear
find_clear-Found zero lo hi b s = λ j l r. absurd (omega arith)
find_clear-Found (suc n) lo hi b s = elim (Bool-cases (is_set b lo)) [
  | inl e ↦
      rw (e, find_clear) (Found-later b lo hi _ e (find_clear-Found n (lo + 1) hi b (omega arith)))
  | inr e ↦ rw (e, find_clear) (omega arith, omega arith, e, λ j l r. absurd (omega arith))
]

-- The first data block of the formatted disk, and the bitmap block that holds its bit.
abbrev pub first_data : ℕ
first_data = 1028

abbrev pub bitmap_block : ℕ
bitmap_block = 2

alloc_block-scan :
    (junk : Buf) (bm : BlockManager)
    → IsFormatted bm
    → alloc_block junk bm ≡ scan 1 bitmap_block first_data bm junk
unfolding alloc_block
alloc_block-scan junk bm f = ground arith

-- The bitmap of `bm'` is that of `bm` with the bit of `id` set to `v`, and nothing else changed.
pub record Marks (bm bm' : BlockManager) (id : ℕ) (v : Bool) : Type 0 where
  pub marked : (j : ℕ) → is_used bm' j ≡ (if id == j then v else is_used bm j)
  pub others : (b : ℕ) → b ≢ bblock id → bm'.d b ≡ bm.d b
  pub superblock : bm'.sb ≡ bm.sb

-- `id` is the first free block, and `bm'` has it taken.
pub record Takes (bm bm' : BlockManager) (id : ℕ) : Type 0 where
  pub above : first_data ≤ id
  pub below : id < bpb
  pub was_free : is_used bm id ≡ false
  pub first : (j : ℕ) → first_data ≤ j → j < id → is_used bm j ≡ true
  pub marks : Marks bm bm' id true

abbrev pub IsFull : BlockManager → Type 0
IsFull bm = (j : ℕ) → first_data ≤ j → j < bpb → is_used bm j ≡ true

is_used-read :
    (junk : Buf) (bm : BlockManager) (t j : ℕ)
    → t < block_num
    → bblock j ≡ t
    → is_used bm j ≡ is_set (read_block bm t junk) (j % bpb)
is_used-read junk bm t j h e =
    is_used-is_set bm j t e ∙ sym (is_set-read_block bm t junk (j % bpb) h (omega arith))

-- A write of the bitmap block `t` that changes the bit of `id` and no other.
module _ (junk : Buf) (bm : BlockManager) (t id : ℕ) (v : Bool) (buf : Buf) (h : t < block_num)
    (at : bblock id ≡ t)
    (e : (j : ℕ)
      → is_set buf j ≡ (if id % bpb == j then v else is_set (read_block bm t junk) j)) where
  write_block_marked :
      (j : ℕ) → is_used (write_block bm t buf) j ≡ (if id == j then v else is_used bm j)
  write_block_marked j = elim (Bool-cases (bblock j == t)) [
    | inl q ↦
        ground (arith, is_used-write_block bm t buf j h, e (j % bpb), is_used-read junk bm t j h)
    | inr q ↦ ground (arith, is_used-write_block bm t buf j h)
  ]

  write_block-Marks : Marks bm (write_block bm t buf) id v
  write_block-Marks = record {
    marked = write_block_marked;
    others = λ b ne. write_block_other bm t b buf (ground arith);
    superblock = write_block-sb bm t buf;
  }

abbrev pub Allocates : Buf → BlockManager → BlockManager × ℕ → Type 0
Allocates junk bm r = Takes bm r.0 r.1 ⊎ ((r ≡ (bm, 0)) × IsFull bm)

abbrev take_bit : BlockManager → Buf → Option ℕ → BlockManager × ℕ
take_bit bm bitmap none = (bm, 0)
take_bit bm bitmap (some k) = (write_block bm bitmap_block (set_bit bitmap k), k)

scan-take_bit :
    (junk : Buf) (bm : BlockManager)
    → let bitmap = read_block bm bitmap_block junk in
      scan 1 bitmap_block first_data bm junk
      ≡ take_bit bm bitmap (find_clear (bpb - first_data) first_data bitmap)
unfolding scan
scan-take_bit junk bm = ground arith

is_used-bitmap :
    (junk : Buf) (bm : BlockManager) (j : ℕ)
    → j < bpb
    → is_used bm j ≡ is_set (read_block bm bitmap_block junk) j
is_used-bitmap junk bm j h =
    let m : j % bpb ≡ j = omega arith in
    rw m at (is_used-read junk bm bitmap_block j (omega arith) (omega arith))

take_bit-Allocates :
    (junk : Buf) (bm : BlockManager) (r : Option ℕ)
    → Found (read_block bm bitmap_block junk) first_data bpb r
    → Allocates junk bm (take_bit bm (read_block bm bitmap_block junk) r)
take_bit-Allocates junk bm none f = inr (refl, λ j l r. is_used-bitmap junk bm j r ∙ f j l r)
take_bit-Allocates junk bm (some k) (l, r, c, f) = inl (record {
  above = l;
  below = r;
  was_free = is_used-bitmap junk bm k r ∙ c;
  first = λ j p q. is_used-bitmap junk bm j (omega arith) ∙ f j p q;
  marks = write_block-Marks junk bm bitmap_block k true _ (omega arith) (omega arith) λ j.
      let m : k % bpb ≡ k = omega arith in
      rw m (is_set-set_bit (read_block bm bitmap_block junk) k j);
})

-- On a formatted disk alloc_block takes the first free data block, marks it and changes nothing
-- else, or answers 0 exactly when every bit is set.
pub alloc_block-Allocates :
    (junk : Buf) (bm : BlockManager) → IsFormatted bm → Allocates junk bm (alloc_block junk bm)
alloc_block-Allocates junk bm f =
    rw (alloc_block-scan junk bm f, scan-take_bit junk bm)
      (take_bit-Allocates junk bm _ (find_clear-Found _ first_data bpb _ refl))

-- free_block clears the bit of its block, if the bitmap has one, and changes nothing else.
pub free_block-Marks :
    (junk : Buf) (bm : BlockManager) (id : ℕ)
    → bblock id < block_num
    → Marks bm (free_block junk bm id) id false
unfolding free_block
free_block-Marks junk bm id h =
    write_block-Marks junk bm (bblock id) id false _ h refl
      λ j. is_set-clear_bit (read_block bm (bblock id) junk) (id % bpb) j
