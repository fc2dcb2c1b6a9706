-- ===== src/Blocks/Bitmap.antt =====
-- Setting or clearing a bit of a bitmap block changes that bit alone.
use Prim.Native.Nat.{bit_and, bit_or}
use file_system_yfs.Base.{
  ℕ, zero, suc, ◌-◌, ◌/◌, ◌%◌, ◌^◌, ◌<◌, ◌≡◌, refl, Bool, true, false, not, arith, ◌==◌,
  if◌then◌else◌, Bool-cases, inl, inr,
}
use file_system_yfs.Base.Memory.{Buf}
use file_system_yfs.Blocks.{is_set, set_bit, clear_bit}

-- A test that every one of the first numbers passes.
passed : ℕ → (ℕ → Bool) → Bool
passed zero test = true
passed (suc last) test = if test last then passed last test else false

passed_each : (test : ℕ → Bool) (k bound : ℕ) → k < bound → passed bound test ≡ true → test k ≡ true
unfolding passed
passed_each test k zero below all = absurd (omega arith)
passed_each test k (suc last) below all = ground (arith, passed_each test k last)

abbrev bit : ℕ → ℕ → Bool
bit x j = x / 2 ^ (7 - j) % 2 == 1

abbrev same : Bool → Bool → Bool
same a b = if a then b else not b

same_sound : (a b : Bool) → same a b ≡ true → a ≡ b
same_sound a b h = ground arith

abbrev set_row : ℕ → ℕ → ℕ → Bool
set_row k j x = same (bit (bit_or x (2 ^ (7 - k)) % 256) j) (if k == j then true else bit x j)

abbrev clear_row : ℕ → ℕ → ℕ → Bool
clear_row k j x =
    same (bit (bit_and x (255 - 2 ^ (7 - k)) % 256) j) (if k == j then false else bit x j)

table : (ℕ → ℕ → ℕ → Bool) → Bool
unfolding passed
table row = passed 8 (λ k. passed 8 (λ j. passed 256 (row k j)))

table_sound :
    (row : ℕ → ℕ → ℕ → Bool) (k j x : ℕ)
    → table row ≡ true
    → k < 8
    → j < 8
    → x < 256
    → row k j x ≡ true
unfolding table
table_sound row k j x h hk hj hx =
    let at_k = passed_each (λ k'. passed 8 (λ j'. passed 256 (row k' j'))) k 8 hk h in
    let at_j = passed_each (λ j'. passed 256 (row k j')) j 8 hj at_k in
    passed_each (row k j) x 256 hx at_j

set_table : table set_row ≡ true
unfolding table
set_table = refl

clear_table : table clear_row ≡ true
unfolding table
clear_table = refl

module _ (b : Buf) (i j : ℕ) where
  abbrev cell : ℕ
  cell = b (i / 8) % 256

  set_in_byte :
      bit (bit_or cell (2 ^ (7 - i % 8)) % 256) (j % 8)
      ≡ (if i % 8 == j % 8 then true else bit cell (j % 8))
  set_in_byte =
      same_sound _ _ (
        table_sound set_row (i % 8) (j % 8) cell set_table (omega arith) (omega arith)
          (omega arith))

  clear_in_byte :
      bit (bit_and cell (255 - 2 ^ (7 - i % 8)) % 256) (j % 8)
      ≡ (if i % 8 == j % 8 then false else bit cell (j % 8))
  clear_in_byte = same_sound _ _ (
      table_sound clear_row (i % 8) (j % 8) cell clear_table (omega arith) (omega arith)
        (omega arith))

  -- Setting a bit sets it, and no other bit of the block changes.
  pub is_set-set_bit : is_set (set_bit b i) j ≡ (if i == j then true else is_set b j)
  unfolding is_set set_bit
  is_set-set_bit = elim (Bool-cases (j / 8 == i / 8)) [
    | inl e ↦ ground (arith, set_in_byte)
    | inr e ↦ ground arith
  ]

  -- Clearing a bit clears it, and no other bit of the block changes.
  pub is_set-clear_bit : is_set (clear_bit b i) j ≡ (if i == j then false else is_set b j)
  unfolding is_set clear_bit
  is_set-clear_bit = elim (Bool-cases (j / 8 == i / 8)) [
    | inl e ↦ ground (arith, clear_in_byte)
    | inr e ↦ ground arith
  ]
