-- ===== src/Base/Slices.antt =====
-- Parts of strings: their lengths, what they are of a joined string, and their bytes.
use Prim.Native.Nat.{ℕ, zero, suc, ◌+◌, ◌-◌, ◌≤◌}
use mathlib.Core.Path.{◌≡◌, refl, ap}
use mathlib.Core.List.{[], ◌∷◌, ◌++◌}
use native.Mathlib.Omega.{arith}
use file_system_yfs.Base.Memory.{Buf}
use file_system_yfs.Base.Text.{Text, length, take, drop, zeros, assign, AreBytes}

pub length-zeros : (n : ℕ) → length (zeros n) ≡ n
unfolding length zeros
length-zeros zero = refl
length-zeros (suc n) = ap suc (length-zeros n)

pub length-assign : (b : Buf) (i n : ℕ) → length (assign b i n) ≡ n
unfolding length assign
length-assign b i zero = refl
length-assign b i (suc n) = ap suc (length-assign b (i + 1) n)

pub length-take : (s : Text) (n : ℕ) → n ≤ length s → length (take s n) ≡ n
unfolding length take
length-take [] n h = omega arith
length-take (c ∷ s) zero h = refl
length-take (c ∷ s) (suc n) h = ap suc (length-take s n (omega arith))

pub drop-append : (s t : Text) → drop (s ++ t) (length s) ≡ t
unfolding length drop
drop-append [] [] = refl
drop-append [] (c ∷ t) = refl
drop-append (c ∷ s) t = drop-append s t

pub take-append : (s t : Text) → take (s ++ t) (length s) ≡ s
unfolding length take
take-append [] [] = refl
take-append [] (c ∷ t) = refl
take-append (c ∷ s) t = ap (λ x. c ∷ x) (take-append s t)

pub no_length : (s : Text) → length s ≡ 0 → s ≡ []
unfolding length
no_length [] h = refl
no_length (c ∷ s) h = absurd (omega arith)

pub AreBytes-append : (s t : Text) → AreBytes s → AreBytes t → AreBytes (s ++ t)
unfolding AreBytes
AreBytes-append [] t first second = second
AreBytes-append (c ∷ s) t (small, first) second = (small, AreBytes-append s t first second)

pub AreBytes-assign : (b : Buf) (i n : ℕ) → AreBytes (assign b i n)
unfolding AreBytes assign
AreBytes-assign b i zero = tt
AreBytes-assign b i (suc n) = (omega arith, AreBytes-assign b (i + 1) n)

pub AreBytes-take : (s : Text) (n : ℕ) → AreBytes s → AreBytes (take s n)
unfolding AreBytes take
AreBytes-take [] n bytes = tt
AreBytes-take (c ∷ s) zero bytes = tt
AreBytes-take (c ∷ s) (suc n) (small, bytes) = (small, AreBytes-take s n bytes)

pub AreBytes-drop : (s : Text) (n : ℕ) → AreBytes s → AreBytes (drop s n)
unfolding AreBytes drop
AreBytes-drop [] n bytes = tt
AreBytes-drop (c ∷ s) zero bytes = bytes
AreBytes-drop (c ∷ s) (suc n) (small, bytes) = AreBytes-drop s n bytes

pub length-drop : (s : Text) (n : ℕ) → length (drop s n) ≡ length s - n
unfolding length drop
length-drop [] n = omega arith
length-drop (c ∷ s) zero = omega arith
length-drop (c ∷ s) (suc n) = omega (arith, length-drop s n)

-- A part that lies in the first of two strings, or in the second.
pub take-append_first : (s t : Text) (n : ℕ) → n ≤ length s → take (s ++ t) n ≡ take s n
unfolding take length
take-append_first [] [] zero h = refl
take-append_first [] (c ∷ t) zero h = refl
take-append_first [] t (suc n) h = absurd (omega arith)
take-append_first (c ∷ s) t zero h = refl
take-append_first (c ∷ s) t (suc n) h = ap (λ x. c ∷ x) (take-append_first s t n (omega arith))

pub drop-append_first : (s t : Text) (n : ℕ) → n ≤ length s → drop (s ++ t) n ≡ drop s n ++ t
unfolding drop length
drop-append_first [] [] zero h = refl
drop-append_first [] (c ∷ t) zero h = refl
drop-append_first [] t (suc n) h = absurd (omega arith)
drop-append_first (c ∷ s) t zero h = refl
drop-append_first (c ∷ s) t (suc n) h = drop-append_first s t n (omega arith)

pub drop-append_second : (s t : Text) (n : ℕ) → drop (s ++ t) (length s + n) ≡ drop t n
unfolding drop length
drop-append_second [] t n = let e : 0 + n ≡ n = omega arith in rw e refl
drop-append_second (c ∷ s) t n =
    let e : suc (length s) + n ≡ suc (length s + n) = omega arith in rw e (drop-append_second s t n)

pub drop-drop : (s : Text) (m n : ℕ) → drop (drop s m) n ≡ drop s (m + n)
unfolding drop
drop-drop [] m n = refl
drop-drop (c ∷ s) zero n = let e : 0 + n ≡ n = omega arith in rw e refl
drop-drop (c ∷ s) (suc m) n =
    let e : suc m + n ≡ suc (m + n) = omega arith in rw e (drop-drop s m n)

pub take-take : (s : Text) (m n : ℕ) → n ≤ m → take (take s m) n ≡ take s n
unfolding take
take-take [] m n h = refl
take-take (c ∷ s) zero zero h = refl
take-take (c ∷ s) zero (suc n) h = absurd (omega arith)
take-take (c ∷ s) (suc m) zero h = refl
take-take (c ∷ s) (suc m) (suc n) h = ap (λ x. c ∷ x) (take-take s m n (omega arith))

drop-take : (s : Text) (m n : ℕ) → n ≤ m → drop (take s m) n ≡ take (drop s n) (m - n)
unfolding take drop
drop-take [] m n h = refl
drop-take (c ∷ s) zero zero h = refl
drop-take (c ∷ s) zero (suc n) h = absurd (omega arith)
drop-take (c ∷ s) (suc m) zero h = let e : suc m - 0 ≡ suc m = omega arith in rw e refl
drop-take (c ∷ s) (suc m) (suc n) h =
    let e : suc m - suc n ≡ m - n = omega arith in rw e (drop-take s m n (omega arith))

-- A range that ends in the part of `s` that is kept.
pub range-take :
    (s t : Text) (m o l : ℕ)
    → o + l ≤ m
    → m ≤ length s
    → take (drop (take s m ++ t) o) l ≡ take (drop s o) l
range-take s t m o l h h' =
    let size = length-take s m h' in
    let inner : l ≤ length (take (drop s o) (m - o)) =
      omega (arith, length-take (drop s o) (m - o) (omega (arith, length-drop s o))) in
    rw
      (
        drop-append_first (take s m) t o (omega arith),
        drop-take s m o (omega arith),
        take-append_first (take (drop s o) (m - o)) t l inner,
      )
      (take-take (drop s o) (m - o) l (omega arith))

pub take_nothing : (s : Text) → take s 0 ≡ []
unfolding take
take_nothing [] = refl
take_nothing (c ∷ s) = refl

pub drop_nothing : (s : Text) → drop s 0 ≡ s
unfolding drop
drop_nothing [] = refl
drop_nothing (c ∷ s) = refl
