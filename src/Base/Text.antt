-- ===== src/Base/Text.antt =====
-- std::string as the list of its bytes, and the buffers that it is copied to and from.
use Prim.Native.Nat.{ℕ, zero, suc, ◌+◌, ◌%◌, ◌<◌}
use mathlib.Core.Path.{◌≡◌, refl, ap, ◌∙◌}
use mathlib.Core.Bool.{Bool, true, false, ◌&&◌}
use mathlib.Core.List.{List, [], ◌∷◌, ◌++◌}
use native.Mathlib.Omega.{arith}
use mathlib.Core.Logic.{inl, inr}
use file_system_yfs.Base.Tests.{◌==◌, ==_self, ==_iff, Bool-cases}
use file_system_yfs.Base.Memory.{Buf}

abbrev pub Text : Type 0
Text = List ℕ

-- s.size()
unfoldable pub length : Text → ℕ
length [] = 0
length (c ∷ s) = suc (length s)

-- s.c_str(): the bytes, the zero, and `rest` behind them.
unfoldable pub c_str : Buf → Text → Buf
c_str rest [] zero = 0
c_str rest [] (suc k) = rest k
c_str rest (c ∷ s) zero = c
c_str rest (c ∷ s) (suc k) = c_str rest s k

-- s.assign(b + i, n)
unfoldable pub assign : Buf → ℕ → ℕ → Text
assign b i zero = []
assign b i (suc n) = b i % 256 ∷ assign b (i + 1) n

-- a == b
unfoldable pub equal : Text → Text → Bool
equal [] [] = true
equal [] (c ∷ t) = false
equal (c ∷ s) [] = false
equal (c ∷ s) (d ∷ t) = (c == d) && equal s t

-- All are bytes.
unfoldable pub AreBytes : Text → Type 0
AreBytes [] = Unit
AreBytes (c ∷ s) = (c < 256) × AreBytes s

-- Inside the text the bytes behind it do not matter.
pub c_str_inside : (b b' : Buf) (s : Text) (k : ℕ) → k < length s → c_str b s k ≡ c_str b' s k
unfolding c_str length
c_str_inside b b' [] k h = absurd (omega arith)
c_str_inside b b' (c ∷ s) zero h = refl
c_str_inside b b' (c ∷ s) (suc k) h = c_str_inside b b' s k (omega arith)

-- A buffer that holds the bytes of a text from `i` on is assigned as that text.
pub assign-c_str :
    (b rest : Buf) (i : ℕ) (s : Text)
    → AreBytes s
    → ((k : ℕ) → k < length s → b (i + k) ≡ c_str rest s k)
    → assign b i (length s) ≡ s
unfolding assign length AreBytes c_str
assign-c_str b rest i [] bytes same = refl
assign-c_str b rest i (c ∷ s) (small, bytes) same =
    let first : b i ≡ c = ap b (omega arith) ∙ same 0 (omega arith) in
    let others =
      assign-c_str b rest (i + 1) s bytes
        (λ k h. ap b (omega arith) ∙ same (suc k) (omega arith)) in
    let same_byte : c % 256 ≡ c = omega arith in rw (first, others, same_byte) refl

pub equal_self : (s : Text) → equal s s ≡ true
unfolding equal
equal_self [] = refl
equal_self (c ∷ s) = rw (==_self c) (equal_self s)

pub equal_sound : (s t : Text) → equal s t ≡ true → s ≡ t
unfolding equal
equal_sound [] [] e = refl
equal_sound [] (c ∷ t) e = absurd (ground arith)
equal_sound (c ∷ s) [] e = absurd (ground arith)
equal_sound (c ∷ s) (d ∷ t) e = elim (Bool-cases (c == d)) [
  | inl h ↦
      let tails : equal s t ≡ true = ground arith in
      rw ((==_iff c d).0 h, equal_sound s t tails) refl
  | inr h ↦ absurd (ground arith)
]

pub append_assoc {ℓ} : {A : Type ℓ} (s t u : List A) → (s ++ t) ++ u ≡ s ++ (t ++ u)
append_assoc [] t u = refl
append_assoc (c ∷ s) t u = ap (λ x. c ∷ x) (append_assoc s t u)

pub append-nil {ℓ} : {A : Type ℓ} (s : List A) → s ++ [] ≡ s
append-nil [] = refl
append-nil (c ∷ s) = ap (λ x. c ∷ x) (append-nil s)

pub length-append : (s t : Text) → length (s ++ t) ≡ length s + length t
unfolding length
length-append [] t = omega arith
length-append (c ∷ s) t = omega (arith, length-append s t)

unfoldable pub take {ℓ} : {A : Type ℓ} → List A → ℕ → List A
take [] n = []
take (c ∷ s) zero = []
take (c ∷ s) (suc n) = c ∷ take s n

unfoldable pub drop {ℓ} : {A : Type ℓ} → List A → ℕ → List A
drop [] n = []
drop (c ∷ s) zero = c ∷ s
drop (c ∷ s) (suc n) = drop s n

-- `n` zero bytes.
unfoldable pub zeros : ℕ → Text
zeros zero = []
zeros (suc n) = 0 ∷ zeros n
