-- ===== src/Client/Number.antt =====
-- The inode numbers in a directory's text: yfs_client::filename and yfs_client::n2i.
use file_system_yfs.Base.{
  ℕ, zero, suc, ◌+◌, ◌-◌, ◌*◌, ◌/◌, ◌%◌, ◌^◌, ◌<◌, ◌≡◌, refl, ◌∙◌, Bool, true, false, ◌&&◌, ◌||◌,
  arith, ltb, leb, ◌==◌, if◌then◌else◌, [], ◌∷◌, ◌++◌, inl, inr, Bool-cases, ltb→lt,
}
use file_system_yfs.Base.Text.{Text, append_assoc, append-nil}

-- The decimal digits of a number of at most `n` digits.
unfoldable pub digits : ℕ → ℕ → Text
digits zero inum = []
digits (suc n) inum = elim (ltb inum 10) [
  | true ↦ (b'0' + inum) ∷ []
  | false ↦ digits n (inum / 10) ++ ((b'0' + inum % 10) ∷ [])
]

-- yfs_client::filename: ost << inum, for an unsigned long long, which has at most 20 digits.
unfoldable pub filename : ℕ → Text
filename inum = digits 20 inum

abbrev pub is_digit : ℕ → Bool
is_digit c = leb b'0' c && leb c b'9'

unfoldable pub skip_space : Text → Text
skip_space [] = []
skip_space (c ∷ s) = elim (c == 32 || (leb 9 c && leb c 13)) [ true ↦ skip_space s | false ↦ c ∷ s ]

-- The number that the leading digits make, behind `value`.
unfoldable pub parse_digits : ℕ → Text → ℕ
parse_digits value [] = value
parse_digits value (c ∷ s) = elim (is_digit c) [
  | true ↦ parse_digits (value * 10 + (c - b'0')) s
  | false ↦ value
]

abbrev pub clamp : ℕ → ℕ
clamp value = if leb (2 ^ 64) value then 2 ^ 64 - 1 else value

-- The negative of a number, which wraps around.
abbrev pub negated : ℕ → ℕ
negated value = if leb (2 ^ 64) value then 2 ^ 64 - 1 else (2 ^ 64 - value) % 2 ^ 64

-- A number with its sign: a byte and those behind it. It is 0 when there are no digits, and the largest
-- value when it is too large.
unfoldable pub parse_signed : ℕ → Text → ℕ
parse_signed c s =
    if c == b'-'
    then negated (parse_digits 0 s)
    else if c == b'+'
    then clamp (parse_digits 0 s)
    else clamp (parse_digits 0 (c ∷ s))

-- yfs_client::n2i: ist >> finum, which leaves the variable as it was, uninitialised, when there is nothing
-- but space.
unfoldable pub n2i : ℕ → Text → ℕ
n2i finum n = elim (skip_space n) [ [] ↦ finum | c ∷ s ↦ parse_signed c s ]

digit_is_digit : (d : ℕ) → d < 10 → is_digit (b'0' + d) ≡ true
digit_is_digit d h = ground arith

-- Digits are read as the number that they are printed for.
parse_digits-digits :
    (n inum : ℕ) (s : Text)
    → inum < 10 ^ n
    → parse_digits 0 (digits n inum ++ s) ≡ parse_digits inum s
unfolding digits parse_digits
parse_digits-digits zero inum s h = let none_left : inum ≡ 0 = omega arith in rw none_left refl
parse_digits-digits (suc n) inum s h = elim (Bool-cases (ltb inum 10)) [
  | inl e ↦
      let value : 0 * 10 + ((b'0' + inum) - b'0') ≡ inum = omega arith in
      rw (e, digits, parse_digits, digit_is_digit inum (ltb→lt inum 10 e), value) refl
  | inr e ↦
      let value : inum / 10 * 10 + ((b'0' + inum % 10) - b'0') ≡ inum = omega arith in
      rw (digits, e, append_assoc (digits n (inum / 10)) ((b'0' + inum % 10) ∷ []) s)
        (parse_digits-digits n (inum / 10) ((b'0' + inum % 10) ∷ s) (ground arith)
          ∙ rw (parse_digits, digit_is_digit (inum % 10) (omega arith), value) refl)
]

-- All bytes are digits.
unfoldable pub AreDigits : Text → Type 0
AreDigits [] = Unit
AreDigits (c ∷ s) = (is_digit c ≡ true) × AreDigits s

AreDigits-append : (s t : Text) → AreDigits s → AreDigits t → AreDigits (s ++ t)
unfolding AreDigits
AreDigits-append [] t digits_s digits_t = digits_t
AreDigits-append (c ∷ s) t (first, others) digits_t = (first, AreDigits-append s t others digits_t)

digits-AreDigits : (n inum : ℕ) → AreDigits (digits n inum)
unfolding digits AreDigits
digits-AreDigits zero inum = tt
digits-AreDigits (suc n) inum = elim (Bool-cases (ltb inum 10)) [
  | inl e ↦ rw (e, digits) (digit_is_digit inum (ltb→lt inum 10 e), tt)
  | inr e ↦
      rw (e, digits)
        (AreDigits-append (digits n (inum / 10)) ((b'0' + inum % 10) ∷ [])
          (digits-AreDigits n (inum / 10)) (digit_is_digit (inum % 10) (omega arith), tt))
]

pub filename-AreDigits : (inum : ℕ) → AreDigits (filename inum)
unfolding filename
filename-AreDigits inum = digits-AreDigits 20 inum

-- A number has at least one digit.
append-cons :
    (s t : Text) → ((c : ℕ) × (u : Text) × (s ≡ c ∷ u)) → (c : ℕ) × (u : Text) × (s ++ t ≡ c ∷ u)
append-cons s t (c, u, e) = (c, u ++ t, rw e refl)

digits-cons : (n inum : ℕ) → (c : ℕ) × (u : Text) × (digits (suc n) inum ≡ c ∷ u)
unfolding digits
digits-cons zero inum = elim (Bool-cases (ltb inum 10)) [
  | inl e ↦ (b'0' + inum, [], rw (e, digits) refl)
  | inr e ↦ (b'0' + inum % 10, [], rw (e, digits) refl)
]
digits-cons (suc n) inum = elim (Bool-cases (ltb inum 10)) [
  | inl e ↦ (b'0' + inum, [], rw (e, digits) refl)
  | inr e ↦
      let (c, u, same) = append-cons _ ((b'0' + inum % 10) ∷ []) (digits-cons n (inum / 10)) in
      (c, u, rw (e, digits) same)
]

pub filename-cons : (inum : ℕ) → (c : ℕ) × (u : Text) × (filename inum ≡ c ∷ u)
unfolding filename
filename-cons inum = digits-cons 19 inum

n2i_digits :
    (finum : ℕ) (s : Text)
    → ((c : ℕ) × (u : Text) × (s ≡ c ∷ u))
    → AreDigits s
    → n2i finum s ≡ clamp (parse_digits 0 s)
unfolding n2i skip_space parse_signed AreDigits
n2i_digits finum [] (c, u, same) all = absurd (ground arith)
n2i_digits finum (c ∷ s) some_digit (digit, others) =
    let solid : (c == 32 || (leb 9 c && leb c 13)) ≡ false = ground arith in
    let unsigned : (c == b'-') ≡ false = ground arith in
    let no_plus : (c == b'+') ≡ false = ground arith in
    rw (n2i, skip_space, solid, parse_signed, unsigned, no_plus) refl

-- A number of at most 64 bits is read back from the text that filename makes of it.
pub n2i-filename : (finum inum : ℕ) → inum < 2 ^ 64 → n2i finum (filename inum) ≡ inum
unfolding filename parse_digits
n2i-filename finum inum h =
    let value = parse_digits-digits 20 inum [] (omega arith) in
    let whole : parse_digits 0 (digits 20 inum) ≡ inum = rw (← append-nil (digits 20 inum)) value in
    let fits : leb (2 ^ 64) inum ≡ false = ground arith in
    n2i_digits finum (filename inum) (filename-cons inum) (filename-AreDigits inum)
    ∙ rw (whole, fits) refl
