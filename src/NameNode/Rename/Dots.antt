-- ===== src/NameNode/Rename/Dots.antt =====
-- Where a directory's text has the semicolons of an entry.
use file_system_yfs.Base.{
  ℕ, zero, suc, ◌+◌, ◌*◌, ◌/◌, ◌%◌, ◌^◌, ◌<◌, ◌≡◌, refl, ap, sym, ◌∙◌, true, false, ltb, none, some,
  [], ◌∷◌, ◌++◌, inl, inr, Bool-cases, arith,
}
use file_system_yfs.Base.Text.{Text, length}
use file_system_yfs.Base.Slices.{drop-append}
use file_system_yfs.Client.Number.{filename, digits}
use file_system_yfs.Client.Directory.{semicolon}
use file_system_yfs.Client.Directory.Listing.{IsPlain}
use file_system_yfs.NameNode.Paths.{index_of, find_from}

index_of-plain :
    (s t : Text) → IsPlain s → index_of (s ++ (semicolon ∷ t)) semicolon ≡ some (length s)
unfolding index_of IsPlain length
index_of-plain [] t plain = refl
index_of-plain (c ∷ s) t (here, nonzero, later) = rw (here, index_of-plain s t later) refl

index_of-plain_end : (s : Text) → IsPlain s → index_of s semicolon ≡ none
unfolding index_of IsPlain
index_of-plain_end [] plain = refl
index_of-plain_end (c ∷ s) (here, nonzero, later) = rw (here, index_of-plain_end s later) refl

pub find_from-plain :
    (pre s t : Text)
    → IsPlain s
    → find_from (pre ++ (s ++ (semicolon ∷ t))) semicolon (length pre)
      ≡ some (length pre + length s)
unfolding find_from
find_from-plain pre s t plain =
    rw (drop-append pre (s ++ (semicolon ∷ t)), index_of-plain s t plain) refl

pub find_from-plain_end :
    (pre s : Text) → IsPlain s → find_from (pre ++ s) semicolon (length pre) ≡ none
unfolding find_from
find_from-plain_end pre s plain = rw (drop-append pre s, index_of-plain_end s plain) refl

digits_long :
    (n inum : ℕ)
    → ltb inum 10 ≡ false
    → digits (suc n) inum ≡ digits n (inum / 10) ++ ((b'0' + inum % 10) ∷ [])
unfolding digits
digits_long n inum e = rw (digits, e) refl

shorter : (n inum : ℕ) → inum < 10 ^ suc (suc n) → inum / 10 < 10 ^ suc n
shorter n inum h = ground arith

-- More digits than a number has make no difference.
digits_more : (n inum : ℕ) → inum < 10 ^ suc n → digits (suc (suc n)) inum ≡ digits (suc n) inum
unfolding digits
digits_more zero inum h = let e : ltb inum 10 ≡ true = ground arith in rw (digits, e) refl
digits_more (suc n) inum h = elim (Bool-cases (ltb inum 10)) [
  | inl e ↦ rw (digits, e) refl
  | inr e ↦
      let rest = digits_more n (inum / 10) (shorter n inum h) in
      digits_long (suc (suc n)) inum e
      ∙ ap (λ t. t ++ ((b'0' + inum % 10) ∷ [])) rest
      ∙ sym (digits_long (suc n) inum e)
]

-- A number with a digit behind it.
pub digits_behind :
    (n q d : ℕ)
    → 0 < q
    → q < 10 ^ suc n
    → d < 10
    → digits (suc (suc n)) (q * 10 + d) ≡ digits (suc (suc n)) q ++ ((b'0' + d) ∷ [])
digits_behind n q d some_left h small =
    let e : ltb (q * 10 + d) 10 ≡ false = ground arith in
    let front : (q * 10 + d) / 10 ≡ q = omega arith in
    let last : (q * 10 + d) % 10 ≡ d = omega arith in
    digits_long (suc n) (q * 10 + d) e ∙ rw (front, last, digits_more n q h) refl

pub digits-last : (n inum : ℕ) → (t : Text) × (digits (suc n) inum ≡ t ++ ((b'0' + inum % 10) ∷ []))
unfolding digits
digits-last n inum = elim (Bool-cases (ltb inum 10)) [
  | inl e ↦ let one : inum % 10 ≡ inum = ground arith in ([], rw (digits, e, one) refl)
  | inr e ↦ (digits n (inum / 10), rw (digits, e) refl)
]

-- The text of a number with another number's last digit behind it, and that the last digit ends the other.
pub filename_behind :
    (q d : ℕ)
    → 0 < q
    → q < 10 ^ 19
    → d < 10
    → filename (q * 10 + d) ≡ filename q ++ ((b'0' + d) ∷ [])
unfolding filename
filename_behind q d some_left h small = digits_behind 18 q d some_left h small

pub filename-last : (inum : ℕ) → (t : Text) × (filename inum ≡ t ++ ((b'0' + inum % 10) ∷ []))
unfolding filename
filename-last inum = digits-last 19 inum
