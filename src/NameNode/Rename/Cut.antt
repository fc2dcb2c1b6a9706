-- ===== src/NameNode/Rename/Cut.antt =====
-- What NameNode::Rename's edit leaves of the source directory's text.
use file_system_yfs.Base.{
  ℕ, zero, suc, ◌+◌, ◌-◌, ◌%◌, ◌^◌, ◌≤◌, ◌<◌, ◌≡◌, refl, ap, ◌∙◌, false, none, some, [], ◌∷◌, ◌++◌,
  arith,
}
use file_system_yfs.Base.Text.{Text, length, length-append, append_assoc, append-nil}
use file_system_yfs.Client.Number.{filename}
use file_system_yfs.Client.Directory.{Dirent, semicolon, find, erase}
use file_system_yfs.Client.Directory.Listing.{entry_text, IsPlain, filename-IsPlain}
use file_system_yfs.NameNode.Paths.{find_from}
use file_system_yfs.NameNode.Rename.{as_uint, is_npos, erase_before, cut_entry}
use file_system_yfs.NameNode.Rename.Dots.{find_from-plain, find_from-plain_end}

as_uint_small : (pos : ℕ) → pos < 2 ^ 32 → as_uint (some pos) ≡ pos
unfolding as_uint
as_uint_small pos h = omega arith

pub erase_to_end : (s t : Text) (n : ℕ) → length t ≤ n → erase (s ++ t) (length s) n ≡ s
unfolding erase length
erase_to_end [] [] n h = refl
erase_to_end [] (c ∷ t) zero h = absurd (omega arith)
erase_to_end [] (c ∷ t) (suc n) h = erase_to_end [] t n (omega arith)
erase_to_end (c ∷ s) t n h = ap (λ x. c ∷ x) (erase_to_end s t n h)

-- The edit where the positions are known.
cut_at :
    (text name : Text) (first second : ℕ) (begin_pos : ℕ)
    → find text name ≡ some begin_pos
    → begin_pos < 2 ^ 32
    → find_from text semicolon begin_pos ≡ some first
    → first + 1 < 2 ^ 32
    → as_uint (find_from text semicolon (first + 1)) ≡ second
    → second < 2 ^ 32
    → cut_entry text name ≡ erase_before text begin_pos ((second + 2 ^ 32 - begin_pos) % 2 ^ 32)
unfolding cut_entry
cut_at text name first second begin_pos at small one small' two small'' =
    let wrap : (first + 1) % 2 ^ 32 ≡ first + 1 = omega arith in
    let no1 : is_npos begin_pos ≡ false = ground arith in
    let no2 : is_npos first ≡ false = ground arith in
    let no3 : is_npos second ≡ false = ground arith in
    rw
      (
        cut_entry,
        at,
        as_uint_small begin_pos small,
        one,
        as_uint_small first (omega arith),
        wrap,
        two,
        no1,
        no2,
        no3,
      )
      refl

module _ (pre : Text) (e : Dirent) (plain : IsPlain e.name) where
  abbrev number : Text
  number = filename e.inum

  entry_length : length (entry_text e) ≡ length e.name + 1 + length number
  unfolding entry_text length
  entry_length = omega (arith, length-append e.name (semicolon ∷ number))

  -- Behind the name's semicolon.
  abbrev named : Text
  named = (pre ++ e.name) ++ (semicolon ∷ [])

  named-length : length named ≡ length pre + length e.name + 1
  unfolding length
  named-length =
      omega (arith, length-append (pre ++ e.name) (semicolon ∷ []), length-append pre e.name)

  split : (rest : Text) → pre ++ (entry_text e ++ rest) ≡ named ++ (number ++ rest)
  unfolding entry_text
  split rest =
      rw
        (
          append_assoc e.name (semicolon ∷ number) rest,
          append_assoc (pre ++ e.name) (semicolon ∷ []) (number ++ rest),
          append_assoc pre e.name (semicolon ∷ (number ++ rest)),
        )
        refl

  first_dot :
      (rest : Text)
      → find_from (pre ++ (entry_text e ++ rest)) semicolon (length pre)
        ≡ some (length pre + length e.name)
  unfolding entry_text
  first_dot rest =
      rw (append_assoc e.name (semicolon ∷ number) rest)
        (find_from-plain pre e.name (number ++ rest) plain)

  second_dot :
      (rest : Text)
      → find_from
          (pre ++ (entry_text e ++ (semicolon ∷ rest)))
          semicolon
          (length pre + length e.name + 1)
        ≡ some (length pre + length (entry_text e))
  second_dot rest =
      rw (split (semicolon ∷ rest), ← named-length)
        (find_from-plain named number rest (filename-IsPlain e.inum)
          ∙ ap some (omega (arith, named-length, entry_length)))

  no_second_dot :
      find_from (pre ++ (entry_text e ++ [])) semicolon (length pre + length e.name + 1) ≡ none
  no_second_dot =
      rw (split [], ← named-length, append-nil number)
        (find_from-plain_end named number (filename-IsPlain e.inum))

  -- The edit of an entry before others, and of the last one.
  pub cut_inside :
      (rest : Text)
      → let text = pre ++ (entry_text e ++ (semicolon ∷ rest)) in
        find text e.name ≡ some (length pre)
        → length text < 2 ^ 32 - 1
        → cut_entry text e.name ≡ erase_before text (length pre) (length (entry_text e))
  cut_inside rest at small =
      let text = pre ++ (entry_text e ++ (semicolon ∷ rest)) in
      let size : length pre + length (entry_text e) < length text =
        unfold length in
        omega (
          arith,
          length-append pre (entry_text e ++ (semicolon ∷ rest)),
          length-append (entry_text e) (semicolon ∷ rest),
        ) in
      let n : (length pre + length (entry_text e) + 2 ^ 32 - length pre) % 2 ^ 32
          ≡ length (entry_text e) =
        omega arith in
      cut_at text e.name (length pre + length e.name) (length pre + length (entry_text e))
        (length pre) at (omega arith) (first_dot (semicolon ∷ rest)) (omega (arith, entry_length))
        (ap as_uint (second_dot rest) ∙ as_uint_small _ (omega arith)) (omega arith)
      ∙ ap (erase_before text (length pre)) n

  pub cut_last :
      let text = pre ++ (entry_text e ++ []) in
      find text e.name ≡ some (length pre)
      → length text < 2 ^ 32 - 1
      → cut_entry text e.name ≡ erase_before text (length pre) (2 ^ 32 - 1 - length pre)
  unfolding as_uint
  cut_last at small =
      let text = pre ++ (entry_text e ++ []) in
      let size : length pre + length (entry_text e) ≡ length text =
        rw (append-nil (entry_text e)) (omega (arith, length-append pre (entry_text e))) in
      let n : (2 ^ 32 - 1 + 2 ^ 32 - length pre) % 2 ^ 32 ≡ 2 ^ 32 - 1 - length pre = omega arith in
      cut_at text e.name (length pre + length e.name) (2 ^ 32 - 1) (length pre) at (omega arith)
        (first_dot []) (omega (arith, entry_length)) (ap as_uint no_second_dot) (omega arith)
      ∙ ap (erase_before text (length pre)) n
