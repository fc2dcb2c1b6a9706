-- ===== src/NameNode/Rename/Kept.antt =====
-- NameNode::Rename takes the last entry out of a directory's text, and damages the text when the entry
-- stands before others.
use file_system_yfs.Base.{
  ℕ, ◌+◌, ◌-◌, ◌*◌, ◌%◌, ◌^◌, ◌<◌, ◌≡◌, refl, ap, sym, ◌∙◌, false, ◌==◌, ltb, some, List, [], ◌∷◌,
  ◌++◌, arith,
}
use file_system_yfs.Base.Text.{Text, length, length-append, append_assoc, append-nil}
use file_system_yfs.Client.Number.{filename, n2i, filename-cons}
use file_system_yfs.Client.Directory.{Dirent, semicolon, find, erase, in_name, read_entries}
use file_system_yfs.Client.Directory.Listing.{
  format, entry_text, IsPlain, format-append, read_entry,
}
use file_system_yfs.Client.Directory.Erase.{erase_middle, offset}
use file_system_yfs.NameNode.Rename.{erase_at, erase_before, cut_entry}
use file_system_yfs.NameNode.Rename.Dots.{filename_behind, filename-last}
use file_system_yfs.NameNode.Rename.Cut.{cut_inside, cut_last, erase_to_end}

erase_first : (text : Text) (n : ℕ) → erase_before text 0 n ≡ some (erase text 0 n)
unfolding erase_before erase_at
erase_first text n = let e : ltb (length text) 0 ≡ false = ground arith in rw (erase_at, e) refl

-- With a separator before the entry.
erase_behind :
    (s t : Text) (pos n : ℕ)
    → pos ≡ length s + 1
    → erase_before (s ++ t) pos n ≡ some (erase (s ++ t) (length s) n)
unfolding erase_before erase_at
erase_behind s t pos n place =
    let behind : (pos == 0) ≡ false = ground arith in
    let back : pos - 1 ≡ length s = omega arith in
    let inside : ltb (length (s ++ t)) (length s) ≡ false = ground (arith, length-append s t) in
    rw (behind, back, inside) refl

separated-length : (s : Text) → length (s ++ (semicolon ∷ [])) ≡ length s + 1
unfolding length
separated-length s = omega (arith, length-append s (semicolon ∷ []))

-- When the source directory's text, below 4 GB, has the name first at its last entry: Rename's
-- edit takes this entry out, and leaves the others.
pub cut_entry-last :
    (before : List Dirent) (e : Dirent)
    → IsPlain e.name
    → find (format (before ++ (e ∷ []))) e.name ≡ some (offset before)
    → length (format (before ++ (e ∷ []))) < 2 ^ 32 - 1
    → cut_entry (format (before ++ (e ∷ []))) e.name ≡ some (format before)
unfolding format offset length
cut_entry-last [] e plain at small =
    let text = entry_text e in
    let same : text ++ [] ≡ text = append-nil text in
    let cut = cut_last [] e plain (rw same at) (rw same small) in
    ap (λ t. cut_entry t e.name) (sym same)
    ∙ cut
    ∙ erase_first (text ++ []) _
    ∙ ap some (erase_to_end [] (text ++ []) _ (rw same (omega arith)))
cut_entry-last (b ∷ bs) e plain at small =
    let f = format (b ∷ bs) in
    let pre = f ++ (semicolon ∷ []) in
    let text = format ((b ∷ bs) ++ (e ∷ [])) in
    let split : text ≡ pre ++ (entry_text e ++ []) =
      format-append b bs e []
      ∙ ap (λ t. f ++ (semicolon ∷ t)) (sym (append-nil (entry_text e)))
      ∙ sym (append_assoc f (semicolon ∷ []) (entry_text e ++ [])) in
    let place = separated-length f in
    let whole : length text ≡ length (pre ++ (entry_text e ++ [])) = ap length split in
    let cut = cut_last pre e plain (rw (← split) (at ∙ ap some (sym place))) (rw (← split) small) in
    ap (λ t. cut_entry t e.name) split
    ∙ cut
    ∙ ap (λ t. erase_before t (length pre) (2 ^ 32 - 1 - length pre))
        (append_assoc f (semicolon ∷ []) (entry_text e ++ []))
    ∙ erase_behind f (semicolon ∷ (entry_text e ++ [])) (length pre) (2 ^ 32 - 1 - length pre) place
    ∙ ap some (
        erase_to_end f (semicolon ∷ (entry_text e ++ [])) (2 ^ 32 - 1 - length pre)
          (omega (arith, whole, place, length-append pre (entry_text e ++ []))))

-- The edit of the first of two entries, where the text, below 4 GB, has its name first, leaves the
-- separator behind it, and readdir of the text then begins with an entry without a name, whose
-- number is what the next name reads as.
pub cut_entry-first :
    (finum : Text → ℕ) (e next : Dirent)
    → IsPlain e.name
    → IsPlain next.name
    → ((c : ℕ) × (s : Text) × (next.name ≡ c ∷ s))
    → find (format (e ∷ next ∷ [])) e.name ≡ some 0
    → length (format (e ∷ next ∷ [])) < 2 ^ 32 - 1
    → (cut_entry (format (e ∷ next ∷ [])) e.name ≡ some (semicolon ∷ format (next ∷ [])))
      × (read_entries finum in_name [] [] (semicolon ∷ format (next ∷ []))
          ≡ record { name = []; inum = n2i (finum (filename next.inum)) next.name }
            ∷ read_entries finum in_name [] [] (filename next.inum))
unfolding format length entry_text IsPlain
cut_entry-first finum e next plain plain' named at small =
    let (d, u, digits) = filename-cons next.inum in
    let text = entry_text e ++ (semicolon ∷ entry_text next) in
    (
      cut_inside [] e plain (entry_text next) at small
          ∙ erase_first text (length (entry_text e))
          ∙ ap some (erase_middle [] (entry_text e) (semicolon ∷ entry_text next)),
      rw digits (read_entry finum [] next.name u d named tt plain'),
    )

-- A list with an entry at its end, before others.
format-behind :
    (front : List Dirent) (p x : Dirent) (xs : List Dirent)
    → format ((front ++ (p ∷ [])) ++ (x ∷ xs))
      ≡ format (front ++ (p ∷ [])) ++ (semicolon ∷ format (x ∷ xs))
format-behind [] p x xs = format-append p [] x xs
format-behind (f ∷ front) p x xs = format-append f (front ++ (p ∷ [])) x xs

offset-behind :
    (front : List Dirent) (p : Dirent)
    → offset (front ++ (p ∷ [])) ≡ length (format (front ++ (p ∷ []))) + 1
unfolding offset
offset-behind [] p = refl
offset-behind (f ∷ front) p = refl

format-longer :
    (front : List Dirent) (p p' : Dirent) (c : ℕ)
    → entry_text p' ≡ entry_text p ++ (c ∷ [])
    → format (front ++ (p' ∷ [])) ≡ format (front ++ (p ∷ [])) ++ (c ∷ [])
unfolding format
format-longer [] p p' c longer = longer
format-longer (f ∷ front) p p' c longer =
    format-append f front p' []
    ∙ ap (λ t. format (f ∷ front) ++ (semicolon ∷ t)) longer
    ∙ sym (append_assoc (format (f ∷ front)) (semicolon ∷ entry_text p) (c ∷ []))
    ∙ ap (λ t. t ++ (c ∷ [])) (sym (format-append f front p []))

entry_text-longer :
    (p : Dirent) (d : ℕ)
    → 0 < p.inum
    → p.inum < 10 ^ 19
    → d < 10
    → entry_text (record { name = p.name; inum = p.inum * 10 + d })
      ≡ entry_text p ++ ((b'0' + d) ∷ [])
unfolding entry_text
entry_text-longer p d some_left short small =
    ap (λ t. p.name ++ (semicolon ∷ t)) (filename_behind p.inum d some_left short small)
    ∙ sym (append_assoc p.name (semicolon ∷ filename p.inum) ((b'0' + d) ∷ []))

entry_text-last : (e : Dirent) → (t : Text) × (entry_text e ≡ t ++ ((b'0' + e.inum % 10) ∷ []))
unfolding entry_text
entry_text-last e =
    let (t, last) = filename-last e.inum in
    (
      e.name ++ (semicolon ∷ t),
      ap (λ n. e.name ++ (semicolon ∷ n)) last
          ∙ sym (append_assoc e.name (semicolon ∷ t) ((b'0' + e.inum % 10) ∷ [])),
    )

-- The erased range is the separator before the entry and the entry but for its last byte.
erase_shifted :
    (f t l text : Text) (c : ℕ)
    → text ≡ t ++ (c ∷ [])
    → erase (f ++ (semicolon ∷ (text ++ (semicolon ∷ l)))) (length f) (length text)
      ≡ (f ++ (c ∷ [])) ++ (semicolon ∷ l)
unfolding length
erase_shifted f t l text c last =
    let size : length text ≡ length (semicolon ∷ t) =
      rw last (omega (arith, length-append t (c ∷ []))) in
    rw (size, last, append_assoc t (c ∷ []) (semicolon ∷ l))
      (erase_middle f (semicolon ∷ t) (c ∷ semicolon ∷ l)
        ∙ sym (append_assoc f (c ∷ []) (semicolon ∷ l)))

-- The edit of an entry that stands between others, where the text, below 4 GB, has its name first:
-- the last digit of its number is left behind the number of the entry before it, which is below
-- 10^19 and not 0.
pub cut_entry-between :
    (front : List Dirent) (p e next : Dirent) (others : List Dirent)
    → IsPlain e.name
    → find (format ((front ++ (p ∷ [])) ++ (e ∷ next ∷ others))) e.name
      ≡ some (offset (front ++ (p ∷ [])))
    → length (format ((front ++ (p ∷ [])) ++ (e ∷ next ∷ others))) < 2 ^ 32 - 1
    → 0 < p.inum
    → p.inum < 10 ^ 19
    → cut_entry (format ((front ++ (p ∷ [])) ++ (e ∷ next ∷ others))) e.name
      ≡ some (
          format (
            (front ++ (record { name = p.name; inum = p.inum * 10 + e.inum % 10 } ∷ []))
            ++ (next ∷ others)))
unfolding format
cut_entry-between front p e next others plain at small some_left short =
    let f = format (front ++ (p ∷ [])) in
    let pre = f ++ (semicolon ∷ []) in
    let l = format (next ∷ others) in
    let p' : Dirent = record { name = p.name; inum = p.inum * 10 + e.inum % 10 } in
    let text = format ((front ++ (p ∷ [])) ++ (e ∷ next ∷ others)) in
    let rest = entry_text e ++ (semicolon ∷ l) in
    let split : text ≡ pre ++ rest =
      format-behind front p e (next ∷ others) ∙ sym (append_assoc f (semicolon ∷ []) rest) in
    let place = separated-length f in
    let at_pre = at ∙ ap some (offset-behind front p ∙ sym place) in
    let cut = cut_inside pre e plain l (rw (← split) at_pre) (rw (← split) small) in
    let (t, last) = entry_text-last e in
    let longer = entry_text-longer p (e.inum % 10) some_left short (omega arith) in
    let target : (f ++ ((b'0' + e.inum % 10) ∷ [])) ++ (semicolon ∷ l)
        ≡ format ((front ++ (p' ∷ [])) ++ (next ∷ others)) =
      ap (λ x. x ++ (semicolon ∷ l)) (sym (format-longer front p p' (b'0' + e.inum % 10) longer))
      ∙ sym (format-behind front p' next others) in
    ap (λ x. cut_entry x e.name) split
    ∙ cut
    ∙ ap (λ x. erase_before x (length pre) (length (entry_text e)))
        (append_assoc f (semicolon ∷ []) rest)
    ∙ erase_behind f (semicolon ∷ rest) (length pre) (length (entry_text e)) place
    ∙ ap some (erase_shifted f t l (entry_text e) (b'0' + e.inum % 10) last ∙ target)
