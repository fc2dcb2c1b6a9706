-- ===== src/Client/Directory/Erase.antt =====
-- What unlink's edit leaves of a directory's text.
use file_system_yfs.Base.{
  ℕ, ◌<◌, Bool-cases, inl, inr, suc, ◌+◌, ◌-◌, ◌≡◌, refl, ◌∙◌, ap, sym, true, false, ◌==◌, List, [],
  ◌∷◌, ◌++◌, some, arith,
}
use file_system_yfs.Base.Text.{Text, length, length-append, append_assoc, append-nil}
use file_system_yfs.Client.Number.{filename}
use file_system_yfs.Client.Directory.{Dirent, semicolon, find, erase, cleared, remove_entry}
use file_system_yfs.Client.Directory.Listing.{format, entry_text, IsPlain, AreNamed, format-append}

erase_nothing : (u : Text) → erase u 0 0 ≡ u
unfolding erase
erase_nothing [] = refl
erase_nothing (c ∷ u) = refl

erase_front : (t u : Text) → erase (t ++ u) 0 (length t) ≡ u
unfolding erase length
erase_front [] u = erase_nothing u
erase_front (c ∷ t) u = erase_front t u

erase_whole : (t : Text) → erase t 0 (length t) ≡ []
unfolding erase length
erase_whole [] = refl
erase_whole (c ∷ t) = erase_whole t

pub erase_middle : (s t u : Text) → erase (s ++ (t ++ u)) (length s) (length t) ≡ s ++ u
unfolding erase length
erase_middle [] t u = erase_front t u
erase_middle (c ∷ s) t u = ap (λ x. c ∷ x) (erase_middle s t u)

entry_length : (e : Dirent) → length (entry_text e) ≡ length e.name + 1 + length (filename e.inum)
unfolding entry_text length
entry_length e = omega (arith, length-append e.name (semicolon ∷ filename e.inum))

cleared_name :
    (name t : Text) → IsPlain name → cleared (name ++ (semicolon ∷ t)) ≡ name ++ (semicolon ∷ t)
unfolding cleared IsPlain
cleared_name [] t plain = refl
cleared_name (c ∷ name) t (here, nonzero, later) = rw nonzero refl

cleared-format : (es : List Dirent) → AreNamed es → cleared (format es) ≡ format es
unfolding cleared format entry_text AreNamed
cleared-format [] named = refl
cleared-format (e ∷ []) (plain, small, others) = cleared_name e.name (filename e.inum) plain
cleared-format (e ∷ e' ∷ es) (plain, small, others) =
    rw (append_assoc e.name (semicolon ∷ filename e.inum) (semicolon ∷ format (e' ∷ es)))
      (cleared_name e.name (filename e.inum ++ (semicolon ∷ format (e' ∷ es))) plain)

-- Where an entry behind others starts.
unfoldable pub offset : List Dirent → ℕ
offset [] = 0
offset (e ∷ es) = length (format (e ∷ es)) + 1

module _ (e : Dirent) (s u : Text) where
  -- The entry and the separator behind it, in the middle of a text.
  erase_entry :
      erase (s ++ (entry_text e ++ (semicolon ∷ u))) (length s) (length (entry_text e) + 1) ≡ s ++ u
  unfolding length
  erase_entry =
      let all : length (entry_text e) + 1 ≡ length (entry_text e ++ (semicolon ∷ [])) =
        omega (arith, length-append (entry_text e) (semicolon ∷ [])) in
      rw (all, sym (append_assoc (entry_text e) (semicolon ∷ []) u))
        (erase_middle s (entry_text e ++ (semicolon ∷ [])) u)

  -- The last entry and the separator before it.
  erase_last : erase (s ++ (semicolon ∷ entry_text e)) (length s) (length (entry_text e) + 1) ≡ s
  unfolding length
  erase_last =
      let all : length (entry_text e) + 1 ≡ length (semicolon ∷ entry_text e) = omega arith in
      rw (all, sym (append-nil (semicolon ∷ entry_text e)))
        (erase_middle s (semicolon ∷ entry_text e) [] ∙ append-nil s)

module _ (e : Dirent) (pos : ℕ) (text : Text) where
  -- The three cases of unlink's edit.
  remove_entry_only :
      find text e.name ≡ some 0
      → length text ≡ length (entry_text e)
      → remove_entry text e.name e.inum ≡ some (cleared (erase text 0 (length (entry_text e))))
  unfolding remove_entry
  remove_entry_only at whole =
      let ends : (length text == 0 + (length e.name + 1 + length (filename e.inum))) ≡ true =
        ground (arith, entry_length e) in
      rw (remove_entry, at, ends, entry_length e) refl

  remove_entry_last :
      find text e.name ≡ some (suc pos)
      → length text ≡ suc pos + length (entry_text e)
      → remove_entry text e.name e.inum
        ≡ some (cleared (erase text pos (length (entry_text e) + 1)))
  unfolding remove_entry
  remove_entry_last at whole =
      let ends : (length text == suc pos + (length e.name + 1 + length (filename e.inum))) ≡ true =
        ground (arith, entry_length e) in
      let behind : (suc pos == 0) ≡ false = ground arith in
      let back : suc pos - 1 ≡ pos = omega arith in
      rw (remove_entry, at, ends, entry_length e, behind, back) refl

  remove_entry_inside :
      find text e.name ≡ some pos
      → pos + length (entry_text e) < length text
      → remove_entry text e.name e.inum
        ≡ some (cleared (erase text pos (length (entry_text e) + 1)))
  unfolding remove_entry
  remove_entry_inside at more =
      let ends : (length text == pos + (length e.name + 1 + length (filename e.inum))) ≡ false =
        ground (arith, entry_length e) in
      elim (Bool-cases (pos == 0)) [
        | inl first ↦ rw (remove_entry, at, ends, entry_length e, first) refl
        | inr behind ↦ rw (remove_entry, at, ends, entry_length e, behind) refl
      ]

AreNamed-others :
    (before : List Dirent) (e : Dirent) (after : List Dirent)
    → AreNamed (before ++ (e ∷ after))
    → AreNamed (before ++ after)
unfolding AreNamed
AreNamed-others [] e after (plain, small, named) = named
AreNamed-others (b ∷ before) e after (plain, small, named) =
    (plain, small, AreNamed-others before e after named)

removed :
    (before : List Dirent) (e : Dirent) (after : List Dirent)
    → find (format (before ++ (e ∷ after))) e.name ≡ some (offset before)
    → remove_entry (format (before ++ (e ∷ after))) e.name e.inum
      ≡ some (cleared (format (before ++ after)))
unfolding format offset length
removed [] e [] at =
    remove_entry_only e 0 (entry_text e) at refl
    ∙ ap (λ s. some (cleared s)) (erase_whole (entry_text e))
removed [] e (a ∷ after) at =
    remove_entry_inside e 0 (format (e ∷ a ∷ after)) at
      (omega (arith, length-append (entry_text e) (semicolon ∷ format (a ∷ after))))
    ∙ ap (λ s. some (cleared s)) (erase_entry e [] (format (a ∷ after)))
removed (b ∷ before) e [] at =
    let first = format (b ∷ before) in
    let split = format-append b before e [] in
    let next : length first + 1 ≡ suc (length first) = omega arith in
    remove_entry_last e (length first) (format ((b ∷ before) ++ (e ∷ []))) (at ∙ ap some next)
      (rw split (omega (arith, length-append first (semicolon ∷ entry_text e))))
    ∙ rw (append-nil before) (ap (λ s. some (cleared s)) (rw split (erase_last e first [])))
removed (b ∷ before) e (a ∷ after) at =
    let first = format (b ∷ before) in
    let later = format (a ∷ after) in
    let split = format-append b before e (a ∷ after) in
    let joined = format-append b before a after in
    let parted = append_assoc first (semicolon ∷ []) in
    let place : length first + 1 ≡ length (first ++ (semicolon ∷ [])) =
      omega (arith, length-append first (semicolon ∷ [])) in
    let rest = length-append (entry_text e) (semicolon ∷ later) in
    let whole = length-append first (semicolon ∷ (entry_text e ++ (semicolon ∷ later))) in
    remove_entry_inside e (length first + 1) (format ((b ∷ before) ++ (e ∷ a ∷ after))) at
      (rw split (omega (arith, rest, whole)))
    ∙ ap (λ s. some (cleared s))
        (rw
          (
            split,
            joined,
            place,
            sym (parted (entry_text e ++ (semicolon ∷ later))),
            sym (parted later),
          )
          (erase_entry e (first ++ (semicolon ∷ [])) later))

-- For entries whose names have no semicolon and no zero byte and whose numbers have 64 bits: where
-- the text's first occurrence of the name is at the entry itself, unlink's edit takes that entry
-- out and leaves the others in their order.
pub remove_entry-format :
    (before : List Dirent) (e : Dirent) (after : List Dirent)
    → AreNamed (before ++ (e ∷ after))
    → find (format (before ++ (e ∷ after))) e.name ≡ some (offset before)
    → remove_entry (format (before ++ (e ∷ after))) e.name e.inum ≡ some (format (before ++ after))
remove_entry-format before e after named at =
    removed before e after at
    ∙ ap some (cleared-format (before ++ after) (AreNamed-others before e after named))

-- When the name of a directory's first entry is that of the second and last entry behind one byte
-- that is not zero, where the text has it first, and the two numbers have as many digits, unlink
-- of the second entry leaves the first name with the number of the removed inode.
pub remove_entry-wrong :
    (kept gone : Dirent) (c : ℕ)
    → kept.name ≡ c ∷ gone.name
    → (c == 0) ≡ false
    → length (filename kept.inum) ≡ length (filename gone.inum)
    → find (format (kept ∷ gone ∷ [])) gone.name ≡ some 1
    → remove_entry (format (kept ∷ gone ∷ [])) gone.name gone.inum
      ≡ some (format (record { name = kept.name; inum = gone.inum } ∷ []))
unfolding format entry_text cleared length
remove_entry-wrong kept gone c longer nonzero as_long at =
    let cut : Dirent = record { name = gone.name; inum = kept.inum } in
    let text : entry_text kept ≡ c ∷ entry_text cut = rw longer refl in
    let lengths : length (entry_text gone) ≡ length (entry_text cut) =
      omega (arith, entry_length gone, entry_length cut, as_long) in
    let whole = length-append (entry_text cut) (semicolon ∷ entry_text gone) in
    remove_entry_inside gone 1 (format (kept ∷ gone ∷ [])) at
      (rw text (omega (arith, lengths, whole)))
    ∙ rw (text, longer, lengths)
        (ap (λ s. some (cleared s)) (erase_entry cut (c ∷ []) (entry_text gone)) ∙ rw nonzero refl)
