-- ===== src/Client/Directory/Lookup.antt =====
-- The loop of nlock_lookup against the loop of nlock_readdir.
use file_system_yfs.Base.{
  sym, ◌<◌, ◌^◌, arith, ℕ, ◌≡◌, refl, ◌∙◌, ap, false, ◌==◌, List, [], ◌∷◌, ◌++◌, Option, none, some,
  inl, inr, Bool-cases, if◌then◌else◌,
}
use file_system_yfs.Base.Text.{Text, equal, equal_self}
use file_system_yfs.Client.Directory.{
  Dirent, ReadState, in_name, in_number, semicolon, read_entries, find_entry, add_entry,
}
use file_system_yfs.Client.Directory.Listing.{
  format, AreNamed, IsPlain, read_entries-format, add_entry-format,
}

-- The number of the first entry with a name.
unfoldable pub first_named : Text → List Dirent → Option ℕ
first_named search_name [] = none
first_named search_name (e ∷ es) =
    if equal e.name search_name then some e.inum else first_named search_name es

find_entry_from :
    (finum : Text → ℕ) (search_name : Text) (state : ReadState) (file_name inode_num s : Text)
    → find_entry finum search_name state file_name inode_num s
      ≡ first_named search_name (read_entries finum state file_name inode_num s)
unfolding find_entry read_entries first_named
find_entry_from finum search_name in_name file_name inode_num [] = refl
find_entry_from finum search_name in_number file_name inode_num [] = refl
find_entry_from finum search_name in_name file_name inode_num (c ∷ s) =
    elim (Bool-cases (c == semicolon)) [
      | inl e ↦
          rw (find_entry, read_entries, e)
            (find_entry_from finum search_name in_number file_name inode_num s)
      | inr e ↦
          rw (find_entry, read_entries, e)
            (find_entry_from finum search_name in_name (file_name ++ (c ∷ [])) inode_num s)
    ]
find_entry_from finum search_name in_number file_name inode_num (c ∷ []) =
    elim (Bool-cases (c == semicolon)) [
      | inl e ↦ elim (Bool-cases (equal file_name search_name)) [
        | inl h ↦ rw (find_entry, read_entries, h, e, h) refl
        | inr h ↦ rw (find_entry, read_entries, h, e, h) refl
      ]
      | inr e ↦ elim (Bool-cases (equal file_name search_name)) [
        | inl h ↦ rw (find_entry, read_entries, h, e, h) refl
        | inr h ↦ rw (find_entry, read_entries, h, e, h) refl
      ]
    ]
find_entry_from finum search_name in_number file_name inode_num (c ∷ d ∷ s) =
    elim (Bool-cases (c == semicolon)) [
      | inl e ↦ elim (Bool-cases (equal file_name search_name)) [
        | inl h ↦ rw (find_entry, read_entries, e, h) refl
        | inr h ↦
            rw (find_entry, read_entries, e, first_named, h)
              (find_entry_from finum search_name in_name [] [] (d ∷ s))
      ]
      | inr e ↦
          rw (find_entry, read_entries, e)
            (find_entry_from finum search_name in_number file_name (inode_num ++ (c ∷ [])) (d ∷ s))
    ]

-- Lookup's loop finds the first entry with the name among those that readdir's loop reads, when both
-- leave the same in their uninitialised variables.
pub find_entry-first_named :
    (finum : Text → ℕ) (search_name dir_list : Text)
    → find_entry finum search_name in_name [] [] dir_list
      ≡ first_named search_name (read_entries finum in_name [] [] dir_list)
find_entry-first_named finum search_name dir_list =
    find_entry_from finum search_name in_name [] [] dir_list

-- On a text whose list of entries does not depend on what n2i leaves uninitialised, as when no
-- number is blank, lookup's loop finds the first entry with the name among those that readdir's
-- loop reads, whatever the uninitialised variables hold in either of them.
pub find_entry-read_entries :
    (finum finum' : Text → ℕ) (search_name dir_list : Text)
    → ((f : Text → ℕ)
        → read_entries f in_name [] [] dir_list ≡ read_entries finum in_name [] [] dir_list)
    → find_entry finum' search_name in_name [] [] dir_list
      ≡ first_named search_name (read_entries finum in_name [] [] dir_list)
find_entry-read_entries finum finum' search_name dir_list numbered =
    find_entry-first_named finum' search_name dir_list
    ∙ ap (first_named search_name) (numbered finum')

first_named-append :
    (name : Text) (ino : ℕ) (es : List Dirent)
    → first_named name es ≡ none
    → first_named name (es ++ (record { name = name; inum = ino } ∷ [])) ≡ some ino
unfolding first_named
first_named-append name ino [] fresh = rw (equal_self name) refl
first_named-append name ino (e ∷ es) fresh = elim (Bool-cases (equal e.name name)) [
  | inl h ↦ absurd (ground arith)
  | inr h ↦ rw h (first_named-append name ino es (ground arith))
]

first_named_other :
    (name other : Text) (ino : ℕ) (es : List Dirent)
    → equal name other ≡ false
    → first_named other (es ++ (record { name = name; inum = ino } ∷ [])) ≡ first_named other es
unfolding first_named
first_named_other name other ino [] ne = rw ne refl
first_named_other name other ino (e ∷ es) ne = elim (Bool-cases (equal e.name other)) [
  | inl h ↦ rw h refl
  | inr h ↦ rw h (first_named_other name other ino es ne)
]

AreNamed-append :
    (es : List Dirent) (last : Dirent)
    → AreNamed es
    → IsPlain last.name
    → last.inum < 2 ^ 64
    → AreNamed (es ++ (last ∷ []))
unfolding AreNamed
AreNamed-append [] last named plain small = (plain, small, tt)
AreNamed-append (e ∷ es) last (p, s, others) plain small =
    (p, s, AreNamed-append es last others plain small)

module _ (finum : Text → ℕ) (es : List Dirent) (name : Text) (ino : ℕ) (named : AreNamed es)
    (plain : IsPlain name) (small : ino < 2 ^ 64) where
  find_entry_added :
      (search_name : Text)
      → find_entry finum search_name in_name [] [] (add_entry (format es) name ino)
        ≡ first_named search_name (es ++ (record { name = name; inum = ino } ∷ []))
  find_entry_added search_name =
      rw
        (
          add_entry-format es name ino,
          find_entry-first_named finum search_name
              (format (es ++ (record { name = name; inum = ino } ∷ []))),
          read_entries-format finum (es ++ (record { name = name; inum = ino } ∷ []))
              (AreNamed-append es (record { name = name; inum = ino }) named plain small),
        )
        refl

  -- For entries with plain names and 64-bit numbers, of which none has the name: after the new entry
  -- is added, lookup's loop finds its number under the name, and under every other name what it found
  -- before.
  pub find_entry-add_entry :
      first_named name es ≡ none
      → (find_entry finum name in_name [] [] (add_entry (format es) name ino) ≡ some ino)
        × ((other : Text)
            → equal name other ≡ false
            → find_entry finum other in_name [] [] (add_entry (format es) name ino)
              ≡ find_entry finum other in_name [] [] (format es))
  find_entry-add_entry fresh = (
    find_entry_added name ∙ first_named-append name ino es fresh,
    λ other ne.
        find_entry_added other
        ∙ first_named_other name other ino es ne
        ∙ ap (first_named other) (sym (read_entries-format finum es named))
        ∙ sym (find_entry-first_named finum other (format es)),
  )
