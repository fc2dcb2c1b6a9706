-- ===== src/NameNode/Requests/Parents.antt =====
-- The flag createparent has no effect on a missing directory.
use file_system_yfs.Base.{
  ℕ, suc, ◌+◌, ◌-◌, ◌<◌, ◌≡◌, refl, ap, ◌∙◌, Bool, false, ◌==◌, none, some, List, [], ◌∷◌, ◌++◌,
  inl, inr, Bool-cases, Option-cases, arith,
}
use file_system_yfs.Base.Text.{Text, length, take, drop}
use file_system_yfs.Base.Slices.{take-append, drop_nothing}
use file_system_yfs.Inodes.{t_dir}
use file_system_yfs.Client.Services.{Services, Result}
use file_system_yfs.Client.Directory.{Dirent, in_name, find_entry}
use file_system_yfs.Client.Directory.Listing.{format, AreNamed, read_entries-format}
use file_system_yfs.Client.Directory.Lookup.{first_named, find_entry-first_named}
use file_system_yfs.Client.Names.{lookup, nlock_lookup}
use file_system_yfs.Client.Stores.{Stores, looked, lookup_stored, answer}
use file_system_yfs.NameNode.Paths.{slash, index_of, find_from, is_absolute, as_c_str}
use file_system_yfs.NameNode.Requests.{enter_parent, parents, make_at, pb_mkdirs}

index_of-behind :
    (c rest : Text)
    → index_of c slash ≡ none
    → index_of (c ++ (slash ∷ rest)) slash ≡ some (length c)
unfolding index_of length
index_of-behind [] rest e = refl
index_of-behind (d ∷ c) rest e = elim (Bool-cases (d == slash)) [
  | inl h ↦ let e' = rw h at e in absurd (ground arith)
  | inr h ↦ elim (Option-cases (index_of c slash)) [
    | inl none_left ↦ rw (h, index_of-behind c rest none_left) refl
    | inr (k, found) ↦ let e' = rw (h, found) at e in absurd (ground arith)
  ]
]

dropped : (d : ℕ) (s : Text) → drop (d ∷ s) 1 ≡ s
unfolding drop
dropped d s = drop_nothing s

found_at :
    (path : Text) (pos k : ℕ)
    → index_of (drop path pos) slash ≡ some k
    → find_from path slash pos ≡ some (pos + k)
unfolding find_from
found_at path pos k e = rw e refl

module _ {S : Type 0} (sv : Services S) (Stored : S → ℕ → ℕ → Text → Type 0)
    (Room : S → ℕ → Text → Type 0) (laws : Stores sv Stored Room) (st : S) (c : Text)
    (es : List Dirent) where
  enter_parent_missing :
      (createparent : Bool) (ino : ℕ) (found : Bool)
      → Stored st ino t_dir (format es)
      → AreNamed es
      → as_c_str c ≡ c
      → first_named c es ≡ none
      → enter_parent sv createparent st ino found c ≡ (looked sv Stored Room laws ino st, none)
  unfolding enter_parent lookup answer
  enter_parent_missing createparent ino found held named plain fresh =
      let unknown : find_entry sv.finum c in_name [] [] (format es) ≡ none =
        find_entry-first_named sv.finum c (format es)
        ∙ ap (first_named c) (read_entries-format sv.finum es named)
        ∙ fresh in
      let seen : nlock_lookup sv st ino c found ino
          ≡ (looked sv Stored Room laws ino st, Result.noent, false, ino) =
        lookup_stored sv Stored Room laws ino st (format es) c found ino held ∙ rw unknown refl in
      rw (enter_parent, plain, seen) refl

  parents_missing :
      (n : ℕ) (createparent found : Bool) (rest : Text)
      → Stored st 1 t_dir (format es)
      → AreNamed es
      → 0 < length c
      → index_of c slash ≡ none
      → as_c_str c ≡ c
      → first_named c es ≡ none
      → parents sv (suc n) createparent (slash ∷ (c ++ (slash ∷ rest))) st 1 1 1 found
        ≡ (looked sv Stored Room laws 1 st, none)
  unfolding parents
  parents_missing n createparent found rest held named some_name no_slash plain fresh =
      let path = slash ∷ (c ++ (slash ∷ rest)) in
      let tail = dropped slash (c ++ (slash ∷ rest)) in
      let at : find_from path slash 1 ≡ some (1 + length c) =
        found_at path 1 (length c)
          (ap (λ s. index_of s slash) tail ∙ index_of-behind c rest no_slash) in
      let far : (1 + length c == 1) ≡ false = ground arith in
      let part : take (drop path 1) (1 + length c - 1) ≡ c =
        ap (λ s. take s (1 + length c - 1)) tail
        ∙ ap (take (c ++ (slash ∷ rest))) (omega arith)
        ∙ take-append c (slash ∷ rest) in
      let entered : enter_parent sv createparent st 1 found (take (drop path 1) (1 + length c - 1))
          ≡ (looked sv Stored Room laws 1 st, none) =
        ap (enter_parent sv createparent st 1 found) part
        ∙ enter_parent_missing createparent 1 found held named plain fresh in
      rw (parents, at, far, entered, entered) refl

  -- On services that keep what they are given, when the root directory has no entry for the first
  -- component of a longer path: PBMkdirs throws an exception and makes nothing, whether
  -- createparent is set or not.
  pub pb_mkdirs-missing :
      (createparent found : Bool) (rest : Text)
      → Stored st 1 t_dir (format es)
      → AreNamed es
      → 0 < length c
      → index_of c slash ≡ none
      → as_c_str c ≡ c
      → first_named c es ≡ none
      → pb_mkdirs sv createparent (slash ∷ (c ++ (slash ∷ rest))) st found
        ≡ (looked sv Stored Room laws 1 st, none)
  unfolding pb_mkdirs make_at is_absolute
  pb_mkdirs-missing createparent found rest held named some_name no_slash plain fresh =
      let path = slash ∷ (c ++ (slash ∷ rest)) in
      let missing : parents sv (length path + 1) createparent path st 1 1 1 found
          ≡ (looked sv Stored Room laws 1 st, none) =
        ap (λ n. parents sv n createparent path st 1 1 1 found) (omega arith)
        ∙ parents_missing (length path) createparent found rest held named some_name no_slash plain
            fresh in
      rw (missing, missing) refl
