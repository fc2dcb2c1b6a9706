-- ===== src/NameNode/Paths/Names.antt =====
-- The directory and the name that the name node takes from a path.
use file_system_yfs.Base.{
  ℕ, ◌+◌, ◌<◌, ◌≡◌, refl, ap, sym, ◌∙◌, false, ◌==◌, none, some, [], ◌∷◌, ◌++◌, arith,
}
use file_system_yfs.Base.Text.{Text, length, take, drop, append_assoc, length-append}
use file_system_yfs.Base.Slices.{take-append, drop-append}
use file_system_yfs.NameNode.Paths.{slash, rfind, trimmed, parent_of, name_of}

-- No byte is a slash.
unfoldable pub IsName : Text → Type 0
IsName [] = Unit
IsName (c ∷ s) = ((c == slash) ≡ false) × IsName s

rfind-name : (s : Text) → IsName s → rfind s slash ≡ none
unfolding rfind IsName
rfind-name [] name = refl
rfind-name (c ∷ s) (here, later) = rw (rfind-name s later, here) refl

rfind-last : (s t : Text) → IsName t → rfind (s ++ (slash ∷ t)) slash ≡ some (length s)
unfolding rfind length
rfind-last [] t name = rw (rfind-name t name) refl
rfind-last (c ∷ s) t name = rw (rfind-last s t name) refl

trimmed-name : (c : ℕ) (s : Text) → IsName (c ∷ s) → trimmed (c ∷ s) ≡ c ∷ s
unfolding trimmed IsName
trimmed-name c [] (here, later) = rw here refl
trimmed-name c (d ∷ s) (here, later) = rw (trimmed-name d s later) refl

-- A path that ends in a name is not trimmed.
trimmed-append :
    (s t : Text) (d : ℕ) → trimmed (d ∷ t) ≡ d ∷ t → trimmed (s ++ (d ∷ t)) ≡ s ++ (d ∷ t)
unfolding trimmed
trimmed-append [] t d e = e
trimmed-append (c ∷ []) t d e = rw e refl
trimmed-append (c ∷ c' ∷ s) t d e = rw (trimmed-append (c' ∷ s) t d e) refl

trimmed_path :
    (dir t : Text) (d : ℕ)
    → IsName (d ∷ t)
    → trimmed (dir ++ (slash ∷ d ∷ t)) ≡ dir ++ (slash ∷ d ∷ t)
trimmed_path dir t d name =
    let last : trimmed (slash ∷ d ∷ t) ≡ slash ∷ d ∷ t = slashed t d (trimmed-name d t name) in
    trimmed-append dir (d ∷ t) slash last
  where
    slashed : (t : Text) (d : ℕ) → trimmed (d ∷ t) ≡ d ∷ t → trimmed (slash ∷ d ∷ t) ≡ slash ∷ d ∷ t
    slashed t d e = unfold trimmed in rw e refl

drop_whole : (s : Text) → drop s (length s) ≡ []
unfolding drop length
drop_whole [] = refl
drop_whole (c ∷ s) = drop_whole s

-- Of a path that is a directory's path, a slash and a name, the name node takes that directory, with the slash
-- behind it, and that name; with slashes behind the name it takes the same directory, and an empty name.
pub parent_of-name_of :
    (dir name : Text)
    → 0 < length name
    → IsName name
    → let path = dir ++ (slash ∷ name) in
      (parent_of path ≡ dir ++ (slash ∷ []))
      × (name_of path ≡ name)
      × (name_of (path ++ (slash ∷ [])) ≡ [])
unfolding length parent_of name_of IsName
parent_of-name_of dir [] some_name is_name = absurd (omega arith)
parent_of-name_of dir (d ∷ t) some_name is_name =
    let name = d ∷ t in
    let path = dir ++ (slash ∷ name) in
    let parted : path ≡ (dir ++ (slash ∷ [])) ++ name = sym (append_assoc dir (slash ∷ []) name) in
    let size : length dir + 1 ≡ length (dir ++ (slash ∷ [])) =
      omega (arith, length-append dir (slash ∷ [])) in
    let at = rfind-last dir name is_name in
    let at_end = rfind-last path [] tt in
    let whole : length path + 1 ≡ length (path ++ (slash ∷ [])) =
      omega (arith, length-append path (slash ∷ [])) in
    (
      rw (parent_of, trimmed_path dir t d is_name, at, trimmed_path dir t d is_name)
          (ap (λ n. take path n) size
            ∙ ap (λ p. take p (length (dir ++ (slash ∷ [])))) parted
            ∙ take-append (dir ++ (slash ∷ [])) name),
      rw (name_of, at)
          (ap (λ n. drop path n) size
            ∙ ap (λ p. drop p (length (dir ++ (slash ∷ [])))) parted
            ∙ drop-append (dir ++ (slash ∷ [])) name),
      rw (name_of, at_end)
          (ap (λ n. drop (path ++ (slash ∷ [])) n) whole ∙ drop_whole (path ++ (slash ∷ []))),
    )
