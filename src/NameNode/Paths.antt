-- ===== src/NameNode/Paths.antt =====
-- Paths of the name node, from yfs/namenode_base.cc: RecursiveLookup and RecursiveLookupParent.
pub mod Walk
pub mod Names
use mathlib.Core.Option
use file_system_yfs.Base.{
  ℕ, zero, suc, ◌+◌, ◌-◌, Bool, true, false, ◌&&◌, ◌||◌, not, ◌==◌, if◌then◌else◌, Option, none,
  some, List, [], ◌∷◌,
}
use file_system_yfs.Base.Text.{Text, length, take, drop}
use file_system_yfs.Client.Services.{Services, Result}
use file_system_yfs.Client.Names.{lookup}

abbrev pub slash : ℕ
slash = b'/'

-- The index of the first byte that is `c`.
unfoldable pub index_of : Text → ℕ → Option ℕ
index_of [] c = none
index_of (d ∷ s) c = if d == c then some 0 else Option.map (λ k. suc k) (index_of s c)

-- s.find(c, pos), and s.rfind(c)
unfoldable pub find_from : Text → ℕ → ℕ → Option ℕ
find_from s c pos = Option.map (λ k. pos + k) (index_of (drop s pos) c)

unfoldable pub rfind : Text → ℕ → Option ℕ
rfind [] c = none
rfind (d ∷ s) c = elim (rfind s c) [
  | some k ↦ some (suc k)
  | none ↦ if d == c then some 0 else none
]

-- The string that a C string holds: what stands before the first zero.
unfoldable pub as_c_str : Text → Text
as_c_str [] = []
as_c_str (c ∷ s) = if c == 0 then [] else c ∷ as_c_str s

abbrev pub is_ok : Result → Bool
is_ok Result.ok = true
is_ok _ = false

unfoldable pub is_absolute : Text → Bool
is_absolute [] = false
is_absolute (c ∷ s) = c == slash

module _ {S : Type 0} (sv : Services S) where
  -- yfs->lookup(ino, component.c_str(), found, ino), and whether the walk goes on.
  unfoldable pub look : S → ℕ → Bool → Text → S × Bool × Bool × ℕ
  look st ino found component =
      let (s, r, found', ino') = lookup sv st ino (as_c_str component) found ino in
      (s, is_ok r && found', found', ino')

  -- The part behind the loop.
  unfoldable pub walk_last : Text → S → ℕ → ℕ → ℕ → Bool → S × Bool × ℕ × ℕ
  walk_last path st lastpos ino last found =
      if lastpos == length path
      then (st, true, ino, last)
      else (let (s, goes_on, found', ino') = look st ino found (drop path lastpos) in
          (s, goes_on, ino', ino))

  -- The loop, with the lookups left; `none` is that there were too few.
  unfoldable pub walk : ℕ → Text → S → ℕ → ℕ → ℕ → ℕ → Bool → Option (S × Bool × ℕ × ℕ)
  walk zero path st pos lastpos ino last found = none
  walk (suc n) path st pos lastpos ino last found = elim (find_from path slash pos) [
    | none ↦ some (walk_last path st lastpos ino last found)
    | some pos' ↦ elim (pos' == lastpos) [
      | true ↦ walk n path st (pos' + 1) (pos' + 1) ino last found
      | false ↦
          let (s, goes_on, found', ino') =
            look st ino found (take (drop path lastpos) (pos' - lastpos)) in
          elim goes_on [
            | true ↦ walk n path s (pos' + 1) (pos' + 1) ino' ino found'
            | false ↦ some (s, false, ino', ino)
          ]
    ]
  ]

  -- RecursiveLookup: the result, ino and last, which held `ino` and `last`. The variable found is not
  -- set at first.
  unfoldable pub recursive_lookup : S → Text → ℕ → ℕ → Bool → Option (S × Bool × ℕ × ℕ)
  recursive_lookup st path ino last found =
      if is_absolute path
      then walk (length path + 1) path st 1 1 1 1 found
      else some (st, false, ino, last)

-- RecursiveLookupParent's loop: the path without the slashes at its end.
unfoldable pub trimmed : Text → Text
trimmed [] = []
trimmed (c ∷ s) = elim (trimmed s) [ [] ↦ if c == slash then [] else c ∷ [] | d ∷ t ↦ c ∷ d ∷ t ]

-- The path that RecursiveLookupParent looks up.
unfoldable pub parent_of : Text → Text
parent_of path =
    let path' = trimmed path in
    elim (rfind path' slash) [ none ↦ path' | some k ↦ take path' (k + 1) ]

-- req.src().substr(req.src().rfind('/') + 1), where npos + 1 is 0.
unfoldable pub name_of : Text → Text
name_of path = elim (rfind path slash) [ none ↦ path | some k ↦ drop path (k + 1) ]
