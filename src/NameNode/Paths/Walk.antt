-- ===== src/NameNode/Paths/Walk.antt =====
-- RecursiveLookup looks up the components of the path, one after the other.
use mathlib.Core.Option
use file_system_yfs.Base.{
  ℕ, zero, suc, ◌+◌, ◌-◌, ◌≤◌, ◌<◌, ◌≡◌, refl, ap, ◌∙◌, Bool, true, false, ◌==◌, if◌then◌else◌,
  none, some, List, [], ◌∷◌, ◌++◌, inl, inr, Bool-cases, Option-cases, arith,
}
use file_system_yfs.Base.Text.{Text, length, take, drop, append_assoc, append-nil}
use file_system_yfs.Base.Slices.{
  take_nothing, drop_nothing, length-drop, length-take, drop-drop, no_length,
}
use file_system_yfs.Client.Services.{Services}
use file_system_yfs.NameNode.Paths.{
  slash, index_of, find_from, is_absolute, look, walk_last, walk, recursive_lookup,
}

-- A part of the path, unless it is empty, before others.
unfoldable pub part_before : Text → List Text → List Text
part_before [] others = others
part_before (c ∷ s) others = (c ∷ s) ∷ others

-- The nonempty parts between slashes, where `part` is read so far.
unfoldable pub components : Text → Text → List Text
components part [] = part_before part []
components part (c ∷ s) =
    if c == slash then part_before part (components [] s) else components (part ++ (c ∷ [])) s

module _ {S : Type 0} (sv : Services S) where
  -- The components are looked up in order, each in the inode that the one before was found as.
  unfoldable pub look_all : S → ℕ → ℕ → Bool → List Text → S × Bool × ℕ × ℕ
  look_all st ino last found [] = (st, true, ino, last)
  look_all st ino last found (c ∷ cs) =
      let (s, goes_on, found', ino') = look sv st ino found c in
      elim goes_on [ true ↦ look_all s ino' ino found' cs | false ↦ (s, false, ino', ino) ]

-- Up to the first slash stands the first component.
components_first :
    (part s : Text)
    → components part s ≡ (elim (index_of s slash) [
      | none ↦ part_before (part ++ s) []
      | some k ↦ part_before (part ++ take s k) (components [] (drop s (k + 1)))
    ])
unfolding components index_of
components_first part [] = rw (append-nil part) refl
components_first part (c ∷ s) = elim (Bool-cases (c == slash)) [
  | inl e ↦
      let one : drop (c ∷ s) (0 + 1) ≡ s = unfold drop in drop_nothing s in
      rw (components, index_of, e, take_nothing (c ∷ s), append-nil part, one) refl
  | inr e ↦
      let rest = components_first (part ++ (c ∷ [])) s in
      elim (Option-cases (index_of s slash)) [
        | inl none_left ↦
            rw (components, index_of, e, rest, none_left, append_assoc part (c ∷ []) s) refl
        | inr (k, found) ↦
            let shift : drop (c ∷ s) (suc k + 1) ≡ drop s (k + 1) =
              unfold drop in let n : suc k + 1 ≡ suc (k + 1) = omega arith in rw n refl in
            let cut : take (c ∷ s) (suc k) ≡ c ∷ take s k = unfold take in refl in
            rw
              (
                components,
                index_of,
                e,
                rest,
                found,
                append_assoc part (c ∷ []) (take s k),
                shift,
                cut,
              )
              refl
      ]
]

index_of-lt : (s : Text) (c k : ℕ) → index_of s c ≡ some k → k < length s
unfolding index_of length
index_of-lt [] c k e = absurd (ground arith)
index_of-lt (d ∷ s) c k e = elim (Bool-cases (d == c)) [
  | inl h ↦ let first = ap (λ o. Option.get_or o 0) (rw h at e) in omega arith
  | inr h ↦ elim (Option-cases (index_of s c)) [
    | inl none_left ↦ let e' = rw (h, none_left) at e in absurd (ground arith)
    | inr (j, found) ↦
        let second = ap (λ o. Option.get_or o 0) (rw (h, found) at e) in
        let rest = index_of-lt s c j found in omega arith
  ]
]

part_before_nothing : (others : List Text) → part_before [] others ≡ others
unfolding part_before
part_before_nothing others = refl

part_before_nonempty :
    (s : Text) (others : List Text) → 0 < length s → part_before s others ≡ s ∷ others
unfolding part_before length
part_before_nonempty [] others h = absurd (omega arith)
part_before_nonempty (c ∷ s) others h = refl

module _ {S : Type 0} (sv : Services S) where
  walk_last_lem :
      (path : Text) (st : S) (pos ino last : ℕ) (found : Bool)
      → pos ≤ length path
      → walk_last sv path st pos ino last found
        ≡ look_all sv st ino last found (part_before (drop path pos) [])
  unfolding walk_last look_all
  walk_last_lem path st pos ino last found h = elim (Bool-cases (pos == length path)) [
    | inl e ↦
        let empty = no_length (drop path pos) (ground (arith, length-drop path pos)) in
        rw (walk_last, e, empty) (unfold part_before in refl)
    | inr e ↦
        let some_left : 0 < length (drop path pos) = ground (arith, length-drop path pos) in
        rw (walk_last, e, part_before_nonempty (drop path pos) [] some_left)
          (elim (Bool-cases (look sv st ino found (drop path pos)).1) [
            | inl g ↦ rw (look_all, g) refl
            | inr g ↦ rw (look_all, g) refl
          ])
  ]

  -- A component is looked up, and the walk goes on from its inode.
  walk-look :
      (n : ℕ) (path : Text) (st : S) (pos ino last : ℕ) (found : Bool) (c : Text) (cs : List Text)
      → ((s : S) (ino' last' : ℕ) (found' : Bool)
          → walk sv n path s pos pos ino' last' found' ≡ some (look_all sv s ino' last' found' cs))
      → let (s, goes_on, found', ino') = look sv st ino found c in
        (elim goes_on [
          | true ↦ walk sv n path s pos pos ino' ino found'
          | false ↦ some (s, false, ino', ino)
        ])
        ≡ some (look_all sv st ino last found (c ∷ cs))
  unfolding look_all
  walk-look n path st pos ino last found c cs others =
      elim (Bool-cases (look sv st ino found c).1) [
        | inl g ↦ rw (look_all, g) (others _ _ _ _)
        | inr g ↦ rw (look_all, g) refl
      ]

  -- The walk from a position, with a lookup for each byte left and one more, is that of the components
  -- behind it.
  walk_from :
      (n : ℕ) (path : Text) (st : S) (pos ino last : ℕ) (found : Bool)
      → pos ≤ length path
      → length path < pos + n
      → walk sv n path st pos pos ino last found
        ≡ some (look_all sv st ino last found (components [] (drop path pos)))
  unfolding walk find_from
  walk_from zero path st pos ino last found h enough = absurd (omega arith)
  walk_from (suc n) path st pos ino last found h enough =
      rw (components_first [] (drop path pos))
        (elim (Option-cases (index_of (drop path pos) slash)) [
          | inl none_left ↦
              rw (walk, none_left) (ap some (walk_last_lem path st pos ino last found h))
          | inr (k, at) ↦
              let inside = index_of-lt (drop path pos) slash k at in
              let size = length-drop path pos in
              let same_drop : drop (drop path pos) (k + 1) ≡ drop path (pos + k + 1) =
                drop-drop path pos (k + 1) ∙ ap (drop path) (omega arith) in
              rw (walk, at, same_drop)
                (elim (Bool-cases (pos + k == pos)) [
                  | inl e ↦
                      let zero_length : k ≡ 0 = ground arith in
                      let no_part : take (drop path pos) k ≡ [] =
                        ap (take (drop path pos)) zero_length ∙ take_nothing (drop path pos) in
                      rw (e, no_part, part_before_nothing (components [] (drop path (pos + k + 1))))
                        (walk_from n path st (pos + k + 1) ino last found (omega arith)
                          (omega arith))
                  | inr e ↦
                      let cut : take (drop path pos) k ≡ take (drop path pos) (pos + k - pos) =
                        ap (take (drop path pos)) (omega arith) in
                      let long : 0 < length (take (drop path pos) (pos + k - pos)) =
                        ground (arith, length-take (drop path pos) (pos + k - pos) (omega arith)) in
                      rw
                        (
                          e,
                          cut,
                          part_before_nonempty (take (drop path pos) (pos + k - pos))
                              (components [] (drop path (pos + k + 1))) long,
                        )
                        (walk-look n path st (pos + k + 1) ino last found _ _
                          (λ s ino' last' found'.
                            walk_from n path s (pos + k + 1) ino' last' found' (omega arith)
                              (omega arith)))
                ])
        ])

  -- RecursiveLookup ends: its loop finds at most one slash for each byte of the path. On a path
  -- that starts with a slash it looks up the nonempty parts between the slashes, in order, each in
  -- the inode that the one before was found as, from the root on, until one is not found; ino and
  -- last are the last two inodes. Any other path is refused without a lookup.
  pub recursive_lookup-look_all :
      (st : S) (path : Text) (ino last : ℕ) (found : Bool)
      → recursive_lookup sv st path ino last found
        ≡ some (
            if is_absolute path
            then look_all sv st 1 1 found (components [] (drop path 1))
            else (st, false, ino, last))
  unfolding recursive_lookup is_absolute
  recursive_lookup-look_all st [] ino last found = refl
  recursive_lookup-look_all st (c ∷ s) ino last found = elim (Bool-cases (c == slash)) [
    | inl e ↦ rw e (
        walk_from (length (c ∷ s) + 1) (c ∷ s) st 1 1 1 found (unfold length in omega arith)
          (omega arith))
    | inr e ↦ rw e refl
  ]
