-- ===== src/NameNode/Listing.antt =====
-- PBGetListing of yfs/namenode_base.cc, without the messages that carry the listing. A thrown HdfsException
-- is `none`.
use mathlib.Core.Option
use file_system_yfs.Base.{
  ℕ, ◌≡◌, refl, sym, ap, ◌∙◌, inl, inr, Bool, true, false, Option, none, some, Option-cases,
  contradiction, if◌then◌else◌, List, [], ◌∷◌, ◌++◌, ◌||◌, Bool-cases, map, arith,
}
use file_system_yfs.Base.Text.{Text, equal}
use file_system_yfs.Client.Directory.{Dirent}
use file_system_yfs.Client.Services.{Result}
use file_system_yfs.Client.Files
use file_system_yfs.Client.Names
use file_system_yfs.NameNode.State.{NameNode}
use file_system_yfs.NameNode.Blocks.{BlockServices, LocatedBlock, get_block_locations}
use file_system_yfs.NameNode.Paths.{is_ok}
use file_system_yfs.NameNode.Handlers.{FileStatus, no_file, resolve, pb_get_file_info_from_inum}

-- An element of partiallisting, with the file's length and its blocks where they are wanted.
pub record ListingEntry : Type 0 where
  pub status : FileStatus
  pub locations : Option (ℕ × List LocatedBlock)

-- The loop that looks for the entry with the name of startafter.
unfoldable pub skip_to : Text → List Dirent → List Dirent
skip_to start_after [] = []
skip_to start_after (e ∷ es) =
    let rest = skip_to start_after es in if equal e.name start_after then e ∷ es else rest

-- The entries from `it` on.
unfoldable pub entries_from : Text → List Dirent → List Dirent
entries_from [] dir = dir
entries_from (c ∷ cs) dir = skip_to (c ∷ cs) dir

unfoldable pub entry_of : Text → FileStatus → Option (ℕ × List LocatedBlock) → ListingEntry
entry_of name f locations = record { status = record f { path = name }; locations = locations }

-- An element in front of the others.
unfoldable pub add_listed :
    Text
    → FileStatus
    → Option (ℕ × List LocatedBlock)
    → List ListingEntry × Bool
    → List ListingEntry × Bool
add_listed name f locations (l, whole) = (entry_of name f locations ∷ l, whole)

abbrev path_of : ListingEntry → Text
path_of l = l.status.path

module _ {S : Type 0} (bs : BlockServices S) (nn : NameNode) (need_location : Bool) where
  -- An entry's locations, or none; the outer `none` is the return for a file that getfile refuses.
  unfoldable pub locate_entry : S → ℕ → S × Option (Option (ℕ × List LocatedBlock))
  locate_entry st inum =
      let (s, is_file) = Files.isfile bs.services st inum in
      let (s1, r, info) = Files.getfile bs.services s inum no_file in
      let (s2, blocks) = get_block_locations bs nn s1 inum in
      if need_location
      then (if is_file
          then (if is_ok r then (s2, some (some (info.size, blocks))) else (s1, none))
          else (s, some none))
      else (st, some none)

  -- PBGetListing's loop: the elements, and whether it gets to the end.
  unfoldable pub list_entries : S → List Dirent → S × Option (List ListingEntry × Bool)
  list_entries st [] = (st, some ([], true))
  list_entries st (e ∷ es) =
      let (s, status) = pb_get_file_info_from_inum bs.services st e.inum in
      let (s', located) = locate_entry s e.inum in
      let (s'', rest) = list_entries s' es in
      elim status [
        | none ↦ (s, none)
        | some f ↦ elim located [
          | none ↦ (s', some (entry_of e.name f none ∷ [], false))
          | some locations ↦ (s'', Option.map (add_listed e.name f locations) rest)
        ]
      ]

  -- PBGetListing; the inner `none` is an answer without a listing.
  unfoldable pub pb_get_listing : S → Text → Text → S × Option (Option (List ListingEntry × Bool))
  pb_get_listing st src start_after =
      let (s, ok, ino, last) = resolve bs.services st src in
      let (s1, r, dir) = Names.readdir bs.services s ino [] in
      let (s2, listing) = list_entries s1 (entries_from start_after dir) in
      if ok then (if is_ok r then (s2, Option.map some listing) else (s1, none)) else (s, some none)

  some_entry-names :
      (name : Text) (f : FileStatus) (locations : Option (ℕ × List LocatedBlock))
      (names : List Text) (rest : Option (List ListingEntry × Bool)) (l : List ListingEntry)
      → ((l : List ListingEntry) → rest ≡ some (l, true) → map path_of l ≡ names)
      → Option.map (add_listed name f locations) rest ≡ some (l, true)
      → map path_of l ≡ name ∷ names
  unfolding entry_of add_listed
  some_entry-names name f locations names none l each e = absurd (ground arith)
  some_entry-names name f locations names (some (l', fin)) l each e =
      let parts = λ (o : Option (List ListingEntry × Bool)). Option.get_or o ([], true) in
      let whole : fin ≡ true = ap (λ o. (parts o).1) e in
      ap (λ o. map path_of (parts o).0) (sym e) ∙ ap (λ ns. name ∷ ns) (each l' (rw whole refl))

  -- A listing that gets to the end has an element for each entry, in order.
  pub list_entries-names :
      (st : S) (es : List Dirent) (l : List ListingEntry)
      → (list_entries st es).1 ≡ some (l, true)
      → map path_of l ≡ map (λ (e : Dirent). e.name) es
  unfolding list_entries
  list_entries-names st [] l e =
      ap (λ (o : Option (List ListingEntry × Bool)). map path_of (Option.get_or o ([], true)).0)
        (sym e)
  list_entries-names st (d ∷ es) l e =
      let (s, status) = pb_get_file_info_from_inum bs.services st d.inum in
      let (s', located) = locate_entry s d.inum in
      elim (Option-cases status) [
        | inl missing ↦ let bad = rw (list_entries, missing) at e in absurd (ground arith)
        | inr (f, found) ↦ elim (Option-cases located) [
          | inl stops ↦
              let early = rw (list_entries, found, stops) at e in
              contradiction (
                ap (λ (o : Option (List ListingEntry × Bool)). (Option.get_or o ([], false)).1)
                  early)
          | inr (locations, goes) ↦
              some_entry-names d.name f locations (map (λ (e : Dirent). e.name) es)
                (list_entries s' es).1 l (list_entries-names s' es)
                (rw (list_entries, found, goes) at e)
        ]
      ]

unfoldable pub has_name : Text → List Dirent → Bool
has_name name [] = false
has_name name (e ∷ es) = equal e.name name || has_name name es

skip_to-found :
    (start_after : Text) (before after : List Dirent) (e : Dirent)
    → has_name start_after before ≡ false
    → equal e.name start_after ≡ true
    → skip_to start_after (before ++ (e ∷ after)) ≡ e ∷ after
unfolding skip_to has_name
skip_to-found start_after [] after e absent same = rw same refl
skip_to-found start_after (d ∷ before) after e absent same =
    elim (Bool-cases (equal d.name start_after)) [
      | inl found ↦ let bad = rw found at absent in contradiction (sym bad)
      | inr other ↦ rw other (skip_to-found start_after before after e (rw other at absent) same)
    ]

map-some : {A : Type 0} (o : Option A) (x : A) → Option.map some o ≡ some (some x) → o ≡ some x
map-some none x e = ap (λ o. Option.get_or o none) e
map-some (some y) x e = ap (λ o. Option.get_or o none) e

-- The listing of a directory that is found, from a name on that it has, when no file's attributes fail: the
-- elements are those of the first entry with this name and of the entries behind it.
pub pb_get_listing-names :
    {S : Type 0} (bs : BlockServices S) (nn : NameNode) (need_location : Bool) (st s s1 : S)
    (src : Text) (c : ℕ) (cs : Text) (ino last : ℕ) (before after : List Dirent) (e : Dirent)
    (l : List ListingEntry)
    → resolve bs.services st src ≡ (s, true, ino, last)
    → Names.readdir bs.services s ino [] ≡ (s1, Result.ok, before ++ (e ∷ after))
    → has_name (c ∷ cs) before ≡ false
    → equal e.name (c ∷ cs) ≡ true
    → (pb_get_listing bs nn need_location st src (c ∷ cs)).1 ≡ some (some (l, true))
    → map path_of l ≡ map (λ (d : Dirent). d.name) (e ∷ after)
unfolding pb_get_listing entries_from
pb_get_listing-names bs nn need_location st s s1 src c cs ino last before after e l found read
      absent same listed =
    let whole =
      rw (pb_get_listing, found, read, skip_to-found (c ∷ cs) before after e absent same) at
        listed in
    list_entries-names bs nn need_location s1 (e ∷ after) l (map-some _ (l, true) whole)
