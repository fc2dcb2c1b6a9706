-- ===== src/Client/Created.antt =====
-- create, mkdir and readdir on a parent whose contents are known.
use file_system_yfs.Base.{
  ℕ, ◌≡◌, ◌≢◌, refl, Bool, true, false, ◌==◌, arith, none, List, [], ◌∷◌, ◌++◌,
}
use file_system_yfs.Base.Text.{Text}
use file_system_yfs.Inodes.{t_dir, t_file}
use file_system_yfs.Client.Services.{Services, Result}
use file_system_yfs.Client.Directory.{Dirent, add_entry}
use file_system_yfs.Client.Directory.Listing.{
  format, AreNamed, IsPlain, add_entry-format, read_entries-format,
}
use file_system_yfs.Client.Directory.Lookup.{first_named, find_entry-add_entry}
use file_system_yfs.Client.Files.{nlock_is, nlock_isdir}
use file_system_yfs.Client.Names.{
  nlock_lookup, nlock_create, create, mkdir, lookup, nlock_readdir, readdir,
}
use file_system_yfs.Client.Stores.{
  Stores, nlock_create_stored, lookup_stored, add_inode_stored, answer,
}

-- The result of an operation that made `name` in a directory with the entries `es`: the directory has
-- the new entry at its end, and lookup finds it.
pub record Created {S : Type 0} (sv : Services S) (Stored : S → ℕ → ℕ → Text → Type 0) (parent : ℕ)
    (es : List Dirent) (name : Text) (done : S × Result × ℕ) : Type 0 where
  pub made : done.1 ≡ Result.ok
  pub listed :
      Stored done.0 parent t_dir (format (es ++ (record { name = name; inum = done.2 } ∷ [])))
  pub looked_up :
      (found : Bool) (ino : ℕ)
      → let r = lookup sv done.0 parent name found ino in
        (r.1 ≡ Result.ok) × (r.2 ≡ true) × (r.3 ≡ done.2)

module _ {S : Type 0} (sv : Services S) (Stored : S → ℕ → ℕ → Text → Type 0)
    (Room : S → ℕ → Text → Type 0) (laws : Stores sv Stored Room) (parent : ℕ) (s : S) (name : Text)
    (ino : ℕ) where
  module _ (es : List Dirent) (held : Stored s parent t_dir (format es)) (named : AreNamed es)
      (plain : IsPlain name) (fresh : first_named name es ≡ none)
      (room : (i : ℕ) → Room s parent (add_entry (format es) name i)) where
    locked_create :
        (kind : ℕ)
        → let (s', r, new) = nlock_create sv (sv.acquire s parent) parent kind name ino in
          Created sv Stored parent es name (sv.release s' parent, r, new)
    unfolding lookup answer
    locked_create kind =
        let (ok, small, stored) =
          nlock_create_stored sv Stored Room laws parent (sv.acquire s parent) kind es name ino
            ((laws.acquire_keeps parent).stored s parent t_dir (format es) held) named
            (λ i. (laws.acquire_keeps parent).room s parent (add_entry (format es) name i) (room i))
            fresh in
        let listed = laws.release_keeps parent _ parent t_dir _ stored in
        record {
          made = ok;
          listed = listed;
          looked_up = λ found x.
              let known = (find_entry-add_entry sv.finum es name _ named plain small fresh).0 in
              rw
                (
                  lookup_stored sv Stored Room laws parent _ _ name found x listed,
                  ← add_entry-format es name _,
                  known,
                )
                (refl, refl, refl);
        }

    -- On services that keep what they are given, with room for the new entry, in a directory whose
    -- entries have names without semicolons and zero bytes and 64-bit numbers, and none of them
    -- the name, which has no semicolon or zero byte either: create and mkdir answer OK, add the
    -- entry behind the others, and lookup then finds the new inode under the name.
    pub create-Created :
        Created sv Stored parent es name (create sv s parent name ino)
        × Created sv Stored parent es name (mkdir sv s parent name ino)
    unfolding create mkdir
    create-Created = (locked_create t_file, locked_create t_dir)

  -- On services that keep what they are given, when the parent is not a directory: create answers
  -- OK all the same, and adds the entry to the contents of whatever the parent is.
  pub create-overwrites :
      (type : ℕ) (t : Text)
      → type ≢ t_dir
      → Stored s parent type t
      → ((i : ℕ) → Room s parent (add_entry t name i))
      → let (s', r, new) = create sv s parent name ino in
        (r ≡ Result.ok) × Stored s' parent type (add_entry t name new)
  unfolding create nlock_create nlock_lookup nlock_isdir nlock_is
  create-overwrites type t other held room =
      let s1 = sv.acquire s parent in
      let start = (laws.acquire_keeps parent).stored s parent type t held in
      let no_dir : (type == t_dir) ≡ false = ground arith in
      let typed : ((sv.getattr s1 parent).2.type == t_dir) ≡ false =
        rw (laws.getattr_type s1 parent type t start) no_dir in
      let s2 = (sv.getattr s1 parent).0 in
      let (small, stored) =
        add_inode_stored sv Stored Room laws parent s2 type t_file t name
          ((laws.getattr_keeps parent).stored s1 parent type t start)
          (λ i.
            (laws.getattr_keeps parent).room s1 parent _
              ((laws.acquire_keeps parent).room s parent _ (room i))) in
      rw (create, nlock_create, nlock_lookup, laws.getattr_ok s1 parent type t start, typed)
        (refl, laws.release_keeps parent _ parent type _ stored)

  -- On such services readdir of a directory answers OK and the entries that its text was made of.
  readdir-Stored :
      (es : List Dirent)
      → AreNamed es
      → Stored s parent t_dir (format es)
      → let (s', r, entries) = readdir sv s parent [] in (r ≡ Result.ok) × (entries ≡ es)
  unfolding readdir nlock_readdir nlock_isdir nlock_is
  readdir-Stored es named held =
      let s1 = sv.acquire s parent in
      let start = (laws.acquire_keeps parent).stored s parent t_dir (format es) held in
      let seen = (laws.getattr_keeps parent).stored s1 parent t_dir (format es) start in
      rw
        (
          readdir,
          nlock_readdir,
          laws.getattr_ok s1 parent t_dir (format es) start,
          laws.getattr_type s1 parent t_dir (format es) start,
          laws.get_ok _ parent t_dir (format es) seen,
          laws.get_text _ parent t_dir (format es) seen,
          read_entries-format sv.finum es named,
        )
        (refl, refl)
