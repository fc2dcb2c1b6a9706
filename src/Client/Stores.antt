-- ===== src/Client/Stores.antt =====
-- What the client's theorems on contents ask of the extent and lock services, and what lookup and
-- create do on a parent whose contents are known.
use file_system_yfs.Base.{
  ℕ, ◌^◌, ◌<◌, ◌≡◌, refl, ◌∙◌, ap, Bool, true, false, Option, none, some, List, [], ◌∷◌, ◌++◌,
  Option-cases, inl, inr,
}
use file_system_yfs.Base.Text.{Text}
use file_system_yfs.Inodes.{t_dir}
use file_system_yfs.Extent.{Status}
use file_system_yfs.Client.Services.{Services, Result}
use file_system_yfs.Client.Directory.{Dirent, in_name, find_entry, add_entry}
use file_system_yfs.Client.Directory.Listing.{
  format, AreNamed, add_entry-format, read_entries-format,
}
use file_system_yfs.Client.Directory.Lookup.{first_named, find_entry-first_named}
use file_system_yfs.Client.Files.{nlock_is, nlock_isdir}
use file_system_yfs.Client.Names.{nlock_lookup, add_inode, nlock_create}

-- `Stored s id type t`: the extent `id` has the type and contents. `Room s id t`: there is room to
-- put `t` there.
pub record Keeps {S : Type 0} (Stored : S → ℕ → ℕ → Text → Type 0) (Room : S → ℕ → Text → Type 0)
    (f : S → S) : Type 0 where
  pub stored : (s : S) (id type : ℕ) (t : Text) → Stored s id type t → Stored (f s) id type t
  pub room : (s : S) (id : ℕ) (t : Text) → Room s id t → Room (f s) id t

-- The same, of two states.
pub record KeepsAt {S : Type 0} (Stored : S → ℕ → ℕ → Text → Type 0) (Room : S → ℕ → Text → Type 0)
    (s s' : S) : Type 0 where
  pub stored : (id type : ℕ) (t : Text) → Stored s id type t → Stored s' id type t
  pub room : (id : ℕ) (t : Text) → Room s id t → Room s' id t

pub record Stores {S : Type 0} (sv : Services S) (Stored : S → ℕ → ℕ → Text → Type 0)
    (Room : S → ℕ → Text → Type 0) : Type 0 where
  pub get_ok : (s : S) (id type : ℕ) (t : Text) → Stored s id type t → (sv.get s id).1 ≡ Status.ok
  pub get_text : (s : S) (id type : ℕ) (t : Text) → Stored s id type t → (sv.get s id).2 ≡ t
  pub getattr_ok :
      (s : S) (id type : ℕ) (t : Text) → Stored s id type t → (sv.getattr s id).1 ≡ Status.ok
  pub getattr_type :
      (s : S) (id type : ℕ) (t : Text) → Stored s id type t → (sv.getattr s id).2.type ≡ type
  pub put_stored :
      (s : S) (id type : ℕ) (t t' : Text)
      → Stored s id type t
      → Room s id t'
      → Stored (sv.put s id t').0 id type t'
  pub create_small :
      (s : S) (id type : ℕ) (t : Text) (kind : ℕ)
      → Stored s id type t
      → (sv.create s kind).2 < 2 ^ 64
  pub get_keeps :
      (s : S) (id type : ℕ) (t : Text) → Stored s id type t → KeepsAt Stored Room s (sv.get s id).0
  pub getattr_keeps : (id : ℕ) → Keeps Stored Room (λ s. (sv.getattr s id).0)
  pub create_keeps : (type : ℕ) → Keeps Stored Room (λ s. (sv.create s type).0)
  pub acquire_keeps : (l : ℕ) → Keeps Stored Room (λ s. sv.acquire s l)
  pub release_keeps :
      (l : ℕ) (s : S) (id type : ℕ) (t : Text)
      → Stored s id type t
      → Stored (sv.release s l) id type t

unfoldable pub answer : {S : Type 0} → S → Option ℕ → ℕ → S × Result × Bool × ℕ
answer s none ino = (s, Result.noent, false, ino)
answer s (some inode) ino = (s, Result.ok, true, inode)

module _ {S : Type 0} (sv : Services S) (Stored : S → ℕ → ℕ → Text → Type 0)
    (Room : S → ℕ → Text → Type 0) (laws : Stores sv Stored Room) (parent : ℕ) where
  -- The states after lookup's two calls, and after add_inode's first two.
  unfoldable pub looked : S → S
  looked s = (sv.get (sv.getattr s parent).0 parent).0

  looked-Stored :
      (s : S) (type : ℕ) (t : Text) → Stored s parent type t → Stored (looked s) parent type t
  unfolding looked
  looked-Stored s type t h =
      let seen = (laws.getattr_keeps parent).stored s parent type t h in
      (laws.get_keeps _ parent type t seen).stored parent type t seen

  looked-Room :
      (s : S) (type : ℕ) (t t' : Text)
      → Stored s parent type t
      → Room s parent t'
      → Room (looked s) parent t'
  unfolding looked
  looked-Room s type t t' h r =
      let seen = (laws.getattr_keeps parent).stored s parent type t h in
      (laws.get_keeps _ parent type t seen).room parent t'
        ((laws.getattr_keeps parent).room s parent t' r)

  pub lookup_stored :
      (s : S) (t name : Text) (found : Bool) (ino : ℕ)
      → Stored s parent t_dir t
      → nlock_lookup sv s parent name found ino
        ≡ answer (looked s) (find_entry sv.finum name in_name [] [] t) ino
  unfolding nlock_lookup nlock_isdir nlock_is looked answer
  lookup_stored s t name found ino h =
      let kept = (laws.getattr_keeps parent).stored s parent t_dir t h in
      elim (Option-cases (find_entry sv.finum name in_name [] [] t)) [
        | inl none_found ↦
            rw
              (
                nlock_lookup,
                laws.getattr_ok s parent t_dir t h,
                laws.getattr_type s parent t_dir t h,
                laws.get_ok _ parent t_dir t kept,
                laws.get_text _ parent t_dir t kept,
                none_found,
              )
              refl
        | inr (i, one_found) ↦
            rw
              (
                nlock_lookup,
                laws.getattr_ok s parent t_dir t h,
                laws.getattr_type s parent t_dir t h,
                laws.get_ok _ parent t_dir t kept,
                laws.get_text _ parent t_dir t kept,
                one_found,
              )
              refl
      ]

  pub add_inode_stored :
      (s : S) (type kind : ℕ) (t name : Text)
      → Stored s parent type t
      → ((ino : ℕ) → Room s parent (add_entry t name ino))
      → let (s', ino) = add_inode sv s parent kind name in
        (ino < 2 ^ 64) × Stored s' parent type (add_entry t name ino)
  unfolding add_inode
  add_inode_stored s type kind t name h room =
      let ino = (sv.create s kind).2 in
      let made = (laws.create_keeps kind).stored s parent type t h in
      let made_room = (laws.create_keeps kind).room s parent _ (room ino) in
      let got = (laws.get_keeps _ parent type t made).stored parent type t made in
      let got_room = (laws.get_keeps _ parent type t made).room parent _ made_room in
      rw (add_inode, laws.get_ok _ parent type t made, laws.get_text _ parent type t made)
        (
          laws.create_small s parent type t kind h,
          laws.put_stored _ parent type t (add_entry t name ino) got got_room,
        )

  -- A new name in a directory of which the contents are known.
  pub nlock_create_stored :
      (s : S) (kind : ℕ) (es : List Dirent) (name : Text) (ino : ℕ)
      → Stored s parent t_dir (format es)
      → AreNamed es
      → ((i : ℕ) → Room s parent (add_entry (format es) name i))
      → first_named name es ≡ none
      → let (s', r, new) = nlock_create sv s parent kind name ino in
        (r ≡ Result.ok)
        × (new < 2 ^ 64)
        × Stored s' parent t_dir (format (es ++ (record { name = name; inum = new } ∷ [])))
  unfolding nlock_create answer
  nlock_create_stored s kind es name ino h named room fresh =
      let unknown : find_entry sv.finum name in_name [] [] (format es) ≡ none =
        find_entry-first_named sv.finum name (format es)
        ∙ ap (first_named name) (read_entries-format sv.finum es named)
        ∙ fresh in
      let seen : nlock_lookup sv s parent name false ino ≡ (looked s, Result.noent, false, ino) =
        lookup_stored s (format es) name false ino h ∙ rw unknown refl in
      let (small, stored) =
        add_inode_stored (looked s) t_dir kind (format es) name
          (looked-Stored s t_dir (format es) h)
          (λ i. looked-Room s t_dir (format es) (add_entry (format es) name i) h (room i)) in
      rw (nlock_create, seen) (refl, small, rw (← add_entry-format es name _) stored)
