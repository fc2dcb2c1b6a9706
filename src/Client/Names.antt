-- ===== src/Client/Names.antt =====
-- The operations of yfs_client on names in a directory: lookup, create, mkdir, readdir, unlink,
-- createlink.
use mathlib.Core.Option
use file_system_yfs.Base.{ℕ, Bool, true, false, Option, none, some, List, [], ◌++◌, if◌then◌else◌}
use file_system_yfs.Base.Text.{Text}
use file_system_yfs.Inodes.{t_dir, t_file, t_symlink}
use file_system_yfs.Client.Services.{Services, Result, is_ok}
use file_system_yfs.Client.Directory.{
  Dirent, in_name, read_entries, find_entry, add_entry, remove_entry,
}
use file_system_yfs.Client.Files.{nlock_isdir}

module _ {S : Type 0} (sv : Services S) (st : S) (parent : ℕ) where
  -- The result, found and ino_out; the reference arguments held `found` and `ino`.
  unfoldable pub nlock_lookup : Text → Bool → ℕ → S × Result × Bool × ℕ
  nlock_lookup name found ino =
      let (s, is_dir) = nlock_isdir sv st parent in
      let (s', r, dir_list) = sv.get s parent in
      elim is_dir [
        | false ↦ (s, Result.ok, false, ino)
        | true ↦
            if is_ok r
            then (elim (find_entry sv.finum name in_name [] [] dir_list) [
              | none ↦ (s', Result.noent, false, ino)
              | some inode ↦ (s', Result.ok, true, inode)
            ])
            else (s', Result.ioerr, found, ino)
      ]

  unfoldable pub lookup : Text → Bool → ℕ → S × Result × Bool × ℕ
  lookup name found ino = nlock_lookup name found ino

  -- The part of create, mkdir and createlink that adds a new inode to the directory.
  unfoldable pub add_inode : ℕ → Text → S × ℕ
  add_inode type name =
      let (s, r, ino) = sv.create st type in
      let (s', r', dir_list) = sv.get s parent in
      if is_ok r' then ((sv.put s' parent (add_entry dir_list name ino)).0, ino) else (s', ino)

module _ {S : Type 0} (sv : Services S) (st : S) (parent : ℕ) where
  -- nlock_create for a file, and the body of mkdir for a directory: the result and ino_out.
  unfoldable pub nlock_create : ℕ → Text → ℕ → S × Result × ℕ
  nlock_create type name ino =
      let (s, r, found, ino') = nlock_lookup sv st parent name false ino in
      if found
      then (s, Result.exist, ino')
      else (let (s', ino_out) = add_inode sv s parent type name in (s', Result.ok, ino_out))

module _ {S : Type 0} (sv : Services S) (st : S) (parent : ℕ) where
  unfoldable pub create : Text → ℕ → S × Result × ℕ
  create name ino =
      let (s, r, ino_out) = nlock_create sv (sv.acquire st parent) parent t_file name ino in
      (sv.release s parent, r, ino_out)

  unfoldable pub mkdir : Text → ℕ → S × Result × ℕ
  mkdir name ino =
      let (s, r, ino_out) = nlock_create sv (sv.acquire st parent) parent t_dir name ino in
      (sv.release s parent, r, ino_out)

  unfoldable pub createlink : Text → Text → ℕ → S × Result × ℕ
  createlink link_name target_name ino =
      let (s, r, found, ino') = nlock_lookup sv (sv.acquire st parent) parent link_name false ino in
      let (s', ino_out) = add_inode sv s parent t_symlink link_name in
      if found
      then (sv.release s parent, Result.exist, ino')
      else (sv.release (sv.put s' ino_out target_name).0 parent, Result.ok, ino_out)

  -- When `dir` is no directory, nlock_readdir releases the lock that readdir releases again.
  unfoldable pub nlock_readdir : List Dirent → S × Result × List Dirent
  nlock_readdir entries =
      let (s, is_dir) = nlock_isdir sv st parent in
      let (s', r, dir_list) = sv.get s parent in
      elim is_dir [
        | false ↦ (sv.release s parent, Result.ok, entries)
        | true ↦
            if is_ok r
            then (s', Result.ok, entries ++ read_entries sv.finum in_name [] [] dir_list)
            else (s', Result.ioerr, entries)
      ]

  -- nlock_unlink and the body of unlink, which differ in how the target's inode is removed. `none`
  -- is an exception.
  unfoldable pub unlink_with : (S → ℕ → S) → Text → Option (S × Result)
  unlink_with remove_target name =
      let (s, r, found, target) = nlock_lookup sv st parent name false 0 in
      let (s', r', dir_list) = sv.get s parent in
      elim found [
        | false ↦ some (s, Result.noent)
        | true ↦
            if is_ok r'
            then (elim (remove_entry dir_list name target) [
              | none ↦ none
              | some dir_list' ↦
                  some (remove_target (sv.put s' parent dir_list').0 target, Result.ok)
            ])
            else some (s', Result.ioerr)
      ]

  unfoldable pub nlock_unlink : Text → Option (S × Result)
  nlock_unlink name = unlink_with (λ s target. (sv.remove s target).0) name

module _ {S : Type 0} (sv : Services S) (st : S) (dir : ℕ) where
  unfoldable pub readdir : List Dirent → S × Result × List Dirent
  readdir entries =
      let (s, r, entries') = nlock_readdir sv (sv.acquire st dir) dir entries in
      (sv.release s dir, r, entries')

  unfoldable pub unlink : Text → Option (S × Result)
  unlink name =
      let remove_locked =
        λ (s : S) (target : ℕ). sv.release (sv.remove (sv.acquire s target) target).0 target in
      Option.map (λ (done : S × Result). (sv.release done.0 dir, done.1))
        (unlink_with sv (sv.acquire st dir) dir remove_locked name)
