-- ===== src/NameNode/Files.antt =====
-- The name node's operations on files and directories, from yfs/namenode.cc, and the removal of a whole
-- directory and the locks of two inodes, from yfs/namenode_base.cc.
pub mod TwoLocks
use mathlib.Core.Option
use file_system_yfs.Base.{
  ℕ, zero, suc, ◌+◌, ◌*◌, ◌%◌, ◌^◌, Bool, true, false, ltb, ◌==◌, if◌then◌else◌, Option, none, some,
  List, [], ◌∷◌,
}
use file_system_yfs.Base.Text.{Text}
use file_system_yfs.Client.Services.{Services, Result}
use file_system_yfs.Client.Services
use file_system_yfs.Client.Directory.{Dirent}
use file_system_yfs.Client.Files.{FileInfo, DirInfo, nlock_isfile, nlock_isdir}
use file_system_yfs.Client.Names
use file_system_yfs.Client.Names.{nlock_readdir, nlock_unlink}
use file_system_yfs.NameNode.Paths.{is_ok, as_c_str}

module _ {S : Type 0} (sv : Services S) where
  -- Mkdir and Create: the result and ino_out. Create takes the new file's lock.
  unfoldable pub mkdir : S → ℕ → Text → ℕ → S × Bool × ℕ
  mkdir st parent name ino =
      let (s, r, ino_out) = Names.mkdir sv st parent (as_c_str name) ino in (s, is_ok r, ino_out)

  unfoldable pub create : S → ℕ → Text → ℕ → S × Bool × ℕ
  create st parent name ino =
      let (s, r, ino_out) = Names.create sv st parent (as_c_str name) ino in
      if is_ok r then (sv.acquire s ino_out, true, ino_out) else (s, false, ino_out)

  -- Isfile and Isdir
  unfoldable pub isfile : S → ℕ → S × Bool
  isfile st ino = nlock_isfile sv st ino

  unfoldable pub isdir : S → ℕ → S × Bool
  isdir st ino = nlock_isdir sv st ino

  -- Getfile and Getdir
  unfoldable pub getfile : S → ℕ → FileInfo → S × Bool × FileInfo
  getfile st ino info =
      let (s, r, a) = sv.getattr st ino in
      if Services.is_ok r
      then (s, true, record { size = a.size; atime = a.atime; mtime = a.mtime; ctime = a.ctime })
      else (s, false, info)

  unfoldable pub getdir : S → ℕ → DirInfo → S × Bool × DirInfo
  getdir st ino info =
      let (s, r, a) = sv.getattr st ino in
      if Services.is_ok r
      then (s, true, record { atime = a.atime; mtime = a.mtime; ctime = a.ctime })
      else (s, false, info)

  -- Readdir, with what is added to an empty list.
  unfoldable pub readdir : S → ℕ → S × Bool × List Dirent
  readdir st ino = let (s, r, dir) = nlock_readdir sv st ino [] in (s, is_ok r, dir)

  -- Unlink; `none` is an exception.
  unfoldable pub unlink : S → ℕ → Text → Option (S × Bool)
  unlink st parent name =
      Option.map (λ (p : S × Result). (p.0, is_ok p.1)) (nlock_unlink sv st parent (as_c_str name))

  -- RecursiveDelete's loop over the entries, with the recursive call.
  unfoldable pub delete_entries :
      (S → ℕ → Option (S × Bool)) → S → ℕ → List Dirent → Option (S × Bool)
  delete_entries delete st ino [] = some (st, true)
  delete_entries delete st ino (e ∷ es) = elim (delete (sv.acquire st e.inum) e.inum) [
    | none ↦ none
    | some p ↦ elim p.1 [
      | false ↦ some (sv.release p.0 e.inum, false)
      | true ↦ elim (unlink p.0 ino e.name) [
        | none ↦ none
        | some q ↦ elim q.1 [
          | false ↦ some (sv.release q.0 e.inum, false)
          | true ↦ delete_entries delete (sv.release q.0 e.inum) ino es
        ]
      ]
    ]
  ]

  -- RecursiveDelete, for directories nested at most `depth` deep; `none` is an exception, or a deeper one.
  unfoldable pub recursive_delete : ℕ → S → ℕ → Option (S × Bool)
  recursive_delete zero st ino = none
  recursive_delete (suc depth) st ino =
      let (s, is_dir) = isdir st ino in
      let (s', r, dir) = readdir s ino in
      elim is_dir [
        | false ↦ some (s, true)
        | true ↦ elim r [
          | false ↦ some (s', false)
          | true ↦ delete_entries (λ t i. recursive_delete depth t i) s' ino dir
        ]
      ]

  -- DualLock and DualUnlock
  unfoldable pub dual_lock : S → ℕ → ℕ → S
  dual_lock st a b =
      if ltb a b
      then sv.acquire (sv.acquire st a) b
      else if ltb b a
      then sv.acquire (sv.acquire st b) a
      else sv.acquire st a

  unfoldable pub dual_unlock : S → ℕ → ℕ → S
  dual_unlock st a b = if a == b then sv.release st a else sv.release (sv.release st a) b
