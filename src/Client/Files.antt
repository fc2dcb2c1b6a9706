-- ===== src/Client/Files.antt =====
-- The operations of yfs_client on one file: isfile, getfile, getdir, setattr, read, write, readlink.
use file_system_yfs.Base.{ℕ, Bool, ◌&&◌, ◌==◌, Option, none, some, if◌then◌else◌}
use file_system_yfs.Base.Memory.{Buf}
use file_system_yfs.Base.Text.{Text}
use file_system_yfs.Inodes.{t_dir, t_file, t_symlink}
use file_system_yfs.Client.Services.{Services, Result, is_ok}
use file_system_yfs.Client.Content.{resize, read_part, write_part}

-- fileinfo, dirinfo
pub record FileInfo : Type 0 where
  pub size : ℕ
  pub atime : ℕ
  pub mtime : ℕ
  pub ctime : ℕ

pub record DirInfo : Type 0 where
  pub atime : ℕ
  pub mtime : ℕ
  pub ctime : ℕ

module _ {S : Type 0} (sv : Services S) (st : S) where
  -- nlock_isfile, nlock_isdir, nlock_islink
  unfoldable pub nlock_is : ℕ → ℕ → S × Bool
  nlock_is type inum = let (s, r, a) = sv.getattr st inum in (s, is_ok r && a.type == type)

  unfoldable pub nlock_isfile : ℕ → S × Bool
  nlock_isfile inum = nlock_is t_file inum

  unfoldable pub nlock_isdir : ℕ → S × Bool
  nlock_isdir inum = nlock_is t_dir inum

  unfoldable pub nlock_islink : ℕ → S × Bool
  nlock_islink inum = nlock_is t_symlink inum

module _ {S : Type 0} (sv : Services S) (st : S) (inum : ℕ) where
  -- isfile, isdir, islink
  unfoldable pub locked_is : ℕ → S × Bool
  locked_is type = let (s, r) = nlock_is sv (sv.acquire st inum) type inum in (sv.release s inum, r)

  unfoldable pub isfile : S × Bool
  isfile = locked_is t_file

  unfoldable pub isdir : S × Bool
  isdir = locked_is t_dir

  unfoldable pub islink : S × Bool
  islink = locked_is t_symlink

  -- `fin` is what the reference argument held.
  unfoldable pub getfile : FileInfo → S × Result × FileInfo
  getfile fin =
      let (s, r, a) = sv.getattr (sv.acquire st inum) inum in
      let s' = sv.release s inum in
      if is_ok r
      then (
        s',
        Result.ok,
        record { size = a.size; atime = a.atime; mtime = a.mtime; ctime = a.ctime },
      )
      else (s', Result.ioerr, fin)

  unfoldable pub getdir : DirInfo → S × Result × DirInfo
  getdir din =
      let (s, r, a) = sv.getattr (sv.acquire st inum) inum in
      let s' = sv.release s inum in
      if is_ok r
      then (s', Result.ok, record { atime = a.atime; mtime = a.mtime; ctime = a.ctime })
      else (s', Result.ioerr, din)

  unfoldable pub setattr : ℕ → S × Result
  setattr size =
      let (s, r, content) = sv.get (sv.acquire st inum) inum in
      if is_ok r
      then (sv.release (sv.put s inum (resize content size)).0 inum, Result.ok)
      else (sv.release s inum, Result.ioerr)

  -- `none` is an exception, which leaves the lock taken.
  unfoldable pub read : ℕ → ℕ → Text → Option (S × Result × Text)
  read size off bytes =
      let (s, r, content) = sv.get (sv.acquire st inum) inum in
      if is_ok r
      then (elim (read_part content size off) [
        | none ↦ none
        | some part ↦ some (sv.release s inum, Result.ok, part)
      ])
      else some (sv.release s inum, Result.ioerr, bytes)

  unfoldable pub write : ℕ → ℕ → Buf → S × Result × ℕ
  write size off bytes =
      let (s, r, content) = sv.get (sv.acquire st inum) inum in
      if is_ok r
      then (let (content', bytes_written) = write_part content size off bytes in
          (sv.release (sv.put s inum content').0 inum, Result.ok, bytes_written))
      else (sv.release s inum, Result.ioerr, 0)

  unfoldable pub readlink : S × Result × Text
  readlink =
      let (s, r, link_name) = sv.get (sv.acquire st inum) inum in
      (sv.release s inum, if is_ok r then Result.ok else Result.ioerr, link_name)
