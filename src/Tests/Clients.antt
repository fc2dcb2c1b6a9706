-- ===== src/Tests/Clients.antt =====
-- The client on a store that holds the directory of Tests/Directories as extent 1 and a file as
-- extent 5.
use mathlib.Core.Option
use file_system_yfs.Base.{
  ℕ, ◌+◌, ◌-◌, ◌≡◌, ◌≢◌, refl, true, false, ◌==◌, arith, if◌then◌else◌, [], ◌∷◌, Option, some,
}
use file_system_yfs.Base.Text.{Text, length, assign}
use file_system_yfs.Inodes.{t_dir, t_file}
use file_system_yfs.Client.Services.{Services, Result}
use file_system_yfs.Extent.{Status}
use file_system_yfs.Client.Directory.{add_entry}
use file_system_yfs.Client.Directory.Listing.{format}
use file_system_yfs.Client.Content.{write_part}
use file_system_yfs.Client.Files.{nlock_isdir, nlock_is, read, write, setattr, readlink}
use file_system_yfs.Client.Names.{create, mkdir, createlink, readdir}
use file_system_yfs.Client.Created.{Created, create-Created, create-overwrites}
use file_system_yfs.Client.Locks.{Logs, create-balanced, readdir-releases_twice}
use file_system_yfs.Client.WriteRead.{answered, read-write}
use file_system_yfs.Tests.Files.{letters}
use file_system_yfs.Tests.Stores.{Store, Stored, Room, store, store-Stores, store-Counts}
use file_system_yfs.Tests.Directories.{
  entries, entries-AreNamed, new_name, new_name-IsPlain, new_name-fresh,
}

abbrev file_text : Text
file_text = b'a' ∷ b'b' ∷ b'c' ∷ []

abbrev start : Store
start = record {
  at = λ i.
      if i == 1
      then record { type = t_dir; text = format entries }
      else record { type = t_file; text = file_text };
  held = λ l. 0;
}

start_dir : Stored start 1 t_dir (format entries)
start_dir = record { old = omega arith; same_type = refl; same_text = refl }

start_file : Stored start 5 t_file file_text
start_file = record { old = omega arith; same_type = refl; same_text = refl }

create-Created_example :
    Created store Stored 1 entries new_name (create store start 1 new_name 0)
    × Created store Stored 1 entries new_name (mkdir store start 1 new_name 0)
create-Created_example =
    create-Created store Stored Room store-Stores 1 start new_name 0 entries start_dir
      entries-AreNamed new_name-IsPlain new_name-fresh (λ i. tt)

create-overwrites_example :
    let (s', r, new) = create store start 5 new_name 0 in
    (r ≡ Result.ok) × Stored s' 5 t_file (add_entry file_text new_name new)
create-overwrites_example =
    create-overwrites store Stored Room store-Stores 5 start new_name 0 t_file file_text
      (omega arith) start_file (λ i. tt)

-- Two bytes behind the end of the file.
short : length (write_part file_text 2 4 letters).0 ≡ 6
unfolding length write_part assign file_system_yfs.Base.Text.zeros
short = refl

read-write_example :
    Option.map answered (read store (write store start 5 2 4 letters).0 5 2 4 [])
    ≡ some (Result.ok, assign letters 0 2)
read-write_example =
    read-write store Stored Room store-Stores start 5 t_file 2 4 file_text [] letters start_file tt
      (omega (arith, short))

create-balanced_example :
    ((create store start 1 new_name 0).0.held 1 ≡ 0)
    × ((mkdir store start 1 new_name 0).0.held 1 ≡ 0)
    × ((createlink store start 1 new_name file_text 0).0.held 1 ≡ 0)
    × ((write store start 1 2 4 letters).0.held 1 ≡ 0)
    × ((setattr store start 1 2).0.held 1 ≡ 0)
    × ((readlink store start 1).0.held 1 ≡ 0)
create-balanced_example =
    create-balanced store (λ s. s.held) store-Counts 1 start 1 new_name file_text 0 2 4 letters

-- Services without contents that log the calls of the lock service, with a file behind every number.
abbrev Log : Type 0
Log = (ℕ → ℕ) × (ℕ → ℕ)

abbrev logged : (ℕ → ℕ) → ℕ → ℕ → ℕ
logged f id l = if id == l then f l + 1 else f l

abbrev log : Services Log
log = record {
  finum = λ t. 0;
  create = λ s type. (s, Status.ok, 9);
  get = λ s id. (s, Status.ok, []);
  put = λ s id t. (s, Status.ok);
  getattr =
      λ s id. (s, Status.ok, record { type = t_file; atime = 0; mtime = 0; ctime = 0; size = 0 });
  remove = λ s id. (s, Status.ok);
  acquire = λ s id. (logged s.0 id, s.1);
  release = λ s id. (s.0, logged s.1 id);
}

abbrev no_calls : Log
no_calls = (λ l. 0, λ l. 0)

log-Logs : Logs log (λ s. s.0) (λ s. s.1)
log-Logs = record {
  getattr = λ s id l. (refl, refl);
  acquire = λ s id l. (refl, refl);
  release = λ s id l. (refl, refl);
}

file_is_no_dir : (nlock_isdir log (log.acquire no_calls 5) 5).1 ≡ false
unfolding nlock_isdir nlock_is
file_is_no_dir = refl

readdir-releases_twice_example :
    let s = (readdir log no_calls 5 []).0 in (s.0 5 ≡ 0 + 1) × (s.1 5 ≡ 0 + 2)
readdir-releases_twice_example =
    readdir-releases_twice log (λ s. s.0) (λ s. s.1) log-Logs 5 no_calls [] file_is_no_dir
