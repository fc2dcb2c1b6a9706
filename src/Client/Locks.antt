-- ===== src/Client/Locks.antt =====
-- How often a lock is held across the client's operations.
use file_system_yfs.Base.{
  ℕ, ◌+◌, ◌-◌, ◌≡◌, ◌∙◌, Bool, false, ◌&&◌, ◌==◌, ==_self, arith, List, [], if◌then◌else◌,
  Bool-cases, Option-cases, inl, inr,
}
use file_system_yfs.Base.Text.{Text}
use file_system_yfs.Base.Memory.{Buf}
use file_system_yfs.Inodes.{t_dir, t_file, t_symlink}
use file_system_yfs.Client.Services.{Services, is_ok}
use file_system_yfs.Client.Directory.{Dirent, in_name, find_entry, add_entry}
use file_system_yfs.Client.Files.{nlock_is, nlock_isdir, setattr, write, readlink}
use file_system_yfs.Client.Names.{
  nlock_lookup, add_inode, nlock_create, create, mkdir, createlink, nlock_readdir, readdir,
}

-- Only acquire and release change how often a lock is held.
pub record Counts {S : Type 0} (sv : Services S) (held : S → ℕ → ℕ) : Type 0 where
  pub create : (s : S) (type l : ℕ) → held (sv.create s type).0 l ≡ held s l
  pub get : (s : S) (id l : ℕ) → held (sv.get s id).0 l ≡ held s l
  pub put : (s : S) (id : ℕ) (t : Text) (l : ℕ) → held (sv.put s id t).0 l ≡ held s l
  pub getattr : (s : S) (id l : ℕ) → held (sv.getattr s id).0 l ≡ held s l
  pub acquire :
      (s : S) (id l : ℕ) → held (sv.acquire s id) l ≡ (if id == l then held s l + 1 else held s l)
  pub release :
      (s : S) (id l : ℕ) → held (sv.release s id) l ≡ (if id == l then held s l - 1 else held s l)

module _ {S : Type 0} (sv : Services S) (held : S → ℕ → ℕ) (laws : Counts sv held) (l : ℕ) where
  -- Taking and giving back around a body that keeps the count.
  around :
      (s s' : S) (id : ℕ)
      → held s' l ≡ held (sv.acquire s id) l
      → held (sv.release s' id) l ≡ held s l
  around s s' id same = ground (arith, laws.acquire s id l, laws.release s' id l)

  lookup_keeps :
      (s : S) (parent : ℕ) (name : Text) (found : Bool) (ino : ℕ)
      → held (nlock_lookup sv s parent name found ino).0 l ≡ held s l
  unfolding nlock_lookup nlock_isdir nlock_is
  lookup_keeps s parent name found ino =
      let (s1, r1, a) = sv.getattr s parent in
      let (s2, r2, t) = sv.get s1 parent in
      let one = laws.getattr s parent l in
      let two = laws.get s1 parent l ∙ one in
      elim (Bool-cases (is_ok r1 && a.type == t_dir)) [
        | inl e ↦ elim (Bool-cases (is_ok r2)) [
          | inl h ↦ elim (Option-cases (find_entry sv.finum name in_name [] [] t)) [
            | inl f ↦ rw (nlock_lookup, e, h, f) two
            | inr (i, f) ↦ rw (nlock_lookup, e, h, f) two
          ]
          | inr h ↦ rw (nlock_lookup, e, h) two
        ]
        | inr e ↦ rw (nlock_lookup, e) one
      ]

  add_inode_keeps :
      (s : S) (parent kind : ℕ) (name : Text)
      → held (add_inode sv s parent kind name).0 l ≡ held s l
  unfolding add_inode
  add_inode_keeps s parent kind name =
      let (s1, r1, ino) = sv.create s kind in
      let (s2, r2, t) = sv.get s1 parent in
      let one = laws.get s1 parent l ∙ laws.create s kind l in
      elim (Bool-cases (is_ok r2)) [
        | inl h ↦ rw (add_inode, h) (laws.put s2 parent (add_entry t name ino) l ∙ one)
        | inr h ↦ rw (add_inode, h) one
      ]

  nlock_create_keeps :
      (s : S) (parent kind : ℕ) (name : Text) (ino : ℕ)
      → held (nlock_create sv s parent kind name ino).0 l ≡ held s l
  unfolding nlock_create
  nlock_create_keeps s parent kind name ino =
      let (s1, r, found, ino') = nlock_lookup sv s parent name false ino in
      let one = lookup_keeps s parent name false ino in
      elim (Bool-cases found) [
        | inl h ↦ rw (nlock_create, h) one
        | inr h ↦ rw (nlock_create, h) (add_inode_keeps s1 parent kind name ∙ one)
      ]

  -- When acquire adds one to how often a lock is held, release takes one off, and nothing else
  -- changes it: create, mkdir, createlink, write, setattr and readlink leave every lock held as
  -- often as before, on every path.
  pub create-balanced :
      (s : S) (parent : ℕ) (name link : Text) (ino size off : ℕ) (bytes : Buf)
      → (held (create sv s parent name ino).0 l ≡ held s l)
        × (held (mkdir sv s parent name ino).0 l ≡ held s l)
        × (held (createlink sv s parent name link ino).0 l ≡ held s l)
        × (held (write sv s parent size off bytes).0 l ≡ held s l)
        × (held (setattr sv s parent size).0 l ≡ held s l)
        × (held (readlink sv s parent).0 l ≡ held s l)
  unfolding create mkdir createlink write setattr readlink
  create-balanced s parent name link ino size off bytes =
      let taken = sv.acquire s parent in
      let (s1, r, t) = sv.get taken parent in
      let got = laws.get taken parent l in
      let (s2, r2, found, ino') = nlock_lookup sv taken parent name false ino in
      let looked = lookup_keeps taken parent name false ino in
      let added = add_inode_keeps s2 parent t_symlink name ∙ looked in
      let (s3, made) = add_inode sv s2 parent t_symlink name in
      (
        around s _ parent (nlock_create_keeps taken parent t_file name ino),
        around s _ parent (nlock_create_keeps taken parent t_dir name ino),
        elim (Bool-cases found) [
          | inl h ↦ rw (createlink, h) (around s _ parent looked)
          | inr h ↦ rw (createlink, h) (around s _ parent (laws.put s3 made link l ∙ added))
        ],
        elim (Bool-cases (is_ok r)) [
          | inl h ↦ rw (write, h) (around s _ parent (laws.put s1 parent _ l ∙ got))
          | inr h ↦ rw (write, h) (around s _ parent got)
        ],
        elim (Bool-cases (is_ok r)) [
          | inl h ↦ rw (setattr, h) (around s _ parent (laws.put s1 parent _ l ∙ got))
          | inr h ↦ rw (setattr, h) (around s _ parent got)
        ],
        around s s1 parent got,
      )

-- Services that log, for each lock, how often it is acquired and released.
pub record Logs {S : Type 0} (sv : Services S) (acquired released : S → ℕ → ℕ) : Type 0 where
  pub getattr :
      (s : S) (id l : ℕ)
      → (acquired (sv.getattr s id).0 l ≡ acquired s l)
        × (released (sv.getattr s id).0 l ≡ released s l)
  pub acquire :
      (s : S) (id l : ℕ)
      → (acquired (sv.acquire s id) l ≡ (if id == l then acquired s l + 1 else acquired s l))
        × (released (sv.acquire s id) l ≡ released s l)
  pub release :
      (s : S) (id l : ℕ)
      → (acquired (sv.release s id) l ≡ acquired s l)
        × (released (sv.release s id) l ≡ (if id == l then released s l + 1 else released s l))

-- On services that log the calls of the lock service, readdir of something that is no directory
-- acquires its lock once and releases it twice.
pub readdir-releases_twice :
    {S : Type 0} (sv : Services S) (acquired released : S → ℕ → ℕ)
    → Logs sv acquired released
    → (l : ℕ) (s : S) (entries : List Dirent) → (nlock_isdir sv (sv.acquire s l) l).1 ≡ false
    → let s' = (readdir sv s l entries).0 in
      (acquired s' l ≡ acquired s l + 1) × (released s' l ≡ released s l + 2)
unfolding readdir nlock_readdir nlock_isdir nlock_is
readdir-releases_twice sv acquired released laws l s entries no_dir =
    let (s1, r, a) = sv.getattr (sv.acquire s l) l in
    let first = sv.release s1 l in
    let own = ==_self l in
    let (taken, none_yet) = laws.acquire s l l in
    let (kept, kept') = laws.getattr (sv.acquire s l) l l in
    let (same, once) = laws.release s1 l l in
    let (same', twice) = laws.release first l l in
    rw (readdir, nlock_readdir, no_dir)
      (
        ground (arith, own, taken, kept, same, same'),
        ground (arith, own, none_yet, kept', once, twice),
      )
