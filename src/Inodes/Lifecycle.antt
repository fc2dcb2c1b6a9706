-- ===== src/Inodes/Lifecycle.antt =====
-- Inodes are handed out first free first, and freed one at a time.
use file_system_yfs.Base.{
  ℕ, zero, suc, ◌+◌, ◌-◌, ◌≤◌, ◌<◌, ◌≡◌, ◌≢◌, refl, sym, ap, ◌∙◌, ◌⊎◌, inl, inr, arith, ltb, ◌==◌,
  Bool-cases, none, some,
}
use file_system_yfs.Base.Memory.{Buf, load_word, load_word-lt}
use file_system_yfs.Disk
use file_system_yfs.Disk.{inode_num}
use file_system_yfs.Blocks
use file_system_yfs.Blocks.{IsFormatted}
use file_system_yfs.Inodes
use file_system_yfs.Inodes.{
  InodeManager, Inode, Clock, Attr, u16, u32, widen, t_dir, get_inode, put_inode, new_inode,
  zero_inode, load_inode, alloc_inode_from, alloc_inode, free_inode, getattr,
}
use file_system_yfs.Inodes.Struct.{
  Fits, inode_at, get_inode-cases, put_inode_at, put_inode_other, put_inode-sb,
}

pub get_inode-none :
    (junk : Buf) (im : InodeManager) (inum : ℕ)
    → IsFormatted im
    → inum < inode_num
    → (inode_at im inum).type ≡ 0
    → get_inode junk im inum ≡ none
get_inode-none junk im inum f lt z = elim (get_inode-cases junk im inum f lt) [
  | inl (e, _) ↦ e
  | inr (_, _, _, live) ↦ absurd (live z)
]

new_inode-Fits : (junk : Buf) (now : Clock) (type : ℕ) → Fits (new_inode junk now type)
unfolding new_inode
new_inode-Fits junk now type = record {
  type = omega arith;
  size = omega arith;
  atime = omega arith;
  mtime = omega arith;
  ctime = omega arith;
  blocks = λ i le. load_word-lt junk (5 + i);
}

-- Inode `i` was the first free one, and is an empty file of the given type now.
pub record Creates (im im' : InodeManager) (i type : ℕ) : Type 0 where
  pub above : 1 ≤ i
  pub below : i < inode_num
  pub was_free : (inode_at im i).type ≡ 0
  pub first : (k : ℕ) → 1 ≤ k → k < i → (inode_at im k).type ≢ 0
  pub type_now : (inode_at im' i).type ≡ u16 type
  pub empty : (inode_at im' i).size ≡ 0
  pub others : (b : ℕ) → b ≢ i + 3 → im'.d b ≡ im.d b
  pub superblock : im'.sb ≡ im.sb

abbrev pub NoneFree : InodeManager → Type 0
NoneFree im = (k : ℕ) → 1 ≤ k → k < inode_num → (inode_at im k).type ≢ 0

abbrev pub CreatesOrFull : InodeManager → ℕ → InodeManager × ℕ → Type 0
CreatesOrFull im type r = Creates im r.0 r.1 type ⊎ ((r ≡ (im, 0)) × NoneFree im)

module _ (junk : Buf) (now : Clock) (im : InodeManager) (type : ℕ) (f : IsFormatted im) where
  put_new-Creates :
      (i : ℕ)
      → 1 ≤ i
      → i < inode_num
      → (inode_at im i).type ≡ 0
      → ((k : ℕ) → 1 ≤ k → k < i → (inode_at im k).type ≢ 0)
      → Creates im (put_inode junk im i (some (new_inode junk now type))) i type
  unfolding new_inode
  put_new-Creates i l r free first =
      let new = new_inode junk now type in
      let s = put_inode_at junk im i f r new (new_inode-Fits junk now type) in
      record {
        above = l;
        below = r;
        was_free = free;
        first = first;
        type_now = s.type;
        empty = s.size;
        others = λ b ne. put_inode_other junk im i f r new b ne;
        superblock = put_inode-sb junk im i f r (some new);
      }

  alloc_inode_from-Creates :
      (n i : ℕ)
      → 1 ≤ i
      → i + n ≡ inode_num
      → ((k : ℕ) → 1 ≤ k → k < i → (inode_at im k).type ≢ 0)
      → CreatesOrFull im type (alloc_inode_from junk now n i im type)
  unfolding alloc_inode_from
  alloc_inode_from-Creates zero i l s first = inr (refl, λ k lk rk. first k lk (omega arith))
  alloc_inode_from-Creates (suc n) i l s first = elim (get_inode-cases junk im i f (omega arith)) [
    | inl (e, z) ↦ rw (e, alloc_inode_from) (inl (put_new-Creates i l (omega arith) z first))
    | inr (ino, e, _, live) ↦
        rw (e, alloc_inode_from)
          (alloc_inode_from-Creates n (i + 1) (omega arith) (omega arith) λ k lk rk.
            elim (Bool-cases (k == i)) [
              | inl q ↦ let p : k ≡ i = ground arith in rw p live
              | inr q ↦ first k lk (ground arith)
            ])
  ]

  -- alloc_inode makes the first free inode an empty file of the given type and changes no other
  -- block, or answers 0 with the disk unchanged when none is free.
  pub alloc_inode-Creates : CreatesOrFull im type (alloc_inode junk now im type)
  unfolding alloc_inode
  alloc_inode-Creates =
      let e : im.sb.ninodes - 1 ≡ 1023 = omega (arith, f.ninodes) in
      rw e
        (alloc_inode_from-Creates 1023 1 (omega arith) (omega arith) λ k l r. absurd (omega arith))

-- The inode `inum` is gone, and every other block is as it was.
pub record Frees (im im' : InodeManager) (inum : ℕ) : Type 0 where
  pub gone : (inode_at im' inum).type ≡ 0
  pub others : (b : ℕ) → b ≢ inum + 3 → im'.d b ≡ im.d b
  pub superblock : im'.sb ≡ im.sb

module _ (junk : Buf) (im : InodeManager) (inum : ℕ) (f : IsFormatted im)
    (lt : inum < inode_num) where
  -- free_inode leaves no inode of that number and changes no other block.
  pub free_inode-Frees : Frees im (free_inode junk im inum) inum
  unfolding free_inode
  free_inode-Frees = elim (get_inode-cases junk im inum f lt) [
    | inl (e, z) ↦
        rw (e, free_inode) (record { gone = z; others = λ b ne. refl; superblock = refl })
    | inr (ino, e, _, _) ↦
        let fits : Fits zero_inode = record {
          type = omega arith;
          size = omega arith;
          atime = omega arith;
          mtime = omega arith;
          ctime = omega arith;
          blocks = λ i le. omega arith;
        } in
        rw (e, free_inode)
          (record {
            gone = (put_inode_at junk im inum f lt zero_inode fits).type;
            others = λ b ne. put_inode_other junk im inum f lt zero_inode b ne;
            superblock = put_inode-sb junk im inum f lt (some zero_inode);
          })
  ]

  -- For an inode that exists getattr answers its type, size, access and change time, and in the
  -- place of its modification time the access time; for one that does not exist, zeros.
  pub getattr_lem :
      (((inode_at im inum).type ≡ 0)
        × (getattr junk im inum ≡ record { type = 0; atime = 0; mtime = 0; ctime = 0; size = 0 }))
      ⊎ (((inode_at im inum).type ≢ 0)
          × (getattr junk im inum ≡ record {
            type = widen (inode_at im inum).type;
            atime = (inode_at im inum).atime;
            mtime = (inode_at im inum).atime;
            ctime = (inode_at im inum).ctime;
            size = (inode_at im inum).size;
          }))
  unfolding getattr
  getattr_lem = elim (get_inode-cases junk im inum f lt) [
    | inl (e, z) ↦ inl (z, rw (e, getattr))
    | inr (ino, e, s, live) ↦ inr (
      live,
      rw (e, getattr)
          (λ i. record {
            type = widen (s.type i);
            atime = s.atime i;
            mtime = s.atime i;
            ctime = s.ctime i;
            size = s.size i;
          }),
    )
  ]

  -- So the modification time that getattr answers is wrong whenever it is not the access time.
  getattr-mtime_wrong :
      (inode_at im inum).type ≢ 0
      → (inode_at im inum).atime ≢ (inode_at im inum).mtime
      → (getattr junk im inum).mtime ≢ (inode_at im inum).mtime
  getattr-mtime_wrong live ne e = elim getattr_lem [
    | inl (z, _) ↦ live z
    | inr (_, a) ↦ ne (sym (ap (λ (t : Attr). t.mtime) a) ∙ e)
  ]

pub init-IsFormatted : IsFormatted Blocks.init
unfolding Blocks.init
init-IsFormatted = record { nblocks = refl; ninodes = refl }

pub inode_at-init : (k : ℕ) → (inode_at Blocks.init k).type ≡ 0
unfolding Blocks.init load_inode load_word Disk.init
inode_at-init k = refl

-- Where inode 1 is free it is the one that is made.
pub alloc_inode_first :
    (junk : Buf) (now : Clock) (im : InodeManager) (type : ℕ)
    → IsFormatted im
    → (inode_at im 1).type ≡ 0
    → let r = alloc_inode junk now im type in (r.1 ≡ 1) × Creates im r.0 1 type
alloc_inode_first junk now im type f z =
    let r = alloc_inode junk now im type in
    elim (alloc_inode-Creates junk now im type f) [
      | inl c ↦
          let one : r.1 ≡ 1 = elim (Bool-cases (ltb 1 r.1)) [
            | inl more ↦ absurd (c.first 1 (omega arith) (ground arith) z)
            | inr less ↦ ground (arith, c.above)
          ] in
          (one, rw one at c)
      | inr (_, full) ↦ absurd (full 1 (omega arith) (omega arith) z)
    ]

-- A new inode manager has an empty root directory, which is inode 1.
pub init-root :
    (junk : Buf) (now : Clock)
    → (im : InodeManager) × (Inodes.init junk now ≡ some im) × Creates Blocks.init im 1 t_dir
unfolding Inodes.init
init-root junk now =
    let (one, c) =
      alloc_inode_first junk now Blocks.init t_dir init-IsFormatted (inode_at-init 1) in
    ((alloc_inode junk now Blocks.init t_dir).0, ground (arith, one), c)
