-- ===== src/NameNode/Files/TwoLocks.antt =====
-- The locks of two inodes.
use file_system_yfs.Base.{ℕ, ◌≡◌, refl, true, false, ltb, ◌==◌, inl, inr, Bool-cases, arith}
use file_system_yfs.Client.Services.{Services}
use file_system_yfs.Client.Locks.{Counts}
use file_system_yfs.NameNode.Files.{dual_lock, dual_unlock}

module _ {S : Type 0} (sv : Services S) (held : S → ℕ → ℕ) (laws : Counts sv held) (st : S)
    (a b : ℕ) where
  dual_lock_swap : dual_lock sv st a b ≡ dual_lock sv st b a
  unfolding dual_lock
  dual_lock_swap = elim (Bool-cases (ltb a b)) [
    | inl e ↦ let e' : ltb b a ≡ false = ground arith in rw (dual_lock, e, e') refl
    | inr e ↦ elim (Bool-cases (ltb b a)) [
      | inl e' ↦ rw (dual_lock, e, e') refl
      | inr e' ↦ let same : a ≡ b = ground arith in rw (dual_lock, e, e', same) refl
    ]
  ]

  -- acquire adds one to how often a lock is held, release takes one off, and nothing else changes it. Then
  -- DualLock takes two locks in the same order whichever is named first, and DualUnlock gives back what
  -- DualLock took.
  pub dual_unlock-dual_lock :
      (l : ℕ)
      → (dual_lock sv st a b ≡ dual_lock sv st b a)
        × (held (dual_unlock sv (dual_lock sv st a b) a b) l ≡ held st l)
  unfolding dual_lock dual_unlock
  dual_unlock-dual_lock l = (
    dual_lock_swap,
    elim (Bool-cases (ltb a b)) [
      | inl e ↦
          let ne : (a == b) ≡ false = ground arith in
          let s = sv.acquire (sv.acquire st a) b in
          rw (dual_lock, e, ne)
            (ground (
              arith,
              laws.acquire st a l,
              laws.acquire (sv.acquire st a) b l,
              laws.release s a l,
              laws.release (sv.release s a) b l,
            ))
      | inr e ↦ elim (Bool-cases (ltb b a)) [
        | inl e' ↦
            let ne : (a == b) ≡ false = ground arith in
            let s = sv.acquire (sv.acquire st b) a in
            rw (dual_lock, e, e', ne)
              (ground (
                arith,
                laws.acquire st b l,
                laws.acquire (sv.acquire st b) a l,
                laws.release s a l,
                laws.release (sv.release s a) b l,
              ))
        | inr e' ↦
            let same : (a == b) ≡ true = ground arith in
            rw (dual_lock, e, e', same)
              (ground (arith, laws.acquire st a l, laws.release (sv.acquire st a) a l))
      ]
    ],
  )
