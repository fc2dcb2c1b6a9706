-- ===== src/Caching/Waiting.antt =====
-- The waiting clients of a cached lock.
use mathlib.Core.Option
use file_system_yfs.Base.{
  ℕ, ◌+◌, ◌≡◌, refl, true, false, ◌==◌, Option, none, some, Bool-cases, inl, inr, if◌then◌else◌,
  List, [], ◌∷◌, arith,
}
use file_system_yfs.Base.Text.{Text, equal, equal_self}
use file_system_yfs.Locking.{LockStatus}
use file_system_yfs.Caching.{
  LockProperty, CachingServer, Message, new_lock, insert, is_before, contains, acquire_lock,
  release_lock, set_lock, acquire, Step, Reach, init, acquires, releases, here, next,
}

contains-insert : (id : Text) (ws : List Text) → contains id (insert id ws) ≡ true
unfolding contains insert
contains-insert id [] = rw (equal_self id) refl
contains-insert id (w ∷ ws) = elim (Bool-cases (equal id w)) [
  | inl e ↦ rw (e, contains, e) refl
  | inr e ↦ elim (Bool-cases (is_before id w)) [
    | inl b ↦ rw (e, b, contains, equal_self id) refl
    | inr b ↦ rw (e, b, contains, e) (contains-insert id ws)
  ]
]

-- A free lock has no owner and no outstanding revoke; a revoke is outstanding only while a client waits.
pub record IsConsistent (l : LockProperty) : Type 0 where
  pub no_owner : l.state ≡ false → l.owner ≡ []
  pub no_revoke : l.state ≡ false → l.revoke ≡ false
  pub awaited : l.revoke ≡ true → (w : Text) × (contains w l.wait_list ≡ true)

waited-IsConsistent :
    (l : LockProperty) (id : Text)
    → IsConsistent
        (record { state = true; owner = l.owner; wait_list = insert id l.wait_list; revoke = true })
waited-IsConsistent l id = record {
  no_owner = λ z. absurd (ground arith);
  no_revoke = λ z. absurd (ground arith);
  awaited = λ e. (id, contains-insert id l.wait_list);
}

acquire_lock-IsConsistent :
    (l : LockProperty) (id : Text) → IsConsistent l → IsConsistent (acquire_lock l id).0
unfolding acquire_lock
acquire_lock-IsConsistent l id c = elim (Bool-cases l.state) [
  | inl held ↦ elim (Bool-cases l.revoke) [
    | inl e ↦ rw (acquire_lock, held, e) (waited-IsConsistent l id)
    | inr e ↦ rw (acquire_lock, held, e) (waited-IsConsistent l id)
  ]
  | inr free ↦
      rw (acquire_lock, free)
        (record {
          no_owner = λ z. absurd (ground arith);
          no_revoke = λ z. refl;
          awaited = λ e. absurd (ground arith);
        })
]

release_lock-IsConsistent : (l : LockProperty) → IsConsistent (release_lock l).0
unfolding release_lock
release_lock-IsConsistent l = record {
  no_owner = λ z. refl;
  no_revoke = λ z. refl;
  awaited = λ e. absurd (ground arith);
}

new_lock-IsConsistent : IsConsistent new_lock
new_lock-IsConsistent = record {
  no_owner = λ z. refl;
  no_revoke = λ z. refl;
  awaited = λ e. absurd (ground arith);
}

abbrev pub IsConsistentAt : Option LockProperty → Type 0
IsConsistentAt none = Unit
IsConsistentAt (some l) = IsConsistent l

-- Every lock of the map is consistent.
abbrev pub AreConsistent : CachingServer → Type 0
AreConsistent sv = (lid : ℕ) → IsConsistentAt (sv.lock_map lid)

set_lock-AreConsistent :
    (sv : CachingServer) (lid : ℕ) (l : LockProperty)
    → IsConsistent l
    → AreConsistent sv
    → AreConsistent (set_lock sv lid l)
unfolding set_lock
set_lock-AreConsistent sv lid l c all other = elim (Bool-cases (other == lid)) [
  | inl e ↦ rw (set_lock, e) c
  | inr e ↦ rw (set_lock, e) (all other)
]

get_or-IsConsistent :
    (o : Option LockProperty) → IsConsistentAt o → IsConsistent (Option.get_or o new_lock)
get_or-IsConsistent none c = new_lock-IsConsistent
get_or-IsConsistent (some l) c = c

Step-AreConsistent : {a b : CachingServer} → Step a b → AreConsistent a → AreConsistent b
unfolding acquire
Step-AreConsistent (acquires sv lid id) all =
    set_lock-AreConsistent (record sv { nacquire = sv.nacquire + 1 }) lid _
      (acquire_lock-IsConsistent _ id (get_or-IsConsistent (sv.lock_map lid) (all lid))) all
Step-AreConsistent (releases sv lid l found) all =
    set_lock-AreConsistent sv lid _ (release_lock-IsConsistent l) all

-- In every state that the caching lock server gets to, for every lock: while it is free it has no
-- owner and no outstanding revoke, and while a revoke is outstanding some client waits.
pub Reach-AreConsistent : (junk : ℕ) (sv : CachingServer) → Reach (init junk) sv → AreConsistent sv
Reach-AreConsistent junk sv here = λ lid. tt
Reach-AreConsistent junk sv (next r step) = Step-AreConsistent step (Reach-AreConsistent junk _ r)

-- A client that is told to retry waits for the lock with a revoke outstanding; the owner is to be called for it
-- unless it was before, and keeps the lock.
pub acquire_lock-waits :
    (l : LockProperty) (id : Text)
    → l.state ≡ true
    → let (l', ret, calls) = acquire_lock l id in
      (ret ≡ LockStatus.retry)
      × (l'.owner ≡ l.owner)
      × (l'.state ≡ true)
      × (contains id l'.wait_list ≡ true)
      × (l'.revoke ≡ true)
      × (calls ≡ (if l.revoke then [] else Message.revoke_owner ∷ []))
unfolding acquire_lock
acquire_lock-waits l id held = elim (Bool-cases l.revoke) [
  | inl e ↦
      rw (acquire_lock, held, e) (refl, refl, refl, contains-insert id l.wait_list, refl, refl)
  | inr e ↦
      rw (acquire_lock, held, e) (refl, refl, refl, contains-insert id l.wait_list, refl, refl)
]
