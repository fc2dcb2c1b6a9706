-- ===== src/LockClient/Serving.antt =====
-- The server's part of a lock's steps, and that clients agree with it afterwards.
use mathlib.Core.Option
use file_system_yfs.Base.{
  ℕ, ◌≡◌, refl, sym, ◌∙◌, true, false, Option, none, some, inl, inr, Bool-cases, Option-cases,
  Holds, contradiction, arith,
}
use file_system_yfs.Base.Text.{Text, equal, equal_self, equal_sound}
use file_system_yfs.Locking.{LockStatus}
use file_system_yfs.Caching.{LockProperty, Message}
use file_system_yfs.Caching
use file_system_yfs.Caching.Waiting.{acquire_lock-waits}
use file_system_yfs.LockClient.{ClientState}
use file_system_yfs.LockClient.System.{Call, System, set, serve_acquire, serve_release}
use file_system_yfs.LockClient.Agreement.{state_of, fits, owns, is_owner, holders, IsFine, Agrees}

asking_state : (st : ClientState) → fits st Call.asking ≡ true → st ≡ ClientState.acquiring
unfolding fits
asking_state ClientState.acquiring e = refl
asking_state ClientState.absent e = contradiction e
asking_state ClientState.free e = contradiction e
asking_state ClientState.locked e = contradiction e
asking_state ClientState.releasing e = contradiction e

releasing_state : (st : ClientState) → fits st Call.releasing ≡ true → st ≡ ClientState.releasing
unfolding fits
releasing_state ClientState.releasing e = refl
releasing_state ClientState.absent e = contradiction e
releasing_state ClientState.free e = contradiction e
releasing_state ClientState.locked e = contradiction e
releasing_state ClientState.acquiring e = contradiction e

is_owner-get_or :
    (server : Option LockProperty) (id : Text)
    → is_owner server id ≡ true
    → is_owner (some (Option.get_or server Caching.new_lock)) id ≡ true
unfolding is_owner
is_owner-get_or none id e = contradiction e
is_owner-get_or (some l) id e = e

moved-IsFine :
    (server server' : Option LockProperty) (id : Text) (st : ClientState) (c : Call) (h : ℕ)
    → (is_owner server id ≡ true → is_owner server' id ≡ true)
    → IsFine server id st c h
    → IsFine server' id st c h
moved-IsFine server server' id st c h moves f = record {
  call = f.call;
  owner = λ e. moves (f.owner e);
  count = f.count;
}

-- acquire of a held lock keeps the owner, and the client that asks is told to retry.
acquire_lock-IsFine_held :
    (sys : System) (id i : Text) (s : LockProperty)
    → s.state ≡ true
    → (is_owner sys.server i ≡ true → is_owner (some s) i ≡ true)
    → sys.calls id ≡ Call.asking
    → Agrees sys
    → let (l, ret, calls) = Caching.acquire_lock s id in
      IsFine
        (some l)
        i
        (state_of (sys.clients i))
        (set sys.calls id (Call.answered ret) i)
        (sys.holding i)
unfolding set is_owner fits owns holders
acquire_lock-IsFine_held sys id i s held moves asks all =
    let (told, same, on, _, _, _) = acquire_lock-waits s id held in
    let kept : is_owner (some s) i ≡ true → is_owner (some (Caching.acquire_lock s id).0) i ≡ true =
      λ e. rw (on, same) (rw held at e) in
    elim (Bool-cases (equal i id)) [
      | inl e ↦
          let same_id = equal_sound i id e in
          let f : IsFine sys.server id (state_of (sys.clients id)) Call.asking (sys.holding id) =
            rw asks at (all id) in
          let st = asking_state _ f.call in
          let n = f.count in
          rw (e, told, same_id, st)
            (record { call = refl; owner = λ z. contradiction z; count = rw st at n })
      | inr e ↦ rw e (moved-IsFine sys.server _ i _ _ _ (λ z. kept (moves z)) (all i))
    ]

-- acquire of a free lock, which no client owns, gives it to the client that asks.
acquire_lock-IsFine_free :
    (sys : System) (id i : Text) (s : LockProperty)
    → s.state ≡ false
    → (is_owner sys.server i ≡ true → is_owner (some s) i ≡ true)
    → sys.calls id ≡ Call.asking
    → Agrees sys
    → let (l, ret, calls) = Caching.acquire_lock s id in
      IsFine
        (some l)
        i
        (state_of (sys.clients i))
        (set sys.calls id (Call.answered ret) i)
        (sys.holding i)
unfolding set is_owner fits owns holders Caching.acquire_lock
acquire_lock-IsFine_free sys id i s free moves asks all = elim (Bool-cases (equal i id)) [
  | inl e ↦
      let same_id = equal_sound i id e in
      let f : IsFine sys.server id (state_of (sys.clients id)) Call.asking (sys.holding id) =
        rw asks at (all id) in
      let st = asking_state _ f.call in
      let n = f.count in
      rw (e, free, same_id, st)
        (record { call = refl; owner = λ z. equal_self id; count = rw st at n })
  | inr e ↦
      rw (e, free)
        (moved-IsFine sys.server _ i _ _ _ (λ z. contradiction (rw free at (moves z))) (all i))
]

pub serve_acquire-Agrees :
    (sys : System) (id : Text)
    → sys.calls id ≡ Call.asking
    → Agrees sys
    → Agrees (serve_acquire sys id)
unfolding serve_acquire
serve_acquire-Agrees sys id asks all i =
    let s = Option.get_or sys.server Caching.new_lock in
    let moves = is_owner-get_or sys.server i in
    elim (Bool-cases s.state) [
      | inl held ↦ acquire_lock-IsFine_held sys id i s held moves asks all
      | inr free ↦ acquire_lock-IsFine_free sys id i s free moves asks all
    ]

-- No two clients own the lock.
pub one_owner :
    (server : Option LockProperty) (i j : Text)
    → is_owner server i ≡ true
    → is_owner server j ≡ true
    → i ≡ j
unfolding is_owner
one_owner none i j e e' = contradiction e
one_owner (some l) i j e e' =
    let first : equal l.owner i ≡ true = ground arith in
    let second : equal l.owner j ≡ true = ground arith in
    sym (equal_sound l.owner i first) ∙ equal_sound l.owner j second

release_lock-IsFine :
    (sys : System) (id : Text) (s : LockProperty)
    → sys.calls id ≡ Call.releasing
    → Agrees sys
    → (i : Text)
    → IsFine
        (some (Caching.release_lock s).0)
        i
        (state_of (sys.clients i))
        (set sys.calls id (Call.released LockStatus.ok) i)
        (sys.holding i)
unfolding set is_owner fits owns holders
release_lock-IsFine sys id s releasing all i =
    let f : IsFine sys.server id (state_of (sys.clients id)) Call.releasing (sys.holding id) =
      rw releasing at (all id) in
    let st = releasing_state _ f.call in
    let mine : is_owner sys.server id ≡ true = f.owner (rw st refl) in
    let n = f.count in
    elim (Bool-cases (equal i id)) [
      | inl e ↦
          rw (e, equal_sound i id e, st)
            (record { call = refl; owner = λ z. contradiction z; count = rw st at n })
      | inr e ↦ rw e (
          moved-IsFine sys.server _ i _ _ _
            (λ z.
              let same = one_owner sys.server i id z mine in
              contradiction (sym (rw same at e) ∙ equal_self id))
            (all i))
    ]

pub serve_release-Agrees :
    (sys : System) (id : Text)
    → sys.calls id ≡ Call.releasing
    → Agrees sys
    → Holds Agrees (serve_release sys id)
unfolding serve_release Holds is_owner owns Caching.release_lock
serve_release-Agrees sys id releasing all = elim (Option-cases sys.server) [
  | inr (s, found) ↦ rw found (release_lock-IsFine sys id s releasing all)
  | inl missing ↦
      let f : IsFine sys.server id (state_of (sys.clients id)) Call.releasing (sys.holding id) =
        rw releasing at (all id) in
      let st = releasing_state _ f.call in contradiction (rw missing at (f.owner (rw st refl)))
]
