-- ===== src/LockClient/Agreement.antt =====
-- How the state of a caching lock client agrees with the server and with the call that it has under way.
use file_system_yfs.Base.{
  ℕ, ◌+◌, ◌-◌, ◌<◌, ◌≡◌, refl, ap, Bool, true, false, ◌&&◌, Option, none, some, if◌then◌else◌, inl,
  inr, Bool-cases, Holds, contradiction, arith,
}
use file_system_yfs.Base.Text.{Text, equal, equal_sound}
use file_system_yfs.Locking.{LockStatus}
use file_system_yfs.Caching.{LockProperty}
use file_system_yfs.LockClient.{
  ClientState, ClientLock, test_acquire, after_acquire, after_retry, release, after_release,
  revoke_handler, retry_handler,
}
use file_system_yfs.LockClient.System.{Call, System, set, set_client, call_after, holding_after}

unfoldable pub state_of : Option ClientLock → ClientState
state_of none = ClientState.absent
state_of (some l) = l.state

-- The calls that a client in a state may have under way.
unfoldable pub fits : ClientState → Call → Bool
fits ClientState.absent Call.idle = true
fits ClientState.free Call.idle = true
fits ClientState.locked Call.idle = true
fits ClientState.acquiring Call.asking = true
fits ClientState.acquiring Call.waiting = true
fits ClientState.acquiring (Call.answered LockStatus.ok) = true
fits ClientState.acquiring (Call.answered LockStatus.retry) = true
fits ClientState.releasing Call.releasing = true
fits ClientState.releasing (Call.released LockStatus.ok) = true
fits _ _ = false

-- Whether the client has the lock, as the server sees it.
unfoldable pub owns : ClientState → Call → Bool
owns ClientState.free _ = true
owns ClientState.locked _ = true
owns ClientState.acquiring (Call.answered LockStatus.ok) = true
owns ClientState.releasing Call.releasing = true
owns _ _ = false

unfoldable pub is_owner : Option LockProperty → Text → Bool
is_owner none id = false
is_owner (some l) id = l.state && equal l.owner id

unfoldable pub holders : ClientState → ℕ
holders ClientState.locked = 1
holders _ = 0

-- A client agrees with the server and with the calls that it has under way.
pub record IsFine (server : Option LockProperty) (id : Text) (st : ClientState) (c : Call) (h : ℕ)
    : Type 0 where
  pub call : fits st c ≡ true
  pub owner : owns st c ≡ true → is_owner server id ≡ true
  pub count : h ≡ holders st

module _ (server : Option LockProperty) (id : Text) where
  pub test_acquire-IsFine :
      (st : ClientState) (rv rt : Bool) (c : Call) (h : ℕ)
      → IsFine server id st c h
      → let (l', out) = test_acquire (record { state = st; revoke = rv; retry = rt }) in
        IsFine server id l'.state (call_after out c) (holding_after out h)
  unfolding test_acquire call_after holding_after fits owns holders
  test_acquire-IsFine ClientState.absent rv rt c h f = record {
    call = refl;
    owner = λ e. absurd (ground arith);
    count = f.count;
  }
  test_acquire-IsFine ClientState.free rv rt c h f = record {
    call = refl;
    owner = λ e. f.owner refl;
    count = ap (λ n. n + 1) f.count;
  }
  test_acquire-IsFine ClientState.locked rv rt c h f = f
  test_acquire-IsFine ClientState.acquiring rv rt c h f = f
  test_acquire-IsFine ClientState.releasing rv rt c h f = f

  pub after_acquire-IsFine :
      (st : ClientState) (rv rt : Bool) (ret : LockStatus) (h : ℕ)
      → IsFine server id st (Call.answered ret) h
      → let (l', out) = after_acquire (record { state = st; revoke = rv; retry = rt }) ret in
        IsFine server id l'.state (call_after out Call.idle) (holding_after out h)
  unfolding after_acquire call_after holding_after fits owns holders
  after_acquire-IsFine ClientState.acquiring rv rt LockStatus.ok h f = record {
    call = refl;
    owner = λ e. f.owner refl;
    count = ap (λ n. n + 1) f.count;
  }
  after_acquire-IsFine ClientState.acquiring rv rt LockStatus.retry h f = record {
    call = refl;
    owner = λ e. absurd (ground arith);
    count = f.count;
  }
  after_acquire-IsFine st rv rt ret h f = contradiction f.call

  pub after_retry-IsFine :
      (st : ClientState) (rv rt : Bool) (h : ℕ)
      → IsFine server id st Call.waiting h
      → IsFine server id
          (after_retry (record { state = st; revoke = rv; retry = rt })).state
          Call.idle
          h
  unfolding after_retry fits owns holders
  after_retry-IsFine ClientState.acquiring rv rt h f = record {
    call = refl;
    owner = λ e. absurd (ground arith);
    count = f.count;
  }
  after_retry-IsFine st rv rt h f = contradiction f.call

  pub release-IsFine :
      (st : ClientState) (rv rt : Bool) (c : Call) (h : ℕ)
      → IsFine server id st c h
      → 0 < h
      → Holds
          (λ p. IsFine server id p.0.state (if p.1 then Call.releasing else c) (h - 1))
          (release (record { state = st; revoke = rv; retry = rt }))
  unfolding release fits owns holders Holds
  release-IsFine ClientState.locked false rt Call.idle h f pos =
      let n = f.count in record { call = refl; owner = λ e. f.owner refl; count = omega arith }
  release-IsFine ClientState.locked true rt Call.idle h f pos =
      let n = f.count in record { call = refl; owner = λ e. f.owner refl; count = omega arith }
  release-IsFine ClientState.locked rv rt c h f pos = contradiction f.call
  release-IsFine st rv rt c h f pos = let n = f.count in absurd (omega arith)

  pub after_release-IsFine :
      (st : ClientState) (rv rt : Bool) (ret : LockStatus) (h : ℕ)
      → IsFine server id st (Call.released ret) h
      → Holds
          (λ l'. IsFine server id l'.state Call.idle h)
          (after_release (record { state = st; revoke = rv; retry = rt }) ret)
  unfolding after_release fits owns holders Holds
  after_release-IsFine ClientState.releasing rv rt LockStatus.ok h f = record {
    call = refl;
    owner = λ e. absurd (ground arith);
    count = f.count;
  }
  after_release-IsFine st rv rt ret h f = contradiction f.call

  pub revoke_handler-IsFine :
      (st : ClientState) (rv rt : Bool) (c : Call) (h : ℕ)
      → IsFine server id st c h
      → let (l', calls) = revoke_handler (record { state = st; revoke = rv; retry = rt }) in
        IsFine server id l'.state (if calls then Call.releasing else c) h
  unfolding revoke_handler fits owns holders
  revoke_handler-IsFine ClientState.free rv rt c h f = record {
    call = refl;
    owner = λ e. f.owner refl;
    count = f.count;
  }
  revoke_handler-IsFine ClientState.absent rv rt c h f = f
  revoke_handler-IsFine ClientState.locked rv rt c h f = f
  revoke_handler-IsFine ClientState.acquiring rv rt c h f = f
  revoke_handler-IsFine ClientState.releasing rv rt c h f = f

pub retry_handler_state : (l : ClientLock) → (retry_handler l).state ≡ l.state
unfolding retry_handler
retry_handler_state l = elim (Bool-cases l.retry) [
  | inl e ↦ rw (retry_handler, e) refl
  | inr e ↦ rw (retry_handler, e) refl
]

-- Every client agrees with the server.
abbrev pub Agrees : System → Type 0
Agrees sys =
    (id : Text) → IsFine sys.server id (state_of (sys.clients id)) (sys.calls id) (sys.holding id)

pub IsFine-found :
    (sys : System) (id : Text) (l : ClientLock) (c : Call)
    → sys.clients id ≡ some l
    → sys.calls id ≡ c
    → Agrees sys
    → IsFine sys.server id l.state c (sys.holding id)
unfolding state_of
IsFine-found sys id l c found call all = let f = all id in rw (found, call) at f

pub set_client-Agrees :
    (sys : System) (id : Text) (l : ClientLock) (c : Call) (h : ℕ)
    → IsFine sys.server id l.state c h
    → Agrees sys
    → Agrees (set_client sys id l c h)
unfolding set_client set state_of
set_client-Agrees sys id l c h f all i = elim (Bool-cases (equal i id)) [
  | inl e ↦ rw (e, equal_sound i id e) f
  | inr e ↦ rw e (all i)
]
