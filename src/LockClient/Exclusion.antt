-- ===== src/LockClient/Exclusion.antt =====
-- At most one caller of acquire holds the lock, over all clients.
use mathlib.Core.Option
use file_system_yfs.Base.{
  ℕ, ◌≤◌, ◌<◌, ◌≡◌, refl, true, Option, none, some, ◌++◌, inl, inr, Option-cases, Holds, Holds-map,
  Whenever, Whenever-map, contradiction, arith,
}
use file_system_yfs.Base.Text.{Text}
use file_system_yfs.Locking.{LockStatus}
use file_system_yfs.Caching.{LockProperty, Message}
use file_system_yfs.LockClient.{
  ClientState, ClientLock, new_lock, after_retry, release, after_release, retry_handler,
}
use file_system_yfs.LockClient.System.{
  Call, System, init, test, get_answer, give, get_released, deliver, Step, Reach, tests, serves,
  gets_answer, retries, gives, serves_release, gets_released, delivers, here, next,
}
use file_system_yfs.LockClient.Agreement.{
  state_of, fits, owns, is_owner, holders, IsFine, test_acquire-IsFine, after_acquire-IsFine,
  after_retry-IsFine, release-IsFine, after_release-IsFine, revoke_handler-IsFine,
  retry_handler_state, Agrees, IsFine-found, set_client-Agrees,
}
use file_system_yfs.LockClient.Serving.{serve_acquire-Agrees, one_owner, serve_release-Agrees}

get_or_state : (o : Option ClientLock) → (Option.get_or o new_lock).state ≡ state_of o
unfolding state_of
get_or_state none = refl
get_or_state (some l) = refl

test-Agrees : (sys : System) (id : Text) → Agrees sys → Agrees (test sys id)
unfolding test
test-Agrees sys id all =
    let l = Option.get_or (sys.clients id) new_lock in
    let f : IsFine sys.server id l.state (sys.calls id) (sys.holding id) =
      rw (get_or_state (sys.clients id)) (all id) in
    set_client-Agrees sys id _ _ _
      (test_acquire-IsFine sys.server id l.state l.revoke l.retry _ _ f) all

pub give-Agrees :
    (sys : System) (id : Text) (l : ClientLock)
    → 0 < sys.holding id
    → sys.clients id ≡ some l
    → Agrees sys
    → Holds Agrees (give sys id l)
unfolding give
give-Agrees sys id l pos found all =
    let f = IsFine-found sys id l (sys.calls id) found refl all in
    Holds-map _ Agrees _ (release l) (λ p g. set_client-Agrees sys id p.0 _ _ g all)
      (release-IsFine sys.server id l.state l.revoke l.retry _ _ f pos)

pub get_released-Agrees :
    (sys : System) (id : Text) (l : ClientLock) (ret : LockStatus)
    → sys.clients id ≡ some l
    → sys.calls id ≡ Call.released ret
    → Agrees sys
    → Holds Agrees (get_released sys id l ret)
unfolding get_released
get_released-Agrees sys id l ret found call all =
    let f = IsFine-found sys id l (Call.released ret) found call all in
    Holds-map _ Agrees _ (after_release l ret) (λ l' g. set_client-Agrees sys id l' _ _ g all)
      (after_release-IsFine sys.server id l.state l.revoke l.retry ret _ f)

deliver-Agrees : (sys : System) (m : Message) → Agrees sys → Whenever Agrees (deliver sys m)
unfolding deliver Whenever retry_handler
deliver-Agrees sys (Message.revoke id) all = elim (Option-cases (sys.clients id)) [
  | inl missing ↦ rw (deliver, missing) tt
  | inr (l, found) ↦
      let f = IsFine-found sys id l (sys.calls id) found refl all in
      rw (deliver, found)
        (set_client-Agrees sys id _ _ _
          (revoke_handler-IsFine sys.server id l.state l.revoke l.retry _ _ f) all)
]
deliver-Agrees sys (Message.retry id) all = elim (Option-cases (sys.clients id)) [
  | inl missing ↦ rw (deliver, missing) tt
  | inr (l, found) ↦
      let f = IsFine-found sys id l (sys.calls id) found refl all in
      rw (deliver, found)
        (set_client-Agrees sys id (retry_handler l) _ _ (rw (retry_handler_state l) f) all)
]
deliver-Agrees sys Message.revoke_owner all = Whenever-map Agrees _ sys.server (λ s. all)

Step-Agrees : {a b : System} → Step a b → Agrees a → Agrees b
unfolding get_answer Holds Whenever
Step-Agrees (tests sys id) all = test-Agrees sys id all
Step-Agrees (serves sys id asks) all = serve_acquire-Agrees sys id asks all
Step-Agrees (gets_answer sys id l ret found call) all =
    set_client-Agrees sys id _ _ _
      (after_acquire-IsFine sys.server id l.state l.revoke l.retry ret _
        (IsFine-found sys id l (Call.answered ret) found call all))
      all
Step-Agrees (retries sys id l found call flag) all =
    set_client-Agrees sys id (after_retry l) _ _
      (after_retry-IsFine sys.server id l.state l.revoke l.retry _
        (IsFine-found sys id l Call.waiting found call all))
      all
Step-Agrees (gives sys sys' id l pos found e) all = rw e at (give-Agrees sys id l pos found all)
Step-Agrees (serves_release sys sys' id call e) all = rw e at (serve_release-Agrees sys id call all)
Step-Agrees (gets_released sys sys' id l ret found call e) all =
    rw e at (get_released-Agrees sys id l ret found call all)
Step-Agrees (delivers sys sys' before after m sent e) all =
    rw e at (deliver-Agrees (record sys { sent = before ++ after }) m all)

pub Reach-Agrees : (sys : System) → Reach init sys → Agrees sys
unfolding state_of fits owns holders
Reach-Agrees sys here = λ id. record { call = refl; owner = λ e. contradiction e; count = refl }
Reach-Agrees sys (next r step) = Step-Agrees step (Reach-Agrees _ r)

holder_owns :
    (server : Option LockProperty) (id : Text) (st : ClientState) (c : Call) (h : ℕ)
    → IsFine server id st c h
    → (h ≤ 1) × (0 < h → is_owner server id ≡ true)
unfolding holders owns
holder_owns server id ClientState.locked c h f =
    let n = f.count in (omega arith, λ pos. f.owner refl)
holder_owns server id st c h f = let n = f.count in (omega arith, λ pos. absurd (omega arith))

-- In every state that the caching clients and the server get to, at most one caller of acquire
-- holds the lock: no client has two, and no two clients have one each.
pub Reach-one_holder :
    (sys : System) (i j : Text)
    → Reach init sys
    → (sys.holding i ≤ 1) × (0 < sys.holding i → 0 < sys.holding j → i ≡ j)
Reach-one_holder sys i j r =
    let all = Reach-Agrees sys r in
    let (one, mine) = holder_owns _ _ _ _ _ (all i) in
    let (_, other) = holder_owns _ _ _ _ _ (all j) in
    (one, λ pos pos'. one_owner sys.server i j (mine pos) (other pos'))
