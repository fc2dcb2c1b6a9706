-- ===== src/LockClient/System.antt =====
-- The caching lock clients of yfs/lock_client_cache.cc with the server of yfs/lock_server_cache.cc, for one
-- lock: what each thread and each call does between two locks of a mutex is one step. Calls between the
-- two are under way until the other side takes them; calls of the clients arrive in any order.
use mathlib.Core.Option
use file_system_yfs.Base.{
  ℕ, ◌+◌, ◌-◌, ◌<◌, ◌≡◌, true, Option, none, some, if◌then◌else◌, List, [], ◌∷◌, ◌++◌,
}
use file_system_yfs.Base.Text.{Text, equal}
use file_system_yfs.Locking.{LockStatus}
use file_system_yfs.Caching.{LockProperty, Message}
use file_system_yfs.Caching
use file_system_yfs.LockClient.{
  ClientLock, Outcome, new_lock, test_acquire, after_acquire, after_retry, release, after_release,
  revoke_handler, retry_handler,
}

-- The call of the server that a client has under way: none, acquire before and after the server took it,
-- the wait for retry that follows, release before and after the server took it.
pub data Call : Type 0 where
  idle asking waiting releasing : Call
  answered released : LockStatus → Call

-- The server's and the clients' entries for the lock, the calls under way, how many callers of each
-- client's acquire hold the lock, and the calls that the server has sent.
pub record System : Type 0 where
  pub server : Option LockProperty
  pub clients : Text → Option ClientLock
  pub calls : Text → Call
  pub holding : Text → ℕ
  pub sent : List Message

abbrev pub init : System
init = record {
  server = none;
  clients = λ id. none;
  calls = λ id. Call.idle;
  holding = λ id. 0;
  sent = [];
}

-- A function with one value changed.
unfoldable pub set {ℓ} : {A : Type ℓ} → (Text → A) → Text → A → Text → A
set f id x = λ i. if equal i id then x else f i

unfoldable pub set_client : System → Text → ClientLock → Call → ℕ → System
set_client sys id l c h = record sys {
  clients = set sys.clients id (some l);
  calls = set sys.calls id c;
  holding = set sys.holding id h;
}

-- The call and the holders after a round's end.
unfoldable pub call_after : Outcome → Call → Call
call_after Outcome.asks c = Call.asking
call_after Outcome.waits c = c
call_after Outcome.waits_retry c = Call.waiting
call_after Outcome.granted c = Call.idle

unfoldable pub holding_after : Outcome → ℕ → ℕ
holding_after Outcome.granted h = h + 1
holding_after _ h = h

-- A thread of a client begins a round of acquire's loop.
unfoldable pub test : System → Text → System
test sys id =
    let (l, out) = test_acquire (Option.get_or (sys.clients id) new_lock) in
    set_client sys id l (call_after out (sys.calls id)) (holding_after out (sys.holding id))

-- The server takes a client's acquire.
unfoldable pub serve_acquire : System → Text → System
serve_acquire sys id =
    let (l, ret, calls) = Caching.acquire_lock (Option.get_or sys.server Caching.new_lock) id in
    record sys {
      server = some l;
      calls = set sys.calls id (Call.answered ret);
      sent = sys.sent ++ calls;
    }

-- A client gets the answer to acquire.
unfoldable pub get_answer : System → Text → ClientLock → LockStatus → System
get_answer sys id l ret =
    let (l', out) = after_acquire l ret in
    set_client sys id l' (call_after out Call.idle) (holding_after out (sys.holding id))

-- A holder calls release.
unfoldable pub give : System → Text → ClientLock → Option System
give sys id l =
    Option.map
      (λ p.
        let (l', calls) = p in
        set_client sys id l' (if calls then Call.releasing else sys.calls id) (sys.holding id - 1))
      (release l)

-- The server takes a client's release; `none` is VERIFY(0).
unfoldable pub serve_release : System → Text → Option System
serve_release sys id =
    Option.map
      (λ s.
        let (l, ret, calls) = Caching.release_lock s in
        record sys {
          server = some l;
          calls = set sys.calls id (Call.released ret);
          sent = sys.sent ++ calls;
        })
      sys.server

-- A client gets the answer to release.
unfoldable pub get_released : System → Text → ClientLock → LockStatus → Option System
get_released sys id l ret =
    Option.map (λ l'. set_client sys id l' Call.idle (sys.holding id)) (after_release l ret)

-- The server reads the owner that it calls, or a client takes a call of the server; `none` is VERIFY(0), of
-- a client whose map has not the lock, or of the server for a call that fails. No client has the
-- empty name that a free lock's owner is.
unfoldable pub deliver : System → Message → Option System
deliver sys (Message.revoke id) =
    Option.map
      (λ l.
        let (l', calls) = revoke_handler l in
        set_client sys id l' (if calls then Call.releasing else sys.calls id) (sys.holding id))
      (sys.clients id)
deliver sys Message.revoke_owner =
    Option.map
      (λ (s : LockProperty). record sys { sent = sys.sent ++ (Message.revoke s.owner ∷ []) })
      sys.server
deliver sys (Message.retry id) =
    Option.map (λ l. set_client sys id (retry_handler l) (sys.calls id) (sys.holding id))
      (sys.clients id)

-- A step of the system. Release is called by holders only.
pub data Step : System → System → Type 0 where
  tests : (sys : System) (id : Text) → Step sys (test sys id)
  serves : (sys : System) (id : Text) → sys.calls id ≡ Call.asking → Step sys (serve_acquire sys id)
  gets_answer :
      (sys : System) (id : Text) (l : ClientLock) (ret : LockStatus)
      → sys.clients id ≡ some l
      → sys.calls id ≡ Call.answered ret
      → Step sys (get_answer sys id l ret)
  retries :
      (sys : System) (id : Text) (l : ClientLock)
      → sys.clients id ≡ some l
      → sys.calls id ≡ Call.waiting
      → l.retry ≡ true
      → Step sys (set_client sys id (after_retry l) Call.idle (sys.holding id))
  gives :
      (sys sys' : System) (id : Text) (l : ClientLock)
      → 0 < sys.holding id
      → sys.clients id ≡ some l
      → give sys id l ≡ some sys'
      → Step sys sys'
  serves_release :
      (sys sys' : System) (id : Text)
      → sys.calls id ≡ Call.releasing
      → serve_release sys id ≡ some sys'
      → Step sys sys'
  gets_released :
      (sys sys' : System) (id : Text) (l : ClientLock) (ret : LockStatus)
      → sys.clients id ≡ some l
      → sys.calls id ≡ Call.released ret
      → get_released sys id l ret ≡ some sys'
      → Step sys sys'
  delivers :
      (sys sys' : System) (before after : List Message) (m : Message)
      → sys.sent ≡ before ++ m ∷ after
      → deliver (record sys { sent = before ++ after }) m ≡ some sys'
      → Step sys sys'

pub data Reach (sys : System) : System → Type 0 where
  here : Reach sys sys
  next : {a b : System} → Reach sys a → Step a b → Reach sys b
