-- ===== src/LockClient/Presence.antt =====
-- The checks of the caching lock clients and of the server that always succeed.
use file_system_yfs.Base.{
  ℕ, ◌<◌, ◌≡◌, ◌≢◌, ap, [], Whenever, Whenever-map, Option, none, some, List, ◌∷◌, ◌++◌, inl, inr,
  Bool-cases, Option-cases, Holds, Holds-map, contradiction, arith,
}
use file_system_yfs.Base.Text.{Text, equal}
use file_system_yfs.Locking.{LockStatus}
use file_system_yfs.Caching.{LockProperty, Message}
use file_system_yfs.LockClient.{ClientLock, release, after_release}
use file_system_yfs.LockClient.System.{
  Call, System, init, set, set_client, test, serve_acquire, get_answer, give, serve_release,
  get_released, deliver, Step, Reach, tests, serves, gets_answer, retries, gives, serves_release,
  gets_released, delivers, here, next,
}
use file_system_yfs.LockClient.Exclusion.{Reach-Agrees, give-Agrees, get_released-Agrees}
use file_system_yfs.LockClient.Agreement.{state_of, fits, holders, Agrees}
use file_system_yfs.LockClient.Serving.{serve_release-Agrees}
use file_system_yfs.LockClient.Known.{
  All, append-All, middle-All, map-All, ServerKnows, SentTo, Sends, some_entry, map-Sends,
  acquire_lock-Knows, release_lock-Knows,
}

-- The client has an entry for the lock.
unfoldable pub IsKnown : (Text → Option ClientLock) → Text → Type 0
IsKnown clients id = Holds (λ l. Unit) (clients id)

IsKnown-found :
    (clients : Text → Option ClientLock) (id : Text) (l : ClientLock)
    → clients id ≡ some l
    → IsKnown clients id
unfolding IsKnown Holds
IsKnown-found clients id l found = rw found tt

set-IsKnown :
    (clients : Text → Option ClientLock) (id i : Text) (l : ClientLock)
    → IsKnown clients i
    → IsKnown (set clients id (some l)) i
unfolding IsKnown set Holds
set-IsKnown clients id i l known = elim (Bool-cases (equal i id)) [
  | inl e ↦ rw e tt
  | inr e ↦ rw e known
]

-- Whoever the server knows, or calls, has an entry for the lock.
record AllKnown (sys : System) : Type 0 where
  pub server : ServerKnows (IsKnown sys.clients) sys.server
  pub sent : Sends (IsKnown sys.clients) sys.server sys.sent

map-ServerKnows :
    (P Q : Text → Type 0) (server : Option LockProperty)
    → ((id : Text) → P id → Q id)
    → ServerKnows P server
    → ServerKnows Q server
unfolding ServerKnows
map-ServerKnows P Q none each knows = tt
map-ServerKnows P Q (some s) each (owner, all) =
    (λ e. each s.owner (owner e), map-All P Q s.wait_list each all)

set_client-AllKnown :
    (sys : System) (id : Text) (l : ClientLock) (c : Call) (h : ℕ)
    → AllKnown sys
    → AllKnown (set_client sys id l c h)
unfolding set_client
set_client-AllKnown sys id l c h k =
    let each = λ (i : Text). set-IsKnown sys.clients id i l in
    record {
      server = map-ServerKnows _ _ sys.server each k.server;
      sent = map-Sends _ _ sys.server sys.server sys.sent each (λ e. e) k.sent;
    }

asking-IsKnown :
    (sys : System) (id : Text) → sys.calls id ≡ Call.asking → Agrees sys → IsKnown sys.clients id
unfolding IsKnown Holds state_of fits
asking-IsKnown sys id asks all = elim (Option-cases (sys.clients id)) [
  | inr (l, found) ↦ rw found tt
  | inl missing ↦ let f = all id in contradiction (rw (asks, missing) at f.call)
]

serve_acquire-AllKnown :
    (sys : System) (id : Text)
    → IsKnown sys.clients id
    → AllKnown sys
    → AllKnown (serve_acquire sys id)
unfolding serve_acquire Sends
serve_acquire-AllKnown sys id known k =
    let (knows, sends) = acquire_lock-Knows _ sys.server id known k.server in
    record {
      server = knows;
      sent =
          append-All _ sys.sent _
            (map-Sends _ _ sys.server _ sys.sent (λ i p. p) (λ e. some_entry _) k.sent) sends;
    }

serve_release-AllKnown :
    (sys : System) (id : Text) → AllKnown sys → Whenever AllKnown (serve_release sys id)
unfolding serve_release Whenever Sends
serve_release-AllKnown sys id k = elim (Option-cases sys.server) [
  | inl missing ↦ rw missing tt
  | inr (s, found) ↦
      let (knows, sends) = release_lock-Knows _ s (rw found at k.server) in
      rw found (record {
        server = knows;
        sent =
            append-All _ sys.sent _
              (map-Sends _ _ sys.server _ sys.sent (λ i p. p) (λ e. some_entry _) k.sent) sends;
      })
]

deliver-AllKnown : (sys : System) (m : Message) → AllKnown sys → Whenever AllKnown (deliver sys m)
unfolding deliver Whenever ServerKnows Sends SentTo All
deliver-AllKnown sys (Message.revoke id) k =
    Whenever-map AllKnown _ (sys.clients id) (λ l. set_client-AllKnown sys id _ _ _ k)
deliver-AllKnown sys Message.revoke_owner k = elim (Option-cases sys.server) [
  | inl missing ↦ rw (deliver, missing) tt
  | inr (s, found) ↦
      let (owner, waiting) = rw found at k.server in
      rw (deliver, found)
        (record {
          server = (owner, waiting);
          sent = append-All _ sys.sent _ (rw found at k.sent) (owner, tt);
        })
]
deliver-AllKnown sys (Message.retry id) k =
    Whenever-map AllKnown _ (sys.clients id) (λ l. set_client-AllKnown sys id _ _ _ k)

give-AllKnown :
    (sys : System) (id : Text) (l : ClientLock) → AllKnown sys → Whenever AllKnown (give sys id l)
unfolding give
give-AllKnown sys id l k =
    Whenever-map AllKnown _ (release l) (λ p. set_client-AllKnown sys id p.0 _ _ k)

get_released-AllKnown :
    (sys : System) (id : Text) (l : ClientLock) (ret : LockStatus)
    → AllKnown sys
    → Whenever AllKnown (get_released sys id l ret)
unfolding get_released
get_released-AllKnown sys id l ret k =
    Whenever-map AllKnown _ (after_release l ret) (λ l'. set_client-AllKnown sys id l' _ _ k)

taken-AllKnown :
    (sys : System) (before : List Message) (m : Message) (after : List Message)
    → sys.sent ≡ before ++ m ∷ after
    → AllKnown sys
    → SentTo (IsKnown sys.clients) sys.server m × AllKnown (record sys { sent = before ++ after })
unfolding Sends
taken-AllKnown sys before m after sent k =
    let (known, rest) =
      middle-All (SentTo (IsKnown sys.clients) sys.server) before m after (rw sent at k.sent) in
    (known, record { server = k.server; sent = rest })

Step-AllKnown : {a b : System} → Step a b → Agrees a → AllKnown a → AllKnown b
unfolding test get_answer Whenever
Step-AllKnown (tests sys id) all k = set_client-AllKnown sys id _ _ _ k
Step-AllKnown (serves sys id asks) all k =
    serve_acquire-AllKnown sys id (asking-IsKnown sys id asks all) k
Step-AllKnown (gets_answer sys id l ret found call) all k = set_client-AllKnown sys id _ _ _ k
Step-AllKnown (retries sys id l found call flag) all k = set_client-AllKnown sys id _ _ _ k
Step-AllKnown (gives sys sys' id l pos found e) all k = rw e at (give-AllKnown sys id l k)
Step-AllKnown (serves_release sys sys' id call e) all k = rw e at (serve_release-AllKnown sys id k)
Step-AllKnown (gets_released sys sys' id l ret found call e) all k =
    rw e at (get_released-AllKnown sys id l ret k)
Step-AllKnown (delivers sys sys' before after m sent e) all k = rw e at (
    deliver-AllKnown (record sys { sent = before ++ after }) m
      (taken-AllKnown sys before m after sent k).1)

Reach-AllKnown : (sys : System) → Reach init sys → AllKnown sys
unfolding ServerKnows Sends All
Reach-AllKnown sys here = record { server = tt; sent = tt }
Reach-AllKnown sys (next r step) = Step-AllKnown step (Reach-Agrees _ r) (Reach-AllKnown _ r)

-- The step goes through: no VERIFY(0) stops the program.
abbrev pub Succeeds {ℓ} : {A : Type ℓ} → Option A → Type 0
Succeeds o = Holds (λ a. Unit) o

held-IsKnown : (sys : System) (id : Text) → Agrees sys → 0 < sys.holding id → IsKnown sys.clients id
unfolding IsKnown Holds state_of holders
held-IsKnown sys id all pos = elim (Option-cases (sys.clients id)) [
  | inr (l, found) ↦ rw found tt
  | inl missing ↦ let f = all id in let n = rw missing at f.count in absurd (omega arith)
]

Succeeds-Holds {ℓ} : {A : Type ℓ} (P : A → Type 0) (o : Option A) → Holds P o → Succeeds o
unfolding Holds
Succeeds-Holds P none h = h
Succeeds-Holds P (some a) h = tt

deliver-Succeeds :
    (sys : System) (m : Message)
    → SentTo (IsKnown sys.clients) sys.server m
    → m ≢ Message.revoke []
    → Succeeds (deliver sys m)
unfolding deliver IsKnown SentTo
deliver-Succeeds sys (Message.revoke id) known named =
    Holds-map (λ l. Unit) (λ a. Unit) _ (sys.clients id) (λ l u. tt)
      (known (λ e. named (ap Message.revoke e)))
deliver-Succeeds sys (Message.retry id) known named =
    Holds-map (λ l. Unit) (λ a. Unit) _ (sys.clients id) (λ l u. tt) known
deliver-Succeeds sys Message.revoke_owner known named = elim (Option-cases sys.server) [
  | inl missing ↦ absurd (known missing)
  | inr (s, found) ↦ rw (deliver, found) (unfold Holds in tt)
]

give-Succeeds :
    (sys : System) (id : Text)
    → Agrees sys
    → 0 < sys.holding id
    → Holds (λ l. Succeeds (give sys id l)) (sys.clients id)
unfolding IsKnown Holds
give-Succeeds sys id all pos = elim (Option-cases (sys.clients id)) [
  | inr (l, found) ↦ rw found (Succeeds-Holds Agrees _ (give-Agrees sys id l pos found all))
  | inl missing ↦ absurd (rw missing at (held-IsKnown sys id all pos))
]

-- In every state that the caching clients and the server get to: a holder's release finds the lock
-- locked, the server knows the lock that it is given back, and answers OK; the server finds the
-- lock of which it reads the owner, and each client that it then calls has an entry for the lock.
-- Only a revoke may be for nobody, the owner that is read after the lock was given back.
pub Reach-Succeeds :
    (sys : System)
    → Reach init sys
    → ((id : Text) → 0 < sys.holding id → Holds (λ l. Succeeds (give sys id l)) (sys.clients id))
      × ((id : Text) → sys.calls id ≡ Call.releasing → Succeeds (serve_release sys id))
      × ((id : Text) (l : ClientLock) (ret : LockStatus)
          → sys.clients id ≡ some l
          → sys.calls id ≡ Call.released ret
          → Succeeds (get_released sys id l ret))
      × ((before after : List Message) (m : Message)
          → sys.sent ≡ before ++ m ∷ after
          → m ≢ Message.revoke []
          → Succeeds (deliver (record sys { sent = before ++ after }) m))
Reach-Succeeds sys r =
    let all = Reach-Agrees sys r in
    let k = Reach-AllKnown sys r in
    (
      λ id pos. give-Succeeds sys id all pos,
      λ id call. Succeeds-Holds Agrees _ (serve_release-Agrees sys id call all),
      λ id l ret found call.
          Succeeds-Holds Agrees _ (get_released-Agrees sys id l ret found call all),
      λ before after m sent named.
          deliver-Succeeds _ m (taken-AllKnown sys before m after sent k).0 named,
    )
