-- ===== src/Tests/LockClients.antt =====
-- A caching lock client a that holds the lock, and a client b that asks for it.
use file_system_yfs.Base.{◌≤◌, ◌<◌, ◌≡◌, ◌≢◌, refl, false, some, List, [], ◌∷◌, ◌++◌, Holds}
use file_system_yfs.Base.Text.{Text, equal}
use file_system_yfs.Locking.{LockStatus}
use file_system_yfs.Caching.{Message}
use file_system_yfs.Caching
use file_system_yfs.LockClient.{ClientState, ClientLock, test_acquire, after_acquire}
use file_system_yfs.LockClient.System.{
  Call, System, init, set, set_client, call_after, holding_after, test, serve_acquire, get_answer,
  give, serve_release, get_released, deliver, Reach, tests, serves, gets_answer, here, next,
}
use file_system_yfs.LockClient.Exclusion.{Reach-one_holder}
use file_system_yfs.LockClient.Presence.{Succeeds, Reach-Succeeds}

abbrev a : Text
a = b'a' ∷ []

abbrev b : Text
b = b'b' ∷ []

abbrev acquiring : ClientLock
acquiring = record { state = ClientState.acquiring; revoke = false; retry = false }

abbrev asked : System
asked = serve_acquire (test init a) a

abbrev held : System
held = get_answer asked a acquiring LockStatus.ok

abbrev awaited : System
awaited = serve_acquire (test held b) b

Reach-held : Reach init held
unfolding test set_client set equal call_after test_acquire serve_acquire Caching.acquire_lock
Reach-held =
    next (next (next here (tests init a)) (serves (test init a) a refl))
      (gets_answer asked a acquiring LockStatus.ok refl refl)

Reach-awaited : Reach init awaited
unfolding test set_client set equal call_after test_acquire get_answer serve_acquire
Reach-awaited = next (next Reach-held (tests held b)) (serves (test held b) b refl)

Reach-one_holder_example : (held.holding a ≤ 1) × (0 < held.holding a → 0 < held.holding b → a ≡ b)
Reach-one_holder_example = Reach-one_holder held a b Reach-held

Reach-Succeeds_example :
    ((id : Text)
      → 0 < awaited.holding id
      → Holds (λ l. Succeeds (give awaited id l)) (awaited.clients id))
    × ((id : Text) → awaited.calls id ≡ Call.releasing → Succeeds (serve_release awaited id))
    × ((id : Text) (l : ClientLock) (ret : LockStatus)
        → awaited.clients id ≡ some l
        → awaited.calls id ≡ Call.released ret
        → Succeeds (get_released awaited id l ret))
    × ((before after : List Message) (m : Message)
        → awaited.sent ≡ before ++ m ∷ after
        → m ≢ Message.revoke []
        → Succeeds (deliver (record awaited { sent = before ++ after }) m))
Reach-Succeeds_example = Reach-Succeeds awaited Reach-awaited

-- The holder has one, and the server has called it back.
awaited_holder : awaited.holding a ≡ 1
unfolding serve_acquire test set_client set equal get_answer holding_after after_acquire
    test_acquire
awaited_holder = refl

awaited_sent : awaited.sent ≡ Message.revoke_owner ∷ []
unfolding serve_acquire test set_client get_answer Caching.acquire_lock
awaited_sent = refl
