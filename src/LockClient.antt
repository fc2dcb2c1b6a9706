-- ===== src/LockClient.antt =====
-- The caching lock client of yfs/lock_client_cache.cc, for one lock: its entry of lock_map, and what the
-- operations and the handlers of the server's calls do with it, from one lock of the mutex to its release.
pub mod System
mod Agreement
mod Serving
mod Known
pub mod Exclusion
pub mod Presence
use file_system_yfs.Base.{◌≡◌, Bool, true, false, Option, none, some}
use file_system_yfs.Locking.{LockStatus}

-- client_state; `absent` is NONE.
pub data ClientState : Type 0 where
  absent free locked acquiring releasing : ClientState

-- lock_property, without its mutex and condition.
pub record ClientLock : Type 0 where
  pub state : ClientState
  pub revoke : Bool
  pub retry : Bool

-- The entry that acquire makes for a lock that the map has not.
abbrev pub new_lock : ClientLock
new_lock = record { state = ClientState.absent; revoke = false; retry = false }

-- How a round of acquire's loop goes on: it calls the server, waits for any signal, waits for retry, or
-- acquire returns.
pub data Outcome : Type 0 where
  asks waits waits_retry granted : Outcome

-- A round of acquire's loop, up to the call of the server.
unfoldable pub test_acquire : ClientLock → ClientLock × Outcome
test_acquire l = elim l.state [
  | ClientState.absent ↦ (record l { state = ClientState.acquiring }, asks)
  | free ↦ (record l { state = ClientState.locked }, granted)
  | _ ↦ (l, waits)
]

-- The rest of the round, when the server has answered; after any other answer the next round waits.
unfoldable pub after_acquire : ClientLock → LockStatus → ClientLock × Outcome
after_acquire l LockStatus.ok = (record l { state = ClientState.locked }, granted)
after_acquire l LockStatus.retry = (l, waits_retry)
after_acquire l _ = (l, waits)

-- The end of the round that waits for retry, which is set now.
unfoldable pub after_retry : ClientLock → ClientLock
after_retry l = record l { state = ClientState.absent; retry = false }

-- release, and whether it calls the server; `none` is VERIFY(0).
unfoldable pub release : ClientLock → Option (ClientLock × Bool)
release l = elim l.state [
  | locked ↦ elim l.revoke [
    | false ↦ some (record l { state = ClientState.free }, false)
    | true ↦ some (record l { state = ClientState.releasing; revoke = false }, true)
  ]
  | _ ↦ none
]

-- The rest of release and of revoke_handler, when the server has answered; `none` is VERIFY(0).
unfoldable pub after_release : ClientLock → LockStatus → Option ClientLock
after_release l LockStatus.ok = some (record l { state = ClientState.absent })
after_release l _ = none

-- revoke_handler, and whether it calls the server's release.
unfoldable pub revoke_handler : ClientLock → ClientLock × Bool
revoke_handler l = elim l.state [
  | free ↦ (record l { state = ClientState.releasing }, true)
  | _ ↦ (record l { revoke = true }, false)
]

-- retry_handler
unfoldable pub retry_handler : ClientLock → ClientLock
retry_handler l = elim l.retry [ false ↦ record l { retry = true } | true ↦ l ]
