-- ===== src/Caching.antt =====
-- The caching lock server of yfs/lock_server_cache.cc. Its calls of the clients, revoke and retry, are
-- the messages that an operation answers, and are made later.
pub mod Waiting
use mathlib.Core.Option
use file_system_yfs.Base.{
  ℕ, ◌+◌, ◌≡◌, Bool, true, false, ◌&&◌, ◌||◌, Option, none, some, ltb, ◌==◌, if◌then◌else◌, List,
  [], ◌∷◌,
}
use file_system_yfs.Base.Text.{Text, equal}
use file_system_yfs.Locking.{LockStatus}

-- std::set<std::string>, in its order.
unfoldable pub is_before : Text → Text → Bool
is_before s [] = false
is_before [] (d ∷ t) = true
is_before (c ∷ s) (d ∷ t) = ltb c d || ((c == d) && is_before s t)

unfoldable pub insert : Text → List Text → List Text
insert id [] = id ∷ []
insert id (w ∷ ws) =
    if equal id w then w ∷ ws else if is_before id w then id ∷ w ∷ ws else w ∷ insert id ws

unfoldable pub erase : Text → List Text → List Text
erase id [] = []
erase id (w ∷ ws) = if equal id w then erase id ws else w ∷ erase id ws

unfoldable pub contains : Text → List Text → Bool
contains id [] = false
contains id (w ∷ ws) = equal id w || contains id ws

-- lock_property
pub record LockProperty : Type 0 where
  pub state : Bool
  pub owner : Text
  pub wait_list : List Text
  pub revoke : Bool

abbrev pub new_lock : LockProperty
new_lock = record { state = false; owner = []; wait_list = []; revoke = false }

-- rlock_protocol::rpc_numbers, with the client that is called; and a call of revoke for which acquire still
-- has to read the owner, after it gave the lock's mutex up.
pub data Message : Type 0 where
  revoke retry : Text → Message
  revoke_owner : Message

-- What acquire does with the lock's property before it gives the mutex up.
unfoldable pub acquire_lock : LockProperty → Text → LockProperty × LockStatus × List Message
acquire_lock l id =
    if l.state
    then (if l.revoke
        then (record l { wait_list = insert id l.wait_list }, LockStatus.retry, [])
        else (
          record l { wait_list = insert id l.wait_list; revoke = true },
          LockStatus.retry,
          revoke_owner ∷ [],
        ))
    else (
      record { state = true; owner = id; wait_list = erase id l.wait_list; revoke = false },
      LockStatus.ok,
      [],
    )

-- Whom release calls: the first waiting client, twice if there are others.
unfoldable pub calls_of : List Text → List Message
calls_of [] = []
calls_of (w ∷ []) = retry w ∷ []
calls_of (w ∷ w' ∷ ws) = retry w ∷ revoke w ∷ []

unfoldable pub release_lock : LockProperty → LockProperty × LockStatus × List Message
release_lock l = (
  record { state = false; owner = []; wait_list = l.wait_list; revoke = false },
  LockStatus.ok,
  calls_of l.wait_list,
)

pub record CachingServer : Type 0 where
  pub nacquire : ℕ
  pub lock_map : ℕ → Option LockProperty

-- The constructor, which leaves nacquire as memory has it.
abbrev pub init : ℕ → CachingServer
init junk = record { nacquire = junk; lock_map = λ lid. none }

unfoldable pub set_lock : CachingServer → ℕ → LockProperty → CachingServer
set_lock sv lid l = record sv { lock_map = λ i. if i == lid then some l else sv.lock_map i }

-- lock_server_cache::acquire
unfoldable pub acquire : CachingServer → ℕ → Text → CachingServer × LockStatus × List Message
acquire sv lid id =
    let (l, ret, calls) = acquire_lock (Option.get_or (sv.lock_map lid) new_lock) id in
    (set_lock (record sv { nacquire = sv.nacquire + 1 }) lid l, ret, calls)

-- lock_server_cache::release; `none` is VERIFY(0), for a lock that was never acquired.
unfoldable pub release : CachingServer → ℕ → Option (CachingServer × LockStatus × List Message)
release sv lid = elim (sv.lock_map lid) [
  | none ↦ none
  | some l ↦ let (l', ret, calls) = release_lock l in some (set_lock sv lid l', ret, calls)
]

-- lock_server_cache::stat
unfoldable pub stat : CachingServer → ℕ
stat sv = sv.nacquire

pub data Step : CachingServer → CachingServer → Type 0 where
  acquires : (sv : CachingServer) (lid : ℕ) (id : Text) → Step sv (acquire sv lid id).0
  releases :
      (sv : CachingServer) (lid : ℕ) (l : LockProperty)
      → sv.lock_map lid ≡ some l
      → Step sv (set_lock sv lid (release_lock l).0)

pub data Reach (sv : CachingServer) : CachingServer → Type 0 where
  here : Reach sv sv
  next : {a b : CachingServer} → Reach sv a → Step a b → Reach sv b
