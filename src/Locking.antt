-- ===== src/Locking.antt =====
-- The lock server of yfs/lock_server.cc: class lock_server, its waiting threads, and the steps that
-- the mutex and the condition variable allow. A client number is the 32 bits of an int.
pub mod Counted
pub mod Handover
use file_system_yfs.Base.{
  ℕ, ◌+◌, ◌-◌, ◌^◌, ◌≡◌, Bool, true, false, Option, none, some, leb, ◌==◌, if◌then◌else◌, List, [],
  ◌∷◌, ◌++◌,
}

-- lock_protocol::xxstatus
pub data LockStatus : Type 0 where
  ok retry rpcerr noent ioerr : LockStatus

pub record LockConfig : Type 0 where
  pub lock_status : Bool
  pub lock_owner : ℕ

pub record Entry : Type 0 where
  pub lid : ℕ
  pub config : LockConfig

-- lock_map.find(lid)
unfoldable pub find_lock : List Entry → ℕ → Option LockConfig
find_lock [] lid = none
find_lock (e ∷ es) lid = if e.lid == lid then some e.config else find_lock es lid

-- lock_map[lid] = config
unfoldable pub set_lock : List Entry → ℕ → LockConfig → List Entry
set_lock [] lid config = record { lid = lid; config = config } ∷ []
set_lock (e ∷ es) lid config =
    if e.lid == lid then record { lid = lid; config = config } ∷ es else e ∷ set_lock es lid config

pub record LockServer : Type 0 where
  pub nacquire : ℕ
  pub lock_map : List Entry

-- A call's client and lock.
pub record Thread : Type 0 where
  pub clt : ℕ
  pub lid : ℕ

-- lock_server::stat
unfoldable pub stat : LockServer → ℕ
stat sv = sv.nacquire

-- clt<0
abbrev pub is_negative : ℕ → Bool
is_negative clt = leb (2 ^ 31) clt

abbrev pub status_of : Option LockConfig → Bool
status_of none = false
status_of (some config) = config.lock_status

-- acquire's test of the lock and what follows; `none` when the thread has to wait. A woken thread
-- comes here again.
unfoldable pub enter : LockServer → Thread → Option LockServer
enter sv t =
    if status_of (find_lock sv.lock_map t.lid)
    then none
    else some (record {
      nacquire = sv.nacquire + 1;
      lock_map = set_lock sv.lock_map t.lid (record { lock_status = true; lock_owner = t.clt });
    })

-- release, whose test of the status does not look at the owner.
unfoldable pub release : LockServer → Thread → LockServer × LockStatus
release sv t =
    if is_negative t.clt then (sv, LockStatus.rpcerr) else (elim (find_lock sv.lock_map t.lid) [
      | none ↦ (sv, LockStatus.noent)
      | some config ↦
          if config.lock_status
          then (
            record {
              nacquire = sv.nacquire - 1;
              lock_map =
                  set_lock sv.lock_map t.lid
                    (record { lock_status = false; lock_owner = config.lock_owner });
            },
            LockStatus.ok,
          )
          else (sv, LockStatus.retry)
    ])

-- The server with the threads that wait on the condition variable, those woken since, and the
-- signals that release has yet to send.
pub record State : Type 0 where
  pub server : LockServer
  pub asleep : List Thread
  pub awake : List Thread
  pub signals : ℕ

abbrev pub init : State
init = record {
  server = record { nacquire = 0; lock_map = [] };
  asleep = [];
  awake = [];
  signals = 0;
}

-- A thread at acquire's test: it gets the lock, or sleeps.
unfoldable pub arrive : State → Thread → State
arrive s t = elim (enter s.server t) [
  | none ↦ record s { asleep = s.asleep ++ (t ∷ []) }
  | some sv ↦ record s { server = sv }
]

-- acquire; it answers RPCERR at once, or OK when the thread gets the lock.
unfoldable pub acquire : State → Thread → State
acquire s t = if is_negative t.clt then s else arrive s t

pub data Step : State → State → Type 0 where
  acquires : (s : State) (t : Thread) → Step s (acquire s t)
  releases :
      (s : State) (t : Thread)
      → Step s (record s {
        server = (release s.server t).0;
        signals = if is_negative t.clt then s.signals else s.signals + 1;
      })
  signal_wakes :
      (s : State) (n : ℕ) (before after : List Thread) (u : Thread)
      → s.signals ≡ n + 1
      → s.asleep ≡ before ++ (u ∷ after)
      → Step s (record s { signals = n; asleep = before ++ after; awake = u ∷ s.awake })
  signal_drops :
      (s : State) (n : ℕ) → s.signals ≡ n + 1 → s.asleep ≡ [] → Step s (record s { signals = n })
  resumes :
      (s : State) (before after : List Thread) (u : Thread)
      → s.awake ≡ before ++ (u ∷ after)
      → Step s (arrive (record s { awake = before ++ after }) u)

pub data Reach (s : State) : State → Type 0 where
  here : Reach s s
  next : {t u : State} → Reach s t → Step t u → Reach s u
