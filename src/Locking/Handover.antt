-- ===== src/Locking/Handover.antt =====
-- Who gets a lock after a release, and what a signal does.
use file_system_yfs.Base.{
  ap, ℕ, ◌+◌, ◌-◌, ◌≡◌, ◌⊎◌, refl, true, false, none, some, ◌==◌, ==_self, if◌then◌else◌, List, [],
  ◌∷◌, ◌++◌, arith, Bool-cases, Option-cases, inl, inr,
}
use file_system_yfs.Locking.{
  LockStatus, LockConfig, Entry, LockServer, Thread, State, Reach, find_lock, set_lock, status_of,
  enter, release, arrive, is_negative, signal_wakes, releases, resumes, init, next,
}

pub find_lock-set_lock :
    (es : List Entry) (lid other : ℕ) (config : LockConfig)
    → find_lock (set_lock es lid config) other
      ≡ (if lid == other then some config else find_lock es other)
unfolding set_lock find_lock
find_lock-set_lock [] lid other config = refl
find_lock-set_lock (e ∷ es) lid other config = elim (Bool-cases (e.lid == lid)) [
  | inl h ↦ elim (Bool-cases (lid == other)) [
    | inl k ↦ rw (h, k) refl
    | inr k ↦ let apart : (e.lid == other) ≡ false = ground arith in rw (h, k, apart) refl
  ]
  | inr h ↦ elim (Bool-cases (e.lid == other)) [
    | inl k ↦ let apart : (lid == other) ≡ false = ground arith in rw (h, find_lock, k, apart) refl
    | inr k ↦ rw (h, find_lock, k) (find_lock-set_lock es lid other config)
  ]
]

-- At acquire's test a thread waits when the lock is held; otherwise it gets the lock, which is then held
-- in its name, all other locks being as they were.
enter-find_lock :
    (sv : LockServer) (t : Thread)
    → ((status_of (find_lock sv.lock_map t.lid) ≡ true) × (enter sv t ≡ none))
      ⊎ ((status_of (find_lock sv.lock_map t.lid) ≡ false)
          × (sv' : LockServer) × (enter sv t ≡ some sv')
          × (find_lock sv'.lock_map t.lid
              ≡ some (record { lock_status = true; lock_owner = t.clt }))
          × ((other : ℕ)
              → (t.lid == other) ≡ false
              → find_lock sv'.lock_map other ≡ find_lock sv.lock_map other))
unfolding enter
enter-find_lock sv t =
    let taken : LockConfig = record { lock_status = true; lock_owner = t.clt } in
    elim (Bool-cases (status_of (find_lock sv.lock_map t.lid))) [
      | inl held ↦ inl (held, rw held refl)
      | inr free ↦ inr (
        free,
        record { nacquire = sv.nacquire + 1; lock_map = set_lock sv.lock_map t.lid taken },
        rw free refl,
        rw (find_lock-set_lock sv.lock_map t.lid t.lid taken, ==_self t.lid) refl,
        λ other ne. rw (find_lock-set_lock sv.lock_map t.lid other taken, ne) refl,
      )
    ]

enter_free :
    (sv : LockServer) (t : Thread)
    → status_of (find_lock sv.lock_map t.lid) ≡ false
    → (sv' : LockServer) × (enter sv t ≡ some sv')
unfolding enter
enter_free sv t free = (
  record {
    nacquire = sv.nacquire + 1;
    lock_map = set_lock sv.lock_map t.lid (record { lock_status = true; lock_owner = t.clt });
  },
  rw free refl,
)

-- A held lock is given up by a release of any client, whether it is the owner or not, and the thread that
-- comes next gets it.
enter-release :
    (sv : LockServer) (t next_thread : Thread)
    → is_negative t.clt ≡ false
    → next_thread.lid ≡ t.lid
    → status_of (find_lock sv.lock_map t.lid) ≡ true
    → ((release sv t).1 ≡ LockStatus.ok)
      × (enter sv next_thread ≡ none)
      × (sv' : LockServer) × (enter (release sv t).0 next_thread ≡ some sv')
unfolding enter release
enter-release sv t next_thread valid same held = elim (Option-cases (find_lock sv.lock_map t.lid)) [
  | inl f ↦ absurd (ground arith)
  | inr (config, f) ↦
      let free : LockConfig = record { lock_status = false; lock_owner = config.lock_owner } in
      let status : config.lock_status ≡ true = rw f at held in
      let after = find_lock-set_lock sv.lock_map t.lid t.lid free in
      let freed : LockServer = record {
        nacquire = sv.nacquire - 1;
        lock_map = set_lock sv.lock_map t.lid free;
      } in
      let released : release sv t ≡ (freed, LockStatus.ok) = rw (release, valid, f, status) refl in
      let waits : enter sv next_thread ≡ none = rw (enter, same, held) refl in
      let (sv', enters) = enter_free freed next_thread (rw (same, after, ==_self t.lid) refl) in
      rw released (refl, waits, sv', enters)
]

-- A release of a held lock frees it, and no other.
release_frees :
    (sv : LockServer) (t : Thread)
    → is_negative t.clt ≡ false
    → status_of (find_lock sv.lock_map t.lid) ≡ true
    → (status_of (find_lock (release sv t).0.lock_map t.lid) ≡ false)
      × ((other : ℕ)
          → (t.lid == other) ≡ false
          → find_lock (release sv t).0.lock_map other ≡ find_lock sv.lock_map other)
unfolding release
release_frees sv t valid held = elim (Option-cases (find_lock sv.lock_map t.lid)) [
  | inl f ↦ absurd (ground arith)
  | inr (config, f) ↦
      let free : LockConfig = record { lock_status = false; lock_owner = config.lock_owner } in
      let status : config.lock_status ≡ true = rw f at held in
      rw (release, valid, f, status)
        (
          rw (find_lock-set_lock sv.lock_map t.lid t.lid free, ==_self t.lid) refl,
          λ other ne. rw (find_lock-set_lock sv.lock_map t.lid other free, ne) refl,
        )
]

-- A signal can be lost. In a state that the server gets to, with no signal pending and no thread
-- awake, a thread w sleeps for a lock that is held, and a thread u for another one, which is held
-- too. When the first lock is released, the server can get to a state in which it is free, but w
-- sleeps, with no signal pending and no thread awake, though w would get it at once.
pub signal-lost :
    (s : State) (t w u : Thread) (before after : List Thread)
    → Reach init s
    → s.signals ≡ 0
    → s.awake ≡ []
    → s.asleep ≡ w ∷ (before ++ (u ∷ after))
    → is_negative t.clt ≡ false
    → w.lid ≡ t.lid
    → (t.lid == u.lid) ≡ false
    → status_of (find_lock s.server.lock_map t.lid) ≡ true
    → status_of (find_lock s.server.lock_map u.lid) ≡ true
    → let sv = (release s.server t).0 in
      Reach init (record {
        server = sv;
        asleep = (w ∷ (before ++ after)) ++ (u ∷ []);
        awake = [];
        signals = 0;
      })
      × (status_of (find_lock sv.lock_map t.lid) ≡ false)
      × ((sv' : LockServer) × (enter sv w ≡ some sv'))
unfolding arrive enter
signal-lost s t w u before after reached none_pending none_awake sleeping valid same ne held
      held_u =
    let (free, others) = release_frees s.server t valid held in
    let sv = (release s.server t).0 in
    let released : State = record s { server = sv; signals = s.signals + 1 } in
    let woken : State = record {
      server = sv;
      asleep = w ∷ (before ++ after);
      awake = u ∷ [];
      signals = 0;
    } in
    let one : Reach init released = rw valid at (next reached (releases s t)) in
    let two : Reach init woken = rw none_awake at (
      next one
        (signal_wakes released 0 (w ∷ before) after u (ap (λ n. n + 1) none_pending) sleeping)) in
    let stuck : enter sv u ≡ none = rw (enter, others u.lid ne, held_u) refl in
    let three = next two (resumes woken [] [] u refl) in
    (rw (arrive, stuck) at three, free, enter_free sv w (rw same free))
