-- ===== src/Locking/Counted.antt =====
-- nacquire is the number of locks that are held.
use file_system_yfs.Base.{
  ℕ, ◌+◌, ◌≡◌, refl, Bool, true, false, ◌==◌, List, [], ◌∷◌, ◌++◌, arith, Bool-cases, Option-cases,
  inl, inr,
}
use file_system_yfs.Locking.{
  LockConfig, Entry, LockServer, Thread, State, Step, Reach, find_lock, set_lock, status_of, enter,
  release, arrive, acquire, init, stat, is_negative, acquires, releases, signal_wakes, signal_drops,
  resumes, here, next,
}

abbrev pub one_if : Bool → ℕ
one_if true = 1
one_if false = 0

unfoldable pub count_held : List Entry → ℕ
count_held [] = 0
count_held (e ∷ es) = one_if e.config.lock_status + count_held es

count_held-set_lock :
    (es : List Entry) (lid : ℕ) (config : LockConfig)
    → count_held (set_lock es lid config) + one_if (status_of (find_lock es lid))
      ≡ count_held es + one_if config.lock_status
unfolding count_held set_lock find_lock
count_held-set_lock [] lid config = omega arith
count_held-set_lock (e ∷ es) lid config = elim (Bool-cases (e.lid == lid)) [
  | inl h ↦ rw h (omega arith)
  | inr h ↦ rw h (omega (arith, count_held-set_lock es lid config))
]

abbrev pub IsCounted : LockServer → Type 0
IsCounted sv = sv.nacquire ≡ count_held sv.lock_map

release-IsCounted : (sv : LockServer) (t : Thread) → IsCounted sv → IsCounted (release sv t).0
unfolding release
release-IsCounted sv t counted = elim (Bool-cases (is_negative t.clt)) [
  | inl n ↦ rw (release, n) counted
  | inr n ↦ elim (Option-cases (find_lock sv.lock_map t.lid)) [
    | inl f ↦ rw (release, n, f) counted
    | inr (config, f) ↦ elim (Bool-cases config.lock_status) [
      | inl h ↦
          let free : LockConfig = record { lock_status = false; lock_owner = config.lock_owner } in
          let held : status_of (find_lock sv.lock_map t.lid) ≡ true = rw f h in
          let change = count_held-set_lock sv.lock_map t.lid free in
          rw (release, n, f, h) (omega (arith, counted, rw held at change))
      | inr h ↦ rw (release, n, f, h) counted
    ]
  ]
]

arrive-IsCounted : (s : State) (t : Thread) → IsCounted s.server → IsCounted (arrive s t).server
unfolding arrive enter
arrive-IsCounted s t counted =
    let locks = s.server.lock_map in
    elim (Bool-cases (status_of (find_lock locks t.lid))) [
      | inl held ↦ rw (arrive, enter, held) counted
      | inr free ↦
          let taken : LockConfig = record { lock_status = true; lock_owner = t.clt } in
          let change = count_held-set_lock locks t.lid taken in
          rw (arrive, enter, free) (omega (arith, counted, rw free at change))
    ]

Step-IsCounted : {s u : State} → Step s u → IsCounted s.server → IsCounted u.server
unfolding acquire
Step-IsCounted (acquires s t) counted = elim (Bool-cases (is_negative t.clt)) [
  | inl n ↦ rw (acquire, n) counted
  | inr n ↦ rw (acquire, n) (arrive-IsCounted s t counted)
]
Step-IsCounted (releases s t) counted = release-IsCounted s.server t counted
Step-IsCounted (signal_wakes s n before after u e h) counted = counted
Step-IsCounted (signal_drops s n e h) counted = counted
Step-IsCounted (resumes s before after u e) counted =
    arrive-IsCounted (record s { awake = before ++ after }) u counted

-- In every state that the lock server gets to, what stat answers is the number of the locks that
-- are held.
pub stat-count_held : (s : State) → Reach init s → stat s.server ≡ count_held s.server.lock_map
unfolding count_held stat
stat-count_held s here = refl
stat-count_held s (next r step) = Step-IsCounted step (stat-count_held _ r)
