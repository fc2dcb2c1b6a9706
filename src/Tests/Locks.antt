-- ===== src/Tests/Locks.antt =====
-- The lock server with two locks, 1 and 2, that client 7 holds, and sleeping threads for both.
use file_system_yfs.Base.{◌++◌, some, false, ℕ, ◌≡◌, refl, true, [], ◌∷◌}
use file_system_yfs.Locking.{
  LockServer, Thread, State, Reach, init, find_lock, set_lock, status_of, stat, enter, release,
  arrive, acquire, acquires, here, next,
}
use file_system_yfs.Locking.Counted.{count_held, stat-count_held}
use file_system_yfs.Locking.Handover.{signal-lost}

abbrev thread : ℕ → ℕ → Thread
thread clt lid = record { clt = clt; lid = lid }

abbrev two_held : State
two_held = acquire (acquire init (thread 7 1)) (thread 7 2)

two_held-Reach : Reach init two_held
two_held-Reach =
    next (next here (acquires init (thread 7 1)))
      (acquires (acquire init (thread 7 1)) (thread 7 2))

stat-count_held_example : stat two_held.server ≡ count_held two_held.server.lock_map
stat-count_held_example = stat-count_held two_held two_held-Reach

held_lock : status_of (find_lock two_held.server.lock_map 2) ≡ true
unfolding acquire arrive enter find_lock set_lock
held_lock = refl

-- Threads sleep for lock 1 and for lock 2.
abbrev one_asleep : State
one_asleep = acquire two_held (thread 8 1)

abbrev two_asleep : State
two_asleep = acquire one_asleep (thread 9 2)

two_asleep-Reach : Reach init two_asleep
two_asleep-Reach =
    next (next two_held-Reach (acquires two_held (thread 8 1))) (acquires one_asleep (thread 9 2))

asleep : two_asleep.asleep ≡ thread 8 1 ∷ ([] ++ (thread 9 2 ∷ []))
unfolding acquire arrive enter find_lock set_lock
asleep = refl

both_held :
    (status_of (find_lock two_asleep.server.lock_map 1) ≡ true)
    × (status_of (find_lock two_asleep.server.lock_map 2) ≡ true)
    × (two_asleep.signals ≡ 0)
    × (two_asleep.awake ≡ [])
unfolding acquire arrive enter find_lock set_lock
both_held = (refl, refl, refl, refl)

signal-lost_example :
    let sv = (release two_asleep.server (thread 7 1)).0 in
    Reach init (record {
      server = sv;
      asleep = (thread 8 1 ∷ ([] ++ [])) ++ (thread 9 2 ∷ []);
      awake = [];
      signals = 0;
    })
    × (status_of (find_lock sv.lock_map 1) ≡ false)
    × ((sv' : LockServer) × (enter sv (thread 8 1) ≡ some sv'))
signal-lost_example =
    signal-lost two_asleep (thread 7 1) (thread 8 1) (thread 9 2) [] [] two_asleep-Reach both_held.2
      both_held.3 asleep refl refl refl both_held.0 both_held.1
