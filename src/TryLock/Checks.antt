-- ===== src/TryLock/Checks.antt =====
-- One caller that holds the lock.
use monetarium_explorer.Prelude.{ℕ, ◌≤◌, ◌≡◌, refl, true, false, some, ◌==◌}
use monetarium_explorer.HashSet.{has}
use monetarium_explorer.TryLock.{Mutex, new_mutex, try_at, try_lock_wait, try_lock, unlock}
use monetarium_explorer.TryLock.Holding.{
  MutexReach, unused, locks, MutexReach-exclusive, unlock-MutexReach,
}

abbrev taken_mutex : Mutex
taken_mutex = (try_lock new_mutex).1

taken : MutexReach taken_mutex 1
unfolding try_lock try_lock_wait new_mutex try_at
taken = locks unused refl

MutexReach-exclusive_example : (1 ≤ 1) × ((try_lock taken_mutex).0 ≡ (1 == 0))
MutexReach-exclusive_example = MutexReach-exclusive taken_mutex 1 taken

unlock-MutexReach_example :
    (channel : ℕ) × (t : Mutex) × (try_lock_wait taken_mutex ≡ (true, some channel, taken_mutex))
    × (has channel taken_mutex.closed ≡ false)
    × (unlock taken_mutex ≡ some t)
    × (has channel t.closed ≡ true)
    × ((try_lock t).0 ≡ true)
unlock-MutexReach_example = unlock-MutexReach taken_mutex 0 taken
