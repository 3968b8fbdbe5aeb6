-- ===== src/CacheLock/Checks.antt =====
-- One caller that holds the lock of address 7.
use monetarium_explorer.Prelude.{
  ℕ, ◌≡◌, ◌≢◌, refl, true, false, Option, none, some, ◌==◌, if◌then◌else◌,
}
use monetarium_explorer.HashSet.{has}
use monetarium_explorer.AssocMap.{lookup}
use monetarium_explorer.CacheLock.{CacheLock, new_cache_lock, hold, busy, acquired, try_lock, done}
use monetarium_explorer.CacheLock.Holders.{
  LockReach, fresh, acquires, try_lock-excludes, try_lock-acquires,
}

abbrev held_lock : CacheLock
held_lock = (try_lock 7 new_cache_lock).1

abbrev caller : ℕ → Option ℕ
caller a = if a == 7 then some new_cache_lock.made else none

held : LockReach held_lock caller
unfolding new_cache_lock lookup
held = acquires 7 fresh refl

try_lock-excludes_example :
    (t : CacheLock) × (try_lock 7 held_lock ≡ (busy 0, held_lock))
    × (has 0 held_lock.closed ≡ false)
    × (done 7 0 held_lock ≡ some t)
    × (has 0 t.closed ≡ true)
    × (try_lock 7 t ≡ (acquired t.made, hold 7 t))
unfolding new_cache_lock
try_lock-excludes_example = try_lock-excludes held_lock caller 7 0 held refl

try_lock-acquires_example :
    (try_lock 8 held_lock ≡ (acquired held_lock.made, hold 8 held_lock))
    × (has held_lock.made (hold 8 held_lock).closed ≡ false)
    × ((a : ℕ) → caller a ≢ some held_lock.made)
try_lock-acquires_example = try_lock-acquires held_lock caller 8 held refl
