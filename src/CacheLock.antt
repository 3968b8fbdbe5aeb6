-- ===== src/CacheLock.antt =====
-- db/cache/addresscache.go: CacheLock, the try-lock that lets one caller at a time update the cached
-- data of an address. A channel is the number of channels that were made before it; it carries no
-- values, and is open until the function that TryLock returns to its holder closes it.
pub mod Holders
mod Checks
use monetarium_explorer.Prelude.{
  ℕ, ◌+◌, Bool, true, false, List, [], ◌∷◌, Option, none, some, if◌then◌else◌,
}
use monetarium_explorer.HashSet.{has}
use monetarium_explorer.AssocMap.{lookup, put, erase}

pub record CacheLock : Type 0 where
  pub addrs : List (ℕ × ℕ)
  pub made : ℕ
  pub closed : List ℕ

pub new_cache_lock : CacheLock
new_cache_lock = record { addrs = []; made = 0; closed = [] }

-- hold. The channel of the function that it returns is the one that it makes.
pub hold : ℕ → CacheLock → CacheLock
hold addr cl = record cl { addrs = put addr cl.made cl.addrs; made = cl.made + 1 }

-- TryLock: whether the lock is busy, the channel to wait on, and, when it is not busy, the channel
-- that the caller now holds.
pub data Attempt : Type 0 where
  busy : ℕ → Attempt
  acquired : ℕ → Attempt

pub try_lock : ℕ → CacheLock → Attempt × CacheLock
try_lock addr cl = elim (lookup addr cl.addrs) [
  | none ↦ (acquired cl.made, hold addr cl)
  | some wait ↦ (busy wait, cl)
]

-- The function that a holder calls to release the lock. Closing a closed channel panics (`none`).
pub done : ℕ → ℕ → CacheLock → Option CacheLock
done addr channel cl =
    if has channel cl.closed
    then none
    else some (record cl { addrs = erase addr cl.addrs; closed = channel ∷ cl.closed })
