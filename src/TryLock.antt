-- ===== src/TryLock.antt =====
-- trylock/trylock.go: Mutex, a lock that can be tried. A channel is the number of channels that were
-- made before it. Lock is a caller that tries, waits for the channel to close and tries again; the
-- time that it sleeps in between is left out, since callers may act in any order.
pub mod Holding
mod Checks
use monetarium_explorer.Prelude.{
  ℕ, ◌+◌, Bool, true, false, not, List, [], ◌∷◌, Option, none, some, if◌then◌else◌,
}
use monetarium_explorer.HashSet.{has}

pub record Mutex : Type 0 where
  pub c : Option ℕ
  pub made : ℕ
  pub closed : List ℕ

-- The zero value.
pub new_mutex : Mutex
new_mutex = record { c = none; made = 0; closed = [] }

-- tryLock, by what `tl.c` is: whether the lock is busy, and the channel to wait on then.
pub try_at : Option ℕ → Mutex → Bool × Option ℕ × Mutex
try_at none tl = (false, none, record tl { c = some tl.made; made = tl.made + 1 })
try_at (some wait) tl = (true, some wait, tl)

pub try_lock_wait : Mutex → Bool × Option ℕ × Mutex
try_lock_wait tl = try_at tl.c tl

-- TryLock
pub try_lock : Mutex → Bool × Mutex
try_lock tl = let (busy, wait, after) = try_lock_wait tl in (not busy, after)

-- Unlock, by what `tl.c` is. Closing the nil channel of a free lock, or a channel that is closed
-- already, panics (`none`).
pub unlock_at : Option ℕ → Mutex → Option Mutex
unlock_at none tl = none
unlock_at (some channel) tl =
    if has channel tl.closed
    then none
    else some (record tl { c = none; closed = channel ∷ tl.closed })

pub unlock : Mutex → Option Mutex
unlock tl = unlock_at tl.c tl
