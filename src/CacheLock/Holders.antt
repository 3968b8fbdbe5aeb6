-- ===== src/CacheLock/Holders.antt =====
-- The callers that hold the lock of an address.
use mathlib.Core.Path.{subst}
use monetarium_explorer.Prelude.{
  ◌≢◌, ℕ, ◌<◌, ◌≡◌, refl, sym, ◌∙◌, ap, true, false, ◌∷◌, Option, none, some, arith, ◌==◌,
  Bool-cases, inl, inr, if◌then◌else◌, some-injective,
}
use monetarium_explorer.HashSet.{has}
use monetarium_explorer.AssocMap.{lookup, erase, lookup-put, lookup-erase}
use monetarium_explorer.CacheLock.{CacheLock, new_cache_lock, hold, busy, acquired, try_lock, done}

-- A lock that its callers use as they should, with the channel that the holder for each address has:
-- only a holder releases, through the function that it was given, and once.
pub data LockReach : CacheLock → (ℕ → Option ℕ) → Type 0 where
  fresh : LockReach new_cache_lock (λ a. none)
  acquires :
      {cl : CacheLock} {holder : ℕ → Option ℕ} (addr : ℕ)
      → LockReach cl holder
      → lookup addr cl.addrs ≡ none
      → LockReach (try_lock addr cl).1 (λ a. if a == addr then some cl.made else holder a)
  waits :
      {cl : CacheLock} {holder : ℕ → Option ℕ} (addr wait : ℕ)
      → LockReach cl holder
      → lookup addr cl.addrs ≡ some wait
      → LockReach (try_lock addr cl).1 holder
  releases :
      {cl : CacheLock} {t : CacheLock} {holder : ℕ → Option ℕ} (addr channel : ℕ)
      → LockReach cl holder
      → holder addr ≡ some channel
      → done addr channel cl ≡ some t
      → LockReach t (λ a. if a == addr then none else holder a)

-- The map shows the holders; their channels are open and each other's apart.
record IsKept (cl : CacheLock) (holder : ℕ → Option ℕ) : Type 0 where
  shown : (a : ℕ) → lookup a cl.addrs ≡ holder a
  unclosed : (a c : ℕ) → holder a ≡ some c → has c cl.closed ≡ false
  old : (a c : ℕ) → holder a ≡ some c → c < cl.made
  old_closed : (c : ℕ) → has c cl.closed ≡ true → c < cl.made
  apart : (a b c : ℕ) → holder a ≡ some c → holder b ≡ some c → a ≡ b

fresh-IsKept : IsKept new_cache_lock (λ a. none)
unfolding new_cache_lock lookup has
fresh-IsKept = record {
  shown = λ a. refl;
  unclosed = λ a c e. refl;
  old = λ a c e. ground arith;
  old_closed = λ c e. ground arith;
  apart = λ a b c e f. ground arith;
}

hold-IsKept :
    (cl : CacheLock) (holder : ℕ → Option ℕ) (addr : ℕ)
    → lookup addr cl.addrs ≡ none
    → IsKept cl holder
    → IsKept (hold addr cl) (λ a. if a == addr then some cl.made else holder a)
unfolding hold
hold-IsKept cl holder addr absent k = record {
  shown = λ a.
      lookup-put a addr cl.made cl.addrs
      ∙ ap (λ o. if a == addr then some cl.made else o) (k.shown a);
  unclosed = λ a c e. elim (Bool-cases (a == addr)) [
    | inl g ↦
        let same : cl.made ≡ c = some-injective (rw g at e) in
        elim (Bool-cases (has c cl.closed)) [
          | inl h ↦ absurd (omega (arith, same, k.old_closed c h))
          | inr h ↦ h
        ]
    | inr g ↦ k.unclosed a c (rw g at e)
  ];
  old = λ a c e. elim (Bool-cases (a == addr)) [
    | inl g ↦ let same : cl.made ≡ c = some-injective (rw g at e) in omega (arith, same)
    | inr g ↦ omega (arith, k.old a c (rw g at e))
  ];
  old_closed = λ c e. ground (arith, k.old_closed c);
  apart = λ a b c e f. elim (Bool-cases (a == addr)) [
    | inl g ↦
        let same : cl.made ≡ c = some-injective (rw g at e) in
        elim (Bool-cases (b == addr)) [
          | inl h ↦ ground arith
          | inr h ↦ absurd (omega (arith, same, k.old b c (rw h at f)))
        ]
    | inr g ↦ elim (Bool-cases (b == addr)) [
      | inl h ↦
          let same : cl.made ≡ c = some-injective (rw h at f) in
          absurd (omega (arith, same, k.old a c (rw g at e)))
      | inr h ↦ k.apart a b c (rw g at e) (rw h at f)
    ]
  ];
}

done-IsKept :
    (cl : CacheLock) (holder : ℕ → Option ℕ) (addr channel : ℕ)
    → holder addr ≡ some channel
    → IsKept cl holder
    → (t : CacheLock) × (done addr channel cl ≡ some t)
      × IsKept t (λ a. if a == addr then none else holder a)
      × (t.closed ≡ channel ∷ cl.closed)
unfolding done has
done-IsKept cl holder addr channel mine k =
    let open_channel = k.unclosed addr channel mine in
    (
      record cl { addrs = erase addr cl.addrs; closed = channel ∷ cl.closed },
      rw open_channel refl,
      record {
        shown =
            λ a. lookup-erase a addr cl.addrs ∙ ap (λ o. if a == addr then none else o) (k.shown a);
        unclosed = λ a c e. elim (Bool-cases (a == addr)) [
          | inl g ↦ ground arith
          | inr g ↦
              let still = k.unclosed a c (rw g at e) in
              elim (Bool-cases (c == channel)) [
                | inl h ↦
                    let same : c ≡ channel = ground arith in
                    let other : a ≡ addr = k.apart a addr channel (rw (g, same) at e) mine in
                    absurd (ground arith)
                | inr h ↦ rw h still
              ]
        ];
        old = λ a c e. elim (Bool-cases (a == addr)) [
          | inl g ↦ ground arith
          | inr g ↦ k.old a c (rw g at e)
        ];
        old_closed = λ c e. elim (Bool-cases (c == channel)) [
          | inl h ↦
              let same : c ≡ channel = ground arith in omega (arith, same, k.old addr channel mine)
          | inr h ↦ k.old_closed c (rw h at e)
        ];
        apart = λ a b c e f. elim (Bool-cases (a == addr)) [
          | inl g ↦ ground arith
          | inr g ↦ elim (Bool-cases (b == addr)) [
            | inl h ↦ ground arith
            | inr h ↦ k.apart a b c (rw g at e) (rw h at f)
          ]
        ];
      },
      refl,
    )

try_lock-free :
    (cl : CacheLock) (addr : ℕ)
    → lookup addr cl.addrs ≡ none
    → try_lock addr cl ≡ (acquired cl.made, hold addr cl)
unfolding try_lock
try_lock-free cl addr e = rw (e, try_lock) refl

try_lock-held :
    (cl : CacheLock) (addr wait : ℕ)
    → lookup addr cl.addrs ≡ some wait
    → try_lock addr cl ≡ (busy wait, cl)
unfolding try_lock
try_lock-held cl addr wait e = rw (e, try_lock) refl

LockReach-IsKept : {cl : CacheLock} {holder : ℕ → Option ℕ} → LockReach cl holder → IsKept cl holder
LockReach-IsKept fresh = fresh-IsKept
LockReach-IsKept (acquires {cl} {holder} addr r e) =
    rw (try_lock-free cl addr e) (hold-IsKept cl holder addr e (LockReach-IsKept r))
LockReach-IsKept (waits {cl} {holder} addr wait r e) =
    rw (try_lock-held cl addr wait e) (LockReach-IsKept r)
LockReach-IsKept (releases {cl} {t} {holder} addr channel r mine e) =
    let (u, f, k, _) = done-IsKept cl holder addr channel mine (LockReach-IsKept r) in
    subst (λ s. IsKept s (λ a. if a == addr then none else holder a)) (some-injective (sym f ∙ e)) k

-- While a caller holds the lock of an address, TryLock for this address is busy, changes nothing, and
-- gives the holder's channel to wait on; the channel is open, and the holder's release succeeds,
-- closes it, and leaves the address free, so that the next TryLock acquires the lock.
pub try_lock-excludes :
    (cl : CacheLock) (holder : ℕ → Option ℕ) (addr channel : ℕ)
    → LockReach cl holder
    → holder addr ≡ some channel
    → (t : CacheLock) × (try_lock addr cl ≡ (busy channel, cl))
      × (has channel cl.closed ≡ false)
      × (done addr channel cl ≡ some t)
      × (has channel t.closed ≡ true)
      × (try_lock addr t ≡ (acquired t.made, hold addr t))
unfolding has
try_lock-excludes cl holder addr channel r mine =
    let k = LockReach-IsKept r in
    let (t, released, after, shut) = done-IsKept cl holder addr channel mine k in
    let self : (addr == addr) ≡ true = ground arith in
    (
      t,
      try_lock-held cl addr channel (k.shown addr ∙ mine),
      k.unclosed addr channel mine,
      released,
      rw shut (ground arith),
      try_lock-free t addr (after.shown addr ∙ rw self refl),
    )

-- When no caller holds the lock of an address, TryLock acquires it, with a channel that no other
-- holder has and that is open.
pub try_lock-acquires :
    (cl : CacheLock) (holder : ℕ → Option ℕ) (addr : ℕ)
    → LockReach cl holder
    → holder addr ≡ none
    → (try_lock addr cl ≡ (acquired cl.made, hold addr cl))
      × (has cl.made (hold addr cl).closed ≡ false)
      × ((a : ℕ) → holder a ≢ some cl.made)
unfolding hold
try_lock-acquires cl holder addr r absent =
    let k = LockReach-IsKept r in
    (
      try_lock-free cl addr (k.shown addr ∙ absent),
      elim (Bool-cases (has cl.made cl.closed)) [
        | inl h ↦ absurd (omega (arith, k.old_closed cl.made h))
        | inr h ↦ h
      ],
      λ a e. absurd (omega (arith, k.old a cl.made e)),
    )
