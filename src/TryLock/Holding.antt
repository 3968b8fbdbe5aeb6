-- ===== src/TryLock/Holding.antt =====
-- How many callers hold the lock.

use mathlib.Core.Path.{subst}
use monetarium_explorer.Prelude.{
  ℕ, suc, ◌+◌, ◌<◌, ◌≤◌, ◌≡◌, refl, sym, ◌∙◌, ap, true, false, not, ◌∷◌, Option, none, some, ◌==◌,
  arith, Option-cases, inl, inr, some-injective,
}
use monetarium_explorer.HashSet.{has}
use monetarium_explorer.TryLock.{
  Mutex, new_mutex, try_at, try_lock_wait, try_lock, unlock_at, unlock,
}

-- A lock with the number of callers that hold it. A caller holds it from a TryLock that returns true,
-- or the return of Lock, until it calls Unlock; nobody else calls Unlock.
pub data MutexReach : Mutex → ℕ → Type 0 where
  unused : MutexReach new_mutex 0
  locks :
      {tl : Mutex} {n : ℕ}
      → MutexReach tl n
      → (try_lock tl).0 ≡ true
      → MutexReach (try_lock tl).1 (suc n)
  fails :
      {tl : Mutex} {n : ℕ}
      → MutexReach tl n
      → (try_lock tl).0 ≡ false
      → MutexReach (try_lock tl).1 n
  unlocks :
      {tl : Mutex} {t : Mutex} {n : ℕ} → MutexReach tl (suc n) → unlock tl ≡ some t → MutexReach t n

-- A free lock has no holder, a taken one has one.
abbrev holders_of : Option ℕ → ℕ
holders_of none = 0
holders_of (some channel) = 1

try_lock-free :
    (tl : Mutex)
    → tl.c ≡ none
    → try_lock tl ≡ (true, record tl { c = some tl.made; made = tl.made + 1 })
unfolding try_lock try_lock_wait try_at
try_lock-free tl e = ap (λ o. let (busy, wait, after) = try_at o tl in (not busy, after)) e

try_lock-taken : (tl : Mutex) (channel : ℕ) → tl.c ≡ some channel → try_lock tl ≡ (false, tl)
unfolding try_lock try_lock_wait try_at
try_lock-taken tl channel e = ap (λ o. let (busy, wait, after) = try_at o tl in (not busy, after)) e

unlock-taken :
    (tl : Mutex) (channel : ℕ)
    → tl.c ≡ some channel
    → has channel tl.closed ≡ false
    → unlock tl ≡ some (record tl { c = none; closed = channel ∷ tl.closed })
unfolding unlock unlock_at
unlock-taken tl channel e open_yet = ap (λ o. unlock_at o tl) e ∙ rw open_yet refl

unlock-free : (tl : Mutex) → tl.c ≡ none → unlock tl ≡ none
unfolding unlock unlock_at
unlock-free tl e = ap (λ o. unlock_at o tl) e

-- A closed channel was made earlier than any channel to come, and than the one that is waited on.
record IsFresh (tl : Mutex) : Type 0 where
  below : (k : ℕ) → tl.made ≤ k → has k tl.closed ≡ false
  open_yet : (k : ℕ) → tl.c ≡ some k → has k tl.closed ≡ false
  made_yet : (k : ℕ) → tl.c ≡ some k → k < tl.made

freed-IsFresh :
    (tl : Mutex) (channel : ℕ)
    → tl.c ≡ some channel
    → IsFresh tl
    → IsFresh (record tl { c = none; closed = channel ∷ tl.closed })
unfolding has
freed-IsFresh tl channel e w = record {
  below = λ k l.
      let older = w.made_yet channel e in
      let other = w.below k l in let apart : (k == channel) ≡ false = ground arith in ground arith;
  open_yet = λ k f. absurd (ground arith);
  made_yet = λ k f. absurd (ground arith);
}

MutexReach-IsFresh : {tl : Mutex} {n : ℕ} → MutexReach tl n → IsFresh tl
unfolding new_mutex has
MutexReach-IsFresh unused = record {
  below = λ k l. refl;
  open_yet = λ k f. absurd (ground arith);
  made_yet = λ k f. absurd (ground arith);
}
MutexReach-IsFresh (locks {tl} {n} r e) = elim (Option-cases tl.c) [
  | inl f ↦
      let w = MutexReach-IsFresh r in
      subst IsFresh (sym (ap (λ p. p.1) (try_lock-free tl f))) (record {
        below = λ k l. w.below k (omega arith);
        open_yet = λ k g. w.below k (omega (arith, some-injective g));
        made_yet = λ k g. omega (arith, some-injective g);
      })
  | inr (channel, f) ↦
      subst IsFresh (sym (ap (λ p. p.1) (try_lock-taken tl channel f))) (MutexReach-IsFresh r)
]
MutexReach-IsFresh (fails {tl} {n} r e) = elim (Option-cases tl.c) [
  | inl f ↦ let locked = sym e ∙ ap (λ p. p.0) (try_lock-free tl f) in absurd (ground arith)
  | inr (channel, f) ↦
      subst IsFresh (sym (ap (λ p. p.1) (try_lock-taken tl channel f))) (MutexReach-IsFresh r)
]
MutexReach-IsFresh (unlocks {tl} {t} {n} r e) = elim (Option-cases tl.c) [
  | inl f ↦ absurd (ground (arith, sym e ∙ unlock-free tl f))
  | inr (channel, f) ↦
      let w = MutexReach-IsFresh r in
      subst IsFresh (some-injective (sym (unlock-taken tl channel f (w.open_yet channel f)) ∙ e))
        (freed-IsFresh tl channel f w)
]

MutexReach-counts : {tl : Mutex} {n : ℕ} → MutexReach tl n → n ≡ holders_of tl.c
unfolding new_mutex
MutexReach-counts unused = refl
MutexReach-counts (locks {tl} {n} r e) = elim (Option-cases tl.c) [
  | inl f ↦
      ap suc (MutexReach-counts r ∙ ap holders_of f)
      ∙ sym (ap (λ p. holders_of p.1.c) (try_lock-free tl f))
  | inr (channel, f) ↦
      let no_lock = sym e ∙ ap (λ p. p.0) (try_lock-taken tl channel f) in absurd (ground arith)
]
MutexReach-counts (fails {tl} {n} r e) = elim (Option-cases tl.c) [
  | inl f ↦ let locked = sym e ∙ ap (λ p. p.0) (try_lock-free tl f) in absurd (ground arith)
  | inr (channel, f) ↦
      MutexReach-counts r ∙ sym (ap (λ p. holders_of p.1.c) (try_lock-taken tl channel f))
]
MutexReach-counts (unlocks {tl} {t} {n} r e) = elim (Option-cases tl.c) [
  | inl f ↦ let one = MutexReach-counts r ∙ ap holders_of f in absurd (omega (arith, one))
  | inr (channel, f) ↦
      let one = MutexReach-counts r ∙ ap holders_of f in
      let after =
        some-injective
          (sym e ∙ unlock-taken tl channel f ((MutexReach-IsFresh r).open_yet channel f)) in
      let zero_left : n ≡ 0 = omega (arith, one) in zero_left ∙ sym (ap (λ u. holders_of u.c) after)
]

-- At most one caller holds the lock, after any sequence of tries and unlocks, and TryLock returns true
-- exactly when nobody holds it.
pub MutexReach-exclusive :
    (tl : Mutex) (n : ℕ) → MutexReach tl n → (n ≤ 1) × ((try_lock tl).0 ≡ (n == 0))
MutexReach-exclusive tl n r = elim (Option-cases tl.c) [
  | inl f ↦
      let none_yet = MutexReach-counts r ∙ ap holders_of f in
      let free = ap (λ p. p.0) (try_lock-free tl f) in
      (omega (arith, none_yet), free ∙ ground arith)
  | inr (channel, f) ↦
      let one = MutexReach-counts r ∙ ap holders_of f in
      let taken = ap (λ p. p.0) (try_lock-taken tl channel f) in
      (omega (arith, one), taken ∙ ground arith)
]

-- The holder's Unlock does not panic, neither for a nil channel nor for one that is closed already: the
-- channel that the others wait on is open until then. Unlock closes it, and the next TryLock succeeds.
pub unlock-MutexReach :
    (tl : Mutex) (n : ℕ)
    → MutexReach tl (suc n)
    → (channel : ℕ) × (t : Mutex) × (try_lock_wait tl ≡ (true, some channel, tl))
      × (has channel tl.closed ≡ false)
      × (unlock tl ≡ some t)
      × (has channel t.closed ≡ true)
      × ((try_lock t).0 ≡ true)
unfolding has try_lock_wait try_at
unlock-MutexReach tl n r = elim (Option-cases tl.c) [
  | inl f ↦ let none_yet = MutexReach-counts r ∙ ap holders_of f in absurd (omega (arith, none_yet))
  | inr (channel, f) ↦
      let t = record tl { c = none; closed = channel ∷ tl.closed } in
      (
        channel,
        t,
        ap (λ o. try_at o tl) f,
        (MutexReach-IsFresh r).open_yet channel f,
        unlock-taken tl channel f ((MutexReach-IsFresh r).open_yet channel f),
        ground arith,
        ap (λ p. p.0) (try_lock-free t refl),
      )
]
