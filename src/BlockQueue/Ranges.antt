-- ===== src/BlockQueue/Ranges.antt =====
-- The lowest and the highest height that the queue notes: updateMinMax and RescanMinMax only widen the
-- range, and take in the heights that they are given.
use monetarium_explorer.Prelude.{
  ℕ, ◌≤◌, ◌≡◌, refl, Bool, true, false, ◌&&◌, ◌||◌, List, [], ◌∷◌, arith, ltb, leb, ◌==◌,
  if◌then◌else◌, Bool-cases, inl, inr,
}
use monetarium_explorer.Prelude.Int.{ℤ, pos, negsuc, below, is}
use monetarium_explorer.BlockQueue.{
  CachedBlock, BlockPriorityQueue, update_min_max, rescan_loop, rescan_min_max,
}
use monetarium_explorer.BlockQueue.Ops.{rescan_min_max_for_remove, rescan_min_max_for_update}
use monetarium_explorer.BlockQueue.Swaps.{bare, tally}

-- A height outside the noted range.
abbrev pub outside : BlockPriorityQueue → ℕ → Bool
outside pq h = ltb h pq.min_height || below pq.max_height h

-- The range of the second queue takes in that of the first.
abbrev pub Widens : BlockPriorityQueue → BlockPriorityQueue → Type 0
Widens pq t = (h : ℕ) → outside t h ≡ true → outside pq h ≡ true

-- The range takes in the heights of the blocks.
abbrev pub IsCovered : BlockPriorityQueue → List CachedBlock → Type 0
IsCovered pq bh = tally (λ b. outside pq b.height) bh ≡ 0

tally_mono :
    (p q : CachedBlock → Bool) (bh : List CachedBlock)
    → ((b : CachedBlock) → p b ≡ true → q b ≡ true)
    → tally p bh ≤ tally q bh
unfolding tally
tally_mono p q [] h = omega arith
tally_mono p q (b ∷ bs) h = elim (Bool-cases (p (bare b))) [
  | inl e ↦ rw (e, h (bare b) e) (omega (arith, tally_mono p q bs h))
  | inr e ↦ rw e (omega (arith, tally_mono p q bs h))
]

pub Widens-IsCovered :
    (pq t : BlockPriorityQueue) (bh : List CachedBlock)
    → Widens pq t
    → IsCovered pq bh
    → IsCovered t bh
Widens-IsCovered pq t bh w c =
    omega (
      arith,
      c,
      tally_mono (λ b. outside t b.height) (λ b. outside pq b.height) bh (λ b. w b.height),
    )

max_widens : (m : ℤ) (h x : ℕ) → below (if below m h then pos h else m) x ≡ true → below m x ≡ true
max_widens (pos m) h x e = ground arith
max_widens (negsuc m) h x e = refl

max_takes : (m : ℤ) (h : ℕ) → below (if below m h then pos h else m) h ≡ false
max_takes (pos m) h = ground arith
max_takes (negsuc m) h = ground arith

pub update_min_max-Widens : (h : ℕ) (pq : BlockPriorityQueue) → Widens pq (update_min_max h pq)
unfolding update_min_max
update_min_max-Widens h pq x e = elim (Bool-cases (below pq.max_height x)) [
  | inl f ↦ rw f (ground arith)
  | inr f ↦ elim (Bool-cases (below (if below pq.max_height h then pos h else pq.max_height) x)) [
    | inl g ↦ absurd (ground (arith, max_widens pq.max_height h x g))
    | inr g ↦ ground (arith, e, g)
  ]
]

pub update_min_max-takes :
    (h : ℕ) (pq : BlockPriorityQueue) → outside (update_min_max h pq) h ≡ false
unfolding update_min_max
update_min_max-takes h pq = rw (max_takes pq.max_height h) (ground arith)

rescan_loop-Widens :
    (bs : List CachedBlock) (pq : BlockPriorityQueue) → Widens pq (rescan_loop bs pq)
unfolding rescan_loop
rescan_loop-Widens [] pq x e = e
rescan_loop-Widens (b ∷ bs) pq x e =
    update_min_max-Widens b.height pq x (rescan_loop-Widens bs (update_min_max b.height pq) x e)

pub rescan_min_max_for_remove-Widens :
    (h : ℕ) (pq : BlockPriorityQueue) → Widens pq (rescan_min_max_for_remove h pq)
unfolding rescan_min_max_for_remove rescan_min_max
rescan_min_max_for_remove-Widens h pq x =
    elim (Bool-cases (h == pq.min_height || is pq.max_height h)) [
      | inl e ↦ rw e (rescan_loop-Widens pq.bh pq x)
      | inr e ↦ rw e (λ f. f)
    ]

abbrev rescans : ℕ → ℕ → BlockPriorityQueue → Bool
rescans added removed pq =
    (removed == pq.min_height && leb removed added)
    || (is pq.max_height removed && leb added removed)

pub rescan_min_max_for_update-Widens :
    (added removed : ℕ) (pq : BlockPriorityQueue)
    → Widens pq (rescan_min_max_for_update added removed pq)
unfolding rescan_min_max_for_update rescan_min_max
rescan_min_max_for_update-Widens added removed pq x = elim (Bool-cases (rescans added removed pq)) [
  | inl e ↦ rw e (λ f. rescan_loop-Widens pq.bh pq x (update_min_max-Widens added _ x f))
  | inr e ↦ rw e (update_min_max-Widens added pq x)
]

pub rescan_min_max_for_update-takes :
    (added removed : ℕ) (pq : BlockPriorityQueue)
    → outside (rescan_min_max_for_update added removed pq) added ≡ false
unfolding rescan_min_max_for_update
rescan_min_max_for_update-takes added removed pq = elim (Bool-cases (rescans added removed pq)) [
  | inl e ↦ rw e (update_min_max-takes added _)
  | inr e ↦ rw e (update_min_max-takes added pq)
]

-- What only the range changes in.
abbrev pub SameQueue : BlockPriorityQueue → BlockPriorityQueue → Type 0
SameQueue pq t = (t.bh ≡ pq.bh) × (t.capacity ≡ pq.capacity) × (t.less_fn ≡ pq.less_fn)

rescan_loop-same :
    (bs : List CachedBlock) (pq : BlockPriorityQueue) → SameQueue pq (rescan_loop bs pq)
unfolding rescan_loop update_min_max
rescan_loop-same [] pq = (refl, refl, refl)
rescan_loop-same (b ∷ bs) pq = rescan_loop-same bs (update_min_max b.height pq)

pub rescan_min_max_for_remove-same :
    (h : ℕ) (pq : BlockPriorityQueue) → SameQueue pq (rescan_min_max_for_remove h pq)
unfolding rescan_min_max_for_remove rescan_min_max
rescan_min_max_for_remove-same h pq = elim (Bool-cases (h == pq.min_height || is pq.max_height h)) [
  | inl e ↦ rw e (rescan_loop-same pq.bh pq)
  | inr e ↦ rw e (refl, refl, refl)
]

pub rescan_min_max_for_update-same :
    (added removed : ℕ) (pq : BlockPriorityQueue)
    → SameQueue pq (rescan_min_max_for_update added removed pq)
unfolding rescan_min_max_for_update rescan_min_max update_min_max
rescan_min_max_for_update-same added removed pq = elim (Bool-cases (rescans added removed pq)) [
  | inl e ↦ rw e (rescan_loop-same pq.bh pq)
  | inr e ↦ rw e (refl, refl, refl)
]
