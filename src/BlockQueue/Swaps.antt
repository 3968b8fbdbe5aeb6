-- ===== src/BlockQueue/Swaps.antt =====
-- What swapping leaves as it was: how many blocks there are, and how many of them have any property
-- but that of where they stand.
use monetarium_explorer.Prelude.{
  ℕ, zero, suc, ◌+◌, ◌≤◌, ◌≡◌, refl, ap, ◌∙◌, Bool, true, false, List, [], ◌∷◌, ◌++◌, some, arith,
  length, get_elem?, set_at, but_last, ◌==◌, Option-cases, Bool-cases, inl, inr, length-set_at,
  get_elem?-set_at, get_elem?-lt, some-injective,
}
use monetarium_explorer.Prelude.Int.{pos, negsuc}
use monetarium_explorer.BlockQueue.{CachedBlock, swap}
use monetarium_explorer.BlockQueue.Heap.{swap_all}

-- A block without its position.
abbrev pub bare : CachedBlock → CachedBlock
bare b = record b { heap_idx = negsuc 0 }

abbrev pub one : Bool → ℕ
one true = 1
one false = 0

-- How many blocks pass a test that does not see the positions.
unfoldable pub tally : (CachedBlock → Bool) → List CachedBlock → ℕ
tally p [] = 0
tally p (b ∷ bs) = one (p (bare b)) + tally p bs

pub tally-set_at :
    (p : CachedBlock → Bool) (i : ℕ) (b old : CachedBlock) (bh : List CachedBlock)
    → get_elem? bh i ≡ some old
    → tally p (set_at i b bh) + one (p (bare old)) ≡ tally p bh + one (p (bare b))
unfolding tally
tally-set_at p i b old [] e = ground arith
tally-set_at p zero b old (c ∷ bs) e =
    let same : c ≡ old = some-injective e in rw same (omega arith)
tally-set_at p (suc i) b old (c ∷ bs) e = omega (arith, tally-set_at p i b old bs e)

pub tally-append :
    (p : CachedBlock → Bool) (bs cs : List CachedBlock)
    → tally p (bs ++ cs) ≡ tally p bs + tally p cs
unfolding tally
tally-append p [] cs = omega arith
tally-append p (b ∷ bs) cs = omega (arith, tally-append p bs cs)

-- What stands at the second position of a swap, once the first is written.
swapped_at :
    (i j : ℕ) (a b : CachedBlock) (bh : List CachedBlock)
    → get_elem? bh i ≡ some a
    → get_elem? bh j ≡ some b
    → (c : CachedBlock) × (get_elem? (set_at i (record b { heap_idx = pos i }) bh) j ≡ some c)
      × (bare c ≡ bare b)
swapped_at i j a b bh e f = elim (Bool-cases (j == i)) [
  | inl g ↦ (
    record b { heap_idx = pos i },
    get_elem?-set_at j i _ bh (get_elem?-lt bh i a e) ∙ (rw g refl),
    refl,
  )
  | inr g ↦ (b, get_elem?-set_at j i _ bh (get_elem?-lt bh i a e) ∙ (rw g f), refl)
]

pub length-swap : (i j : ℕ) (bh : List CachedBlock) → length (swap i j bh) ≡ length bh
unfolding swap
length-swap i j bh = elim (Option-cases (get_elem? bh i)) [
  | inl e ↦ rw e refl
  | inr (a, e) ↦ elim (Option-cases (get_elem? bh j)) [
    | inl f ↦ rw (e, f) refl
    | inr (b, f) ↦ rw (e, f) (length-set_at j _ _ ∙ length-set_at i _ bh)
  ]
]

pub tally-swap :
    (p : CachedBlock → Bool) (i j : ℕ) (bh : List CachedBlock) → tally p (swap i j bh) ≡ tally p bh
unfolding swap
tally-swap p i j bh = elim (Option-cases (get_elem? bh i)) [
  | inl e ↦ rw e refl
  | inr (a, e) ↦ elim (Option-cases (get_elem? bh j)) [
    | inl f ↦ rw (e, f) refl
    | inr (b, f) ↦
        let (c, g, same) = swapped_at i j a b bh e f in
        let first = tally-set_at p i (record b { heap_idx = pos i }) a bh e in
        let second = tally-set_at p j (record a { heap_idx = pos j }) c _ g in
        let agree : one (p (bare c)) ≡ one (p (bare b)) = ap (λ x. one (p x)) same in
        rw (e, f) (omega (arith, first, second, agree))
  ]
]

pub length-swap_all :
    (swaps : List (ℕ × ℕ)) (bh : List CachedBlock) → length (swap_all swaps bh) ≡ length bh
unfolding swap_all
length-swap_all [] bh = refl
length-swap_all ((i, j) ∷ swaps) bh = length-swap_all swaps (swap i j bh) ∙ length-swap i j bh

pub tally-swap_all :
    (p : CachedBlock → Bool) (swaps : List (ℕ × ℕ)) (bh : List CachedBlock)
    → tally p (swap_all swaps bh) ≡ tally p bh
unfolding swap_all
tally-swap_all p [] bh = refl
tally-swap_all p ((i, j) ∷ swaps) bh = tally-swap_all p swaps (swap i j bh) ∙ tally-swap p i j bh

-- No more blocks pass once the last is popped.
pub tally-but_last :
    (p : CachedBlock → Bool) (bh : List CachedBlock) → tally p (but_last bh) ≤ tally p bh
unfolding tally
tally-but_last p [] = omega arith
tally-but_last p (b ∷ []) = omega arith
tally-but_last p (b ∷ c ∷ bs) = omega (arith, tally-but_last p (c ∷ bs))

-- The block at a position, when none passes a test, does not pass it.
pub tally-none :
    (p : CachedBlock → Bool) (bh : List CachedBlock) (i : ℕ) (b : CachedBlock)
    → tally p bh ≡ 0
    → get_elem? bh i ≡ some b
    → p (bare b) ≡ false
unfolding tally
tally-none p [] i b z e = ground arith
tally-none p (c ∷ bs) zero b z e = elim (Bool-cases (p (bare b))) [
  | inr f ↦ f
  | inl f ↦
      let same : c ≡ b = some-injective e in
      absurd (omega (arith, z, ap (λ x. one (p (bare x))) same, ap one f))
]
tally-none p (c ∷ bs) (suc i) b z e = tally-none p bs i b (omega (arith, z)) e
