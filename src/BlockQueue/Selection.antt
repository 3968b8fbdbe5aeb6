-- ===== src/BlockQueue/Selection.antt =====
-- A simple heap by heights: of its blocks, the lowest is swapped to the front. It does what is asked of
-- container/heap, for the witnesses.
use mathlib.Core.Path.{subst}
use monetarium_explorer.Prelude.{
  ℕ, zero, suc, ◌-◌, ◌≤◌, ◌<◌, ◌≡◌, refl, sym, ap, ◌∙◌, true, List, [], ◌∷◌, ◌++◌, some, arith,
  length, get_elem?, set_at, but_last, ltb, if◌then◌else◌, Bool-cases, inl, inr, get_elem?-lt,
  some-injective, length-but_last, length-set_at, get_elem?-but_last, ◌⊎◌,
}
use monetarium_explorer.Prelude.Int.{pos}
use monetarium_explorer.BlockQueue.{CachedBlock, less_by_height, swap}
use monetarium_explorer.BlockQueue.Heap.{Heap, HeapLaws, HasMinimum, swap_all}
use monetarium_explorer.BlockQueue.Swaps.{one, tally, tally-swap, tally-none}

-- How many blocks are lower than a height.
abbrev lower : ℕ → List CachedBlock → ℕ
lower h bh = tally (λ b. ltb b.height h) bh

-- The position of a lowest block, and its height.
abbrev lowest : CachedBlock → List CachedBlock → ℕ × CachedBlock
lowest b [] = (0, b)
lowest b (c ∷ bs) = let (i, d) = lowest c bs in if ltb d.height b.height then (suc i, d) else (0, b)

abbrev to_front : List CachedBlock → List (ℕ × ℕ)
to_front [] = []
to_front (b ∷ bs) = (0, (lowest b bs).0) ∷ []

-- The last block is swapped to the position first.
abbrev out_of : ℕ → List CachedBlock → List (ℕ × ℕ)
out_of i bh =
    let to_end = swap i (length bh - 1) bh in (i, length bh - 1) ∷ to_front (but_last to_end)

abbrev pub selection : Heap
selection = record {
  init = λ less bh. to_front bh;
  push = λ less bh. to_front bh;
  fix = λ less i bh. to_front bh;
  remove = λ less i bh. out_of i bh;
}

-- The first block is a lowest.
IsFirst : List CachedBlock → Type 0
IsFirst bh = (top : CachedBlock) → get_elem? bh 0 ≡ some top → lower top.height bh ≡ 0

lower_mono : (h k : ℕ) (bh : List CachedBlock) → h ≤ k → lower h bh ≤ lower k bh
unfolding tally
lower_mono h k [] l = omega arith
lower_mono h k (b ∷ bs) l = elim (Bool-cases (ltb b.height h)) [
  | inl e ↦
      let later : ltb b.height k ≡ true = ground arith in
      rw (e, later) (omega (arith, lower_mono h k bs l))
  | inr e ↦ rw e (omega (arith, lower_mono h k bs l))
]

-- A position that has a block as low as any.
IsLowest : CachedBlock → List CachedBlock → ℕ × CachedBlock → Type 0
IsLowest b bs (i, d) = (get_elem? (b ∷ bs) i ≡ some d) × (lower d.height (b ∷ bs) ≡ 0)

lowest-IsLowest : (b : CachedBlock) (bs : List CachedBlock) → IsLowest b bs (lowest b bs)
unfolding IsLowest tally
lowest-IsLowest b [] = (refl, ground arith)
lowest-IsLowest b (c ∷ bs) =
    let (i, d) = lowest c bs in
    let (found, least) = lowest-IsLowest c bs in
    elim (Bool-cases (ltb d.height b.height)) [
      | inl e ↦
          let after : one (ltb b.height d.height) ≡ 0 = ground arith in
          let chosen : lowest b (c ∷ bs) ≡ (suc i, d) = rw e refl in
          subst (IsLowest b (c ∷ bs)) (sym chosen) (found, omega (arith, after, least))
      | inr e ↦
          let fewer = lower_mono b.height d.height (c ∷ bs) (ground arith) in
          let itself : one (ltb b.height b.height) ≡ 0 = ground arith in
          let chosen : lowest b (c ∷ bs) ≡ (0, b) = rw e refl in
          subst (IsLowest b (c ∷ bs)) (sym chosen) (refl, omega (arith, itself, least, fewer))
    ]

List-cases :
    (bh : List CachedBlock)
    → (bh ≡ []) ⊎ ((b : CachedBlock) × (bs : List CachedBlock) × (bh ≡ b ∷ bs))
List-cases [] = inl refl
List-cases (b ∷ bs) = inr (b, bs, refl)

-- Swapping a block to the front.
front-swap :
    (i : ℕ) (b d : CachedBlock) (bs : List CachedBlock)
    → get_elem? (b ∷ bs) i ≡ some d
    → get_elem? (swap 0 i (b ∷ bs)) 0 ≡ some (record d { heap_idx = pos 0 })
unfolding swap
front-swap zero b d bs e =
    ap {A = CachedBlock} (λ x. some (record x { heap_idx = pos 0 })) (some-injective e)
front-swap (suc i) b d bs e = rw e refl

to_front-IsFirst : (bh : List CachedBlock) → IsFirst (swap_all (to_front bh) bh)
unfolding IsFirst IsLowest swap_all
to_front-IsFirst [] top e = absurd (ground arith)
to_front-IsFirst (b ∷ bs) top e =
    let (found, least) = lowest-IsLowest b bs in
    let i = (lowest b bs).0 in
    let d = (lowest b bs).1 in
    let same : d.height ≡ top.height =
      ap (λ x. x.height) (some-injective (sym (front-swap i b d bs found) ∙ e)) in
    subst (λ h. lower h (swap 0 i (b ∷ bs)) ≡ 0) same
      (tally-swap (λ x. ltb x.height d.height) 0 i (b ∷ bs) ∙ least)

but_last-cons :
    (x : CachedBlock) (bs : List CachedBlock) → 0 < length bs → but_last (x ∷ bs) ≡ x ∷ but_last bs
but_last-cons x [] h = absurd (omega arith)
but_last-cons x (b ∷ bs) h = refl

set_at-but_last :
    (k : ℕ) (v d : CachedBlock) (bs : List CachedBlock)
    → get_elem? (but_last bs) k ≡ some d
    → but_last (set_at k v bs) ≡ set_at k v (but_last bs)
set_at-but_last k v d [] e = refl
set_at-but_last k v d (b ∷ []) e = absurd (ground arith)
set_at-but_last zero v d (b ∷ c ∷ bs) e = refl
set_at-but_last (suc k) v d (b ∷ c ∷ bs) e =
    but_last-cons b (set_at k v (c ∷ bs)) (omega (arith, length-set_at k v (c ∷ bs)))
    ∙ ap (λ r. b ∷ r) (set_at-but_last k v d (c ∷ bs) e)

-- Swapping two blocks before the last is the same with the last out.
swap-but_last :
    (i : ℕ) (d : CachedBlock) (bh : List CachedBlock)
    → get_elem? (but_last bh) i ≡ some d
    → but_last (swap 0 i bh) ≡ swap 0 i (but_last bh)
unfolding swap
swap-but_last i d [] e = absurd (ground arith)
swap-but_last i d (b ∷ []) e = absurd (ground arith)
swap-but_last zero d (b ∷ c ∷ bs) e = refl
swap-but_last (suc k) d (b ∷ c ∷ bs) e =
    let inside = get_elem?-lt (but_last (c ∷ bs)) k d e in
    let whole : get_elem? (c ∷ bs) k ≡ some d =
      sym (get_elem?-but_last (c ∷ bs) k (omega (arith, length-but_last (c ∷ bs)))) ∙ e in
    rw (whole, e)
      (but_last-cons (record d { heap_idx = pos 0 }) _ (omega (arith, length-set_at k _ (c ∷ bs)))
        ∙ ap (λ r. record d { heap_idx = pos 0 } ∷ r)
            (set_at-but_last k (record b { heap_idx = pos (suc k) }) d (c ∷ bs) e))

to_front-but_last :
    (bh : List CachedBlock) → IsFirst (but_last (swap_all (to_front (but_last bh)) bh))
unfolding swap_all IsLowest IsFirst
to_front-but_last bh = elim (List-cases (but_last bh)) [
  | inl e ↦ rw e (λ top f. absurd (ground (arith, rw e at f)))
  | inr (b, bs, e) ↦
      let (found, least) = lowest-IsLowest b bs in
      let same =
        swap-but_last (lowest b bs).0 (lowest b bs).1 bh
          (ap (λ x. get_elem? x (lowest b bs).0) e ∙ found) in
      let front : swap_all (to_front (b ∷ bs)) bh ≡ swap 0 (lowest b bs).0 bh = refl in
      rw e (subst IsFirst (sym (same ∙ ap (swap 0 (lowest b bs).0) e)) (to_front-IsFirst (b ∷ bs)))
]

pub selection-HeapLaws : HeapLaws selection less_by_height
unfolding less_by_height IsFirst swap_all tally
selection-HeapLaws = record {
  IsHeap = IsFirst;
  empty = λ top e. refl;
  init_orders = to_front-IsFirst;
  push_orders = λ bh b first. to_front-IsFirst (bh ++ b ∷ []);
  fix_orders = λ bh i b first inside. to_front-IsFirst (set_at i b bh);
  remove_orders = λ bh i first inside. to_front-but_last (swap i (length bh - 1) bh);
}

pub selection-HasMinimum : HasMinimum selection-HeapLaws
unfolding selection-HeapLaws
selection-HasMinimum b top bh i first e =
    tally-none (λ x. ltb x.height top.height) (top ∷ bh) i b (first top refl) e
