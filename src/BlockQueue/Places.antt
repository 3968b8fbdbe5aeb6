-- ===== src/BlockQueue/Places.antt =====
-- The position that a block notes is the one where it stands: swapping keeps it so.
use monetarium_explorer.Prelude.{
  ℕ, ◌<◌, ◌≡◌, refl, sym, ap, ◌∙◌, List, [], ◌∷◌, ◌++◌, some, arith, length, get_elem?, set_at,
  but_last, ◌==◌, Bool-cases, Option-cases, inl, inr, ==_iff, some-injective, get_elem?-set_at,
  get_elem?-lt, length-set_at, get_elem?-append, get_elem?-append_last, get_elem?-but_last,
  length-append, length-but_last,
}
use monetarium_explorer.Prelude.Int.{pos}
use monetarium_explorer.BlockQueue.{CachedBlock, swap}
use monetarium_explorer.BlockQueue.Heap.{swap_all}

abbrev pub IsPlaced : List CachedBlock → Type 0
IsPlaced bh = (i : ℕ) (b : CachedBlock) → get_elem? bh i ≡ some b → b.heap_idx ≡ pos i

pub set_at-IsPlaced :
    (i : ℕ) (b : CachedBlock) (bh : List CachedBlock)
    → i < length bh
    → b.heap_idx ≡ pos i
    → IsPlaced bh
    → IsPlaced (set_at i b bh)
set_at-IsPlaced i b bh h e q k c f = elim (Bool-cases (k == i)) [
  | inl g ↦
      let same : k ≡ i = (==_iff k i).0 g in
      let found : some b ≡ some c = rw (get_elem?-set_at k i b bh h, g) at f in
      ap (λ x. x.heap_idx) (sym (some-injective found)) ∙ e ∙ ap pos (sym same)
  | inr g ↦ q k c (rw (get_elem?-set_at k i b bh h, g) at f)
]

pub swap-IsPlaced : (i j : ℕ) (bh : List CachedBlock) → IsPlaced bh → IsPlaced (swap i j bh)
unfolding swap
swap-IsPlaced i j bh q = elim (Option-cases (get_elem? bh i)) [
  | inl e ↦ rw e q
  | inr (a, e) ↦ elim (Option-cases (get_elem? bh j)) [
    | inl f ↦ rw (e, f) q
    | inr (b, f) ↦
        let i_in = get_elem?-lt bh i a e in
        let j_in = get_elem?-lt bh j b f in
        rw (e, f)
          (set_at-IsPlaced j _ _ (rw (length-set_at i _ bh) j_in) refl
            (set_at-IsPlaced i _ bh i_in refl q))
  ]
]

pub swap_all-IsPlaced :
    (swaps : List (ℕ × ℕ)) (bh : List CachedBlock) → IsPlaced bh → IsPlaced (swap_all swaps bh)
unfolding swap_all
swap_all-IsPlaced [] bh q = q
swap_all-IsPlaced ((i, j) ∷ swaps) bh q = swap_all-IsPlaced swaps _ (swap-IsPlaced i j bh q)

pub append-IsPlaced :
    (bh : List CachedBlock) (b : CachedBlock)
    → b.heap_idx ≡ pos (length bh)
    → IsPlaced bh
    → IsPlaced (bh ++ b ∷ [])
append-IsPlaced bh b e q i c f = elim (Bool-cases (i == length bh)) [
  | inl g ↦
      let same : i ≡ length bh = (==_iff i (length bh)).0 g in
      let found : some b ≡ some c =
        sym (get_elem?-append_last bh b) ∙ ap (get_elem? (bh ++ b ∷ [])) (sym same) ∙ f in
      ap (λ x. x.heap_idx) (sym (some-injective found)) ∙ e ∙ ap pos (sym same)
  | inr g ↦
      let l = get_elem?-lt (bh ++ b ∷ []) i c f in
      let inside : i < length bh = ground (arith, length-append bh (b ∷ [])) in
      q i c (sym (get_elem?-append bh (b ∷ []) i inside) ∙ f)
]

pub but_last-IsPlaced : (bh : List CachedBlock) → IsPlaced bh → IsPlaced (but_last bh)
but_last-IsPlaced bh q i c f =
    let l = get_elem?-lt (but_last bh) i c f in
    q i c (sym (get_elem?-but_last bh i (omega (arith, length-but_last bh))) ∙ f)
