-- ===== src/Charts/Miners/Sweep.antt =====
-- The sweep counts the events up to each height.
use monetarium_explorer.Prelude.{
  ℕ, zero, suc, ◌+◌, ◌-◌, ◌*◌, ◌%◌, ◌^◌, ◌≤◌, ◌<◌, ◌≡◌, refl, ap, ◌∙◌, Bool, true, false, not, ◌&&◌,
  List, [], ◌∷◌, ◌++◌, some, arith, get_elem?, leb, ◌==◌, Bool-cases, inl, inr, ==_iff,
}
use monetarium_explorer.Charts.Miners.{Event, consume, sweep}

abbrev pub one : Bool → ℕ
one true = 1
one false = 0

unfoldable pub count_if : (Event → Bool) → List Event → ℕ
count_if p [] = 0
count_if p (e ∷ es) = one (p e) + count_if p es

-- The miners that come, and those that go, up to a height.
abbrev pub comings : ℕ → List Event → ℕ
comings x es = count_if (λ e. e.comes && leb e.height x) es

abbrev pub goings : ℕ → List Event → ℕ
goings x es = count_if (λ e. not e.comes && leb e.height x) es

-- A count of `uint64` that the events lead to.
abbrev pub reached : ℕ → ℕ → List Event → ℕ
reached current x es = (current + comings x es + (2 ^ 64 - 1) * goings x es) % 2 ^ 64

-- The heights do not decrease, from one on.
abbrev pub IsFrom : ℕ → List Event → Type 0
IsFrom h [] = Unit
IsFrom h (e ∷ es) = (h ≤ e.height) × IsFrom e.height es

consume-IsFrom :
    (h : ℕ) (es : List Event) (current : ℕ) → IsFrom h es → IsFrom (h + 1) (consume h es current).0
unfolding consume
consume-IsFrom h [] current o = tt
consume-IsFrom h (e ∷ es) current (l, o) = elim (Bool-cases (e.height == h)) [
  | inr f ↦ rw f (ground arith, o)
  | inl f ↦
      let same : e.height ≡ h = (==_iff e.height h).0 f in
      elim (Bool-cases e.comes) [
        | inl g ↦ rw (f, g) (consume-IsFrom h es _ (rw same at o))
        | inr g ↦ rw (f, g) (consume-IsFrom h es _ (rw same at o))
      ]
]

-- Taking the events of a height leaves what is reached at any later one.
consume-reached :
    (h x : ℕ) (es : List Event) (current : ℕ)
    → h ≤ x
    → reached (consume h es current).1 x (consume h es current).0 ≡ reached current x es
unfolding consume count_if
consume-reached h x [] current l = refl
consume-reached h x (e ∷ es) current l = elim (Bool-cases (e.height == h)) [
  | inr f ↦ rw f refl
  | inl f ↦
      let early : leb e.height x ≡ true = ground arith in
      elim (Bool-cases e.comes) [
        | inl g ↦ rw (f, g, early) (consume-reached h x es _ l ∙ omega arith)
        | inr g ↦ rw (f, g, early) (consume-reached h x es _ l ∙ omega arith)
      ]
]

consume_small :
    (h : ℕ) (es : List Event) (current : ℕ) → current < 2 ^ 64 → (consume h es current).1 < 2 ^ 64
unfolding consume
consume_small h [] current l = l
consume_small h (e ∷ es) current l = elim (Bool-cases (e.height == h)) [
  | inr f ↦ rw f l
  | inl f ↦ elim (Bool-cases e.comes) [
    | inl g ↦ rw (f, g) (consume_small h es _ (omega arith))
    | inr g ↦ rw (f, g) (consume_small h es _ (omega arith))
  ]
]

-- No event from a height on counts before it.
count_if_none :
    (p : Bool → Bool) (h x : ℕ) (es : List Event)
    → x < h
    → IsFrom h es
    → count_if (λ e. p e.comes && leb e.height x) es ≡ 0
unfolding count_if
count_if_none p h x [] l o = refl
count_if_none p h x (e ∷ es) l (m, o) =
    let late : leb e.height x ≡ false = ground arith in
    elim (Bool-cases (p e.comes)) [
      | inl f ↦ rw (f, late) (omega (arith, count_if_none p e.height x es (omega arith) o))
      | inr f ↦ rw f (omega (arith, count_if_none p e.height x es (omega arith) o))
    ]

-- The count at a height is what the events up to it lead to.
pub sweep_lem :
    (n h k : ℕ) (es : List Event) (current : ℕ)
    → current < 2 ^ 64
    → IsFrom h es
    → k < n
    → get_elem? (sweep n h es current) k ≡ some (reached current (h + k) es)
unfolding sweep
sweep_lem zero h k es current c o l = absurd (omega arith)
sweep_lem (suc n) h zero es current c o l =
    let (rest, next) = consume h es current in
    let later = consume-IsFrom h es current o in
    let came = count_if_none (λ b. b) (h + 1) h rest (omega arith) later in
    let gone = count_if_none not (h + 1) h rest (omega arith) later in
    let small = consume_small h es current c in
    let here : h + 0 ≡ h = omega arith in
    rw here
      (ap some (omega (arith, came, gone, small, consume-reached h h es current (omega arith))))
sweep_lem (suc n) h (suc k) es current c o l =
    let (rest, next) = consume h es current in
    let there : h + 1 + k ≡ h + suc k = omega arith in
    sweep_lem n (h + 1) k rest next (consume_small h es current c) (consume-IsFrom h es current o)
      (omega arith)
    ∙ ap some (
        ap (λ x. reached next x rest) there
        ∙ consume-reached h (h + suc k) es current (omega arith))

pub count_if-append :
    (p : Event → Bool) (es fs : List Event) → count_if p (es ++ fs) ≡ count_if p es + count_if p fs
unfolding count_if
count_if-append p [] fs = omega arith
count_if-append p (e ∷ es) fs = omega (arith, count_if-append p es fs)
