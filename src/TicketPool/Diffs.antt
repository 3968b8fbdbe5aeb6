-- ===== src/TicketPool/Diffs.antt =====
-- What a slice of diffs means: the tickets that are live at each height, and the diffs that a chain
-- of blocks can produce.
use monetarium_explorer.Prelude.{
  ℕ, zero, suc, ◌+◌, ◌≤◌, ◌≡◌, refl, sym, [], Bool, true, false, not, ◌&&◌, ◌||◌, List, ◌++◌,
  Option, none, some, arith, length, get_elem?, get_elem?-append, but_last, get_elem?-but_last,
}
use monetarium_explorer.HashSet.{
  has, has-nil, IsDistinct, insert_all, has-insert_all, has-delete_all, insert_all-IsDistinct,
  delete_all-IsDistinct, length-insert_all, length-delete_all,
}
use monetarium_explorer.TicketPool.{PoolDiff, apply_diff, reverse_diff}

abbrev step_live : Option PoolDiff → Bool → ℕ → Bool
step_live none before h = before
step_live (some d) before h = not (has h d.outs) && (has h d.ins || before)

-- A ticket is live after `n` blocks if the last of their diffs that names it lets it in and not out.
unfoldable pub live_at : List PoolDiff → ℕ → ℕ → Bool
live_at ds zero h = false
live_at ds (suc n) h = step_live (get_elem? ds n) (live_at ds n h) h

-- A diff that fits on a set of live tickets: new tickets come in once, and only live ones go out.
pub record IsExact (live : ℕ → Bool) (d : PoolDiff) : Type 0 where
  pub in_once : IsDistinct d.ins
  pub out_once : IsDistinct d.outs
  pub in_new : (h : ℕ) → has h d.ins ≡ true → live h ≡ false
  pub out_live : (h : ℕ) → has h d.outs ≡ true → (has h d.ins || live h) ≡ true

-- Each diff fits on the tickets that are live below it.
pub record IsChain (ds : List PoolDiff) : Type 0 where
  pub exact : (n : ℕ) (d : PoolDiff) → get_elem? ds n ≡ some d → IsExact (live_at ds n) d

pub live_at-genesis : (ds : List PoolDiff) (h : ℕ) → live_at ds 0 h ≡ has h []
unfolding live_at
live_at-genesis ds h = sym (has-nil h)

pub nil-IsChain : IsChain []
nil-IsChain = record { exact = λ n d e. absurd (none≢some n d e) }
  where
    none≢some : (n : ℕ) (d : PoolDiff) → get_elem? {A = PoolDiff} [] n ≡ some d → ⊥
    none≢some n d e = cc

pub live_at-suc :
    (ds : List PoolDiff) (n : ℕ) (d : PoolDiff) (h : ℕ)
    → get_elem? ds n ≡ some d
    → live_at ds (suc n) h ≡ (not (has h d.outs) && (has h d.ins || live_at ds n h))
unfolding live_at
live_at-suc ds n d h e = rw e

pub live_at-append :
    (ds es : List PoolDiff) (n h : ℕ) → n ≤ length ds → live_at (ds ++ es) n h ≡ live_at ds n h
unfolding live_at
live_at-append ds es zero h le = refl
live_at-append ds es (suc n) h le =
    rw (get_elem?-append ds es n le, live_at-append ds es n h (omega arith)) refl

pub live_at-but_last :
    (ds : List PoolDiff) (n h : ℕ) → suc n ≤ length ds → live_at (but_last ds) n h ≡ live_at ds n h
unfolding live_at
live_at-but_last ds zero h le = refl
live_at-but_last ds (suc n) h le =
    rw (get_elem?-but_last ds n le, live_at-but_last ds n h (omega arith)) refl

pub has-apply_diff :
    (h : ℕ) (ins outs m : List ℕ)
    → has h (apply_diff ins outs m) ≡ (not (has h outs) && (has h ins || has h m))
unfolding apply_diff
has-apply_diff h ins outs m =
    ground (arith, has-delete_all h outs (insert_all ins m), has-insert_all h ins m)

pub apply_diff-IsDistinct :
    (ins outs m : List ℕ) → IsDistinct m → IsDistinct (apply_diff ins outs m)
unfolding apply_diff
apply_diff-IsDistinct ins outs m d =
    delete_all-IsDistinct outs (insert_all ins m) (insert_all-IsDistinct ins m d)

module _ (d : PoolDiff) (m : List ℕ) (once : IsDistinct m) (fits : IsExact (λ h. has h m) d) where
  -- An exact diff changes the size by exactly its lengths.
  pub length-apply_diff :
      length (apply_diff d.ins d.outs m) + length d.outs ≡ length m + length d.ins
  unfolding apply_diff
  length-apply_diff = omega (
    arith,
    length-insert_all d.ins m fits.in_once fits.in_new,
    length-delete_all d.outs (insert_all d.ins m) fits.out_once (insert_all-IsDistinct d.ins m once)
        (λ h e. ground (arith, has-insert_all h d.ins m, fits.out_live h)),
  )

-- `IsExact` depends on the set only through membership.
pub IsExact-ext :
    (p q : ℕ → Bool) (d : PoolDiff) → ((h : ℕ) → p h ≡ q h) → IsExact p d → IsExact q d
IsExact-ext p q d same x = record {
  in_once = x.in_once;
  out_once = x.out_once;
  in_new = λ h e. ground (arith, same h, x.in_new h);
  out_live = λ h e. ground (arith, same h, x.out_live h);
}

-- After an exact diff its reverse is exact.
pub reverse_diff-IsExact :
    (p : ℕ → Bool) (d : PoolDiff)
    → IsExact p d
    → IsExact (λ h. not (has h d.outs) && (has h d.ins || p h)) (reverse_diff d)
reverse_diff-IsExact p d x = record {
  in_once = x.out_once;
  out_once = x.in_once;
  in_new = λ h e. ground arith;
  out_live = λ h e. ground arith;
}

-- And it brings back every ticket as it was.
pub reverse_diff-undoes :
    (p : ℕ → Bool) (d : PoolDiff) (h : ℕ)
    → IsExact p d
    → (not (has h d.ins) && (has h d.outs || not (has h d.outs) && (has h d.ins || p h))) ≡ p h
reverse_diff-undoes p d h x = ground (arith, x.in_new h, x.out_live h)
