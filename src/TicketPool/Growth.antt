-- ===== src/TicketPool/Growth.antt =====
-- Append and AppendAndAdvancePool: a diff grows the slice in memory and is written to the database.
-- badger is the parameter `put`: it sets a key to a value, or fails (`none`) and leaves the database
-- as it was, as a failed transaction does.
use monetarium_explorer.Prelude.{
  ℕ, ◌+◌, ◌-◌, ◌%◌, ◌^◌, ◌<◌, ◌≡◌, refl, sym, ◌∙◌, ap, true, false, List, [], ◌∷◌, ◌++◌, Option,
  none, some, arith, length, length-append, get_elem?, get_elem?-none, get_elem?-append,
  get_elem?-append_last, ◌==◌, if◌then◌else◌, some-injective, ◌⊎◌, inl, inr, Outcome, fine, failed,
  panic, ◌>>=◌, not,
}
use monetarium_explorer.Prelude.Int.{ℤ, pos, negsuc, is}
use monetarium_explorer.TicketPool.{
  TicketPool, PoolDiff, PoolError, not_building, db_write, append, advance,
}
use monetarium_explorer.TicketPool.Codec.{uint64_bytes, encode_diff, encoded}
use monetarium_explorer.TicketPool.Codec.RoundTrip.{encode_diff-total}
use monetarium_explorer.TicketPool.Diffs.{live_at, IsExact, IsChain, live_at-append, IsExact-ext}
use monetarium_explorer.TicketPool.Moves.{IsWellFormed, advance-MovesTo, IsMoved-IsWellFormed}

-- `uint64(height)`
pub to_uint64 : ℤ → ℕ
to_uint64 (pos n) = n % 2 ^ 64
to_uint64 (negsuc n) = 2 ^ 64 - 1 - n % 2 ^ 64

abbrev pub stored : {Db : Type 0} → TicketPool Db → Option Db → Outcome PoolError (TicketPool Db)
stored tp none = failed db_write tp
stored tp (some db) = fine (record tp { diff_db = db })

lt_eq_gt : (m n : ℕ) → (m < n) ⊎ ((m ≡ n) ⊎ (n < m))
lt_eq_gt m n = omega arith

module _ {Db : Type 0} (put : Db → List ℕ → List ℕ → Option Db) where
  -- storeDiff on the pool, with encodeDiff's panic.
  pub store_diff : PoolDiff → ℕ → TicketPool Db → Outcome PoolError (TicketPool Db)
  store_diff d height tp = elim (encode_diff d) [
    | none ↦ panic
    | some v ↦ stored tp (put tp.diff_db (uint64_bytes height) v)
  ]

  -- Append. The diff is in the slice, and the tip has moved, before the database is written.
  pub append_at : PoolDiff → ℤ → TicketPool Db → Outcome PoolError (TicketPool Db)
  append_at d height tp =
      if not (is height (tp.tip + 1))
      then failed (not_building height tp.tip) tp
      else store_diff d (to_uint64 height) (append d tp)

  pub append_and_advance : PoolDiff → ℤ → TicketPool Db → Outcome PoolError (TicketPool Db)
  append_and_advance d height tp = append_at d height tp >>= advance

pub append-IsChain :
    (ds : List PoolDiff) (d : PoolDiff)
    → IsChain ds
    → IsExact (live_at ds (length ds)) d
    → IsChain (ds ++ d ∷ [])
append-IsChain ds d ch x = record { exact = λ n c e. at n c e (lt_eq_gt n (length ds)) }
  where
    at :
        (n : ℕ) (c : PoolDiff)
        → get_elem? (ds ++ d ∷ []) n ≡ some c
        → ((n < length ds) ⊎ ((n ≡ length ds) ⊎ (length ds < n)))
        → IsExact (live_at (ds ++ d ∷ []) n) c
    at n c e (inl lt) =
        IsExact-ext (live_at ds n) _ c (λ h. sym (live_at-append ds (d ∷ []) n h (omega arith)))
          (ch.exact n c (sym (get_elem?-append ds (d ∷ []) n lt) ∙ e))
    at n c e (inr (inl eq)) =
        let same : d ≡ c = some-injective (sym (get_elem?-append_last ds d) ∙ (rw eq at e)) in
        rw (← same, eq)
          (IsExact-ext (live_at ds (length ds)) _ d
            (λ h. sym (live_at-append ds (d ∷ []) (length ds) h (omega arith))) x)
    at n c e (inr (inr gt)) =
        let gone : get_elem? (ds ++ d ∷ []) n ≡ none =
          get_elem?-none (ds ++ d ∷ []) n (omega (arith, length-append ds (d ∷ []))) in
        absurd (ground arith)

module _ {Db : Type 0} where
  pub append-IsWellFormed :
      (tp : TicketPool Db) (d : PoolDiff) → IsWellFormed tp → IsWellFormed (append d tp)
  unfolding append
  append-IsWellFormed tp d w = record {
    counted = omega (arith, w.counted, length-append tp.diffs (d ∷ []));
    placed = record {
      in_range = omega (arith, w.placed.in_range, length-append tp.diffs (d ∷ []));
      once = w.placed.once;
      holds = λ h.
          w.placed.holds h ∙ sym (live_at-append tp.diffs (d ∷ []) tp.cursor h w.placed.in_range);
    };
  }

module _ {Db : Type 0} (d : PoolDiff) (tp : TicketPool Db) where
  append_diffs : (append d tp).diffs ≡ tp.diffs ++ d ∷ []
  unfolding append
  append_diffs = refl

  append_cursor : (append d tp).cursor ≡ tp.cursor
  unfolding append
  append_cursor = refl

  append_pool : (append d tp).pool ≡ tp.pool
  unfolding append
  append_pool = refl

  pub append_diffs-IsChain :
      IsChain tp.diffs
      → IsExact (live_at tp.diffs (length tp.diffs)) d
      → IsChain (append d tp).diffs
  append_diffs-IsChain ch x = rw append_diffs (append-IsChain tp.diffs d ch x)

  below_tip :
      (t : TicketPool Db)
      → IsWellFormed tp
      → t.diffs ≡ tp.diffs ++ d ∷ []
      → t.cursor ≡ tp.cursor
      → IsWellFormed t
      → t.cursor < t.tip
  below_tip t w ds c wt = omega (
    arith,
    w.placed.in_range,
    w.counted,
    wt.counted,
    ap length ds,
    length-append tp.diffs (d ∷ []),
  )

module _ {Db : Type 0} (put : Db → List ℕ → List ℕ → Option Db) where
  store_diff-stored :
      (d : PoolDiff) (height : ℕ) (tp : TicketPool Db)
      → store_diff put d height tp ≡ stored tp (put tp.diff_db (uint64_bytes height) (encoded d))
  unfolding store_diff
  store_diff-stored d height tp = rw (encode_diff-total d, store_diff) refl

  -- What Append at the next height does, with the write to the database still open.
  pub append_at-next :
      (d : PoolDiff) (tp : TicketPool Db)
      → tp.tip + 1 < 2 ^ 64
      → append_at put d (pos (tp.tip + 1)) tp
        ≡ stored (append d tp) (put tp.diff_db (uint64_bytes (tp.tip + 1)) (encoded d))
  unfolding append_at to_uint64 append
  append_at-next d tp small =
      let next : (tp.tip + 1 == tp.tip + 1) ≡ true = ground arith in
      let bits : (tp.tip + 1) % 2 ^ 64 ≡ tp.tip + 1 = omega arith in
      rw (next, bits) (store_diff-stored d (tp.tip + 1) (append d tp))

  -- Append, on a well-formed state over a chain whose next height is below 2^64, of a diff that fits on
  -- the tip, with a write that succeeds: the chain grows by this diff
  -- at the top, the state stays well-formed with the cursor and the pool where they were, and the
  -- database is the one with the encoded diff under the new height.
  pub append_at_grows :
      (d : PoolDiff) (tp : TicketPool Db) (db : Db)
      → IsWellFormed tp
      → IsChain tp.diffs
      → IsExact (live_at tp.diffs tp.tip) d
      → tp.tip + 1 < 2 ^ 64
      → put tp.diff_db (uint64_bytes (tp.tip + 1)) (encoded d) ≡ some db
      → (t : TicketPool Db) × (append_at put d (pos (tp.tip + 1)) tp ≡ fine t)
        × IsWellFormed t
        × IsChain t.diffs
        × (t.diffs ≡ tp.diffs ++ d ∷ [])
        × (t.cursor ≡ tp.cursor)
        × (t.pool ≡ tp.pool)
        × (t.diff_db ≡ db)
  append_at_grows d tp db w ch x small wrote =
      let g = append-IsWellFormed tp d w in
      (
        record (append d tp) { diff_db = db },
        append_at-next d tp small ∙ ap (stored (append d tp)) wrote,
        record {
          counted = g.counted;
          placed = record {
            in_range = g.placed.in_range;
            once = g.placed.once;
            holds = g.placed.holds;
          };
        },
        append_diffs-IsChain d tp ch (rw w.counted at x),
        append_diffs d tp,
        append_cursor d tp,
        append_pool d tp,
        refl,
      )

  -- A block that does not build on the tip is refused, and nothing changes in memory or on disk.
  pub append_at-not_building :
      (d : PoolDiff) (height : ℤ) (tp : TicketPool Db)
      → is height (tp.tip + 1) ≡ false
      → append_at put d height tp ≡ failed (not_building height tp.tip) tp
  unfolding append_at
  append_at-not_building d height tp e = rw e refl

  -- When the write to the database fails, at a next height below 2^64, Append returns the error with the diff already in the
  -- slice and the tip moved, so that the same block can not be appended again.
  pub append_at_write_fails :
      (d : PoolDiff) (tp : TicketPool Db)
      → tp.tip + 1 < 2 ^ 64
      → put tp.diff_db (uint64_bytes (tp.tip + 1)) (encoded d) ≡ none
      → (append_at put d (pos (tp.tip + 1)) tp ≡ failed db_write (append d tp))
        × (append_at put d (pos (tp.tip + 1)) (append d tp)
            ≡ failed (not_building (pos (tp.tip + 1)) (tp.tip + 1)) (append d tp))
  unfolding append
  append_at_write_fails d tp small fails = (
    append_at-next d tp small ∙ ap (stored (append d tp)) fails,
    append_at-not_building d (pos (tp.tip + 1)) (append d tp) (ground arith),
  )

  -- AppendAndAdvancePool, on a well-formed state over a chain whose next height is below 2^64, of a
  -- diff that fits on the tip, with a write that succeeds: the diff is added on top and stored, and
  -- the cursor goes up by one from where it was, in a well-formed state, so the pool goes with it.
  pub append_and_advance_grows :
      (d : PoolDiff) (tp : TicketPool Db) (db : Db)
      → IsWellFormed tp
      → IsChain tp.diffs
      → IsExact (live_at tp.diffs tp.tip) d
      → tp.tip + 1 < 2 ^ 64
      → put tp.diff_db (uint64_bytes (tp.tip + 1)) (encoded d) ≡ some db
      → (t : TicketPool Db) × (append_and_advance put d (pos (tp.tip + 1)) tp ≡ fine t)
        × IsWellFormed t
        × (t.cursor ≡ tp.cursor + 1)
        × (t.diffs ≡ tp.diffs ++ d ∷ [])
        × (t.diff_db ≡ db)
  unfolding append_and_advance
  append_and_advance_grows d tp db w ch x small wrote =
      let (t, e, wt, cht, ds, c, _, same) = append_at_grows d tp db w ch x small wrote in
      let (u, step, m) = advance-MovesTo t wt.placed wt.counted cht (below_tip d tp t w ds c wt) in
      (
        u,
        ap (λ o. o >>= advance) e ∙ step,
        IsMoved-IsWellFormed (t.cursor + 1) m wt,
        m.at ∙ ap (λ n. n + 1) c,
        m.same_diffs ∙ ds,
        m.same_db ∙ same,
      )
