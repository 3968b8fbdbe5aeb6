-- ===== src/TicketPool/Load/Restart.antt =====
-- A database that holds the encoded diffs under consecutive heights is read back whole.
use mathlib.Core.List.{append_assoc, append-nil}
use native.Mathlib.Nat.{add-zero}
use monetarium_explorer.Prelude.{
  ℕ, suc, ◌+◌, ◌%◌, ◌^◌, ◌<◌, ◌≡◌, refl, sym, ◌∙◌, Bool, true, false, List, [], ◌∷◌, ◌++◌, arith,
  length, take, ltb, ◌==◌, fine, panic, ◌⊎◌, inr,
}
use monetarium_explorer.Bytes.{be_value, take-append}
use monetarium_explorer.TicketPool.{PoolDiff}
use monetarium_explorer.TicketPool.Codec.{uint64_bytes, encoded, decode_diff, IsStorable}
use monetarium_explorer.TicketPool.Codec.RoundTrip.{
  decode_diff-encoded, be_value-uint64_bytes, length-uint64_bytes,
}
use monetarium_explorer.TicketPool.Diffs.{IsChain, live_at-genesis}
use monetarium_explorer.TicketPool.Moves.{IsWellFormed}
use monetarium_explorer.TicketPool.Load.{
  Item, Loaded, Load, LoadError, add_diff, load_items, as_read, load_all_v1, new_ticket_pool,
}

-- What storing the diffs at the heights above `last` leaves in the database, in key order.
pub entries : ℕ → List PoolDiff → List Item
entries last [] = []
entries last (d ∷ ds) =
    record { user_meta = 0; key = uint64_bytes (suc last); value = encoded d }
    ∷ entries (suc last) ds

abbrev pub heights_above : ℕ → List PoolDiff → List ℕ
heights_above last [] = []
heights_above last (d ∷ ds) = suc last ∷ heights_above (suc last) ds

abbrev pub AreStorable : List PoolDiff → Type 0
AreStorable [] = Unit
AreStorable (d ∷ ds) = IsStorable d × AreStorable ds

abbrev load_entries : List Item → ℕ → Loaded → Load
load_entries = load_items (λ i. i.user_meta == 1) (λ v. as_read (decode_diff v))

take-key : (v : ℕ) → take 8 (uint64_bytes v) ≡ uint64_bytes v
take-key v =
    rw (append-nil (uint64_bytes v)) at (take-append (uint64_bytes v) [] 8 (length-uint64_bytes v))

-- One round of the loop at an entry that is read and continues the heights.
load_items-read :
    (skip : Item → Bool) (decode : List ℕ → LoadError ⊎ PoolDiff) (item : Item) (items : List Item)
    (last height : ℕ) (ds : List PoolDiff) (hs : List ℕ) (d : PoolDiff)
    → skip item ≡ false
    → ltb (length item.key) 8 ≡ false
    → decode item.value ≡ inr d
    → be_value 0 (take 8 item.key) ≡ height
    → ((last + 1) % 2 ^ 64 == height) ≡ true
    → load_items skip decode (item ∷ items) last (ds, hs)
      ≡ load_items skip decode items height (ds ++ d ∷ [], hs ++ height ∷ [])
unfolding load_items
load_items-read skip decode item items last height ds hs d kept long read key next =
    rw (kept, long, read, key) (rw (next, add_diff) refl)

-- One round at an entry whose height does not continue the last one.
load_items-gap :
    (skip : Item → Bool) (decode : List ℕ → LoadError ⊎ PoolDiff) (item : Item) (items : List Item)
    (last height : ℕ) (ds : List PoolDiff) (hs : List ℕ) (d : PoolDiff)
    → skip item ≡ false
    → ltb (length item.key) 8 ≡ false
    → decode item.value ≡ inr d
    → be_value 0 (take 8 item.key) ≡ height
    → ((last + 1) % 2 ^ 64 == height) ≡ false
    → load_items skip decode (item ∷ items) last (ds, hs) ≡ panic
unfolding load_items
load_items-gap skip decode item items last height ds hs d kept long read key next =
    rw (kept, long, read, key) (rw (next, add_diff) refl)

add_suc_left : (m n : ℕ) → suc m + n ≡ m + suc n
add_suc_left m n = omega arith

-- The entry that setVersion writes. Its key sorts above every height.
abbrev pub version_item : List ℕ → List ℕ → Item
version_item key version = record { user_meta = 1; key = key; value = version }

-- It is passed over, and the loop ends with as many diffs as the last height says.
load_entries-version :
    (key version : List ℕ) (last : ℕ) (before : List PoolDiff) (hs : List ℕ)
    → length before ≡ last
    → load_entries (version_item key version ∷ []) last (before, hs) ≡ fine (before, hs)
unfolding load_items
load_entries-version key version last before hs len = ground arith

as_read-encoded : (d : PoolDiff) → IsStorable d → as_read (decode_diff (encoded d)) ≡ inr d
unfolding as_read
as_read-encoded d s = rw (decode_diff-encoded d s) refl

-- The loop takes in consecutive entries and goes on with what follows them.
load_entries-append :
    (tail : List Item) (ds : List PoolDiff) (last : ℕ) (before : List PoolDiff) (hs : List ℕ)
    → AreStorable ds
    → last + length ds < 2 ^ 64
    → load_entries (entries last ds ++ tail) last (before, hs)
      ≡ load_entries tail (last + length ds) (before ++ ds, hs ++ heights_above last ds)
unfolding entries
load_entries-append tail [] last before hs s small =
    rw (append-nil before, append-nil hs, add-zero last) refl
load_entries-append tail (d ∷ ds) last before hs s small =
    load_items-read _ _ _ (entries (suc last) ds ++ tail) last (suc last) before hs d refl
      (ground (arith, length-uint64_bytes (suc last))) (as_read-encoded d s.0)
      (rw (take-key (suc last)) (be_value-uint64_bytes (suc last) (omega arith))) (ground arith)
    ∙ load_entries-append tail ds (suc last) (before ++ d ∷ []) (hs ++ suc last ∷ []) s.1
        (omega arith)
    ∙ rw
        (
          append_assoc before (d ∷ []) ds,
          append_assoc hs (suc last ∷ []) (heights_above (suc last) ds),
          add_suc_left last (length ds),
        )
        refl

pub new_ticket_pool-IsWellFormed :
    {Db : Type 0} (ds : List PoolDiff) (db : Db) → IsWellFormed (new_ticket_pool ds db)
unfolding new_ticket_pool
new_ticket_pool-IsWellFormed ds db = record {
  counted = refl;
  placed = record { in_range = omega arith; once = tt; holds = λ h. sym (live_at-genesis ds h) };
}

pub new_ticket_pool-IsChain :
    {Db : Type 0} (ds : List PoolDiff) (db : Db)
    → IsChain ds
    → IsChain (new_ticket_pool ds db).diffs
unfolding new_ticket_pool
new_ticket_pool-IsChain ds db ch = ch

-- Restart: a database with one entry for each block, as Append writes them, for fewer than 2^64 blocks
-- and diffs of 32-byte hashes, and with the version entry at its end, is loaded whole, and the pool that NewTicketPool builds on it is well-formed, at genesis.
pub load_all_v1-entries :
    {Db : Type 0} (db : Db) (key version : List ℕ) (ds : List PoolDiff)
    → AreStorable ds
    → length ds < 2 ^ 64
    → (load_all_v1 (entries 0 ds ++ version_item key version ∷ []) ≡ fine (ds, heights_above 0 ds))
      × IsWellFormed (new_ticket_pool ds db)
unfolding load_all_v1
load_all_v1-entries db key version ds s small = (
  load_entries-append (version_item key version ∷ []) ds 0 [] [] s (omega arith)
      ∙ load_entries-version key version (0 + length ds) ds (heights_above 0 ds) (omega arith),
  new_ticket_pool-IsWellFormed ds db,
)

-- A database of diffs of 32-byte hashes that lacks the entry of one block, but has a later one, at a
-- height below 2^64, makes the loader panic.
pub load_all_v1-gap :
    (ds : List PoolDiff) (d : PoolDiff) (height : ℕ) (later : List Item)
    → AreStorable ds
    → IsStorable d
    → height < 2 ^ 64
    → length ds + 1 < height
    → load_all_v1 (
        entries 0 ds
        ++ record { user_meta = 0; key = uint64_bytes height; value = encoded d } ∷ later)
      ≡ panic
unfolding load_all_v1
load_all_v1-gap ds d height later s sd small skips =
    load_entries-append _ ds 0 [] [] s (omega arith)
    ∙ load_items-gap _ _ _ later (0 + length ds) height ds (heights_above 0 ds) d refl
        (ground (arith, length-uint64_bytes height)) (as_read-encoded d sd)
        (rw (take-key height) (be_value-uint64_bytes height (omega arith))) (ground arith)
