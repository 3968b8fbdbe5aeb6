-- ===== src/TicketPool/Load.antt =====
-- LoadAllPoolDiffs and its readers of version 0 and version 1 databases, and the pool that
-- NewTicketPool builds from what they load. The entries that badger's iterator yields, in its order,
-- are a list; the gob decoder of version 0 values is a parameter.
pub mod Restart
use monetarium_explorer.Prelude.{
  ℕ, zero, suc, ◌+◌, ◌%◌, ◌^◌, ◌≤◌, ◌<◌, ◌≡◌, refl, sym, ◌∙◌, ap, Bool, true, false, not, ◌&&◌,
  List, [], ◌∷◌, ◌++◌, Option, none, some, arith, length, take, length-append, ltb, ◌==◌,
  if◌then◌else◌, Outcome, fine, failed, panic, ◌⊎◌, inl, inr,
}
use mathlib.Core.List.{append_assoc, append-nil}
use monetarium_explorer.Bytes.{be_value, length-be_bytes, be_value-be_bytes, take-append}
use monetarium_explorer.TicketPool.{TicketPool, PoolDiff}
use monetarium_explorer.TicketPool.Codec.{
  uint64_bytes, encoded, ReadError, Decoded, decoded, broken, decode_diff, IsStorable,
}
use monetarium_explorer.TicketPool.Codec.RoundTrip.{decode_diff-encoded}
use monetarium_explorer.TicketPool.Diffs.{live_at}
use monetarium_explorer.TicketPool.Moves.{IsPlaced, IsWellFormed}

pub record Item : Type 0 where
  pub user_meta : ℕ
  pub key : List ℕ
  pub value : List ℕ

pub data LoadError : Type 0 where
  bad_value : ReadError → LoadError
  bad_gob : LoadError
  unrecognized_version : ℕ → LoadError

-- poolDiffs and heights, as far as they were read.
abbrev pub Loaded : Type 0
Loaded = List PoolDiff × List ℕ

abbrev pub Load : Type 0
Load = Outcome LoadError Loaded

-- "extra sanity check"
check_last : ℕ → Loaded → Load
check_last last (ds, hs) =
    if not (length ds == 0) && not (length ds == last) then panic else fine (ds, hs)

-- The body of the loops from the decoded value on; `rest` is the loop over the later entries.
add_diff : ℕ → ℕ → Loaded → (ℕ → Loaded → Load) → PoolDiff → Load
add_diff last height (ds, hs) rest d =
    if not ((last + 1) % 2 ^ 64 == height)
    then panic
    else rest height (ds ++ d ∷ [], hs ++ height ∷ [])

-- `skip` is the test of UserMeta, which version 0 does not make. A key of less than 8 bytes panics.
pub load_items : (Item → Bool) → (List ℕ → LoadError ⊎ PoolDiff) → List Item → ℕ → Loaded → Load
unfolding check_last add_diff
load_items skip decode [] last acc = check_last last acc
load_items skip decode (item ∷ items) last acc =
    let continue = load_items skip decode items last acc in
    let read : Load = elim (decode item.value) [
      | inl e ↦ failed e acc
      | inr d ↦
          add_diff last (be_value 0 (take 8 item.key)) acc (λ l a. load_items skip decode items l a)
            d
    ] in
    if skip item then continue else if ltb (length item.key) 8 then panic else read

as_read : Decoded → LoadError ⊎ PoolDiff
as_read (decoded d) = inr d
as_read (broken e) = inl (bad_value e)

as_gob : Option PoolDiff → LoadError ⊎ PoolDiff
as_gob none = inl bad_gob
as_gob (some d) = inr d

pub load_all_v1 : List Item → Load
unfolding as_read
load_all_v1 items =
    load_items (λ i. i.user_meta == 1) (λ v. as_read (decode_diff v)) items 0 ([], [])

pub load_all_v0 : (List ℕ → Option PoolDiff) → List Item → Load
unfolding as_gob
load_all_v0 gob items = load_items (λ i. false) (λ v. as_gob (gob v)) items 0 ([], [])

pub load_all_pool_diffs : (List ℕ → Option PoolDiff) → List Item → ℕ → Load
load_all_pool_diffs gob items ver =
    if ver == 0
    then load_all_v0 gob items
    else if ver == 1
    then load_all_v1 items
    else failed (unrecognized_version ver) ([], [])

-- The value that NewTicketPool returns.
unfoldable pub new_ticket_pool : {Db : Type 0} → List PoolDiff → Db → TicketPool Db
new_ticket_pool ds db = record { cursor = 0; tip = length ds; diffs = ds; pool = []; diff_db = db }
