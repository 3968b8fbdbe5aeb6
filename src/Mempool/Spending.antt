-- ===== src/Mempool/Spending.antt =====
-- Which inputs spend from a transaction.
use mathlib.Core.List.{append_assoc, append-nil}
use monetarium_explorer.Prelude.{
  ℕ, ◌+◌, ◌%◌, ◌^◌, ◌≡◌, refl, sym, ◌∙◌, ap, List, [], ◌∷◌, ◌++◌, map, keep, ◌==◌, Bool-cases, inl,
  inr,
}
use monetarium_explorer.Mempool.{
  DataCache, MempoolInput, MempoolTx, Spends, spender_inputs, spender_txs, spenders,
}

-- An input with its transaction and its position there.
pub record Placed : Type 0 where
  pub tx : ℕ
  pub index : ℕ
  pub input : MempoolInput

abbrev pub placed_inputs : ℕ → ℕ → List MempoolInput → List Placed
placed_inputs id i [] = []
placed_inputs id i (v ∷ vin) =
    record { tx = id; index = i; input = v } ∷ placed_inputs id (i + 1) vin

-- Every input of the mempool, in order.
abbrev pub all_inputs : List MempoolTx → List Placed
all_inputs [] = []
all_inputs (tx ∷ txs) = placed_inputs tx.tx_id 0 tx.vin ++ all_inputs txs

abbrev pub from_tx : ℕ → List Placed → List Placed
from_tx funding ps = keep (λ p. p.input.tx_id == funding) ps

abbrev pub columns : List Placed → Spends
columns ps = (map (λ p. p.tx) ps, map (λ p. p.index % 2 ^ 32) ps, map (λ p. p.input.outdex) ps)

abbrev joined : Spends → Spends → Spends
joined (a, b, c) (d, e, f) = (a ++ d, b ++ e, c ++ f)

joined_assoc : (a b c : Spends) → joined (joined a b) c ≡ joined a (joined b c)
joined_assoc (a, b, c) (d, e, f) (g, h, i) =
    rw (append_assoc a d g, append_assoc b e h, append_assoc c f i) refl

joined-nil : (a : Spends) → joined a ([], [], []) ≡ a
joined-nil (a, b, c) = rw (append-nil a, append-nil b, append-nil c) refl

spender_inputs_lem :
    (funding id i : ℕ) (vin : List MempoolInput) (acc : Spends)
    → spender_inputs funding id i vin acc
      ≡ joined acc (columns (from_tx funding (placed_inputs id i vin)))
unfolding spender_inputs
spender_inputs_lem funding id i [] acc = sym (joined-nil acc)
spender_inputs_lem funding id i (v ∷ vin) (a, b, c) = elim (Bool-cases (v.tx_id == funding)) [
  | inl e ↦ rw e (
      spender_inputs_lem funding id (i + 1) vin
        (a ++ id ∷ [], b ++ i % 2 ^ 32 ∷ [], c ++ v.outdex ∷ [])
      ∙ joined_assoc (a, b, c) (id ∷ [], i % 2 ^ 32 ∷ [], v.outdex ∷ []) _)
  | inr e ↦ rw e (spender_inputs_lem funding id (i + 1) vin (a, b, c))
]

from_tx-append :
    (funding : ℕ) (ps qs : List Placed)
    → columns (from_tx funding (ps ++ qs))
      ≡ joined (columns (from_tx funding ps)) (columns (from_tx funding qs))
from_tx-append funding [] qs = refl
from_tx-append funding (p ∷ ps) qs = elim (Bool-cases (p.input.tx_id == funding)) [
  | inl e ↦ rw e (
      ap (joined (p.tx ∷ [], p.index % 2 ^ 32 ∷ [], p.input.outdex ∷ []))
        (from_tx-append funding ps qs))
  | inr e ↦ rw e (from_tx-append funding ps qs)
]

spender_txs_lem :
    (funding : ℕ) (txs : List MempoolTx) (acc : Spends)
    → spender_txs funding txs acc ≡ joined acc (columns (from_tx funding (all_inputs txs)))
unfolding spender_txs
spender_txs_lem funding [] acc = sym (joined-nil acc)
spender_txs_lem funding (tx ∷ txs) acc =
    spender_txs_lem funding txs (spender_inputs funding tx.tx_id 0 tx.vin acc)
    ∙ ap (λ a. joined a (columns (from_tx funding (all_inputs txs))))
        (spender_inputs_lem funding tx.tx_id 0 tx.vin acc)
    ∙ joined_assoc acc (columns (from_tx funding (placed_inputs tx.tx_id 0 tx.vin))) _
    ∙ ap (joined acc)
        (sym (from_tx-append funding (placed_inputs tx.tx_id 0 tx.vin) (all_inputs txs)))

-- Spenders gives, in three columns of one row for each, the inputs of the cached transactions that
-- spend from the given one, in the order of the transactions and of their inputs: the spending
-- transaction, the input's position in it, modulo 2^32, and the output that it spends.
pub spenders_lem :
    {Fee Info Details : Type 0} (funding : ℕ) (c : DataCache Fee Info Details)
    → spenders funding c ≡ columns (from_tx funding (all_inputs c.txns))
unfolding spenders
spenders_lem funding c = spender_txs_lem funding c.txns ([], [], [])
