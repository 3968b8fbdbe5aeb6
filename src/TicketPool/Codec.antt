-- ===== src/TicketPool/Codec.antt =====
-- encodeDiff, and the reader of version 1 entries that loadAllPoolDiffsV1 runs over the database.
-- A stored count is a `uint64`, and the products and sums of counts here do not wrap; a count so
-- large that they would is an error here and a panic of `make` in Go.
pub mod RoundTrip
use monetarium_explorer.Prelude.{
  ℕ, zero, suc, ◌+◌, ◌*◌, ◌%◌, ◌^◌, ◌≤◌, ◌<◌, ◌≡◌, refl, ◌∙◌, ap, sym, Bool, true, false, List, [],
  ◌∷◌, ◌++◌, Option, none, some, arith, length, take, drop, length-append, leb, ltb, ◌==◌,
  if◌then◌else◌, Outcome, fine, failed, panic, inl, inr, Bool-cases,
}
use mathlib.Core.List.{append_assoc, append-nil}
use monetarium_explorer.Bytes.{
  be_bytes, be_value, length-be_bytes, be_value-be_bytes, take-append, drop-append,
}
use monetarium_explorer.TicketPool.{PoolDiff}

-- chainhash.HashSize
abbrev pub hash_size : ℕ
hash_size = 32

pub uint64_bytes : ℕ → List ℕ
uint64_bytes v = be_bytes 8 v

-- The loops that write `diff.In[i][:]`, and `diff.Out[i][:]`.
pub write_hashes : List ℕ → List ℕ
write_hashes [] = []
write_hashes (h ∷ hs) = be_bytes hash_size h ++ write_hashes hs

pub encoded : PoolDiff → List ℕ
unfolding uint64_bytes write_hashes
encoded d =
    uint64_bytes (length d.ins)
    ++ (write_hashes d.ins ++ (uint64_bytes (length d.outs) ++ write_hashes d.outs))

-- `none` is the panic on a wrong length.
pub encode_diff : PoolDiff → Option (List ℕ)
unfolding encoded
encode_diff d =
    if length (encoded d) == 16 + hash_size * (length d.ins + length d.outs)
    then some (encoded d)
    else none

pub data ReadError : Type 0 where
  in_length out_length in_hash out_hash not_at_end : ReadError

-- `Read` into `n` bytes, with the test that all were filled: the bytes, and what is left.
pub read : ℕ → List ℕ → Option (List ℕ × List ℕ)
read n r = if ltb (length r) n then none else some (take n r, drop n r)

-- `ReadAt`, which fails unless all bytes are there.
pub read_at : ℕ → ℕ → List ℕ → Option (List ℕ)
read_at n offset v = if leb (offset + n) (length v) then some (take n (drop offset v)) else none

abbrev pub and_then {ℓ κ} :
    {A : Type ℓ} {B : Type κ} → Option A → Option B → (A → Option B) → Option B
and_then none otherwise f = otherwise
and_then (some a) otherwise f = f a

pub read_hashes : ℕ → List ℕ → Option (List ℕ × List ℕ)
read_hashes zero r = some ([], r)
read_hashes (suc n) r =
    and_then (read hash_size r) none
      λ (h, r1). and_then (read_hashes n r1) none λ (hs, r2). some (be_value 0 h ∷ hs, r2)

pub data Decoded : Type 0 where
  decoded : PoolDiff → Decoded
  broken : ReadError → Decoded

finish : List ℕ → List ℕ → List ℕ → Decoded
finish ins outs [] = decoded (record { ins = ins; outs = outs })
finish ins outs (b ∷ r) = broken not_at_end

read_outs : ℕ → List ℕ → List ℕ → Decoded
unfolding finish
read_outs out_len ins r = elim (read_hashes out_len (drop 8 r)) [
  | none ↦ broken out_hash
  | some (outs, rest) ↦ finish ins outs rest
]

read_ins : ℕ → ℕ → List ℕ → Decoded
unfolding read_outs
read_ins in_len out_len r = elim (read_hashes in_len r) [
  | none ↦ broken in_hash
  | some (ins, rest) ↦ read_outs out_len ins rest
]

read_out_len : List ℕ → ℕ → List ℕ → Decoded
unfolding read_ins
read_out_len v in_len r = elim (read_at 8 (8 + in_len * hash_size) v) [
  | none ↦ broken out_length
  | some b ↦ read_ins in_len (be_value 0 b) r
]

-- One entry's value.
pub decode_diff : List ℕ → Decoded
unfolding read_out_len
decode_diff v = elim (read 8 v) [
  | none ↦ broken in_length
  | some (b, r) ↦ read_out_len v (be_value 0 b) r
]

-- Every hash is an array of 32 bytes.
abbrev pub AreHashes : List ℕ → Type 0
AreHashes [] = Unit
AreHashes (h ∷ hs) = (h < 256 ^ 32) × AreHashes hs

pub record IsStorable (d : PoolDiff) : Type 0 where
  pub in_hashes : AreHashes d.ins
  pub out_hashes : AreHashes d.outs
  pub in_count : length d.ins < 256 ^ 8
  pub out_count : length d.outs < 256 ^ 8
