-- ===== src/TicketPool/Codec/RoundTrip.antt =====
-- What encodeDiff writes, loadAllPoolDiffsV1 reads back.
use mathlib.Core.List.{append_assoc, append-nil}
use monetarium_explorer.Prelude.{
  ℕ, ◌+◌, ◌*◌, ◌^◌, ◌<◌, ◌≡◌, refl, true, List, [], ◌∷◌, ◌++◌, some, arith, length, drop,
  length-append, leb,
}
use monetarium_explorer.Bytes.{
  be_bytes, be_value, length-be_bytes, be_value-be_bytes, take-append, drop-append,
}
use monetarium_explorer.TicketPool.{PoolDiff}
use monetarium_explorer.TicketPool.Codec.{
  hash_size, uint64_bytes, write_hashes, encoded, encode_diff, read, read_at, read_hashes, decoded,
  read_outs, read_ins, read_out_len, decode_diff, AreHashes, IsStorable,
}

length-write_hashes : (hs : List ℕ) → length (write_hashes hs) ≡ hash_size * length hs
unfolding write_hashes
length-write_hashes [] = refl
length-write_hashes (h ∷ hs) = omega (
  arith,
  length-append (be_bytes 32 h) (write_hashes hs),
  length-be_bytes 32 h,
  length-write_hashes hs,
)

pub length-encoded :
    (d : PoolDiff) → length (encoded d) ≡ 16 + hash_size * (length d.ins + length d.outs)
unfolding encoded
length-encoded d =
    let a = uint64_bytes (length d.ins) in
    let b = write_hashes d.ins in
    let c = uint64_bytes (length d.outs) in
    let e = write_hashes d.outs in
    omega (
      arith,
      length-append a (b ++ (c ++ e)),
      length-append b (c ++ e),
      length-append c e,
      length-be_bytes 8 (length d.ins),
      length-be_bytes 8 (length d.outs),
      length-write_hashes d.ins,
      length-write_hashes d.outs,
    )

-- encodeDiff does not panic: the length that it computes is the length that it wrote.
pub encode_diff-total : (d : PoolDiff) → encode_diff d ≡ some (encoded d)
unfolding encode_diff
encode_diff-total d = ground (arith, length-encoded d)

read-append : (n : ℕ) (xs r : List ℕ) → length xs ≡ n → read n (xs ++ r) ≡ some (xs, r)
unfolding read
read-append n xs r e =
    rw (take-append xs r n e, drop-append xs r n e) (ground (arith, length-append xs r))

read_hashes-write_hashes :
    (hs r : List ℕ) → AreHashes hs → read_hashes (length hs) (write_hashes hs ++ r) ≡ some (hs, r)
unfolding read_hashes write_hashes
read_hashes-write_hashes [] r ok = refl
read_hashes-write_hashes (h ∷ hs) r ok =
    rw
      (
        append_assoc (be_bytes 32 h) (write_hashes hs) r,
        read-append 32 (be_bytes 32 h) (write_hashes hs ++ r) (length-be_bytes 32 h),
        read_hashes-write_hashes hs r ok.1,
        be_value-be_bytes 32 h ok.0,
      )
      refl

read_at-encoded :
    (d : PoolDiff)
    → read_at 8 (8 + length d.ins * hash_size) (encoded d) ≡ some (uint64_bytes (length d.outs))
unfolding read_at encoded
read_at-encoded d =
    let a = uint64_bytes (length d.ins) in
    let b = write_hashes d.ins in
    let c = uint64_bytes (length d.outs) in
    let e = write_hashes d.outs in
    let offset : length (a ++ b) ≡ 8 + length d.ins * hash_size =
      omega
        (arith, length-append a b, length-be_bytes 8 (length d.ins), length-write_hashes d.ins) in
    let inside : leb (8 + length d.ins * hash_size + 8) (length (encoded d)) ≡ true =
      ground (arith, length-encoded d) in
    rw
      (
        inside,
        ← append_assoc a b (c ++ e),
        drop-append (a ++ b) (c ++ e) (8 + length d.ins * hash_size) offset,
        take-append c e 8 (length-be_bytes 8 (length d.outs)),
      )
      refl

pub be_value-uint64_bytes : (v : ℕ) → v < 256 ^ 8 → be_value 0 (uint64_bytes v) ≡ v
unfolding uint64_bytes
be_value-uint64_bytes v fits = be_value-be_bytes 8 v fits

after_in_len : PoolDiff → List ℕ
after_in_len d = write_hashes d.ins ++ (uint64_bytes (length d.outs) ++ write_hashes d.outs)

read_ins-encoded :
    (d : PoolDiff)
    → IsStorable d
    → read_ins
        (length d.ins)
        (length d.outs)
        (write_hashes d.ins ++ (uint64_bytes (length d.outs) ++ write_hashes d.outs))
      ≡ decoded d
unfolding read_ins uint64_bytes
read_ins-encoded d s =
    let c = uint64_bytes (length d.outs) in
    let e = write_hashes d.outs in
    let outs : read_hashes (length d.outs) e ≡ some (d.outs, []) =
      rw (append-nil e) at (read_hashes-write_hashes d.outs [] s.out_hashes) in
    let rest : drop 8 (c ++ e) ≡ e = drop-append c e 8 (length-be_bytes 8 (length d.outs)) in
    rw (read_hashes-write_hashes d.ins (c ++ e) s.in_hashes, read_ins)
      (rw (rest, outs, read_outs) refl)

pub decode_diff-encoded : (d : PoolDiff) → IsStorable d → decode_diff (encoded d) ≡ decoded d
unfolding decode_diff after_in_len encoded
decode_diff-encoded d s =
    let first : read 8 (encoded d) ≡ some (uint64_bytes (length d.ins), after_in_len d) =
      read-append 8 (uint64_bytes (length d.ins)) (after_in_len d)
        (length-be_bytes 8 (length d.ins)) in
    rw (first, decode_diff)
      (rw (be_value-uint64_bytes (length d.ins) s.in_count) (
        rw (read_at-encoded d, read_out_len)
          (rw (be_value-uint64_bytes (length d.outs) s.out_count) (read_ins-encoded d s))))

-- A diff of 32-byte hashes, fewer than 2^64 of them in each list: encodeDiff writes it, without its
-- panic, and the reader of version 1 entries reads it back, both lists in order and with no byte left
-- over.
pub decode_diff-encode_diff :
    (d : PoolDiff)
    → IsStorable d
    → (v : List ℕ) × (encode_diff d ≡ some v) × (decode_diff v ≡ decoded d)
decode_diff-encode_diff d s = (encoded d, encode_diff-total d, decode_diff-encoded d s)

pub length-uint64_bytes : (v : ℕ) → length (uint64_bytes v) ≡ 8
unfolding uint64_bytes
length-uint64_bytes v = length-be_bytes 8 v
