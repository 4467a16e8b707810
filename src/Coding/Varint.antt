-- ===== src/Coding/Varint.antt =====
-- What `encodeVarint32`, `encodeVarint64` and `varintLength` compute, in plain arithmetic.
use my_leveldb.Common.{
  ℕ, zero, suc, ◌+◌, ◌/◌, ◌%◌, ◌^◌, ◌≤◌, ◌<◌, ◌≡◌, sym, ◌∙◌, bit_and, bit_or, [], ◌∷◌, arith, Bytes,
  IsByte, ltb, if◌then◌else◌, length, All,
}
use my_leveldb.Common.Bits.{bit_and-low_seven, bit_or-top_bit}
use my_leveldb.Common.Order.{lt_wf}
use my_leveldb.Coding.{
  encode_varint32, encode_varint64, encode_varint64_loop, varint_length, varint_length_loop, shr,
}
use mathlib.Core.WellFounded.{Acc}

-- The groups of seven bits of `v`, lowest first, for `v` below `128 ^ (k + 1)`; every byte but the
-- last has its top bit set.
unfoldable pub base128 : ℕ → ℕ → Bytes
base128 zero v = v ∷ []
base128 (suc k) v =
    let rest = base128 k (v / 128) in if ltb v 128 then v ∷ [] else (v % 128 + 128) ∷ rest

top_group : (v : ℕ) → bit_or (bit_and v 127) 128 % 256 ≡ v % 128 + 128
top_group v = rw (bit_or-top_bit, bit_and-low_seven) (omega arith)

encode_varint64_loop-base128 :
    (k v : ℕ) (w : Acc ◌<◌ v) → v < 128 ^ suc k → encode_varint64_loop v w ≡ base128 k v
unfolding encode_varint64_loop base128
encode_varint64_loop-base128 zero v (Acc.intro _ smaller) h = ground (arith)
encode_varint64_loop-base128 (suc k) v (Acc.intro _ smaller) h = grind (
  arith,
  top_group v,
  λ (w : Acc ◌<◌ (v / 128)). encode_varint64_loop-base128 k (v / 128) w (omega arith),
)

pub encode_varint64-base128 : (v : ℕ) → v < 2 ^ 64 → encode_varint64 v ≡ base128 9 v
unfolding encode_varint64
encode_varint64-base128 v h = encode_varint64_loop-base128 9 v (lt_wf.apply v) (omega arith)

pub encode_varint32-base128 : (v : ℕ) → v < 2 ^ 32 → encode_varint32 v ≡ base128 4 v
unfolding encode_varint32 base128
encode_varint32-base128 v h =
    rw
      (
        bit_or-top_bit v,
        bit_or-top_bit (shr v 7),
        bit_or-top_bit (shr v 14),
        bit_or-top_bit (shr v 21),
      )
      (ground arith)

base128-suc : (k v : ℕ) → v < 128 ^ suc k → base128 (suc k) v ≡ base128 k v
unfolding base128
base128-suc zero v h = ground arith
base128-suc (suc k) v h = ground (arith, base128-suc k (v / 128) (omega arith))

-- Below 2 ^ 32 the unrolled `encodeVarint32` and the loop of `encodeVarint64` write the same bytes.
pub encode_varint32-eq-encode_varint64 :
    (v : ℕ) → v < 2 ^ 32 → encode_varint32 v ≡ encode_varint64 v
encode_varint32-eq-encode_varint64 v h =
    encode_varint32-base128 v h ∙ sym widen ∙ sym (encode_varint64-base128 v (omega arith))
  where
    widen : base128 9 v ≡ base128 4 v
    widen =
        base128-suc 8 v (omega arith)
        ∙ base128-suc 7 v (omega arith)
        ∙ base128-suc 6 v (omega arith)
        ∙ base128-suc 5 v (omega arith)
        ∙ base128-suc 4 v (omega arith)

varint_length_loop-length :
    (k v len : ℕ) (w : Acc ◌<◌ v)
    → v < 128 ^ suc k
    → varint_length_loop v w len + 1 ≡ len + length (base128 k v)
unfolding varint_length_loop base128
varint_length_loop-length zero v len (Acc.intro _ smaller) h = ground arith
varint_length_loop-length (suc k) v len (Acc.intro _ smaller) h = grind (
  arith,
  λ (w : Acc ◌<◌ (v / 128)). varint_length_loop-length k (v / 128) (len + 1) w (omega arith),
)

pub base128-IsByte : (k v : ℕ) → v < 128 ^ suc k → All IsByte (base128 k v)
unfolding base128
base128-IsByte zero v h = omega arith
base128-IsByte (suc k) v h = ground (arith, base128-IsByte k (v / 128) (omega arith))

pub length-base128 : (k v : ℕ) → (1 ≤ length (base128 k v)) × (length (base128 k v) ≤ k + 1)
unfolding base128
length-base128 zero v = omega arith
length-base128 (suc k) v = ground (arith, length-base128 k (v / 128))

-- Below 2 ^ 64 `varintLength` counts the bytes that `encodeVarint64` writes: 1 to 10, each of them a byte.
pub varint_length-encode_varint64 :
    (v : ℕ)
    → v < 2 ^ 64
    → (varint_length v ≡ length (encode_varint64 v))
      × (1 ≤ varint_length v)
      × (varint_length v ≤ 10)
      × All IsByte (encode_varint64 v)
unfolding varint_length
varint_length-encode_varint64 v h =
    let counted = varint_length_loop-length 9 v 1 (lt_wf.apply v) (omega arith) in
    let (lo, hi) = length-base128 9 v in
    rw (encode_varint64-base128 v h)
      (omega arith, omega arith, omega arith, base128-IsByte 9 v (omega arith))

-- `encodeVarint32` writes 1 to 5 bytes: the buffer of `putVarint32` is large enough.
pub length-encode_varint32 :
    (v : ℕ) → v < 2 ^ 32 → (1 ≤ length (encode_varint32 v)) × (length (encode_varint32 v) ≤ 5)
length-encode_varint32 v h = rw (encode_varint32-base128 v h) (length-base128 4 v)
