-- ===== src/Coding/LengthPrefixed.antt =====
-- Strings behind their length: the round trip, the two overloads of `getLengthPrefixedSlice`, and
-- where a refused input stands.
use my_leveldb.Common.{
  ℕ, ◌^◌, ◌<◌, ◌≡◌, ◌++◌, arith, Bytes, leb, length, Option, none, some, length-append, true,
  append_assoc, drop-append, take-append, drop, Option-cases, inl, inr,
}
use my_leveldb.Coding.{
  put_varint32, put_length_prefixed_slice, get_varint32, get_varint32_ptr,
  get_length_prefixed_slice, get_length_prefixed_slice_ptr, encode_varint32, take_prefixed,
}
use my_leveldb.Coding.Decode.{get_varint32_ptr-encode_varint32}
use native.Mathlib.Nat.{mod-eq_of_lt}

get_varint32-encode_varint32 :
    (v : ℕ) (rest : Bytes) → v < 2 ^ 32 → get_varint32 (encode_varint32 v ++ rest) ≡ (rest, some v)
unfolding get_varint32
get_varint32-encode_varint32 v rest h = rw (get_varint32_ptr-encode_varint32 v rest h)

take_prefixed-append :
    (value rest : Bytes) → take_prefixed (value ++ rest, some (length value)) ≡ (rest, some value)
take_prefixed-append value rest =
    let enough : leb (length value) (length (value ++ rest)) ≡ true =
      ground (arith, length-append value rest) in
    rw (enough, take-append, drop-append)

-- A string shorter than 2 ^ 32 bytes that `putLengthPrefixedSlice` appended to any other is read
-- back by `getLengthPrefixedSlice`, and the input advances to what follows it.
pub get_length_prefixed_slice-put_length_prefixed_slice :
    (dst value rest : Bytes)
    → length value < 2 ^ 32
    → get_length_prefixed_slice (drop (length dst) (put_length_prefixed_slice dst value ++ rest))
      ≡ (rest, some value)
unfolding get_length_prefixed_slice put_length_prefixed_slice put_varint32
get_length_prefixed_slice-put_length_prefixed_slice dst value rest h =
    rw
      (
        mod-eq_of_lt h,
        append_assoc,
        append_assoc,
        drop-append,
        get_varint32-encode_varint32 (length value) (value ++ rest) h,
      )
      (take_prefixed-append value rest)

-- What the overload on pointers answers where the one on slices leaves `input` and `result`.
abbrev pub as_ptr : Bytes × Option Bytes → Option (Bytes × Bytes)
as_ptr (input, none) = none
as_ptr (input, some result) = some (result, input)

-- The overload on pointers and the one on slices accept the same inputs, with the same string and
-- the same bytes behind it.
pub get_length_prefixed_slice_ptr-as_ptr :
    (p : Bytes) → get_length_prefixed_slice_ptr p ≡ as_ptr (get_length_prefixed_slice p)
unfolding get_length_prefixed_slice_ptr get_length_prefixed_slice get_varint32
get_length_prefixed_slice_ptr-as_ptr p = elim (Option-cases (get_varint32_ptr p)) [
  | inl refused ↦ rw refused
  | inr ((len, q), read) ↦ rw read (ground arith)
]
