-- ===== src/Coding.antt =====
-- coding.h and coding.cpp: fixed-width and variable-length encodings of integers, and strings
-- behind their length. A `std::string`, and the bytes from a pointer up to its limit, are lists of
-- bytes; a `uint32_t` or `uint64_t` is a number, with the wrap-around written out.
pub mod Fixed
pub mod Varint
pub mod Decode
pub mod AnyInput
pub mod LengthPrefixed
use my_leveldb.Common.{
  ℕ, zero, suc, ◌+◌, ◌*◌, ◌/◌, ◌%◌, ◌^◌, ◌<◌, bit_and, bit_or, Bool, true, Option, none, some, List,
  [], ◌∷◌, ◌++◌, arith, Bytes, ltb, leb, ◌==◌, if◌then◌else◌, length, take, drop, ◌>>=◌,
}
use my_leveldb.Common.Order.{lt_wf}
use mathlib.Core.Logic.{dite}
use mathlib.Core.WellFounded.{Acc}
use native.Mathlib.Decide.{dec_lt}

-- port_win.h fixes the byte order of the machine.
abbrev pub k_little_endian : Bool
k_little_endian = true

-- `x << k` in an unsigned integer of `w` bits, `x >> k`, and a conversion to `unsigned char`.
abbrev pub shl : ℕ → ℕ → ℕ → ℕ
shl w x k = x * 2 ^ k % 2 ^ w

abbrev pub shr : ℕ → ℕ → ℕ
shr x k = x / 2 ^ k

abbrev pub to_char : ℕ → ℕ
to_char x = x % 256

-- The bytes in memory of an unsigned integer of `w` bytes on a little-endian machine: what
-- `memcpy` copies out of it, and what it reads into one. `none`: a read outside the data.
unfoldable pub bytes_of_word : ℕ → ℕ → Bytes
bytes_of_word zero v = []
bytes_of_word (suc w) v = (v % 256) ∷ bytes_of_word w (v / 256)

unfoldable pub word_of_bytes : ℕ → Bytes → Option ℕ
word_of_bytes zero p = some 0
word_of_bytes (suc w) [] = none
word_of_bytes (suc w) (b ∷ p) = do hi ← word_of_bytes w p; some (b + 256 * hi)

-- What is written at `buf`. The first function of each pair is the branch of the `#if` that copies
-- the word, the second one the branch that writes it byte by byte.
unfoldable pub encode_fixed32 : ℕ → Bytes
encode_fixed32 value = bytes_of_word 4 value

unfoldable pub encode_fixed32_portable : ℕ → Bytes
encode_fixed32_portable value =
    bit_and value 0xff
    ∷ bit_and (shr value 8) 0xff
    ∷ bit_and (shr value 16) 0xff
    ∷ bit_and (shr value 24) 0xff
    ∷ []

unfoldable pub encode_fixed64 : ℕ → Bytes
encode_fixed64 value = bytes_of_word 8 value

unfoldable pub encode_fixed64_portable : ℕ → Bytes
encode_fixed64_portable value =
    bit_and value 0xff
    ∷ bit_and (shr value 8) 0xff
    ∷ bit_and (shr value 16) 0xff
    ∷ bit_and (shr value 24) 0xff
    ∷ bit_and (shr value 32) 0xff
    ∷ bit_and (shr value 40) 0xff
    ∷ bit_and (shr value 48) 0xff
    ∷ bit_and (shr value 56) 0xff
    ∷ []

unfoldable pub put_fixed32 : Bytes → ℕ → Bytes
put_fixed32 dst value = dst ++ encode_fixed32 value

unfoldable pub put_fixed64 : Bytes → ℕ → Bytes
put_fixed64 dst value = dst ++ encode_fixed64 value

-- The statement behind the test of `kLittleEndian`.
unfoldable pub decode_fixed32_portable : Bytes → Option ℕ
decode_fixed32_portable (b0 ∷ b1 ∷ b2 ∷ b3 ∷ p) =
    some (bit_or (bit_or (bit_or b0 (shl 32 b1 8)) (shl 32 b2 16)) (shl 32 b3 24))
decode_fixed32_portable p = none

unfoldable pub decode_fixed32 : Bytes → Option ℕ
decode_fixed32 ptr = if k_little_endian then word_of_bytes 4 ptr else decode_fixed32_portable ptr

-- The statements behind the test of `kLittleEndian` in `decodeFixed64`: the high half is read by
-- `decodeFixed64` itself. The first number is the fuel of that recursion.
unfoldable pub decode_fixed64_portable : ℕ → Bytes → Option ℕ
decode_fixed64_portable zero ptr = none
decode_fixed64_portable (suc fuel) ptr =
    let high = decode_fixed64_portable fuel (drop 4 ptr) in
    do lo ← decode_fixed32_portable ptr; hi ← high; some (bit_or (shl 64 hi 32) lo)

unfoldable pub decode_fixed64 : Bytes → Option ℕ
decode_fixed64 ptr =
    if k_little_endian then word_of_bytes 8 ptr else decode_fixed64_portable (length ptr) ptr

-- What is written at `dst`.
unfoldable pub encode_varint32 : ℕ → Bytes
encode_varint32 v =
    if ltb v (2 ^ 7)
    then to_char v ∷ []
    else if ltb v (2 ^ 14)
    then to_char (bit_or v 128) ∷ to_char (shr v 7) ∷ []
    else if ltb v (2 ^ 21)
    then to_char (bit_or v 128) ∷ to_char (bit_or (shr v 7) 128) ∷ to_char (shr v 14) ∷ []
    else if ltb v (2 ^ 28)
    then to_char (bit_or v 128)
      ∷ to_char (bit_or (shr v 7) 128)
      ∷ to_char (bit_or (shr v 14) 128)
      ∷ to_char (shr v 21)
      ∷ []
    else to_char (bit_or v 128)
      ∷ to_char (bit_or (shr v 7) 128)
      ∷ to_char (bit_or (shr v 14) 128)
      ∷ to_char (bit_or (shr v 21) 128)
      ∷ to_char (shr v 28)
      ∷ []

shift_shrinks : (v : ℕ) → 127 < v → shr v 7 < v
shift_shrinks v h = omega arith

encode_varint64_loop : (v : ℕ) → Acc ◌<◌ v → Bytes
encode_varint64_loop v (Acc.intro _ smaller) =
    dite (dec_lt 127 v)
      (λ more.
        to_char (bit_or (bit_and v 127) 128)
        ∷ encode_varint64_loop (shr v 7) (smaller _ (shift_shrinks v more)))
      (λ _. to_char v ∷ [])

unfoldable pub encode_varint64 : ℕ → Bytes
unfolding encode_varint64_loop shift_shrinks lt_wf dec_lt
encode_varint64 v = encode_varint64_loop v (lt_wf.apply v)

unfoldable pub put_varint32 : Bytes → ℕ → Bytes
put_varint32 dst value = dst ++ encode_varint32 value

unfoldable pub put_varint64 : Bytes → ℕ → Bytes
put_varint64 dst value = dst ++ encode_varint64 value

-- `value.size()` is converted to a `uint32_t`.
unfoldable pub put_length_prefixed_slice : Bytes → Bytes → Bytes
put_length_prefixed_slice dst value = put_varint32 dst (length value % 2 ^ 32) ++ value

varint_length_loop : (v : ℕ) → Acc ◌<◌ v → ℕ → ℕ
varint_length_loop v (Acc.intro _ smaller) len =
    dite (dec_lt 127 v)
      (λ more. varint_length_loop (shr v 7) (smaller _ (shift_shrinks v more)) (len + 1)) (λ _. len)

unfoldable pub varint_length : ℕ → ℕ
unfolding varint_length_loop shift_shrinks lt_wf dec_lt
varint_length v = varint_length_loop v (lt_wf.apply v) 1

-- The loop of `getVarint32PtrFallback` and of `getVarint64Ptr`, in a word of `w` bits with shifts
-- up to `last`. A value comes with the bytes behind it; `none` is the pointer NULL.
unfoldable pub varint_loop : (w last : ℕ) → Bytes → (shift result : ℕ) → Option (ℕ × Bytes)
varint_loop w last [] shift result = none
varint_loop w last (byte ∷ p) shift result =
    let more = varint_loop w last p (shift + 7) (bit_or result (shl w (bit_and byte 127) shift)) in
    if leb shift last
    then if bit_and byte 128 == 0 then some (bit_or result (shl w byte shift), p) else more
    else none

unfoldable pub get_varint32_ptr_fallback : Bytes → Option (ℕ × Bytes)
get_varint32_ptr_fallback p = varint_loop 32 28 p 0 0

unfoldable pub get_varint32_ptr : Bytes → Option (ℕ × Bytes)
get_varint32_ptr [] = get_varint32_ptr_fallback []
get_varint32_ptr (byte ∷ p) =
    if bit_and byte 128 == 0 then some (byte, p) else get_varint32_ptr_fallback (byte ∷ p)

unfoldable pub get_varint64_ptr : Bytes → Option (ℕ × Bytes)
get_varint64_ptr p = varint_loop 64 63 p 0 0

-- A function that advances `*input` returns the slice that it leaves there, and `none` where the
-- source returns false.
abbrev pub advance : Bytes → Option (ℕ × Bytes) → Bytes × Option ℕ
advance input none = (input, none)
advance input (some (value, q)) = (q, some value)

unfoldable pub get_varint32 : Bytes → Bytes × Option ℕ
get_varint32 input = advance input (get_varint32_ptr input)

unfoldable pub get_varint64 : Bytes → Bytes × Option ℕ
get_varint64 input = advance input (get_varint64_ptr input)

-- The overload on pointers: the slice and the bytes behind it.
unfoldable pub get_length_prefixed_slice_ptr : Bytes → Option (Bytes × Bytes)
get_length_prefixed_slice_ptr p = do
  (len, q) ← get_varint32_ptr p
  if ltb (length q) len then none else some (take len q, drop len q)

abbrev pub take_prefixed : Bytes × Option ℕ → Bytes × Option Bytes
take_prefixed (input, none) = (input, none)
take_prefixed (input, some len) =
    if leb len (length input) then (drop len input, some (take len input)) else (input, none)

-- The overload on slices. A length that is too large has been consumed when it answers false.
unfoldable pub get_length_prefixed_slice : Bytes → Bytes × Option Bytes
get_length_prefixed_slice input = take_prefixed (get_varint32 input)
