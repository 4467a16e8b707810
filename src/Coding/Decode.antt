-- ===== src/Coding/Decode.antt =====
-- `getVarint32` and `getVarint64` on what was encoded, and on any input.
use my_leveldb.Common.{
  ℕ, zero, suc, ◌+◌, ◌*◌, ◌/◌, ◌%◌, ◌^◌, ◌≤◌, ◌<◌, ◌≡◌, refl, ap, ◌∙◌, bit_and, bit_or, [], ◌∷◌,
  ◌++◌, arith, Bytes, IsByte, ltb, length, All, none, some, length-append, append-nil, append_assoc,
  drop-append, drop, Bool-cases, inl, inr,
}
use my_leveldb.Common.Bits.{bit_and-low_seven, bit_and-top_bit}
use my_leveldb.Coding.{
  encode_varint32, varint_loop, get_varint32_ptr_fallback, get_varint32_ptr, get_varint64_ptr,
  get_varint32, get_varint64, put_varint32, put_varint64, shl,
}
use my_leveldb.Coding.Varint.{base128, encode_varint32-base128, encode_varint64-base128}
use my_leveldb.Coding.Fixed.{bit_or-shl}
use native.Mathlib.Nat.{div-add-mod}
use native.Mathlib.Numerals.{towards_suc}

pub shift_seven : (s : ℕ) → 2 ^ (s + 7) ≡ 128 * 2 ^ s
shift_seven s = simp towards_suc (omega arith)

-- The lowest group of `v` and the others, shifted by `s`.
split_group : (v s : ℕ) → v * 2 ^ s ≡ v % 128 * 2 ^ s + v / 128 * 2 ^ (s + 7)
split_group v s = omega (
  arith,
  ap (λ (t : ℕ). t * 2 ^ s) (div-add-mod v 128),
  ap (λ (t : ℕ). v / 128 * t) (shift_seven s),
)

pub room : (v s result : ℕ) → result < 2 ^ s → result + v % 128 * 2 ^ s < 2 ^ (s + 7)
room v s result low = rw shift_seven (grind arith)

module _ (w last : ℕ) where
  last_byte :
      (b shift result : ℕ) (rest : Bytes)
      → b < 128
      → shift ≤ last
      → result < 2 ^ shift
      → b * 2 ^ shift < 2 ^ w
      → varint_loop w last (b ∷ rest) shift result ≡ some (result + b * 2 ^ shift, rest)
  unfolding varint_loop
  last_byte b shift result rest hb hs low fits =
      ground (arith, bit_and-top_bit b, bit_or-shl w shift result b low fits)

  inner_byte :
      (g shift result : ℕ) (rest : Bytes)
      → g < 128
      → shift ≤ last
      → result < 2 ^ shift
      → g * 2 ^ shift < 2 ^ w
      → varint_loop w last ((g + 128) ∷ rest) shift result
        ≡ varint_loop w last rest (shift + 7) (result + g * 2 ^ shift)
  unfolding varint_loop
  inner_byte g shift result rest hg hs low fits =
      let group : bit_and (g + 128) 127 ≡ g = omega (arith, bit_and-low_seven (g + 128)) in
      rw (group, bit_or-shl w shift result g low fits) (ground (arith, bit_and-top_bit (g + 128)))

  -- `v` is what is still to be read, and counts from bit `shift` on.
  varint_loop-base128 :
      (k v shift result : ℕ) (rest : Bytes)
      → v < 128 ^ suc k
      → shift + 7 * k ≤ last
      → result < 2 ^ shift
      → result + v * 2 ^ shift < 2 ^ w
      → varint_loop w last (base128 k v ++ rest) shift result ≡ some (result + v * 2 ^ shift, rest)
  unfolding base128
  varint_loop-base128 zero v shift result rest hv hs low fits =
      last_byte v shift result rest (omega arith) (omega arith) low (omega arith)
  varint_loop-base128 (suc k) v shift result rest hv hs low fits = ground (
    arith,
    last_byte v shift result rest,
    split_group v shift,
    inner_byte (v % 128) shift result (base128 k (v / 128) ++ rest),
    varint_loop-base128 k (v / 128) (shift + 7) (result + v % 128 * 2 ^ shift) rest (omega arith)
        (omega arith) (room v shift result low),
  )

  -- A proper prefix of an encoding is refused.
  varint_loop-prefix :
      (k v shift result x : ℕ) (front back : Bytes)
      → base128 k v ≡ front ++ (x ∷ back)
      → varint_loop w last front shift result ≡ none
  unfolding base128 varint_loop
  varint_loop-prefix k v shift result x [] back e = refl
  varint_loop-prefix zero v shift result x (b ∷ front) back e =
      absurd (omega (arith, ap length e, length-append front (x ∷ back)))
  varint_loop-prefix (suc k) v shift result x (b ∷ front) back e = elim (Bool-cases (ltb v 128)) [
    | inl small ↦ absurd (omega (arith, ap length (rw small at e), length-append front (x ∷ back)))
    | inr big ↦ ground (
      arith,
      bit_and-top_bit b,
      rw big at e,
      varint_loop-prefix k (v / 128) (shift + 7) (bit_or result (shl w (bit_and b 127) shift)) x
          front back,
    )
  ]

abbrev HeadIsByte : Bytes → Type 0
HeadIsByte [] = Unit {0}
HeadIsByte (b ∷ p) = IsByte b

base128-HeadIsByte : (k v : ℕ) (rest : Bytes) → v < 128 ^ suc k → HeadIsByte (base128 k v ++ rest)
unfolding base128
base128-HeadIsByte zero v rest h = omega arith
base128-HeadIsByte (suc k) v rest h = ground arith

ptr-eq-fallback : (p : Bytes) → HeadIsByte p → get_varint32_ptr p ≡ get_varint32_ptr_fallback p
unfolding get_varint32_ptr get_varint32_ptr_fallback varint_loop
ptr-eq-fallback [] h = refl
ptr-eq-fallback (b ∷ p) h = ground (arith, bit_or-shl 32 0 0 b)

-- On any bytes the inlined test of one byte in `getVarint32Ptr` changes nothing: the result is that
-- of `getVarint32PtrFallback`.
pub get_varint32_ptr-fallback :
    (p : Bytes) → All IsByte p → get_varint32_ptr p ≡ get_varint32_ptr_fallback p
get_varint32_ptr-fallback [] h = ptr-eq-fallback [] tt
get_varint32_ptr-fallback (b ∷ p) h = ptr-eq-fallback (b ∷ p) h.0

pub get_varint32_ptr-encode_varint32 :
    (v : ℕ) (rest : Bytes)
    → v < 2 ^ 32
    → get_varint32_ptr (encode_varint32 v ++ rest) ≡ some (v, rest)
unfolding get_varint32_ptr_fallback
get_varint32_ptr-encode_varint32 v rest h = rw (encode_varint32-base128 v h) (
    ptr-eq-fallback _ (base128-HeadIsByte 4 v rest (omega arith))
    ∙ varint_loop-base128 32 28 4 v 0 0 rest (omega arith) (omega arith) (omega arith) (omega arith)
    ∙ ap (λ t. some (t, rest)) (omega arith))

-- `getVarint32` reads back a number below 2 ^ 32 that `putVarint32` appended to any string, and
-- advances to what follows.
pub get_varint32-put_varint32 :
    (dst rest : Bytes) (v : ℕ)
    → v < 2 ^ 32
    → get_varint32 (drop (length dst) (put_varint32 dst v ++ rest)) ≡ (rest, some v)
unfolding get_varint32 put_varint32
get_varint32-put_varint32 dst rest v h =
    rw (append_assoc, drop-append, get_varint32_ptr-encode_varint32 v rest h)

-- `getVarint64` reads back a number below 2 ^ 64 that `putVarint64` appended to any string, and
-- advances to what follows.
pub get_varint64-put_varint64 :
    (dst rest : Bytes) (v : ℕ)
    → v < 2 ^ 64
    → get_varint64 (drop (length dst) (put_varint64 dst v ++ rest)) ≡ (rest, some v)
unfolding get_varint64 put_varint64 get_varint64_ptr
get_varint64-put_varint64 dst rest v h =
    rw (append_assoc, drop-append, encode_varint64-base128 v h, read)
  where
    read : varint_loop 64 63 (base128 9 v ++ rest) 0 0 ≡ some (v, rest)
    read =
        varint_loop-base128 64 63 9 v 0 0 rest (omega arith) (omega arith) (omega arith)
          (omega arith)
        ∙ ap (λ t. some (t, rest)) (omega arith)

HeadIsByte-append : (p q : Bytes) → HeadIsByte (p ++ q) → HeadIsByte p
HeadIsByte-append [] q h = tt
HeadIsByte-append (b ∷ p) q h = h

-- Cut short anywhere, what `putVarint32` wrote is refused, and the input stays where it was.
pub get_varint32-truncated :
    (v x : ℕ) (front back : Bytes)
    → v < 2 ^ 32
    → put_varint32 [] v ≡ front ++ (x ∷ back)
    → get_varint32 front ≡ (front, none)
unfolding get_varint32 put_varint32 get_varint32_ptr_fallback
get_varint32-truncated v x front back h e =
    rw (ptr-eq-fallback front head_byte, varint_loop-prefix 32 28 4 v 0 0 x front back written)
  where
    written : base128 4 v ≡ front ++ (x ∷ back)
    written = rw (encode_varint32-base128 v h) at e

    head_byte : HeadIsByte front
    head_byte =
        HeadIsByte-append front (x ∷ back)
          (rw (append-nil, written) at (base128-HeadIsByte 4 v [] (omega arith)))

-- Cut short anywhere, what `putVarint64` wrote is refused, and the input stays where it was.
pub get_varint64-truncated :
    (v x : ℕ) (front back : Bytes)
    → v < 2 ^ 64
    → put_varint64 [] v ≡ front ++ (x ∷ back)
    → get_varint64 front ≡ (front, none)
unfolding get_varint64 put_varint64 get_varint64_ptr
get_varint64-truncated v x front back h e =
    rw (varint_loop-prefix 64 63 9 v 0 0 x front back (rw (encode_varint64-base128 v h) at e))
