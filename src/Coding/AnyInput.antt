-- ===== src/Coding/AnyInput.antt =====
-- `getVarint32` and `getVarint64` on any bytes: what they accept, how far they read, and the range
-- of their results.
use my_leveldb.Common.{
  ℕ, zero, suc, ◌+◌, ◌*◌, ◌%◌, ◌^◌, ◌≤◌, ◌<◌, ◌≡◌, refl, ap, ◌∙◌, bit_and, bit_or, [], ◌∷◌, arith,
  Bytes, IsByte, ltb, leb, if◌then◌else◌, length, All, Option, none, some, ◌-◌, ◌&&◌, drop,
  Bool-cases, inl, inr,
}
use my_leveldb.Common.Bits.{bit_and-low_seven, bit_and-top_bit, bit_or_disjoint}
use my_leveldb.Coding.{
  varint_loop, get_varint32_ptr_fallback, get_varint64_ptr, get_varint32, get_varint64, shl,
  advance,
}
use my_leveldb.Coding.Decode.{shift_seven, room, get_varint32_ptr-fallback}
use native.Mathlib.Nat.{pow-suc, zero-add, mod-eq_of_lt}

mod_double : (a m : ℕ) → a * 2 % (m * 2) ≡ a % m * 2
mod_double a m = grind arith

suc_add : (s d : ℕ) → suc s + d ≡ suc (s + d)
suc_add s d = omega arith

-- A shift that may lose the top bits.
shl-mod : (s d x : ℕ) → shl (s + d) x s ≡ x % 2 ^ d * 2 ^ s
shl-mod zero d x = let one : x * 2 ^ 0 ≡ x = omega arith in rw (zero-add, one) (omega arith)
shl-mod (suc s) d x =
    let exponent : 2 ^ (suc s + d) ≡ 2 ^ (s + d) * 2 = rw (suc_add, pow-suc) in
    let shifted : x * 2 ^ suc s ≡ x * 2 ^ s * 2 = rw pow-suc (omega arith) in
    rw (exponent, shifted)
      (mod_double (x * 2 ^ s) (2 ^ (s + d))
        ∙ ap (λ (t : ℕ). t * 2) (shl-mod s d x)
        ∙ rw pow-suc (omega arith))

bit_or-shl-mod : (s d lo x : ℕ) → lo < 2 ^ s → bit_or lo (shl (s + d) x s) ≡ lo + x % 2 ^ d * 2 ^ s
bit_or-shl-mod s d lo x h = rw shl-mod (bit_or_disjoint s lo (x % 2 ^ d) h)

mod_128 : (g y m : ℕ) → g < 128 → 0 < m → (g + 128 * y) % (128 * m) ≡ g + 128 * (y % m)
mod_128 g y m h pos = grind arith

pow-pos : (d : ℕ) → 0 < 2 ^ d
pow-pos zero = omega arith
pow-pos (suc d) = omega (arith, pow-suc 2 d, pow-pos d)

-- A group at bit `s` and the groups `y` behind it, with `d` bits left for those.
merge_groups :
    (b y s d : ℕ)
    → b % 128 * 2 ^ s + y % 2 ^ d * 2 ^ (s + 7) ≡ (b % 128 + 128 * y) % 2 ^ (d + 7) * 2 ^ s
merge_groups b y s d =
    rw (shift_seven, shift_seven, mod_128 (b % 128) y (2 ^ d) (omega arith) (pow-pos d))
      (omega arith)

one_group :
    (s d b : ℕ) → bit_and b 127 ≡ b % 128 → shl (s + (d + 7)) (bit_and b 127) s ≡ b % 128 * 2 ^ s
one_group s d b e =
    rw (e, shl-mod s (d + 7) (b % 128), shift_seven)
      (ap (λ (t : ℕ). t * 2 ^ s) (mod-eq_of_lt (omega (arith, pow-pos d))))

-- The number of bytes with the top bit set at the front.
unfoldable pub continuation_run : Bytes → ℕ
continuation_run [] = 0
continuation_run (b ∷ p) = if ltb b 128 then 0 else suc (continuation_run p)

-- The number that the groups of seven bits up to the first byte without the top bit denote.
unfoldable pub base128_value : Bytes → ℕ
base128_value [] = 0
base128_value (b ∷ p) = if ltb b 128 then b else b % 128 + 128 * base128_value p

-- A varint of at most `m + 1` bytes, taken modulo `2 ^ w`: what `varint_loop` is to compute.
unfoldable pub parse_varint : (w m : ℕ) → Bytes → Option (ℕ × Bytes)
unfolding continuation_run base128_value
parse_varint w m p =
    if leb (continuation_run p) m && ltb (continuation_run p) (length p)
    then some (base128_value p % 2 ^ w, drop (continuation_run p + 1) p)
    else none

module _ (w last m : ℕ) where
  past_last :
      (p : Bytes) (shift result : ℕ) → last < shift → varint_loop w last p shift result ≡ none
  unfolding varint_loop
  past_last [] shift result h = refl
  past_last (b ∷ p) shift result h = ground arith

  step_last :
      (b : ℕ) (p : Bytes) (shift d result : ℕ)
      → b < 128
      → shift ≤ last
      → shift + d ≡ w
      → result < 2 ^ shift
      → varint_loop w last (b ∷ p) shift result ≡ some (result + b % 2 ^ d * 2 ^ shift, p)
  unfolding varint_loop
  step_last b p shift d result hb hs hd low =
      let joined : bit_or result (shl w b shift) ≡ result + b % 2 ^ d * 2 ^ shift =
        rw (← hd) (bit_or-shl-mod shift d result b low) in
      ground (arith, bit_and-top_bit b, joined)

  step_more :
      (b : ℕ) (p : Bytes) (shift d result : ℕ)
      → 128 ≤ b
      → b < 256
      → shift ≤ last
      → shift + (d + 7) ≡ w
      → result < 2 ^ shift
      → varint_loop w last (b ∷ p) shift result
        ≡ varint_loop w last p (shift + 7) (result + b % 128 * 2 ^ shift)
  unfolding varint_loop
  step_more b p shift d result hb hb' hs hd low =
      let group : shl w (bit_and b 127) shift ≡ b % 128 * 2 ^ shift =
        rw (← hd) (one_group shift d b (bit_and-low_seven b)) in
      rw (group, bit_or_disjoint shift result (b % 128) low) (ground (arith, bit_and-top_bit b))

  abbrev parse_from : (j shift d result : ℕ) → Bytes → Option (ℕ × Bytes)
  parse_from j shift d result p =
      if leb (j + continuation_run p) m && ltb (continuation_run p) (length p)
      then some (result + base128_value p % 2 ^ d * 2 ^ shift, drop (continuation_run p + 1) p)
      else none

  -- After `j` bytes the shift is `7 * j`, with `d` bits left above it.
  varint_loop-parse_from :
      (p : Bytes) (j shift d result : ℕ)
      → All IsByte p
      → shift ≡ 7 * j
      → last ≡ 7 * m
      → shift + d ≡ w
      → last < w
      → result < 2 ^ shift
      → varint_loop w last p shift result ≡ parse_from j shift d result p
  unfolding varint_loop continuation_run base128_value
  varint_loop-parse_from [] j shift d result h hs hl hd hw low = ground arith
  varint_loop-parse_from (b ∷ p) j shift d result h hs hl hd hw low =
      elim (Bool-cases (ltb b 128)) [
        | inl final ↦ elim (Bool-cases (leb shift last)) [
          | inl room_left ↦ ground (arith, step_last b p shift d result)
          | inr too_far ↦ ground (arith, past_last (b ∷ p) shift result)
        ]
        | inr more ↦ elim (Bool-cases (leb (shift + 7) last)) [
          | inl room_left ↦
              let fits : shift + 7 ≤ last = ground arith in
              let split : d ≡ d - 7 + 7 = omega arith in
              ground (
                arith,
                step_more b p shift (d - 7) result,
                merge_groups b (base128_value p) shift (d - 7),
                room b shift result low,
                split,
                ap (λ (t : ℕ). 2 ^ t) split,
                varint_loop-parse_from p (j + 1) (shift + 7) (d - 7) (result + b % 128 * 2 ^ shift)
                    h.1,
              )
          | inr too_far ↦ ground (
            arith,
            bit_and-top_bit b,
            past_last p (shift + 7) (bit_or result (shl w (bit_and b 127) shift)),
          )
        ]
      ]

parse_from-parse_varint :
    (w last m : ℕ) (p : Bytes) → parse_from w last m 0 0 w 0 p ≡ parse_varint w m p
unfolding parse_varint
parse_from-parse_varint w last m p =
    let value : 0 + base128_value p % 2 ^ w * 2 ^ 0 ≡ base128_value p % 2 ^ w = omega arith in
    rw (value, zero-add)

-- `getVarint32` on any bytes: it accepts at most five bytes up to the first one without the top bit,
-- returns the number that their groups denote modulo 2 ^ 32 and the bytes behind them, and else
-- answers false and leaves the input.
pub get_varint32-parse_varint :
    (p : Bytes) → All IsByte p → get_varint32 p ≡ advance p (parse_varint 32 4 p)
unfolding get_varint32 get_varint32_ptr_fallback parse_varint
get_varint32-parse_varint p h =
    rw
      (
        get_varint32_ptr-fallback p h,
        varint_loop-parse_from 32 28 4 p 0 0 32 0 h refl refl refl (omega arith) (omega arith),
      )
      (ap (advance p) (parse_from-parse_varint 32 28 4 p))

-- `getVarint64` on any bytes: it accepts at most ten bytes up to the first one without the top bit,
-- returns the number that their groups denote modulo 2 ^ 64 and the bytes behind them, and else
-- answers false and leaves the input.
pub get_varint64-parse_varint :
    (p : Bytes) → All IsByte p → get_varint64 p ≡ advance p (parse_varint 64 9 p)
unfolding get_varint64 get_varint64_ptr parse_varint
get_varint64-parse_varint p h =
    rw (varint_loop-parse_from 64 63 9 p 0 0 64 0 h refl refl refl (omega arith) (omega arith))
      (ap (advance p) (parse_from-parse_varint 64 63 9 p))
