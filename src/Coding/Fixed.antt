-- ===== src/Coding/Fixed.antt =====
-- The fixed-width encodings: round trips, the portable branches against the copying ones, and the
-- recursion of the portable branch of `decodeFixed64`.
use my_leveldb.Common.{
  ℕ, zero, suc, ◌+◌, ◌*◌, ◌/◌, ◌%◌, ◌^◌, ◌<◌, ◌≡◌, refl, ap, ◌∙◌, bit_or, Option, none, some, [],
  ◌∷◌, ◌++◌, arith, Bytes, IsByte, length, drop, drop-append, append-nil, append_assoc, ◌≤◌, All,
  Option-cases, inl, inr,
}
use my_leveldb.Common.Bits.{bit_or_disjoint, bit_and-low_byte}
use my_leveldb.Coding.{
  bytes_of_word, word_of_bytes, encode_fixed32, encode_fixed32_portable, encode_fixed64,
  encode_fixed64_portable, put_fixed32, put_fixed64, decode_fixed32, decode_fixed32_portable,
  decode_fixed64, decode_fixed64_portable, shl,
}
use native.Mathlib.Nat.{pow-suc, mod-eq_of_lt}

-- `lo | (x << s)` is a sum where the bits are apart and none is shifted out.
pub bit_or-shl :
    (w s lo x : ℕ) → lo < 2 ^ s → x * 2 ^ s < 2 ^ w → bit_or lo (shl w x s) ≡ lo + x * 2 ^ s
bit_or-shl w s lo x low fits = rw (mod-eq_of_lt fits) (bit_or_disjoint s lo x low)

pub length-bytes_of_word : (w v : ℕ) → length (bytes_of_word w v) ≡ w
unfolding bytes_of_word
length-bytes_of_word zero v = refl
length-bytes_of_word (suc w) v = omega (arith, length-bytes_of_word w (v / 256))

pub bytes_of_word-IsByte : (w v : ℕ) → All IsByte (bytes_of_word w v)
unfolding bytes_of_word
bytes_of_word-IsByte zero v = tt
bytes_of_word-IsByte (suc w) v = (omega arith, bytes_of_word-IsByte w (v / 256))

pub word_of_bytes-bytes_of_word :
    (w v : ℕ) (rest : Bytes) → v < 256 ^ w → word_of_bytes w (bytes_of_word w v ++ rest) ≡ some v
unfolding word_of_bytes bytes_of_word
word_of_bytes-bytes_of_word zero v rest h = ap {B = Option ℕ} some (omega arith)
word_of_bytes-bytes_of_word (suc w) v rest h =
    let small : v / 256 < 256 ^ w = omega (arith, pow-suc 256 w) in
    rw (word_of_bytes-bytes_of_word w (v / 256) rest small) (ap {B = Option ℕ} some (omega arith))

word_of_bytes_inv :
    (w b : ℕ) (p : Bytes) {v : ℕ}
    → word_of_bytes (suc w) (b ∷ p) ≡ some v
    → (hi : ℕ) × (word_of_bytes w p ≡ some hi) × (v ≡ b + 256 * hi)
unfolding word_of_bytes
word_of_bytes_inv w b p {v} e = elim (Option-cases (word_of_bytes w p)) [
  | inl no_word ↦ cc
  | inr (hi, got) ↦ (hi, got, ground arith)
]

-- What is read from bytes determines them.
pub bytes_of_word-word_of_bytes :
    (w : ℕ) (p rest : Bytes) {v : ℕ}
    → All IsByte p
    → length p ≡ w
    → word_of_bytes w (p ++ rest) ≡ some v
    → bytes_of_word w v ≡ p
unfolding word_of_bytes bytes_of_word
bytes_of_word-word_of_bytes zero [] rest hp hl e = refl
bytes_of_word-word_of_bytes zero (b ∷ p) rest hp hl e = absurd (omega arith)
bytes_of_word-word_of_bytes (suc w) [] rest hp hl e = absurd (omega arith)
bytes_of_word-word_of_bytes (suc w) (b ∷ p) rest {v} hp hl e =
    let (hi, got, value) = word_of_bytes_inv w b (p ++ rest) e in
    let low : v % 256 ≡ b = omega (arith, hp.0) in
    let high : v / 256 ≡ hi = omega (arith, hp.0) in
    rw (low, high) (ap (λ t. b ∷ t) (bytes_of_word-word_of_bytes w p rest hp.1 (omega arith) got))

-- A 32-bit word is read back from behind what `putFixed32` was given to append to.
pub decode_fixed32-put_fixed32 :
    (dst rest : Bytes) (v : ℕ)
    → v < 2 ^ 32
    → decode_fixed32 (drop (length dst) (put_fixed32 dst v ++ rest)) ≡ some v
unfolding decode_fixed32 put_fixed32 encode_fixed32
decode_fixed32-put_fixed32 dst rest v h =
    rw (append_assoc, drop-append) (word_of_bytes-bytes_of_word 4 v rest h)

-- A 64-bit word is read back from behind what `putFixed64` was given to append to.
pub decode_fixed64-put_fixed64 :
    (dst rest : Bytes) (v : ℕ)
    → v < 2 ^ 64
    → decode_fixed64 (drop (length dst) (put_fixed64 dst v ++ rest)) ≡ some v
unfolding decode_fixed64 put_fixed64 encode_fixed64
decode_fixed64-put_fixed64 dst rest v h =
    rw (append_assoc, drop-append) (word_of_bytes-bytes_of_word 8 v rest h)

-- The two branches of `encodeFixed32`, and those of `encodeFixed64`, write the same bytes.
pub encode_fixed-portable :
    (v : ℕ)
    → (encode_fixed32_portable v ≡ encode_fixed32 v)
      × (encode_fixed64_portable v ≡ encode_fixed64 v)
unfolding encode_fixed32_portable encode_fixed32 encode_fixed64_portable encode_fixed64
    bytes_of_word
encode_fixed-portable v =
    (simp bit_and-low_byte (ground arith), simp bit_and-low_byte (ground arith))

-- The two branches of `decodeFixed32` read the same word, and both fault on fewer than four bytes.
pub decode_fixed32-portable :
    (p : Bytes) → All IsByte p → decode_fixed32_portable p ≡ decode_fixed32 p
unfolding decode_fixed32_portable decode_fixed32 word_of_bytes
decode_fixed32-portable [] h = refl
decode_fixed32-portable (b0 ∷ []) h = refl
decode_fixed32-portable (b0 ∷ b1 ∷ []) h = refl
decode_fixed32-portable (b0 ∷ b1 ∷ b2 ∷ []) h = refl
decode_fixed32-portable (b0 ∷ b1 ∷ b2 ∷ b3 ∷ p) h =
    ap {B = Option ℕ} some (or_byte_24 ∙ omega arith)
  where
    or_byte_8 : bit_or b0 (shl 32 b1 8) ≡ b0 + b1 * 2 ^ 8
    or_byte_8 = bit_or-shl 32 8 b0 b1 (omega arith) (omega arith)

    or_byte_16 : bit_or (bit_or b0 (shl 32 b1 8)) (shl 32 b2 16) ≡ b0 + b1 * 2 ^ 8 + b2 * 2 ^ 16
    or_byte_16 = rw or_byte_8 (bit_or-shl 32 16 (b0 + b1 * 2 ^ 8) b2 (omega arith) (omega arith))

    or_byte_24 :
        bit_or (bit_or (bit_or b0 (shl 32 b1 8)) (shl 32 b2 16)) (shl 32 b3 24)
        ≡ b0 + b1 * 2 ^ 8 + b2 * 2 ^ 16 + b3 * 2 ^ 24
    or_byte_24 =
        rw or_byte_16
          (bit_or-shl 32 24 (b0 + b1 * 2 ^ 8 + b2 * 2 ^ 16) b3 (omega arith) (omega arith))

-- The portable branch of `decodeFixed64` returns on no input: its high half is another call of
-- itself, so no depth of recursion is enough.
pub decode_fixed64_portable-ne-some : (fuel : ℕ) (p : Bytes) → decode_fixed64_portable fuel p ≡ none
unfolding decode_fixed64_portable
decode_fixed64_portable-ne-some zero p = refl
decode_fixed64_portable-ne-some (suc fuel) p =
    ground (arith, decode_fixed64_portable-ne-some fuel (drop 4 p))

pub word_of_bytes-bytes_of_word_end :
    (w v : ℕ) → v < 256 ^ w → word_of_bytes w (bytes_of_word w v) ≡ some v
word_of_bytes-bytes_of_word_end w v h = rw append-nil at (word_of_bytes-bytes_of_word w v [] h)

-- A word is read from any data that is long enough, and it is below 256 ^ w.
pub word_of_bytes_total :
    (w : ℕ) (p : Bytes)
    → All IsByte p
    → w ≤ length p
    → (v : ℕ) × (word_of_bytes w p ≡ some v) × (v < 256 ^ w)
unfolding word_of_bytes
word_of_bytes_total zero p h l = (0, refl, omega arith)
word_of_bytes_total (suc w) [] h l = absurd (omega arith)
word_of_bytes_total (suc w) (b ∷ p) h l =
    let (hi, got, bound) = word_of_bytes_total w p h.1 (omega arith) in
    (b + 256 * hi, rw got, omega (arith, pow-suc 256 w, h.0))
