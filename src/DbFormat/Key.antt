-- ===== src/DbFormat/Key.antt =====
-- Internal keys: encoding and parsing.
use my_leveldb.Common.{
  ℕ, zero, suc, ◌+◌, ◌-◌, ◌*◌, ◌/◌, ◌%◌, ◌^◌, ◌≤◌, ◌<◌, bit_or, Bool, true, false, Option, none,
  append-nil, some, [], ◌∷◌, ◌++◌, Bytes, ltb, leb, length, take, drop, ◌≡◌, ◌↔◌, get_or, refl,
  arith, sym, ap, ◌∙◌, length-append, append_assoc, All-drop, take-append, drop-append,
  take-append-drop, length-drop, IsByte, All, inl, inr, Bool-cases,
}
use my_leveldb.Common.Bits.{bit_or_step, bit_or-zero, bit_and-low_byte}
use my_leveldb.Coding.{
  put_fixed64, decode_fixed64, encode_fixed64, shl, shr, bytes_of_word, word_of_bytes,
}
use my_leveldb.Coding.Fixed.{
  length-bytes_of_word, word_of_bytes-bytes_of_word_end, word_of_bytes_total,
  bytes_of_word-word_of_bytes,
}
use my_leveldb.DbFormat.{
  ParsedInternalKey, pack_sequence_and_type, append_internal_key, extract_user_key, decode_tag,
  extract_value_type, parse_internal_key, k_max_sequence_number, internal_key_encoding_length,
}

-- What the program writes: a sequence number of 56 bits and one of the two types.
pub record IsKey (k : ParsedInternalKey) : Type 0 where
  pub sequence : k.sequence ≤ k_max_sequence_number
  pub type : k.type ≤ 1

abbrev pub tag_of : ParsedInternalKey → ℕ
tag_of k = k.sequence * 256 + k.type

abbrev pub encoded : ParsedInternalKey → Bytes
encoded k = k.user_key ++ bytes_of_word 8 (tag_of k)

bit_or-low_bit : (x t : ℕ) → x % 2 ≡ 0 → t ≤ 1 → bit_or x t ≡ x + t
bit_or-low_bit x t even small =
    let e : t / 2 ≡ 0 = omega arith in bit_or_step x t ∙ rw (e, bit_or-zero) (omega arith)

pub pack_sequence_and_type_lem :
    (seq t : ℕ)
    → seq ≤ k_max_sequence_number
    → t ≤ 1
    → pack_sequence_and_type seq t ≡ some (seq * 256 + t)
unfolding pack_sequence_and_type
pack_sequence_and_type_lem seq t hs ht =
    let fits : shl 64 seq 8 ≡ seq * 256 = omega arith in
    rw (fits, bit_or-low_bit (seq * 256) t (omega arith) ht) (ground arith)

pub append_internal_key-encoded :
    (result : Bytes) (k : ParsedInternalKey)
    → IsKey k
    → append_internal_key result k ≡ some (result ++ encoded k)
unfolding append_internal_key put_fixed64 encode_fixed64
append_internal_key-encoded result k h =
    rw (pack_sequence_and_type_lem k.sequence k.type h.sequence h.type)
      (ap some (append_assoc result k.user_key (bytes_of_word 8 (tag_of k))))

length-encoded : (k : ParsedInternalKey) → length (encoded k) ≡ length k.user_key + 8
length-encoded k = omega (
  arith,
  length-append k.user_key (bytes_of_word 8 (tag_of k)),
  length-bytes_of_word 8 (tag_of k),
)

user_length : (k : ParsedInternalKey) → length (encoded k) - 8 ≡ length k.user_key
user_length k = omega (arith, length-encoded k)

pub extract_user_key-encoded :
    (k : ParsedInternalKey) → extract_user_key (encoded k) ≡ some k.user_key
unfolding extract_user_key
extract_user_key-encoded k =
    let enough : leb 8 (length (encoded k)) ≡ true = ground (arith, length-encoded k) in
    rw (enough, user_length k, take-append)

pub decode_tag-encoded :
    (k : ParsedInternalKey) → IsKey k → decode_tag (encoded k) ≡ some (tag_of k)
unfolding decode_fixed64
decode_tag-encoded k h =
    rw (user_length k, drop-append) (word_of_bytes-bytes_of_word_end 8 (tag_of k) (omega arith))

parse_internal_key-encoded :
    (k : ParsedInternalKey) → IsKey k → parse_internal_key (encoded k) ≡ some (true, some k)
unfolding parse_internal_key
parse_internal_key-encoded k h =
    let enough : ltb (length (encoded k)) 8 ≡ false = ground (arith, length-encoded k) in
    let low : tag_of k % 256 ≡ k.type = omega arith in
    let high : shr (tag_of k) 8 ≡ k.sequence = omega arith in
    rw (enough, decode_tag-encoded k h, bit_and-low_byte, low, high, user_length k, take-append)
      (ground arith)

extract_value_type-encoded :
    (k : ParsedInternalKey) → IsKey k → extract_value_type (encoded k) ≡ some k.type
unfolding extract_value_type
extract_value_type-encoded k h =
    let enough : leb 8 (length (encoded k)) ≡ true = ground (arith, length-encoded k) in
    let low : tag_of k % 256 ≡ k.type = omega arith in
    rw (enough, decode_tag-encoded k h, bit_and-low_byte, low)

-- `appendInternalKey` fails no `assert` on a key with a sequence number below 2 ^ 56 and one of the
-- two types. `parseInternalKey` accepts what it wrote and gives the key back; the length is the announced one, and
-- `ExtractUserKey` gives the user key.
pub parse_internal_key-append_internal_key :
    (k : ParsedInternalKey)
    → IsKey k
    → (rep : Bytes) × (append_internal_key [] k ≡ some rep)
      × (parse_internal_key rep ≡ some (true, some k))
      × (length rep ≡ internal_key_encoding_length k)
      × (extract_user_key rep ≡ some k.user_key)
      × (extract_value_type rep ≡ some k.type)
unfolding internal_key_encoding_length
parse_internal_key-append_internal_key k h = (
  encoded k,
  append_internal_key-encoded [] k h,
  parse_internal_key-encoded k h,
  length-encoded k,
  extract_user_key-encoded k,
  extract_value_type-encoded k h,
)

-- What is parsed out of a string of eight bytes or more whose last eight are the number `num`.
abbrev key_of : Bytes → ℕ → ParsedInternalKey
key_of p num = record { user_key = take (length p - 8) p; sequence = num / 256; type = num % 256 }

parse_internal_key-key_of :
    (p : Bytes) (num : ℕ)
    → 8 ≤ length p
    → decode_tag p ≡ some num
    → parse_internal_key p ≡ some (leb (num % 256) 1, some (key_of p num))
unfolding parse_internal_key
parse_internal_key-key_of p num h e =
    let enough : ltb (length p) 8 ≡ false = ground arith in rw (enough, e, bit_and-low_byte)

pub tag_bytes :
    (p : Bytes)
    → All IsByte p
    → 8 ≤ length p
    → (num : ℕ) × (decode_tag p ≡ some num)
      × (num < 2 ^ 64)
      × (bytes_of_word 8 num ≡ drop (length p - 8) p)
unfolding decode_fixed64
tag_bytes p h l =
    let tail = drop (length p - 8) p in
    let eight : length tail ≡ 8 = omega (arith, length-drop (length p - 8) p) in
    let bytes = All-drop IsByte (length p - 8) p h in
    let (num, got, bound) = word_of_bytes_total 8 tail bytes (omega arith) in
    let got' : word_of_bytes 8 (tail ++ []) ≡ some num = rw append-nil got in
    (num, got, bound, bytes_of_word-word_of_bytes 8 tail [] bytes eight got')

-- What `parseInternalKey` accepts is what `appendInternalKey` writes for the key that it stores,
-- and that key has a sequence number below 2 ^ 56 and one of the two types.
pub append_internal_key-parse_internal_key :
    (p : Bytes) (k : ParsedInternalKey)
    → All IsByte p
    → parse_internal_key p ≡ some (true, some k)
    → IsKey k × (append_internal_key [] k ≡ some p)
append_internal_key-parse_internal_key p k h e = elim (Bool-cases (leb 8 (length p))) [
  | inl long ↦
      let (num, got, bound, tail) = tag_bytes p h (ground arith) in
      let whole : take (length p - 8) p ++ bytes_of_word 8 num ≡ p =
        rw tail (take-append-drop (length p - 8) p) in
      let parsed : some (leb (num % 256) 1, some (key_of p num)) ≡ some (true, some k) =
        sym (parse_internal_key-key_of p num (ground arith) got) ∙ e in
      let k_eq : key_of p num ≡ k = cc parsed in
      let allowed : leb (num % 256) 1 ≡ true = cc parsed in
      let good : IsKey (key_of p num) = record { sequence = omega arith; type = ground arith } in
      let tag : tag_of (key_of p num) ≡ num = omega arith in
      rw (← k_eq)
        (good, append_internal_key-encoded [] (key_of p num) good ∙ ap some (rw tag whole))
  | inr short ↦ unfold parse_internal_key in ground arith
]

get_or-drop : (i : ℕ) (p : Bytes) → get_or (drop i p) 0 0 ≡ get_or p i 0
get_or-drop zero [] = refl
get_or-drop zero (x ∷ p) = refl
get_or-drop (suc i) [] = refl
get_or-drop (suc i) (x ∷ p) = get_or-drop i p

low_byte :
    (p : Bytes) (num : ℕ)
    → bytes_of_word 8 num ≡ drop (length p - 8) p
    → get_or p (length p - 8) 0 ≡ num % 256
unfolding bytes_of_word
low_byte p num e = sym (get_or-drop (length p - 8) p) ∙ ap (λ (t : Bytes). get_or t 0 0) (sym e)

-- `parseInternalKey` answers false, and faults nowhere, exactly on fewer than eight bytes and where
-- the lowest byte of the last eight is neither type.
pub parse_internal_key_total :
    (p : Bytes)
    → All IsByte p
    → (answer : Bool) × (stored : Option ParsedInternalKey) × (parse_internal_key p
        ≡ some (answer, stored))
      × ((answer ≡ true) ↔ ((8 ≤ length p) × (get_or p (length p - 8) 0 ≤ 1)))
parse_internal_key_total p h = elim (Bool-cases (leb 8 (length p))) [
  | inl long ↦
      let (num, got, bound, tail) = tag_bytes p h (ground arith) in
      (
        leb (num % 256) 1,
        some (key_of p num),
        parse_internal_key-key_of p num (ground arith) got,
        (
          (λ allowed. (ground arith, rw (low_byte p num tail) (ground arith))),
          λ (eight, small). ground (arith, low_byte p num tail),
        ),
      )
  | inr short ↦ (
    false,
    none,
    unfold parse_internal_key in ground arith,
    ((λ t. absurd (ground arith)), λ (eight, small). absurd (ground arith)),
  )
]
