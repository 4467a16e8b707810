-- ===== src/DbFormat.antt =====
-- dbformat.h and dbformat.cpp: internal keys (a user key, a sequence number and a type), their
-- comparator, and the keys that a memtable is searched for. `none` is a failed `assert` or a read
-- outside the data.
pub mod Key
pub mod Compare
pub mod Shorten
pub mod Lookup
pub mod Seek
pub mod KeyOrder
use my_leveldb.Common.{
  ℕ, zero, suc, ◌+◌, ◌-◌, ◌*◌, ◌/◌, ◌%◌, ◌^◌, ◌<◌, bit_and, bit_or, Bool, true, false, Option, none,
  some, List, [], ◌∷◌, ◌++◌, Bytes, ltb, leb, ◌==◌, if◌then◌else◌, length, take, drop, ◌>>=◌, ◌>>◌,
  assert, not,
}
use my_leveldb.Coding.{put_fixed64, decode_fixed64, encode_varint32, encode_fixed64, shl, shr}
use my_leveldb.Slice.{is_eq}
use my_leveldb.Comparator.{Comparator, is_lt}
use my_leveldb.Logging.{print_decimal, escape_string}
use my_leveldb.Status.{text}
use Prim.Native.Nat.{Ordering, lt, eq, gt}

-- `enum ValueType`: a byte may be cast to it that is neither constant.
abbrev pub k_type_deletion : ℕ
k_type_deletion = 0

abbrev pub k_type_value : ℕ
k_type_value = 1

abbrev pub k_value_type_for_seek : ℕ
k_value_type_for_seek = k_type_value

abbrev pub k_max_sequence_number : ℕ
k_max_sequence_number = 2 ^ 56 - 1

pub record ParsedInternalKey : Type 0 where
  pub user_key : Bytes
  pub sequence : ℕ
  pub type : ℕ

unfoldable pub internal_key_encoding_length : ParsedInternalKey → ℕ
internal_key_encoding_length key = length key.user_key + 8

unfoldable pub pack_sequence_and_type : ℕ → ℕ → Option ℕ
pack_sequence_and_type seq t = do
  assert (leb seq k_max_sequence_number)
  assert (leb t k_value_type_for_seek)
  some (bit_or (shl 64 seq 8) t)

unfoldable pub append_internal_key : Bytes → ParsedInternalKey → Option Bytes
append_internal_key result key = do
  tag ← pack_sequence_and_type key.sequence key.type
  some (put_fixed64 (result ++ key.user_key) tag)

-- `InternalKey` is its string `rep_`: the constructor, `setFrom`, and `encode`.
unfoldable pub new_internal_key : Bytes → ℕ → ℕ → Option Bytes
new_internal_key user_key s t =
    append_internal_key [] (record { user_key = user_key; sequence = s; type = t })

unfoldable pub set_from : Bytes → ParsedInternalKey → Option Bytes
set_from rep p = append_internal_key [] p

unfoldable pub encode : Bytes → Option Bytes
encode rep = do assert (not (length rep == 0)); some rep

unfoldable pub extract_user_key : Bytes → Option Bytes
extract_user_key internal_key = do
  assert (leb 8 (length internal_key))
  some (take (length internal_key - 8) internal_key)

-- The last eight bytes as a number.
abbrev pub decode_tag : Bytes → Option ℕ
decode_tag internal_key = decode_fixed64 (drop (length internal_key - 8) internal_key)

unfoldable pub extract_value_type : Bytes → Option ℕ
extract_value_type internal_key = do
  assert (leb 8 (length internal_key))
  num ← decode_tag internal_key
  some (bit_and num 0xff)

-- The answer, and what is stored in `*result`: nothing if the key is too short.
unfoldable pub parse_internal_key : Bytes → Option (Bool × Option ParsedInternalKey)
parse_internal_key internal_key = if ltb (length internal_key) 8 then some (false, none) else do
  num ← decode_tag internal_key
  let c = bit_and num 0xff
  some (
    leb c k_type_value,
    some (record {
      user_key = take (length internal_key - 8) internal_key;
      sequence = shr num 8;
      type = c;
    }),
  )

-- `ParsedInternalKey::debugString`: the buffer of 50 keeps 49 characters.
unfoldable pub parsed_debug_string : ParsedInternalKey → Bytes
parsed_debug_string key =
    (text "'" ++ key.user_key)
    ++ take 49 (text "' @ " ++ print_decimal key.sequence ++ text " : " ++ print_decimal key.type)

-- `InternalKey::debugString`
unfoldable pub debug_string : Bytes → Option Bytes
unfolding parse_internal_key
debug_string rep = do
  (accepted, parsed) ← parse_internal_key rep
  elim accepted [
    | true ↦ (do key ← parsed; some (parsed_debug_string key))
    | false ↦ some (text "(bad)" ++ escape_string rep)
  ]

-- The `if (r == 0)` of `InternalKeyComparator::compare`.
unfoldable pub compare_tags : Bytes → Bytes → Ordering → Option Ordering
compare_tags akey bkey lt = some lt
compare_tags akey bkey gt = some gt
compare_tags akey bkey eq = do
  aseq_t ← decode_tag akey
  bseq_t ← decode_tag bkey
  some (if ltb aseq_t bseq_t then lt else if ltb bseq_t aseq_t then gt else eq)

-- The tag that the shortened keys get.
abbrev pub put_seek_tag : Bytes → Option Bytes
put_seek_tag tmp = do
  tag ← pack_sequence_and_type k_max_sequence_number k_value_type_for_seek
  some (put_fixed64 tmp tag)

module _ (user_comparator : Comparator) where
  -- `InternalKeyComparator::compare`
  unfoldable pub internal_compare : Bytes → Bytes → Option Ordering
  internal_compare akey bkey = do
    auser ← extract_user_key akey
    buser ← extract_user_key bkey
    r ← user_comparator.compare auser buser
    compare_tags akey bkey r

  -- `assert(this->compare(a, b) < 0)`
  abbrev pub assert_lt : Bytes → Bytes → Option (Unit {0})
  assert_lt a b = do r ← internal_compare a b; assert (is_lt r)

  unfoldable pub internal_find_shortest_separator : Bytes → Bytes → Option Bytes
  internal_find_shortest_separator start limit = do
    user_start ← extract_user_key start
    user_limit ← extract_user_key limit
    tmp ← user_comparator.find_shortest_separator user_start user_limit
    r ← user_comparator.compare start tmp
    elim (is_lt r) [
      | true ↦ (do tmp ← put_seek_tag tmp; assert_lt start tmp; assert_lt tmp limit; some tmp)
      | false ↦ some start
    ]

  unfoldable pub internal_find_short_successor : Bytes → Option Bytes
  internal_find_short_successor key = do
    user_key ← extract_user_key key
    tmp ← user_comparator.find_short_successor user_key
    r ← user_comparator.compare user_key tmp
    elim (is_lt r) [
      | true ↦ (do tmp ← put_seek_tag tmp; assert_lt key tmp; some tmp)
      | false ↦ some key
    ]

  unfoldable pub internal_key_comparator : Comparator
  internal_key_comparator = record {
    name = "leveldb.InternalKeyComparator";
    compare = internal_compare;
    find_shortest_separator = internal_find_shortest_separator;
    find_short_successor = internal_find_short_successor;
  }

-- `LookupKey`: the bytes from `start_` to `end_`, the place of `kstart_` in them, and whether they
-- were allocated, which is what the destructor asks.
pub record LookupKey : Type 0 where
  pub bytes : Bytes
  pub kstart : ℕ
  pub on_heap : Bool

abbrev pub space_size : ℕ
space_size = 200

unfoldable pub new_lookup_key : Bytes → ℕ → Option LookupKey
new_lookup_key user_key s =
    let usize = length user_key in
    let needed = usize + 13 in
    let prefix = encode_varint32 ((usize + 8) % 2 ^ 32) in
    do
      tag ← pack_sequence_and_type s k_value_type_for_seek
      some (record {
        bytes = prefix ++ user_key ++ encode_fixed64 tag;
        kstart = length prefix;
        on_heap = not (leb needed space_size);
      })

unfoldable pub memtable_key : LookupKey → Bytes
memtable_key key = key.bytes

unfoldable pub internal_key : LookupKey → Bytes
internal_key key = drop key.kstart key.bytes

unfoldable pub lookup_user_key : LookupKey → Bytes
lookup_user_key key = take (length key.bytes - key.kstart - 8) (drop key.kstart key.bytes)
