-- ===== src/Examples/KeyRuns.antt =====
-- dbformat.h and dbformat.cpp on concrete inputs.
use my_leveldb.Common.{
  ℕ, ◌-◌, ◌≤◌, ◌<◌, Bool, true, Option, some, [], ◌∷◌, Bytes, if◌then◌else◌, length, ◌≡◌, ◌↔◌, ◌⊎◌,
  get_or, refl, arith, IsByte, All,
}
use my_leveldb.Comparator.{bytewise_comparator}
use my_leveldb.Comparator.Laws.{bytewise-IsOrder}
use my_leveldb.Slice.{slice_compare, memcmp}
use my_leveldb.Coding.{decode_fixed64, word_of_bytes, put_length_prefixed_slice}
use my_leveldb.DbFormat.{
  ParsedInternalKey, append_internal_key, parse_internal_key, extract_user_key, extract_value_type,
  internal_key_encoding_length, internal_compare, internal_find_shortest_separator, LookupKey,
  new_lookup_key, memtable_key, internal_key, lookup_user_key, space_size, compare_tags,
}
use my_leveldb.DbFormat.Key.{
  IsKey, encoded, parse_internal_key-append_internal_key, parse_internal_key_total,
}
use my_leveldb.DbFormat.Compare.{
  IsInternal, tag_order, internal_compare-encoded, internal_compare_order,
}
use my_leveldb.DbFormat.Shorten.{internal_find_shortest_separator_order}
use my_leveldb.DbFormat.Lookup.{seek_key, new_lookup_key_views}
use my_leveldb.DbFormat.Seek.{internal_compare-new_lookup_key}
use Prim.Native.Nat.{lt, gt}

abbrev key_of : ℕ → ℕ → ParsedInternalKey
key_of b s = record { user_key = b ∷ []; sequence = s; type = 1 }

abbrev foo_key : ParsedInternalKey
foo_key = key_of b'f' 5

abbrev goo_key : ParsedInternalKey
goo_key = key_of b'g' 3

foo_key-IsKey : IsKey foo_key
foo_key-IsKey = record { sequence = omega arith; type = omega arith }

goo_key-IsKey : IsKey goo_key
goo_key-IsKey = record { sequence = omega arith; type = omega arith }

parse_internal_key-append_internal_key_example :
    (rep : Bytes) × (append_internal_key [] foo_key ≡ some rep)
    × (parse_internal_key rep ≡ some (true, some foo_key))
    × (length rep ≡ internal_key_encoding_length foo_key)
    × (extract_user_key rep ≡ some foo_key.user_key)
    × (extract_value_type rep ≡ some foo_key.type)
parse_internal_key-append_internal_key_example =
    parse_internal_key-append_internal_key foo_key foo_key-IsKey

-- A user key of one byte, the type `t` and the sequence number `s`.
abbrev pub rep_of : ℕ → ℕ → Bytes
rep_of b s = b ∷ 1 ∷ s ∷ 0 ∷ 0 ∷ 0 ∷ 0 ∷ 0 ∷ 0 ∷ []

rep_of_foo_IsByte : All IsByte (rep_of b'f' 5)
rep_of_foo_IsByte = (
  omega arith,
  (
    omega arith,
    (
      omega arith,
      (omega arith, (omega arith, (omega arith, (omega arith, (omega arith, (omega arith, tt)))))),
    ),
  ),
)

parse_rep_of_foo : parse_internal_key (rep_of b'f' 5) ≡ some (true, some foo_key)
unfolding parse_internal_key decode_fixed64 word_of_bytes
parse_rep_of_foo = refl

parse_internal_key_total_example :
    (answer : Bool) × (stored : Option ParsedInternalKey) × (parse_internal_key (rep_of b'f' 5)
      ≡ some (answer, stored))
    × ((answer ≡ true) ↔ (
        (8 ≤ length (rep_of b'f' 5)) × (get_or (rep_of b'f' 5) (length (rep_of b'f' 5) - 8) 0 ≤ 1)))
parse_internal_key_total_example = parse_internal_key_total (rep_of b'f' 5) rep_of_foo_IsByte

internal_compare-encoded_example :
    internal_compare bytewise_comparator (encoded foo_key) (encoded goo_key)
    ≡ some
        (tag_order (tag_order (bytewise-IsOrder.order foo_key.user_key goo_key.user_key) 5 3) 1 1)
internal_compare-encoded_example =
    internal_compare-encoded bytewise_comparator bytewise-IsOrder foo_key goo_key foo_key-IsKey
      goo_key-IsKey

pub rep_of-IsInternal : (b : ℕ) → b < 256 → IsInternal (rep_of b 5)
rep_of-IsInternal b h = record {
  bytes = (
    omega arith,
    (
      omega arith,
      (
        omega arith,
        (
          omega arith,
          (omega arith, (omega arith, (omega arith, (omega arith, (omega arith, tt))))),
        ),
      ),
    ),
  );
  long = omega arith;
}

pub f_lt_g : internal_compare bytewise_comparator (rep_of b'f' 5) (rep_of b'g' 5) ≡ some lt
unfolding internal_compare extract_user_key bytewise_comparator compare_tags slice_compare memcmp
f_lt_g = refl

g_lt_h : internal_compare bytewise_comparator (rep_of b'g' 5) (rep_of b'h' 5) ≡ some lt
unfolding internal_compare extract_user_key bytewise_comparator compare_tags slice_compare memcmp
g_lt_h = refl

internal_compare_order_example :
    (internal_compare bytewise_comparator (rep_of b'g' 5) (rep_of b'f' 5) ≡ some gt)
    × (internal_compare bytewise_comparator (rep_of b'f' 5) (rep_of b'h' 5) ≡ some lt)
internal_compare_order_example =
    internal_compare_order bytewise_comparator bytewise-IsOrder (rep_of b'f' 5) (rep_of b'g' 5)
      (rep_of b'h' 5) (rep_of-IsInternal b'f' (omega arith)) (rep_of-IsInternal b'g' (omega arith))
      (rep_of-IsInternal b'h' (omega arith)) f_lt_g g_lt_h

internal_find_shortest_separator_order_example :
    (result : Bytes) × (internal_find_shortest_separator bytewise_comparator
        (rep_of b'f' 5)
        (rep_of b'h' 5)
      ≡ some result)
    × ((result ≡ rep_of b'f' 5)
        ⊎ ((internal_compare bytewise_comparator (rep_of b'f' 5) result ≡ some lt)
            × (internal_compare bytewise_comparator result (rep_of b'h' 5) ≡ some lt)))
internal_find_shortest_separator_order_example =
    internal_find_shortest_separator_order (rep_of b'f' 5) (rep_of b'h' 5)
      (rep_of-IsInternal b'f' (omega arith)) (rep_of-IsInternal b'h' (omega arith))

new_lookup_key_views_example :
    (key : LookupKey) × (new_lookup_key (b'f' ∷ []) 5 ≡ some key)
    × (memtable_key key ≡ put_length_prefixed_slice [] (encoded (seek_key (b'f' ∷ []) 5)))
    × (internal_key key ≡ encoded (seek_key (b'f' ∷ []) 5))
    × (lookup_user_key key ≡ b'f' ∷ [])
    × (length key.bytes ≤ (if key.on_heap then 14 else space_size))
new_lookup_key_views_example = new_lookup_key_views (b'f' ∷ []) 5 (omega arith) (omega arith)

-- The entry of the sequence number 5 and a lookup at 7.
internal_compare-new_lookup_key_example :
    (key : LookupKey) × (new_lookup_key (b'f' ∷ []) 7 ≡ some key)
    × (internal_compare bytewise_comparator (encoded foo_key) (internal_key key) ≡ some lt)
internal_compare-new_lookup_key_example =
    internal_compare-new_lookup_key bytewise_comparator bytewise-IsOrder foo_key 7 foo_key-IsKey
      (omega arith) (omega arith)
