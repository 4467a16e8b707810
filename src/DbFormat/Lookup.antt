-- ===== src/DbFormat/Lookup.antt =====
-- `LookupKey`: its three views, and the room that its buffer leaves.
use my_leveldb.Common.{
  ℕ, ◌+◌, ◌-◌, ◌%◌, ◌^◌, ◌≤◌, ◌<◌, some, [], ◌++◌, Bytes, leb, if◌then◌else◌, length, not, ◌≡◌,
  arith, length-append, drop-append, take-append, append_assoc,
}
use my_leveldb.Coding.{
  encode_varint32, encode_fixed64, put_length_prefixed_slice, put_varint32, bytes_of_word,
}
use my_leveldb.Coding.Fixed.{length-bytes_of_word}
use my_leveldb.Coding.Varint.{length-encode_varint32}
use my_leveldb.DbFormat.{
  ParsedInternalKey, LookupKey, new_lookup_key, memtable_key, internal_key, lookup_user_key,
  k_max_sequence_number, k_type_value, space_size,
}
use my_leveldb.DbFormat.Key.{encoded, tag_of, pack_sequence_and_type_lem}

abbrev pub seek_key : Bytes → ℕ → ParsedInternalKey
seek_key user_key s = record { user_key = user_key; sequence = s; type = k_type_value }

length-encoded : (k : ParsedInternalKey) → length (encoded k) ≡ length k.user_key + 8
length-encoded k = omega (
  arith,
  length-append k.user_key (bytes_of_word 8 (tag_of k)),
  length-bytes_of_word 8 (tag_of k),
)

-- A lookup key for a user key of less than 2 ^ 32 - 8 bytes and a sequence number below 2 ^ 56 is
-- made without a fault. Its memtable key is the encoded internal key behind its length, its internal
-- key is that encoded key, and its user key the given one; all of it fits in the buffer, which is
-- the one of 200 bytes exactly if the key was not allocated.
pub new_lookup_key_views :
    (user_key : Bytes) (s : ℕ)
    → length user_key + 8 < 2 ^ 32
    → s ≤ k_max_sequence_number
    → (key : LookupKey) × (new_lookup_key user_key s ≡ some key)
      × (memtable_key key ≡ put_length_prefixed_slice [] (encoded (seek_key user_key s)))
      × (internal_key key ≡ encoded (seek_key user_key s))
      × (lookup_user_key key ≡ user_key)
      × (length key.bytes ≤ (if key.on_heap then length user_key + 13 else space_size))
unfolding new_lookup_key memtable_key internal_key lookup_user_key encode_fixed64
    put_length_prefixed_slice put_varint32
new_lookup_key_views user_key s small bound = (
  made,
  rw (pack_sequence_and_type_lem s 1 bound (omega arith), append_assoc),
  rw (length-encoded (seek_key user_key s)),
  drop-append prefix (encoded (seek_key user_key s)),
  rw (user_size, drop-append, take-append),
  ground (arith, total, prefix_size),
)
  where
    prefix : Bytes
    prefix = encode_varint32 ((length user_key + 8) % 2 ^ 32)

    made : LookupKey
    made = record {
      bytes = prefix ++ encoded (seek_key user_key s);
      kstart = length prefix;
      on_heap = not (leb (length user_key + 13) space_size);
    }

    total : length (prefix ++ encoded (seek_key user_key s)) ≡ length prefix + (length user_key + 8)
    total = omega (
      arith,
      length-append prefix (encoded (seek_key user_key s)),
      length-encoded (seek_key user_key s),
    )

    prefix_size : length prefix ≤ 5
    prefix_size = (length-encode_varint32 ((length user_key + 8) % 2 ^ 32) (omega arith)).1

    user_size :
        length (prefix ++ encoded (seek_key user_key s)) - length prefix - 8 ≡ length user_key
    user_size = omega (arith, total)
