-- ===== src/DbFormat/Seek.antt =====
-- Where the seek for a lookup key stands among the entries of its user key.
use my_leveldb.Common.{ℕ, ◌+◌, ◌^◌, ◌≤◌, ◌<◌, ◌≡◌, some, Bytes, length, ap, ◌∙◌, arith}
use my_leveldb.Comparator.{Comparator}
use my_leveldb.Comparator.Laws.{IsOrder}
use my_leveldb.DbFormat.{
  ParsedInternalKey, LookupKey, new_lookup_key, internal_key, internal_compare,
  k_max_sequence_number, k_type_value,
}
use my_leveldb.DbFormat.Key.{IsKey, encoded}
use my_leveldb.DbFormat.Compare.{number_order, tag_order, internal_compare-encoded}
use my_leveldb.DbFormat.Lookup.{seek_key, new_lookup_key_views}
use Prim.Native.Nat.{eq}

order_same : (c : Comparator) (laws : IsOrder c) (u : Bytes) → laws.order u u ≡ eq
order_same c laws u = ground (arith, laws.order_flip u u)

-- Under any user comparator that is a total order, an entry with a sequence number below 2 ^ 56,
-- one of the two types and a user key of less than 2 ^ 32 - 8 bytes compares with the lookup key
-- for the same user key and any number below 2 ^ 56 by the sequence numbers, the smaller one
-- first, and then by the types. So the entries older than the number looked up are less than the
-- lookup key, and a search for it passes them by.
pub internal_compare-new_lookup_key :
    (c : Comparator) (laws : IsOrder c) (entry : ParsedInternalKey) (s : ℕ)
    → IsKey entry
    → length entry.user_key + 8 < 2 ^ 32
    → s ≤ k_max_sequence_number
    → (key : LookupKey) × (new_lookup_key entry.user_key s ≡ some key)
      × (internal_compare c (encoded entry) (internal_key key)
          ≡ some (tag_order (number_order entry.sequence s) entry.type k_type_value))
internal_compare-new_lookup_key c laws entry s h small bound =
    let v = new_lookup_key_views entry.user_key s small bound in
    let target = seek_key entry.user_key s in
    let target-IsKey : IsKey target = record { sequence = bound; type = omega arith } in
    (
      v.0,
      v.1,
      ap (internal_compare c (encoded entry)) v.3
          ∙ internal_compare-encoded c laws entry target h target-IsKey
          ∙ ap (λ r. some (tag_order (tag_order r entry.sequence s) entry.type k_type_value))
              (order_same c laws entry.user_key),
    )
