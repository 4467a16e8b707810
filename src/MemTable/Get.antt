-- ===== src/MemTable/Get.antt =====
-- `MemTable::get` on the entry that its iterator found: the comparison of the user keys.
use my_leveldb.Common.{
  ◌+◌, ◌<◌, false, some, ◌++◌, Bytes, length, ◌≡◌, ◌≢◌, refl, ap, arith, length-append,
}
use my_leveldb.Slice.{is_eq, slice_compare}
use my_leveldb.Slice.Order.{slice_eq_iff}
use my_leveldb.Comparator.{bytewise_comparator}
use my_leveldb.MemTable.{Memory, load, read_length, get_entry, not_there}
use my_leveldb.SkipList.{Ptr}
use Prim.Native.Nat.{Ordering, lt, eq, gt}

is_eq-ne : (r : Ordering) → r ≢ eq → is_eq r ≡ false
is_eq-ne lt h = refl
is_eq-ne eq h = absurd (h refl)
is_eq-ne gt h = refl

longer_differs : (user tag : Bytes) → 0 < length tag → slice_compare (user ++ tag) user ≢ eq
longer_differs user tag h e =
    let same : user ++ tag ≡ user = (slice_eq_iff (user ++ tag) user).2.0 e in
    absurd (omega (arith, length-append user tag, ap length same))

-- Over the bytewise comparator an entry whose key is the user key looked for and a tag behind it
-- counts as absent: `get` compares the tag too, answers false and stores nothing.
pub get_entry_misses :
    (m : Memory) (entry key_ptr : Ptr) (user tag : Bytes)
    → 0 < length tag
    → read_length m entry ≡ some (length user + length tag, key_ptr)
    → load m key_ptr (length user + length tag) ≡ user ++ tag
    → get_entry bytewise_comparator m user entry ≡ some not_there
unfolding get_entry bytewise_comparator
get_entry_misses m entry key_ptr user tag some_tag key_at stored =
    rw
      (
        key_at,
        stored,
        is_eq-ne (slice_compare (user ++ tag) user) (longer_differs user tag some_tag),
      )
      refl
