-- ===== src/MemTable/KeyOrder.antt =====
-- The internal keys under `InternalKeyComparator` as the keys of a skip list.
use my_leveldb.Common.{
  subst, ℕ, ◌+◌, ◌<◌, ◌≤◌, ◌≡◌, sym, ap, arith, Option, some, List, [], Bytes, length,
}
use my_leveldb.Comparator.{Comparator}
use my_leveldb.Comparator.Laws.{IsOrder}
use my_leveldb.DbFormat.{internal_compare}
use my_leveldb.DbFormat.Compare.{IsInternal}
use my_leveldb.DbFormat.KeyOrder.{pulled-IsKeyOrder, internal_compare-key_order}
use my_leveldb.SkipList.{Ptr, SkipList, new_skip_list, iter_seek_to_first}
use my_leveldb.SkipList.Chain.{IsKeyOrder}
use my_leveldb.SkipList.Visit.{visited}
use my_leveldb.SkipList.Keys.{map_keys}
use my_leveldb.SkipList.Refine.{insert_all, insert_all_refines, length-insert_keys, AllNew}
use my_leveldb.SkipList.Sorted.{Ascending, insert_keys-Ascending}
use Prim.Native.Nat.{Ordering}

-- A string that holds a tag.
abbrev pub InternalKey : Type 0
InternalKey = (p : Bytes) × IsInternal p

abbrev pub compare_internal : Comparator → InternalKey → InternalKey → Option Ordering
compare_internal c a b = internal_compare c a.0 b.0

module _ (c : Comparator) (laws : IsOrder c) where
  unfoldable pub internal-IsKeyOrder : IsKeyOrder (compare_internal c)
  internal-IsKeyOrder =
      pulled-IsKeyOrder c laws (λ a. a.0) (compare_internal c)
        (λ a b. internal_compare-key_order c laws a.0 b.0 a.1 b.1)

  -- Under any user comparator that is a total order, any strings with a tag, of which none equals
  -- another, are inserted without a fault into a new skip list under `InternalKeyComparator`, with
  -- fuel for one step per key and 13 more. The iterator then gives as many keys, and each compares
  -- as less with every later one.
  pub insert_all-Ascending :
      (fuel head bound : ℕ) (key : Ptr → InternalKey) (ks : List InternalKey)
      → head < bound
      → AllNew internal-IsKeyOrder ks []
      → length ks + 13 ≤ fuel
      → (t : SkipList InternalKey) × (insert_all internal-IsKeyOrder fuel bound ks
            (new_skip_list head key)
          ≡ some t)
        × (length (map_keys t.key (visited t fuel (iter_seek_to_first t))) ≡ length ks)
        × Ascending (compare_internal c) (map_keys t.key (visited t fuel (iter_seek_to_first t)))
  insert_all-Ascending fuel head bound key ks h new enough =
      let ord = internal-IsKeyOrder in
      let m = insert_all_refines ord fuel head bound key ks h new enough in
      (
        m.0,
        m.1,
        omega (arith, ap length m.2, length-insert_keys ord ks []),
        subst (λ w. Ascending (compare_internal c) w) (sym m.2)
            (insert_keys-Ascending ord fuel head bound key ks h new enough),
      )
