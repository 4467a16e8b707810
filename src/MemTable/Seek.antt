-- ===== src/MemTable/Seek.antt =====
-- A memtable of well-formed entries refines their sorted list: the seek of its iterator, with the walk
-- from there on.
use my_leveldb.Common.{
  subst, ℕ, zero, suc, ◌+◌, ◌^◌, ◌<◌, ◌≤◌, ◌≡◌, ◌≢◌, refl, sym, ap, ◌∙◌, arith, Bool-cases, inl,
  inr, Option, some, List, [], ◌∷◌, ◌++◌, Bytes, All, length, length-append,
}
use my_leveldb.Coding.{put_varint32, encode_varint32}
use my_leveldb.Coding.Varint.{length-encode_varint32}
use my_leveldb.Comparator.{Comparator, is_lt}
use my_leveldb.Comparator.Laws.{IsOrder}
use my_leveldb.DbFormat.Compare.{IsInternal}
use my_leveldb.DbFormat.KeyOrder.{key_order, internal_compare-key_order, pulled-IsKeyOrder}
use my_leveldb.SkipList.{Ptr, iter_seek, update}
use my_leveldb.SkipList.Chain.{IsKeyOrder, IsChain, at_or_after}
use my_leveldb.SkipList.Visit.{iter_moves, link_zero}
use my_leveldb.SkipList.Keys.{update-ne, update_self}
use my_leveldb.SkipList.Agree.{iter_seek-Agree}
use my_leveldb.MemTable.{Memory, MemTable, store, encode_key, compare_entries}
use my_leveldb.MemTable.Walk.{mem_iter_seek}
use my_leveldb.MemTable.Stored.{Apart-ne, IsAt-store, IsAt-store-Apart, IsAt-append}
use my_leveldb.MemTable.Entries.{
  Entry, AllEntries, prefixed, walk, walk-IsChain, compare_entries-IsAt,
}
use native.Mathlib.Nat.{mod-eq_of_lt}
use Prim.Native.Nat.{Ordering}
use my_leveldb.MemTable.Table.{
  pointer_order, AllKeys, IsTable, ApartFrom, entries_from, SameKeys, IsSkipList-SameKeys,
  AllKeys-SameKeys,
}

module _ (c : Comparator) (laws : IsOrder c) (t : MemTable) (height : Ptr → ℕ) (keys : Ptr → Bytes)
    (target : Ptr) (k : Bytes) (internal : IsInternal k) (named : keys target ≡ k) where
  walk-at_or_after :
      (x : Ptr) (ys : List Ptr) (es : List Entry) (n : ℕ)
      → IsChain (pointer_order c laws keys) t.table height x ys
      → 0 < height x
      → AllEntries t.memory t.table.key ys es
      → AllKeys keys t.table.key ys es
      → length ys < n
      → walk t n (at_or_after (pointer_order c laws keys) t.table target ys)
        ≡ some (entries_from c k es)
  unfolding IsChain
  walk-at_or_after x ys es zero ch h a b enough = absurd (omega arith)
  walk-at_or_after x [] [] (suc n) ch h a b enough = refl
  walk-at_or_after x [] (e ∷ es) (suc n) ch h a b enough = absurd a
  walk-at_or_after x (y ∷ ys) [] (suc n) ch h a b enough = absurd a
  walk-at_or_after x (y ∷ ys) (e ∷ es) (suc n) ch h a b enough =
      let order = pointer_order c laws keys in
      let i = internal_compare-key_order c laws e.0 k b.1 internal in
      let here : order (t.table.key y) target ≡ key_order c laws e.0 k =
        ap (λ w. key_order c laws w (keys target)) b.0 ∙ ap (λ w. key_order c laws e.0 w) named in
      elim (Bool-cases (is_lt (key_order c laws e.0 k))) [
        | inl less ↦
            let r = walk-at_or_after y ys es (suc n) ch.3 ch.1 a.1 b.2 (omega arith) in
            rw (here, i, less) r
        | inr more ↦
            let r = walk-IsChain order t height x (y ∷ ys) (e ∷ es) (suc n) ch h a enough in
            rw (here, i, more) (rw (link_zero order t.table height x (y ∷ ys) ch h) at r)
      ]

prefixed-ne-nil : (k : Bytes) → length k < 2 ^ 32 → 0 < length (prefixed k)
prefixed-ne-nil k h =
    omega
      (arith, (length-encode_varint32 (length k) h).0, length-append (encode_varint32 (length k)) k)

encode_key_lem : (k : Bytes) → length k < 2 ^ 32 → encode_key k ≡ prefixed k
unfolding encode_key put_varint32
encode_key_lem k h = rw (mod-eq_of_lt h) refl

length-nodes :
    (m : Memory) (key : Ptr → Ptr) (ys : List Ptr) (es : List Entry)
    → AllEntries m key ys es
    → length ys ≡ length es
length-nodes m key [] [] a = refl
length-nodes m key [] (e ∷ es) a = absurd a
length-nodes m key (y ∷ ys) [] a = absurd a
length-nodes m key (y ∷ ys) (e ∷ es) a = omega (arith, length-nodes m key ys es a.1)

-- A key `k` stands behind its length at `p`, apart from all entries.
module _ (c : Comparator) (laws : IsOrder c) (key : Ptr → Ptr) (m : Memory) (p : Ptr) (k : Bytes)
    (small : length k < 2 ^ 32) (keys : Ptr → Bytes) where
  update-SameKeys :
      (ys : List Ptr) (es : List Entry)
      → AllEntries m key ys es
      → ApartFrom p (length (prefixed k)) key ys es
      → SameKeys keys (update keys p k) key ys
  update-SameKeys [] es a apart = tt
  update-SameKeys (y ∷ ys) [] a apart = absurd apart
  update-SameKeys (y ∷ ys) ((j, v) ∷ es) a apart =
      let size : 0 < length (prefixed j ++ prefixed v) =
        omega (arith, length-append (prefixed j) (prefixed v), prefixed-ne-nil j a.0.0) in
      let other : key y ≢ p =
        Apart-ne (key y) (length (prefixed j ++ prefixed v)) p (length (prefixed k)) apart.0 size
          (prefixed-ne-nil k small) in
      (update-ne keys p (key y) k other, update-SameKeys ys es a.1 apart.1)

  stored-Agree :
      (ys : List Ptr) (es : List Entry)
      → AllEntries m key ys es
      → AllKeys keys key ys es
      → ApartFrom p (length (prefixed k)) key ys es
      → IsInternal k
      → All
          (λ y.
            compare_entries c (store p (prefixed k) m) (key y) p
            ≡ some (key_order c laws (update keys p k (key y)) (update keys p k p)))
          ys
  stored-Agree [] es a b apart internal = tt
  stored-Agree (y ∷ ys) [] a b apart internal = absurd apart
  stored-Agree (y ∷ ys) ((j, v) ∷ es) a b apart internal =
      let m' = store p (prefixed k) m in
      let entry =
        IsAt-store-Apart m p (prefixed k) (key y) (prefixed j ++ prefixed v) apart.0 a.0.2 in
      let same = update-SameKeys (y ∷ ys) ((j, v) ∷ es) a apart in
      let order = key_order c laws in
      (
        compare_entries-IsAt c m' (key y) p j k a.0.0 small
              (IsAt-append m' (key y) (prefixed j) (prefixed v) entry).0
              (IsAt-store m p (prefixed k))
            ∙ internal_compare-key_order c laws j k b.1 internal
            ∙ ap (λ w. some (order w k)) (sym (same.0 ∙ b.0))
            ∙ ap (λ w. some (order (update keys p k (key y)) w)) (sym (update_self keys p k)),
        stored-Agree ys es a.1 b.2 apart.1 internal,
      )

-- A memtable of well-formed entries refines their sorted list. Under any user comparator that is a
-- total order, `MemTableIterator::seek` to an internal key of less than 2 ^ 32 bytes, with its scratch
-- string apart from the entries and fuel for one step per entry and 13 more, fails nowhere, and a
-- walk from there, with more steps than there are entries, reads exactly the entries from the first
-- one on whose internal key is not less.
pub walk-mem_iter_seek :
    (c : Comparator) (laws : IsOrder c) (t : MemTable) (entries : List Entry)
    (table : IsTable c laws t entries) (fuel n : ℕ) (scratch : Ptr) (k : Bytes)
    → IsInternal k
    → length k < 2 ^ 32
    → ApartFrom scratch (length (encode_key k)) t.table.key table.nodes entries
    → length entries + 13 ≤ fuel
    → length entries < n
    → (node : Option Ptr) × (mem_iter_seek c fuel scratch t k ≡ some node)
      × (walk t n node ≡ some (entries_from c k entries))
unfolding mem_iter_seek pulled-IsKeyOrder
walk-mem_iter_seek c laws t entries table fuel n scratch k internal small apart enough steps =
    let e = encode_key_lem k small in
    let far = subst (λ w. ApartFrom scratch (length w) t.table.key table.nodes entries) e apart in
    let keys' = update table.keys scratch k in
    let order = pointer_order c laws keys' in
    let compare' : Ptr → Ptr → Option Ordering = λ p q. some (order p q) in
    let ord : IsKeyOrder compare' = pulled-IsKeyOrder c laws keys' compare' (λ p q. refl) in
    let same =
      update-SameKeys c laws t.table.key t.memory scratch k small table.keys table.nodes entries
        table.stored far in
    let sound =
      IsSkipList-SameKeys c laws table.keys keys' t.table table.height table.nodes same
        table.sound in
    let agree =
      stored-Agree c laws t.table.key t.memory scratch k small table.keys table.nodes entries
        table.stored table.named far internal in
    let len = length-nodes t.memory t.table.key table.nodes entries table.stored in
    let node = at_or_after order t.table scratch table.nodes in
    (
      node,
      ap (λ w. iter_seek (compare_entries c (store scratch w t.memory)) fuel t.table scratch) e
          ∙ iter_seek-Agree (compare_entries c (store scratch (prefixed k) t.memory)) compare' order
              t.table table.height scratch fuel table.nodes sound agree
          ∙ (iter_moves ord sound fuel scratch scratch (omega (arith, len, sound.high))).0,
      walk-at_or_after c laws t table.height keys' scratch k internal
          (update_self table.keys scratch k) t.table.head table.nodes entries n sound.chain
          (omega (arith, sound.head_height)) table.stored
          (AllKeys-SameKeys c laws table.keys keys' t.table.key table.nodes entries same
            table.named)
          (omega (arith, len)),
    )
