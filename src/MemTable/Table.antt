-- ===== src/MemTable/Table.antt =====
-- A memtable of well-formed entries: its internal keys, and what a change of the scratch string leaves.
use my_leveldb.Common.{
  ℕ, ◌≡◌, ◌∙◌, false, Bool, Option, none, some, List, [], ◌∷◌, ◌++◌, Bytes, All, length,
  if◌then◌else◌,
}
use my_leveldb.Comparator.{Comparator, is_lt}
use my_leveldb.Comparator.Laws.{IsOrder}
use my_leveldb.DbFormat.{internal_compare}
use my_leveldb.DbFormat.Compare.{IsInternal}
use my_leveldb.DbFormat.KeyOrder.{key_order}
use my_leveldb.SkipList.{Ptr, SkipList}
use my_leveldb.SkipList.Chain.{IsChain}
use my_leveldb.SkipList.Find.{IsSkipList}
use my_leveldb.MemTable.{MemTable}
use my_leveldb.MemTable.Stored.{Apart}
use my_leveldb.MemTable.Entries.{Entry, AllEntries, prefixed}
use Prim.Native.Nat.{Ordering, lt}

-- The order of pointers whose internal keys a map gives.
abbrev pub pointer_order : (c : Comparator) → IsOrder c → (Ptr → Bytes) → Ptr → Ptr → Ordering
pointer_order c laws keys p q = key_order c laws (keys p) (keys q)

-- The map gives the keys of the entries, each of which holds a tag.
abbrev pub AllKeys : (keys : Ptr → Bytes) → (Ptr → Ptr) → List Ptr → List Entry → Type 0
AllKeys keys key [] es = Unit {0}
AllKeys keys key (y ∷ ys) [] = ⊥
AllKeys keys key (y ∷ ys) (e ∷ es) = (keys (key y) ≡ e.0) × IsInternal e.0 × AllKeys keys key ys es

-- A table that holds these entries, in the order of their internal keys.
pub record IsTable (c : Comparator) (laws : IsOrder c) (t : MemTable) (entries : List Entry)
    : Type 0 where
  pub height : Ptr → ℕ
  pub nodes : List Ptr
  pub keys : Ptr → Bytes
  pub sound : IsSkipList (pointer_order c laws keys) t.table height nodes
  pub stored : AllEntries t.memory t.table.key nodes entries
  pub named : AllKeys keys t.table.key nodes entries

-- `size` bytes from `p` on lie apart from every entry.
abbrev pub ApartFrom : (p size : ℕ) → (Ptr → Ptr) → List Ptr → List Entry → Type 0
ApartFrom p size key [] es = Unit {0}
ApartFrom p size key (y ∷ ys) [] = ⊥
ApartFrom p size key (y ∷ ys) (e ∷ es) =
    Apart (key y) (length (prefixed e.0 ++ prefixed e.1)) p size × ApartFrom p size key ys es

-- The entries from the first one that is not less than the internal key.
abbrev pub is_before : Option Ordering → Bool
is_before none = false
is_before (some r) = is_lt r

abbrev pub entries_from : Comparator → Bytes → List Entry → List Entry
entries_from c k [] = []
entries_from c k (e ∷ es) =
    let later = entries_from c k es in
    if is_before (internal_compare c e.0 k) then later else e ∷ es

-- Two maps give the same keys for the nodes.
abbrev pub SameKeys : (keys keys' : Ptr → Bytes) → (Ptr → Ptr) → List Ptr → Type 0
SameKeys keys keys' key ys = All (λ y. keys' (key y) ≡ keys (key y)) ys

module _ (c : Comparator) (laws : IsOrder c) (keys keys' : Ptr → Bytes) where
  All-pointer_order :
      (key : Ptr → Ptr) (y : Ptr) (ys : List Ptr)
      → keys' (key y) ≡ keys (key y)
      → SameKeys keys keys' key ys
      → All (λ z. pointer_order c laws keys (key y) (key z) ≡ lt) ys
      → All (λ z. pointer_order c laws keys' (key y) (key z) ≡ lt) ys
  All-pointer_order key y [] e same h = tt
  All-pointer_order key y (z ∷ zs) e same h =
      (rw (e, same.0) h.0, All-pointer_order key y zs e same.1 h.1)

  IsChain-SameKeys :
      (s : SkipList Ptr) (height : Ptr → ℕ) (x : Ptr) (ys : List Ptr)
      → SameKeys keys keys' s.key ys
      → IsChain (pointer_order c laws keys) s height x ys
      → IsChain (pointer_order c laws keys') s height x ys
  unfolding IsChain
  IsChain-SameKeys s height x [] same h = h
  IsChain-SameKeys s height x (y ∷ ys) same h = (
    h.0,
    h.1,
    All-pointer_order s.key y ys same.0 same.1 h.2,
    IsChain-SameKeys s height y ys same.1 h.3,
  )

  pub IsSkipList-SameKeys :
      (s : SkipList Ptr) (height : Ptr → ℕ) (nodes : List Ptr)
      → SameKeys keys keys' s.key nodes
      → IsSkipList (pointer_order c laws keys) s height nodes
      → IsSkipList (pointer_order c laws keys') s height nodes
  IsSkipList-SameKeys s height nodes same h = record {
    chain = IsChain-SameKeys s height s.head nodes same h.chain;
    head_height = h.head_height;
    high = h.high;
    low = h.low;
    pos = h.pos;
    distinct = h.distinct;
  }

  pub AllKeys-SameKeys :
      (key : Ptr → Ptr) (ys : List Ptr) (es : List Entry)
      → SameKeys keys keys' key ys
      → AllKeys keys key ys es
      → AllKeys keys' key ys es
  AllKeys-SameKeys key [] es same h = tt
  AllKeys-SameKeys key (y ∷ ys) [] same h = h
  AllKeys-SameKeys key (y ∷ ys) (e ∷ es) same h =
      (same.0 ∙ h.0, h.1, AllKeys-SameKeys key ys es same.1 h.2)
