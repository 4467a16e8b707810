-- ===== src/MemTable/Entries.antt =====
-- Entries as `MemTable::add` means to write them, a key and a value each behind its length, and the
-- walk of `MemTableIterator` over a table of them.
use my_leveldb.Common.{
  subst, ℕ, zero, suc, ◌+◌, ◌-◌, ◌^◌, ◌<◌, ◌≡◌, refl, ap, ◌∙◌, arith, Option, none, some, List, [],
  ◌∷◌, ◌++◌, Bytes, length, ◌>>=◌, length-append,
}
use my_leveldb.Coding.{encode_varint32}
use my_leveldb.Coding.Varint.{length-encode_varint32}
use my_leveldb.Coding.Decode.{get_varint32_ptr-encode_varint32}
use my_leveldb.Comparator.{Comparator}
use my_leveldb.DbFormat.{internal_compare}
use my_leveldb.SkipList.{Ptr, iter_key, iter_next, iter_seek_to_first}
use my_leveldb.SkipList.Chain.{IsChain}
use my_leveldb.SkipList.Find.{IsSkipList}
use my_leveldb.SkipList.Visit.{link_zero}
use Prim.Native.Nat.{Ordering}
use my_leveldb.MemTable.Stored.{IsAt, length-load, load_append, IsAt-append}
use my_leveldb.MemTable.{Memory, MemTable, load, read_length, entry_slice, compare_entries}
use my_leveldb.MemTable.Walk.{mem_iter_key, mem_iter_value, mem_iter_next, mem_iter_seek_to_first}

read_length-IsAt :
    (m : Memory) (p : Ptr) (v : ℕ)
    → v < 2 ^ 32
    → IsAt m p (encode_varint32 v)
    → read_length m p ≡ some (v, p + length (encode_varint32 v))
unfolding read_length
read_length-IsAt m p v small h =
    let n = length (encode_varint32 v) in
    let b = length-encode_varint32 v small in
    let rest = load m (p + n) (5 - n) in
    let five : 5 ≡ n + (5 - n) = omega (arith, b.1) in
    let there : load m p 5 ≡ encode_varint32 v ++ rest =
      ap (load m p) five ∙ load_append m p n (5 - n) ∙ ap (λ w. w ++ rest) h in
    let back : 5 - length rest ≡ n = omega (arith, length-load m (p + n) (5 - n), b.1) in
    rw (there, get_varint32_ptr-encode_varint32 v rest small) (ap (λ (w : ℕ). some (v, p + w)) back)

-- A string behind its length.
abbrev pub prefixed : Bytes → Bytes
prefixed value = encode_varint32 (length value) ++ value

entry_slice-IsAt :
    (m : Memory) (p : Ptr) (value : Bytes)
    → length value < 2 ^ 32
    → IsAt m p (prefixed value)
    → entry_slice m p ≡ some (p + length (encode_varint32 (length value)), length value)
unfolding entry_slice
entry_slice-IsAt m p value small h =
    rw
      (read_length-IsAt m p (length value) small
        (IsAt-append m p (encode_varint32 (length value)) value h).0)
      refl

-- What an entry is made of.
abbrev pub Entry : Type 0
Entry = Bytes × Bytes

-- The entry at `p`: the internal key and the value, each shorter than 2 ^ 32 bytes, behind their
-- lengths.
abbrev pub IsEntry : Memory → Ptr → Entry → Type 0
IsEntry m p (key, value) =
    (length key < 2 ^ 32) × (length value < 2 ^ 32) × IsAt m p (prefixed key ++ prefixed value)

-- The bytes of the string, behind its length.
load-IsAt :
    (m : Memory) (p : Ptr) (value : Bytes)
    → IsAt m p (prefixed value)
    → load m (p + length (encode_varint32 (length value))) (length value) ≡ value
load-IsAt m p value h = (IsAt-append m p (encode_varint32 (length value)) value h).1

-- Two strings behind their lengths compare as internal keys.
pub compare_entries-IsAt :
    (c : Comparator) (m : Memory) (p q : Ptr) (a b : Bytes)
    → length a < 2 ^ 32
    → length b < 2 ^ 32
    → IsAt m p (prefixed a)
    → IsAt m q (prefixed b)
    → compare_entries c m p q ≡ internal_compare c a b
unfolding compare_entries
compare_entries-IsAt c m p q a b ha hb at_p at_q =
    rw
      (
        entry_slice-IsAt m p a ha at_p,
        entry_slice-IsAt m q b hb at_q,
        load-IsAt m p a at_p,
        load-IsAt m q b at_q,
      )
      refl

module _ (t : MemTable) (node : Ptr) where
  mem_iter_key-IsEntry :
      (e : Entry) → IsEntry t.memory (t.table.key node) e → mem_iter_key t (some node) ≡ some e.0
  unfolding mem_iter_key iter_key
  mem_iter_key-IsEntry (k, v) h =
      let m = t.memory in
      let p = t.table.key node in
      let hk = (IsAt-append m p (prefixed k) (prefixed v) h.2).0 in
      rw (entry_slice-IsAt m p k h.0 hk, load-IsAt m p k hk) refl

  mem_iter_value-IsEntry :
      (e : Entry) → IsEntry t.memory (t.table.key node) e → mem_iter_value t (some node) ≡ some e.1
  unfolding mem_iter_value iter_key
  mem_iter_value-IsEntry (k, v) h =
      let m = t.memory in
      let p = t.table.key node in
      let n = length (encode_varint32 (length k)) in
      let parts = IsAt-append m p (prefixed k) (prefixed v) h.2 in
      let after : p + length (prefixed k) ≡ p + n + length k =
        omega (arith, length-append (encode_varint32 (length k)) k) in
      let hv = subst (λ q. IsAt m q (prefixed v)) after parts.1 in
      rw
        (
          entry_slice-IsAt m p k h.0 parts.0,
          entry_slice-IsAt m (p + n + length k) v h.1 hv,
          load-IsAt m (p + n + length k) v hv,
        )
        refl

-- What a loop over the iterator reads: the keys and the values from the node on, in at most `n` steps.
abbrev pub walk : MemTable → ℕ → Option Ptr → Option (List Entry)
walk t zero at_ = some []
walk t (suc n) none = some []
walk t (suc n) (some p) = do
  key ← mem_iter_key t (some p)
  value ← mem_iter_value t (some p)
  next ← mem_iter_next t (some p)
  rest ← walk t n next
  some ((key, value) ∷ rest)

-- The nodes point to these entries.
abbrev pub AllEntries : Memory → (Ptr → Ptr) → List Ptr → List Entry → Type 0
AllEntries m key [] [] = Unit {0}
AllEntries m key [] (e ∷ es) = ⊥
AllEntries m key (y ∷ ys) [] = ⊥
AllEntries m key (y ∷ ys) (e ∷ es) = IsEntry m (key y) e × AllEntries m key ys es

module _ (order : Ptr → Ptr → Ordering) (t : MemTable) (height : Ptr → ℕ) where
  pub walk-IsChain :
      (x : Ptr) (ys : List Ptr) (es : List Entry) (n : ℕ)
      → IsChain order t.table height x ys
      → 0 < height x
      → AllEntries t.memory t.table.key ys es
      → length ys < n
      → walk t n (t.table.link x 0) ≡ some es
  unfolding IsChain mem_iter_next iter_next
  walk-IsChain x ys es zero c h a e = absurd (omega arith)
  walk-IsChain x [] [] (suc n) c h a e = rw (link_zero order t.table height x [] c h) refl
  walk-IsChain x [] (f ∷ es) (suc n) c h a e = absurd a
  walk-IsChain x (y ∷ ys) [] (suc n) c h a e = absurd a
  walk-IsChain x (y ∷ ys) (f ∷ es) (suc n) c h a e =
      rw
        (
          link_zero order t.table height x (y ∷ ys) c h,
          mem_iter_key-IsEntry t y f a.0,
          mem_iter_value-IsEntry t y f a.0,
          walk-IsChain y ys es n c.3 c.1 a.1 (omega arith),
        )
        refl

-- In a table whose list is sound, for any order of its pointers, and whose nodes point to entries
-- with keys and values shorter than 2 ^ 32 bytes, an iterator that goes from `seekToFirst` by `next`,
-- with more steps than there are nodes, reads the internal keys and the values of the entries in the
-- order of the nodes, and fails nowhere.
pub walk-mem_iter_seek_to_first :
    {order : Ptr → Ptr → Ordering} (t : MemTable) {height : Ptr → ℕ} {nodes : List Ptr} (n : ℕ)
    (entries : List Entry)
    → IsSkipList order t.table height nodes
    → AllEntries t.memory t.table.key nodes entries
    → length nodes < n
    → walk t n (mem_iter_seek_to_first t) ≡ some entries
unfolding mem_iter_seek_to_first iter_seek_to_first
walk-mem_iter_seek_to_first {order} t {height} {nodes} n entries sound a enough =
    walk-IsChain order t height t.table.head nodes entries n sound.chain
      (omega (arith, sound.head_height)) a enough
