-- ===== src/MemTable.antt =====
-- memtable.h and memtable.cpp: entries in the memory of an arena, in a skip list of pointers to them.
-- The memory is a map from an address to the byte there. A node of the list is a pointer of eight
-- bytes and its links; its address comes from the arena too. `none` is a failed `assert`, a fault of
-- a callee, a read through NULL, or a search that ran out of its fuel.
pub mod Add
pub mod Get
pub mod Walk
pub mod Stored
pub mod Entries
pub mod Table
pub mod Seek
pub mod KeyOrder
use my_leveldb.Common.{
  ℕ, zero, suc, ◌+◌, ◌-◌, ◌*◌, ◌%◌, ◌^◌, ◌<◌, ◌≤◌, bit_and, bit_or, Bool, true, false, Option, none,
  some, List, [], ◌∷◌, ◌++◌, Bytes, ltb, leb, ◌==◌, if◌then◌else◌, length, take, drop, ◌>>=◌, ◌>>◌,
  assert, get_or, ◌&&◌,
}
use my_leveldb.Coding.{
  get_varint32_ptr, encode_varint32, encode_fixed64, decode_fixed64, varint_length, put_varint32,
  shl,
}
use my_leveldb.Comparator.{Comparator}
use my_leveldb.Slice.{is_eq}
use my_leveldb.Status.{Status, not_found}
use my_leveldb.DbFormat.{
  LookupKey, memtable_key, lookup_user_key, internal_compare, k_type_value, k_type_deletion,
}
use my_leveldb.Arena.{Arena, new_arena, allocate, allocate_aligned, memory_usage}
use my_leveldb.SkipList.{
  Ptr, SkipList, new_skip_list, insert, random_height, iter_seek, iter_key, k_max_height,
}
use Prim.Native.Nat.{Ordering}

abbrev pub Memory : Type 0
Memory = ℕ → ℕ

-- `n` bytes from address `p`, and bytes written there.
unfoldable pub load : Memory → Ptr → ℕ → Bytes
load m p zero = []
load m p (suc n) = m p ∷ load m (p + 1) n

unfoldable pub store : Ptr → Bytes → Memory → Memory
store p bytes m q = if leb p q && ltb q (p + length bytes) then get_or bytes (q - p) 0 else m q

-- The varint at `p`, in at most five bytes, and the address behind it.
unfoldable pub read_length : Memory → Ptr → Option (ℕ × Ptr)
unfolding load
read_length m p = do (len, rest) ← get_varint32_ptr (load m p 5); some (len, p + (5 - length rest))

-- The address and the length of the slice of the static `getLengthPrefixedSlice`.
unfoldable pub entry_slice : Memory → Ptr → Option (Ptr × ℕ)
unfolding read_length
entry_slice m entry = do (len, p) ← read_length m entry; some (p, len)

-- `KeyComparator::operator()`
unfoldable pub compare_entries : Comparator → Memory → Ptr → Ptr → Option Ordering
unfolding entry_slice load
compare_entries c m aptr bptr = do
  (a, a_size) ← entry_slice m aptr
  (b, b_size) ← entry_slice m bptr
  internal_compare c (load m a a_size) (load m b b_size)

-- `encodeKey`: what the scratch string holds.
unfoldable pub encode_key : Bytes → Bytes
encode_key target = put_varint32 [] (length target % 2 ^ 32) ++ target

pub record MemTable : Type 0 where
  pub memory : Memory
  pub refs : ℕ
  pub arena : Arena
  pub table : SkipList Ptr

-- `sizeof(Node)` and the links above the first one.
abbrev pub node_size : ℕ → ℕ
node_size height = 16 + 8 * (height - 1)

-- The constructor; `fresh` is what `new` returns for the first block.
unfoldable pub new_mem_table : Memory → (fresh : ℕ) → Option MemTable
new_mem_table m fresh = do
  (head, arena) ← allocate_aligned fresh (node_size k_max_height) new_arena
  some (record { memory = m; refs = 0; arena = arena; table = new_skip_list head (λ p. 0) })

unfoldable pub ref : MemTable → MemTable
ref t = record t { refs = t.refs + 1 }

-- `unref`: the table is deleted where none is left, which is the inner `none`.
unfoldable pub unref : MemTable → Option (Option MemTable)
unref t = do
  assert (ltb 0 t.refs)
  some (if t.refs == 1 then none else some (record t { refs = t.refs - 1 }))

unfoldable pub approximate_memory_usage : (capacity : ℕ → ℕ) → MemTable → ℕ
approximate_memory_usage capacity t = memory_usage capacity t.arena

-- The sizes that `add` computes from that of the value: `internal_key_size` and `encoded_len`.
unfoldable pub internal_key_size : ℕ → ℕ
internal_key_size val_size = (val_size + 8) % 2 ^ 64

unfoldable pub encoded_len : ℕ → ℕ
unfolding internal_key_size
encoded_len val_size =
    (varint_length (internal_key_size val_size)
      + internal_key_size val_size
      + varint_length val_size
      + val_size)
    % 2 ^ 64

-- `p - buf` at the end of `add`.
unfoldable pub written_len : (key_size val_size : ℕ) → ℕ
unfolding encoded_len
written_len key_size val_size =
    length (encode_varint32 (encoded_len val_size % 2 ^ 32))
    + key_size
    + 8
    + length (encode_varint32 (val_size % 2 ^ 32))
    + val_size

-- What `add` stores at `buf`. The two calls of `memcmp` store nothing.
unfoldable pub write_entry : (buf s type key_size val_size : ℕ) → Memory → Memory
unfolding store encoded_len
write_entry buf s type key_size val_size m =
    let size = encode_varint32 (encoded_len val_size % 2 ^ 32) in
    let p = buf + length size + key_size in
    store (p + 8) (encode_varint32 (val_size % 2 ^ 32))
      (store p (encode_fixed64 (bit_or (shl 64 s 8) type)) (store buf size m))

-- `fresh` and `fresh_node` are what `new` returns, for the entry and for the node.
unfoldable pub add :
    Comparator
    → (fuel fresh fresh_node s type : ℕ) → (key value : Bytes) → MemTable
    → Option MemTable
unfolding encoded_len written_len write_entry compare_entries
add c fuel fresh fresh_node s type key value t = do
  (buf, arena) ← allocate fresh (encoded_len (length value)) t.arena
  let m = write_entry buf s type (length key) (length value) t.memory
  assert (written_len (length key) (length value) == encoded_len (length value))
  (node, arena') ← allocate_aligned fresh_node (node_size (random_height t.table.rnd).0) arena
  table ← insert (compare_entries c m) fuel node buf t.table
  some (record t { memory = m; arena = arena'; table = table })

-- What `get` returns, and what it stored through its two pointers.
pub record Found : Type 0 where
  pub answer : Bool
  pub value : Option Bytes
  pub status : Option Status

abbrev pub not_there : Found
not_there = record { answer = false; value = none; status = none }

-- The switch on the type in the tag of the entry whose internal key ends at `value_ptr`.
unfoldable pub get_by_type : Memory → (type : ℕ) → (value_ptr : Ptr) → Option Found
unfolding entry_slice load
get_by_type m type value_ptr =
    let found : Option Found = entry_slice m value_ptr >>= λ v.
    some (record { answer = true; value = some (load m v.0 v.1); status = none }) in
    let deleted : Option Found =
      not_found [] [] >>= λ s. some (record { answer = true; value = none; status = some s }) in
    if type == k_type_value
    then found
    else if type == k_type_deletion
    then deleted
    else some not_there

-- The answer from the entry that the iterator found.
unfoldable pub get_entry : Comparator → Memory → (user_key : Bytes) → Ptr → Option Found
unfolding read_length load get_by_type
get_entry c m user_key entry = do
  (key_length, key_ptr) ← read_length m entry
  r ← c.compare (load m key_ptr key_length) user_key
  let from_tag = do
    tag ← decode_fixed64 (load m (key_ptr + key_length - 8) 8)
    get_by_type m (bit_and tag 0xff) (key_ptr + key_length)
  if is_eq r then from_tag else some not_there

-- The lookup key's buffer lies at `start`.
unfoldable pub get : Comparator → (fuel : ℕ) → (start : Ptr) → LookupKey → MemTable → Option Found
unfolding store compare_entries get_entry
get c fuel start key t = do
  let m = store start (memtable_key key) t.memory
  node ← iter_seek (compare_entries c m) fuel t.table start
  elim node [ none ↦ some not_there | some p ↦ get_entry c m (lookup_user_key key) (t.table.key p) ]
