-- ===== src/MemTable/Walk.antt =====
-- memtable.cpp: `MemTableIterator`, whose state is the node that the iterator of the list is at.
use my_leveldb.Common.{ℕ, ◌+◌, Bool, Option, some, Bytes, ◌>>=◌}
use my_leveldb.Comparator.{Comparator}
use my_leveldb.Status.{Status, ok_status}
use my_leveldb.SkipList.{
  Ptr, valid, iter_seek, iter_seek_to_first, iter_seek_to_last, iter_next, iter_prev, iter_key,
}
use my_leveldb.MemTable.{MemTable, load, store, entry_slice, encode_key, compare_entries}

unfoldable pub mem_iter_valid : Option Ptr → Bool
mem_iter_valid node = valid node

-- The scratch string `tmp_` lies at `scratch`.
unfoldable pub mem_iter_seek :
    Comparator → (fuel : ℕ) → (scratch : Ptr) → MemTable → Bytes → Option (Option Ptr)
mem_iter_seek c fuel scratch t k =
    let m = store scratch (encode_key k) t.memory in
    iter_seek (compare_entries c m) fuel t.table scratch

unfoldable pub mem_iter_seek_to_first : MemTable → Option Ptr
mem_iter_seek_to_first t = iter_seek_to_first t.table

unfoldable pub mem_iter_seek_to_last : (fuel : ℕ) → MemTable → Option (Option Ptr)
mem_iter_seek_to_last fuel t = iter_seek_to_last fuel t.table

unfoldable pub mem_iter_next : MemTable → Option Ptr → Option (Option Ptr)
mem_iter_next t node = iter_next t.table node

unfoldable pub mem_iter_prev : Comparator → (fuel : ℕ) → MemTable → Option Ptr → Option (Option Ptr)
mem_iter_prev c fuel t node = iter_prev (compare_entries c t.memory) fuel t.table node

unfoldable pub mem_iter_key : MemTable → Option Ptr → Option Bytes
unfolding load entry_slice
mem_iter_key t node = do
  entry ← iter_key t.table node
  (p, len) ← entry_slice t.memory entry
  some (load t.memory p len)

unfoldable pub mem_iter_value : MemTable → Option Ptr → Option Bytes
unfolding load entry_slice
mem_iter_value t node = do
  entry ← iter_key t.table node
  (key, key_size) ← entry_slice t.memory entry
  (p, len) ← entry_slice t.memory (key + key_size)
  some (load t.memory p len)

unfoldable pub mem_iter_status : MemTable → Status
mem_iter_status t = ok_status
