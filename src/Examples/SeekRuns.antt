-- ===== src/Examples/SeekRuns.antt =====
-- A seek in the memtable with the entries of "f" and "g".
use my_leveldb.Common.{
  ◌≡◌, refl, arith, inl, Option, some, List, [], ◌∷◌, Bytes, if◌then◌else◌, ◌==◌,
}
use my_leveldb.Coding.{encode_varint32, put_varint32}
use my_leveldb.Comparator.{bytewise_comparator}
use my_leveldb.Comparator.Laws.{bytewise-IsOrder}
use my_leveldb.DbFormat.KeyOrder.{key_order, internal_compare-key_order}
use my_leveldb.SkipList.{Ptr}
use my_leveldb.MemTable.{encode_key}
use my_leveldb.MemTable.Walk.{mem_iter_seek}
use my_leveldb.MemTable.Entries.{Entry, walk}
use my_leveldb.MemTable.Seek.{walk-mem_iter_seek}
use my_leveldb.MemTable.Table.{IsTable, entries_from}
use my_leveldb.Examples.KeyRuns.{rep_of, rep_of-IsInternal, f_lt_g}
use my_leveldb.Examples.MemoryRuns.{nodes, height_at, two_nodes-IsSkipList_under}
use my_leveldb.Examples.TableRuns.{two_entries, first-IsEntry, second-IsEntry}
use Prim.Native.Nat.{lt}

abbrev entry_keys : Ptr → Bytes
entry_keys p = if p == 10 then rep_of b'f' 5 else rep_of b'g' 5

abbrev both : List Entry
both = (rep_of b'f' 5, 7 ∷ []) ∷ (rep_of b'g' 5, 8 ∷ []) ∷ []

in_order : key_order bytewise_comparator bytewise-IsOrder (rep_of b'f' 5) (rep_of b'g' 5) ≡ lt
in_order =
    let e =
      internal_compare-key_order bytewise_comparator bytewise-IsOrder (rep_of b'f' 5)
        (rep_of b'g' 5) (rep_of-IsInternal b'f' (omega arith))
        (rep_of-IsInternal b'g' (omega arith)) in
    cc (e, f_lt_g)

two_entries-IsTable : IsTable bytewise_comparator bytewise-IsOrder two_entries both
two_entries-IsTable = record {
  height = height_at;
  nodes = nodes;
  keys = entry_keys;
  sound =
      two_nodes-IsSkipList_under
        (λ p q. key_order bytewise_comparator bytewise-IsOrder (entry_keys p) (entry_keys q))
        in_order;
  stored = (first-IsEntry, (second-IsEntry, tt));
  named = (
    refl,
    rep_of-IsInternal b'f' (omega arith),
    (refl, rep_of-IsInternal b'g' (omega arith), tt),
  );
}

-- The scratch string at 100, and the seek to "g".
walk-mem_iter_seek_example :
    (node : Option Ptr) × (mem_iter_seek bytewise_comparator 15 100 two_entries (rep_of b'g' 5)
      ≡ some node)
    × (walk two_entries 3 node ≡ some (entries_from bytewise_comparator (rep_of b'g' 5) both))
unfolding encode_key put_varint32 encode_varint32 two_entries-IsTable
walk-mem_iter_seek_example =
    walk-mem_iter_seek bytewise_comparator bytewise-IsOrder two_entries both two_entries-IsTable 15
      3 100 (rep_of b'g' 5) (rep_of-IsInternal b'g' (omega arith)) (omega arith)
      (inl (omega arith), (inl (omega arith), tt)) (omega arith) (omega arith)
