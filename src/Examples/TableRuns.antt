-- ===== src/Examples/TableRuns.antt =====
-- memtable.cpp and iterator.cpp on concrete inputs.
use my_leveldb.Common.{
  refl, if◌then◌else◌, ltb, ◌++◌, ◌-◌, Bytes, get_or, ℕ, none, some, [], ◌∷◌, length, ◌≡◌, ◌≢◌,
  arith,
}
use my_leveldb.Comparator.{bytewise_comparator}
use my_leveldb.Arena.{new_arena}
use my_leveldb.SkipList.{new_skip_list}
use my_leveldb.Coding.{get_varint32_ptr}
use my_leveldb.MemTable.{
  load, read_length, get_entry, not_there, Memory, MemTable, add, write_entry,
}
use my_leveldb.MemTable.Get.{get_entry_misses}
use my_leveldb.MemTable.Add.{add_other_length, write_entry_keeps}
use my_leveldb.MemTable.Entries.{IsEntry}
use my_leveldb.Examples.MemoryRuns.{two_nodes}
use my_leveldb.Iterator.{Cleanups, Call, new_cleanups, run_cleanups}
use my_leveldb.Iterator.Teardown.{register_all, run_cleanups-register_all}

abbrev empty_table : MemTable
empty_table = record {
  memory = λ p. 0;
  refs = 1;
  arena = new_arena;
  table = new_skip_list 8 (λ p. 0);
}

one_ne_two : length {A = ℕ} (7 ∷ []) ≢ length {A = ℕ} (8 ∷ 9 ∷ [])
one_ne_two h = absurd (omega arith)

add_other_length_example :
    add bytewise_comparator 20 4096 8192 5 1 (7 ∷ []) (8 ∷ 9 ∷ []) empty_table ≡ none
add_other_length_example =
    add_other_length bytewise_comparator 20 4096 8192 5 1 (7 ∷ []) (8 ∷ 9 ∷ []) empty_table
      (omega arith) one_ne_two

write_entry_keeps_example :
    (write_entry 4096 5 1 3 3 (λ p. p) 4098 ≡ 4098)
    × (write_entry 4096 5 1 3 3 (λ p. p) 4110 ≡ 4110)
write_entry_keeps_example = write_entry_keeps 4096 5 1 3 1 (λ p. p) (omega arith) (omega arith)

abbrev call_of : ℕ → Call ℕ
call_of f = record { function = f; arg1 = 0; arg2 = f }

run_cleanups-register_all_example :
    (it : Cleanups ℕ) × (register_all (call_of 1 ∷ call_of 2 ∷ call_of 3 ∷ []) new_cleanups
      ≡ some it)
    × (run_cleanups it ≡ some (call_of 1 ∷ call_of 3 ∷ call_of 2 ∷ []))
run_cleanups-register_all_example =
    run_cleanups-register_all (call_of 1) (call_of 2 ∷ call_of 3 ∷ [])

-- The entry of the user key "f" under its tag, at address 100.
abbrev pub entry_tag : Bytes
entry_tag = 1 ∷ 5 ∷ 0 ∷ 0 ∷ 0 ∷ 0 ∷ 0 ∷ 0 ∷ []

abbrev entry_memory : Memory
entry_memory p = get_or (9 ∷ b'f' ∷ entry_tag) (p - 100) 0

entry_length : read_length entry_memory 100 ≡ some (9, 101)
unfolding read_length get_varint32_ptr load
entry_length = refl

entry_key : load entry_memory 101 9 ≡ (b'f' ∷ []) ++ entry_tag
unfolding load
entry_key = refl

get_entry_misses_example :
    get_entry bytewise_comparator entry_memory (b'f' ∷ []) 100 ≡ some not_there
get_entry_misses_example =
    get_entry_misses entry_memory 100 101 (b'f' ∷ []) entry_tag (omega arith) entry_length entry_key

-- The nodes 1 and 2 point to the entries at 10 and 30, of a key of one byte under its tag with a value
-- of one byte.
abbrev pub stored_entry : (key value : ℕ) → Bytes
stored_entry key value = 9 ∷ key ∷ entry_tag ++ (1 ∷ value ∷ [])

abbrev pub two_entries : MemTable
two_entries = record {
  memory = λ p.
      if ltb p 30
      then get_or (stored_entry b'f' 7) (p - 10) 0
      else get_or (stored_entry b'g' 8) (p - 30) 0;
  refs = 1;
  arena = new_arena;
  table = two_nodes;
}

pub first-IsEntry : IsEntry two_entries.memory 10 (b'f' ∷ entry_tag, 7 ∷ [])
unfolding load my_leveldb.Coding.encode_varint32
first-IsEntry = (omega arith, omega arith, refl)

pub second-IsEntry : IsEntry two_entries.memory 30 (b'g' ∷ entry_tag, 8 ∷ [])
unfolding load my_leveldb.Coding.encode_varint32
second-IsEntry = (omega arith, omega arith, refl)
