-- ===== src/Examples/MemoryRuns.antt =====
-- arena.cpp and skiplist.h on concrete inputs.
use my_leveldb.Common.{
  ℕ, zero, suc, ◌+◌, ◌*◌, ◌-◌, ◌%◌, ◌<◌, true, Option, none, some, List, [], ◌∷◌, ◌≡◌, refl, arith,
  inl,
}
use my_leveldb.Arena.{Arena, new_arena, allocate_aligned}
use my_leveldb.Arena.Regions.{region, IsArena}
use my_leveldb.Arena.Allocate.{Hands, allocate_aligned-IsArena}
use my_leveldb.SkipList.{
  Ptr, SkipList, find_equal_or_greater, contains, insert, update, new_skip_list, iter_seek,
  iter_prev, iter_seek_to_first, iter_seek_to_last,
}
use my_leveldb.SkipList.Chain.{IsKeyOrder, first_at, IsChain}
use my_leveldb.SkipList.Find.{IsSkipList, IsPre, find_equal_or_greater-at_or_after}
use my_leveldb.SkipList.Visit.{contains-any_equal, visited, iter_moves}
use my_leveldb.SkipList.Insert.{insert-IsSkipList, new_height}
use my_leveldb.SkipList.Refine.{insert_all, insert_all_refines}
use my_leveldb.SkipList.Keys.{map_keys, has_key}
use Prim.Native.Nat.{Ordering, compare, lt, eq, gt}

new_arena-IsArena : IsArena [] [] new_arena
new_arena-IsArena = record {
  used_apart = tt;
  used_inside = tt;
  window_apart = tt;
  window_inside = inl (refl, refl);
  window_small = omega arith;
  block_count = refl;
  block_memory = refl;
  accounted = omega arith;
}

allocate_aligned-IsArena_example :
    (r : ℕ × Arena) × (allocate_aligned 8192 2000 new_arena ≡ some r)
    × (r.0 % 8 ≡ 0)
    × Hands (region 8192 2000 ∷ []) [] 2000 r
allocate_aligned-IsArena_example =
    allocate_aligned-IsArena 8192 2000 new_arena-IsArena (omega arith) refl tt

abbrev pub compare_numbers : ℕ → ℕ → Option Ordering
compare_numbers a b = some (compare a b)

pub numbers_trans : (a b c : ℕ) → compare a b ≡ lt → compare b c ≡ lt → compare a c ≡ lt
numbers_trans a b c h i = ground arith

pub numbers_eq : (a b c : ℕ) → compare a b ≡ lt → compare b c ≡ eq → compare a c ≡ lt
numbers_eq a b c h i = ground arith

pub numbers_gt : (a b : ℕ) → compare a b ≡ gt → compare b a ≡ lt
numbers_gt a b h = ground arith

pub numbers_lt : (a b : ℕ) → compare a b ≡ lt → compare b a ≡ gt
numbers_lt a b h = ground arith

abbrev pub number_order : IsKeyOrder compare_numbers
number_order = record {
  order = compare;
  order_gt = numbers_gt;
  order_lt = numbers_lt;
  compare_some = λ a b. refl;
  order_trans = numbers_trans;
  order_eq = numbers_eq;
}

-- Two nodes behind the head: 1 with key 10 and height 1, 2 with key 30 and height 2.
abbrev pub key_at : Ptr → ℕ
key_at p = p * 20 - 10

abbrev pub height_at : Ptr → ℕ
height_at zero = 12
height_at (suc p) = p + 1

abbrev pub link_at : Ptr → ℕ → Option Ptr
link_at zero zero = some 1
link_at zero (suc zero) = some 2
link_at zero (suc (suc i)) = none
link_at (suc zero) i = some 2
link_at (suc (suc p)) i = none

abbrev pub two_nodes : SkipList ℕ
two_nodes = record { key = key_at; link = link_at; head = 0; cur_max_height = 2; rnd = 1 }

abbrev pub nodes : List Ptr
nodes = 1 ∷ 2 ∷ []

pub head_links : (i : ℕ) → i < 12 → link_at 0 i ≡ first_at height_at i nodes
head_links zero h = refl
head_links (suc zero) h = refl
head_links (suc (suc i)) h = ground arith

node_links : (i : ℕ) → i < 1 → link_at 1 i ≡ first_at height_at i (2 ∷ [])
node_links zero h = refl
node_links (suc i) h = absurd (omega arith)

-- They are sound under any order in which the first key is less than the second.
pub two_nodes-IsSkipList_under :
    (order : ℕ → ℕ → Ordering) → order 10 30 ≡ lt → IsSkipList order two_nodes height_at nodes
unfolding IsChain
two_nodes-IsSkipList_under order less = record {
  chain = (head_links, omega arith, (less, tt), (node_links, omega arith, tt, λ i h. refl));
  head_height = refl;
  high = omega arith;
  low = (omega arith, (omega arith, tt));
  pos = omega arith;
  distinct = (
    (λ e. omega (arith, e), (λ e. omega (arith, e), tt)),
    ((λ e. omega (arith, e), tt), (tt, tt)),
  );
}

pub two_nodes-IsSkipList : IsSkipList compare two_nodes height_at nodes
two_nodes-IsSkipList = two_nodes-IsSkipList_under compare refl

find_equal_or_greater-at_or_after_example :
    (pre' : ℕ → Ptr) × (find_equal_or_greater compare_numbers two_nodes 5 15 (λ i. 0)
      ≡ some (some 2, pre'))
    × IsPre compare two_nodes height_at 15 2 0 nodes (λ i. 0) pre'
find_equal_or_greater-at_or_after_example =
    find_equal_or_greater-at_or_after number_order two_nodes-IsSkipList 15 5 (λ i. 0) (omega arith)

contains-any_equal_example : contains compare_numbers two_nodes 5 30 ≡ some true
contains-any_equal_example = contains-any_equal number_order two_nodes-IsSkipList 30 5 (omega arith)

iter_moves_example :
    (iter_seek compare_numbers 5 two_nodes 15 ≡ some (some 2))
    × (iter_prev compare_numbers 5 two_nodes (some 2) ≡ some (some 1))
    × (iter_seek_to_last 5 two_nodes ≡ some (some 2))
iter_moves_example = iter_moves number_order two_nodes-IsSkipList 5 2 15 (omega arith)

-- The key 15 in the node 3, and the keys 5, 3, 8 in a new list with the head 0.
insert-IsSkipList_example :
    (t : SkipList ℕ) × (insert compare_numbers 5 3 15 two_nodes ≡ some t)
    × IsSkipList compare t
        (update height_at 3 (new_height number_order two_nodes-IsSkipList 15 3))
        (1 ∷ 3 ∷ 2 ∷ [])
    × (t.key ≡ update key_at 3 15)
    × (t.head ≡ 0)
insert-IsSkipList_example =
    insert-IsSkipList number_order two_nodes-IsSkipList 15 3 5 (omega arith)
      (λ e. omega (arith, e), (λ e. omega (arith, e), (λ e. omega (arith, e), tt))) refl

insert_all_refines_example :
    (t : SkipList ℕ) × (insert_all number_order 16 1 (5 ∷ 3 ∷ 8 ∷ []) (new_skip_list 0 (λ p. 0))
      ≡ some t)
    × (map_keys t.key (visited t 16 (iter_seek_to_first t)) ≡ 3 ∷ 5 ∷ 8 ∷ [])
    × ((k : ℕ) → contains compare_numbers t 16 k ≡ some (has_key compare k (3 ∷ 5 ∷ 8 ∷ [])))
insert_all_refines_example =
    insert_all_refines number_order 16 0 1 (λ p. 0) (5 ∷ 3 ∷ 8 ∷ []) (omega arith)
      (refl, (refl, (refl, tt))) (omega arith)
