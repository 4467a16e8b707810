-- ===== src/Examples/RoundRuns.antt =====
-- skiplist.h: an insertion between its rounds, and insertions in two orders.
use my_leveldb.Common.{ℕ, ◌-◌, ◌<◌, ◌≡◌, refl, arith, false, none, some, [], ◌∷◌}
use mathlib.Core.List.{Permᴰ}
use my_leveldb.SkipList.{
  SkipList, insert_rounds, insert, contains, iter_key, new_skip_list, iter_seek_to_first,
  random_height, height_loop,
}
use my_leveldb.Random.{next}
use my_leveldb.SkipList.Chain.{IsChain}
use my_leveldb.SkipList.Find.{IsSkipList}
use my_leveldb.SkipList.Keys.{map_keys}
use my_leveldb.SkipList.Refine.{insert_all}
use my_leveldb.SkipList.AnyOrder.{insert_all_any_order}
use my_leveldb.SkipList.Standing.{visited-insert}
use my_leveldb.SkipList.Rounds.{contains_between_rounds}
use my_leveldb.SkipList.Visit.{visited}
use my_leveldb.Examples.MemoryRuns.{
  compare_numbers, number_order, two_nodes, two_nodes-IsSkipList, link_at, height_at, nodes,
}
use Prim.Native.Nat.{compare}

-- The next two numbers are 67228 and 1129900996, so the next node is three levels high.
abbrev before_high : SkipList ℕ
before_high = record two_nodes { rnd = 4 }

before_high-IsSkipList : IsSkipList compare before_high height_at nodes
unfolding IsChain
before_high-IsSkipList =
    let s = two_nodes-IsSkipList in
    record {
      chain = s.chain;
      head_height = refl;
      high = s.high;
      low = s.low;
      pos = s.pos;
      distinct = s.distinct;
    }

height_of_next : (random_height 4).0 ≡ 3
unfolding random_height height_loop next
height_of_next = refl

unset : (i : ℕ) → i < 2 → link_at 3 i ≡ none
unset i h = refl

-- The key 15 in the node 3: between the rounds the key 30 is not found.
contains_between_rounds_example :
    (between : SkipList ℕ) × (t : SkipList ℕ) × (insert_rounds compare_numbers 5
        ((random_height 4).0 - 2)
        3
        15
        before_high
      ≡ some between)
    × (contains compare_numbers between 5 30 ≡ some false)
    × (insert compare_numbers 5 3 15 before_high ≡ some t)
contains_between_rounds_example =
    contains_between_rounds number_order before_high-IsSkipList 15 3 5 5 30 (omega arith)
      (λ e. omega (arith, e), (λ e. omega (arith, e), (λ e. omega (arith, e), tt))) refl
      (omega (arith, height_of_next)) unset refl (omega (arith, height_of_next))

insert_all_any_order_example :
    (t : SkipList ℕ) × (u : SkipList ℕ) × (insert_all number_order 16 1
        (5 ∷ 3 ∷ 8 ∷ [])
        (new_skip_list 0 (λ p. 0))
      ≡ some t)
    × (insert_all number_order 16 1 (3 ∷ 5 ∷ 8 ∷ []) (new_skip_list 0 (λ p. 0)) ≡ some u)
    × (map_keys t.key (visited t 16 (iter_seek_to_first t))
        ≡ map_keys u.key (visited u 16 (iter_seek_to_first u)))
    × ((k : ℕ) → contains compare_numbers t 16 k ≡ contains compare_numbers u 16 k)
insert_all_any_order_example =
    insert_all_any_order number_order 16 0 1 (λ p. 0) (5 ∷ 3 ∷ 8 ∷ []) (3 ∷ 5 ∷ 8 ∷ [])
      (Permᴰ.swap refl refl) (omega arith) (refl, (refl, (refl, tt))) (omega arith)

-- An iterator on the node 1, with the key 10, while the key 15 is inserted in the node 3.
visited-insert_example :
    (t : SkipList ℕ) × (insert compare_numbers 5 3 15 two_nodes ≡ some t)
    × (iter_key t (some 1) ≡ some 10)
    × (visited two_nodes 4 (some 1) ≡ 1 ∷ 2 ∷ [])
    × (visited t 4 (some 1) ≡ 1 ∷ 3 ∷ 2 ∷ [])
unfolding iter_key
visited-insert_example =
    visited-insert number_order two_nodes-IsSkipList 15 3 1 [] (2 ∷ []) 5 4 refl (omega arith)
      (λ e. omega (arith, e), (λ e. omega (arith, e), (λ e. omega (arith, e), tt))) refl
      (omega arith)
