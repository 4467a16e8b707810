-- ===== src/Examples/NodeRuns.antt =====
-- skiplist.h over arena.h: an insertion with its node from the arena.
use my_leveldb.Common.{
  ℕ, zero, suc, ◌<◌, ◌≡◌, ◌%◌, ◌==◌, refl, arith, inl, inr, Option, none, some, List, [], ◌∷◌, All,
  if◌then◌else◌,
}
use my_leveldb.Arena.{Arena}
use my_leveldb.Arena.Regions.{Region, region, IsArena}
use my_leveldb.SkipList.{Ptr, SkipList, random_height, update}
use my_leveldb.SkipList.Chain.{IsChain, first_at}
use my_leveldb.SkipList.Find.{IsSkipList}
use my_leveldb.SkipList.Splice.{Absent}
use my_leveldb.SkipList.Nodes.{
  insert_new_node, HoldsNode, size, blocks_after, insert_new_node-IsSkipList,
}
use my_leveldb.Examples.MemoryRuns.{compare_numbers, number_order}
use Prim.Native.Nat.{compare}

-- A block at 4096, with the head there, which has 104 bytes for a key of 8 and twelve links, the node
-- 4200 with the key 10 and one link, and the node 4216 with the key 30 and two.
abbrev placed_height : Ptr → ℕ
placed_height p = if p == 4096 then 12 else if p == 4200 then 1 else 2

abbrev head_link : ℕ → Option Ptr
head_link zero = some 4200
head_link (suc zero) = some 4216
head_link (suc (suc i)) = none

abbrev placed_link : Ptr → ℕ → Option Ptr
placed_link p i = if p == 4096 then head_link i else if p == 4200 then some 4216 else none

abbrev placed_nodes : SkipList ℕ
placed_nodes = record {
  key = λ p. if p == 4200 then 10 else 30;
  link = placed_link;
  head = 4096;
  cur_max_height = 2;
  rnd = 1;
}

abbrev placed_list : List Ptr
placed_list = 4200 ∷ 4216 ∷ []

head_links : (i : ℕ) → i < 12 → head_link i ≡ first_at placed_height i placed_list
head_links zero h = refl
head_links (suc zero) h = refl
head_links (suc (suc i)) h = ground arith

node_links : (i : ℕ) → i < 1 → placed_link 4200 i ≡ first_at placed_height i (4216 ∷ [])
node_links zero h = refl
node_links (suc i) h = absurd (omega arith)

placed_nodes-IsSkipList : IsSkipList compare placed_nodes placed_height placed_list
unfolding IsChain
placed_nodes-IsSkipList = record {
  chain = (head_links, omega arith, (refl, tt), (node_links, omega arith, tt, λ i h. refl));
  head_height = refl;
  high = omega arith;
  low = (omega arith, (omega arith, tt));
  pos = omega arith;
  distinct = (
    (λ e. omega (arith, e), (λ e. omega (arith, e), tt)),
    ((λ e. omega (arith, e), tt), (tt, tt)),
  );
}

abbrev one_block : Arena
one_block = record {
  alloc_ptr = 4240;
  alloc_bytes_remaining = 3952;
  blocks = 4096 ∷ [];
  blocks_memory = 4096;
}

abbrev three_given : List Region
three_given = region 4216 24 ∷ region 4200 16 ∷ region 4096 104 ∷ []

one_block-IsArena : IsArena (region 4096 4096 ∷ []) three_given one_block
one_block-IsArena = record {
  used_apart = ((inr (omega arith), (inr (omega arith), tt)), ((inr (omega arith), tt), (tt, tt)));
  used_inside = (
    inl (omega arith, omega arith),
    (inl (omega arith, omega arith), (inl (omega arith, omega arith), tt)),
  );
  window_apart = (inr (omega arith), (inr (omega arith), (inr (omega arith), tt)));
  window_inside = inr (inl (omega arith, omega arith));
  window_small = omega arith;
  block_count = refl;
  block_memory = refl;
  accounted = omega arith;
}

three_given-HoldsNode : All (HoldsNode 8 three_given placed_height) (4096 ∷ 4200 ∷ 4216 ∷ [])
three_given-HoldsNode = (
  inr (inr (inl (refl, omega arith))),
  (inr (inl (refl, omega arith)), (inl (refl, omega arith), tt)),
)

-- The key 15, with 8 bytes for a key and the block 8192 if the system is asked for one.
abbrev node_size : ℕ
node_size = size number_order placed_nodes-IsSkipList one_block-IsArena 15 8192 8

insert_new_node-IsSkipList_example :
    (t : SkipList ℕ) × (a : Arena) × (node : Ptr) × (insert_new_node compare_numbers 5 8192 8 15
        (placed_nodes, one_block)
      ≡ some (t, a))
    × (node % 8 ≡ 0)
    × IsSkipList compare t (update placed_height node (random_height 1).0) (4200 ∷ node ∷ 4216 ∷ [])
    × IsArena
        (blocks_after number_order placed_nodes-IsSkipList one_block-IsArena 15 8192 8)
        (region node node_size ∷ three_given)
        a
    × All
        (HoldsNode 8
          (region node node_size ∷ three_given)
          (update placed_height node (random_height 1).0))
        (t.head ∷ 4200 ∷ node ∷ 4216 ∷ [])
    × (t.key ≡ update placed_nodes.key node 15)
    × Absent node (4200 ∷ 4216 ∷ [])
insert_new_node-IsSkipList_example =
    insert_new_node-IsSkipList number_order placed_nodes-IsSkipList one_block-IsArena 15 8192 8 5
      (omega arith) three_given-HoldsNode refl refl (inr (ground arith), tt)
