-- ===== src/SkipList.antt =====
-- skiplist.h: a list sorted by key with links at up to twelve levels. A pointer to a node is a number
-- and NULL is `none`; the nodes live in two maps, from a pointer to its key and from a pointer and a
-- level to its link. The comparator `compare_` is a parameter; `none` is a failed `assert`, a fault of
-- the comparator, or a loop that ran out of its fuel, the first number of each function that loops.
-- The loads and stores of the atomic pointers are plain ones: the functions are those of one thread, and
-- Rounds is about the list that another one may see.
pub mod Height
pub mod Chain
pub mod Place
pub mod Find
pub mod Agree
pub mod Splice
pub mod Relink
pub mod Insert
pub mod Keys
pub mod Refine
pub mod Sorted
pub mod AnyOrder
pub mod Visit
pub mod Rounds
pub mod Nodes
pub mod Standing
use my_leveldb.Common.{
  ℕ, zero, suc, ◌+◌, ◌-◌, ◌%◌, ◌<◌, Bool, true, false, not, Option, none, some, List, [], ◌∷◌, ltb,
  ◌==◌, if◌then◌else◌, ◌&&◌, ◌>>=◌, ◌>>◌, assert,
}
use my_leveldb.Comparator.{is_lt}
use my_leveldb.Slice.{is_eq}
use my_leveldb.Random.{next, new_random}
use Prim.Native.Nat.{Ordering}

abbrev pub Ptr : Type 0
Ptr = ℕ

abbrev pub k_max_height : ℕ
k_max_height = 12

abbrev pub k_branching : ℕ
k_branching = 4

-- `head` is `head_`; the key at `head` is never read.
pub record SkipList (K : Type 0) : Type 0 where
  pub key : Ptr → K
  pub link : Ptr → ℕ → Option Ptr
  pub head : Ptr
  pub cur_max_height : ℕ
  pub rnd : ℕ

-- `Node::setNext` and `Node::noBarrier_SetNext`
unfoldable pub set_link : {K : Type 0} → Ptr → ℕ → Option Ptr → SkipList K → SkipList K
set_link p n x s = record s { link = λ q m. if q == p && m == n then x else s.link q m }

-- The constructor, on the node for the head that the arena gave.
unfoldable pub new_skip_list : {K : Type 0} → Ptr → (Ptr → K) → SkipList K
new_skip_list head key = record {
  key = key;
  link = λ p n. none;
  head = head;
  cur_max_height = 1;
  rnd = new_random 0xdeadbeef;
}

-- `randomHeight`: the loop with `left` more levels to gain; the height and the new seed.
unfoldable pub height_loop : (left height seed : ℕ) → ℕ × ℕ
height_loop zero height seed = (height, seed)
height_loop (suc left) height seed =
    let seed' = next seed in
    let more = height_loop left (height + 1) seed' in
    if seed' % k_branching == 0 then more else (height, seed')

unfoldable pub random_height : ℕ → ℕ × ℕ
unfolding height_loop
random_height seed = height_loop (k_max_height - 1) 1 seed

abbrev pub update : {A : Type 0} → (ℕ → A) → ℕ → A → ℕ → A
update f i a j = if j == i then a else f j

module _ {K : Type 0} (compare_ : K → K → Option Ordering) (s : SkipList K) where
  -- The loop of `findEqualOrGreater`, with `levels` for `level + 1`, and the array `pre` as a map.
  unfoldable pub find_loop :
      (fuel levels : ℕ) → Ptr → Option Ptr → (ℕ → Ptr) → K → Option (Option Ptr × (ℕ → Ptr))
  find_loop zero levels x next pre key = none
  find_loop (suc fuel) zero x next pre key = some (next, pre)
  find_loop (suc fuel) (suc level) x next pre key = elim (s.link x level) [
    | none ↦ find_loop fuel level x none (update pre level x) key
    | some y ↦ compare_ (s.key y) key >>= λ r. elim (is_lt r) [
      | true ↦ find_loop fuel (suc level) y (some y) pre key
      | false ↦ find_loop fuel level x (some y) (update pre level x) key
    ]
  ]

  unfoldable pub find_equal_or_greater : ℕ → K → (ℕ → Ptr) → Option (Option Ptr × (ℕ → Ptr))
  unfolding find_loop
  find_equal_or_greater fuel key pre = find_loop fuel s.cur_max_height s.head none pre key

  unfoldable pub less_loop : (fuel levels : ℕ) → Ptr → K → Option Ptr
  less_loop zero levels x key = none
  less_loop (suc fuel) zero x key = some x
  less_loop (suc fuel) (suc level) x key = elim (s.link x level) [
    | none ↦ less_loop fuel level x key
    | some y ↦ compare_ (s.key y) key >>= λ r. elim (is_lt r) [
      | true ↦ less_loop fuel (suc level) y key
      | false ↦ less_loop fuel level x key
    ]
  ]

  unfoldable pub find_less_than : ℕ → K → Option Ptr
  unfolding less_loop
  find_less_than fuel key = less_loop fuel s.cur_max_height s.head key

  -- `equal` of a node's key and another key.
  abbrev pub equal : K → K → Option Bool
  equal a b = do r ← compare_ a b; some (is_eq r)

  unfoldable pub contains : ℕ → K → Option Bool
  contains fuel key = do
    (node, _) ← find_equal_or_greater fuel key (λ i. s.head)
    elim node [ none ↦ some false | some y ↦ equal (s.key y) key ]

module _ {K : Type 0} (s : SkipList K) where
  -- The loop of `findLast`, which follows level 0 whatever `level` is.
  unfoldable pub last_loop : (fuel levels : ℕ) → Ptr → Option Ptr
  last_loop zero levels x = none
  last_loop (suc fuel) zero x = some x
  last_loop (suc fuel) (suc level) x = elim (s.link x 0) [
    | none ↦ last_loop fuel level x
    | some y ↦ last_loop fuel (suc level) y
  ]

  unfoldable pub find_last : ℕ → Option Ptr
  unfolding last_loop
  find_last fuel = last_loop fuel s.cur_max_height s.head

-- `Iterator`: its node.
unfoldable pub valid : Option Ptr → Bool
valid none = false
valid (some p) = true

module _ {K : Type 0} where
  -- At most `rounds` rounds of `for (i = h - 1; i >= 0; --i)`, where the levels below `levels` are
  -- left: the new node goes behind `pre i` at the highest of them.
  unfoldable pub link_loop : (rounds levels : ℕ) → Ptr → (ℕ → Ptr) → SkipList K → SkipList K
  link_loop zero levels node pre s = s
  link_loop (suc r) zero node pre s = s
  link_loop (suc r) (suc i) node pre s =
      link_loop r i node pre (set_link (pre i) i (some node) (set_link node i (s.link (pre i) i) s))

  -- `pre[i] = head_` for the levels that are new.
  abbrev pub raise : SkipList K → ℕ → (ℕ → Ptr) → ℕ → Ptr
  raise s h pre i = if ltb i s.cur_max_height then pre i else if ltb i h then s.head else pre i

  -- `insert` up to and with `rounds` rounds of its last loop. The node that the arena gives is `node`;
  -- the entries of `pre` that no loop has written are not read.
  unfoldable pub insert_rounds :
      (compare_ : K → K → Option Ordering) (fuel rounds : ℕ) (node : Ptr)
      → K
      → SkipList K
      → Option (SkipList K)
  insert_rounds compare_ fuel rounds node key s = do
    (found, pre) ← find_equal_or_greater compare_ s fuel key (λ i. s.head)
    same ← elim found [ none ↦ some false | some y ↦ equal compare_ s (s.key y) key ]
    assert (not same)
    let (h, seed) = random_height s.rnd
    let cur_max_height = if ltb s.cur_max_height h then h else s.cur_max_height
    some (
        link_loop rounds h node (raise s h pre)
          (record s { key = update s.key node key; cur_max_height = cur_max_height; rnd = seed }))

  -- All the rounds: there is one per level of the new node, which has at most twelve.
  unfoldable pub insert :
      (compare_ : K → K → Option Ordering) (fuel : ℕ) (node : Ptr)
      → K
      → SkipList K
      → Option (SkipList K)
  unfolding insert_rounds
  insert compare_ fuel node key s = insert_rounds compare_ fuel k_max_height node key s

  -- A step of `Iterator` that needs a valid iterator asserts it.
  unfoldable pub iter_key : SkipList K → Option Ptr → Option K
  iter_key s node = do p ← node; some (s.key p)

  unfoldable pub iter_next : SkipList K → Option Ptr → Option (Option Ptr)
  iter_next s node = do p ← node; some (s.link p 0)

  -- The head stands for no node.
  abbrev pub unless_head : SkipList K → Ptr → Option Ptr
  unless_head s p = if p == s.head then none else some p

  unfoldable pub iter_prev :
      (K → K → Option Ordering) → ℕ → SkipList K → Option Ptr → Option (Option Ptr)
  iter_prev compare_ fuel s node = do
    p ← node
    x ← find_less_than compare_ s fuel (s.key p)
    some (unless_head s x)

  unfoldable pub iter_seek : (K → K → Option Ordering) → ℕ → SkipList K → K → Option (Option Ptr)
  iter_seek compare_ fuel s target = do
    (node, _) ← find_equal_or_greater compare_ s fuel target (λ i. s.head)
    some node

  unfoldable pub iter_seek_to_first : SkipList K → Option Ptr
  iter_seek_to_first s = s.link s.head 0

  unfoldable pub iter_seek_to_last : ℕ → SkipList K → Option (Option Ptr)
  iter_seek_to_last fuel s = do x ← find_last s fuel; some (unless_head s x)
