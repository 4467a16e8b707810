-- ===== src/SkipList/Nodes.antt =====
-- `SkipList::insert` with `SkipList::newNode`: the new node's memory comes from the arena.
use my_leveldb.Common.{
  subst, ℕ, ◌+◌, ◌-◌, ◌*◌, ◌%◌, ◌<◌, ◌≤◌, ◌≡◌, ◌≢◌, ◌⊎◌, inl, inr, refl, sym, false, Option, some,
  List, [], ◌∷◌, All, length, arith, ◌>>=◌, leb, if◌then◌else◌,
}
use my_leveldb.Arena.{Arena, allocate_aligned, slop}
use my_leveldb.Arena.Regions.{Region, region, Apart, IsArena}
use my_leveldb.Arena.Allocate.{block_size_of, allocate_aligned-IsArena}
use my_leveldb.SkipList.{Ptr, SkipList, insert, random_height, update}
use my_leveldb.SkipList.Chain.{IsKeyOrder, IsChain}
use my_leveldb.SkipList.Place.{placed}
use my_leveldb.SkipList.Find.{IsSkipList, any_equal}
use my_leveldb.SkipList.Splice.{Absent}
use my_leveldb.SkipList.Height.{random_height_bounds}
use my_leveldb.SkipList.Keys.{update-ne, update_self}
use my_leveldb.SkipList.Insert.{insert-IsSkipList, All-placed_node}
use Prim.Native.Nat.{Ordering}

-- `sizeof(Node) + sizeof(port::AtomicPointer) * (height - 1)`, where a node holds its key, in
-- `key_size` bytes, and at least one pointer.
abbrev pub node_bytes : (key_size height : ℕ) → ℕ
node_bytes key_size height = key_size + 8 + 8 * (height - 1)

unfoldable pub new_node : (fresh key_size height : ℕ) → Arena → Option (ℕ × Arena)
unfolding allocate_aligned
new_node fresh key_size height a = allocate_aligned fresh (node_bytes key_size height) a

unfoldable pub insert_new_node :
    {K : Type 0} (compare_ : K → K → Option Ordering) (fuel fresh key_size : ℕ)
    → K
    → SkipList K × Arena
    → Option (SkipList K × Arena)
unfolding new_node insert
insert_new_node compare_ fuel fresh key_size key (s, a) = do
  (node, a') ← new_node fresh key_size (random_height s.rnd).0 a
  t ← insert compare_ fuel node key s
  some (t, a')

-- Where `next_[i]` of a node begins, behind the key and the pointers before it; a pointer has 8 bytes.
abbrev pub link_offset : (key_size i : ℕ) → ℕ
link_offset key_size i = key_size + 8 * i

-- A region that has been handed out begins at `p` and holds a key and the links of `height` levels.
abbrev pub HoldsNode : (key_size : ℕ) → List Region → (height : Ptr → ℕ) → Ptr → Type 0
HoldsNode key_size [] height p = ⊥
HoldsNode key_size (r ∷ rs) height p =
    ((r.start ≡ p) × (link_offset key_size (height p) ≤ r.size)) ⊎ HoldsNode key_size rs height p

-- Every node has a level, so its region is not empty.
HoldsNode-ne :
    (key_size : ℕ) (height : Ptr → ℕ) (f : Region) (used : List Region) (q : Ptr)
    → 0 < f.size
    → 0 < height q
    → All (Apart f) used
    → HoldsNode key_size used height q
    → q ≢ f.start
HoldsNode-ne key_size height f [] q pos level h i = absurd i
HoldsNode-ne key_size height f (r ∷ rs) q pos level h (inl i) =
    λ e. ground (arith, h.0, i.0, i.1, e)
HoldsNode-ne key_size height f (r ∷ rs) q pos level h (inr i) =
    HoldsNode-ne key_size height f rs q pos level h.1 i

Absent-of_Apart :
    (key_size : ℕ) (height : Ptr → ℕ) (f : Region) (used : List Region) (qs : List Ptr)
    → 0 < f.size
    → All (Apart f) used
    → All (λ q. 0 < height q) qs
    → All (HoldsNode key_size used height) qs
    → Absent f.start qs
Absent-of_Apart key_size height f used [] pos h levels i = tt
Absent-of_Apart key_size height f used (q ∷ qs) pos h levels i = (
  HoldsNode-ne key_size height f used q pos levels.0 h i.0,
  Absent-of_Apart key_size height f used qs pos h levels.1 i.1,
)

-- Another node and its region keep what the old ones hold.
HoldsNode-update :
    (key_size : ℕ) (height : Ptr → ℕ) (node new_height : ℕ) (used : List Region) (q : Ptr)
    → q ≢ node
    → HoldsNode key_size used height q
    → HoldsNode key_size used (update height node new_height) q
HoldsNode-update key_size height node h [] q ne i = i
HoldsNode-update key_size height node h (r ∷ rs) q ne (inl i) =
    inl (i.0, rw (update-ne height node q h ne) i.1)
HoldsNode-update key_size height node h (r ∷ rs) q ne (inr i) =
    inr (HoldsNode-update key_size height node h rs q ne i)

All-HoldsNode-update :
    (key_size : ℕ) (height : Ptr → ℕ) (node new_height : ℕ) (r : Region) (used : List Region)
    (qs : List Ptr)
    → Absent node qs
    → All (HoldsNode key_size used height) qs
    → All (HoldsNode key_size (r ∷ used) (update height node new_height)) qs
All-HoldsNode-update key_size height node h r used [] a i = tt
All-HoldsNode-update key_size height node h r used (q ∷ qs) a i = (
  inr (HoldsNode-update key_size height node h used q a.0 i.0),
  All-HoldsNode-update key_size height node h r used qs a.1 i.1,
)

-- The nodes of a chain have levels.
IsChain-levels :
    {K : Type 0} (order : K → K → Ordering) (s : SkipList K) (height : Ptr → ℕ) (x : Ptr)
    (ys : List Ptr)
    → IsChain order s height x ys
    → All (λ q. 0 < height q) ys
unfolding IsChain
IsChain-levels order s height x [] c = tt
IsChain-levels order s height x (y ∷ ys) c = (c.1, IsChain-levels order s height y ys c.3)

module _ {K : Type 0} {compare_ : K → K → Option Ordering} (ord : IsKeyOrder compare_)
    {s : SkipList K} {height : Ptr → ℕ} {nodes : List Ptr} {blocks used : List Region} {a : Arena}
    (sound : IsSkipList ord.order s height nodes) (arena : IsArena blocks used a) (k : K)
    (fresh key_size : ℕ) where
  -- The bytes of the new node, and the blocks after it.
  abbrev pub size : ℕ
  size = node_bytes key_size (random_height s.rnd).0

  abbrev pub blocks_after : List Region
  blocks_after =
      if leb (size + slop a.alloc_ptr) a.alloc_bytes_remaining
      then blocks
      else region fresh (block_size_of size) ∷ blocks

  -- Under a comparator with the laws of `IsKeyOrder`, a sound skip list whose head and nodes each
  -- stand at the start of a region of a sound arena that holds the key and a link for each of their
  -- levels, a key that equals none of the list's, and `fresh` the aligned address of a block apart from
  -- the others: with fuel for one step per node and per level and one more, `insert` takes an aligned
  -- node from the arena and fails no `assert`. List and arena are sound again, the node stands before
  -- the first key that is not less, and the head and all nodes stand in regions of the arena, which
  -- are apart, with room for the key and all their links: so also the new node, with the random
  -- height. It is none of those before, and the others keep their keys.
  pub insert_new_node-IsSkipList :
      (fuel : ℕ)
      → s.cur_max_height + length nodes + 1 ≤ fuel
      → All (HoldsNode key_size used height) (s.head ∷ nodes)
      → any_equal ord.order s.key k nodes ≡ false
      → fresh % 8 ≡ 0
      → All (Apart (region fresh (block_size_of size))) blocks
      → (t : SkipList K) × (a' : Arena) × (node : Ptr) × (insert_new_node compare_ fuel fresh
            key_size k
            (s, a)
          ≡ some (t, a'))
        × (node % 8 ≡ 0)
        × IsSkipList ord.order t
            (update height node (random_height s.rnd).0)
            (placed ord.order s.key k node nodes)
        × IsArena blocks_after (region node size ∷ used) a'
        × All
            (HoldsNode key_size
              (region node size ∷ used)
              (update height node (random_height s.rnd).0))
            (t.head ∷ placed ord.order s.key k node nodes)
        × (t.key ≡ update s.key node k)
        × Absent node nodes
  unfolding insert_new_node new_node
  insert_new_node-IsSkipList fuel enough held new multiple apart =
      let h = (random_height s.rnd).0 in
      let bounds = random_height_bounds s.rnd in
      let positive : 0 < size = omega arith in
      let ((node, a'), taken, aligned, hands) =
        allocate_aligned-IsArena fresh size arena positive multiple apart in
      let used' = region node size ∷ used in
      let levels : All (λ q. 0 < height q) (s.head ∷ nodes) = (
        omega (arith, sound.head_height),
        IsChain-levels ord.order s height s.head nodes sound.chain,
      ) in
      let absent =
        Absent-of_Apart key_size height (region node size) used (s.head ∷ nodes) positive
          hands.used_apart.0 levels held in
      let m = insert-IsSkipList ord sound k node fuel enough absent new in
      let more =
        All-HoldsNode-update key_size height node h (region node size) used (s.head ∷ nodes) absent
          held in
      let room : link_offset key_size h ≤ size = omega (arith, bounds.0) in
      (
        m.0,
        a',
        node,
        rw (taken, m.1) refl,
        aligned,
        m.2,
        hands,
        (
          subst (HoldsNode key_size used' (update height node h)) (sym m.4) more.0,
          All-placed_node ord.order s.key k node (HoldsNode key_size used' (update height node h))
              nodes (inl (refl, rw (update_self height node h) room)) more.1,
        ),
        m.3,
        absent.1,
      )
