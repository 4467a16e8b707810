-- ===== src/SkipList/Visit.antt =====
-- `contains`, `findLast` and the iterator on a sound skip list.
use my_leveldb.Common.{
  ℕ, zero, suc, ◌+◌, ◌<◌, ◌≤◌, ◌≡◌, refl, sym, ap, ◌∙◌, Bool, false, Option, none, some, List, [],
  ◌∷◌, length, All, arith, lt→ltb,
}
use my_leveldb.Comparator.{is_lt}
use my_leveldb.Slice.{is_eq}
use my_leveldb.SkipList.{
  Ptr, SkipList, last_loop, find_last, contains, iter_seek, iter_seek_to_first, iter_seek_to_last,
  iter_prev, iter_next, unless_head, equal,
}
use my_leveldb.SkipList.Chain.{IsKeyOrder, at_or_after, last_before, IsChain}
use my_leveldb.SkipList.Find.{
  IsSkipList, any_equal, find_equal_or_greater-at_or_after, find_less_than-last_before,
}
use Prim.Native.Nat.{Ordering, lt, eq, gt}

abbrev pub first_or : Ptr → List Ptr → Ptr
first_or x [] = x
first_or x (y ∷ ys) = y

abbrev pub last_or : Ptr → List Ptr → Ptr
last_or x [] = x
last_or x (y ∷ ys) = last_or y ys

-- Where the list ends or continues at level 0.
abbrev pub head_of : List Ptr → Option Ptr
head_of [] = none
head_of (y ∷ ys) = some y

-- The nodes that an iterator meets in at most `n` steps.
abbrev pub visited : {K : Type 0} → SkipList K → ℕ → Option Ptr → List Ptr
visited s zero at_ = []
visited s (suc n) none = []
visited s (suc n) (some p) = elim (iter_next s (some p)) [
  | none ↦ p ∷ []
  | some q ↦ p ∷ visited s n q
]

visited-none : {K : Type 0} (s : SkipList K) (n : ℕ) → visited s n none ≡ []
visited-none s zero = refl
visited-none s (suc n) = refl

module _ {K : Type 0} (order : K → K → Ordering) (s : SkipList K) (height : Ptr → ℕ) where
  pub link_zero :
      (x : Ptr) (ys : List Ptr)
      → IsChain order s height x ys
      → 0 < height x
      → s.link x 0 ≡ head_of ys
  unfolding IsChain
  link_zero x [] c h = c 0 h
  link_zero x (y ∷ ys) c h = c.0 0 h ∙ rw (lt→ltb 0 (height y) c.1) refl

  pub visited-chain :
      (x : Ptr) (ys : List Ptr) (n : ℕ)
      → IsChain order s height x ys
      → 0 < height x
      → length ys < n
      → visited s n (some x) ≡ x ∷ ys
  unfolding IsChain iter_next
  visited-chain x ys zero c h e = absurd (omega arith)
  visited-chain x [] (suc n) c h e = rw (link_zero x [] c h) (ap (λ t. x ∷ t) (visited-none s n))
  visited-chain x (y ∷ ys) (suc n) c h e =
      rw (link_zero x (y ∷ ys) c h) (ap (λ t. x ∷ t) (visited-chain y ys n c.3 c.1 (omega arith)))

  visited-link :
      (x : Ptr) (ys : List Ptr) (n : ℕ)
      → IsChain order s height x ys
      → 0 < height x
      → length ys < n
      → visited s n (s.link x 0) ≡ ys
  unfolding IsChain
  visited-link x [] n c h e = rw (link_zero x [] c h) (visited-none s n)
  visited-link x (y ∷ ys) n c h e =
      rw (link_zero x (y ∷ ys) c h) (visited-chain y ys n c.3 c.1 (omega arith))

  drained :
      (fuel levels : ℕ) (x : Ptr)
      → s.link x 0 ≡ none
      → levels + 1 ≤ fuel
      → last_loop s fuel levels x ≡ some x
  unfolding last_loop
  drained zero levels x e enough = absurd (omega (arith, enough))
  drained (suc f) zero x e enough = refl
  drained (suc f) (suc level) x e enough = rw (last_loop, e) (drained f level x e (omega arith))

  last_found :
      (fuel levels : ℕ) (x : Ptr) (ys : List Ptr)
      → IsChain order s height x ys
      → 0 < height x
      → 0 < levels
      → levels + length ys + 1 ≤ fuel
      → last_loop s fuel levels x ≡ some (last_or x ys)
  unfolding last_loop IsChain
  last_found zero levels x ys c h pos enough = absurd (omega (arith, enough))
  last_found (suc f) zero x ys c h pos enough = absurd (omega arith)
  last_found (suc f) (suc level) x [] c h pos enough =
      drained (suc f) (suc level) x (c 0 h) (omega arith)
  last_found (suc f) (suc level) x (y ∷ ys) c h pos enough =
      rw (last_loop, link_zero x (y ∷ ys) c h)
        (last_found f (suc level) y ys c.3 c.1 (omega arith) (omega arith))

module _ {K : Type 0} {compare_ : K → K → Option Ordering} (ord : IsKeyOrder compare_)
    (key : Ptr → K) (k : K) where
  none_equal :
      (y : Ptr) (ys : List Ptr)
      → All (λ z. ord.order (key y) (key z) ≡ lt) ys
      → is_lt (ord.order (key y) k) ≡ false
      → any_equal ord.order key k ys ≡ false
  none_equal y [] a h = refl
  none_equal y (z ∷ zs) a h = go (none_equal y zs a.1 h) (ord.order (key z) k) refl
    where
      go :
          any_equal ord.order key k zs ≡ false
          → (r : Ordering) → ord.order (key z) k ≡ r
          → any_equal ord.order key k (z ∷ zs) ≡ false
      go later lt e = absurd (grind (arith, h, ord.order_trans (key y) (key z) k a.0 e))
      go later eq e = absurd (grind (arith, h, ord.order_eq (key y) (key z) k a.0 e))
      go later gt e = rw e later

module _ {K : Type 0} {compare_ : K → K → Option Ordering} (ord : IsKeyOrder compare_)
    (s : SkipList K) (height : Ptr → ℕ) (k : K) where
  -- The answer of `contains` from the node that the search returned.
  abbrev pub equal_at : Option Ptr → Bool
  equal_at none = false
  equal_at (some y) = is_eq (ord.order (s.key y) k)

  pub equal-at_or_after :
      (x : Ptr) (ys : List Ptr)
      → IsChain ord.order s height x ys
      → equal_at (at_or_after ord.order s k ys) ≡ any_equal ord.order s.key k ys
  unfolding IsChain
  equal-at_or_after x [] c = refl
  equal-at_or_after x (y ∷ ys) c = go (equal-at_or_after y ys c.3) (ord.order (s.key y) k) refl
    where
      go :
          equal_at (at_or_after ord.order s k ys) ≡ any_equal ord.order s.key k ys
          → (r : Ordering) → ord.order (s.key y) k ≡ r
          → equal_at (at_or_after ord.order s k (y ∷ ys)) ≡ any_equal ord.order s.key k (y ∷ ys)
      go later lt e = rw e later
      go later eq e = rw (e, e) refl
      go later gt e = rw (e, e, none_equal ord s.key k y ys c.2 (ap (λ r. is_lt r) e)) refl

  pub equal_at_lem :
      (o : Option Ptr)
      → elim o [ none ↦ some false | some y ↦ equal compare_ s (s.key y) k ] ≡ some (equal_at o)
  equal_at_lem none = refl
  equal_at_lem (some y) = rw (ord.compare_some (s.key y) k) refl

module _ {K : Type 0} {compare_ : K → K → Option Ordering} (ord : IsKeyOrder compare_)
    {s : SkipList K} {height : Ptr → ℕ} {nodes : List Ptr}
    (sound : IsSkipList ord.order s height nodes) where
  -- Under a comparator with the laws of `IsKeyOrder`, in a sound skip list, with fuel for one
  -- step per node and per level and one more, `contains` tells whether some node has a key that
  -- the comparator finds equal.
  pub contains-any_equal :
      (k : K) (fuel : ℕ)
      → s.cur_max_height + length nodes + 1 ≤ fuel
      → contains compare_ s fuel k ≡ some (any_equal ord.order s.key k nodes)
  unfolding contains
  contains-any_equal k fuel enough =
      let f = find_equal_or_greater-at_or_after ord sound k fuel (λ i. s.head) enough in
      rw (f.1, sym (equal-at_or_after ord s height k s.head nodes sound.chain))
        (equal_at_lem ord s height k (at_or_after ord.order s k nodes))

  -- Under a comparator with the laws of `IsKeyOrder`, in a sound skip list, an iterator that
  -- goes from `seekToFirst` by `next`, with more steps than there are nodes, visits the nodes in
  -- the order of level 0, and no other.
  pub visited-iter_seek_to_first :
      (n : ℕ) → length nodes < n → visited s n (iter_seek_to_first s) ≡ nodes
  unfolding iter_seek_to_first
  visited-iter_seek_to_first n enough =
      visited-link ord.order s height s.head nodes n sound.chain (omega (arith, sound.head_height))
        enough

  -- Under a comparator with the laws of `IsKeyOrder`, in a sound skip list, with fuel for one
  -- step per node and per level and one more, `seek` moves to the first node that is not less
  -- than the target, `prev` to the last one less than the key of its node, and `seekToLast` to
  -- the last node; where that is the head, the iterator is not valid.
  pub iter_moves :
      (fuel : ℕ) (p : Ptr) (k : K)
      → s.cur_max_height + length nodes + 1 ≤ fuel
      → (iter_seek compare_ fuel s k ≡ some (at_or_after ord.order s k nodes))
        × (iter_prev compare_ fuel s (some p)
            ≡ some (unless_head s (last_before ord.order s (s.key p) s.head nodes)))
        × (iter_seek_to_last fuel s ≡ some (unless_head s (last_or s.head nodes)))
  unfolding iter_seek iter_prev iter_seek_to_last find_last
  iter_moves fuel p k enough = (
    rw (find_equal_or_greater-at_or_after ord sound k fuel (λ i. s.head) enough).1 refl,
    rw (find_less_than-last_before ord sound (s.key p) fuel enough) refl,
    rw
        (last_found ord.order s height fuel s.cur_max_height s.head nodes sound.chain
          (omega (arith, sound.head_height)) sound.pos enough)
        refl,
  )
