-- ===== src/SkipList/Chain.antt =====
-- What a sound skip list is, seen from outside: its nodes in the order of level 0 as a list, with a
-- height for each node, and where a search among them is to end.
use my_leveldb.Common.{
  ℕ, ◌<◌, ◌≡◌, refl, sym, true, false, Bool-cases, inl, inr, Option, none, some, List, [], ◌∷◌,
  length, All, arith, ltb, lt→ltb, ltb→lt, if◌then◌else◌,
}
use my_leveldb.Comparator.{is_lt}
use my_leveldb.SkipList.{Ptr, SkipList}
use Prim.Native.Nat.{Ordering, lt, eq, gt}

-- What a skip list needs of its comparator: it never faults, its "less" is transitive, equal keys
-- have the same keys below them, and "greater" is "less" with the keys swapped.
pub record IsKeyOrder {K : Type 0} (compare_ : K → K → Option Ordering) : Type 0 where
  pub order : K → K → Ordering
  pub compare_some : (a b : K) → compare_ a b ≡ some (order a b)
  pub order_trans : (a b c : K) → order a b ≡ lt → order b c ≡ lt → order a c ≡ lt
  pub order_eq : (a b c : K) → order a b ≡ lt → order b c ≡ eq → order a c ≡ lt
  pub order_gt : (a b : K) → order a b ≡ gt → order b a ≡ lt
  pub order_lt : (a b : K) → order a b ≡ lt → order b a ≡ gt

module _ (height : Ptr → ℕ) (i : ℕ) where
  -- The first node above level `i`, and the nodes after it.
  abbrev pub first_at : List Ptr → Option Ptr
  first_at [] = none
  first_at (y ∷ ys) = let later = first_at ys in if ltb i (height y) then some y else later

  abbrev pub rest_at : List Ptr → List Ptr
  rest_at [] = []
  rest_at (y ∷ ys) = let later = rest_at ys in if ltb i (height y) then ys else later

module _ {K : Type 0} (order : K → K → Ordering) (s : SkipList K) where
  -- The first node of a list whose key is not less than the target, and the last one before it.
  abbrev pub at_or_after : K → List Ptr → Option Ptr
  at_or_after k [] = none
  at_or_after k (y ∷ ys) =
      let later = at_or_after k ys in if is_lt (order (s.key y) k) then later else some y

  abbrev pub last_before : K → Ptr → List Ptr → Ptr
  last_before k x [] = x
  last_before k x (y ∷ ys) =
      let later = last_before k y ys in if is_lt (order (s.key y) k) then later else x

  -- From `x` the links lead through the nodes of a list, in the strict order of their keys: at every
  -- level below the height of a node, to the next node that is above that level.
  unfoldable pub IsChain : (Ptr → ℕ) → Ptr → List Ptr → Type 0
  IsChain height x [] = (i : ℕ) → i < height x → s.link x i ≡ none
  IsChain height x (y ∷ ys) =
      ((i : ℕ) → i < height x → s.link x i ≡ first_at height i (y ∷ ys))
      × (0 < height y)
      × All (λ z. order (s.key y) (s.key z) ≡ lt) ys
      × IsChain height y ys

  pub link-first_at :
      (height : Ptr → ℕ) (x : Ptr) (ys : List Ptr) (i : ℕ)
      → IsChain height x ys
      → i < height x
      → s.link x i ≡ first_at height i ys
  unfolding IsChain
  link-first_at height x [] i c hi = c i hi
  link-first_at height x (y ∷ ys) i c hi = c.0 i hi

  pub less-first_at :
      (height : Ptr → ℕ) (i : ℕ) (w y : Ptr) (ys : List Ptr)
      → All (λ z. order (s.key w) (s.key z) ≡ lt) ys
      → first_at height i ys ≡ some y
      → order (s.key w) (s.key y) ≡ lt
  less-first_at height i w y [] h e = absurd (grind (arith, e))
  less-first_at height i w y (z ∷ zs) h e = elim (Bool-cases (ltb i (height z))) [
    | inl up ↦ let e' : some z ≡ some y = rw up at e in cc (h.0, e')
    | inr low ↦ less-first_at height i w y zs h.1 (rw low at e)
  ]

  pub lt_of_is_lt : (r : Ordering) → is_lt r ≡ true → r ≡ lt
  lt_of_is_lt lt h = refl
  lt_of_is_lt eq h = absurd (grind (arith, h))
  lt_of_is_lt gt h = absurd (grind (arith, h))

  -- A step along level `i` to a node whose key is less than the target: the chain goes on from there
  -- with fewer nodes, and the search ends where it would have.
  pub step :
      (trans : (a b c : K) → order a b ≡ lt → order b c ≡ lt → order a c ≡ lt) (height : Ptr → ℕ)
      (i : ℕ) (k : K) (x y : Ptr) (ys : List Ptr)
      → IsChain height x ys
      → first_at height i ys ≡ some y
      → is_lt (order (s.key y) k) ≡ true
      → IsChain height y (rest_at height i ys)
        × (i < height y)
        × (length (rest_at height i ys) < length ys)
        × (at_or_after k ys ≡ at_or_after k (rest_at height i ys))
        × (last_before k x ys ≡ last_before k y (rest_at height i ys))
  unfolding IsChain
  step trans height i k x y [] c e l = absurd (grind (arith, e))
  step trans height i k x y (z ∷ zs) c e l = elim (Bool-cases (ltb i (height z))) [
    | inl up ↦
        let e' : some z ≡ some y = rw up at e in
        let same : z ≡ y = cc e' in
        let l' : is_lt (order (s.key z) k) ≡ true = rw same l in
        rw (up, sym same) (c.3, ltb→lt i (height z) up, omega arith, rw l' refl, rw l' refl)
    | inr low ↦
        let e' : first_at height i zs ≡ some y = rw low at e in
        let r = step trans height i k z y zs c.3 e' l in
        let z_y = less-first_at height i z y zs c.2 e' in
        let z_k = trans (s.key z) (s.key y) k z_y (lt_of_is_lt (order (s.key y) k) l) in
        rw low (r.0, r.1, omega (arith, r.2), rw z_k r.3, rw z_k r.4)
  ]

  -- At level 0 a search that can go no further has found its end.
  pub stop_none :
      (height : Ptr → ℕ) (k : K) (x : Ptr) (ys : List Ptr)
      → IsChain height x ys
      → first_at height 0 ys ≡ none
      → (at_or_after k ys ≡ none) × (last_before k x ys ≡ x) × (ys ≡ [])
  unfolding IsChain
  stop_none height k x [] c e = (refl, refl, refl)
  stop_none height k x (y ∷ ys) c e = absurd (grind (arith, rw (lt→ltb 0 (height y) c.1) at e))

  pub stop_some :
      (height : Ptr → ℕ) (k : K) (x y : Ptr) (ys : List Ptr)
      → IsChain height x ys
      → first_at height 0 ys ≡ some y
      → is_lt (order (s.key y) k) ≡ false
      → (at_or_after k ys ≡ some y) × (last_before k x ys ≡ x)
  unfolding IsChain
  stop_some height k x y [] c e l = absurd (grind (arith, e))
  stop_some height k x y (z ∷ zs) c e l =
      let e' : some z ≡ some y = rw (lt→ltb 0 (height z) c.1) at e in
      let same : z ≡ y = cc e' in
      let l' : is_lt (order (s.key z) k) ≡ false = rw same l in (rw l' e', rw l' refl)
