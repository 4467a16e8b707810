-- ===== src/SkipList/Place.antt =====
-- Where a new node goes: the node before it at each level, and the list of nodes with it.
use my_leveldb.Common.{
  ℕ, ◌≤◌, ◌≡◌, refl, true, false, Bool-cases, inl, inr, none, some, List, [], ◌∷◌, arith, ltb,
  lt→ltb, ltb→lt, if◌then◌else◌,
}
use my_leveldb.Comparator.{is_lt}
use my_leveldb.SkipList.{Ptr, SkipList}
use my_leveldb.SkipList.Chain.{first_at, rest_at, IsChain, less-first_at, lt_of_is_lt}
use Prim.Native.Nat.{Ordering, lt}

module _ {K : Type 0} (order : K → K → Ordering) (key : Ptr → K) (k : K) where
  -- The last node above level `i` whose key is less than the target, or `x`.
  abbrev pub pred_at : (height : Ptr → ℕ) (i : ℕ) → Ptr → List Ptr → Ptr
  pred_at height i x [] = x
  pred_at height i x (y ∷ ys) =
      let later = pred_at height i (if ltb i (height y) then y else x) ys in
      if is_lt (order (key y) k) then later else x

  -- The nodes with a new one before the first key that is not less.
  abbrev pub placed : (node : Ptr) → List Ptr → List Ptr
  placed node [] = node ∷ []
  placed node (y ∷ ys) =
      let later = y ∷ placed node ys in
      let here = node ∷ y ∷ ys in if is_lt (order (key y) k) then later else here

  pub pred_at-none :
      (height : Ptr → ℕ) (i : ℕ) (x : Ptr) (ys : List Ptr)
      → first_at height i ys ≡ none
      → pred_at height i x ys ≡ x
  pred_at-none height i x [] e = refl
  pred_at-none height i x (y ∷ ys) e = elim (Bool-cases (ltb i (height y))) [
    | inl up ↦ absurd (grind (arith, rw up at e))
    | inr low ↦ elim (Bool-cases (is_lt (order (key y) k))) [
      | inl less ↦ rw (less, low) (pred_at-none height i x ys (rw low at e))
      | inr more ↦ rw more refl
    ]
  ]

  pub pred_at-some :
      (height : Ptr → ℕ) (i : ℕ) (x y : Ptr) (ys : List Ptr)
      → first_at height i ys ≡ some y
      → is_lt (order (key y) k) ≡ false
      → pred_at height i x ys ≡ x
  pred_at-some height i x y [] e more = refl
  pred_at-some height i x y (z ∷ zs) e more = elim (Bool-cases (is_lt (order (key z) k))) [
    | inr here ↦ rw here refl
    | inl less ↦ elim (Bool-cases (ltb i (height z))) [
      | inl up ↦
          let e' : some z ≡ some y = rw up at e in
          let same : z ≡ y = cc e' in
          let clash : is_lt (order (key y) k) ≡ true = rw (← same) less in
          absurd (grind (arith, clash, more))
      | inr low ↦ rw (less, low) (pred_at-some height i x y zs (rw low at e) more)
    ]
  ]

  -- A step along a level `j` at or above `i` leaves it where it was.
  pub pred_at-step :
      (trans : (a b c : K) → order a b ≡ lt → order b c ≡ lt → order a c ≡ lt) (s : SkipList K)
      (keys : s.key ≡ key) (height : Ptr → ℕ) (i j : ℕ) (w x y : Ptr) (ys : List Ptr)
      → IsChain order s height w ys
      → i ≤ j
      → first_at height j ys ≡ some y
      → is_lt (order (key y) k) ≡ true
      → pred_at height i x ys ≡ pred_at height i y (rest_at height j ys)
  unfolding IsChain
  pred_at-step trans s keys height i j w x y [] c h e l = absurd (grind (arith, e))
  pred_at-step trans s keys height i j w x y (z ∷ zs) c h e l =
      elim (Bool-cases (ltb j (height z))) [
        | inl up ↦
            let e' : some z ≡ some y = rw up at e in
            let same : z ≡ y = cc e' in
            let l' : is_lt (order (key z) k) ≡ true = rw same l in
            let low : ltb i (height z) ≡ true =
              lt→ltb i (height z) (omega (arith, ltb→lt j (height z) up)) in
            rw (up, l', low, same) refl
        | inr low ↦
            let e' : first_at height j zs ≡ some y = rw low at e in
            let z_y : order (key z) (key y) ≡ lt =
              rw (← keys) (less-first_at order s height j z y zs c.2 e') in
            let z_k = trans (key z) (key y) k z_y (lt_of_is_lt order s (order (key y) k) l) in
            rw (low, z_k)
              (pred_at-step trans s keys height i j z (if ltb i (height z) then z else x) y zs c.3 h
                e' l)
      ]
