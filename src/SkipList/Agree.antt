-- ===== src/SkipList/Agree.antt =====
-- A search asks its comparator about the keys of the list and the target only: two comparators that
-- agree on these give the same search.
use my_leveldb.Common.{
  ℕ, zero, suc, ◌<◌, ◌≤◌, ◌≡◌, refl, sym, ap, Bool-cases, Option-cases, inl, inr, Option, none,
  some, List, [], ◌∷◌, All, arith, ltb, ltb→lt, ◌>>=◌,
}
use my_leveldb.Comparator.{is_lt}
use my_leveldb.SkipList.{Ptr, SkipList, find_loop, find_equal_or_greater, iter_seek, update}
use my_leveldb.SkipList.Chain.{first_at, rest_at, IsChain, link-first_at}
use my_leveldb.SkipList.Find.{IsSkipList}
use Prim.Native.Nat.{Ordering}

module _ {K : Type 0} (order : K → K → Ordering) (s : SkipList K) (height : Ptr → ℕ) (i : ℕ) where
  -- The chain goes on from the next node above level `i`.
  IsChain-rest_at :
      (x y : Ptr) (ys : List Ptr)
      → IsChain order s height x ys
      → first_at height i ys ≡ some y
      → IsChain order s height y (rest_at height i ys) × (i < height y)
  unfolding IsChain
  IsChain-rest_at x y [] c e = absurd (grind (arith, e))
  IsChain-rest_at x y (z ∷ zs) c e = elim (Bool-cases (ltb i (height z))) [
    | inl up ↦
        let e' : some z ≡ some y = rw up at e in
        let same : z ≡ y = cc e' in rw (up, sym same) (c.3, ltb→lt i (height z) up)
    | inr low ↦
        let e' : first_at height i zs ≡ some y = rw low at e in
        rw low (IsChain-rest_at z y zs c.3 e')
  ]

All-first_at :
    (P : Ptr → Type 0) (height : Ptr → ℕ) (i : ℕ) (y : Ptr) (ys : List Ptr)
    → All P ys
    → first_at height i ys ≡ some y
    → P y × All P (rest_at height i ys)
All-first_at P height i y [] h e = absurd (grind (arith, e))
All-first_at P height i y (z ∷ zs) h e = elim (Bool-cases (ltb i (height z))) [
  | inl up ↦
      let e' : some z ≡ some y = rw up at e in
      let same : z ≡ y = cc e' in rw (up, sym same) (h.0, h.1)
  | inr low ↦
      let e' : first_at height i zs ≡ some y = rw low at e in
      rw low (All-first_at P height i y zs h.1 e')
]

module _ {K : Type 0} (compare_ compare' : K → K → Option Ordering) (order : K → K → Ordering)
    (s : SkipList K) (height : Ptr → ℕ) (k : K) where
  abbrev pub Agree : List Ptr → Type 0
  Agree ys = All (λ y. compare_ (s.key y) k ≡ compare' (s.key y) k) ys

  find_loop-Agree :
      (fuel levels : ℕ) (x : Ptr) (ys : List Ptr) (next : Option Ptr) (pre : ℕ → Ptr)
      → IsChain order s height x ys
      → levels ≤ height x
      → Agree ys
      → find_loop compare_ s fuel levels x next pre k
        ≡ find_loop compare' s fuel levels x next pre k
  unfolding find_loop
  find_loop-Agree zero levels x ys next pre c h a = refl
  find_loop-Agree (suc f) zero x ys next pre c h a = refl
  find_loop-Agree (suc f) (suc level) x ys next pre c h a =
      let l = link-first_at order s height x ys level c h in
      elim (Option-cases (first_at height level ys)) [
        | inl e ↦
            rw (find_loop, l, e)
              (find_loop-Agree f level x ys none (update pre level x) c (omega arith) a)
        | inr (y, e) ↦
            let n = IsChain-rest_at order s height level x y ys c e in
            let b =
              All-first_at (λ z. compare_ (s.key z) k ≡ compare' (s.key z) k) height level y ys a
                e in
            elim (Option-cases (compare' (s.key y) k)) [
              | inl fault ↦ rw (find_loop, l, e, b.0, fault) refl
              | inr (r, answer) ↦ elim (Bool-cases (is_lt r)) [
                | inl less ↦
                    rw (find_loop, l, e, b.0, answer, ◌>>=◌, less)
                      (find_loop-Agree f (suc level) y (rest_at height level ys) (some y) pre n.0
                        n.1 b.1)
                | inr more ↦
                    rw (find_loop, l, e, b.0, answer, ◌>>=◌, more)
                      (find_loop-Agree f level x ys (some y) (update pre level x) c (omega arith) a)
              ]
            ]
      ]

  pub iter_seek-Agree :
      (fuel : ℕ) (nodes : List Ptr)
      → IsSkipList order s height nodes
      → Agree nodes
      → iter_seek compare_ fuel s k ≡ iter_seek compare' fuel s k
  unfolding iter_seek find_equal_or_greater
  iter_seek-Agree fuel nodes sound a =
      ap (λ r. r >>= λ w. some (w.0))
        (find_loop-Agree fuel s.cur_max_height s.head nodes none (λ i. s.head) sound.chain
          (omega (arith, sound.high, sound.head_height)) a)
