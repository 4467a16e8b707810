-- ===== src/SkipList/Find.antt =====
-- `findEqualOrGreater`, `findLessThan`, `findLast`, `contains` and the iterator's moves on a sound
-- skip list: they end within a linear number of steps, where a search of the sorted nodes ends.
use my_leveldb.Common.{
  ℕ, zero, suc, ◌+◌, ◌<◌, ◌≤◌, ◌≡◌, ◌≢◌, All, refl, sym, ap, ◌∙◌, ◌>>=◌, Bool, true, false, ◌||◌,
  Bool-cases, ltb, ltb→lt, ◌==◌, ==_iff, if◌then◌else◌, Option-cases, inl, inr, Option, none, some,
  List, [], ◌∷◌, length, arith,
}
use my_leveldb.Comparator.{is_lt}
use my_leveldb.Slice.{is_eq}
use my_leveldb.SkipList.{
  Ptr, SkipList, find_loop, find_equal_or_greater, less_loop, find_less_than, update, k_max_height,
}
use my_leveldb.SkipList.Chain.{
  IsKeyOrder, first_at, rest_at, at_or_after, last_before, IsChain, link-first_at, step, stop_none,
  stop_some,
}
use my_leveldb.SkipList.Place.{pred_at, pred_at-none, pred_at-some, pred_at-step}
use Prim.Native.Nat.{Ordering}

-- No two pointers of a list are the same.
abbrev pub AllDiffer : List Ptr → Type 0
AllDiffer [] = Unit {0}
AllDiffer (x ∷ xs) = All (λ z. z ≢ x) xs × AllDiffer xs

-- A sound skip list: a chain leads from the head, which has all the levels, through `nodes`, whose
-- heights are at most the height of the list.
pub record IsSkipList {K : Type 0} (order : K → K → Ordering) (s : SkipList K) (height : Ptr → ℕ)
    (nodes : List Ptr) : Type 0 where
  pub chain : IsChain order s height s.head nodes
  pub head_height : height s.head ≡ k_max_height
  pub high : s.cur_max_height ≤ k_max_height
  pub low : All (λ y. height y ≤ s.cur_max_height) nodes
  pub pos : 0 < s.cur_max_height
  pub distinct : AllDiffer (s.head ∷ nodes)

if_then :
    {A : Type 0} (a a' c : A) (b : Bool)
    → (b ≡ true → a ≡ a')
    → (if b then a else c) ≡ (if b then a' else c)
if_then a a' c true h = h refl
if_then a a' c false h = refl

-- One level down: `pre` holds `x` there.
lower :
    (p pre : ℕ → Ptr) (level : ℕ) (x : Ptr) (i : ℕ) (r : Ptr)
    → p level ≡ x
    → r ≡ (if ltb i level then p i else update pre level x i)
    → r ≡ (if ltb i (suc level) then p i else pre i)
lower p pre level x i r at_level e = elim (Bool-cases (i == level)) [
  | inl same ↦ let q : i ≡ level = (==_iff i level).0 same in ground (arith, e, ap p q, at_level)
  | inr other ↦ ground (arith, e)
]

-- The node before the target at each level below `levels`.
abbrev pub IsPre :
    {K : Type 0}
    → (K → K → Ordering)
    → SkipList K
    → (Ptr → ℕ)
    → K
    → ℕ
    → Ptr
    → List Ptr
    → (pre pre' : ℕ → Ptr) → Type 0
IsPre order s height k levels x ys pre pre' =
    (i : ℕ) → pre' i ≡ (if ltb i levels then pred_at order s.key k height i x ys else pre i)

module _ {K : Type 0} {compare_ : K → K → Option Ordering} (ord : IsKeyOrder compare_)
    (s : SkipList K) (height : Ptr → ℕ) (k : K) where
  found :
      (fuel levels : ℕ) (x : Ptr) (ys : List Ptr) (next : Option Ptr) (pre : ℕ → Ptr)
      → IsChain ord.order s height x ys
      → levels ≤ height x
      → (levels ≡ 0 → next ≡ at_or_after ord.order s k ys)
      → levels + length ys + 1 ≤ fuel
      → (pre' : ℕ → Ptr) × (find_loop compare_ s fuel levels x next pre k
          ≡ some (at_or_after ord.order s k ys, pre'))
        × IsPre ord.order s height k levels x ys pre pre'
  unfolding find_loop
  found zero levels x ys next pre c h ended enough = absurd (omega (arith, enough))
  found (suc f) zero x ys next pre c h ended enough =
      (pre, ap (λ t. some (t, pre)) (ended refl), λ i. ground arith)
  found (suc f) (suc level) x ys next pre c h ended enough =
      let l = link-first_at ord.order s height x ys level c h in
      let down = update pre level x in
      let p = λ (i : ℕ). pred_at ord.order s.key k height i x ys in
      elim (Option-cases (first_at height level ys)) [
        | inl e ↦
            let r =
              found f level x ys none down c (omega arith)
                (λ z. sym (stop_none ord.order s height k x ys c (rw z at e)).0) (omega arith) in
            let stays = pred_at-none ord.order s.key k height level x ys e in
            rw (find_loop, l, e) (r.0, r.1, λ i. lower p pre level x i (r.0 i) stays (r.2 i))
        | inr (y, e) ↦ elim (Bool-cases (is_lt (ord.order (s.key y) k))) [
          | inl less ↦
              let r = step ord.order s ord.order_trans height level k x y ys c e less in
              let rest = rest_at height level ys in
              let g =
                found f (suc level) y rest (some y) pre r.0 r.1 (λ z. absurd (omega arith))
                  (omega (arith, r.2)) in
              rw (find_loop, l, e, ord.compare_some (s.key y) k, ◌>>=◌, less, r.3)
                (
                  g.0,
                  g.1,
                  λ i.
                      g.2 i
                      ∙ if_then _ _ _ (ltb i (suc level)) (λ b. sym (
                          pred_at-step ord.order s.key k ord.order_trans s refl height i level x x y
                            ys c (omega (arith, ltb→lt i (suc level) b)) e less)),
                )
          | inr more ↦
              let r =
                found f level x ys (some y) down c (omega arith)
                  (λ z. sym (stop_some ord.order s height k x y ys c (rw z at e) more).0)
                  (omega arith) in
              let stays = pred_at-some ord.order s.key k height level x y ys e more in
              rw (find_loop, l, e, ord.compare_some (s.key y) k, ◌>>=◌, more)
                (r.0, r.1, λ i. lower p pre level x i (r.0 i) stays (r.2 i))
        ]
      ]

  less_found :
      (fuel levels : ℕ) (x : Ptr) (ys : List Ptr)
      → IsChain ord.order s height x ys
      → levels ≤ height x
      → (levels ≡ 0 → x ≡ last_before ord.order s k x ys)
      → levels + length ys + 1 ≤ fuel
      → less_loop compare_ s fuel levels x k ≡ some (last_before ord.order s k x ys)
  unfolding less_loop
  less_found zero levels x ys c h ended enough = absurd (omega (arith, enough))
  less_found (suc f) zero x ys c h ended enough = ap (λ t. some t) (ended refl)
  less_found (suc f) (suc level) x ys c h ended enough =
      let l = link-first_at ord.order s height x ys level c h in
      elim (Option-cases (first_at height level ys)) [
        | inl e ↦
            rw (less_loop, l, e)
              (less_found f level x ys c (omega arith)
                (λ z. sym (stop_none ord.order s height k x ys c (rw z at e)).1) (omega arith))
        | inr (y, e) ↦ elim (Bool-cases (is_lt (ord.order (s.key y) k))) [
          | inl less ↦
              let r = step ord.order s ord.order_trans height level k x y ys c e less in
              rw (less_loop, l, e, ord.compare_some (s.key y) k, ◌>>=◌, less, r.4)
                (less_found f (suc level) y (rest_at height level ys) r.0 r.1
                  (λ z. absurd (omega arith)) (omega (arith, r.2)))
          | inr more ↦
              rw (less_loop, l, e, ord.compare_some (s.key y) k, ◌>>=◌, more)
                (less_found f level x ys c (omega arith)
                  (λ z. sym (stop_some ord.order s height k x y ys c (rw z at e) more).1)
                  (omega arith))
        ]
      ]

-- Some node's key equals `k`.
abbrev pub any_equal : {K : Type 0} → (K → K → Ordering) → (Ptr → K) → K → List Ptr → Bool
any_equal order key k [] = false
any_equal order key k (y ∷ ys) = is_eq (order (key y) k) || any_equal order key k ys

module _ {K : Type 0} {compare_ : K → K → Option Ordering} (ord : IsKeyOrder compare_)
    {s : SkipList K} {height : Ptr → ℕ} {nodes : List Ptr}
    (sound : IsSkipList ord.order s height nodes) (k : K) where
  -- Under a comparator with the laws of `IsKeyOrder`, in a sound skip list, with fuel for one
  -- step per node and per level and one more, `findEqualOrGreater` returns the first node whose
  -- key is not less than the target. In `pre` it stores, at each level of the list, the last
  -- node above that level whose key is less, or the head.
  pub find_equal_or_greater-at_or_after :
      (fuel : ℕ) (pre : ℕ → Ptr)
      → s.cur_max_height + length nodes + 1 ≤ fuel
      → (pre' : ℕ → Ptr) × (find_equal_or_greater compare_ s fuel k pre
          ≡ some (at_or_after ord.order s k nodes, pre'))
        × IsPre ord.order s height k s.cur_max_height s.head nodes pre pre'
  unfolding find_equal_or_greater
  find_equal_or_greater-at_or_after fuel pre enough =
      found ord s height k fuel s.cur_max_height s.head nodes none pre sound.chain
        (omega (arith, sound.high, sound.head_height)) (λ z. absurd (omega (arith, sound.pos)))
        enough

  -- In a sound skip list, with fuel for one step per node and per level and one more, `findLessThan`
  -- returns the last node whose key is less than the target, or the head if there is none.
  pub find_less_than-last_before :
      (fuel : ℕ)
      → s.cur_max_height + length nodes + 1 ≤ fuel
      → find_less_than compare_ s fuel k ≡ some (last_before ord.order s k s.head nodes)
  unfolding find_less_than
  find_less_than-last_before fuel enough =
      less_found ord s height k fuel s.cur_max_height s.head nodes sound.chain
        (omega (arith, sound.high, sound.head_height)) (λ z. absurd (omega (arith, sound.pos)))
        enough
