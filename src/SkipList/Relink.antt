-- ===== src/SkipList/Relink.antt =====
-- The chain of a skip list with one node more, in front of the first key that is not less.
use my_leveldb.Common.{
  subst, ℕ, ◌<◌, ◌≡◌, ◌≢◌, refl, sym, ap, ◌∙◌, true, false, ◌==◌, Bool-cases, inl, inr, Option,
  some, List, [], ◌∷◌, All, arith, ltb, ltb→lt, not-ltb→le, if◌then◌else◌,
}
use my_leveldb.Comparator.{is_lt}
use my_leveldb.Slice.{is_eq}
use my_leveldb.SkipList.{Ptr, SkipList}
use my_leveldb.SkipList.Chain.{IsKeyOrder, first_at, IsChain, link-first_at, lt_of_is_lt}
use my_leveldb.SkipList.Place.{pred_at, placed}
use my_leveldb.SkipList.Find.{any_equal, AllDiffer}
use my_leveldb.SkipList.Splice.{IsSplice, Absent, first_at_same, All-key, IsChain-behind}
use Prim.Native.Nat.{Ordering, lt, eq, gt}

pub pred_at-ne :
    {K : Type 0} (order : K → K → Ordering) (key : Ptr → K) (k : K) (height : Ptr → ℕ) (i : ℕ)
    (c x : Ptr) (ys : List Ptr)
    → Absent c (x ∷ ys)
    → pred_at order key k height i x ys ≢ c
pred_at-ne order key k height i c x [] a = a.0
pred_at-ne order key k height i c x (y ∷ ys) a = elim (Bool-cases (is_lt (order (key y) k))) [
  | inr more ↦ rw more a.0
  | inl less ↦ elim (Bool-cases (ltb i (height y))) [
    | inl up ↦ rw (less, up) (pred_at-ne order key k height i c y ys a.1)
    | inr low ↦ rw (less, low) (pred_at-ne order key k height i c x ys (a.0, a.1.1))
  ]
]

module _ {K : Type 0} {compare_ : K → K → Option Ordering} (ord : IsKeyOrder compare_)
    {s t : SkipList K} {height height' : Ptr → ℕ} {node h : ℕ} {k : K} {pre : ℕ → Ptr}
    (spliced : IsSplice s t height height' node h k pre) where
  -- The nodes before the target.
  abbrev pred : ℕ → Ptr → List Ptr → Ptr
  pred = pred_at ord.order s.key k height

  -- The first node above level `i` in the new list: the new one where the last predecessor at that
  -- level stands before the list.
  first_at-placed :
      (i : ℕ) (c : Ptr) (ys : List Ptr)
      → Absent node ys
      → Absent c ys
      → first_at height' i (placed ord.order s.key k node ys) ≡ (
          if ltb i h
          then if c == pred i c ys then some node else first_at height i ys
          else first_at height i ys)
  first_at-placed i c [] a b = rw spliced.node_height (ground arith)
  first_at-placed i c (y ∷ ys) a b = elim (Bool-cases (is_lt (ord.order (s.key y) k))) [
    | inr more ↦
        rw (more, spliced.node_height, first_at_same ord.order spliced i (y ∷ ys) a) (ground arith)
    | inl less ↦ elim (Bool-cases (ltb i (height y))) [
      | inr low ↦ rw (less, spliced.other_height y a.0, low) (first_at-placed i c ys a.1 b.1)
      | inl up ↦
          let ne = pred_at-ne ord.order s.key k height i c y ys b in
          rw (less, spliced.other_height y a.0, up) (ground (arith, ne))
    ]
  ]

  -- The links of a node before the new one.
  link-placed :
      (i : ℕ) (x : Ptr) (xs : List Ptr)
      → IsChain ord.order s height x xs
      → Absent node (x ∷ xs)
      → Absent x xs
      → (i < h → pre i ≡ pred i x xs)
      → i < height' x
      → t.link x i ≡ first_at height' i (placed ord.order s.key k node xs)
  link-placed i x xs c a b at_pre hi =
      let l = link-first_at ord.order s height x xs i c (rw (← spliced.other_height x a.0) hi) in
      spliced.other_link x i a.0 ∙ elim (Bool-cases (ltb i h)) [
        | inl up ↦
            let p = at_pre (ltb→lt i h up) in
            rw (up, p, l) (sym (first_at-placed i x xs a.1 b ∙ rw up refl))
        | inr low ↦ rw (low, l) (sym (first_at-placed i x xs a.1 b ∙ rw low refl))
      ]

  -- Every key of the new list stays behind a key that was before all of them.
  All-placed :
      (w : K) (ys : List Ptr)
      → Absent node ys
      → ord.order w k ≡ lt
      → All (λ z. ord.order w (s.key z) ≡ lt) ys
      → All (λ z. ord.order w (t.key z) ≡ lt) (placed ord.order s.key k node ys)
  All-placed w [] a l b = (rw spliced.node_key l, tt)
  All-placed w (y ∷ ys) a l b = elim (Bool-cases (is_lt (ord.order (s.key y) k))) [
    | inl less ↦ rw less (rw (spliced.other_key y a.0) b.0, All-placed w ys a.1 l b.1)
    | inr more ↦ rw more (rw spliced.node_key l, All-key ord.order spliced w (y ∷ ys) a b)
  ]

  -- All that is known of `pre` at level `i` where the nodes from `x` on are left: it is the last
  -- predecessor from `c` on, which is `x` if `x` has that level.
  abbrev IsBehind : ℕ → Ptr → List Ptr → Ptr → Type 0
  IsBehind i x xs c =
      (pre i ≡ pred i c xs)
      × Absent c xs
      × (i < height x → c ≡ x)
      × (s.link c i ≡ first_at height i xs)

  -- The predecessors, one node further.
  abbrev further : (ℕ → Ptr) → Ptr → ℕ → Ptr
  further c y i = if ltb i (height y) then y else c i

  IsBehind-further :
      (c : ℕ → Ptr) (i : ℕ) (x y : Ptr) (ys : List Ptr)
      → IsBehind i x (y ∷ ys) (c i)
      → is_lt (ord.order (s.key y) k) ≡ true
      → Absent y ys
      → (i < height y → s.link y i ≡ first_at height i ys)
      → IsBehind i y ys (further c y i)
  IsBehind-further c i x y ys b less a own = elim (Bool-cases (ltb i (height y))) [
    | inl up ↦ rw up (b.0 ∙ rw (less, up) refl, a, λ _. refl, own (ltb→lt i (height y) up))
    | inr low ↦ rw low (
      b.0 ∙ rw (less, low) refl,
      b.1.1,
      λ hi. absurd (omega (arith, not-ltb→le i (height y) low)),
      b.3 ∙ rw low refl,
    )
  ]

  greater :
      (y : Ptr)
      → is_lt (ord.order (s.key y) k) ≡ false
      → is_eq (ord.order (s.key y) k) ≡ false
      → ord.order k (s.key y) ≡ lt
  greater y not_less not_equal = go (ord.order (s.key y) k) refl
    where
      go : (r : Ordering) → ord.order (s.key y) k ≡ r → ord.order k (s.key y) ≡ lt
      go lt e = absurd (grind (arith, not_less, e))
      go eq e = absurd (grind (arith, not_equal, e))
      go gt e = ord.order_gt (s.key y) k e

  All-trans :
      (y : Ptr) (ys : List Ptr)
      → ord.order k (s.key y) ≡ lt
      → All (λ z. ord.order (s.key y) (s.key z) ≡ lt) ys
      → All (λ z. ord.order k (s.key z) ≡ lt) ys
  All-trans y [] l b = tt
  All-trans y (z ∷ zs) l b = (ord.order_trans k (s.key y) (s.key z) l b.0, All-trans y zs l b.1)

  at_pre :
      (x : Ptr) (xs : List Ptr) (c : ℕ → Ptr)
      → Absent node (x ∷ xs)
      → ((i : ℕ) → i < h → IsBehind i x xs (c i))
      → (i : ℕ) → i < height' x
      → i < h
      → pre i ≡ pred i x xs
  at_pre x xs c a b i hi low =
      let q = b i low in q.0 ∙ ap (λ z. pred i z xs) (q.2 (rw (← spliced.other_height x a.0) hi))

  -- The links of the new node, where its predecessors stand before the nodes that are left.
  link_node :
      (x : Ptr) (xs : List Ptr) (c : ℕ → Ptr)
      → Absent node xs
      → ((i : ℕ) → i < h → IsBehind i x xs (c i))
      → ((i : ℕ) → pred i (c i) xs ≡ c i)
      → (i : ℕ) → i < height' node
      → t.link node i ≡ first_at height' i xs
  link_node x xs c a b stop i hi =
      let low : i < h = rw (← spliced.node_height) hi in
      let q = b i low in
      spliced.node_link i low
      ∙ rw (q.0, stop i) (q.3 ∙ sym (first_at_same ord.order spliced i xs a))

  -- The chain of the new list.
  pub IsChain-placed :
      (x : Ptr) (xs : List Ptr) (c : ℕ → Ptr)
      → 0 < h
      → IsChain ord.order s height x xs
      → Absent node (x ∷ xs)
      → AllDiffer (x ∷ xs)
      → ((i : ℕ) → i < h → IsBehind i x xs (c i))
      → any_equal ord.order s.key k xs ≡ false
      → IsChain ord.order t height' x (placed ord.order s.key k node xs)
  unfolding IsChain
  IsChain-placed x [] c pos ch a d b new = (
    λ i hi. link-placed i x [] ch a d.0 (at_pre x [] c a b i hi) hi,
    rw spliced.node_height pos,
    tt,
    λ i hi. link_node x [] c tt b (λ j. refl) i hi,
  )
  IsChain-placed x (y ∷ ys) c pos ch a d b new = elim (Bool-cases (is_lt (ord.order (s.key y) k))) [
    | inl less ↦ rw less (
      λ i hi. link-placed i x (y ∷ ys) ch a d.0 (at_pre x (y ∷ ys) c a b i hi) hi ∙ rw less refl,
      rw (spliced.other_height y a.1.0) ch.1,
      rw (spliced.other_key y a.1.0) (
          All-placed (s.key y) ys a.1.1 (lt_of_is_lt ord.order s (ord.order (s.key y) k) less)
            ch.2),
      IsChain-placed y ys (further c y) pos ch.3 a.1 d.1
          (λ i hi.
            IsBehind-further c i x y ys (b i hi) less d.1.0
              (λ up. link-first_at ord.order s height y ys i ch.3 up))
          (grind (arith, new)),
    )
    | inr more ↦
        let k_y = greater y more (grind (arith, new)) in
        rw more (
          λ i hi.
              link-placed i x (y ∷ ys) ch a d.0 (at_pre x (y ∷ ys) c a b i hi) hi ∙ rw more refl,
          rw spliced.node_height pos,
          subst (λ w. All (λ z. ord.order w (t.key z) ≡ lt) (y ∷ ys)) (sym spliced.node_key)
              (All-key ord.order spliced k (y ∷ ys) a.1 (k_y, All-trans y ys k_y ch.2)),
          (
            λ i hi. link_node x (y ∷ ys) c a.1 b (λ j. rw more refl) i hi,
            rw (spliced.other_height y a.1.0) ch.1,
            rw (spliced.other_key y a.1.0) (All-key ord.order spliced (s.key y) ys a.1.1 ch.2),
            IsChain-behind ord.order spliced y ys ch.3 a.1 (λ i hi.
                let e : pre i ≡ c i = (b i hi).0 ∙ rw more refl in
                subst (λ w. Absent w (y ∷ ys)) (sym e) (b i hi).1),
          ),
        )
  ]
