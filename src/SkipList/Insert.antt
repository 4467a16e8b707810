-- ===== src/SkipList/Insert.antt =====
-- `SkipList::insert` on a sound skip list: it ends, and leaves a sound list with one node more.
use my_leveldb.Common.{
  subst, ℕ, ◌+◌, ◌<◌, ◌≤◌, ◌≡◌, ◌≢◌, refl, sym, ap, ◌∙◌, false, Bool-cases, inl, inr, Option, none,
  some, List, [], ◌∷◌, length, All, arith, ltb, le→not-ltb, not-ltb→le, if◌then◌else◌,
}
use my_leveldb.Comparator.{is_lt}
use my_leveldb.SkipList.{
  Ptr, SkipList, link_loop, insert_rounds, insert, random_height, raise, update, k_max_height,
}
use my_leveldb.SkipList.Chain.{IsKeyOrder, first_at, at_or_after, IsChain, link-first_at}
use my_leveldb.SkipList.Place.{pred_at, placed, pred_at-none}
use my_leveldb.SkipList.Find.{
  any_equal, AllDiffer, IsSkipList, IsPre, find_equal_or_greater-at_or_after,
}
use my_leveldb.SkipList.Splice.{IsSplice, Absent, link-link_loop, link_loop_fields, link_loop_all}
use my_leveldb.SkipList.Relink.{pred_at-ne, IsChain-placed}
use my_leveldb.SkipList.Visit.{equal-at_or_after, equal_at_lem}
use my_leveldb.SkipList.Height.{random_height_bounds}
use Prim.Native.Nat.{Ordering}

module _ {K : Type 0} (order : K → K → Ordering) (key : Ptr → K) (k : K) (node : Ptr) where
  pub All-placed_node :
      (P : Ptr → Type 0) (ys : List Ptr) → P node → All P ys → All P (placed order key k node ys)
  All-placed_node P [] n a = (n, tt)
  All-placed_node P (y ∷ ys) n a = elim (Bool-cases (is_lt (order (key y) k))) [
    | inl less ↦ rw less (a.0, All-placed_node P ys n a.1)
    | inr more ↦ rw more (n, a)
  ]

  pub AllDiffer-placed :
      (ys : List Ptr) → Absent node ys → AllDiffer ys → AllDiffer (placed order key k node ys)
  AllDiffer-placed [] n d = (tt, tt)
  AllDiffer-placed (y ∷ ys) n d = elim (Bool-cases (is_lt (order (key y) k))) [
    | inl less ↦
        rw less
          (All-placed_node (λ z. z ≢ y) ys (λ e. n.0 (sym e)) d.0, AllDiffer-placed ys n.1 d.1)
    | inr more ↦ rw more (n, d)
  ]

pub first_at-none :
    (height : Ptr → ℕ) (i : ℕ) (ys : List Ptr)
    → All (λ y. height y ≤ i) ys
    → first_at height i ys ≡ none
first_at-none height i [] a = refl
first_at-none height i (y ∷ ys) a = rw (le→not-ltb i (height y) a.0) (first_at-none height i ys a.1)

pub All-low :
    (height height' : Ptr → ℕ) (node m n : ℕ) (ys : List Ptr)
    → ((q : Ptr) → q ≢ node → height' q ≡ height q)
    → m ≤ n
    → Absent node ys
    → All (λ y. height y ≤ m) ys
    → All (λ y. height' y ≤ n) ys
All-low height height' node m n [] same h a l = tt
All-low height height' node m n (y ∷ ys) same h a l =
    (omega (arith, same y a.0, l.0), All-low height height' node m n ys same h a.1 l.1)

module _ {K : Type 0} {compare_ : K → K → Option Ordering} (ord : IsKeyOrder compare_)
    {s : SkipList K} {height : Ptr → ℕ} {nodes : List Ptr}
    (sound : IsSkipList ord.order s height nodes) (k : K) (node : Ptr) where
  -- The height that the new node gets, and the list before its links are set.
  abbrev pub new_height : ℕ
  new_height = (random_height s.rnd).0

  abbrev pub grown : SkipList K
  grown = record s {
    key = update s.key node k;
    cur_max_height = if ltb s.cur_max_height new_height then new_height else s.cur_max_height;
    rnd = (random_height s.rnd).1;
  }

  abbrev pub pred : ℕ → Ptr
  pred i = pred_at ord.order s.key k height i s.head nodes

  -- Above the height of the list the head is the predecessor.
  pub raise-pred :
      (pre : ℕ → Ptr)
      → IsPre ord.order s height k s.cur_max_height s.head nodes (λ i. s.head) pre
      → (i : ℕ) → raise s new_height pre i ≡ pred i
  raise-pred pre is_pre i = elim (Bool-cases (ltb i s.cur_max_height)) [
    | inl b ↦ rw b (is_pre i ∙ rw b refl)
    | inr b ↦
        let e : pre i ≡ s.head = is_pre i ∙ rw b refl in
        let top : pred i ≡ s.head = pred_at-none ord.order s.key k height i s.head nodes (
          first_at-none height i nodes (
            All-low height height s.head s.cur_max_height i nodes (λ q _. refl)
              (not-ltb→le i s.cur_max_height b) sound.distinct.0 sound.low)) in
        rw (b, top, e) (ground arith)
  ]

  module _ (fresh : Absent node (s.head ∷ nodes)) (pre : ℕ → Ptr)
      (at_pre : (i : ℕ) → pre i ≡ pred i) where
    abbrev inserted : SkipList K
    inserted = link_loop new_height new_height node pre grown

    pre_ne : (i : ℕ) → pre i ≢ node
    pre_ne i = rw (at_pre i) (pred_at-ne ord.order s.key k height i node s.head nodes fresh)

    inserted-IsSplice :
        IsSplice s inserted height (update height node new_height) node new_height k pre
    inserted-IsSplice =
        let f = link_loop_fields new_height node pre grown in
        let l = link-link_loop new_height node pre grown pre_ne in
        record {
          node_key = rw f.0 (ground arith);
          other_key = λ q n. rw f.0 (ground (arith, n));
          node_height = ground arith;
          other_height = λ q n. ground (arith, n);
          node_link = λ i h. ground (arith, l node i);
          other_link = λ q i n. ground (arith, l q i, n);
        }

    inserted-IsSkipList :
        any_equal ord.order s.key k nodes ≡ false
        → IsSkipList ord.order inserted
            (update height node new_height)
            (placed ord.order s.key k node nodes)
    inserted-IsSkipList new =
        let f = link_loop_fields new_height node pre grown in
        let b = random_height_bounds s.rnd in
        let sp = inserted-IsSplice in
        let height' = update height node new_height in
        let to = placed ord.order s.key k node nodes in
        record {
          chain =
              subst (λ w. IsChain ord.order inserted height' w to) (sym f.1)
                (IsChain-placed ord sp s.head nodes (λ i. s.head) b.0 sound.chain fresh
                  sound.distinct
                  (λ i hi. (
                    at_pre i,
                    sound.distinct.0,
                    λ _. refl,
                    link-first_at ord.order s height s.head nodes i sound.chain
                        (omega (arith, sound.head_height, b.1)),
                  ))
                  new);
          head_height =
              subst (λ w. height' w ≡ k_max_height) (sym f.1)
                (sp.other_height s.head fresh.0 ∙ sound.head_height);
          high = subst (λ w. w ≤ k_max_height) (sym f.2) (ground (arith, b.1, sound.high));
          low =
              subst (λ w. All (λ y. height' y ≤ w) to) (sym f.2)
                (All-placed_node ord.order s.key k node (λ y. height' y ≤ grown.cur_max_height)
                  nodes (ground arith)
                  (All-low height height' node s.cur_max_height grown.cur_max_height nodes
                    sp.other_height (ground arith) fresh.1 sound.low));
          pos = subst (λ w. 0 < w) (sym f.2) (ground (arith, b.0));
          distinct =
              subst (λ w. AllDiffer (w ∷ to)) (sym f.1)
                (
                  All-placed_node ord.order s.key k node (λ z. z ≢ s.head) nodes
                      (λ e. fresh.0 (sym e)) sound.distinct.0,
                  AllDiffer-placed ord.order s.key k node nodes fresh.1 sound.distinct.1,
                );
        }

  -- The search of `insert` ends with a `pre` that fits, and its assertion holds.
  pub insert_rounds_lem :
      (fuel rounds : ℕ)
      → s.cur_max_height + length nodes + 1 ≤ fuel
      → any_equal ord.order s.key k nodes ≡ false
      → (pre : ℕ → Ptr) × (insert_rounds compare_ fuel rounds node k s
          ≡ some (link_loop rounds new_height node (raise s new_height pre) grown))
        × IsPre ord.order s height k s.cur_max_height s.head nodes (λ i. s.head) pre
  unfolding insert_rounds
  insert_rounds_lem fuel rounds enough new =
      let f = find_equal_or_greater-at_or_after ord sound k fuel (λ i. s.head) enough in
      let other =
        equal_at_lem ord s height k (at_or_after ord.order s k nodes)
        ∙ ap some (equal-at_or_after ord s height k s.head nodes sound.chain ∙ new) in
      (f.0, rw (f.1, other) refl, f.2)

  pub insert_lem :
      (fuel : ℕ)
      → s.cur_max_height + length nodes + 1 ≤ fuel
      → any_equal ord.order s.key k nodes ≡ false
      → (pre : ℕ → Ptr) × (insert compare_ fuel node k s
          ≡ some (link_loop new_height new_height node (raise s new_height pre) grown))
        × IsPre ord.order s height k s.cur_max_height s.head nodes (λ i. s.head) pre
  unfolding insert
  insert_lem fuel enough new =
      let m = insert_rounds_lem fuel k_max_height enough new in
      let all =
        link_loop_all k_max_height new_height node (raise s new_height m.0) grown
          (random_height_bounds s.rnd).1 in
      (m.0, m.1 ∙ ap some all, m.2)

  -- Under a comparator with the laws of `IsKeyOrder`, in a sound skip list, with fuel for one
  -- step per node and per level and one more, a new node and a key that equals none of the
  -- list's, `insert` fails no `assert`. It leaves a sound list with the random height for the
  -- node, in which the node stands before the first key that is not less; the other nodes, their
  -- keys and the head are as before.
  pub insert-IsSkipList :
      (fuel : ℕ)
      → s.cur_max_height + length nodes + 1 ≤ fuel
      → Absent node (s.head ∷ nodes)
      → any_equal ord.order s.key k nodes ≡ false
      → (t : SkipList K) × (insert compare_ fuel node k s ≡ some t)
        × IsSkipList ord.order t
            (update height node new_height)
            (placed ord.order s.key k node nodes)
        × (t.key ≡ update s.key node k)
        × (t.head ≡ s.head)
  insert-IsSkipList fuel enough fresh new =
      let m = insert_lem fuel enough new in
      let pre = raise s new_height m.0 in
      let at_pre = raise-pred m.0 m.2 in
      let fields = link_loop_fields new_height node pre grown in
      (inserted fresh pre at_pre, m.1, inserted-IsSkipList fresh pre at_pre new, fields.0, fields.1)
