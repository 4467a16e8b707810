-- ===== src/SkipList/Splice.antt =====
-- The loop of `SkipList::insert` that links the new node, and the chain that it leaves.
use my_leveldb.Common.{
  ℕ, zero, suc, ◌<◌, ◌≤◌, ◌≡◌, ◌≢◌, refl, sym, ◌∙◌, ◌==◌, ==_iff, Bool-cases, inl, inr, some, List,
  [], ◌∷◌, All, arith, ltb, lt→ltb, ltb→lt, le→not-ltb, if◌then◌else◌,
}
use my_leveldb.SkipList.{Ptr, SkipList, set_link, link_loop}
use my_leveldb.SkipList.Chain.{first_at, IsChain}
use Prim.Native.Nat.{Ordering, lt}

-- One round of the loop at level `h` changes no other level.
abbrev pub once : {K : Type 0} → ℕ → Ptr → (ℕ → Ptr) → SkipList K → SkipList K
once h node pre s = set_link (pre h) h (some node) (set_link node h (s.link (pre h) h) s)

pub once_other :
    {K : Type 0} (h : ℕ) (node : Ptr) (pre : ℕ → Ptr) (s : SkipList K) (q : Ptr) (i : ℕ)
    → i ≢ h
    → (once h node pre s).link q i ≡ s.link q i
unfolding set_link
once_other h node pre s q i other = ground (arith, other)

pub once_here :
    {K : Type 0} (h : ℕ) (node : Ptr) (pre : ℕ → Ptr) (s : SkipList K) (q : Ptr)
    → pre h ≢ node
    → (once h node pre s).link q h
      ≡ (if q == node then s.link (pre h) h else if q == pre h then some node else s.link q h)
unfolding set_link
once_here h node pre s q other = ground (arith, other)

-- The links after the loop from `h` down, if no level's predecessor is the node itself.
pub link-link_loop :
    {K : Type 0} (h : ℕ) (node : Ptr) (pre : ℕ → Ptr) (s : SkipList K)
    → ((i : ℕ) → pre i ≢ node)
    → (q : Ptr) (i : ℕ)
    → (link_loop h h node pre s).link q i ≡ (
        if ltb i h
        then if q == node then s.link (pre i) i else if q == pre i then some node else s.link q i
        else s.link q i)
unfolding link_loop
link-link_loop zero node pre s other q i = ground arith
link-link_loop (suc h) node pre s other q i =
    link-link_loop h node pre (once h node pre s) other q i ∙ elim (Bool-cases (i == h)) [
      | inl same ↦
          let e : i ≡ h = (==_iff i h).0 same in
          rw (e, le→not-ltb h h (omega arith), lt→ltb h (suc h) (omega arith))
            (once_here h node pre s q (other h))
      | inr differ ↦
          let ne : i ≢ h = ground arith in
          rw (once_other h node pre s q i ne, once_other h node pre s (pre i) i ne)
            (ground (arith, ne))
    ]

pub link_loop_fields :
    {K : Type 0} (h : ℕ) (node : Ptr) (pre : ℕ → Ptr) (s : SkipList K)
    → ((link_loop h h node pre s).key ≡ s.key)
      × ((link_loop h h node pre s).head ≡ s.head)
      × ((link_loop h h node pre s).cur_max_height ≡ s.cur_max_height)
unfolding link_loop set_link
link_loop_fields zero node pre s = (refl, refl, refl)
link_loop_fields (suc h) node pre s = link_loop_fields h node pre (once h node pre s)

-- More rounds than levels do no more.
pub link_loop_all :
    {K : Type 0} (rounds h : ℕ) (node : Ptr) (pre : ℕ → Ptr) (s : SkipList K)
    → h ≤ rounds
    → link_loop rounds h node pre s ≡ link_loop h h node pre s
unfolding link_loop
link_loop_all zero zero node pre s e = refl
link_loop_all zero (suc h) node pre s e = absurd (omega (arith, e))
link_loop_all (suc r) zero node pre s e = refl
link_loop_all (suc r) (suc h) node pre s e =
    link_loop_all r h node pre (once h node pre s) (omega (arith, e))

-- The list `t` is `s` with `node` of height `h` and key `k` behind `pre i` at each level `i`.
pub record IsSplice {K : Type 0} (s t : SkipList K) (height height' : Ptr → ℕ) (node h : ℕ) (k : K)
    (pre : ℕ → Ptr) : Type 0 where
  pub node_key : t.key node ≡ k
  pub other_key : (q : Ptr) → q ≢ node → t.key q ≡ s.key q
  pub node_height : height' node ≡ h
  pub other_height : (q : Ptr) → q ≢ node → height' q ≡ height q
  pub node_link : (i : ℕ) → i < h → t.link node i ≡ s.link (pre i) i
  pub other_link :
      (q : Ptr) (i : ℕ)
      → q ≢ node
      → t.link q i ≡ (if ltb i h then if q == pre i then some node else s.link q i else s.link q i)

abbrev pub Absent : Ptr → List Ptr → Type 0
Absent q = All (λ z. z ≢ q)

module _ {K : Type 0} (order : K → K → Ordering) {s t : SkipList K} {height height' : Ptr → ℕ}
    {node h : ℕ} {k : K} {pre : ℕ → Ptr} (spliced : IsSplice s t height height' node h k pre) where
  -- Away from the node nothing changes.
  pub first_at_same :
      (i : ℕ) (ys : List Ptr) → Absent node ys → first_at height' i ys ≡ first_at height i ys
  first_at_same i [] a = refl
  first_at_same i (y ∷ ys) a = rw (spliced.other_height y a.0, first_at_same i ys a.1) refl

  pub All-key :
      (w : K) (ys : List Ptr)
      → Absent node ys
      → All (λ z. order w (s.key z) ≡ lt) ys
      → All (λ z. order w (t.key z) ≡ lt) ys
  All-key w [] a l = tt
  All-key w (y ∷ ys) a l = (rw (spliced.other_key y a.0) l.0, All-key w ys a.1 l.1)

  pub same_link : (q : Ptr) (i : ℕ) → q ≢ node → (i < h → q ≢ pre i) → t.link q i ≡ s.link q i
  same_link q i other away = spliced.other_link q i other ∙ elim (Bool-cases (ltb i h)) [
    | inl b ↦ let w = away (ltb→lt i h b) in rw b (ground (arith, w))
    | inr b ↦ rw b refl
  ]

  -- The nodes behind the last predecessor keep their chain.
  pub IsChain-behind :
      (x : Ptr) (ys : List Ptr)
      → IsChain order s height x ys
      → Absent node (x ∷ ys)
      → ((i : ℕ) → i < h → Absent (pre i) (x ∷ ys))
      → IsChain order t height' x ys
  unfolding IsChain
  IsChain-behind x [] c a p =
      λ i hi. same_link x i a.0 (λ b. (p i b).0) ∙ c i (rw (← spliced.other_height x a.0) hi)
  IsChain-behind x (y ∷ ys) c a p = (
    λ i hi.
        same_link x i a.0 (λ b. (p i b).0)
        ∙ c.0 i (rw (← spliced.other_height x a.0) hi)
        ∙ sym (first_at_same i (y ∷ ys) a.1),
    rw (spliced.other_height y a.1.0) c.1,
    rw (spliced.other_key y a.1.0) (All-key (s.key y) ys a.1.1 c.2),
    IsChain-behind y ys c.3 a.1 (λ i b. (p i b).1),
  )
