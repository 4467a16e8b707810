-- ===== src/SkipList/Rounds.antt =====
-- `SkipList::insert` between two rounds of the loop that links the new node, which a reader in another
-- thread may see: the loop goes from the highest level down.
use my_leveldb.Common.{
  ℕ, zero, suc, ◌+◌, ◌-◌, ◌<◌, ◌≤◌, ◌≡◌, ◌≢◌, refl, sym, ap, ◌∙◌, false, Option, none, some, List,
  ◌∷◌, length, arith, ltb, if◌then◌else◌, ◌==◌, ==_iff, Bool-cases, inl, inr, le→not-ltb, lt→ltb,
  ltb→lt, not-ltb→le, true, ◌>>=◌,
}
use my_leveldb.SkipList.{
  Ptr, SkipList, set_link, link_loop, find_loop, find_equal_or_greater, contains, insert_rounds,
  insert, raise, update, k_max_height,
}
use my_leveldb.SkipList.Chain.{IsKeyOrder, link-first_at}
use my_leveldb.SkipList.Find.{IsSkipList, any_equal}
use my_leveldb.SkipList.Splice.{Absent, once, once_other, once_here}
use my_leveldb.SkipList.Insert.{
  new_height, grown, insert_lem, insert_rounds_lem, first_at-none, All-low, raise-pred,
}
use my_leveldb.SkipList.Relink.{pred_at-ne}
use my_leveldb.SkipList.Keys.{update_self}
use my_leveldb.SkipList.Height.{random_height_bounds}
use Prim.Native.Nat.{Ordering, lt}

-- The rounds for the `count` levels from `lowest` up, from the highest down.
abbrev link_rounds : {K : Type 0} → (count lowest : ℕ) → Ptr → (ℕ → Ptr) → SkipList K → SkipList K
link_rounds zero lowest node pre s = s
link_rounds (suc n) lowest node pre s = link_rounds n lowest node pre (once (n + lowest) node pre s)

link_loop-link_rounds :
    {K : Type 0} (count lowest : ℕ) (node : Ptr) (pre : ℕ → Ptr) (s : SkipList K)
    → link_loop count (count + lowest) node pre s ≡ link_rounds count lowest node pre s
unfolding link_loop
link_loop-link_rounds zero lowest node pre s = refl
link_loop-link_rounds (suc n) lowest node pre s =
    let e : suc n + lowest ≡ suc (n + lowest) = omega arith in
    ap (λ m. link_loop (suc n) m node pre s) e
    ∙ link_loop-link_rounds n lowest node pre (once (n + lowest) node pre s)

-- The links after the rounds: as after the whole loop at their levels, and as before below them.
link-link_rounds :
    {K : Type 0} (count lowest : ℕ) (node : Ptr) (pre : ℕ → Ptr) (s : SkipList K)
    → ((i : ℕ) → pre i ≢ node)
    → (q : Ptr) (i : ℕ)
    → (link_rounds count lowest node pre s).link q i ≡ (
        if ltb i lowest
        then s.link q i
        else if ltb i (count + lowest)
        then if q == node then s.link (pre i) i else if q == pre i then some node else s.link q i
        else s.link q i)
link-link_rounds zero lowest node pre s other q i = ground arith
link-link_rounds (suc n) lowest node pre s other q i =
    link-link_rounds n lowest node pre (once (n + lowest) node pre s) other q i
    ∙ elim (Bool-cases (i == n + lowest)) [
      | inl same ↦
          let e : i ≡ n + lowest = (==_iff i (n + lowest)).0 same in
          rw
            (
              e,
              le→not-ltb (n + lowest) lowest (omega arith),
              le→not-ltb (n + lowest) (n + lowest) (omega arith),
              lt→ltb (n + lowest) (suc n + lowest) (omega arith),
            )
            (once_here (n + lowest) node pre s q (other (n + lowest)))
      | inr differ ↦
          let ne : i ≢ n + lowest = ground arith in
          rw
            (
              once_other (n + lowest) node pre s q i ne,
              once_other (n + lowest) node pre s (pre i) i ne,
            )
            (ground (arith, ne))
    ]

link_rounds_fields :
    {K : Type 0} (count lowest : ℕ) (node : Ptr) (pre : ℕ → Ptr) (s : SkipList K)
    → ((link_rounds count lowest node pre s).key ≡ s.key)
      × ((link_rounds count lowest node pre s).head ≡ s.head)
      × ((link_rounds count lowest node pre s).cur_max_height ≡ s.cur_max_height)
unfolding set_link
link_rounds_fields zero lowest node pre s = (refl, refl, refl)
link_rounds_fields (suc n) lowest node pre s =
    link_rounds_fields n lowest node pre (once (n + lowest) node pre s)

-- A search from a node without links at the levels that are left.
find_loop-none :
    {K : Type 0} (compare_ : K → K → Option Ordering) (s : SkipList K) (fuel levels : ℕ) (x : Ptr)
    (next : Option Ptr) (pre : ℕ → Ptr) (k : K)
    → ((i : ℕ) → i < levels → s.link x i ≡ none)
    → (levels ≡ 0 → next ≡ none)
    → levels + 1 ≤ fuel
    → (pre' : ℕ → Ptr) × (find_loop compare_ s fuel levels x next pre k ≡ some (none, pre'))
unfolding find_loop
find_loop-none compare_ s zero levels x next pre k h e enough = absurd (omega (arith, enough))
find_loop-none compare_ s (suc f) zero x next pre k h e enough =
    (pre, ap (λ n. some (n, pre)) (e refl))
find_loop-none compare_ s (suc f) (suc level) x next pre k h e enough =
    let r =
      find_loop-none compare_ s f level x none (update pre level x) k
        (λ i l. h i (omega (arith, l))) (λ z. refl) (omega (arith, enough)) in
    (r.0, rw (find_loop, h level (omega arith)) r.1)

-- A search whose first step leads from the head to a node without links.
contains_lost :
    {K : Type 0} {compare_ : K → K → Option Ordering} (ord : IsKeyOrder compare_) (s : SkipList K)
    (level fuel : ℕ) (node : Ptr) (target : K)
    → s.cur_max_height ≡ suc level
    → s.link s.head level ≡ some node
    → ((i : ℕ) → i < suc level → s.link node i ≡ none)
    → ord.order (s.key node) target ≡ lt
    → level + 3 ≤ fuel
    → contains compare_ s fuel target ≡ some false
unfolding contains find_equal_or_greater find_loop
contains_lost ord s level zero node target h first rest less enough = absurd (omega (arith, enough))
contains_lost {compare_ = compare_} ord s level (suc f) node target h first rest less enough =
    let r =
      find_loop-none compare_ s f (suc level) node (some node) (λ i. s.head) target rest
        (λ z. absurd (omega (arith, z))) (omega (arith, enough)) in
    rw (h, find_loop, first, ord.compare_some (s.key node) target, less, ◌>>=◌, r.1) refl

-- The rounds for levels above those of the list, behind the head.
contains-link_rounds :
    {K : Type 0} {compare_ : K → K → Option Ordering} (ord : IsKeyOrder compare_) (g : SkipList K)
    (c n fuel : ℕ) (node : Ptr) (pre : ℕ → Ptr) (target : K)
    → g.cur_max_height ≡ suc n + c
    → ((i : ℕ) → c ≤ i → i < suc n + c → (pre i ≡ g.head) × (g.link g.head i ≡ none))
    → ((i : ℕ) → i < c → g.link node i ≡ none)
    → ((i : ℕ) → pre i ≢ node)
    → node ≢ g.head
    → ord.order (g.key node) target ≡ lt
    → n + c + 3 ≤ fuel
    → contains compare_ (link_rounds (suc n) c node pre g) fuel target ≡ some false
contains-link_rounds ord g c n fuel node pre target cur free unset others ne less enough =
    let t = link_rounds (suc n) c node pre g in
    let fields = link_rounds_fields (suc n) c node pre g in
    let links = link-link_rounds (suc n) c node pre g others in
    let top = free (n + c) (omega arith) (omega arith) in
    let rest : (i : ℕ) → i < suc (n + c) → t.link node i ≡ none = λ i hi.
      links node i ∙ elim (Bool-cases (ltb i c)) [
        | inl low ↦ rw low (unset i (ltb→lt i c low))
        | inr high ↦
            let own = free i (not-ltb→le i c high) (omega (arith, hi)) in
            let above : ltb i (suc n + c) ≡ true = lt→ltb i (suc n + c) (omega (arith, hi)) in
            rw (high, above, own.0, own.1) (ground arith)
      ] in
    contains_lost ord t (n + c) fuel node target (fields.2 ∙ cur ∙ omega arith)
      (ap (λ p. t.link p (n + c)) fields.1
        ∙ links g.head (n + c)
        ∙ rw (le→not-ltb (n + c) c (omega arith), lt→ltb (n + c) (suc n + c) (omega arith), top.0)
            (ground (arith, ne)))
      rest (ap (λ key. ord.order (key node) target) fields.0 ∙ less) enough

module _ {K : Type 0} {compare_ : K → K → Option Ordering} (ord : IsKeyOrder compare_)
    {s : SkipList K} {height : Ptr → ℕ} {nodes : List Ptr}
    (sound : IsSkipList ord.order s height nodes) where
  -- The head has no link above the height of the list.
  head-none : (i : ℕ) → s.cur_max_height ≤ i → i < k_max_height → s.link s.head i ≡ none
  head-none i h hi =
      link-first_at ord.order s height s.head nodes i sound.chain
        (omega (arith, sound.head_height, hi))
      ∙ first_at-none height i nodes (
          All-low height height s.head s.cur_max_height i nodes (λ q _. refl) h sound.distinct.0
            sound.low)

  module _ (k : K) (node : Ptr) where
    -- Under a comparator with the laws of `IsKeyOrder`, in a sound skip list, with fuel for one step
    -- per node and per level and one more, a key that equals none of the list's is inserted with a new
    -- node whose random height is above that of the list, and whose links below the list's height are
    -- NULL before it. In the list as `insert` leaves it after as many rounds of its last loop as the
    -- new node is higher than the list, `contains` answers no, with fuel for one step per level and
    -- two more, for every key greater than the new one, those in the list included. With all its
    -- rounds `insert` ends without a fault.
    pub contains_between_rounds :
        (fuel fuel' : ℕ) (target : K)
        → s.cur_max_height + length nodes + 1 ≤ fuel
        → Absent node (s.head ∷ nodes)
        → any_equal ord.order s.key k nodes ≡ false
        → s.cur_max_height < new_height ord sound k node
        → ((i : ℕ) → i < s.cur_max_height → s.link node i ≡ none)
        → ord.order k target ≡ lt
        → new_height ord sound k node + 2 ≤ fuel'
        → (between : SkipList K) × (t : SkipList K) × (insert_rounds compare_ fuel
              (new_height ord sound k node - s.cur_max_height)
              node
              k
              s
            ≡ some between)
          × (contains compare_ between fuel' target ≡ some false)
          × (insert compare_ fuel node k s ≡ some t)
    contains_between_rounds fuel fuel' target enough fresh new higher unset less enough' =
        let h = new_height ord sound k node in
        let n = h - s.cur_max_height - 1 in
        let m = insert_rounds_lem ord sound k node fuel (h - s.cur_max_height) enough new in
        let whole = insert_lem ord sound k node fuel enough new in
        let all = raise s h m.0 in
        let g = grown ord sound k node in
        let e : h ≡ suc n + s.cur_max_height = omega (arith, higher) in
        let count : h - s.cur_max_height ≡ suc n = omega (arith, higher) in
        let bounds = random_height_bounds s.rnd in
        let others : (i : ℕ) → all i ≢ node = λ i.
          rw (raise-pred ord sound k node m.0 m.2 i)
            (pred_at-ne ord.order s.key k height i node s.head nodes fresh) in
        (
          link_rounds (suc n) s.cur_max_height node all g,
          link_loop h h node (raise s h whole.0) g,
          m.1
              ∙ (λ i. some (link_loop (count i) (e i) node all g))
              ∙ ap some (link_loop-link_rounds (suc n) s.cur_max_height node all g),
          contains-link_rounds ord g s.cur_max_height n fuel' node all target (ground (arith, e))
              (λ i low high. (ground arith, head-none i low (omega (arith, high, e, bounds.1))))
              unset others (λ q. fresh.0 (sym q))
              (ap (λ key. ord.order key target) (update_self s.key node k) ∙ less)
              (omega (arith, enough', e)),
          whole.1,
        )
