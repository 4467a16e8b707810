-- ===== src/SkipList/Standing.antt =====
-- An iterator of skiplist.h that stands on a node while a key is inserted.
use my_leveldb.Common.{
  subst, ℕ, ◌+◌, ◌<◌, ◌≤◌, ◌≡◌, ◌≢◌, refl, ap, ◌∙◌, true, false, Bool-cases, inl, inr, Option, some,
  List, [], ◌∷◌, ◌++◌, All, length, length-append, arith, if◌then◌else◌,
}
use my_leveldb.Comparator.{is_lt}
use my_leveldb.SkipList.{Ptr, SkipList, insert, iter_key, update, random_height}
use my_leveldb.SkipList.Chain.{IsKeyOrder, IsChain, lt_of_is_lt}
use my_leveldb.SkipList.Place.{placed}
use my_leveldb.SkipList.Find.{IsSkipList, any_equal}
use my_leveldb.SkipList.Splice.{Absent}
use my_leveldb.SkipList.Insert.{insert-IsSkipList}
use my_leveldb.SkipList.Keys.{update-ne}
use my_leveldb.SkipList.Visit.{visited, visited-chain}
use Prim.Native.Nat.{Ordering, lt}

module _ {K : Type 0} (order : K → K → Ordering) (s : SkipList K) (height : Ptr → ℕ) where
  IsChain-from :
      (x p : Ptr) (before after : List Ptr)
      → IsChain order s height x (before ++ (p ∷ after))
      → IsChain order s height p after × (0 < height p)
  unfolding IsChain
  IsChain-from x p [] after c = (c.3, c.1)
  IsChain-from x p (y ∷ ys) after c = IsChain-from y p ys after c.3

  visited_from :
      (x p : Ptr) (before after : List Ptr) (n : ℕ)
      → IsChain order s height x (before ++ (p ∷ after))
      → length after < n
      → visited s n (some p) ≡ p ∷ after
  visited_from x p before after n c h =
      let f = IsChain-from x p before after c in visited-chain order s height p after n f.0 f.1 h

All-at {ℓ} :
    {A : Type ℓ} (P : A → Type 0) (before : List A) (p : A) (after : List A)
    → All P (before ++ (p ∷ after))
    → P p
All-at P [] p after h = h.0
All-at P (y ∷ ys) p after h = All-at P ys p after h.1

module _ {K : Type 0} {compare_ : K → K → Option Ordering} (ord : IsKeyOrder compare_)
    (s : SkipList K) (height : Ptr → ℕ) (k : K) (node : Ptr) where
  -- Behind a node whose key is less, and before one whose key is not.
  placed_behind :
      (x p : Ptr) (before after : List Ptr)
      → IsChain ord.order s height x (before ++ (p ∷ after))
      → is_lt (ord.order (s.key p) k) ≡ true
      → placed ord.order s.key k node (before ++ (p ∷ after))
        ≡ before ++ (p ∷ placed ord.order s.key k node after)
  unfolding IsChain
  placed_behind x p [] after c less = rw less refl
  placed_behind x p (y ∷ ys) after c less =
      let y_p = All-at (λ z. ord.order (s.key y) (s.key z) ≡ lt) ys p after c.2 in
      let y_k =
        ord.order_trans (s.key y) (s.key p) k y_p
          (lt_of_is_lt ord.order s (ord.order (s.key p) k) less) in
      rw y_k (ap (λ l. y ∷ l) (placed_behind y p ys after c.3 less))

  placed_before :
      (p : Ptr) (before after : List Ptr)
      → is_lt (ord.order (s.key p) k) ≡ false
      → (before' : List Ptr) × (placed ord.order s.key k node (before ++ (p ∷ after))
          ≡ before' ++ (p ∷ after))
  placed_before p [] after more = (node ∷ [], rw more refl)
  placed_before p (y ∷ ys) after more = elim (Bool-cases (is_lt (ord.order (s.key y) k))) [
    | inl less ↦ let r = placed_before p ys after more in (y ∷ r.0, rw less (ap (λ l. y ∷ l) r.1))
    | inr here ↦ (node ∷ y ∷ ys, rw here refl)
  ]

  length-placed : (ys : List Ptr) → length (placed ord.order s.key k node ys) ≡ length ys + 1
  length-placed [] = omega arith
  length-placed (y ∷ ys) = elim (Bool-cases (is_lt (ord.order (s.key y) k))) [
    | inl less ↦ rw less (omega (arith, length-placed ys))
    | inr here ↦ rw here (omega arith)
  ]

  -- What the iterator at `p` meets in a list with the new node.
  visited-placed :
      (t : SkipList K) (height' : Ptr → ℕ) (x w p : Ptr) (before after : List Ptr) (n : ℕ)
      → IsChain ord.order s height x (before ++ (p ∷ after))
      → IsChain ord.order t height' w (placed ord.order s.key k node (before ++ (p ∷ after)))
      → length after + 1 < n
      → visited t n (some p)
        ≡ p ∷ (if is_lt (ord.order (s.key p) k) then placed ord.order s.key k node after else after)
  visited-placed t height' x w p before after n c d h =
      elim (Bool-cases (is_lt (ord.order (s.key p) k))) [
        | inl less ↦
            let e = placed_behind x p before after c less in
            rw less (
              visited_from ord.order t height' w p before (placed ord.order s.key k node after) n
                (subst (IsChain ord.order t height' w) e d) (omega (arith, length-placed after)))
        | inr more ↦
            let r = placed_before p before after more in
            rw more (
              visited_from ord.order t height' w p r.0 after n
                (subst (IsChain ord.order t height' w) r.1 d) (omega arith))
      ]

module _ {K : Type 0} {compare_ : K → K → Option Ordering} (ord : IsKeyOrder compare_)
    {s : SkipList K} {height : Ptr → ℕ} {nodes : List Ptr}
    (sound : IsSkipList ord.order s height nodes) (k : K) (node p : Ptr)
    (before after : List Ptr) where
  -- Under a comparator with the laws of `IsKeyOrder`, in a sound skip list, an iterator stands on a
  -- node `p`, behind which the nodes `after` follow. With fuel for one step per node and per level and
  -- one more, a key that equals none of the list's and a new node are inserted without a fault. Then
  -- the iterator has the key it had, and in a walk of more steps than there are nodes and one it meets
  -- `p` and the nodes `after` as it would have, with the new node in its place among them if the new
  -- key is greater than that of `p`.
  pub visited-insert :
      (fuel n : ℕ)
      → nodes ≡ before ++ (p ∷ after)
      → s.cur_max_height + length nodes + 1 ≤ fuel
      → Absent node (s.head ∷ nodes)
      → any_equal ord.order s.key k nodes ≡ false
      → length nodes + 1 < n
      → (t : SkipList K) × (insert compare_ fuel node k s ≡ some t)
        × (iter_key t (some p) ≡ iter_key s (some p))
        × (visited s n (some p) ≡ p ∷ after)
        × (visited t n (some p)
            ≡ p
              ∷ (if is_lt (ord.order (s.key p) k)
                  then placed ord.order s.key k node after
                  else after))
  unfolding iter_key
  visited-insert fuel n e enough fresh new steps =
      let m = insert-IsSkipList ord sound k node fuel enough fresh new in
      let c = subst (IsChain ord.order s height s.head) e sound.chain in
      let d =
        subst
          (λ l.
            IsChain ord.order m.0 (update height node (random_height s.rnd).0) m.0.head
              (placed ord.order s.key k node l))
          e m.2.chain in
      let ne : p ≢ node = All-at (λ z. z ≢ node) before p after (subst (Absent node) e fresh.1) in
      let len = length-append before (p ∷ after) in
      let short : length after + 1 < n = omega (arith, ap length e, len, steps) in
      (
        m.0,
        m.1,
        ap some (ap (λ key. key p) m.3 ∙ update-ne s.key node p k ne),
        visited_from ord.order s height s.head p before after n c (omega (arith, short)),
        visited-placed ord s height k node m.0 (update height node (random_height s.rnd).0) s.head
            m.0.head p before after n c d short,
      )
