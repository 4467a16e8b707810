-- ===== src/SkipList/Sorted.antt =====
-- The order of the keys that an iterator gives after a run of insertions.
use my_leveldb.Common.{
  subst, ℕ, ◌+◌, ◌<◌, ◌≤◌, ◌≡◌, ap, ◌∙◌, arith, Option, some, List, [], ◌∷◌, All, length,
}
use my_leveldb.SkipList.{Ptr, SkipList, new_skip_list}
use my_leveldb.SkipList.Chain.{IsKeyOrder, IsChain}
use my_leveldb.SkipList.Keys.{map_keys}
use my_leveldb.SkipList.Refine.{insert_all-IsKeys, insert_keys, new-IsKeys, AllNew}
use Prim.Native.Nat.{Ordering, lt}

-- Each key is found to be less than every later one.
abbrev pub Ascending : {K : Type 0} → (K → K → Option Ordering) → List K → Type 0
Ascending compare_ [] = Unit {0}
Ascending compare_ (k ∷ ks) = All (λ j. compare_ k j ≡ some lt) ks × Ascending compare_ ks

module _ {K : Type 0} {compare_ : K → K → Option Ordering} (ord : IsKeyOrder compare_) where
  All-map_keys :
      (key : Ptr → K) (k : K) (ys : List Ptr)
      → All (λ z. ord.order k (key z) ≡ lt) ys
      → All (λ j. compare_ k j ≡ some lt) (map_keys key ys)
  All-map_keys key k [] h = tt
  All-map_keys key k (y ∷ ys) h =
      (ord.compare_some k (key y) ∙ ap some h.0, All-map_keys key k ys h.1)

  IsChain-Ascending :
      (s : SkipList K) (height : Ptr → ℕ) (x : Ptr) (ys : List Ptr)
      → IsChain ord.order s height x ys
      → Ascending compare_ (map_keys s.key ys)
  unfolding IsChain
  IsChain-Ascending s height x [] c = tt
  IsChain-Ascending s height x (y ∷ ys) c =
      (All-map_keys s.key (s.key y) ys c.2, IsChain-Ascending s height y ys c.3)

  -- The run of insertions that `insert_all_refines` speaks of leaves an ascending list of keys.
  pub insert_keys-Ascending :
      (fuel head bound : ℕ) (key : Ptr → K) (ks : List K)
      → head < bound
      → AllNew ord ks []
      → length ks + 13 ≤ fuel
      → Ascending compare_ (insert_keys ord ks [])
  insert_keys-Ascending fuel head bound key ks h new enough =
      let m =
        insert_all-IsKeys ord fuel bound ks [] (new_skip_list head key)
          (new-IsKeys ord head bound key h) new (omega arith) in
      subst (λ w. Ascending compare_ w) m.2.keys
        (IsChain-Ascending m.0 m.2.height m.0.head m.2.nodes m.2.sound.chain)
