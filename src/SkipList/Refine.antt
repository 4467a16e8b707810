-- ===== src/SkipList/Refine.antt =====
-- What a client of the skip list sees: a sorted list of keys.
use my_leveldb.Common.{
  subst, ℕ, ◌+◌, ◌<◌, ◌≤◌, ◌≡◌, refl, sym, ap, ◌∙◌, false, Option, some, List, [], ◌∷◌, length, All,
  arith, ◌>>=◌,
}
use my_leveldb.SkipList.{
  Ptr, SkipList, new_skip_list, insert, contains, iter_seek_to_first, update, k_max_height,
}
use my_leveldb.SkipList.Chain.{IsKeyOrder, IsChain}
use my_leveldb.SkipList.Place.{placed}
use my_leveldb.SkipList.Find.{IsSkipList}
use my_leveldb.SkipList.Splice.{Absent}
use my_leveldb.SkipList.Insert.{insert-IsSkipList, All-placed_node, new_height}
use my_leveldb.SkipList.Visit.{visited, contains-any_equal, visited-iter_seek_to_first}
use Prim.Native.Nat.{Ordering}
use my_leveldb.SkipList.Keys.{
  map_keys, insert_key, has_key, map_keys-placed, any_equal-has_key, length-insert_key,
}

-- A skip list stands for its keys in their order; its nodes lie below `bound`.
pub record IsKeys {K : Type 0} (order : K → K → Ordering) (s : SkipList K) (bound : ℕ) (ks : List K)
    : Type 0 where
  pub height : Ptr → ℕ
  pub nodes : List Ptr
  pub sound : IsSkipList order s height nodes
  pub keys : map_keys s.key nodes ≡ ks
  pub below : All (λ z. z < bound) (s.head ∷ nodes)

Absent-of_below : (bound : ℕ) (ys : List Ptr) → All (λ z. z < bound) ys → Absent bound ys
Absent-of_below bound [] b = tt
Absent-of_below bound (y ∷ ys) b = (omega (arith, b.0), Absent-of_below bound ys b.1)

below_more : (bound : ℕ) (ys : List Ptr) → All (λ z. z < bound) ys → All (λ z. z < bound + 1) ys
below_more bound [] b = tt
below_more bound (y ∷ ys) b = (omega (arith, b.0), below_more bound ys b.1)

length-map_keys :
    {K : Type 0} (key : Ptr → K) (ys : List Ptr) → length (map_keys key ys) ≡ length ys
length-map_keys key [] = refl
length-map_keys key (y ∷ ys) = omega (arith, length-map_keys key ys)

module _ {K : Type 0} {compare_ : K → K → Option Ordering} (ord : IsKeyOrder compare_) where
  -- Insertions of keys in turn; the arena gives the nodes `bound`, `bound + 1` and so on.
  unfoldable pub insert_all : (fuel bound : ℕ) → List K → SkipList K → Option (SkipList K)
  insert_all fuel bound [] s = some s
  insert_all fuel bound (k ∷ ks) s = do
    t ← insert compare_ fuel bound k s
    insert_all fuel (bound + 1) ks t

  -- The keys of `ks`, none of which is in the list before it, inserted in turn.
  abbrev pub AllNew : List K → List K → Type 0
  AllNew [] held = Unit {0}
  AllNew (k ∷ ks) held =
      (has_key ord.order k held ≡ false) × AllNew ks (insert_key ord.order k held)

  abbrev pub insert_keys : List K → List K → List K
  insert_keys [] held = held
  insert_keys (k ∷ ks) held = insert_keys ks (insert_key ord.order k held)

  insert-IsKeys :
      (fuel bound : ℕ) (k : K) (s : SkipList K) (ks : List K)
      → IsKeys ord.order s bound ks
      → has_key ord.order k ks ≡ false
      → length ks + 13 ≤ fuel
      → (t : SkipList K) × (insert compare_ fuel bound k s ≡ some t)
        × IsKeys ord.order t (bound + 1) (insert_key ord.order k ks)
  insert-IsKeys fuel bound k s ks r new enough =
      let fresh = Absent-of_below bound (s.head ∷ r.nodes) r.below in
      let new' =
        any_equal-has_key ord.order k s.key r.nodes ∙ ap (has_key ord.order k) r.keys ∙ new in
      let len : length r.nodes ≡ length ks =
        sym (length-map_keys s.key r.nodes) ∙ ap length r.keys in
      let g =
        insert-IsSkipList ord r.sound k bound fuel (omega (arith, len, r.sound.high)) fresh new' in
      (
        g.0,
        g.1,
        record {
          height = update r.height bound (new_height ord r.sound k bound);
          nodes = placed ord.order s.key k bound r.nodes;
          sound = g.2;
          keys =
              ap (λ key. map_keys key (placed ord.order s.key k bound r.nodes)) g.3
              ∙ map_keys-placed ord.order k s.key bound r.nodes fresh.1
              ∙ ap (insert_key ord.order k) r.keys;
          below =
              subst (λ w. All (λ z. z < bound + 1) (w ∷ placed ord.order s.key k bound r.nodes))
                (sym g.4)
                (
                  omega (arith, r.below.0),
                  All-placed_node ord.order s.key k bound (λ z. z < bound + 1) r.nodes (omega arith)
                      (below_more bound r.nodes r.below.1),
                );
        },
      )

  pub insert_all-IsKeys :
      (fuel bound : ℕ) (ks held : List K) (s : SkipList K)
      → IsKeys ord.order s bound held
      → AllNew ks held
      → length held + length ks + 13 ≤ fuel
      → (t : SkipList K) × (insert_all fuel bound ks s ≡ some t)
        × IsKeys ord.order t (bound + length ks) (insert_keys ks held)
  unfolding insert_all
  insert_all-IsKeys fuel bound [] held s r new enough = (
    s,
    refl,
    let e : bound ≡ bound + length {A = K} [] = omega arith in
        subst (λ b. IsKeys ord.order s b held) e r,
  )
  insert_all-IsKeys fuel bound (k ∷ ks) held s r new enough =
      let g = insert-IsKeys fuel bound k s held r new.0 (omega arith) in
      let m =
        insert_all-IsKeys fuel (bound + 1) ks (insert_key ord.order k held) g.0 g.2 new.1
          (omega (arith, length-insert_key ord.order k held)) in
      (
        m.0,
        rw g.1 m.1,
        let e : bound + 1 + length ks ≡ bound + length (k ∷ ks) = omega arith in
            subst (λ b. IsKeys ord.order m.0 b (insert_keys (k ∷ ks) held)) e m.2,
      )

  pub new-IsKeys :
      (head bound : ℕ) (key : Ptr → K)
      → head < bound
      → IsKeys ord.order (new_skip_list head key) bound []
  unfolding new_skip_list IsChain
  new-IsKeys head bound key h = record {
    height = λ p. k_max_height;
    nodes = [];
    sound = record {
      chain = λ i hi. refl;
      head_height = refl;
      high = omega arith;
      low = tt;
      pos = omega arith;
      distinct = (tt, tt);
    };
    keys = refl;
    below = (h, tt);
  }

  observed :
      (fuel bound : ℕ) (t : SkipList K) (ks : List K)
      → IsKeys ord.order t bound ks
      → length ks + 13 ≤ fuel
      → (map_keys t.key (visited t fuel (iter_seek_to_first t)) ≡ ks)
        × ((k : K) → contains compare_ t fuel k ≡ some (has_key ord.order k ks))
  observed fuel bound t ks r enough =
      let len : length r.nodes ≡ length ks =
        sym (length-map_keys t.key r.nodes) ∙ ap length r.keys in
      (
        ap (map_keys t.key) (visited-iter_seek_to_first ord r.sound fuel (omega (arith, len)))
            ∙ r.keys,
        λ k.
            contains-any_equal ord r.sound k fuel (omega (arith, len, r.sound.high))
            ∙ ap some
                (any_equal-has_key ord.order k t.key r.nodes ∙ ap (has_key ord.order k) r.keys),
      )

  pub length-insert_keys :
      (ks held : List K) → length (insert_keys ks held) ≡ length held + length ks
  length-insert_keys [] held = omega arith
  length-insert_keys (k ∷ ks) held = omega (
    arith,
    length-insert_keys ks (insert_key ord.order k held),
    length-insert_key ord.order k held,
  )

  -- Under a comparator with the laws of `IsKeyOrder`, a new skip list refines the sorted list of
  -- keys. Any keys of which none equals another are inserted without a fault, at nodes that do
  -- not include the head, with fuel for one step per key and 13 more; then the iterator gives
  -- the keys sorted by insertion, and `contains` answers as a search of that list does.
  pub insert_all_refines :
      (fuel head bound : ℕ) (key : Ptr → K) (ks : List K)
      → head < bound
      → AllNew ks []
      → length ks + 13 ≤ fuel
      → (t : SkipList K) × (insert_all fuel bound ks (new_skip_list head key) ≡ some t)
        × (map_keys t.key (visited t fuel (iter_seek_to_first t)) ≡ insert_keys ks [])
        × ((k : K) → contains compare_ t fuel k ≡ some (has_key ord.order k (insert_keys ks [])))
  insert_all_refines fuel head bound key ks h new enough =
      let m =
        insert_all-IsKeys fuel bound ks [] (new_skip_list head key) (new-IsKeys head bound key h)
          new (omega arith) in
      let o =
        observed fuel (bound + length ks) m.0 (insert_keys ks []) m.2
          (omega (arith, length-insert_keys ks [])) in
      (m.0, m.1, o.0, o.1)
