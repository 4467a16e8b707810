-- ===== src/SkipList/Keys.antt =====
-- The abstract view of a skip list: its keys in their order, and what an insertion does to them.
use my_leveldb.Common.{
  ℕ, ◌+◌, ◌≡◌, ◌≢◌, refl, Bool, false, ◌||◌, Bool-cases, inl, inr, List, [], ◌∷◌, length, arith,
  if◌then◌else◌,
}
use my_leveldb.Comparator.{is_lt}
use my_leveldb.Slice.{is_eq}
use my_leveldb.SkipList.{Ptr, update}
use my_leveldb.SkipList.Place.{placed}
use my_leveldb.SkipList.Find.{any_equal}
use my_leveldb.SkipList.Splice.{Absent}
use Prim.Native.Nat.{Ordering}

abbrev pub map_keys : {K : Type 0} → (Ptr → K) → List Ptr → List K
map_keys key [] = []
map_keys key (y ∷ ys) = key y ∷ map_keys key ys

pub update-ne : {A : Type 0} (f : ℕ → A) (i j : ℕ) (a : A) → j ≢ i → update f i a j ≡ f j
update-ne f i j a h = ground (arith, h)

pub update_self : {A : Type 0} (f : ℕ → A) (i : ℕ) (a : A) → update f i a i ≡ a
update_self f i a = ground arith

map_keys-update :
    {K : Type 0} (key : Ptr → K) (node : Ptr) (k : K) (ys : List Ptr)
    → Absent node ys
    → map_keys (update key node k) ys ≡ map_keys key ys
map_keys-update key node k [] a = refl
map_keys-update key node k (y ∷ ys) a =
    rw (update-ne key node y k a.0, map_keys-update key node k ys a.1) refl

-- The abstract operations, on the keys in their order.
module _ {K : Type 0} (order : K → K → Ordering) (k : K) where
  abbrev pub insert_key : List K → List K
  insert_key [] = k ∷ []
  insert_key (j ∷ ks) =
      let later = j ∷ insert_key ks in
      let here = k ∷ j ∷ ks in if is_lt (order j k) then later else here

  abbrev pub has_key : List K → Bool
  has_key [] = false
  has_key (j ∷ ks) = is_eq (order j k) || has_key ks

  pub map_keys-placed :
      (key : Ptr → K) (node : Ptr) (ys : List Ptr)
      → Absent node ys
      → map_keys (update key node k) (placed order key k node ys) ≡ insert_key (map_keys key ys)
  map_keys-placed key node [] a = ground arith
  map_keys-placed key node (y ∷ ys) a = elim (Bool-cases (is_lt (order (key y) k))) [
    | inl less ↦ rw (less, update-ne key node y k a.0, map_keys-placed key node ys a.1) refl
    | inr more ↦
        rw
          (
            more,
            update_self key node k,
            update-ne key node y k a.0,
            map_keys-update key node k ys a.1,
          )
          refl
  ]

  pub any_equal-has_key :
      (key : Ptr → K) (ys : List Ptr) → any_equal order key k ys ≡ has_key (map_keys key ys)
  any_equal-has_key key [] = refl
  any_equal-has_key key (y ∷ ys) = rw (any_equal-has_key key ys) refl

  pub length-insert_key : (ks : List K) → length (insert_key ks) ≡ length ks + 1
  length-insert_key [] = omega arith
  length-insert_key (j ∷ ks) = elim (Bool-cases (is_lt (order j k))) [
    | inl less ↦ rw less (omega (arith, length-insert_key ks))
    | inr more ↦ rw more (omega arith)
  ]
