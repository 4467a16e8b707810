-- ===== src/SkipList/AnyOrder.antt =====
-- The order of insertions into a skip list: it does not matter for what a client sees.
use my_leveldb.Common.{
  ℕ, suc, ◌+◌, ◌<◌, ◌≤◌, ◌≡◌, refl, sym, ap, subst, ◌∙◌, Bool, true, false, ◌||◌, Bool-cases, inl,
  inr, Option, some, List, [], ◌∷◌, length, arith,
}
use my_leveldb.Comparator.{is_lt}
use my_leveldb.Slice.{is_eq}
use my_leveldb.SkipList.{Ptr, SkipList, new_skip_list, contains, iter_seek_to_first}
use my_leveldb.SkipList.Chain.{IsKeyOrder}
use my_leveldb.SkipList.Keys.{map_keys, insert_key, has_key}
use my_leveldb.SkipList.Refine.{insert_all, insert_all_refines, insert_keys, AllNew}
use my_leveldb.SkipList.Visit.{visited}
use mathlib.Core.List.{Permᴰ}
use Prim.Native.Nat.{Ordering, lt, eq, gt}

or_swap : (p q r : Bool) → (p || (q || r)) ≡ (q || (p || r))
or_swap p q r = ground arith

or_false : (p q : Bool) → (p || q) ≡ false → (p ≡ false) × (q ≡ false)
or_false p q h = ground arith

length-Permᴰ : {A : Type 0} {xs ys : List A} → Permᴰ xs ys → length xs ≡ length ys
length-Permᴰ Permᴰ.nil = refl
length-Permᴰ (Permᴰ.cons e p) = ap suc (length-Permᴰ p)
length-Permᴰ (Permᴰ.swap e f) = refl
length-Permᴰ (Permᴰ.trans p q) = length-Permᴰ p ∙ length-Permᴰ q

module _ {K : Type 0} {compare_ : K → K → Option Ordering} (ord : IsKeyOrder compare_) where
  below_trans :
      (j a b : K) → is_lt (ord.order j a) ≡ true → ord.order a b ≡ lt → is_lt (ord.order j b) ≡ true
  below_trans j a b h k = ground (arith, ord.order_trans j a b)

  insert_key_swap :
      (a b : K) (held : List K)
      → ord.order a b ≡ lt
      → insert_key ord.order a (insert_key ord.order b held)
        ≡ insert_key ord.order b (insert_key ord.order a held)
  insert_key_swap a b [] h = let g = ord.order_lt a b h in rw (h, g) refl
  insert_key_swap a b (j ∷ held) h = elim (Bool-cases (is_lt (ord.order j a))) [
    | inl before ↦
        let between = below_trans j a b before h in
        rw (between, before, between, insert_key_swap a b held h) refl
    | inr after ↦
        let g = ord.order_lt a b h in
        elim (Bool-cases (is_lt (ord.order j b))) [
          | inl between ↦ rw (between, after, h, between) refl
          | inr beyond ↦ rw (beyond, after, g, h, beyond) refl
        ]
  ]

  insert_key_comm :
      (a b : K) (held : List K)
      → is_eq (ord.order a b) ≡ false
      → insert_key ord.order a (insert_key ord.order b held)
        ≡ insert_key ord.order b (insert_key ord.order a held)
  insert_key_comm a b held h = by_order (ord.order a b) refl h
    where
      by_order :
          (r : Ordering)
          → ord.order a b ≡ r
          → is_eq r ≡ false
          → insert_key ord.order a (insert_key ord.order b held)
            ≡ insert_key ord.order b (insert_key ord.order a held)
      by_order lt e h = insert_key_swap a b held e
      by_order eq e h = absurd cc
      by_order gt e h = sym (insert_key_swap b a held (ord.order_gt a b e))

  ne_sym : (a b : K) → is_eq (ord.order a b) ≡ false → is_eq (ord.order b a) ≡ false
  ne_sym a b h = ground (arith, h, ord.order_lt a b, ord.order_gt a b)

  has_key-insert_key :
      (a b : K) (held : List K)
      → has_key ord.order b (insert_key ord.order a held)
        ≡ (is_eq (ord.order a b) || has_key ord.order b held)
  has_key-insert_key a b [] = refl
  has_key-insert_key a b (j ∷ held) = elim (Bool-cases (is_lt (ord.order j a))) [
    | inl before ↦
        rw (before, has_key-insert_key a b held)
          (or_swap (is_eq (ord.order j b)) (is_eq (ord.order a b)) (has_key ord.order b held))
    | inr after ↦ rw after refl
  ]

  insert_keys_swap :
      (a b : K) (l held : List K)
      → AllNew ord (a ∷ b ∷ l) held
      → AllNew ord (b ∷ a ∷ l) held
        × (insert_keys ord (a ∷ b ∷ l) held ≡ insert_keys ord (b ∷ a ∷ l) held)
  insert_keys_swap a b l held new =
      let apart =
        or_false (is_eq (ord.order a b)) (has_key ord.order b held)
          (sym (has_key-insert_key a b held) ∙ new.1.0) in
      let comm = sym (insert_key_comm a b held apart.0) in
      (
        (
          apart.1,
          (
            has_key-insert_key b a held ∙ (λ i. ne_sym a b apart.0 i || new.0 i),
            subst (AllNew ord l) comm new.1.1,
          ),
        ),
        ap (insert_keys ord l) comm,
      )

  -- Two lists of keys with the same keys, as often, lead to the same sorted list.
  insert_keys-Permᴰ :
      {ks js : List K} (held : List K)
      → Permᴰ ks js
      → AllNew ord ks held
      → AllNew ord js held × (insert_keys ord ks held ≡ insert_keys ord js held)
  insert_keys-Permᴰ held Permᴰ.nil new = (tt, refl)
  insert_keys-Permᴰ held (Permᴰ.cons {a = a} {l₁ = ks} {l₂ = js} e p) new =
      let rest = insert_keys-Permᴰ (insert_key ord.order a held) p new.1 in
      subst
        (λ b.
          AllNew ord (b ∷ js) held
          × (insert_keys ord (a ∷ ks) held ≡ insert_keys ord (b ∷ js) held))
        e ((new.0, rest.0), rest.1)
  insert_keys-Permᴰ held (Permᴰ.swap {a = a} {b = b} {a' = a'} {l = l} e f) new =
      let SameKeys : K → K → Type 0 = λ x y.
        AllNew ord (x ∷ y ∷ l) held
        × (insert_keys ord (a ∷ b ∷ l) held ≡ insert_keys ord (x ∷ y ∷ l) held) in
      subst (SameKeys a') e (subst (λ x. SameKeys x a) f (insert_keys_swap a b l held new))
  insert_keys-Permᴰ held (Permᴰ.trans p q) new =
      let first = insert_keys-Permᴰ held p new in
      let second = insert_keys-Permᴰ held q first.0 in (second.0, first.1 ∙ second.1)

  -- Under a comparator with the laws of `IsKeyOrder`, keys of which none equals another may be
  -- inserted into a new skip list in any order: the same keys in another order, as often, are also
  -- inserted without a fault, with fuel for one step per key and 13 more, the iterator then gives the
  -- same keys in the same order, and `contains` gives the same answer for every key.
  pub insert_all_any_order :
      (fuel head bound : ℕ) (key : Ptr → K) (ks js : List K)
      → Permᴰ ks js
      → head < bound
      → AllNew ord ks []
      → length ks + 13 ≤ fuel
      → (t : SkipList K) × (u : SkipList K) × (insert_all ord fuel bound ks (new_skip_list head key)
          ≡ some t)
        × (insert_all ord fuel bound js (new_skip_list head key) ≡ some u)
        × (map_keys t.key (visited t fuel (iter_seek_to_first t))
            ≡ map_keys u.key (visited u fuel (iter_seek_to_first u)))
        × ((k : K) → contains compare_ t fuel k ≡ contains compare_ u fuel k)
  insert_all_any_order fuel head bound key ks js p h new enough =
      let moved = insert_keys-Permᴰ [] p new in
      let t = insert_all_refines ord fuel head bound key ks h new enough in
      let u =
        insert_all_refines ord fuel head bound key js h moved.0 (omega (arith, length-Permᴰ p)) in
      (
        t.0,
        u.0,
        t.1,
        u.1,
        t.2 ∙ moved.1 ∙ sym u.2,
        λ k. t.3 k ∙ ap (λ held. some (has_key ord.order k held)) moved.1 ∙ sym (u.3 k),
      )
