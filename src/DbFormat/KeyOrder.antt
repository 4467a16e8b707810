-- ===== src/DbFormat/KeyOrder.antt =====
-- `InternalKeyComparator::compare` as a total order of all strings, with the laws that a skip list
-- needs: on strings without a tag, where the source fails, it is filled up.
use my_leveldb.Common.{ℕ, ◌≡◌, sym, ap, ◌∙◌, arith, Option, none, some, [], Bytes}
use my_leveldb.Comparator.{Comparator}
use my_leveldb.Comparator.Laws.{IsOrder}
use my_leveldb.Slice.Order.{flip_order}
use my_leveldb.DbFormat.{internal_compare, extract_user_key, decode_tag}
use my_leveldb.DbFormat.Compare.{
  IsInternal, Parts, parts_of, tag_order, tag_order_trans, tag_order-flip, internal_compare-parts,
}
use my_leveldb.SkipList.Chain.{IsKeyOrder}
use Prim.Native.Nat.{Ordering, lt, eq}

abbrev or_else : {A : Type 0} → A → Option A → A
or_else a none = a
or_else a (some b) = b

key_user : Bytes → Bytes
key_user p = or_else [] (extract_user_key p)

key_tag : Bytes → ℕ
key_tag p = or_else 0 (decode_tag p)

key_parts : {p : Bytes} → IsInternal p → Parts p
unfolding key_user key_tag
key_parts {p} h =
    let q = parts_of h in
    record {
      user = key_user p;
      tag = key_tag p;
      user_eq = q.user_eq ∙ ap (λ o. some (or_else [] o)) (sym q.user_eq);
      tag_eq = q.tag_eq ∙ ap (λ o. some (or_else 0 o)) (sym q.tag_eq);
    }

module _ (c : Comparator) (laws : IsOrder c) where
  pub key_order : Bytes → Bytes → Ordering
  key_order a b = tag_order (laws.order (key_user a) (key_user b)) (key_tag a) (key_tag b)

  pub internal_compare-key_order :
      (a b : Bytes) → IsInternal a → IsInternal b → internal_compare c a b ≡ some (key_order a b)
  unfolding key_order key_parts
  internal_compare-key_order a b h k = internal_compare-parts c laws (key_parts h) (key_parts k)

  tag_order_keeps :
      (x y z : Bytes) (s t u : ℕ)
      → tag_order (laws.order x y) s t ≡ lt
      → tag_order (laws.order y z) t u ≡ eq
      → tag_order (laws.order x z) s u ≡ lt
  tag_order_keeps x y z s t u h k = ground (
    arith,
    laws.order_trans x y z,
    laws.order_eq x y z,
    laws.order_eq z y x,
    laws.order_flip x y,
    laws.order_flip y z,
    laws.order_flip x z,
  )

  pub key_order_trans :
      (a b d : Bytes) → key_order a b ≡ lt → key_order b d ≡ lt → key_order a d ≡ lt
  unfolding key_order
  key_order_trans a b d = tag_order_trans c laws _ _ _ _ _ _

  pub key_order_keeps :
      (a b d : Bytes) → key_order a b ≡ lt → key_order b d ≡ eq → key_order a d ≡ lt
  unfolding key_order
  key_order_keeps a b d = tag_order_keeps _ _ _ _ _ _

  pub key_order_flip : (a b : Bytes) → key_order b a ≡ flip_order (key_order a b)
  unfolding key_order
  key_order_flip a b =
      ap (λ r. tag_order r (key_tag b) (key_tag a)) (laws.order_flip (key_user a) (key_user b))
      ∙ tag_order-flip (laws.order (key_user a) (key_user b)) (key_tag a) (key_tag b)

  -- The order of things that have keys, for a comparator that never fails and follows it.
  unfoldable pub pulled-IsKeyOrder :
      {K : Type 0} (key_of : K → Bytes) (compare_ : K → K → Option Ordering)
      → ((a b : K) → compare_ a b ≡ some (key_order (key_of a) (key_of b)))
      → IsKeyOrder compare_
  pulled-IsKeyOrder key_of compare_ agree = record {
    order = λ a b. key_order (key_of a) (key_of b);
    compare_some = agree;
    order_trans = λ a b d. key_order_trans (key_of a) (key_of b) (key_of d);
    order_eq = λ a b d. key_order_keeps (key_of a) (key_of b) (key_of d);
    order_gt = λ a b h. key_order_flip (key_of a) (key_of b) ∙ ap flip_order h;
    order_lt = λ a b h. key_order_flip (key_of a) (key_of b) ∙ ap flip_order h;
  }
