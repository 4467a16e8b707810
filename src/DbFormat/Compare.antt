-- ===== src/DbFormat/Compare.antt =====
-- `InternalKeyComparator::compare`: by user key, and for the same user key by the tag, the smaller
-- one first.
use my_leveldb.Common.{
  ℕ, ◌-◌, ◌≤◌, true, some, ◌++◌, Bytes, ltb, leb, if◌then◌else◌, length, take, drop, ◌≡◌, refl,
  arith, ap, ◌∙◌, IsByte, All, take-append-drop,
}
use my_leveldb.Comparator.{Comparator}
use my_leveldb.Comparator.Laws.{IsOrder}
use my_leveldb.Slice.Order.{flip_order}
use my_leveldb.DbFormat.{
  ParsedInternalKey, extract_user_key, decode_tag, compare_tags, internal_compare,
}
use my_leveldb.DbFormat.Key.{
  IsKey, encoded, tag_of, tag_bytes, extract_user_key-encoded, decode_tag-encoded,
}
use Prim.Native.Nat.{Ordering, lt, eq, gt}

-- A string that holds a tag.
pub record IsInternal (p : Bytes) : Type 0 where
  pub bytes : All IsByte p
  pub long : 8 ≤ length p

-- The order of two numbers, and its use where the user keys are equal.
abbrev pub number_order : ℕ → ℕ → Ordering
number_order s t = if ltb s t then lt else if ltb t s then gt else eq

abbrev pub tag_order : Ordering → ℕ → ℕ → Ordering
tag_order lt s t = lt
tag_order eq s t = number_order s t
tag_order gt s t = gt

-- The user key and the tag of a string.
pub record Parts (p : Bytes) : Type 0 where
  pub user : Bytes
  pub tag : ℕ
  pub user_eq : extract_user_key p ≡ some user
  pub tag_eq : decode_tag p ≡ some tag

pub parts_of : {p : Bytes} → IsInternal p → Parts p
parts_of {p} h =
    let (num, got, bound, tail) = tag_bytes p h.bytes h.long in
    record {
      user = take (length p - 8) p;
      tag = num;
      user_eq =
          unfold extract_user_key in
          (let enough : leb 8 (length p) ≡ true = ground (arith, h.long) in rw enough);
      tag_eq = got;
    }

pub user_part : {p : Bytes} (h : IsInternal p) → (parts_of h).user ++ drop (length p - 8) p ≡ p
unfolding parts_of
user_part {p} h = take-append-drop (length p - 8) p

compare_tags-tag_order :
    {p q : Bytes} (a : Parts p) (b : Parts q) (r : Ordering)
    → compare_tags p q r ≡ some (tag_order r a.tag b.tag)
unfolding compare_tags
compare_tags-tag_order a b lt = refl
compare_tags-tag_order a b gt = refl
compare_tags-tag_order a b eq = rw (a.tag_eq, b.tag_eq)

pub tag_order-flip :
    (r : Ordering) (s t : ℕ) → tag_order (flip_order r) t s ≡ flip_order (tag_order r s t)
tag_order-flip lt s t = refl
tag_order-flip gt s t = refl
tag_order-flip eq s t = ground arith

module _ (c : Comparator) (laws : IsOrder c) where
  pub internal_compare-parts :
      {p q : Bytes} (a : Parts p) (b : Parts q)
      → internal_compare c p q ≡ some (tag_order (laws.order a.user b.user) a.tag b.tag)
  unfolding internal_compare
  internal_compare-parts a b =
      rw (a.user_eq, b.user_eq, laws.compare_some a.user b.user)
        (compare_tags-tag_order a b (laws.order a.user b.user))

  pub tag_order_trans :
      (x y z : Bytes) (s t u : ℕ)
      → tag_order (laws.order x y) s t ≡ lt
      → tag_order (laws.order y z) t u ≡ lt
      → tag_order (laws.order x z) s u ≡ lt
  tag_order_trans x y z s t u h k = ground (
    arith,
    laws.order_trans x y z,
    laws.order_eq x y z,
    laws.order_eq z y x,
    laws.order_flip x y,
    laws.order_flip y z,
    laws.order_flip x z,
  )

-- Under any user comparator that is a total order, the comparison of two encoded keys, with sequence
-- numbers below 2 ^ 56 and each of one of the two types, never faults: it is that of the user keys, then that of the sequence numbers, then that of the types, each with
-- the smaller first.
pub internal_compare-encoded :
    (c : Comparator) (laws : IsOrder c) (a b : ParsedInternalKey)
    → IsKey a
    → IsKey b
    → internal_compare c (encoded a) (encoded b)
      ≡ some (
          tag_order
            (tag_order (laws.order a.user_key b.user_key) a.sequence b.sequence)
            a.type
            b.type)
internal_compare-encoded c laws a b ha hb =
    internal_compare-parts c laws (parts ha) (parts hb)
    ∙ ap some (same (laws.order a.user_key b.user_key))
  where
    parts : {k : ParsedInternalKey} → IsKey k → Parts (encoded k)
    parts {k} h = record {
      user = k.user_key;
      tag = tag_of k;
      user_eq = extract_user_key-encoded k;
      tag_eq = decode_tag-encoded k h;
    }

    same :
        (r : Ordering)
        → tag_order r (tag_of a) (tag_of b)
          ≡ tag_order (tag_order r a.sequence b.sequence) a.type b.type
    same lt = refl
    same gt = refl
    same eq = ground (arith, ha.type, hb.type)

-- Under any user comparator that is a total order, the comparison is a strict order of the
-- strings that hold a tag: where the first is less than the second and that less than the third,
-- the second is greater than the first, and the first less than the third.
pub internal_compare_order :
    (c : Comparator) (laws : IsOrder c) (p q s : Bytes)
    → IsInternal p
    → IsInternal q
    → IsInternal s
    → internal_compare c p q ≡ some lt
    → internal_compare c q s ≡ some lt
    → (internal_compare c q p ≡ some gt) × (internal_compare c p s ≡ some lt)
internal_compare_order c laws p q s hp hq hs h k = (
  internal_compare-parts c laws b a
      ∙ ap some (
          ap (λ r. tag_order r b.tag a.tag) (laws.order_flip a.user b.user)
          ∙ tag_order-flip (laws.order a.user b.user) a.tag b.tag
          ∙ ap flip_order first),
  internal_compare-parts c laws a d
      ∙ ap some (tag_order_trans c laws a.user b.user d.user a.tag b.tag d.tag first second),
)
  where
    a : Parts p
    a = parts_of hp

    b : Parts q
    b = parts_of hq

    d : Parts s
    d = parts_of hs

    first : tag_order (laws.order a.user b.user) a.tag b.tag ≡ lt
    first = cc (internal_compare-parts c laws a b)

    second : tag_order (laws.order b.user d.user) b.tag d.tag ≡ lt
    second = cc (internal_compare-parts c laws b d)
