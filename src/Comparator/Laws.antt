-- ===== src/Comparator/Laws.antt =====
-- What a client of a comparator relies on: its `compare` is a total order that never faults.
use my_leveldb.Common.{some, Bytes, ◌≡◌, ap}
use my_leveldb.Comparator.{Comparator, bytewise_comparator}
use my_leveldb.Slice.Order.{
  slice_compare-lex_compare, lex_compare, lex_compare-flip, lex_compare_trans, eq_of_lex_compare,
  flip_order,
}
use Prim.Native.Nat.{Ordering, lt, eq}

pub record IsOrder (c : Comparator) : Type 0 where
  pub order : Bytes → Bytes → Ordering
  pub compare_some : (a b : Bytes) → c.compare a b ≡ some (order a b)
  pub order_flip : (a b : Bytes) → order b a ≡ flip_order (order a b)
  pub order_trans : (a b d : Bytes) → order a b ≡ lt → order b d ≡ lt → order a d ≡ lt
  pub order_eq : (a b d : Bytes) → order a b ≡ eq → order a d ≡ order b d

unfoldable pub bytewise-IsOrder : IsOrder bytewise_comparator
unfolding bytewise_comparator
bytewise-IsOrder = record {
  order = lex_compare;
  compare_some = λ a b. ap some (slice_compare-lex_compare a b);
  order_flip = lex_compare-flip;
  order_trans = lex_compare_trans;
  order_eq = λ a b d h. ap (λ t. lex_compare t d) (eq_of_lex_compare a b h);
}
