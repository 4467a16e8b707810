-- ===== src/Slice/Order.antt =====
-- `Slice::compare` is the lexicographic order of byte strings, and the other tests agree with it.
use my_leveldb.Common.{
  ℕ, ◌≡◌, refl, sym, ap, ◌∙◌, ◌↔◌, true, false, [], ◌∷◌, ◌++◌, Bytes, ◌==◌, length, drop, ◌&&◌,
  arith,
}
use my_leveldb.Slice.{memcmp, slice_eq, slice_ne, slice_compare, starts_with}
use Prim.Native.Nat.{compare, Ordering, lt, eq, gt}

-- The order of two byte strings by their first difference; a proper prefix is smaller.
unfoldable pub lex_compare : Bytes → Bytes → Ordering
lex_compare [] [] = eq
lex_compare [] (y ∷ b) = lt
lex_compare (x ∷ a) [] = gt
lex_compare (x ∷ a) (y ∷ b) =
    let later = lex_compare a b in elim (compare x y) [ lt ↦ lt | eq ↦ later | gt ↦ gt ]

-- `Slice::compare` is the lexicographic order of the bytes.
pub slice_compare-lex_compare : (a b : Bytes) → slice_compare a b ≡ lex_compare a b
unfolding slice_compare memcmp lex_compare
slice_compare-lex_compare [] [] = refl
slice_compare-lex_compare [] (y ∷ b) = ground arith
slice_compare-lex_compare (x ∷ a) [] = ground arith
slice_compare-lex_compare (x ∷ a) (y ∷ b) = ground (arith, slice_compare-lex_compare a b)

abbrev pub flip_order : Ordering → Ordering
flip_order lt = gt
flip_order eq = eq
flip_order gt = lt

pub lex_compare-flip : (a b : Bytes) → lex_compare b a ≡ flip_order (lex_compare a b)
unfolding lex_compare
lex_compare-flip [] [] = refl
lex_compare-flip [] (y ∷ b) = refl
lex_compare-flip (x ∷ a) [] = refl
lex_compare-flip (x ∷ a) (y ∷ b) = ground (arith, lex_compare-flip a b)

pub lex_compare_refl : (a : Bytes) → lex_compare a a ≡ eq
unfolding lex_compare
lex_compare_refl [] = refl
lex_compare_refl (x ∷ a) = ground (arith, lex_compare_refl a)

pub eq_of_lex_compare : (a b : Bytes) → lex_compare a b ≡ eq → a ≡ b
unfolding lex_compare
eq_of_lex_compare [] [] h = refl
eq_of_lex_compare [] (y ∷ b) h = cc
eq_of_lex_compare (x ∷ a) [] h = cc
eq_of_lex_compare (x ∷ a) (y ∷ b) h = ground (arith, eq_of_lex_compare a b)

pub lex_compare_trans :
    (a b c : Bytes) → lex_compare a b ≡ lt → lex_compare b c ≡ lt → lex_compare a c ≡ lt
unfolding lex_compare
lex_compare_trans [] [] c h k = k
lex_compare_trans [] (y ∷ b) [] h k = cc
lex_compare_trans [] (y ∷ b) (z ∷ c) h k = refl
lex_compare_trans (x ∷ a) [] c h k = cc
lex_compare_trans (x ∷ a) (y ∷ b) [] h k = k
lex_compare_trans (x ∷ a) (y ∷ b) (z ∷ c) h k = ground (arith, lex_compare_trans a b c)

slice_eq-cons : (x y : ℕ) (a b : Bytes) → slice_eq (x ∷ a) (y ∷ b) ≡ (x == y && slice_eq a b)
unfolding slice_eq memcmp
slice_eq-cons x y a b = ground arith

slice_eq_sound : (a b : Bytes) → slice_eq a b ≡ true → a ≡ b
slice_eq_sound [] [] h = refl
slice_eq_sound [] (y ∷ b) h = unfold slice_eq in ground arith
slice_eq_sound (x ∷ a) [] h = unfold slice_eq in ground arith
slice_eq_sound (x ∷ a) (y ∷ b) h = ground (arith, slice_eq-cons x y a b, slice_eq_sound a b)

slice_eq_refl : (a : Bytes) → slice_eq a a ≡ true
slice_eq_refl [] = unfold slice_eq memcmp in refl
slice_eq_refl (x ∷ a) = ground (arith, slice_eq-cons x x a a, slice_eq_refl a)

-- `operator==` answers true exactly for the same bytes, `operator!=` exactly for others, and
-- `compare` answers 0 exactly for the same bytes.
pub slice_eq_iff :
    (a b : Bytes)
    → ((slice_eq a b ≡ true) ↔ (a ≡ b))
      × ((slice_ne a b ≡ false) ↔ (a ≡ b))
      × ((slice_compare a b ≡ eq) ↔ (a ≡ b))
unfolding slice_ne
slice_eq_iff a b = (
  (slice_eq_sound a b, λ e. rw e (slice_eq_refl b)),
  ((λ h. slice_eq_sound a b (ground arith)), λ e. rw (e, slice_eq_refl b)),
  (
    (λ h. eq_of_lex_compare a b (sym (slice_compare-lex_compare a b) ∙ h)),
    λ e. slice_compare-lex_compare a b ∙ rw e (lex_compare_refl b),
  ),
)

-- `compare` is a strict order: swapping its arguments swaps the sign, and "less" is transitive.
pub slice_compare_order :
    (a b c : Bytes)
    → slice_compare a b ≡ lt
    → slice_compare b c ≡ lt
    → (slice_compare b a ≡ gt) × (slice_compare a c ≡ lt)
slice_compare_order a b c =
    rw
      (
        slice_compare-lex_compare a b,
        slice_compare-lex_compare b c,
        slice_compare-lex_compare b a,
        slice_compare-lex_compare a c,
      )
      (λ h k. (lex_compare-flip a b ∙ ap flip_order h, lex_compare_trans a b c h k))

starts_with-cons :
    (y x : ℕ) (a p : Bytes) → starts_with (y ∷ a) (x ∷ p) ≡ (y == x && starts_with a p)
unfolding starts_with memcmp
starts_with-cons y x a p = ground arith

starts_with_sound : (a x : Bytes) → starts_with a x ≡ true → a ≡ x ++ drop (length x) a
starts_with_sound a [] h = refl
starts_with_sound [] (y ∷ x) h = unfold starts_with in ground arith
starts_with_sound (z ∷ a) (y ∷ x) h =
    ground (arith, starts_with-cons z y a x, starts_with_sound a x)

starts_with_complete : (x rest : Bytes) → starts_with (x ++ rest) x ≡ true
starts_with_complete [] rest = unfold starts_with memcmp in ground arith
starts_with_complete (y ∷ x) rest =
    ground (arith, starts_with-cons y y (x ++ rest) x, starts_with_complete x rest)

-- `starts_with` answers true exactly when the slice is the prefix and some bytes behind it.
pub starts_with_iff : (a x : Bytes) → (starts_with a x ≡ true) ↔ ((rest : Bytes) × (a ≡ x ++ rest))
starts_with_iff a x = (
  (λ h. (drop (length x) a, starts_with_sound a x h)),
  λ (rest, e). rw e (starts_with_complete x rest),
)
