-- ===== src/Slice.antt =====
-- slice.h: a slice is the list of the bytes that it denotes. Sizes are below 2 ^ 31, so the `int` in
-- `Slice::compare` holds the smaller one. Of an `int` result of a comparison the callers read the
-- sign alone: `lt` is negative, `eq` zero and `gt` positive.
pub mod Order
use my_leveldb.Common.{
  ℕ, zero, suc, ◌+◌, ◌≤◌, ◌<◌, Bool, true, false, Option, none, some, List, [], ◌∷◌, ◌++◌, Bytes,
  ltb, leb, ◌==◌, if◌then◌else◌, length, drop, get_or, ◌>>=◌, ◌>>◌, assert, ◌&&◌, not,
}
use Prim.Native.Nat.{compare, Ordering, lt, eq, gt}

-- The C library's `memcmp` on `n` bytes; no call here reads past the end of either slice.
unfoldable pub memcmp : ℕ → Bytes → Bytes → Ordering
memcmp zero a b = eq
memcmp (suc n) [] b = eq
memcmp (suc n) (x ∷ a) [] = eq
memcmp (suc n) (x ∷ a) (y ∷ b) =
    let later = memcmp n a b in elim (compare x y) [ lt ↦ lt | eq ↦ later | gt ↦ gt ]

abbrev pub is_eq : Ordering → Bool
is_eq lt = false
is_eq eq = true
is_eq gt = false

-- `operator==` and `operator!=`
unfoldable pub slice_eq : Bytes → Bytes → Bool
slice_eq a b = length a == length b && is_eq (memcmp (length a) a b)

unfoldable pub slice_ne : Bytes → Bytes → Bool
unfolding slice_eq
slice_ne a b = not (slice_eq a b)

-- `operator[]`
unfoldable pub slice_at : Bytes → ℕ → Option ℕ
slice_at a n = do assert (ltb n (length a)); some (get_or a n 0)

unfoldable pub remove_prefix : Bytes → ℕ → Option Bytes
remove_prefix a n = do assert (leb n (length a)); some (drop n a)

unfoldable pub slice_compare : Bytes → Bytes → Ordering
slice_compare a b =
    let min_len = if ltb (length a) (length b) then length a else length b in
    let r = memcmp min_len a b in
    if is_eq r
    then if ltb (length a) (length b) then lt else if ltb (length b) (length a) then gt else eq
    else r

unfoldable pub starts_with : Bytes → Bytes → Bool
starts_with a x = leb (length x) (length a) && is_eq (memcmp (length x) a x)

-- The constructor from a `const char*`: the bytes before the first NUL of those that can be read.
unfoldable pub of_c_string : Bytes → Option Bytes
of_c_string [] = none
of_c_string (zero ∷ rest) = some []
of_c_string (suc x ∷ rest) = do before ← of_c_string rest; some (suc x ∷ before)

unfoldable pub clear : Bytes → Bytes
clear a = []

unfoldable pub empty : Bytes → Bool
empty a = length a == 0
