-- ===== src/Comparator.antt =====
-- comparator.h and comparator.cpp: the interface of a comparator and the bytewise one. A method that
-- changes `*start` or `*key` returns the new string; `none` is a failed `assert`.
pub mod Separator
pub mod Successor
pub mod Laws
use my_leveldb.Common.{
  ℕ, zero, suc, ◌+◌, ◌-◌, ◌<◌, Bool, true, false, Option, none, some, List, [], ◌∷◌, ◌++◌, Bytes,
  ltb, ◌==◌, if◌then◌else◌, length, take, replicate, get_or, ◌>>◌, assert, ◌&&◌, ◌≡◌,
}
use my_leveldb.Slice.{slice_compare}
use Prim.Native.Nat.{Ordering, lt, eq, gt}
use Prim.Native.String.{String}

pub record Comparator : Type 0 where
  pub name : String
  pub compare : Bytes → Bytes → Option Ordering
  pub find_shortest_separator : Bytes → Bytes → Option Bytes
  pub find_short_successor : Bytes → Option Bytes

abbrev pub is_lt : Ordering → Bool
is_lt lt = true
is_lt eq = false
is_lt gt = false

-- `std::string::resize`, which pads with NUL, and a write of one byte.
unfoldable pub resize : Bytes → ℕ → Bytes
resize s n = take n s ++ replicate (n - length s) 0

unfoldable pub set : Bytes → ℕ → ℕ → Bytes
set [] i v = []
set (x ∷ s) zero v = v ∷ s
set (x ∷ s) (suc i) v = x ∷ set s i v

-- The `while` loop, on what is left of both strings.
unfoldable pub diff_index_loop : Bytes → Bytes → ℕ → ℕ
diff_index_loop [] limit diff_index = diff_index
diff_index_loop (x ∷ start) [] diff_index = diff_index
diff_index_loop (x ∷ start) (y ∷ limit) diff_index =
    let more = diff_index_loop start limit (diff_index + 1) in if x == y then more else diff_index

unfoldable pub bytewise_find_shortest_separator : Bytes → Bytes → Option Bytes
unfolding diff_index_loop
bytewise_find_shortest_separator start limit =
    let min_length = if ltb (length limit) (length start) then length limit else length start in
    let diff_index = diff_index_loop start limit 0 in
    let diff_byte = get_or start diff_index 0 in
    let start' = resize (set start diff_index (diff_byte + 1)) (diff_byte + 1) in
    if ltb diff_index min_length
    then if ltb diff_byte 0xff && ltb (diff_byte + 1) (get_or limit diff_index 0)
      then assert (is_lt (slice_compare start' limit)) >> some start'
      else some start
    else some start

-- The `for` loop: `done` are the bytes before index `i`, and the index is their number.
unfoldable pub successor_loop : Bytes → Bytes → Bytes
successor_loop passed [] = passed
successor_loop passed (byte ∷ key) =
    let more = successor_loop (passed ++ (byte ∷ [])) key in
    if byte == 0xff then more else passed ++ ((byte + 1) ∷ [])

unfoldable pub bytewise_find_short_successor : Bytes → Option Bytes
unfolding successor_loop
bytewise_find_short_successor key = some (successor_loop [] key)

unfoldable pub bytewise_comparator : Comparator
bytewise_comparator = record {
  name = "leveldb.BytewiseComparator";
  compare = λ a b. some (slice_compare a b);
  find_shortest_separator = bytewise_find_shortest_separator;
  find_short_successor = bytewise_find_short_successor;
}
