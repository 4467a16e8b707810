-- ===== src/Comparator/Successor.antt =====
-- `BytewiseComparatorImpl::findShortSuccessor`.
use my_leveldb.Common.{
  ◌+◌, ◌≤◌, Bool, true, false, some, [], ◌∷◌, ◌++◌, Bytes, ◌==◌, if◌then◌else◌, length, ◌≡◌, refl,
  arith, ◌∙◌, ap, sym, All, append-nil, append_assoc, IsByte,
}
use my_leveldb.Slice.{slice_compare}
use my_leveldb.Slice.Order.{lex_compare, slice_compare-lex_compare}
use my_leveldb.Comparator.{successor_loop, bytewise_find_short_successor}
use Prim.Native.Nat.{lt, eq}

-- The string up to its first byte other than 0xff, with that byte incremented; all of it if there is
-- no such byte.
unfoldable pub successor : Bytes → Bytes
successor [] = []
successor (byte ∷ key) =
    let rest = byte ∷ successor key in if byte == 0xff then rest else (byte + 1) ∷ []

successor_loop-successor :
    (passed key : Bytes) → successor_loop passed key ≡ passed ++ successor key
unfolding successor_loop successor
successor_loop-successor passed [] = sym (append-nil passed)
successor_loop-successor passed (byte ∷ key) = ground (
  arith,
  successor_loop-successor (passed ++ (byte ∷ [])) key,
  append_assoc passed (byte ∷ []) (successor key),
)

pub bytewise_find_short_successor-successor :
    (key : Bytes) → bytewise_find_short_successor key ≡ some (successor key)
unfolding bytewise_find_short_successor
bytewise_find_short_successor-successor key = ap some (successor_loop-successor [] key)

-- Some byte is not 0xff.
unfoldable pub has_room : Bytes → Bool
has_room [] = false
has_room (byte ∷ key) = let rest = has_room key in if byte == 0xff then rest else true

lex_compare-successor :
    (key : Bytes) → lex_compare key (successor key) ≡ (if has_room key then lt else eq)
unfolding lex_compare successor has_room
lex_compare-successor [] = refl
lex_compare-successor (byte ∷ key) = ground (arith, lex_compare-successor key)

length-successor : (key : Bytes) → length (successor key) ≤ length key
unfolding successor
length-successor [] = omega arith
length-successor (byte ∷ key) = ground (arith, length-successor key)

successor-IsByte : (key : Bytes) → All IsByte key → All IsByte (successor key)
unfolding successor
successor-IsByte [] h = tt
successor-IsByte (byte ∷ key) h = ground (arith, successor-IsByte key h.1)

-- `findShortSuccessor` leaves a string of bytes that is no longer than the key. It is above the key
-- if some byte of the key is not 0xff, and else it is the key.
pub bytewise_find_short_successor_order :
    (key : Bytes)
    → All IsByte key
    → (result : Bytes) × (bytewise_find_short_successor key ≡ some result)
      × (slice_compare key result ≡ (if has_room key then lt else eq))
      × (length result ≤ length key)
      × All IsByte result
bytewise_find_short_successor_order key bytes = (
  successor key,
  bytewise_find_short_successor-successor key,
  slice_compare-lex_compare key (successor key) ∙ lex_compare-successor key,
  length-successor key,
  successor-IsByte key bytes,
)
