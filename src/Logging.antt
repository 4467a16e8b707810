-- ===== src/Logging.antt =====
-- logging.h and logging.cc: numbers and escaped strings for people, and reading numbers back.
-- A function that advances `*in` returns the slice that it leaves there.
pub mod Escape
pub mod Decimal
use my_leveldb.Common.{
  ℕ, zero, suc, ◌+◌, ◌-◌, ◌*◌, ◌/◌, ◌%◌, ◌^◌, ◌<◌, Bool, true, false, Option, none, some, List, [],
  ◌∷◌, ◌++◌, Bytes, ltb, leb, ◌==◌, if◌then◌else◌, arith, ◌&&◌, ◌||◌,
}
use my_leveldb.Common.Order.{lt_wf}
use mathlib.Core.Logic.{dite}
use mathlib.Core.WellFounded.{Acc}
use native.Mathlib.Decide.{dec_lt}

tenth_shrinks : (n : ℕ) → 9 < n → n / 10 < n
tenth_shrinks n h = omega arith

-- The C library's conversion `%llu`: the decimal digits, in front of `out`.
print_loop : (n : ℕ) → Acc ◌<◌ n → Bytes → Bytes
print_loop n (Acc.intro _ smaller) out =
    dite (dec_lt 9 n)
      (λ more. print_loop (n / 10) (smaller _ (tenth_shrinks n more)) ((b'0' + n % 10) ∷ out))
      (λ _. (b'0' + n) ∷ out)

unfoldable pub print_decimal : ℕ → Bytes
unfolding print_loop tenth_shrinks lt_wf dec_lt
print_decimal n = print_loop n (lt_wf.apply n) []

unfoldable pub append_number_to : Bytes → ℕ → Bytes
append_number_to str num = str ++ print_decimal num

unfoldable pub number_to_string : ℕ → Bytes
unfolding append_number_to
number_to_string num = append_number_to [] num

-- The C library's conversion `%02x` of a byte.
abbrev pub hex_digit : ℕ → ℕ
hex_digit d = if ltb d 10 then b'0' + d else b'a' + (d - 10)

abbrev pub is_printable : ℕ → Bool
is_printable c = leb b' ' c && leb c b'~'

unfoldable pub append_escaped_string_to : Bytes → Bytes → Bytes
append_escaped_string_to str [] = str
append_escaped_string_to str (c ∷ value) =
    append_escaped_string_to
      (str
        ++ (if is_printable c
            then c ∷ []
            else b'\\' ∷ b'x' ∷ hex_digit (c / 16) ∷ hex_digit (c % 16) ∷ []))
      value

unfoldable pub escape_string : Bytes → Bytes
unfolding append_escaped_string_to
escape_string value = append_escaped_string_to [] value

unfoldable pub consume_char : Bytes → ℕ → Bytes × Bool
consume_char [] c = ([], false)
consume_char (b ∷ input) c = if b == c then (input, true) else (b ∷ input, false)

-- What `ConsumeDecimalNumber` leaves in `*in` and in `*val`, and its answer; `none` leaves `*val` as
-- it was.
pub record Consumed : Type 0 where
  pub input : Bytes
  pub val : Option ℕ
  pub answer : Bool

abbrev pub k_max_uint64 : ℕ
k_max_uint64 = 2 ^ 64 - 1

abbrev pub is_digit : ℕ → Bool
is_digit c = leb b'0' c && leb c b'9'

unfoldable pub consume_loop : Bytes → (v digits : ℕ) → Consumed
consume_loop [] v digits = record { input = []; val = some v; answer = ltb 0 digits }
consume_loop (c ∷ input) v digits =
    let delta = c - b'0' in
    let more = consume_loop input ((v * 10 + delta) % 2 ^ 64) (digits + 1) in
    if is_digit c
    then if ltb (k_max_uint64 / 10) v || (v == k_max_uint64 / 10 && ltb (k_max_uint64 % 10) delta)
      then record { input = c ∷ input; val = none; answer = false }
      else more
    else record { input = c ∷ input; val = some v; answer = ltb 0 digits }

unfoldable pub consume_decimal_number : Bytes → Consumed
unfolding consume_loop
consume_decimal_number input = consume_loop input 0 0
