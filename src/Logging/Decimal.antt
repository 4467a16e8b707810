-- ===== src/Logging/Decimal.antt =====
-- `NumberToString` and `ConsumeDecimalNumber`.
use my_leveldb.Common.{
  ℕ, zero, suc, ◌+◌, ◌-◌, ◌*◌, ◌/◌, ◌%◌, ◌^◌, ◌≤◌, ◌<◌, true, false, none, some, [], ◌∷◌, ◌++◌,
  Bytes, ltb, if◌then◌else◌, arith, ◌≡◌, ◌∙◌, length, drop,
}
use my_leveldb.Common.Order.{lt_wf}
use my_leveldb.Logging.{
  print_loop, print_decimal, number_to_string, is_digit, consume_loop, consume_decimal_number,
  tenth_shrinks,
}
use mathlib.Core.WellFounded.{Acc}
use mathlib.Core.Logic.{dif_pos, dif_neg}
use native.Mathlib.Decide.{dec_lt}
use native.Mathlib.Nat.{zero-add, pow-suc}
use native.Mathlib.Bridge.{le_prop}
use native.Mathlib.Numerals.{add-one}

-- The number of digits at the front, and the number that they denote behind the digits of `v`.
unfoldable pub digit_count : Bytes → ℕ
digit_count [] = 0
digit_count (c ∷ p) = let rest = suc (digit_count p) in if is_digit c then rest else 0

unfoldable pub value_from : ℕ → Bytes → ℕ
value_from v [] = v
value_from v (c ∷ p) =
    let rest = value_from (v * 10 + (c - b'0')) p in if is_digit c then rest else v

unfoldable pub decimal_value : Bytes → ℕ
unfolding value_from
decimal_value p = value_from 0 p

le-value_from : (v : ℕ) (p : Bytes) → v ≤ value_from v p
unfolding value_from
le-value_from v [] = omega arith
le-value_from v (c ∷ p) = ground (arith, le-value_from (v * 10 + (c - b'0')) p)

consume_loop_fits :
    (p : Bytes) (v k : ℕ)
    → v < 2 ^ 64
    → value_from v p < 2 ^ 64
    → consume_loop p v k ≡ record {
      input = drop (digit_count p) p;
      val = some (value_from v p);
      answer = ltb 0 (k + digit_count p);
    }
unfolding consume_loop value_from digit_count
consume_loop_fits [] v k hv h = ground arith
consume_loop_fits (c ∷ p) v k hv h = ground (
  arith,
  le-value_from (v * 10 + (c - b'0')) p,
  consume_loop_fits p ((v * 10 + (c - b'0')) % 2 ^ 64) (k + 1),
)

consume_loop_overflow :
    (p : Bytes) (v k : ℕ)
    → v < 2 ^ 64
    → 2 ^ 64 ≤ value_from v p
    → ((consume_loop p v k).answer ≡ false) × ((consume_loop p v k).val ≡ none)
unfolding consume_loop value_from
consume_loop_overflow [] v k hv h = absurd (omega arith)
consume_loop_overflow (c ∷ p) v k hv h =
    ground (arith, consume_loop_overflow p ((v * 10 + (c - b'0')) % 2 ^ 64) (k + 1))

-- Where the digits at the front denote a number below 2 ^ 64, `ConsumeDecimalNumber` stores that
-- number, advances behind the digits, and answers whether there was a digit.
pub consume_decimal_number_fits :
    (p : Bytes)
    → decimal_value p < 2 ^ 64
    → consume_decimal_number p ≡ record {
      input = drop (digit_count p) p;
      val = some (decimal_value p);
      answer = ltb 0 (digit_count p);
    }
unfolding consume_decimal_number decimal_value
consume_decimal_number_fits p h = consume_loop_fits p 0 0 (omega arith) h ∙ rw zero-add

-- Where the digits at the front denote 2 ^ 64 or more, `ConsumeDecimalNumber` answers false and
-- stores nothing.
pub consume_decimal_number_overflow :
    (p : Bytes)
    → 2 ^ 64 ≤ decimal_value p
    → ((consume_decimal_number p).answer ≡ false) × ((consume_decimal_number p).val ≡ none)
unfolding consume_decimal_number decimal_value
consume_decimal_number_overflow p h = consume_loop_overflow p 0 0 (omega arith) h

consume_digit :
    (d v n k : ℕ) (out : Bytes)
    → d < 10
    → v * 10 + d ≡ n
    → n < 2 ^ 64
    → consume_loop ((b'0' + d) ∷ out) v k ≡ consume_loop out n (suc k)
unfolding consume_loop
consume_digit d v n k out hd hn fits =
    let digit : b'0' + d - b'0' ≡ d = omega arith in
    let next : (v * 10 + d) % 2 ^ 64 ≡ n = omega arith in rw (digit, next, add-one) (ground arith)

-- After the digits of `n` the loop stands at `out` with the value `n`.
consume_loop-print_loop :
    (n : ℕ) (w : Acc ◌<◌ n) (out : Bytes)
    → n < 2 ^ 64
    → (k : ℕ) × (consume_loop (print_loop n w out) 0 0 ≡ consume_loop out n (suc k))
unfolding print_loop
consume_loop-print_loop n (Acc.intro _ smaller) out h = elim (dec_lt 9 n) [
  | yes more ↦
      let (k, e) =
        consume_loop-print_loop (n / 10) (smaller (n / 10) (tenth_shrinks n more))
          ((b'0' + n % 10) ∷ out) (omega arith) in
      (
        suc k,
        rw (dif_pos _ le_prop more)
            (e ∙ consume_digit (n % 10) (n / 10) n (suc k) out (omega arith) (omega arith) h),
      )
  | no single ↦ (0, rw (dif_neg _ single) (consume_digit n 0 n 0 out (omega arith) (omega arith) h))
]

print_loop-append :
    (n : ℕ) (w : Acc ◌<◌ n) (out rest : Bytes)
    → print_loop n w out ++ rest ≡ print_loop n w (out ++ rest)
unfolding print_loop
print_loop-append n (Acc.intro _ smaller) out rest = elim (dec_lt 9 n) [
  | yes more ↦
      rw (dif_pos _ le_prop more, dif_pos _ le_prop more)
        (print_loop-append (n / 10) (smaller (n / 10) (tenth_shrinks n more))
          ((b'0' + n % 10) ∷ out) rest)
  | no single ↦ rw (dif_neg _ single, dif_neg _ single)
]

consume_loop_stop :
    (rest : Bytes) (v k : ℕ)
    → digit_count rest ≡ 0
    → consume_loop rest v (suc k) ≡ record { input = rest; val = some v; answer = true }
unfolding consume_loop digit_count
consume_loop_stop [] v k h = ground arith
consume_loop_stop (c ∷ rest) v k h = ground arith

-- Any 64-bit number that `NumberToString` prints is read back by `ConsumeDecimalNumber`, which
-- advances to what follows if that does not begin with a digit.
pub consume_decimal_number-number_to_string :
    (n : ℕ) (rest : Bytes)
    → n < 2 ^ 64
    → digit_count rest ≡ 0
    → consume_decimal_number (number_to_string n ++ rest)
      ≡ record { input = rest; val = some n; answer = true }
unfolding consume_decimal_number number_to_string print_decimal
consume_decimal_number-number_to_string n rest h stop =
    let (k, read) = consume_loop-print_loop n (lt_wf.apply n) rest h in
    rw (print_loop-append n (lt_wf.apply n) [] rest) (read ∙ consume_loop_stop rest n k stop)

length-print_loop :
    (k n : ℕ) (w : Acc ◌<◌ n) (out : Bytes)
    → n < 10 ^ suc k
    → length (print_loop n w out) ≤ suc k + length out
unfolding print_loop
length-print_loop zero n (Acc.intro _ smaller) out h = ground arith
length-print_loop (suc k) n (Acc.intro _ smaller) out h = elim (dec_lt 9 n) [
  | yes more ↦ rw (dif_pos _ le_prop more) (
      omega (
        arith,
        length-print_loop k (n / 10) (smaller (n / 10) (tenth_shrinks n more))
            ((b'0' + n % 10) ∷ out) (omega (arith, pow-suc 10 (suc k))),
      ))
  | no single ↦ rw (dif_neg _ single) (omega arith)
]

-- `AppendNumberTo` prints at most 20 digits: `snprintf` never cuts them off at its buffer of 30.
pub length-number_to_string : (n : ℕ) → n < 2 ^ 64 → length (number_to_string n) ≤ 20
unfolding number_to_string print_decimal
length-number_to_string n h = length-print_loop 19 n (lt_wf.apply n) [] (omega arith)
