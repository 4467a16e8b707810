-- ===== src/Examples/TextRuns.antt =====
-- slice.h, comparator.cpp, logging.cc, random.h and status.cpp on concrete inputs.
use my_leveldb.Common.{
  ℕ, ◌+◌, ◌*◌, ◌%◌, ◌^◌, ◌≤◌, ◌<◌, true, false, some, [], ◌∷◌, ◌++◌, Bytes, ltb, ◌==◌,
  if◌then◌else◌, length, replicate, ◌≡◌, ◌≢◌, ◌↔◌, refl, arith,
}
use my_leveldb.Slice.{memcmp, slice_compare}
use my_leveldb.Comparator.{resize, set, bytewise_find_shortest_separator}
use my_leveldb.Comparator.Separator.{
  first_diff, common_length, bytewise_find_shortest_separator_order,
}
use my_leveldb.Logging.{number_to_string, consume_decimal_number}
use my_leveldb.Logging.Decimal.{
  value_from, decimal_value, digit_count, consume_decimal_number-number_to_string,
}
use my_leveldb.Random.{next, modulus, multiplier}
use my_leveldb.Random.Range.{next_lehmer_iff}
use my_leveldb.Status.{
  Status, new_status, has_code, is_ok, copy_status, code_text, status_to_string,
}
use my_leveldb.Status.Message.{joined, new_status_reads}
use Prim.Native.Nat.{lt, gt}
use my_leveldb.WinLogger.{logv, ends_line}
use my_leveldb.WinLogger.Line.{logv_line}

abbrev ab : Bytes
ab = b'a' ∷ b'b' ∷ []

abbrev ad : Bytes
ad = b'a' ∷ b'd' ∷ []

abbrev padded : Bytes
padded = b'a' ∷ b'c' ∷ replicate 97 0

find_shortest_separator_of_ab : bytewise_find_shortest_separator ab ad ≡ some padded
unfolding bytewise_find_shortest_separator slice_compare memcmp resize set
find_shortest_separator_of_ab = refl

padded_ne_ab : padded ≢ ab
padded_ne_ab h = cc

bytewise_find_shortest_separator_order_example :
    (slice_compare padded ad ≡ lt)
    × (slice_compare ab padded ≡ (if ltb (first_diff ab ad) (common_length ab ad) then gt else lt))
    × (length padded ≡ first_diff ab ad + 1)
bytewise_find_shortest_separator_order_example =
    bytewise_find_shortest_separator_order ab ad padded find_shortest_separator_of_ab padded_ne_ab

abbrev two_bytes : Bytes
two_bytes = 7 ∷ 200 ∷ []

abbrev fifteen : Bytes
fifteen = b'1' ∷ b'5' ∷ b'x' ∷ []

fifteen_fits : decimal_value fifteen < 2 ^ 64
unfolding decimal_value value_from
fifteen_fits = omega arith

ab_no_digit : digit_count ab ≡ 0
unfolding digit_count
ab_no_digit = refl

consume_decimal_number-number_to_string_example :
    consume_decimal_number (number_to_string 65535 ++ ab)
    ≡ record { input = ab; val = some 65535; answer = true }
consume_decimal_number-number_to_string_example =
    consume_decimal_number-number_to_string 65535 ab (omega arith) ab_no_digit

next_lehmer_iff_example :
    (next 301 % modulus ≡ 301 * multiplier % modulus) ↔ (301 * multiplier < 2 ^ 32)
next_lehmer_iff_example = next_lehmer_iff 301 (omega arith)

joined_fits : length (joined ab ad) + 5 < 2 ^ 32
unfolding joined
joined_fits = omega arith

new_status_reads_example :
    (s : Status) × (new_status 2 ab ad ≡ some s)
    × (has_code 1 s ≡ some (2 == 1))
    × (is_ok s ≡ false)
    × (copy_status s ≡ some s)
    × (status_to_string s ≡ some (code_text 2 ++ joined ab ad))
new_status_reads_example = new_status_reads 2 1 ab ad (omega arith) (omega arith) joined_fits

logv_line_example :
    (logv (b'0' ∷ b' ' ∷ []) (b'1' ∷ b' ' ∷ []) (b'a' ∷ [])
      ≡ some (b'0' ∷ b' ' ∷ b'a' ∷ b'\n' ∷ []))
    × (ends_line (b'0' ∷ b' ' ∷ b'a' ∷ b'\n' ∷ []) ≡ true)
    × (length {A = ℕ} (b'0' ∷ b' ' ∷ b'a' ∷ b'\n' ∷ []) ≤ 30000)
logv_line_example =
    logv_line (b'0' ∷ b' ' ∷ []) (b'1' ∷ b' ' ∷ []) (b'a' ∷ []) (omega arith) (omega arith)
