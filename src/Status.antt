-- ===== src/Status.antt =====
-- status.h and status.cpp: the result of an operation. `state_` is NULL (`none`) or the array that
-- the header describes: four bytes with the length of the message, one byte with the code, the
-- message. A second `none` around it is a failed `assert` or a read outside the array.
pub mod Message
use my_leveldb.Common.{
  ℕ, zero, suc, ◌+◌, ◌-◌, ◌%◌, ◌^◌, Bool, true, false, Option, none, some, List, [], ◌∷◌, ◌++◌,
  Bytes, ltb, leb, ◌==◌, if◌then◌else◌, length, take, drop, ◌>>=◌, ◌>>◌, assert, not,
}
use my_leveldb.Coding.{bytes_of_word, word_of_bytes}
use my_leveldb.Logging.{print_decimal}
use Prim.Native.Char.{code}
use Prim.Native.String
use Prim.Native.String.{String}

-- The bytes of an ASCII text.
abbrev pub text : String → Bytes
text String.[] = []
text (String.◌∷◌ c s) = code c ∷ text s

abbrev pub k_ok : ℕ
k_ok = 0

abbrev pub k_not_found : ℕ
k_not_found = 1

abbrev pub k_corruption : ℕ
k_corruption = 2

abbrev pub k_not_supported : ℕ
k_not_supported = 3

abbrev pub k_invalid_argument : ℕ
k_invalid_argument = 4

abbrev pub k_io_error : ℕ
k_io_error = 5

abbrev pub Status : Type 0
Status = Option Bytes

-- `Status::OK`
abbrev pub ok_status : Status
ok_status = none

-- The private constructor. The lengths are converted to `uint32_t` and so is their sum.
unfoldable pub new_status : ℕ → Bytes → Bytes → Option Status
new_status c msg msg2 =
    let len1 = length msg % 2 ^ 32 in
    let len2 = length msg2 % 2 ^ 32 in
    let size = (len1 + (if len2 == 0 then 0 else len2 + 2)) % 2 ^ 32 in
    do
      assert (not (c == k_ok))
      some (
          some (
            bytes_of_word 4 size
            ++ (c % 256) ∷ take len1 msg
            ++ (if len2 == 0 then [] else b':' ∷ b' ' ∷ take len2 msg2)))

unfoldable pub not_found : Bytes → Bytes → Option Status
not_found = new_status k_not_found

unfoldable pub corruption : Bytes → Bytes → Option Status
corruption = new_status k_corruption

unfoldable pub not_supported : Bytes → Bytes → Option Status
not_supported = new_status k_not_supported

unfoldable pub invalid_argument : Bytes → Bytes → Option Status
invalid_argument = new_status k_invalid_argument

unfoldable pub io_error : Bytes → Bytes → Option Status
io_error = new_status k_io_error

unfoldable pub is_ok : Status → Bool
is_ok none = true
is_ok (some state) = false

-- A `char`, which is signed, as a number of 32 bits.
abbrev pub extend_char : ℕ → ℕ
extend_char c = if ltb c 128 then c else c + (2 ^ 32 - 256)

-- `static_cast<Code>(state_[4])`: the code as a number of 32 bits.
unfoldable pub status_code : Status → Option ℕ
status_code none = some k_ok
status_code (some (b0 ∷ b1 ∷ b2 ∷ b3 ∷ c ∷ state)) = some (extend_char c)
status_code (some state) = none

-- The tests `isNotFound` to `isIOError`, by the code that each compares with.
unfoldable pub has_code : ℕ → Status → Option Bool
unfolding status_code
has_code k s = do c ← status_code s; some (c == k)

abbrev pub is_not_found : Status → Option Bool
is_not_found = has_code k_not_found

abbrev pub is_corruption : Status → Option Bool
is_corruption = has_code k_corruption

abbrev pub is_not_supported : Status → Option Bool
is_not_supported = has_code k_not_supported

abbrev pub is_invalid_argument : Status → Option Bool
is_invalid_argument = has_code k_invalid_argument

abbrev pub is_io_error : Status → Option Bool
is_io_error = has_code k_io_error

-- `memcpy` of `n` bytes.
abbrev pub copy_bytes : ℕ → Bytes → Option Bytes
copy_bytes n p = if leb n (length p) then some (take n p) else none

unfoldable pub copy_state : Bytes → Option Bytes
copy_state state = do size ← word_of_bytes 4 state; copy_bytes ((size + 5) % 2 ^ 32) state

-- The copy constructor, and the assignment to another object than `s`.
unfoldable pub copy_status : Status → Option Status
unfolding copy_state
copy_status none = some none
copy_status (some state) = do result ← copy_state state; some (some result)

-- An `int`, as a number of 32 bits, printed by `%d`.
abbrev print_int : ℕ → Bytes
print_int c = if ltb c (2 ^ 31) then print_decimal c else b'-' ∷ print_decimal (2 ^ 32 - c)

abbrev pub code_text : ℕ → Bytes
code_text c =
    if c == k_ok
    then text "OK"
    else if c == k_not_found
    then text "NotFound: "
    else if c == k_corruption
    then text "Corruption: "
    else if c == k_not_supported
    then text "Not implemented: "
    else if c == k_invalid_argument
    then text "Invalid argument: "
    else if c == k_io_error
    then text "IO error: "
    else take 29 (text "Unknown code(" ++ print_int c ++ text "): ")

-- `Status::toString`
unfoldable pub status_to_string : Status → Option Bytes
unfolding status_code
status_to_string none = some (text "OK")
status_to_string (some state) = do
  c ← status_code (some state)
  len ← word_of_bytes 4 state
  message ← copy_bytes len (drop 5 state)
  some (code_text c ++ message)
