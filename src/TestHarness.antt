-- ===== src/TestHarness.antt =====
-- testharness.h and testharness.cpp: the registry of tests and the function that runs them. The state
-- `S` of the world is a parameter, with the calls of the C library on it: what writes to `stderr`,
-- `getenv`, and `atoi`. A string that a pointer denotes is its bytes before the NUL. A test may end
-- the process by `exit`; as the result of an action `none` is a failed `assert`, as elsewhere. The
-- tests are registered before the first of them runs, and fewer than 2 ^ 31 are.
pub mod Tester
pub mod Selection
pub mod Verdict
use my_leveldb.Common.{
  ℕ, zero, suc, ◌+◌, Bool, true, false, ◌||◌, ◌&&◌, not, Option, none, some, List, [], ◌∷◌, ◌++◌,
  Bytes, ◌==◌, if◌then◌else◌,
}
use my_leveldb.Common.Act.{Act}
use my_leveldb.Status.{text}
use my_leveldb.Logging.{print_decimal}

-- How a call ends: it returns, or it ends the process with a code.
pub data Ended (A : Type 0) : Type 0 where
  returned : A → Ended A
  exited : ℕ → Ended A

abbrev pub Run : Type 0 → Type 0 → Type 0
Run S A = Act S (Ended A)

-- What follows a call that has ended: more if it has returned.
abbrev pub and_then : {S A B : Type 0} → Option (Ended A × S) → (A → Run S B) → Option (Ended B × S)
and_then none f = none
and_then (some (returned a, t)) f = f a t
and_then (some (exited code, t)) f = some (exited code, t)

infixl 5 ◌>>=◌ ◌>>◌
abbrev pub ◌>>=◌ : {S A B : Type 0} → Run S A → (A → Run S B) → Run S B
◌>>=◌ m f s = and_then (m s) f

abbrev pub ◌>>◌ : {S B : Type 0} → Run S (Unit {0}) → Run S B → Run S B
m >> k = m >>= λ _. k

abbrev pub give : {S A : Type 0} → A → Run S A
give a s = some (returned a, s)

-- `fprintf(stderr, ...)` of a formatted text.
abbrev pub say : {S : Type 0} → (Bytes → S → S) → Bytes → Run S (Unit {0})
say print_error message s = some (returned tt, print_error message s)

abbrev pub exit : {S A : Type 0} → ℕ → Run S A
exit code s = some (exited code, s)

-- `strncmp(text, needle, strlen(needle)) == 0`, and whether `strstr(text, needle)` is not NULL.
unfoldable pub begins_with : (text needle : Bytes) → Bool
begins_with text [] = true
begins_with [] (y ∷ needle) = false
begins_with (x ∷ text) (y ∷ needle) = (x == y) && begins_with text needle

unfoldable pub strstr : (text needle : Bytes) → Bool
unfolding begins_with
strstr [] needle = begins_with [] needle
strstr (x ∷ text) needle = begins_with (x ∷ text) needle || strstr text needle

pub record Test (S : Type 0) : Type 0 where
  pub base : Bytes
  pub name : Bytes
  pub func : Run S (Unit {0})

module _ {S : Type 0} where
  -- `tests` is NULL until the first test is registered.
  unfoldable pub register_test :
      Bytes → Bytes → Run S (Unit {0}) → Option (List (Test S)) → Bool × Option (List (Test S))
  register_test base name func tests =
      let vector : List (Test S) = elim tests [ none ↦ [] | some ts ↦ ts ] in
      (true, some (vector ++ (record { base = base; name = name; func = func }) ∷ []))

  -- `_Test_name::_runIt` of the macro `TEST`: the constructor of the base class, the body of the test
  -- and the destructor, which `exit` skips.
  unfoldable pub run_it : (construct body destruct : Run S (Unit {0})) → Run S (Unit {0})
  run_it construct body destruct = construct >> body >> destruct

  -- `name.push_back('.')` and the append.
  unfoldable pub full_name : Test S → Bytes
  full_name t = (t.base ++ b'.' ∷ []) ++ t.name

  -- The test that the loop makes when `matcher` is not NULL: false skips `t`.
  unfoldable pub selected : Option Bytes → Test S → Bool
  selected none t = true
  selected (some matcher) t = strstr (full_name t) matcher

  module _ (print_error : Bytes → S → S) where
    -- `"=== Test %s.%s\n"` and `"===PASSED %d tests\n"`
    abbrev pub announce : Test S → Run S (Unit {0})
    announce t = say print_error (text "=== Test " ++ t.base ++ (b'.' ∷ t.name) ++ (10 ∷ []))

    abbrev pub say_passed : ℕ → Run S (Unit {0})
    say_passed num =
        say print_error (text "===PASSED " ++ print_decimal num ++ text " tests" ++ (10 ∷ []))

    -- The loop over the vector, with `num`.
    unfoldable pub run_loop : Option Bytes → List (Test S) → ℕ → Run S ℕ
    unfolding selected full_name strstr
    run_loop matcher [] num = give num
    run_loop matcher (t ∷ ts) num =
        if selected matcher t
        then announce t >> t.func >> run_loop matcher ts (num + 1)
        else run_loop matcher ts num

    unfoldable pub run_all_tests :
        (getenv : Bytes → Option Bytes) → Option (List (Test S)) → Run S ℕ
    unfolding run_loop
    run_all_tests getenv tests = do
      let matcher = getenv (text "LEVELDB_TESTS")
      num ← elim tests [ none ↦ give 0 | some ts ↦ run_loop matcher ts 0 ]
      say_passed num
      give 0

-- An `int`.
pub data ℤ : Type 0 where
  pos : ℕ → ℤ
  negsuc : ℕ → ℤ

-- `result <= 0`
abbrev pub at_most_zero : ℤ → Bool
at_most_zero (pos n) = n == 0
at_most_zero (negsuc n) = true

unfoldable pub random_seed : (getenv : Bytes → Option Bytes) → (atoi : Bytes → ℤ) → ℤ
random_seed getenv atoi =
    let result : ℤ = elim (getenv (text "TEST_RANDOM_SEED")) [
      | none ↦ pos 301
      | some env ↦ atoi env
    ] in
    if at_most_zero result then pos 301 else result
