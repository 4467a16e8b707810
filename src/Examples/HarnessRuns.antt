-- ===== src/Examples/HarnessRuns.antt =====
-- testharness.h and testharness.cpp on concrete inputs. The world is what was printed.
use my_leveldb.Common.{◌≡◌, refl, false, Option, none, some, List, [], ◌∷◌, ◌++◌, Bytes, length}
use my_leveldb.Logging.{print_decimal}
use my_leveldb.Status.{text}
use my_leveldb.TestHarness.{Test, ◌>>◌, give, exit, exited, run_all_tests, say_passed}
use my_leveldb.TestHarness.Selection.{Asked, Chosen, run_each, register_all, run_all_tests-Chosen}
use my_leveldb.TestHarness.Tester.{Tester, new_tester, is, put, destroy_tester}
use my_leveldb.TestHarness.Verdict.{
  Call, is_call, put_call, make_calls, IsPrinted, destroy_tester-make_calls,
}

abbrev print_line : Bytes → List Bytes → List Bytes
print_line line world = line ∷ world

-- The tests Foo.Hello and Foo.World, of which the second one exits.
abbrev two_tests : List (Test (List Bytes))
two_tests =
    (record { base = text "Foo"; name = text "Hello"; func = give tt })
    ∷ (record { base = text "Foo"; name = text "World"; func = exit 1 })
    ∷ []

abbrev only_hello : Bytes → Option Bytes
only_hello name = some (text "Hello")

run_all_tests-Chosen_example :
    (run : List (Test (List Bytes))) × Chosen (Asked (some (text "Hello"))) two_tests run
    × (run_all_tests print_line only_hello (register_all two_tests none) []
        ≡ (run_each print_line run >> say_passed print_line (length run) >> give 0) [])
run_all_tests-Chosen_example = run_all_tests-Chosen print_line only_hello two_tests []

-- A value that holds a NUL byte.
abbrev with_nul : Bytes
with_nul = b'k' ∷ 0 ∷ b'v' ∷ []

-- `ASSERT_TRUE(done) << with_nul`, where the condition is false.
abbrev not_done : List Call
not_done = is_call false (text "done") ∷ put_call (λ m. m) with_nul ∷ []

abbrev failed_tester : Tester
failed_tester = record {
  ok = false;
  fname = text "a.cpp";
  line = 7;
  ss = text " assertion failure done k" ++ (0 ∷ b'v' ∷ []);
}

not_done_fails : make_calls not_done (new_tester (text "a.cpp") 7) ≡ some failed_tester
unfolding new_tester is put
not_done_fails = refl

destroy_tester-make_calls_example :
    (shown : Bytes) × IsPrinted shown (text " assertion failure done k" ++ (0 ∷ b'v' ∷ []))
    × (destroy_tester print_line failed_tester []
        ≡ some (
          exited 1,
          (text "a.cpp" ++ (b':' ∷ print_decimal 7) ++ (b':' ∷ shown) ++ (10 ∷ [])) ∷ [],
        ))
destroy_tester-make_calls_example =
    destroy_tester-make_calls print_line (text "a.cpp") 7 not_done failed_tester [] not_done_fails
