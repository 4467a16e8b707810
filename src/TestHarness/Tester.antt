-- ===== src/TestHarness/Tester.antt =====
-- testharness.h: `Tester`, which the macros `ASSERT_TRUE` to `ASSERT_LT` create for one statement, and
-- `tmpDir` of testharness.cpp, which uses it. What `operator<<` of a stream makes of a value is a
-- parameter, as are the operators of the compared types.
use my_leveldb.Common.{
  ℕ, zero, suc, Bool, true, false, Option, none, some, [], ◌∷◌, ◌++◌, Bytes, if◌then◌else◌,
}
use my_leveldb.Status as Status
use my_leveldb.Status.{text}
use my_leveldb.Logging.{print_decimal}
use my_leveldb.Env.{Env}
use my_leveldb.TestHarness.{Run, ◌>>◌, give, say, exit}

pub record Tester : Type 0 where
  pub ok : Bool
  pub fname : Bytes
  pub line : ℕ
  pub ss : Bytes

unfoldable pub new_tester : Bytes → ℕ → Tester
new_tester f l = record { ok = true; fname = f; line = l; ss = [] }

-- A failed check: its text goes to `ss_`, and `ok_` is reset.
abbrev pub failed : Bytes → Tester → Tester
failed message t = record t { ok = false; ss = t.ss ++ message }

unfoldable pub is : Bool → Bytes → Tester → Tester
is b msg t = if b then t else failed (text " assertion failure " ++ msg) t

-- `none` if `toString` leaves the array of the status.
unfoldable pub is_ok : Status.Status → Tester → Option Tester
unfolding Status.is_ok Status.status_to_string
is_ok s t = if Status.is_ok s then some t else elim (Status.status_to_string s) [
  | none ↦ none
  | some message ↦ some (failed (b' ' ∷ message) t)
]

-- `BINARY_OP(name, op)`: `op_text` is `" " #op " "`.
module _ {X Y : Type 0} (print_x : X → Bytes) (print_y : Y → Bytes) where
  unfoldable pub binary_op : (op_text : Bytes) → (op : X → Y → Bool) → X → Y → Tester → Tester
  binary_op op_text op x y t =
      if op x y then t else failed (text " failed: " ++ print_x x ++ op_text ++ print_y y) t

  unfoldable pub is_eq : (op : X → Y → Bool) → X → Y → Tester → Tester
  is_eq = binary_op (text " == ")

  unfoldable pub is_ne : (op : X → Y → Bool) → X → Y → Tester → Tester
  is_ne = binary_op (text " != ")

  unfoldable pub is_ge : (op : X → Y → Bool) → X → Y → Tester → Tester
  is_ge = binary_op (text " >= ")

  unfoldable pub is_gt : (op : X → Y → Bool) → X → Y → Tester → Tester
  is_gt = binary_op (text " > ")

  unfoldable pub is_le : (op : X → Y → Bool) → X → Y → Tester → Tester
  is_le = binary_op (text " <= ")

  unfoldable pub is_lt : (op : X → Y → Bool) → X → Y → Tester → Tester
  is_lt = binary_op (text " < ")

-- `operator<<`
unfoldable pub put : {V : Type 0} → (print_value : V → Bytes) → V → Tester → Tester
put print_value value t = if t.ok then t else record t { ss = t.ss ++ (b' ' ∷ print_value value) }

-- What `%s` prints of `str().c_str()`: the bytes before the first NUL.
abbrev pub c_str : Bytes → Bytes
c_str [] = []
c_str (zero ∷ rest) = []
c_str (suc x ∷ rest) = suc x ∷ c_str rest

module _ {S : Type 0} (print_error : Bytes → S → S) where
  -- `~Tester`
  unfoldable pub destroy_tester : Tester → Run S (Unit {0})
  destroy_tester t = if t.ok then give tt else do
    say print_error (t.fname ++ (b':' ∷ print_decimal t.line) ++ (b':' ∷ c_str t.ss) ++ (10 ∷ []))
    exit 1

  -- `tmpDir`, from the file `file` at line `line`.
  unfoldable pub tmp_dir : (file : Bytes) → (line : ℕ) → Env S → Run S Bytes
  unfolding destroy_tester is put new_tester Status.is_ok Status.status_to_string
  tmp_dir file line env world = elim (env.get_test_directory world) [
    | none ↦ none
    | some ((s, dir), t) ↦ elim (Status.status_to_string s) [
      | none ↦ none
      | some message ↦
          let check = is (Status.is_ok s) (text "s.ok()") (new_tester file line) in
          let shown = put (λ m. m) message (put (λ m. m) (b' ' ∷ []) check) in
          (destroy_tester shown >> give dir) t
    ]
  ]
