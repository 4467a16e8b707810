-- ===== src/TestHarness/Verdict.antt =====
-- testharness.h: what a `Tester` does after the checks of one statement.
use my_leveldb.Common.{
  ℕ, zero, suc, All, ◌≢◌, Bool, true, false, ◌&&◌, Option, none, some, List, [], ◌∷◌, ◌++◌, Bytes,
  if◌then◌else◌, ◌≡◌, refl, sym, ◌∙◌, subst, arith, not, append-nil, append_assoc,
}
use mathlib.Core.Option.{some-injective, none-ne-some}
use my_leveldb.Logging.{print_decimal}
use my_leveldb.Status as Status
use my_leveldb.Status.{text}
use my_leveldb.TestHarness.{Ended, returned, exited}
use my_leveldb.TestHarness.Tester.{
  c_str, Tester, new_tester, failed, is, is_ok, binary_op, put, destroy_tester,
}

-- A call on a `Tester`: each comparison with its operator's text and the printed operands, and a
-- printed value.
pub data Call : Type 1 where
  is_call : Bool → Bytes → Call
  is_ok_call : Status.Status → Call
  compare_call : {X Y : Type 0} → (X → Bytes) → (Y → Bytes) → Bytes → (X → Y → Bool) → X → Y → Call
  put_call : {V : Type 0} → (V → Bytes) → V → Call

abbrev pub make_call : Call → Tester → Option Tester
make_call (is_call b msg) t = some (is b msg t)
make_call (is_ok_call s) t = is_ok s t
make_call (compare_call px py op_text op x y) t = some (binary_op px py op_text op x y t)
make_call (put_call p v) t = some (put p v t)

abbrev pub make_calls : List Call → Tester → Option Tester
make_calls [] t = some t
make_calls (c ∷ cs) t = elim (make_call c t) [ none ↦ none | some u ↦ make_calls cs u ]

-- Whether the call's condition holds; it does for a printed value.
abbrev pub holds : Call → Bool
holds (is_call b msg) = b
holds (is_ok_call s) = Status.is_ok s
holds (compare_call px py op_text op x y) = op x y
holds (put_call p v) = true

abbrev pub all_hold : List Call → Bool
all_hold [] = true
all_hold (c ∷ cs) = holds c && all_hold cs

-- What a call writes when its condition does not hold, or, for a printed value, when one before did
-- not.
abbrev or_nothing : Option Bytes → Bytes
or_nothing none = []
or_nothing (some message) = message

abbrev pub call_text : Call → Bytes
call_text (is_call b msg) = text " assertion failure " ++ msg
call_text (is_ok_call s) = b' ' ∷ or_nothing (Status.status_to_string s)
call_text (compare_call px py op_text op x y) = text " failed: " ++ px x ++ op_text ++ py y
call_text (put_call p v) = b' ' ∷ p v

abbrev pub writes : (ok : Bool) → Call → Bool
writes ok (is_call b msg) = not b
writes ok (is_ok_call s) = not (Status.is_ok s)
writes ok (compare_call px py op_text op x y) = not (op x y)
writes ok (put_call p v) = not ok

abbrev pub written : (ok : Bool) → Call → Bytes
written ok c = if writes ok c then call_text c else []

-- The texts of the calls that write, where `ok` tells if all conditions before held.
abbrev pub collected : (ok : Bool) → List Call → Bytes
collected ok [] = []
collected ok (c ∷ cs) = written ok c ++ collected (ok && holds c) cs

-- What `%s` prints of `ss`: its bytes up to a NUL or, without one, all of them.
abbrev EndsHere : Bytes → Type 0
EndsHere [] = Unit {0}
EndsHere (x ∷ rest) = x ≡ 0

abbrev pub IsPrinted : (shown ss : Bytes) → Type 0
IsPrinted shown ss = All (λ b. b ≢ 0) shown × (rest : Bytes) × (ss ≡ shown ++ rest) × EndsHere rest

c_str-IsPrinted : (ss : Bytes) → IsPrinted (c_str ss) ss
c_str-IsPrinted [] = (tt, [], refl, tt)
c_str-IsPrinted (zero ∷ rest) = (tt, zero ∷ rest, refl, refl)
c_str-IsPrinted (suc x ∷ rest) =
    let more = c_str-IsPrinted rest in
    ((λ e. ground (arith, e), more.0), more.1, (λ i. suc x ∷ more.2 i), more.3)

-- `u` comes from `t` by calls whose condition is `b` and that write `added`.
abbrev After : Bool → Bytes → Tester → Tester → Type 0
After b added t u =
    (u.ok ≡ (t.ok && b)) × (u.fname ≡ t.fname) × (u.line ≡ t.line) × (u.ss ≡ t.ss ++ added)

put-After :
    (t : Tester) (x : Bytes)
    → After true (if not t.ok then x else []) t (if t.ok then t else record t { ss = t.ss ++ x })
put-After t x = by_ok t.ok refl
  where
    by_ok :
        (b : Bool)
        → t.ok ≡ b
        → After true (if not b then x else []) t (if b then t else record t { ss = t.ss ++ x })
    by_ok true e = (ground arith, refl, refl, sym (append-nil t.ss))
    by_ok false e = (ground arith, refl, refl, refl)

failed-After :
    (b : Bool) (x : Bytes) (t : Tester)
    → After b (if not b then x else []) t (if b then t else failed x t)
failed-After true x t = (ground arith, refl, refl, sym (append-nil t.ss))
failed-After false x t = (ground arith, refl, refl, refl)

make_call-After :
    (c : Call) (t u : Tester) → make_call c t ≡ some u → After (holds c) (written t.ok c) t u
unfolding is is_ok binary_op put Status.is_ok
make_call-After (is_call b msg) t u e =
    subst (After b (written t.ok (is_call b msg)) t) (some-injective _ _ e)
      (failed-After b (text " assertion failure " ++ msg) t)
make_call-After (is_ok_call none) t u e =
    subst (After true [] t) (some-injective _ _ e) (failed-After true [] t)
make_call-After (is_ok_call (some state)) t u e = told (Status.status_to_string (some state)) e
  where
    told :
        (o : Option Bytes)
        → elim o as (λ _. Option Tester) [
          | none ↦ none
          | some message ↦ some (failed (b' ' ∷ message) t)
        ]
          ≡ some u
        → After false (b' ' ∷ or_nothing o) t u
    told none h = absurd (none-ne-some _ h)
    told (some message) h =
        subst (After false (b' ' ∷ message) t) (some-injective _ _ h)
          (failed-After false (b' ' ∷ message) t)
make_call-After (compare_call px py op_text op x y) t u e =
    subst (After (op x y) (written t.ok (compare_call px py op_text op x y)) t)
      (some-injective _ _ e) (failed-After (op x y) (text " failed: " ++ px x ++ op_text ++ py y) t)
make_call-After (put_call p v) t u e =
    subst (After true (written t.ok (put_call p v)) t) (some-injective _ _ e)
      (put-After t (b' ' ∷ p v))

make_calls-After :
    (cs : List Call) (t u : Tester)
    → make_calls cs t ≡ some u
    → After (all_hold cs) (collected t.ok cs) t u
make_calls-After [] t u e = subst (After true [] t) (some-injective _ _ e) (failed-After true [] t)
make_calls-After (c ∷ cs) t u e = later (make_call c t) refl e (make_calls-After cs)
  where
    later :
        (o : Option Tester)
        → make_call c t ≡ o
        → elim o as (λ _. Option Tester) [ none ↦ none | some v ↦ make_calls cs v ] ≡ some u
        → ((v w : Tester) → make_calls cs v ≡ some w → After (all_hold cs) (collected v.ok cs) v w)
        → After (holds c && all_hold cs) (collected t.ok (c ∷ cs)) t u
    later none h e rest = absurd (none-ne-some _ e)
    later (some v) h e rest =
        let first = make_call-After c t v h in
        let second = rest v u e in
        (
          ground arith,
          second.1 ∙ first.1,
          second.2 ∙ first.2,
          second.3
              ∙ (λ i. first.3 i ++ collected (first.0 i) cs)
              ∙ append_assoc t.ss (written t.ok c) (collected (t.ok && holds c) cs),
        )

module _ {S : Type 0} (print_error : Bytes → S → S) where
  -- How the destructor ends, by the members it reads.
  abbrev ended : (text : Bytes) → S → Bool → Bytes → ℕ → Option (Ended (Unit {0}) × S)
  ended ss s ok file line =
      if ok
      then some (returned tt, s)
      else some (
        exited 1,
        print_error (file ++ (b':' ∷ print_decimal line) ++ (b':' ∷ c_str ss) ++ (10 ∷ [])) s,
      )

  if_at :
      {R : Type 0} (b : Bool) (m k : S → R) (s : S)
      → (if b then m else k) s ≡ (if b then m s else k s)
  if_at true m k s = refl
  if_at false m k s = refl

  -- One statement creates a `Tester` for a file and a line, makes the calls `cs` of its members on it,
  -- none of which fails an assertion of its own, and destroys it. If every condition holds, the
  -- destructor does nothing. Otherwise it exits with 1, whatever the later calls are, and prints the
  -- file, the line and, as far as the first NUL byte of it, the text of every check that does not hold
  -- and of every value printed behind the first of them.
  pub destroy_tester-make_calls :
      (file : Bytes) (line : ℕ) (cs : List Call) (u : Tester) (s : S)
      → make_calls cs (new_tester file line) ≡ some u
      → (shown : Bytes) × IsPrinted shown (collected true cs)
        × (destroy_tester print_error u s ≡ (
            if all_hold cs
            then some (returned tt, s)
            else some (
              exited 1,
              print_error (file ++ (b':' ∷ print_decimal line) ++ (b':' ∷ shown) ++ (10 ∷ [])) s,
            )))
  unfolding destroy_tester new_tester
  destroy_tester-make_calls file line cs u s e =
      let after = make_calls-After cs (new_tester file line) u e in
      (
        c_str (collected true cs),
        c_str-IsPrinted (collected true cs),
        if_at u.ok (λ t. ended u.ss t true u.fname u.line) (λ t. ended u.ss t false u.fname u.line)
              s
            ∙ (λ i. ended (after.3 i) s (after.0 i) (after.1 i) (after.2 i)),
      )
