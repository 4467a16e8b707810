-- ===== src/TestHarness/Selection.antt =====
-- testharness.cpp: which tests `runAllTests` runs.
use my_leveldb.Common.{
  ℕ, suc, ◌+◌, Bool, true, false, ◌||◌, ◌&&◌, Option, none, some, List, [], ◌∷◌, ◌++◌, Bytes, ◌==◌,
  ==_iff, if◌then◌else◌, length, ◌≡◌, refl, sym, ap, subst, ◌∙◌, ◌⊎◌, inl, inr, arith, append_assoc,
  append-nil,
}
use my_leveldb.Status.{text}
use my_leveldb.TestHarness.{
  Test, Run, Ended, returned, exited, and_then, ◌>>=◌, ◌>>◌, give, announce, say_passed, run_loop,
  run_all_tests, selected, full_name, begins_with, strstr, register_test,
}

-- `needle` occurs in the text.
abbrev pub Occurs : (text needle : Bytes) → Type 0
Occurs text needle = (before : Bytes) × (after : Bytes) × (before ++ needle ++ after ≡ text)

-- The tests that "LEVELDB_TESTS" asks for: all if it is not set.
abbrev pub Asked : {S : Type 0} → Option Bytes → Test S → Type 0
Asked none t = Unit {0}
Asked (some matcher) t = Occurs (full_name t) matcher

-- The members of the list for which `P` holds, in their order.
pub data Chosen {A : Type 0} (P : A → Type 0) : List A → List A → Type 0 where
  none_left : Chosen P [] []
  keep : {a : A} {from to : List A} → P a → Chosen P from to → Chosen P (a ∷ from) (a ∷ to)
  skip : {a : A} {from to : List A} → ¬ (P a) → Chosen P from to → Chosen P (a ∷ from) to

abbrev selection : {S : Type 0} → Option Bytes → List (Test S) → List (Test S)
selection matcher [] = []
selection matcher (t ∷ ts) =
    let rest = selection matcher ts in if selected matcher t then t ∷ rest else rest

abbrev pub run_each : {S : Type 0} → (Bytes → S → S) → List (Test S) → Run S (Unit {0})
run_each print_error [] = give tt
run_each print_error (t ∷ ts) = announce print_error t >> t.func >> run_each print_error ts

abbrev pub register_all :
    {S : Type 0} → List (Test S) → Option (List (Test S)) → Option (List (Test S))
register_all [] tests = tests
register_all (t ∷ ts) tests = register_all ts (register_test t.base t.name t.func tests).1

and_true : (a b : Bool) → (a && b) ≡ true → (a ≡ true) × (b ≡ true)
and_true a b h = ground arith

or_true : (a b : Bool) → (a || b) ≡ true → (a ≡ true) ⊎ (b ≡ true)
or_true true b h = inl refl
or_true false b h = inr h

true-or : (a b : Bool) → a ≡ true → (a || b) ≡ true
true-or a b h = ground arith

or-true : (a b : Bool) → b ≡ true → (a || b) ≡ true
or-true a b h = ground arith

begins_with-some :
    (text needle : Bytes)
    → begins_with text needle ≡ true
    → (after : Bytes) × (needle ++ after ≡ text)
unfolding begins_with
begins_with-some text [] h = (text, refl)
begins_with-some [] (y ∷ needle) h = absurd cc
begins_with-some (x ∷ text) (y ∷ needle) h =
    let parts = and_true (x == y) (begins_with text needle) h in
    let later = begins_with-some text needle parts.1 in
    (later.0, λ i. sym ((==_iff x y).0 parts.0) i ∷ later.1 i)

begins_with-append : (needle after : Bytes) → begins_with (needle ++ after) needle ≡ true
unfolding begins_with
begins_with-append [] after = refl
begins_with-append (y ∷ needle) after =
    λ i. (==_iff y y).1 refl i && begins_with-append needle after i

strstr-Occurs : (text needle : Bytes) → strstr text needle ≡ true → Occurs text needle
unfolding strstr
strstr-Occurs [] needle h = let b = begins_with-some [] needle h in ([], b.0, b.1)
strstr-Occurs (x ∷ text) needle h =
    elim (or_true (begins_with (x ∷ text) needle) (strstr text needle) h) [
      | inl here ↦ let b = begins_with-some (x ∷ text) needle here in ([], b.0, b.1)
      | inr found ↦
          let later = strstr-Occurs text needle found in
          (x ∷ later.0, later.1, ap (λ l. x ∷ l) later.2)
    ]

strstr-begins_with :
    (text needle : Bytes) → begins_with text needle ≡ true → strstr text needle ≡ true
unfolding strstr
strstr-begins_with [] needle h = h
strstr-begins_with (x ∷ text) needle h =
    true-or (begins_with (x ∷ text) needle) (strstr text needle) h

strstr-append : (before needle after : Bytes) → strstr (before ++ needle ++ after) needle ≡ true
unfolding strstr
strstr-append [] needle after =
    strstr-begins_with (needle ++ after) needle (begins_with-append needle after)
strstr-append (x ∷ before) needle after =
    or-true (begins_with (x ∷ (before ++ needle ++ after)) needle)
      (strstr (before ++ needle ++ after) needle) (strstr-append before needle after)

module _ {S : Type 0} where
  selected-Asked : (m : Option Bytes) (t : Test S) → selected m t ≡ true → Asked m t
  unfolding selected
  selected-Asked none t h = tt
  selected-Asked (some matcher) t h = strstr-Occurs (full_name t) matcher h

  Asked-selected : (m : Option Bytes) (t : Test S) → Asked m t → selected m t ≡ true
  unfolding selected
  Asked-selected none t h = refl
  Asked-selected (some matcher) t h =
      subst (λ n. strstr n matcher ≡ true) h.2 (strstr-append h.0 matcher h.1)

  not-Asked : (m : Option Bytes) (t : Test S) → selected m t ≡ false → ¬ (Asked m t)
  not-Asked m t h a = let b = Asked-selected m t a in cc

  register_all-some : (held ts : List (Test S)) → register_all ts (some held) ≡ some (held ++ ts)
  unfolding register_test
  register_all-some held [] = ap some (sym (append-nil held))
  register_all-some held (t ∷ ts) =
      register_all-some (held ++ t ∷ []) ts ∙ ap some (append_assoc held (t ∷ []) ts)

  and_then_assoc :
      {A B C : Type 0} (o : Option (Ended A × S)) (k : A → Run S B) (f : B → Run S C)
      → and_then (and_then o k) f ≡ and_then o (λ a. k a >>= f)
  and_then_assoc none k f = refl
  and_then_assoc (some (returned a, t)) k f = refl
  and_then_assoc (some (exited code, t)) k f = refl

  and_then_ext :
      {A B : Type 0} (o : Option (Ended A × S)) (f g : A → Run S B)
      → ((a : A) (t : S) → f a t ≡ g a t)
      → and_then o f ≡ and_then o g
  and_then_ext none f g h = refl
  and_then_ext (some (returned a, t)) f g h = h a t
  and_then_ext (some (exited code, t)) f g h = refl

  selection-Chosen : (m : Option Bytes) (ts : List (Test S)) → Chosen (Asked m) ts (selection m ts)
  selection-Chosen m [] = none_left
  selection-Chosen m (t ∷ ts) = chosen (selection-Chosen m ts) (selected m t) refl
    where
      chosen :
          Chosen (Asked m) ts (selection m ts)
          → (b : Bool) → selected m t ≡ b
          → Chosen (Asked m) (t ∷ ts) (if b then t ∷ selection m ts else selection m ts)
      chosen rest true e = keep (selected-Asked m t e) rest
      chosen rest false e = skip (not-Asked m t e) rest

  module _ (print_error : Bytes → S → S) where
    run_loop-run_each :
        (m : Option Bytes) (ts : List (Test S)) (num : ℕ) (s : S)
        → run_loop print_error m ts num s
          ≡ (run_each print_error (selection m ts) >>= λ _. give (num + length (selection m ts))) s
    unfolding run_loop
    run_loop-run_each m [] num s = ap (λ n. some (returned n, s)) (omega arith)
    run_loop-run_each m (t ∷ ts) num s = by_test (run_loop-run_each m ts) (selected m t)
      where
        selected_rest : Run S (Unit {0})
        selected_rest = run_each print_error (selection m ts)

        by_test :
            ((n : ℕ) (u : S)
              → run_loop print_error m ts n u
                ≡ (selected_rest >>= λ _. give (n + length (selection m ts))) u)
            → (b : Bool)
            → (if b
                  then announce print_error t >> t.func >> run_loop print_error m ts (num + 1)
                  else run_loop print_error m ts num)
                s
              ≡ (run_each print_error (if b then t ∷ selection m ts else selection m ts) >>= λ _.
                    give (num + length (if b then t ∷ selection m ts else selection m ts)))
                  s
        by_test later true =
            let ran = (announce print_error t >> t.func) s in
            let counted = give (num + suc (length (selection m ts))) in
            and_then_ext ran (λ _. run_loop print_error m ts (num + 1))
              (λ _. selected_rest >>= λ _. counted)
              (λ a u. later (num + 1) u ∙ ap (λ n. (selected_rest >>= λ _. give n) u) (omega arith))
            ∙ sym (and_then_assoc ran (λ _. selected_rest) (λ _. counted))
        by_test later false = later num s

    run_vector :
        (getenv : Bytes → Option Bytes) (ts : List (Test S)) (s : S)
        → run_all_tests print_error getenv (some ts) s
          ≡ (run_each print_error (selection (getenv (text "LEVELDB_TESTS")) ts)
                >> say_passed print_error (length (selection (getenv (text "LEVELDB_TESTS")) ts))
                >> give 0)
              s
    unfolding run_all_tests
    run_vector getenv ts s =
        let m = getenv (text "LEVELDB_TESTS") in
        let last : ℕ → Run S ℕ = λ num. say_passed print_error num >> give 0 in
        let each = run_each print_error (selection m ts) s in
        let num = length (selection m ts) in
        ap (λ o. and_then o last)
          (run_loop-run_each m ts 0 s ∙ ap (λ n. and_then each (λ _. give n)) (omega arith))
        ∙ and_then_assoc each (λ _. give num) last
        ∙ sym (and_then_assoc each (λ _. say_passed print_error num) (λ _. give 0))

    run_registered :
        (getenv : Bytes → Option Bytes) (ts : List (Test S)) (s : S)
        → run_all_tests print_error getenv (register_all ts none) s
          ≡ (run_each print_error (selection (getenv (text "LEVELDB_TESTS")) ts)
                >> say_passed print_error (length (selection (getenv (text "LEVELDB_TESTS")) ts))
                >> give 0)
              s
    unfolding run_all_tests register_test
    run_registered getenv [] s = refl
    run_registered getenv (t ∷ ts) s =
        ap (λ tests. run_all_tests print_error getenv tests s) (register_all-some (t ∷ []) ts)
        ∙ run_vector getenv (t ∷ ts) s

    -- Register the tests `ts` one after the other and call `runAllTests`, with any value of
    -- "LEVELDB_TESTS". It runs one after the other, in the order of their registration, the tests whose
    -- full name, base, dot and name, has that value as a part, or all tests if it is not set, each
    -- after its heading; a test that exits or fails ends it; at the end it prints how many it ran and
    -- returns 0.
    pub run_all_tests-Chosen :
        (getenv : Bytes → Option Bytes) (ts : List (Test S)) (s : S)
        → (run : List (Test S)) × Chosen (Asked (getenv (text "LEVELDB_TESTS"))) ts run
          × (run_all_tests print_error getenv (register_all ts none) s
              ≡ (run_each print_error run >> say_passed print_error (length run) >> give 0) s)
    run_all_tests-Chosen getenv ts s =
        let m = getenv (text "LEVELDB_TESTS") in
        (selection m ts, selection-Chosen m ts, run_registered getenv ts s)
