-- ===== src/Background/Threads.antt =====
-- env_boost.cc: `PosixEnv::StartThread` and `StartThreadWrapper`. Any number of threads run; each owns
-- a `StartThreadState` on the heap, a number that `new` has not given before. A step is a call of
-- `StartThread`, the call of the user's function in a thread, or the `delete` behind it.
use my_leveldb.Common.{
  ℕ, ◌+◌, ◌<◌, ◌≤◌, ◌≡◌, refl, sym, ap, subst, Bool, true, false, Bool-cases, inl, inr, List, [],
  ◌∷◌, ◌++◌, ◌==◌, ==_iff, ltb, if◌then◌else◌, arith,
}
use mathlib.Core.List.{Permᴰ}
use mathlib.Core.List.Permᴰ

-- `user_function` with its `arg`.
pub record StartThreadState (F : Type 0) : Type 0 where
  pub user_function : F

-- The states by their pointers, and those that are not deleted; by their states the threads that have
-- not called their function, and those that have not deleted their state since; and the functions
-- that have been called, the last one first.
pub record Threads (F : Type 0) : Type 0 where
  pub state_at : ℕ → StartThreadState F
  pub live : ℕ → Bool
  pub next : ℕ
  pub waiting : List ℕ
  pub called : List ℕ
  pub ran : List F

abbrev pub count : ℕ → List ℕ → ℕ
count q [] = 0
count q (x ∷ xs) = let rest = count q xs in if x == q then rest + 1 else rest

abbrev pub remove : ℕ → List ℕ → List ℕ
remove q [] = []
remove q (x ∷ xs) = let rest = remove q xs in if x == q then xs else x ∷ rest

module _ {F : Type 0} where
  unfoldable pub no_threads : (ℕ → StartThreadState F) → Threads F
  no_threads garbage = record {
    state_at = garbage;
    live = λ p. false;
    next = 0;
    waiting = [];
    called = [];
    ran = [];
  }

  -- `StartThread`
  unfoldable pub start_user_thread : F → Threads F → Threads F
  start_user_thread function t =
      let state = t.next in
      record t {
        state_at = λ p. if p == state then record { user_function = function } else t.state_at p;
        live = λ p. if p == state then true else t.live p;
        next = state + 1;
        waiting = state ∷ t.waiting;
      }

  -- `StartThreadWrapper`: `state->user_function(state->arg)`, and `delete state`.
  unfoldable pub wrapper_call : ℕ → Threads F → Threads F
  wrapper_call state t = record t {
    waiting = remove state t.waiting;
    called = state ∷ t.called;
    ran = (t.state_at state).user_function ∷ t.ran;
  }

  unfoldable pub wrapper_delete : ℕ → Threads F → Threads F
  wrapper_delete state t = record t {
    live = λ p. if p == state then false else t.live p;
    called = remove state t.called;
  }

  -- What may happen in any order, with the functions of the calls of `StartThread`, the last one
  -- first.
  pub data ThreadsReach (garbage : ℕ → StartThreadState F) : List F → Threads F → Type 0 where
    none_yet : ThreadsReach garbage [] (no_threads garbage)
    start :
        {fs : List F} {t : Threads F} (function : F)
        → ThreadsReach garbage fs t
        → ThreadsReach garbage (function ∷ fs) (start_user_thread function t)
    call_function :
        {fs : List F} {t : Threads F} (p : ℕ)
        → ThreadsReach garbage fs t
        → 0 < count p t.waiting
        → ThreadsReach garbage fs (wrapper_call p t)
    delete_state :
        {fs : List F} {t : Threads F} (p : ℕ)
        → ThreadsReach garbage fs t
        → 0 < count p t.called
        → ThreadsReach garbage fs (wrapper_delete p t)

count-remove :
    (p q : ℕ) (xs : List ℕ)
    → 0 < count p xs
    → count q (remove p xs) + (if p == q then 1 else 0) ≡ count q xs
count-remove p q [] h = absurd (omega (arith, h))
count-remove p q (x ∷ xs) h = elim (Bool-cases (x == p)) [
  | inl here ↦ rw here (ground (arith, here))
  | inr there ↦ let rest = count-remove p q xs (rw there at h) in rw there (ground (arith, rest))
]

-- What the counts of a state say: it is live while one thread is to use it, and none is that has not
-- been given yet.
abbrev Counts : ℕ → (next waiting called : ℕ) → Bool → Type 0
Counts p next waiting called live =
    (waiting + called ≡ (if live then 1 else 0))
    × (waiting + called ≤ (if ltb p next then 1 else 0))

start-Counts :
    (p next waiting called : ℕ) (live : Bool)
    → Counts p next waiting called live
    → Counts p
        (next + 1)
        (if next == p then waiting + 1 else waiting)
        called
        (if p == next then true else live)
start-Counts p next waiting called live h = ground arith

call-Counts :
    (p q next waiting left called : ℕ) (live : Bool)
    → left + (if q == p then 1 else 0) ≡ waiting
    → Counts p next waiting called live
    → Counts p next left (if q == p then called + 1 else called) live
call-Counts p q next waiting left called live e h = ground arith

delete-Counts :
    (p q next waiting called left : ℕ) (live : Bool)
    → left + (if q == p then 1 else 0) ≡ called
    → Counts p next waiting called live
    → Counts p next waiting left (if p == q then false else live)
delete-Counts p q next waiting called left live e h = ground arith

-- The functions that the states of these threads hold.
abbrev pub held_functions : {F : Type 0} → (ℕ → StartThreadState F) → List ℕ → List F
held_functions state_at [] = []
held_functions state_at (p ∷ ps) = (state_at p).user_function ∷ held_functions state_at ps

held_functions-other :
    {F : Type 0} (state_at : ℕ → StartThreadState F) (q : ℕ) (new : StartThreadState F)
    (ps : List ℕ)
    → count q ps ≡ 0
    → held_functions (λ p. if p == q then new else state_at p) ps ≡ held_functions state_at ps
held_functions-other state_at q new [] h = refl
held_functions-other state_at q new (p ∷ ps) h = elim (Bool-cases (p == q)) [
  | inl same ↦ absurd (omega (arith, rw same at h))
  | inr other ↦ rw other (
      ap (λ l. (state_at p).user_function ∷ l)
        (held_functions-other state_at q new ps (rw other at h)))
]

held_functions-remove :
    {F : Type 0} (state_at : ℕ → StartThreadState F) (q : ℕ) (ps : List ℕ)
    → 0 < count q ps
    → Permᴰ
        (held_functions state_at ps)
        ((state_at q).user_function ∷ held_functions state_at (remove q ps))
held_functions-remove state_at q [] h = absurd (omega (arith, h))
held_functions-remove state_at q (p ∷ ps) h = elim (Bool-cases (p == q)) [
  | inl same ↦
      let e : p ≡ q = (==_iff p q).0 same in
      rw same (
        Permᴰ.cons (ap (λ x. (state_at x).user_function) e)
          (Permᴰ.refl (held_functions state_at ps)))
  | inr other ↦
      let rest = held_functions-remove state_at q ps (rw other at h) in
      rw other (Permᴰ.trans (Permᴰ.cons refl rest) (Permᴰ.swap refl refl))
]

module _ {F : Type 0} {garbage : ℕ → StartThreadState F} where
  ThreadsReach-Counts :
      {fs : List F} {t : Threads F} (r : ThreadsReach garbage fs t) (p : ℕ)
      → Counts p t.next (count p t.waiting) (count p t.called) (t.live p)
  unfolding no_threads start_user_thread wrapper_call wrapper_delete
  ThreadsReach-Counts none_yet p = (omega arith, omega arith)
  ThreadsReach-Counts (start {t = t} function r) p =
      start-Counts p t.next (count p t.waiting) (count p t.called) (t.live p)
        (ThreadsReach-Counts r p)
  ThreadsReach-Counts (call_function {t = t} q r e) p =
      call-Counts p q t.next (count p t.waiting) (count p (remove q t.waiting)) (count p t.called)
        (t.live p) (count-remove q p t.waiting e) (ThreadsReach-Counts r p)
  ThreadsReach-Counts (delete_state {t = t} q r e) p =
      delete-Counts p q t.next (count p t.waiting) (count p t.called) (count p (remove q t.called))
        (t.live p) (count-remove q p t.called e) (ThreadsReach-Counts r p)

  ThreadsReach-Permᴰ :
      {fs : List F} {t : Threads F} (r : ThreadsReach garbage fs t)
      → Permᴰ fs (t.ran ++ held_functions t.state_at t.waiting)
  unfolding no_threads start_user_thread wrapper_call wrapper_delete
  ThreadsReach-Permᴰ none_yet = Permᴰ.nil
  ThreadsReach-Permᴰ (start {fs = fs} {t = t} function r) =
      let new : StartThreadState F = record { user_function = function } in
      let free : count t.next t.waiting ≡ 0 = ground (arith, (ThreadsReach-Counts r t.next).1) in
      let same = held_functions-other t.state_at t.next new t.waiting free in
      let here = (==_iff t.next t.next).1 refl in
      let held = held_functions t.state_at t.waiting in
      let moved =
        Permᴰ.trans (Permᴰ.cons refl (ThreadsReach-Permᴰ r))
          (Permᴰ.symm (Permᴰ.middle function t.ran held)) in
      subst (λ l. Permᴰ (function ∷ fs) (t.ran ++ l))
        (λ i. (if sym here i then new else t.state_at t.next).user_function ∷ sym same i) moved
  ThreadsReach-Permᴰ (call_function {t = t} q r e) =
      let f = (t.state_at q).user_function in
      let left = held_functions t.state_at (remove q t.waiting) in
      Permᴰ.trans (ThreadsReach-Permᴰ r) (
        Permᴰ.trans (Permᴰ.append_left t.ran (held_functions-remove t.state_at q t.waiting e))
          (Permᴰ.middle f t.ran left))
  ThreadsReach-Permᴰ (delete_state {t = t} q r e) = ThreadsReach-Permᴰ r

  -- Calls of `StartThread` with the functions `fs` and steps of their threads, in any order. A state is
  -- live exactly while its thread is still to call its function or to delete the state, and then that
  -- is one thread: so no thread reads or deletes a state that is freed, and none is left when all
  -- threads have ended. The functions that have been called, with those that the waiting threads hold,
  -- are `fs` in some order, each as often: so each is called once, and no other one is.
  pub wrapper_once :
      {fs : List F} {t : Threads F} (r : ThreadsReach garbage fs t) (p : ℕ)
      → (count p t.waiting + count p t.called ≡ (if t.live p then 1 else 0))
        × Permᴰ fs (t.ran ++ held_functions t.state_at t.waiting)
  wrapper_once r p = ((ThreadsReach-Counts r p).0, ThreadsReach-Permᴰ r)
