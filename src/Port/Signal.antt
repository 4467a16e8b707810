-- ===== src/Port/Signal.antt =====
-- Threads that call `Wait` and `Signal` only.
use my_leveldb.Common.{
  ℕ, ◌+◌, ◌-◌, ◌*◌, ◌<◌, ◌≤◌, ◌≡◌, inl, inr, refl, ap, subst, arith, ltb, Bool-cases, ltb→lt,
  lt→ltb, ◌∙◌,
}
use my_leveldb.Port.{
  Pc, idle, handshake, outer, inner, inner_wait, CondVar, new_cond_var, wait_enter, wait_pass,
  wait_release, signal_begin, signal_end, all_outer, all_inner, all_woken, Step, pass, release,
  finish, go_outer, go_inner, go_woken,
}

-- The states that `Wait` and `Signal` lead to.
pub data Reach : CondVar → Type 0 where
  new : Reach new_cond_var
  wait : {c : CondVar} → Reach c → c.pc ≡ idle → Reach (wait_enter c)
  signal : {c : CondVar} → Reach c → c.pc ≡ idle → Reach (signal_begin c)
  step : {c d : CondVar} → Reach c → Step c d → Reach d

-- One for a signal that is under way.
abbrev pub under_way : Pc → ℕ
under_way handshake = 1
under_way _ = 0

abbrev pub IsQuiet : Pc → Type 0
IsQuiet idle = Unit {0}
IsQuiet handshake = Unit {0}
IsQuiet (outer i) = ⊥
IsQuiet (inner i) = ⊥
IsQuiet (inner_wait i) = ⊥

-- Each blocked thread is counted by `waiting_` or has a token of `sem1_`; a signal under way has
-- given one token, which is in a semaphore or with a thread between them.
pub record IsSound (c : CondVar) : Type 0 where
  pub quiet : IsQuiet c.pc
  pub counted : c.blocked ≡ c.waiting + c.sem1
  pub token : c.sem1 + c.passing + c.sem2 ≡ under_way c.pc

Step-IsSound : {c d : CondVar} → Step c d → IsSound c → IsSound d
unfolding wait_pass wait_release signal_end all_outer all_inner all_woken
Step-IsSound (pass p q) h = record {
  quiet = h.quiet;
  counted = omega (arith, h.counted);
  token = omega (arith, h.token);
}
Step-IsSound (release p) h = record {
  quiet = h.quiet;
  counted = h.counted;
  token = omega (arith, h.token);
}
Step-IsSound {c} (finish e q) h =
    let t : c.sem1 + c.passing + c.sem2 ≡ 1 = h.token ∙ ap under_way e in
    record { quiet = tt; counted = h.counted; token = omega arith }
Step-IsSound (go_outer i e) h = absurd (subst IsQuiet e h.quiet)
Step-IsSound (go_inner i e) h = absurd (subst IsQuiet e h.quiet)
Step-IsSound (go_woken i e q) h = absurd (subst IsQuiet e h.quiet)

signal_begin-IsSound : {c : CondVar} → c.pc ≡ idle → IsSound c → IsSound (signal_begin c)
unfolding signal_begin
signal_begin-IsSound {c} e h = elim (Bool-cases (ltb 0 c.waiting)) [
  | inl some_wait ↦
      let w = ltb→lt 0 c.waiting some_wait in
      let t : c.sem1 + c.passing + c.sem2 ≡ 0 = h.token ∙ ap under_way e in
      rw some_wait
        (record { quiet = tt; counted = omega (arith, h.counted, w); token = omega arith })
  | inr nobody ↦ rw nobody h
]

pub Reach-IsSound : {c : CondVar} → Reach c → IsSound c
unfolding new_cond_var wait_enter
Reach-IsSound new = record { quiet = tt; counted = omega arith; token = omega arith }
Reach-IsSound (wait r e) =
    let h = Reach-IsSound r in
    record { quiet = h.quiet; counted = omega (arith, h.counted); token = h.token }
Reach-IsSound (signal r e) = signal_begin-IsSound e (Reach-IsSound r)
Reach-IsSound (step r s) = Step-IsSound s (Reach-IsSound r)

-- Any number of steps.
pub data Steps : CondVar → CondVar → Type 0 where
  here : {c : CondVar} → Steps c c
  next : {c d e : CondVar} → Steps c d → Step d e → Steps c e

-- The steps that the token of a signal has to go.
abbrev pub to_go : CondVar → ℕ
to_go c = 3 * c.sem1 + 2 * c.passing + c.sem2

-- In any state that calls of `Wait` and `Signal` lead to, a signal under way always has a step
-- to go, and each step that any thread makes without beginning a call brings it nearer to its
-- end, which is at most three steps away: no order of steps keeps `Signal` from returning.
pub signal_progress :
    {c : CondVar}
    → Reach c
    → c.pc ≡ handshake
    → (0 < to_go c)
      × (to_go c ≤ 3)
      × ((d : CondVar) × Step c d)
      × ((d : CondVar) → Step c d → to_go d + 1 ≡ to_go c)
unfolding wait_pass wait_release signal_end all_outer all_inner all_woken
signal_progress {c} r e =
    let h = Reach-IsSound r in
    let t : c.sem1 + c.passing + c.sem2 ≡ 1 = h.token ∙ ap under_way e in
    (omega arith, omega arith, some_step h t, nearer)
  where
    some_step : IsSound c → c.sem1 + c.passing + c.sem2 ≡ 1 → (d : CondVar) × Step c d
    some_step h t = elim (Bool-cases (ltb 0 c.sem1)) [
      | inl a ↦
          (wait_pass c, pass (ltb→lt 0 c.sem1 a) (omega (arith, h.counted, ltb→lt 0 c.sem1 a)))
      | inr a ↦ elim (Bool-cases (ltb 0 c.passing)) [
        | inl b ↦ (wait_release c, release (ltb→lt 0 c.passing b))
        | inr b ↦ (signal_end c, finish e (ground (arith, t, a, b)))
      ]
    ]

    nearer : (d : CondVar) → Step c d → to_go d + 1 ≡ to_go c
    nearer d (pass p q) = omega arith
    nearer d (release p) = omega arith
    nearer d (finish q p) = omega arith
    nearer d (go_outer i q) = absurd (cc (e, q))
    nearer d (go_inner i q) = absurd (cc (e, q))
    nearer d (go_woken i q p) = absurd (cc (e, q))

-- In any state that calls of `Wait` and `Signal` lead to, `Signal` where some thread waits and
-- no other is under way can run to its end, and then exactly one thread more has returned from
-- `Wait`, and `waiting_` and the threads that are blocked are one fewer each.
pub signal_wakes :
    {c : CondVar}
    → Reach c
    → c.pc ≡ idle
    → 0 < c.waiting
    → (d : CondVar) × Steps (signal_begin c) d
      × (d.pc ≡ idle)
      × (d.woken ≡ c.woken + 1)
      × (d.waiting + 1 ≡ c.waiting)
      × (d.blocked + 1 ≡ c.blocked)
unfolding signal_begin wait_pass wait_release signal_end
signal_wakes {c} r e some_wait =
    let h = Reach-IsSound r in
    let t : c.sem1 + c.passing + c.sem2 ≡ 0 = h.token ∙ ap under_way e in
    let a : CondVar = record c { waiting = c.waiting - 1; sem1 = c.sem1 + 1; pc = handshake } in
    let b = wait_pass a in
    let w = wait_release b in
    rw (lt→ltb 0 c.waiting some_wait) (
      signal_end w,
      next
          (next (next here (pass (omega arith) (omega (arith, h.counted)))) (release (omega arith)))
          (finish refl (omega arith)),
      refl,
      omega arith,
      omega arith,
      omega (arith, h.counted),
    )
