-- ===== src/Port/SignalAll.antt =====
-- `SignalAll` with two or more threads in `Wait`.
use my_leveldb.Common.{ℕ, ◌+◌, ◌<◌, ◌≤◌, ◌≡◌, ◌≢◌, refl, ap, arith, true, ltb, lt→ltb, ◌∙◌}
use my_leveldb.Port.{
  idle, handshake, outer, inner, inner_wait, CondVar, wait_pass, wait_release, all_outer, all_inner,
  all_woken, Step, pass, release, finish, go_outer, go_inner, go_woken,
}
use my_leveldb.Port.Signal.{Reach, Reach-IsSound, Steps, here, next, under_way}

-- The tokens in the semaphores and between them.
abbrev tokens : CondVar → ℕ
tokens c = c.sem1 + c.passing + c.sem2

-- Where `SignalAll` stands that began with `n` threads in `Wait`.
data Phase (n : ℕ) (c : CondVar) : Type 0 where
  begun : c.pc ≡ outer 0 → c.waiting ≡ n → tokens c ≡ 0 → Phase n c
  released : c.pc ≡ inner 0 → c.waiting ≡ n → tokens c ≡ 1 → Phase n c
  first : c.pc ≡ inner_wait 0 → c.waiting + 1 ≡ n → tokens c ≡ 1 → Phase n c
  first_woken : c.pc ≡ inner 0 → c.waiting + 1 ≡ n → tokens c ≡ 0 → Phase n c
  second : c.pc ≡ inner_wait 0 → c.waiting + 2 ≡ n → tokens c ≡ 0 → Phase n c

module _ {n : ℕ} (two : 2 ≤ n) where
  Phase-pass : {c : CondVar} → 0 < c.sem1 → Phase n c → Phase n (wait_pass c)
  unfolding wait_pass
  Phase-pass p (begun e w t) = absurd (omega arith)
  Phase-pass p (released e w t) = released e w (omega arith)
  Phase-pass p (first e w t) = first e w (omega arith)
  Phase-pass p (first_woken e w t) = absurd (omega arith)
  Phase-pass p (second e w t) = absurd (omega arith)

  Phase-release : {c : CondVar} → 0 < c.passing → Phase n c → Phase n (wait_release c)
  unfolding wait_release
  Phase-release p (begun e w t) = absurd (omega arith)
  Phase-release p (released e w t) = released e w (omega arith)
  Phase-release p (first e w t) = first e w (omega arith)
  Phase-release p (first_woken e w t) = absurd (omega arith)
  Phase-release p (second e w t) = absurd (omega arith)

  Phase-outer : {c : CondVar} (i : ℕ) → c.pc ≡ outer i → Phase n c → Phase n (all_outer i c)
  unfolding all_outer
  Phase-outer {c} i q (begun e w t) =
      let z : i ≡ 0 = cc (q, e) in
      let more : ltb 0 c.waiting ≡ true = lt→ltb 0 c.waiting (omega arith) in
      rw (z, more) (released refl w (omega arith))
  Phase-outer i q (released e w t) = absurd (cc (q, e))
  Phase-outer i q (first e w t) = absurd (cc (q, e))
  Phase-outer i q (first_woken e w t) = absurd (cc (q, e))
  Phase-outer i q (second e w t) = absurd (cc (q, e))

  Phase-inner : {c : CondVar} (i : ℕ) → c.pc ≡ inner i → Phase n c → Phase n (all_inner i c)
  unfolding all_inner
  Phase-inner i q (begun e w t) = absurd (cc (q, e))
  Phase-inner {c} i q (released e w t) =
      let z : i ≡ 0 = cc (q, e) in
      let more : ltb 0 c.waiting ≡ true = lt→ltb 0 c.waiting (omega arith) in
      rw (z, more) (first refl (omega arith) t)
  Phase-inner i q (first e w t) = absurd (cc (q, e))
  Phase-inner {c} i q (first_woken e w t) =
      let z : i ≡ 0 = cc (q, e) in
      let more : ltb 0 c.waiting ≡ true = lt→ltb 0 c.waiting (omega arith) in
      rw (z, more) (second refl (omega arith) t)
  Phase-inner i q (second e w t) = absurd (cc (q, e))

  Phase-woken :
      {c : CondVar} (i : ℕ) → c.pc ≡ inner_wait i → 0 < c.sem2 → Phase n c → Phase n (all_woken i c)
  unfolding all_woken
  Phase-woken i q p (begun e w t) = absurd (cc (q, e))
  Phase-woken i q p (released e w t) = absurd (cc (q, e))
  Phase-woken i q p (first e w t) =
      let z : i ≡ 0 = cc (q, e) in rw z (first_woken refl w (omega arith))
  Phase-woken i q p (first_woken e w t) = absurd (cc (q, e))
  Phase-woken i q p (second e w t) = absurd (omega arith)

  not_handshake : {c : CondVar} → c.pc ≡ handshake → Phase n c → ⊥
  not_handshake q (begun e w t) = cc (q, e)
  not_handshake q (released e w t) = cc (q, e)
  not_handshake q (first e w t) = cc (q, e)
  not_handshake q (first_woken e w t) = cc (q, e)
  not_handshake q (second e w t) = cc (q, e)

  not_idle : {c : CondVar} → Phase n c → c.pc ≢ idle
  not_idle (begun e w t) q = cc (q, e)
  not_idle (released e w t) q = cc (q, e)
  not_idle (first e w t) q = cc (q, e)
  not_idle (first_woken e w t) q = cc (q, e)
  not_idle (second e w t) q = cc (q, e)

  Step-Phase : {c d : CondVar} → Step c d → Phase n c → Phase n d
  Step-Phase (pass p q) h = Phase-pass p h
  Step-Phase (release p) h = Phase-release p h
  Step-Phase (finish e q) h = absurd (not_handshake e h)
  Step-Phase (go_outer i e) h = Phase-outer i e h
  Step-Phase (go_inner i e) h = Phase-inner i e h
  Step-Phase (go_woken i e q) h = Phase-woken i e q h

  Steps-Phase : {c d : CondVar} → Steps c d → Phase n c → Phase n d
  Steps-Phase here h = h
  Steps-Phase (next r s) h = Step-Phase s (Steps-Phase r h)

-- `SignalAll` that begins while two or more threads wait, in a state that calls of `Wait` and
-- `Signal` lead to, never returns: in no order of steps does the thread come to give `wait_mtx_`
-- back.
pub signal_all-ne-idle :
    {c d : CondVar}
    → Reach c
    → c.pc ≡ idle
    → 2 ≤ c.waiting
    → Steps (record c { pc = outer 0 }) d
    → d.pc ≢ idle
signal_all-ne-idle {c} r e two steps =
    let h = Reach-IsSound r in
    let t : c.sem1 + c.passing + c.sem2 ≡ 0 = h.token ∙ ap under_way e in
    not_idle two (Steps-Phase two steps (begun refl refl t))
