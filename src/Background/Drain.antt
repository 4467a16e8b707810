-- ===== src/Background/Drain.antt =====
-- The background thread drains its queue.
use my_leveldb.Common.{
  ℕ, zero, suc, ◌+◌, ◌*◌, ◌<◌, ◌≤◌, ◌≡◌, ◌⊎◌, refl, sym, ap, subst, ◌∙◌, arith, List, [], ◌∷◌, ◌++◌,
  length, append-nil, ltb, Bool-cases, inl, inr, ltb→lt,
}
use my_leveldb.Background.{
  Pc, unstarted, ready, waiting, running, Background, notify_one, bg_take, bg_run, take_item, wake,
  Step, notify, take, run, Reach,
}
use my_leveldb.Background.Sound.{at_work, IsAwake, IsSound, Step-IsSound, Reach-IsSound}

module _ {F : Type 0} where
  abbrev pub weight : Pc F → ℕ
  weight unstarted = 0
  weight ready = 1
  weight waiting = 0
  weight (running f) = 2

  -- A bound on the steps to come.
  abbrev pub work : Background F → ℕ
  work s = 3 * length s.queue + weight s.pc + 2 * s.to_notify

  weight-wake : (p : Pc F) → weight (wake p) ≤ weight p + 1
  weight-wake unstarted = omega arith
  weight-wake ready = omega arith
  weight-wake waiting = omega arith
  weight-wake (running f) = omega arith

  work-take_item :
      (s : Background F) (queue : List F)
      → s.pc ≡ ready
      → s.queue ≡ queue
      → work (take_item queue s) < work s
  work-take_item s [] e q = omega (arith, ap length q, ap weight e)
  work-take_item s (f ∷ queue) e q = omega (arith, ap length q, ap weight e)

  Step-work : {s t : Background F} → Step s t → work t < work s
  unfolding notify_one bg_take bg_run
  Step-work {s} (notify p) = omega (arith, weight-wake s.pc)
  Step-work {s} (take e) = work-take_item s s.queue e refl
  Step-work (run f e) = omega (arith, ap weight e)

  pub data Steps : Background F → Background F → Type 0 where
    here : {s : Background F} → Steps s s
    next : {s t u : Background F} → Step s t → Steps t u → Steps s u

  -- Nothing is left to run.
  pub record IsDone (s : Background F) : Type 0 where
    pub empty : s.queue ≡ []
    pub free : at_work s.pc ≡ []

  nil_of_length : (queue : List F) (n : ℕ) → length queue ≤ n → n ≡ 0 → queue ≡ []
  nil_of_length [] n h e = refl
  nil_of_length (f ∷ queue) n h e = absurd (omega arith)

  step_or_IsDone : (s : Background F) → IsSound s → ((t : Background F) × Step s t) ⊎ IsDone s
  step_or_IsDone s h = go s.pc refl
    where
      go : (p : Pc F) → s.pc ≡ p → ((t : Background F) × Step s t) ⊎ IsDone s
      go ready e = inl (bg_take s, take e)
      go (running f) e = inl (bg_run f s, run f e)
      go unstarted e = inr (record {
        empty = subst (λ p. IsAwake p s.queue s.to_notify) e h.awake;
        free = ap at_work e;
      })
      go waiting e = elim (Bool-cases (ltb 0 s.to_notify)) [
        | inl more ↦ inl (notify_one s, notify (ltb→lt 0 s.to_notify more))
        | inr none_left ↦
            let few = subst (λ p. IsAwake p s.queue s.to_notify) e h.awake in
            inr (record {
              empty = nil_of_length s.queue s.to_notify few (ground (arith, none_left));
              free = ap at_work e;
            })
      ]

  take_item-scheduled :
      (s : Background F) (queue : List F) → (take_item queue s).scheduled ≡ s.scheduled
  take_item-scheduled s [] = refl
  take_item-scheduled s (f ∷ queue) = refl

  Step-scheduled : {s t : Background F} → Step s t → t.scheduled ≡ s.scheduled
  unfolding notify_one bg_take bg_run
  Step-scheduled (notify p) = refl
  Step-scheduled {s} (take e) = take_item-scheduled s s.queue
  Step-scheduled (run f e) = refl

  drain :
      (n : ℕ) (s : Background F)
      → IsSound s
      → work s < n
      → (t : Background F) × Steps s t × (t.queue ≡ []) × (t.ran ≡ s.scheduled)
  drain zero s h enough = absurd (omega arith)
  drain (suc n) s h enough = elim (step_or_IsDone s h) [
    | inr done ↦ (
      s,
      here,
      done.empty,
      sym (append-nil s.ran)
          ∙ ap (λ w. s.ran ++ w) (sym (ap (λ w. w ++ s.queue) done.free ∙ done.empty))
          ∙ h.in_order,
    )
    | inl (t, st) ↦
        let r = drain n t (Step-IsSound st h) (omega (arith, Step-work st)) in
        (r.0, next st r.1, r.2, r.3 ∙ Step-scheduled st)
  ]

  -- Every step of the background thread or of a `notify_one` to come makes the work left smaller, so
  -- once all is scheduled the steps end on any schedule; and as long as an item is left one of them
  -- can be made, so the thread does not sleep through it and the queue can be drained: all that was
  -- scheduled has been run then, in its order.
  pub drain-Reach :
      {s : Background F}
      → Reach s
      → ((t : Background F) → Step s t → work t < work s)
        × (((t : Background F) × Step s t) ⊎ IsDone s)
        × ((t : Background F) × Steps s t × (t.queue ≡ []) × (t.ran ≡ s.scheduled))
  drain-Reach {s} r =
      let h = Reach-IsSound r in
      (λ t st. Step-work st, step_or_IsDone s h, drain (suc (work s)) s h (omega arith))
