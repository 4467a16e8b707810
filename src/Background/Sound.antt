-- ===== src/Background/Sound.antt =====
-- The background queue loses no item and runs none out of turn; no wake-up is lost.
use my_leveldb.Common.{
  ℕ, ◌+◌, ◌-◌, ◌≤◌, ◌≡◌, refl, sym, ap, ◌∙◌, arith, List, [], ◌∷◌, ◌++◌, length, append_assoc,
  length-append,
}
use my_leveldb.Background.{
  Pc, unstarted, ready, waiting, running, Background, new_background, schedule, notify_one, bg_take,
  bg_run, take_item, start_thread, wake, Step, notify, take, run, Reach, new, call, step, spurious,
}

module _ {F : Type 0} where
  -- The item that the thread runs.
  abbrev pub at_work : Pc F → List F
  at_work unstarted = []
  at_work ready = []
  at_work waiting = []
  at_work (running f) = f ∷ []

  -- Whether the thread would take an item by itself: for one that waits a call of `notify_one` has to
  -- come if there is an item, and without a thread there is none.
  abbrev pub IsAwake : Pc F → List F → ℕ → Type 0
  IsAwake unstarted queue n = queue ≡ []
  IsAwake ready queue n = Unit {0}
  IsAwake waiting queue n = length queue ≤ n
  IsAwake (running f) queue n = Unit {0}

  pub record IsSound (s : Background F) : Type 0 where
    pub in_order : s.ran ++ (at_work s.pc ++ s.queue) ≡ s.scheduled
    pub awake : IsAwake s.pc s.queue s.to_notify

  at_work-start_thread : (p : Pc F) → at_work (start_thread p) ≡ at_work p
  at_work-start_thread unstarted = refl
  at_work-start_thread ready = refl
  at_work-start_thread waiting = refl
  at_work-start_thread (running f) = refl

  at_work-wake : (p : Pc F) → at_work (wake p) ≡ at_work p
  at_work-wake unstarted = refl
  at_work-wake ready = refl
  at_work-wake waiting = refl
  at_work-wake (running f) = refl

  start_thread-IsAwake :
      (p : Pc F) (queue : List F) (f : F) (n : ℕ)
      → IsAwake p queue n
      → IsAwake (start_thread p) (queue ++ (f ∷ [])) (n + 1)
  start_thread-IsAwake unstarted queue f n h = tt
  start_thread-IsAwake ready queue f n h = tt
  start_thread-IsAwake waiting queue f n h = omega (arith, length-append queue (f ∷ []))
  start_thread-IsAwake (running g) queue f n h = tt

  wake-IsAwake :
      (p : Pc F) (queue : List F) (n : ℕ) → IsAwake p queue n → IsAwake (wake p) queue (n - 1)
  wake-IsAwake unstarted queue n h = h
  wake-IsAwake ready queue n h = tt
  wake-IsAwake waiting queue n h = tt
  wake-IsAwake (running f) queue n h = tt

  later :
      (ran w queue : List F) (f : F)
      → ran ++ (w ++ (queue ++ (f ∷ []))) ≡ (ran ++ (w ++ queue)) ++ (f ∷ [])
  later ran w queue f = simp append_assoc

  schedule-IsSound : {s : Background F} (f : F) → IsSound s → IsSound (schedule f s)
  unfolding schedule
  schedule-IsSound {s} f h = record {
    in_order =
        later s.ran (at_work (start_thread s.pc)) s.queue f
        ∙ ap (λ w. (s.ran ++ (w ++ s.queue)) ++ (f ∷ [])) (at_work-start_thread s.pc)
        ∙ ap (λ w. w ++ (f ∷ [])) h.in_order;
    awake = start_thread-IsAwake s.pc s.queue f s.to_notify h.awake;
  }

  take_item-IsSound :
      {s : Background F} (queue : List F)
      → s.pc ≡ ready
      → s.queue ≡ queue
      → IsSound s
      → IsSound (take_item queue s)
  take_item-IsSound {s} [] e q h = record {
    in_order = ap (λ p. s.ran ++ (at_work p ++ s.queue)) (sym e) ∙ h.in_order;
    awake = omega (arith, ap length q);
  }
  take_item-IsSound {s} (f ∷ queue) e q h = record {
    in_order =
        ap (λ w. s.ran ++ w) (sym q)
        ∙ ap (λ p. s.ran ++ (at_work p ++ s.queue)) (sym e)
        ∙ h.in_order;
    awake = tt;
  }

  bg_run-IsSound : {s : Background F} (f : F) → s.pc ≡ running f → IsSound s → IsSound (bg_run f s)
  unfolding bg_run
  bg_run-IsSound {s} f e h = record {
    in_order =
        append_assoc s.ran (f ∷ []) s.queue
        ∙ ap (λ p. s.ran ++ (at_work p ++ s.queue)) (sym e)
        ∙ h.in_order;
    awake = tt;
  }

  notify_one-IsSound : {s : Background F} → IsSound s → IsSound (notify_one s)
  unfolding notify_one
  notify_one-IsSound {s} h = record {
    in_order = ap (λ w. s.ran ++ (w ++ s.queue)) (at_work-wake s.pc) ∙ h.in_order;
    awake = wake-IsAwake s.pc s.queue s.to_notify h.awake;
  }

  pub Step-IsSound : {s t : Background F} → Step s t → IsSound s → IsSound t
  unfolding bg_take
  Step-IsSound (notify p) h = notify_one-IsSound h
  Step-IsSound {s} (take e) h = take_item-IsSound s.queue e refl h
  Step-IsSound (run f e) h = bg_run-IsSound f e h

  pub Reach-IsSound : {s : Background F} → Reach s → IsSound s
  unfolding new_background
  Reach-IsSound new = record { in_order = refl; awake = refl }
  Reach-IsSound (call f r) = schedule-IsSound f (Reach-IsSound r)
  Reach-IsSound (step r st) = Step-IsSound st (Reach-IsSound r)
  Reach-IsSound (spurious {s} r e) =
      let h = Reach-IsSound r in
      record {
        in_order = ap (λ p. s.ran ++ (at_work p ++ s.queue)) (sym e) ∙ h.in_order;
        awake = tt;
      }

  -- Whatever the threads do, what has been run, the item that runs and the queue are together what
  -- was scheduled, in its order: no item is lost, run twice or run out of turn.
  pub in_order-Reach :
      {s : Background F} → Reach s → s.ran ++ (at_work s.pc ++ s.queue) ≡ s.scheduled
  in_order-Reach r = (Reach-IsSound r).in_order
