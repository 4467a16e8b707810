-- ===== src/Background.antt =====
-- env_boost.cc: the queue of background work, `PosixEnv::Schedule` and `PosixEnv::BGThread`; the
-- threads of `PosixEnv::StartThread` are in Threads. Any
-- number of threads call `Schedule`; one background thread runs what they scheduled. A step is what a
-- thread does while it holds `mu_`, the call of `notify_one` behind it, or the call of a function.
-- An item is of any type `F`: a function with its argument.
pub mod Sound
pub mod Drain
pub mod Threads
use my_leveldb.Common.{ℕ, zero, suc, ◌+◌, ◌-◌, ◌<◌, ◌≡◌, List, [], ◌∷◌, ◌++◌}

-- The background thread: not created; about to take the lock; blocked in `bgsignal_.wait`; or
-- running an item.
pub data Pc (F : Type 0) : Type 0 where
  unstarted : Pc F
  ready : Pc F
  waiting : Pc F
  running : F → Pc F

-- `queue_` and the thread, with the calls of `notify_one` that are still to come, what has been run,
-- and what was scheduled, in their order.
pub record Background (F : Type 0) : Type 0 where
  pub queue : List F
  pub pc : Pc F
  pub to_notify : ℕ
  pub ran : List F
  pub scheduled : List F

module _ {F : Type 0} where
  unfoldable pub new_background : Background F
  new_background = record { queue = []; pc = unstarted; to_notify = 0; ran = []; scheduled = [] }

  -- `if (!bgthread_)`: the new thread begins at its loop.
  abbrev pub start_thread : Pc F → Pc F
  start_thread unstarted = ready
  start_thread ready = ready
  start_thread waiting = waiting
  start_thread (running f) = running f

  -- `Schedule` up to the release of the lock.
  unfoldable pub schedule : F → Background F → Background F
  schedule f s = record s {
    queue = s.queue ++ (f ∷ []);
    pc = start_thread s.pc;
    to_notify = s.to_notify + 1;
    scheduled = s.scheduled ++ (f ∷ []);
  }

  abbrev pub wake : Pc F → Pc F
  wake unstarted = unstarted
  wake ready = ready
  wake waiting = ready
  wake (running f) = running f

  -- The end of `Schedule`, `bgsignal_.notify_one()`.
  unfoldable pub notify_one : Background F → Background F
  notify_one s = record s { pc = wake s.pc; to_notify = s.to_notify - 1 }

  -- The body of `BGThread` under the lock: it waits if the queue is empty, and else takes an item.
  abbrev pub take_item : List F → Background F → Background F
  take_item [] s = record s { pc = waiting }
  take_item (f ∷ queue) s = record s { pc = running f; queue = queue }

  unfoldable pub bg_take : Background F → Background F
  bg_take s = take_item s.queue s

  -- `(*function)(arg)`
  unfoldable pub bg_run : F → Background F → Background F
  bg_run f s = record s { pc = ready; ran = s.ran ++ (f ∷ []) }

  -- What the threads do once all is scheduled.
  pub data Step (s : Background F) : Background F → Type 0 where
    notify : 0 < s.to_notify → Step s (notify_one s)
    take : s.pc ≡ ready → Step s (bg_take s)
    run : (f : F) → s.pc ≡ running f → Step s (bg_run f s)

  -- All that may happen: also another `Schedule`, and a wake-up without a call of `notify_one`.
  pub data Reach : Background F → Type 0 where
    new : Reach new_background
    call : {s : Background F} (f : F) → Reach s → Reach (schedule f s)
    step : {s t : Background F} → Reach s → Step s t → Reach t
    spurious : {s : Background F} → Reach s → s.pc ≡ waiting → Reach (record s { pc = ready })
