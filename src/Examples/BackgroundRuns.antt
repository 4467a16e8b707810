-- ===== src/Examples/BackgroundRuns.antt =====
-- The queue and the threads of env_boost.cc on concrete runs.
use my_leveldb.Common.{ℕ, ◌<◌, ◌≡◌, ◌⊎◌, ◌+◌, refl, arith, [], ◌∷◌, ◌++◌, if◌then◌else◌}
use mathlib.Core.List.{Permᴰ}
use my_leveldb.Background.{
  Background, new_background, schedule, bg_take, Step, take, Reach, new, call, step,
}
use my_leveldb.Background.Drain.{work, Steps, IsDone, drain-Reach}
use my_leveldb.Background.Threads.{
  StartThreadState, Threads, no_threads, start_user_thread, wrapper_call, ThreadsReach, none_yet,
  start, call_function, count, wrapper_once,
}
use my_leveldb.Background.Sound.{at_work, in_order-Reach}

-- The items 7 and 8, of which the thread has taken one.
abbrev at_seven : Background ℕ
at_seven = bg_take (schedule 8 (schedule 7 new_background))

at_seven-Reach : Reach at_seven
unfolding new_background schedule
at_seven-Reach = step (call 8 (call 7 new)) (take refl)

in_order-Reach_example : at_seven.ran ++ (at_work at_seven.pc ++ at_seven.queue) ≡ 7 ∷ 8 ∷ []
unfolding new_background schedule bg_take
in_order-Reach_example = in_order-Reach at_seven-Reach

drain-Reach_example :
    ((t : Background ℕ) → Step at_seven t → work t < work at_seven)
    × (((t : Background ℕ) × Step at_seven t) ⊎ IsDone at_seven)
    × ((t : Background ℕ) × Steps at_seven t × (t.queue ≡ []) × (t.ran ≡ 7 ∷ 8 ∷ []))
unfolding new_background schedule bg_take
drain-Reach_example = drain-Reach at_seven-Reach

-- Two calls of `StartThread`, with the functions 7 and 8; the first thread has called its function.
abbrev unused_memory : ℕ → StartThreadState ℕ
unused_memory p = record { user_function = 0 }

abbrev one_called : Threads ℕ
one_called = wrapper_call 0 (start_user_thread 8 (start_user_thread 7 (no_threads unused_memory)))

one_called-ThreadsReach : ThreadsReach unused_memory (8 ∷ 7 ∷ []) one_called
unfolding no_threads start_user_thread
one_called-ThreadsReach = call_function 0 (start 8 (start 7 none_yet)) (omega arith)

wrapper_once_example :
    (count 1 one_called.waiting + count 1 one_called.called ≡ (if one_called.live 1 then 1 else 0))
    × Permᴰ {A = ℕ} (8 ∷ 7 ∷ []) (7 ∷ 8 ∷ [])
unfolding no_threads start_user_thread wrapper_call
wrapper_once_example = wrapper_once one_called-ThreadsReach 1
