-- ===== src/Examples/PortRuns.antt =====
-- port_win.cc on a concrete run: two threads call `Wait`, and a third one `Signal` or `SignalAll`.
use my_leveldb.Common.{◌+◌, ◌<◌, ◌≤◌, ◌≡◌, ◌≢◌, refl, arith}
use my_leveldb.Port.{
  idle, outer, CondVar, new_cond_var, wait_enter, signal_begin, all_outer, wait_pass, Step,
  go_outer, pass,
}
use my_leveldb.Port.Signal.{Reach, new, wait, signal, Steps, here, next, to_go, signal_progress}
use my_leveldb.Port.SignalAll.{signal_all-ne-idle}

abbrev two_wait : CondVar
two_wait = wait_enter (wait_enter new_cond_var)

two_wait-Reach : Reach two_wait
unfolding new_cond_var wait_enter
two_wait-Reach = wait (wait new refl) refl

-- `Signal` has given `sem1_` its token.
signal_progress_example :
    (0 < to_go (signal_begin two_wait))
    × (to_go (signal_begin two_wait) ≤ 3)
    × ((d : CondVar) × Step (signal_begin two_wait) d)
    × ((d : CondVar) → Step (signal_begin two_wait) d → to_go d + 1 ≡ to_go (signal_begin two_wait))
unfolding new_cond_var wait_enter signal_begin
signal_progress_example = signal_progress (signal two_wait-Reach refl) refl

-- `SignalAll` has released `sem1_` once, and a thread has passed it.
abbrev one_passed : CondVar
one_passed = wait_pass (all_outer 0 (record two_wait { pc = outer 0 }))

one_passed-Steps : Steps (record two_wait { pc = outer 0 }) one_passed
unfolding new_cond_var wait_enter all_outer
one_passed-Steps = next (next here (go_outer 0 refl)) (pass (omega arith) (omega arith))

signal_all-ne-idle_example : one_passed.pc ≢ idle
unfolding new_cond_var wait_enter
signal_all-ne-idle_example = signal_all-ne-idle two_wait-Reach refl (omega arith) one_passed-Steps
