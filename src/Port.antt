-- ===== src/Port.antt =====
-- port_win.h and port_win.cc: the condition variable over two semaphores, and the atomic pointer. Any
-- number of threads run `Wait`, and one at a time, which holds `wait_mtx_`, runs `Signal` or
-- `SignalAll`. A step is what a thread does between two points at which it may have to wait: a lock,
-- a semaphore. The semaphores' bound of 10000 is not modelled, nor is the user's mutex `mu_`.
pub mod Mutex
pub mod Signal
pub mod SignalAll
use my_leveldb.Common.{
  ℕ, zero, suc, ◌+◌, ◌-◌, ◌<◌, ◌≤◌, ◌≡◌, Bool, true, false, ltb, if◌then◌else◌, Option, none, Bytes,
}

-- Where the thread that holds `wait_mtx_` is: nowhere, at the end of `Signal`, at the head of the
-- outer or of the inner loop of `SignalAll`, or waiting in the inner loop.
pub data Pc : Type 0 where
  idle : Pc
  handshake : Pc
  outer : ℕ → Pc
  inner : ℕ → Pc
  inner_wait : ℕ → Pc

-- `waiting_` and the counts of the semaphores; the threads in `Wait` before `sem1_`, those before
-- the release of `sem2_`, and those that have returned.
pub record CondVar : Type 0 where
  pub waiting : ℕ
  pub sem1 : ℕ
  pub sem2 : ℕ
  pub blocked : ℕ
  pub passing : ℕ
  pub woken : ℕ
  pub pc : Pc

unfoldable pub new_cond_var : CondVar
new_cond_var = record {
  waiting = 0;
  sem1 = 0;
  sem2 = 0;
  blocked = 0;
  passing = 0;
  woken = 0;
  pc = idle;
}

-- `Wait` up to `sem1_`, past `sem1_`, and past the release of `sem2_`.
unfoldable pub wait_enter : CondVar → CondVar
wait_enter c = record c { waiting = c.waiting + 1; blocked = c.blocked + 1 }

unfoldable pub wait_pass : CondVar → CondVar
wait_pass c = record c { sem1 = c.sem1 - 1; blocked = c.blocked - 1; passing = c.passing + 1 }

unfoldable pub wait_release : CondVar → CondVar
wait_release c = record c { sem2 = c.sem2 + 1; passing = c.passing - 1; woken = c.woken + 1 }

-- `Signal` up to the wait for `sem2_`, and its end.
unfoldable pub signal_begin : CondVar → CondVar
signal_begin c =
    if ltb 0 c.waiting
    then record c { waiting = c.waiting - 1; sem1 = c.sem1 + 1; pc = handshake }
    else c

unfoldable pub signal_end : CondVar → CondVar
signal_end c = record c { sem2 = c.sem2 - 1; pc = idle }

-- `SignalAll`: the test of the outer loop with its release of `sem1_`, the test of the inner one with
-- its decrement, and the end of the wait for `sem2_`.
unfoldable pub all_outer : ℕ → CondVar → CondVar
all_outer i c =
    if ltb i c.waiting then record c { sem1 = c.sem1 + 1; pc = inner i } else record c { pc = idle }

unfoldable pub all_inner : ℕ → CondVar → CondVar
all_inner i c =
    if ltb 0 c.waiting
    then record c { waiting = c.waiting - 1; pc = inner_wait i }
    else record c { pc = outer (i + 1) }

unfoldable pub all_woken : ℕ → CondVar → CondVar
all_woken i c = record c { sem2 = c.sem2 - 1; pc = inner i }

-- What threads that are already in `Wait`, and the one in `Signal` or `SignalAll`, may do next.
pub data Step (c : CondVar) : CondVar → Type 0 where
  pass : 0 < c.sem1 → 0 < c.blocked → Step c (wait_pass c)
  release : 0 < c.passing → Step c (wait_release c)
  finish : c.pc ≡ handshake → 0 < c.sem2 → Step c (signal_end c)
  go_outer : (i : ℕ) → c.pc ≡ outer i → Step c (all_outer i c)
  go_inner : (i : ℕ) → c.pc ≡ inner i → Step c (all_inner i c)
  go_woken : (i : ℕ) → c.pc ≡ inner_wait i → 0 < c.sem2 → Step c (all_woken i c)

-- The calls that threads begin; each takes `wait_mtx_`, so nobody holds it.
pub data Call (c : CondVar) : CondVar → Type 0 where
  wait : c.pc ≡ idle → Call c (wait_enter c)
  signal : c.pc ≡ idle → Call c (signal_begin c)
  signal_all : c.pc ≡ idle → Call c (record c { pc = outer 0 })

-- `AtomicPointer`, whose `rep_` is its only state: what the loads return and the stores leave.
unfoldable pub acquire_load : {V : Type 0} → V → V
acquire_load rep = rep

unfoldable pub release_store : {V : Type 0} → V → V → V
release_store rep v = v

unfoldable pub no_barrier_load : {V : Type 0} → V → V
no_barrier_load rep = rep

unfoldable pub no_barrier_store : {V : Type 0} → V → V → V
no_barrier_store rep v = v

-- The constructors: the null pointer, and a store of the argument.
unfoldable pub null_pointer : {V : Type 0} → Option V
null_pointer = none

unfoldable pub atomic_pointer : {V : Type 0} → Option V → Option V
unfolding release_store
atomic_pointer v = release_store null_pointer v

-- The functions for Snappy, where SNAPPY is not defined, with their output as it is after the call,
-- and `GetHeapProfile`.
unfoldable pub snappy_compress : (input output : Bytes) → Bool × Bytes
snappy_compress input output = (false, output)

unfoldable pub snappy_get_uncompressed_length : (input : Bytes) → (result : ℕ) → Bool × ℕ
snappy_get_uncompressed_length input result = (false, result)

unfoldable pub snappy_uncompress : (input output : Bytes) → Bool × Bytes
snappy_uncompress input output = (false, output)

unfoldable pub get_heap_profile : Bool
get_heap_profile = false
