-- ===== src/Port/Mutex.antt =====
-- port_win.cc: `Mutex`, whose `cs_` is NULL (`none`) or a critical section of the operating system.
-- The calls on a critical section are the record `Sections`, over the state `S` of the world.
use my_leveldb.Common.{ℕ, Option, none, some}
use my_leveldb.Common.Act.{Act, ◌>>=◌, pure, need, call}

-- `new CRITICAL_SECTION`, `InitializeCriticalSection`, `EnterCriticalSection`, which returns once the
-- section is entered, `LeaveCriticalSection`, `DeleteCriticalSection` and `delete`.
pub record Sections (S : Type 0) : Type 0 where
  pub new_section : S → ℕ × S
  pub initialize : ℕ → S → Unit {0} × S
  pub enter : ℕ → S → Unit {0} × S
  pub leave : ℕ → S → Unit {0} × S
  pub delete_section : ℕ → S → Unit {0} × S
  pub free_section : ℕ → S → Unit {0} × S

abbrev pub Mutex : Type 0
Mutex = Option ℕ

module _ {S : Type 0} (os : Sections S) where
  unfoldable pub new_mutex : Act S Mutex
  new_mutex = do cs ← call os.new_section; _ ← call (os.initialize cs); pure (some cs)

  unfoldable pub delete_mutex : Mutex → Act S Mutex
  delete_mutex mutex = do
    cs ← need mutex
    _ ← call (os.delete_section cs)
    _ ← call (os.free_section cs)
    pure none

  unfoldable pub lock : Mutex → Act S (Unit {0})
  lock mutex = do cs ← need mutex; call (os.enter cs)

  unfoldable pub unlock : Mutex → Act S (Unit {0})
  unlock mutex = do cs ← need mutex; call (os.leave cs)

  unfoldable pub assert_held : Mutex → Act S (Unit {0})
  assert_held mutex = do _ ← need mutex; pure tt
