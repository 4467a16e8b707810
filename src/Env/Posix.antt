-- ===== src/Env/Posix.antt =====
-- env_boost.cc: the functions of `PosixEnv` on the file system, its loggers and its clock, and
-- `Env::Default`.
use my_leveldb.Common.{
  ℕ, Bool, true, false, ◌&&◌, Option, none, some, List, [], ◌++◌, Bytes, if◌then◌else◌, ◌==◌, ◌%◌,
  replicate,
}
use my_leveldb.Common.Act.{Act, ◌>>=◌, ◌>>◌, pure, call, ask, ensure}
use my_leveldb.Status.{Status, ok_status, text}
use my_leveldb.Env.{SequentialFile, RandomAccessFile, WritableFile, Logger, Env}
use my_leveldb.Env.Loggers.{new_win_logger}
use my_leveldb.Env.PosixFiles.{posix_sequential_file, posix_random_access_file, boost_file}
use my_leveldb.Env.System.{Os, fail, report}

-- The microseconds of a day.
abbrev pub micros_per_day : ℕ
micros_per_day = 86400000000

module _ {S : Type 0} (os : Os S) where
  -- The functions of `PosixEnv`
  abbrev pub opened_sequential : Bytes → Option ℕ → Act S (Status × Option (SequentialFile S))
  opened_sequential fname none = do
    message ← ask os.strerror
    s ← fail os fname message
    pure (s, none)
  opened_sequential fname (some f) = pure (ok_status, some (posix_sequential_file os fname f))

  unfoldable pub new_sequential_file : Bytes → Act S (Status × Option (SequentialFile S))
  unfolding posix_sequential_file
  new_sequential_file fname = do f ← call (os.fopen fname); opened_sequential fname f

  abbrev opened_random : Bytes → Option ℕ → Act S (Status × Option (RandomAccessFile S))
  opened_random fname none = do message ← ask os.strerror; s ← fail os fname message; pure (s, none)
  opened_random fname (some fd) = pure (ok_status, some (posix_random_access_file os fname fd))

  unfoldable pub new_random_access_file : Bytes → Act S (Status × Option (RandomAccessFile S))
  unfolding posix_random_access_file
  new_random_access_file fname = do fd ← call (os.open_fd fname); opened_random fname fd

  -- `std::ofstream::open` throws nothing here, so the `catch` is never entered.
  unfoldable pub new_writable_file : Bytes → Act S (Status × Option (WritableFile S))
  unfolding boost_file
  new_writable_file fname = do
    file ← call (os.stream_open fname)
    pure (ok_status, some (boost_file os fname file))

  unfoldable pub get_children : Bytes → Act S (Status × List Bytes)
  get_children dir = do
    (names, ec) ← call (os.list_directory dir)
    s ← report os dir ec
    pure (s, elim ec [ none ↦ names | some _ ↦ [] ])

  unfoldable pub delete_file : Bytes → Act S Status
  delete_file fname = do ec ← call (os.remove fname); report os fname ec

  abbrev create_missing : Bytes → Act S Status
  create_missing name = do
    (created, message) ← call (os.create_directories name)
    if created then pure ok_status else fail os name message

  unfoldable pub create_dir : Bytes → Act S Status
  create_dir name = do
    there ← ask (os.exists name)
    directory ← ask (os.is_directory name)
    if there && directory then pure ok_status else create_missing name

  unfoldable pub delete_dir : Bytes → Act S Status
  delete_dir name = do
    (removed, message) ← call (os.remove_all name)
    if removed == 0 then fail os name message else pure ok_status

  unfoldable pub get_file_size : Bytes → Act S (Status × ℕ)
  get_file_size fname = do
    (size, ec) ← call (os.file_size fname)
    s ← report os fname ec
    pure (s, elim ec [ none ↦ size | some _ ↦ 0 ])

  unfoldable pub rename_file : (src target : Bytes) → Act S Status
  rename_file src target = do ec ← call (os.rename src target); report os src ec

  -- `LockFile`: the file is created if it is missing, and has to be there then.
  abbrev caught : (fname message : Bytes) → Act S (Status × Option ℕ)
  caught fname message = fail os (text "lock " ++ fname) message >>= λ s. pure (s, none)

  abbrev tried_lock : Bytes → (lock : ℕ) → Bool → Option Bytes → Act S (Status × Option ℕ)
  tried_lock fname lock got (some message) = caught fname message
  tried_lock fname lock true none = pure (ok_status, some lock)
  tried_lock fname lock false none =
      fail os (text "acquiring lock " ++ (fname ++ text " failed")) [] >>= λ s. pure (s, none)

  abbrev made_lock : Bytes → (lock : ℕ) → Option Bytes → Act S (Status × Option ℕ)
  made_lock fname lock (some message) = caught fname message
  made_lock fname lock none = do
    (got, thrown) ← call (os.try_lock lock)
    tried_lock fname lock got thrown

  unfoldable pub lock_file : Bytes → Act S (Status × Option ℕ)
  lock_file fname = do
    there ← ask (os.exists fname)
    _ ← (if there then pure tt else call (os.create_file fname))
    there ← ask (os.exists fname)
    ensure there
    (lock, thrown) ← call (os.file_lock fname)
    made_lock fname lock thrown

  unfoldable pub unlock_file : (lock : ℕ) → Act S Status
  unlock_file lock = do thrown ← call (os.unlock lock); report os (text "unlock") thrown

  -- `/=` of `boost::filesystem::path`
  abbrev slash : Bytes → Bytes → Bytes
  slash dir name = dir ++ (text "/" ++ name)

  abbrev base_directory : Option Bytes → Bytes
  base_directory none = text "tmp"
  base_directory (some dir) = dir

  unfoldable pub get_test_directory : Act S (Status × Bytes)
  unfolding create_dir
  get_test_directory = do
    temp ← ask os.temp_directory_path
    id ← ask os.process_id
    let path = slash (slash (base_directory temp) (text "leveldb_tests")) id
    _ ← create_dir path
    pure (ok_status, path)

  abbrev opened_logger : Bytes → Option ℕ → Act S (Status × Option (Logger S))
  opened_logger fname none = do message ← ask os.strerror; s ← fail os fname message; pure (s, none)
  opened_logger fname (some f) = do
    logger ← new_win_logger os (some f)
    pure (ok_status, some logger)

  unfoldable pub new_logger : Bytes → Act S (Status × Option (Logger S))
  unfolding new_win_logger
  new_logger fname = do f ← call (os.fopen_text fname); opened_logger fname f

  -- `time_of_day().total_microseconds()` of the time, as a `uint64_t`.
  unfoldable pub now_micros : Act S ℕ
  now_micros = ask (λ s. os.universal_time s % micros_per_day)

  unfoldable pub sleep_for_microseconds : ℕ → Act S (Unit {0})
  sleep_for_microseconds micros = call (os.sleep micros)

  unfoldable pub posix_env : Env S
  unfolding new_sequential_file new_random_access_file new_writable_file get_children delete_file
      create_dir delete_dir get_file_size rename_file lock_file unlock_file get_test_directory
      new_logger now_micros sleep_for_microseconds
  posix_env = record {
    new_sequential_file = λ f. new_sequential_file f;
    new_random_access_file = λ f. new_random_access_file f;
    new_writable_file = λ f. new_writable_file f;
    file_exists = λ f. ask (os.exists f);
    get_children = λ d. get_children d;
    delete_file = λ f. delete_file f;
    create_dir = λ d. create_dir d;
    delete_dir = λ d. delete_dir d;
    get_file_size = λ f. get_file_size f;
    rename_file = λ s t. rename_file s t;
    lock_file = λ f. lock_file f;
    unlock_file = λ l. unlock_file l;
    get_test_directory = get_test_directory;
    new_logger = λ f. new_logger f;
    now_micros = now_micros;
    sleep_for_microseconds = λ micros. sleep_for_microseconds micros;
  }

  -- `default_env`, NULL before the first call of `Env::Default`, and `global_read_only_buf`.
  pub record Statics : Type 0 where
    pub default_env : Option (Env S)
    pub global_read_only_buf : Bytes

  unfoldable pub init_default_env : Statics → Statics
  unfolding posix_env
  init_default_env statics = record {
    default_env = some posix_env;
    global_read_only_buf = replicate 32768 0;
  }

  -- `Env::Default`
  unfoldable pub env_default : Statics → Act S (Option (Env S) × Statics)
  unfolding init_default_env
  env_default statics = do
    first ← call os.call_once
    let now = if first then init_default_env statics else statics
    pure (now.default_env, now)
