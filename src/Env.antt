-- ===== src/Env.antt =====
-- env.h and env.cc: the interfaces of files and of the environment as records of functions over the
-- state `S` of the world, and the functions that are written over them. A pointer to an object is
-- `none` for NULL. A lock is a number.
pub mod System
pub mod PosixFiles
pub mod Loggers
pub mod Posix
pub mod Clock
pub mod Files
pub mod Reading
pub mod Streams
pub mod RoundTrip
use my_leveldb.Common.{
  ℕ, zero, suc, Bool, true, false, Option, none, some, List, [], ◌∷◌, ◌++◌, Bytes, if◌then◌else◌,
}
use my_leveldb.Common.Act.{Act, ◌>>=◌, ◌>>◌, pure, need}
use my_leveldb.Status.{Status, is_ok}

-- Each record ends with the destructor.
pub record SequentialFile (S : Type 0) : Type 0 where
  pub read : ℕ → Act S (Status × Bytes)
  pub skip : ℕ → Act S Status
  pub close : Act S (Unit {0})

pub record RandomAccessFile (S : Type 0) : Type 0 where
  pub read : (offset n : ℕ) → Act S (Status × Bytes)
  pub close : Act S (Unit {0})

pub record WritableFile (S : Type 0) : Type 0 where
  pub append : Bytes → Act S Status
  pub close : Act S Status
  pub flush : Act S Status
  pub sync : Act S Status
  pub destroy : Act S (Unit {0})

-- `Logv`, given the text that its format makes of its arguments.
pub record Logger (S : Type 0) : Type 0 where
  pub logv : (message : Bytes) → Act S (Unit {0})
  pub destroy : Act S (Unit {0})

-- `Schedule` and `StartThread` belong to the threads, which this state does not have.
pub record Env (S : Type 0) : Type 0 where
  pub new_sequential_file : Bytes → Act S (Status × Option (SequentialFile S))
  pub new_random_access_file : Bytes → Act S (Status × Option (RandomAccessFile S))
  pub new_writable_file : Bytes → Act S (Status × Option (WritableFile S))
  pub file_exists : Bytes → Act S Bool
  pub get_children : Bytes → Act S (Status × List Bytes)
  pub delete_file : Bytes → Act S Status
  pub create_dir : Bytes → Act S Status
  pub delete_dir : Bytes → Act S Status
  pub get_file_size : Bytes → Act S (Status × ℕ)
  pub rename_file : (src target : Bytes) → Act S Status
  pub lock_file : Bytes → Act S (Status × Option ℕ)
  pub unlock_file : ℕ → Act S Status
  pub get_test_directory : Act S (Status × Bytes)
  pub new_logger : Bytes → Act S (Status × Option (Logger S))
  pub now_micros : Act S ℕ
  pub sleep_for_microseconds : ℕ → Act S (Unit {0})

abbrev pub k_buffer_size : ℕ
k_buffer_size = 8192

module _ {S : Type 0} where
  -- `EnvWrapper` over its `target_`.
  unfoldable pub env_wrapper : Env S → Env S
  env_wrapper target = record {
    new_sequential_file = λ f. target.new_sequential_file f;
    new_random_access_file = λ f. target.new_random_access_file f;
    new_writable_file = λ f. target.new_writable_file f;
    file_exists = λ f. target.file_exists f;
    get_children = λ dir. target.get_children dir;
    delete_file = λ f. target.delete_file f;
    create_dir = λ d. target.create_dir d;
    delete_dir = λ d. target.delete_dir d;
    get_file_size = λ f. target.get_file_size f;
    rename_file = λ s t. target.rename_file s t;
    lock_file = λ f. target.lock_file f;
    unlock_file = λ l. target.unlock_file l;
    get_test_directory = target.get_test_directory;
    new_logger = λ f. target.new_logger f;
    now_micros = target.now_micros;
    sleep_for_microseconds = λ micros. target.sleep_for_microseconds micros;
  }

  -- `Log`
  unfoldable pub log : (info_log : Option (Logger S)) → (message : Bytes) → Act S (Unit {0})
  log none message = pure tt
  log (some logger) message = logger.logv message

  -- The loop of `ReadFileToString`: the last status and `*data`; `none` if the fuel has run out.
  unfoldable pub read_loop : (fuel : ℕ) → SequentialFile S → Bytes → Act S (Status × Bytes)
  read_loop zero file data_ s = none
  read_loop (suc fuel) file data_ s = elim (file.read k_buffer_size s) [
    | none ↦ none
    | some ((status, fragment), t) ↦ elim (is_ok status) [
      | false ↦ some ((status, data_), t)
      | true ↦ elim fragment [
        | [] ↦ some ((status, data_), t)
        | x ∷ xs ↦ read_loop fuel file (data_ ++ (x ∷ xs)) t
      ]
    ]
  ]

  -- The part of `ReadFileToString` after the file is there.
  unfoldable pub read_and_close : (fuel : ℕ) → SequentialFile S → Act S (Status × Bytes)
  unfolding read_loop
  read_and_close fuel file = do r ← read_loop fuel file []; _ ← file.close; pure r

  module _ (env : Env S) where
    -- The part of `WriteStringToFile` after the file is there.
    unfoldable pub write_and_close : (file : WritableFile S) → (data_ fname : Bytes) → Act S Status
    write_and_close file data_ fname = do
      appended ← file.append data_
      s ← (if is_ok appended then file.close else pure appended)
      _ ← file.destroy
      if is_ok s then pure s else do _ ← env.delete_file fname; pure s

    unfoldable pub write_string_to_file : (data_ fname : Bytes) → Act S Status
    unfolding write_and_close
    write_string_to_file data_ fname = do
      (s, result) ← env.new_writable_file fname
      if is_ok s then (do file ← need result; write_and_close file data_ fname) else pure s

    unfoldable pub read_file_to_string : (fuel : ℕ) → (fname : Bytes) → Act S (Status × Bytes)
    unfolding read_and_close
    read_file_to_string fuel fname = do
      (s, result) ← env.new_sequential_file fname
      if is_ok s then (do file ← need result; read_and_close fuel file) else pure (s, [])
