-- ===== src/Env/System.antt =====
-- The calls of the C library and of Boost that env_boost.cc makes are the record `Os`, whose state `S`
-- is the world: an open file is a number, `none` is a NULL or a negative result, and an error code or
-- an exception is its message. As the result of an action `none` is a failed `assert` or an exception
-- that is not caught.
use my_leveldb.Common.{ℕ, Bool, Option, none, some, List, Bytes}
use my_leveldb.Common.Act.{Act, pure, need}
use my_leveldb.Status.{Status, ok_status, io_error}

pub record Os (S : Type 0) : Type 0 where
  -- `fopen(fname, "rb")`, `fclose`, `fread` with what it stored, `feof`, `fseek(file, n, SEEK_CUR)`,
  -- which tells if it failed, and `strerror(errno)`
  pub fopen : Bytes → S → Option ℕ × S
  pub fclose : ℕ → S → Unit {0} × S
  pub fread : (file n : ℕ) → S → Bytes × S
  pub feof : (file : ℕ) → S → Bool
  pub fseek : (file n : ℕ) → S → Bool × S
  pub strerror : S → Bytes
  -- `open`, `close`, `pread`, and for Windows `_lseeki64`, which tells if it failed, and `_read`
  pub open_fd : Bytes → S → Option ℕ × S
  pub lseek : (fd offset : ℕ) → S → Bool × S
  pub read_fd : (fd n : ℕ) → S → Option Bytes × S
  pub close_fd : ℕ → S → Unit {0} × S
  pub pread : (fd offset n : ℕ) → S → Option Bytes × S
  -- `std::ofstream`: `open` with truncation, `write`, `good`, `is_open`, `flush` and `close`; the
  -- last two with the exception that they throw, if any
  pub stream_open : Bytes → S → ℕ × S
  pub stream_write : (file : ℕ) → Bytes → S → Unit {0} × S
  pub stream_good : (file : ℕ) → S → Bool
  pub stream_is_open : (file : ℕ) → S → Bool
  pub stream_flush : (file : ℕ) → S → Option Bytes × S
  pub stream_close : (file : ℕ) → S → Option Bytes × S
  -- `boost::filesystem`, each with the message of the error code if that is set
  pub exists : Bytes → S → Bool
  pub is_directory : Bytes → S → Bool
  pub list_directory : Bytes → S → (List Bytes × Option Bytes) × S
  pub remove : Bytes → S → Option Bytes × S
  pub create_directories : Bytes → S → (Bool × Bytes) × S
  pub remove_all : Bytes → S → (ℕ × Bytes) × S
  pub file_size : Bytes → S → (ℕ × Option Bytes) × S
  pub rename : (src target : Bytes) → S → Option Bytes × S
  pub temp_directory_path : S → Option Bytes
  pub process_id : S → Bytes
  -- `boost::interprocess::file_lock`: the constructor, `try_lock` and `unlock`, with the exception
  -- that they throw, if any
  pub create_file : Bytes → S → Unit {0} × S
  pub file_lock : Bytes → S → (ℕ × Option Bytes) × S
  pub try_lock : (lock : ℕ) → S → (Bool × Option Bytes) × S
  pub unlock : (lock : ℕ) → S → Option Bytes × S
  -- `fopen(fname, "wt")`, `fwrite` and `fflush`, and what `_snprintf_s` makes of the local time in a
  -- round of `WinLogger::Logv` and of the thread
  pub fopen_text : Bytes → S → Option ℕ × S
  pub fwrite : (file : ℕ) → Bytes → S → Unit {0} × S
  pub fflush : (file : ℕ) → S → Unit {0} × S
  pub log_header : (round : ℕ) → S → Bytes
  -- `boost::posix_time::microsec_clock::universal_time()` in microseconds since the first day that
  -- the clock counts, and `boost::this_thread::sleep`
  pub universal_time : S → ℕ
  pub sleep : (micros : ℕ) → S → Unit {0} × S
  -- `boost::call_once` on the flag `once`: whether the function is to run
  pub call_once : S → Bool × S

module _ {S : Type 0} (os : Os S) where
  -- `Status::IOError(name, message)`
  abbrev pub fail : (name message : Bytes) → Act S Status
  fail name message = need (io_error name message)

  -- `if (ec) result = Status::IOError(name, ec.message())`, and a `catch` likewise
  abbrev pub report : (name : Bytes) → Option Bytes → Act S Status
  report name none = pure ok_status
  report name (some message) = fail name message
