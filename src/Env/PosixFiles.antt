-- ===== src/Env/PosixFiles.antt =====
-- env_boost.cc: the files of `PosixEnv`.
use my_leveldb.Common.{ℕ, Option, none, some, [], ◌++◌, Bytes, if◌then◌else◌, ltb, length}
use my_leveldb.Common.Act.{Act, ◌>>=◌, pure, need, call, ask}
use my_leveldb.Status.{Status, ok_status, text}
use my_leveldb.Env.{SequentialFile, RandomAccessFile, WritableFile}
use my_leveldb.Env.System.{Os, fail, report}

module _ {S : Type 0} (os : Os S) where
  -- `PosixSequentialFile`
  abbrev pub short_read : (fname : Bytes) → (file : ℕ) → Act S Status
  short_read fname file = do
    at_end ← ask (os.feof file)
    message ← ask os.strerror
    if at_end then pure ok_status else fail os fname message

  unfoldable pub sequential_read : (fname : Bytes) → (file n : ℕ) → Act S (Status × Bytes)
  sequential_read fname file n = do
    result ← call (os.fread file n)
    s ← (if ltb (length result) n then short_read fname file else pure ok_status)
    pure (s, result)

  unfoldable pub sequential_skip : (fname : Bytes) → (file n : ℕ) → Act S Status
  sequential_skip fname file n = do
    failed ← call (os.fseek file n)
    message ← ask os.strerror
    if failed then fail os fname message else pure ok_status

  unfoldable pub posix_sequential_file : (fname : Bytes) → (file : ℕ) → SequentialFile S
  unfolding sequential_read sequential_skip
  posix_sequential_file fname file = record {
    read = λ n. sequential_read fname file n;
    skip = λ n. sequential_skip fname file n;
    close = call (os.fclose file);
  }

  -- `PosixRandomAccessFile`: by `pread` elsewhere, and by two calls under a lock on Windows, the
  -- platform of the file that follows
  abbrev pub read_status : (fname : Bytes) → Option Bytes → Act S (Status × Bytes)
  read_status fname none = do message ← ask os.strerror; s ← fail os fname message; pure (s, [])
  read_status fname (some result) = pure (ok_status, result)

  unfoldable pub random_read : (fname : Bytes) → (fd offset n : ℕ) → Act S (Status × Bytes)
  random_read fname fd offset n = do r ← call (os.pread fd offset n); read_status fname r

  -- A failed seek leaves `*result` as it was, which is empty in a new `Slice`.
  unfoldable pub random_read_win : (fname : Bytes) → (fd offset n : ℕ) → Act S (Status × Bytes)
  random_read_win fname fd offset n = do
    failed ← call (os.lseek fd offset)
    let at_offset : Act S (Status × Bytes) = call (os.read_fd fd n) >>= λ r. read_status fname r
    if failed then read_status fname none else at_offset

  unfoldable pub posix_random_access_file : (fname : Bytes) → (fd : ℕ) → RandomAccessFile S
  unfolding random_read_win
  posix_random_access_file fname fd = record {
    read = λ offset n. random_read_win fname fd offset n;
    close = call (os.close_fd fd);
  }

  -- `BoostFile`
  unfoldable pub boost_append : (path : Bytes) → (file : ℕ) → (data_ : Bytes) → Act S Status
  boost_append path file data_ = do
    _ ← call (os.stream_write file data_)
    good ← ask (os.stream_good file)
    if good then pure ok_status else fail os (path ++ text " Append") (text "cannot write")

  -- `Sync`, by `Flush`, whose status is dropped
  unfoldable pub boost_sync : (path : Bytes) → (file : ℕ) → Act S Status
  boost_sync path file = do
    thrown ← call (os.stream_flush file)
    report os (path ++ text " sync") thrown

  unfoldable pub boost_flush : (file : ℕ) → Act S Status
  boost_flush file = do
    thrown ← call (os.stream_flush file)
    elim thrown [ none ↦ pure ok_status | some e ↦ need none ]

  -- `Close`: the status of its `Sync` is dropped
  unfoldable pub sync_and_close : (path : Bytes) → (file : ℕ) → Act S Status
  unfolding boost_sync
  sync_and_close path file = do
    _ ← boost_sync path file
    thrown ← call (os.stream_close file)
    report os (path ++ text " close") thrown

  unfoldable pub boost_close : (path : Bytes) → (file : ℕ) → Act S Status
  unfolding sync_and_close
  boost_close path file = do
    is_open ← ask (os.stream_is_open file)
    if is_open then sync_and_close path file else pure ok_status

  unfoldable pub boost_file : (path : Bytes) → (file : ℕ) → WritableFile S
  unfolding boost_append boost_sync boost_flush boost_close
  boost_file path file = record {
    append = λ data_. boost_append path file data_;
    close = boost_close path file;
    flush = boost_flush file;
    sync = boost_sync path file;
    destroy = boost_close path file >>= λ _. pure tt;
  }
