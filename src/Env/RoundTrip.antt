-- ===== src/Env/RoundTrip.antt =====
-- `WriteStringToFile` and then `ReadFileToString` on `PosixEnv`, over an operating system that keeps
-- what it is given.
use my_leveldb.Common.{
  subst, ℕ, suc, ◌*◌, ◌≤◌, ◌≡◌, ap, ◌∙◌, arith, true, false, Option, some, [], ◌++◌, Bytes, length,
  if◌then◌else◌,
}
use my_leveldb.Common.Act.{pure, bind_some}
use my_leveldb.Status.{ok_status, is_ok, text}
use my_leveldb.Env.{read_file_to_string, write_and_close, write_string_to_file, k_buffer_size}
use my_leveldb.Env.Posix.{posix_env, new_writable_file}
use my_leveldb.Env.PosixFiles.{boost_append, boost_close, boost_file}
use my_leveldb.Env.System.{Os, fail}
use my_leveldb.Env.Streams.{IsQuiet, boost_close-open, boost_close-closed}
use my_leveldb.Env.Reading.{IsStream, read_file_to_string-posix_env}

module _ {S : Type 0} where
  -- The files by their names. A stream knows its name and what it was given since it was opened; as
  -- long as it is good nothing of that is lost, an error is not forgotten, and once it is closed and
  -- good the file holds what it was given. A file that is there can be opened and read.
  pub record IsDisk (os : Os S) : Type 0 where
    pub contents : S → Bytes → Option Bytes
    pub given : ℕ → S → Bytes
    pub name : ℕ → S → Bytes
    pub left : ℕ → S → Bytes
    pub opens :
        (fname : Bytes) (s : S)
        → let o = os.stream_open fname s in
          os.stream_good o.0 o.1 ≡ true
          → (given o.0 o.1 ≡ []) × (name o.0 o.1 ≡ fname) × (os.stream_is_open o.0 o.1 ≡ true)
    pub writes :
        (h : ℕ) (d : Bytes) (s : S)
        → let t = (os.stream_write h d s).1 in
          os.stream_good h t ≡ true
          → (os.stream_good h s ≡ true)
            × (given h t ≡ given h s ++ d)
            × (name h t ≡ name h s)
            × (os.stream_is_open h t ≡ os.stream_is_open h s)
    pub flushes :
        (h : ℕ) (s : S)
        → let t = (os.stream_flush h s).1 in
          os.stream_good h t ≡ true
          → (os.stream_good h s ≡ true) × (given h t ≡ given h s) × (name h t ≡ name h s)
    pub closes :
        (h : ℕ) (s : S)
        → let t = (os.stream_close h s).1 in
          os.stream_good h t ≡ true
          → (os.stream_good h s ≡ true)
            × (contents t (name h s) ≡ some (given h s))
            × (os.stream_is_open h t ≡ false)
    pub reopens :
        (fname data_ : Bytes) (s : S)
        → contents s fname ≡ some data_
        → (f : ℕ) × ((os.fopen fname s).0 ≡ some f)
          × (left f ((os.fopen fname s).1) ≡ data_)
          × IsStream os f (left f)

  module _ (os : Os S) (data_ fname : Bytes) (s : S) where
    -- The stream that the call opens, and the states after its calls.
    abbrev pub stream : ℕ
    stream = (os.stream_open fname s).0

    abbrev pub after_open : S
    after_open = (os.stream_open fname s).1

    abbrev pub after_write : S
    after_write = (os.stream_write stream data_ after_open).1

    abbrev pub after_flush : S
    after_flush = (os.stream_flush stream after_write).1

    abbrev pub after_close : S
    after_close = (os.stream_close stream after_flush).1

    module _ (quiet : IsQuiet os) (disk : IsDisk os)
        (good : os.stream_good stream after_close ≡ true) where
      stored : disk.contents after_close fname ≡ some data_
      stored =
          let c = disk.closes stream after_flush good in
          let f = disk.flushes stream after_write c.0 in
          let w = disk.writes stream data_ after_open f.0 in
          let o = disk.opens fname s w.0 in
          let named = f.2 ∙ w.2 ∙ o.1 in
          let whole = f.1 ∙ w.1 ∙ ap (λ x. x ++ data_) o.0 in
          subst (λ n. disk.contents after_close n ≡ some data_) named (c.1 ∙ ap some whole)

      wrote : write_string_to_file (posix_env os) data_ fname s ≡ some (ok_status, after_close)
      unfolding write_string_to_file write_and_close posix_env new_writable_file boost_file
          boost_append is_ok
      wrote =
          let c = disk.closes stream after_flush good in
          let f = disk.flushes stream after_write c.0 in
          let w = disk.writes stream data_ after_open f.0 in
          let o = disk.opens fname s w.0 in
          let file = boost_file os fname stream in
          let a : file.append data_ after_open ≡ some (ok_status, after_write) =
            ap
              (λ b.
                (if b
                    then pure ok_status
                    else fail os (fname ++ text " Append") (text "cannot write"))
                  after_write)
              f.0 in
          let cl = boost_close-open os fname stream after_write quiet (w.3 ∙ o.2) in
          let d : file.destroy after_close ≡ some (tt, after_close) =
            bind_some (boost_close os fname stream) _ after_close ok_status after_close
              (boost_close-closed os fname stream after_close c.2) in
          bind_some (file.append data_) _ after_open ok_status after_write a
          ∙ bind_some file.close _ after_write ok_status after_close cl
          ∙ bind_some file.destroy _ after_close tt after_close d

  -- On an operating system that keeps what it is given, where streams throw nothing: if the stream
  -- that `WriteStringToFile` opens is good once it is flushed and closed, the call reports OK, and
  -- `ReadFileToString` right after it gives the status OK and the same data, with fuel for one step
  -- per 8192 bytes and one more.
  pub write_string_to_file-read_file_to_string :
      (os : Os S) (quiet : IsQuiet os) (disk : IsDisk os) (data_ fname : Bytes) (fuel : ℕ) (s : S)
      → os.stream_good (stream os data_ fname s) (after_close os data_ fname s) ≡ true
      → length data_ ≤ k_buffer_size * fuel
      → (t : S) × (u : S) × (write_string_to_file (posix_env os) data_ fname s
          ≡ some (ok_status, t))
        × (read_file_to_string (posix_env os) (suc fuel) fname t ≡ some ((ok_status, data_), u))
  write_string_to_file-read_file_to_string os quiet disk data_ fname fuel s good h =
      let t = after_close os data_ fname s in
      let r = disk.reopens fname data_ t (stored os data_ fname s quiet disk good) in
      let g =
        read_file_to_string-posix_env os fname r.0 (disk.left r.0) fuel t r.1 r.3
          (omega (arith, h, ap length r.2)) in
      (
        t,
        g.0,
        wrote os data_ fname s quiet disk good,
        g.1 ∙ ap (λ w. some ((ok_status, w), g.0)) r.2,
      )
