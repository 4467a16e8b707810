-- ===== src/Env/Reading.antt =====
-- `ReadFileToString` on `PosixEnv`, over an operating system with the documented behaviour of `fread`
-- and `feof`.
use my_leveldb.Common.{
  subst, ℕ, zero, suc, ◌*◌, ◌<◌, ◌≤◌, ◌≡◌, refl, ap, ◌∙◌, arith, true, some, [], ◌∷◌, Bytes, length,
  take, drop, if◌then◌else◌, ltb, ltb→lt,
}
use my_leveldb.Common.Act.{◌>>=◌, pure, bind_some, if_act}
use my_leveldb.Status.{ok_status, is_ok}
use my_leveldb.Env.{read_loop, read_and_close, read_file_to_string, k_buffer_size}
use my_leveldb.Env.Files.{IsReader, read_loop-all_left}
use my_leveldb.Env.Posix.{posix_env, new_sequential_file, opened_sequential}
use my_leveldb.Env.PosixFiles.{sequential_read, posix_sequential_file, short_read}
use my_leveldb.Env.System.{Os, fail}

short_take : (n : ℕ) (xs : Bytes) → length (take n xs) < n → length xs < n
short_take zero xs h = absurd (omega arith)
short_take (suc n) [] h = omega arith
short_take (suc n) (x ∷ xs) h = let r = short_take n xs (omega arith) in omega (arith, r)

module _ {S : Type 0} where
  -- An open file of the C library without read errors: `fread` delivers what is left, and `feof`
  -- tells that it delivered less than it was asked for.
  pub record IsStream (os : Os S) (file : ℕ) (left : S → Bytes) : Type 0 where
    pub delivers : (n : ℕ) (s : S) → (os.fread file n s).0 ≡ take n (left s)
    pub advances : (n : ℕ) (s : S) → left ((os.fread file n s).1) ≡ drop n (left s)
    pub ends : (n : ℕ) (s : S) → length (left s) < n → os.feof file ((os.fread file n s).1) ≡ true

  sequential_read_lem :
      (os : Os S) (fname : Bytes) (file n : ℕ) (left : S → Bytes) (s : S)
      → IsStream os file left
      → sequential_read os fname file n s
        ≡ some ((ok_status, take n (left s)), (os.fread file n s).1)
  unfolding sequential_read
  sequential_read_lem os fname file n left s l =
      let r = (os.fread file n s).0 in
      let t = (os.fread file n s).1 in
      let at_end : ltb (length r) n ≡ true → os.feof file t ≡ true = λ e. l.ends n s (
        short_take n (left s)
          (subst (λ w. length w < n) (l.delivers n s) (ltb→lt (length r) n e))) in
      let status =
        if_act (ltb (length r) n) (short_read os fname file) (pure ok_status) t
          (some (ok_status, t))
          (λ e.
            ap (λ b. (if b then pure ok_status else fail os fname (os.strerror t)) t) (at_end e))
          (λ _. refl) in
      bind_some (if ltb (length r) n then short_read os fname file else pure ok_status)
        (λ st. pure (st, r)) t ok_status t status
      ∙ ap (λ w. some ((ok_status, w), t)) (l.delivers n s)

  pub posix_sequential_file-IsReader :
      (os : Os S) (fname : Bytes) (file : ℕ) (left : S → Bytes)
      → IsStream os file left
      → IsReader (posix_sequential_file os fname file) left
  unfolding posix_sequential_file
  posix_sequential_file-IsReader os fname file left l = record {
    after = λ n s. (os.fread file n s).1;
    reads = λ n s. sequential_read_lem os fname file n left s l;
    moves = l.advances;
  }

  -- If `fopen` opens the file and reading it meets no error, `ReadFileToString` on `PosixEnv`, with
  -- fuel for one step per 8192 bytes and one more, gives the status OK and what there is to be read.
  pub read_file_to_string-posix_env :
      (os : Os S) (fname : Bytes) (file : ℕ) (left : S → Bytes) (fuel : ℕ) (s : S)
      → (os.fopen fname s).0 ≡ some file
      → IsStream os file left
      → length (left ((os.fopen fname s).1)) ≤ k_buffer_size * fuel
      → (t : S) × (read_file_to_string (posix_env os) (suc fuel) fname s
          ≡ some ((ok_status, left ((os.fopen fname s).1)), t))
  unfolding read_file_to_string read_and_close posix_env new_sequential_file is_ok
      posix_sequential_file
  read_file_to_string-posix_env os fname file left fuel s opened l h =
      let t = (os.fopen fname s).1 in
      let r =
        read_loop-all_left (posix_sequential_file-IsReader os fname file left l) fuel [] t h in
      let file' = posix_sequential_file os fname file in
      let there : (posix_env os).new_sequential_file fname s ≡ some ((ok_status, some file'), t) =
        ap (λ f. opened_sequential os fname f t) opened in
      let loop =
        bind_some (read_loop (suc fuel) file' []) (λ q. file'.close >>= λ _. pure q) t
          (ok_status, left t) r.0 r.1 in
      (
        (os.fclose file r.0).1,
        bind_some ((posix_env os).new_sequential_file fname) _ s (ok_status, some file') t there
            ∙ loop,
      )
