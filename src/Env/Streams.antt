-- ===== src/Env/Streams.antt =====
-- `WriteStringToFile` on `PosixEnv`, over streams with the documented behaviour of `std::ofstream`.
use my_leveldb.Common.{
  ℕ, ◌≡◌, ◌⊎◌, inl, inr, refl, sym, ap, ◌∙◌, true, false, none, some, ◌++◌, Bytes, if◌then◌else◌,
  Bool-cases, Option-cases,
}
use my_leveldb.Common.Act.{pure, need, bind_some}
use my_leveldb.Status.{Status, ok_status, is_ok, text, io_error, new_status}
use my_leveldb.Env.{write_and_close, write_string_to_file}
use my_leveldb.Env.Posix.{posix_env, new_writable_file, delete_file}
use my_leveldb.Env.PosixFiles.{boost_append, boost_sync, sync_and_close, boost_close, boost_file}
use my_leveldb.Env.System.{Os, fail, report}

io_error-some : (a b : Bytes) → (st : Bytes) × (io_error a b ≡ some (some st))
unfolding io_error new_status
io_error-some a b = (_, refl)

module _ {S : Type 0} where
  -- Streams throw nothing: the exception mask is empty unless the program sets it.
  pub record IsQuiet (os : Os S) : Type 0 where
    pub quiet_flush : (file : ℕ) (s : S) → (os.stream_flush file s).0 ≡ none
    pub quiet_close : (file : ℕ) (s : S) → (os.stream_close file s).0 ≡ none

  pub boost_close-open :
      (os : Os S) (path : Bytes) (file : ℕ) (s : S)
      → IsQuiet os
      → os.stream_is_open file s ≡ true
      → boost_close os path file s
        ≡ some (ok_status, (os.stream_close file ((os.stream_flush file s).1)).1)
  unfolding boost_close sync_and_close boost_sync
  boost_close-open os path file s q e =
      let u = (os.stream_flush file s).1 in
      let v = (os.stream_close file u).1 in
      ap (λ b. (if b then sync_and_close os path file else pure ok_status) s) e
      ∙ bind_some (boost_sync os path file) _ s ok_status u
          (ap (λ o. report os (path ++ text " sync") o u) (q.quiet_flush file s))
      ∙ ap (λ o. report os (path ++ text " close") o v) (q.quiet_close file u)

  pub boost_close-closed :
      (os : Os S) (path : Bytes) (file : ℕ) (s : S)
      → os.stream_is_open file s ≡ false
      → boost_close os path file s ≡ some (ok_status, s)
  unfolding boost_close
  boost_close-closed os path file s e =
      ap (λ b. (if b then sync_and_close os path file else pure ok_status) s) e

  boost_close-ok :
      (os : Os S) (path : Bytes) (file : ℕ) (s : S)
      → IsQuiet os
      → (t : S) × (boost_close os path file s ≡ some (ok_status, t))
  boost_close-ok os path file s q = elim (Bool-cases (os.stream_is_open file s)) [
    | inl e ↦ (_, boost_close-open os path file s q e)
    | inr e ↦ (_, boost_close-closed os path file s e)
  ]

  delete_file-returns :
      (os : Os S) (fname : Bytes) (s : S)
      → (st : Status) × (delete_file os fname s ≡ some (st, (os.remove fname s).1))
  unfolding delete_file
  delete_file-returns os fname s =
      let t = (os.remove fname s).1 in
      elim (Option-cases ((os.remove fname s).0)) [
        | inl e ↦ (ok_status, ap (λ ec. report os fname ec t) e)
        | inr (m, e) ↦
            let i = io_error-some fname m in
            (some i.0, ap (λ ec. report os fname ec t) e ∙ ap (λ o. need o t) i.1)
      ]

  -- What is left of `WriteStringToFile` after the data are appended.
  destroy-ok :
      (os : Os S) (path : Bytes) (file : ℕ) (s : S)
      → IsQuiet os
      → (t : S) × ((boost_file os path file).destroy s ≡ some (tt, t))
  unfolding boost_file
  destroy-ok os path file s q =
      let c = boost_close-ok os path file s q in
      (c.0, bind_some (boost_close os path file) _ s ok_status c.0 c.1)

  module _ (os : Os S) (quiet : IsQuiet os) (data_ fname : Bytes) (file : ℕ) (t : S) where
    written : S
    written = (os.stream_write file data_ t).1

    write_and_close-good :
        os.stream_good file written ≡ true
        → (w : S) × (write_and_close (posix_env os) (boost_file os fname file) data_ fname t
            ≡ some (ok_status, w))
    unfolding write_and_close boost_file boost_append is_ok written
    write_and_close-good good =
        let f = boost_file os fname file in
        let a : f.append data_ t ≡ some (ok_status, written) =
          ap
            (λ b.
              (if b
                  then pure ok_status
                  else fail os (fname ++ text " Append") (text "cannot write"))
                written)
            good in
        let c = boost_close-ok os fname file written quiet in
        let d = destroy-ok os fname file c.0 quiet in
        (
          d.0,
          bind_some (f.append data_) _ t ok_status written a
              ∙ bind_some f.close _ written ok_status c.0 c.1
              ∙ bind_some f.destroy _ c.0 tt d.0 d.1,
        )

    write_and_close-bad :
        os.stream_good file written ≡ false
        → (st : Bytes) × (w : S) × (write_and_close
              (posix_env os)
              (boost_file os fname file)
              data_
              fname
              t
            ≡ some (some st, (os.remove fname w).1))
    unfolding write_and_close boost_file boost_append is_ok written posix_env
    write_and_close-bad bad =
        let f = boost_file os fname file in
        let i = io_error-some (fname ++ text " Append") (text "cannot write") in
        let a : f.append data_ t ≡ some (some i.0, written) =
          ap
            (λ b.
              (if b
                  then pure ok_status
                  else fail os (fname ++ text " Append") (text "cannot write"))
                written)
            bad
          ∙ ap (λ o. need o written) i.1 in
        let d = destroy-ok os fname file written quiet in
        let r = delete_file-returns os fname d.0 in
        (
          i.0,
          d.0,
          bind_some (f.append data_) _ t (some i.0) written a
              ∙ bind_some f.destroy _ written tt d.0 d.1
              ∙ bind_some (delete_file os fname) _ d.0 r.0 ((os.remove fname d.0).1) r.1,
        )

  -- Where streams throw nothing, `WriteStringToFile` on `PosixEnv` ends in every case, and reports by
  -- what the stream says after the write alone: the status is OK exactly if the stream is good then,
  -- whatever becomes of the flush and of the close that follow. If it is an error, the last call
  -- removes the file.
  pub write_string_to_file-reports :
      (os : Os S)
      → IsQuiet os
      → (data_ fname : Bytes) (s : S)
      → let opened = os.stream_open fname s in
        let wrote = (os.stream_write opened.0 data_ opened.1).1 in
        (st : Status) × (w : S) × (write_string_to_file (posix_env os) data_ fname s ≡ some (st, w))
        × (is_ok st ≡ os.stream_good opened.0 wrote)
        × ((is_ok st ≡ true) ⊎ ((v : S) × (w ≡ (os.remove fname v).1)))
  unfolding write_string_to_file posix_env new_writable_file is_ok written
  write_string_to_file-reports os quiet data_ fname s =
      let opened = os.stream_open fname s in
      elim (Bool-cases (os.stream_good opened.0 (written os quiet data_ fname opened.0 opened.1))) [
        | inl good ↦
            let r = write_and_close-good os quiet data_ fname opened.0 opened.1 good in
            (ok_status, r.0, r.1, sym good, inl refl)
        | inr bad ↦
            let r = write_and_close-bad os quiet data_ fname opened.0 opened.1 bad in
            (some r.0, (os.remove fname r.1).1, r.2, sym bad, inr (r.1, refl))
      ]
