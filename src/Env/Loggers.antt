-- ===== src/Env/Loggers.antt =====
-- win_logger.h and win_logger.cc: the logger object over its `FILE*`.
use my_leveldb.Common.{ℕ, Option, Bytes}
use my_leveldb.Common.Act.{Act, ◌>>=◌, pure, need, call, ask}
use my_leveldb.Env.{Logger}
use my_leveldb.Env.System.{Os}
use my_leveldb.WinLogger.{logv}

module _ {S : Type 0} (os : Os S) where
  -- `WinLogger::Logv`: the text of one line, `fwrite` and `fflush`.
  unfoldable pub win_logv : (file : ℕ) → (message : Bytes) → Act S (Unit {0})
  unfolding logv
  win_logv file message = do
    header ← ask (os.log_header 0)
    later_header ← ask (os.log_header 1)
    text ← need (logv header later_header message)
    _ ← call (os.fwrite file text)
    call (os.fflush file)

  -- The constructor, with its `assert(file_)`, and the destructor.
  unfoldable pub new_win_logger : (f : Option ℕ) → Act S (Logger S)
  unfolding win_logv
  new_win_logger f = do
    file ← need f
    pure (record { logv = λ message. win_logv file message; destroy = call (os.fclose file) })
