-- ===== src/WinLogger.antt =====
-- win_logger.cc: `WinLogger::Logv`. What `_snprintf_s` and `vsnprintf` make of their formats are two
-- strings, the time with the thread and the message. `_snprintf_s` with `_TRUNCATE` returns -1 for a
-- text that does not fit, which moves `p` before the buffer: `none`, as for a failed `assert`.
-- `vsnprintf` stores what fits, with a NUL behind it, and returns the length of the whole text; its
-- errors are left out.
pub mod Line
use my_leveldb.Common.{
  ℕ, zero, suc, ◌+◌, ◌-◌, Bool, true, false, ◌&&◌, ◌||◌, Option, none, some, List, [], ◌∷◌, ◌++◌,
  Bytes, ltb, leb, ◌==◌, if◌then◌else◌, length, take, assert, ◌>>=◌, ◌>>◌,
}

-- `p != base && p[-1] == '\n'`
abbrev pub ends_line : Bytes → Bool
ends_line [] = false
ends_line (x ∷ []) = x == b'\n'
ends_line (x ∷ y ∷ text) = ends_line (y ∷ text)

abbrev pub add_newline : Bytes → Bytes
add_newline text = if ends_line text then text else text ++ (b'\n' ∷ [])

-- What the buffer of `bufsize` bytes holds before the NUL, and how far `p` moves.
unfoldable pub buffer_text : (bufsize : ℕ) → (header message : Bytes) → Bytes
buffer_text bufsize header message = header ++ take (bufsize - length header - 1) message

-- One round of the loop: the text for `fwrite`, or `none` inside if the next round has to try.
unfoldable pub log_round :
    (retry : Bool) → (bufsize : ℕ) → (header message : Bytes) → Option (Option Bytes)
unfolding buffer_text
log_round retry bufsize header message = do
  assert (ltb (length header) bufsize)
  let p = length header + length message
  let again = retry && leb bufsize p
  let used = if leb bufsize p then bufsize - 1 else p
  let text = add_newline (take used (buffer_text bufsize header message))
  assert (again || leb (length text) bufsize)
  some (if again then none else some text)

-- `Logv`: what it writes to the file. Each round asks for the time anew.
unfoldable pub logv : (header later_header message : Bytes) → Option Bytes
unfolding log_round
logv header later_header message = do
  first ← log_round true 500 header message
  elim first [
    | some text ↦ some text
    | none ↦ log_round false 30000 later_header message >>= λ second. second
  ]
