-- ===== src/WinLogger/Line.antt =====
-- `Logv` writes one line, whichever of its buffers it uses.
use my_leveldb.Common.{
  ℕ, zero, suc, ◌+◌, ◌-◌, ◌<◌, ◌≤◌, ◌≡◌, refl, sym, ap, ◌∙◌, arith, Bool, true, false, ◌&&◌, ◌||◌,
  none, some, [], ◌∷◌, ◌++◌, Bytes, leb, if◌then◌else◌, length, take, length-append, Bool-cases,
  inl, inr, lt→ltb, assert, ◌>>=◌,
}
use my_leveldb.WinLogger.{ends_line, add_newline, buffer_text, log_round, logv}

take-append_more :
    (n : ℕ) (xs ys : Bytes) → length xs ≤ n → take n (xs ++ ys) ≡ xs ++ take (n - length xs) ys
take-append_more n [] ys h = let e : n ≡ n - 0 = omega arith in ap (λ (w : ℕ). take w ys) e
take-append_more zero (x ∷ xs) ys h = absurd (omega arith)
take-append_more (suc n) (x ∷ xs) ys h =
    let e : n - length xs ≡ suc n - suc (length xs) = omega arith in
    ap (λ w. x ∷ w) (take-append_more n xs ys (omega arith) ∙ ap (λ (w : ℕ). xs ++ take w ys) e)

take_whole : (n : ℕ) (xs : Bytes) → length xs ≤ n → take n xs ≡ xs
take_whole zero [] h = refl
take_whole (suc n) [] h = refl
take_whole zero (x ∷ xs) h = absurd (omega arith)
take_whole (suc n) (x ∷ xs) h = ap (λ w. x ∷ w) (take_whole n xs (omega arith))

length-take_at_most : (n : ℕ) (xs : Bytes) → length (take n xs) ≤ n
length-take_at_most zero xs = omega arith
length-take_at_most (suc n) [] = omega arith
length-take_at_most (suc n) (x ∷ xs) = omega (arith, length-take_at_most n xs)

ends_line-append : (text : Bytes) → ends_line (text ++ (b'\n' ∷ [])) ≡ true
ends_line-append [] = refl
ends_line-append (x ∷ []) = refl
ends_line-append (x ∷ y ∷ text) = ends_line-append (y ∷ text)

ends_line-add_newline : (text : Bytes) → ends_line (add_newline text) ≡ true
ends_line-add_newline text = elim (Bool-cases (ends_line text)) [
  | inl e ↦ rw (e, e) refl
  | inr e ↦ rw e (ends_line-append text)
]

length-add_newline : (text : Bytes) → length (add_newline text) ≤ length text + 1
length-add_newline text = elim (Bool-cases (ends_line text)) [
  | inl e ↦ rw e (omega arith)
  | inr e ↦ rw e (omega (arith, length-append text (b'\n' ∷ [])))
]

-- What a round writes.
abbrev line : (bufsize : ℕ) → (header message : Bytes) → Bytes
line bufsize header message = add_newline (take (bufsize - 1) (header ++ message))

take-take : (n : ℕ) (xs : Bytes) → take n (take n xs) ≡ take n xs
take-take n xs = take_whole n (take n xs) (length-take_at_most n xs)

-- As much of the header and the message as there is room for.
take-buffer_text :
    (bufsize : ℕ) (header message : Bytes)
    → length header < bufsize
    → take
        (if leb bufsize (length header + length message)
          then bufsize - 1
          else length header + length message)
        (buffer_text bufsize header message)
      ≡ take (bufsize - 1) (header ++ message)
unfolding buffer_text
take-buffer_text bufsize header message h =
    let p = length header + length message in
    let n = bufsize - 1 in
    let k = bufsize - length header - 1 in
    let room : n - length header ≡ k = omega arith in
    elim (Bool-cases (leb bufsize p)) [
      | inl long ↦ rw long (
          take-append_more n header (take k message) (omega (arith, h))
          ∙ ap (λ (w : ℕ). header ++ take w (take k message)) room
          ∙ ap (λ w. header ++ w) (take-take k message)
          ∙ ap (λ (w : ℕ). header ++ take w message) (sym room)
          ∙ sym (take-append_more n header message (omega (arith, h))))
      | inr short ↦
          let fits : p < bufsize = ground (arith, short) in
          let len = length-append header message in
          rw short (
            ap (λ w. take p (header ++ w)) (take_whole k message (omega (arith, fits)))
            ∙ take_whole p (header ++ message) (omega (arith, len))
            ∙ sym (take_whole n (header ++ message) (omega (arith, len, fits))))
    ]

length-line :
    (bufsize : ℕ) (header message : Bytes)
    → 0 < bufsize
    → length (line bufsize header message) ≤ bufsize
length-line bufsize header message h =
    let text = take (bufsize - 1) (header ++ message) in
    omega (arith, h, length-add_newline text, length-take_at_most (bufsize - 1) (header ++ message))

or_true : (a b : Bool) → b ≡ true → (a || b) ≡ true
or_true a true h = ground arith
or_true a false h = absurd (cc h)

log_round_lem :
    (retry : Bool) (bufsize : ℕ) (header message : Bytes)
    → length header < bufsize
    → log_round retry bufsize header message
      ≡ some (
          if retry && leb bufsize (length header + length message)
          then none
          else some (line bufsize header message))
unfolding log_round buffer_text
log_round_lem retry bufsize header message h =
    let b = take-buffer_text bufsize header message h in
    let l = length-line bufsize header message (omega (arith, h)) in
    let again = retry && leb bufsize (length header + length message) in
    let ok =
      or_true again (leb (length (line bufsize header message)) bufsize) (ground (arith, l)) in
    rw (lt→ltb (length header) bufsize h, b)
      (ap (λ x. assert x >>= λ _. some (if again then none else some (line bufsize header message)))
        ok)

-- The time in the line: the first one unless the first buffer is too small.
abbrev pub chosen : (header later_header message : Bytes) → Bytes
chosen header later_header message =
    if leb 500 (length header + length message) then later_header else header

-- If the texts of the time and the thread are shorter than 500 bytes, `Logv` fails nowhere and
-- writes one text to the file: the first 29999 bytes of the time's text and the message together,
-- which is all of them if they are no longer, and a newline unless these end with one. It ends with
-- a newline and has at most 30000 bytes, whether the first buffer is large enough or not.
pub logv_line :
    (header later_header message : Bytes)
    → length header < 500
    → length later_header < 500
    → let text = add_newline (take 29999 (chosen header later_header message ++ message)) in
      (logv header later_header message ≡ some text)
      × (ends_line text ≡ true)
      × (length text ≤ 30000)
unfolding logv
logv_line header later_header message h k = (
  elim (Bool-cases (leb 500 (length header + length message))) [
    | inl long ↦
        rw
          (
            log_round_lem true 500 header message h,
            long,
            log_round_lem false 30000 later_header message (omega (arith, k)),
          )
          refl
    | inr short ↦
        let len = length-append header message in
        let fits : length header + length message < 500 = ground (arith, short) in
        rw (log_round_lem true 500 header message h, short)
          (ap (λ w. some (add_newline w))
            (take_whole 499 (header ++ message) (omega (arith, len, fits))
              ∙ sym (take_whole 29999 (header ++ message) (omega (arith, len, fits)))))
  ],
  ends_line-add_newline (take 29999 (chosen header later_header message ++ message)),
  length-line 30000 (chosen header later_header message) message (omega arith),
)
