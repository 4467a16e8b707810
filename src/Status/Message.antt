-- ===== src/Status/Message.antt =====
-- A status built from a code and messages: its tests, its text and its copies.
use my_leveldb.Common.{
  ℕ, ◌+◌, ◌%◌, ◌^◌, ◌≤◌, ◌<◌, false, some, [], ◌∷◌, ◌++◌, Bytes, ◌==◌, length, take, ◌>>=◌, ◌≡◌,
  refl, arith, ap, length-append, append-nil,
}
use my_leveldb.Coding.{bytes_of_word, word_of_bytes}
use my_leveldb.Coding.Fixed.{word_of_bytes-bytes_of_word}
use my_leveldb.Status.{
  Status, k_io_error, extend_char, new_status, is_ok, has_code, copy_bytes, copy_status, code_text,
  status_to_string,
}

-- The text that two messages give.
unfoldable pub joined : Bytes → Bytes → Bytes
joined msg [] = msg
joined msg (b ∷ msg2) = msg ++ (b':' ∷ b' ' ∷ b ∷ msg2)

take-all : (xs : Bytes) → take (length xs) xs ≡ xs
take-all [] = refl
take-all (x ∷ xs) = ap (λ t. x ∷ t) (take-all xs)

abbrev state_of : ℕ → Bytes → Bytes
state_of c message = bytes_of_word 4 (length message) ++ c ∷ message

length-joined : (msg msg2 : Bytes) → length msg + length msg2 ≤ length (joined msg msg2)
unfolding joined
length-joined msg [] = omega arith
length-joined msg (b ∷ msg2) = omega (arith, length-append msg (b':' ∷ b' ' ∷ b ∷ msg2))

new_status-state_of :
    (c : ℕ) (msg msg2 : Bytes)
    → 0 < c
    → c < 256
    → length (joined msg msg2) < 2 ^ 32
    → new_status c msg msg2 ≡ some (some (state_of c (joined msg msg2)))
unfolding new_status joined bytes_of_word
new_status-state_of c msg [] hc hc' h =
    let small : length msg % 2 ^ 32 ≡ length msg = omega arith in
    let size : (length msg + 0) % 2 ^ 32 ≡ length msg = omega arith in
    let code : c % 256 ≡ c = omega arith in
    let failing : (c == 0) ≡ false = ground arith in
    rw (small, size, code, failing, take-all, append-nil)
new_status-state_of c msg (b ∷ msg2) hc hc' h =
    let total = length-append msg (b':' ∷ b' ' ∷ b ∷ msg2) in
    let small : length msg % 2 ^ 32 ≡ length msg = omega arith in
    let small' : length (b ∷ msg2) % 2 ^ 32 ≡ length (b ∷ msg2) = omega arith in
    let code : c % 256 ≡ c = omega arith in
    let failing : (c == 0) ≡ false = ground arith in
    let some_more : (length (b ∷ msg2) == 0) ≡ false = ground arith in
    let size : (length msg + (length (b ∷ msg2) + 2)) % 2 ^ 32
        ≡ length (msg ++ (b':' ∷ b' ' ∷ b ∷ msg2)) =
      omega arith in
    rw (small, small', some_more, size, code, failing, take-all, take-all)

copy_all : (n : ℕ) (p : Bytes) → length p ≡ n → copy_bytes n p ≡ some p
copy_all n p e = rw (← e, take-all) (ground arith)

length_state :
    (c : ℕ) (message : Bytes)
    → length message + 5 < 2 ^ 32
    → length (state_of c message) ≡ (length message + 5) % 2 ^ 32
unfolding bytes_of_word
length_state c message h = omega arith

module _ (c : ℕ) (msg msg2 : Bytes) (made : 0 < c) (code : c ≤ k_io_error)
    (fits : length (joined msg msg2) + 5 < 2 ^ 32) {s : Status}
    (e : new_status c msg msg2 ≡ some s) where
  value : s ≡ some (state_of c (joined msg msg2))
  value = cc (new_status-state_of c msg msg2 made (omega (arith, code)) (omega arith))

  read_size : word_of_bytes 4 (state_of c (joined msg msg2)) ≡ some (length (joined msg msg2))
  read_size = word_of_bytes-bytes_of_word 4 (length (joined msg msg2)) _ (omega arith)

  -- A code of the enumeration is the same as a `char`.
  extend_code : extend_char c ≡ c
  extend_code = ground (arith, code)

  has_code-new_status : (k : ℕ) → (has_code k s ≡ some (c == k)) × (is_ok s ≡ false)
  unfolding has_code is_ok bytes_of_word
  has_code-new_status k = rw (value, extend_code) (refl, refl)

  copy_status-new_status : copy_status s ≡ some s
  unfolding copy_status
  copy_status-new_status =
      rw (value, read_size)
        (ap (λ m. m >>= λ result. some (some result))
          (copy_all _ _ (length_state c (joined msg msg2) (omega arith))))

  status_to_string-new_status : status_to_string s ≡ some (code_text c ++ joined msg msg2)
  unfolding status_to_string bytes_of_word
  status_to_string-new_status =
      rw (value, extend_code, read_size)
        (ap (λ m. m >>= λ message. some (code_text c ++ message)) (copy_all _ _ refl))

-- A status with a code of the enumeration other than OK and messages that fit in 32 bits is built
-- without a fault.
-- It answers true to the test for its code alone and is not OK; a copy of it is the same status; its
-- text is that of the code and the two messages, joined by ": " if the second is not empty.
pub new_status_reads :
    (c k : ℕ) (msg msg2 : Bytes)
    → 0 < c
    → c ≤ k_io_error
    → length (joined msg msg2) + 5 < 2 ^ 32
    → (s : Status) × (new_status c msg msg2 ≡ some s)
      × (has_code k s ≡ some (c == k))
      × (is_ok s ≡ false)
      × (copy_status s ≡ some s)
      × (status_to_string s ≡ some (code_text c ++ joined msg msg2))
new_status_reads c k msg msg2 made code fits =
    let e = new_status-state_of c msg msg2 made (omega (arith, code)) (omega arith) in
    let h = has_code-new_status c msg msg2 made code fits e k in
    (
      some (state_of c (joined msg msg2)),
      e,
      h.0,
      h.1,
      copy_status-new_status c msg msg2 made code fits e,
      status_to_string-new_status c msg msg2 made code fits e,
    )
