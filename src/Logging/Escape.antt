-- ===== src/Logging/Escape.antt =====
-- `AppendEscapedStringTo` and `EscapeString`.
use my_leveldb.Common.{
  ℕ, ◌*◌, ◌/◌, ◌%◌, ◌≤◌, true, [], ◌∷◌, ◌++◌, Bytes, IsByte, if◌then◌else◌, arith, ◌≡◌, All, length,
  append_assoc, append-nil, length-append, All-append, sym, ◌∙◌, refl,
}
use my_leveldb.Logging.{is_printable, append_escaped_string_to, escape_string, hex_digit}

abbrev escape_byte : ℕ → Bytes
escape_byte c =
    if is_printable c then c ∷ [] else b'\\' ∷ b'x' ∷ hex_digit (c / 16) ∷ hex_digit (c % 16) ∷ []

-- Every byte by itself.
unfoldable pub escaped : Bytes → Bytes
escaped [] = []
escaped (c ∷ value) = escape_byte c ++ escaped value

append_escaped_string_to-escaped :
    (str value : Bytes) → append_escaped_string_to str value ≡ str ++ escaped value
unfolding append_escaped_string_to escaped
append_escaped_string_to-escaped str [] = sym (append-nil str)
append_escaped_string_to-escaped str (c ∷ value) =
    append_escaped_string_to-escaped (str ++ escape_byte c) value
    ∙ append_assoc str (escape_byte c) (escaped value)

abbrev pub Printable : ℕ → Type 0
Printable c = is_printable c ≡ true

escape_byte-Printable : (c : ℕ) → IsByte c → All Printable (escape_byte c)
escape_byte-Printable c h = ground arith

escaped-Printable : (value : Bytes) → All IsByte value → All Printable (escaped value)
unfolding escaped
escaped-Printable [] h = tt
escaped-Printable (c ∷ value) h =
    All-append Printable (escape_byte c) (escaped value) (escape_byte-Printable c h.0)
      (escaped-Printable value h.1)

length-escaped :
    (value : Bytes)
    → (length value ≤ length (escaped value)) × (length (escaped value) ≤ 4 * length value)
unfolding escaped
length-escaped [] = omega arith
length-escaped (c ∷ value) =
    ground (arith, length-append (escape_byte c) (escaped value), length-escaped value)

escaped-of-Printable : (value : Bytes) → All Printable value → escaped value ≡ value
unfolding escaped
escaped-of-Printable [] h = refl
escaped-of-Printable (c ∷ value) h = ground (arith, escaped-of-Printable value h.1)

-- `AppendEscapedStringTo` keeps `*str` and appends printable characters only, one to four for each
-- byte of `value`.
pub append_escaped_string_to-Printable :
    (str value : Bytes)
    → All IsByte value
    → (append_escaped_string_to str value ≡ str ++ escape_string value)
      × All Printable (escape_string value)
      × (length value ≤ length (escape_string value))
      × (length (escape_string value) ≤ 4 * length value)
append_escaped_string_to-Printable str value h =
    let whole : escape_string value ≡ escaped value =
      unfold escape_string in append_escaped_string_to-escaped [] value in
    rw whole (
      append_escaped_string_to-escaped str value,
      escaped-Printable value h,
      (length-escaped value).0,
      (length-escaped value).1,
    )
