-- ===== src/MemTable/Add.antt =====
-- `MemTable::add`: when its `assert` fails, and what it leaves where the key and the value belong.
use my_leveldb.Common.{
  ℕ, ◌+◌, ◌%◌, ◌^◌, ◌<◌, ◌≤◌, bit_or, false, none, Bytes, ◌==◌, length, ◌≡◌, ◌≢◌, refl, sym, ap,
  ◌∙◌, arith, lt→ltb, Option-cases, inl, inr, ◌↔◌, ◌⊎◌,
}
use my_leveldb.Coding.{encode_varint32, varint_length, encode_fixed64, bytes_of_word, shl}
use my_leveldb.Coding.Varint.{varint_length-encode_varint64, encode_varint32-eq-encode_varint64}
use my_leveldb.Coding.Fixed.{length-bytes_of_word}
use my_leveldb.Comparator.{Comparator}
use my_leveldb.Arena.{allocate}
use my_leveldb.MemTable.{
  MemTable, Memory, add, internal_key_size, encoded_len, written_len, write_entry, store,
}

length-encode_varint32_small : (v : ℕ) → v < 128 → length (encode_varint32 v) ≡ 1
unfolding encode_varint32
length-encode_varint32_small v h = rw (lt→ltb v 128 h) refl

varint_length_small : (v : ℕ) → v < 128 → varint_length v ≡ 1
varint_length_small v h =
    (varint_length-encode_varint64 v (omega arith)).0
    ∙ ap length (sym (encode_varint32-eq-encode_varint64 v (omega arith)))
    ∙ length-encode_varint32_small v h

encoded_len_small : (n : ℕ) → n ≤ 58 → encoded_len n ≡ n + n + 10
unfolding encoded_len internal_key_size
encoded_len_small n h =
    let e : (n + 8) % 2 ^ 64 ≡ n + 8 = omega arith in
    rw (e, varint_length_small (n + 8) (omega arith), varint_length_small n (omega arith))
      (omega arith)

written_len_small : (k n : ℕ) → n ≤ 58 → written_len k n ≡ k + n + 10
unfolding written_len
written_len_small k n h =
    let e : (n + n + 10) % 2 ^ 32 ≡ n + n + 10 = omega arith in
    let f : n % 2 ^ 32 ≡ n = omega arith in
    rw
      (
        encoded_len_small n h,
        e,
        f,
        length-encode_varint32_small (n + n + 10) (omega arith),
        length-encode_varint32_small n (omega arith),
      )
      (omega arith)

-- For a value of at most 58 bytes the length that `add` writes is the one that it allocated exactly
-- if the key is as long as the value.
pub written_len_iff : (k n : ℕ) → n ≤ 58 → (written_len k n ≡ encoded_len n) ↔ (k ≡ n)
written_len_iff k n h =
    let w = written_len_small k n h in
    let e = encoded_len_small n h in (λ q. omega arith, λ q. omega arith)

-- `add` of a value of at most 58 bytes under a key of another length does not return: its `assert`
-- fails, if nothing failed before.
pub add_other_length :
    (c : Comparator) (fuel fresh fresh_node s type : ℕ) (key value : Bytes) (t : MemTable)
    → length value ≤ 58
    → length key ≢ length value
    → add c fuel fresh fresh_node s type key value t ≡ none
unfolding add
add_other_length c fuel fresh fresh_node s type key value t small other =
    let ne : (written_len (length key) (length value) == encoded_len (length value)) ≡ false =
      ground (
        arith,
        written_len_small (length key) (length value) small,
        encoded_len_small (length value) small,
        other,
      ) in
    elim (Option-cases (allocate fresh (encoded_len (length value)) t.arena)) [
      | inl e ↦ rw e refl
      | inr ((buf, arena), e) ↦ rw (e, ne) refl
    ]

store_outside :
    (p : ℕ) (bytes : Bytes) (m : Memory) (q : ℕ)
    → (q < p) ⊎ (p + length bytes ≤ q)
    → store p bytes m q ≡ m q
unfolding store
store_outside p bytes m q (inl h) = ground arith
store_outside p bytes m q (inr h) = ground arith

between_stores :
    (buf n q : ℕ) (size tag vlen : Bytes) (m : Memory)
    → length size ≡ 1
    → length tag ≡ 8
    → length vlen ≡ 1
    → buf + 1 ≤ q
    → (q < buf + 1 + n) ⊎ (buf + 1 + n + 9 ≤ q)
    → store
        (buf + length size + n + 8)
        vlen
        (store (buf + length size + n) tag (store buf size m))
        q
      ≡ m q
between_stores buf n q size tag vlen m a b c low out =
    let p = buf + length size + n in
    let m1 = store buf size m in
    store_outside (p + 8) vlen (store p tag m1) q
      (elim out [ inl h ↦ inl (omega arith) | inr h ↦ inr (omega arith) ])
    ∙ store_outside p tag m1 q (elim out [ inl h ↦ inl (omega arith) | inr h ↦ inr (omega arith) ])
    ∙ store_outside buf size m q (inr (omega arith))

-- `add` of a key and a value of the same length, of at most 58 bytes, leaves the bytes of its buffer
-- where the key and the value belong as they were: neither is stored.
pub write_entry_keeps :
    (buf s type n i : ℕ) (m : Memory)
    → n ≤ 58
    → i < n
    → (write_entry buf s type n n m (buf + 1 + i) ≡ m (buf + 1 + i))
      × (write_entry buf s type n n m (buf + 1 + n + 8 + 1 + i) ≡ m (buf + 1 + n + 8 + 1 + i))
unfolding write_entry encode_fixed64
write_entry_keeps buf s type n i m small inside =
    let e : encoded_len n % 2 ^ 32 ≡ n + n + 10 = omega (arith, encoded_len_small n small) in
    let size = encode_varint32 (encoded_len n % 2 ^ 32) in
    let vlen = encode_varint32 (n % 2 ^ 32) in
    let size_one : length size ≡ 1 =
      length-encode_varint32_small (encoded_len n % 2 ^ 32) (omega arith) in
    let vlen_one : length vlen ≡ 1 = length-encode_varint32_small (n % 2 ^ 32) (omega arith) in
    let tag = bit_or (shl 64 s 8) type in
    let eight = length-bytes_of_word 8 tag in
    (
      between_stores buf n (buf + 1 + i) size (bytes_of_word 8 tag) vlen m size_one eight vlen_one
          (omega arith) (inl (omega arith)),
      between_stores buf n (buf + 1 + n + 8 + 1 + i) size (bytes_of_word 8 tag) vlen m size_one
          eight vlen_one (omega arith) (inr (omega arith)),
    )
