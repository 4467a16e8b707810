-- ===== src/Comparator/Separator.antt =====
-- `BytewiseComparatorImpl::findShortestSeparator`.
use my_leveldb.Common.{
  ℕ, zero, suc, ◌+◌, ◌≤◌, ◌<◌, Bool, true, some, [], ◌∷◌, Bytes, ltb, ◌==◌, if◌then◌else◌,
  Bool-cases, length, replicate, get_or, ◌&&◌, ◌≡◌, refl, arith, inl, inr, ◌∙◌, ap, sym, ◌≢◌,
}
use my_leveldb.Slice.{slice_compare}
use my_leveldb.Slice.Order.{lex_compare, slice_compare-lex_compare, lex_compare-flip, flip_order}
use my_leveldb.Comparator.{resize, set, diff_index_loop, bytewise_find_shortest_separator}
use native.Mathlib.Nat.{zero-add}
use Prim.Native.Nat.{lt, gt}

-- The length of the longest common prefix.
unfoldable pub common_length : Bytes → Bytes → ℕ
common_length [] limit = 0
common_length (x ∷ start) [] = 0
common_length (x ∷ start) (y ∷ limit) =
    let more = suc (common_length start limit) in if x == y then more else 0

diff_index_loop-common_length :
    (start limit : Bytes) (i : ℕ) → diff_index_loop start limit i ≡ i + common_length start limit
unfolding diff_index_loop common_length
diff_index_loop-common_length [] limit i = omega arith
diff_index_loop-common_length (x ∷ start) [] i = omega arith
diff_index_loop-common_length (x ∷ start) (y ∷ limit) i =
    ground (arith, diff_index_loop-common_length start limit (i + 1))

abbrev pub first_diff : Bytes → Bytes → ℕ
first_diff start limit = get_or start (common_length start limit) 0

-- The strings differ inside both, and the byte of `limit` there leaves room above that of `start`.
abbrev pub can_shorten : Bytes → Bytes → Bool
can_shorten start limit =
    ltb (common_length start limit) (length start)
    && ltb (common_length start limit) (length limit)
    && ltb (first_diff start limit) 0xff
    && ltb (first_diff start limit + 1) (get_or limit (common_length start limit) 0)

-- `start` with the byte at the first difference incremented, cut or padded to `n` bytes.
abbrev pub bumped : Bytes → Bytes → ℕ → Bytes
bumped start limit n = resize (set start (common_length start limit) (first_diff start limit + 1)) n

bumped-lt-limit :
    (start limit : Bytes) (n : ℕ)
    → can_shorten start limit ≡ true
    → 0 < n
    → lex_compare (bumped start limit n) limit ≡ lt
unfolding lex_compare common_length set resize
bumped-lt-limit [] limit n h pos = ground arith
bumped-lt-limit (x ∷ start) [] n h pos = ground arith
bumped-lt-limit (x ∷ start) (y ∷ limit) zero h pos = absurd (omega arith)
bumped-lt-limit (x ∷ start) (y ∷ limit) (suc zero) h pos = ground arith
bumped-lt-limit (x ∷ start) (y ∷ limit) (suc (suc n)) h pos =
    ground (arith, bumped-lt-limit start limit (suc n))

bumped-gt-start :
    (start limit : Bytes) (n : ℕ)
    → can_shorten start limit ≡ true
    → common_length start limit < n
    → lex_compare start (bumped start limit n) ≡ lt
unfolding lex_compare common_length set resize
bumped-gt-start [] limit n h pos = ground arith
bumped-gt-start (x ∷ start) [] n h pos = ground arith
bumped-gt-start (x ∷ start) (y ∷ limit) zero h pos = absurd (omega arith)
bumped-gt-start (x ∷ start) (y ∷ limit) (suc n) h pos =
    ground (arith, bumped-gt-start start limit n)

bumped-lt-start :
    (start limit : Bytes) (n : ℕ)
    → can_shorten start limit ≡ true
    → n ≤ common_length start limit
    → lex_compare (bumped start limit n) start ≡ lt
unfolding lex_compare common_length set resize
bumped-lt-start [] limit n h pos = ground arith
bumped-lt-start (x ∷ start) [] n h pos = ground arith
bumped-lt-start (x ∷ start) (y ∷ limit) zero h pos = ground arith
bumped-lt-start (x ∷ start) (y ∷ limit) (suc n) h pos =
    ground (arith, bumped-lt-start start limit n)

-- What the function leaves in `*start`.
unfoldable pub separator : Bytes → Bytes → Bytes
separator start limit =
    if can_shorten start limit then bumped start limit (first_diff start limit + 1) else start

-- `findShortestSeparator` never fails its `assert`. It changes `*start` exactly where the strings
-- differ inside both and the byte of `limit` leaves room; the new string is `start` with that byte
-- incremented, of as many bytes as the value of the new byte says.
pub bytewise_find_shortest_separator-separator :
    (start limit : Bytes)
    → bytewise_find_shortest_separator start limit ≡ some (separator start limit)
unfolding bytewise_find_shortest_separator separator
bytewise_find_shortest_separator-separator start limit =
    elim (Bool-cases (can_shorten start limit)) [
      | inl shorten ↦
          let below : slice_compare (bumped start limit (first_diff start limit + 1)) limit ≡ lt =
            slice_compare-lex_compare _ limit
            ∙ bumped-lt-limit start limit (first_diff start limit + 1) shorten (omega arith) in
          rw (diff_index_loop-common_length, zero-add) (ground (arith, below))
      | inr keep ↦ rw (diff_index_loop-common_length, zero-add) (ground arith)
    ]

length-replicate : (n a : ℕ) → length (replicate n a) ≡ n
length-replicate zero a = refl
length-replicate (suc n) a = ap suc (length-replicate n a)

length-resize : (s : Bytes) (n : ℕ) → length (resize s n) ≡ n
unfolding resize
length-resize [] zero = ground arith
length-resize [] (suc n) = ground (arith, length-replicate n 0)
length-resize (x ∷ s) zero = ground arith
length-resize (x ∷ s) (suc n) = ground (arith, length-resize s n)

module _ (start limit : Bytes) (shorten : can_shorten start limit ≡ true) where
  bumped_order :
      slice_compare start (bumped start limit (first_diff start limit + 1))
      ≡ (if ltb (first_diff start limit) (common_length start limit) then gt else lt)
  bumped_order =
      let result = bumped start limit (first_diff start limit + 1) in
      slice_compare-lex_compare start result
      ∙ elim (Bool-cases (ltb (first_diff start limit) (common_length start limit))) [
        | inl cut ↦ rw cut (
            lex_compare-flip result start
            ∙ ap flip_order (bumped-lt-start start limit _ shorten (ground arith)))
        | inr kept ↦ rw kept (bumped-gt-start start limit _ shorten (ground arith))
      ]

-- Where `findShortestSeparator` changes `*start`, the result is below `limit`. It is above the old
-- `*start` if the byte at the first difference is at least the index of that byte; else the result
-- has been cut off before that index and is below the old `*start`.
pub bytewise_find_shortest_separator_order :
    (start limit result : Bytes)
    → bytewise_find_shortest_separator start limit ≡ some result
    → result ≢ start
    → (slice_compare result limit ≡ lt)
      × (slice_compare start result
          ≡ (if ltb (first_diff start limit) (common_length start limit) then gt else lt))
      × (length result ≡ first_diff start limit + 1)
unfolding separator
bytewise_find_shortest_separator_order start limit result h ne =
    elim (Bool-cases (can_shorten start limit)) [
      | inl shorten ↦ rw (← value shorten) (
        slice_compare-lex_compare _ limit ∙ bumped-lt-limit start limit _ shorten (omega arith),
        bumped_order start limit shorten,
        length-resize _ _,
      )
      | inr keep ↦ absurd (ne (sym (rw keep at left)))
    ]
  where
    left : separator start limit ≡ result
    left = cc (bytewise_find_shortest_separator-separator start limit)

    value :
        can_shorten start limit ≡ true → bumped start limit (first_diff start limit + 1) ≡ result
    value e = rw e at left
