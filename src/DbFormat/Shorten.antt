-- ===== src/DbFormat/Shorten.antt =====
-- `InternalKeyComparator::findShortestSeparator` and `findShortSuccessor` over the bytewise
-- comparator: their asserts hold, and the new key lies where it should.
use my_leveldb.Common.{
  ◌+◌, ◌-◌, Bool, true, false, some, [], ◌∷◌, ◌++◌, Bytes, ltb, if◌then◌else◌, length, drop, ◌≡◌,
  ◌≢◌, refl, arith, sym, ap, ◌∙◌, ◌⊎◌, inl, inr,
}
use my_leveldb.Comparator.{bytewise_comparator, bytewise_find_shortest_separator}
use my_leveldb.Comparator.Laws.{bytewise-IsOrder}
use my_leveldb.Comparator.Separator.{
  separator, first_diff, common_length, bytewise_find_shortest_separator-separator,
  bytewise_find_shortest_separator_order,
}
use my_leveldb.Comparator.Successor.{successor, bytewise_find_short_successor-successor}
use my_leveldb.Slice.{slice_compare}
use my_leveldb.Slice.Order.{lex_compare, slice_compare-lex_compare}
use my_leveldb.Coding.{put_fixed64, encode_fixed64}
use my_leveldb.DbFormat.{
  ParsedInternalKey, internal_compare, put_seek_tag, internal_find_shortest_separator,
  internal_find_short_successor, k_max_sequence_number,
}
use my_leveldb.DbFormat.Key.{
  IsKey, encoded, tag_of, extract_user_key-encoded, decode_tag-encoded, pack_sequence_and_type_lem,
}
use my_leveldb.DbFormat.Compare.{
  IsInternal, Parts, parts_of, user_part, internal_compare-parts, tag_order,
}
use Prim.Native.Nat.{Ordering, lt, eq, gt}

-- Bytes behind a string never make it smaller.
lex_compare-append_gt : (a b t : Bytes) → lex_compare a b ≡ gt → lex_compare (a ++ t) b ≡ gt
unfolding lex_compare
lex_compare-append_gt [] [] t h = cc
lex_compare-append_gt [] (y ∷ b) t h = cc
lex_compare-append_gt (x ∷ a) [] t h = refl
lex_compare-append_gt (x ∷ a) (y ∷ b) t h = ground (arith, lex_compare-append_gt a b t)

lex_compare-append-ne_lt : (a t : Bytes) → lex_compare (a ++ t) a ≢ lt
unfolding lex_compare
lex_compare-append-ne_lt [] [] h = cc
lex_compare-append-ne_lt [] (x ∷ t) h = cc
lex_compare-append-ne_lt (x ∷ a) t h = ground (arith, lex_compare-append-ne_lt a t)

abbrev seek_tagged : Bytes → ParsedInternalKey
seek_tagged user = record { user_key = user; sequence = k_max_sequence_number; type = 1 }

seek_tagged-IsKey : (user : Bytes) → IsKey (seek_tagged user)
seek_tagged-IsKey user = omega arith

put_seek_tag-encoded : (tmp : Bytes) → put_seek_tag tmp ≡ some (encoded (seek_tagged tmp))
unfolding put_fixed64 encode_fixed64
put_seek_tag-encoded tmp =
    rw (pack_sequence_and_type_lem k_max_sequence_number 1 (omega arith) (omega arith))

abbrev seek_parts : (user : Bytes) → Parts (encoded (seek_tagged user))
seek_parts user = record {
  user = user;
  tag = tag_of (seek_tagged user);
  user_eq = extract_user_key-encoded (seek_tagged user);
  tag_eq = decode_tag-encoded (seek_tagged user) (seek_tagged-IsKey user);
}

-- Keys whose user keys are in order are in order.
user_lt :
    {p q : Bytes} (a : Parts p) (b : Parts q)
    → lex_compare a.user b.user ≡ lt
    → internal_compare bytewise_comparator p q ≡ some lt
unfolding bytewise-IsOrder
user_lt a b h =
    internal_compare-parts bytewise_comparator bytewise-IsOrder a b
    ∙ ap (λ r. some (tag_order r a.tag b.tag)) h

-- The whole key below the shortened user key: then its user key is below it too.
shortened-gt-user :
    {start : Bytes} (h : IsInternal start) (tmp : Bytes)
    → slice_compare start tmp ≡ lt
    → slice_compare (parts_of h).user tmp ≢ gt
shortened-gt-user {start} h tmp e g =
    let u = (parts_of h).user in
    let whole =
      lex_compare-append_gt u tmp (drop (length start - 8) start)
        (sym (slice_compare-lex_compare u tmp) ∙ g) in
    cc (ap (λ t. lex_compare t tmp) (user_part h), slice_compare-lex_compare start tmp, whole)

shortened-ne-user :
    {start : Bytes} (h : IsInternal start) (tmp : Bytes)
    → slice_compare start tmp ≡ lt
    → tmp ≢ (parts_of h).user
shortened-ne-user {start} h tmp e same =
    lex_compare-append-ne_lt (parts_of h).user (drop (length start - 8) start) (
      ap (λ t. lex_compare t (parts_of h).user) (user_part h)
      ∙ rw (← same) (sym (slice_compare-lex_compare start tmp) ∙ e))

Ordering-cases : (r : Ordering) → (r ≡ lt) ⊎ ((r ≡ eq) ⊎ (r ≡ gt))
Ordering-cases lt = inl refl
Ordering-cases eq = inr (inl refl)
Ordering-cases gt = inr (inr refl)

not_gt : (b : Bool) {r : Ordering} → r ≡ (if b then gt else lt) → r ≢ gt → r ≡ lt
not_gt true e ne = absurd (ne e)
not_gt false e ne = e

-- Over the bytewise comparator, on two strings that hold tags, `findShortestSeparator` fails no
-- `assert`. It leaves `*start`, or a key above the old `*start` and below `limit`.
pub internal_find_shortest_separator_order :
    (start limit : Bytes)
    → IsInternal start
    → IsInternal limit
    → (result : Bytes) × (internal_find_shortest_separator bytewise_comparator start limit
        ≡ some result)
      × ((result ≡ start)
          ⊎ ((internal_compare bytewise_comparator start result ≡ some lt)
              × (internal_compare bytewise_comparator result limit ≡ some lt)))
unfolding internal_find_shortest_separator bytewise_comparator
internal_find_shortest_separator_order start limit hs hl =
    elim (Ordering-cases (slice_compare start tmp)) [
      | inl less ↦
          let above : slice_compare u tmp ≡ lt = user_above less in
          let below : slice_compare tmp l ≡ lt = (changed less).0 in
          let start_lt =
            user_lt (parts_of hs) (seek_parts tmp)
              (sym (slice_compare-lex_compare u tmp) ∙ above) in
          let lt_limit =
            user_lt (seek_parts tmp) (parts_of hl)
              (sym (slice_compare-lex_compare tmp l) ∙ below) in
          (
            encoded (seek_tagged tmp),
            rw (
              (parts_of hs).user_eq,
              (parts_of hl).user_eq,
              shortened,
              less,
              put_seek_tag-encoded tmp,
              start_lt,
              lt_limit,
            ),
            inr (start_lt, lt_limit),
          )
      | inr (inl same) ↦
          (start, rw ((parts_of hs).user_eq, (parts_of hl).user_eq, shortened, same), inl refl)
      | inr (inr more) ↦
          (start, rw ((parts_of hs).user_eq, (parts_of hl).user_eq, shortened, more), inl refl)
    ]
  where
    u : Bytes
    u = (parts_of hs).user

    l : Bytes
    l = (parts_of hl).user

    tmp : Bytes
    tmp = separator u l

    shortened : bytewise_find_shortest_separator u l ≡ some tmp
    shortened = bytewise_find_shortest_separator-separator u l

    changed :
        slice_compare start tmp ≡ lt
        → (slice_compare tmp l ≡ lt)
          × (slice_compare u tmp ≡ (if ltb (first_diff u l) (common_length u l) then gt else lt))
          × (length tmp ≡ first_diff u l + 1)
    changed e =
        bytewise_find_shortest_separator_order u l tmp shortened (shortened-ne-user hs tmp e)

    user_above : slice_compare start tmp ≡ lt → slice_compare u tmp ≡ lt
    user_above e =
        not_gt (ltb (first_diff u l) (common_length u l)) (changed e).1 (shortened-gt-user hs tmp e)

-- On a string that holds a tag `findShortSuccessor` fails no `assert`. It leaves `*key`, or a key
-- above it.
pub internal_find_short_successor_order :
    (key : Bytes)
    → IsInternal key
    → (result : Bytes) × (internal_find_short_successor bytewise_comparator key ≡ some result)
      × ((result ≡ key) ⊎ (internal_compare bytewise_comparator key result ≡ some lt))
unfolding internal_find_short_successor bytewise_comparator
internal_find_short_successor_order key h = elim (Ordering-cases (slice_compare u (successor u))) [
  | inl less ↦
      let key_lt =
        user_lt (parts_of h) (seek_parts (successor u))
          (sym (slice_compare-lex_compare u (successor u)) ∙ less) in
      (
        encoded (seek_tagged (successor u)),
        rw (
          (parts_of h).user_eq,
          bytewise_find_short_successor-successor u,
          less,
          put_seek_tag-encoded (successor u),
          key_lt,
        ),
        inr key_lt,
      )
  | inr (inl same) ↦
      (key, rw ((parts_of h).user_eq, bytewise_find_short_successor-successor u, same), inl refl)
  | inr (inr more) ↦
      (key, rw ((parts_of h).user_eq, bytewise_find_short_successor-successor u, more), inl refl)
]
  where
    u : Bytes
    u = (parts_of h).user
