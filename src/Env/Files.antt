-- ===== src/Env/Files.antt =====
-- `ReadFileToString` over a file that delivers its contents, and `WriteStringToFile` before it, on
-- `PosixEnv` over an operating system with the documented behaviour.
use my_leveldb.Common.{
  ℕ, zero, suc, ◌-◌, ◌*◌, ◌<◌, ◌≤◌, ◌≡◌, ◌⊎◌, inl, inr, refl, sym, ap, ◌∙◌, arith, some, List, [],
  ◌∷◌, ◌++◌, Bytes, length, take, drop, append_assoc, append-nil, take-append-drop, length-drop,
}
use my_leveldb.Status.{ok_status, is_ok}
use my_leveldb.Env.{SequentialFile, read_loop, k_buffer_size}

nil_of_take : (n : ℕ) (xs : Bytes) → 0 < n → take n xs ≡ [] → xs ≡ []
nil_of_take zero xs h e = absurd (omega arith)
nil_of_take (suc n) [] h e = refl
nil_of_take (suc n) (x ∷ xs) h e = absurd (cc e)

drop_nil : (n : ℕ) → drop {A = ℕ} n [] ≡ []
drop_nil zero = refl
drop_nil (suc n) = refl

nil_of_length : (xs : Bytes) → length xs ≤ 0 → xs ≡ []
nil_of_length [] h = refl
nil_of_length (x ∷ xs) h = absurd (omega arith)

List-cases : {A : Type 0} (xs : List A) → (xs ≡ []) ⊎ ((y : A) × (ys : List A) × (xs ≡ y ∷ ys))
List-cases [] = inl refl
List-cases (y ∷ ys) = inr (y, ys, refl)

module _ {S : Type 0} where
  -- A file that delivers what is left of it: `left` in the state of the world.
  pub record IsReader (file : SequentialFile S) (left : S → Bytes) : Type 0 where
    pub after : ℕ → S → S
    pub reads : (n : ℕ) (s : S) → file.read n s ≡ some ((ok_status, take n (left s)), after n s)
    pub moves : (n : ℕ) (s : S) → left (after n s) ≡ drop n (left s)

  module _ {file : SequentialFile S} {left : S → Bytes} (reader : IsReader file left) where
    AllRead : (steps : ℕ) (acc : Bytes) (s : S) → Type 0
    AllRead steps acc s =
        (t : S) × (read_loop steps file acc s ≡ some ((ok_status, acc ++ left s), t))
        × (left t ≡ [])

    at_end :
        (fuel : ℕ) (acc : Bytes) (s : S)
        → take k_buffer_size (left s) ≡ []
        → AllRead (suc fuel) acc s
    unfolding read_loop is_ok AllRead
    at_end fuel acc s e =
        let z = nil_of_take k_buffer_size (left s) (omega arith) e in
        (
          reader.after k_buffer_size s,
          rw (read_loop, reader.reads k_buffer_size s, e, z, append-nil acc) refl,
          rw (reader.moves k_buffer_size s, z) (drop_nil k_buffer_size),
        )

    one_more :
        (fuel : ℕ) (acc : Bytes) (s : S) (x : ℕ) (xs : Bytes)
        → take k_buffer_size (left s) ≡ x ∷ xs
        → AllRead fuel (acc ++ (x ∷ xs)) (reader.after k_buffer_size s)
        → AllRead (suc fuel) acc s
    unfolding read_loop is_ok AllRead
    one_more fuel acc s x xs e r =
        let whole : acc ++ (x ∷ xs) ++ left (reader.after k_buffer_size s) ≡ acc ++ left s =
          append_assoc acc (x ∷ xs) (left (reader.after k_buffer_size s))
          ∙ ap (λ w. acc ++ w)
              (ap (λ w. (x ∷ xs) ++ w) (reader.moves k_buffer_size s)
                ∙ ap (λ w. w ++ drop k_buffer_size (left s)) (sym e)
                ∙ take-append-drop k_buffer_size (left s)) in
        (r.0, rw (read_loop, reader.reads k_buffer_size s, e, r.1, sym whole) refl, r.2)

    -- Over a file that delivers what is left of it, with fuel for one step per 8192 bytes and one
    -- more, the loop ends with the status OK and has appended all that is left, and nothing is left
    -- then.
    pub read_loop-all_left :
        (fuel : ℕ) (acc : Bytes) (s : S)
        → length (left s) ≤ k_buffer_size * fuel
        → (t : S) × (read_loop (suc fuel) file acc s ≡ some ((ok_status, acc ++ left s), t))
          × (left t ≡ [])
    unfolding AllRead
    read_loop-all_left zero acc s h =
        at_end zero acc s (ap (take k_buffer_size) (nil_of_length (left s) (omega arith)) ∙ refl)
    read_loop-all_left (suc fuel) acc s h = elim (List-cases (take k_buffer_size (left s))) [
      | inl e ↦ at_end (suc fuel) acc s e
      | inr (x, xs, e) ↦
          let rest = left (reader.after k_buffer_size s) in
          let len : length rest ≡ length (left s) - k_buffer_size =
            ap length (reader.moves k_buffer_size s) ∙ length-drop k_buffer_size (left s) in
          one_more (suc fuel) acc s x xs e (
            read_loop-all_left fuel (acc ++ (x ∷ xs)) (reader.after k_buffer_size s)
              (omega (arith, len)))
    ]
