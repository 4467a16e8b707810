-- ===== src/MemTable/Stored.antt =====
-- Bytes in the memory: reading what stands there and what was stored.
use my_leveldb.Common.{
  ℕ, zero, suc, ◌+◌, ◌-◌, ◌<◌, ◌≤◌, ◌≡◌, ◌≢◌, ◌⊎◌, inl, inr, refl, sym, ap, ◌∙◌, arith, [], ◌∷◌,
  ◌++◌, Bytes, length, take, drop, length-append, take-append, drop-append, get_or,
}
use my_leveldb.SkipList.{Ptr}
use my_leveldb.MemTable.{Memory, load, store}

-- The bytes stand in the memory from `p`.
abbrev pub IsAt : Memory → Ptr → Bytes → Type 0
IsAt m p bytes = load m p (length bytes) ≡ bytes

pub length-load : (m : Memory) (p : Ptr) (n : ℕ) → length (load m p n) ≡ n
unfolding load
length-load m p zero = omega arith
length-load m p (suc n) = omega (arith, length-load m (p + 1) n)

pub load_append :
    (m : Memory) (p : Ptr) (n k : ℕ) → load m p (n + k) ≡ load m p n ++ load m (p + n) k
unfolding load
load_append m p zero k =
    let e : 0 + k ≡ k = omega arith in
    let f : p ≡ p + 0 = omega arith in ap (load m p) e ∙ ap (λ (w : ℕ). load m w k) f
load_append m p (suc n) k =
    let e : suc n + k ≡ suc (n + k) = omega arith in
    let f : p + 1 + n ≡ p + suc n = omega arith in
    ap (load m p) e
    ∙ ap (λ t. m p ∷ t)
        (load_append m (p + 1) n k ∙ ap (λ (w : ℕ). load m (p + 1) n ++ load m w k) f)

pub IsAt-append :
    (m : Memory) (p : Ptr) (xs ys : Bytes)
    → IsAt m p (xs ++ ys)
    → IsAt m p xs × IsAt m (p + length xs) ys
IsAt-append m p xs ys h =
    let n = length xs in
    let whole : load m p n ++ load m (p + n) (length ys) ≡ xs ++ ys =
      sym (load_append m p n (length ys)) ∙ ap (load m p) (sym (length-append xs ys)) ∙ h in
    let both = load m p n ++ load m (p + n) (length ys) in
    let len = length-load m p n in
    (
      sym (take-append (load m p n) (load m (p + n) (length ys)))
          ∙ ap (λ (w : ℕ). take w both) len
          ∙ ap (take n) whole
          ∙ take-append xs ys,
      sym (drop-append (load m p n) (load m (p + n) (length ys)))
          ∙ ap (λ (w : ℕ). drop w both) len
          ∙ ap (drop n) whole
          ∙ drop-append xs ys,
    )

-- The bytes of two ranges lie apart.
abbrev pub Apart : (p n q k : ℕ) → Type 0
Apart p n q k = (p + n ≤ q) ⊎ (q + k ≤ p)

pub Apart-ne : (p n q k : ℕ) → Apart p n q k → 0 < n → 0 < k → p ≢ q
Apart-ne p n q k (inl h) a b e = omega (arith, e)
Apart-ne p n q k (inr h) a b e = omega (arith, e)

store_outside :
    (m : Memory) (s : Ptr) (bytes : Bytes) (q : Ptr)
    → (q < s) ⊎ (s + length bytes ≤ q)
    → store s bytes m q ≡ m q
unfolding store
store_outside m s bytes q (inl h) = ground arith
store_outside m s bytes q (inr h) = ground arith

store_inside :
    (m : Memory) (s : Ptr) (bytes : Bytes) (i : ℕ)
    → i < length bytes
    → store s bytes m (s + i) ≡ get_or bytes i 0
unfolding store
store_inside m s bytes i h =
    let e : s + i - s ≡ i = omega arith in ground (arith, ap (λ (w : ℕ). get_or bytes w 0) e)

load-store-Apart :
    (m : Memory) (s : Ptr) (bytes : Bytes) (p : Ptr) (n : ℕ)
    → Apart p n s (length bytes)
    → load (store s bytes m) p n ≡ load m p n
unfolding load
load-store-Apart m s bytes p zero h = refl
load-store-Apart m s bytes p (suc n) (inl h) =
    rw
      (
        store_outside m s bytes p (inl (omega arith)),
        load-store-Apart m s bytes (p + 1) n (inl (omega arith)),
      )
      refl
load-store-Apart m s bytes p (suc n) (inr h) =
    rw (store_outside m s bytes p (inr h), load-store-Apart m s bytes (p + 1) n (inr (omega arith)))
      refl

load_pointwise :
    (m : Memory) (p : Ptr) (bytes : Bytes)
    → ((i : ℕ) → i < length bytes → m (p + i) ≡ get_or bytes i 0)
    → load m p (length bytes) ≡ bytes
unfolding load
load_pointwise m p [] h = refl
load_pointwise m p (x ∷ xs) h =
    let e : p ≡ p + 0 = omega arith in
    let first : m p ≡ x = ap m e ∙ h 0 (omega arith) in
    let rest =
      load_pointwise m (p + 1) xs
        (λ i hi. let f : p + 1 + i ≡ p + suc i = omega arith in ap m f ∙ h (suc i) (omega arith)) in
    ap (λ w. w ∷ load m (p + 1) (length xs)) first ∙ ap (λ w. x ∷ w) rest

-- What was stored is read back, and what stands apart from it is left.
pub IsAt-store : (m : Memory) (s : Ptr) (bytes : Bytes) → IsAt (store s bytes m) s bytes
IsAt-store m s bytes = load_pointwise (store s bytes m) s bytes (store_inside m s bytes)

pub IsAt-store-Apart :
    (m : Memory) (s : Ptr) (bytes : Bytes) (p : Ptr) (there : Bytes)
    → Apart p (length there) s (length bytes)
    → IsAt m p there
    → IsAt (store s bytes m) p there
IsAt-store-Apart m s bytes p there apart h = load-store-Apart m s bytes p (length there) apart ∙ h
