-- ===== src/Common/Bits.antt =====
-- `bit_and` and `bit_or` at variables: masks as remainders, and the union of disjoint bits as a sum.
use Prim.Native.Nat.{
  ℕ, zero, suc, ◌+◌, ◌*◌, ◌/◌, ◌%◌, ◌^◌, ◌≤◌, ◌<◌, min, max, bit_and, bit_or, digits,
  bit_and-bitwise, bit_or-bitwise,
}
use mathlib.Core.Path.{◌≡◌, refl, ap, ◌∙◌}
use native.Mathlib.Omega.{arith}
use native.Mathlib.Nat.{pow-suc}

module _ (rest : ℕ → ℕ) (op : ℕ → ℕ → ℕ) where
  -- Any two fuels that are as large as the first number give the same digits.
  enough_fuel :
      (b fuel more a : ℕ) → a ≤ fuel → a ≤ more → digits rest op fuel a b ≡ digits rest op more a b
  enough_fuel b zero zero zero small small' = refl
  enough_fuel b (suc fuel) zero zero small small' = refl
  enough_fuel b zero (suc more) zero small small' = refl
  enough_fuel b (suc fuel) (suc more) zero small small' = refl
  enough_fuel b zero more (suc a) small small' = absurd (omega arith)
  enough_fuel b (suc fuel) zero (suc a) small small' = absurd (omega arith)
  enough_fuel b (suc fuel) (suc more) (suc a) small small' =
      let halved = enough_fuel (b / 2) fuel more (suc a / 2) (omega arith) (omega arith) in
      omega (arith, halved)

pub zero-bit_or : (b : ℕ) → bit_or 0 b ≡ b
zero-bit_or b = bit_or-bitwise 0 b

-- One step of each operation: the lowest digit, and the operation on the halves.
pub bit_or_step : (a b : ℕ) → bit_or a b ≡ bit_or (a / 2) (b / 2) * 2 + max (a % 2) (b % 2)
bit_or_step zero b = omega (arith, zero-bit_or (b / 2), zero-bit_or b)
bit_or_step (suc a) b =
    let h = suc a / 2 in
    let fuel = enough_fuel (λ t. t) max (b / 2) a h h (omega arith) (omega arith) in
    omega (arith, fuel, bit_or-bitwise h (b / 2), bit_or-bitwise (suc a) b)

pub bit_and_step : (a b : ℕ) → bit_and a b ≡ bit_and (a / 2) (b / 2) * 2 + min (a % 2) (b % 2)
bit_and_step zero b = omega (arith, bit_and-bitwise 0 (b / 2), bit_and-bitwise 0 b)
bit_and_step (suc a) b =
    let h = suc a / 2 in
    let fuel = enough_fuel (λ t. zero) min (b / 2) a h h (omega arith) (omega arith) in
    omega (arith, fuel, bit_and-bitwise h (b / 2), bit_and-bitwise (suc a) b)

right_zero : (n a : ℕ) → a ≤ n → (bit_or a 0 ≡ a) × (bit_and a 0 ≡ 0)
right_zero n zero small = (refl, refl)
right_zero zero (suc a) small = absurd (omega arith)
right_zero (suc n) (suc a) small =
    let halved = right_zero n (suc a / 2) (omega arith) in
    (
      omega (arith, bit_or_step (suc a) 0, halved.0),
      omega (arith, bit_and_step (suc a) 0, halved.1),
    )

pub bit_or-zero : (a : ℕ) → bit_or a 0 ≡ a
bit_or-zero a = (right_zero a a (omega arith)).0

pub bit_and-zero : (a : ℕ) → bit_and a 0 ≡ 0
bit_and-zero a = (right_zero a a (omega arith)).1

pub bit_or_double : (a b : ℕ) → bit_or a (2 * b) ≡ bit_or (a / 2) b * 2 + a % 2
bit_or_double a b = bit_or_step a (2 * b) ∙ rw (half, even) (omega arith)
  where
    half : 2 * b / 2 ≡ b
    half = omega arith

    even : 2 * b % 2 ≡ 0
    even = omega arith

-- Bits below `s` joined to a multiple of `2 ^ s`.
pub bit_or_disjoint : (s a m : ℕ) → a < 2 ^ s → bit_or a (m * 2 ^ s) ≡ a + m * 2 ^ s
bit_or_disjoint zero a m h =
    let e : a ≡ 0 = omega arith in rw e (zero-bit_or (m * 2 ^ 0) ∙ omega arith)
bit_or_disjoint (suc s) a m h =
    let e : m * 2 ^ suc s ≡ 2 * (m * 2 ^ s) = rw pow-suc (omega arith) in
    let small : a / 2 < 2 ^ s = omega (arith, pow-suc 2 s) in
    rw e (omega (arith, bit_or_double a (m * 2 ^ s), bit_or_disjoint s (a / 2) m small))

-- Masks as remainders.
pub bit_and_ones : (a b : ℕ) → bit_and a (2 * b + 1) ≡ bit_and (a / 2) b * 2 + a % 2
bit_and_ones a b = bit_and_step a (2 * b + 1) ∙ rw (half, odd) (omega arith)
  where
    half : (2 * b + 1) / 2 ≡ b
    half = omega arith

    odd : (2 * b + 1) % 2 ≡ 1
    odd = omega arith

pub bit_and_double : (a b : ℕ) → bit_and a (2 * b) ≡ bit_and (a / 2) b * 2
bit_and_double a b = bit_and_step a (2 * b) ∙ rw (half, even) (omega arith)
  where
    half : 2 * b / 2 ≡ b
    half = omega arith

    even : 2 * b % 2 ≡ 0
    even = omega arith

bit_and-one : (a : ℕ) → bit_and a 1 ≡ a % 2
bit_and-one a = omega (arith, bit_and_ones a 0, bit_and-zero (a / 2))

-- `x & 127`
pub bit_and-low_seven : (a : ℕ) → bit_and a 127 ≡ a % 128
bit_and-low_seven a = omega (
  arith,
  bit_and_ones a 63,
  bit_and_ones (a / 2) 31,
  bit_and_ones (a / 2 / 2) 15,
  bit_and_ones (a / 2 / 2 / 2) 7,
  bit_and_ones (a / 2 / 2 / 2 / 2) 3,
  bit_and_ones (a / 2 / 2 / 2 / 2 / 2) 1,
  bit_and-one (a / 2 / 2 / 2 / 2 / 2 / 2),
)

-- `x & 255`
pub bit_and-low_byte : (a : ℕ) → bit_and a 255 ≡ a % 256
bit_and-low_byte a = omega (arith, bit_and_ones a 127, bit_and-low_seven (a / 2))

-- `x & 128`
pub bit_and-top_bit : (a : ℕ) → bit_and a 128 ≡ a / 128 % 2 * 128
bit_and-top_bit a = omega (
  arith,
  bit_and_double a 64,
  bit_and_double (a / 2) 32,
  bit_and_double (a / 2 / 2) 16,
  bit_and_double (a / 2 / 2 / 2) 8,
  bit_and_double (a / 2 / 2 / 2 / 2) 4,
  bit_and_double (a / 2 / 2 / 2 / 2 / 2) 2,
  bit_and_double (a / 2 / 2 / 2 / 2 / 2 / 2) 1,
  bit_and-one (a / 2 / 2 / 2 / 2 / 2 / 2 / 2),
)

bit_or-one : (a : ℕ) → bit_or a 1 ≡ a / 2 * 2 + 1
bit_or-one a = omega (arith, bit_or_step a 1, bit_or-zero (a / 2))

-- `(unsigned char)(x | 128)`
pub bit_or-top_bit : (a : ℕ) → bit_or a 128 % 256 ≡ a % 128 + 128
bit_or-top_bit a = omega (
  arith,
  bit_or_double a 64,
  bit_or_double (a / 2) 32,
  bit_or_double (a / 2 / 2) 16,
  bit_or_double (a / 2 / 2 / 2) 8,
  bit_or_double (a / 2 / 2 / 2 / 2) 4,
  bit_or_double (a / 2 / 2 / 2 / 2 / 2) 2,
  bit_or_double (a / 2 / 2 / 2 / 2 / 2 / 2) 1,
  bit_or-one (a / 2 / 2 / 2 / 2 / 2 / 2 / 2),
)

-- `x & (2^k - 1)`
pub bit_and-mask : (k a m : ℕ) → m + 1 ≡ 2 ^ k → bit_and a m ≡ a % 2 ^ k
bit_and-mask zero a m h = let e : m ≡ 0 = omega arith in rw e (bit_and-zero a ∙ omega arith)
bit_and-mask (suc k) a m h =
    let half : m ≡ 2 * (m / 2) + 1 = omega (arith, pow-suc 2 k) in
    let smaller : m / 2 + 1 ≡ 2 ^ k = omega (arith, pow-suc 2 k) in
    ap (λ t. bit_and a t) half
    ∙ bit_and_ones a (m / 2)
    ∙ rw (bit_and-mask k (a / 2) (m / 2) smaller, pow-suc) (halves a (2 ^ k))
  where
    halves : (x y : ℕ) → x / 2 % y * 2 + x % 2 ≡ x % (y * 2)
    halves x y = grind arith
