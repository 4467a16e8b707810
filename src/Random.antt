-- ===== src/Random.antt =====
-- random.h: the pseudo-random generator. A method returns its value and the new `seed_`.
pub mod Range
use my_leveldb.Common.{ℕ, ◌+◌, ◌-◌, ◌*◌, ◌%◌, ◌^◌, bit_and, Bool, ltb, ◌==◌, if◌then◌else◌}
use my_leveldb.Coding.{shr}

abbrev pub modulus : ℕ
modulus = 2147483647

abbrev pub multiplier : ℕ
multiplier = 16807

-- `Random::Random`
unfoldable pub new_random : ℕ → ℕ
new_random s = bit_and s 0x7fffffff

-- `seed_ * A` is a product of two `uint32_t`, so it wraps before it is widened to `product`.
unfoldable pub next : ℕ → ℕ
next seed =
    let product = seed * multiplier % 2 ^ 32 in
    let seed' = (shr product 31 + bit_and product modulus) % 2 ^ 32 in
    if ltb modulus seed' then seed' - modulus else seed'

unfoldable pub uniform : ℕ → ℕ → ℕ × ℕ
uniform n seed = (next seed % n, next seed)

unfoldable pub one_in : ℕ → ℕ → Bool × ℕ
one_in n seed = (next seed % n == 0, next seed)

unfoldable pub skewed : ℕ → ℕ → ℕ × ℕ
unfolding uniform
skewed max_log seed = let (log, seed') = uniform (max_log + 1) seed in uniform (2 ^ log) seed'
