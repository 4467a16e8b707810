-- ===== src/Random/Range.antt =====
-- The range of `Random::next`, and how it compares with the generator of Park and Miller that its
-- constants belong to, seed * 16807 modulo 2^31 - 1.
use my_leveldb.Common.{
  ℕ, ◌+◌, ◌-◌, ◌*◌, ◌/◌, ◌%◌, ◌^◌, ◌≤◌, ◌<◌, ◌≡◌, refl, arith, ltb, if◌then◌else◌, ◌↔◌,
}
use my_leveldb.Common.Bits.{bit_and-mask}
use my_leveldb.Random.{modulus, multiplier, next}

-- The wrapped product folded to 31 bits.
next_lem :
    (seed : ℕ)
    → next seed ≡ (
        let s = seed * 16807 % 2 ^ 32 / 2 ^ 31 + seed * 16807 % 2 ^ 32 % 2 ^ 31 in
        if ltb 2147483647 s then s - 2147483647 else s)
unfolding next
next_lem seed = rw (bit_and-mask 31 (seed * 16807 % 2 ^ 32) 2147483647 refl) (ground arith)

-- From a seed between 1 and 2^31 - 1 the next one lies there too, so the generator does not get
-- stuck; the seed 0 stays 0.
pub next_range :
    (seed : ℕ) → 1 ≤ seed → seed ≤ modulus → (1 ≤ next seed) × (next seed ≤ modulus) × (next 0 ≡ 0)
next_range seed lo hi = ground (arith, next_lem seed, next_lem 0)

-- From a seed of at most 2^31 - 1 the next one is congruent to seed * 16807 modulo 2^31 - 1 exactly if that product fits in 32
-- bits.
pub next_lehmer_iff :
    (seed : ℕ)
    → seed ≤ modulus
    → (next seed % modulus ≡ seed * multiplier % modulus) ↔ (seed * multiplier < 2 ^ 32)
next_lehmer_iff seed hi = (λ h. ground (arith, next_lem seed), λ h. ground (arith, next_lem seed))
