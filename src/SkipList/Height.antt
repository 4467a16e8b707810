-- ===== src/SkipList/Height.antt =====
-- `SkipList::randomHeight`: the bounds that its two assertions state.
use my_leveldb.Common.{ℕ, zero, suc, ◌+◌, ◌%◌, ◌≤◌, ◌==◌, arith, Bool-cases, inl, inr}
use my_leveldb.SkipList.{height_loop, random_height, k_branching, k_max_height}
use my_leveldb.Random.{next}

height_loop_bounds :
    (left height seed : ℕ)
    → (height ≤ (height_loop left height seed).0)
      × ((height_loop left height seed).0 ≤ height + left)
unfolding height_loop
height_loop_bounds zero height seed = (omega arith, omega arith)
height_loop_bounds (suc left) height seed =
    let later = height_loop_bounds left (height + 1) (next seed) in
    elim (Bool-cases (next seed % k_branching == 0)) [
      | inl e ↦ rw e (omega (arith, later.0), omega (arith, later.1))
      | inr e ↦ rw e (omega arith, omega arith)
    ]

-- A random height is at least 1 and at most 12, for every seed.
pub random_height_bounds :
    (seed : ℕ) → (1 ≤ (random_height seed).0) × ((random_height seed).0 ≤ k_max_height)
unfolding random_height
random_height_bounds seed =
    let b = height_loop_bounds 11 1 seed in (omega (arith, b.0), omega (arith, b.1))
