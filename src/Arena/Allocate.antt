-- ===== src/Arena/Allocate.antt =====
-- `Arena::allocate` and `Arena::allocateAligned`: what they hand out is new, lies in a block, and is
-- aligned where that is asked.
use my_leveldb.Common.{
  ℕ, ◌+◌, ◌-◌, ◌*◌, ◌%◌, ◌≤◌, ◌<◌, ◌≡◌, List, [], ◌∷◌, inl, inr, arith, All, length, refl, some,
  ltb, leb, ◌==◌, if◌then◌else◌, true, Bool-cases, lt→ltb, length-append, bit_and, ap, sym,
}
use my_leveldb.Common.Bits.{bit_and-mask}
use native.Mathlib.Nat.{add-zero}
use my_leveldb.Arena.{
  Arena, k_max_block_size, allocate_fallback, allocate, allocate_aligned, slop, align, memory_usage,
}
use my_leveldb.Arena.Regions.{
  Region, region, Apart, Inside, InsideSome, total, window, IsArena, Apart-of_inside,
  All-Apart_of_inside, All-Apart_of_part, InsideSome-of_part, All-Inside_cons,
}

-- The size of the block that `allocateFallback` asks for.
abbrev pub block_size_of : ℕ → ℕ
block_size_of bytes = if ltb 1024 bytes then bytes else k_max_block_size

module _ {blocks used : List Region} {a : Arena} (sound : IsArena blocks used a) where
  -- The state after `skipped` and then `bytes` bytes of the window are gone.
  abbrev carved : ℕ → ℕ → Arena
  carved skipped bytes = record a {
    alloc_ptr = a.alloc_ptr + (bytes + skipped);
    alloc_bytes_remaining = a.alloc_bytes_remaining - (bytes + skipped);
  }

  carve-IsArena :
      (skipped bytes : ℕ)
      → 0 < bytes
      → bytes + skipped ≤ a.alloc_bytes_remaining
      → IsArena blocks (region (a.alloc_ptr + skipped) bytes ∷ used) (carved skipped bytes)
  carve-IsArena skipped bytes pos fits =
      let r = region (a.alloc_ptr + skipped) bytes in
      let w = window (carved skipped bytes) in
      let r_part : Inside r (window a) = (omega arith, omega arith) in
      let w_part : Inside w (window a) = (omega arith, omega arith) in
      let home : InsideSome blocks (window a) = filled in
      record {
        used_apart =
            (All-Apart_of_part (window a) r used r_part sound.window_apart, sound.used_apart);
        used_inside = (InsideSome-of_part blocks (window a) r r_part home, sound.used_inside);
        window_apart =
            (inr (omega arith), All-Apart_of_part (window a) w used w_part sound.window_apart);
        window_inside = inr (InsideSome-of_part blocks (window a) w w_part home);
        window_small = omega (arith, sound.window_small);
        block_count = sound.block_count;
        block_memory = sound.block_memory;
        accounted = omega (arith, sound.accounted);
      }
    where
      filled : InsideSome blocks (window a)
      filled = elim sound.window_inside [ inl e ↦ absurd (omega (arith, e.1)) | inr i ↦ i ]

  window-Apart_of_fresh : (f : Region) → All (Apart f) blocks → Apart (window a) f
  window-Apart_of_fresh f h = elim sound.window_inside [
    | inl e ↦ inl (omega (arith, e.0, e.1))
    | inr i ↦ elim (Apart-of_inside f blocks (window a) h i) [ inl p ↦ inr p | inr p ↦ inl p ]
  ]

  fallback-IsArena :
      (fresh bytes : ℕ)
      → 0 < bytes
      → All (Apart (region fresh (block_size_of bytes))) blocks
      → IsArena
          (region fresh (block_size_of bytes) ∷ blocks)
          (region fresh bytes ∷ used)
          (allocate_fallback fresh bytes a).1
  unfolding allocate_fallback
  fallback-IsArena fresh bytes pos new = elim (Bool-cases (ltb 1024 bytes)) [
    | inl big ↦
        let r = region fresh bytes in
        let new' : All (Apart r) blocks = rw big at new in
        let apart = All-Apart_of_inside r blocks used new' sound.used_inside in
        rw big (record {
          used_apart = (apart, sound.used_apart);
          used_inside =
              (inl (omega arith, omega arith), All-Inside_cons r blocks used sound.used_inside);
          window_apart = (window-Apart_of_fresh r new', sound.window_apart);
          window_inside = elim sound.window_inside [ inl e ↦ inl e | inr i ↦ inr (inr i) ];
          window_small = sound.window_small;
          block_count = omega (arith, length-append a.blocks (fresh ∷ []), sound.block_count);
          block_memory = omega (arith, sound.block_memory);
          accounted = omega (arith, sound.accounted);
        })
    | inr small ↦
        let b = region fresh k_max_block_size in
        let r = region fresh bytes in
        let w = region (fresh + bytes) (k_max_block_size - bytes) in
        let few : bytes ≤ 1024 = ground arith in
        let new' : All (Apart b) blocks = rw small at new in
        let apart = All-Apart_of_inside b blocks used new' sound.used_inside in
        rw small (record {
          used_apart =
              (All-Apart_of_part b r used (omega arith, omega arith) apart, sound.used_apart);
          used_inside =
              (inl (omega arith, omega arith), All-Inside_cons b blocks used sound.used_inside);
          window_apart =
              (inr (omega arith), All-Apart_of_part b w used (omega arith, omega arith) apart);
          window_inside = inr (inl (omega arith, omega arith));
          window_small = omega arith;
          block_count = omega (arith, length-append a.blocks (fresh ∷ []), sound.block_count);
          block_memory = omega (arith, sound.block_memory);
          accounted = omega (arith, sound.accounted);
        })
  ]

fallback_ptr : (a : Arena) (fresh bytes : ℕ) → (allocate_fallback fresh bytes a).0 ≡ fresh
unfolding allocate_fallback
fallback_ptr a fresh bytes = ground arith

-- What an allocation of `bytes` at `fresh` is to do: hand out a region that lies in a block and
-- apart from all that was handed out before, and leave a sound arena, with one more block if the
-- window was too small.
abbrev pub Hands : List Region → List Region → ℕ → ℕ × Arena → Type 0
Hands blocks used bytes (p, a) = IsArena blocks (region p bytes ∷ used) a

-- In a sound arena, with `fresh` a block apart from the others, `allocate` succeeds for a size above
-- 0, and leaves a sound arena in which the region that it hands out is listed: it lies in a block
-- and apart from every region handed out before.
pub allocate-IsArena :
    {blocks used : List Region} {a : Arena} (fresh bytes : ℕ)
    → IsArena blocks used a
    → 0 < bytes
    → All (Apart (region fresh (block_size_of bytes))) blocks
    → (r : ℕ × Arena) × (allocate fresh bytes a ≡ some r)
      × Hands
          (if leb bytes a.alloc_bytes_remaining
            then blocks
            else region fresh (block_size_of bytes) ∷ blocks)
          used
          bytes
          r
unfolding allocate
allocate-IsArena {blocks} {used} {a} fresh bytes sound pos new =
    elim (Bool-cases (leb bytes a.alloc_bytes_remaining)) [
      | inl fits ↦ (
        (
          a.alloc_ptr,
          record a {
            alloc_ptr = a.alloc_ptr + bytes;
            alloc_bytes_remaining = a.alloc_bytes_remaining - bytes;
          },
        ),
        rw (lt→ltb 0 bytes pos, fits),
        rw fits (simp add-zero at (carve-IsArena sound 0 bytes pos (ground arith))),
      )
      | inr full ↦ (
        allocate_fallback fresh bytes a,
        rw (lt→ltb 0 bytes pos, full),
        rw (full, fallback_ptr a fresh bytes) (fallback-IsArena sound fresh bytes pos new),
      )
    ]

slop_lem : (p : ℕ) → (slop p < 8) × ((p + slop p) % 8 ≡ 0)
slop_lem p = let e = bit_and-mask 3 p 7 refl in ground (arith, e)

aligned_test : (p : ℕ) → p % 8 ≡ 0 → (bit_and p (align - 1) == 0) ≡ true
aligned_test p h = ground (arith, bit_and-mask 3 p 7 refl)

-- In a sound arena, with `fresh` the aligned address of a block apart from the others,
-- `allocateAligned` succeeds for a size above 0: its `assert` holds, the address that it hands out is
-- a multiple of 8, and the arena that it leaves is sound with that region listed.
pub allocate_aligned-IsArena :
    {blocks used : List Region} {a : Arena} (fresh bytes : ℕ)
    → IsArena blocks used a
    → 0 < bytes
    → fresh % 8 ≡ 0
    → All (Apart (region fresh (block_size_of bytes))) blocks
    → (r : ℕ × Arena) × (allocate_aligned fresh bytes a ≡ some r)
      × (r.0 % 8 ≡ 0)
      × Hands
          (if leb (bytes + slop a.alloc_ptr) a.alloc_bytes_remaining
            then blocks
            else region fresh (block_size_of bytes) ∷ blocks)
          used
          bytes
          r
unfolding allocate_aligned
allocate_aligned-IsArena {blocks} {used} {a} fresh bytes sound pos multiple new =
    elim (Bool-cases (leb (bytes + slop a.alloc_ptr) a.alloc_bytes_remaining)) [
      | inl fits ↦
          let (small, rounded) = slop_lem a.alloc_ptr in
          (
            (
              a.alloc_ptr + slop a.alloc_ptr,
              record a {
                alloc_ptr = a.alloc_ptr + (bytes + slop a.alloc_ptr);
                alloc_bytes_remaining = a.alloc_bytes_remaining - (bytes + slop a.alloc_ptr);
              },
            ),
            rw (fits, aligned_test (a.alloc_ptr + slop a.alloc_ptr) rounded),
            rounded,
            rw fits (carve-IsArena sound (slop a.alloc_ptr) bytes pos (ground arith)),
          )
      | inr full ↦ (
        allocate_fallback fresh bytes a,
        rw (full, fallback_ptr a fresh bytes, aligned_test fresh multiple)
            (ap some
              (λ i. (sym (fallback_ptr a fresh bytes) i, (allocate_fallback fresh bytes a).1))),
        rw (fallback_ptr a fresh bytes) multiple,
        rw (full, fallback_ptr a fresh bytes) (fallback-IsArena sound fresh bytes pos new),
      )
    ]

-- A sound arena reports at least the bytes that it has handed out and still holds ready, and its
-- report is the size of its blocks and of the vector's storage, whatever the vector's capacity is.
pub memory_usage-total :
    {blocks used : List Region} {a : Arena} (capacity : ℕ → ℕ)
    → IsArena blocks used a
    → (total used + a.alloc_bytes_remaining ≤ memory_usage capacity a)
      × (memory_usage capacity a ≡ total blocks + capacity (length blocks) * 8)
unfolding memory_usage
memory_usage-total capacity sound =
    (omega (arith, sound.accounted), rw (sound.block_count, sound.block_memory))
