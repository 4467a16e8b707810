-- ===== src/Arena.antt =====
-- arena.h and arena.cpp: a bump allocator over blocks. An address is a number and NULL is 0. What
-- `new char[n]` returns is the argument `fresh`, and the capacity that `std::vector` keeps for its
-- elements is the argument `capacity` of `memory_usage`. A pointer has 8 bytes. `none` is a failed
-- `assert`.
pub mod Regions
pub mod Allocate
use my_leveldb.Common.{
  ℕ, ◌+◌, ◌-◌, ◌*◌, ◌<◌, bit_and, Bool, Option, none, some, List, [], ◌∷◌, ◌++◌, ltb, leb, ◌==◌,
  if◌then◌else◌, length, ◌>>=◌, ◌>>◌, assert,
}

pub record Arena : Type 0 where
  pub alloc_ptr : ℕ
  pub alloc_bytes_remaining : ℕ
  pub blocks : List ℕ
  pub blocks_memory : ℕ

abbrev pub new_arena : Arena
new_arena = record { alloc_ptr = 0; alloc_bytes_remaining = 0; blocks = []; blocks_memory = 0 }

abbrev pub k_max_block_size : ℕ
k_max_block_size = 4096

abbrev pub align : ℕ
align = 8

unfoldable pub memory_usage : (capacity : ℕ → ℕ) → Arena → ℕ
memory_usage capacity a = a.blocks_memory + capacity (length a.blocks) * 8

-- An allocation returns the pointer and the new state.
unfoldable pub allocate_new_block : (fresh block_bytes : ℕ) → Arena → ℕ × Arena
allocate_new_block fresh block_bytes a = (
  fresh,
  record a { blocks = a.blocks ++ (fresh ∷ []); blocks_memory = a.blocks_memory + block_bytes },
)

unfoldable pub allocate_fallback : (fresh bytes : ℕ) → Arena → ℕ × Arena
unfolding allocate_new_block
allocate_fallback fresh bytes a =
    if ltb 1024 bytes
    then allocate_new_block fresh bytes a
    else let (ret, a') = allocate_new_block fresh k_max_block_size a in
      (ret, record a' { alloc_ptr = ret + bytes; alloc_bytes_remaining = k_max_block_size - bytes })

unfoldable pub allocate : (fresh bytes : ℕ) → Arena → Option (ℕ × Arena)
unfolding allocate_fallback
allocate fresh bytes a = do
  assert (ltb 0 bytes)
  some (
      if leb bytes a.alloc_bytes_remaining
      then (
        a.alloc_ptr,
        record a {
          alloc_ptr = a.alloc_ptr + bytes;
          alloc_bytes_remaining = a.alloc_bytes_remaining - bytes;
        },
      )
      else allocate_fallback fresh bytes a)

-- The bytes skipped to reach an aligned address.
abbrev pub slop : ℕ → ℕ
slop alloc_ptr =
    let current_mod = bit_and alloc_ptr (align - 1) in
    if current_mod == 0 then 0 else align - current_mod

abbrev pub place_aligned : (fresh bytes : ℕ) → Arena → ℕ × Arena
place_aligned fresh bytes a =
    let needed = bytes + slop a.alloc_ptr in
    if leb needed a.alloc_bytes_remaining
    then (
      a.alloc_ptr + slop a.alloc_ptr,
      record a {
        alloc_ptr = a.alloc_ptr + needed;
        alloc_bytes_remaining = a.alloc_bytes_remaining - needed;
      },
    )
    else allocate_fallback fresh bytes a

unfoldable pub allocate_aligned : (fresh bytes : ℕ) → Arena → Option (ℕ × Arena)
unfolding allocate_fallback
allocate_aligned fresh bytes a =
    let (result, a') = place_aligned fresh bytes a in
    do assert (bit_and result (align - 1) == 0); some (result, a')

-- The destructor: the addresses that its loop gives to `delete[]`.
unfoldable pub delete_loop : List ℕ → List ℕ
delete_loop [] = []
delete_loop (block ∷ blocks) = block ∷ delete_loop blocks

unfoldable pub delete_arena : Arena → List ℕ
unfolding delete_loop
delete_arena a = delete_loop a.blocks
