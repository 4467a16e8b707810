-- ===== src/Arena/Regions.antt =====
-- Regions of memory, and what it is for an arena to be sound: what it has handed out lies apart.
use my_leveldb.Common.{ℕ, ◌+◌, ◌≤◌, ◌≡◌, List, [], ◌∷◌, ◌⊎◌, inl, inr, arith, All, length}
use my_leveldb.Arena.{Arena, k_max_block_size}

-- A start address and a size.
pub record Region : Type 0 where
  pub start : ℕ
  pub size : ℕ

abbrev pub region : ℕ → ℕ → Region
region p n = record { start = p; size = n }

abbrev pub Apart : Region → Region → Type 0
Apart r s = (r.start + r.size ≤ s.start) ⊎ (s.start + s.size ≤ r.start)

abbrev pub Inside : Region → Region → Type 0
Inside r s = (s.start ≤ r.start) × (r.start + r.size ≤ s.start + s.size)

abbrev pub InsideSome : List Region → Region → Type 0
InsideSome [] r = ⊥
InsideSome (b ∷ bs) r = Inside r b ⊎ InsideSome bs r

abbrev pub AllApart : List Region → Type 0
AllApart [] = Unit {0}
AllApart (r ∷ rs) = All (Apart r) rs × AllApart rs

abbrev pub total : List Region → ℕ
total [] = 0
total (r ∷ rs) = r.size + total rs

-- The bytes that the arena may still hand out.
abbrev pub window : Arena → Region
window a = region a.alloc_ptr a.alloc_bytes_remaining

-- `blocks` are the blocks from the system and `used` the regions handed out, the last one first.
pub record IsArena (blocks used : List Region) (a : Arena) : Type 0 where
  pub used_apart : AllApart used
  pub used_inside : All (InsideSome blocks) used
  pub window_apart : All (Apart (window a)) used
  pub window_inside :
      ((a.alloc_ptr ≡ 0) × (a.alloc_bytes_remaining ≡ 0)) ⊎ InsideSome blocks (window a)
  pub window_small : a.alloc_bytes_remaining ≤ k_max_block_size
  pub block_count : length a.blocks ≡ length blocks
  pub block_memory : a.blocks_memory ≡ total blocks
  pub accounted : total used + a.alloc_bytes_remaining ≤ a.blocks_memory

-- A region apart from every block is apart from what lies in one of them.
pub Apart-of_inside :
    (f : Region) (bs : List Region) (r : Region) → All (Apart f) bs → InsideSome bs r → Apart f r
Apart-of_inside f [] r h i = absurd i
Apart-of_inside f (b ∷ bs) r h (inl i) = grind arith
Apart-of_inside f (b ∷ bs) r h (inr i) = Apart-of_inside f bs r h.1 i

pub All-Apart_of_inside :
    (f : Region) (bs rs : List Region)
    → All (Apart f) bs
    → All (InsideSome bs) rs
    → All (Apart f) rs
All-Apart_of_inside f bs [] h i = tt
All-Apart_of_inside f bs (r ∷ rs) h i =
    (Apart-of_inside f bs r h i.0, All-Apart_of_inside f bs rs h i.1)

-- A part of a region is apart from what the region is apart from.
pub All-Apart_of_part :
    (r s : Region) (rs : List Region) → Inside s r → All (Apart r) rs → All (Apart s) rs
All-Apart_of_part r s [] i h = tt
All-Apart_of_part r s (x ∷ rs) i h = (grind arith, All-Apart_of_part r s rs i h.1)

pub InsideSome-of_part :
    (bs : List Region) (r s : Region) → Inside s r → InsideSome bs r → InsideSome bs s
InsideSome-of_part [] r s i h = h
InsideSome-of_part (b ∷ bs) r s i (inl h) = inl (omega arith, omega arith)
InsideSome-of_part (b ∷ bs) r s i (inr h) = inr (InsideSome-of_part bs r s i h)

-- One more block keeps what lay in a block there.
pub All-Inside_cons :
    (b : Region) (bs rs : List Region) → All (InsideSome bs) rs → All (InsideSome (b ∷ bs)) rs
All-Inside_cons b bs [] h = tt
All-Inside_cons b bs (r ∷ rs) h = (inr h.0, All-Inside_cons b bs rs h.1)
