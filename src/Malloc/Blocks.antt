-- ===== src/Malloc/Blocks.antt =====
-- The heap as a list of blocks: what the headers and footers in memory say, seen from one place in the
-- heap, with the blocks behind it listed backwards.
pub mod Tags
pub mod Frame
pub mod Zip
pub mod Rover
use cmu_15213_csapp3e_lab.Base.{
  ℕ, zero, suc, ◌+◌, ◌-◌, ◌%◌, ◌≤◌, ◌<◌, ◌≡◌, ◌⊎◌, Bool, true, false, List, [], ◌∷◌, if◌then◌else◌,
}
use cmu_15213_csapp3e_lab.Malloc.Words.{Bytes, get}

-- The size counts the header and the footer.
pub record Block : Type 0 where
  pub size : ℕ
  pub used : Bool

abbrev pub bit : Bool → ℕ
bit b = if b then 1 else 0

-- The block at `bp` has its size and whether it is used in its header and in its footer.
pub record Tagged (b : Bytes) (bp : ℕ) (k : Block) : Type 0 where
  pub aligned : k.size % 8 ≡ 0
  pub least : 8 ≤ k.size
  pub header : get b (bp - 4) ≡ k.size + bit k.used
  pub footer : get b (bp + k.size - 8) ≡ k.size + bit k.used

abbrev pub span : List Block → ℕ
span [] = 0
span (k ∷ ks) = k.size + span ks

-- the blocks from `bp` on
abbrev pub Ahead : Bytes → ℕ → List Block → Type 0
Ahead b bp [] = Unit
Ahead b bp (k ∷ ks) = Tagged b bp k × Ahead b (bp + k.size) ks

-- the blocks from `lo` on, the last one first
abbrev pub Behind : Bytes → ℕ → List Block → Type 0
Behind b lo [] = Unit
Behind b lo (k ∷ ks) = Tagged b (lo + span ks) k × Behind b lo ks

-- where blocks begin
abbrev pub StartsAhead : ℕ → List Block → ℕ → Type 0
StartsAhead bp [] p = p ≡ bp
StartsAhead bp (k ∷ ks) p = (p ≡ bp) ⊎ StartsAhead (bp + k.size) ks p

abbrev pub StartsBehind : ℕ → List Block → ℕ → Type 0
StartsBehind lo [] p = ⊥
StartsBehind lo (k ∷ ks) p = (p ≡ lo + span ks) ⊎ StartsBehind lo ks p

-- `c` has the bytes of `b` from `lo` up to `hi`.
abbrev pub Kept : Bytes → Bytes → ℕ → ℕ → Type 0
Kept b c lo hi = (q : ℕ) → lo ≤ q → q < hi → c q ≡ b q
