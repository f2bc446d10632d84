-- ===== src/Malloc/Blocks/Zip.antt =====
-- A heap seen from one of its blocks, and two neighbours in it made one.
use mathlib.Core.Path.{subst}
use cmu_15213_csapp3e_lab.Base.{
  ℕ, ◌+◌, ◌-◌, ◌^◌, ◌≤◌, ◌<◌, ◌≡◌, ◌∙◌, true, false, List, [], ◌∷◌, if◌then◌else◌, arith,
}
use cmu_15213_csapp3e_lab.Malloc.Words.{Bytes, get}
use cmu_15213_csapp3e_lab.Malloc.Blocks.{Block, Tagged, span, Ahead, Behind, Kept}
use cmu_15213_csapp3e_lab.Malloc.Blocks.Frame.{get-Kept, Ahead-Kept, Behind-Kept}

-- The blocks `r` from `lo` on, backwards, and then the blocks `s`, up to the epilogue below `hi`.
pub record Zip (b : Bytes) (lo : ℕ) (r s : List Block) (hi : ℕ) : Type 0 where
  pub base : 8 ≤ lo
  pub small : hi < lo + 2 ^ 31
  pub behind : Behind b lo r
  pub ahead : Ahead b (lo + span r) s
  pub end : lo + span r + span s ≡ hi
  pub epilogue : get b (hi - 4) ≡ 1

abbrev pub free : ℕ → Block
free n = record { size = n; used = false }

abbrev pub alloc : ℕ → Block
alloc n = record { size = n; used = true }

-- the size of the first block if it is free, and the blocks without it
abbrev pub absorbed : List Block → ℕ
absorbed [] = 0
absorbed (k ∷ ks) = if k.used then 0 else k.size

abbrev pub others : List Block → List Block
others [] = []
others (k ∷ ks) = if k.used then k ∷ ks else ks

-- the size of a block of `n` bytes with its free neighbours
abbrev pub joined : List Block → ℕ → List Block → ℕ
joined r n s = absorbed r + n + absorbed s

-- One block in the place of some: its tags are written, and the bytes outside it are kept.
pub replaced :
    (b c : Bytes) (lo hi : ℕ) (r s s2 : List Block) (k : Block)
    → Zip b lo r s hi
    → Ahead b (lo + span r + k.size) s2
    → lo + span r + k.size + span s2 ≡ hi
    → Tagged c (lo + span r) k
    → Kept b c 0 (lo + span r - 4)
    → Kept b c (lo + span r + k.size - 4) hi
    → Zip c lo r (k ∷ s2) hi
replaced b c lo hi r s s2 k z a e t below above = record {
  base = z.base;
  small = z.small;
  behind =
      Behind-Kept b c 0 (lo + span r - 4) lo r below (omega (arith, z.base)) (omega (arith, z.base))
        (omega (arith, z.base)) z.behind;
  ahead = (
    t,
    Ahead-Kept b c (lo + span r + k.size - 4) hi (lo + span r + k.size) s2 above
        (omega (arith, z.base)) (omega (arith, z.base)) (omega (arith, e)) a,
  );
  end = omega (arith, e);
  epilogue =
      get-Kept b c (lo + span r + k.size - 4) hi (hi - 4) above (omega (arith, e, z.base))
        (omega (arith, e, z.base))
      ∙ z.epilogue;
}

-- one step back
pub back :
    (b : Bytes) (lo hi : ℕ) (m : Block) (r s : List Block)
    → Zip b lo (m ∷ r) s hi
    → Zip b lo r (m ∷ s) hi
back b lo hi m r s z =
    let e : lo + (m.size + span r) ≡ lo + span r + m.size = omega arith in
    record {
      base = z.base;
      small = z.small;
      behind = z.behind.1;
      ahead = (z.behind.0, subst (λ p. Ahead b p s) e z.ahead);
      end = omega (arith, z.end);
      epilogue = z.epilogue;
    }

pub forth :
    (b : Bytes) (lo hi : ℕ) (m : Block) (r s : List Block)
    → Zip b lo r (m ∷ s) hi
    → Zip b lo (m ∷ r) s hi
forth b lo hi m r s z =
    let e : lo + span r + m.size ≡ lo + (m.size + span r) = omega arith in
    record {
      base = z.base;
      small = z.small;
      behind = (z.ahead.0, z.behind);
      ahead = subst (λ p. Ahead b p s) e z.ahead.1;
      end = omega (arith, z.end);
      epilogue = z.epilogue;
    }
