-- ===== src/Malloc/Implicit/IsHeap.antt =====
-- The invariant of the allocator: the heap from the prologue to the epilogue is a list of blocks.
use mathlib.Core.Path.{subst}
use cmu_15213_csapp3e_lab.Base.{ℕ, ◌+◌, ◌≤◌, ◌≡◌, refl, inl, inr, true, by_if, List, [], ◌∷◌, arith}
use cmu_15213_csapp3e_lab.Malloc.Words.{Bytes}
use cmu_15213_csapp3e_lab.Malloc.Mem.{max_heap}
use cmu_15213_csapp3e_lab.Malloc.Blocks.{Block, span, StartsAhead, StartsBehind}
use cmu_15213_csapp3e_lab.Malloc.Blocks.Zip.{Zip, back, forth, others}
use cmu_15213_csapp3e_lab.Malloc.Blocks.Rover.{Starts, Starts-back, Starts-forth}
use cmu_15213_csapp3e_lab.Malloc.Implicit.{Heap}

-- all the blocks, first to last
abbrev pub onto : List Block → List Block → List Block
onto [] s = s
onto (k ∷ r) s = onto r (k ∷ s)

-- The first is the prologue.
abbrev pub Based : List Block → Type 0
Based [] = ⊥
Based (k ∷ ks) = (k.used ≡ true) × (k.size ≡ 8)

-- The heap consists of the blocks `r`, backwards, and then of the blocks `s`; the rover stands at one.
pub record IsHeap (h : Heap) (r s : List Block) : Type 0 where
  pub zip : Zip h.bytes h.heap_listp r s h.mem.mem_brk
  pub based : Based (onto r s)
  pub rover : Starts h.heap_listp r s h.rover
  pub origin : h.heap_listp ≡ h.mem.mem_start_brk + 8
  pub bounded : h.mem.mem_brk ≤ h.mem.mem_max_addr
  pub limit : h.mem.mem_max_addr ≡ h.mem.mem_start_brk + max_heap

pub Based-onto : (k : Block) (r x y : List Block) → Based (onto (k ∷ r) x) → Based (onto (k ∷ r) y)
Based-onto k [] x y h = h
Based-onto k (j ∷ r) x y h = Based-onto j r (k ∷ x) (k ∷ y) h

-- The prologue is in use, so it is absorbed by no one.
pub Based-others :
    (k : Block) (r x y : List Block) → Based (onto (k ∷ r) x) → Based (onto (others (k ∷ r)) y)
Based-others k [] x y h =
    by_if (λ z. Based (onto z y)) k.used (k ∷ []) [] (λ u. h) (λ u. ground (arith, h.0))
Based-others k (j ∷ r) x y h =
    by_if (λ z. Based (onto z y)) k.used (k ∷ j ∷ r) (j ∷ r) (λ u. Based-onto k (j ∷ r) x y h)
      (λ u. Based-onto j r (k ∷ x) y h)

-- the heap seen from `p`
pub record View (b : Bytes) (lo hi p : ℕ) (ks : List Block) : Type 0 where
  pub front : List Block
  pub rest : List Block
  pub zip : Zip b lo front rest hi
  pub same : onto front rest ≡ ks
  pub here : p ≡ lo + span front

View-ahead :
    (b : Bytes) (lo hi p : ℕ) (r s : List Block)
    → Zip b lo r s hi
    → StartsAhead (lo + span r) s p
    → View b lo hi p (onto r s)
View-ahead b lo hi p r [] z e = record { front = r; rest = []; zip = z; same = refl; here = e }
View-ahead b lo hi p r (k ∷ s) z (inl e) = record {
  front = r;
  rest = k ∷ s;
  zip = z;
  same = refl;
  here = e;
}
View-ahead b lo hi p r (k ∷ s) z (inr h) =
    let e : lo + span r + k.size ≡ lo + (k.size + span r) = omega arith in
    View-ahead b lo hi p (k ∷ r) s (forth b lo hi k r s z) (subst (λ x. StartsAhead x s p) e h)

View-behind :
    (b : Bytes) (lo hi p : ℕ) (r s : List Block)
    → Zip b lo r s hi
    → StartsBehind lo r p
    → View b lo hi p (onto r s)
View-behind b lo hi p [] s z h = absurd h
View-behind b lo hi p (k ∷ r) s z (inl e) = record {
  front = r;
  rest = k ∷ s;
  zip = back b lo hi k r s z;
  same = refl;
  here = e;
}
View-behind b lo hi p (k ∷ r) s z (inr h) = View-behind b lo hi p r (k ∷ s) (back b lo hi k r s z) h

pub View-at :
    (b : Bytes) (lo hi p : ℕ) (r s : List Block)
    → Zip b lo r s hi
    → Starts lo r s p
    → View b lo hi p (onto r s)
View-at b lo hi p r s z (inl h) = View-behind b lo hi p r s z h
View-at b lo hi p r s z (inr h) = View-ahead b lo hi p r s z h

-- from the prologue
pub view_start :
    (b : Bytes) (lo hi : ℕ) (r s : List Block) → Zip b lo r s hi → Zip b lo [] (onto r s) hi
view_start b lo hi [] s z = z
view_start b lo hi (k ∷ r) s z = view_start b lo hi r (k ∷ s) (back b lo hi k r s z)

-- A place where a block begins is one from every view.
pub Starts-start : (lo p : ℕ) (r s : List Block) → Starts lo r s p → Starts lo [] (onto r s) p
Starts-start lo p [] s h = h
Starts-start lo p (k ∷ r) s h = Starts-start lo p r (k ∷ s) (Starts-back lo p k r s h)

pub Starts-from : (lo p : ℕ) (r s : List Block) → Starts lo [] (onto r s) p → Starts lo r s p
Starts-from lo p [] s h = h
Starts-from lo p (k ∷ r) s h = Starts-forth lo p k r s (Starts-from lo p r (k ∷ s) h)
