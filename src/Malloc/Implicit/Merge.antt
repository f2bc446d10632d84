-- ===== src/Malloc/Implicit/Merge.antt =====
-- `coalesce`, whatever the neighbours are.
use mathlib.Core.Path.{subst}
use cmu_15213_csapp3e_lab.Base.{
  ℕ, ◌+◌, ◌≡◌, refl, sym, ◌⊎◌, inl, inr, true, false, Bool-cases, List, [], ◌∷◌, arith,
}
use cmu_15213_csapp3e_lab.Malloc.Blocks.{Block, span}
use cmu_15213_csapp3e_lab.Malloc.Blocks.Zip.{Zip, free, absorbed, others, joined}
use cmu_15213_csapp3e_lab.Malloc.Blocks.Rover.{Starts, Starts-back}
use cmu_15213_csapp3e_lab.Malloc.Implicit.{Heap, coalesce}
use cmu_15213_csapp3e_lab.Malloc.Implicit.Coalesce.{Joined, closed}
use cmu_15213_csapp3e_lab.Malloc.Implicit.Join.{join_alone, join_prev, join_next, join_both}

-- A neighbour is in use, or free and absorbed.
record Stays (x : List Block) : Type 0 where
  shut : closed x ≡ true
  rest : others x ≡ x
  none_absorbed : absorbed x ≡ 0

record Goes (x : List Block) : Type 0 where
  first : Block
  tail : List Block
  shape : x ≡ first ∷ tail
  is_free : first.used ≡ false
  rest : others x ≡ tail
  size_absorbed : absorbed x ≡ first.size

neighbour : (x : List Block) → Stays x ⊎ Goes x
neighbour [] = inl (record { shut = refl; rest = refl; none_absorbed = refl })
neighbour (k ∷ ks) = elim (Bool-cases k.used) [
  | inl u ↦ inl (record { shut = u; rest = ground arith; none_absorbed = ground arith })
  | inr u ↦ inr (record {
    first = k;
    tail = ks;
    shape = refl;
    is_free = u;
    rest = ground arith;
    size_absorbed = ground arith;
  })
]

Joined-cast :
    {h : Heap} {out : ℕ × Heap} {lo hi n n2 : ℕ} {r r2 s s2 : List Block}
    → r ≡ r2
    → n ≡ n2
    → s ≡ s2
    → Joined h out lo r n s hi
    → Joined h out lo r2 n2 s2 hi
Joined-cast {h} {out} {lo} {hi} {n} {n2} {r} {r2} {s} {s2} e f g j =
    subst (λ x. Joined h out lo r2 n2 x hi) g
      (subst (λ x. Joined h out lo r2 x s hi) f (subst (λ x. Joined h out lo x n s hi) e j))

-- `coalesce` of a free block: it and its free neighbours are one free block afterwards, all other blocks
-- are as before, no byte outside that block is written, and the rover stands at a block.
pub coalesce_lem :
    (h : Heap) (lo hi n : ℕ) (m : Block) (r s : List Block)
    → Zip h.bytes lo (m ∷ r) (free n ∷ s) hi
    → Starts lo (m ∷ r) (free n ∷ s) h.rover
    → Joined h
        (coalesce h (lo + span (m ∷ r)))
        lo
        (others (m ∷ r))
        (joined (m ∷ r) n s)
        (others s)
        hi
coalesce_lem h lo hi n m r s z st = elim (neighbour s) [
  | inl a ↦ elim (Bool-cases m.used) [
    | inl u ↦
        Joined-cast (ground arith) (ground (arith, a.none_absorbed)) (sym a.rest)
          (join_alone h lo hi n m r s z st u a.shut)
    | inr u ↦
        Joined-cast (ground arith) (ground (arith, a.none_absorbed)) (sym a.rest)
          (join_prev h lo hi n m r s z (Starts-back lo h.rover m r (free n ∷ s) st) u a.shut)
  ]
  | inr a ↦
      let z2 = subst (λ x. Zip h.bytes lo (m ∷ r) (free n ∷ x) hi) a.shape z in
      let st2 = subst (λ x. Starts lo (m ∷ r) (free n ∷ x) h.rover) a.shape st in
      elim (Bool-cases m.used) [
        | inl u ↦
            Joined-cast (ground arith) (ground (arith, a.size_absorbed)) (sym a.rest)
              (join_next h lo hi n m a.first r a.tail z2 st2 u a.is_free)
        | inr u ↦ Joined-cast (ground arith) (ground (arith, a.size_absorbed)) (sym a.rest) (
            join_both h lo hi n m a.first r a.tail z2
              (Starts-back lo h.rover m r (free n ∷ a.first ∷ a.tail) st2) u a.is_free)
      ]
]
