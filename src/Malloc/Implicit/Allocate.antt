-- ===== src/Malloc/Implicit/Allocate.antt =====
-- `place` on a free block, for the blocks in use.
use cmu_15213_csapp3e_lab.Base.{
  ℕ, ◌+◌, ◌-◌, ◌%◌, ◌^◌, ◌≤◌, ◌<◌, ◌≡◌, refl, ◌∙◌, ◌⊎◌, inl, inr, Bool-cases, List, [], ◌∷◌, leb,
  arith,
}
use cmu_15213_csapp3e_lab.Malloc.Blocks.{Block, span, Kept}
use cmu_15213_csapp3e_lab.Malloc.Blocks.Frame.{Kept-trans, Kept-within}
use cmu_15213_csapp3e_lab.Malloc.Blocks.Zip.{free}
use cmu_15213_csapp3e_lab.Malloc.Implicit.{Heap, adjusted, place}
use cmu_15213_csapp3e_lab.Malloc.Implicit.Place.{Placed, place_lem, carved}
use cmu_15213_csapp3e_lab.Malloc.Implicit.IsHeap.{IsHeap, onto}
use cmu_15213_csapp3e_lab.Malloc.Implicit.Used.{
  UsedAhead, UsedBehind, UsedAhead-onto, UsedBehind-end, UsedAhead-start, carved_used, carved_first,
}

-- The heap `g` has a block of at least `asize` bytes in use at `p`, and every block in use in `h`, whose
-- blocks are `ks`, is there too, beside it and with its payload.
pub record Allocated (h g : Heap) (ks : List Block) (asize p : ℕ) : Type 0 where
  pub front : List Block
  pub rest : List Block
  pub heap : IsHeap g front rest
  pub size : ℕ
  pub enough : asize ≤ size
  pub own : UsedAhead g.heap_listp (onto front rest) p size
  pub old :
      (a n : ℕ)
      → UsedAhead h.heap_listp ks a n
      → UsedAhead g.heap_listp (onto front rest) a n
        × Kept h.bytes g.bytes a (a + n - 8)
        × ((a + n ≤ p) ⊎ (p + size ≤ a))

-- `place` on a free block that the blocks in use are behind and ahead of
pub allocate :
    (h h1 g : Heap) (ks front rest : List Block) (n asize p : ℕ)
    → 8 ≤ h.heap_listp
    → h1.heap_listp ≡ h.heap_listp
    → asize ≤ n
    → 8 ≤ asize
    → p ≡ h.heap_listp + span front
    → ((a m : ℕ)
        → UsedAhead h.heap_listp ks a m
        → (UsedBehind h.heap_listp front a m ⊎ UsedAhead (h.heap_listp + span front + n) rest a m)
          × Kept h.bytes h1.bytes a (a + m - 8))
    → Placed h1 g front n (carved n asize rest)
    → Allocated h g ks asize p
allocate h h1 g ks front rest n asize p base same l l8 here keep q =
    let lo = h.heap_listp in
    let bp = lo + span front in
    let e : g.heap_listp ≡ lo = q.heap_listp ∙ same in
    let (m, lm, mn, own) = carved_first bp n asize rest l in
    record {
      front = front;
      rest = carved n asize rest;
      heap = q.heap;
      size = m;
      enough = lm;
      own = rw (e, here) (UsedAhead-onto lo bp m front (carved n asize rest) (inr own));
      old = λ a k u.
          let (w, kept) = keep a k u in
          elim w [
            | inl b ↦
                let end = UsedBehind-end lo a k front b in
                (
                  rw (e) (UsedAhead-onto lo a k front (carved n asize rest) (inl b)),
                  Kept-trans h.bytes h1.bytes g.bytes a (a + k - 8) kept (
                      Kept-within h1.bytes g.bytes 0 (h1.heap_listp + span front - 4) a (a + k - 8)
                        q.below (omega arith) (omega (arith, same))),
                  inl (omega (arith, here)),
                )
            | inr b ↦
                let start = UsedAhead-start (bp + n) a k rest b in
                (
                  rw (e) (
                      UsedAhead-onto lo a k front (carved n asize rest)
                        (inr (carved_used bp a k n asize rest l b))),
                  Kept-trans h.bytes h1.bytes g.bytes a (a + k - 8) kept (
                      Kept-within h1.bytes g.bytes (h1.heap_listp + span front + n - 4) (a + k - 8)
                        a (a + k - 8) (q.above (a + k - 8)) (omega (arith, same)) (omega arith)),
                  inr (omega (arith, here)),
                )
          ];
    }

pub place_front :
    (h : Heap) (front rest : List Block) (n asize : ℕ)
    → IsHeap h front (free n ∷ rest)
    → asize ≤ n
    → asize % 8 ≡ 0
    → 8 ≤ asize
    → Placed h (place h (h.heap_listp + span front) asize) front n (carved n asize rest)
place_front h [] rest n asize v l al ls = ground (arith, v.based.0)
place_front h (m ∷ r) rest n asize v l al ls = place_lem h m r rest n asize v l al ls

pub weaken :
    (h g : Heap) (ks : List Block) (n m p : ℕ) → m ≤ n → Allocated h g ks n p → Allocated h g ks m p
weaken h g ks n m p l a = record {
  front = a.front;
  rest = a.rest;
  heap = a.heap;
  size = a.size;
  enough = omega (arith, a.enough);
  own = a.own;
  old = a.old;
}

-- the size of the new block
pub record Adjusted (size asize : ℕ) : Type 0 where
  pub aligned : asize % 8 ≡ 0
  pub least : 16 ≤ asize
  pub enough : size + 8 ≤ asize
  pub close : asize ≤ size + 16

pub adjusted-Adjusted : (size : ℕ) → 0 < size → size < 2 ^ 31 → Adjusted size (adjusted size)
unfolding adjusted
adjusted-Adjusted size pos small = elim (Bool-cases (leb size 8)) [
  | inl e ↦
      rw (e) (record {
        aligned = refl;
        least = omega arith;
        enough = ground arith;
        close = ground arith;
      })
  | inr e ↦
      let q : (size + 8 + 7) % 2 ^ 64 ≡ size + 8 + 7 = omega arith in
      rw (e, q)
        (record {
          aligned = omega arith;
          least = ground arith;
          enough = omega arith;
          close = omega arith;
        })
]
