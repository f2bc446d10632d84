-- ===== src/Malloc/Implicit/Place.antt =====
-- `place`: a block is taken, and split if the rest is a block.
use mathlib.Core.Path.{subst}
use cmu_15213_csapp3e_lab.Base.{
  ℕ, ◌+◌, ◌-◌, ◌%◌, ◌^◌, ◌≤◌, ◌<◌, ◌≡◌, refl, ◌∙◌, inl, inr, Bool-cases, List, [], ◌∷◌, leb,
  if◌then◌else◌, arith,
}
use cmu_15213_csapp3e_lab.Malloc.Words.{Bytes, pack}
use cmu_15213_csapp3e_lab.Malloc.Blocks.{Block, Ahead, span, Kept, StartsAhead}
use cmu_15213_csapp3e_lab.Malloc.Blocks.Tags.{header-size, next_blkp_lem}
use cmu_15213_csapp3e_lab.Malloc.Blocks.Frame.{
  Kept-trans, Kept-within, Ahead-Kept, Behind-Kept, get-Kept,
}
use cmu_15213_csapp3e_lab.Malloc.Blocks.Zip.{free, alloc}
use cmu_15213_csapp3e_lab.Malloc.Blocks.Rover.{Starts}
use cmu_15213_csapp3e_lab.Malloc.Implicit.{Heap, write_tags, place}
use cmu_15213_csapp3e_lab.Malloc.Implicit.Free.{Retagged, write_tags_lem, retag}
use cmu_15213_csapp3e_lab.Malloc.Implicit.IsHeap.{IsHeap, Based-onto}

-- the blocks that `place` makes of one of `n` bytes, and those behind it
abbrev pub carved : ℕ → ℕ → List Block → List Block
carved n asize s = if leb 16 (n - asize) then alloc asize ∷ free (n - asize) ∷ s else alloc n ∷ s

pub record Placed (h g : Heap) (r : List Block) (n : ℕ) (s : List Block) : Type 0 where
  pub heap : IsHeap g r s
  pub below : Kept h.bytes g.bytes 0 (h.heap_listp + span r - 4)
  pub above : (top : ℕ) → Kept h.bytes g.bytes (h.heap_listp + span r + n - 4) top
  pub mem : g.mem ≡ h.mem
  pub heap_listp : g.heap_listp ≡ h.heap_listp

module _ (h : Heap) (m : Block) (r s : List Block) (n asize : ℕ) (v : IsHeap h (m ∷ r) (free n ∷ s))
    (fits : asize ≤ n) where
  place_whole :
      (c : Bytes)
      → Retagged h.bytes c (h.heap_listp + span (m ∷ r)) (alloc n)
      → Placed h (record h { bytes = c }) (m ∷ r) n (alloc n ∷ s)
  place_whole c t = record {
    heap = record {
      zip = retag h c (m ∷ r) s (free n) (alloc n) v.zip refl t;
      based = Based-onto m r (free n ∷ s) (alloc n ∷ s) v.based;
      rover = v.rover;
      origin = v.origin;
      bounded = v.bounded;
      limit = v.limit;
    };
    below = t.below;
    above = t.above;
    mem = refl;
    heap_listp = refl;
  }

  split_rover : Starts h.heap_listp (m ∷ r) (alloc asize ∷ free (n - asize) ∷ s) h.rover
  split_rover = elim v.rover [
    | inl b ↦ inl b
    | inr (inl e) ↦ inr (inl e)
    | inr (inr a) ↦
        let e : h.heap_listp + span (m ∷ r) + n
            ≡ h.heap_listp + span (m ∷ r) + asize + (n - asize) =
          omega arith in
        inr (inr (inr (subst (λ x. StartsAhead x s h.rover) e a)))
  ]

  place_split :
      (c d : Bytes)
      → Retagged h.bytes c (h.heap_listp + span (m ∷ r)) (alloc asize)
      → Retagged c d (h.heap_listp + span (m ∷ r) + asize) (free (n - asize))
      → Placed h (record h { bytes = d }) (m ∷ r) n (alloc asize ∷ free (n - asize) ∷ s)
  place_split c d t u =
      let bp = h.heap_listp + span (m ∷ r) in
      let z = v.zip in
      let hi = h.mem.mem_brk in
      let below : Kept h.bytes d 0 (bp - 4) =
        Kept-trans h.bytes c d 0 (bp - 4) t.below
          (Kept-within c d 0 (bp + asize - 4) 0 (bp - 4) u.below (omega arith) (omega arith)) in
      let above : (top : ℕ) → Kept h.bytes d (bp + n - 4) top = λ top.
        Kept-trans h.bytes c d (bp + n - 4) top
          (Kept-within h.bytes c (bp + asize - 4) top (bp + n - 4) top (t.above top) (omega arith)
            (omega arith))
          (Kept-within c d (bp + asize + (n - asize) - 4) top (bp + n - 4) top (u.above top)
            (omega arith) (omega arith)) in
      let first =
        Ahead-Kept c d 0 (bp + asize - 4) bp (alloc asize ∷ []) u.below (omega (arith, z.base))
          (omega (arith, z.base)) (omega (arith, t.tagged.least)) (t.tagged, tt) in
      let e : bp + n ≡ bp + asize + (n - asize) = omega arith in
      let last =
        subst (λ x. Ahead d x s) e
          (Ahead-Kept h.bytes d (bp + n - 4) hi (bp + n) s (above hi) (omega (arith, z.base))
            (omega (arith, z.base)) (omega (arith, z.end)) z.ahead.1) in
      record {
        heap = record {
          zip = record {
            base = z.base;
            small = z.small;
            behind =
                Behind-Kept h.bytes d 0 (bp - 4) h.heap_listp (m ∷ r) below (omega (arith, z.base))
                  (omega (arith, z.base)) (omega (arith, z.base)) z.behind;
            ahead = (first.0, (u.tagged, last));
            end = omega (arith, z.end);
            epilogue =
                get-Kept h.bytes d (bp + n - 4) hi (hi - 4) (above hi) (omega (arith, z.end))
                  (omega (arith, z.end, z.base))
                ∙ z.epilogue;
          };
          based = Based-onto m r (free n ∷ s) (alloc asize ∷ free (n - asize) ∷ s) v.based;
          rover = split_rover;
          origin = v.origin;
          bounded = v.bounded;
          limit = v.limit;
        };
        below = below;
        above = above;
        mem = refl;
        heap_listp = refl;
      }

  pub place_lem :
      asize % 8 ≡ 0
      → 8 ≤ asize
      → Placed h (place h (h.heap_listp + span (m ∷ r)) asize) (m ∷ r) n (carved n asize s)
  unfolding place
  place_lem al ls =
      let bp = h.heap_listp + span (m ∷ r) in
      let f = v.zip.ahead.0 in
      let small : n < 2 ^ 31 = omega (arith, v.zip.small, v.zip.end) in
      let d : (n + 2 ^ 64 - asize) % 2 ^ 64 ≡ n - asize = omega arith in
      let base : 4 ≤ bp = omega (arith, v.zip.base) in
      let t1 = write_tags_lem h bp (alloc n) base small f.aligned f.least in
      let t2 = write_tags_lem h bp (alloc asize) base (omega arith) al ls in
      let g = write_tags h bp (pack asize 1) in
      elim (Bool-cases (leb 16 (n - asize))) [
        | inl e ↦
            let t3 =
              write_tags_lem g (bp + asize) (free (n - asize)) (omega arith) (omega arith)
                (omega (arith, f.aligned)) (ground arith) in
            rw (header-size f, d, e, next_blkp_lem t2.tagged)
              (place_split g.bytes (write_tags g (bp + asize) (pack (n - asize) 0)).bytes t2 t3)
        | inr e ↦ rw (header-size f, d, e) (place_whole (write_tags h bp (pack n 1)).bytes t1)
      ]
