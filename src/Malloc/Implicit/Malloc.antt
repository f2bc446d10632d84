-- ===== src/Malloc/Implicit/Malloc.antt =====
-- `mm_malloc`: a new block beside those in use, or nothing.
use mathlib.Core.Path.{subst}
use cmu_15213_csapp3e_lab.Base.{
  ℕ, ◌+◌, ◌-◌, ◌*◌, ◌/◌, ◌%◌, ◌^◌, ◌≤◌, ◌<◌, ◌≡◌, refl, ◌∙◌, sym, ap, ◌⊎◌, inl, inr, false,
  Bool-cases, List, [], ◌∷◌, some, leb, ◌==◌, arith,
}
use cmu_15213_csapp3e_lab.Malloc.Mem.{mem_heapsize, max_heap}
use cmu_15213_csapp3e_lab.Malloc.Words.{Bytes}
use cmu_15213_csapp3e_lab.Malloc.Blocks.{Block, span, Kept}
use cmu_15213_csapp3e_lab.Malloc.Blocks.Zip.{free, others, joined}
use cmu_15213_csapp3e_lab.Malloc.Implicit.{
  Heap, adjusted, max_of, place, place_or_extend, extend_heap, mm_malloc, chunksize,
}
use cmu_15213_csapp3e_lab.Malloc.Blocks.Rover.{Starts}
use cmu_15213_csapp3e_lab.Malloc.Implicit.Free.{nonzero}
use cmu_15213_csapp3e_lab.Malloc.Implicit.Search.{
  Fit, NoFit, NoFit-larger, find_fit-Search, Fit-heap, rover_moved,
}
use cmu_15213_csapp3e_lab.Malloc.Implicit.Place.{Placed, carved}
use cmu_15213_csapp3e_lab.Malloc.Implicit.Extend.{Ended, ended, Extended, extend_room, extend_full}
use cmu_15213_csapp3e_lab.Malloc.Implicit.IsHeap.{IsHeap, onto}
use cmu_15213_csapp3e_lab.Malloc.Implicit.Allocate.{
  Allocated, allocate, place_front, weaken, Adjusted, adjusted-Adjusted,
}
use cmu_15213_csapp3e_lab.Malloc.Implicit.Used.{
  UsedAhead, UsedBehind, onto-UsedAhead, UsedBehind-end, UsedBehind-others,
}

-- nothing is given, and nothing is changed but the rover
pub record Refused (h g : Heap) (r s : List Block) (size p : ℕ) : Type 0 where
  pub null : p ≡ 0
  pub heap : IsHeap g r s
  pub bytes : g.bytes ≡ h.bytes
  pub none_fits : NoFit (size + 16) (onto r s)
  pub full : max_heap < mem_heapsize g.mem + max_of (size + 16) chunksize

abbrev pub Answer : Heap → List Block → List Block → ℕ → ℕ × Heap → Type 0
Answer h r s size (p, g) = Allocated h g (onto r s) (size + 8) p ⊎ Refused h g r s size p

-- The blocks in use are behind the one that `extend_heap` makes.
kept_old :
    (h h1 : Heap) (out : ℕ × Heap) {ks : List Block} (w : Ended h1 ks) (n : ℕ)
    → h1.heap_listp ≡ h.heap_listp
    → h1.bytes ≡ h.bytes
    → Extended h1 out (w.last ∷ w.front) n
    → (a m : ℕ) → UsedAhead h.heap_listp ks a m
    → (UsedBehind h.heap_listp (others (w.last ∷ w.front)) a m
        ⊎ UsedAhead
            (h.heap_listp + span (others (w.last ∷ w.front)) + joined (w.last ∷ w.front) n [])
            []
            a
            m)
      × Kept h.bytes out.1.bytes a (a + m - 8)
kept_old h h1 out w n same e x a m u =
    let lo = h.heap_listp in
    let r = w.last ∷ w.front in
    elim (onto-UsedAhead lo a m r [] (subst (λ ks. UsedAhead lo ks a m) (sym w.same) u)) [
      | inl b ↦
          let o = UsedBehind-others lo a m r b in
          let end = UsedBehind-end lo a m (others r) o in
          (
            inl o,
            λ q l g. x.below q (omega arith) (omega (arith, same)) ∙ ap (λ (y : Bytes). y q) e,
          )
      | inr z ↦ absurd z
    ]

module _ (h : Heap) (r s : List Block) (size asize : ℕ) (v : IsHeap h r s) (a : Adjusted size asize)
    (small : size < 2 ^ 31 - 32) where
  give_found :
      (p : ℕ)
      → Fit h.bytes h.heap_listp h.mem.mem_brk asize (onto r s) p
      → Answer h r s size (place_or_extend asize (p, record h { rover = p }))
  give_found p f =
      let h1 = record h { rover = p } in
      let ne : (p == 0) ≡ false = nonzero p (omega (arith, f.here, v.zip.base)) in
      let q =
        place_front h1 f.front f.rest f.size asize (Fit-heap h p asize r s v f) f.enough a.aligned
          (omega (arith, a.least)) in
      let q2 =
        subst (λ x. Placed h1 (place h1 x asize) f.front f.size (carved f.size asize f.rest))
          (sym f.here) q in
      rw (ne) (
        inl (
          weaken h (place h1 p asize) (onto r s) asize (size + 8) p a.enough (
            allocate h h1 (place h1 p asize) (onto r s) f.front f.rest f.size asize p v.zip.base
              refl f.enough (omega (arith, a.least)) f.here
              (λ x m u. (
                elim (onto-UsedAhead h.heap_listp x m f.front (free f.size ∷ f.rest)
                    (subst (λ ks. UsedAhead h.heap_listp ks x m) (sym f.same) u)) [
                      | inl b ↦ inl b
                      | inr (inl e) ↦ ground (arith, e.2)
                      | inr (inr b) ↦ inr b
                    ],
                λ q l g. refl,
              ))
              q2)))

  -- the words that are asked for
  words : ℕ
  words = max_of asize chunksize / 4

  words_lem :
      (words % 2 ≡ 0)
      × (words * 4 ≡ max_of asize chunksize)
      × (max_of asize chunksize % 8 ≡ 0)
      × (asize ≤ max_of asize chunksize)
      × (max_of asize chunksize < 2 ^ 31)
      × (max_of asize chunksize ≤ max_of (size + 16) chunksize)
  unfolding words
  words_lem = (
    ground (arith, a),
    ground (arith, a),
    ground (arith, a),
    ground (arith, a),
    ground (arith, a),
    ground (arith, a),
  )

  give_new :
      (p : ℕ)
      → Starts h.heap_listp r s p × NoFit asize (onto r s)
      → Answer h r s size (place_or_extend asize (0, record h { rover = p }))
  unfolding words mem_heapsize
  give_new p st =
      let h1 = record h { rover = p } in
      let v1 = rover_moved h p r s v st.0 in
      let w = ended h1 r s v1.zip v1.rover v1.based in
      let n = max_of asize chunksize in
      let (ev, em, al, ge, sm, le2) = words_lem in
      elim (Bool-cases (leb (h.mem.mem_brk + n) h.mem.mem_max_addr)) [
        | inl room ↦
            let x =
              extend_room h1 r s v1 n al (omega (arith, a.least)) (ground arith) w words ev em in
            let out = extend_heap h1 words in
            let front = others (w.last ∷ w.front) in
            let m = joined (w.last ∷ w.front) n [] in
            let ne : (out.0 == 0) ≡ false = nonzero out.0 (omega (arith, x.place, v.zip.base)) in
            let big : asize ≤ m = omega arith in
            let at : out.1.heap_listp + span front ≡ out.0 = omega (arith, x.place, x.heap_listp) in
            let q =
              subst (λ y. Placed out.1 (place out.1 y asize) front m (carved m asize [])) at
                (place_front out.1 front [] m asize x.heap big a.aligned
                  (omega (arith, a.least))) in
            rw (ne) (
              inl (
                weaken h (place out.1 out.0 asize) (onto r s) asize (size + 8) out.0 a.enough (
                  allocate h out.1 (place out.1 out.0 asize) (onto r s) front [] m asize out.0
                    v.zip.base x.heap_listp big (omega (arith, a.least)) x.place
                    (kept_old h h1 out w n refl refl x) q)))
        | inr full ↦ rw (extend_full h1 words n ev em sm (ground arith)) (
            inr (record {
              null = refl;
              heap = v1;
              bytes = refl;
              none_fits = NoFit-larger asize (size + 16) (onto r s) a.close st.1;
              full = ground (arith, v.zip.end, v.origin, v.limit);
            }))
      ]

-- `mm_malloc` of `size` bytes, fewer than 2 GB, always returns. Either it gives a block in use with room
-- for them, and every block that was in use is still there, beside the new one and with the bytes of
-- its payload; or it gives NULL: no free block has
-- 16 bytes more than the request, and the heap cannot grow within its 20 megabytes; then no byte is changed.
pub mm_malloc-Answer :
    (h : Heap) (r s : List Block) (size : ℕ)
    → IsHeap h r s
    → 0 < size
    → size < 2 ^ 31 - 32
    → (out : ℕ × Heap) × (mm_malloc h size ≡ some out) × Answer h r s size out
unfolding mm_malloc
mm_malloc-Answer h r s size v pos small =
    let a = adjusted-Adjusted size pos (omega arith) in
    let e0 : (h.heap_listp == 0) ≡ false = nonzero h.heap_listp (omega (arith, v.zip.base)) in
    let e1 : (size == 0) ≡ false = nonzero size pos in
    let (p, e) = find_fit-Search h (adjusted size) r s v in
    elim e [
      | inl f ↦ (
        place_or_extend (adjusted size) (p, record h { rover = p }),
        rw (e0, e1, f.0) refl,
        give_found h r s size (adjusted size) v a small p f.1,
      )
      | inr f ↦ (
        place_or_extend (adjusted size) (0, record h { rover = p }),
        rw (e0, e1, f.0) refl,
        give_new h r s size (adjusted size) v a small p f.1,
      )
    ]
