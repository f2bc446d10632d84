-- ===== src/Malloc/Implicit/Extend.antt =====
-- `extend_heap`: a free block at the end, coalesced with a free block in front of it.
use mathlib.Core.Path.{subst}
use cmu_15213_csapp3e_lab.Base.{
  ℕ, ◌+◌, ◌-◌, ◌*◌, ◌%◌, ◌^◌, ◌≤◌, ◌<◌, ◌≡◌, refl, ◌∙◌, sym, ap, inl, inr, true, List, [], ◌∷◌,
  arith,
}
use cmu_15213_csapp3e_lab.Base.Int.{pos}
use cmu_15213_csapp3e_lab.Malloc.Mem.Regions.{sbrk_room, sbrk_full}
use cmu_15213_csapp3e_lab.Malloc.Words.{Bytes, get, put, pack}
use cmu_15213_csapp3e_lab.Malloc.Words.Laws.{get-put_self}
use cmu_15213_csapp3e_lab.Malloc.Blocks.{Block, Ahead, span, Kept}
use cmu_15213_csapp3e_lab.Malloc.Blocks.Tags.{pack-bit, next_blkp_lem}
use cmu_15213_csapp3e_lab.Malloc.Blocks.Frame.{
  put-Kept, Kept-trans, Kept-within, Ahead-Kept, Behind-Kept,
}
use cmu_15213_csapp3e_lab.Malloc.Blocks.Zip.{Zip, free, others, joined, forth}
use cmu_15213_csapp3e_lab.Malloc.Blocks.Rover.{Starts, Starts-forth}
use cmu_15213_csapp3e_lab.Malloc.Implicit.{
  Heap, as_int, even_size, write_tags, coalesce, extend_heap,
}
use cmu_15213_csapp3e_lab.Malloc.Implicit.Coalesce.{Joined}
use cmu_15213_csapp3e_lab.Malloc.Implicit.Merge.{coalesce_lem}
use cmu_15213_csapp3e_lab.Malloc.Implicit.Free.{Retagged, span-others, write_tags_lem}
use cmu_15213_csapp3e_lab.Malloc.Implicit.IsHeap.{IsHeap, Based, Based-others, onto}

pub as_int_lem : (n : ℕ) → n < 2 ^ 31 → as_int n ≡ pos n
unfolding as_int
as_int_lem n h = ground arith

even_size_lem : (words n : ℕ) → words % 2 ≡ 0 → words * 4 ≡ n → n < 2 ^ 31 → even_size words ≡ n
unfolding even_size
even_size_lem words n even e small = ground arith

-- The heap is seen from its end, behind the block `last`.
pub record Ended (h : Heap) (ks : List Block) : Type 0 where
  pub last : Block
  pub front : List Block
  pub same : onto (last ∷ front) [] ≡ ks
  pub zip : Zip h.bytes h.heap_listp (last ∷ front) [] h.mem.mem_brk
  pub rover : Starts h.heap_listp (last ∷ front) [] h.rover

pub ended :
    (h : Heap) (r s : List Block)
    → Zip h.bytes h.heap_listp r s h.mem.mem_brk
    → Starts h.heap_listp r s h.rover
    → Based (onto r s)
    → Ended h (onto r s)
ended h [] [] z st b = absurd b
ended h (k ∷ r) [] z st b = record { last = k; front = r; same = refl; zip = z; rover = st }
ended h r (k ∷ s) z st b =
    ended h (k ∷ r) s (forth h.bytes h.heap_listp h.mem.mem_brk k r s z)
      (Starts-forth h.heap_listp h.rover k r s st) b

-- the heap with `n` more bytes
pub record Extended (h : Heap) (out : ℕ × Heap) (r : List Block) (n : ℕ) : Type 0 where
  pub place : out.0 ≡ h.heap_listp + span (others r)
  pub heap : IsHeap out.1 (others r) (free (joined r n []) ∷ [])
  pub below : Kept h.bytes out.1.bytes 0 (h.heap_listp + span (others r) - 4)
  pub heap_listp : out.1.heap_listp ≡ h.heap_listp

module _ (h : Heap) (r s : List Block) (v : IsHeap h r s) (n : ℕ) (aligned : n % 8 ≡ 0)
    (least : 8 ≤ n) (room : h.mem.mem_brk + n ≤ h.mem.mem_max_addr) (w : Ended h (onto r s)) where
  -- the new memory, behind the two tags and the new epilogue
  new-Zip :
      (c d : Bytes)
      → Retagged h.bytes c h.mem.mem_brk (free n)
      → d ≡ put c (h.mem.mem_brk + n - 4) (pack 0 1)
      → Kept h.bytes d 0 (h.mem.mem_brk - 4)
        × Zip d h.heap_listp (w.last ∷ w.front) (free n ∷ []) (h.mem.mem_brk + n)
  new-Zip c d t q =
      let z = w.zip in
      let hi = h.mem.mem_brk in
      let lo = h.heap_listp in
      let v1 = pack 0 1 in
      let kept = put-Kept c (hi + n - 4) v1 0 (hi + n - 4) (inl (omega arith)) in
      let kd : Kept c d 0 (hi + n - 4) = subst (λ x. Kept c x 0 (hi + n - 4)) (sym q) kept in
      let below =
        Kept-trans h.bytes c d 0 (hi - 4) t.below
          (Kept-within c d 0 (hi + n - 4) 0 (hi - 4) kd (omega arith) (omega arith)) in
      let at : hi ≡ lo + span (w.last ∷ w.front) = omega (arith, z.end) in
      let new =
        Ahead-Kept c d 0 (hi + n - 4) hi (free n ∷ []) kd (omega (arith, z.base, z.end))
          (omega (arith, z.base, z.end)) (omega (arith, z.base, z.end)) (t.tagged, tt) in
      let e : v1 ≡ 1 = pack-bit 0 true refl in
      (
        below,
        record {
          base = z.base;
          small = omega (arith, v.limit, v.origin);
          behind =
              Behind-Kept h.bytes d 0 (hi - 4) lo (w.last ∷ w.front) below (omega (arith, z.base))
                (omega (arith, z.base)) (omega (arith, z.base, z.end)) z.behind;
          ahead = subst (λ x. Ahead d x (free n ∷ [])) at new;
          end = omega (arith, z.end);
          epilogue =
              ap (λ (x : Bytes). get x (hi + n - 4)) q
              ∙ get-put_self c (hi + n - 4) v1 (omega (arith, e))
              ∙ e;
        },
      )

  extended :
      (d : Bytes) (out : ℕ × Heap)
      → Kept h.bytes d 0 (h.mem.mem_brk - 4)
      → Joined
          (record h { mem = record h.mem { mem_brk = h.mem.mem_brk + n }; bytes = d })
          out
          h.heap_listp
          (others (w.last ∷ w.front))
          (joined (w.last ∷ w.front) n [])
          []
          (h.mem.mem_brk + n)
      → Extended h out (w.last ∷ w.front) n
  extended d out k j =
      let b = subst Based (sym w.same) v.based in
      record {
        place = j.place;
        heap = record {
          zip = rw (j.mem, j.heap_listp) j.zip;
          based = Based-others w.last w.front [] (free (joined (w.last ∷ w.front) n []) ∷ []) b;
          rover = rw (j.heap_listp) j.rover;
          origin = rw (j.mem, j.heap_listp) v.origin;
          bounded = rw (j.mem) room;
          limit = rw (j.mem) v.limit;
        };
        below =
            Kept-trans h.bytes d out.1.bytes 0 (h.heap_listp + span (others (w.last ∷ w.front)) - 4)
              (Kept-within h.bytes d 0 (h.mem.mem_brk - 4) 0
                (h.heap_listp + span (others (w.last ∷ w.front)) - 4) k (omega arith)
                (omega (arith, w.zip.end, span-others (w.last ∷ w.front))))
              j.below;
        heap_listp = j.heap_listp;
      }

  pub extend_room :
      (words : ℕ)
      → words % 2 ≡ 0
      → words * 4 ≡ n
      → Extended h (extend_heap h words) (w.last ∷ w.front) n
  unfolding extend_heap
  extend_room words even e =
      let small : n < 2 ^ 31 = omega (arith, v.limit, v.origin, room) in
      let sz = even_size_lem words n even e small in
      let hi = h.mem.mem_brk in
      let g0 = record h { mem = record h.mem { mem_brk = hi + n } } in
      let t =
        write_tags_lem g0 hi (free n) (omega (arith, w.zip.base, w.zip.end)) small aligned least in
      let g = write_tags g0 hi (pack n 0) in
      let k = record g { bytes = put g.bytes (hi + n - 4) (pack 0 1) } in
      let (below, z) = new-Zip g.bytes k.bytes t refl in
      let at : hi ≡ h.heap_listp + span (w.last ∷ w.front) = omega (arith, w.zip.end) in
      let st : Starts h.heap_listp (w.last ∷ w.front) (free n ∷ []) h.rover = elim w.rover [
        | inl x ↦ inl x
        | inr x ↦ inr (inl x)
      ] in
      let j = coalesce_lem k h.heap_listp (hi + n) n w.last w.front [] z st in
      rw (sz, as_int_lem n small, sbrk_room h.mem n room, next_blkp_lem t.tagged)
        (extended k.bytes (coalesce k hi) below (
          subst
            (λ x.
              Joined k (coalesce k x) h.heap_listp (others (w.last ∷ w.front))
                (joined (w.last ∷ w.front) n []) [] (hi + n))
            (sym at) j))

pub extend_full :
    (h : Heap) (words n : ℕ)
    → words % 2 ≡ 0
    → words * 4 ≡ n
    → n < 2 ^ 31
    → h.mem.mem_max_addr < h.mem.mem_brk + n
    → extend_heap h words ≡ (0, h)
unfolding extend_heap
extend_full h words n even e small full =
    let sz = even_size_lem words n even e small in
    rw (sz, as_int_lem n small, sbrk_full h.mem n full) refl
