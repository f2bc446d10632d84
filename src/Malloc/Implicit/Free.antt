-- ===== src/Malloc/Implicit/Free.antt =====
-- `mm_free` of a block in use.
use mathlib.Core.Path.{subst}
use cmu_15213_csapp3e_lab.Base.{
  ℕ, ◌+◌, ◌-◌, ◌%◌, ◌^◌, ◌≤◌, ◌<◌, ◌≡◌, refl, sym, false, List, [], ◌∷◌, ◌==◌, arith,
}
use cmu_15213_csapp3e_lab.Malloc.Words.{Bytes, pack}
use cmu_15213_csapp3e_lab.Malloc.Blocks.{Ahead, Block, bit, Tagged, span, Kept}
use cmu_15213_csapp3e_lab.Malloc.Blocks.Tags.{pack-bit, header-size, header_first, ftrp_written}
use cmu_15213_csapp3e_lab.Malloc.Blocks.Frame.{Kept-trans, Kept-within}
use cmu_15213_csapp3e_lab.Malloc.Blocks.Zip.{Zip, free, alloc, others, absorbed, joined, replaced}
use cmu_15213_csapp3e_lab.Malloc.Implicit.{Heap, coalesce, write_tags, mm_free}
use cmu_15213_csapp3e_lab.Malloc.Implicit.Coalesce.{Joined}
use cmu_15213_csapp3e_lab.Malloc.Implicit.Finish.{two_below, two_above}
use cmu_15213_csapp3e_lab.Malloc.Implicit.Merge.{coalesce_lem}
use cmu_15213_csapp3e_lab.Malloc.Implicit.IsHeap.{IsHeap, Based-others}

-- `c` has the tags of the block `k` at `bp`, and else the bytes of `b`.
pub record Retagged (b c : Bytes) (bp : ℕ) (k : Block) : Type 0 where
  pub tagged : Tagged c bp k
  pub below : Kept b c 0 (bp - 4)
  pub above : (top : ℕ) → Kept b c (bp + k.size - 4) top

pub write_tags_lem :
    (h : Heap) (bp : ℕ) (k : Block)
    → 4 ≤ bp
    → k.size < 2 ^ 31
    → k.size % 8 ≡ 0
    → 8 ≤ k.size
    → Retagged h.bytes (write_tags h bp (pack k.size (bit k.used))).bytes bp k
write_tags_lem h bp k base small aligned least =
    let v = pack k.size (bit k.used) in
    let e : v ≡ k.size + bit k.used = pack-bit k.size k.used aligned in
    let f = ftrp_written h.bytes bp k v base small aligned least e in
    rw (f) (record {
      tagged = header_first h.bytes bp k v base small aligned least e;
      below = two_below h.bytes (bp - 4) (bp + k.size - 8) v v (bp - 4) (omega arith) (omega arith);
      above = λ top.
          two_above h.bytes (bp - 4) (bp + k.size - 8) v v (bp + k.size - 4) top (omega arith)
            (omega arith);
    })

pub span-others : (x : List Block) → span (others x) + absorbed x ≡ span x
span-others [] = omega arith
span-others (k ∷ ks) = ground arith

pub nonzero : (n : ℕ) → 0 < n → (n == 0) ≡ false
nonzero n h = ground arith

-- what is left by `mm_free` of the block of `n` bytes between `r` and `s`
pub record Freed (h g : Heap) (r : List Block) (n : ℕ) (s : List Block) : Type 0 where
  pub heap : IsHeap g (others r) (free (joined r n s) ∷ others s)
  pub below : Kept h.bytes g.bytes 0 (h.heap_listp + span (others r) - 4)
  pub above :
      (top : ℕ) → Kept h.bytes g.bytes (h.heap_listp + span (others r) + joined r n s - 4) top
  pub mem : g.mem ≡ h.mem
  pub heap_listp : g.heap_listp ≡ h.heap_listp

pub retag :
    (h : Heap) (c : Bytes) (r s : List Block) (k k2 : Block)
    → Zip h.bytes h.heap_listp r (k ∷ s) h.mem.mem_brk
    → k2.size ≡ k.size
    → Retagged h.bytes c (h.heap_listp + span r) k2
    → Zip c h.heap_listp r (k2 ∷ s) h.mem.mem_brk
retag h c r s k k2 z e t =
    let a = subst (λ x. Ahead h.bytes (h.heap_listp + span r + x) s) (sym e) z.ahead.1 in
    replaced h.bytes c h.heap_listp h.mem.mem_brk r (k ∷ s) s k2 z a (omega (arith, z.end)) t.tagged
      t.below (t.above h.mem.mem_brk)

coalesced :
    (h : Heap) (c : Bytes) (out : ℕ × Heap) (n : ℕ) (m : Block) (r s : List Block)
    → IsHeap h (m ∷ r) (alloc n ∷ s)
    → Retagged h.bytes c (h.heap_listp + span (m ∷ r)) (free n)
    → Joined
        (record h { bytes = c })
        out
        h.heap_listp
        (others (m ∷ r))
        (joined (m ∷ r) n s)
        (others s)
        h.mem.mem_brk
    → Freed h out.1 (m ∷ r) n s
coalesced h c out n m r s v t j =
    let lo = h.heap_listp in
    let front = lo + span (others (m ∷ r)) in
    let e = span-others (m ∷ r) in
    record {
      heap = record {
        zip = rw (j.mem, j.heap_listp) j.zip;
        based = Based-others m r (alloc n ∷ s) (free (joined (m ∷ r) n s) ∷ others s) v.based;
        rover = rw (j.heap_listp) j.rover;
        origin = rw (j.mem, j.heap_listp) v.origin;
        bounded = rw (j.mem) v.bounded;
        limit = rw (j.mem) v.limit;
      };
      below =
          Kept-trans h.bytes c out.1.bytes 0 (front - 4)
            (Kept-within h.bytes c 0 (lo + span (m ∷ r) - 4) 0 (front - 4) t.below (omega arith)
              (omega (arith, e)))
            j.below;
      above = λ top.
          Kept-trans h.bytes c out.1.bytes (front + joined (m ∷ r) n s - 4) top
            (Kept-within h.bytes c (lo + span (m ∷ r) + n - 4) top (front + joined (m ∷ r) n s - 4)
              top (t.above top) (omega (arith, e)) (omega arith))
            (j.above top);
      mem = j.mem;
      heap_listp = j.heap_listp;
    }

-- `mm_free` of a block in use, anywhere in a heap that is tiled by blocks: that block and its free
-- neighbours become one free block, every other block stays, no byte outside the new block, its header and
-- its footer is written, and the rover stays at a block.
pub mm_free-Freed :
    (h : Heap) (n : ℕ) (m : Block) (r s : List Block)
    → IsHeap h (m ∷ r) (alloc n ∷ s)
    → Freed h (mm_free h (h.heap_listp + span (m ∷ r))) (m ∷ r) n s
unfolding mm_free
mm_free-Freed h n m r s v =
    let bp = h.heap_listp + span (m ∷ r) in
    let t = v.zip.ahead.0 in
    let w =
      write_tags_lem h bp (free n) (omega (arith, v.zip.base))
        (omega (arith, v.zip.small, v.zip.end)) t.aligned t.least in
    let g = write_tags h bp (pack n 0) in
    let j =
      coalesce_lem g h.heap_listp h.mem.mem_brk n m r s
        (retag h g.bytes (m ∷ r) s (alloc n) (free n) v.zip refl w) v.rover in
    rw
      (
        nonzero bp (omega (arith, v.zip.base)),
        nonzero h.heap_listp (omega (arith, v.zip.base)),
        header-size t,
      )
      (coalesced h g.bytes (coalesce g bp) n m r s v w j)
