-- ===== src/Malloc/Implicit/Coalesce.antt =====
-- What `coalesce` does, by the two neighbours.
use cmu_15213_csapp3e_lab.Base.{ℕ, ◌+◌, ◌-◌, ◌≡◌, refl, Bool, true, List, [], ◌∷◌, arith}
use cmu_15213_csapp3e_lab.Malloc.Words.{
  Bytes, pack, get_size, get_alloc, hdrp, ftrp, next_blkp, prev_blkp,
}
use cmu_15213_csapp3e_lab.Malloc.Blocks.{Block, bit, Tagged, span, Kept}
use cmu_15213_csapp3e_lab.Malloc.Blocks.Tags.{word-alloc, header-alloc, next_blkp_lem}
use cmu_15213_csapp3e_lab.Malloc.Blocks.Zip.{Zip, free}
use cmu_15213_csapp3e_lab.Malloc.Blocks.Rover.{Starts, settled}
use cmu_15213_csapp3e_lab.Malloc.Implicit.{Heap, coalesce, settle_rover, write, write_tags}

-- `out` is the heap `h` in which the blocks between `r` and `s` are one free block of `n` bytes, and the
-- address of that block. No byte outside it is written.
pub record Joined (h : Heap) (out : ℕ × Heap) (lo : ℕ) (r : List Block) (n : ℕ) (s : List Block)
    (hi : ℕ) : Type 0 where
  pub place : out.0 ≡ lo + span r
  pub zip : Zip out.1.bytes lo r (free n ∷ s) hi
  pub below : Kept h.bytes out.1.bytes 0 (lo + span r - 4)
  pub above : (top : ℕ) → Kept h.bytes out.1.bytes (lo + span r + n - 4) top
  pub mem : out.1.mem ≡ h.mem
  pub heap_listp : out.1.heap_listp ≡ h.heap_listp
  pub rover : Starts lo r (free n ∷ s) out.1.rover

-- The block in front of the epilogue has a used block behind it.
abbrev pub closed : List Block → Bool
closed [] = true
closed (k ∷ ks) = k.used

pub next_alloc :
    (b : Bytes) (lo hi : ℕ) (r s : List Block) (k : Block)
    → Zip b lo r (k ∷ s) hi
    → get_alloc b (hdrp (next_blkp b (lo + span r))) ≡ bit (closed s)
next_alloc b lo hi r [] k z =
    let e : lo + span r + k.size - 4 ≡ hi - 4 = omega (arith, z.end) in
    rw (next_blkp_lem z.ahead.0, e) (word-alloc b (hi - 4) 0 true refl z.epilogue)
next_alloc b lo hi r (t ∷ s) k z = rw (next_blkp_lem z.ahead.0) (header-alloc z.ahead.1.0)

pub settle_lem :
    (h : Heap) (bp : ℕ) (k : Block)
    → Tagged h.bytes bp k
    → settle_rover h bp ≡ (bp, record h { rover = settled h.rover bp k.size })
settle_lem h bp k t = rw (next_blkp_lem t) (ground arith)

-- The four cases, by what is read.
module _ (h : Heap) (bp pv n : ℕ) (prev : prev_blkp h.bytes bp ≡ pv)
    (size : get_size h.bytes (hdrp bp) ≡ n) where
  pub coalesce_alone :
      get_alloc h.bytes (ftrp h.bytes pv) ≡ 1
      → get_alloc h.bytes (hdrp (next_blkp h.bytes bp)) ≡ 1
      → coalesce h bp ≡ (bp, h)
  unfolding coalesce
  coalesce_alone f x = rw (prev, f, x) refl

  pub coalesce_next :
      (t : ℕ)
      → get_alloc h.bytes (ftrp h.bytes pv) ≡ 1
      → get_alloc h.bytes (hdrp (next_blkp h.bytes bp)) ≡ 0
      → get_size h.bytes (hdrp (next_blkp h.bytes bp)) ≡ t
      → coalesce h bp ≡ settle_rover (write_tags h bp (pack (n + t) 0)) bp
  unfolding coalesce
  coalesce_next t f x y = rw (prev, f, x, y, size) refl

  pub coalesce_prev :
      (m : ℕ)
      → get_alloc h.bytes (ftrp h.bytes pv) ≡ 0
      → get_alloc h.bytes (hdrp (next_blkp h.bytes bp)) ≡ 1
      → get_size h.bytes (hdrp pv) ≡ m
      → coalesce h bp ≡ (
          let g = write h (ftrp h.bytes bp) (pack (n + m) 0) in
          let k = write g (hdrp (prev_blkp g.bytes bp)) (pack (n + m) 0) in
          settle_rover k (prev_blkp k.bytes bp))
  unfolding coalesce
  coalesce_prev m f x y = rw (prev, f, x, y, size) refl

  pub coalesce_both :
      (m t : ℕ)
      → get_alloc h.bytes (ftrp h.bytes pv) ≡ 0
      → get_alloc h.bytes (hdrp (next_blkp h.bytes bp)) ≡ 0
      → get_size h.bytes (hdrp pv) ≡ m
      → get_size h.bytes (ftrp h.bytes (next_blkp h.bytes bp)) ≡ t
      → coalesce h bp ≡ (
          let g = write h (hdrp pv) (pack (n + (t + m)) 0) in
          let k = write g (ftrp g.bytes (next_blkp g.bytes bp)) (pack (n + (t + m)) 0) in
          settle_rover k (prev_blkp k.bytes bp))
  unfolding coalesce
  coalesce_both m t f x y w = rw (prev, f, x, y, w, size) refl
