-- ===== src/Malloc/Blocks/Tags.antt =====
-- What the macros read at a block, and behind a write of its header and footer.
use cmu_15213_csapp3e_lab.Base.{
  ℕ, ◌+◌, ◌-◌, ◌%◌, ◌^◌, ◌≤◌, ◌<◌, ◌≡◌, refl, ◌∙◌, inl, inr, Bool, true, false, arith,
}
use cmu_15213_csapp3e_lab.Malloc.Words.{
  Bytes, get, put, pack, get_size, get_alloc, hdrp, ftrp, next_blkp, prev_blkp,
}
use cmu_15213_csapp3e_lab.Malloc.Words.Laws.{get-put_self, get-put_far}
use cmu_15213_csapp3e_lab.Malloc.Blocks.{Block, bit, Tagged}

pub word-size :
    (b : Bytes) (p n : ℕ) (u : Bool) → n % 8 ≡ 0 → get b p ≡ n + bit u → get_size b p ≡ n
unfolding get_size
word-size b p n u a e = ground arith

pub word-alloc :
    (b : Bytes) (p n : ℕ) (u : Bool) → n % 8 ≡ 0 → get b p ≡ n + bit u → get_alloc b p ≡ bit u
unfolding get_alloc
word-alloc b p n u a e = ground arith

pub pack-bit : (n : ℕ) (u : Bool) → n % 8 ≡ 0 → pack n (bit u) ≡ n + bit u
unfolding pack
pack-bit n true a = omega arith
pack-bit n false a = omega arith

module _ {b : Bytes} {bp : ℕ} {k : Block} (t : Tagged b bp k) where
  pub header-size : get_size b (hdrp bp) ≡ k.size
  header-size = word-size b (bp - 4) k.size k.used t.aligned t.header

  pub header-alloc : get_alloc b (hdrp bp) ≡ bit k.used
  header-alloc = word-alloc b (bp - 4) k.size k.used t.aligned t.header

  pub ftrp_lem : ftrp b bp ≡ bp + k.size - 8
  unfolding ftrp
  ftrp_lem = omega (arith, header-size)

  pub next_blkp_lem : next_blkp b bp ≡ bp + k.size
  unfolding next_blkp
  next_blkp_lem = omega (arith, header-size)

  pub footer-alloc : get_alloc b (ftrp b bp) ≡ bit k.used
  footer-alloc = rw ftrp_lem (word-alloc b (bp + k.size - 8) k.size k.used t.aligned t.footer)

  pub footer-size : get_size b (ftrp b bp) ≡ k.size
  footer-size = rw ftrp_lem (word-size b (bp + k.size - 8) k.size k.used t.aligned t.footer)

  -- The next block finds this one by its footer.
  pub prev_blkp_lem : prev_blkp b (bp + k.size) ≡ bp
  unfolding prev_blkp
  prev_blkp_lem = omega (arith, word-size b (bp + k.size - 8) k.size k.used t.aligned t.footer)

-- A header and a footer, written in either order.
module _ (b : Bytes) (bp : ℕ) (k : Block) (v : ℕ) (base : 4 ≤ bp) (small : k.size < 2 ^ 31)
    (aligned : k.size % 8 ≡ 0) (least : 8 ≤ k.size) (e : v ≡ k.size + bit k.used) where
  fits_word : v < 2 ^ 32
  fits_word = ground arith

  pub header_first : Tagged (put (put b (bp - 4) v) (bp + k.size - 8) v) bp k
  header_first = record {
    aligned = aligned;
    least = least;
    header =
        get-put_far (put b (bp - 4) v) (bp + k.size - 8) v (bp - 4) (inl (omega arith))
        ∙ get-put_self b (bp - 4) v fits_word
        ∙ e;
    footer = get-put_self (put b (bp - 4) v) (bp + k.size - 8) v fits_word ∙ e;
  }

  pub footer_first : Tagged (put (put b (bp + k.size - 8) v) (bp - 4) v) bp k
  footer_first = record {
    aligned = aligned;
    least = least;
    header = get-put_self (put b (bp + k.size - 8) v) (bp - 4) v fits_word ∙ e;
    footer =
        get-put_far (put b (bp + k.size - 8) v) (bp - 4) v (bp + k.size - 8) (inr (omega arith))
        ∙ get-put_self b (bp + k.size - 8) v fits_word
        ∙ e;
  }

  -- The footer is found by the header that has just been written.
  pub ftrp_written : ftrp (put b (bp - 4) v) bp ≡ bp + k.size - 8
  unfolding ftrp
  ftrp_written =
      let g = get-put_self b (bp - 4) v fits_word ∙ e in
      omega (arith, word-size (put b (bp - 4) v) (bp - 4) k.size k.used aligned g)

-- The address of the previous block depends on its footer alone.
pub prev_same :
    (b c : Bytes) (bp : ℕ) → get c (bp - 8) ≡ get b (bp - 8) → prev_blkp c bp ≡ prev_blkp b bp
unfolding prev_blkp get_size
prev_same b c bp e = rw (e) refl
