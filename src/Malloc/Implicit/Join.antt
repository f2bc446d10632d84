-- ===== src/Malloc/Implicit/Join.antt =====
-- `coalesce` in each of its four cases.
use mathlib.Core.Path.{subst}
use cmu_15213_csapp3e_lab.Base.{
  ℕ, ◌+◌, ◌-◌, ◌%◌, ◌^◌, ◌≤◌, ◌<◌, ◌≡◌, refl, ◌∙◌, ap, ◌⊎◌, inl, inr, true, false, List, [], ◌∷◌,
  arith,
}
use cmu_15213_csapp3e_lab.Malloc.Words.{
  Bytes, get, put, pack, get_size, hdrp, ftrp, next_blkp, prev_blkp,
}
use cmu_15213_csapp3e_lab.Malloc.Words.Laws.{get-put_far}
use cmu_15213_csapp3e_lab.Malloc.Blocks.{Block, bit, span, Ahead}
use cmu_15213_csapp3e_lab.Malloc.Blocks.Tags.{
  pack-bit, header-size, ftrp_lem, next_blkp_lem, footer-alloc, footer-size, prev_blkp_lem,
  header_first, footer_first, ftrp_written, prev_same,
}
use cmu_15213_csapp3e_lab.Malloc.Blocks.Frame.{Ahead-Kept, put-Kept}
use cmu_15213_csapp3e_lab.Malloc.Blocks.Zip.{Zip, free, back}
use cmu_15213_csapp3e_lab.Malloc.Blocks.Rover.{Starts}
use cmu_15213_csapp3e_lab.Malloc.Implicit.{Heap, coalesce}
use cmu_15213_csapp3e_lab.Malloc.Implicit.Finish.{finish, two_below, two_above}
use cmu_15213_csapp3e_lab.Malloc.Implicit.Coalesce.{
  Joined, closed, next_alloc, coalesce_alone, coalesce_next, coalesce_prev, coalesce_both,
}

footer_far :
    (b : Bytes) (bp p v : ℕ)
    → 8 ≤ bp
    → (bp ≤ p + 4) ⊎ (p + 12 ≤ bp)
    → get (put b p v) (bp - 8) ≡ get b (bp - 8)
footer_far b bp p v h (inl e) = get-put_far b p v (bp - 8) (inl (omega arith))
footer_far b bp p v h (inr e) = get-put_far b p v (bp - 8) (inr (omega arith))

module _ (h : Heap) (lo hi n : ℕ) (m : Block) (r s : List Block)
    (z : Zip h.bytes lo (m ∷ r) (free n ∷ s) hi) where
  prev : prev_blkp h.bytes (lo + span (m ∷ r)) ≡ lo + span r
  prev = ap (prev_blkp h.bytes) (omega arith) ∙ prev_blkp_lem z.behind.0

  size : get_size h.bytes (hdrp (lo + span (m ∷ r))) ≡ n
  size = header-size z.ahead.0

  pub join_alone :
      Starts lo (m ∷ r) (free n ∷ s) h.rover
      → m.used ≡ true
      → closed s ≡ true
      → Joined h (coalesce h (lo + span (m ∷ r))) lo (m ∷ r) n s hi
  join_alone st u w =
      let f = footer-alloc z.behind.0 ∙ ap bit u in
      let x = next_alloc h.bytes lo hi (m ∷ r) s (free n) z ∙ ap bit w in
      rw (coalesce_alone h (lo + span (m ∷ r)) (lo + span r) n prev size f x) (record {
        place = refl;
        zip = z;
        below = λ q l g. refl;
        above = λ top q l g. refl;
        mem = refl;
        heap_listp = refl;
        rover = st;
      })

  -- The way back goes by the footer of `m`, which other words leave as it is.
  prev_one :
      (p v : ℕ)
      → (lo + span (m ∷ r) ≤ p + 4) ⊎ (p + 12 ≤ lo + span (m ∷ r))
      → prev_blkp (put h.bytes p v) (lo + span (m ∷ r)) ≡ lo + span r
  prev_one p v e =
      prev_same h.bytes (put h.bytes p v) (lo + span (m ∷ r))
        (footer_far h.bytes (lo + span (m ∷ r)) p v (omega (arith, z.base)) e)
      ∙ prev

  prev_two :
      (p q v w : ℕ)
      → (lo + span (m ∷ r) ≤ p + 4) ⊎ (p + 12 ≤ lo + span (m ∷ r))
      → (lo + span (m ∷ r) ≤ q + 4) ⊎ (q + 12 ≤ lo + span (m ∷ r))
      → prev_blkp (put (put h.bytes p v) q w) (lo + span (m ∷ r)) ≡ lo + span r
  prev_two p q v w e f =
      prev_same (put h.bytes p v) (put (put h.bytes p v) q w) (lo + span (m ∷ r))
        (footer_far (put h.bytes p v) (lo + span (m ∷ r)) q w (omega (arith, z.base)) f)
      ∙ prev_one p v e

  pub join_prev :
      Starts lo r (m ∷ free n ∷ s) h.rover
      → m.used ≡ false
      → closed s ≡ true
      → Joined h (coalesce h (lo + span (m ∷ r))) lo r (n + m.size) s hi
  join_prev st u w =
      let bp = lo + span (m ∷ r) in
      let pv = lo + span r in
      let v = pack (n + m.size) 0 in
      let tn = z.ahead.0 in
      let tm = z.behind.0 in
      let al : (n + m.size) % 8 ≡ 0 = omega (arith, tn.aligned, tm.aligned) in
      let ls : 8 ≤ n + m.size = omega (arith, tn.least) in
      let sm : n + m.size < 2 ^ 31 = omega (arith, z.small, z.end) in
      let bs : 4 ≤ pv = omega (arith, z.base) in
      let e : v ≡ n + m.size + 0 = pack-bit (n + m.size) false al in
      let f = footer-alloc tm ∙ ap bit u in
      let x = next_alloc h.bytes lo hi (m ∷ r) s (free n) z ∙ ap bit w in
      let k = free (n + m.size) in
      let at : bp + n - 8 ≡ pv + (n + m.size) - 8 = omega arith in
      let there : bp + n ≡ pv + (n + m.size) = omega arith in
      rw
        (
          coalesce_prev h bp pv n prev size m.size f x (header-size tm),
          ftrp_lem tn,
          prev_one (bp + n - 8) v (inl (omega (arith, tn.least))),
          prev_two (bp + n - 8) (pv - 4) v v (inl (omega (arith, tn.least)))
              (inr (omega (arith, tm.least, z.base))),
          at,
        )
        (finish h (put (put h.bytes (pv + (n + m.size) - 8) v) (pv - 4) v) lo hi (n + m.size) r
          (m ∷ free n ∷ []) s (back h.bytes lo hi m r (free n ∷ s) z)
          (subst (λ p. Ahead h.bytes p s) there z.ahead.1) (omega (arith, z.end)) (omega arith)
          (footer_first h.bytes pv k v bs sm al ls e)
          (two_below h.bytes (pv + (n + m.size) - 8) (pv - 4) v v (pv - 4) (omega (arith, tn.least))
            (omega arith))
          (λ top.
            two_above h.bytes (pv + (n + m.size) - 8) (pv - 4) v v (pv + (n + m.size) - 4) top
              (omega (arith, tn.least)) (omega (arith, tn.least)))
          st)

module _ (h : Heap) (lo hi n : ℕ) (m t : Block) (r s : List Block)
    (z : Zip h.bytes lo (m ∷ r) (free n ∷ t ∷ s) hi) where
  pub join_next :
      Starts lo (m ∷ r) (free n ∷ t ∷ s) h.rover
      → m.used ≡ true
      → t.used ≡ false
      → Joined h (coalesce h (lo + span (m ∷ r))) lo (m ∷ r) (n + t.size) s hi
  join_next st u w =
      let bp = lo + span (m ∷ r) in
      let v = pack (n + t.size) 0 in
      let tn = z.ahead.0 in
      let th = z.ahead.1.0 in
      let al : (n + t.size) % 8 ≡ 0 = omega (arith, tn.aligned, th.aligned) in
      let ls : 8 ≤ n + t.size = omega (arith, tn.least) in
      let sm : n + t.size < 2 ^ 31 = omega (arith, z.small, z.end) in
      let bs : 4 ≤ bp = omega (arith, z.base) in
      let e : v ≡ n + t.size + 0 = pack-bit (n + t.size) false al in
      let f = footer-alloc z.behind.0 ∙ ap bit u in
      let x = next_alloc h.bytes lo hi (m ∷ r) (t ∷ s) (free n) z ∙ ap bit w in
      let y : get_size h.bytes (hdrp (next_blkp h.bytes bp)) ≡ t.size =
        rw (next_blkp_lem tn) (header-size th) in
      let k = free (n + t.size) in
      let there : lo + span (m ∷ r) + n + t.size ≡ lo + span (m ∷ r) + (n + t.size) = omega arith in
      rw
        (
          coalesce_next h bp (lo + span r) n (prev h lo hi n m r (t ∷ s) z)
              (size h lo hi n m r (t ∷ s) z) t.size f x y,
          ftrp_written h.bytes bp k v bs sm al ls e,
        )
        (finish h (put (put h.bytes (bp - 4) v) (bp + (n + t.size) - 8) v) lo hi (n + t.size)
          (m ∷ r) (free n ∷ t ∷ []) s z (subst (λ p. Ahead h.bytes p s) there z.ahead.1.1)
          (omega (arith, z.end)) (omega arith) (header_first h.bytes bp k v bs sm al ls e)
          (two_below h.bytes (bp - 4) (bp + (n + t.size) - 8) v v (bp - 4) (omega arith)
            (omega (arith, tn.least)))
          (λ top.
            two_above h.bytes (bp - 4) (bp + (n + t.size) - 8) v v (bp + (n + t.size) - 4) top
              (omega (arith, tn.least)) (omega (arith, tn.least)))
          st)

  -- Behind the write of the first header the other blocks are as before.
  ftrp_next :
      (v : ℕ)
      → ftrp
          (put h.bytes (lo + span r - 4) v)
          (next_blkp (put h.bytes (lo + span r - 4) v) (lo + span (m ∷ r)))
        ≡ lo + span (m ∷ r) + n + t.size - 8
  ftrp_next v =
      let bp = lo + span (m ∷ r) in
      let c = put h.bytes (lo + span r - 4) v in
      let kept =
        put-Kept h.bytes (lo + span r - 4) v (bp - 4) hi
          (inr (omega (arith, z.base, z.behind.0.least))) in
      let a =
        Ahead-Kept h.bytes c (bp - 4) hi bp (free n ∷ t ∷ []) kept (omega (arith, z.base))
          (omega (arith, z.base)) (omega (arith, z.end)) (z.ahead.0, (z.ahead.1.0, tt)) in
      rw (next_blkp_lem a.0, ftrp_lem a.1.0) refl

  pub join_both :
      Starts lo r (m ∷ free n ∷ t ∷ s) h.rover
      → m.used ≡ false
      → t.used ≡ false
      → Joined h (coalesce h (lo + span (m ∷ r))) lo r (n + (t.size + m.size)) s hi
  join_both st u w =
      let bp = lo + span (m ∷ r) in
      let pv = lo + span r in
      let n3 = n + (t.size + m.size) in
      let v = pack n3 0 in
      let tn = z.ahead.0 in
      let th = z.ahead.1.0 in
      let tm = z.behind.0 in
      let al : n3 % 8 ≡ 0 = omega (arith, tn.aligned, tm.aligned, th.aligned) in
      let ls : 8 ≤ n3 = omega (arith, tn.least) in
      let sm : n3 < 2 ^ 31 = omega (arith, z.small, z.end) in
      let bs : 4 ≤ pv = omega (arith, z.base) in
      let e : v ≡ n3 + 0 = pack-bit n3 false al in
      let f = footer-alloc tm ∙ ap bit u in
      let x = next_alloc h.bytes lo hi (m ∷ r) (t ∷ s) (free n) z ∙ ap bit w in
      let y : get_size h.bytes (ftrp h.bytes (next_blkp h.bytes bp)) ≡ t.size =
        rw (next_blkp_lem tn) (footer-size th) in
      let k = free n3 in
      let at : bp + n + t.size - 8 ≡ pv + n3 - 8 = omega arith in
      let there : bp + n + t.size ≡ pv + n3 = omega arith in
      rw
        (
          coalesce_both h bp pv n (prev h lo hi n m r (t ∷ s) z) (size h lo hi n m r (t ∷ s) z)
              m.size t.size f x (header-size tm) y,
          ftrp_next v,
          at,
          prev_two h lo hi n m r (t ∷ s) z (pv - 4) (pv + n3 - 8) v v
              (inr (omega (arith, tm.least, z.base))) (inl (omega (arith, tn.least, th.least))),
        )
        (finish h (put (put h.bytes (pv - 4) v) (pv + n3 - 8) v) lo hi n3 r (m ∷ free n ∷ t ∷ []) s
          (back h.bytes lo hi m r (free n ∷ t ∷ s) z)
          (subst (λ p. Ahead h.bytes p s) there z.ahead.1.1) (omega (arith, z.end)) (omega arith)
          (header_first h.bytes pv k v bs sm al ls e)
          (two_below h.bytes (pv - 4) (pv + n3 - 8) v v (pv - 4) (omega arith)
            (omega (arith, tn.least)))
          (λ top.
            two_above h.bytes (pv - 4) (pv + n3 - 8) v v (pv + n3 - 4) top (omega (arith, tn.least))
              (omega (arith, tn.least)))
          st)
