-- ===== src/Malloc/Implicit/Search.antt =====
-- `find_fit`: it ends, and finds a free block that is large enough or none.
use mathlib.Core.Path.{subst}
use cmu_15213_csapp3e_lab.Base.{
  ℕ, zero, suc, ◌+◌, ◌-◌, ◌≤◌, ◌<◌, ◌≡◌, refl, ◌∙◌, sym, ap, ◌⊎◌, inl, inr, Bool, true, false, not,
  ◌&&◌, Bool-cases, Option, some, List, [], ◌∷◌, ltb, leb, ◌==◌, arith,
}
use cmu_15213_csapp3e_lab.Malloc.Mem.{mem_heapsize}
use cmu_15213_csapp3e_lab.Malloc.Words.{Bytes, get_size, hdrp, next_blkp}
use cmu_15213_csapp3e_lab.Malloc.Blocks.{Block, span, Behind}
use cmu_15213_csapp3e_lab.Malloc.Blocks.Tags.{word-size, header-size, header-alloc, next_blkp_lem}
use cmu_15213_csapp3e_lab.Malloc.Blocks.Zip.{Zip, free, forth}
use cmu_15213_csapp3e_lab.Malloc.Blocks.Rover.{Starts, Starts-back}
use cmu_15213_csapp3e_lab.Malloc.Implicit.{Heap, fits, search_end, search_start, find_fit}
use cmu_15213_csapp3e_lab.Malloc.Implicit.IsHeap.{
  IsHeap, onto, Based, View-at, view_start, Starts-from,
}

-- At `p` there is a free block of at least `asize` bytes.
pub record Fit (b : Bytes) (lo hi asize : ℕ) (ks : List Block) (p : ℕ) : Type 0 where
  pub front : List Block
  pub size : ℕ
  pub rest : List Block
  pub zip : Zip b lo front (free size ∷ rest) hi
  pub same : onto front (free size ∷ rest) ≡ ks
  pub here : p ≡ lo + span front
  pub enough : asize ≤ size

abbrev Found : Bytes → ℕ → ℕ → ℕ → List Block → Option (Bool × ℕ) → (ℕ → Type 0) → Type 0
Found b lo hi asize ks o Missed =
    (p : ℕ) × (((o ≡ some (true, p)) × Fit b lo hi asize ks p) ⊎ ((o ≡ some (false, p)) × Missed p))

-- No free block has `asize` bytes: none from `bp` on that begins below `stop`, and none at all.
abbrev NoFitBelow : ℕ → ℕ → ℕ → List Block → Type 0
NoFitBelow asize stop bp [] = Unit
NoFitBelow asize stop bp (k ∷ ks) =
    (bp < stop → k.used ≡ false → k.size < asize) × NoFitBelow asize stop (bp + k.size) ks

abbrev pub NoFit : ℕ → List Block → Type 0
NoFit asize [] = Unit
NoFit asize (k ∷ ks) = (k.used ≡ false → k.size < asize) × NoFit asize ks

pub NoFit-larger : (a c : ℕ) (ks : List Block) → a ≤ c → NoFit a ks → NoFit c ks
NoFit-larger a c [] l h = tt
NoFit-larger a c (k ∷ ks) l h = (λ u. ground arith, NoFit-larger a c ks l h.1)

past_stop : (asize stop bp : ℕ) (ks : List Block) → stop ≤ bp → NoFitBelow asize stop bp ks
past_stop asize stop bp [] l = tt
past_stop asize stop bp (k ∷ ks) l =
    (λ i u. absurd (omega arith), past_stop asize stop (bp + k.size) ks (omega arith))

below_from :
    (asize stop lo : ℕ) (r s : List Block)
    → NoFitBelow asize stop lo (onto r s)
    → NoFitBelow asize stop (lo + span r) s
below_from asize stop lo [] s h =
    let e : lo ≡ lo + 0 = omega arith in subst (λ x. NoFitBelow asize stop x s) e h
below_from asize stop lo (k ∷ r) s h =
    let e : lo + span r + k.size ≡ lo + span (k ∷ r) = omega arith in
    subst (λ x. NoFitBelow asize stop x s) e (below_from asize stop lo r (k ∷ s) h).1

-- The two loops see every block.
both_loops :
    (b : Bytes) (asize stop lo : ℕ) (r s : List Block)
    → Behind b lo r
    → lo + span r ≤ stop
    → NoFitBelow asize stop lo (onto r s)
    → NoFit asize s
    → NoFit asize (onto r s)
both_loops b asize stop lo [] s t l h f = f
both_loops b asize stop lo (k ∷ r) s t l h f =
    both_loops b asize stop lo r (k ∷ s) t.1 (omega (arith, t.0.least)) h
      ((below_from asize stop lo r (k ∷ s) h).0 (omega (arith, t.0.least)), f)

-- the block under the rover
module _ (b : Bytes) (lo hi asize : ℕ) (r s : List Block) (k : Block)
    (z : Zip b lo r (k ∷ s) hi) where
  not_end : (get_size b (hdrp (lo + span r)) == 0) ≡ false
  not_end = rw (header-size z.ahead.0) (ground (arith, z.ahead.0.least))

  fits_lem : fits b (lo + span r) asize ≡ not k.used && leb asize k.size
  fits_lem = rw (header-size z.ahead.0, header-alloc z.ahead.0) (ground arith)

  next_lem : next_blkp b (lo + span r) ≡ lo + span (k ∷ r)
  next_lem = next_blkp_lem z.ahead.0 ∙ omega arith

  here_fits :
      (not k.used && leb asize k.size) ≡ true → Fit b lo hi asize (onto r (k ∷ s)) (lo + span r)
  here_fits e =
      let u : k.used ≡ false = ground arith in
      let q : k ≡ free k.size = ap (λ (x : Bool). record { size = k.size; used = x }) u in
      record {
        front = r;
        size = k.size;
        rest = s;
        zip = subst (λ x. Zip b lo r (x ∷ s) hi) q z;
        same = ap (λ (x : Block). onto r (x ∷ s)) (sym q);
        here = refl;
        enough = ground arith;
      }

search_end_lem :
    (fuel : ℕ) (b : Bytes) (lo hi asize : ℕ) (r s : List Block)
    → Zip b lo r s hi
    → span s < fuel
    → Found b lo hi asize (onto r s) (search_end fuel b (lo + span r) asize) (λ p. NoFit asize s)
unfolding search_end
search_end_lem zero b lo hi asize r s z l = absurd (omega arith)
search_end_lem (suc fuel) b lo hi asize r [] z l =
    let e : lo + span r - 4 ≡ hi - 4 = omega (arith, z.end) in
    let q : get_size b (hdrp (lo + span r)) ≡ 0 =
      rw (e) (word-size b (hi - 4) 0 true refl z.epilogue) in
    (lo + span r, inr (rw (q) refl, tt))
search_end_lem (suc fuel) b lo hi asize r (k ∷ s) z l =
    elim (Bool-cases (not k.used && leb asize k.size)) [
      | inl e ↦ (
        lo + span r,
        inl (
          rw (not_end b lo hi asize r s k z, fits_lem b lo hi asize r s k z, e) refl,
          here_fits b lo hi asize r s k z e,
        ),
      )
      | inr e ↦
          rw
            (
              not_end b lo hi asize r s k z,
              fits_lem b lo hi asize r s k z,
              e,
              next_lem b lo hi asize r s k z,
            )
            (let (p, f) =
                search_end_lem fuel b lo hi asize (k ∷ r) s (forth b lo hi k r s z)
                  (omega (arith, z.ahead.0.least)) in
              (p, elim f [ inl g ↦ inl g | inr g ↦ inr (g.0, (λ u. ground arith, g.1)) ]))
    ]

search_start_lem :
    (fuel : ℕ) (b : Bytes) (lo hi old asize : ℕ) (r s : List Block)
    → Zip b lo r s hi
    → span s < fuel
    → old ≤ hi
    → Found b lo hi asize
        (onto r s)
        (search_start fuel b old (lo + span r) asize)
        (λ p. Starts lo r s p × NoFitBelow asize old (lo + span r) s)
unfolding search_start
search_start_lem zero b lo hi old asize r s z l o = absurd (omega arith)
search_start_lem (suc fuel) b lo hi old asize r [] z l o =
    let q : ltb (lo + span r) old ≡ false = ground (arith, z.end) in
    (lo + span r, inr (rw (q) refl, (inr refl, tt)))
search_start_lem (suc fuel) b lo hi old asize r (k ∷ s) z l o =
    elim (Bool-cases (ltb (lo + span r) old)) [
      | inr q ↦ (
        lo + span r,
        inr (
          rw (q) refl,
          (inr (inl refl), past_stop asize old (lo + span r) (k ∷ s) (ground arith)),
        ),
      )
      | inl q ↦ elim (Bool-cases (not k.used && leb asize k.size)) [
        | inl e ↦ (
          lo + span r,
          inl (rw (q, fits_lem b lo hi asize r s k z, e) refl, here_fits b lo hi asize r s k z e),
        )
        | inr e ↦
            let (p, f) =
              search_start_lem fuel b lo hi old asize (k ∷ r) s (forth b lo hi k r s z)
                (omega (arith, z.ahead.0.least)) o in
            rw (q, fits_lem b lo hi asize r s k z, e, next_lem b lo hi asize r s k z)
              (
                p,
                elim f [
                  | inl g ↦ inl g
                  | inr g ↦ inr (
                    g.0,
                    (
                      Starts-back lo p k r s g.1.0,
                      (
                        λ l2 u. ground arith,
                        subst (λ x. NoFitBelow asize old x s) (omega arith) g.1.1,
                      ),
                    ),
                  )
                ],
              )
      ]
    ]

pub rover_moved :
    (h : Heap) (p : ℕ) (r s : List Block)
    → IsHeap h r s
    → Starts h.heap_listp r s p
    → IsHeap (record h { rover = p }) r s
rover_moved h p r s v st = record {
  zip = v.zip;
  based = v.based;
  rover = st;
  origin = v.origin;
  bounded = v.bounded;
  limit = v.limit;
}

pub Fit-heap :
    (h : Heap) (p asize : ℕ) (r s : List Block)
    → IsHeap h r s
    → (f : Fit h.bytes h.heap_listp h.mem.mem_brk asize (onto r s) p)
    → IsHeap (record h { rover = p }) f.front (free f.size ∷ f.rest)
Fit-heap h p asize r s v f = record {
  zip = f.zip;
  based = subst Based (sym f.same) v.based;
  rover = inr (inl f.here);
  origin = v.origin;
  bounded = v.bounded;
  limit = v.limit;
}

-- what `find_fit` gives, with the rover that it leaves
abbrev pub Search : Heap → ℕ → List Block → List Block → Option (ℕ × Heap) → Type 0
Search h asize r s o =
    (p : ℕ) × (((o ≡ some (p, record h { rover = p }))
        × Fit h.bytes h.heap_listp h.mem.mem_brk asize (onto r s) p)
      ⊎ ((o ≡ some (0, record h { rover = p }))
          × (Starts h.heap_listp r s p × NoFit asize (onto r s))))

-- On a heap that is tiled by blocks, with the rover at one of them, `find_fit` ends. Either it gives a free
-- block of at least `asize` bytes, at which the rover then is, or no free block of the heap has so many bytes, it gives NULL,
-- and the rover is at the start of a block or at the epilogue. Nothing but the rover is changed.
pub find_fit-Search :
    (h : Heap) (asize : ℕ) (r s : List Block) → IsHeap h r s → Search h asize r s (find_fit h asize)
unfolding find_fit mem_heapsize
find_fit-Search h asize r s v =
    let lo = h.heap_listp in
    let hi = h.mem.mem_brk in
    let w = View-at h.bytes lo hi h.rover r s v.zip v.rover in
    let fuel = h.mem.mem_brk - h.mem.mem_start_brk + 1 in
    let (p, e) =
      search_end_lem fuel h.bytes lo hi asize w.front w.rest w.zip
        (omega (arith, w.zip.end, v.origin)) in
    let z = view_start h.bytes lo hi r s v.zip in
    let (p2, e2) =
      search_start_lem fuel h.bytes lo hi h.rover asize [] (onto r s) z
        (omega (arith, z.end, v.origin)) (omega (arith, w.here, w.zip.end)) in
    let q = ap (λ x. search_end fuel h.bytes x asize) w.here in
    let l0 : h.heap_listp ≡ lo + 0 = omega arith in
    let q2 = ap (λ x. search_start fuel h.bytes h.rover x asize) l0 in
    elim e [
      | inl g ↦ (p, inl (rw (q ∙ g.0) refl, subst (λ x. Fit h.bytes lo hi asize x p) w.same g.1))
      | inr g ↦ elim e2 [
        | inl k ↦ (p2, inl (rw (q ∙ g.0, q2 ∙ k.0) refl, k.1))
        | inr k ↦ (
          p2,
          inr (
            rw (q ∙ g.0, q2 ∙ k.0) refl,
            (
              Starts-from lo p2 r s k.1.0,
              subst (NoFit asize) w.same (
                  both_loops h.bytes asize h.rover lo w.front w.rest w.zip.behind
                    (omega (arith, w.here))
                    (subst (NoFitBelow asize h.rover lo) (sym w.same)
                      (subst (λ x. NoFitBelow asize h.rover x (onto r s)) (sym l0) k.1.1))
                    g.1),
            ),
          ),
        )
      ]
    ]
