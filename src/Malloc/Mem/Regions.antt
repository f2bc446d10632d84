-- ===== src/Malloc/Mem/Regions.antt =====
-- What any sequence of calls of `mem_sbrk` is given.
use mathlib.Core.Path.{subst}
use cmu_15213_csapp3e_lab.Base.{
  ℕ, ◌+◌, ◌-◌, ◌≤◌, ◌<◌, ◌≡◌, refl, sym, ap, ◌||◌, Option, none, some, List, [], ◌∷◌, arith, ltb,
  by_if,
}
use cmu_15213_csapp3e_lab.Base.Int.{ℤ, pos, ltb_ℤ, pos_part}
use cmu_15213_csapp3e_lab.Malloc.Mem.{Mem, mem_init, mem_sbrk, mem_heapsize, max_heap}

-- an area that was given out: where it starts, and its size
abbrev pub Region : Type 0
Region = ℕ × ℕ

abbrev pub grant : Option ℕ → ℤ → List Region → List Region
grant none incr rs = rs
grant (some p) incr rs = (p, pos_part incr) ∷ rs

-- the areas that the calls are given, and the memory behind them
abbrev pub grants : Mem → List ℤ → List Region × Mem
grants m [] = ([], m)
grants m (incr ∷ incrs) =
    let (p, m2) = mem_sbrk m incr in let (rs, m3) = grants m2 incrs in (grant p incr rs, m3)

-- The areas follow each other without a gap from `lo` to `hi`.
abbrev pub Tiles : ℕ → List Region → ℕ → Type 0
Tiles lo [] hi = lo ≡ hi
Tiles lo ((p, n) ∷ rs) hi = (p ≡ lo) × Tiles (lo + n) rs hi

Granted : Mem → List Region → Mem → Type 0
Granted m rs t =
    Tiles m.mem_brk rs t.mem_brk
    × (t.mem_brk ≤ t.mem_max_addr)
    × (m.mem_brk ≤ t.mem_brk)
    × (t.mem_start_brk ≡ m.mem_start_brk)
    × (t.mem_max_addr ≡ m.mem_max_addr)

grants-Granted :
    (m : Mem) (incrs : List ℤ)
    → m.mem_brk ≤ m.mem_max_addr
    → Granted m (grants m incrs).0 (grants m incrs).1
unfolding Granted mem_sbrk
grants-Granted m [] h = (refl, h, omega arith, refl, refl)
grants-Granted m (incr ∷ incrs) h =
    by_if
      (λ (r : Option ℕ × Mem). Granted m (grant r.0 incr (grants r.1 incrs).0) (grants r.1 incrs).1)
      (ltb_ℤ incr (pos 0) || ltb m.mem_max_addr (m.mem_brk + pos_part incr)) _ _
      (λ t. grants-Granted m incrs h)
      (λ f.
        let (a, b, g, c, d) =
          grants-Granted (record m { mem_brk = m.mem_brk + pos_part incr }) incrs (ground arith) in
        ((refl, a), b, omega arith, c, d))

record Fresh (storage : ℕ) (m : Mem) : Type 0 where
  lo : m.mem_start_brk ≡ storage
  top : m.mem_brk ≡ storage
  limit : m.mem_max_addr ≡ storage + max_heap

init-Fresh : (storage : ℕ) (m : Mem) → mem_init (some storage) ≡ some m → Fresh storage m
unfolding mem_init
init-Fresh storage m e =
    let q : record { mem_start_brk = storage; mem_brk = storage; mem_max_addr = storage + max_heap }
        ≡ m =
      cc in
    record {
      lo = sym (ap (λ (x : Mem). x.mem_start_brk) q);
      top = sym (ap (λ (x : Mem). x.mem_brk) q);
      limit = sym (ap (λ (x : Mem). x.mem_max_addr) q);
    }

-- From `mem_init` on, whatever sizes are asked for, the areas that `mem_sbrk` gives out follow each
-- other without a gap or an overlap from the start of the storage to the end of the heap, which
-- stays within the storage's 20 megabytes.
pub mem_sbrk_areas :
    (storage : ℕ) (m : Mem) (incrs : List ℤ)
    → mem_init (some storage) ≡ some m
    → Tiles storage (grants m incrs).0 (storage + mem_heapsize (grants m incrs).1)
      × (mem_heapsize (grants m incrs).1 ≤ max_heap)
unfolding mem_heapsize Granted
mem_sbrk_areas storage m incrs e =
    let f = init-Fresh storage m e in
    let t = (grants m incrs).1 in
    let (a, b, g, c, d) = grants-Granted m incrs (omega (arith, f)) in
    let hi : t.mem_brk ≡ storage + (t.mem_brk - t.mem_start_brk) = omega (arith, f) in
    (
      subst (λ x. Tiles x (grants m incrs).0 (storage + (t.mem_brk - t.mem_start_brk))) f.top
          (subst (Tiles m.mem_brk (grants m incrs).0) hi a),
      omega (arith, f),
    )

pub sbrk_room :
    (t : Mem) (n : ℕ)
    → t.mem_brk + n ≤ t.mem_max_addr
    → mem_sbrk t (pos n) ≡ (some t.mem_brk, record t { mem_brk = t.mem_brk + n })
unfolding mem_sbrk
sbrk_room t n h = ground arith

pub sbrk_full : (t : Mem) (n : ℕ) → t.mem_max_addr < t.mem_brk + n → mem_sbrk t (pos n) ≡ (none, t)
unfolding mem_sbrk
sbrk_full t n h = ground arith

-- Behind any calls from `mem_init` on, a call that asks for at least 0 bytes and no more than are left
-- of the 20 megabytes is given the area behind all that is in use.
pub mem_sbrk_fits :
    (storage : ℕ) (m : Mem) (incrs : List ℤ) (n : ℕ)
    → mem_init (some storage) ≡ some m
    → mem_heapsize (grants m incrs).1 + n ≤ max_heap
    → ((mem_sbrk (grants m incrs).1 (pos n)).0 ≡ some (storage + mem_heapsize (grants m incrs).1))
      × (mem_heapsize (mem_sbrk (grants m incrs).1 (pos n)).1 ≡ mem_heapsize (grants m incrs).1 + n)
unfolding mem_heapsize Granted
mem_sbrk_fits storage m incrs n e l =
    let f = init-Fresh storage m e in
    let t = (grants m incrs).1 in
    let (a, b, g, c, d) = grants-Granted m incrs (omega (arith, f)) in
    let q = sbrk_room t n (omega (arith, f)) in
    let hi : t.mem_brk ≡ storage + (t.mem_brk - t.mem_start_brk) = omega (arith, f) in
    (rw (q) (ap some hi), rw (q) (omega (arith, f)))
