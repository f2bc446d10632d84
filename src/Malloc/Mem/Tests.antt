-- ===== src/Malloc/Mem/Tests.antt =====
-- Calls on a storage at address 4096: a refused one between two that are granted.
use cmu_15213_csapp3e_lab.Base.{◌+◌, ◌≤◌, ◌≡◌, refl, some, List, [], ◌∷◌}
use cmu_15213_csapp3e_lab.Base.Int.{ℤ, pos, negsuc}
use cmu_15213_csapp3e_lab.Malloc.Mem.{
  Mem, mem_init, mem_sbrk, mem_reset_brk, mem_heap_lo, mem_heap_hi, mem_heapsize, max_heap,
}
use cmu_15213_csapp3e_lab.Malloc.Mem.Regions.{grants, Tiles, mem_sbrk_areas}

abbrev mem : Mem
mem = record { mem_start_brk = 4096; mem_brk = 4096; mem_max_addr = 4096 + max_heap }

abbrev calls : List ℤ
calls = pos 16 ∷ negsuc 7 ∷ pos 32 ∷ []

mem_ready : mem_init (some 4096) ≡ some mem
unfolding mem_init
mem_ready = refl

calls_granted : (grants mem calls).0 ≡ (4096, 16) ∷ (4112, 32) ∷ []
unfolding mem_sbrk
calls_granted = refl

heap_bounds :
    (mem_heap_lo (grants mem calls).1 ≡ 4096)
    × (mem_heap_hi (grants mem calls).1 ≡ 4143)
    × (mem_reset_brk (grants mem calls).1 ≡ mem)
unfolding mem_sbrk mem_heap_lo mem_heap_hi mem_reset_brk
heap_bounds = (refl, refl, refl)

calls_size : mem_heapsize (grants mem calls).1 ≡ 48
unfolding mem_sbrk mem_heapsize
calls_size = refl

mem_sbrk_areas_example :
    Tiles 4096 (grants mem calls).0 (4096 + mem_heapsize (grants mem calls).1)
    × (mem_heapsize (grants mem calls).1 ≤ max_heap)
mem_sbrk_areas_example = mem_sbrk_areas 4096 mem calls mem_ready
