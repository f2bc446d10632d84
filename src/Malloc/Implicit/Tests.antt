-- ===== src/Malloc/Implicit/Tests.antt =====
-- A heap at address 4096, and the allocator on it.
use cmu_15213_csapp3e_lab.Base.{ℕ, ◌+◌, ◌≡◌, refl, true, [], ◌∷◌, some, arith}
use cmu_15213_csapp3e_lab.Malloc.Mem.{max_heap}
use cmu_15213_csapp3e_lab.Malloc.Blocks.{span}
use cmu_15213_csapp3e_lab.Malloc.Blocks.Zip.{free, alloc}
use cmu_15213_csapp3e_lab.Malloc.Implicit.{Heap, mm_init, mm_malloc, mm_free, place, find_fit}
use cmu_15213_csapp3e_lab.Malloc.Implicit.IsHeap.{IsHeap}
use cmu_15213_csapp3e_lab.Malloc.Implicit.Init.{mm_init-IsHeap}
use cmu_15213_csapp3e_lab.Malloc.Implicit.Place.{place_lem}
use cmu_15213_csapp3e_lab.Malloc.Implicit.Search.{Search, find_fit-Search}
use cmu_15213_csapp3e_lab.Malloc.Implicit.Free.{Freed, mm_free-Freed}
use cmu_15213_csapp3e_lab.Malloc.Implicit.Malloc.{Answer, mm_malloc-Answer}

abbrev fresh : Heap
fresh = record {
  mem = record { mem_start_brk = 4096; mem_brk = 4096; mem_max_addr = 4096 + max_heap };
  bytes = λ q. 0;
  heap_listp = 0;
  rover = 0;
}

ready : Heap
ready = (mm_init fresh).1

mm_init-IsHeap_example :
    ((mm_init fresh).0 ≡ true) × IsHeap (mm_init fresh).1 (alloc 8 ∷ []) (free 4096 ∷ [])
mm_init-IsHeap_example = mm_init-IsHeap fresh refl refl

ready-IsHeap : IsHeap ready (alloc 8 ∷ []) (free 4096 ∷ [])
unfolding ready
ready-IsHeap = mm_init-IsHeap_example.1

mm_malloc-Answer_example :
    (out : ℕ × Heap) × (mm_malloc ready 20 ≡ some out)
    × Answer ready (alloc 8 ∷ []) (free 4096 ∷ []) 20 out
mm_malloc-Answer_example =
    mm_malloc-Answer ready (alloc 8 ∷ []) (free 4096 ∷ []) 20 ready-IsHeap (omega arith)
      (omega arith)

-- the heap with its first block given away
taken : Heap
taken = place ready (ready.heap_listp + 8) 32

taken-IsHeap : IsHeap taken (alloc 8 ∷ []) (alloc 32 ∷ free 4064 ∷ [])
unfolding taken
taken-IsHeap =
    (place_lem ready (alloc 8) [] [] 4096 32 ready-IsHeap (omega arith) refl (omega arith)).heap

mm_free-Freed_example :
    Freed taken
      (mm_free taken (taken.heap_listp + span (alloc 8 ∷ [])))
      (alloc 8 ∷ [])
      32
      (free 4064 ∷ [])
mm_free-Freed_example = mm_free-Freed taken 32 (alloc 8) [] (free 4064 ∷ []) taken-IsHeap

find_fit-Search_example :
    Search taken 64 (alloc 8 ∷ []) (alloc 32 ∷ free 4064 ∷ []) (find_fit taken 64)
find_fit-Search_example =
    find_fit-Search taken 64 (alloc 8 ∷ []) (alloc 32 ∷ free 4064 ∷ []) taken-IsHeap
