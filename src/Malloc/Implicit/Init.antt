-- ===== src/Malloc/Implicit/Init.antt =====
-- `mm_init` on a fresh memory system.
use mathlib.Core.Path.{subst}
use cmu_15213_csapp3e_lab.Base.{ℕ, ◌+◌, ◌-◌, ◌*◌, ◌≡◌, refl, ◌∙◌, ap, inl, true, [], ◌∷◌, arith}
use cmu_15213_csapp3e_lab.Malloc.Mem.{max_heap}
use cmu_15213_csapp3e_lab.Malloc.Mem.Regions.{sbrk_room}
use cmu_15213_csapp3e_lab.Malloc.Words.{Bytes, get, put, pack}
use cmu_15213_csapp3e_lab.Malloc.Words.Laws.{get-put_self, get-put_far}
use cmu_15213_csapp3e_lab.Malloc.Blocks.{Tagged}
use cmu_15213_csapp3e_lab.Malloc.Blocks.Tags.{pack-bit}
use cmu_15213_csapp3e_lab.Malloc.Blocks.Zip.{free, alloc}
use cmu_15213_csapp3e_lab.Malloc.Implicit.{Heap, mm_init, extend_heap}
use cmu_15213_csapp3e_lab.Malloc.Implicit.Free.{nonzero}
use cmu_15213_csapp3e_lab.Malloc.Implicit.Extend.{as_int_lem, extend_room}
use cmu_15213_csapp3e_lab.Malloc.Implicit.IsHeap.{IsHeap}

-- the bytes of an empty heap from `p` on
abbrev first_bytes : Bytes → ℕ → Bytes
first_bytes b p =
    put (put (put (put b p 0) (p + 1 * 4) (pack 8 1)) (p + 2 * 4) (pack 8 1)) (p + 3 * 4) (pack 0 1)

nine : pack 8 1 ≡ 9
nine = pack-bit 8 true refl

header_word : (b : Bytes) (p : ℕ) → get (first_bytes b p) (p + 8 - 4) ≡ 8 + 1
header_word b p =
    let e : p + 8 - 4 ≡ p + 4 = omega arith in
    let b2 = put (put b p 0) (p + 4) (pack 8 1) in
    let b3 = put b2 (p + 8) (pack 8 1) in
    ap (get (first_bytes b p)) e
    ∙ get-put_far b3 (p + 12) (pack 0 1) (p + 4) (inl (omega arith))
    ∙ get-put_far b2 (p + 8) (pack 8 1) (p + 4) (inl (omega arith))
    ∙ get-put_self (put b p 0) (p + 4) (pack 8 1) (omega (arith, nine))
    ∙ nine

footer_word : (b : Bytes) (p : ℕ) → get (first_bytes b p) (p + 8 + 8 - 8) ≡ 8 + 1
footer_word b p =
    let e : p + 8 + 8 - 8 ≡ p + 8 = omega arith in
    let b2 = put (put b p 0) (p + 4) (pack 8 1) in
    let b3 = put b2 (p + 8) (pack 8 1) in
    ap (get (first_bytes b p)) e
    ∙ get-put_far b3 (p + 12) (pack 0 1) (p + 8) (inl (omega arith))
    ∙ get-put_self b2 (p + 8) (pack 8 1) (omega (arith, nine))
    ∙ nine

epilogue_word : (b : Bytes) (p : ℕ) → get (first_bytes b p) (p + 16 - 4) ≡ 1
epilogue_word b p =
    let e : p + 16 - 4 ≡ p + 12 = omega arith in
    let b3 = put (put (put b p 0) (p + 4) (pack 8 1)) (p + 8) (pack 8 1) in
    let one = pack-bit 0 true refl in
    ap (get (first_bytes b p)) e ∙ get-put_self b3 (p + 12) (pack 0 1) (omega (arith, one)) ∙ one

empty_heap : Heap → Heap
empty_heap h = record {
  mem = record h.mem { mem_brk = h.mem.mem_brk + 16 };
  bytes = first_bytes h.bytes h.mem.mem_brk;
  heap_listp = h.mem.mem_brk + 2 * 4;
  rover = h.mem.mem_brk + 2 * 4;
}

empty-IsHeap :
    (h : Heap)
    → h.mem.mem_brk ≡ h.mem.mem_start_brk
    → h.mem.mem_max_addr ≡ h.mem.mem_start_brk + max_heap
    → IsHeap (empty_heap h) (alloc 8 ∷ []) []
unfolding empty_heap
empty-IsHeap h e f =
    let p = h.mem.mem_brk in
    let l0 : p + 8 ≡ p + 8 + 0 = omega arith in
    let t : Tagged (first_bytes h.bytes p) (p + 8) (alloc 8) = record {
      aligned = refl;
      least = omega arith;
      header = header_word h.bytes p;
      footer = footer_word h.bytes p;
    } in
    record {
      zip = record {
        base = omega arith;
        small = omega arith;
        behind = (subst (λ x. Tagged (first_bytes h.bytes p) x (alloc 8)) l0 t, tt);
        ahead = tt;
        end = omega arith;
        epilogue = epilogue_word h.bytes p;
      };
      based = (refl, refl);
      rover = inl (inl (omega arith));
      origin = omega (arith, e);
      bounded = omega (arith, e, f);
      limit = f;
    }

-- On a fresh memory system `mm_init` succeeds: the heap is the prologue and one free block of 4096 bytes.
pub mm_init-IsHeap :
    (h : Heap)
    → h.mem.mem_brk ≡ h.mem.mem_start_brk
    → h.mem.mem_max_addr ≡ h.mem.mem_start_brk + max_heap
    → ((mm_init h).0 ≡ true) × IsHeap (mm_init h).1 (alloc 8 ∷ []) (free 4096 ∷ [])
unfolding mm_init empty_heap
mm_init-IsHeap h e f =
    let g = empty_heap h in
    let v = empty-IsHeap h e f in
    let x =
      extend_room g (alloc 8 ∷ []) [] v 4096 refl (omega arith) (omega arith)
        (record { last = alloc 8; front = []; same = refl; zip = v.zip; rover = v.rover }) 1024 refl
        refl in
    let ne = nonzero (extend_heap g 1024).0 (omega (arith, x.place)) in
    rw (as_int_lem 16 (omega arith), sbrk_room h.mem 16 (omega arith), ne) (refl, x.heap)
