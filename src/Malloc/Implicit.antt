-- ===== src/Malloc/Implicit.antt =====
-- The allocator with an implicit free list, mm_implicit_list.c, as it is compiled with NEXT_FIT. Pointers
-- are numbers, and 0 is NULL.
pub mod Coalesce
pub mod Finish
pub mod Join
pub mod Merge
pub mod IsHeap
pub mod Free
pub mod Search
pub mod Place
pub mod Extend
pub mod Used
pub mod Allocate
pub mod Malloc
pub mod Init
mod Tests
use mathlib.Core.Option
use cmu_15213_csapp3e_lab.Base.{
  ℕ, zero, suc, ◌+◌, ◌-◌, ◌*◌, ◌/◌, ◌%◌, ◌^◌, Bool, true, false, not, ◌&&◌, Option, none, some, ltb,
  leb, ◌==◌, if◌then◌else◌, ◌>>=◌,
}
use cmu_15213_csapp3e_lab.Base.Int.{ℤ, pos, negsuc}
use cmu_15213_csapp3e_lab.Malloc.Mem.{Mem, mem_sbrk, mem_heapsize}
use cmu_15213_csapp3e_lab.Malloc.Words.{
  Bytes, wsize, dsize, put, pack, get_size, get_alloc, hdrp, ftrp, next_blkp, prev_blkp,
}

abbrev pub chunksize : ℕ
chunksize = 2 ^ 12

-- The memory system, its bytes, and the two globals.
pub record Heap : Type 0 where
  pub mem : Mem
  pub bytes : Bytes
  pub heap_listp : ℕ
  pub rover : ℕ

abbrev pub write : Heap → ℕ → ℕ → Heap
write h p v = record h { bytes = put h.bytes p v }

-- a `size_t` as the `int` that `mem_sbrk` takes
unfoldable pub as_int : ℕ → ℤ
as_int n = let w = n % 2 ^ 32 in if ltb w (2 ^ 31) then pos w else negsuc (2 ^ 32 - 1 - w)

-- The header and the footer of a block, in this order: the footer's place depends on the header.
abbrev pub write_tags : Heap → ℕ → ℕ → Heap
write_tags h bp v = let g = write h (hdrp bp) v in write g (ftrp g.bytes bp) v

-- The rover must not point into the block that was just coalesced.
abbrev pub settle_rover : Heap → ℕ → ℕ × Heap
settle_rover h bp = (
  bp,
  if ltb bp h.rover && ltb h.rover (next_blkp h.bytes bp) then record h { rover = bp } else h,
)

unfoldable pub coalesce : Heap → ℕ → ℕ × Heap
coalesce h bp =
    let b = h.bytes in
    let prev_alloc = not (get_alloc b (ftrp b (prev_blkp b bp)) == 0) in
    let next_alloc = not (get_alloc b (hdrp (next_blkp b bp)) == 0) in
    let size = get_size b (hdrp bp) in
    if prev_alloc && next_alloc
    then (bp, h)
    else if prev_alloc && not next_alloc
    then (let size2 = size + get_size b (hdrp (next_blkp b bp)) in
        settle_rover (write_tags h bp (pack size2 0)) bp)
    else if not prev_alloc && next_alloc
    then (let size2 = size + get_size b (hdrp (prev_blkp b bp)) in
        let g = write h (ftrp b bp) (pack size2 0) in
        let k = write g (hdrp (prev_blkp g.bytes bp)) (pack size2 0) in
        settle_rover k (prev_blkp k.bytes bp))
    else (let size2 =
          size + (get_size b (ftrp b (next_blkp b bp)) + get_size b (hdrp (prev_blkp b bp))) in
        let g = write h (hdrp (prev_blkp b bp)) (pack size2 0) in
        let k = write g (ftrp g.bytes (next_blkp g.bytes bp)) (pack size2 0) in
        settle_rover k (prev_blkp k.bytes bp))

-- the number of bytes for a number of words, made even
unfoldable pub even_size : ℕ → ℕ
even_size words = (if words % 2 == 0 then words * wsize else (words + 1) * wsize) % 2 ^ 64

-- behind `mem_sbrk`: the tags of the new block, the new epilogue, and the coalescing
abbrev pub add_block : Heap → ℕ → Option ℕ × Mem → ℕ × Heap
add_block h size (none, m) = (0, record h { mem = m })
add_block h size (some bp, m) =
    let g = write_tags (record h { mem = m }) bp (pack size 0) in
    coalesce (write g (hdrp (next_blkp g.bytes bp)) (pack 0 1)) bp

-- The new block's address, or NULL.
unfoldable pub extend_heap : Heap → ℕ → ℕ × Heap
extend_heap h words = add_block h (even_size words) (mem_sbrk h.mem (as_int (even_size words)))

-- `(void*)-1`
abbrev pub minus_one : ℕ
minus_one = 2 ^ 64 - 1

-- behind `mem_sbrk`: padding, prologue and epilogue, and the first free block
abbrev pub set_up : Heap → Option ℕ × Mem → Bool × Heap
set_up h (none, m) = (false, record h { mem = m; heap_listp = minus_one })
set_up h (some p, m) =
    let g = write (record h { mem = m }) p 0 in
    let g2 = write g (p + 1 * wsize) (pack dsize 1) in
    let g3 = write g2 (p + 2 * wsize) (pack dsize 1) in
    let g4 = write g3 (p + 3 * wsize) (pack 0 1) in
    let g5 = record g4 { heap_listp = p + 2 * wsize; rover = p + 2 * wsize } in
    let (bp, g6) = extend_heap g5 (chunksize / wsize) in (not (bp == 0), g6)

-- Whether it succeeds (0) or not (-1), and the heap.
unfoldable pub mm_init : Heap → Bool × Heap
mm_init h = set_up h (mem_sbrk h.mem (as_int (4 * wsize)))

abbrev pub fits : Bytes → ℕ → ℕ → Bool
fits b rover asize = get_alloc b (hdrp rover) == 0 && leb asize (get_size b (hdrp rover))

-- The two loops of `find_fit`: whether a block was found, and the rover. They run on fuel, and are
-- `none` without it.
unfoldable pub search_end : ℕ → Bytes → ℕ → ℕ → Option (Bool × ℕ)
search_end zero b rover asize = none
search_end (suc fuel) b rover asize =
    let rest = search_end fuel b (next_blkp b rover) asize in
    if get_size b (hdrp rover) == 0
    then some (false, rover)
    else if fits b rover asize
    then some (true, rover)
    else rest

unfoldable pub search_start : ℕ → Bytes → ℕ → ℕ → ℕ → Option (Bool × ℕ)
search_start zero b oldrover rover asize = none
search_start (suc fuel) b oldrover rover asize =
    let rest = search_start fuel b oldrover (next_blkp b rover) asize in
    if not (ltb rover oldrover)
    then some (false, rover)
    else if fits b rover asize
    then some (true, rover)
    else rest

abbrev find_from_start : Heap → ℕ → Option (ℕ × Heap)
find_from_start h asize = do
  (found, rover) ← search_start (mem_heapsize h.mem + 1) h.bytes h.rover h.heap_listp asize
  some (if found then rover else 0, record h { rover = rover })

-- Every block has at least one byte, so the size of the heap is fuel enough.
unfoldable pub find_fit : Heap → ℕ → Option (ℕ × Heap)
find_fit h asize = do
  (found, rover) ← search_end (mem_heapsize h.mem + 1) h.bytes h.rover asize
  if found then some (rover, record h { rover = rover }) else find_from_start h asize

unfoldable pub place : Heap → ℕ → ℕ → Heap
place h bp asize =
    let block_size = get_size h.bytes (hdrp bp) in
    if leb (2 * dsize) ((block_size + 2 ^ 64 - asize) % 2 ^ 64)
    then (let g = write_tags h bp (pack asize 1) in
        write_tags g (next_blkp g.bytes bp) (pack ((block_size + 2 ^ 64 - asize) % 2 ^ 64) 0))
    else write_tags h bp (pack block_size 1)

-- the size of the block for a request of `size` bytes
unfoldable pub adjusted : ℕ → ℕ
adjusted size =
    if leb size dsize then 2 * dsize else dsize * ((size + dsize + (dsize - 1)) % 2 ^ 64 / dsize)

abbrev pub max_of : ℕ → ℕ → ℕ
max_of x y = if ltb y x then x else y

-- behind the search: the block that was found, or a new one
abbrev place_or_extend : ℕ → ℕ × Heap → ℕ × Heap
place_or_extend asize (bp, h) =
    if not (bp == 0)
    then (bp, place h bp asize)
    else (let (bp2, g) = extend_heap h (max_of asize chunksize / wsize) in
        if bp2 == 0 then (0, g) else (bp2, place g bp2 asize))

unfoldable pub mm_malloc : Heap → ℕ → Option (ℕ × Heap)
mm_malloc h0 size =
    let h = if h0.heap_listp == 0 then (mm_init h0).1 else h0 in
    if size == 0
    then some (0, h)
    else Option.map (place_or_extend (adjusted size)) (find_fit h (adjusted size))

unfoldable pub mm_free : Heap → ℕ → Heap
mm_free h0 bp =
    if bp == 0
    then h0
    else (let size = get_size h0.bytes (hdrp bp) in
        let h = if h0.heap_listp == 0 then (mm_init h0).1 else h0 in
        (coalesce (write_tags h bp (pack size 0)) bp).1)

-- `memcpy` of areas that do not overlap
abbrev pub memcpy : Bytes → ℕ → ℕ → ℕ → Bytes
memcpy b dst src n q = if leb dst q && ltb q (dst + n) then b (src + (q - dst)) else b q

-- behind the allocation: the copy, and the release of the old block
abbrev move_to : ℕ → ℕ → ℕ × Heap → ℕ × Heap
move_to ptr size (newptr, h) =
    if newptr == 0
    then (0, h)
    else (let block_size = get_size h.bytes (hdrp ptr) in
        let oldsize = if ltb size block_size then size else block_size in
        (newptr, mm_free (record h { bytes = memcpy h.bytes newptr ptr oldsize }) ptr))

unfoldable pub mm_realloc : Heap → ℕ → ℕ → Option (ℕ × Heap)
mm_realloc h ptr size =
    if size == 0
    then some (0, mm_free h ptr)
    else if ptr == 0
    then mm_malloc h size
    else Option.map (move_to ptr size) (mm_malloc h size)
