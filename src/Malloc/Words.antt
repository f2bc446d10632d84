-- ===== src/Malloc/Words.antt =====
-- The macros that the allocators share: words of four bytes, and a block's header, footer and
-- neighbours. Memory is a function from addresses to bytes; what lies outside the heap is in it too.
pub mod Laws
use cmu_15213_csapp3e_lab.Base.{ℕ, zero, suc, ◌+◌, ◌-◌, ◌*◌, ◌/◌, ◌%◌, ◌^◌, ◌==◌, if◌then◌else◌}

abbrev pub Bytes : Type 0
Bytes = ℕ → ℕ

abbrev pub wsize : ℕ
wsize = 4

abbrev pub dsize : ℕ
dsize = 8

-- `GET`, little-endian
unfoldable pub get : Bytes → ℕ → ℕ
get b p = b p + 2 ^ 8 * b (p + 1) + 2 ^ 16 * b (p + 2) + 2 ^ 24 * b (p + 3)

-- `PUT`: the value is taken as an `unsigned int`.
unfoldable pub put : Bytes → ℕ → ℕ → Bytes
put b p v q =
    if q == p
    then v % 2 ^ 8
    else if q == p + 1
    then v / 2 ^ 8 % 2 ^ 8
    else if q == p + 2
    then v / 2 ^ 16 % 2 ^ 8
    else if q == p + 3
    then v / 2 ^ 24 % 2 ^ 8
    else b q

-- `PACK`, which is `size | alloc`, for an `alloc` of 0 or 1
unfoldable pub pack : ℕ → ℕ → ℕ
pack size zero = size
pack size (suc _) = size / 2 * 2 + 1

-- `GET_SIZE`, which is `GET(p) & ~0x7`
unfoldable pub get_size : Bytes → ℕ → ℕ
get_size b p = get b p - get b p % 8

-- `GET_ALLOC`, which is `GET(p) & 0x1`
unfoldable pub get_alloc : Bytes → ℕ → ℕ
get_alloc b p = get b p % 2

abbrev pub hdrp : ℕ → ℕ
hdrp bp = bp - wsize

unfoldable pub ftrp : Bytes → ℕ → ℕ
ftrp b bp = bp + get_size b (hdrp bp) - dsize

unfoldable pub next_blkp : Bytes → ℕ → ℕ
next_blkp b bp = bp + get_size b (bp - wsize)

unfoldable pub prev_blkp : Bytes → ℕ → ℕ
prev_blkp b bp = bp - get_size b (bp - dsize)
