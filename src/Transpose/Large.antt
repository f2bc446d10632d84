-- ===== src/Transpose/Large.antt =====
-- `trans_64_64`, and `transpose_submit`, which takes one of the functions by the size.
pub mod Fours
pub mod Off
pub mod Pairs
pub mod Half
pub mod Diagonal
pub mod Whole
use cmu_15213_csapp3e_lab.Base.{
  ℕ, zero, suc, ◌+◌, Bool, true, false, ◌&&◌, Option, none, some, ltb, ◌==◌, if◌then◌else◌,
}
use cmu_15213_csapp3e_lab.Transpose.Loops.{for_loop}
use cmu_15213_csapp3e_lab.Transpose.{
  Ints, Tmps, entry, write, read_row, write_row, swap, block_size, sub_block_size, trans_32_32_opt,
  trans_61_67,
}

-- Four rows of `A` from `from` on, eight ints each from column `i` on, to the four rows of `B` from row `i` and column `j` on.
unfoldable pub copy_half : ℕ → ℕ → Ints → ℕ → ℕ → ℕ → Ints → Ints
copy_half m n a shift i j =
    for_loop i (i + sub_block_size) 1 (λ bi b. write_row n b bi j (read_row m a (bi + shift) i))

-- the body of the loops that transpose two squares side by side, with their first entries at `(i, j)` and `(i, j + 4)`
unfoldable pub swap_twice : ℕ → ℕ → ℕ → ℕ → ℕ → Ints → Ints
swap_twice n i j bi bj b =
    let c = swap n (i + bi) (j + bj) (i + bj) (j + bi) b in
    swap n (i + bi) (j + bj + sub_block_size) (i + bj) (j + bi + sub_block_size) c

-- the loop with `bi` and `bj` from 0 on
unfoldable pub turn_low : ℕ → ℕ → ℕ → Ints → Ints
turn_low n i j =
    for_loop 0 sub_block_size 1
      (λ bi. for_loop (bi + 1) sub_block_size 1 (λ bj. swap_twice n i j bi bj))

-- the loop with `bi` from `i` on
unfoldable pub turn_high : ℕ → ℕ → Ints → Ints
turn_high n i = for_loop i (i + sub_block_size) 1 (λ bi.
    for_loop (bi + 1) (i + sub_block_size) 1 (λ bj b.
      let c = swap n bi bj bj bi b in swap n bi (bj + sub_block_size) bj (bi + sub_block_size) c))

-- `B[r][i + 4 ..]` and `B[r][j ..]`, four ints each, change places.
unfoldable pub exchange_row : ℕ → ℕ → ℕ → ℕ → Ints → Ints
exchange_row n r i j b =
    let tmp0 = entry n b r (i + 4) in
    let tmp1 = entry n b r (i + 5) in
    let tmp2 = entry n b r (i + 6) in
    let tmp3 = entry n b r (i + 7) in
    let b0 = write n b r (i + 4) (entry n b r (j + 0)) in
    let b1 = write n b0 r (i + 5) (entry n b0 r (j + 1)) in
    let b2 = write n b1 r (i + 6) (entry n b1 r (j + 2)) in
    let b3 = write n b2 r (i + 7) (entry n b2 r (j + 3)) in
    let b4 = write n b3 r (j + 0) tmp0 in
    let b5 = write n b4 r (j + 1) tmp1 in
    let b6 = write n b5 r (j + 2) tmp2 in write n b6 r (j + 3) tmp3

unfoldable pub exchange : ℕ → ℕ → ℕ → Ints → Ints
exchange n i j = for_loop 0 sub_block_size 1 (λ bi. exchange_row n (i + bi) i j)

-- `B[r + 4][i + k] = B[r][j + k]`
unfoldable pub fill_int : ℕ → ℕ → ℕ → ℕ → ℕ → Ints → Ints
fill_int n r i j k b = write n b (r + sub_block_size) (i + k) (entry n b r (j + k))

unfoldable pub fill_row : ℕ → ℕ → ℕ → ℕ → Ints → Ints
fill_row n r i j b =
    let b0 = fill_int n r i j 0 b in
    let b1 = fill_int n r i j 1 b0 in
    let b2 = fill_int n r i j 2 b1 in
    let b3 = fill_int n r i j 3 b2 in
    let b4 = fill_int n r i j 4 b3 in
    let b5 = fill_int n r i j 5 b4 in let b6 = fill_int n r i j 6 b5 in fill_int n r i j 7 b6

unfoldable pub fill_low : ℕ → ℕ → ℕ → Ints → Ints
fill_low n i j = for_loop 0 sub_block_size 1 (λ bi. fill_row n (i + bi) i j)

-- the block on the diagonal, by way of the block of `B` at column `j`
unfoldable pub diagonal : ℕ → ℕ → Ints → ℕ → ℕ → Ints → Ints
diagonal m n a i j b =
    let b1 = copy_half m n a sub_block_size i j b in
    let b2 = turn_low n i j b1 in
    let b3 = copy_half m n a 0 i i b2 in
    let b4 = turn_high n i b3 in let b5 = exchange n i j b4 in fill_low n i j b5

-- the upper half of the block of `A`, whose right square waits beside the left one
unfoldable pub spread : ℕ → Ints → ℕ → ℕ → Tmps → Ints
spread n b i bi t =
    let b0 = write n b (i + 0) bi t.tmp0 in
    let b1 = write n b0 (i + 1) bi t.tmp1 in
    let b2 = write n b1 (i + 2) bi t.tmp2 in
    let b3 = write n b2 (i + 3) bi t.tmp3 in
    let b4 = write n b3 (i + 0) (bi + sub_block_size) t.tmp4 in
    let b5 = write n b4 (i + 1) (bi + sub_block_size) t.tmp5 in
    let b6 = write n b5 (i + 2) (bi + sub_block_size) t.tmp6 in
    write n b6 (i + 3) (bi + sub_block_size) t.tmp7

-- the lower left square of `A` comes to row `bj`, and what waited there to the row four below
unfoldable pub pass_on : ℕ → ℕ → Ints → ℕ → ℕ → Ints → Ints
pass_on m n a j bj b =
    let tmp0 = entry m a (j + 4) bj in
    let tmp1 = entry m a (j + 5) bj in
    let tmp2 = entry m a (j + 6) bj in
    let tmp3 = entry m a (j + 7) bj in
    let tmp4 = entry n b bj (j + 4) in
    let tmp5 = entry n b bj (j + 5) in
    let tmp6 = entry n b bj (j + 6) in
    let tmp7 = entry n b bj (j + 7) in
    let b0 = write n b bj (j + 4) tmp0 in
    let b1 = write n b0 bj (j + 5) tmp1 in
    let b2 = write n b1 bj (j + 6) tmp2 in
    let b3 = write n b2 bj (j + 7) tmp3 in
    let b4 = write n b3 (bj + sub_block_size) (j + 0) tmp4 in
    let b5 = write n b4 (bj + sub_block_size) (j + 1) tmp5 in
    let b6 = write n b5 (bj + sub_block_size) (j + 2) tmp6 in
    write n b6 (bj + sub_block_size) (j + 3) tmp7

unfoldable pub last_square : ℕ → ℕ → Ints → ℕ → ℕ → Ints → Ints
last_square m n a i bi b =
    let tmp4 = entry m a bi (i + 4) in
    let tmp5 = entry m a bi (i + 5) in
    let tmp6 = entry m a bi (i + 6) in
    let tmp7 = entry m a bi (i + 7) in
    let b0 = write n b (i + 4) bi tmp4 in
    let b1 = write n b0 (i + 5) bi tmp5 in
    let b2 = write n b1 (i + 6) bi tmp6 in write n b2 (i + 7) bi tmp7

-- a block that is not on the diagonal
unfoldable pub off_block : ℕ → ℕ → Ints → ℕ → ℕ → Ints → Ints
off_block m n a i j b =
    let b1 = for_loop j (j + sub_block_size) 1 (λ bi c. spread n c i bi (read_row m a bi i)) b in
    let b2 = for_loop i (i + sub_block_size) 1 (λ bj. pass_on m n a j bj) b1 in
    for_loop (j + sub_block_size) (j + block_size) 1 (λ bi. last_square m n a i bi) b2

unfoldable pub trans_64_64 : ℕ → ℕ → Ints → Ints → Ints
trans_64_64 m n a = for_loop 0 n block_size (λ i b.
    let c = diagonal m n a i (if i == 0 then block_size else 0) b in
    for_loop 0 m block_size (λ j d. if i == j then d else off_block m n a i j d) c)

-- `none` for `exit`
unfoldable pub transpose_submit : ℕ → ℕ → Ints → Ints → Option Ints
transpose_submit m n a b =
    if m == 32 && n == 32
    then some (trans_32_32_opt m n a b)
    else if m == 64 && n == 64
    then some (trans_64_64 m n a b)
    else if m == 61 && n == 67
    then some (trans_61_67 m n a b)
    else none
