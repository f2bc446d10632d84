-- ===== src/Transpose.antt =====
-- The transpose functions of trans.c. `A` and `B` are arrays of ints apart from each other in memory, each with its rows one
-- behind the other, so an index past the end of a row is in the next one.
pub mod Loops
pub mod Cells
pub mod Turns
pub mod Blocks
pub mod Moves
pub mod Inside
pub mod Square
pub mod Large
pub mod Check
mod Tests
use cmu_15213_csapp3e_lab.Base.{
  ℕ, zero, suc, ◌+◌, ◌*◌, Bool, true, false, ◌&&◌, Option, none, some, ltb, leb, not, ◌==◌,
  if◌then◌else◌,
}
use cmu_15213_csapp3e_lab.Transpose.Loops.{for_loop, all_from}

abbrev pub Ints : Type 0
Ints = ℕ → ℕ

-- `b[i][j]` with rows of `n` ints
unfoldable pub entry : ℕ → Ints → ℕ → ℕ → ℕ
entry n b i j = b (i * n + j)

unfoldable pub write : ℕ → Ints → ℕ → ℕ → ℕ → Ints
write n b i j v = λ q. if q == i * n + j then v else b q

abbrev pub block_size : ℕ
block_size = 8

abbrev pub sub_block_size : ℕ
sub_block_size = 4

abbrev pub min : ℕ → ℕ → ℕ
min a b = if ltb a b then a else b

-- the eight local variables
pub record Tmps : Type 0 where
  pub tmp0 : ℕ
  pub tmp1 : ℕ
  pub tmp2 : ℕ
  pub tmp3 : ℕ
  pub tmp4 : ℕ
  pub tmp5 : ℕ
  pub tmp6 : ℕ
  pub tmp7 : ℕ

unfoldable pub read_row : ℕ → Ints → ℕ → ℕ → Tmps
read_row m a i j = record {
  tmp0 = entry m a i (j + 0);
  tmp1 = entry m a i (j + 1);
  tmp2 = entry m a i (j + 2);
  tmp3 = entry m a i (j + 3);
  tmp4 = entry m a i (j + 4);
  tmp5 = entry m a i (j + 5);
  tmp6 = entry m a i (j + 6);
  tmp7 = entry m a i (j + 7);
}

-- `A[i + 0][j]` to `A[i + 7][j]`
unfoldable pub read_column : ℕ → Ints → ℕ → ℕ → Tmps
read_column m a i j = record {
  tmp0 = entry m a (i + 0) j;
  tmp1 = entry m a (i + 1) j;
  tmp2 = entry m a (i + 2) j;
  tmp3 = entry m a (i + 3) j;
  tmp4 = entry m a (i + 4) j;
  tmp5 = entry m a (i + 5) j;
  tmp6 = entry m a (i + 6) j;
  tmp7 = entry m a (i + 7) j;
}

unfoldable pub write_row : ℕ → Ints → ℕ → ℕ → Tmps → Ints
write_row n b i j t =
    let b0 = write n b i (j + 0) t.tmp0 in
    let b1 = write n b0 i (j + 1) t.tmp1 in
    let b2 = write n b1 i (j + 2) t.tmp2 in
    let b3 = write n b2 i (j + 3) t.tmp3 in
    let b4 = write n b3 i (j + 4) t.tmp4 in
    let b5 = write n b4 i (j + 5) t.tmp5 in
    let b6 = write n b5 i (j + 6) t.tmp6 in write n b6 i (j + 7) t.tmp7

unfoldable pub write_column : ℕ → Ints → ℕ → ℕ → Tmps → Ints
write_column n b i j t =
    let b0 = write n b (i + 0) j t.tmp0 in
    let b1 = write n b0 (i + 1) j t.tmp1 in
    let b2 = write n b1 (i + 2) j t.tmp2 in
    let b3 = write n b2 (i + 3) j t.tmp3 in
    let b4 = write n b3 (i + 4) j t.tmp4 in
    let b5 = write n b4 (i + 5) j t.tmp5 in
    let b6 = write n b5 (i + 6) j t.tmp6 in write n b6 (i + 7) j t.tmp7

-- one entry, from its row to its column
abbrev pub turn : ℕ → ℕ → Ints → ℕ → ℕ → Ints → Ints
turn m n a i j b = write n b j i (entry m a i j)

unfoldable pub trans : ℕ → ℕ → Ints → Ints → Ints
trans m n a = for_loop 0 n 1 (λ i. for_loop 0 m 1 (λ j. turn m n a i j))

-- the block at `(i, j)`, of at most `h` rows and `w` columns, cut off at the ends of the matrix
unfoldable pub turn_block : ℕ → ℕ → Ints → ℕ → ℕ → ℕ → ℕ → Ints → Ints
turn_block m n a h w i j =
    for_loop i (min (i + h) n) 1 (λ bi. for_loop j (min (j + w) m) 1 (λ bj. turn m n a bi bj))

unfoldable pub trans_naive : ℕ → ℕ → Ints → Ints → Ints
trans_naive m n a =
    for_loop 0 n block_size
      (λ i. for_loop 0 m block_size (λ j. turn_block m n a block_size block_size i j))

unfoldable pub trans_32_32 : ℕ → ℕ → Ints → Ints → Ints
trans_32_32 m n a = for_loop 0 n block_size (λ i.
    for_loop 0 m block_size
      (λ j. for_loop i (i + block_size) 1 (λ k b. write_column n b j k (read_row m a k j))))

-- `B[i1][j1]` and `B[i2][j2]` change places.
unfoldable pub swap : ℕ → ℕ → ℕ → ℕ → ℕ → Ints → Ints
swap n i1 j1 i2 j2 b =
    let tmp0 = entry n b i1 j1 in let c = write n b i1 j1 (entry n b i2 j2) in write n c i2 j2 tmp0

-- the loop with the two counters `bi` and `bj`
unfoldable pub copy_block : ℕ → ℕ → Ints → ℕ → ℕ → Ints → Ints
copy_block m n a i j b =
    (for_loop i (i + block_size) 1
      (λ bi (s : ℕ × Ints). (s.0 + 1, write_row n s.1 s.0 i (read_row m a bi j))) (j, b)).1

-- the transposition inside of `B`, of the block with its first entry at `(j, i)`
unfoldable pub turn_inside : ℕ → ℕ → ℕ → ℕ → Ints → Ints
turn_inside n size j i =
    for_loop 0 size 1
      (λ bi. for_loop (bi + 1) size 1 (λ bj. swap n (bi + j) (bj + i) (bj + j) (bi + i)))

unfoldable pub trans_32_32_opt : ℕ → ℕ → Ints → Ints → Ints
trans_32_32_opt m n a =
    for_loop 0 n block_size
      (λ i. for_loop 0 m block_size (λ j b. turn_inside n block_size j i (copy_block m n a i j b)))

abbrev pub b_col_num : ℕ
b_col_num = 23

abbrev pub b_row_num : ℕ
b_row_num = 8

-- the block at `(i, j)`: the guard tests `j + B_COL_NUM` for being other than 0
unfoldable pub block_61_67 : ℕ → ℕ → Ints → ℕ → ℕ → Ints → Ints
block_61_67 m n a i j =
    if leb (i + b_row_num) n && not (j + b_col_num == 0)
    then for_loop j (j + b_col_num) 1 (λ bj b. write_row n b bj i (read_column m a i bj))
    else turn_block m n a b_row_num b_col_num i j

unfoldable pub trans_61_67 : ℕ → ℕ → Ints → Ints → Ints
trans_61_67 m n a =
    for_loop 0 n b_row_num (λ i. for_loop 0 m b_col_num (λ j. block_61_67 m n a i j))

unfoldable pub is_transpose : ℕ → ℕ → Ints → Ints → Bool
is_transpose m n a b = all_from n 0 (λ i. all_from m 0 (λ j. entry m a i j == entry n b j i))
