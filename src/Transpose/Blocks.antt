-- ===== src/Transpose/Blocks.antt =====
-- The functions of trans.c that write each entry of `B` once, or again with the same value.
use cmu_15213_csapp3e_lab.Base.{
  ℕ, ◌+◌, ◌%◌, ◌<◌, ◌≤◌, ◌≡◌, inl, inr, Bool, true, Bool-cases, not, ◌&&◌, ◌||◌, ltb, leb, ◌==◌,
  arith,
}
use cmu_15213_csapp3e_lab.Transpose.Loops.{for_loop}
use cmu_15213_csapp3e_lab.Transpose.Turns.{
  Turned, at_place, in_box, in_block, loop-Turned, Turned-same, turn-Turned, row-Turned,
  column-Turned, turn_block-Turned,
}
use cmu_15213_csapp3e_lab.Transpose.{
  Ints, entry, turn, turn_block, read_row, read_column, write_row, write_column, trans, trans_naive,
  trans_32_32, block_61_67, trans_61_67,
}

module _ (m n : ℕ) (a : Ints) where
  -- Two loops over blocks of `h` entries of `w` rows each: where every block turns its entries within
  -- `rows`, both together turn `rows`.
  module _ (h w : ℕ) (rows : ℕ → ℕ → Bool) (ok_i ok_j : ℕ → Type 0) (body : ℕ → ℕ → Ints → Ints)
      (p : 0 < h) (q : 0 < w) (go_i : (k : ℕ) → k < n → ok_i k → ok_i (k + h))
      (go_j : (k : ℕ) → k < m → ok_j k → ok_j (k + w))
      (step : (i j : ℕ) (b : Ints)
        → i < n
        → j < m
        → ok_i i
        → ok_j j
        → Turned m n a (λ r c. rows r c && in_box j w i h r c) b (body i j b))
      (covered : (r c k : ℕ) → m ≤ k → ok_j k → rows r c ≡ true → r < k) (zero_i : ok_i 0)
      (zero_j : ok_j 0) where
    strip :
        (i : ℕ) (b : Ints)
        → i < n
        → ok_i i
        → Turned m n a (λ r c. rows r c && leb i c && ltb c (i + h)) b (for_loop 0 m w (body i) b)
    strip i b l o =
        let (k, x, (u, t)) =
          loop-Turned m n a (λ k r c. ltb r k && rows r c && leb i c && ltb c (i + h))
            (λ k r c. rows r c && in_box k w i h r c) ok_j m w (body i) q
            (λ k d y z. step i k d l y o z) go_j (λ k r c y z u. ground arith) 0 zero_j
            (λ r c u. ground arith) b in
        Turned-same m n a (λ r c. ltb r k && rows r c && leb i c && ltb c (i + h))
          (λ r c. rows r c && leb i c && ltb c (i + h)) b (for_loop 0 m w (body i) b) t
          (λ r c v. let f = covered r c k x u in ground arith)

    pub grid-Turned :
        (b : Ints) → Turned m n a rows b (for_loop 0 n h (λ i. for_loop 0 m w (body i)) b)
    grid-Turned b =
        let (k, x, (u, t)) =
          loop-Turned m n a (λ k r c. rows r c && ltb c k)
            (λ k r c. rows r c && leb k c && ltb c (k + h)) ok_i n h (λ i. for_loop 0 m w (body i))
            p strip_at go_i (λ k r c y z u. ground arith) 0 zero_i (λ r c u. ground arith) b in
        Turned-same m n a (λ r c. rows r c && ltb c k) rows b
          (for_loop 0 n h (λ i. for_loop 0 m w (body i)) b) t (λ r c v. ground arith)
      where
        strip_at :
            (k : ℕ) (c : Ints)
            → k < n
            → ok_i k
            → Turned m n a
                (λ r c. rows r c && leb k c && ltb c (k + h))
                c
                (for_loop 0 m w (body k) c)
        strip_at = strip

  -- The plain loops give the transpose of every matrix, and write nothing behind its end.
  pub trans_lem : (b : Ints) → Turned m n a (λ r c. ltb r m) b (trans m n a b)
  unfolding trans
  trans_lem =
      grid-Turned 1 1 (λ r c. ltb r m) (λ k. 0 ≤ k) (λ k. 0 ≤ k) (turn m n a) (omega arith)
        (omega arith) (λ k l o. omega arith) (λ k l o. omega arith)
        (λ i j b l g o z.
          Turned-same m n a (at_place j i) (λ r c. ltb r m && in_box j 1 i 1 r c) b
            (turn m n a i j b) (turn-Turned m n a i j b l) (λ r c u. ground arith))
        (λ r c k l o f. ground arith) (omega arith) (omega arith)

  -- The loops over the blocks of `trans_naive` do the same, also where the sizes are no multiples of 8.
  pub trans_naive_lem : (b : Ints) → Turned m n a (λ r c. ltb r m) b (trans_naive m n a b)
  unfolding trans_naive
  trans_naive_lem =
      grid-Turned 8 8 (λ r c. ltb r m) (λ k. 0 ≤ k) (λ k. 0 ≤ k) (turn_block m n a 8 8)
        (omega arith) (omega arith) (λ k l o. omega arith) (λ k l o. omega arith)
        (λ i j b l g o z.
          Turned-same m n a (in_block m n a 8 8 i j) (λ r c. ltb r m && in_box j 8 i 8 r c) b
            (turn_block m n a 8 8 i j b) (turn_block-Turned m n a 8 8 i j b (omega arith))
            (λ r c u. ground arith))
        (λ r c k l o f. ground arith) (omega arith) (omega arith)

  columns-Turned :
      (i j : ℕ) (b : Ints)
      → i + 8 ≤ n
      → Turned m n a
          (in_box j 8 i 8)
          b
          (for_loop i (i + 8) 1 (λ k b. write_column n b j k (read_row m a k j)) b)
  columns-Turned i j b l =
      let body : ℕ → Ints → Ints = λ k b. write_column n b j k (read_row m a k j) in
      let (k, x, (u, t)) =
        loop-Turned m n a (λ k r c. leb j r && ltb r (j + 8) && leb i c && ltb c k)
          (λ k. in_box j 8 k 1) (λ k. (i ≤ k) × (k ≤ i + 8)) (i + 8) 1 body (omega arith)
          (λ k d y z. column-Turned m n a k j d (omega arith)) (λ k y z. omega arith)
          (λ k r c y z u. ground arith) i (omega arith) (λ r c u. ground arith) b in
      Turned-same m n a (λ r c. leb j r && ltb r (j + 8) && leb i c && ltb c k) (in_box j 8 i 8) b
        (for_loop i (i + 8) 1 body b) t (λ r c u. ground arith)

  -- With eight local variables, for sizes that are multiples of 8.
  pub trans_32_32_lem :
      m % 8 ≡ 0 → n % 8 ≡ 0 → (b : Ints) → Turned m n a (λ r c. ltb r m) b (trans_32_32 m n a b)
  unfolding trans_32_32
  trans_32_32_lem f g =
      grid-Turned 8 8 (λ r c. ltb r m) (λ k. k % 8 ≡ 0) (λ k. k % 8 ≡ 0)
        (λ i j. for_loop i (i + 8) 1 (λ k b. write_column n b j k (read_row m a k j))) (omega arith)
        (omega arith) (λ k l o. omega arith) (λ k l o. omega arith)
        (λ i j b l l1 o o1.
          Turned-same m n a (in_box j 8 i 8) (λ r c. ltb r m && in_box j 8 i 8 r c) b
            (for_loop i (i + 8) 1 (λ k b. write_column n b j k (read_row m a k j)) b)
            (columns-Turned i j b (omega arith)) (λ r c u. ground arith))
        (λ r c k l o f. ground arith) (omega arith) (omega arith)

-- The rows of `B` and the entries in them that `trans_61_67` writes: with the guard as it is, eight rows behind its end too.
abbrev pub overrun : ℕ → ℕ → Bool
overrun r c = ltb r 61 || (ltb r 69 && ltb c 64)

module _ (a : Ints) where
  rows_61_67 :
      (i j : ℕ) (b : Ints)
      → i + 8 ≤ 67
      → Turned 61 67 a
          (in_box j 23 i 8)
          b
          (for_loop j (j + 23) 1 (λ bj b. write_row 67 b bj i (read_column 61 a i bj)) b)
  rows_61_67 i j b l =
      let body : ℕ → Ints → Ints = λ bj b. write_row 67 b bj i (read_column 61 a i bj) in
      let (k, x, (u, t)) =
        loop-Turned 61 67 a (λ k r c. leb j r && ltb r k && leb i c && ltb c (i + 8))
          (λ k. in_box k 1 i 8) (λ k. (j ≤ k) × (k ≤ j + 23)) (j + 23) 1 body (omega arith)
          (λ k d y z. row-Turned 61 67 a i k d l) (λ k y z. omega arith)
          (λ k r c y z u. ground arith) j (omega arith) (λ r c u. ground arith) b in
      Turned-same 61 67 a (λ r c. leb j r && ltb r k && leb i c && ltb c (i + 8)) (in_box j 23 i 8)
        b (for_loop j (j + 23) 1 body b) t (λ r c u. ground arith)

  block_61_67-Turned :
      (i j : ℕ) (b : Ints)
      → i < 67
      → j < 61
      → i % 8 ≡ 0
      → j % 23 ≡ 0
      → Turned 61 67 a (λ r c. overrun r c && in_box j 23 i 8 r c) b (block_61_67 61 67 a i j b)
  unfolding block_61_67 entry
  block_61_67-Turned i j b l m o z = elim (Bool-cases (leb (i + 8) 67 && not (j + 23 == 0))) [
    | inl e ↦
        rw (e, block_61_67)
          (Turned-same 61 67 a (in_box j 23 i 8) (λ r c. overrun r c && in_box j 23 i 8 r c) b
            (for_loop j (j + 23) 1 (λ bj b. write_row 67 b bj i (read_column 61 a i bj)) b)
            (rows_61_67 i j b (ground arith)) (λ r c u. ground arith))
    | inr e ↦
        rw (e, block_61_67)
          (Turned-same 61 67 a (in_block 61 67 a 8 23 i j)
            (λ r c. overrun r c && in_box j 23 i 8 r c) b (turn_block 61 67 a 8 23 i j b)
            (turn_block-Turned 61 67 a 8 23 i j b (omega arith)) (λ r c u. ground arith))
  ]

  -- `trans_61_67` gives the transpose of a 67 x 61 matrix. Behind the end of `B` it writes the first 64 entries of
  -- eight rows more.
  pub trans_61_67_lem : (b : Ints) → Turned 61 67 a overrun b (trans_61_67 61 67 a b)
  unfolding trans_61_67
  trans_61_67_lem =
      grid-Turned 61 67 a 8 23 overrun (λ k. k % 8 ≡ 0) (λ k. k % 23 ≡ 0) (block_61_67 61 67 a)
        (omega arith) (omega arith) (λ k l o. omega arith) (λ k l o. omega arith)
        (λ i j b l m o z. block_61_67-Turned i j b l m o z) (λ r c k l o f. ground arith)
        (omega arith) (omega arith)
