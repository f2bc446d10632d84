-- ===== src/Transpose/Square.antt =====
-- `trans_32_32_opt`: copy a block by rows, and transpose it inside of `B`.
use mathlib.Core.Path.{subst}
use cmu_15213_csapp3e_lab.Base.{
  ℕ, suc, ◌+◌, ◌-◌, ◌%◌, ◌<◌, ◌≤◌, ◌≡◌, ◌∙◌, ◌&&◌, ltb, if◌then◌else◌, arith,
}
use cmu_15213_csapp3e_lab.Transpose.Loops.{for_loop, for_loop_rule}
use cmu_15213_csapp3e_lab.Transpose.Cells.{nth-read_row, entry-write_row}
use cmu_15213_csapp3e_lab.Transpose.Turns.{Turned, in_box, Turned-same}
use cmu_15213_csapp3e_lab.Transpose.Inside.{turn_inside-Mirrored}
use cmu_15213_csapp3e_lab.Transpose.Blocks.{grid-Turned}
use cmu_15213_csapp3e_lab.Transpose.{
  Ints, entry, read_row, write_row, copy_block, turn_inside, trans_32_32_opt,
}

module _ (m n : ℕ) (a : Ints) (i j : ℕ) where
  -- The first `h` rows of the block are those of the block of `a`.
  abbrev Copied : ℕ → Ints → Ints → Type 0
  Copied h b c =
      (r k : ℕ)
      → k < n
      → entry n c r k
        ≡ (if in_box j h i 8 r k then entry m a (i + (r - j)) (j + (k - i)) else entry n b r k)

  copy_row :
      (h : ℕ) (b c : Ints)
      → i + 8 ≤ n
      → Copied h b c
      → Copied (suc h) b (write_row n c (j + h) i (read_row m a (i + h) j))
  copy_row h b c l f r k u =
      entry-write_row n c (j + h) i (read_row m a (i + h) j) r k l u
      ∙ (let g = nth-read_row m a (i + h) j (k - i) in let e = f r k u in grind arith)

  copy_block-Copied : (b : Ints) → i + 8 ≤ n → Copied 8 b (copy_block m n a i j b)
  unfolding copy_block
  copy_block-Copied b l =
      let body : ℕ → ℕ × Ints → ℕ × Ints =
        λ bi (s : ℕ × Ints). (s.0 + 1, write_row n s.1 s.0 i (read_row m a bi j)) in
      let (k, x, (h, (u, (v, (w, f))))) =
        for_loop_rule (i + 8) 1 body (omega arith)
          (λ k s. (h : ℕ) × ((k ≡ i + h) × ((s.0 ≡ j + h) × ((h ≤ 8) × Copied h b s.1))))
          (λ k s y (h, (u, (v, (w, f)))).
            (suc h, (omega arith, (omega arith, (omega arith, rw (v, u) (copy_row h b s.1 l f))))))
          i (j, b) (0, (omega arith, (omega arith, (omega arith, (λ r k u. ground arith))))) in
      let e : h ≡ 8 = omega arith in
      subst (λ g. Copied g b (for_loop i (i + 8) 1 body (j, b)).1) e f

block_32_32-Turned :
    (m n : ℕ) (a : Ints) (i j : ℕ) (b : Ints)
    → i + 8 ≤ n
    → Turned m n a (in_box j 8 i 8) b (turn_inside n 8 j i (copy_block m n a i j b))
block_32_32-Turned m n a i j b l r k u =
    let c = copy_block m n a i j b in
    let f = turn_inside-Mirrored n j i 8 l c r k u in
    let g = copy_block-Copied m n a i j b l r k u in
    let h = copy_block-Copied m n a i j b l (j + (k - i)) (i + (r - j)) in f ∙ grind arith

-- The transpose, for sizes that are multiples of 8.
pub trans_32_32_opt_lem :
    (m n : ℕ) (a b : Ints)
    → m % 8 ≡ 0
    → n % 8 ≡ 0
    → Turned m n a (λ r c. ltb r m) b (trans_32_32_opt m n a b)
unfolding trans_32_32_opt
trans_32_32_opt_lem m n a b f g =
    grid-Turned m n a 8 8 (λ r c. ltb r m) (λ k. k % 8 ≡ 0) (λ k. k % 8 ≡ 0)
      (λ i j b. turn_inside n 8 j i (copy_block m n a i j b)) (omega arith) (omega arith)
      (λ k l o. omega arith) (λ k l o. omega arith)
      (λ i j b l l1 o o1.
        Turned-same m n a (in_box j 8 i 8) (λ r c. ltb r m && in_box j 8 i 8 r c) b
          (turn_inside n 8 j i (copy_block m n a i j b))
          (block_32_32-Turned m n a i j b (omega arith)) (λ r c u. ground arith))
      (λ r c k l o f. ground arith) (omega arith) (omega arith) b
