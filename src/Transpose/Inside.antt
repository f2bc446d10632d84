-- ===== src/Transpose/Inside.antt =====
-- The transposition of a square inside of `B`.
use cmu_15213_csapp3e_lab.Base.{
  ℕ, ◌+◌, ◌-◌, ◌<◌, ◌≤◌, ◌≡◌, ◌∙◌, Bool, true, false, not, ◌&&◌, ◌||◌, ltb, ◌==◌, arith,
}
use cmu_15213_csapp3e_lab.Transpose.Loops.{for_loop}
use cmu_15213_csapp3e_lab.Transpose.Moves.{Moved, Moved-same, loop-Moved}
use cmu_15213_csapp3e_lab.Transpose.Cells.{entry-swap}
use cmu_15213_csapp3e_lab.Transpose.Turns.{in_box}
use cmu_15213_csapp3e_lab.Transpose.{Ints, swap, turn_inside}

-- The rows have `n` ints, and the square has its first entry at `(j, i)`.
module _ (n j i : ℕ) where
  -- The entries in `part` come from the other side of the diagonal.
  abbrev pub Mirrored : (ℕ → ℕ → Bool) → Ints → Ints → Type 0
  Mirrored = Moved n (λ r k. j + (k - i)) (λ r k. i + (r - j))

  abbrev pair : ℕ → ℕ → ℕ → ℕ → Bool
  pair x y r k = (r == x + j && k == y + i) || (r == y + j && k == x + i)

  swap-Mirrored :
      (x y : ℕ) (b : Ints)
      → x + i < n
      → y + i < n
      → Mirrored (pair x y) b (swap n (x + j) (y + i) (y + j) (x + i) b)
  swap-Mirrored x y b l m r k u =
      entry-swap n b (x + j) (y + i) (y + j) (x + i) r k m l u ∙ grind arith

  -- the entries of row `x` and of column `x` behind the diagonal, up to `y`
  abbrev arms : ℕ → ℕ → ℕ → ℕ → Bool
  arms x y r k =
      (r == x + j && ltb (x + i) k && ltb k (y + i))
      || (k == x + i && ltb (x + j) r && ltb r (y + j))

  module _ (size : ℕ) (fits : i + size ≤ n) where
    arms-Mirrored :
        (x : ℕ) (b : Ints)
        → x < size
        → Mirrored
            (arms x size)
            b
            (for_loop (x + 1) size 1 (λ y. swap n (x + j) (y + i) (y + j) (x + i)) b)
    arms-Mirrored x b l =
        let body : ℕ → Ints → Ints = λ y. swap n (x + j) (y + i) (y + j) (x + i) in
        let (t, u, (o, h)) =
          loop-Moved n (λ r k. j + (k - i)) (λ r k. i + (r - j)) (arms x) (pair x)
            (λ y. (x < y) × (y ≤ size)) size body
            (λ y c v o. swap-Mirrored x y c (omega arith) (omega arith)) (λ y v o. omega arith)
            (λ y r k v o w e. ground arith) (λ y r k v o w. ground arith) (x + 1) (omega arith)
            (λ r k w. ground arith) b in
        Moved-same n (λ r k. j + (k - i)) (λ r k. i + (r - j)) (arms x t) (arms x size) b
          (for_loop (x + 1) size 1 body b) h (λ r k v. ground arith)

    -- all pairs but those with a place at or behind `t` in both
    abbrev squares : ℕ → ℕ → ℕ → Bool
    squares t r k =
        in_box j size i size r k && not (r + i == k + j) && (ltb r (t + j) || ltb k (t + i))

    squares_behind : (x r k : ℕ) → x + j ≤ r → x + i ≤ k → squares x r k ≡ false
    squares_behind x r k g h =
        let a : ltb r (x + j) ≡ false = ground arith in
        let b : ltb k (x + i) ≡ false = ground arith in
        last (in_box j size i size r k) (not (r + i == k + j)) (ltb r (x + j)) (ltb k (x + i)) a b
      where
        last : (s t u v : Bool) → u ≡ false → v ≡ false → (s && t && (u || v)) ≡ false
        last s t u v g h = ground arith

    arms_behind :
        (x r k : ℕ)
        → x < size
        → arms x size r k ≡ true
        → (x + j ≤ j + (k - i)) × (x + i ≤ i + (r - j)) × (i + (r - j) < n)
    arms_behind x r k l e = ground arith

    squares_step : (x r k : ℕ) → x < size → squares (x + 1) r k ≡ (arms x size r k || squares x r k)
    squares_step x r k l = ground arith

    off_diagonal :
        (b : Ints)
        → Mirrored
            (λ r k. in_box j size i size r k && not (r + i == k + j))
            b
            (turn_inside n size j i b)
    unfolding turn_inside
    off_diagonal b =
        let body : ℕ → Ints → Ints =
          λ x. for_loop (x + 1) size 1 (λ y. swap n (x + j) (y + i) (y + j) (x + i)) in
        let (t, u, (o, h)) =
          loop-Moved n (λ r k. j + (k - i)) (λ r k. i + (r - j)) squares (λ x. arms x size)
            (λ x. x ≤ size) size body (λ x c v o. arms-Mirrored x c v) (λ x v o. omega arith)
            (λ x r k v o w e.
              let (f, g, l) = arms_behind x r k v e in
              (l, squares_behind x (j + (k - i)) (i + (r - j)) f g))
            (λ x r k v o w. squares_step x r k v) 0 (omega arith) (λ r k w. ground arith) b in
        Moved-same n (λ r k. j + (k - i)) (λ r k. i + (r - j)) (squares t)
          (λ r k. in_box j size i size r k && not (r + i == k + j)) b (for_loop 0 size 1 body b) h
          (λ r k v. ground arith)

    -- The square is transposed, and nothing else is changed.
    pub turn_inside-Mirrored :
        (b : Ints) → Mirrored (in_box j size i size) b (turn_inside n size j i b)
    turn_inside-Mirrored b r k l = let f = off_diagonal b r k l in grind arith
