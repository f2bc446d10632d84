-- ===== src/Transpose/Large/Diagonal.antt =====
-- A block of `trans_64_64` on the diagonal, and the whole of the function.
use mathlib.Core.Path.{subst}
use cmu_15213_csapp3e_lab.Base.{
  ℕ, ◌+◌, ◌-◌, ◌<◌, ◌≤◌, ◌≡◌, refl, ◌∙◌, ◌⊎◌, Bool, true, false, ◌&&◌, ltb, leb, arith,
}
use cmu_15213_csapp3e_lab.Transpose.Turns.{in_box}
use cmu_15213_csapp3e_lab.Transpose.{Ints, entry}
use cmu_15213_csapp3e_lab.Transpose.Large.Half.{
  Half, Exchanged, Filled, copy_half-Half, exchange-Exchanged, fill_low-Filled,
}
use cmu_15213_csapp3e_lab.Transpose.Large.Pairs.{
  Paired, partner_row, partner_column, turn_low-Paired, turn_high-Paired,
}
use cmu_15213_csapp3e_lab.Transpose.Large.{
  copy_half, turn_low, turn_high, exchange, fill_low, diagonal,
}

-- Half a block copied, and then its two squares turned.
module _ (m n : ℕ) (a : Ints) (shift i j : ℕ) (fits : j + 8 ≤ n) (b c d : Ints)
    (copied : Half m n a shift i j fits (i + 4) b c)
    (turned : Paired n i j fits (in_box i 4 j 8) c d) where
  left_square :
      (x y : ℕ) → x < 4 → y < 4 → entry n d (i + x) (j + y) ≡ entry m a (i + y + shift) (i + x)
  left_square x y h l =
      let t : in_box i 4 j 8 (i + x) (j + y) ≡ true = ground arith in
      let p : partner_row n i j fits (i + x) (j + y) ≡ i + y = ground arith in
      let q : partner_column n i j fits (i + x) (j + y) ≡ j + x = ground arith in
      let v : (leb i (i + y) && ltb (i + y) (i + 4) && leb j (j + x) && ltb (j + x) (j + 8))
          ≡ true =
        ground arith in
      let w : i + (j + x - j) ≡ i + x = omega arith in
      rw (turned (i + x) (j + y) (omega arith), t, p, q, copied (i + y) (j + x) (omega arith), v, w)
        refl

  right_square :
      (x y : ℕ)
      → x < 4
      → y < 4
      → entry n d (i + x) (j + 4 + y) ≡ entry m a (i + y + shift) (i + 4 + x)
  right_square x y h l =
      let t : in_box i 4 j 8 (i + x) (j + 4 + y) ≡ true = ground arith in
      let p : partner_row n i j fits (i + x) (j + 4 + y) ≡ i + y = ground arith in
      let q : partner_column n i j fits (i + x) (j + 4 + y) ≡ j + 4 + x = ground arith in
      let v : (leb i (i + y) && ltb (i + y) (i + 4) && leb j (j + 4 + x) && ltb (j + 4 + x) (j + 8))
          ≡ true =
        ground arith in
      let w : i + (j + 4 + x - j) ≡ i + 4 + x = omega arith in
      rw
        (
          turned (i + x) (j + 4 + y) (omega arith),
          t,
          p,
          q,
          copied (i + y) (j + 4 + x) (omega arith),
          v,
          w,
        )
        refl

  off_squares : (r k : ℕ) → k < n → in_box i 4 j 8 r k ≡ false → entry n d r k ≡ entry n b r k
  off_squares r k u h = rw (turned r k u, h, copied r k u, h) refl

-- The block of `B` at row and column `i` is turned; the upper half of the block beside it, at column `j`, is
-- used as a place to keep ints, and the rest is as before.
module _ (m n : ℕ) (a : Ints) (i j : ℕ) (b : Ints) (fits_i : i + 8 ≤ n) (fits : j + 8 ≤ n)
    (apart : (i + 8 ≤ j) ⊎ (j + 8 ≤ i)) where
  abbrev b1 : Ints
  b1 = copy_half m n a 4 i j b

  abbrev b2 : Ints
  b2 = turn_low n i j b1

  abbrev b3 : Ints
  b3 = copy_half m n a 0 i i b2

  abbrev b4 : Ints
  b4 = turn_high n i b3

  abbrev b5 : Ints
  b5 = exchange n i j b4

  abbrev b6 : Ints
  b6 = fill_low n i j b5

  h1 : Half m n a 4 i j fits (i + 4) b b1
  h1 = copy_half-Half m n a 4 i j fits b

  h2 : Paired n i j fits (in_box i 4 j 8) b1 b2
  h2 = turn_low-Paired n i j fits b1

  h3 : Half m n a 0 i i fits_i (i + 4) b2 b3
  h3 = copy_half-Half m n a 0 i i fits_i b2

  h4 : Paired n i i fits_i (in_box i 4 i 8) b3 b4
  h4 = turn_high-Paired n i fits_i b3

  h5 : Exchanged n i j fits fits_i apart 4 b4 b5
  h5 = exchange-Exchanged n i j fits fits_i apart b4

  h6 : Filled n i j fits fits_i apart 4 b5 b6
  h6 = fill_low-Filled n i j fits fits_i apart b5

  -- the four squares of the block and what waits beside it, before the exchange
  upper_left :
      (x y : ℕ) → x < 4 → y < 4 → entry n b4 (i + x) (i + y) ≡ entry m a (i + y + 0) (i + x)
  upper_left = left_square m n a 0 i i fits_i b2 b3 b4 h3 h4

  upper_right :
      (x y : ℕ) → x < 4 → y < 4 → entry n b4 (i + x) (i + 4 + y) ≡ entry m a (i + y + 0) (i + 4 + x)
  upper_right = right_square m n a 0 i i fits_i b2 b3 b4 h3 h4

  beside_left :
      (x y : ℕ) → x < 4 → y < 4 → entry n b4 (i + x) (j + y) ≡ entry m a (i + y + 4) (i + x)
  beside_left x y h l =
      off_squares m n a 0 i i fits_i b2 b3 b4 h3 h4 (i + x) (j + y) (omega arith) (ground arith)
      ∙ left_square m n a 4 i j fits b b1 b2 h1 h2 x y h l

  beside_right :
      (x y : ℕ) → x < 4 → y < 4 → entry n b4 (i + x) (j + 4 + y) ≡ entry m a (i + y + 4) (i + 4 + x)
  beside_right x y h l =
      off_squares m n a 0 i i fits_i b2 b3 b4 h3 h4 (i + x) (j + 4 + y) (omega arith) (ground arith)
      ∙ right_square m n a 4 i j fits b b1 b2 h1 h2 x y h l

  outside :
      (r k : ℕ)
      → k < n
      → in_box i 4 i 8 r k ≡ false
      → in_box i 4 j 8 r k ≡ false
      → entry n b4 r k ≡ entry n b r k
  outside r k u g h =
      off_squares m n a 0 i i fits_i b2 b3 b4 h3 h4 r k u g
      ∙ off_squares m n a 4 i j fits b b1 b2 h1 h2 r k u h

  final_upper_left :
      (x y : ℕ) → x < 4 → y < 4 → entry n b6 (i + x) (i + y) ≡ entry m a (i + y) (i + x)
  final_upper_left x y h l =
      let u : i + y < n = omega arith in
      let f : (leb (i + 4) (i + x)
            && ltb (i + x) (i + 4 + 4)
            && leb i (i + y)
            && ltb (i + y) (i + 8))
          ≡ false =
        ground arith in
      let g : (leb i (i + x) && ltb (i + x) (i + 4) && leb (i + 4) (i + y) && ltb (i + y) (i + 8))
          ≡ false =
        ground arith in
      let o : (leb i (i + x) && ltb (i + x) (i + 4) && leb j (i + y) && ltb (i + y) (j + 4))
          ≡ false =
        ground arith in
      let z : i + y + 0 ≡ i + y = omega arith in
      rw (h6 (i + x) (i + y) u, f, h5 (i + x) (i + y) u, g, o, upper_left x y h l, z) refl

  final_upper_right :
      (x y : ℕ) → x < 4 → y < 4 → entry n b6 (i + x) (i + 4 + y) ≡ entry m a (i + 4 + y) (i + x)
  final_upper_right x y h l =
      let u : i + 4 + y < n = omega arith in
      let f : (leb (i + 4) (i + x)
            && ltb (i + x) (i + 4 + 4)
            && leb i (i + 4 + y)
            && ltb (i + 4 + y) (i + 8))
          ≡ false =
        ground arith in
      let g : (leb i (i + x)
            && ltb (i + x) (i + 4)
            && leb (i + 4) (i + 4 + y)
            && ltb (i + 4 + y) (i + 8))
          ≡ true =
        ground arith in
      let w : j + (i + 4 + y - (i + 4)) ≡ j + y = omega arith in
      let z : i + y + 4 ≡ i + 4 + y = omega arith in
      rw (h6 (i + x) (i + 4 + y) u, f, h5 (i + x) (i + 4 + y) u, g, w, beside_left x y h l, z) refl

  final_lower_left :
      (x y : ℕ) → x < 4 → y < 4 → entry n b6 (i + 4 + x) (i + y) ≡ entry m a (i + y) (i + 4 + x)
  final_lower_left x y h l =
      let u : j + y < n = omega arith in
      let f : (leb (i + 4) (i + 4 + x)
            && ltb (i + 4 + x) (i + 4 + 4)
            && leb i (i + y)
            && ltb (i + y) (i + 8))
          ≡ true =
        ground arith in
      let v : i + 4 + x - 4 ≡ i + x = omega arith in
      let w : j + (i + y - i) ≡ j + y = omega arith in
      let g : (leb i (i + x) && ltb (i + x) (i + 4) && leb (i + 4) (j + y) && ltb (j + y) (i + 8))
          ≡ false =
        ground arith in
      let o : (leb i (i + x) && ltb (i + x) (i + 4) && leb j (j + y) && ltb (j + y) (j + 4))
          ≡ true =
        ground arith in
      let t : i + 4 + (j + y - j) ≡ i + 4 + y = omega arith in
      let z : i + y + 0 ≡ i + y = omega arith in
      rw
        (
          h6 (i + 4 + x) (i + y) (omega arith),
          f,
          v,
          w,
          h5 (i + x) (j + y) u,
          g,
          o,
          t,
          upper_right x y h l,
          z,
        )
        refl

  final_lower_right :
      (x y : ℕ)
      → x < 4
      → y < 4
      → entry n b6 (i + 4 + x) (i + 4 + y) ≡ entry m a (i + 4 + y) (i + 4 + x)
  final_lower_right x y h l =
      let u : j + 4 + y < n = omega arith in
      let f : (leb (i + 4) (i + 4 + x)
            && ltb (i + 4 + x) (i + 4 + 4)
            && leb i (i + 4 + y)
            && ltb (i + 4 + y) (i + 8))
          ≡ true =
        ground arith in
      let v : i + 4 + x - 4 ≡ i + x = omega arith in
      let w : j + (i + 4 + y - i) ≡ j + 4 + y = omega arith in
      let g : (leb i (i + x)
            && ltb (i + x) (i + 4)
            && leb (i + 4) (j + 4 + y)
            && ltb (j + 4 + y) (i + 8))
          ≡ false =
        ground arith in
      let o : (leb i (i + x) && ltb (i + x) (i + 4) && leb j (j + 4 + y) && ltb (j + 4 + y) (j + 4))
          ≡ false =
        ground arith in
      let z : i + y + 4 ≡ i + 4 + y = omega arith in
      rw
        (
          h6 (i + 4 + x) (i + 4 + y) (omega arith),
          f,
          v,
          w,
          h5 (i + x) (j + 4 + y) u,
          g,
          o,
          beside_right x y h l,
          z,
        )
        refl

  -- The block is the one of the transpose.
  pub diagonal-inside :
      (r k : ℕ) → in_box i 8 i 8 r k ≡ true → entry n (diagonal m n a i j b) r k ≡ entry m a k r
  unfolding diagonal
  diagonal-inside r k h = at_square (ltb r (i + 4)) (ltb k (i + 4)) refl refl
    where
      place :
          (s t : ℕ)
          → entry n b6 s t ≡ entry m a t s
          → s ≡ r
          → t ≡ k
          → entry n b6 r k ≡ entry m a k r
      place s t e p q =
          subst (λ z. entry n b6 z k ≡ entry m a k z) p
            (subst (λ z. entry n b6 s z ≡ entry m a z s) q e)

      at_square :
          (p q : Bool) → ltb r (i + 4) ≡ p → ltb k (i + 4) ≡ q → entry n b6 r k ≡ entry m a k r
      at_square true true p q =
          place (i + (r - i)) (i + (k - i))
            (final_upper_left (r - i) (k - i) (ground arith) (ground arith)) (ground arith)
            (ground arith)
      at_square true false p q =
          place (i + (r - i)) (i + 4 + (k - (i + 4)))
            (final_upper_right (r - i) (k - (i + 4)) (ground arith) (ground arith)) (ground arith)
            (ground arith)
      at_square false true p q =
          place (i + 4 + (r - (i + 4))) (i + (k - i))
            (final_lower_left (r - (i + 4)) (k - i) (ground arith) (ground arith)) (ground arith)
            (ground arith)
      at_square false false p q =
          place (i + 4 + (r - (i + 4))) (i + 4 + (k - (i + 4)))
            (final_lower_right (r - (i + 4)) (k - (i + 4)) (ground arith) (ground arith))
            (ground arith) (ground arith)

  -- Outside of the block and of the place beside it nothing is changed.
  pub diagonal-outside :
      (r k : ℕ)
      → k < n
      → in_box i 8 i 8 r k ≡ false
      → in_box i 4 j 8 r k ≡ false
      → entry n (diagonal m n a i j b) r k ≡ entry n b r k
  unfolding diagonal
  diagonal-outside r k u g h =
      let f : (leb (i + 4) (r) && ltb (r) (i + 4 + 4) && leb i (k) && ltb (k) (i + 8)) ≡ false =
        ground arith in
      let x : (leb i (r) && ltb (r) (i + 4) && leb (i + 4) (k) && ltb (k) (i + 8)) ≡ false =
        ground arith in
      let y : (leb i (r) && ltb (r) (i + 4) && leb j (k) && ltb (k) (j + 4)) ≡ false =
        ground arith in
      rw (h6 r k u, f, h5 r k u, x, y) (outside r k u (ground arith) h)
