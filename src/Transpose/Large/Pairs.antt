-- ===== src/Transpose/Large/Pairs.antt =====
-- The transposition of two squares side by side, inside of `B`.
use mathlib.Core.Path.{subst}
use cmu_15213_csapp3e_lab.Base.{
  ℕ, ◌+◌, ◌-◌, ◌<◌, ◌≤◌, ◌≡◌, refl, ◌∙◌, Bool, true, false, Bool-cases, ◌⊎◌, inl, inr, not, ◌&&◌,
  ◌||◌, ltb, leb, ◌==◌, if◌then◌else◌, arith,
}
use cmu_15213_csapp3e_lab.Transpose.Loops.{for_loop}
use cmu_15213_csapp3e_lab.Transpose.Moves.{Moved, Moved-more, loop-Moved}
use cmu_15213_csapp3e_lab.Transpose.Cells.{entry-swap}
use cmu_15213_csapp3e_lab.Transpose.Turns.{in_box}
use cmu_15213_csapp3e_lab.Transpose.{Ints, swap}
use cmu_15213_csapp3e_lab.Transpose.Large.{swap_twice, turn_low, turn_high}

-- The squares have their first entries at `(i, j)` and `(i, j + 4)`.
module _ (n i j : ℕ) (fits : j + 8 ≤ n) where
  abbrev pub partner_row : ℕ → ℕ → ℕ
  partner_row r k = i + (if ltb k (j + 4) then k - j else k - (j + 4))

  abbrev pub partner_column : ℕ → ℕ → ℕ
  partner_column r k = (if ltb k (j + 4) then j + (r - i) else j + 4 + (r - i))

  abbrev pub Paired : (ℕ → ℕ → Bool) → Ints → Ints → Type 0
  Paired = Moved n partner_row partner_column

  abbrev pair : ℕ → ℕ → ℕ → ℕ → ℕ → Bool
  pair c x y r k = (r == i + x && k == c + y) || (r == i + y && k == c + x)

  pairs-Paired :
      (x y k1 k2 k3 k4 : ℕ) (b : Ints)
      → x < y
      → y < 4
      → (k1 ≡ j + y) × (k2 ≡ j + x) × (k3 ≡ j + 4 + y) × (k4 ≡ j + 4 + x)
      → Paired
          (λ r k. pair j x y r k || pair (j + 4) x y r k)
          b
          (swap n (i + x) k3 (i + y) k4 (swap n (i + x) k1 (i + y) k2 b))
  pairs-Paired x y k1 k2 k3 k4 b l h (e1, e2, e3, e4) =
      let c = swap n (i + x) k1 (i + y) k2 b in
      Moved-more n partner_row partner_column (pair j x y) (pair (j + 4) x y)
        (λ r k. pair j x y r k || pair (j + 4) x y r k) b c (swap n (i + x) k3 (i + y) k4 c)
        (λ r k u.
          entry-swap n b (i + x) k1 (i + y) k2 r k (omega arith) (omega arith) u ∙ grind arith)
        (λ r k u.
          entry-swap n c (i + x) k3 (i + y) k4 r k (omega arith) (omega arith) u ∙ grind arith)
        (λ r k u w. (ground arith, ground arith)) (λ r k u. ground arith)

  abbrev arm : ℕ → ℕ → ℕ → ℕ → ℕ → Bool
  arm c x y r k =
      (r == i + x && ltb (c + x) k && ltb k (c + y))
      || (k == c + x && ltb (i + x) r && ltb r (i + y))

  abbrev arms : ℕ → ℕ → ℕ → ℕ → Bool
  arms x y r k = arm j x y r k || arm (j + 4) x y r k

  arm-swap : (c x y r k : ℕ) → x < y → arm c x (y + 1) r k ≡ (pair c x y r k || arm c x y r k)
  arm-swap c x y r k l = ground arith

  arms-swap :
      (x y r k : ℕ)
      → x < y
      → arms x (y + 1) r k ≡ (pair j x y r k || pair (j + 4) x y r k || arms x y r k)
  arms-swap x y r k l =
      rw (arm-swap j x y r k l, arm-swap (j + 4) x y r k l)
        (four_tests (pair j x y r k) (arm j x y r k) (pair (j + 4) x y r k) (arm (j + 4) x y r k))
    where
      four_tests : (a b c d : Bool) → ((a || b) || (c || d)) ≡ (a || c || (b || d))
      four_tests a b c d = ground arith

  pair_partner :
      (x y r k : ℕ)
      → x < y
      → y < 4
      → (pair j x y r k || pair (j + 4) x y r k) ≡ true
      → ((partner_row r k ≡ i + y)
          × ((partner_column r k ≡ j + x) ⊎ (partner_column r k ≡ j + 4 + x)))
        ⊎ ((partner_row r k ≡ i + x)
            × ((partner_column r k ≡ j + y) ⊎ (partner_column r k ≡ j + 4 + y)))
  pair_partner x y r k l h e = ground arith

  arms_off :
      (x y r k : ℕ)
      → x < y
      → y < 4
      → ((r ≡ i + y) × ((k ≡ j + x) ⊎ (k ≡ j + 4 + x)))
        ⊎ ((r ≡ i + x) × ((k ≡ j + y) ⊎ (k ≡ j + 4 + y)))
      → arms x y r k ≡ false
  arms_off x y r k l h e = ground arith

  arms_apart :
      (x y r k : ℕ)
      → x < y
      → y < 4
      → (pair j x y r k || pair (j + 4) x y r k) ≡ true
      → arms x y (partner_row r k) (partner_column r k) ≡ false
  arms_apart x y r k l h e =
      arms_off x y (partner_row r k) (partner_column r k) l h (pair_partner x y r k l h e)

  -- One row and the column that it changes places with, in both squares.
  row-Paired :
      (x off start end : ℕ) (body : ℕ → Ints → Ints) (b : Ints)
      → x < 4
      → start ≡ off + x + 1
      → end ≡ off + 4
      → ((y : ℕ) (c : Ints)
          → x < y
          → y < 4
          → Paired (λ r k. pair j x y r k || pair (j + 4) x y r k) c (body (off + y) c))
      → Paired (arms x 4) b (for_loop start end 1 body b)
  row-Paired x off start end body b l e1 e2 f =
      let (t, u, (o, h)) =
        loop-Moved n partner_row partner_column (λ t. arms x (t - off))
          (λ t r k. pair j x (t - off) r k || pair (j + 4) x (t - off) r k)
          (λ t. (off + x < t) × (t ≤ off + 4)) end body
          (λ t c v o.
            let w : off + (t - off) ≡ t = omega arith in
            subst
              (λ z.
                Paired (λ r k. pair j x (t - off) r k || pair (j + 4) x (t - off) r k) c (body z c))
              w (f (t - off) c (omega arith) (omega arith)))
          (λ t v o. omega arith)
          (λ t r k v o w e.
            (ground arith, arms_apart x (t - off) r k (omega arith) (omega arith) e))
          (λ t r k v o w.
            let z : t + 1 - off ≡ t - off + 1 = omega arith in
            rw (z) (arms-swap x (t - off) r k (omega arith)))
          start (omega arith) (λ r k w. ground arith) b in
      let z : t - off ≡ 4 = omega arith in
      subst (λ z. Paired (arms x z) b (for_loop start end 1 body b)) z h

  -- the pairs of a square with a place before `t`
  abbrev square : ℕ → ℕ → ℕ → ℕ → Bool
  square c t r k =
      leb i r
      && ltb r (i + 4)
      && leb c k
      && ltb k (c + 4)
      && not (r + c == k + i)
      && (ltb r (i + t) || ltb k (c + t))

  abbrev squares : ℕ → ℕ → ℕ → Bool
  squares t r k = square j t r k || square (j + 4) t r k

  square-arm : (c x r k : ℕ) → x < 4 → square c (x + 1) r k ≡ (arm c x 4 r k || square c x r k)
  square-arm c x r k l = ground arith

  arms_partner :
      (x r k : ℕ)
      → x < 4
      → arms x 4 r k ≡ true
      → (i + x ≤ partner_row r k)
        × (((j + x ≤ partner_column r k) × (partner_column r k < j + 4))
            ⊎ ((j + 4 + x ≤ partner_column r k) × (partner_column r k < j + 8)))
  arms_partner x r k l e = ground arith

  squares_off :
      (x r k : ℕ)
      → (i + x ≤ r) × (((j + x ≤ k) × (k < j + 4)) ⊎ ((j + 4 + x ≤ k) × (k < j + 8)))
      → squares x r k ≡ false
  squares_off x r k e = ground arith

  squares-arms : (x r k : ℕ) → x < 4 → squares (x + 1) r k ≡ (arms x 4 r k || squares x r k)
  squares-arms x r k l =
      rw (square-arm j x r k l, square-arm (j + 4) x r k l)
        (four_tests (arm j x 4 r k) (square j x r k) (arm (j + 4) x 4 r k) (square (j + 4) x r k))
    where
      four_tests : (a b c d : Bool) → ((a || b) || (c || d)) ≡ ((a || c) || (b || d))
      four_tests a b c d = ground arith

  squares_in : (r k : ℕ) → squares 4 r k ≡ true → in_box i 4 j 8 r k ≡ true
  squares_in r k e = ground arith

  on_diagonal :
      (r k : ℕ)
      → squares 4 r k ≡ false
      → in_box i 4 j 8 r k ≡ true
      → (partner_row r k ≡ r) × (partner_column r k ≡ k)
  on_diagonal r k e h = ground arith

  whole : (b c : Ints) → Paired (squares 4) b c → Paired (in_box i 4 j 8) b c
  whole b c f r k u = elim (Bool-cases (squares 4 r k)) [
    | inl e ↦ let g = squares_in r k e in f r k u ∙ rw (e, g) refl
    | inr e ↦ elim (Bool-cases (in_box i 4 j 8 r k)) [
      | inr g ↦ f r k u ∙ rw (e, g) refl
      | inl g ↦ let (x, y) = on_diagonal r k e g in f r k u ∙ rw (e, g, x, y) refl
    ]
  ]

  -- The two loops over `x` and `y` turn both squares, and change nothing else.
  pub loops-Paired :
      (off end : ℕ) (body : ℕ → ℕ → Ints → Ints) (b : Ints)
      → end ≡ off + 4
      → ((x y : ℕ) (c : Ints)
          → x < y
          → y < 4
          → Paired (λ r k. pair j x y r k || pair (j + 4) x y r k) c (body (off + x) (off + y) c))
      → Paired (in_box i 4 j 8) b (for_loop off end 1 (λ s. for_loop (s + 1) end 1 (body s)) b)
  loops-Paired off end body b e f =
      let rows : ℕ → Ints → Ints = λ s. for_loop (s + 1) end 1 (body s) in
      let (t, u, (o, h)) =
        loop-Moved n partner_row partner_column (λ t. squares (t - off)) (λ t. arms (t - off) 4)
          (λ t. (off ≤ t) × (t ≤ off + 4)) end rows
          (λ t c v o.
            let w : off + (t - off) ≡ t = omega arith in
            subst (λ z. Paired (arms (t - off) 4) c (rows z c)) w
              (row-Paired (t - off) off (off + (t - off) + 1) end (body (off + (t - off))) c
                (omega arith) refl e (λ y d x z. f (t - off) y d x z)))
          (λ t v o. omega arith)
          (λ t r k v o w g. (
            ground arith,
            squares_off (t - off) (partner_row r k) (partner_column r k)
                (arms_partner (t - off) r k (omega arith) g),
          ))
          (λ t r k v o w.
            let z : t + 1 - off ≡ t - off + 1 = omega arith in
            rw (z) (squares-arms (t - off) r k (omega arith)))
          off (omega arith) (λ r k w. ground arith) b in
      let z : t - off ≡ 4 = omega arith in
      whole b (for_loop off end 1 rows b)
        (subst (λ z. Paired (squares z) b (for_loop off end 1 rows b)) z h)

  pub turn_low-Paired : (b : Ints) → Paired (in_box i 4 j 8) b (turn_low n i j b)
  unfolding turn_low swap_twice
  turn_low-Paired b =
      loops-Paired 0 4 (λ bi bj. swap_twice n i j bi bj) b refl
        (λ x y c l h.
          let z : 0 + x ≡ x = omega arith in
          let w : 0 + y ≡ y = omega arith in
          rw (z, w)
            (pairs-Paired x y (j + y) (j + x) (j + y + 4) (j + x + 4) c l h
              (refl, refl, omega arith, omega arith)))

-- The loops with absolute numbers do the same for the squares at `(i, i)` and `(i, i + 4)`.
pub turn_high-Paired :
    (n i : ℕ) (h : i + 8 ≤ n) (b : Ints) → Paired n i i h (in_box i 4 i 8) b (turn_high n i b)
unfolding turn_high
turn_high-Paired n i h b =
    loops-Paired n i i h i (i + 4)
      (λ bi bj b. swap n bi (bj + 4) bj (bi + 4) (swap n bi bj bj bi b)) b refl
      (λ x y c l u.
        pairs-Paired n i i h x y (i + y) (i + x) (i + y + 4) (i + x + 4) c l u
          (refl, refl, omega arith, omega arith))
