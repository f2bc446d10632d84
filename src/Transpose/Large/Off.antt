-- ===== src/Transpose/Large/Off.antt =====
-- A block of `trans_64_64` that is not on the diagonal.
use cmu_15213_csapp3e_lab.Base.{
  ℕ, ◌+◌, ◌-◌, ◌<◌, ◌≤◌, ◌≡◌, refl, ap, ◌∙◌, Bool, true, false, Bool-cases, inl, inr, ◌&&◌, ltb,
  leb, ◌==◌, if◌then◌else◌, arith,
}
use cmu_15213_csapp3e_lab.Transpose.Loops.{for_loop}
use cmu_15213_csapp3e_lab.Transpose.Turns.{Turned, in_box}
use cmu_15213_csapp3e_lab.Transpose.{Ints, entry, read_row}
use cmu_15213_csapp3e_lab.Transpose.Large.Fours.{four_at, loop4, merge, entry-row4, entry-column4}
use cmu_15213_csapp3e_lab.Transpose.Large.{spread, pass_on, last_square, off_block}

module _ (m n : ℕ) (a : Ints) (i j : ℕ) where
  -- the left square turned, and the right one beside it, up to column `t`
  abbrev Spread : ℕ → Ints → Ints → Type 0
  Spread t b c =
      (r k : ℕ)
      → k < n
      → entry n c r k ≡ (
          if leb i r && ltb r (i + 4) && leb j k && ltb k t
          then entry m a k r
          else if leb i r && ltb r (i + 4) && leb (j + 4) k && ltb k (t + 4)
          then entry m a (k - 4) (r + 4)
          else entry n b r k)

  spread-Spread :
      (t : ℕ) (b c : Ints)
      → j ≤ t
      → t < j + 4
      → j + 8 ≤ n
      → Spread t b c
      → Spread (t + 1) b (spread n c i t (read_row m a t i))
  unfolding spread read_row
  spread-Spread t b c l h g f r k u =
      rw
        (
          entry-column4 n _ i (t + 4) (i + 0) (i + 1) (i + 2) (i + 3) (entry m a t (i + 4))
              (entry m a t (i + 5)) (entry m a t (i + 6)) (entry m a t (i + 7)) r k
              (omega arith, omega arith, omega arith, omega arith) (omega arith) u,
          entry-column4 n c i t (i + 0) (i + 1) (i + 2) (i + 3) (entry m a t (i + 0))
              (entry m a t (i + 1)) (entry m a t (i + 2)) (entry m a t (i + 3)) r k
              (omega arith, omega arith, omega arith, omega arith) (omega arith) u,
          f r k u,
        )
        (merge (k == t + 4 && leb i r && ltb r (i + 4)) (k == t && leb i r && ltb r (i + 4))
          (leb i r && ltb r (i + 4) && leb j k && ltb k t)
          (leb i r && ltb r (i + 4) && leb (j + 4) k && ltb k (t + 4))
          (leb i r && ltb r (i + 4) && leb j k && ltb k (t + 1))
          (leb i r && ltb r (i + 4) && leb (j + 4) k && ltb k (t + 1 + 4)) _ _ (entry m a k r)
          (entry m a (k - 4) (r + 4)) (entry n b r k)
          (λ e. (
            ground arith,
            ground arith,
            four_at (entry m a t) (i + 4) (i + 4) (i + 5) (i + 6) (i + 7) (r - i) (r + 4)
                  (omega arith, omega arith, omega arith, omega arith) (ground arith) (ground arith)
                ∙ (let w : t ≡ k - 4 = ground arith in ap (λ z. entry m a z (r + 4)) w),
          ))
          (λ d e. (
            ground arith,
            four_at (entry m a t) i (i + 0) (i + 1) (i + 2) (i + 3) (r - i) r
                  (omega arith, omega arith, omega arith, omega arith) (ground arith) (ground arith)
                ∙ (let w : t ≡ k = ground arith in ap (λ z. entry m a z r) w),
          ))
          (λ d e. (ground arith, ground arith)))

  -- the right square of the turned half moved down, in the rows up to `t`, and the lower one turned into its place
  abbrev Passed : ℕ → Ints → Ints → Type 0
  Passed t b c =
      (r k : ℕ)
      → k < n
      → entry n c r k ≡ (
          if leb i r && ltb r t && leb (j + 4) k && ltb k (j + 8)
          then entry m a k r
          else if leb (i + 4) r && ltb r (t + 4) && leb j k && ltb k (j + 4)
          then entry n b (r - 4) (k + 4)
          else entry n b r k)

  pass_on-Passed :
      (t : ℕ) (b c : Ints)
      → i ≤ t
      → t < i + 4
      → j + 8 ≤ n
      → Passed t b c
      → Passed (t + 1) b (pass_on m n a j t c)
  unfolding pass_on
  pass_on-Passed t b c l h g f r k u =
      rw
        (
          entry-row4 n _ (t + 4) j (j + 0) (j + 1) (j + 2) (j + 3) (entry n c t (j + 4))
              (entry n c t (j + 5)) (entry n c t (j + 6)) (entry n c t (j + 7)) r k
              (omega arith, omega arith, omega arith, omega arith) (omega arith) u,
          entry-row4 n c t (j + 4) (j + 4) (j + 5) (j + 6) (j + 7) (entry m a (j + 4) t)
              (entry m a (j + 5) t) (entry m a (j + 6) t) (entry m a (j + 7) t) r k
              (omega arith, omega arith, omega arith, omega arith) (omega arith) u,
          f r k u,
        )
        (merge (r == t + 4 && leb j k && ltb k (j + 4))
          (r == t && leb (j + 4) k && ltb k (j + 4 + 4))
          (leb i r && ltb r t && leb (j + 4) k && ltb k (j + 8))
          (leb (i + 4) r && ltb r (t + 4) && leb j k && ltb k (j + 4))
          (leb i r && ltb r (t + 1) && leb (j + 4) k && ltb k (j + 8))
          (leb (i + 4) r && ltb r (t + 1 + 4) && leb j k && ltb k (j + 4)) _ _ (entry m a k r)
          (entry n b (r - 4) (k + 4)) (entry n b r k)
          (λ e. (
            ground arith,
            ground arith,
            four_at (entry n c t) (j + 4) (j + 4) (j + 5) (j + 6) (j + 7) (k - j) (k + 4)
                  (omega arith, omega arith, omega arith, omega arith) (ground arith) (ground arith)
                ∙ f t (k + 4) (ground arith)
                ∙ (let w : t ≡ r - 4 = ground arith in
                    let v : (leb i t && ltb t t && leb (j + 4) (k + 4) && ltb (k + 4) (j + 8))
                        ≡ false =
                      ground arith in
                    let y : (leb (i + 4) t && ltb t (t + 4) && leb j (k + 4) && ltb (k + 4) (j + 4))
                        ≡ false =
                      ground arith in
                    rw (v, y) (ap (λ z. entry n b z (k + 4)) w)),
          ))
          (λ d e. (
            ground arith,
            four_at (λ z. entry m a z t) (j + 4) (j + 4) (j + 5) (j + 6) (j + 7) (k - (j + 4)) k
                  (omega arith, omega arith, omega arith, omega arith) (ground arith) (ground arith)
                ∙ (let w : t ≡ r = ground arith in ap (entry m a k) w),
          ))
          (λ d e. (ground arith, ground arith)))

  -- the last square, up to column `t`
  abbrev Lasted : ℕ → Ints → Ints → Type 0
  Lasted t b c =
      (r k : ℕ)
      → k < n
      → entry n c r k ≡ (
          if leb (i + 4) r && ltb r (i + 8) && leb (j + 4) k && ltb k t
          then entry m a k r
          else entry n b r k)

  last_square-Lasted :
      (t : ℕ) (b c : Ints)
      → j + 4 ≤ t
      → t < n
      → Lasted t b c
      → Lasted (t + 1) b (last_square m n a i t c)
  unfolding last_square
  last_square-Lasted t b c l h f r k u =
      entry-column4 n c (i + 4) t (i + 4) (i + 5) (i + 6) (i + 7) (entry m a t (i + 4))
        (entry m a t (i + 5)) (entry m a t (i + 6)) (entry m a t (i + 7)) r k
        (omega arith, omega arith, omega arith, omega arith) h u
      ∙ (let e = f r k u in
          let x =
            four_at (entry m a t) (i + 4) (i + 4) (i + 5) (i + 6) (i + 7) (r - (i + 4)) r
              (omega arith, omega arith, omega arith, omega arith) in
          grind arith)

  out : (t : Bool) (v w : ℕ) → t ≡ false → (if t then v else w) ≡ w
  out t v w e = rw (e) refl

  out3 :
      (s t : Bool) (v w x : ℕ) → s ≡ false → t ≡ false → (if s then v else if t then w else x) ≡ x
  out3 s t v w x e f = rw (e, f) refl

  second :
      (s t : Bool) (v w x : ℕ) → s ≡ false → t ≡ true → (if s then v else if t then w else x) ≡ w
  second s t v w x e f = rw (e, f) refl

  together :
      (b c1 c2 c3 : Ints)
      → i + 8 ≤ n
      → j + 8 ≤ n
      → Spread (j + 4) b c1
      → Passed (i + 4) c1 c2
      → Lasted (j + 8) c2 c3
      → Turned m n a (in_box i 8 j 8) b c3
  together b c1 c2 c3 g h f1 f2 f3 r k u = elim (Bool-cases (in_box i 8 j 8 r k)) [
    | inr e ↦
        rw (e, f3 r k u)
          (out (leb (i + 4) r && ltb r (i + 8) && leb (j + 4) k && ltb k (j + 8)) _ _ (ground arith)
            ∙ f2 r k u
            ∙ out3 _ _ (entry m a k r) (entry n c1 (r - 4) (k + 4)) (entry n c1 r k) (ground arith)
                (ground arith)
            ∙ f1 r k u
            ∙ out3 _ _ (entry m a k r) (entry m a (k - 4) (r + 4)) (entry n b r k) (ground arith)
                (ground arith))
    | inl e ↦
        rw (e, f3 r k u)
          (elim (Bool-cases (leb (i + 4) r)) [
            | inl x ↦ elim (Bool-cases (leb (j + 4) k)) [
              | inl y ↦ ground arith
              | inr y ↦
                  out (leb (i + 4) r && ltb r (i + 8) && leb (j + 4) k && ltb k (j + 8)) _ _
                    (ground arith)
                  ∙ f2 r k u
                  ∙ second _ _ (entry m a k r) (entry n c1 (r - 4) (k + 4)) (entry n c1 r k)
                      (ground arith) (ground arith)
                  ∙ f1 (r - 4) (k + 4) (ground arith)
                  ∙ second _ _ (entry m a (k + 4) (r - 4)) (entry m a (k + 4 - 4) (r - 4 + 4))
                      (entry n b (r - 4) (k + 4)) (ground arith) (ground arith)
                  ∙ (let v : k + 4 - 4 ≡ k = omega arith in
                      let w : r - 4 + 4 ≡ r = ground arith in rw (v, w) refl)
            ]
            | inr x ↦
                out (leb (i + 4) r && ltb r (i + 8) && leb (j + 4) k && ltb k (j + 8)) _ _
                  (ground arith)
                ∙ f2 r k u
                ∙ (elim (Bool-cases (leb (j + 4) k)) [
                  | inl y ↦ ground arith
                  | inr y ↦
                      out3 _ _ (entry m a k r) (entry n c1 (r - 4) (k + 4)) (entry n c1 r k)
                        (ground arith) (ground arith)
                      ∙ f1 r k u
                      ∙ ground arith
                ])
          ])
  ]

  pub off_block-Turned :
      (b : Ints) → i + 8 ≤ n → j + 8 ≤ n → Turned m n a (in_box i 8 j 8) b (off_block m n a i j b)
  unfolding off_block
  off_block-Turned b g h =
      let c1 = for_loop j (j + 4) 1 (λ bi c. spread n c i bi (read_row m a bi i)) b in
      let c2 = for_loop i (i + 4) 1 (λ bj. pass_on m n a j bj) c1 in
      let f1 =
        loop4 j (j + 4) Spread (λ bi c. spread n c i bi (read_row m a bi i)) b (omega arith)
          (λ r k u. ground arith) (λ t c l v y. spread-Spread t b c l v h y) in
      let f2 =
        loop4 i (i + 4) Passed (λ bj. pass_on m n a j bj) c1 (omega arith) (λ r k u. ground arith)
          (λ t c l v y. pass_on-Passed t c1 c l v h y) in
      let f3 =
        loop4 (j + 4) (j + 8) Lasted (λ bi. last_square m n a i bi) c2 (omega arith)
          (λ r k u. ground arith) (λ t c l v y. last_square-Lasted t c2 c l (omega arith) y) in
      together b c1 c2 (off_block m n a i j b) g h f1 f2 f3
