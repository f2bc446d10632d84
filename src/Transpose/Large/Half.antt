-- ===== src/Transpose/Large/Half.antt =====
-- The copies of the upper and the lower half of a block, and the exchange of two squares.
use cmu_15213_csapp3e_lab.Base.{
  ℕ, suc, ◌+◌, ◌-◌, ◌<◌, ◌≤◌, ◌≡◌, ◌≢◌, refl, ap, ◌∙◌, ◌⊎◌, inl, inr, Bool-cases, ◌&&◌, ltb, leb,
  ◌==◌, if◌then◌else◌, arith,
}
use cmu_15213_csapp3e_lab.Transpose.Cells.{entry-write, nth-read_row, entry-write_row}
use cmu_15213_csapp3e_lab.Transpose.{Ints, entry, write, read_row, write_row}
use cmu_15213_csapp3e_lab.Transpose.Large.Fours.{four, four_at, entry-row4, loop4, merge}
use cmu_15213_csapp3e_lab.Transpose.Large.{
  copy_half, exchange, exchange_row, fill_int, fill_row, fill_low,
}

module _ (m n : ℕ) (a : Ints) (shift i j : ℕ) (fits : j + 8 ≤ n) where
  -- the rows up to `t` copied
  abbrev pub Half : ℕ → Ints → Ints → Type 0
  Half t b c =
      (r k : ℕ)
      → k < n
      → entry n c r k ≡ (
          if leb i r && ltb r t && leb j k && ltb k (j + 8)
          then entry m a (r + shift) (i + (k - j))
          else entry n b r k)

  write_row-Half :
      (t : ℕ) (b c : Ints)
      → i ≤ t
      → Half t b c
      → Half (t + 1) b (write_row n c t j (read_row m a (t + shift) i))
  write_row-Half t b c l f r k u =
      entry-write_row n c t j (read_row m a (t + shift) i) r k fits u
      ∙ (let g = nth-read_row m a (t + shift) i (k - j) in let e = f r k u in grind arith)

  pub copy_half-Half : (b : Ints) → Half (i + 4) b (copy_half m n a shift i j b)
  unfolding copy_half
  copy_half-Half b =
      loop4 i (i + 4) Half (λ bi b. write_row n b bi j (read_row m a (bi + shift) i)) b refl
        (λ r k u. ground arith) (λ t c l v y. write_row-Half t b c l y)

module _ (n i j : ℕ) (fits : j + 8 ≤ n) (fits_i : i + 8 ≤ n)
    (apart : (i + 8 ≤ j) ⊎ (j + 8 ≤ i)) where
  entry-write_ne :
      (b : Ints) (r k v h : ℕ)
      → k < n
      → h < n
      → k ≢ h
      → entry n (write n b r k v) r h ≡ entry n b r h
  entry-write_ne b r k v h l u e = entry-write n b r k v r h l u ∙ ground arith

  -- the first `t` rows exchanged
  abbrev pub Exchanged : ℕ → Ints → Ints → Type 0
  Exchanged t b c =
      (r k : ℕ)
      → k < n
      → entry n c r k ≡ (
          if leb i r && ltb r (i + t) && leb (i + 4) k && ltb k (i + 8)
          then entry n b r (j + (k - (i + 4)))
          else if leb i r && ltb r (i + t) && leb j k && ltb k (j + 4)
          then entry n b r (i + 4 + (k - j))
          else entry n b r k)

  -- One row, in its two parts.
  entry-exchange_row :
      (s : ℕ) (c : Ints) (r k : ℕ)
      → k < n
      → entry n (exchange_row n s i j c) r k ≡ (
          if r == s && leb j k && ltb k (j + 4)
          then four
              (entry n c s (i + 4))
              (entry n c s (i + 5))
              (entry n c s (i + 6))
              (entry n c s (i + 7))
              (k - j)
          else if r == s && leb (i + 4) k && ltb k (i + 4 + 4)
          then four
              (entry n c s (j + 0))
              (entry n c s (j + 1))
              (entry n c s (j + 2))
              (entry n c s (j + 3))
              (k - (i + 4))
          else entry n c r k)
  unfolding exchange_row
  entry-exchange_row s c r k u =
      rw
        (
          entry-row4 n _ s j (j + 0) (j + 1) (j + 2) (j + 3) _ _ _ _ r k
              (omega arith, omega arith, omega arith, omega arith) (omega arith) u,
          entry-row4 n c s (i + 4) (i + 4) (i + 5) (i + 6) (i + 7) _ _ _ _ r k
              (omega arith, omega arith, omega arith, omega arith) (omega arith) u,
          entry-write_ne _ s (i + 4) _ (j + 1) (omega arith) (omega arith) (ground arith),
          entry-write_ne _ s (i + 5) _ (j + 2) (omega arith) (omega arith) (ground arith),
          entry-write_ne _ s (i + 4) _ (j + 2) (omega arith) (omega arith) (ground arith),
          entry-write_ne _ s (i + 6) _ (j + 3) (omega arith) (omega arith) (ground arith),
          entry-write_ne _ s (i + 5) _ (j + 3) (omega arith) (omega arith) (ground arith),
          entry-write_ne _ s (i + 4) _ (j + 3) (omega arith) (omega arith) (ground arith),
        )
        refl

  exchange_row-Exchanged :
      (t : ℕ) (b c : Ints)
      → t < 4
      → Exchanged t b c
      → Exchanged (t + 1) b (exchange_row n (i + t) i j c)
  exchange_row-Exchanged t b c l f r k u =
      rw (entry-exchange_row (i + t) c r k u, f r k u)
        (merge (r == i + t && leb j k && ltb k (j + 4))
          (r == i + t && leb (i + 4) k && ltb k (i + 4 + 4))
          (leb i r && ltb r (i + t) && leb (i + 4) k && ltb k (i + 8))
          (leb i r && ltb r (i + t) && leb j k && ltb k (j + 4))
          (leb i r && ltb r (i + (t + 1)) && leb (i + 4) k && ltb k (i + 8))
          (leb i r && ltb r (i + (t + 1)) && leb j k && ltb k (j + 4)) _ _
          (entry n b r (j + (k - (i + 4)))) (entry n b r (i + 4 + (k - j))) (entry n b r k)
          (λ e. (
            ground arith,
            ground arith,
            four_at (entry n c (i + t)) (i + 4) (i + 4) (i + 5) (i + 6) (i + 7) (k - j)
                  (i + 4 + (k - j)) (omega arith, omega arith, omega arith, omega arith)
                  (ground arith) refl
                ∙ same (i + 4 + (k - j)) (ground arith)
                ∙ (let w : i + t ≡ r = ground arith in ap (λ z. entry n b z (i + 4 + (k - j))) w),
          ))
          (λ d e. (
            ground arith,
            four_at (entry n c (i + t)) j (j + 0) (j + 1) (j + 2) (j + 3) (k - (i + 4))
                  (j + (k - (i + 4))) (omega arith, omega arith, omega arith, omega arith)
                  (ground arith) refl
                ∙ same (j + (k - (i + 4))) (ground arith)
                ∙ (let w : i + t ≡ r = ground arith in ap (λ z. entry n b z (j + (k - (i + 4)))) w),
          ))
          (λ d e. (ground arith, ground arith)))
    where
      same : (h : ℕ) → h < n → entry n c (i + t) h ≡ entry n b (i + t) h
      same h l = f (i + t) h l ∙ ground arith

  -- the first `t` ints of the row copied
  abbrev Filling : ℕ → ℕ → Ints → Ints → Type 0
  Filling s t b c =
      (r k : ℕ)
      → k < n
      → entry n c r k ≡ (
          if r == s + 4 && leb i k && ltb k (i + t)
          then entry n b s (j + (k - i))
          else entry n b r k)

  fill_int-Filling :
      (s t : ℕ) (b c : Ints) → t < 8 → Filling s t b c → Filling s (suc t) b (fill_int n s i j t c)
  unfolding fill_int
  fill_int-Filling s t b c l f r k u =
      entry-write n c (s + 4) (i + t) (entry n c s (j + t)) r k (omega arith) u
      ∙ (let e = f r k u in let g = f s (j + t) (omega arith) in grind arith)

  fill_row-Filling : (s : ℕ) (b : Ints) → Filling s 8 b (fill_row n s i j b)
  unfolding fill_row
  fill_row-Filling s b =
      let b0 = fill_int n s i j 0 b in
      let f0 = fill_int-Filling s 0 b b (omega arith) (λ r k u. ground arith) in
      let b1 = fill_int n s i j 1 b0 in
      let f1 = fill_int-Filling s 1 b b0 (omega arith) f0 in
      let b2 = fill_int n s i j 2 b1 in
      let f2 = fill_int-Filling s 2 b b1 (omega arith) f1 in
      let b3 = fill_int n s i j 3 b2 in
      let f3 = fill_int-Filling s 3 b b2 (omega arith) f2 in
      let b4 = fill_int n s i j 4 b3 in
      let f4 = fill_int-Filling s 4 b b3 (omega arith) f3 in
      let b5 = fill_int n s i j 5 b4 in
      let f5 = fill_int-Filling s 5 b b4 (omega arith) f4 in
      let b6 = fill_int n s i j 6 b5 in
      let f6 = fill_int-Filling s 6 b b5 (omega arith) f5 in
      let b7 = fill_int n s i j 7 b6 in let f7 = fill_int-Filling s 7 b b6 (omega arith) f6 in f7

  abbrev pub Filled : ℕ → Ints → Ints → Type 0
  Filled t b c =
      (r k : ℕ)
      → k < n
      → entry n c r k ≡ (
          if leb (i + 4) r && ltb r (i + 4 + t) && leb i k && ltb k (i + 8)
          then entry n b (r - 4) (j + (k - i))
          else entry n b r k)

  fill_row-Filled :
      (t : ℕ) (b c : Ints) → t < 4 → Filled t b c → Filled (t + 1) b (fill_row n (i + t) i j c)
  fill_row-Filled t b c l f r k u = elim (Bool-cases (r == i + t + 4 && leb i k && ltb k (i + 8))) [
    | inl e ↦
        let w : i + t ≡ r - 4 = ground arith in
        rw
          (
            fill_row-Filling (i + t) c r k u,
            e,
            f (i + t) (j + (k - i)) (ground arith),
            lower (i + t) (ground arith),
          )
          (ap (λ z. entry n b z (j + (k - i))) w ∙ ground arith)
    | inr e ↦ rw (fill_row-Filling (i + t) c r k u, e, f r k u) (ground arith)
  ]
    where
      lower :
          (s : ℕ)
          → s < i + 4
          → (if leb (i + 4) s
                && ltb s (i + 4 + t)
                && leb i (j + (k - i))
                && ltb (j + (k - i)) (i + 8)
              then entry n b (s - 4) (j + (j + (k - i) - i))
              else entry n b s (j + (k - i)))
            ≡ entry n b s (j + (k - i))
      lower s h = ground arith

  pub fill_low-Filled : (b : Ints) → Filled 4 b (fill_low n i j b)
  unfolding fill_low
  fill_low-Filled b =
      loop4 0 4 Filled (λ bi. fill_row n (i + bi) i j) b refl (λ r k u. ground arith)
        (λ t c l v y. fill_row-Filled t b c (omega arith) y)

  pub exchange-Exchanged : (b : Ints) → Exchanged 4 b (exchange n i j b)
  unfolding exchange
  exchange-Exchanged b =
      loop4 0 4 Exchanged (λ bi. exchange_row n (i + bi) i j) b refl (λ r k u. ground arith)
        (λ t c l v y. exchange_row-Exchanged t b c (omega arith) y)
