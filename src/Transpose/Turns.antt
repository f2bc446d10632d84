-- ===== src/Transpose/Turns.antt =====
-- Parts of `B` that hold the transpose of `A`, and what one step adds to them.
use cmu_15213_csapp3e_lab.Base.{
  ℕ, ◌+◌, ◌-◌, ◌<◌, ◌≤◌, ◌≡◌, refl, ◌∙◌, Bool, false, ◌&&◌, ◌||◌, ltb, leb, ◌==◌, if◌then◌else◌,
  arith,
}
use cmu_15213_csapp3e_lab.Transpose.Loops.{for_loop, for_loop_rule}
use cmu_15213_csapp3e_lab.Transpose.Cells.{
  entry-write, nth-read_row, nth-read_column, entry-write_row, entry-write_column,
}
use cmu_15213_csapp3e_lab.Transpose.{
  Ints, entry, min, read_row, read_column, write_row, write_column, turn, turn_block,
}

-- The array `c` is `b` but for the entries in `part`, which are those of the transpose of `a`.
abbrev pub Turned : ℕ → ℕ → Ints → (ℕ → ℕ → Bool) → Ints → Ints → Type 0
Turned m n a part b c =
    (i j : ℕ) → j < n → entry n c i j ≡ (if part i j then entry m a j i else entry n b i j)

-- one entry
abbrev pub at_place : ℕ → ℕ → ℕ → ℕ → Bool
at_place r c i j = i == r && j == c

-- `h` rows from `r` on, and in them `w` entries from `c` on
abbrev pub in_box : ℕ → ℕ → ℕ → ℕ → ℕ → ℕ → Bool
in_box r h c w i j = leb r i && ltb i (r + h) && leb c j && ltb j (c + w)

module _ (m n : ℕ) (a : Ints) where
  pub Turned-more :
      (p q e : ℕ → ℕ → Bool) (b c d : Ints)
      → Turned m n a p b c
      → Turned m n a q c d
      → ((i j : ℕ) → j < n → e i j ≡ (q i j || p i j))
      → Turned m n a e b d
  Turned-more p q e b c d f g h i j l = g i j l ∙ both (p i j) (q i j) (e i j) (f i j l) (h i j l)
    where
      both :
          (x y z : Bool)
          → entry n c i j ≡ (if x then entry m a j i else entry n b i j)
          → z ≡ (y || x)
          → (if y then entry m a j i else entry n c i j)
            ≡ (if z then entry m a j i else entry n b i j)
      both x y z k t = rw (t, k) ground arith

  pub Turned-same :
      (p q : ℕ → ℕ → Bool) (b c : Ints)
      → Turned m n a p b c
      → ((i j : ℕ) → j < n → q i j ≡ p i j)
      → Turned m n a q b c
  Turned-same p q b c f h i j l = rw (h i j l) (f i j l)

  pub Turned-none : (b : Ints) → Turned m n a (λ i j. false) b b
  Turned-none b i j l = refl

  pub turn-Turned : (i j : ℕ) (b : Ints) → i < n → Turned m n a (at_place j i) b (turn m n a i j b)
  turn-Turned i j b l r c h = entry-write n b j i (entry m a i j) r c l h ∙ grind arith

  pub row-Turned :
      (i j : ℕ) (b : Ints)
      → i + 8 ≤ n
      → Turned m n a (in_box j 1 i 8) b (write_row n b j i (read_column m a i j))
  row-Turned i j b l r c h =
      entry-write_row n b j i (read_column m a i j) r c l h
      ∙ (let f = nth-read_column m a i j (c - i) in grind arith)

  pub column-Turned :
      (k j : ℕ) (b : Ints)
      → k < n
      → Turned m n a (in_box j 8 k 1) b (write_column n b j k (read_row m a k j))
  column-Turned k j b l r c h =
      entry-write_column n b j k (read_row m a k j) r c l h
      ∙ (let f = nth-read_row m a k j (r - j) in grind arith)

  -- A loop adds a part in each turn: `part k` is what there is before the turn `k`.
  pub loop-Turned :
      (part : ℕ → ℕ → ℕ → Bool) (step : ℕ → ℕ → ℕ → Bool) (ok : ℕ → Type 0) (end d : ℕ)
      (body : ℕ → Ints → Ints)
      → 0 < d
      → ((k : ℕ) (b : Ints) → k < end → ok k → Turned m n a (step k) b (body k b))
      → ((k : ℕ) → k < end → ok k → ok (k + d))
      → ((k i j : ℕ) → k < end → ok k → j < n → part (k + d) i j ≡ (step k i j || part k i j))
      → (start : ℕ) → ok start
      → ((i j : ℕ) → j < n → part start i j ≡ false)
      → (b : Ints)
      → (k : ℕ) × (end ≤ k) × (ok k × Turned m n a (part k) b (for_loop start end d body b))
  loop-Turned part step ok end d body p f g h start o z b =
      for_loop_rule end d body p (λ k c. ok k × Turned m n a (part k) b c)
        (λ k c l t. (
          g k l t.0,
          Turned-more (part k) (step k) (part (k + d)) b c (body k c) t.1 (f k c l t.0)
              (λ i j u. h k i j l t.0 u),
        ))
        start b (o, Turned-same (λ i j. false) (part start) b b (Turned-none b) z)

  -- the block of `turn_block`, cut off at the ends
  abbrev pub in_block : ℕ → ℕ → ℕ → ℕ → ℕ → ℕ → Bool
  in_block h w i j r c = leb j r && ltb r (min (j + w) m) && leb i c && ltb c (min (i + h) n)

  block_row :
      (e i bi j : ℕ) (b : Ints)
      → bi < n
      → Turned m n a
          (λ r c. leb j r && ltb r e && c == bi)
          b
          (for_loop j e 1 (λ bj. turn m n a bi bj) b)
  block_row e i bi j b l =
      let (k, x, (o, t)) =
        loop-Turned (λ k r c. leb j r && ltb r k && c == bi) (λ k. at_place k bi)
          (λ k. (j ≤ k) × (k ≤ (if ltb j e then e else j))) e 1 (λ bj. turn m n a bi bj)
          (omega arith) (λ k c y z. turn-Turned bi k c l) (λ k y z. ground arith)
          (λ k r c y z u. ground arith) j (ground arith) (λ r c u. ground arith) b in
      Turned-same (λ r c. leb j r && ltb r k && c == bi) (λ r c. leb j r && ltb r e && c == bi) b
        (for_loop j e 1 (λ bj. turn m n a bi bj) b) t (λ r c u. ground arith)

  pub turn_block-Turned :
      (h w i j : ℕ) (b : Ints)
      → i ≤ n
      → Turned m n a (in_block h w i j) b (turn_block m n a h w i j b)
  unfolding turn_block
  turn_block-Turned h w i j b l =
      let e = min (j + w) m in
      let body : ℕ → Ints → Ints = λ bi. for_loop j e 1 (λ bj. turn m n a bi bj) in
      let (k, x, (o, t)) =
        loop-Turned (λ k r c. leb j r && ltb r e && leb i c && ltb c k)
          (λ k r c. leb j r && ltb r e && c == k) (λ k. (i ≤ k) × (k ≤ min (i + h) n))
          (min (i + h) n) 1 body (omega arith) (λ k c y z. block_row e i k j c (ground arith))
          (λ k y z. ground arith) (λ k r c y z u. ground arith) i (ground arith)
          (λ r c u. ground arith) b in
      Turned-same (λ r c. leb j r && ltb r e && leb i c && ltb c k) (in_block h w i j) b
        (for_loop i (min (i + h) n) 1 body b) t (λ r c u. ground arith)
