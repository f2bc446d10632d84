-- ===== src/Transpose/Moves.antt =====
-- Steps that give entries of `B` the values of other entries of it.
use cmu_15213_csapp3e_lab.Base.{
  ℕ, ◌+◌, ◌<◌, ◌≤◌, ◌≡◌, refl, ◌∙◌, Bool, true, false, Bool-cases, inl, inr, ◌||◌, if◌then◌else◌,
  arith,
}
use cmu_15213_csapp3e_lab.Transpose.Loops.{for_loop, for_loop_rule}
use cmu_15213_csapp3e_lab.Transpose.{Ints, entry}

-- The entry at `(r, k)` comes from row `row r k` and column `column r k`.
module _ (n : ℕ) (row column : ℕ → ℕ → ℕ) where
  -- The array `c` is `b` but for the entries in `part`, which come from their places.
  abbrev pub Moved : (ℕ → ℕ → Bool) → Ints → Ints → Type 0
  Moved part b c =
      (r k : ℕ)
      → k < n
      → entry n c r k ≡ (if part r k then entry n b (row r k) (column r k) else entry n b r k)

  pub Moved-more :
      (p q e : ℕ → ℕ → Bool) (b c d : Ints)
      → Moved p b c
      → Moved q c d
      → ((r k : ℕ) → k < n → q r k ≡ true → (column r k < n) × (p (row r k) (column r k) ≡ false))
      → ((r k : ℕ) → k < n → e r k ≡ (q r k || p r k))
      → Moved e b d
  Moved-more p q e b c d f g s h r k l =
      g r k l
      ∙ (let t = h r k l in
          elim (Bool-cases (q r k)) [
            | inl u ↦
                let (m, v) = s r k l u in
                let w = f (row r k) (column r k) m in rw (u, t, w, u, v) refl
            | inr u ↦ let w = f r k l in rw (u, t, w, u) refl
          ])

  pub Moved-same :
      (p q : ℕ → ℕ → Bool) (b c : Ints)
      → Moved p b c
      → ((r k : ℕ) → k < n → q r k ≡ p r k)
      → Moved q b c
  Moved-same p q b c f h r k l = rw (h r k l) (f r k l)

  Moved-none : (b : Ints) → Moved (λ r k. false) b b
  Moved-none b r k l = refl

  pub loop-Moved :
      (part : ℕ → ℕ → ℕ → Bool) (step : ℕ → ℕ → ℕ → Bool) (ok : ℕ → Type 0) (end : ℕ)
      (body : ℕ → Ints → Ints)
      → ((t : ℕ) (b : Ints) → t < end → ok t → Moved (step t) b (body t b))
      → ((t : ℕ) → t < end → ok t → ok (t + 1))
      → ((t r k : ℕ)
          → t < end
          → ok t
          → k < n
          → step t r k ≡ true
          → (column r k < n) × (part t (row r k) (column r k) ≡ false))
      → ((t r k : ℕ) → t < end → ok t → k < n → part (t + 1) r k ≡ (step t r k || part t r k))
      → (start : ℕ) → ok start
      → ((r k : ℕ) → k < n → part start r k ≡ false)
      → (b : Ints) → (t : ℕ) × (end ≤ t) × (ok t × Moved (part t) b (for_loop start end 1 body b))
  loop-Moved part step ok end body f g s h start o z b =
      for_loop_rule end 1 body (omega arith) (λ t c. ok t × Moved (part t) b c)
        (λ t c l u. (
          g t l u.0,
          Moved-more (part t) (step t) (part (t + 1)) b c (body t c) u.1 (f t c l u.0)
              (λ r k v w. s t r k l u.0 v w) (λ r k v. h t r k l u.0 v),
        ))
        start b (o, Moved-same (λ r k. false) (part start) b b (Moved-none b) z)
