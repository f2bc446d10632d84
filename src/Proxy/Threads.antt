-- ===== src/Proxy/Threads.antt =====
-- Sums over the threads of a system, each with a weight for the place where it stands.
use cmu_15213_csapp3e_lab.Base.{
  ℕ, zero, suc, ◌+◌, ◌≤◌, ◌<◌, ◌≡◌, ◌≢◌, refl, ap, some, List, [], ◌∷◌, arith, get_elem?, set,
  replicate, Bool-cases, ltb, inl, inr,
}

module _ {Pc : Type 0} (w : Pc → ℕ) where
  unfoldable pub total : List Pc → ℕ
  total [] = 0
  total (p ∷ ps) = w p + total ps

  -- When one thread moves, the sum moves by its weight.
  pub total-set :
      (ps : List Pc) (i : ℕ) (old new : Pc)
      → get_elem? ps i ≡ some old
      → total (set ps i new) + w old ≡ total ps + w new
  unfolding total
  total-set [] i old new h = cc
  total-set (p ∷ ps) zero old new h = let e : p ≡ old = cc in omega (arith, ap w e)
  total-set (p ∷ ps) (suc i) old new h = omega (arith, total-set ps i old new h)

  pub total-ge : (ps : List Pc) (i : ℕ) (p : Pc) → get_elem? ps i ≡ some p → w p ≤ total ps
  unfolding total
  total-ge [] i p h = cc
  total-ge (q ∷ ps) zero p h = let e : q ≡ p = cc in omega (arith, ap w e)
  total-ge (q ∷ ps) (suc i) p h = omega (arith, total-ge ps i p h)

  -- Two threads weigh as much as both.
  pub total_two :
      (ps : List Pc) (i j : ℕ) (p q : Pc)
      → i ≢ j
      → get_elem? ps i ≡ some p
      → get_elem? ps j ≡ some q
      → w p + w q ≤ total ps
  unfolding total
  total_two [] i j p q ne h k = cc
  total_two (r ∷ ps) zero zero p q ne h k = absurd (ne refl)
  total_two (r ∷ ps) zero (suc j) p q ne h k =
      let e : r ≡ p = cc in omega (arith, ap w e, total-ge ps j q k)
  total_two (r ∷ ps) (suc i) zero p q ne h k =
      let e : r ≡ q = cc in omega (arith, ap w e, total-ge ps i p h)
  total_two (r ∷ ps) (suc i) (suc j) p q ne h k =
      omega (arith, total_two ps i j p q (λ e. ne (ap suc e)) h k)

  pub total-replicate : (n : ℕ) (p : Pc) → w p ≡ 0 → total (replicate n p) ≡ 0
  unfolding total
  total-replicate zero p h = refl
  total-replicate (suc n) p h = omega (arith, total-replicate n p h)

-- A positive sum has a thread of positive weight.
pub some_thread :
    {Pc : Type 0} (w : Pc → ℕ) (ps : List Pc)
    → 0 < total w ps
    → (i : ℕ) × (p : Pc) × (get_elem? ps i ≡ some p) × (0 < w p)
unfolding total
some_thread w [] h = ground arith
some_thread w (p ∷ ps) h = elim (Bool-cases (ltb 0 (w p))) [
  | inl t ↦ (0, p, refl, ground arith)
  | inr f ↦ let (i, q, e, l) = some_thread w ps (ground arith) in (suc i, q, e, l)
]

-- Weights that are nowhere larger have no larger sum.
pub total_mono :
    {Pc : Type 0} (v w : Pc → ℕ) (ps : List Pc) → ((p : Pc) → v p ≤ w p) → total v ps ≤ total w ps
unfolding total
total_mono v w [] h = omega arith
total_mono v w (p ∷ ps) h = omega (arith, h p, total_mono v w ps h)

pub total_plus :
    {Pc : Type 0} (u v w : Pc → ℕ) (ps : List Pc)
    → ((p : Pc) → u p + v p ≤ w p)
    → total u ps + total v ps ≤ total w ps
unfolding total
total_plus u v w [] h = omega arith
total_plus u v w (p ∷ ps) h = omega (arith, h p, total_plus u v w ps h)
