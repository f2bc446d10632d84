-- ===== src/Transpose/Loops.antt =====
-- The loops of trans.c: `for (i = start; i < end; i += step)`, on fuel of the distance to the end.
use mathlib.Core.Path.{subst}
use cmu_15213_csapp3e_lab.Base.{
  ℕ, zero, suc, ◌+◌, ◌-◌, ◌<◌, ◌≤◌, ◌≡◌, refl, sym, ◌∙◌, Bool, true, false, Bool-cases, inl, inr,
  ltb, ◌==◌, arith,
}

unfoldable pub run {ℓ} : {S : Type ℓ} → ℕ → ℕ → ℕ → ℕ → (ℕ → S → S) → S → S
run zero i end step body s = s
run (suc fuel) i end step body s = elim (ltb i end) [
  | true ↦ run fuel (i + step) end step body (body i s)
  | false ↦ s
]

unfoldable pub for_loop {ℓ} : {S : Type ℓ} → ℕ → ℕ → ℕ → (ℕ → S → S) → S → S
for_loop i end step body s = run (end - i) i end step body s

-- The loop with an early return of 0: `count` tests from `i` on.
unfoldable pub all_from : ℕ → ℕ → (ℕ → Bool) → Bool
all_from zero i t = true
all_from (suc count) i t = elim (t i) [ true ↦ all_from count (suc i) t | false ↦ false ]

module _ {ℓ} {S : Type ℓ} (end step : ℕ) (body : ℕ → S → S) (p : 0 < step) where
  run_enough :
      (n m i : ℕ) (s : S)
      → end ≤ i + n
      → end ≤ i + m
      → run n i end step body s ≡ run m i end step body s
  unfolding run
  run_enough zero zero i s g h = refl
  run_enough zero (suc m) i s g h = let l : ltb i end ≡ false = ground arith in rw (l, run) refl
  run_enough (suc n) zero i s g h = let l : ltb i end ≡ false = ground arith in rw (l, run) refl
  run_enough (suc n) (suc m) i s g h = elim (Bool-cases (ltb i end)) [
    | inl l ↦ rw (l, run) (run_enough n m (i + step) (body i s) (omega arith) (omega arith))
    | inr l ↦ rw (l, run) refl
  ]

  -- The function is the loop: below the end, the body and then the loop from `i + step` on.
  pub for_loop-step :
      (i : ℕ) (s : S)
      → i < end
      → for_loop i end step body s ≡ for_loop (i + step) end step body (body i s)
  unfolding for_loop run
  for_loop-step i s h =
      let l : ltb i end ≡ true = ground arith in
      run_enough (end - i) (suc (end - i)) i s (omega arith) (omega arith)
      ∙ rw (l, run)
          (run_enough (end - i) (end - (i + step)) (i + step) (body i s) (omega arith)
            (omega arith))

  module _ {m} (P : ℕ → S → Type m)
      (f : (k : ℕ) (s : S) → k < end → P k s → P (k + step) (body k s)) where
    run_rule :
        (n i : ℕ) (s : S)
        → end ≤ i + n
        → P i s
        → (k : ℕ) × (end ≤ k) × P k (run n i end step body s)
    unfolding run
    run_rule zero i s e h = (i, omega arith, h)
    run_rule (suc n) i s e h = elim (Bool-cases (ltb i end)) [
      | inl l ↦
          rw (l, run) (run_rule n (i + step) (body i s) (omega arith) (f i s (ground arith) h))
      | inr l ↦ rw (l, run) (i, ground arith, h)
    ]

    -- What holds before the loop, and after each turn that starts with it, holds behind the loop.
    pub for_loop_rule :
        (i : ℕ) (s : S) → P i s → (k : ℕ) × (end ≤ k) × P k (for_loop i end step body s)
    unfolding for_loop
    for_loop_rule i s h = run_rule (end - i) i s (omega arith) h

all_from-go :
    (count i : ℕ) (t : ℕ → Bool) → t i ≡ true → all_from (suc count) i t ≡ all_from count (suc i) t
unfolding all_from
all_from-go count i t e = rw (e, all_from) refl

all_from-stop : (count i : ℕ) (t : ℕ → Bool) → t i ≡ false → all_from (suc count) i t ≡ false
unfolding all_from
all_from-stop count i t e = rw (e, all_from) refl

-- The tests succeed just when each of them does.
pub all_from-every :
    (count i : ℕ) (t : ℕ → Bool)
    → all_from count i t ≡ true
    → (k : ℕ) → i ≤ k
    → k < i + count
    → t k ≡ true
unfolding all_from
all_from-every zero i t h k l u = absurd (omega arith)
all_from-every (suc count) i t h k l u = elim (Bool-cases (t i)) [
  | inl e ↦ elim (Bool-cases (i == k)) [
    | inl q ↦ let w : i ≡ k = ground arith in subst (λ z. t z ≡ true) w e
    | inr q ↦
        all_from-every count (suc i) t (sym (all_from-go count i t e) ∙ h) k (ground arith)
          (omega arith)
  ]
  | inr e ↦ absurd (let f = all_from-stop count i t e in ground arith)
]

pub all_from-true :
    (count i : ℕ) (t : ℕ → Bool)
    → ((k : ℕ) → i ≤ k → k < i + count → t k ≡ true)
    → all_from count i t ≡ true
unfolding all_from
all_from-true zero i t h = refl
all_from-true (suc count) i t h =
    rw (h i (omega arith) (omega arith), all_from)
      (all_from-true count (suc i) t (λ k l u. h k (omega arith) (omega arith)))
