-- ===== src/Malloc/Implicit/Used.antt =====
-- The blocks in use, by their addresses and sizes, and what keeps them.
use mathlib.Core.Path.{subst}
use cmu_15213_csapp3e_lab.Base.{
  ℕ, ◌+◌, ◌-◌, ◌≤◌, ◌≡◌, refl, ◌⊎◌, inl, inr, Bool, true, false, Bool-cases, List, [], ◌∷◌, leb,
  if◌then◌else◌, arith, by_if,
}
use cmu_15213_csapp3e_lab.Malloc.Blocks.{Block, span}
use cmu_15213_csapp3e_lab.Malloc.Blocks.Zip.{others, absorbed}
use cmu_15213_csapp3e_lab.Malloc.Implicit.IsHeap.{onto}
use cmu_15213_csapp3e_lab.Malloc.Implicit.Place.{carved}

-- At `a` there is a block of `n` bytes in use.
abbrev pub UsedAhead : ℕ → List Block → ℕ → ℕ → Type 0
UsedAhead p [] a n = ⊥
UsedAhead p (k ∷ ks) a n =
    ((a ≡ p) × (k.size ≡ n) × (k.used ≡ true)) ⊎ UsedAhead (p + k.size) ks a n

abbrev pub UsedBehind : ℕ → List Block → ℕ → ℕ → Type 0
UsedBehind lo [] a n = ⊥
UsedBehind lo (k ∷ ks) a n =
    ((a ≡ lo + span ks) × (k.size ≡ n) × (k.used ≡ true)) ⊎ UsedBehind lo ks a n

pub onto-UsedAhead :
    (lo a n : ℕ) (r s : List Block)
    → UsedAhead lo (onto r s) a n
    → UsedBehind lo r a n ⊎ UsedAhead (lo + span r) s a n
onto-UsedAhead lo a n [] s h =
    let e : lo ≡ lo + 0 = omega arith in inr (subst (λ x. UsedAhead x s a n) e h)
onto-UsedAhead lo a n (k ∷ r) s h = elim (onto-UsedAhead lo a n r (k ∷ s) h) [
  | inl b ↦ inl (inr b)
  | inr (inl e) ↦ inl (inl e)
  | inr (inr u) ↦
      let e : lo + span r + k.size ≡ lo + (k.size + span r) = omega arith in
      inr (subst (λ x. UsedAhead x s a n) e u)
]

pub UsedAhead-onto :
    (lo a n : ℕ) (r s : List Block)
    → UsedBehind lo r a n ⊎ UsedAhead (lo + span r) s a n
    → UsedAhead lo (onto r s) a n
UsedAhead-onto lo a n [] s (inl h) = absurd h
UsedAhead-onto lo a n [] s (inr h) =
    let e : lo + 0 ≡ lo = omega arith in subst (λ x. UsedAhead x s a n) e h
UsedAhead-onto lo a n (k ∷ r) s (inl (inl e)) = UsedAhead-onto lo a n r (k ∷ s) (inr (inl e))
UsedAhead-onto lo a n (k ∷ r) s (inl (inr b)) = UsedAhead-onto lo a n r (k ∷ s) (inl b)
UsedAhead-onto lo a n (k ∷ r) s (inr u) =
    let e : lo + (k.size + span r) ≡ lo + span r + k.size = omega arith in
    UsedAhead-onto lo a n r (k ∷ s) (inr (inr (subst (λ x. UsedAhead x s a n) e u)))

pub UsedBehind-end : (lo a n : ℕ) (r : List Block) → UsedBehind lo r a n → a + n ≤ lo + span r
UsedBehind-end lo a n [] h = absurd h
UsedBehind-end lo a n (k ∷ r) (inl e) = omega (arith, e.0, e.1)
UsedBehind-end lo a n (k ∷ r) (inr h) = omega (arith, UsedBehind-end lo a n r h)

pub UsedAhead-start : (p a n : ℕ) (s : List Block) → UsedAhead p s a n → p ≤ a
UsedAhead-start p a n [] h = absurd h
UsedAhead-start p a n (k ∷ s) (inl e) = omega (arith, e.0)
UsedAhead-start p a n (k ∷ s) (inr h) = omega (arith, UsedAhead-start (p + k.size) a n s h)

-- A free neighbour that is absorbed is not in use.
pub UsedBehind-others :
    (lo a n : ℕ) (r : List Block) → UsedBehind lo r a n → UsedBehind lo (others r) a n
UsedBehind-others lo a n [] h = h
UsedBehind-others lo a n (k ∷ r) h =
    by_if (λ x. UsedBehind lo x a n) k.used (k ∷ r) r (λ u. h)
      (λ u. elim h [ inl e ↦ ground (arith, e.2) | inr b ↦ b ])

absorb :
    (u : Bool) (p a n : ℕ) (k : Block) (s : List Block)
    → k.used ≡ u
    → UsedAhead p (k ∷ s) a n
    → UsedAhead (p + (if u then 0 else k.size)) (if u then k ∷ s else s) a n
absorb true p a n k s e h =
    let q : p ≡ p + 0 = omega arith in subst (λ x. UsedAhead x (k ∷ s) a n) q h
absorb false p a n k s e (inl h) = ground (arith, h.2)
absorb false p a n k s e (inr h) = h

pub UsedAhead-others :
    (p a n : ℕ) (s : List Block) → UsedAhead p s a n → UsedAhead (p + absorbed s) (others s) a n
UsedAhead-others p a n [] h = absurd h
UsedAhead-others p a n (k ∷ s) h = absorb k.used p a n k s refl h

pub carved_used :
    (p a m n asize : ℕ) (s : List Block)
    → asize ≤ n
    → UsedAhead (p + n) s a m
    → UsedAhead p (carved n asize s) a m
carved_used p a m n asize s l h = elim (Bool-cases (leb 16 (n - asize))) [
  | inl e ↦
      let q : p + n ≡ p + asize + (n - asize) = omega arith in
      rw (e) (inr (inr (subst (λ x. UsedAhead x s a m) q h)))
  | inr e ↦ rw (e) (inr h)
]

pub carved_first :
    (p n asize : ℕ) (s : List Block)
    → asize ≤ n
    → (m : ℕ) × (asize ≤ m) × (m ≤ n) × UsedAhead p (carved n asize s) p m
carved_first p n asize s l = elim (Bool-cases (leb 16 (n - asize))) [
  | inl e ↦ (asize, omega arith, l, rw (e) (inl (refl, refl, refl)))
  | inr e ↦ (n, l, omega arith, rw (e) (inl (refl, refl, refl)))
]
