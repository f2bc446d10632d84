-- ===== src/Malloc/Blocks/Rover.antt =====
-- Where the rover stands when blocks are made one.
use mathlib.Core.Path.{subst}
use cmu_15213_csapp3e_lab.Base.{
  ℕ, ◌+◌, ◌≤◌, ◌<◌, ◌≡◌, refl, ◌⊎◌, inl, inr, ◌&&◌, List, [], ◌∷◌, ◌++◌, if◌then◌else◌, Bool-cases,
  ltb, arith,
}
use cmu_15213_csapp3e_lab.Malloc.Blocks.{Block, span, StartsAhead, StartsBehind}

-- `p` is where a block begins, or the epilogue.
abbrev pub Starts : ℕ → List Block → List Block → ℕ → Type 0
Starts lo r s p = StartsBehind lo r p ⊎ StartsAhead (lo + span r) s p

abbrev pub settled : ℕ → ℕ → ℕ → ℕ
settled rover bp size = if ltb bp rover && ltb rover (bp + size) then bp else rover

StartsBehind-le : (lo p : ℕ) (r : List Block) → StartsBehind lo r p → p ≤ lo + span r
StartsBehind-le lo p [] h = absurd h
StartsBehind-le lo p (k ∷ ks) (inl e) = omega arith
StartsBehind-le lo p (k ∷ ks) (inr h) = omega (arith, StartsBehind-le lo p ks h)

StartsAhead-here : (bp p : ℕ) (s : List Block) → p ≡ bp → StartsAhead bp s p
StartsAhead-here bp p [] e = e
StartsAhead-here bp p (k ∷ ks) e = inl e

StartsAhead-ge : (bp p : ℕ) (s : List Block) → StartsAhead bp s p → bp ≤ p
StartsAhead-ge bp p [] e = omega arith
StartsAhead-ge bp p (k ∷ ks) (inl e) = omega arith
StartsAhead-ge bp p (k ∷ ks) (inr h) = omega (arith, StartsAhead-ge (bp + k.size) p ks h)

-- Behind some blocks, or in them.
ahead_of :
    (bp e p : ℕ) (xs s : List Block)
    → bp + span xs ≡ e
    → StartsAhead bp (xs ++ s) p
    → (p < e) ⊎ StartsAhead e s p
ahead_of bp e p [] s q h = let i : bp ≡ e = omega arith in inr (subst (λ x. StartsAhead x s p) i h)
ahead_of bp e p (x ∷ xs) s q (inl h) = elim (Bool-cases (ltb p e)) [
  | inl l ↦ inl (ground arith)
  | inr g ↦ inr (StartsAhead-here e p s (ground arith))
]
ahead_of bp e p (x ∷ xs) s q (inr h) = ahead_of (bp + x.size) e p xs s (omega arith) h

-- Blocks made one: the rover stands where it stood, or at the new block.
pub settled-Starts :
    (lo p : ℕ) (r xs s : List Block) (k : Block)
    → k.size ≡ span xs
    → Starts lo r (xs ++ s) p
    → Starts lo r (k ∷ s) (settled p (lo + span r) k.size)
settled-Starts lo p r xs s k e (inl h) =
    let l = StartsBehind-le lo p r h in
    let q : settled p (lo + span r) k.size ≡ p = ground arith in rw (q) (inl h)
settled-Starts lo p r xs s k e (inr h) =
    let l = StartsAhead-ge (lo + span r) p (xs ++ s) h in
    elim (Bool-cases (ltb (lo + span r) p && ltb p (lo + span r + k.size))) [
      | inl t ↦ rw (t) (inr (inl refl))
      | inr f ↦
          rw (f) (elim (ahead_of (lo + span r) (lo + span r + k.size) p xs s (omega arith) h) [
            | inl b ↦ inr (inl (ground arith))
            | inr b ↦ inr (inr b)
          ])
    ]

-- A place where a block begins is one from the next block too.
pub Starts-back :
    (lo p : ℕ) (m : Block) (r s : List Block) → Starts lo (m ∷ r) s p → Starts lo r (m ∷ s) p
Starts-back lo p m r s (inl (inl e)) = inr (inl e)
Starts-back lo p m r s (inl (inr h)) = inl h
Starts-back lo p m r s (inr h) =
    let e : lo + (m.size + span r) ≡ lo + span r + m.size = omega arith in
    inr (inr (subst (λ x. StartsAhead x s p) e h))

pub Starts-forth :
    (lo p : ℕ) (m : Block) (r s : List Block) → Starts lo r (m ∷ s) p → Starts lo (m ∷ r) s p
Starts-forth lo p m r s (inl h) = inl (inr h)
Starts-forth lo p m r s (inr (inl e)) = inl (inl e)
Starts-forth lo p m r s (inr (inr h)) =
    let e : lo + span r + m.size ≡ lo + (m.size + span r) = omega arith in
    inr (subst (λ x. StartsAhead x s p) e h)
