-- ===== src/Proxy/Cache/Slots.antt =====
-- `cachemap` with a free entry, and a new node in it.
use cmu_15213_csapp3e_lab.Base.{
  ℕ, zero, suc, ◌+◌, ◌≤◌, ◌<◌, ◌≡◌, ◌≢◌, refl, ap, ◌∙◌, ◌⊎◌, inl, inr, Bool, true, false,
  Bool-cases, some, List, [], ◌∷◌, length, length-set, get_elem?, set, All, All-mono, ◌==◌, ltb,
  not, ◌&&◌, if◌then◌else◌, arith,
}
use cmu_15213_csapp3e_lab.Proxy.Outcome.{Outcome, done}
use cmu_15213_csapp3e_lab.Proxy.Cache.{max_object_size, get_free_cache_pos}
use cmu_15213_csapp3e_lab.Proxy.Cache.Distinct.{In}
use cmu_15213_csapp3e_lab.Proxy.Cache.Shape.{Mapped, used}

by_both : (b : Bool) (x : Outcome ℕ) (i : ℕ) → (if b && not true then x else done i) ≡ done i
by_both true x i = refl
by_both false x i = refl

skip_slot :
    (i q : ℕ) (m : List ℕ)
    → (q == 0) ≡ false
    → i < max_object_size
    → get_free_cache_pos i (q ∷ m) ≡ get_free_cache_pos (suc i) m
unfolding get_free_cache_pos
skip_slot i q m e l = let b : ltb i max_object_size ≡ true = ground arith in rw (e, b) refl

pub free_slot :
    (i : ℕ) (m : List ℕ)
    → used m < length m
    → i + length m ≤ max_object_size
    → (j : ℕ) × (get_free_cache_pos i m ≡ done (i + j)) × (get_elem? m j ≡ some 0)
unfolding get_free_cache_pos
free_slot i [] h l = absurd (omega arith)
free_slot i (q ∷ m) h l = elim (Bool-cases (q == 0)) [
  | inl e ↦
      let z : i ≡ i + 0 = omega arith in
      (
        0,
        rw (e) (by_both (ltb i max_object_size) (get_free_cache_pos (suc i) m) i ∙ ap done z),
        ground arith,
      )
  | inr e ↦
      let (j, f, g) = free_slot (suc i) m (ground arith) (omega arith) in
      let z : suc i + j ≡ i + suc j = omega arith in
      (suc j, skip_slot i q m e (omega arith) ∙ f ∙ ap done z, g)
]

All-both :
    {P Q R : ℕ → Type 0} (xs : List ℕ)
    → ((q : ℕ) → P q → Q q → R q)
    → All P xs
    → All Q xs
    → All R xs
All-both [] f a b = tt
All-both (x ∷ xs) f a b = (f x a.0 b.0, All-both xs f a.1 b.1)

In-set_self : (m : List ℕ) (j p v : ℕ) → get_elem? m j ≡ some v → In p (set m j p)
In-set_self [] j p v e = cc
In-set_self (x ∷ m) zero p v e = inl refl
In-set_self (x ∷ m) (suc j) p v e = inr (In-set_self m j p v e)

In-set : (m : List ℕ) (j p q : ℕ) → get_elem? m j ≡ some 0 → q ≢ 0 → In q m → In q (set m j p)
In-set [] j p q e n i = absurd i
In-set (x ∷ m) zero p q e n (inl i) = ground arith
In-set (x ∷ m) zero p q e n (inr i) = inr i
In-set (x ∷ m) (suc j) p q e n (inl i) = inl i
In-set (x ∷ m) (suc j) p q e n (inr i) = inr (In-set m j p q e n i)

All-set : (P : ℕ → Type 0) (m : List ℕ) (j p : ℕ) → All P m → P p → All P (set m j p)
All-set P [] j p a h = tt
All-set P (x ∷ m) zero p a h = (h, a.1)
All-set P (x ∷ m) (suc j) p a h = (a.0, All-set P m j p a.1 h)

used-set : (m : List ℕ) (j p : ℕ) → get_elem? m j ≡ some 0 → p ≢ 0 → used (set m j p) ≡ suc (used m)
used-set [] j p e n = cc
used-set (x ∷ m) zero p e n = ground arith
used-set (x ∷ m) (suc j) p e n = omega (arith, used-set m j p e n)

pub Mapped-new :
    (m ps : List ℕ) (j p : ℕ)
    → Mapped m ps
    → get_elem? m j ≡ some 0
    → p ≢ 0
    → All (λ q. q ≢ 0) ps
    → Mapped (set m j p) (p ∷ ps)
Mapped-new m ps j p d e n a = record {
  size = length-set m j p ∙ d.size;
  known =
      All-set (λ q. (q ≡ 0) ⊎ In q (p ∷ ps)) m j p
        (All-mono m (λ q o. elim o [ inl z ↦ inl z | inr i ↦ inr (inr i) ]) d.known)
        (inr (inl refl));
  listed = (In-set_self m j p 0 e, All-both ps (λ q k i. In-set m j p q e k i) a d.listed);
  count = used-set m j p e n ∙ ap suc d.count;
}
