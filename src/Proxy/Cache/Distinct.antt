-- ===== src/Proxy/Cache/Distinct.antt =====
-- Lists of addresses without repetition.
use mathlib.Core.Path.{subst}
use cmu_15213_csapp3e_lab.Base.{All, ◌≡◌, ◌≢◌, refl, sym, ◌∙◌, ◌⊎◌, inl, inr, List, [], ◌∷◌, ◌++◌}

module _ {A : Type 0} where
  abbrev pub In : A → List A → Type 0
  In x [] = ⊥
  In x (y ∷ ys) = (x ≡ y) ⊎ In x ys

  abbrev pub NotIn : A → List A → Type 0
  NotIn x [] = Unit
  NotIn x (y ∷ ys) = (x ≢ y) × NotIn x ys

  abbrev pub Distinct : List A → Type 0
  Distinct [] = Unit
  Distinct (x ∷ xs) = NotIn x xs × Distinct xs

  pub NotIn-ne : (x y : A) (ys : List A) → NotIn x ys → In y ys → x ≢ y
  NotIn-ne x y [] n i q = absurd i
  NotIn-ne x y (z ∷ zs) n (inl e) q = n.0 (q ∙ e)
  NotIn-ne x y (z ∷ zs) n (inr i) q = NotIn-ne x y zs n.1 i q

  pub NotIn-append : (x : A) (xs ys : List A) → NotIn x xs → NotIn x ys → NotIn x (xs ++ ys)
  NotIn-append x [] ys n m = m
  NotIn-append x (y ∷ xs) ys n m = (n.0, NotIn-append x xs ys n.1 m)

  pub NotIn-parts : (x : A) (xs ys : List A) → NotIn x (xs ++ ys) → NotIn x xs × NotIn x ys
  NotIn-parts x [] ys n = (tt, n)
  NotIn-parts x (y ∷ xs) ys n = let (a, b) = NotIn-parts x xs ys n.1 in ((n.0, a), b)

  -- One element of a list, and the others.
  pub Distinct-middle :
      (p : A) (xs ys : List A) → Distinct (xs ++ p ∷ ys) → NotIn p (xs ++ ys) × Distinct (xs ++ ys)
  Distinct-middle p [] ys d = d
  Distinct-middle p (x ∷ xs) ys d =
      let (n, e) = Distinct-middle p xs ys d.1 in
      let (a, b) = NotIn-parts x xs (p ∷ ys) d.0 in
      ((λ q. b.0 (sym q), n), (NotIn-append x xs ys a b.1, e))

  pub NotIn-middle :
      (x p : A) (xs ys : List A) → NotIn x (xs ++ p ∷ ys) → (x ≢ p) × NotIn x (xs ++ ys)
  NotIn-middle x p xs ys n =
      let (a, b) = NotIn-parts x xs (p ∷ ys) n in (b.0, NotIn-append x xs ys a b.1)

  -- The element moved to the front.
  pub Distinct-front : (p : A) (xs ys : List A) → Distinct (xs ++ p ∷ ys) → Distinct (p ∷ xs ++ ys)
  Distinct-front p xs ys d = Distinct-middle p xs ys d

  pub In-middle : (q p : A) (xs ys : List A) → In q (xs ++ p ∷ ys) → (q ≡ p) ⊎ In q (xs ++ ys)
  In-middle q p [] ys i = i
  In-middle q p (x ∷ xs) ys (inl e) = inr (inl e)
  In-middle q p (x ∷ xs) ys (inr i) = elim (In-middle q p xs ys i) [
    | inl e ↦ inl e
    | inr j ↦ inr (inr j)
  ]

  pub In-here : (p : A) (xs ys : List A) → In p (xs ++ p ∷ ys)
  In-here p [] ys = inl refl
  In-here p (x ∷ xs) ys = inr (In-here p xs ys)

  pub Distinct-apart : (q : A) (xs ys : List A) → Distinct (xs ++ ys) → In q xs → NotIn q ys
  Distinct-apart q [] ys d i = absurd i
  Distinct-apart q (x ∷ xs) ys d (inl e) =
      subst (λ z. NotIn z ys) (sym e) (NotIn-parts x xs ys d.0).1
  Distinct-apart q (x ∷ xs) ys d (inr i) = Distinct-apart q xs ys d.1 i

  pub Distinct-last : (p : A) (xs ys : List A) → Distinct (xs ++ p ∷ ys) → Distinct xs × Distinct ys
  Distinct-last p [] ys d = (tt, d.1)
  Distinct-last p (x ∷ xs) ys d =
      let (a, b) = Distinct-last p xs ys d.1 in (((NotIn-parts x xs (p ∷ ys) d.0).0, a), b)

  pub All-middle :
      (P : A → Type 0) (p : A) (xs ys : List A) → All P (xs ++ p ∷ ys) → P p × All P (xs ++ ys)
  All-middle P p [] ys h = h
  All-middle P p (x ∷ xs) ys h = let (a, b) = All-middle P p xs ys h.1 in (a, (h.0, b))

  pub All-In : (x : A) (xs : List A) (P : A → Type 0) → All P xs → In x xs → P x
  All-In x [] P h i = absurd i
  All-In x (y ∷ ys) P h (inl e) = subst P (sym e) h.0
  All-In x (y ∷ ys) P h (inr i) = All-In x ys P h.1 i
