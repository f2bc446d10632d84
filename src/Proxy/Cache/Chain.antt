-- ===== src/Proxy/Cache/Chain.antt =====
-- Doubly linked lists: a node taken out, and a node put in.
use mathlib.Core.Path.{subst}
use mathlib.Core.List.{append-nil}
use cmu_15213_csapp3e_lab.Base.{
  ℕ, ◌≡◌, ◌≢◌, refl, sym, ap, ◌∙◌, inl, inr, List, [], ◌∷◌, ◌++◌, arith,
}
use cmu_15213_csapp3e_lab.Proxy.Cache.{at}
use cmu_15213_csapp3e_lab.Proxy.Cache.Distinct.{In, NotIn, NotIn-ne, Distinct}

-- From `a` on, `next` leads through `ps` to `b`, and `prev` back.
abbrev pub Chain : (ℕ → ℕ) → (ℕ → ℕ) → ℕ → List ℕ → ℕ → Type 0
Chain nx pv a [] b = (nx a ≡ b) × (pv b ≡ a)
Chain nx pv a (p ∷ ps) b = ((nx a ≡ p) × (pv p ≡ a)) × Chain nx pv p ps b

pub at_self {ℓ} : {A : Type ℓ} (f : ℕ → A) (p : ℕ) (v : A) → at f p v p ≡ v
at_self f p v = ground arith

pub at_ne {ℓ} : {A : Type ℓ} (f : ℕ → A) (p q : ℕ) (v : A) → p ≢ q → at f p v q ≡ f q
at_ne f p q v n = ground arith

pub Chain-join :
    (nx pv : ℕ → ℕ) (a p b : ℕ) (xs ys : List ℕ)
    → Chain nx pv a xs p
    → Chain nx pv p ys b
    → Chain nx pv a (xs ++ p ∷ ys) b
Chain-join nx pv a p b [] ys c d = (c, d)
Chain-join nx pv a p b (x ∷ xs) ys c d = (c.0, Chain-join nx pv x p b xs ys c.1 d)

pub Chain-split :
    (nx pv : ℕ → ℕ) (a p b : ℕ) (xs ys : List ℕ)
    → Chain nx pv a (xs ++ p ∷ ys) b
    → Chain nx pv a xs p × Chain nx pv p ys b
Chain-split nx pv a p b [] ys c = (c.0, c.1)
Chain-split nx pv a p b (x ∷ xs) ys c =
    let (l, r) = Chain-split nx pv x p b xs ys c.1 in ((c.0, l), r)

-- writes elsewhere
pub Chain-next :
    (nx pv : ℕ → ℕ) (q v a b : ℕ) (ps : List ℕ)
    → NotIn q (a ∷ ps)
    → Chain nx pv a ps b
    → Chain (at nx q v) pv a ps b
Chain-next nx pv q v a b [] n c = (at_ne nx q a v n.0 ∙ c.0, c.1)
Chain-next nx pv q v a b (p ∷ ps) n c =
    ((at_ne nx q a v n.0 ∙ c.0.0, c.0.1), Chain-next nx pv q v p b ps n.1 c.1)

pub Chain-prev :
    (nx pv : ℕ → ℕ) (q v a b : ℕ) (ps : List ℕ)
    → NotIn q (b ∷ ps)
    → Chain nx pv a ps b
    → Chain nx (at pv q v) a ps b
Chain-prev nx pv q v a b [] n c = (c.0, at_ne pv q b v n.0 ∙ c.1)
Chain-prev nx pv q v a b (p ∷ ps) n c =
    ((c.0.0, at_ne pv q p v n.1.0 ∙ c.0.1), Chain-prev nx pv q v p b ps (n.0, n.1.1) c.1)

pub prev-In : (nx pv : ℕ → ℕ) (a p : ℕ) (xs : List ℕ) → Chain nx pv a xs p → In (pv p) (a ∷ xs)
prev-In nx pv a p [] c = inl c.1
prev-In nx pv a p (x ∷ xs) c = inr (prev-In nx pv x p xs c.1)

-- The end of a chain made another one.
retarget :
    (nx pv : ℕ → ℕ) (a p r : ℕ) (xs : List ℕ)
    → Chain nx pv a xs p
    → Distinct (a ∷ xs)
    → NotIn r (a ∷ xs)
    → Chain (at nx (pv p) r) (at pv r (pv p)) a xs r
retarget nx pv a p r [] c d n =
    (ap (λ x. at nx x r a) c.1 ∙ at_self nx a r, at_self pv r (pv p) ∙ c.1)
retarget nx pv a p r (x ∷ xs) c d n =
    let e = NotIn-ne a (pv p) (x ∷ xs) d.0 (prev-In nx pv x p xs c.1) in
    (
      (at_ne nx (pv p) a r (λ q. e (sym q)) ∙ c.0.0, at_ne pv r x (pv p) n.1.0 ∙ c.0.1),
      retarget nx pv x p r xs c.1 d.1 n.1,
    )

apart_from : (b : ℕ) (xs : List ℕ) → ((q : ℕ) → In q xs → q ≢ b) → NotIn b xs
apart_from b [] h = tt
apart_from b (x ∷ xs) h = (λ e. h x (inl refl) (sym e), apart_from b xs (λ q i. h q (inr i)))

-- The two writes that take a node out.
pub unlink :
    (nx pv : ℕ → ℕ) (a p b : ℕ) (xs ys : List ℕ)
    → Chain nx pv a (xs ++ p ∷ ys) b
    → Distinct (a ∷ xs)
    → Distinct (b ∷ ys)
    → ((q : ℕ) → In q (a ∷ xs) → NotIn q (b ∷ ys))
    → Chain (at nx (pv p) (nx p)) (at pv (nx p) (pv p)) a (xs ++ ys) b
unlink nx pv a p b xs [] c d e apart =
    let (c1, c2) = Chain-split nx pv a p b xs [] c in
    let n = apart_from b (a ∷ xs) (λ q i. (apart q i).0) in
    subst (λ r. Chain (at nx (pv p) r) (at pv r (pv p)) a (xs ++ []) b) (sym c2.0)
      (subst (λ zs. Chain (at nx (pv p) b) (at pv b (pv p)) a zs b) (sym (append-nil xs))
        (retarget nx pv a p b xs c1 d n))
unlink nx pv a p b xs (y ∷ ys) c d e apart =
    let (c1, c2) = Chain-split nx pv a p b xs (y ∷ ys) c in
    let n = apart_from y (a ∷ xs) (λ q i. (apart q i).1.0) in
    let f = apart (pv p) (prev-In nx pv a p xs c1) in
    subst (λ r. Chain (at nx (pv p) r) (at pv r (pv p)) a (xs ++ y ∷ ys) b) (sym c2.0.0)
      (Chain-join (at nx (pv p) y) (at pv y (pv p)) a y b xs ys (retarget nx pv a p y xs c1 d n) (
        Chain-prev (at nx (pv p) y) pv y (pv p) y b ys (λ q. e.0.0 (sym q), e.1.0)
          (Chain-next nx pv (pv p) y y b ys f.1 c2.1)))

linked :
    (nx pv : ℕ → ℕ) (a p b : ℕ) (ps : List ℕ)
    → Chain nx pv a ps b
    → NotIn p (a ∷ b ∷ ps)
    → NotIn a ps
    → Distinct (b ∷ ps)
    → Chain (at (at nx p (nx a)) a p) (at (at pv p a) (nx a) p) a (p ∷ ps) b
linked nx pv a p b [] c n d e = ground arith
linked nx pv a p b (q ∷ ps) c n d e = (
  ground arith,
  (
    ground arith,
    let nx1 = at nx p (nx a) in
        let nx2 = at nx1 a p in
        let pv1 = at pv p a in
        subst (λ r. Chain nx2 (at pv1 r p) q ps b) (sym c.0.0)
          (Chain-prev nx2 pv1 q p q b ps (λ i. e.0.0 (sym i), e.1.0)
            (Chain-prev nx2 pv p a q b ps (n.1.0, n.1.1.1)
              (Chain-next nx1 pv a p q b ps d (Chain-next nx pv p (nx a) q b ps n.1.1 c.1)))),
  ),
)

-- The four writes that put a node behind `a`.
pub link :
    (nx pv : ℕ → ℕ) (a p b : ℕ) (ps : List ℕ)
    → Chain nx pv a ps b
    → NotIn p (a ∷ b ∷ ps)
    → NotIn a ps
    → Distinct (b ∷ ps)
    → (let nx1 = at nx p (nx a) in
        let pv1 = at pv p a in Chain (at nx1 a p) (at pv1 (nx1 a) p) a (p ∷ ps) b)
link nx pv a p b ps c n d e =
    let k = at_ne nx p a (nx a) n.0 in
    subst (λ r. Chain (at (at nx p (nx a)) a p) (at (at pv p a) r p) a (p ∷ ps) b) (sym k)
      (linked nx pv a p b ps c n d e)
