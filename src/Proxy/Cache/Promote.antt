-- ===== src/Proxy/Cache/Promote.antt =====
-- `MoveToHead` and `CreateAfterHead` on the nodes of the cache.
use mathlib.Core.Path.{subst}
use cmu_15213_csapp3e_lab.Base.{
  ℕ, suc, ◌≡◌, refl, sym, ap, ◌∙◌, inl, inr, List, [], ◌∷◌, ◌++◌, length, All-mono, arith,
}
use cmu_15213_csapp3e_lab.Proxy.Cache.{Cache, at, move_to_head}
use cmu_15213_csapp3e_lab.Proxy.Cache.Chain.{Chain, unlink, link}
use cmu_15213_csapp3e_lab.Proxy.Cache.Distinct.{
  In, NotIn, NotIn-parts, NotIn-ne, Distinct, In-middle, Distinct-middle, Distinct-apart,
  Distinct-last, All-middle,
}
use cmu_15213_csapp3e_lab.Proxy.Cache.Shape.{
  Item, nodes, keys, nodes-append, keys-append, Holds, Linked, Mapped, Shape,
}

NotIn-move :
    {A : Type 0} (q p : A) (xs ys : List A) → NotIn q (xs ++ p ∷ ys) → NotIn q (p ∷ xs ++ ys)
NotIn-move q p [] ys n = n
NotIn-move q p (x ∷ xs) ys n = let m = NotIn-move q p xs ys n.1 in (m.0, (n.0, m.1))

apart :
    (nx pv : ℕ → ℕ) (h t p : ℕ) (xs ys : List ℕ)
    → Linked nx pv h t (xs ++ p ∷ ys)
    → (q : ℕ) → In q (h ∷ xs)
    → NotIn q (t ∷ ys)
apart nx pv h t p xs ys l q (inl e) =
    subst (λ z. NotIn z (t ∷ ys)) (sym e) (l.ends, (NotIn-parts h xs (p ∷ ys) l.behind.0).1.1)
apart nx pv h t p xs ys l q (inr i) = (
  λ z. NotIn-ne t q xs (NotIn-parts t xs (p ∷ ys) l.before.0).0 i (sym z),
  (Distinct-apart q xs (p ∷ ys) l.behind.1 i).1,
)

-- The six writes of `MoveToHead`.
Linked-move :
    (nx pv : ℕ → ℕ) (h t p : ℕ) (xs ys : List ℕ)
    → Linked nx pv h t (xs ++ p ∷ ys)
    → (let nx1 = at nx (pv p) (nx p) in
        let pv1 = at pv (nx1 p) (pv p) in
        let nx2 = at nx1 p (nx1 h) in
        let pv2 = at pv1 p h in Linked (at nx2 h p) (at pv2 (nx2 h) p) h t (p ∷ xs ++ ys))
Linked-move nx pv h t p xs ys l =
    let e : at nx (pv p) (nx p) p ≡ nx p = ground arith in
    let b = NotIn-move h p xs ys l.behind.0 in
    let a = NotIn-move t p xs ys l.before.0 in
    let d = Distinct-middle p xs ys l.behind.1 in
    let k = Distinct-last p xs ys l.behind.1 in
    let nh = NotIn-parts h xs (p ∷ ys) l.behind.0 in
    let nt = NotIn-parts t xs (p ∷ ys) l.before.0 in
    let nx1 = at nx (pv p) (nx p) in
    let nx2 = at nx1 p (nx1 h) in
    let u =
      unlink nx pv h p t xs ys l.chain (nh.0, k.0) (nt.1.1, k.1) (apart nx pv h t p xs ys l) in
    let w =
      link nx1 (at pv (nx p) (pv p)) h p t (xs ++ ys) u (λ i. b.0 (sym i), (λ i. a.0 (sym i), d.0))
        b.1 (a.1, d.1) in
    record {
      chain =
          subst
            (λ z. Chain (at nx2 h p) (at (at (at pv z (pv p)) p h) (nx2 h) p) h (p ∷ xs ++ ys) t)
            (sym e) w;
      behind = (b, d);
      before = (a, d);
      ends = l.ends;
    }

pub Linked-create :
    (nx pv : ℕ → ℕ) (h t p : ℕ) (ps : List ℕ)
    → Linked nx pv h t ps
    → NotIn p (h ∷ t ∷ ps)
    → (let nx1 = at nx p (nx h) in
        let pv1 = at pv p h in Linked (at nx1 h p) (at pv1 (nx1 h) p) h t (p ∷ ps))
Linked-create nx pv h t p ps l n = record {
  chain = link nx pv h p t ps l.chain n l.behind.0 l.before;
  behind = ((λ i. n.0 (sym i), l.behind.0), (n.1.1, l.behind.1));
  before = ((λ i. n.1.0 (sym i), l.before.0), (n.1.1, l.before.1));
  ends = l.ends;
}

length-move : (p : ℕ) (xs ys : List ℕ) → length (xs ++ p ∷ ys) ≡ length (p ∷ xs ++ ys)
length-move p [] ys = refl
length-move p (x ∷ xs) ys = ap suc (length-move p xs ys)

Mapped-move :
    (m : List ℕ) (p : ℕ) (xs ys : List ℕ) → Mapped m (xs ++ p ∷ ys) → Mapped m (p ∷ xs ++ ys)
Mapped-move m p xs ys d = record {
  size = d.size;
  known =
      All-mono m (λ q o. elim o [ inl z ↦ inl z | inr i ↦ inr (In-middle q p xs ys i) ]) d.known;
  listed = All-middle (λ q. In q m) p xs ys d.listed;
  count = d.count ∙ length-move p xs ys;
}

length_items : (x : Item) (xs ys : List Item) → length (xs ++ x ∷ ys) ≡ length (x ∷ xs ++ ys)
length_items x [] ys = refl
length_items x (y ∷ xs) ys = ap suc (length_items x xs ys)

pub move_to_head-Shape :
    (c : Cache) (x : Item) (xs ys : List Item)
    → Shape c (xs ++ x ∷ ys)
    → Shape (move_to_head c x.node) (x ∷ xs ++ ys)
unfolding move_to_head
move_to_head-Shape c x xs ys s =
    let n = nodes-append xs (x ∷ ys) in
    let n2 = ap (λ z. x.node ∷ z) (sym (nodes-append xs ys)) in
    let k = subst Distinct (keys-append xs (x ∷ ys)) s.distinct in
    let k2 = ap (λ z. x.key ∷ z) (sym (keys-append xs ys)) in
    let l =
      Linked-move c.next c.prev c.head c.tail x.node (nodes xs) (nodes ys)
        (subst (λ z. Linked c.next c.prev c.head c.tail z) n s.linked) in
    let d = move_to_head c x.node in
    record {
      linked = subst (λ z. Linked d.next d.prev c.head c.tail z) n2 l;
      distinct = subst Distinct k2 (Distinct-middle x.key (keys xs) (keys ys) k);
      holds = All-middle (Holds c) x xs ys s.holds;
      mapped = subst (Mapped c.cachemap) n2 (
          Mapped-move c.cachemap x.node (nodes xs) (nodes ys)
            (subst (Mapped c.cachemap) n s.mapped));
      current = s.current ∙ length_items x xs ys;
      total = s.total;
      bound = omega (arith, s.bound, length_items x xs ys);
      rest = s.rest;
    }
