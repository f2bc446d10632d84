-- ===== src/Proxy/Cache/Scan.antt =====
-- `get_cache_pos`: it finds the node with the key, or says that there is none.
use mathlib.Core.Path.{subst}
use cmu_15213_csapp3e_lab.Base.{
  ℕ, suc, ◌+◌, ◌<◌, ◌≡◌, ◌≢◌, refl, sym, ap, ◌∙◌, ◌⊎◌, inl, inr, true, false, none, some, List, [],
  ◌∷◌, ◌++◌, length, get_elem?, All, All-mono, by_if, ◌==◌, arith,
}
use cmu_15213_csapp3e_lab.Proxy.Outcome.{Outcome, done, stuck, ◌>>=◌}
use cmu_15213_csapp3e_lab.Proxy.Locks.{Locks}
use cmu_15213_csapp3e_lab.Proxy.Locks.Alone.{lock_reader, unlock_reader, lock_writer, unlock_writer}
use cmu_15213_csapp3e_lab.Proxy.Cache.{
  Key, Cache, same_key, max_cache_capacity, matches, scan, at, refresh, get_cache_pos,
}
use cmu_15213_csapp3e_lab.Proxy.Cache.Distinct.{
  In, NotIn, Distinct, In-middle, Distinct-middle, In-here, All-middle, All-In,
}
use cmu_15213_csapp3e_lab.Proxy.Cache.Shape.{
  Item, nodes, keys, nodes-append, keys-append, Holds, AtRest, Shape, same_key_ne, same_key_self,
}

-- the lock, taken and given back
pub record Turn (r : Outcome Locks) (back : Locks → Locks) : Type 0 where
  pub held : Locks
  pub took : r ≡ done held
  pub rest : AtRest (back held)

pub lock_reader-Turn : (l : Locks) → AtRest l → Turn (lock_reader l) unlock_reader
unfolding lock_reader unlock_reader
lock_reader-Turn l (a, b, c) = record {
  held = record l { mutex = 0; w = 0; readcnt = 1 };
  took = ground arith;
  rest = (refl, refl, refl);
}

pub lock_writer-Turn : (l : Locks) → AtRest l → Turn (lock_writer l) unlock_writer
unfolding lock_writer unlock_writer
lock_writer-Turn l (a, b, c) = record {
  held = record l { w = 0 };
  took = ground arith;
  rest = (a, refl, c);
}

-- A reader that waits for the writer waits for ever when they are one thread.
pub reader_stuck : (l : Locks) → AtRest l → (lock_writer l >>= lock_reader) ≡ stuck
unfolding lock_reader lock_writer
reader_stuck l (a, b, c) = ground arith

Holds-matches : (c : Cache) (k : Key) (x : Item) → Holds c x → matches c k x.node ≡ same_key k x.key
unfolding matches
Holds-matches c k x h =
    let a : (x.node == 0) ≡ false = ground arith in
    let b : (c.timestamp x.node == 0) ≡ false = ground arith in rw (a, h.0, b) refl

no_match :
    (c : Cache) (k : Key) (q : ℕ) (zs : List Item)
    → All (Holds c) zs
    → NotIn k (keys zs)
    → In q (nodes zs)
    → matches c k q ≡ false
no_match c k q [] h n i = absurd i
no_match c k q (x ∷ zs) h n (inl e) =
    subst (λ z. matches c k z ≡ false) (sym e) (Holds-matches c k x h.0 ∙ same_key_ne k x.key n.0)
no_match c k q (x ∷ zs) h n (inr i) = no_match c k q zs h.1 n.1 i

null_match : (c : Cache) (k : Key) (q : ℕ) → q ≡ 0 → matches c k q ≡ false
unfolding matches
null_match c k q e = ground arith

scan-none :
    (c : Cache) (k : Key) (i : ℕ) (zs : List Item) (m : List ℕ)
    → All (Holds c) zs
    → NotIn k (keys zs)
    → All (λ q. (q ≡ 0) ⊎ In q (nodes zs)) m
    → scan c k i m ≡ none
unfolding scan
scan-none c k i zs [] h n a = refl
scan-none c k i zs (q ∷ m) h n a =
    let e : matches c k q ≡ false = elim a.0 [
      | inl z ↦ null_match c k q z
      | inr j ↦ no_match c k q zs h n j
    ] in
    rw (e) (scan-none c k (suc i) zs m h n a.1)

scan-some :
    (c : Cache) (k : Key) (i p : ℕ) (m : List ℕ)
    → matches c k p ≡ true
    → All (λ q. (q ≡ p) ⊎ (matches c k q ≡ false)) m
    → In p m
    → (j : ℕ) × (scan c k i m ≡ some (i + j)) × (get_elem? m j ≡ some p) × (j < length m)
unfolding scan
scan-some c k i p [] e a n = absurd n
scan-some c k i p (q ∷ m) e a n = elim a.0 [
  | inl f ↦
      let g : matches c k q ≡ true = subst (λ z. matches c k z ≡ true) (sym f) e in
      let z : i ≡ i + 0 = omega arith in (0, rw (g) (ap some z), ap some f, omega arith)
  | inr f ↦ elim n [
    | inl g ↦ let w = subst (λ z. matches c k z ≡ false) (sym g) f in ground arith
    | inr g ↦
        let (j, s, t, u) = scan-some c k (suc i) p m e a.1 g in
        let z : suc i + j ≡ i + suc j = omega arith in
        (suc j, rw (f) (s ∙ ap some z), t, omega arith)
  ]
]

pub Shape-locks :
    (c : Cache) (zs : List Item) (l : Locks)
    → Shape c zs
    → AtRest l
    → Shape (record c { locks = l }) zs
Shape-locks c zs l s r = record {
  linked = s.linked;
  distinct = s.distinct;
  holds = s.holds;
  mapped = s.mapped;
  current = s.current;
  total = s.total;
  bound = s.bound;
  rest = r;
}

Shape-time :
    (c : Cache) (zs : List Item) (p now : ℕ) (l : Locks)
    → Shape c zs
    → now ≢ 0
    → AtRest l
    → Shape (record c { timestamp = at c.timestamp p now; locks = l }) zs
Shape-time c zs p now l s n r = record {
  linked = s.linked;
  distinct = s.distinct;
  holds =
      All-mono zs
        (λ x h. (
          h.0,
          h.1,
          by_if (λ z. z ≢ 0) (x.node == p) now (c.timestamp x.node) (λ e. n) (λ e. h.2),
          h.3,
        ))
        s.holds;
  mapped = s.mapped;
  current = s.current;
  total = s.total;
  bound = s.bound;
  rest = r;
}

-- No node has the key.
pub record Absent (c : Cache) (k : Key) (now : ℕ) (zs : List Item) : Type 0 where
  pub locks : Locks
  pub result : get_cache_pos c (some k) now ≡ done (none, record c { locks = locks })
  pub shape : Shape (record c { locks = locks }) zs

pub get_cache_pos-Absent :
    (c : Cache) (k : Key) (now : ℕ) (zs : List Item)
    → Shape c zs
    → NotIn k (keys zs)
    → Absent c k now zs
unfolding get_cache_pos
get_cache_pos-Absent c k now zs s n =
    let t = lock_reader-Turn c.locks s.rest in
    let e = scan-none c k 0 zs c.cachemap s.holds n s.mapped.known in
    record {
      locks = unlock_reader t.held;
      result = rw (t.took, e) refl;
      shape = Shape-locks c zs (unlock_reader t.held) s t.rest;
    }

-- The node `p` has it.
pub record Present (c : Cache) (k : Key) (now p : ℕ) (zs : List Item) : Type 0 where
  pub cache : Cache
  pub place : ℕ
  pub result : get_cache_pos c (some k) now ≡ done (some place, cache)
  pub small : place < max_cache_capacity
  pub listed : get_elem? cache.cachemap place ≡ some p
  pub shape : Shape cache zs

others_differ :
    (c : Cache) (k : Key) (x : Item) (xs ys : List Item)
    → All (Holds c) (xs ++ x ∷ ys)
    → Distinct (keys (xs ++ x ∷ ys))
    → x.key ≡ k
    → (q : ℕ) → (q ≡ 0) ⊎ In q (nodes (xs ++ x ∷ ys))
    → (q ≡ x.node) ⊎ (matches c k q ≡ false)
others_differ c k x xs ys h d e q (inl z) = inr (null_match c k q z)
others_differ c k x xs ys h d e q (inr i) =
    let g = All-middle (Holds c) x xs ys h in
    let d2 =
      Distinct-middle x.key (keys xs) (keys ys) (subst Distinct (keys-append xs (x ∷ ys)) d) in
    let n = subst (λ z. NotIn z (keys xs ++ keys ys)) e d2.0 in
    elim (In-middle q x.node (nodes xs) (nodes ys) (subst (In q) (nodes-append xs (x ∷ ys)) i)) [
      | inl f ↦ inl f
      | inr f ↦ inr (
          no_match c k q (xs ++ ys) g.1 (subst (NotIn k) (sym (keys-append xs ys)) n)
            (subst (In q) (sym (nodes-append xs ys)) f))
    ]

refresh_lem :
    (c : Cache) (j p now : ℕ) (u : Turn (lock_writer c.locks) unlock_writer)
    → get_elem? c.cachemap j ≡ some p
    → p ≢ 0
    → c.timestamp p ≢ 0
    → refresh c j now
      ≡ done (record c { timestamp = at c.timestamp p now; locks = unlock_writer u.held })
unfolding refresh
refresh_lem c j p now u g n m =
    let a : (p == 0) ≡ false = ground arith in
    let b : (c.timestamp p == 0) ≡ false = ground arith in rw (g, refresh) (rw (a, b, u.took) refl)

pub get_cache_pos-Present :
    (c : Cache) (k : Key) (now : ℕ) (x : Item) (xs ys : List Item)
    → Shape c (xs ++ x ∷ ys)
    → x.key ≡ k
    → now ≢ 0
    → Present c k now x.node (xs ++ x ∷ ys)
unfolding get_cache_pos
get_cache_pos-Present c k now x xs ys s e n =
    let p = x.node in
    let zs = xs ++ x ∷ ys in
    let h = (All-middle (Holds c) x xs ys s.holds).0 in
    let t = lock_reader-Turn c.locks s.rest in
    let u = lock_writer-Turn (unlock_reader t.held) t.rest in
    let m = Holds-matches c k x h ∙ ap (same_key k) e ∙ same_key_self k in
    let ins = subst (In p) (sym (nodes-append xs (x ∷ ys))) (In-here p (nodes xs) (nodes ys)) in
    let (j, f, g, w) =
      scan-some c k 0 p c.cachemap m
        (All-mono c.cachemap (others_differ c k x xs ys s.holds s.distinct e) s.mapped.known)
        (All-In p (nodes zs) (λ q. In q c.cachemap) s.mapped.listed ins) in
    let z : 0 + j ≡ j = omega arith in
    let d = record c { locks = unlock_reader t.held } in
    record {
      cache = record c { timestamp = at c.timestamp p now; locks = unlock_writer u.held };
      place = j;
      result = rw (t.took, f ∙ ap some z, refresh_lem d j p now u g h.3 h.2) refl;
      small = omega (arith, w, s.mapped.size);
      listed = g;
      shape = Shape-time c zs p now (unlock_writer u.held) s n u.rest;
    }
