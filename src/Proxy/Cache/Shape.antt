-- ===== src/Proxy/Cache/Shape.antt =====
-- The invariant of the cache: its nodes, from the head to the tail.
use mathlib.Core.Path.{subst}
use cmu_15213_csapp3e_lab.Base.{
  ℕ, ◌+◌, ◌≤◌, ◌≡◌, ◌≢◌, refl, sym, ap, ◌⊎◌, inl, inr, true, false, Bool-cases, none, some, List,
  [], ◌∷◌, ◌++◌, length, All, ◌==◌, if◌then◌else◌, arith, str_eq-eq, str_eq_self,
}
use cmu_15213_csapp3e_lab.Proxy.Locks.{Locks}
use cmu_15213_csapp3e_lab.Proxy.Cache.{Key, Cache, same_key, max_cache_capacity}
use cmu_15213_csapp3e_lab.Proxy.Cache.Chain.{Chain}
use cmu_15213_csapp3e_lab.Proxy.Cache.Distinct.{In, NotIn, Distinct}
use cmu_15213_csapp3e_lab.Proxy.Cache.Entries.{Entry, lookup, remove}

-- a node with its address
pub record Item : Type 0 where
  pub node : ℕ
  pub key : Key
  pub value : List ℕ

abbrev pub nodes : List Item → List ℕ
nodes [] = []
nodes (x ∷ xs) = x.node ∷ nodes xs

abbrev pub keys : List Item → List Key
keys [] = []
keys (x ∷ xs) = x.key ∷ keys xs

pub nodes-append : (xs ys : List Item) → nodes (xs ++ ys) ≡ nodes xs ++ nodes ys
nodes-append [] ys = refl
nodes-append (x ∷ xs) ys = ap (λ zs. x.node ∷ zs) (nodes-append xs ys)

pub keys-append : (xs ys : List Item) → keys (xs ++ ys) ≡ keys xs ++ keys ys
keys-append [] ys = refl
keys-append (x ∷ xs) ys = ap (λ zs. x.key ∷ zs) (keys-append xs ys)

abbrev pub entries : List Item → List Entry
entries [] = []
entries (x ∷ xs) = (x.key, x.value) ∷ entries xs

-- The fields of the node are those of the item, and `get_cache_pos` does not pass it over.
abbrev pub Holds : Cache → Item → Type 0
Holds c x =
    (c.key x.node ≡ some x.key)
    × (c.value x.node ≡ some x.value)
    × (c.timestamp x.node ≢ 0)
    × (x.node ≢ 0)

-- No thread is in a section of the lock.
abbrev pub AtRest : Locks → Type 0
AtRest l = (l.mutex ≡ 1) × (l.w ≡ 1) × (l.readcnt ≡ 0)

pub record Linked (nx pv : ℕ → ℕ) (head tail : ℕ) (ps : List ℕ) : Type 0 where
  pub chain : Chain nx pv head ps tail
  pub behind : Distinct (head ∷ ps)
  pub before : Distinct (tail ∷ ps)
  pub ends : head ≢ tail

abbrev pub used : List ℕ → ℕ
used [] = 0
used (q ∷ qs) = (if q == 0 then 0 else 1) + used qs

-- `cachemap` holds the nodes, and else NULL.
pub record Mapped (m ps : List ℕ) : Type 0 where
  pub size : length m ≡ max_cache_capacity
  pub known : All (λ q. (q ≡ 0) ⊎ In q ps) m
  pub listed : All (λ p. In p m) ps
  pub count : used m ≡ length ps

-- The nodes of the cache are `xs`, from the head on.
pub record Shape (c : Cache) (xs : List Item) : Type 0 where
  pub linked : Linked c.next c.prev c.head c.tail (nodes xs)
  pub distinct : Distinct (keys xs)
  pub holds : All (Holds c) xs
  pub mapped : Mapped c.cachemap (nodes xs)
  pub current : c.current_capacity ≡ length xs
  pub total : c.total_capacity ≡ max_cache_capacity
  pub bound : length xs ≤ max_cache_capacity
  pub rest : AtRest c.locks

pub same_key-eq : (k j : Key) → same_key k j ≡ true → k ≡ j
same_key-eq k j h =
    ground (arith, str_eq-eq k.host j.host, str_eq-eq k.path j.path, str_eq-eq k.port j.port)

pub same_key_self : (k : Key) → same_key k k ≡ true
same_key_self k = ground (arith, str_eq_self k.host, str_eq_self k.path, str_eq_self k.port)

pub same_key_ne : (k j : Key) → k ≢ j → same_key k j ≡ false
same_key_ne k j n = elim (Bool-cases (same_key k j)) [
  | inl e ↦ absurd (n (same_key-eq k j e))
  | inr e ↦ e
]

-- A list of items with one of them, as what is asked for a key.
pub record Found (k : Key) (zs : List Item) : Type 0 where
  pub front : List Item
  pub item : Item
  pub back : List Item
  pub split : zs ≡ front ++ item ∷ back
  pub same : item.key ≡ k
  pub got : lookup k (entries zs) ≡ some item.value
  pub rest : remove k (entries zs) ≡ entries (front ++ back)

pub find_item :
    (k : Key) (zs : List Item) → ((lookup k (entries zs) ≡ none) × NotIn k (keys zs)) ⊎ Found k zs
unfolding lookup remove
find_item k [] = inl (refl, tt)
find_item k (x ∷ zs) = elim (Bool-cases (same_key k x.key)) [
  | inl e ↦ inr (record {
    front = [];
    item = x;
    back = zs;
    split = refl;
    same = sym (same_key-eq k x.key e);
    got = rw (e) refl;
    rest = rw (e) refl;
  })
  | inr e ↦ elim (find_item k zs) [
    | inl (n, m) ↦ inl (
      rw (e) n,
      (λ q. let t = subst (λ z. same_key k z ≡ true) q (same_key_self k) in ground arith, m),
    )
    | inr f ↦ inr (record {
      front = x ∷ f.front;
      item = f.item;
      back = f.back;
      split = ap (λ ws. x ∷ ws) f.split;
      same = f.same;
      got = rw (e) f.got;
      rest = rw (e) (ap (λ ws. (x.key, x.value) ∷ ws) f.rest);
    })
  ]
]
