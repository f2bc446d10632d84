-- ===== src/Proxy/Cache/Get.antt =====
-- `lRUCacheGet` on the entries.
use mathlib.Core.Path.{subst}
use cmu_15213_csapp3e_lab.Base.{
  ℕ, ◌<◌, ◌≡◌, ◌≢◌, refl, sym, ap, ◌∙◌, inl, inr, false, Option, none, some, List, ◌∷◌, ◌++◌,
  get_elem?, leb, arith,
}
use cmu_15213_csapp3e_lab.Proxy.Outcome.{done}
use cmu_15213_csapp3e_lab.Proxy.Locks.Alone.{unlock_reader, unlock_writer}
use cmu_15213_csapp3e_lab.Proxy.Cache.{
  Key, Cache, max_cache_capacity, move_to_head, lru_cache_get, lru_cache_get_at,
}
use cmu_15213_csapp3e_lab.Proxy.Cache.Distinct.{All-middle}
use cmu_15213_csapp3e_lab.Proxy.Cache.Entries.{Entry, lookup, promote}
use cmu_15213_csapp3e_lab.Proxy.Cache.Shape.{Item, entries, Holds, Shape, Found, find_item}
use cmu_15213_csapp3e_lab.Proxy.Cache.Scan.{
  lock_reader-Turn, lock_writer-Turn, Shape-locks, get_cache_pos-Absent, get_cache_pos-Present,
}
use cmu_15213_csapp3e_lab.Proxy.Cache.Promote.{move_to_head-Shape}

-- The cache is in order and holds these entries, from the head on.
abbrev pub Represents : Cache → List Entry → Type 0
Represents c es = (zs : List Item) × (entries zs ≡ es) × Shape c zs

get_found :
    (c : Cache) (i : ℕ) (x : Item) (xs ys : List Item)
    → Shape c (xs ++ x ∷ ys)
    → i < max_cache_capacity
    → get_elem? c.cachemap i ≡ some x.node
    → (d : Cache) × (lru_cache_get_at c (some i) ≡ done (some x.value, d)) × Shape d (x ∷ xs ++ ys)
unfolding move_to_head lru_cache_get_at
get_found c i x xs ys s l g =
    let h = (All-middle (Holds c) x xs ys s.holds).0 in
    let t = lock_reader-Turn c.locks s.rest in
    let u = lock_writer-Turn (unlock_reader t.held) t.rest in
    let b : leb max_cache_capacity i ≡ false = ground arith in
    (
      record (move_to_head c x.node) { locks = unlock_writer u.held },
      rw (g, lru_cache_get_at) (rw (b, t.took) (rw (u.took, h.1) refl)),
      Shape-locks (move_to_head c x.node) (x ∷ xs ++ ys) (unlock_writer u.held)
          (move_to_head-Shape c x xs ys s) u.rest,
    )

-- The entries with that key in front, when they are those of a list of items.
pub promoted :
    (k : Key) (zs : List Item) (f : Found k zs)
    → entries (f.item ∷ f.front ++ f.back) ≡ promote k (entries zs)
unfolding promote
promoted k zs f =
    rw (f.got, promote)
      (rw (f.rest) (ap (λ j. (j, f.item.value) ∷ entries (f.front ++ f.back)) f.same))

pub kept :
    (k : Key) (zs : List Item) → lookup k (entries zs) ≡ none → entries zs ≡ promote k (entries zs)
unfolding promote
kept k zs n = rw (n, promote) refl

-- `lRUCacheGet` of a cache at rest returns what is stored under the key, or NULL, and the entry comes to the
-- front; the cache is in order and at rest again.
pub lru_cache_get_lem :
    (c : Cache) (es : List Entry) (k : Key) (now : ℕ)
    → Represents c es
    → now ≢ 0
    → (out : Option (List ℕ) × Cache) × (lru_cache_get c k now ≡ done out)
      × (out.0 ≡ lookup k es)
      × Represents out.1 (promote k es)
unfolding lru_cache_get lru_cache_get_at
lru_cache_get_lem c es k now (zs, e, s) n = elim (find_item k zs) [
  | inl (m, q) ↦
      let a = get_cache_pos-Absent c k now zs s q in
      (
        (none, record c { locks = a.locks }),
        rw (a.result) refl,
        subst (λ w. none ≡ lookup k w) e (sym m),
        (zs, kept k zs m ∙ ap (promote k) e, a.shape),
      )
  | inr f ↦
      let p =
        get_cache_pos-Present c k now f.item f.front f.back (subst (Shape c) f.split s) f.same n in
      let (d, q, t) = get_found p.cache p.place f.item f.front f.back p.shape p.small p.listed in
      (
        (some f.item.value, d),
        rw (p.result) q,
        subst (λ w. some f.item.value ≡ lookup k w) e (sym f.got),
        (f.item ∷ f.front ++ f.back, promoted k zs f ∙ ap (promote k) e, t),
      )
]
