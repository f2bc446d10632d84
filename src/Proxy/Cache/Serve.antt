-- ===== src/Proxy/Cache/Serve.antt =====
-- `insert_cache` and `read_cache`, as the proxy calls them.
use mathlib.Core.Path.{subst}
use cmu_15213_csapp3e_lab.Base.{
  ℕ, ◌+◌, ◌<◌, ◌≡◌, ◌≢◌, refl, ◌∙◌, true, false, Option, none, some, List, ◌∷◌, length, ltb, arith,
}
use cmu_15213_csapp3e_lab.Proxy.Outcome.{done}
use cmu_15213_csapp3e_lab.Proxy.Cache.{
  Cache, Key, max_object_size, max_cache_capacity, make_the_key, insert_cache, read_cache,
}
use cmu_15213_csapp3e_lab.Proxy.Cache.Entries.{Entry, lookup, store}
use cmu_15213_csapp3e_lab.Proxy.Cache.Shape.{same_key_self}
use cmu_15213_csapp3e_lab.Proxy.Cache.Get.{Represents, lru_cache_get_lem}
use cmu_15213_csapp3e_lab.Proxy.Cache.Put.{Ends, Fresh, lru_cache_put_lem}

store_room :
    (k : Key) (v : List ℕ) (es : List Entry)
    → lookup k es ≡ none
    → length v < max_object_size
    → length es < max_cache_capacity
    → store k (some v) es ≡ some ((k, v) ∷ es)
unfolding store
store_room k v es n h l =
    let a : ltb max_object_size (length v + 1) ≡ false = ground arith in
    let b : ltb (length es) max_cache_capacity ≡ true = ground arith in rw (a, n, b) refl

lookup_front : (k : Key) (v : List ℕ) (es : List Entry) → lookup k ((k, v) ∷ es) ≡ some v
unfolding lookup
lookup_front k v es = rw (same_key_self k) refl

-- A value of fewer than MAX_OBJECT_SIZE bytes that `insert_cache` puts under a new key, while the cache is at rest and
-- not full, is what `read_cache` returns for this key afterwards; both calls end.
pub read_cache-insert_cache :
    (c : Cache) (es : List Entry) (host port path v : List ℕ) (now later p : ℕ)
    → Represents c es
    → now ≢ 0
    → later ≢ 0
    → Fresh c p
    → lookup (make_the_key host port path) es ≡ none
    → length v < max_object_size
    → length es < max_cache_capacity
    → (d : Cache) × (insert_cache c host port path (some v) now p ≡ done d)
      × ((out : Option (List ℕ) × Cache) × (read_cache d (make_the_key host port path) later
            ≡ done out)
          × (out.0 ≡ some v))
unfolding insert_cache read_cache
read_cache-insert_cache c es host port path v now later p r n m f q h l =
    let k = make_the_key host port path in
    let (d, e, s) =
      subst (Ends (insert_cache c host port path (some v) now p)) (store_room k v es q h l)
        (lru_cache_put_lem c es k (some v) now p r n f) in
    let (out, g, w, t) = lru_cache_get_lem d ((k, v) ∷ es) k later s m in
    (d, e, (out, g, w ∙ lookup_front k v es))
