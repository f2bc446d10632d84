-- ===== src/Proxy/Cache/Entries.antt =====
-- What the cache promises: pairs of a key and a value, the one used last in front, and ten at most.
use cmu_15213_csapp3e_lab.Base.{
  ℕ, ◌+◌, Option, none, some, List, [], ◌∷◌, length, ltb, if◌then◌else◌,
}
use cmu_15213_csapp3e_lab.Proxy.Cache.{Key, same_key, max_cache_capacity, max_object_size}

abbrev pub Entry : Type 0
Entry = Key × List ℕ

unfoldable pub lookup : Key → List Entry → Option (List ℕ)
lookup k [] = none
lookup k ((j, v) ∷ es) = if same_key k j then some v else lookup k es

unfoldable pub remove : Key → List Entry → List Entry
remove k [] = []
remove k ((j, v) ∷ es) = if same_key k j then es else (j, v) ∷ remove k es

-- The entry with that key, if there is one, comes to the front.
unfoldable pub promote : Key → List Entry → List Entry
promote k es = elim (lookup k es) [ none ↦ es | some v ↦ (k, v) ∷ remove k es ]

-- A value that is not too long, by what is there: the old value is kept.
abbrev pub store_as : Key → List ℕ → List Entry → Option (List ℕ) → Option (List Entry)
store_as k v es (some w) = some (promote k es)
store_as k v es none = if ltb (length es) max_cache_capacity then some ((k, v) ∷ es) else none

-- What `lRUCachePut` comes to: NULL and a value that is too long are not put in, a key that is there keeps
-- its old value, and a new one on a full cache is never put in, which is `none`.
unfoldable pub store : Key → Option (List ℕ) → List Entry → Option (List Entry)
store k none es = some es
store k (some v) es =
    if ltb max_object_size (length v + 1) then some es else store_as k v es (lookup k es)
