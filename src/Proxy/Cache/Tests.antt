-- ===== src/Proxy/Cache/Tests.antt =====
-- A cache with its head at 8 and its tail at 16, and keys and values of a few bytes.
use cmu_15213_csapp3e_lab.Base.{
  ℕ, zero, suc, ◌+◌, ◌*◌, ◌≡◌, refl, Option, none, some, List, [], ◌∷◌, arith,
}
use cmu_15213_csapp3e_lab.Proxy.Outcome.{Outcome, done, stuck, fault, ◌>>=◌}
use cmu_15213_csapp3e_lab.Proxy.Locks.Alone.{lock_reader, unlock_reader, lock_writer, unlock_writer}
use cmu_15213_csapp3e_lab.Proxy.Cache.{
  Cache, Key, make_the_key, insert_cache, read_cache, matches, scan, refresh, get_cache_pos,
  move_to_head, create_after_head, delete_from_tail, get_free_cache_pos, init_cache_node,
  lru_cache_create, lru_cache_get_at, lru_cache_get, make_room, put_new, lru_cache_put,
}
use cmu_15213_csapp3e_lab.Proxy.Cache.Entries.{lookup, promote, store}
use cmu_15213_csapp3e_lab.Proxy.Cache.Get.{Represents, lru_cache_get_lem}
use cmu_15213_csapp3e_lab.Proxy.Cache.Put.{Ends, lru_cache_put_lem}
use cmu_15213_csapp3e_lab.Proxy.Cache.Serve.{read_cache-insert_cache}
use cmu_15213_csapp3e_lab.Proxy.Cache.Create.{lru_cache_create_lem}

abbrev no_nodes : Cache
no_nodes = record {
  total_capacity = 0;
  current_capacity = 0;
  head = 0;
  tail = 0;
  cachemap = [];
  value = λ q. none;
  key = λ q. none;
  prev = λ q. 0;
  next = λ q. 0;
  timestamp = λ q. 0;
  locks = record { mutex = 1; w = 1; readcnt = 0; is_prev_write = 0 };
}

empty : Cache
empty = lru_cache_create no_nodes 8 16

empty-Represents : Represents empty []
unfolding empty
empty-Represents = lru_cache_create_lem no_nodes 8 16 (omega arith) (refl, refl, refl)

abbrev key_of : ℕ → Key
key_of n = record { host = n ∷ []; port = []; path = 47 ∷ [] }

lru_cache_put_lem_example :
    Ends
      (lru_cache_put empty (key_of 1) (some (65 ∷ [])) 5 24)
      (store (key_of 1) (some (65 ∷ [])) [])
unfolding empty lru_cache_create
lru_cache_put_lem_example =
    lru_cache_put_lem empty [] (key_of 1) (some (65 ∷ [])) 5 24 empty-Represents (omega arith)
      (omega arith)

one_entry :
    (d : Cache) × (lru_cache_put empty (key_of 1) (some (65 ∷ [])) 5 24 ≡ done d)
    × Represents d ((key_of 1, 65 ∷ []) ∷ [])
unfolding store lookup
one_entry = lru_cache_put_lem_example

lru_cache_get_lem_example :
    (out : Option (List ℕ) × Cache) × (lru_cache_get one_entry.0 (key_of 1) 6 ≡ done out)
    × (out.0 ≡ lookup (key_of 1) ((key_of 1, 65 ∷ []) ∷ []))
    × Represents out.1 (promote (key_of 1) ((key_of 1, 65 ∷ []) ∷ []))
lru_cache_get_lem_example =
    lru_cache_get_lem one_entry.0 ((key_of 1, 65 ∷ []) ∷ []) (key_of 1) 6 one_entry.2 (omega arith)

-- `n` keys put in, each with a node of its own
fill : ℕ → Outcome Cache
fill zero = done empty
fill (suc n) = fill n >>= λ d. lru_cache_put d (key_of n) (some (n ∷ [])) 5 (24 + 8 * n)

abbrev taken : Outcome (Option (List ℕ) × Cache) → Outcome (Option (List ℕ))
taken (done (v, d)) = done v
taken stuck = stuck
taken fault = fault

ten_fit : taken (fill 10 >>= λ d. lru_cache_get d (key_of 3) 7) ≡ done (some (3 ∷ []))
unfolding fill empty lru_cache_create lru_cache_put lru_cache_get get_cache_pos lock_reader
    init_cache_node scan matches put_new lock_writer unlock_reader make_room get_free_cache_pos
    create_after_head unlock_writer refresh lru_cache_get_at move_to_head
ten_fit = refl

eleven_wait : fill 11 ≡ stuck
unfolding fill empty lru_cache_create lru_cache_put get_cache_pos lock_reader init_cache_node scan
    matches put_new lock_writer unlock_reader make_room get_free_cache_pos create_after_head
    unlock_writer delete_from_tail
eleven_wait = refl

read_cache-insert_cache_example :
    (d : Cache) × (insert_cache empty (1 ∷ []) [] (47 ∷ []) (some (65 ∷ [])) 5 24 ≡ done d)
    × ((out : Option (List ℕ) × Cache) × (read_cache d (make_the_key (1 ∷ []) [] (47 ∷ [])) 6
          ≡ done out)
        × (out.0 ≡ some (65 ∷ [])))
unfolding empty lru_cache_create lookup
read_cache-insert_cache_example =
    read_cache-insert_cache empty [] (1 ∷ []) [] (47 ∷ []) (65 ∷ []) 5 6 24 empty-Represents
      (omega arith) (omega arith) (omega arith) refl (omega arith) (omega arith)
