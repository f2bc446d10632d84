-- ===== src/Proxy/Cache.antt =====
-- The cache of lrucache.c. Pointers are numbers, and 0 is NULL; a field of the nodes is a function from
-- their addresses. What `malloc` and `gettimeofday` answer are arguments.
pub mod Chain
pub mod Distinct
pub mod Entries
pub mod Shape
pub mod Scan
pub mod Promote
pub mod Get
pub mod Slots
pub mod Put
pub mod Create
pub mod Serve
mod Tests
use cmu_15213_csapp3e_lab.Base.{
  ℕ, zero, suc, ◌+◌, ◌-◌, ◌*◌, ◌^◌, Bool, true, false, not, ◌&&◌, ◌||◌, Option, none, some, List,
  [], ◌∷◌, length, get_elem?, set, replicate, ltb, leb, ◌==◌, if◌then◌else◌, str_eq,
}
use cmu_15213_csapp3e_lab.Proxy.Outcome.{Outcome, done, stuck, fault, ◌>>=◌}
use cmu_15213_csapp3e_lab.Proxy.Locks.{Locks}
use cmu_15213_csapp3e_lab.Proxy.Locks.Alone.{lock_reader, unlock_reader, lock_writer, unlock_writer}

abbrev pub max_object_size : ℕ
max_object_size = 102400

abbrev pub max_cache_capacity : ℕ
max_cache_capacity = 10

pub record Key : Type 0 where
  pub host : List ℕ
  pub port : List ℕ
  pub path : List ℕ

-- `obj`, the fields of all nodes, and the lock.
pub record Cache : Type 0 where
  pub total_capacity : ℕ
  pub current_capacity : ℕ
  pub head : ℕ
  pub tail : ℕ
  pub cachemap : List ℕ
  pub value : ℕ → Option (List ℕ)
  pub key : ℕ → Option Key
  pub prev : ℕ → ℕ
  pub next : ℕ → ℕ
  pub timestamp : ℕ → ℕ
  pub locks : Locks

-- a write of a node's field
abbrev pub at {ℓ} : {A : Type ℓ} → (ℕ → A) → ℕ → A → ℕ → A
at f p v q = if q == p then v else f q

abbrev pub same_key : Key → Key → Bool
same_key k j = str_eq k.host j.host && (str_eq k.path j.path && str_eq k.port j.port)

-- the tests on one entry of `cachemap`: those that `continue`, and the comparison
unfoldable pub matches : Cache → Key → ℕ → Bool
matches c k p = if p == 0 then false else elim (c.key p) [
  | none ↦ false
  | some j ↦ if c.timestamp p == 0 then false else same_key k j
]

-- the loop of `get_cache_pos`, from entry `i` on
unfoldable pub scan : Cache → Key → ℕ → List ℕ → Option ℕ
scan c k i [] = none
scan c k i (p ∷ ps) = if matches c k p then some i else scan c k (suc i) ps

-- the end of `get_cache_pos`: the new timestamp of the node that was found
unfoldable pub refresh : Cache → ℕ → ℕ → Outcome Cache
refresh c i now = elim (get_elem? c.cachemap i) [
  | none ↦ fault
  | some p ↦
      if not (p == 0) && not (c.timestamp p == 0)
      then (do
        l ← lock_writer c.locks
        done (record c { timestamp = at c.timestamp p now; locks = unlock_writer l }))
      else done c
]

-- The position, or `none` for -1.
unfoldable pub get_cache_pos : Cache → Option Key → ℕ → Outcome (Option ℕ × Cache)
get_cache_pos c none now = done (none, c)
get_cache_pos c (some k) now = do
  l ← lock_reader c.locks
  (let pos = scan c k 0 c.cachemap in
      let d = record c { locks = unlock_reader l } in
      elim pos [ none ↦ done (none, d) | some i ↦ do e ← refresh d i now; done (some i, e) ])

unfoldable pub move_to_head : Cache → ℕ → Cache
move_to_head c p =
    let c1 = record c { next = at c.next (c.prev p) (c.next p) } in
    let c2 = record c1 { prev = at c1.prev (c1.next p) (c1.prev p) } in
    let c3 = record c2 { next = at c2.next p (c2.next c2.head) } in
    let c4 = record c3 { prev = at c3.prev p c3.head } in
    let c5 = record c4 { prev = at c4.prev (c4.next c4.head) p } in
    record c5 { next = at c5.next c5.head p }

unfoldable pub create_after_head : Cache → ℕ → Cache
create_after_head c p =
    let c1 = record c { next = at c.next p (c.next c.head) } in
    let c2 = record c1 { prev = at c1.prev p c1.head } in
    let c3 = record c2 { prev = at c2.prev (c2.next c2.head) p } in
    record c3 { next = at c3.next c3.head p }

-- The memory that is freed is not used again; the node's fields are left alone.
unfoldable pub delete_from_tail : Cache → ℕ → Outcome Cache
delete_from_tail c now = do
  let node = c.prev c.tail
  (pos, d) ← get_cache_pos c (c.key node) now
  (let d1 = record d { timestamp = at d.timestamp node (2 ^ 64 - 1) } in
      let d2 = record d1 { next = at d1.next (d1.prev node) d1.tail } in
      let d3 = record d2 { prev = at d2.prev d2.tail (d2.prev node) } in
      elim pos [ none ↦ fault | some i ↦ done (record d3 { cachemap = set d3.cachemap i 0 }) ])

-- The first NULL. The loop's bound is MAX_OBJECT_SIZE, so past the end of the array it goes on reading.
unfoldable pub get_free_cache_pos : ℕ → List ℕ → Outcome ℕ
get_free_cache_pos pos [] = fault
get_free_cache_pos pos (p ∷ ps) =
    if ltb pos max_object_size && not (p == 0) then get_free_cache_pos (suc pos) ps else done pos

-- `InitCacheNode`, at a new address
unfoldable pub init_cache_node : Cache → ℕ → Cache
init_cache_node c p = record c {
  value = at c.value p none;
  prev = at c.prev p 0;
  next = at c.next p 0;
  timestamp = at c.timestamp p 0;
  key = at c.key p none;
}

-- `head` and `tail` are the addresses of the two nodes; `c` is the memory before.
unfoldable pub lru_cache_create : Cache → ℕ → ℕ → Cache
lru_cache_create c head tail =
    let d = init_cache_node (init_cache_node c head) tail in
    record d {
      head = head;
      tail = tail;
      next = at d.next head tail;
      prev = at d.prev tail head;
      total_capacity = max_cache_capacity;
      current_capacity = 0;
      cachemap = replicate max_cache_capacity 0;
    }

-- behind `get_cache_pos`: the value, or NULL
unfoldable pub lru_cache_get_at : Cache → Option ℕ → Outcome (Option (List ℕ) × Cache)
lru_cache_get_at c none = done (none, c)
lru_cache_get_at c (some i) = if leb max_cache_capacity i then done (none, c) else (do
  l ← lock_reader c.locks
  elim (get_elem? c.cachemap i) [
    | none ↦ fault
    | some p ↦ do
      k ← lock_writer (unlock_reader l)
      (let d = move_to_head c p in done (d.value p, record d { locks = unlock_writer k }))
  ])

unfoldable pub lru_cache_get : Cache → Key → ℕ → Outcome (Option (List ℕ) × Cache)
lru_cache_get c k now = do (pos, d) ← get_cache_pos c (some k) now; lru_cache_get_at d pos

-- the branch of `lRUCachePut` for a key that is there: a value that is there is kept
unfoldable pub put_again : Cache → ℕ → List ℕ → Outcome Cache
put_again c i v = do
  l ← lock_reader c.locks
  elim (get_elem? c.cachemap i) [
    | none ↦ fault
    | some p ↦ do
      k ← lock_writer (unlock_reader l)
      (let d : Cache = elim (c.value p) [
        | none ↦ record c { value = at c.value p (some v) }
        | some w ↦ c
      ] in
          done (record (move_to_head d p) { locks = unlock_writer k }))
  ]

-- room for the new node: under the lock of a writer
unfoldable pub make_room : Cache → ℕ → Outcome Cache
make_room c now =
    if leb c.total_capacity c.current_capacity
    then delete_from_tail c now
    else done (record c { current_capacity = c.current_capacity + 1 })

-- the branch for a new key; `p` is the address of the new node
unfoldable pub put_new : Cache → Key → List ℕ → ℕ → ℕ → Outcome Cache
put_new c k v now p = do
  l ← lock_writer c.locks
  (let d = init_cache_node (record c { locks = l }) p in
      let e = record d {
        key = at d.key p (some k);
        timestamp = at d.timestamp p now;
        value = at d.value p (some v);
      } in
      do
        f ← make_room e now
        (let g = create_after_head f p in
            do
              pos ← get_free_cache_pos 0 g.cachemap
              done (record g { cachemap = set g.cachemap pos p; locks = unlock_writer g.locks })))

abbrev put_at : Cache → Key → List ℕ → ℕ → ℕ → Option ℕ → Outcome Cache
put_at c k v now p none = put_new c k v now p
put_at c k v now p (some i) =
    if ltb i max_cache_capacity then put_again c i v else put_new c k v now p

unfoldable pub lru_cache_put : Cache → Key → Option (List ℕ) → ℕ → ℕ → Outcome Cache
lru_cache_put c k none now p = done c
lru_cache_put c k (some v) now p =
    if ltb max_object_size (length v + 1)
    then done c
    else (do (pos, d) ← get_cache_pos c (some k) now; put_at d k v now p pos)

unfoldable pub make_the_key : List ℕ → List ℕ → List ℕ → Key
make_the_key host port path = record { host = host; port = port; path = path }

unfoldable pub insert_cache :
    Cache → List ℕ → List ℕ → List ℕ → Option (List ℕ) → ℕ → ℕ → Outcome Cache
insert_cache c host port path value now p =
    lru_cache_put c (make_the_key host port path) value now p

unfoldable pub read_cache : Cache → Key → ℕ → Outcome (Option (List ℕ) × Cache)
read_cache c k now = lru_cache_get c k now
