-- ===== src/Proxy/Cache/Put.antt =====
-- `lRUCachePut` on the entries.
use mathlib.Core.Path.{subst}
use cmu_15213_csapp3e_lab.Base.{
  ℕ, suc, ◌+◌, ◌<◌, ◌≡◌, ◌≢◌, refl, sym, ap, ◌∙◌, inl, inr, true, false, Bool-cases, Option, none,
  some, List, [], ◌∷◌, ◌++◌, length, get_elem?, set, leb, ltb, All, arith,
}
use cmu_15213_csapp3e_lab.Proxy.Outcome.{Outcome, done, stuck, ◌>>=◌}
use cmu_15213_csapp3e_lab.Proxy.Locks.{Locks}
use cmu_15213_csapp3e_lab.Proxy.Locks.Alone.{lock_reader, unlock_reader, unlock_writer}
use cmu_15213_csapp3e_lab.Proxy.Cache.{
  Key, Cache, max_cache_capacity, max_object_size, at, move_to_head, get_cache_pos, put_again,
  put_new, put_at, make_room, delete_from_tail, init_cache_node, create_after_head,
  get_free_cache_pos, lru_cache_put,
}
use cmu_15213_csapp3e_lab.Proxy.Cache.Chain.{Chain, Chain-next, Chain-prev, at_self, at_ne, prev-In}
use cmu_15213_csapp3e_lab.Proxy.Cache.Distinct.{In, NotIn, NotIn-ne, All-middle}
use cmu_15213_csapp3e_lab.Proxy.Cache.Entries.{Entry, lookup, store, store_as}
use cmu_15213_csapp3e_lab.Proxy.Cache.Shape.{
  Item, nodes, keys, entries, Holds, Linked, Shape, Found, find_item,
}
use cmu_15213_csapp3e_lab.Proxy.Cache.Scan.{
  lock_reader-Turn, lock_writer-Turn, reader_stuck, Shape-locks, get_cache_pos-Absent,
  get_cache_pos-Present,
}
use cmu_15213_csapp3e_lab.Proxy.Cache.Promote.{move_to_head-Shape, Linked-create}
use cmu_15213_csapp3e_lab.Proxy.Cache.Slots.{free_slot, Mapped-new}
use cmu_15213_csapp3e_lab.Proxy.Cache.Get.{Represents, promoted}

-- What `malloc` promises of the address of a new node: it is not NULL, and no node of the cache has it.
abbrev pub Fresh : Cache → ℕ → Type 0
Fresh c p = (p ≢ 0) × (p ≢ c.head) × (p ≢ c.tail) × NotIn p c.cachemap

put_found :
    (c : Cache) (i : ℕ) (v : List ℕ) (x : Item) (xs ys : List Item)
    → Shape c (xs ++ x ∷ ys)
    → get_elem? c.cachemap i ≡ some x.node
    → (d : Cache) × (put_again c i v ≡ done d) × Shape d (x ∷ xs ++ ys)
unfolding put_again
put_found c i v x xs ys s g =
    let h = (All-middle (Holds c) x xs ys s.holds).0 in
    let t = lock_reader-Turn c.locks s.rest in
    let u = lock_writer-Turn (unlock_reader t.held) t.rest in
    (
      record (move_to_head c x.node) { locks = unlock_writer u.held },
      rw (g, put_again) (rw (t.took) (rw (u.took, h.1) refl)),
      Shape-locks (move_to_head c x.node) (x ∷ xs ++ ys) (unlock_writer u.held)
          (move_to_head-Shape c x xs ys s) u.rest,
    )

-- The new node before it is in the list, with the lock of a writer held.
abbrev new_node : Cache → Locks → Key → List ℕ → ℕ → ℕ → Cache
new_node c l k v now p =
    let d = init_cache_node (record c { locks = l }) p in
    record d {
      key = at d.key p (some k);
      timestamp = at d.timestamp p now;
      value = at d.value p (some v);
    }

length-nodes : (zs : List Item) → length (nodes zs) ≡ length zs
length-nodes [] = refl
length-nodes (z ∷ zs) = ap suc (length-nodes zs)

nonzero : (c : Cache) (zs : List Item) → All (Holds c) zs → All (λ q. q ≢ 0) (nodes zs)
nonzero c [] h = tt
nonzero c (z ∷ zs) h = (h.0.3, nonzero c zs h.1)

-- Two caches that agree but at `p`.
Holds-off :
    (c e : Cache) (p : ℕ) (zs : List Item)
    → ((q : ℕ)
        → p ≢ q
        → (e.key q ≡ c.key q) × (e.value q ≡ c.value q) × (e.timestamp q ≡ c.timestamp q))
    → NotIn p (nodes zs)
    → All (Holds c) zs
    → All (Holds e) zs
Holds-off c e p [] f n h = tt
Holds-off c e p (z ∷ zs) f n h =
    let (a, b, t) = f z.node n.0 in
    ((a ∙ h.0.0, b ∙ h.0.1, (λ q. h.0.2 (sym t ∙ q)), h.0.3), Holds-off c e p zs f n.1 h.1)

stored_key :
    (c : Cache) (q : ℕ) (zs : List Item)
    → All (Holds c) zs
    → In q (nodes zs)
    → (j : Key) × (c.key q ≡ some j)
stored_key c q [] h i = absurd i
stored_key c q (z ∷ zs) h (inl e) = (z.key, ap c.key e ∙ h.0.0)
stored_key c q (z ∷ zs) h (inr i) = stored_key c q zs h.1 i

last_node :
    (c : Cache) (zs : List Item)
    → Chain c.next c.prev c.head (nodes zs) c.tail
    → 0 < length zs
    → In (c.prev c.tail) (nodes zs)
last_node c [] h l = absurd (omega arith)
last_node c (z ∷ zs) h l = prev-In c.next c.prev z.node c.tail (nodes zs) h.1

module _ (c : Cache) (k : Key) (v : List ℕ) (now p : ℕ) (zs : List Item) (s : Shape c zs)
    (fresh : Fresh c p) where
  -- no node of the cache is at `p`
  unused : NotIn p (nodes zs)
  unused = not_listed (nodes zs) s.mapped.listed
    where
      not_listed : (ps : List ℕ) → All (λ q. In q c.cachemap) ps → NotIn p ps
      not_listed [] h = tt
      not_listed (q ∷ ps) h = (NotIn-ne p q c.cachemap fresh.3 h.0, not_listed ps h.1)

  -- What is written at `p` is not seen at the other nodes.
  Holds-new :
      (nx pv : ℕ → ℕ) (m : List ℕ) (n : ℕ) (l : Locks)
      → now ≢ 0
      → (let d = new_node c l k v now p in
          let e = record d { next = nx; prev = pv; cachemap = m; current_capacity = n } in
          Holds e (record { node = p; key = k; value = v }) × All (Holds e) zs)
  unfolding init_cache_node
  Holds-new nx pv m n l nz = (
    (
      at_self (at c.key p none) p (some k),
      at_self (at c.value p none) p (some v),
      (λ q. nz (sym (at_self (at c.timestamp p 0) p now) ∙ q)),
      fresh.0,
    ),
    Holds-off c
        (record (new_node c l k v now p) {
          next = nx;
          prev = pv;
          cachemap = m;
          current_capacity = n;
        })
        p zs
        (λ q i. (
          at_ne (at c.key p none) p q (some k) i ∙ at_ne c.key p q none i,
          at_ne (at c.value p none) p q (some v) i ∙ at_ne c.value p q none i,
          at_ne (at c.timestamp p 0) p q now i ∙ at_ne c.timestamp p q 0 i,
        ))
        unused s.holds,
  )

  record NewPlace : Type 0 where
    place : ℕ
    found : get_free_cache_pos 0 c.cachemap ≡ done place
    free : get_elem? c.cachemap place ≡ some 0

  new_place : length zs < max_cache_capacity → NewPlace
  new_place b =
      let (j, f, g) =
        free_slot 0 c.cachemap (omega (arith, s.mapped.count, s.mapped.size, length-nodes zs))
          (omega (arith, s.mapped.size)) in
      let z : 0 + j ≡ j = omega arith in record { place = j; found = f ∙ ap done z; free = g }

  put_room :
      now ≢ 0
      → NotIn k (keys zs)
      → length zs < max_cache_capacity
      → (d : Cache) × (put_new c k v now p ≡ done d)
        × Shape d (record { node = p; key = k; value = v } ∷ zs)
  unfolding put_new make_room create_after_head init_cache_node
  put_room nz q b =
      let u = lock_writer-Turn c.locks s.rest in
      let w = new_place b in
      let full : leb c.total_capacity c.current_capacity ≡ false =
        ground (arith, s.total, s.current) in
      let e = record (new_node c u.held k v now p) { current_capacity = c.current_capacity + 1 } in
      let g = create_after_head e p in
      let h =
        Holds-new g.next g.prev (set c.cachemap w.place p) (c.current_capacity + 1)
          (unlock_writer u.held) nz in
      let ln = s.linked in
      let l0 = unused in
      let lk : Linked (at c.next p 0) (at c.prev p 0) c.head c.tail (nodes zs) = record {
        chain =
            Chain-prev (at c.next p 0) c.prev p 0 c.head c.tail (nodes zs) (fresh.2, l0)
              (Chain-next c.next c.prev p 0 c.head c.tail (nodes zs) (fresh.1, l0) ln.chain);
        behind = ln.behind;
        before = ln.before;
        ends = ln.ends;
      } in
      (
        record g { cachemap = set c.cachemap w.place p; locks = unlock_writer u.held },
        rw (u.took) (rw (full) (rw (w.found) refl)),
        record {
          linked =
              Linked-create (at c.next p 0) (at c.prev p 0) c.head c.tail p (nodes zs) lk
                (fresh.1, (fresh.2, l0));
          distinct = (q, s.distinct);
          holds = h;
          mapped =
              Mapped-new c.cachemap (nodes zs) w.place p s.mapped w.free fresh.0
                (nonzero c zs s.holds);
          current = omega (arith, s.current);
          total = s.total;
          bound = omega arith;
          rest = u.rest;
        },
      )

  last_key :
      (l : Locks)
      → length zs ≡ max_cache_capacity
      → (let d = new_node c l k v now p in (j : Key) × (d.key (d.prev d.tail) ≡ some j))
  unfolding init_cache_node
  last_key l b =
      let e = at_ne c.prev p c.tail 0 fresh.2 in
      let q = c.prev c.tail in
      let i = last_node c zs s.linked.chain (omega arith) in
      let n = NotIn-ne p q (nodes zs) unused i in
      let (j, f) = stored_key c q zs s.holds i in
      (
        j,
        ap (at (at c.key p none) p (some k)) e
            ∙ at_ne (at c.key p none) p q (some k) n
            ∙ at_ne c.key p q none n
            ∙ f,
      )

  -- When the cache is full, the writer waits for itself.
  put_full : length zs ≡ max_cache_capacity → put_new c k v now p ≡ stuck
  unfolding put_new make_room delete_from_tail init_cache_node get_cache_pos
  put_full b =
      let u = lock_writer-Turn c.locks s.rest in
      let full : leb c.total_capacity c.current_capacity ≡ true =
        ground (arith, s.total, s.current) in
      let d = new_node c u.held k v now p in
      let waits : lock_reader u.held ≡ stuck =
        sym (ap (λ r. r >>= lock_reader) u.took) ∙ reader_stuck c.locks s.rest in
      let (j, f) = last_key u.held b in
      rw (u.took) (rw (full) (rw (f, get_cache_pos) (rw (waits) refl)))

-- how the call ends: without an entry for it when it waits for ever
abbrev pub Ends : Outcome Cache → Option (List Entry) → Type 0
Ends o none = o ≡ stuck
Ends o (some es) = (d : Cache) × (o ≡ done d) × Represents d es

length-entries : (zs : List Item) → length (entries zs) ≡ length zs
length-entries [] = refl
length-entries (z ∷ zs) = ap suc (length-entries zs)

abbrev put_searched : Cache → Key → List ℕ → ℕ → ℕ → Outcome Cache
put_searched c k v now p = get_cache_pos c (some k) now >>= λ (pos, d). put_at d k v now p pos

put_absent :
    (c : Cache) (k : Key) (v : List ℕ) (now p : ℕ) (zs : List Item)
    → Shape c zs
    → now ≢ 0
    → Fresh c p
    → lookup k (entries zs) ≡ none
    → NotIn k (keys zs)
    → Ends (put_searched c k v now p) (store_as k v (entries zs) (lookup k (entries zs)))
put_absent c k v now p zs s n f m q =
    let a = get_cache_pos-Absent c k now zs s q in
    let d = record c { locks = a.locks } in
    elim (Bool-cases (ltb (length (entries zs)) max_cache_capacity)) [
      | inl b ↦
          let (g, r, t) =
            put_room d k v now p zs a.shape f n q (ground (arith, length-entries zs)) in
          rw (a.result, m, b) (g, r, (record { node = p; key = k; value = v } ∷ zs, refl, t))
      | inr b ↦
          rw (a.result, m, b)
            (put_full d k v now p zs a.shape f (ground (arith, length-entries zs, s.bound)))
    ]

put_present :
    (c : Cache) (k : Key) (v : List ℕ) (now p : ℕ) (zs : List Item)
    → Shape c zs
    → now ≢ 0
    → Found k zs
    → Ends (put_searched c k v now p) (store_as k v (entries zs) (lookup k (entries zs)))
put_present c k v now p zs s n f =
    let r =
      get_cache_pos-Present c k now f.item f.front f.back (subst (Shape c) f.split s) f.same n in
    let (d, q, t) = put_found r.cache r.place v f.item f.front f.back r.shape r.listed in
    let b : ltb r.place max_cache_capacity ≡ true = ground (arith, r.small) in
    rw (r.result, f.got) (d, rw (b) q, (f.item ∷ f.front ++ f.back, promoted k zs f, t))

put_fits :
    (c : Cache) (es : List Entry) (k : Key) (v : List ℕ) (now p : ℕ)
    → Represents c es
    → now ≢ 0
    → Fresh c p
    → Ends (put_searched c k v now p) (store_as k v es (lookup k es))
put_fits c es k v now p (zs, e, s) n f =
    subst (λ w. Ends (put_searched c k v now p) (store_as k v w (lookup k w))) e
      (elim (find_item k zs) [
        | inl (m, q) ↦ put_absent c k v now p zs s n f m q
        | inr g ↦ put_present c k v now p zs s n g
      ])

-- `lRUCachePut` of a cache at rest. NULL and a value of more than MAX_OBJECT_SIZE bytes with its NUL are not
-- put in. A key that is there comes to the front and keeps its old value. A new key is put in front while
-- there are fewer than 10 entries; then the cache is in order and at rest again. With 10 entries a new key
-- makes the call wait for ever, with the lock of a writer held.
pub lru_cache_put_lem :
    (c : Cache) (es : List Entry) (k : Key) (value : Option (List ℕ)) (now p : ℕ)
    → Represents c es
    → now ≢ 0
    → Fresh c p
    → Ends (lru_cache_put c k value now p) (store k value es)
unfolding lru_cache_put store
lru_cache_put_lem c es k none now p r n f = (c, refl, r)
lru_cache_put_lem c es k (some v) now p r n f =
    elim (Bool-cases (ltb max_object_size (length v + 1))) [
      | inl e ↦ rw (e) (c, refl, r)
      | inr e ↦ rw (e) (put_fits c es k v now p r n f)
    ]
