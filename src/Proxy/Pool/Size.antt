-- ===== src/Proxy/Pool/Size.antt =====
-- The number of threads: doubled and halved between 4 and 4096.
use cmu_15213_csapp3e_lab.Base.{
  ℕ, zero, suc, ◌+◌, ◌-◌, ◌*◌, ◌/◌, ◌≤◌, ◌<◌, ◌≡◌, ◌≢◌, refl, ◌∙◌, ap, Bool, true, false, Option,
  some, none, List, [], ◌∷◌, arith, length, get_elem?, ltb, ◌==◌, ◌>>=◌, by_if, replicate,
  length-replicate, Bool-cases, inl, inr,
}
use cmu_15213_csapp3e_lab.Proxy.Sbuf.{Sbuf, is_sbuf_full, is_sbuf_empty}
use cmu_15213_csapp3e_lab.Proxy.Pool.{
  Pool, nthreads, thread_limit, create_worker_thread, cancel_workers, init_thread, adjust,
  adjust_thread,
}
use cmu_15213_csapp3e_lab.Proxy.Pool.Fill.{each_entry_lem, Filled}

abbrev pub size : ℕ → ℕ
size zero = nthreads
size (suc k) = 2 * size k

-- The number of threads is 4 times a power of two and at most 4096, and exactly the first so many
-- entries of `thread_pool_ids` name a thread that runs.
pub record PoolOk (p : Pool) : Type 0 where
  pub power : (k : ℕ) × (k ≤ 10) × (p.current_nthreads ≡ size k)
  pub room : length p.running ≡ thread_limit
  pub live : (j : ℕ) → j < p.current_nthreads → get_elem? p.running j ≡ some true
  pub dead :
      (j : ℕ) → p.current_nthreads ≤ j → j < thread_limit → get_elem? p.running j ≡ some false

size_grows : (j k m : ℕ) → j + k ≡ m → size k ≤ size m
size_grows zero k m e = let i : k ≡ m = omega arith in omega (arith, ap size i)
size_grows (suc j) k m e = let i = size_grows j (suc k) m (omega arith) in omega (arith, i)

full_size : size 10 ≡ thread_limit
full_size = refl

size_bound : (k : ℕ) → k ≤ 10 → size k ≤ thread_limit
size_bound k h = omega (arith, size_grows (10 - k) k 10 (omega arith), full_size)

-- what a turn leaves
abbrev PoolOutcome : Option Pool → Type 0
PoolOutcome none = ⊥
PoolOutcome (some p) = PoolOk p

outcome : (o : Option Pool) → PoolOutcome o → (p : Pool) × (o ≡ some p) × PoolOk p
outcome none h = absurd h
outcome (some p) h = (p, refl, h)

created :
    (ids : List Bool) (a b : ℕ)
    → a ≤ b
    → b ≤ length ids
    → (out : List Bool) × (create_worker_thread ids a b ≡ some out) × Filled true ids a (b - a) out
unfolding create_worker_thread
created ids a b l h = each_entry_lem true ids a (b - a) (omega arith)

cancelled :
    (ids : List Bool) (a b : ℕ)
    → a ≤ b
    → b ≤ length ids
    → (out : List Bool) × (cancel_workers ids a b ≡ some out) × Filled false ids a (b - a) out
unfolding cancel_workers
cancelled ids a b l h = each_entry_lem false ids a (b - a) (omega arith)

grown :
    (k : ℕ) {c : ℕ} → k ≤ 10 → c ≡ size k → c ≢ thread_limit → (suc k ≤ 10) × (2 * c ≤ thread_limit)
grown k h e ne =
    let l : k ≢ 10 = λ q. ne (e ∙ ap size q) in
    let m : suc k ≤ 10 = omega (arith, l) in (m, omega (arith, e, size_bound (suc k) m))

halved :
    (k : ℕ) {c : ℕ} → k ≤ 10 → c ≡ size k → c ≢ nthreads → (j : ℕ) × (j ≤ 10) × (c / 2 ≡ size j)
halved zero h e ne = absurd (ne e)
halved (suc k) h e ne = (k, omega arith, omega arith)

-- the pool behind the creation of the threads from `current_nthreads` on
created_ok :
    (p : Pool) (ids : List Bool)
    → PoolOk p
    → 2 * p.current_nthreads ≤ thread_limit
    → Filled true p.running p.current_nthreads (2 * p.current_nthreads - p.current_nthreads) ids
    → ((k : ℕ) × (k ≤ 10) × (2 * p.current_nthreads ≡ size k))
    → PoolOk (record { running = ids; current_nthreads = 2 * p.current_nthreads })
created_ok p ids ok l f s = record {
  power = s;
  room = f.size ∙ ok.room;
  live = λ j h. elim (Bool-cases (ltb j p.current_nthreads)) [
    | inl t ↦ f.before j (ground arith) ∙ ok.live j (ground arith)
    | inr t ↦ f.within j (ground arith) (omega arith)
  ];
  dead = λ j h g. f.behind j (omega arith) ∙ ok.dead j (omega arith) g;
}

cancelled_ok :
    (p : Pool) (ids : List Bool)
    → PoolOk p
    → Filled false p.running
        (p.current_nthreads / 2)
        (p.current_nthreads - p.current_nthreads / 2)
        ids
    → ((k : ℕ) × (k ≤ 10) × (p.current_nthreads / 2 ≡ size k))
    → PoolOk (record { running = ids; current_nthreads = p.current_nthreads / 2 })
cancelled_ok p ids ok f s = record {
  power = s;
  room = f.size ∙ ok.room;
  live = λ j h. f.before j h ∙ ok.live j (omega arith);
  dead = λ j h g. elim (Bool-cases (ltb j p.current_nthreads)) [
    | inl t ↦ f.within j h (ground arith)
    | inr t ↦ f.behind j (ground arith) ∙ ok.dead j (ground arith) g
  ];
}

grow_ok :
    (p : Pool)
    → PoolOk p
    → p.current_nthreads ≢ thread_limit
    → PoolOutcome (
        create_worker_thread p.running p.current_nthreads (2 * p.current_nthreads) >>= λ ids.
        some (record { running = ids; current_nthreads = 2 * p.current_nthreads }))
grow_ok p ok ne =
    let (k, h, e) = ok.power in
    let (m, l) = grown k h e ne in
    let (ids, q, f) =
      created p.running p.current_nthreads (2 * p.current_nthreads) (omega arith)
        (omega (arith, ok.room)) in
    rw (q) (created_ok p ids ok l f (suc k, m, omega arith))

shrink_ok :
    (p : Pool)
    → PoolOk p
    → p.current_nthreads ≢ nthreads
    → PoolOutcome (
        cancel_workers p.running (p.current_nthreads / 2) p.current_nthreads >>= λ ids.
        some (record { running = ids; current_nthreads = p.current_nthreads / 2 }))
shrink_ok p ok ne =
    let (k, h, e) = ok.power in
    let (ids, q, f) =
      cancelled p.running (p.current_nthreads / 2) p.current_nthreads (omega arith)
        (omega (arith, ok.room, e, size_bound k h)) in
    rw (q) (cancelled_ok p ids ok f (halved k h e ne))

adjust_ok : (p : Pool) (b c : Sbuf) → PoolOk p → PoolOutcome (adjust p b c)
unfolding adjust
adjust_ok p b c ok =
    by_if PoolOutcome (is_sbuf_full b) _ _
      (λ t.
        by_if PoolOutcome (p.current_nthreads == thread_limit) _ _ (λ e. ok)
          (λ e. grow_ok p ok (λ q. ground arith)))
      (λ t.
        by_if PoolOutcome (is_sbuf_empty c) _ _
          (λ u.
            by_if PoolOutcome (p.current_nthreads == nthreads) _ _ (λ e. ok)
              (λ e. shrink_ok p ok (λ q. ground arith)))
          (λ u. ok))

adjust_runs :
    (p : Pool) (seen : List (Sbuf × Sbuf))
    → PoolOk p
    → (q : Pool) × (adjust_thread p seen ≡ some q) × PoolOk q
unfolding adjust_thread
adjust_runs p [] ok = (p, refl, ok)
adjust_runs p ((b, c) ∷ rest) ok =
    let (q, e, k) = outcome (adjust p b c) (adjust_ok p b c ok) in
    let (r, g, m) = adjust_runs q rest k in (r, rw (e) g, m)

blank-get : (n j : ℕ) → j < n → get_elem? (replicate n false) j ≡ some false
blank-get zero j h = ground arith
blank-get (suc n) zero h = refl
blank-get (suc n) (suc j) h = blank-get n j (omega arith)

first_pool :
    (blank : List Bool)
    → length blank ≡ thread_limit
    → ((j : ℕ) → j < thread_limit → get_elem? blank j ≡ some false)
    → (q : Pool) × ((create_worker_thread blank 0 nthreads >>= λ ids.
          some (record { running = ids; current_nthreads = nthreads }))
        ≡ some q)
      × PoolOk q
first_pool blank l z =
    let (ids, q, f) = created blank 0 nthreads (omega arith) (omega (arith, l)) in
    (
      record { running = ids; current_nthreads = nthreads },
      rw (q),
      record {
        power = (0, omega arith, refl);
        room = f.size ∙ l;
        live = λ j h. f.within j (omega arith) h;
        dead = λ j h g. f.behind j h ∙ z j g;
      },
    )

-- Whatever the pool's thread finds in the buffer, in any number of turns from `init_thread` on, no
-- thread is created or cancelled outside `thread_pool_ids`, the number of threads stays 4 times a
-- power of two and at most 4096, and exactly the first so many entries name a thread that runs.
pub adjust_thread-PoolOk :
    (seen : List (Sbuf × Sbuf))
    → (p : Pool) × ((init_thread >>= λ q. adjust_thread q seen) ≡ some p) × PoolOk p
unfolding init_thread
adjust_thread-PoolOk seen =
    let (q, e, ok) =
      first_pool (replicate thread_limit false) (length-replicate thread_limit false)
        (blank-get thread_limit) in
    let (p, g, m) = adjust_runs q seen ok in (p, rw (e) g, m)
