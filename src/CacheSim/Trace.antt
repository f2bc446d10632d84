-- ===== src/CacheSim/Trace.antt =====
-- Whole traces: no access outside an array, and what the counters add up to.
use mathlib.Core.Path.{subst}
use native.Mathlib.Nat.{one-le-pow}
use Prim.Native.Nat.{min, bit_and, digits, bit_and-bitwise}
use cmu_15213_csapp3e_lab.Base.{
  ℕ, zero, suc, ◌+◌, ◌-◌, ◌*◌, ◌/◌, ◌≤◌, ◌<◌, ◌^◌, ◌≡◌, refl, true, ltb, ap, ◌∙◌, inl, inr, some,
  List, [], ◌∷◌, arith, ◌==◌, Bool-cases, length, get_elem?, replicate, length-replicate, set,
  length-set, All, All-mono,
}
use cmu_15213_csapp3e_lab.CacheSim.{
  Line, Counts, no_counts, Record, empty_line, set_index, tag_bits, loads, load_times, read_record,
  read_trace, simulate, cache_init, shifts, counters_fit,
}
use cmu_15213_csapp3e_lab.CacheSim.Lines.{LineOk, copies, filled, filled-le, SetOk}
use cmu_15213_csapp3e_lab.CacheSim.Effect.{load_times-Loaded}

digits-le : (n a b : ℕ) → digits (λ b. zero) min n a b ≤ b
digits-le zero zero b = omega arith
digits-le zero (suc a) b = omega arith
digits-le (suc n) zero b = omega arith
digits-le (suc n) (suc a) b = omega (arith, digits-le n (suc a / 2) (b / 2))

bit_and-le : (a b : ℕ) → bit_and a b ≤ b
bit_and-le a b = omega (arith, bit_and-bitwise a b, digits-le a a b)

-- a cache after fewer than `n + 1` accesses: every set is sound and has `e` lines
abbrev pub CacheOk : ℕ → ℕ → List (List Line) → Type 0
CacheOk n e cache = All (λ ls. SetOk n ls × (length ls ≡ e)) cache

-- the filled lines of all sets
abbrev pub occupied : List (List Line) → ℕ
occupied [] = 0
occupied (ls ∷ cache) = filled ls + occupied cache

-- the calls of `load_in_cache` that a trace makes
unfoldable pub demand : List Record → ℕ
demand [] = 0
demand (r ∷ rs) = loads r.flag + demand rs

SetOk-mono : (k n : ℕ) (ls : List Line) → SetOk n ls → SetOk (k + n) ls
SetOk-mono k n ls ok = record { lines = All-mono ls (λ l h. ground arith) ok.lines; once = ok.once }

CacheOk-mono : (k n e : ℕ) (cache : List (List Line)) → CacheOk n e cache → CacheOk (k + n) e cache
CacheOk-mono k n e cache ok = All-mono cache (λ ls h. (SetOk-mono k n ls h.0, h.1)) ok

get-CacheOk :
    (n e : ℕ) (cache : List (List Line)) (i : ℕ)
    → i < length cache
    → CacheOk n e cache
    → (ls : List Line) × (get_elem? cache i ≡ some ls) × SetOk n ls × (length ls ≡ e)
get-CacheOk n e [] i h ok = absurd (omega arith)
get-CacheOk n e (ls ∷ cache) zero h ok = (ls, refl, ok.0.0, ok.0.1)
get-CacheOk n e (ls ∷ cache) (suc i) h ok = get-CacheOk n e cache i (omega arith) ok.1

set-CacheOk :
    (n e : ℕ) (cache : List (List Line)) (i : ℕ) (ls : List Line)
    → CacheOk n e cache
    → SetOk n ls
    → length ls ≡ e
    → CacheOk n e (set cache i ls)
set-CacheOk n e [] i ls ok s l = tt
set-CacheOk n e (x ∷ cache) zero ls ok s l = ((s, l), ok.1)
set-CacheOk n e (x ∷ cache) (suc i) ls ok s l = (ok.0, set-CacheOk n e cache i ls ok.1 s l)

occupied-set :
    (cache : List (List Line)) (i : ℕ) (ls ls' : List Line)
    → get_elem? cache i ≡ some ls
    → occupied (set cache i ls') + filled ls ≡ occupied cache + filled ls'
occupied-set [] i ls ls' h = cc
occupied-set (x ∷ cache) zero ls ls' h = let e : x ≡ ls = cc in omega (arith, ap filled e)
occupied-set (x ∷ cache) (suc i) ls ls' h = omega (arith, occupied-set cache i ls ls' h)

-- What `k` accesses do to a cache of `sets` sets.
record Served (n k e sets : ℕ) (c c' : Counts) (cache cache' : List (List Line)) : Type 0 where
  sound : CacheOk (k + n) e cache'
  size : length cache' ≡ sets
  accesses : c'.hit + c'.miss ≡ c.hit + c.miss + k
  balance : occupied cache' + c'.evictions + c.miss ≡ occupied cache + c.evictions + c'.miss

set_index-lt : (s b addr : ℕ) → set_index s b addr < 2 ^ s
set_index-lt s b addr =
    omega (arith, bit_and-le (addr / 2 ^ b) (2 ^ s - 1), one-le-pow s 2 (omega arith))

module _ (s b e : ℕ) (lines : 0 < e) (defined : shifts s b ≡ true) where
  load-Served :
      (k n : ℕ) (c : Counts) (cache : List (List Line)) (i tag : ℕ) (ls : List Line)
      → k + n < 2 ^ 64
      → CacheOk n e cache
      → length cache ≡ 2 ^ s
      → get_elem? cache i ≡ some ls
      → SetOk n ls
      → length ls ≡ e
      → (c' : Counts) × (ls' : List Line) × (load_times k c ls tag ≡ some (c', ls'))
        × Served n k e (2 ^ s) c c' cache (set cache i ls')
  load-Served k n c cache i tag ls small ok size g sound len =
      let (c', ls', p, r) = load_times-Loaded k n c ls tag small (omega arith) sound in
      (
        c',
        ls',
        p,
        record {
          sound =
              set-CacheOk (k + n) e cache i ls' (CacheOk-mono k n e cache ok) r.sound
                (r.size ∙ len);
          size = length-set cache i ls' ∙ size;
          accesses = r.demand;
          balance = omega (arith, r.balance, occupied-set cache i ls ls' g);
        },
      )

  read_record-Served :
      (n : ℕ) (c : Counts) (cache : List (List Line)) (r : Record)
      → loads r.flag + n < 2 ^ 64
      → CacheOk n e cache
      → length cache ≡ 2 ^ s
      → (c' : Counts) × (cache' : List (List Line)) × (read_record s b c cache r
          ≡ some (c', cache'))
        × Served n (loads r.flag) e (2 ^ s) c c' cache cache'
  unfolding read_record
  read_record-Served n c cache r small ok size = elim (Bool-cases (r.flag == b'I')) [
    | inl skip ↦ (
      c,
      cache,
      rw skip,
      record {
        sound = CacheOk-mono (loads r.flag) n e cache ok;
        size = size;
        accesses = ground arith;
        balance = ground arith;
      },
    )
    | inr go ↦
        let i : ℕ = set_index s b r.addr in
        let tag : ℕ = tag_bits s b r.addr in
        let (ls, g, sound, len) =
          get-CacheOk n e cache i (omega (arith, set_index-lt s b r.addr)) ok in
        let (c', ls', p, served) =
          load-Served (loads r.flag) n c cache i tag ls small ok size g sound len in
        (c', set cache i ls', rw go (rw defined (rw g (rw p))), served)
  ]

  read_trace-Served :
      (n : ℕ) (c : Counts) (cache : List (List Line)) (trace : List Record)
      → demand trace + n < 2 ^ 64
      → CacheOk n e cache
      → length cache ≡ 2 ^ s
      → (c' : Counts) × (cache' : List (List Line)) × (read_trace s b c cache trace
          ≡ some (c', cache'))
        × Served n (demand trace) e (2 ^ s) c c' cache cache'
  unfolding read_trace demand
  read_trace-Served n c cache [] small ok size = (
    c,
    cache,
    refl,
    record {
      sound = CacheOk-mono 0 n e cache ok;
      size = size;
      accesses = omega arith;
      balance = omega arith;
    },
  )
  read_trace-Served n c cache (r ∷ rs) small ok size =
      let (c₁, cache₁, p, one) = read_record-Served n c cache r (omega arith) ok size in
      let (c₂, cache₂, q, more) =
        read_trace-Served (loads r.flag + n) c₁ cache₁ rs (omega arith) one.sound one.size in
      (
        c₂,
        cache₂,
        rw (p, read_trace) q,
        record {
          sound =
              subst (λ m. CacheOk m e cache₂) {x = demand rs + (loads r.flag + n)}
                {y = loads r.flag + demand rs + n} (omega arith) more.sound;
          size = more.size;
          accesses = omega (arith, one.accesses, more.accesses);
          balance = omega (arith, one.balance, more.balance);
        },
      )

fresh-SetOk : (e : ℕ) → SetOk 0 (replicate e empty_line)
fresh-SetOk e = record { lines = lines e; once = λ t. omega (arith, none_held e t) }
  where
    lines : (e : ℕ) → All (LineOk 0) (replicate e empty_line)
    lines zero = tt
    lines (suc e) = (inl (refl, refl), lines e)

    none_held : (e t : ℕ) → copies (replicate e empty_line) t ≡ 0
    none_held zero t = refl
    none_held (suc e) t = ground (arith, none_held e t)

fresh-filled : (e : ℕ) → filled (replicate e empty_line) ≡ 0
fresh-filled zero = refl
fresh-filled (suc e) = omega (arith, fresh-filled e)

fresh-CacheOk : (sets e : ℕ) → CacheOk 0 e (cache_init sets e)
unfolding cache_init
fresh-CacheOk zero e = tt
fresh-CacheOk (suc sets) e = ((fresh-SetOk e, length-replicate e empty_line), fresh-CacheOk sets e)

length-cache_init : (sets e : ℕ) → length (cache_init sets e) ≡ sets
unfolding cache_init
length-cache_init sets e = length-replicate sets (replicate e empty_line)

fresh-occupied : (sets e : ℕ) → occupied (cache_init sets e) ≡ 0
unfolding cache_init
fresh-occupied zero e = refl
fresh-occupied (suc sets) e = omega (arith, fresh-filled e, fresh-occupied sets e)

occupied-le :
    (n e : ℕ) (cache : List (List Line)) → CacheOk n e cache → occupied cache ≤ length cache * e
occupied-le n e [] ok = omega arith
occupied-le n e (ls ∷ cache) ok =
    let h : length ls ≡ e = ok.0.1 in grind (arith, filled-le ls, occupied-le n e cache ok.1)

-- For fewer than 31 bits of the set and 64 of the block, at least one line a set and as many as an `int`
-- holds, and a trace of fewer than 2 ^ 31 accesses, the simulator reads the whole trace with no access
-- outside an array, no shift that C leaves undefined and no overflow of a counter. Hits and misses add up to the
-- accesses that the trace demands (one for a load or store, two for a modify, none for the rest);
-- evictions never exceed misses, and fall short of them by at most the number of lines.
pub simulate_counts :
    (s e b : ℕ) (trace : List Record)
    → s < 31
    → b < 64
    → 0 < e
    → e < 2 ^ 31
    → demand trace < 2 ^ 31
    → (c : Counts) × (simulate s e b trace ≡ some c)
      × (c.hit + c.miss ≡ demand trace)
      × (c.evictions ≤ c.miss)
      × (c.miss ≤ c.evictions + 2 ^ s * e)
unfolding simulate
simulate_counts s e b trace bits block lines width small =
    let (c, cache, p, r) =
      read_trace-Served s b e lines (ground arith) 0 no_counts (cache_init (2 ^ s) e) trace
        (omega arith) (fresh-CacheOk (2 ^ s) e) (length-cache_init (2 ^ s) e) in
    let bound : occupied cache ≤ 2 ^ s * e =
      subst (λ k. occupied cache ≤ k * e) r.size (occupied-le (demand trace + 0) e cache r.sound) in
    let room : ltb s 31 ≡ true = ground arith in
    let total : counters_fit c ≡ true =
      ground (arith, r.accesses, r.balance, fresh-occupied (2 ^ s) e) in
    (
      c,
      rw (room, simulate) (rw p (rw total refl)),
      omega (arith, r.accesses),
      omega (arith, r.balance, fresh-occupied (2 ^ s) e),
      omega (arith, r.balance, fresh-occupied (2 ^ s) e, bound),
    )
