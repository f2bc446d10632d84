-- ===== src/CacheSim.antt =====
-- The cache simulator, 4.CacheLab/cachelab-handout/csim.c: one set as the list of its lines, a cache
-- as the list of its sets. `none` stands for what C does not define: an access outside an array, a shift
-- by too many bits, and an `int` counter past its greatest value.
pub mod Scan
pub mod Lines
pub mod Effect
pub mod Access
pub mod Trace
pub mod Policy
mod Tests
use Prim.Native.Nat.{bit_and}
use cmu_15213_csapp3e_lab.Base.{
  ℕ, zero, suc, ◌+◌, ◌-◌, ◌*◌, ◌/◌, ◌%◌, ◌^◌, Bool, true, false, ◌&&◌, ◌||◌, Option, none, some,
  List, [], ◌∷◌, ltb, ◌==◌, if◌then◌else◌, get_elem?, set, replicate,
}

-- `cache_line_t`: the two `uint64_t` fields are numbers below `2 ^ 64`.
pub record Line : Type 0 where
  pub tag : ℕ
  pub time : ℕ
  pub valid : ℕ

-- What `hit`, `miss` and `evictions` point to. They only grow, so `simulate` tells by their last values
-- whether an `int` has overflowed.
pub record Counts : Type 0 where
  pub hit : ℕ
  pub miss : ℕ
  pub evictions : ℕ

abbrev pub uint64_max : ℕ
uint64_max = 2 ^ 64 - 1

-- `time++` and `recent_time + 1` on a `uint64_t`
abbrev pub next_time : ℕ → ℕ
next_time t = (t + 1) % 2 ^ 64

-- A `uint64_t` passed as the parameter `int tag`, and read as a `uint64_t` again where it is
-- compared or stored: the low 32 bits, extended by their sign.
pub as_int : ℕ → ℕ
as_int t = let w = t % 2 ^ 32 in if ltb w (2 ^ 31) then w else w + (2 ^ 64 - 2 ^ 32)

-- what `calloc` leaves in a line
abbrev pub empty_line : Line
empty_line = record { tag = 0; time = 0; valid = 0 }

-- `cache_init`, with `calloc` answering
unfoldable pub cache_init : ℕ → ℕ → List (List Line)
cache_init sets e = replicate sets (replicate e empty_line)

-- the test of the hit loop
abbrev pub holds : Line → ℕ → Bool
holds l tag = (l.tag == tag) && (l.valid == 1)

-- The hit loop: the lines after `time++` on the first that holds the tag.
pub touch : List Line → ℕ → Option (List Line)
touch [] tag = none
touch (l ∷ ls) tag =
    let rest = touch ls tag in
    if holds l tag
    then some (record l { time = next_time l.time } ∷ ls)
    else elim rest [ none ↦ none | some ls' ↦ some (l ∷ ls') ]

-- the locals of the replacement loop
pub record Search : Type 0 where
  pub recent : ℕ
  pub oldest : ℕ
  pub block : ℕ

-- one round of that loop, at index `i`
abbrev pub look : ℕ → Line → Search → Search
look i l s = record {
  recent = if ltb s.recent l.time then l.time else s.recent;
  oldest = if ltb l.time s.oldest then l.time else s.oldest;
  block = if ltb l.time s.oldest then i else s.block;
}

pub search_from : ℕ → List Line → Search → Search
search_from i [] s = s
search_from i (l ∷ ls) s = search_from (i + 1) ls (look i l s)

abbrev pub search_start : Search
search_start = record { recent = 0; oldest = uint64_max; block = uint64_max }

-- The write to `search_line[oldest_block]`, and the check whether it was filled.
pub replace : Counts → List Line → ℕ → Search → Option (Counts × List Line)
replace c ls tag s = elim (get_elem? ls s.block) [
  | none ↦ none
  | some l ↦ some (
    if l.valid == 0 then c else record c { evictions = c.evictions + 1 },
    set ls s.block (record {
      tag = tag;
      time = next_time s.recent;
      valid = if l.valid == 0 then 1 else l.valid;
    }),
  )
]

-- `load_in_cache`; `verbose` only prints.
pub load_in_cache : Counts → List Line → ℕ → Option (Counts × List Line)
load_in_cache c ls tag_bit =
    let tag = as_int tag_bit in
    elim (touch ls tag) [
      | some ls' ↦ some (record c { hit = c.hit + 1 }, ls')
      | none ↦ replace (record c { miss = c.miss + 1 }) ls tag (search_from 0 ls search_start)
    ]

-- A record of the trace as `fscanf` reads it: `addr` is a `uint64_t`, and the length is never used.
pub record Record : Type 0 where
  pub flag : ℕ
  pub addr : ℕ

-- `(addr >> b) & ((1 << s) - 1)` and `(addr >> b) >> s`, where `shifts` holds
abbrev pub set_index : ℕ → ℕ → ℕ → ℕ
set_index s b addr = bit_and (addr / 2 ^ b) (2 ^ s - 1)

abbrev pub tag_bits : ℕ → ℕ → ℕ → ℕ
tag_bits s b addr = addr / 2 ^ b / 2 ^ s

-- C defines the shifts: `1` is an `int`, so `1 << s` ends at `s` = 30, and `addr` has 64 bits.
abbrev pub shifts : ℕ → ℕ → Bool
shifts s b = ltb s 31 && ltb b 64

-- how often the body calls `load_in_cache`
abbrev pub loads : ℕ → ℕ
loads flag =
    if flag == b'I'
    then 0
    else if (flag == b'L') || (flag == b'S')
    then 1
    else if flag == b'M'
    then 2
    else 0

-- that many calls on one set
pub load_times : ℕ → Counts → List Line → ℕ → Option (Counts × List Line)
load_times zero c ls tag = some (c, ls)
load_times (suc n) c ls tag = elim (load_in_cache c ls tag) [
  | none ↦ none
  | some (c', ls') ↦ load_times n c' ls' tag
]

-- The body of the loop of `read_trace`. The pointer `cache[set_index]` is taken for every flag but
-- 'I'.
pub read_record : ℕ → ℕ → Counts → List (List Line) → Record → Option (Counts × List (List Line))
read_record s b c cache r =
    if r.flag == b'I'
    then some (c, cache)
    else if shifts s b
    then elim (get_elem? cache (set_index s b r.addr)) [
      | none ↦ none
      | some ls ↦ elim (load_times (loads r.flag) c ls (tag_bits s b r.addr)) [
        | none ↦ none
        | some (c', ls') ↦ some (c', set cache (set_index s b r.addr) ls')
      ]
    ]
    else none

pub read_trace :
    ℕ → ℕ → Counts → List (List Line) → List Record → Option (Counts × List (List Line))
read_trace s b c cache [] = some (c, cache)
read_trace s b c cache (r ∷ rs) = elim (read_record s b c cache r) [
  | none ↦ none
  | some (c', cache') ↦ read_trace s b c' cache' rs
]

abbrev pub no_counts : Counts
no_counts = record { hit = 0; miss = 0; evictions = 0 }

-- no counter has gone past the greatest `int`
abbrev pub counters_fit : Counts → Bool
counters_fit c = ltb c.hit (2 ^ 31) && (ltb c.miss (2 ^ 31) && ltb c.evictions (2 ^ 31))

-- `main` once the options are read: `1 << s` sets of `E` lines, and what `printSummary` is given. `E` is
-- passed as an `int`, which holds it below `2 ^ 31`.
pub simulate : ℕ → ℕ → ℕ → List Record → Option Counts
simulate s e b trace =
    if ltb s 31
    then elim (read_trace s b no_counts (cache_init (2 ^ s) e) trace) [
      | none ↦ none
      | some (c, cache) ↦ if counters_fit c then some c else none
    ]
    else none
