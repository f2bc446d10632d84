-- ===== src/CacheSim/Tests.antt =====
-- The simulator on concrete traces, and its theorems at concrete sets.
use cmu_15213_csapp3e_lab.Base.{
  ℕ, ◌+◌, ◌*◌, ◌≤◌, ◌^◌, ◌≡◌, ◌≢◌, refl, inl, inr, true, false, not, ◌&&◌, none, some, List, [],
  ◌∷◌, arith, length,
}
use cmu_15213_csapp3e_lab.CacheSim.{
  Line, Counts, Record, empty_line, no_counts, holds, load_in_cache, load_times, as_int,
  search_from, touch, replace, simulate, read_trace, read_record, cache_init,
}
use cmu_15213_csapp3e_lab.CacheSim.Lines.{resident, filled, SetOk}
use cmu_15213_csapp3e_lab.CacheSim.Access.{Victim}
use cmu_15213_csapp3e_lab.CacheSim.Effect.{count_miss, load_in_cache_hit, load_in_cache_miss}
use cmu_15213_csapp3e_lab.CacheSim.Trace.{demand, simulate_counts}
use cmu_15213_csapp3e_lab.CacheSim.Policy.{false_hit, load_all, drops_recent}

-- the first seven records of traces/yi.trace, under -s 4 -E 1 -b 4
abbrev yi : List Record
yi =
    record { flag = b'L'; addr = 0x10 }
    ∷ record { flag = b'M'; addr = 0x20 }
    ∷ record { flag = b'L'; addr = 0x22 }
    ∷ record { flag = b'S'; addr = 0x18 }
    ∷ record { flag = b'L'; addr = 0x110 }
    ∷ record { flag = b'L'; addr = 0x210 }
    ∷ record { flag = b'M'; addr = 0x12 }
    ∷ []

simulate-yi : simulate 4 1 4 yi ≡ some (record { hit = 4; miss = 5; evictions = 3 })
unfolding simulate read_trace read_record cache_init load_times load_in_cache touch search_from
    replace as_int
simulate-yi = refl

-- a set of no lines is written out of its bounds
no_lines : simulate 0 0 0 yi ≡ none
unfolding simulate read_trace read_record cache_init load_times load_in_cache touch search_from
    replace as_int
no_lines = refl

-- a shift by 64 bits, which C does not define
wide_block : simulate 4 1 64 yi ≡ none
unfolding simulate read_trace read_record cache_init
wide_block = refl

simulate_counts_example :
    (c : Counts) × (simulate 4 1 4 yi ≡ some c)
    × (c.hit + c.miss ≡ demand yi)
    × (c.evictions ≤ c.miss)
    × (c.miss ≤ c.evictions + 2 ^ 4 * 1)
unfolding demand
simulate_counts_example =
    simulate_counts 4 1 4 yi (omega arith) (omega arith) (omega arith) (omega arith) (omega arith)

-- one filled line, one fresh line
abbrev warm : List Line
warm = record { tag = 5; time = 1; valid = 1 } ∷ empty_line ∷ []

warm-SetOk : SetOk 1 warm
warm-SetOk = record {
  lines = (inr (refl, omega arith, omega arith), (inl (refl, refl), tt));
  once = λ t. ground arith;
}

load_in_cache_hit_example :
    (ls' : List Line) × (load_in_cache no_counts warm 5 ≡ some (record no_counts { hit = 1 }, ls'))
    × SetOk 2 ls'
    × ((t : ℕ) → resident ls' t ≡ resident warm t)
    × (filled ls' ≡ 1)
    × (length ls' ≡ 2)
unfolding as_int
load_in_cache_hit_example = load_in_cache_hit 1 no_counts warm 5 (omega arith) warm-SetOk refl

load_in_cache_miss_example :
    (ls' : List Line) × (v : Victim warm) × (load_in_cache no_counts warm 6
      ≡ some (count_miss no_counts warm, ls'))
    × SetOk 2 ls'
    × (resident ls' 6 ≡ true)
    × ((t : ℕ) → t ≢ 6 → resident ls' t ≡ (resident warm t && not (holds v.line t)))
    × (filled ls' + 0 ≡ 2)
    × (length ls' ≡ 2)
unfolding as_int
load_in_cache_miss_example =
    load_in_cache_miss 1 no_counts warm 6 (omega arith) (omega arith) warm-SetOk refl

abbrev warmed : List Line
warmed = record { tag = 5; time = 1; valid = 1 } ∷ record { tag = 6; time = 2; valid = 1 } ∷ []

false_hit_example :
    (ls'' : List Line) × (load_in_cache (record no_counts { miss = 1 }) warmed (6 + 2 ^ 32 * 3)
      ≡ some (record { hit = 1; miss = 1; evictions = 0 }, ls''))
unfolding load_in_cache touch search_from replace as_int
false_hit_example =
    false_hit 1 no_counts (record no_counts { miss = 1 }) warm warmed 6 3 (omega arith)
      (omega arith) warm-SetOk refl

drops_recent_example :
    (ls : List Line) × (load_all no_counts (empty_line ∷ empty_line ∷ []) (1 ∷ 2 ∷ 1 ∷ 3 ∷ [])
      ≡ some (record { hit = 1; miss = 3; evictions = 1 }, ls))
    × (resident ls (as_int 1) ≡ false)
    × (resident ls (as_int 2) ≡ true)
unfolding as_int
drops_recent_example = drops_recent 1 2 3 (omega arith) (omega arith) (omega arith)
