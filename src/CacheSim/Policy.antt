-- ===== src/CacheSim/Policy.antt =====
-- Which block a miss replaces, and which addresses the simulator takes for one: where the code
-- departs from the cache that it simulates.
use cmu_15213_csapp3e_lab.Base.{
  ℕ, suc, ◌+◌, ◌*◌, ◌%◌, ◌<◌, ◌^◌, ◌≡◌, ◌≢◌, true, false, Option, none, some, List, [], ◌∷◌, arith,
  length,
}
use cmu_15213_csapp3e_lab.CacheSim.{
  Line, Counts, empty_line, load_in_cache, as_int, search_from, touch, replace, no_counts,
}
use cmu_15213_csapp3e_lab.CacheSim.Lines.{resident, SetOk}
use cmu_15213_csapp3e_lab.CacheSim.Effect.{load_in_cache_hit, load_in_cache-resident}

-- Two tags that differ by a multiple of 2 ^ 32 are one `int`.
as_int-alias : (t k : ℕ) → as_int (t + 2 ^ 32 * k) ≡ as_int t
unfolding as_int
as_int-alias t k = ground (arith, wrap)
  where
    wrap : (t + 2 ^ 32 * k) % 2 ^ 32 ≡ t % 2 ^ 32
    wrap = omega arith

-- `load_in_cache` takes its tag as an `int`: after an access to a block, an access to any block whose
-- tag differs by a multiple of 2 ^ 32 is counted as a hit, though that block was never loaded.
pub false_hit :
    (n : ℕ) (c c' : Counts) (ls ls' : List Line) (tag k : ℕ)
    → 2 + n < 2 ^ 64
    → 0 < length ls
    → SetOk n ls
    → load_in_cache c ls tag ≡ some (c', ls')
    → (ls'' : List Line) × (load_in_cache c' ls' (tag + 2 ^ 32 * k)
        ≡ some (record c' { hit = c'.hit + 1 }, ls''))
false_hit n c c' ls ls' tag k small lines ok e =
    let (sound, held) = load_in_cache-resident n c c' ls ls' tag (omega arith) lines ok e in
    let (ls'', p, sound', stays, full, size) =
      load_in_cache_hit (suc n) c' ls' (tag + 2 ^ 32 * k) (omega arith) sound
        (rw (as_int-alias tag k) held) in
    (ls'', p)

-- the accesses of a list of tags to one set, in turn
abbrev pub load_all : Counts → List Line → List ℕ → Option (Counts × List Line)
load_all c ls [] = some (c, ls)
load_all c ls (t ∷ ts) = elim (load_in_cache c ls t) [
  | none ↦ none
  | some (c', ls') ↦ load_all c' ls' ts
]

-- Not least recently used: in a set of two lines, fresh, that is accessed at the distinct tags
-- a, b, a, d, the last access drops a, the tag that was used most recently, and keeps b.
pub drops_recent :
    (a b d : ℕ)
    → as_int a ≢ as_int b
    → as_int a ≢ as_int d
    → as_int b ≢ as_int d
    → (ls : List Line) × (load_all no_counts (empty_line ∷ empty_line ∷ []) (a ∷ b ∷ a ∷ d ∷ [])
        ≡ some (record { hit = 1; miss = 3; evictions = 1 }, ls))
      × (resident ls (as_int a) ≡ false)
      × (resident ls (as_int b) ≡ true)
unfolding load_in_cache touch search_from replace
drops_recent a b d ab ad bd = (
  record { tag = as_int d; time = 3; valid = 1 }
      ∷ record { tag = as_int b; time = 2; valid = 1 }
      ∷ [],
  ground arith,
  ground arith,
  ground arith,
)
