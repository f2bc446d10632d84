-- ===== src/CacheSim/Scan.antt =====
-- The replacement loop of `load_in_cache`: which line it picks.
use cmu_15213_csapp3e_lab.Base.{
  ℕ, suc, ◌+◌, ◌≤◌, ◌<◌, ◌≡◌, refl, inl, inr, some, List, [], ◌∷◌, arith, ltb, Bool-cases,
  get_elem?, All,
}
use cmu_15213_csapp3e_lab.CacheSim.{Line, Search, look, search_from}

pub oldest-le : (i : ℕ) (ls : List Line) (s : Search) → (search_from i ls s).oldest ≤ s.oldest
unfolding search_from
oldest-le i [] s = omega arith
oldest-le i (l ∷ ls) s = ground (arith, oldest-le (i + 1) ls (look i l s))

-- The time found is least among the lines.
pub oldest_least :
    (i : ℕ) (ls : List Line) (s : Search) → All (λ l. (search_from i ls s).oldest ≤ l.time) ls
unfolding search_from
oldest_least i [] s = tt
oldest_least i (l ∷ ls) s =
    (ground (arith, oldest-le (i + 1) ls (look i l s)), oldest_least (i + 1) ls (look i l s))

-- No line is younger than the time that the replacement starts from.
pub recent-le :
    (i n : ℕ) (ls : List Line) (s : Search)
    → s.recent ≤ n
    → All (λ l. l.time ≤ n) ls
    → (search_from i ls s).recent ≤ n
unfolding search_from
recent-le i n [] s h a = h
recent-le i n (l ∷ ls) s h a = recent-le (i + 1) n ls (look i l s) (ground arith) a.1

-- what the loop leaves in `oldest_block`: what was there, or the index of a line of the least time
pub data Picked (i : ℕ) (ls : List Line) (s r : Search) : Type 0 where
  kept : r.block ≡ s.block → r.oldest ≡ s.oldest → Picked i ls s r
  found :
      (k : ℕ) (l : Line)
      → r.block ≡ i + k
      → get_elem? ls k ≡ some l
      → l.time ≡ r.oldest
      → r.oldest < s.oldest
      → Picked i ls s r

Picked-cons :
    (i : ℕ) (l : Line) (ls : List Line) (s r : Search)
    → Picked (i + 1) ls (look i l s) r
    → Picked i (l ∷ ls) s r
Picked-cons i l ls s r (kept b o) = elim (Bool-cases (ltb l.time s.oldest)) [
  | inl e ↦ found 0 l (ground arith) refl (ground arith) (ground arith)
  | inr e ↦ kept (ground arith) (ground arith)
]
Picked-cons i l ls s r (found k m b g t o) = found (suc k) m (omega arith) g t (ground arith)

pub search-Picked : (i : ℕ) (ls : List Line) (s : Search) → Picked i ls s (search_from i ls s)
unfolding search_from
search-Picked i [] s = kept refl refl
search-Picked i (l ∷ ls) s = Picked-cons i l ls s _ (search-Picked (i + 1) ls (look i l s))
