-- ===== src/Proxy/Pool/Fill.antt =====
-- What a loop over a range of the entries does.
use cmu_15213_csapp3e_lab.Base.{
  ℕ, zero, suc, ◌+◌, ◌≤◌, ◌<◌, ◌≡◌, refl, ◌∙◌, Bool, some, List, arith, length, set, get_elem?,
  length-set, get_elem?-set_self, get_elem?-set_ne, lt→ltb, ap, Bool-cases, ◌==◌, inl, inr,
}
use cmu_15213_csapp3e_lab.Proxy.Pool.{each_entry}

-- `out` is `ids` with `v` at the `k` entries from `i` on.
pub record Filled (v : Bool) (ids : List Bool) (i k : ℕ) (out : List Bool) : Type 0 where
  pub size : length out ≡ length ids
  pub before : (j : ℕ) → j < i → get_elem? out j ≡ get_elem? ids j
  pub within : (j : ℕ) → i ≤ j → j < i + k → get_elem? out j ≡ some v
  pub behind : (j : ℕ) → i + k ≤ j → get_elem? out j ≡ get_elem? ids j

at_start :
    (ids : List Bool) (i j : ℕ) (v : Bool)
    → j ≡ i
    → i < length ids
    → get_elem? (set ids i v) j ≡ some v
at_start ids i j v q l = ap (get_elem? (set ids i v)) q ∙ get_elem?-set_self ids i v l

-- A loop over a range inside the array ends with these entries set.
pub each_entry_lem :
    (v : Bool) (ids : List Bool) (i k : ℕ)
    → i + k ≤ length ids
    → (out : List Bool) × (each_entry v ids i k ≡ some out) × Filled v ids i k out
unfolding each_entry
each_entry_lem v ids i zero l = (
  ids,
  refl,
  record {
    size = refl;
    before = λ j h. refl;
    within = λ j h g. ground arith;
    behind = λ j h. refl;
  },
)
each_entry_lem v ids i (suc k) l =
    let (out, e, f) =
      each_entry_lem v (set ids i v) (i + 1) k (omega (arith, length-set ids i v)) in
    (
      out,
      rw (lt→ltb i (length ids) (omega arith)) e,
      record {
        size = f.size ∙ length-set ids i v;
        before = λ j h. f.before j (omega arith) ∙ get_elem?-set_ne ids v (λ q. ground arith);
        within = λ j h g. elim (Bool-cases (j == i)) [
          | inl q ↦ f.before j (ground arith) ∙ at_start ids i j v (ground arith) (ground arith)
          | inr q ↦ f.within j (ground arith) (omega arith)
        ];
        behind = λ j h. f.behind j (omega arith) ∙ get_elem?-set_ne ids v (λ q. ground arith);
      },
    )
