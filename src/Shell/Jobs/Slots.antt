-- ===== src/Shell/Jobs/Slots.antt =====
-- The job list as a finite map from process IDs: what holds of its entries, and what the loops of
-- `addjob` and `deletejob` do to the map.
use cmu_15213_csapp3e_lab.Base.{
  ℕ, ◌+◌, ◌≤◌, ◌≡◌, ◌≢◌, refl, ◌⊎◌, inl, inr, Bool, true, false, Option, none, some, List, [], ◌∷◌,
  ◌==◌, arith, Bool-cases, if◌then◌else◌, length, All,
}
use cmu_15213_csapp3e_lab.Base.Int.{pos}
use cmu_15213_csapp3e_lab.Shell.Jobs.{JobState, undef, Job, no_job, place, remove}

abbrev pub is_live : JobState → Bool
is_live undef = false
is_live _ = true

-- An entry is cleared, or it holds a job.
abbrev pub SlotOk : Job → Type 0
SlotOk j =
    ((j.pid ≡ 0) × (j.jid ≡ 0) × (j.state ≡ undef))
    ⊎ ((1 ≤ j.pid) × (1 ≤ j.jid) × (is_live j.state ≡ true))

-- the first entry of a process ID
unfoldable pub entry : List Job → ℕ → Option Job
entry [] p = none
entry (j ∷ js) p = if j.pid == p then some j else entry js p

-- how many entries have the process ID
abbrev pub copies : List Job → ℕ → ℕ
copies [] p = 0
copies (j ∷ js) p = (if j.pid == p then 1 else 0) + copies js p

pub copies_of_none : (js : List Job) (p : ℕ) → entry js p ≡ none → copies js p ≡ 0
unfolding entry
copies_of_none [] p h = refl
copies_of_none (j ∷ js) p h = ground (arith, copies_of_none js p)

pub none_of_copies : (js : List Job) (p : ℕ) → copies js p ≡ 0 → entry js p ≡ none
unfolding entry
none_of_copies [] p h = refl
none_of_copies (j ∷ js) p h = ground (arith, none_of_copies js p)

-- What `place` makes of a list with a free entry.
pub record Placed (js js' : List Job) (new : Job) : Type 0 where
  pub slots : All SlotOk js → SlotOk new → All SlotOk js'
  pub mapped :
      (q : ℕ)
      → q ≢ 0
      → entry js new.pid ≡ none
      → entry js' q ≡ (if new.pid == q then some new else entry js q)
  pub counted : (q : ℕ) → q ≢ 0 → copies js' q ≡ (if new.pid == q then 1 else 0) + copies js q
  pub free : copies js' 0 + 1 ≡ copies js 0
  pub size : length js' ≡ length js

pub place-Placed :
    (js : List Job) (new : Job)
    → 1 ≤ new.pid
    → 1 ≤ copies js 0
    → (js' : List Job) × (place js new ≡ some js') × Placed js js' new
unfolding place entry
place-Placed [] new p f = absurd (omega arith)
place-Placed (j ∷ js) new p f = elim (Bool-cases (j.pid == 0)) [
  | inl e ↦ (
    new ∷ js,
    rw e,
    record {
      slots = λ a h. (h, a.1);
      mapped = λ q nz absent. ground arith;
      counted = λ q nz. ground arith;
      free = ground arith;
      size = refl;
    },
  )
  | inr e ↦
      let (js', p', r) = place-Placed js new p (ground arith) in
      (
        j ∷ js',
        rw (e, p'),
        record {
          slots = λ a h. (a.0, r.slots a.1 h);
          mapped = λ q nz absent. ground (arith, r.mapped q nz);
          counted = λ q nz. ground (arith, r.counted q nz);
          free = ground (arith, r.free);
          size = ground (arith, r.size);
        },
      )
]

pub place-none : (js : List Job) (new : Job) → copies js 0 ≡ 0 → place js new ≡ none
unfolding place
place-none [] new h = refl
place-none (j ∷ js) new h = ground (arith, place-none js new)

-- What `remove` makes of a list with an entry of that process ID.
pub record Removed (js js' : List Job) (p : ℕ) : Type 0 where
  pub slots : All SlotOk js → All SlotOk js'
  pub mapped :
      (q : ℕ) → q ≢ 0 → copies js p ≤ 1 → entry js' q ≡ (if p == q then none else entry js q)
  pub counted : (q : ℕ) → q ≢ 0 → copies js' q + (if p == q then 1 else 0) ≡ copies js q
  pub free : copies js' 0 ≡ copies js 0 + 1
  pub size : length js' ≡ length js

pub remove-Removed :
    (js : List Job) (p : ℕ) (j : Job)
    → 1 ≤ p
    → entry js p ≡ some j
    → (js' : List Job) × (remove js (pos p) ≡ some js') × Removed js js' p
unfolding remove entry
remove-Removed [] p j nz h = cc
remove-Removed (i ∷ js) p j nz h = elim (Bool-cases (i.pid == p)) [
  | inl e ↦ (
    no_job ∷ js,
    rw e,
    record {
      slots = λ a. (inl (refl, refl, refl), a.1);
      mapped = λ q nq one. ground (arith, none_of_copies js p);
      counted = λ q nq. ground arith;
      free = ground arith;
      size = refl;
    },
  )
  | inr e ↦
      let (js', p', r) = remove-Removed js p j nz (ground arith) in
      (
        i ∷ js',
        rw (e, p'),
        record {
          slots = λ a. (a.0, r.slots a.1);
          mapped = λ q nq one. ground (arith, r.mapped q nq);
          counted = λ q nq. ground (arith, r.counted q nq);
          free = ground (arith, r.free);
          size = ground (arith, r.size);
        },
      )
]

pub remove-none : (js : List Job) (p : ℕ) → entry js p ≡ none → remove js (pos p) ≡ none
unfolding remove entry
remove-none [] p h = refl
remove-none (j ∷ js) p h = ground (arith, remove-none js p)
