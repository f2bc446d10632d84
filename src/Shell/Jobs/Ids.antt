-- ===== src/Shell/Jobs/Ids.antt =====
-- Job IDs: when `addjob` gives out a fresh one, and when it gives one out twice.
use mathlib.Core.Path.{subst}
use cmu_15213_csapp3e_lab.Base.{
  ℕ, ◌+◌, ◌≤◌, ◌<◌, ◌≡◌, ◌≢◌, refl, ◌⊎◌, inl, inr, true, some, List, [], ◌∷◌, ltb, ◌==◌, arith,
  Bool-cases, Option-cases, sym, if◌then◌else◌, All, All-mono,
}
use cmu_15213_csapp3e_lab.Base.Int.{ℤ, pos}
use cmu_15213_csapp3e_lab.Shell.Jobs.{
  JobState, Job, Table, new_job, bump, place, remove, max_from, maxjid, addjob, deletejob,
}
use cmu_15213_csapp3e_lab.Shell.Jobs.Slots.{SlotOk}
use cmu_15213_csapp3e_lab.Shell.Jobs.Lookup.{TableOk}

-- how many entries have the job ID
abbrev pub jid_copies : List Job → ℕ → ℕ
jid_copies [] k = 0
jid_copies (j ∷ js) k = (if j.jid == k then 1 else 0) + jid_copies js k

max_from-ge : (m : ℕ) (js : List Job) → m ≤ max_from m js
unfolding max_from
max_from-ge m [] = omega arith
max_from-ge m (j ∷ js) = ground (arith, max_from-ge (if ltb m j.jid then j.jid else m) js)

max_from_bounds : (m : ℕ) (js : List Job) → All (λ j. j.jid ≤ max_from m js) js
unfolding max_from
max_from_bounds m [] = tt
max_from_bounds m (j ∷ js) = (
  ground (arith, max_from-ge (if ltb m j.jid then j.jid else m) js),
  max_from_bounds (if ltb m j.jid then j.jid else m) js,
)

max_from_attained :
    (m : ℕ) (js : List Job) → (max_from m js ≡ m) ⊎ (1 ≤ jid_copies js (max_from m js))
unfolding max_from
max_from_attained m [] = inl refl
max_from_attained m (j ∷ js) =
    ground (arith, max_from_attained (if ltb m j.jid then j.jid else m) js)

-- `maxjid` is an upper bound of the job IDs, and one of them or 0.
pub maxjid_lem :
    (js : List Job)
    → All (λ j. j.jid ≤ maxjid js) js × ((maxjid js ≡ 0) ⊎ (1 ≤ jid_copies js (maxjid js)))
unfolding maxjid
maxjid_lem js = (max_from_bounds 0 js, max_from_attained 0 js)

-- After a `deletejob` that succeeds the next job ID lies above every job ID of the list.
pub deletejob_next :
    (t t' : Table) (pid : ℤ) → deletejob t pid ≡ (true, t') → All (λ j. j.jid < t'.nextjid) t'.jobs
unfolding deletejob
deletejob_next t t' pid h = elim (Option-cases (remove t.jobs pid)) [
  | inl e ↦ absurd (ground arith)
  | inr (js, e) ↦
      let same : t' ≡ record { jobs = js; nextjid = maxjid js + 1 } = ground arith in
      subst (λ u. All (λ j. j.jid < u.nextjid) u.jobs) (sym same)
        (All-mono js (λ j b. omega arith) (maxjid_lem js).0)
]

place-jids :
    (js js' : List Job) (new : Job) (k : ℕ)
    → All SlotOk js
    → k ≢ 0
    → place js new ≡ some js'
    → jid_copies js' k ≡ (if new.jid == k then 1 else 0) + jid_copies js k
unfolding place
place-jids [] js' new k a nz h = cc
place-jids (j ∷ js) js' new k a nz h = elim (Bool-cases (j.pid == 0)) [
  | inl e ↦ ground arith
  | inr e ↦ elim (Option-cases (place js new)) [
    | inl q ↦ absurd (ground arith)
    | inr (r, q) ↦ ground (arith, place-jids js r new k a.1 nz q)
  ]
]

-- `addjob` gives the new job the ID `nextjid` and leaves all other IDs as they were.
pub addjob_jids :
    (t t' : Table) (p : ℕ) (state : JobState) (cmdline : List ℕ) (k : ℕ)
    → TableOk t
    → k ≢ 0
    → addjob t (pos p) state cmdline ≡ (true, t')
    → jid_copies t'.jobs k ≡ (if t.nextjid == k then 1 else 0) + jid_copies t.jobs k
unfolding addjob
addjob_jids t t' p state cmdline k ok nz h =
    let new : Job = new_job t (pos p) state cmdline in
    elim (Option-cases (place t.jobs new)) [
      | inl e ↦ absurd (ground arith)
      | inr (js, e) ↦ ground (arith, place-jids t.jobs js new k ok.slots nz e)
    ]

addjob_next :
    (t t' : Table) (p : ℕ) (state : JobState) (cmdline : List ℕ)
    → addjob t (pos p) state cmdline ≡ (true, t')
    → t'.nextjid ≡ bump t.nextjid
unfolding addjob
addjob_next t t' p state cmdline h =
    elim (Option-cases (place t.jobs (new_job t (pos p) state cmdline))) [
      | inl e ↦ absurd (ground arith)
      | inr (js, e) ↦ ground arith
    ]

-- While the next job ID lies above every job ID of the list, as `deletejob` leaves it, `addjob` gives
-- out an ID that no job has.
pub addjob_fresh :
    (t t' : Table) (p : ℕ) (state : JobState) (cmdline : List ℕ)
    → TableOk t
    → All (λ j. j.jid < t.nextjid) t.jobs
    → ((k : ℕ) → k ≢ 0 → jid_copies t.jobs k ≤ 1)
    → addjob t (pos p) state cmdline ≡ (true, t')
    → (k : ℕ) → k ≢ 0
    → jid_copies t'.jobs k ≤ 1
addjob_fresh t t' p state cmdline ok above once h k nz =
    ground (arith, addjob_jids t t' p state cmdline k ok nz h, once k nz, absent t.jobs above)
  where
    absent : (js : List Job) → All (λ j. j.jid < t.nextjid) js → jid_copies js t.nextjid ≡ 0
    absent [] a = refl
    absent (j ∷ js) a = ground (arith, absent js a.1)

-- The next job ID starts again at 1 after 16 without a look at the list. If a job has the ID 1 when a
-- job is added with an ID of 16 or more, the job added after that has the ID 1 too.
pub jid_reused :
    (t t₁ t₂ : Table) (p q : ℕ) (state state' : JobState) (cmdline cmdline' : List ℕ)
    → TableOk t
    → TableOk t₁
    → 1 ≤ jid_copies t.jobs 1
    → 16 ≤ t.nextjid
    → addjob t (pos p) state cmdline ≡ (true, t₁)
    → addjob t₁ (pos q) state' cmdline' ≡ (true, t₂)
    → 2 ≤ jid_copies t₂.jobs 1
jid_reused t t₁ t₂ p q state state' cmdline cmdline' ok ok₁ one full h h₁ = ground (
  arith,
  addjob_next t t₁ p state cmdline h,
  addjob_jids t t₁ p state cmdline 1 ok (omega arith) h,
  addjob_jids t₁ t₂ q state' cmdline' 1 ok₁ (omega arith) h₁,
)
