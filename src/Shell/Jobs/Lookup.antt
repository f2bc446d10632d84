-- ===== src/Shell/Jobs/Lookup.antt =====
-- `addjob`, `deletejob` and the searches, against the finite map that the job list stands for.
use cmu_15213_csapp3e_lab.Base.{
  ℕ, zero, suc, ◌+◌, ◌≤◌, ◌<◌, ◌≡◌, ◌≢◌, refl, ◌∙◌, ◌⊎◌, inl, inr, true, false, Option, none, some,
  List, [], ◌∷◌, ◌==◌, arith, Bool-cases, if◌then◌else◌, length, All,
}
use cmu_15213_csapp3e_lab.Base.Int.{ℤ, pos, ltb_ℤ}
use cmu_15213_csapp3e_lab.Shell.Jobs.{
  JobState, Job, Table, max_jobs, new_job, bump, maxjid, addjob, deletejob, find_pid, getjobpid,
  job_at, pid2jid, jid_of, set_state,
}
use cmu_15213_csapp3e_lab.Shell.Jobs.Slots.{
  is_live, SlotOk, entry, copies, copies_of_none, place-Placed, place-none, remove-Removed,
  remove-none,
}

-- The job list is sound: its entries are, no process ID stands twice, and the next job ID is positive.
pub record TableOk (t : Table) : Type 0 where
  pub slots : All SlotOk t.jobs
  pub once : (p : ℕ) → p ≢ 0 → copies t.jobs p ≤ 1
  pub size : length t.jobs ≡ max_jobs
  pub next : 1 ≤ t.nextjid

-- `addjob` of a process ID that the list does not hold, while an entry is free: it succeeds, the list
-- stays sound with one free entry less, and as a map it gains that process ID with the next job ID,
-- the state and the command line given, and is otherwise unchanged.
pub addjob_free :
    (t : Table) (p : ℕ) (state : JobState) (cmdline : List ℕ)
    → TableOk t
    → 1 ≤ p
    → is_live state ≡ true
    → entry t.jobs p ≡ none
    → 1 ≤ copies t.jobs 0
    → (t' : Table) × (addjob t (pos p) state cmdline ≡ (true, t'))
      × TableOk t'
      × (copies t'.jobs 0 + 1 ≡ copies t.jobs 0)
      × ((q : ℕ)
          → q ≢ 0
          → entry t'.jobs q
            ≡ (if p == q then some (new_job t (pos p) state cmdline) else entry t.jobs q))
unfolding addjob
addjob_free t p state cmdline ok nz live absent free =
    let new : Job = new_job t (pos p) state cmdline in
    let (js, e, r) = place-Placed t.jobs new nz free in
    (
      record { jobs = js; nextjid = bump t.nextjid },
      ground arith,
      record {
        slots = r.slots ok.slots (inr (nz, ok.next, live));
        once = λ q nq. ground (arith, r.counted q nq, ok.once q nq, copies_of_none t.jobs p absent);
        size = r.size ∙ ok.size;
        next = ground arith;
      },
      r.free,
      λ q nq. r.mapped q nq absent,
    )

-- `addjob` on a full list, or of a process ID below 1, reports failure and changes nothing.
pub addjob_refused :
    (t : Table) (pid : ℤ) (state : JobState) (cmdline : List ℕ)
    → (ltb_ℤ pid (pos 1) ≡ true) ⊎ (copies t.jobs 0 ≡ 0)
    → addjob t pid state cmdline ≡ (false, t)
unfolding addjob
addjob_refused t pid state cmdline (inl e) = rw e
addjob_refused t pid state cmdline (inr e) =
    ground (arith, place-none t.jobs (new_job t pid state cmdline) e)

-- `deletejob` of a process ID that the list holds: it succeeds, the list stays sound with one free
-- entry more, and as a map it loses that process ID and is otherwise unchanged.
pub deletejob_present :
    (t : Table) (p : ℕ) (j : Job)
    → TableOk t
    → 1 ≤ p
    → entry t.jobs p ≡ some j
    → (t' : Table) × (deletejob t (pos p) ≡ (true, t'))
      × TableOk t'
      × (copies t'.jobs 0 ≡ copies t.jobs 0 + 1)
      × ((q : ℕ) → q ≢ 0 → entry t'.jobs q ≡ (if p == q then none else entry t.jobs q))
unfolding deletejob
deletejob_present t p j ok nz there =
    let (js, e, r) = remove-Removed t.jobs p j nz there in
    (
      record { jobs = js; nextjid = maxjid js + 1 },
      ground arith,
      record {
        slots = r.slots ok.slots;
        once = λ q nq. ground (arith, r.counted q nq, ok.once q nq);
        size = r.size ∙ ok.size;
        next = ground arith;
      },
      r.free,
      λ q nq. r.mapped q nq (ok.once p (ground arith)),
    )

-- `deletejob` of a process ID that the list does not hold reports failure and changes nothing.
pub deletejob_absent :
    (t : Table) (p : ℕ) → entry t.jobs p ≡ none → deletejob t (pos p) ≡ (false, t)
unfolding deletejob
deletejob_absent t p h = ground (arith, remove-none t.jobs p h)

-- where a pointer found by `getjobpid` leads
find_pid-entry :
    (i p : ℕ) (js : List Job)
    → ((find_pid (pos p) i js ≡ none) × (entry js p ≡ none))
      ⊎ ((k : ℕ) × (find_pid (pos p) i js ≡ some (i + k))
          × (entry js p ≡ some (job_at js k))
          × (k < length js)
          × ((job_at js k).pid ≡ p))
unfolding find_pid entry
find_pid-entry i p [] = inl (refl, refl)
find_pid-entry i p (j ∷ js) = elim (Bool-cases (j.pid == p)) [
  | inl e ↦ inr (0, ground arith, ground arith, ground arith, ground arith)
  | inr e ↦ elim (find_pid-entry (i + 1) p js) [
    | inl h ↦ inl (ground arith)
    | inr (k, f, g, l, q) ↦ inr (suc k, ground arith, ground arith, ground arith, q)
  ]
]

-- `getjobpid` finds a process ID if and only if the map has it, and then its pointer leads to the
-- entry of that process.
pub getjobpid-entry :
    (js : List Job) (p : ℕ)
    → 1 ≤ p
    → ((getjobpid js (pos p) ≡ none) × (entry js p ≡ none))
      ⊎ ((k : ℕ) × (getjobpid js (pos p) ≡ some k)
          × (entry js p ≡ some (job_at js k))
          × (k < length js)
          × ((job_at js k).pid ≡ p))
unfolding getjobpid
getjobpid-entry js p nz = elim (find_pid-entry 0 p js) [
  | inl h ↦ inl (ground arith)
  | inr (k, f, g, l, q) ↦ inr (k, ground arith, g, l, q)
]

-- the job ID that the map gives a process, 0 for none
abbrev pub jid_in : Option Job → ℕ
jid_in none = 0
jid_in (some j) = j.jid

jid_of-entry : (js : List Job) (p : ℕ) → jid_of (pos p) js ≡ jid_in (entry js p)
unfolding jid_of entry
jid_of-entry [] p = refl
jid_of-entry (j ∷ js) p = ground (arith, jid_of-entry js p)

-- `pid2jid` is the job ID of the entry, or 0 where there is none.
pub pid2jid-entry : (js : List Job) (p : ℕ) → 1 ≤ p → pid2jid js (pos p) ≡ jid_in (entry js p)
unfolding pid2jid
pid2jid-entry js p nz = ground (arith, jid_of-entry js p)

-- a change of state through a pointer
pub set_state-entry :
    (js : List Job) (k : ℕ) (state : JobState) (q : ℕ)
    → k < length js
    → q ≢ 0
    → 1 ≤ (job_at js k).pid
    → copies js (job_at js k).pid ≤ 1
    → entry (set_state js k state) q ≡ (
        if (job_at js k).pid == q
        then some (record (job_at js k) { state = state })
        else entry js q)
unfolding entry
set_state-entry [] k state q l nq p one = absurd (omega arith)
set_state-entry (j ∷ js) zero state q l nq p one = ground arith
set_state-entry (j ∷ js) (suc k) state q l nq p one =
    ground (arith, set_state-entry js k state q (omega arith) nq p, member js k)
  where
    member : (js : List Job) (k : ℕ) → k < length js → 1 ≤ copies js (job_at js k).pid
    member [] k l = absurd (omega arith)
    member (j ∷ js) zero l = ground arith
    member (j ∷ js) (suc k) l = ground (arith, member js k)
