-- ===== src/Shell/Jobs/Keeps.antt =====
-- Every change of the job list keeps it sound, and the pointers found lead to jobs.
use cmu_15213_csapp3e_lab.Base.{
  ℕ, zero, suc, ◌+◌, ◌≤◌, ◌≡◌, ◌≢◌, refl, ◌∙◌, inl, inr, true, none, some, List, [], ◌∷◌, ◌==◌,
  arith, Bool-cases, Option-cases, length-set, replicate, All, sym,
}
use mathlib.Core.Path.{subst}
use cmu_15213_csapp3e_lab.Base.Int.{ℤ, pos, negsuc}
use cmu_15213_csapp3e_lab.Shell.Jobs.{
  JobState, Job, Table, no_job, job_at, set_state, addjob, deletejob, getjobpid, getjobjid,
  find_jid,
}
use cmu_15213_csapp3e_lab.Shell.Jobs.Slots.{is_live, SlotOk, entry, copies}
use cmu_15213_csapp3e_lab.Shell.Jobs.Lookup.{
  TableOk, addjob_free, addjob_refused, deletejob_present, deletejob_absent, getjobpid-entry,
}

-- `deletejob` keeps the list sound, whatever process ID it is given.
pub deletejob-TableOk : (t : Table) (p : ℕ) → TableOk t → TableOk (deletejob t (pos p)).1
deletejob-TableOk t zero ok = unfold deletejob in ok
deletejob-TableOk t (suc p) ok = elim (Option-cases (entry t.jobs (suc p))) [
  | inl e ↦ subst (λ r. TableOk r.1) (sym (deletejob_absent t (suc p) e)) ok
  | inr (j, e) ↦
      let (t', r, sound, free, mapped) = deletejob_present t (suc p) j ok (omega arith) e in
      subst (λ u. TableOk u.1) (sym r) sound
]

-- `addjob` of a process ID that is not in the list keeps it sound, full or not.
pub addjob-TableOk :
    (t : Table) (p : ℕ) (state : JobState) (cmdline : List ℕ)
    → TableOk t
    → 1 ≤ p
    → is_live state ≡ true
    → entry t.jobs p ≡ none
    → TableOk (addjob t (pos p) state cmdline).1
addjob-TableOk t p state cmdline ok nz live absent = elim (Bool-cases (copies t.jobs 0 == 0)) [
  | inl e ↦
      subst (λ r. TableOk r.1) (sym (addjob_refused t (pos p) state cmdline (inr (ground arith))))
        ok
  | inr e ↦
      let (t', r, sound, free, mapped) =
        addjob_free t p state cmdline ok nz live absent (ground arith) in
      subst (λ u. TableOk u.1) (sym r) sound
]

set_state-slots :
    (js : List Job) (k : ℕ) (state : JobState)
    → All SlotOk js
    → 1 ≤ (job_at js k).pid
    → is_live state ≡ true
    → All SlotOk (set_state js k state)
set_state-slots [] k state a p live = tt
set_state-slots (j ∷ js) zero state a p live = (ground arith, a.1)
set_state-slots (j ∷ js) (suc k) state a p live = (a.0, set_state-slots js k state a.1 p live)

set_state-copies :
    (js : List Job) (k : ℕ) (state : JobState) (p : ℕ)
    → copies (set_state js k state) p ≡ copies js p
set_state-copies [] k state p = refl
set_state-copies (j ∷ js) zero state p = refl
set_state-copies (j ∷ js) (suc k) state p = omega (arith, set_state-copies js k state p)

-- A change of state of an entry that holds a job keeps the list sound.
pub set_state-TableOk :
    (t : Table) (k : ℕ) (state : JobState)
    → TableOk t
    → 1 ≤ (job_at t.jobs k).pid
    → is_live state ≡ true
    → TableOk (record t { jobs = set_state t.jobs k state })
set_state-TableOk t k state ok p live = record {
  slots = set_state-slots t.jobs k state ok.slots p live;
  once = λ q nq. ground (arith, ok.once q nq, set_state-copies t.jobs k state q);
  size = length-set t.jobs k (record (job_at t.jobs k) { state = state }) ∙ ok.size;
  next = ok.next;
}

pub getjobpid-live :
    (js : List Job) (pid : ℤ) (k : ℕ) → getjobpid js pid ≡ some k → 1 ≤ (job_at js k).pid
getjobpid-live js (pos zero) k h = unfold getjobpid in cc
getjobpid-live js (negsuc n) k h = absurd (unfold getjobpid in ground arith)
getjobpid-live js (pos (suc p)) k h = elim (getjobpid-entry js (suc p) (omega arith)) [
  | inl (n, e) ↦ cc
  | inr (k', f, e, l, q) ↦
      let same : k' ≡ k = cc in subst (λ i. 1 ≤ (job_at js i).pid) same (omega arith)
]

find_jid-live :
    (js : List Job) (n i k : ℕ)
    → All SlotOk js
    → 1 ≤ n
    → find_jid (pos n) i js ≡ some k
    → (m : ℕ) × (k ≡ i + m) × (1 ≤ (job_at js m).pid)
unfolding find_jid
find_jid-live [] n i k a nz h = cc
find_jid-live (j ∷ js) n i k a nz h = elim (Bool-cases (j.jid == n)) [
  | inl e ↦ (0, ground arith, ground arith)
  | inr e ↦
      let (m, q, live) = find_jid-live js n (i + 1) k a.1 nz (ground arith) in
      (suc m, omega arith, live)
]

pub getjobjid-live :
    (js : List Job) (jid : ℤ) (k : ℕ)
    → All SlotOk js
    → getjobjid js jid ≡ some k
    → 1 ≤ (job_at js k).pid
unfolding getjobjid
getjobjid-live js (pos zero) k a h = cc
getjobjid-live js (negsuc n) k a h = ground arith
getjobjid-live js (pos (suc n)) k a h =
    let (m, q, live) = find_jid-live js (suc n) 0 k a (omega arith) (ground arith) in
    let same : m ≡ k = omega arith in subst (λ i. 1 ≤ (job_at js i).pid) same live

pub fresh-slots : (n : ℕ) → All SlotOk (replicate n no_job)
fresh-slots zero = tt
fresh-slots (suc n) = (inl (refl, refl, refl), fresh-slots n)

pub fresh-copies : (n p : ℕ) → p ≢ 0 → copies (replicate n no_job) p ≡ 0
fresh-copies zero p nz = refl
fresh-copies (suc n) p nz = ground (arith, fresh-copies n p nz)
