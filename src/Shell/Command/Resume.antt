-- ===== src/Shell/Command/Resume.antt =====
-- `bg` and `fg`, by job ID and by process ID, on the job list as a map.
use mathlib.Core.Path.{subst}
use cmu_15213_csapp3e_lab.Base.{
  ℕ, zero, suc, ◌+◌, ◌≤◌, ◌<◌, ◌≡◌, ◌≢◌, refl, sym, ap, ◌∙◌, inl, inr, Bool, true, false,
  Bool-cases, some, List, [], ◌∷◌, ◌==◌, arith, if◌then◌else◌, length, All,
}
use cmu_15213_csapp3e_lab.Base.Int.{ℤ, pos, negate}
use cmu_15213_csapp3e_lab.Shell.Jobs.{
  Job, JobState, fg, bg, is_fg, job_at, fgpid, set_state, getjobpid, getjobjid, find_jid,
}
use cmu_15213_csapp3e_lab.Shell.Jobs.Slots.{SlotOk, entry}
use cmu_15213_csapp3e_lab.Shell.Jobs.Lookup.{getjobpid-entry, set_state-entry}
use cmu_15213_csapp3e_lab.Shell.Jobs.Keeps.{set_state-TableOk}
use cmu_15213_csapp3e_lab.Shell.Command.{
  Shell, Status, sigcont, Delivery, chld, ready, select, resume, do_bgfg, waitfg, is_digit, bg_text,
  fg_text, atoi,
}
use cmu_15213_csapp3e_lab.Shell.Command.Keeps.{ShellOk}
use cmu_15213_csapp3e_lab.Shell.Command.Handler.{after, wait_ends, waitfg-wait_flag}

-- The entry `i` is the job of process `p`.
abbrev AtEntry : List Job → ℕ → ℕ → Job → Type 0
AtEntry js i p j = (i < length js) × ((job_at js i).pid ≡ p) × (job_at js i ≡ j)

-- A job ID that only one job has is found with this job.
find_jid-entry :
    (js : List Job) (p k : ℕ) (j : Job)
    → 1 ≤ p
    → 1 ≤ j.jid
    → All SlotOk js
    → entry js p ≡ some j
    → ((i : ℕ) → i < length js → (job_at js i).jid ≡ j.jid → (job_at js i).pid ≡ p)
    → (i : ℕ) × (find_jid (pos j.jid) k js ≡ some (k + i)) × AtEntry js i p j
unfolding find_jid entry
find_jid-entry [] p k j nz nj a e u = cc
find_jid-entry (x ∷ js) p k j nz nj a e u = elim (Bool-cases (x.jid == j.jid)) [
  | inl h ↦
      let q : x.pid ≡ p = u 0 (omega arith) (ground arith) in
      let w : x ≡ j = ground arith in (0, ground arith, (omega arith, q, w))
  | inr h ↦
      let differs : (x.pid == p) ≡ false = elim (Bool-cases (x.pid == p)) [
        | inl q ↦ let w : x ≡ j = ground arith in absurd (let v = ap (λ z. z.jid) w in ground arith)
        | inr q ↦ q
      ] in
      let (i, f, (l, g, m)) =
        find_jid-entry js p (k + 1) j nz nj a.1 (ground arith) (λ i l. u (suc i) (omega arith)) in
      let z : k + 1 + i ≡ k + suc i = omega arith in
      (suc i, rw (h) (f ∙ ap some z), (omega arith, g, m))
]

fgpid-set_state :
    (js : List Job) (i : ℕ)
    → i < length js
    → All SlotOk js
    → fgpid js ≡ 0
    → fgpid (set_state js i fg) ≡ (job_at js i).pid
unfolding fgpid
fgpid-set_state [] i l a h = absurd (omega arith)
fgpid-set_state (j ∷ js) zero l a h = refl
fgpid-set_state (j ∷ js) (suc i) l a h = elim (Bool-cases (is_fg j.state)) [
  | inl e ↦ absurd (ground arith)
  | inr e ↦ let f = fgpid-set_state js i (omega arith) a.1 (ground arith) in ground arith
]

-- the map with one job in another state
abbrev pub InState : List Job → List Job → ℕ → Job → JobState → Type 0
InState js js' p j state =
    (q : ℕ)
    → q ≢ 0
    → entry js' q ≡ (if p == q then some (record j { state = state }) else entry js q)

set_state-InState :
    (s : Shell) (i p : ℕ) (j : Job) (state : JobState)
    → ShellOk s
    → 1 ≤ p
    → AtEntry s.table.jobs i p j
    → InState s.table.jobs (set_state s.table.jobs i state) p j state
set_state-InState s i p j state ok nz (l, e, m) q nq =
    set_state-entry s.table.jobs i state q l nq (omega arith) (ok.once _ (omega arith))
    ∙ rw (m) (
        let v : j.pid ≡ p = ap (λ z. z.pid) (sym m) ∙ e in
        subst
          (λ z.
            (if z == q then some (record j { state = state }) else entry s.table.jobs q)
            ≡ (if p == q then some (record j { state = state }) else entry s.table.jobs q))
          (sym v) refl)

-- the shell once the entry `i` has the state given and SIGCONT has been sent
abbrev resumed : Shell → ℕ → Bool → ℤ → Shell
resumed s i to_bg to = record s {
  table = record s.table { jobs = set_state s.table.jobs i (if to_bg then bg else fg) };
  flag = if to_bg then s.flag else false;
  sent = (to, sigcont) ∷ s.sent;
}

do_bgfg-getjobjid :
    (s : Shell) (cs : List ℕ) (i : ℕ) (ds : List Delivery)
    → getjobjid s.table.jobs (atoi cs) ≡ some i
    → let pid = pos (job_at s.table.jobs i).pid in
      (do_bgfg s bg_text ((b'%' ∷ cs) ∷ []) ds ≡ ready (resumed s i true (negate pid)) ds)
      × (do_bgfg s fg_text ((b'%' ∷ cs) ∷ []) ds ≡ waitfg (resumed s i false (negate pid)) pid ds)
unfolding do_bgfg select resume
do_bgfg-getjobjid s cs i ds h = (rw (h, do_bgfg, select), rw (h, do_bgfg, select))

do_bgfg-getjobpid :
    (s : Shell) (c : ℕ) (cs : List ℕ) (i : ℕ) (ds : List Delivery)
    → is_digit c ≡ true
    → getjobpid s.table.jobs (atoi (c ∷ cs)) ≡ some i
    → (do_bgfg s bg_text ((c ∷ cs) ∷ []) ds ≡ ready (resumed s i true (pos 1)) ds)
      × (do_bgfg s fg_text ((c ∷ cs) ∷ []) ds ≡ ready (resumed s i false (pos 1)) ds)
unfolding do_bgfg select resume waitfg getjobpid
do_bgfg-getjobpid s c cs i ds d h = (ground arith, ground arith)

-- `bg` and `fg` of a job of a sound job list by its job ID, which no other job has, while no job is in the foreground. `bg` sends
-- SIGCONT to the process group of the job, marks it a background job and returns. `fg` sends SIGCONT to the
-- group, marks it the foreground job and waits; the report on its process, whatever its status, makes `fg`
-- return, with the job deleted if the process has ended or was killed and marked stopped if it has stopped. No other job is changed.
pub do_bgfg_by_jid :
    (s : Shell) (cs : List ℕ) (p : ℕ) (j : Job) (status : Status) (ds : List Delivery)
    → ShellOk s
    → 1 ≤ p
    → 1 ≤ j.jid
    → entry s.table.jobs p ≡ some j
    → atoi cs ≡ pos j.jid
    → ((i : ℕ)
        → i < length s.table.jobs
        → (job_at s.table.jobs i).jid ≡ j.jid
        → (job_at s.table.jobs i).pid ≡ p)
    → fgpid s.table.jobs ≡ 0
    → ((s' : Shell) × (do_bgfg s bg_text ((b'%' ∷ cs) ∷ []) ds ≡ ready s' ds)
        × (s'.sent ≡ (negate (pos p), sigcont) ∷ s.sent)
        × InState s.table.jobs s'.table.jobs p j bg)
      × ((s' : Shell) × (do_bgfg s fg_text
              ((b'%' ∷ cs) ∷ [])
              (chld (record { pid = p; status = status } ∷ []) ∷ ds)
            ≡ ready s' ds)
          × (s'.sent ≡ (negate (pos p), sigcont) ∷ s.sent)
          × ((q : ℕ)
              → q ≢ 0
              → entry s'.table.jobs q ≡ (
                  if p == q then after status (record j { state = fg }) else entry s.table.jobs q)))
unfolding getjobjid
do_bgfg_by_jid s cs p j status ds ok nz nj e a u none_fg =
    let (i, f, (l, g, m)) = find_jid-entry s.table.jobs p 0 j nz nj ok.slots e u in
    let found : getjobjid s.table.jobs (atoi cs) ≡ some i = rw (a) (ground arith) in
    let more = chld (record { pid = p; status = status } ∷ []) ∷ ds in
    let t : Shell = resumed s i false (negate (pos p)) in
    let marked = set_state-InState s i p j fg ok nz (l, g, m) in
    let okt : ShellOk t = set_state-TableOk s.table i fg ok (omega arith) refl in
    let there : entry t.table.jobs p ≡ some (record j { state = fg }) =
      marked p (omega arith) ∙ ground arith in
    let front : fgpid t.table.jobs ≡ p = fgpid-set_state s.table.jobs i l ok.slots none_fg ∙ g in
    let (s', r, v, w) = wait_ends t p status (record j { state = fg }) ds okt refl nz there front in
    (
      (
        resumed s i true (negate (pos p)),
        subst
            (λ z.
              do_bgfg s bg_text ((b'%' ∷ cs) ∷ []) ds
              ≡ ready (resumed s i true (negate (pos z))) ds)
            g (do_bgfg-getjobjid s cs i ds found).0,
        refl,
        set_state-InState s i p j bg ok nz (l, g, m),
      ),
      (
        s',
        subst
              (λ z.
                do_bgfg s fg_text ((b'%' ∷ cs) ∷ []) more
                ≡ waitfg (resumed s i false (negate (pos z))) (pos z) more)
              g (do_bgfg-getjobjid s cs i more found).1
            ∙ waitfg-wait_flag t p (record j { state = fg }) more nz there
            ∙ r,
        v,
        (λ q nq. w q nq ∙ (let x = marked q nq in ground arith)),
      ),
    )

-- `bg` and `fg` of a job of a sound job list by its process ID send SIGCONT to process 1 and not to the group of the job. Both return
-- at once, whatever signals come: `bg` marks the job a background job, and `fg` marks it the foreground job
-- without waiting for it. No other job is changed.
pub do_bgfg_by_pid :
    (s : Shell) (c : ℕ) (cs : List ℕ) (p : ℕ) (j : Job) (ds : List Delivery)
    → ShellOk s
    → 1 ≤ p
    → entry s.table.jobs p ≡ some j
    → is_digit c ≡ true
    → atoi (c ∷ cs) ≡ pos p
    → ((s' : Shell) × (do_bgfg s bg_text ((c ∷ cs) ∷ []) ds ≡ ready s' ds)
        × (s'.sent ≡ (pos 1, sigcont) ∷ s.sent)
        × InState s.table.jobs s'.table.jobs p j bg)
      × ((s' : Shell) × (do_bgfg s fg_text ((c ∷ cs) ∷ []) ds ≡ ready s' ds)
          × (s'.sent ≡ (pos 1, sigcont) ∷ s.sent)
          × InState s.table.jobs s'.table.jobs p j fg)
do_bgfg_by_pid s c cs p j ds ok nz e d a = elim (getjobpid-entry s.table.jobs p nz) [
  | inl (n, absent) ↦ cc
  | inr (i, found, there, l, q) ↦
      let m : job_at s.table.jobs i ≡ j = some_inj (sym there ∙ e) in
      let (x, y) = do_bgfg-getjobpid s c cs i ds d (rw (a) found) in
      (
        (resumed s i true (pos 1), x, refl, set_state-InState s i p j bg ok nz (l, q, m)),
        (resumed s i false (pos 1), y, refl, set_state-InState s i p j fg ok nz (l, q, m)),
      )
]
  where
    some_inj : {x y : Job} → some x ≡ some y → x ≡ y
    some_inj h = ground arith
