-- ===== src/Shell/Command/Handler.antt =====
-- What the signal handlers and `waitfg` do to the job list, as a map.
use cmu_15213_csapp3e_lab.Base.{
  ℕ, zero, suc, ◌≤◌, ◌<◌, ◌≡◌, ◌≢◌, refl, ◌∙◌, ap, sym, ◌⊎◌, inl, inr, true, false, ◌||◌, Option,
  none, some, List, [], ◌∷◌, ◌==◌, arith, Bool-cases, Option-cases, by_if, by_option, ◌++◌,
  if◌then◌else◌, length, All,
}
use mathlib.Core.Path.{subst}
use cmu_15213_csapp3e_lab.Base.Int.{pos}
use cmu_15213_csapp3e_lab.Shell.Jobs.{Job, st, is_fg, job_at, getjobpid, fgpid}
use cmu_15213_csapp3e_lab.Shell.Jobs.Slots.{SlotOk, entry}
use cmu_15213_csapp3e_lab.Shell.Jobs.Lookup.{getjobpid-entry, deletejob_present, set_state-entry}
use cmu_15213_csapp3e_lab.Shell.Command.{
  Shell, Child, Status, exited, signaled, stopped, other, Delivery, chld, ready, waiting, note_fg,
  report, handle_child, sigchld_handler, deliver, wait_flag, waitfg,
}
use cmu_15213_csapp3e_lab.Shell.Command.Keeps.{ShellOk, LeavesOk, waitfg-Ok}

-- the job that a child's report leaves
abbrev pub after : Status → Job → Option Job
after exited j = none
after (signaled n) j = none
after (stopped n) j = some (record j { state = st })
after other j = some j

entry_of_same :
    (js : List Job) (p q : ℕ) (j : Job)
    → entry js p ≡ some j
    → (p == q) ≡ true
    → entry js q ≡ some j
entry_of_same js p q j e h =
    let same : p ≡ q = ground arith in subst (λ k. entry js k ≡ some j) same e

report-entry :
    (s : Shell) (p i : ℕ) (j : Job) (status : Status)
    → ShellOk s
    → 1 ≤ p
    → entry s.table.jobs p ≡ some j
    → entry s.table.jobs p ≡ some (job_at s.table.jobs i)
    → i < length s.table.jobs
    → (job_at s.table.jobs i).pid ≡ p
    → (q : ℕ) → q ≢ 0
    → entry (report s.table p i status).jobs q
      ≡ (if p == q then after status j else entry s.table.jobs q)
report-entry s p i j exited ok nz e f l pid q nq =
    let (t', r, sound, free, mapped) = deletejob_present s.table p j ok nz e in
    ap (λ u. entry u.1.jobs q) r ∙ mapped q nq
report-entry s p i j (signaled n) ok nz e f l pid q nq =
    let (t', r, sound, free, mapped) = deletejob_present s.table p j ok nz e in
    ap (λ u. entry u.1.jobs q) r ∙ mapped q nq
report-entry s p i j (stopped n) ok nz e f l pid q nq =
    ground (arith, set_state-entry s.table.jobs i st q l nq (omega arith) (ok.once _ (omega arith)))
report-entry s p i j other ok nz e f l pid q nq = ground (arith, entry_of_same s.table.jobs p q j e)

-- `sigchld_handler` on the report of a child that has a job: the flag is set if the child is the
-- foreground process, the job of a child that ended is deleted, that of a child that stopped is
-- marked stopped, and every other job stays as it was.
pub handle_child_lem :
    (s : Shell) (p : ℕ) (status : Status) (j : Job)
    → ShellOk s
    → 1 ≤ p
    → entry s.table.jobs p ≡ some j
    → (s' : Shell) × (handle_child s (record { pid = p; status = status }) ≡ some s')
      × (s'.flag ≡ ((p == fgpid s.table.jobs) || s.flag))
      × ((q : ℕ)
          → q ≢ 0
          → entry s'.table.jobs q ≡ (if p == q then after status j else entry s.table.jobs q))
unfolding handle_child
handle_child_lem s p status j ok nz e = elim (getjobpid-entry s.table.jobs p nz) [
  | inl (n, absent) ↦ cc
  | inr (i, found, there, l, pid) ↦ (
    record (note_fg s p) { table = report s.table p i status },
    rw (found, handle_child),
    ground arith,
    λ q nq. report-entry s p i j status ok nz e there l pid q nq,
  )
]

-- The report of a child that has no job ends the shell.
pub handle_child_unknown :
    (s : Shell) (p : ℕ) (status : Status)
    → 1 ≤ p
    → entry s.table.jobs p ≡ none
    → handle_child s (record { pid = p; status = status }) ≡ none
unfolding handle_child
handle_child_unknown s p status nz e = elim (getjobpid-entry s.table.jobs p nz) [
  | inl (n, absent) ↦ rw (n, handle_child)
  | inr (i, found, there, l, pid) ↦ cc
]

wait_flag-step :
    (s s' : Shell) (d : Delivery) (ds : List Delivery)
    → s.flag ≡ false
    → deliver s d ≡ some s'
    → wait_flag s (d ∷ ds) ≡ wait_flag s' ds
unfolding wait_flag
wait_flag-step s s' d ds f q = rw (q, wait_flag) (rw (f) refl)

deliver-child :
    (s s' : Shell) (c : Child) → handle_child s c ≡ some s' → deliver s (chld (c ∷ [])) ≡ some s'
unfolding deliver sigchld_handler
deliver-child s s' c h = rw (h, sigchld_handler, deliver) refl

handle_child-sent : (s s' : Shell) (c : Child) → handle_child s c ≡ some s' → s'.sent ≡ s.sent
unfolding handle_child
handle_child-sent s s' c h = subst Kept h (
    by_option Kept (getjobpid s.table.jobs (pos c.pid)) none _ (λ e. tt)
      λ i e.
        by_if (λ r. r.sent ≡ s.sent) (c.pid == fgpid s.table.jobs) (record s { flag = true }) s
          (λ q. refl) (λ q. refl))
  where
    Kept : Option Shell → Type 0
    Kept none = Unit
    Kept (some t) = t.sent ≡ s.sent

-- The report of a child with a job comes in while `wait_flag` waits, and nothing else in this call.
reported :
    (s : Shell) (p : ℕ) (status : Status) (j : Job) (rest : List Delivery)
    → ShellOk s
    → s.flag ≡ false
    → 1 ≤ p
    → entry s.table.jobs p ≡ some j
    → (s' : Shell) × (wait_flag s (chld (record { pid = p; status = status } ∷ []) ∷ rest)
        ≡ wait_flag s' rest)
      × (s'.flag ≡ (p == fgpid s.table.jobs))
      × (s'.sent ≡ s.sent)
      × ((q : ℕ)
          → q ≢ 0
          → entry s'.table.jobs q ≡ (if p == q then after status j else entry s.table.jobs q))
reported s p status j rest ok f nz e =
    let (s', h, g, m) = handle_child_lem s p status j ok nz e in
    let c : Child = record { pid = p; status = status } in
    (
      s',
      wait_flag-step s s' (chld (c ∷ [])) rest f (deliver-child s s' c h),
      g ∙ ground arith,
      handle_child-sent s s' c h,
      m,
    )

wait_flag-flagged : (s : Shell) (ds : List Delivery) → s.flag ≡ true → wait_flag s ds ≡ ready s ds
unfolding wait_flag
wait_flag-flagged s [] f = rw (f, wait_flag) refl
wait_flag-flagged s (d ∷ ds) f = rw (f, wait_flag) refl

-- While it waits for process `p`, which is in the foreground, the report of `p` ends the wait.
pub wait_ends :
    (s : Shell) (p : ℕ) (status : Status) (j : Job) (rest : List Delivery)
    → ShellOk s
    → s.flag ≡ false
    → 1 ≤ p
    → entry s.table.jobs p ≡ some j
    → fgpid s.table.jobs ≡ p
    → (s' : Shell) × (wait_flag s (chld (record { pid = p; status = status } ∷ []) ∷ rest)
        ≡ ready s' rest)
      × (s'.sent ≡ s.sent)
      × ((q : ℕ)
          → q ≢ 0
          → entry s'.table.jobs q ≡ (if p == q then after status j else entry s.table.jobs q))
wait_ends s p status j rest ok f nz e g =
    let (s', h, k, u, m) = reported s p status j rest ok f nz e in
    (s', h ∙ wait_flag-flagged s' rest (ground arith), u, m)

-- What is left of a wait goes on with the signals that come in later.
wait_flag-append :
    (ds : List Delivery) (s s1 : Shell) (es : List Delivery)
    → wait_flag s ds ≡ waiting s1
    → (wait_flag s (ds ++ es) ≡ wait_flag s1 es) × (s1.flag ≡ false)
unfolding wait_flag
wait_flag-append [] s s1 es h = elim (Bool-cases s.flag) [
  | inl f ↦ absurd (ground arith)
  | inr f ↦
      let e : s ≡ s1 = ground arith in (ap (λ z. wait_flag z es) e, subst (λ z. z.flag ≡ false) e f)
]
wait_flag-append (d ∷ ds) s s1 es h = elim (Bool-cases s.flag) [
  | inl f ↦ absurd (ground arith)
  | inr f ↦ elim (Option-cases (deliver s d)) [
    | inl q ↦ absurd (ground arith)
    | inr (s', q) ↦
        let (g, k) = wait_flag-append ds s' s1 es (sym (wait_flag-step s s' d ds f q) ∙ h) in
        (wait_flag-step s s' d (ds ++ es) f q ∙ g, k)
  ]
]

pub waitfg-wait_flag :
    (s : Shell) (p : ℕ) (j : Job) (ds : List Delivery)
    → 1 ≤ p
    → entry s.table.jobs p ≡ some j
    → waitfg s (pos p) ds ≡ wait_flag s ds
unfolding waitfg
waitfg-wait_flag s zero j ds nz e = absurd (omega arith)
waitfg-wait_flag s (suc p) j ds nz e = elim (getjobpid-entry s.table.jobs (suc p) nz) [
  | inl (n, absent) ↦ cc
  | inr (i, found, there, l, pid) ↦ rw (found, waitfg) refl
]

-- `waitfg` of a process with a job in a sound job list ends: if it still waits behind the signals `ds`, and the process then has
-- its job and is the foreground process, the report on it, whatever its status, makes `waitfg` return, whatever signals come
-- after. The job is deleted if the process has ended or was killed and marked stopped if it has stopped, and no other
-- job is changed.
pub waitfg_ends :
    (s s1 : Shell) (p : ℕ) (status : Status) (j j1 : Job) (ds rest : List Delivery)
    → ShellOk s
    → 1 ≤ p
    → entry s.table.jobs p ≡ some j
    → waitfg s (pos p) ds ≡ waiting s1
    → entry s1.table.jobs p ≡ some j1
    → fgpid s1.table.jobs ≡ p
    → (s' : Shell) × (waitfg s
          (pos p)
          (ds ++ (chld (record { pid = p; status = status } ∷ []) ∷ rest))
        ≡ ready s' rest)
      × ((q : ℕ)
          → q ≢ 0
          → entry s'.table.jobs q ≡ (if p == q then after status j1 else entry s1.table.jobs q))
waitfg_ends s s1 p status j j1 ds rest ok nz e h e1 g =
    let more = chld (record { pid = p; status = status } ∷ []) ∷ rest in
    let (a, f) = wait_flag-append ds s s1 more (sym (waitfg-wait_flag s p j ds nz e) ∙ h) in
    let ok1 : ShellOk s1 = subst LeavesOk h (waitfg-Ok s (pos p) ds ok) in
    let (s', r, u, m) = wait_ends s1 p status j1 rest ok1 f nz e1 g in
    (s', waitfg-wait_flag s p j (ds ++ more) nz e ∙ a ∙ r, m)

-- `fgpid` is the process ID of an entry in the foreground, or 0 if there is no such entry.
pub fgpid_lem :
    (js : List Job)
    → All SlotOk js
    → ((fgpid js ≡ 0) × All (λ j. is_fg j.state ≡ false) js)
      ⊎ ((k : ℕ) × (is_fg (job_at js k).state ≡ true)
          × ((job_at js k).pid ≡ fgpid js)
          × (1 ≤ fgpid js))
unfolding fgpid
fgpid_lem [] a = inl (refl, tt)
fgpid_lem (j ∷ js) a = elim (Bool-cases (is_fg j.state)) [
  | inl e ↦ inr (0, e, ground arith, ground arith)
  | inr e ↦ elim (fgpid_lem js a.1) [
    | inl h ↦ inl (ground arith)
    | inr (k, f, p, nz) ↦ inr (suc k, f, ground arith, ground arith)
  ]
]
