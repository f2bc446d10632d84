-- ===== src/Shell/Command/Keeps.antt =====
-- Every operation of the shell keeps its job list sound.
use mathlib.Core.Path.{subst}
use cmu_15213_csapp3e_lab.Base.{
  ℕ, ◌≤◌, ◌≡◌, refl, inl, inr, Bool, true, false, Option, none, some, List, [], ◌∷◌, ◌==◌, arith,
  Bool-cases, Option-cases, by_if, by_option, sym,
}
use cmu_15213_csapp3e_lab.Base.Int.{ℤ, pos}
use cmu_15213_csapp3e_lab.Shell.Jobs.{fg, bg, st, Table, job_at, getjobpid, getjobjid, fgpid}
use cmu_15213_csapp3e_lab.Shell.Jobs.Slots.{entry}
use cmu_15213_csapp3e_lab.Shell.Jobs.Lookup.{TableOk}
use cmu_15213_csapp3e_lab.Shell.Jobs.Keeps.{
  deletejob-TableOk, addjob-TableOk, set_state-TableOk, getjobpid-live, getjobjid-live,
}
use cmu_15213_csapp3e_lab.Shell.Line.{Parse, done, overrun, out_of_fuel, Command, parseline}
use cmu_15213_csapp3e_lab.Shell.Command.{
  Shell, Signal, sigint, sigtstp, Status, exited, signaled, stopped, other, Child, Delivery, chld,
  int, tstp, Outcome, ready, waiting, exit, fault, report, handle_child, sigchld_handler, forward,
  deliver, wait_flag, waitfg, select, resume, do_bgfg, builtin_cmd, launch, execute, eval, str_eq,
  bg_text, atoi, is_zero,
}
use cmu_15213_csapp3e_lab.Shell.Command.Builtin.{
  Builtin, quits, nothing, resumes, builtin_cmd-Builtin,
}

abbrev pub ShellOk : Shell → Type 0
ShellOk s = TableOk s.table

-- the shell that a call leaves, if it leaves one, is sound
abbrev pub LeavesOk : Outcome → Type 0
LeavesOk (ready s ds) = ShellOk s
LeavesOk (waiting s) = ShellOk s
LeavesOk exit = Unit
LeavesOk fault = Unit

abbrev pub SomeOk : Option Shell → Type 0
SomeOk none = Unit
SomeOk (some s) = ShellOk s

report-TableOk :
    (t : Table) (p i : ℕ) (status : Status)
    → TableOk t
    → getjobpid t.jobs (pos p) ≡ some i
    → TableOk (report t p i status)
report-TableOk t p i exited ok h = deletejob-TableOk t p ok
report-TableOk t p i (signaled n) ok h = deletejob-TableOk t p ok
report-TableOk t p i (stopped n) ok h =
    set_state-TableOk t i st ok (getjobpid-live t.jobs (pos p) i h) refl
report-TableOk t p i other ok h = ok

handle_child-Ok : (s : Shell) (c : Child) → ShellOk s → SomeOk (handle_child s c)
unfolding handle_child
handle_child-Ok s c ok =
    by_option SomeOk (getjobpid s.table.jobs (pos c.pid)) _ _ (λ e. tt)
      λ i e. report-TableOk s.table c.pid i c.status ok e

sigchld_handler-Ok : (cs : List Child) (s : Shell) → ShellOk s → SomeOk (sigchld_handler s cs)
unfolding sigchld_handler
sigchld_handler-Ok [] s ok = ok
sigchld_handler-Ok (c ∷ cs) s ok =
    by_option SomeOk (handle_child s c) none (λ s'. sigchld_handler s' cs) (λ e. tt)
      λ s' e. sigchld_handler-Ok cs s' (subst SomeOk e (handle_child-Ok s c ok))

forward-Ok : (sig : Signal) (s : Shell) → ShellOk s → ShellOk (forward sig s)
unfolding forward
forward-Ok sig s ok = by_if ShellOk (fgpid s.table.jobs == 0) s _ (λ e. ok) (λ e. ok)

pub deliver-Ok : (s : Shell) (d : Delivery) → ShellOk s → SomeOk (deliver s d)
unfolding deliver
deliver-Ok s (chld cs) ok = sigchld_handler-Ok cs s ok
deliver-Ok s int ok = forward-Ok sigint s ok
deliver-Ok s tstp ok = forward-Ok sigtstp s ok

wait_flag-Ok : (ds : List Delivery) (s : Shell) → ShellOk s → LeavesOk (wait_flag s ds)
unfolding wait_flag
wait_flag-Ok [] s ok = by_if LeavesOk s.flag (ready s []) (waiting s) (λ e. ok) (λ e. ok)
wait_flag-Ok (d ∷ ds) s ok =
    by_if LeavesOk s.flag (ready s (d ∷ ds)) _ (λ e. ok)
      λ e.
        by_option LeavesOk (deliver s d) exit (λ s'. wait_flag s' ds) (λ q. tt)
          λ s' q. wait_flag-Ok ds s' (subst SomeOk q (deliver-Ok s d ok))

pub waitfg-Ok : (s : Shell) (pid : ℤ) (ds : List Delivery) → ShellOk s → LeavesOk (waitfg s pid ds)
unfolding waitfg
waitfg-Ok s pid ds ok =
    by_if LeavesOk (is_zero pid) (ready s ds) _ (λ e. ok)
      λ e.
        by_option LeavesOk (getjobpid s.table.jobs pid) (ready s ds) (λ i. wait_flag s ds) (λ q. ok)
          λ i q. wait_flag-Ok ds s ok

-- a pointer that `select` yields leads to a job
pub select-live :
    (t : Table) (arg : List ℕ) (i : ℕ) (cur : ℤ)
    → TableOk t
    → select t arg ≡ some (i, cur)
    → 1 ≤ (job_at t.jobs i).pid
unfolding select
select-live t [] i cur ok h = cc
select-live t (c ∷ cs) i cur ok h = elim (Bool-cases (c == b'%')) [
  | inl e ↦ elim (Option-cases (getjobjid t.jobs (atoi cs))) [
    | inl q ↦ absurd (ground arith)
    | inr (k, q) ↦
        let same : k ≡ i = ground arith in
        subst (λ m. 1 ≤ (job_at t.jobs m).pid) same (getjobjid-live t.jobs (atoi cs) k ok.slots q)
  ]
  | inr e ↦ elim (Option-cases (getjobpid t.jobs (atoi (c ∷ cs)))) [
    | inl q ↦ absurd (ground arith)
    | inr (k, q) ↦
        let same : k ≡ i = ground arith in
        subst (λ m. 1 ≤ (job_at t.jobs m).pid) same (getjobpid-live t.jobs (atoi (c ∷ cs)) k q)
  ]
]

resume-Ok :
    (s : Shell) (to_bg : Bool) (i : ℕ) (cur : ℤ) (ds : List Delivery)
    → ShellOk s
    → 1 ≤ (job_at s.table.jobs i).pid
    → LeavesOk (resume s to_bg i cur ds)
unfolding resume
resume-Ok s true i cur ds ok p = set_state-TableOk s.table i bg ok p refl
resume-Ok s false i cur ds ok p = waitfg-Ok _ cur ds (set_state-TableOk s.table i fg ok p refl)

do_bgfg-Ok :
    (s : Shell) (name : List ℕ) (args : List (List ℕ)) (ds : List Delivery)
    → ShellOk s
    → LeavesOk (do_bgfg s name args ds)
unfolding do_bgfg
do_bgfg-Ok s name [] ds ok = ok
do_bgfg-Ok s name (arg ∷ args) ds ok =
    by_option LeavesOk (select s.table arg) (ready s ds) _ (λ e. ok)
      λ (i, cur) e.
        resume-Ok s (str_eq name bg_text) i cur ds ok (select-live s.table arg i cur ok e)

launch-Ok :
    (s : Shell) (to_bg : Bool) (cmdline : List ℕ) (pid : ℕ) (ds : List Delivery)
    → ShellOk s
    → 1 ≤ pid
    → entry s.table.jobs pid ≡ none
    → LeavesOk (launch s to_bg cmdline pid ds)
unfolding launch
launch-Ok s true cmdline pid ds ok nz new = addjob-TableOk s.table pid bg cmdline ok nz refl new
launch-Ok s false cmdline pid ds ok nz new =
    waitfg-Ok _ (pos pid) ds (addjob-TableOk s.table pid fg cmdline ok nz refl new)

builtin_cmd-Ok :
    (s : Shell) (name : List ℕ) (args : List (List ℕ)) (ds : List Delivery) (o : Outcome)
    → ShellOk s
    → builtin_cmd s name args ds ≡ some o
    → LeavesOk o
builtin_cmd-Ok s name args ds o ok h = go (builtin_cmd-Builtin s name args ds o h)
  where
    go : Builtin s name args ds o → LeavesOk o
    go (quits e) = subst LeavesOk (sym e) tt
    go (nothing e) = subst LeavesOk (sym e) ok
    go (resumes e) = subst LeavesOk (sym e) (do_bgfg-Ok s name args ds ok)

-- `eval` of any line keeps the job list sound, if `fork` returns a process ID that no job has.
pub eval-Ok :
    (s : Shell) (cmdline : List ℕ) (pid : ℕ) (ds : List Delivery)
    → ShellOk s
    → 1 ≤ pid
    → entry s.table.jobs pid ≡ none
    → LeavesOk (eval s cmdline pid ds)
unfolding eval
eval-Ok s cmdline pid ds ok nz new = go (parseline cmdline)
  where
    run :
        (argv : List (List ℕ)) (to_bg : Bool)
        → LeavesOk (execute s cmdline pid ds (record { argv = argv; bg = to_bg }))
    run [] to_bg = ok
    run (name ∷ args) to_bg =
        by_option LeavesOk (builtin_cmd s name args ds) _ (λ o. o)
          (λ e. launch-Ok s to_bg cmdline pid ds ok nz new)
          (λ o e. builtin_cmd-Ok s name args ds o ok e)

    go :
        (p : Parse Command)
        → LeavesOk
            (elim p [ overrun ↦ fault | out_of_fuel ↦ fault | done c ↦ execute s cmdline pid ds c ])
    go overrun = tt
    go out_of_fuel = tt
    go (done c) = run c.argv c.bg
