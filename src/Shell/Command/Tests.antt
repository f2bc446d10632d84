-- ===== src/Shell/Command/Tests.antt =====
-- Runs of the shell on concrete lines, and its theorems at them.
use cmu_15213_csapp3e_lab.Base.{
  ℕ, zero, suc, ◌≡◌, ◌≢◌, ◌<◌, length, ◌++◌, refl, inr, true, false, ◌||◌, none, some, List, [],
  ◌∷◌, ◌==◌, arith, if◌then◌else◌, replicate,
}
use cmu_15213_csapp3e_lab.Base.Int.{pos, negate}
use cmu_15213_csapp3e_lab.Shell.Jobs.{
  Job, fg, bg, st, no_job, job_at, addjob, deletejob, place, remove, maxjid, max_from, fgpid,
  getjobpid, find_pid,
}
use cmu_15213_csapp3e_lab.Shell.Jobs.Slots.{entry}
use cmu_15213_csapp3e_lab.Shell.Jobs.Keeps.{fresh-slots, fresh-copies}
use cmu_15213_csapp3e_lab.Shell.Line.{parseline, split_line, words, skip_spaces, split_at, command}
use cmu_15213_csapp3e_lab.Shell.Command.{
  Shell, fresh_shell, sigaddset, sigemptyset, sigchld, sigcont, Child, exited, Delivery, chld, int,
  ready, handle_child, sigchld_handler, forward, deliver, wait_flag, waitfg, do_bgfg, builtin_cmd,
  launch, eval, atoi, bg_text, fg_text,
}
use cmu_15213_csapp3e_lab.Shell.Command.Handler.{handle_child_lem, waitfg_ends, after}
use cmu_15213_csapp3e_lab.Shell.Command.Keeps.{ShellOk}
use cmu_15213_csapp3e_lab.Shell.Command.Reach.{let_in, Step, Reach, Reach-ShellOk}
use cmu_15213_csapp3e_lab.Shell.Command.Mask.{Later, stays_blocked}
use cmu_15213_csapp3e_lab.Shell.Command.Resume.{InState, do_bgfg_by_jid, do_bgfg_by_pid}

-- "ls" and a newline, run in the foreground: its process ends while the shell waits
abbrev ls_line : List ℕ
ls_line = b'l' ∷ b's' ∷ b'\n' ∷ []

abbrev ls_ends : List Delivery
ls_ends = chld (record { pid = 100; status = exited } ∷ []) ∷ []

abbrev after_ls : Shell
after_ls = record fresh_shell { flag = true; mask = sigaddset sigemptyset sigchld }

eval-ls : eval fresh_shell ls_line 100 ls_ends ≡ ready after_ls []
unfolding eval parseline split_line words skip_spaces split_at command builtin_cmd launch waitfg
    wait_flag deliver sigchld_handler handle_child addjob deletejob place remove maxjid max_from
    fgpid getjobpid find_pid
eval-ls = refl

run_ls : Reach after_ls
unfolding entry
run_ls = Reach.next Reach.start (Step.command ls_line 100 ls_ends [] (omega arith) refl eval-ls)

Reach-ShellOk_example : ShellOk after_ls
Reach-ShellOk_example = Reach-ShellOk run_ls

stays_blocked_example :
    (after_ls.mask.has_chld ≡ true) × ((cs : List Child) → let_in after_ls (chld cs) ≡ false)
unfolding parseline split_line words skip_spaces split_at command builtin_cmd deliver forward fgpid
stays_blocked_example =
    stays_blocked fresh_shell after_ls after_ls ls_line (b'l' ∷ b's' ∷ []) [] false 100 ls_ends []
      refl refl eval-ls (Later.then_step Later.now (Step.signal int refl refl))

abbrev job : Job
job = record { pid = 100; jid = 1; state = st; cmdline = b'a' ∷ [] }

-- one job, stopped
abbrev busy : Shell
busy = record fresh_shell { table = record { jobs = job ∷ replicate 15 no_job; nextjid = 2 } }

busy-ShellOk : ShellOk busy
busy-ShellOk = record {
  slots = (inr (omega arith, omega arith, refl), fresh-slots 15);
  once = λ p nz. ground (arith, fresh-copies 15 p nz);
  size = refl;
  next = omega arith;
}

handle_child_lem_example :
    (s' : Shell) × (handle_child busy (record { pid = 100; status = exited }) ≡ some s')
    × (s'.flag ≡ ((100 == fgpid busy.table.jobs) || false))
    × ((q : ℕ)
        → q ≢ 0
        → entry s'.table.jobs q ≡ (if 100 == q then none else entry busy.table.jobs q))
unfolding entry
handle_child_lem_example = handle_child_lem busy 100 exited job busy-ShellOk (omega arith) refl

abbrev running : Job
running = record job { state = fg }

-- one job, in the foreground
abbrev waits : Shell
waits = record fresh_shell { table = record { jobs = running ∷ replicate 15 no_job; nextjid = 2 } }

waits-ShellOk : ShellOk waits
waits-ShellOk = record {
  slots = (inr (omega arith, omega arith, refl), fresh-slots 15);
  once = λ p nz. ground (arith, fresh-copies 15 p nz);
  size = refl;
  next = omega arith;
}

waitfg_ends_example :
    (s' : Shell) × (waitfg waits (pos 100) ([] ++ ls_ends) ≡ ready s' [])
    × ((q : ℕ)
        → q ≢ 0
        → entry s'.table.jobs q
          ≡ (if 100 == q then after exited running else entry waits.table.jobs q))
unfolding entry waitfg wait_flag getjobpid find_pid fgpid
waitfg_ends_example =
    waitfg_ends waits waits 100 exited running running [] [] waits-ShellOk (omega arith) refl refl
      refl refl

fresh-jid : (n i : ℕ) → (job_at (replicate n no_job) i).jid ≡ 0
fresh-jid zero i = refl
fresh-jid (suc n) zero = refl
fresh-jid (suc n) (suc i) = fresh-jid n i

busy-alone :
    (i : ℕ)
    → i < length busy.table.jobs
    → (job_at busy.table.jobs i).jid ≡ 1
    → (job_at busy.table.jobs i).pid ≡ 100
busy-alone zero l e = refl
busy-alone (suc i) l e = absurd (let f = fresh-jid 15 i in ground arith)

do_bgfg_by_jid_example :
    ((s' : Shell) × (do_bgfg busy bg_text ((b'%' ∷ b'1' ∷ []) ∷ []) [] ≡ ready s' [])
      × (s'.sent ≡ (negate (pos 100), sigcont) ∷ [])
      × InState busy.table.jobs s'.table.jobs 100 job bg)
    × ((s' : Shell) × (do_bgfg busy fg_text ((b'%' ∷ b'1' ∷ []) ∷ []) ls_ends ≡ ready s' [])
        × (s'.sent ≡ (negate (pos 100), sigcont) ∷ [])
        × ((q : ℕ)
            → q ≢ 0
            → entry s'.table.jobs q ≡ (
                if 100 == q
                then after exited (record job { state = fg })
                else entry busy.table.jobs q)))
unfolding atoi entry fgpid
do_bgfg_by_jid_example =
    do_bgfg_by_jid busy (b'1' ∷ []) 100 job exited [] busy-ShellOk (omega arith) (omega arith) refl
      refl busy-alone refl

do_bgfg_by_pid_example :
    ((s' : Shell) × (do_bgfg busy bg_text ((b'1' ∷ b'0' ∷ b'0' ∷ []) ∷ []) [] ≡ ready s' [])
      × (s'.sent ≡ (pos 1, sigcont) ∷ [])
      × InState busy.table.jobs s'.table.jobs 100 job bg)
    × ((s' : Shell) × (do_bgfg busy fg_text ((b'1' ∷ b'0' ∷ b'0' ∷ []) ∷ []) [] ≡ ready s' [])
        × (s'.sent ≡ (pos 1, sigcont) ∷ [])
        × InState busy.table.jobs s'.table.jobs 100 job fg)
unfolding atoi entry
do_bgfg_by_pid_example =
    do_bgfg_by_pid busy b'1' (b'0' ∷ b'0' ∷ []) 100 job [] busy-ShellOk (omega arith) refl refl refl
