-- ===== src/Shell/Command/Reach.antt =====
-- Runs of the shell: signals and command lines in any order, from the start.
use cmu_15213_csapp3e_lab.Base.{
  ℕ, length-replicate, ◌≤◌, ◌≡◌, Bool, true, not, none, some, List, arith,
}
use mathlib.Core.Path.{subst}
use cmu_15213_csapp3e_lab.Shell.Jobs.{no_job, max_jobs}
use cmu_15213_csapp3e_lab.Shell.Jobs.Slots.{entry}
use cmu_15213_csapp3e_lab.Shell.Jobs.Keeps.{fresh-slots, fresh-copies}
use cmu_15213_csapp3e_lab.Shell.Command.{
  Shell, fresh_shell, Delivery, chld, int, tstp, ready, deliver, eval,
}
use cmu_15213_csapp3e_lab.Shell.Command.Keeps.{ShellOk, SomeOk, LeavesOk, deliver-Ok, eval-Ok}

-- A signal is let in between commands only while the mask does not hold it.
abbrev pub let_in : Shell → Delivery → Bool
let_in s (chld cs) = not s.mask.has_chld
let_in s int = not s.mask.has_int
let_in s tstp = not s.mask.has_tstp

-- One step of the read/eval loop, or a signal between two commands. `fork` returns a process ID that
-- no job has.
pub data Step : Shell → Shell → Type 0 where
  signal : {s s' : Shell} (d : Delivery) → let_in s d ≡ true → deliver s d ≡ some s' → Step s s'
  command :
      {s s' : Shell} (cmdline : List ℕ) (pid : ℕ) (ds rest : List Delivery)
      → 1 ≤ pid
      → entry s.table.jobs pid ≡ none
      → eval s cmdline pid ds ≡ ready s' rest
      → Step s s'

pub data Reach : Shell → Type 0 where
  start : Reach fresh_shell
  next : {s s' : Shell} → Reach s → Step s s' → Reach s'

pub fresh-ShellOk : ShellOk fresh_shell
fresh-ShellOk = record {
  slots = fresh-slots max_jobs;
  once = λ p nz. omega (arith, fresh-copies max_jobs p nz);
  size = length-replicate max_jobs no_job;
  next = omega arith;
}

Step-ShellOk : {s s' : Shell} → Step s s' → ShellOk s → ShellOk s'
Step-ShellOk {s} (signal d l e) ok = subst SomeOk e (deliver-Ok s d ok)
Step-ShellOk {s} (command cmdline pid ds rest nz new e) ok =
    subst LeavesOk e (eval-Ok s cmdline pid ds ok nz new)

-- In every run the job list stays sound: every entry is cleared or holds a job with positive IDs and
-- a state, no process ID stands twice, and there are 16 entries.
pub Reach-ShellOk : {s : Shell} → Reach s → ShellOk s
Reach-ShellOk start = fresh-ShellOk
Reach-ShellOk (next r st) = Step-ShellOk st (Reach-ShellOk r)
