-- ===== src/Shell/Command.antt =====
-- The signal handlers of tsh.c, and `waitfg`, `do_bgfg`, `builtin_cmd` and `eval`. What is printed is
-- left out. A signal is an event of the environment; `kill` is recorded in the order of the calls.
pub mod Handler
pub mod Keeps
pub mod Resume
pub mod Reach
pub mod Builtin
pub mod Mask
mod Tests
use cmu_15213_csapp3e_lab.Base.{
  ℕ, zero, suc, ◌+◌, ◌-◌, ◌*◌, Bool, true, false, not, ◌&&◌, ◌||◌, Option, none, some, List, [],
  ◌∷◌, ◌++◌, leb, ◌==◌, if◌then◌else◌, str_eq,
}
use cmu_15213_csapp3e_lab.Base.Int.{ℤ, pos, negsuc, negate}
use cmu_15213_csapp3e_lab.Shell.Jobs.{
  Table, fg, bg, st, fresh_table, addjob, deletejob, fgpid, getjobpid, getjobjid, job_at, set_state,
  initjobs,
}
use cmu_15213_csapp3e_lab.Shell.Line.{done, overrun, out_of_fuel, Command, parseline}

pub data Signal : Type 0 where
  sigint sigtstp sigcont sigchld : Signal

-- `sigset_t`, by the signals that the shell handles or sends
pub record SigSet : Type 0 where
  pub has_int : Bool
  pub has_tstp : Bool
  pub has_cont : Bool
  pub has_chld : Bool

abbrev pub sigemptyset : SigSet
sigemptyset = record { has_int = false; has_tstp = false; has_cont = false; has_chld = false }

abbrev pub sigaddset : SigSet → Signal → SigSet
sigaddset m sigint = record m { has_int = true }
sigaddset m sigtstp = record m { has_tstp = true }
sigaddset m sigcont = record m { has_cont = true }
sigaddset m sigchld = record m { has_chld = true }

abbrev both_sets : (Bool → Bool → Bool) → SigSet → SigSet → SigSet
both_sets f m k = record {
  has_int = f m.has_int k.has_int;
  has_tstp = f m.has_tstp k.has_tstp;
  has_cont = f m.has_cont k.has_cont;
  has_chld = f m.has_chld k.has_chld;
}

pub data How : Type 0 where
  sig_block sig_unblock : How

-- The globals, the shell's signal mask, and the calls of `kill` so far, the
-- latest first: whom, a negative number being a process group, and which signal.
pub record Shell : Type 0 where
  pub table : Table
  pub flag : Bool
  pub mask : SigSet
  pub sent : List (ℤ × Signal)

abbrev pub fresh_shell : Shell
fresh_shell = record { table = fresh_table; flag = false; mask = sigemptyset; sent = [] }

-- `Sigprocmask`: the signals of the set are added to the mask or taken out of it.
abbrev pub sigprocmask : How → SigSet → Shell → Shell
sigprocmask sig_block set s = record s { mask = both_sets (λ a b. a || b) s.mask set }
sigprocmask sig_unblock set s = record s { mask = both_sets (λ a b. a && not b) s.mask set }

-- What `waitpid` reports of a child: WIFEXITED, WIFSIGNALED, WIFSTOPPED, or none of these.
pub data Status : Type 0 where
  exited : Status
  signaled : ℕ → Status
  stopped : ℕ → Status
  other : Status

pub record Child : Type 0 where
  pub pid : ℕ
  pub status : Status

abbrev pub with_jobs : Shell → Table → Shell
with_jobs s t = record s { table = t }

abbrev pub stop_job : Table → ℕ → Table
stop_job t i = record t { jobs = set_state t.jobs i st }

abbrev pub report : Table → ℕ → ℕ → Status → Table
report t pid i exited = (deletejob t (pos pid)).1
report t pid i (signaled n) = (deletejob t (pos pid)).1
report t pid i (stopped n) = stop_job t i
report t pid i other = t

abbrev pub note_fg : Shell → ℕ → Shell
note_fg s pid = if pid == fgpid s.table.jobs then record s { flag = true } else s

-- One round of the loop of `sigchld_handler`; `none` where `Sio_error` ends the shell.
unfoldable pub handle_child : Shell → Child → Option Shell
handle_child s c = elim (getjobpid s.table.jobs (pos c.pid)) [
  | none ↦ none
  | some i ↦ some (with_jobs (note_fg s c.pid) (report s.table c.pid i c.status))
]

-- the children that `waitpid` returns, in turn
unfoldable pub sigchld_handler : Shell → List Child → Option Shell
sigchld_handler s [] = some s
sigchld_handler s (c ∷ cs) = elim (handle_child s c) [
  | none ↦ none
  | some s' ↦ sigchld_handler s' cs
]

-- `sigint_handler` and `sigtstp_handler`, where `Kill` succeeds
unfoldable pub forward : Signal → Shell → Shell
forward sig s =
    if fgpid s.table.jobs == 0
    then s
    else record s { sent = (pos (fgpid s.table.jobs), sig) ∷ s.sent }

pub data Delivery : Type 0 where
  chld : List Child → Delivery
  int : Delivery
  tstp : Delivery

unfoldable pub deliver : Shell → Delivery → Option Shell
deliver s (chld cs) = sigchld_handler s cs
deliver s int = some (forward sigint s)
deliver s tstp = some (forward sigtstp s)

-- How a call ends, given the signals that come in while it waits: it returns, with the signals that
-- are left; it still waits when they are used up; the shell exits; or a write misses its array.
pub data Outcome : Type 0 where
  ready : Shell → List Delivery → Outcome
  waiting : Shell → Outcome
  exit : Outcome
  fault : Outcome

-- `while(!flag) Sigsuspend(&mask)`: the empty mask lets every signal in.
unfoldable pub wait_flag : Shell → List Delivery → Outcome
wait_flag s [] = if s.flag then ready s [] else waiting s
wait_flag s (d ∷ ds) =
    if s.flag
    then ready s (d ∷ ds)
    else elim (deliver s d) [ none ↦ exit | some s' ↦ wait_flag s' ds ]

abbrev pub is_zero : ℤ → Bool
is_zero (pos zero) = true
is_zero _ = false

unfoldable pub waitfg : Shell → ℤ → List Delivery → Outcome
waitfg s pid ds =
    if is_zero pid
    then ready s ds
    else elim (getjobpid s.table.jobs pid) [ none ↦ ready s ds | some i ↦ wait_flag s ds ]

abbrev pub is_digit : ℕ → Bool
is_digit c = leb b'0' c && leb c b'9'

abbrev pub is_space : ℕ → Bool
is_space c = (c == b' ') || (leb 9 c && leb c 13)

-- `atoi`, for texts whose number is an `int`
unfoldable pub digits_from : ℕ → List ℕ → ℕ
digits_from n [] = n
digits_from n (c ∷ cs) = if is_digit c then digits_from (n * 10 + (c - b'0')) cs else n

unfoldable pub atoi : List ℕ → ℤ
unfolding digits_from
atoi [] = pos 0
atoi (c ∷ cs) =
    let rest = atoi cs in
    if is_space c
    then rest
    else if c == b'-'
    then negate (pos (digits_from 0 cs))
    else if c == b'+'
    then pos (digits_from 0 cs)
    else pos (digits_from 0 (c ∷ cs))

-- The job that the argument names, and the value of `cur_pid` behind the tests. In the branch of a
-- process ID an inner variable of that name is set, and the outer one keeps the -1.
unfoldable pub select : Table → List ℕ → Option (ℕ × ℤ)
select t [] = none
select t (c ∷ cs) =
    let cur_pid = negsuc 0 in
    if c == b'%'
    then elim (getjobjid t.jobs (atoi cs)) [
      | none ↦ none
      | some i ↦ some (i, pos (job_at t.jobs i).pid)
    ]
    else if is_digit c
    then (let inner_cur_pid = atoi (c ∷ cs) in
        elim (getjobpid t.jobs inner_cur_pid) [ none ↦ none | some i ↦ some (i, cur_pid) ])
    else none

abbrev pub quit_text : List ℕ
quit_text = b'q' ∷ b'u' ∷ b'i' ∷ b't' ∷ []

abbrev pub exit_text : List ℕ
exit_text = b'e' ∷ b'x' ∷ b'i' ∷ b't' ∷ []

abbrev pub fg_text : List ℕ
fg_text = b'f' ∷ b'g' ∷ []

abbrev pub bg_text : List ℕ
bg_text = b'b' ∷ b'g' ∷ []

abbrev pub jobs_text : List ℕ
jobs_text = b'j' ∷ b'o' ∷ b'b' ∷ b's' ∷ []

abbrev pub amp_text : List ℕ
amp_text = b'&' ∷ []

-- What follows the choice of a job: SIGCONT to the process group, the new state, and the wait.
unfoldable pub resume : Shell → Bool → ℕ → ℤ → List Delivery → Outcome
resume s to_bg i cur_pid ds =
    let sent' = (negate cur_pid, sigcont) ∷ s.sent in
    if to_bg
    then ready
        (record s { table = record s.table { jobs = set_state s.table.jobs i bg }; sent = sent' })
        ds
    else waitfg
        (record s {
          table = record s.table { jobs = set_state s.table.jobs i fg };
          flag = false;
          sent = sent';
        })
        cur_pid ds

unfoldable pub do_bgfg : Shell → List ℕ → List (List ℕ) → List Delivery → Outcome
do_bgfg s name [] ds = ready s ds
do_bgfg s name (arg ∷ args) ds = elim (select s.table arg) [
  | none ↦ ready s ds
  | some (i, cur_pid) ↦ resume s (str_eq name bg_text) i cur_pid ds
]

-- `none` where the function returns 0
unfoldable pub builtin_cmd : Shell → List ℕ → List (List ℕ) → List Delivery → Option Outcome
builtin_cmd s name args ds =
    if str_eq name quit_text || str_eq exit_text name
    then some exit
    else if str_eq amp_text name
    then some (ready s ds)
    else if str_eq fg_text name || str_eq bg_text name
    then some (do_bgfg s name args ds)
    else if str_eq jobs_text name
    then some (ready s ds)
    else none

-- The parent's side of a command that is not built in: `pid` is what `Fork` returned. The call that blocks
-- `mask` before the fork does not store the old mask, so `prev_all` is still empty behind `addjob`.
unfoldable pub launch : Shell → Bool → List ℕ → ℕ → List Delivery → Outcome
launch s to_bg cmdline pid ds =
    let mask = sigaddset sigemptyset sigchld in
    let prev_all = sigemptyset in
    let s' = sigprocmask sig_block mask s in
    if to_bg
    then ready
        (sigprocmask sig_unblock prev_all (with_jobs s' (addjob s'.table (pos pid) bg cmdline).1))
        ds
    else waitfg
        (sigprocmask sig_unblock prev_all
          (record s' { table = (addjob s'.table (pos pid) fg cmdline).1; flag = false }))
        (pos pid) ds

abbrev pub execute : Shell → List ℕ → ℕ → List Delivery → Command → Outcome
execute s cmdline pid ds c = elim c.argv [
  | [] ↦ ready s ds
  | name ∷ args ↦ elim (builtin_cmd s name args ds) [
    | none ↦ launch s c.bg cmdline pid ds
    | some o ↦ o
  ]
]

unfoldable pub eval : Shell → List ℕ → ℕ → List Delivery → Outcome
eval s cmdline pid ds = elim (parseline cmdline) [
  | overrun ↦ fault
  | out_of_fuel ↦ fault
  | done c ↦ execute s cmdline pid ds c
]
