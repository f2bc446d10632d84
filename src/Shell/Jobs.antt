-- ===== src/Shell/Jobs.antt =====
-- The job list of tsh.c and the routines that manipulate it.
pub mod Slots
pub mod Lookup
pub mod Ids
pub mod Keeps
mod Tests
use cmu_15213_csapp3e_lab.Base.{
  ℕ, zero, suc, ◌+◌, Bool, true, false, Option, none, some, List, [], ◌∷◌, map, ltb, ◌==◌,
  if◌then◌else◌, get_or, set, replicate,
}
use cmu_15213_csapp3e_lab.Base.Int.{ℤ, pos, pos_part, ltb_ℤ, eqb_ℤ}

abbrev pub max_jobs : ℕ
max_jobs = 16

-- UNDEF, FG, BG and ST
pub data JobState : Type 0 where
  undef fg bg st : JobState

-- `struct job_t`. The fields `pid` and `jid` never hold a negative number; a command line is the
-- list of its characters before the terminating NUL.
pub record Job : Type 0 where
  pub pid : ℕ
  pub jid : ℕ
  pub state : JobState
  pub cmdline : List ℕ

-- the globals `jobs` and `nextjid`
pub record Table : Type 0 where
  pub jobs : List Job
  pub nextjid : ℕ

abbrev pub no_job : Job
no_job = record { pid = 0; jid = 0; state = undef; cmdline = [] }

abbrev pub clearjob : Job → Job
clearjob j = no_job

pub initjobs : List Job → List Job
initjobs jobs = map clearjob jobs

unfoldable pub max_from : ℕ → List Job → ℕ
max_from m [] = m
max_from m (j ∷ js) = max_from (if ltb m j.jid then j.jid else m) js

unfoldable pub maxjid : List Job → ℕ
maxjid jobs = max_from 0 jobs

-- The loop of `addjob`: the list with the job in the first free entry.
unfoldable pub place : List Job → Job → Option (List Job)
place [] new = none
place (j ∷ js) new =
    let rest = place js new in
    if j.pid == 0 then some (new ∷ js) else elim rest [ none ↦ none | some r ↦ some (j ∷ r) ]

abbrev pub bump : ℕ → ℕ
bump n = if ltb max_jobs (n + 1) then 1 else n + 1

-- the entry that `addjob` fills in
abbrev pub new_job : Table → ℤ → JobState → List ℕ → Job
new_job t pid state cmdline = record {
  pid = pos_part pid;
  jid = t.nextjid;
  state = state;
  cmdline = cmdline;
}

unfoldable pub addjob : Table → ℤ → JobState → List ℕ → Bool × Table
addjob t pid state cmdline =
    if ltb_ℤ pid (pos 1) then (false, t) else elim (place t.jobs (new_job t pid state cmdline)) [
      | none ↦ (false, t)
      | some js ↦ (true, record { jobs = js; nextjid = bump t.nextjid })
    ]

-- The loop of `deletejob`: the list with the first entry of that pid cleared.
unfoldable pub remove : List Job → ℤ → Option (List Job)
remove [] pid = none
remove (j ∷ js) pid =
    let rest = remove js pid in
    if eqb_ℤ j.pid pid
    then some (clearjob j ∷ js)
    else elim rest [ none ↦ none | some r ↦ some (j ∷ r) ]

unfoldable pub deletejob : Table → ℤ → Bool × Table
deletejob t pid = if ltb_ℤ pid (pos 1) then (false, t) else elim (remove t.jobs pid) [
  | none ↦ (false, t)
  | some js ↦ (true, record { jobs = js; nextjid = maxjid js + 1 })
]

abbrev pub is_fg : JobState → Bool
is_fg fg = true
is_fg _ = false

unfoldable pub fgpid : List Job → ℕ
fgpid [] = 0
fgpid (j ∷ js) = if is_fg j.state then j.pid else fgpid js

-- A pointer into the job list is an index; the loops return the first entry that passes the test.
unfoldable pub find_pid : ℤ → ℕ → List Job → Option ℕ
find_pid pid i [] = none
find_pid pid i (j ∷ js) = if eqb_ℤ j.pid pid then some i else find_pid pid (i + 1) js

unfoldable pub getjobpid : List Job → ℤ → Option ℕ
getjobpid jobs pid = if ltb_ℤ pid (pos 1) then none else find_pid pid 0 jobs

unfoldable pub find_jid : ℤ → ℕ → List Job → Option ℕ
find_jid jid i [] = none
find_jid jid i (j ∷ js) = if eqb_ℤ j.jid jid then some i else find_jid jid (i + 1) js

unfoldable pub getjobjid : List Job → ℤ → Option ℕ
getjobjid jobs jid = if ltb_ℤ jid (pos 1) then none else find_jid jid 0 jobs

-- the entry that a pointer leads to
abbrev pub job_at : List Job → ℕ → Job
job_at jobs i = get_or jobs i no_job

pub jid_of : ℤ → List Job → ℕ
jid_of pid [] = 0
jid_of pid (j ∷ js) = if eqb_ℤ j.pid pid then j.jid else jid_of pid js

unfoldable pub pid2jid : List Job → ℤ → ℕ
pid2jid jobs pid = if ltb_ℤ pid (pos 1) then 0 else jid_of pid jobs

-- the write `cur_job->state = ...`
abbrev pub set_state : List Job → ℕ → JobState → List Job
set_state jobs i state = set jobs i (record (job_at jobs i) { state = state })

-- what `listjobs` prints of an entry: its ids, and the word for its state
pub data Word : Type 0 where
  running foreground stopped internal_error : Word

abbrev pub word : JobState → Word
word bg = running
word fg = foreground
word st = stopped
word undef = internal_error

pub listjobs : List Job → List (ℕ × ℕ × Word × List ℕ)
listjobs [] = []
listjobs (j ∷ js) =
    if j.pid == 0 then listjobs js else (j.jid, j.pid, word j.state, j.cmdline) ∷ listjobs js

-- the globals before `main` has run, and after `initjobs`
abbrev pub fresh_table : Table
fresh_table = record { jobs = replicate max_jobs no_job; nextjid = 1 }
