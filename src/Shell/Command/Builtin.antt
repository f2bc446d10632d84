-- ===== src/Shell/Command/Builtin.antt =====
-- What a command that is built in does.
use cmu_15213_csapp3e_lab.Base.{ℕ, ◌≡◌, Bool, ◌||◌, Option, none, some, List, ◌∷◌, by_if, str_eq}
use cmu_15213_csapp3e_lab.Shell.Line.{done, parseline}
use cmu_15213_csapp3e_lab.Shell.Command.{
  Shell, launch, eval, execute, Delivery, Outcome, ready, exit, do_bgfg, builtin_cmd, bg_text,
  fg_text, quit_text, exit_text, amp_text, jobs_text,
}

-- the shell ends, nothing changes, or `do_bgfg` runs
pub data Builtin (s : Shell) (name : List ℕ) (args : List (List ℕ)) (ds : List Delivery)
    (o : Outcome) : Type 0 where
  quits : o ≡ exit → Builtin s name args ds o
  nothing : o ≡ ready s ds → Builtin s name args ds o
  resumes : o ≡ do_bgfg s name args ds → Builtin s name args ds o

pub builtin_cmd-Builtin :
    (s : Shell) (name : List ℕ) (args : List (List ℕ)) (ds : List Delivery) (o : Outcome)
    → builtin_cmd s name args ds ≡ some o
    → Builtin s name args ds o
unfolding builtin_cmd
builtin_cmd-Builtin s name args ds o h =
    by_if P (str_eq name quit_text || str_eq exit_text name) (some exit) _ (λ e. λ q. quits (cc))
      (λ e.
        by_if P (str_eq amp_text name) (some (ready s ds)) _ (λ e. λ q. nothing (cc))
          λ e.
            by_if P (str_eq fg_text name || str_eq bg_text name) (some (do_bgfg s name args ds)) _
              (λ e. λ q. resumes (cc))
              λ e.
                by_if P (str_eq jobs_text name) (some (ready s ds)) none (λ e. λ q. nothing (cc))
                  (λ e. λ q. cc))
      h
  where
    P : Option Outcome → Type 0
    P r = r ≡ some o → Builtin s name args ds o

-- A line whose first word is no built-in command is launched.
pub eval-launch :
    (s : Shell) (cmdline name : List ℕ) (args : List (List ℕ)) (to_bg : Bool) (pid : ℕ)
    (ds : List Delivery)
    → parseline cmdline ≡ done (record { argv = name ∷ args; bg = to_bg })
    → builtin_cmd s name args ds ≡ none
    → eval s cmdline pid ds ≡ launch s to_bg cmdline pid ds
unfolding eval
eval-launch s cmdline name args to_bg pid ds p q = rw (p, eval) (rw (q, execute))
