-- ===== src/Shell/Command/Mask.antt =====
-- SIGCHLD in the shell's signal mask. `eval` blocks it before the fork, and means to unblock it with a
-- set that is empty.
use mathlib.Core.Path.{subst}
use cmu_15213_csapp3e_lab.Base.{
  ℕ, ◌≡◌, sym, ap, ◌∙◌, Bool, true, false, not, ◌&&◌, ◌||◌, arith, ◌==◌, Option, none, some, List,
  [], ◌∷◌, by_if, by_option, str_eq,
}
use cmu_15213_csapp3e_lab.Base.Int.{ℤ, pos}
use cmu_15213_csapp3e_lab.Shell.Jobs.{fgpid, getjobpid}
use cmu_15213_csapp3e_lab.Shell.Line.{Parse, done, overrun, out_of_fuel, Command, parseline}
use cmu_15213_csapp3e_lab.Shell.Command.{
  Shell, Signal, sigint, sigtstp, Child, Delivery, chld, int, tstp, Outcome, ready, waiting, exit,
  fault, note_fg, handle_child, sigchld_handler, forward, deliver, wait_flag, waitfg, select,
  resume, do_bgfg, builtin_cmd, launch, execute, eval, bg_text, is_zero,
}
use cmu_15213_csapp3e_lab.Shell.Command.Reach.{let_in, Step, signal, command}
use cmu_15213_csapp3e_lab.Shell.Command.Builtin.{
  Builtin, quits, nothing, resumes, builtin_cmd-Builtin, eval-launch,
}

module _ (b : Bool) where
  -- the mask is as given in what a call leaves
  abbrev pub Masked : Outcome → Type 0
  Masked (ready s ds) = s.mask.has_chld ≡ b
  Masked (waiting s) = s.mask.has_chld ≡ b
  Masked exit = Unit
  Masked fault = Unit

  abbrev pub SomeMasked : Option Shell → Type 0
  SomeMasked none = Unit
  SomeMasked (some s) = s.mask.has_chld ≡ b

  note_fg-mask : (s : Shell) (pid : ℕ) → s.mask.has_chld ≡ b → (note_fg s pid).mask.has_chld ≡ b
  note_fg-mask s pid m =
      by_if (λ r. r.mask.has_chld ≡ b) (pid == fgpid s.table.jobs) (record s { flag = true }) s
        (λ e. m) (λ e. m)

  handle_child-mask : (s : Shell) (c : Child) → s.mask.has_chld ≡ b → SomeMasked (handle_child s c)
  unfolding handle_child
  handle_child-mask s c m =
      by_option SomeMasked (getjobpid s.table.jobs (pos c.pid)) none _ (λ e. tt)
        λ i e. note_fg-mask s c.pid m

  sigchld_handler-mask :
      (cs : List Child) (s : Shell) → s.mask.has_chld ≡ b → SomeMasked (sigchld_handler s cs)
  unfolding sigchld_handler
  sigchld_handler-mask [] s m = m
  sigchld_handler-mask (c ∷ cs) s m =
      by_option SomeMasked (handle_child s c) none (λ s'. sigchld_handler s' cs) (λ e. tt)
        λ s' e. sigchld_handler-mask cs s' (subst SomeMasked e (handle_child-mask s c m))

  forward-mask :
      (sig : Signal) (s : Shell) → s.mask.has_chld ≡ b → (forward sig s).mask.has_chld ≡ b
  unfolding forward
  forward-mask sig s m =
      by_if (λ r. r.mask.has_chld ≡ b) (fgpid s.table.jobs == 0) s _ (λ e. m) (λ e. m)

  pub deliver-mask : (s : Shell) (d : Delivery) → s.mask.has_chld ≡ b → SomeMasked (deliver s d)
  unfolding deliver
  deliver-mask s (chld cs) m = sigchld_handler-mask cs s m
  deliver-mask s int m = forward-mask sigint s m
  deliver-mask s tstp m = forward-mask sigtstp s m

  wait_flag-mask : (ds : List Delivery) (s : Shell) → s.mask.has_chld ≡ b → Masked (wait_flag s ds)
  unfolding wait_flag
  wait_flag-mask [] s m = by_if Masked s.flag (ready s []) (waiting s) (λ e. m) (λ e. m)
  wait_flag-mask (d ∷ ds) s m =
      by_if Masked s.flag (ready s (d ∷ ds)) _ (λ e. m)
        λ e.
          by_option Masked (deliver s d) exit (λ s'. wait_flag s' ds) (λ q. tt)
            λ s' q. wait_flag-mask ds s' (subst SomeMasked q (deliver-mask s d m))

  waitfg-mask :
      (s : Shell) (pid : ℤ) (ds : List Delivery) → s.mask.has_chld ≡ b → Masked (waitfg s pid ds)
  unfolding waitfg
  waitfg-mask s pid ds m =
      by_if Masked (is_zero pid) (ready s ds) _ (λ e. m)
        λ e.
          by_option Masked (getjobpid s.table.jobs pid) (ready s ds) (λ i. wait_flag s ds) (λ q. m)
            λ i q. wait_flag-mask ds s m

  do_bgfg-mask :
      (s : Shell) (name : List ℕ) (args : List (List ℕ)) (ds : List Delivery)
      → s.mask.has_chld ≡ b
      → Masked (do_bgfg s name args ds)
  unfolding do_bgfg resume
  do_bgfg-mask s name [] ds m = m
  do_bgfg-mask s name (arg ∷ args) ds m =
      by_option Masked (select s.table arg) (ready s ds) _ (λ e. m)
        λ (i, cur) e. by_if Masked (str_eq name bg_text) _ _ (λ e. m) (λ e. waitfg-mask _ cur ds m)

  builtin_cmd-mask :
      (s : Shell) (name : List ℕ) (args : List (List ℕ)) (ds : List Delivery) (o : Outcome)
      → s.mask.has_chld ≡ b
      → builtin_cmd s name args ds ≡ some o
      → Masked o
  builtin_cmd-mask s name args ds o m h = go (builtin_cmd-Builtin s name args ds o h)
    where
      go : Builtin s name args ds o → Masked o
      go (quits e) = subst Masked (sym e) tt
      go (nothing e) = subst Masked (sym e) m
      go (resumes e) = subst Masked (sym e) (do_bgfg-mask s name args ds m)

-- SIGCHLD is added to the mask, and the empty set takes nothing out again.
still_blocked : (b : Bool) → ((b || true) && not false) ≡ true
still_blocked b = ground arith

launch-mask :
    (s : Shell) (to_bg : Bool) (cmdline : List ℕ) (pid : ℕ) (ds : List Delivery)
    → Masked true (launch s to_bg cmdline pid ds)
unfolding launch
launch-mask s true cmdline pid ds = still_blocked s.mask.has_chld
launch-mask s false cmdline pid ds = waitfg-mask true _ (pos pid) ds (still_blocked s.mask.has_chld)

-- After a line that is no built-in command has been run, SIGCHLD is blocked.
launch_blocks :
    (s s' : Shell) (cmdline name : List ℕ) (args : List (List ℕ)) (to_bg : Bool) (pid : ℕ)
    (ds rest : List Delivery)
    → parseline cmdline ≡ done (record { argv = name ∷ args; bg = to_bg })
    → builtin_cmd s name args ds ≡ none
    → eval s cmdline pid ds ≡ ready s' rest
    → s'.mask.has_chld ≡ true
launch_blocks s s' cmdline name args to_bg pid ds rest p q e =
    subst (Masked true) (sym (eval-launch s cmdline name args to_bg pid ds p q) ∙ e)
      (launch-mask s to_bg cmdline pid ds)

execute-mask :
    (s : Shell) (cmdline : List ℕ) (pid : ℕ) (ds : List Delivery) (argv : List (List ℕ))
    (to_bg : Bool)
    → s.mask.has_chld ≡ true
    → Masked true (execute s cmdline pid ds (record { argv = argv; bg = to_bg }))
execute-mask s cmdline pid ds [] to_bg m = m
execute-mask s cmdline pid ds (name ∷ args) to_bg m =
    by_option (Masked true) (builtin_cmd s name args ds) _ (λ o. o)
      (λ e. launch-mask s to_bg cmdline pid ds) (λ o e. builtin_cmd-mask true s name args ds o m e)

eval-mask :
    (s : Shell) (cmdline : List ℕ) (pid : ℕ) (ds : List Delivery)
    → s.mask.has_chld ≡ true
    → Masked true (eval s cmdline pid ds)
unfolding eval
eval-mask s cmdline pid ds m = go (parseline cmdline)
  where
    go :
        (p : Parse Command)
        → Masked true
            (elim p [ overrun ↦ fault | out_of_fuel ↦ fault | done c ↦ execute s cmdline pid ds c ])
    go overrun = tt
    go out_of_fuel = tt
    go (done c) = execute-mask s cmdline pid ds c.argv c.bg m

kept : (s s' : Shell) → Step s s' → s.mask.has_chld ≡ true → s'.mask.has_chld ≡ true
kept s s' (signal d l e) m = subst (SomeMasked true) e (deliver-mask true s d m)
kept s s' (command cmdline pid ds rest nz new e) m =
    subst (Masked true) e (eval-mask s cmdline pid ds m)

-- any number of steps
pub data Later (s : Shell) : Shell → Type 0 where
  now : Later s s
  then_step : {s1 s2 : Shell} → Later s s1 → Step s1 s2 → Later s s2

Later-mask : {s s' : Shell} → s.mask.has_chld ≡ true → Later s s' → s'.mask.has_chld ≡ true
Later-mask m now = m
Later-mask m (then_step l st) = kept _ _ st (Later-mask m l)

-- After the first line that is no built-in command, from whatever mask the shell ran it, SIGCHLD is blocked for
-- good: in every state that is reached from there by signals and command lines it is in the mask, and
-- no child is reaped between two commands.
pub stays_blocked :
    (s s1 s2 : Shell) (cmdline name : List ℕ) (args : List (List ℕ)) (to_bg : Bool) (pid : ℕ)
    (ds rest : List Delivery)
    → parseline cmdline ≡ done (record { argv = name ∷ args; bg = to_bg })
    → builtin_cmd s name args ds ≡ none
    → eval s cmdline pid ds ≡ ready s1 rest
    → Later s1 s2
    → (s2.mask.has_chld ≡ true) × ((cs : List Child) → let_in s2 (chld cs) ≡ false)
stays_blocked s s1 s2 cmdline name args to_bg pid ds rest p q e l =
    let m = Later-mask (launch_blocks s s1 cmdline name args to_bg pid ds rest p q e) l in
    (m, λ cs. ap not m)
