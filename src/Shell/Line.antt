-- ===== src/Shell/Line.antt =====
-- `parseline` of tsh.c: from a command line to its arguments. A string is the list of its characters
-- before the terminating NUL; an argument is what stands from its pointer to the NUL that replaces
-- its delimiter.
pub mod Total
pub mod Render
mod Tests
use cmu_15213_csapp3e_lab.Base.{
  ℕ, zero, suc, ◌+◌, Bool, true, false, Option, none, some, List, [], ◌∷◌, ltb, ◌==◌, if◌then◌else◌,
  length,
}

abbrev pub max_line : ℕ
max_line = 1024

abbrev pub max_args : ℕ
max_args = 128

-- `done` is what the function returns. `overrun` is a write outside an array: by `strcpy`
-- into `array[MAXLINE]`, `buf[strlen(buf) - 1]` for the empty string, or an entry of `argv` from `MAXARGS` on. `out_of_fuel` stands for no outcome
-- of the code.
pub data Parse {ℓ} (A : Type ℓ) : Type ℓ where
  done : A → Parse A
  overrun : Parse A
  out_of_fuel : Parse A

-- `buf[strlen(buf) - 1] = ' '`
pub end_with_space : List ℕ → Parse (List ℕ)
end_with_space [] = overrun
end_with_space (c ∷ []) = done (b' ' ∷ [])
end_with_space (c ∷ d ∷ cs) = elim (end_with_space (d ∷ cs)) [
  | done r ↦ done (c ∷ r)
  | overrun ↦ overrun
  | out_of_fuel ↦ out_of_fuel
]

-- `while (*buf && (*buf == ' ')) buf++`
unfoldable pub skip_spaces : List ℕ → List ℕ
skip_spaces [] = []
skip_spaces (c ∷ cs) = if c == b' ' then skip_spaces cs else c ∷ cs

-- `strchr`, as what stands before the character and what stands behind it
unfoldable pub split_at : ℕ → List ℕ → Option (List ℕ × List ℕ)
split_at d [] = none
split_at d (c ∷ cs) =
    if c == d
    then some ([], cs)
    else elim (split_at d cs) [ none ↦ none | some (w, rest) ↦ some (c ∷ w, rest) ]

-- the next argument: to the closing quote behind an opening one, else to the next space
abbrev pub next_word : List ℕ → Option (List ℕ × List ℕ)
next_word [] = split_at b' ' []
next_word (c ∷ cs) = if c == b'\'' then split_at b'\'' cs else split_at b' ' (c ∷ cs)

abbrev pub cons_word : List ℕ → Parse (List (List ℕ)) → Parse (List (List ℕ))
cons_word w (done ws) = done (w ∷ ws)
cons_word w overrun = overrun
cons_word w out_of_fuel = out_of_fuel

-- The loop over the delimiters, from `argc` arguments on, at a place with no leading spaces. The
-- write to `argv[argc]` is checked, that of the closing null pointer too.
unfoldable pub words : ℕ → ℕ → List ℕ → Parse (List (List ℕ))
words zero argc buf = out_of_fuel
words (suc fuel) argc buf =
    if ltb argc max_args
    then elim (next_word buf) [
      | none ↦ done []
      | some (w, rest) ↦ cons_word w (words fuel (argc + 1) (skip_spaces rest))
    ]
    else overrun

-- the arguments that are left, and whether a background job is asked for
pub record Command : Type 0 where
  pub argv : List (List ℕ)
  pub bg : Bool

-- whether an argument begins with '&'
abbrev pub is_amp : List ℕ → Bool
is_amp [] = false
is_amp (c ∷ cs) = c == b'&'

-- The last argument decides: `drop_amp` is `none` where it does not begin with '&', and else the
-- arguments before it.
pub drop_amp : List (List ℕ) → Option (List (List ℕ))
drop_amp [] = none
drop_amp (w ∷ []) = if is_amp w then some [] else none
drop_amp (w ∷ v ∷ ws) = elim (drop_amp (v ∷ ws)) [ none ↦ none | some r ↦ some (w ∷ r) ]

-- what follows the loop; a blank line returns 1
unfoldable pub command : List (List ℕ) → Command
unfolding drop_amp
command [] = record { argv = []; bg = true }
command (w ∷ ws) = elim (drop_amp (w ∷ ws)) [
  | none ↦ record { argv = w ∷ ws; bg = false }
  | some r ↦ record { argv = r; bg = true }
]

-- behind `strcpy`
unfoldable pub split_line : List ℕ → Parse Command
unfolding end_with_space
split_line cmdline = elim (end_with_space cmdline) [
  | overrun ↦ overrun
  | out_of_fuel ↦ out_of_fuel
  | done buf ↦ elim (words (length cmdline + 1) 0 (skip_spaces buf)) [
    | done ws ↦ done (command ws)
    | overrun ↦ overrun
    | out_of_fuel ↦ out_of_fuel
  ]
]

-- The copy into the array takes a byte more, for the NUL.
unfoldable pub parseline : List ℕ → Parse Command
parseline cmdline = if ltb (length cmdline) max_line then split_line cmdline else overrun
