-- ===== src/Shell/Line/Tests.antt =====
-- `parseline` on lines as they are typed.
use cmu_15213_csapp3e_lab.Base.{ℕ, ◌≡◌, refl, true, false, List, [], ◌∷◌, arith}
use cmu_15213_csapp3e_lab.Shell.Line.{
  done, Command, command, parseline, split_line, words, skip_spaces, split_at,
}
use cmu_15213_csapp3e_lab.Shell.Line.Total.{parseline_total}
use cmu_15213_csapp3e_lab.Shell.Line.Render.{Token, bare, quoted, line, parseline-render}

-- "  ls 'a b'  &" and a newline
abbrev tokens : List (Token × ℕ)
tokens =
    (bare (b'l' ∷ b's' ∷ []), 0)
    ∷ (quoted (b'a' ∷ b' ' ∷ b'b' ∷ []), 1)
    ∷ (bare (b'&' ∷ []), 0)
    ∷ []

-- the arguments before the last
abbrev two_tokens : List (Token × ℕ)
two_tokens = (bare (b'l' ∷ b's' ∷ []), 0) ∷ (quoted (b'a' ∷ b' ' ∷ b'b' ∷ []), 1) ∷ []

parse_tokens :
    parseline (line 2 tokens)
    ≡ done (record { argv = (b'l' ∷ b's' ∷ []) ∷ (b'a' ∷ b' ' ∷ b'b' ∷ []) ∷ []; bg = true })
unfolding parseline split_line words skip_spaces split_at command
parse_tokens = refl

-- a quote that is not closed ends the arguments
unclosed :
    parseline (b'l' ∷ b' ' ∷ b'\'' ∷ b'a' ∷ b'\n' ∷ [])
    ≡ done (record { argv = (b'l' ∷ []) ∷ []; bg = false })
unfolding parseline split_line words skip_spaces split_at command
unclosed = refl

blank : parseline (b'\n' ∷ []) ≡ done (record { argv = []; bg = true })
unfolding parseline split_line words skip_spaces split_at command
blank = refl

parseline_total_example : (c : Command) × (parseline (line 2 tokens) ≡ done c)
parseline_total_example = parseline_total (line 2 tokens) (omega arith) (omega arith)

parseline-render_example :
    parseline (line 2 tokens)
    ≡ done (record { argv = (b'l' ∷ b's' ∷ []) ∷ (b'a' ∷ b' ' ∷ b'b' ∷ []) ∷ []; bg = true })
parseline-render_example =
    parseline-render 2 two_tokens (bare (b'&' ∷ [])) 0
      ((refl, (refl, (refl, tt))), ((refl, (refl, (refl, tt))), ((refl, (refl, tt)), tt)))
