-- ===== src/Shell/Line/Render.antt =====
-- `parseline` reads back the lines that are written from a list of arguments.
use mathlib.Core.List.{append_assoc}
use native.Mathlib.Nat.{zero-add}
use cmu_15213_csapp3e_lab.Base.{
  ℕ, zero, suc, ◌+◌, ◌≤◌, ◌<◌, ◌≡◌, refl, ap, ◌∙◌, inl, inr, true, false, none, some, List, [], ◌∷◌,
  ◌++◌, ltb, ◌==◌, arith, Bool-cases, if◌then◌else◌, ◌&&◌, length, length-append, replicate, All,
}
use cmu_15213_csapp3e_lab.Shell.Line.{
  done, overrun, end_with_space, skip_spaces, split_at, next_word, words, max_args, command,
  drop_amp, is_amp, split_line, parseline,
}

-- An argument as it is typed: bare, or in single quotes.
pub data Token : Type 0 where
  bare : List ℕ → Token
  quoted : List ℕ → Token

abbrev pub text_of : Token → List ℕ
text_of (bare w) = w
text_of (quoted w) = w

-- the character does not stand in the text
abbrev pub Lacks : ℕ → List ℕ → Type 0
Lacks d cs = All (λ c. (c == d) ≡ false) cs

-- A bare argument has a first character that is no quote, and no space; a quoted one has no quote.
abbrev pub TokenOk : Token → Type 0
TokenOk (bare []) = ⊥
TokenOk (bare (c ∷ cs)) = ((c == b'\'') ≡ false) × Lacks b' ' (c ∷ cs)
TokenOk (quoted w) = Lacks b'\'' w

abbrev pub typed : Token → List ℕ
typed (bare w) = w
typed (quoted w) = b'\'' ∷ (w ++ (b'\'' ∷ []))

abbrev pub spaces : ℕ → List ℕ
spaces n = replicate n b' '

-- The arguments, each with the number of further spaces behind the one that parts it from the next.
abbrev pub render : List (Token × ℕ) → List ℕ
render [] = []
render ((t, n) ∷ []) = typed t
render ((t, n) ∷ u ∷ ts) = typed t ++ (b' ' ∷ (spaces n ++ render (u ∷ ts)))

abbrev pub texts : List (Token × ℕ) → List (List ℕ)
texts [] = []
texts ((t, n) ∷ ts) = text_of t ∷ texts ts

abbrev pub TokensOk : List (Token × ℕ) → Type 0
TokensOk [] = Unit
TokensOk ((t, n) ∷ ts) = TokenOk t × TokensOk ts

split_at-append :
    (d : ℕ) (w rest : List ℕ) → Lacks d w → split_at d (w ++ (d ∷ rest)) ≡ some (w, rest)
unfolding split_at
split_at-append d [] rest a = ground arith
split_at-append d (c ∷ w) rest a = ground (arith, split_at-append d w rest a.1)

skip_spaces-spaces : (n : ℕ) (cs : List ℕ) → skip_spaces (spaces n ++ cs) ≡ skip_spaces cs
unfolding skip_spaces
skip_spaces-spaces zero cs = refl
skip_spaces-spaces (suc n) cs = skip_spaces-spaces n cs

-- a token stands at the front, and a space behind it
next_word-typed :
    (t : Token) (rest : List ℕ)
    → TokenOk t
    → (r : List ℕ) × (next_word (typed t ++ (b' ' ∷ rest)) ≡ some (text_of t, r))
      × (skip_spaces r ≡ skip_spaces rest)
unfolding skip_spaces
next_word-typed (bare []) rest h = absurd h
next_word-typed (bare (c ∷ cs)) rest h =
    (rest, rw h.0 (split_at-append b' ' (c ∷ cs) rest h.1), refl)
next_word-typed (quoted w) rest h =
    (b' ' ∷ rest, rw append_assoc (split_at-append b'\'' w (b' ' ∷ rest) h), refl)

skip_spaces-typed :
    (t : Token) (rest : List ℕ) → TokenOk t → skip_spaces (typed t ++ rest) ≡ typed t ++ rest
unfolding skip_spaces
skip_spaces-typed (bare []) rest h = absurd h
skip_spaces-typed (bare (c ∷ cs)) rest h = rw h.1.0
skip_spaces-typed (quoted w) rest h = refl

-- the buffer of the loop: the line with its newline made a space
abbrev buffer : List (Token × ℕ) → List ℕ
buffer [] = []
buffer (t ∷ ts) = render (t ∷ ts) ++ (b' ' ∷ [])

skip_spaces-buffer : (ts : List (Token × ℕ)) → TokensOk ts → skip_spaces (buffer ts) ≡ buffer ts
unfolding skip_spaces
skip_spaces-buffer [] h = refl
skip_spaces-buffer ((t, n) ∷ []) h = skip_spaces-typed t (b' ' ∷ []) h.0
skip_spaces-buffer ((t, n) ∷ u ∷ ts) h = rw append_assoc (skip_spaces-typed t _ h.0)

buffer-cons :
    (t : Token) (n : ℕ) (u : Token × ℕ) (ts : List (Token × ℕ))
    → buffer ((t, n) ∷ u ∷ ts) ≡ typed t ++ (b' ' ∷ (spaces n ++ buffer (u ∷ ts)))
buffer-cons t n u ts = simp append_assoc

-- one argument is read, and the buffer of the rest is left
next_word-buffer :
    (t : Token) (n : ℕ) (ts : List (Token × ℕ))
    → TokensOk ((t, n) ∷ ts)
    → (r : List ℕ) × (next_word (buffer ((t, n) ∷ ts)) ≡ some (text_of t, r))
      × (skip_spaces r ≡ buffer ts)
unfolding skip_spaces
next_word-buffer t n [] h = next_word-typed t [] h.0
next_word-buffer t n (u ∷ ts) h =
    let (r, e, q) = next_word-typed t (spaces n ++ buffer (u ∷ ts)) h.0 in
    (
      r,
      ap next_word (buffer-cons t n u ts) ∙ e,
      q ∙ skip_spaces-spaces n (buffer (u ∷ ts)) ∙ skip_spaces-buffer (u ∷ ts) h.1,
    )

words-render :
    (fuel argc : ℕ) (ts : List (Token × ℕ))
    → TokensOk ts
    → length ts < fuel
    → words fuel argc (buffer ts)
      ≡ (if ltb (argc + length ts) max_args then done (texts ts) else overrun)
unfolding words split_at
words-render zero argc ts h f = absurd (omega arith)
words-render (suc fuel) argc [] h f = ground arith
words-render (suc fuel) argc ((t, n) ∷ ts) h f =
    let (r, e, q) = next_word-buffer t n ts h in
    elim (Bool-cases (ltb argc max_args)) [
      | inr no_room ↦ ground arith
      | inl room ↦ rw (room, e, q, words-render fuel (argc + 1) ts h.1 (omega arith)) (ground arith)
    ]

length-typed : (t : Token) → TokenOk t → 1 ≤ length (typed t)
length-typed (bare []) h = absurd h
length-typed (bare (c ∷ cs)) h = omega arith
length-typed (quoted w) h = omega arith

length-render : (ts : List (Token × ℕ)) → TokensOk ts → length ts ≤ length (render ts)
length-render [] h = omega arith
length-render ((t, n) ∷ []) h = omega (arith, length-typed t h.0)
length-render ((t, n) ∷ u ∷ ts) h = omega (
  arith,
  length-typed t h.0,
  length-append {0} (typed t) (b' ' ∷ (spaces n ++ render (u ∷ ts))),
  length-append {0} (spaces n) (render (u ∷ ts)),
  length-render (u ∷ ts) h.1,
)

end_with_space-snoc :
    (cs : List ℕ) (c : ℕ) → end_with_space (cs ++ (c ∷ [])) ≡ done (cs ++ (b' ' ∷ []))
unfolding end_with_space
end_with_space-snoc [] c = refl
end_with_space-snoc (d ∷ []) c = refl
end_with_space-snoc (d ∷ e ∷ cs) c = rw (end_with_space-snoc (e ∷ cs) c, end_with_space)

-- The line as it is typed: leading spaces, the arguments, the newline.
abbrev pub line : ℕ → List (Token × ℕ) → List ℕ
line k ts = (spaces k ++ render ts) ++ (b'\n' ∷ [])

skip_spaces-line :
    (k : ℕ) (ts : List (Token × ℕ))
    → TokensOk ts
    → skip_spaces ((spaces k ++ render ts) ++ (b' ' ∷ [])) ≡ buffer ts
unfolding skip_spaces
skip_spaces-line k [] h = rw (append_assoc, skip_spaces-spaces k)
skip_spaces-line k (t ∷ ts) h =
    rw (append_assoc, skip_spaces-spaces k) (skip_spaces-buffer (t ∷ ts) h)

split_line-render :
    (k : ℕ) (ts : List (Token × ℕ))
    → TokensOk ts
    → split_line (line k ts)
      ≡ (if ltb (length ts) max_args then done (command (texts ts)) else overrun)
unfolding split_line
split_line-render k ts h =
    let fuel : length ts < length (line k ts) + 1 = omega (
      arith,
      length-append {0} (spaces k ++ render ts) (b'\n' ∷ []),
      length-append {0} (spaces k) (render ts),
      length-render ts h,
    ) in
    rw
      (
        end_with_space-snoc (spaces k ++ render ts) b'\n',
        split_line,
        skip_spaces-line k ts h,
        words-render (length (line k ts) + 1) 0 ts h fuel,
        zero-add,
      )
      (elim (Bool-cases (ltb (length ts) max_args)) [ inl e ↦ rw e | inr e ↦ rw e ])

drop_amp-snoc :
    (ws : List (List ℕ)) (w : List ℕ)
    → drop_amp (ws ++ (w ∷ [])) ≡ (if is_amp w then some ws else none)
unfolding drop_amp
drop_amp-snoc [] w = refl
drop_amp-snoc (v ∷ []) w = ground arith
drop_amp-snoc (v ∷ u ∷ ws) w = ground (arith, drop_amp-snoc (u ∷ ws) w)

-- A command asks for a background job if and only if its last argument begins with '&'; then that
-- argument is taken off, and else all are kept.
pub command-snoc :
    (ws : List (List ℕ)) (w : List ℕ)
    → command (ws ++ (w ∷ [])) ≡ (
        if is_amp w
        then record { argv = ws; bg = true }
        else record { argv = ws ++ (w ∷ []); bg = false })
unfolding command
command-snoc [] w = ground (arith, drop_amp-snoc [] w)
command-snoc (v ∷ ws) w = ground (arith, drop_amp-snoc (v ∷ ws) w)

texts-append : (ts us : List (Token × ℕ)) → texts (ts ++ us) ≡ texts ts ++ texts us
texts-append [] us = refl
texts-append ((t, n) ∷ ts) us = ap (λ ws. text_of t ∷ ws) (texts-append ts us)

-- A line is typed of arguments, at least one, bare or quoted, with any spaces before and between them. If it
-- and its NUL fit in 1024 bytes and there are fewer than 128 arguments, it is read back as those
-- arguments; only a last one that begins with '&' is not kept, and asks for a background job. A longer
-- line is written past the end of the buffer, and one of 128 arguments or more past the end of `argv`.
pub parseline-render :
    (k : ℕ) (ts : List (Token × ℕ)) (t : Token) (n : ℕ)
    → TokensOk (ts ++ ((t, n) ∷ []))
    → parseline (line k (ts ++ ((t, n) ∷ []))) ≡ (
        if ltb (length (line k (ts ++ ((t, n) ∷ [])))) 1024 && ltb (length ts + 1) 128
        then done (
            if is_amp (text_of t)
            then record { argv = texts ts; bg = true }
            else record { argv = texts ts ++ (text_of t ∷ []); bg = false })
        else overrun)
unfolding parseline
parseline-render k ts t n h =
    let all = ts ++ ((t, n) ∷ []) in
    let f = split_line-render k all h in
    let g : length all ≡ length ts + 1 = length-append {0} ts ((t, n) ∷ []) in
    let c = ap command (texts-append ts ((t, n) ∷ [])) ∙ command-snoc (texts ts) (text_of t) in
    elim (Bool-cases (ltb (length (line k all)) 1024)) [
      | inl e ↦ rw (e, parseline) (rw (f, g, c) refl)
      | inr e ↦ rw (e, parseline) refl
    ]
