-- ===== src/Shell/Line/Total.antt =====
-- When `parseline` returns: the fuel is enough, and `argv` is long enough for a line of few words.
use cmu_15213_csapp3e_lab.Base.{
  ℕ, zero, suc, ◌+◌, ◌*◌, ◌≤◌, ◌<◌, ◌≡◌, ◌≢◌, refl, inl, inr, true, false, some, List, [], ◌∷◌, ltb,
  ◌==◌, arith, Bool-cases, Option-cases, length,
}
use cmu_15213_csapp3e_lab.Shell.Line.{
  Parse, done, overrun, out_of_fuel, end_with_space, skip_spaces, split_at, next_word, words,
  max_args, Command, command, max_line, split_line, parseline,
}

length-skip_spaces : (cs : List ℕ) → length (skip_spaces cs) ≤ length cs
unfolding skip_spaces
length-skip_spaces [] = omega arith
length-skip_spaces (c ∷ cs) = ground (arith, length-skip_spaces cs)

length-split_at :
    (d : ℕ) (cs w rest : List ℕ)
    → split_at d cs ≡ some (w, rest)
    → length rest + length w + 1 ≡ length cs
unfolding split_at
length-split_at d [] w rest h = cc
length-split_at d (c ∷ cs) w rest h = elim (Bool-cases (c == d)) [
  | inl e ↦ ground arith
  | inr e ↦ elim (Option-cases (split_at d cs)) [
    | inl q ↦ absurd (ground arith)
    | inr ((v, r), q) ↦ ground (arith, length-split_at d cs v r q)
  ]
]

length-next_word :
    (cs w rest : List ℕ) → next_word cs ≡ some (w, rest) → length rest + length w + 1 ≤ length cs
length-next_word [] w rest h = omega (arith, length-split_at b' ' [] w rest h)
length-next_word (c ∷ cs) w rest h = elim (Bool-cases (c == b'\'')) [
  | inl e ↦ omega (arith, length-split_at b'\'' cs w rest (rw e at h))
  | inr e ↦ omega (arith, length-split_at b' ' (c ∷ cs) w rest (rw e at h))
]

-- The loop ends by its test.
words-fuel : (fuel argc : ℕ) (buf : List ℕ) → length buf < fuel → words fuel argc buf ≢ out_of_fuel
unfolding words
words-fuel zero argc buf h = absurd (omega arith)
words-fuel (suc fuel) argc buf h = elim (Bool-cases (ltb argc max_args)) [
  | inr e ↦ ground arith
  | inl e ↦ elim (Option-cases (next_word buf)) [
    | inl q ↦ ground arith
    | inr ((w, rest), q) ↦ ground (
      arith,
      words-fuel fuel (argc + 1) (skip_spaces rest),
      length-skip_spaces rest,
      length-next_word buf w rest q,
    )
  ]
]

-- the text does not begin with a space
abbrev pub Stripped : List ℕ → Type 0
Stripped [] = Unit
Stripped (c ∷ cs) = (c == b' ') ≡ false

pub skip_spaces-Stripped : (cs : List ℕ) → Stripped (skip_spaces cs)
unfolding skip_spaces
skip_spaces-Stripped [] = tt
skip_spaces-Stripped (c ∷ cs) = elim (Bool-cases (c == b' ')) [
  | inl e ↦ rw e (skip_spaces-Stripped cs)
  | inr e ↦ rw e e
]

-- an argument takes two characters at least, its delimiter included
next_word-shrinks :
    (cs w rest : List ℕ) → Stripped cs → next_word cs ≡ some (w, rest) → length rest + 2 ≤ length cs
unfolding split_at
next_word-shrinks [] w rest s h = cc
next_word-shrinks (c ∷ cs) w rest s h = elim (Bool-cases (c == b'\'')) [
  | inl e ↦ omega (arith, length-split_at b'\'' cs w rest (rw e at h))
  | inr e ↦ elim (Option-cases (split_at b' ' cs)) [
    | inl q ↦ absurd (ground arith)
    | inr ((v, r), q) ↦ ground (arith, length-split_at b' ' cs v r q)
  ]
]

words-within :
    (fuel argc : ℕ) (buf : List ℕ)
    → Stripped buf
    → length buf + 2 * argc < 2 * max_args
    → words fuel argc buf ≢ overrun
unfolding words
words-within zero argc buf s h = ground arith
words-within (suc fuel) argc buf s h = elim (Bool-cases (ltb argc max_args)) [
  | inr e ↦ absurd (ground arith)
  | inl e ↦ elim (Option-cases (next_word buf)) [
    | inl q ↦ ground arith
    | inr ((w, rest), q) ↦ ground (
      arith,
      words-within fuel (argc + 1) (skip_spaces rest) (skip_spaces-Stripped rest),
      length-skip_spaces rest,
      next_word-shrinks buf w rest s q,
    )
  ]
]

pub end_with_space-some :
    (c : ℕ) (cs : List ℕ)
    → (r : List ℕ) × (end_with_space (c ∷ cs) ≡ done r) × (length r ≡ suc (length cs))
unfolding end_with_space
end_with_space-some c [] = (b' ' ∷ [], refl, refl)
end_with_space-some c (d ∷ cs) =
    let (r, e, l) = end_with_space-some d cs in (c ∷ r, rw (e, end_with_space), omega arith)

split_line-fuel : (cmdline : List ℕ) → split_line cmdline ≢ out_of_fuel
unfolding split_line end_with_space
split_line-fuel [] = ground arith
split_line-fuel (c ∷ cs) =
    let (r, e, l) = end_with_space-some c cs in
    ground (arith, words-fuel (length (c ∷ cs) + 1) 0 (skip_spaces r), length-skip_spaces r)

-- The fuel of the model is enough for every line.
pub parseline-fuel : (cmdline : List ℕ) → parseline cmdline ≢ out_of_fuel
unfolding parseline
parseline-fuel cmdline =
    let f = split_line-fuel cmdline in
    elim (Bool-cases (ltb (length cmdline) max_line)) [
      | inl e ↦ rw (e, parseline) f
      | inr e ↦ ground arith
    ]

Parse-cases {ℓ} :
    {A : Type ℓ} (p : Parse A) → p ≢ out_of_fuel → p ≢ overrun → (a : A) × (p ≡ done a)
Parse-cases (done a) f g = (a, refl)
Parse-cases overrun f g = absurd (g refl)
Parse-cases out_of_fuel f g = absurd (f refl)

-- A line that is not empty and has fewer than 256 characters, the newline included, is parsed with
-- no write outside an array.
pub parseline_total :
    (cmdline : List ℕ)
    → 0 < length cmdline
    → length cmdline < 2 * max_args
    → (c : Command) × (parseline cmdline ≡ done c)
unfolding parseline split_line
parseline_total [] h small = absurd (omega arith)
parseline_total (c ∷ cs) h small =
    let (r, e, l) = end_with_space-some c cs in
    let buf : List ℕ = skip_spaces r in
    let copied : ltb (length (c ∷ cs)) max_line ≡ true = ground arith in
    let (ws, p) =
      Parse-cases (words (length (c ∷ cs) + 1) 0 buf)
        (words-fuel (length (c ∷ cs) + 1) 0 buf (omega (arith, length-skip_spaces r)))
        (words-within (length (c ∷ cs) + 1) 0 buf (skip_spaces-Stripped r)
          (omega (arith, length-skip_spaces r))) in
    (command ws, rw (copied, parseline) (rw (e, split_line) (rw p)))
