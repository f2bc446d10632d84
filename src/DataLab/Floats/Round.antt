-- ===== src/DataLab/Floats/Round.antt =====
-- `float_i2f`: the loop ends, and the result is rounded.
use mathlib.Core.Option
use mathlib.Core.Path.{subst}
use cmu_15213_csapp3e_lab.Base.{
  ℕ, zero, suc, ◌+◌, ◌-◌, ◌*◌, ◌/◌, ◌%◌, ◌^◌, ◌≤◌, ◌<◌, ◌≡◌, refl, ◌∙◌, sym, ap, inl, inr, true,
  false, ◌⊎◌, ◌≢◌, Bool-cases, ltb, leb, ◌==◌, if◌then◌else◌, Option, some, arith,
}
use cmu_15213_csapp3e_lab.DataLab.Words.{shift_left}
use cmu_15213_csapp3e_lab.DataLab.Fields.{sign_lem, low_lem, times_power}
use cmu_15213_csapp3e_lab.DataLab.Floats.{float_i2f, normalize, round_off}

-- `a`, shifted `j` places, has its first bit at the left end of the word.
abbrev pub Normal : ℕ → ℕ → Type 0
Normal a j = (j < 32) × (2 ^ 31 ≤ a * 2 ^ j) × (a * 2 ^ j < 2 ^ 32)

swap_two : (a b : ℕ) → a * 2 * b ≡ a * b * 2
swap_two a b = grind arith

doubled : (a k : ℕ) → a * 2 * 2 ^ k ≡ a * 2 ^ suc k
doubled a k = swap_two a (2 ^ k) ∙ sym (times_power a k)

shift_on : (fuel a c : ℕ) → a < 2 ^ 31 → normalize (suc fuel) a c ≡ normalize fuel (a * 2) (c + 1)
unfolding normalize
shift_on fuel a c l =
    let t : (a / 2 ^ 31 * 2 ^ 31 == 0) ≡ true = ground arith in
    let d : shift_left a 1 ≡ a * 2 = ground arith in rw (sign_lem a (omega arith), t, d) refl

-- what the loop ends with, for the shifted number `x` and `n` turns
abbrev out : ℕ → ℕ → ℕ × ℕ
out x n = (x * 2 - 2 ^ 32, n)

out_same : (x y n m : ℕ) → x ≡ y → n ≡ m → some (out x n) ≡ some (out y m)
out_same x y n m e f = ap (λ z. some (out z n)) e ∙ ap (λ z. some (out y z)) f

normalize_lem :
    (fuel a c : ℕ)
    → fuel ≤ 32
    → a < 2 ^ 32
    → 2 ^ 32 ≤ a * 2 ^ fuel
    → (j : ℕ) × (j < fuel)
      × (2 ^ 31 ≤ a * 2 ^ j)
      × (a * 2 ^ j < 2 ^ 32)
      × (normalize fuel a c ≡ some (a * 2 ^ j * 2 - 2 ^ 32, c + j + 1))
unfolding normalize
normalize_lem zero a c f l h = absurd (omega arith)
normalize_lem (suc fuel) a c f l h = elim (Bool-cases (leb (2 ^ 31) a)) [
  | inl e ↦
      let t : (a / 2 ^ 31 * 2 ^ 31 == 0) ≡ false = ground arith in
      let u : a * 2 % 2 ^ 32 ≡ a * 2 ^ 0 * 2 - 2 ^ 32 = ground arith in
      let v : c + 1 ≡ c + 0 + 1 = omega arith in
      (0, omega arith, ground arith, omega arith, rw (sign_lem a l, t, u, v) refl)
  | inr e ↦
      let g : 2 ^ 32 ≤ a * 2 * 2 ^ fuel = omega (arith, doubled a fuel) in
      let (j, b, lo, hi, q) = normalize_lem fuel (a * 2) (c + 1) (omega arith) (ground arith) g in
      let s : a * 2 * 2 ^ j ≡ a * 2 ^ suc j = doubled a j in
      let v : c + 1 + j + 1 ≡ c + suc j + 1 = omega arith in
      (
        suc j,
        omega arith,
        omega (arith, lo, s),
        omega (arith, hi, s),
        shift_on fuel a c (ground arith)
            ∙ q
            ∙ out_same (a * 2 * 2 ^ j) (a * 2 ^ suc j) (c + 1 + j + 1) (c + suc j + 1) s v,
      )
]

-- The 24 bits `m` are those of `a` rounded to the nearest, and to the even one when two are as near.
abbrev pub Nearest : ℕ → ℕ → Type 0
Nearest a m = (256 * m ≤ a + 128) × (a ≤ 256 * m + 128) × ((a % 256 ≢ 128) ⊎ (m % 2 ≡ 0))

round_lem :
    (s a j : ℕ)
    → s < 2
    → j < 32
    → 2 ^ 31 ≤ a
    → a < 2 ^ 32
    → (m : ℕ) × (round_off (s * 2 ^ 31) (a * 2 - 2 ^ 32, 0 + j + 1)
        ≡ s * 2 ^ 31 + (157 - j) * 2 ^ 23 + m)
      × Nearest a m
unfolding round_off
round_lem s a j b c lo hi =
    let w = a * 2 - 2 ^ 32 in
    let p = low_lem 9 w (omega arith) (omega arith) (omega arith) (omega arith) in
    let q = low_lem 10 w (omega arith) (omega arith) (omega arith) (omega arith) in
    rw (p, q)
      (elim (Bool-cases (ltb 0x100 (w % 2 ^ 9))) [
        | inl e ↦ rw (e) (
          2 ^ 23 + w / 2 ^ 9 + 1,
          ground arith,
          (ground arith, ground arith, inl (λ z. ground arith)),
        )
        | inr e ↦ elim (Bool-cases (w % 2 ^ 10 == 0x300)) [
          | inl f ↦
              rw (e, f)
                (
                  2 ^ 23 + w / 2 ^ 9 + 1,
                  ground arith,
                  (ground arith, ground arith, inr (ground arith)),
                )
          | inr f ↦
              rw (e, f)
                (
                  2 ^ 23 + w / 2 ^ 9,
                  ground arith,
                  (
                    ground arith,
                    ground arith,
                    elim (Bool-cases (a % 256 == 128)) [
                      | inl g ↦ inr (ground arith)
                      | inr g ↦ inl (λ z. ground arith)
                    ],
                  ),
                )
        ]
      ])

-- the absolute value of the `int` of a word
abbrev pub magnitude : ℕ → ℕ
magnitude x = if ltb x (2 ^ 31) then x else 2 ^ 32 - x

-- `y` has the sign of `x`, the exponent of the first bit of its absolute value, and the next 23 bits, rounded.
abbrev pub Rounded : ℕ → Option ℕ → Type 0
Rounded x y =
    (j : ℕ) × (m : ℕ) × Normal (magnitude x) j
    × Nearest (magnitude x * 2 ^ j) m
    × (y ≡ some (x / 2 ^ 31 * 2 ^ 31 + (157 - j) * 2 ^ 23 + m))

rounded :
    (x s a : ℕ)
    → s < 2
    → x / 2 ^ 31 ≡ s
    → magnitude x ≡ a
    → 0 < a
    → a < 2 ^ 32
    → Rounded x (Option.map (round_off (s * 2 ^ 31)) (normalize 32 a 0))
rounded x s a b e f p l =
    let (j, c, lo, hi, q) = normalize_lem 32 a 0 (omega arith) l (omega arith) in
    let (m, g, h) = round_lem s (a * 2 ^ j) j b c lo hi in
    rw (e, f) (j, m, (c, lo, hi), h, ap (Option.map (round_off (s * 2 ^ 31))) q ∙ ap some g)

positive :
    (x : ℕ)
    → 0 < x
    → x < 2 ^ 31
    → float_i2f x ≡ Option.map (round_off (0 * 2 ^ 31)) (normalize 32 x 0)
unfolding float_i2f
positive x p l =
    let z : (x == 0) ≡ false = ground arith in
    let e : ltb x (2 ^ 31) ≡ true = ground arith in rw (z, e) refl

negative :
    (x : ℕ)
    → 2 ^ 31 ≤ x
    → x < 2 ^ 32
    → float_i2f x ≡ Option.map (round_off (1 * 2 ^ 31)) (normalize 32 (2 ^ 32 - x) 0)
unfolding float_i2f
negative x p l =
    let z : (x == 0) ≡ false = ground arith in
    let e : ltb x (2 ^ 31) ≡ false = ground arith in
    let d : (2 ^ 32 - x) % 2 ^ 32 ≡ 2 ^ 32 - x = omega arith in rw (z, e, d) refl

-- `float_i2f` of a word other than 0 ends. Shifted left until its first bit is at the left end of the word,
-- the absolute value is rounded to its first 24 bits, to the nearest and in a tie to even, and they, the
-- sign and the exponent that belongs to the shift are added up, so that a carry goes into the exponent.
pub float_i2f_lem : (x : ℕ) → x < 2 ^ 32 → 0 < x → Rounded x (float_i2f x)
float_i2f_lem x l p = elim (Bool-cases (ltb x (2 ^ 31))) [
  | inl e ↦
      subst (Rounded x) (sym (positive x p (ground arith)))
        (rounded x 0 x (omega arith) (ground arith) (ground arith) p l)
  | inr e ↦ subst (Rounded x) (sym (negative x (ground arith) l)) (
      rounded x 1 (2 ^ 32 - x) (omega arith) (ground arith) (ground arith) (omega arith)
        (ground arith))
]
