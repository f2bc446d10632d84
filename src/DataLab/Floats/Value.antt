-- ===== src/DataLab/Floats/Value.antt =====
-- `float_twice` against the value of a `float`.
use Prim.Native.Nat.{bit_or}
use cmu_15213_csapp3e_lab.Base.{
  ℕ, zero, suc, ◌+◌, ◌*◌, ◌/◌, ◌%◌, ◌^◌, ◌<◌, ◌≡◌, refl, ◌∙◌, ap, ◌⊎◌, inl, inr, true, false,
  Bool-cases, ◌==◌, if◌then◌else◌, arith,
}
use cmu_15213_csapp3e_lab.DataLab.Words.{plus, shift_left}
use cmu_15213_csapp3e_lab.DataLab.Digits.{zero-bit_or}
use cmu_15213_csapp3e_lab.DataLab.Fields.{
  exponent_lem, fraction_lem, sign_lem, bit_or-below, times_power,
}
use cmu_15213_csapp3e_lab.DataLab.Floats.{float_twice}

abbrev pub exponent : ℕ → ℕ
exponent x = x / 2 ^ 23 % 2 ^ 8

abbrev pub fraction : ℕ → ℕ
fraction x = x % 2 ^ 23

abbrev pub sign : ℕ → ℕ
sign x = x / 2 ^ 31

-- the absolute value of a finite `float` in units of 2 ^ -150
abbrev pub scaled : ℕ → ℕ
scaled x = if exponent x == 0 then 2 * fraction x else (2 ^ 23 + fraction x) * 2 ^ exponent x

abbrev pub Doubled : ℕ → ℕ → Type 0
Doubled x y =
    (exponent x < 254) × (exponent y < 255) × (sign y ≡ sign x) × (scaled y ≡ scaled x * 2)

-- what twice `x` is: infinity and NaN as they are, infinity, or the double value
abbrev pub Twice : ℕ → ℕ → Type 0
Twice x y =
    ((exponent x ≡ 255) × (y ≡ x))
    ⊎ ((exponent x ≡ 254) × (y ≡ sign x * 2 ^ 31 + 255 * 2 ^ 23))
    ⊎ Doubled x y

sign_or : (s r : ℕ) → s < 2 → r < 2 ^ 31 → bit_or (s * 2 ^ 31) r ≡ s * 2 ^ 31 + r
sign_or zero r l m = zero-bit_or r ∙ omega arith
sign_or (suc zero) r l m = bit_or-below 31 r m
sign_or (suc (suc s)) r l m = absurd (omega arith)

twice_small :
    (x y : ℕ) → x < 2 ^ 32 → exponent x ≡ 0 → y ≡ sign x * 2 ^ 31 + 2 * fraction x → Doubled x y
twice_small x y l e q = (
  omega arith,
  omega arith,
  omega arith,
  elim (Bool-cases (exponent y == 0)) [
    | inl z ↦ ground arith
    | inr z ↦
        let o : exponent y ≡ 1 = ground arith in
        let p = ap (λ (k : ℕ). (2 ^ 23 + fraction y) * 2 ^ k) o in ground arith
  ],
)

twice_normal :
    (x y : ℕ) → x < 2 ^ 32 → 0 < exponent x → exponent x < 254 → y ≡ x + 2 ^ 23 → Doubled x y
twice_normal x y l pos e q =
    let o : exponent y ≡ suc (exponent x) = omega arith in
    let f : fraction y ≡ fraction x = omega arith in
    let p = ap (λ (k : ℕ). (2 ^ 23 + fraction x) * 2 ^ k) o in
    let t = times_power (2 ^ 23 + fraction x) (exponent x) in
    let g = ap (λ (k : ℕ). (2 ^ 23 + k) * 2 ^ exponent y) f in
    (e, omega arith, omega arith, ground (arith, p, t, g))

small_bits :
    (x : ℕ) → x < 2 ^ 32 → exponent x ≡ 0 → float_twice x ≡ sign x * 2 ^ 31 + 2 * fraction x
unfolding float_twice
small_bits x l e =
    let t : (exponent x * 2 ^ 23 == 0) ≡ true = ground arith in
    let f : shift_left (fraction x) 1 ≡ 2 * fraction x = omega arith in
    rw (exponent_lem x l, t, sign_lem x l, fraction_lem x l, f)
      (sign_or (sign x) (2 * fraction x) (omega arith) (omega arith))

special_bits : (x : ℕ) → x < 2 ^ 32 → exponent x ≡ 255 → float_twice x ≡ x
unfolding float_twice
special_bits x l e =
    let t : (exponent x * 2 ^ 23 == 0) ≡ false = ground arith in
    let u : (exponent x * 2 ^ 23 == 0x7f800000) ≡ true = ground arith in
    rw (exponent_lem x l, t, u) refl

-- the next exponent
next_bits :
    (x : ℕ)
    → x < 2 ^ 32
    → 0 < exponent x
    → exponent x < 255
    → float_twice x ≡ (if exponent x + 1 == 255 then (x + 2 ^ 23) / 2 ^ 23 * 2 ^ 23 else x + 2 ^ 23)
unfolding float_twice
next_bits x l pos e =
    let t : (exponent x * 2 ^ 23 == 0) ≡ false = ground arith in
    let u : (exponent x * 2 ^ 23 == 0x7f800000) ≡ false = ground arith in
    let y = plus x (2 ^ 23) in
    let q : y ≡ x + 2 ^ 23 = omega arith in
    let o : exponent y ≡ exponent x + 1 = omega arith in
    let w : (exponent y * 2 ^ 23 == 0x7f800000) ≡ (exponent x + 1 == 255) = ground arith in
    let z : shift_left (y / 2 ^ 23) 23 ≡ (x + 2 ^ 23) / 2 ^ 23 * 2 ^ 23 = omega arith in
    rw (exponent_lem x l, t, u, exponent_lem y (omega arith), w, z, q) refl

-- `float_twice` gives infinity and NaN back, and infinity with the sign of the argument for the greatest
-- exponent; every other `float`, also a denormalized one, gets its sign and exactly twice its value.
pub float_twice_lem : (x : ℕ) → x < 2 ^ 32 → Twice x (float_twice x)
float_twice_lem x l = elim (Bool-cases (exponent x == 0)) [
  | inl e ↦
      inr (inr (twice_small x (float_twice x) l (ground arith) (small_bits x l (ground arith))))
  | inr e ↦ elim (Bool-cases (exponent x == 255)) [
    | inl f ↦ inl (ground arith, special_bits x l (ground arith))
    | inr f ↦
        let n = next_bits x l (ground arith) (ground arith) in
        elim (Bool-cases (exponent x + 1 == 255)) [
          | inl g ↦ inr (inl (ground arith, n ∙ rw (g) (ground arith)))
          | inr g ↦ inr (
              inr
                (twice_normal x (float_twice x) l (ground arith) (ground arith) (n ∙ rw (g) refl)))
        ]
  ]
]
