-- ===== src/DataLab/Floats/Truncate.antt =====
-- `float_f2i` against the value of a `float`.
use Prim.Native.Nat.{bit_and, bit_or}
use native.Mathlib.Nat.{
  pow-le-pow_right, mul-le-mul, div-eq_of_lt, le-div_iff_mul-le, mul-div-mul_left,
  div-eq_of_eq-mul_left, one-le-pow, div-le_self,
}
use cmu_15213_csapp3e_lab.Base.{
  ℕ, ◌+◌, ◌-◌, ◌*◌, ◌/◌, ◌%◌, ◌^◌, ◌≤◌, ◌<◌, ◌≡◌, refl, ◌∙◌, sym, ap, inl, inr, true, false, not,
  Bool-cases, ltb, ◌==◌, if◌then◌else◌, arith,
}
use cmu_15213_csapp3e_lab.DataLab.Words.{complement, plus, shift_left, shift_right}
use cmu_15213_csapp3e_lab.DataLab.Digits.{power_sum, bit_and-one}
use cmu_15213_csapp3e_lab.DataLab.Fields.{byte_lem, fraction_lem, bit_or-above}
use cmu_15213_csapp3e_lab.DataLab.Floats.{float_f2i}
use cmu_15213_csapp3e_lab.DataLab.Floats.Value.{exponent, fraction, sign, scaled}

-- the absolute value without the part behind the point
abbrev pub whole : ℕ → ℕ
whole x = scaled x / 2 ^ 150

-- the word of an `int` with that absolute value
abbrev pub with_sign : ℕ → ℕ → ℕ
with_sign s n = if s == 0 then n else (2 ^ 32 - n) % 2 ^ 32

over : (m a d b : ℕ) → 0 < a → d ≡ a * b → m * a / d ≡ m / b
over m a d b l u =
    let c : m * a ≡ a * m = grind arith in
    ap (λ y. y / d) c ∙ ap (λ y. a * m / y) u ∙ mul-div-mul_left m b l

under : (m a d b : ℕ) → 0 < d → a ≡ d * b → m * a / d ≡ m * b
under m a d b l u = let c : m * a ≡ m * b * d = grind (arith, u) in div-eq_of_eq-mul_left l c

whole_small : (m e : ℕ) → m < 2 ^ 24 → e < 127 → m * 2 ^ e / 2 ^ 150 ≡ 0
whole_small m e l b =
    let p = pow-le-pow_right {n = 2} (omega arith) {i = e} {j = 126} (omega arith) in
    let q : m ≤ 2 ^ 24 - 1 = omega arith in div-eq_of_lt (omega (arith, mul-le-mul q p))

whole_shifted : (m e : ℕ) → e < 150 → m * 2 ^ e / 2 ^ 150 ≡ m / 2 ^ (150 - e)
whole_shifted m e b =
    let s = power_sum (150 - e) e in
    let t : 150 - e + e ≡ 150 = omega arith in
    let u : 2 ^ 150 ≡ 2 ^ e * 2 ^ (150 - e) = sym (ap (λ (k : ℕ). 2 ^ k) t) ∙ s in
    over m (2 ^ e) (2 ^ 150) (2 ^ (150 - e)) (omega (arith, one-le-pow e 2)) u

whole_large : (m e : ℕ) → 150 ≤ e → m * 2 ^ e / 2 ^ 150 ≡ m * 2 ^ (e - 150)
whole_large m e b =
    let s = power_sum (e - 150) 150 in
    let t : e - 150 + 150 ≡ e = omega arith in
    let u : 2 ^ e ≡ 2 ^ 150 * 2 ^ (e - 150) = sym (ap (λ (k : ℕ). 2 ^ k) t) ∙ s in
    under m (2 ^ e) (2 ^ 150) (2 ^ (e - 150)) (omega arith) u

whole_huge : (m e : ℕ) → 2 ^ 23 ≤ m → 158 ≤ e → 2 ^ 31 ≤ m * 2 ^ e / 2 ^ 150
whole_huge m e l b =
    let p = pow-le-pow_right {n = 2} (omega arith) {i = 158} {j = e} b in
    (le-div_iff_mul-le {k = 2 ^ 150} {x = 2 ^ 31} {y = m * 2 ^ e} (omega arith)).1
      (omega (arith, mul-le-mul l p))

fields_read :
    (x : ℕ)
    → x < 2 ^ 32
    → (bit_and (x / 2 ^ 23) 0xFF ≡ exponent x)
      × (bit_and x 0x7FFFFF ≡ fraction x)
      × (bit_or (fraction x) 0x800000 ≡ 2 ^ 23 + fraction x)
      × (bit_and (x / 2 ^ 31) 1 ≡ sign x)
fields_read x l = (
  byte_lem (x / 2 ^ 23) (omega arith),
  fraction_lem x l,
  omega (arith, bit_or-above 23 (fraction x) (omega arith)),
  omega (arith, bit_and-one 32 (x / 2 ^ 31) (omega arith)),
)

negated : (s n : ℕ) → n < 2 ^ 32 → (if s == 0 then n else plus (complement n) 1) ≡ with_sign s n
negated s n l = elim (Bool-cases (s == 0)) [ inl e ↦ rw (e) refl | inr e ↦ rw (e) (omega arith) ]

-- the branch in which the number is shifted
module _ (x : ℕ) (l : x < 2 ^ 32) (lo : 127 ≤ exponent x) (hi : exponent x ≤ 157) where
  shifted : ℕ
  shifted =
      let e = exponent x - 127 in
      if not (ltb e 23)
      then shift_left (2 ^ 23 + fraction x) (e - 23)
      else shift_right (2 ^ 23 + fraction x) (23 - e)

  near : ltb (exponent x - 127) 23 ≡ true → (shifted ≡ whole x) × (whole x < 2 ^ 31)
  unfolding shifted
  near q =
      let m = 2 ^ 23 + fraction x in
      let w = whole_shifted m (exponent x) (ground arith) in
      let k : 23 - (exponent x - 127) ≡ 150 - exponent x = ground arith in
      let z : (exponent x == 0) ≡ false = ground arith in
      let t : ltb m (2 ^ 31) ≡ true = ground arith in
      rw (q, k, z, w, t) (refl, omega (arith, div-le_self m (2 ^ (150 - exponent x))))

  far : ltb (exponent x - 127) 23 ≡ false → (shifted ≡ whole x) × (whole x < 2 ^ 31)
  unfolding shifted
  far q =
      let m = 2 ^ 23 + fraction x in
      let w = whole_large m (exponent x) (ground arith) in
      let k : exponent x - 127 - 23 ≡ exponent x - 150 = omega arith in
      let z : (exponent x == 0) ≡ false = ground arith in
      let p = pow-le-pow_right {n = 2} (omega arith) {i = exponent x - 150} {j = 7} (omega arith) in
      let a : m ≤ 2 ^ 24 - 1 = omega arith in
      let b = mul-le-mul a p in rw (q, k, z, w) (omega (arith, b), omega (arith, b))

  shifted-whole : (shifted ≡ whole x) × (whole x < 2 ^ 31)
  shifted-whole = elim (Bool-cases (ltb (exponent x - 127) 23)) [ inl q ↦ near q | inr q ↦ far q ]

  shifted_bits : float_f2i x ≡ with_sign (sign x) shifted
  unfolding float_f2i shifted
  shifted_bits =
      let (a, b, c, d) = fields_read x l in
      let g1 : (exponent x == 0x7F800000) ≡ false = ground arith in
      let g2 : (exponent x == 0) ≡ false = ground arith in
      let g3 : ltb (exponent x) 127 ≡ false = ground arith in
      let g4 : ltb 30 (exponent x - 127) ≡ false = ground arith in
      let w = shifted-whole in
      rw (a, b, g1, g2, g3, g4, c, d) (negated (sign x) shifted (omega (arith, w)))

nothing : (s : ℕ) → with_sign s 0 ≡ 0
nothing s = elim (Bool-cases (s == 0)) [ inl e ↦ rw (e) refl | inr e ↦ rw (e) refl ]

early_bits : (x : ℕ) → x < 2 ^ 32 → exponent x < 127 → (float_f2i x ≡ 0) × (whole x ≡ 0)
unfolding float_f2i
early_bits x l e =
    let f = fields_read x l in
    let g1 : (exponent x == 0x7F800000) ≡ false = ground arith in
    elim (Bool-cases (exponent x == 0)) [
      | inl z ↦ rw (f.0, g1, z) (refl, omega arith)
      | inr z ↦
          let t : ltb (exponent x) 127 ≡ true = ground arith in
          rw (f.0, g1, z, t) (refl, whole_small (2 ^ 23 + fraction x) (exponent x) (omega arith) e)
    ]

late_bits : (x : ℕ) → x < 2 ^ 32 → 158 ≤ exponent x → (float_f2i x ≡ 2 ^ 31) × (2 ^ 31 ≤ whole x)
unfolding float_f2i
late_bits x l e =
    let f = fields_read x l in
    let g1 : (exponent x == 0x7F800000) ≡ false = ground arith in
    let g2 : (exponent x == 0) ≡ false = ground arith in
    let g3 : ltb (exponent x) 127 ≡ false = ground arith in
    let g4 : ltb 30 (exponent x - 127) ≡ true = ground arith in
    rw (f.0, g1, g2, g3, g4) (refl, whole_huge (2 ^ 23 + fraction x) (exponent x) (omega arith) e)

-- `float_f2i` cuts off the part of the value behind the point and keeps the sign, where the absolute value
-- is below 2^31; otherwise, so for infinity and NaN, which have the greatest exponent, it is 0x80000000.
pub float_f2i_lem :
    (x : ℕ)
    → x < 2 ^ 32
    → float_f2i x ≡ (if ltb (whole x) (2 ^ 31) then with_sign (sign x) (whole x) else 0x80000000)
float_f2i_lem x l = elim (Bool-cases (ltb (exponent x) 127)) [
  | inl e ↦ let (a, b) = early_bits x l (ground arith) in rw (a, b) (sym (nothing (sign x)))
  | inr e ↦ elim (Bool-cases (ltb 157 (exponent x))) [
    | inl f ↦
        let (a, b) = late_bits x l (ground arith) in
        let t : ltb (whole x) (2 ^ 31) ≡ false = ground arith in rw (a, t) refl
    | inr f ↦
        let (a, b) = shifted-whole x l (ground arith) (ground arith) in
        let t : ltb (whole x) (2 ^ 31) ≡ true = ground arith in
        rw (t) (shifted_bits x l (ground arith) (ground arith) ∙ ap (with_sign (sign x)) a)
  ]
]
