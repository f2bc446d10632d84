-- ===== src/DataLab/Bits/Compare.antt =====
-- The puzzles that compare.
use Prim.Native.Nat.{bit_and, bit_or, bit_xor}
use cmu_15213_csapp3e_lab.Base.{
  ℕ, ◌-◌, ◌/◌, ◌^◌, ◌<◌, ◌≡◌, refl, ◌∙◌, Bool-cases, inl, inr, Bool, true, false, not, ltb, leb,
  ◌==◌, if◌then◌else◌, ◌&&◌, ◌||◌, arith,
}
use cmu_15213_csapp3e_lab.Base.Int.{ltb_ℤ}
use cmu_15213_csapp3e_lab.DataLab.Words.{complement, plus, is_zero, signed}
use cmu_15213_csapp3e_lab.DataLab.Digits.{bit_xor-zero}
use cmu_15213_csapp3e_lab.DataLab.Sign.{sign_bit, sign_clear, sign_set}
use cmu_15213_csapp3e_lab.DataLab.Bits.{is_less_or_equal, is_ascii_digit}

abbrev pub truth : Bool → ℕ
truth b = if b then 1 else 0

pub is_ascii_digit_lem : (x : ℕ) → x < 2 ^ 32 → is_ascii_digit x ≡ truth (leb 0x30 x && leb x 0x39)
unfolding is_ascii_digit
is_ascii_digit_lem x l =
    let u = plus x (2 ^ 32 - 0x30) in
    let v = plus x (2 ^ 32 - 0x3a) in
    elim (Bool-cases (ltb u (2 ^ 31))) [
      | inl e ↦ elim (Bool-cases (ltb v (2 ^ 31))) [
        | inl f ↦ rw (sign_clear u (ground arith), sign_clear v (ground arith)) (ground arith)
        | inr f ↦
            rw (sign_clear u (ground arith), sign_set v (ground arith) (omega arith)) (ground arith)
      ]
      | inr e ↦ elim (Bool-cases (ltb v (2 ^ 31))) [
        | inl f ↦
            rw (sign_set u (ground arith) (omega arith), sign_clear v (ground arith)) (ground arith)
        | inr f ↦
            rw (sign_set u (ground arith) (omega arith), sign_set v (ground arith) (omega arith))
              (ground arith)
      ]
    ]

-- what is decided from the signs of `x` and `y` and from whether `x - y` is negative or 0
decision :
    (p q c t : Bool)
    → bit_or
        (bit_and (is_zero (bit_xor (truth p) (truth q))) (bit_or (truth c) (truth t)))
        (bit_and (truth p) (is_zero (truth q)))
      ≡ truth (if p then (if q then c || t else true) else (if q then false else c || t))
decision true true true true = refl
decision true true true false = refl
decision true true false true = refl
decision true true false false = refl
decision true false true true = refl
decision true false true false = refl
decision true false false true = refl
decision true false false false = refl
decision false true true true = refl
decision false true true false = refl
decision false true false true = refl
decision false true false false = refl
decision false false true true = refl
decision false false true false = refl
decision false false false true = refl
decision false false false false = refl

sign_truth : (x : ℕ) → x < 2 ^ 32 → x / 2 ^ 31 ≡ truth (leb (2 ^ 31) x)
sign_truth x l = ground arith

-- `isLessOrEqual` of two words is 1 when the `int` of the first is at most that of the second, and else 0,
-- also where the subtraction in it wraps around.
pub is_less_or_equal_lem :
    (x y : ℕ)
    → x < 2 ^ 32
    → y < 2 ^ 32
    → is_less_or_equal x y ≡ truth (not (ltb_ℤ (signed y) (signed x)))
unfolding is_less_or_equal
is_less_or_equal_lem x y l m =
    let z = plus (plus x (complement y)) 1 in
    let p = leb (2 ^ 31) x in
    let q = leb (2 ^ 31) y in
    let c = leb (2 ^ 31) z in
    let d = decision p q c (z == 0) in
    rw
      (
        sign_bit x l,
        sign_bit y m,
        sign_bit z (omega arith),
        bit_xor-zero 32 z (omega arith),
        sign_truth x l,
        sign_truth y m,
        sign_truth z (omega arith),
      )
      (d ∙ ground arith)
