-- ===== src/DataLab/Bits/Logic.antt =====
-- The puzzles that stand for an operator of C.
use mathlib.Core.Path.{subst}
use Prim.Native.Nat.{bit_and, bit_xor}
use cmu_15213_csapp3e_lab.Base.{
  ℕ, zero, suc, ◌-◌, ◌/◌, ◌^◌, ◌<◌, ◌≡◌, refl, ◌∙◌, sym, ap, Bool-cases, inl, inr, false, ltb, ◌==◌,
  if◌then◌else◌, arith,
}
use cmu_15213_csapp3e_lab.DataLab.Words.{complement, plus, is_zero}
use cmu_15213_csapp3e_lab.DataLab.Digits.{
  bit_xor-complements, bit_xor-equal, zero-bit_and, ones-bit_and, bit_or-zero, zero-bit_or,
  bit_and-high, bit_and-le, bit_and-zero, bit_xor-lt,
}
use cmu_15213_csapp3e_lab.DataLab.Sign.{sign_bit}
use cmu_15213_csapp3e_lab.DataLab.Bits.{bitxor, is_tmax, negate, conditional, logical_neg}

pub bitxor_lem : (x y : ℕ) → x < 2 ^ 32 → y < 2 ^ 32 → bitxor x y ≡ bit_xor x y
unfolding bitxor
bitxor_lem x y l m = bit_xor-complements 32 x y l m

pub conditional_lem :
    (x y z : ℕ) → y < 2 ^ 32 → z < 2 ^ 32 → conditional x y z ≡ (if x == 0 then z else y)
unfolding conditional
conditional_lem x y z l m = elim (Bool-cases (x == 0)) [
  | inl e ↦ rw (e, zero-bit_and y, ones-bit_and 32 z m, zero-bit_or z) refl
  | inr e ↦ rw (e, zero-bit_and z, ones-bit_and 32 y l, bit_or-zero 32 y l) refl
]

pub negate_lem : (x : ℕ) → x < 2 ^ 32 → plus x (negate x) ≡ 0
unfolding negate
negate_lem x l = omega arith

-- `~x` and `x - 1` do not both have the sign bit.
signs_differ : (x : ℕ) → suc x < 2 ^ 32 → bit_and (complement (suc x)) x / 2 ^ 31 ≡ 0
signs_differ x l = bit_and-high 31 (complement (suc x)) x ∙ elim (Bool-cases (ltb x (2 ^ 31))) [
  | inl e ↦
      let z : x / 2 ^ 31 ≡ 0 = ground arith in
      ap (λ y. bit_and (complement (suc x) / 2 ^ 31) y) z
      ∙ bit_and-zero 32 (complement (suc x) / 2 ^ 31) (omega arith)
  | inr e ↦
      let z : complement (suc x) / 2 ^ 31 ≡ 0 = ground arith in
      ap (λ y. bit_and y (x / 2 ^ 31)) z ∙ zero-bit_and (x / 2 ^ 31)
]

pub logical_neg_lem : (x : ℕ) → x < 2 ^ 32 → logical_neg x ≡ is_zero x
unfolding logical_neg
logical_neg_lem zero l = refl
logical_neg_lem (suc x) l =
    let c = complement (suc x) in
    let e : complement (plus c 1) ≡ x = omega arith in
    let b = sign_bit (bit_and c x) (omega (arith, bit_and-le 32 c x (omega arith))) in
    rw (e, b, signs_differ x l) (ground arith)

is_tmax_else :
    (x : ℕ) → x < 2 ^ 32 → (x == 2 ^ 31 - 1) ≡ false → (x == 2 ^ 32 - 1) ≡ false → is_tmax x ≡ 0
unfolding is_tmax
is_tmax_else x l e f =
    let n : (complement x == 0) ≡ false = ground arith in
    let c = complement (plus x 1) in
    let v = bit_xor c x in
    let b = bit_xor-lt 32 c x (omega arith) l in
    let d : (v == 0) ≡ false = elim (Bool-cases (v == 0)) [
      | inl z ↦ let q = bit_xor-equal 32 c x (omega arith) l (ground arith) in ground arith
      | inr z ↦ z
    ] in
    rw (n, bit_or-zero 32 v b, d) refl

pub is_tmax_lem : (x : ℕ) → x < 2 ^ 32 → is_tmax x ≡ (if x == 2 ^ 31 - 1 then 1 else 0)
unfolding is_tmax
is_tmax_lem x l = elim (Bool-cases (x == 2 ^ 31 - 1)) [
  | inl e ↦
      let q : x ≡ 2 ^ 31 - 1 = ground arith in
      subst (λ y. is_tmax y ≡ (if y == 2 ^ 31 - 1 then 1 else 0)) (sym q) refl
  | inr e ↦ elim (Bool-cases (x == 2 ^ 32 - 1)) [
    | inl f ↦
        let q : x ≡ 2 ^ 32 - 1 = ground arith in
        subst (λ y. is_tmax y ≡ (if y == 2 ^ 31 - 1 then 1 else 0)) (sym q) refl
    | inr f ↦ is_tmax_else x l e f ∙ rw (e) refl
  ]
]
