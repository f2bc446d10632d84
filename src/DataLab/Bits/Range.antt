-- ===== src/DataLab/Bits/Range.antt =====
-- `howManyBits` against the ranges of two's complement.
use native.Mathlib.Nat.{pow-le-pow_right}
use cmu_15213_csapp3e_lab.Base.{
  ℕ, zero, suc, ◌-◌, ◌^◌, ◌≤◌, ◌<◌, ◌↔◌, inl, inr, Bool-cases, ltb, leb, arith,
}
use cmu_15213_csapp3e_lab.Base.Int.{ℤ, pos, negsuc}
use cmu_15213_csapp3e_lab.DataLab.Words.{signed}
use cmu_15213_csapp3e_lab.DataLab.Bits.{how_many_bits}
use cmu_15213_csapp3e_lab.DataLab.Bits.Count.{Length, magnitude, inverted-magnitude, counted}

-- the numbers of `n` bits in two's complement: from -2^(n-1) up to 2^(n-1) - 1
abbrev pub Fits : ℕ → ℤ → Type 0
Fits n (pos v) = v < 2 ^ (n - 1)
Fits n (negsuc v) = suc v ≤ 2 ^ (n - 1)

length_le : (x l k : ℕ) → Length x l → (l ≤ k) ↔ (x < 2 ^ k)
length_le x zero k h =
    (λ q. omega (arith, pow-le-pow_right {n = 2} (omega arith) {i = 0} {j = k} q), λ q. omega arith)
length_le x (suc p) k h = (
  λ q. omega (arith, h.1, pow-le-pow_right {n = 2} (omega arith) {i = suc p} {j = k} q),
  λ q. elim (Bool-cases (leb (suc p) k)) [
    | inl e ↦ ground arith
    | inr e ↦
        let w = pow-le-pow_right {n = 2} (omega arith) {i = k} {j = p} (ground arith) in
        absurd (omega (arith, h.0, w))
  ],
)

magnitude-Fits : (x n : ℕ) → x < 2 ^ 32 → (magnitude x < 2 ^ (n - 1)) ↔ Fits n (signed x)
magnitude-Fits x n l = elim (Bool-cases (ltb x (2 ^ 31))) [
  | inl e ↦ rw (e) (λ q. q, λ q. q)
  | inr e ↦ rw (e) (λ q. omega arith, λ q. omega arith)
]

-- `howManyBits` gives the least number of bits, at least 1, in which the `int` is represented in two's
-- complement: it is at least 1, and for every `n` above 0 it is at most `n` just when the `int` is in the range
-- of `n` bits.
pub how_many_bits_lem :
    (x n : ℕ)
    → x < 2 ^ 32
    → 0 < n
    → (1 ≤ how_many_bits x) × ((how_many_bits x ≤ n) ↔ Fits n (signed x))
how_many_bits_lem x n l p =
    let m : magnitude x < 2 ^ 31 = ground arith in
    let (k, e, h) = counted x (magnitude x) (inverted-magnitude x l) m in
    let a = length_le (magnitude x) k (n - 1) h in
    let b = magnitude-Fits x n l in
    (omega (arith, e), (λ q. b.0 (a.0 (omega (arith, e))), λ q. omega (arith, e, a.1 (b.1 q))))
