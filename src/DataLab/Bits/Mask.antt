-- ===== src/DataLab/Bits/Mask.antt =====
-- `allOddBits`: the mask, two bits at a time.
use Prim.Native.Nat.{bit_and, bit_xor}
use cmu_15213_csapp3e_lab.Base.{
  ℕ, zero, suc, ◌+◌, ◌*◌, ◌/◌, ◌%◌, ◌^◌, ◌<◌, ◌≡◌, refl, ◌∙◌, sym, ap, Bool, true, Bool-cases, inl,
  inr, ◌==◌, ◌&&◌, arith,
}
use cmu_15213_csapp3e_lab.DataLab.Digits.{
  bit_and-halves, and_same, bit_and-zero, bit_and-le, bit_xor_self, bit_xor-equal,
}
use cmu_15213_csapp3e_lab.DataLab.Bits.{all_odd_bits}
use cmu_15213_csapp3e_lab.DataLab.Bits.Compare.{truth}

-- the first `k` bits at odd places, each of which must be 1
abbrev pub odd_ones : ℕ → ℕ → Bool
odd_ones zero x = true
odd_ones (suc k) x = (x / 2 % 2 == 1) && odd_ones k (x / 2 / 2)

abbrev odd_mask : ℕ → ℕ
odd_mask zero = 0
odd_mask (suc k) = 4 * odd_mask k + 2

masked : (n k x : ℕ) → x < 2 ^ n → (bit_and x (odd_mask k) == odd_mask k) ≡ odd_ones k x
masked n zero x l = rw (bit_and-zero n x l) refl
masked n (suc k) x l =
    let m = odd_mask k in
    let h = bit_and-halves x (4 * m + 2) in
    let e = and_same (x / 2) ((4 * m + 2) / 2) (x / 2) (2 * m + 1) refl (omega arith) in
    let h2 = bit_and-halves (x / 2) (2 * m + 1) in
    let e2 = and_same (x / 2 / 2) ((2 * m + 1) / 2) (x / 2 / 2) m refl (omega arith) in
    ground (arith, h, e, h2, e2, masked n k (x / 2 / 2) (omega arith))

xor_test : (k a b : ℕ) → a < 2 ^ k → b < 2 ^ k → (bit_xor a b == 0) ≡ (a == b)
xor_test k a b l m = elim (Bool-cases (a == b)) [
  | inl e ↦
      let q : a ≡ b = ground arith in
      let r = ap (λ y. bit_xor a y) (sym q) ∙ bit_xor_self k a l in ground (arith, r)
  | inr e ↦ elim (Bool-cases (bit_xor a b == 0)) [
    | inl z ↦ let q = bit_xor-equal k a b l m (ground arith) in ground arith
    | inr z ↦ z ∙ sym e
  ]
]

pub all_odd_bits_lem : (x : ℕ) → x < 2 ^ 32 → all_odd_bits x ≡ truth (odd_ones 16 x)
unfolding all_odd_bits
all_odd_bits_lem x l =
    rw
      (
        xor_test 32 (bit_and x 0xAAAAAAAA) 0xAAAAAAAA (omega (arith, bit_and-le 32 x 0xAAAAAAAA l))
            (omega arith),
        masked 32 16 x l,
      )
      refl
