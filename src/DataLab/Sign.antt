-- ===== src/DataLab/Sign.antt =====
-- The sign bit of a word.
use Prim.Native.Nat.{bit_and}
use cmu_15213_csapp3e_lab.Base.{
  ℕ, ◌-◌, ◌/◌, ◌^◌, ◌<◌, ◌≤◌, ◌≡◌, Bool-cases, inl, inr, true, false, ltb, arith,
}
use cmu_15213_csapp3e_lab.DataLab.Words.{shift_right}

pub sign_clear : (x : ℕ) → x < 2 ^ 31 → shift_right x 31 ≡ 0
sign_clear x l = let e : ltb x (2 ^ 31) ≡ true = ground arith in rw (e) (omega arith)

pub sign_set : (x : ℕ) → 2 ^ 31 ≤ x → x < 2 ^ 32 → shift_right x 31 ≡ 2 ^ 32 - 1
sign_set x g l = let e : ltb x (2 ^ 31) ≡ false = ground arith in rw (e) (omega arith)

pub sign_bit : (x : ℕ) → x < 2 ^ 32 → bit_and (shift_right x 31) 1 ≡ x / 2 ^ 31
sign_bit x l = elim (Bool-cases (ltb x (2 ^ 31))) [
  | inl e ↦ rw (sign_clear x (ground arith)) (ground arith)
  | inr e ↦ rw (sign_set x (ground arith) l) (ground arith)
]
