-- ===== src/DataLab/Bits/Puzzles.antt =====
-- The puzzles together.
use Prim.Native.Nat.{bit_xor}
use cmu_15213_csapp3e_lab.Base.{ℕ, ◌-◌, ◌^◌, ◌<◌, ◌≡◌, refl, leb, ◌==◌, ◌&&◌, if◌then◌else◌}
use cmu_15213_csapp3e_lab.Base.Int.{negsuc}
use cmu_15213_csapp3e_lab.DataLab.Words.{plus, is_zero, signed}
use cmu_15213_csapp3e_lab.DataLab.Bits.{
  bitxor, tmin, is_tmax, all_odd_bits, negate, is_ascii_digit, conditional, logical_neg,
}
use cmu_15213_csapp3e_lab.DataLab.Bits.Logic.{
  bitxor_lem, is_tmax_lem, negate_lem, conditional_lem, logical_neg_lem,
}
use cmu_15213_csapp3e_lab.DataLab.Bits.Compare.{truth, is_ascii_digit_lem}
use cmu_15213_csapp3e_lab.DataLab.Bits.Mask.{odd_ones, all_odd_bits_lem}

-- On all words `bitXor` is `^`, `conditional` is `x ? y : z`, `logicalNeg` is `!`, and `negate` gives what
-- adds up to 0. `tmin` is the least `int`, `isTmax` is 1 for the greatest one and else 0, `isAsciiDigit` for
-- 0x30 to 0x39, and `allOddBits` for the words whose 16 bits at odd places are 1.
pub puzzles :
    (x y z : ℕ)
    → x < 2 ^ 32
    → y < 2 ^ 32
    → z < 2 ^ 32
    → (bitxor x y ≡ bit_xor x y)
      × (conditional x y z ≡ (if x == 0 then z else y))
      × (logical_neg x ≡ is_zero x)
      × (plus x (negate x) ≡ 0)
      × (signed tmin ≡ negsuc (2 ^ 31 - 1))
      × (is_tmax x ≡ truth (x == 2 ^ 31 - 1))
      × (is_ascii_digit x ≡ truth (leb 0x30 x && leb x 0x39))
      × (all_odd_bits x ≡ truth (odd_ones 16 x))
unfolding tmin
puzzles x y z l m n = (
  bitxor_lem x y l m,
  conditional_lem x y z m n,
  logical_neg_lem x l,
  negate_lem x l,
  refl,
  is_tmax_lem x l,
  is_ascii_digit_lem x l,
  all_odd_bits_lem x l,
)
