-- ===== src/DataLab/Bits/Tests.antt =====
-- The puzzles on the examples of bits.c, and words to use the theorems at.
use Prim.Native.Nat.{bit_xor}
use cmu_15213_csapp3e_lab.Base.{
  ◌-◌, ◌^◌, ◌≤◌, ◌≡◌, refl, ◌↔◌, leb, ◌==◌, ◌&&◌, if◌then◌else◌, not, arith,
}
use cmu_15213_csapp3e_lab.Base.Int.{negsuc, ltb_ℤ}
use cmu_15213_csapp3e_lab.DataLab.Words.{plus, is_zero, signed}
use cmu_15213_csapp3e_lab.DataLab.Bits.{
  bitxor, tmin, is_tmax, all_odd_bits, negate, is_ascii_digit, conditional, is_less_or_equal,
  logical_neg, how_many_bits, inverted, jump,
}
use cmu_15213_csapp3e_lab.DataLab.Bits.Compare.{truth, is_less_or_equal_lem}
use cmu_15213_csapp3e_lab.DataLab.Bits.Mask.{odd_ones}
use cmu_15213_csapp3e_lab.DataLab.Bits.Puzzles.{puzzles}
use cmu_15213_csapp3e_lab.DataLab.Bits.Range.{Fits, how_many_bits_lem}

bits_298 : how_many_bits 298 ≡ 10
unfolding how_many_bits inverted jump
bits_298 = refl

bits_minus_5 : how_many_bits 0xFFFFFFFB ≡ 4
unfolding how_many_bits inverted jump
bits_minus_5 = refl

bits_tmin : how_many_bits 0x80000000 ≡ 32
unfolding how_many_bits inverted jump
bits_tmin = refl

minus_4_le_5 : is_less_or_equal 0xFFFFFFFC 5 ≡ 1
unfolding is_less_or_equal
minus_4_le_5 = refl

digit_0x3a : is_ascii_digit 0x3a ≡ 0
unfolding is_ascii_digit
digit_0x3a = refl

how_many_bits_lem_example :
    (1 ≤ how_many_bits 0xFFFFFFFB) × ((how_many_bits 0xFFFFFFFB ≤ 4) ↔ Fits 4 (signed 0xFFFFFFFB))
how_many_bits_lem_example = how_many_bits_lem 0xFFFFFFFB 4 (omega arith) (omega arith)

is_less_or_equal_lem_example :
    is_less_or_equal 0x80000000 5 ≡ truth (not (ltb_ℤ (signed 5) (signed 0x80000000)))
is_less_or_equal_lem_example = is_less_or_equal_lem 0x80000000 5 (omega arith) (omega arith)

puzzles_example :
    (bitxor 0xFFFFFFFD 5 ≡ bit_xor 0xFFFFFFFD 5)
    × (conditional 0xFFFFFFFD 5 7 ≡ (if 0xFFFFFFFD == 0 then 7 else 5))
    × (logical_neg 0xFFFFFFFD ≡ is_zero 0xFFFFFFFD)
    × (plus 0xFFFFFFFD (negate 0xFFFFFFFD) ≡ 0)
    × (signed tmin ≡ negsuc (2 ^ 31 - 1))
    × (is_tmax 0xFFFFFFFD ≡ truth (0xFFFFFFFD == 2 ^ 31 - 1))
    × (is_ascii_digit 0xFFFFFFFD ≡ truth (leb 0x30 0xFFFFFFFD && leb 0xFFFFFFFD 0x39))
    × (all_odd_bits 0xFFFFFFFD ≡ truth (odd_ones 16 0xFFFFFFFD))
puzzles_example = puzzles 0xFFFFFFFD 5 7 (omega arith) (omega arith) (omega arith)
