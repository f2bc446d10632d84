-- ===== src/DataLab/Floats/Tests.antt =====
-- Floats and their bits: 1.0 is 0x3F800000, and 2.5 is 0x40200000.
use cmu_15213_csapp3e_lab.Base.{◌^◌, ◌≡◌, refl, ltb, if◌then◌else◌, some, arith}
use cmu_15213_csapp3e_lab.DataLab.Floats.{float_twice, float_f2i, float_i2f, normalize, round_off}
use cmu_15213_csapp3e_lab.DataLab.Floats.Value.{sign, Twice, float_twice_lem}
use cmu_15213_csapp3e_lab.DataLab.Floats.Round.{Rounded, float_i2f_lem}
use cmu_15213_csapp3e_lab.DataLab.Floats.Truncate.{whole, with_sign, float_f2i_lem}

two : float_twice 0x3F800000 ≡ 0x40000000
unfolding float_twice
two = refl

smallest : float_twice 0x80000001 ≡ 0x80000002
unfolding float_twice
smallest = refl

minus_2_5 : float_f2i 0xC0200000 ≡ 0xFFFFFFFE
unfolding float_f2i
minus_2_5 = refl

float_twice_lem_example : Twice 0x40200000 (float_twice 0x40200000)
float_twice_lem_example = float_twice_lem 0x40200000 (omega arith)

float_f2i_lem_example : float_f2i 0xC0200000 ≡ (
    if ltb (whole 0xC0200000) (2 ^ 31)
    then with_sign (sign 0xC0200000) (whole 0xC0200000)
    else 0x80000000)
float_f2i_lem_example = float_f2i_lem 0xC0200000 (omega arith)

tie_to_even : float_i2f 0x01000001 ≡ some 0x4B800000
unfolding float_i2f normalize round_off
tie_to_even = refl

minus_one_float : float_i2f 0xFFFFFFFF ≡ some 0xBF800000
unfolding float_i2f normalize round_off
minus_one_float = refl

float_i2f_lem_example : Rounded 0xFFFFFFFF (float_i2f 0xFFFFFFFF)
float_i2f_lem_example = float_i2f_lem 0xFFFFFFFF (omega arith) (omega arith)
