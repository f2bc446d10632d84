-- ===== src/DataLab/Bits.antt =====
-- The integer puzzles of bits.c, on 32-bit words.
pub mod Logic
pub mod Compare
pub mod Mask
pub mod Count
pub mod Range
pub mod Puzzles
mod Tests
use Prim.Native.Nat.{bit_and, bit_or, bit_xor}
use cmu_15213_csapp3e_lab.Base.{ℕ, ◌+◌, ◌-◌, ◌*◌, ◌/◌, ◌^◌}
use cmu_15213_csapp3e_lab.DataLab.Words.{complement, plus, shift_left, shift_right, is_zero}

-- `bitXor`
unfoldable pub bitxor : ℕ → ℕ → ℕ
bitxor x y =
    let both = bit_and x y in
    let neither = bit_and (complement x) (complement y) in
    bit_and (complement both) (complement neither)

unfoldable pub tmin : ℕ
tmin = shift_left 1 31

unfoldable pub is_tmax : ℕ → ℕ
is_tmax x =
    let neg1 = is_zero (complement x) in is_zero (bit_or (bit_xor (complement (plus x 1)) x) neg1)

unfoldable pub all_odd_bits : ℕ → ℕ
all_odd_bits x =
    let half = plus (shift_left 0xAA 8) 0xAA in
    let mask = plus (shift_left half 16) half in is_zero (bit_xor (bit_and x mask) mask)

unfoldable pub negate : ℕ → ℕ
negate x = plus (complement x) 1

unfoldable pub is_ascii_digit : ℕ → ℕ
is_ascii_digit x =
    let x_minus_0x30 = plus x (plus (complement 0x30) 1) in
    let x_minus_0x3a = plus x (plus (complement 0x3a) 1) in
    let lower_bound_mask = is_zero (shift_right x_minus_0x30 31) in
    let upper_bound_mask = is_zero (is_zero (shift_right x_minus_0x3a 31)) in
    bit_and lower_bound_mask upper_bound_mask

unfoldable pub conditional : ℕ → ℕ → ℕ → ℕ
conditional x0 y z =
    let x = plus (complement (is_zero (is_zero x0))) 1 in
    bit_or (bit_and x y) (bit_and (complement x) z)

unfoldable pub is_less_or_equal : ℕ → ℕ → ℕ
is_less_or_equal x y =
    let sx = bit_and (shift_right x 31) 1 in
    let sy = bit_and (shift_right y 31) 1 in
    let z = plus (plus x (complement y)) 1 in
    let s = bit_or (bit_and (shift_right z 31) 1) (is_zero (bit_xor z 0)) in
    bit_or (bit_and (is_zero (bit_xor sx sy)) s) (bit_and sx (is_zero sy))

unfoldable pub logical_neg : ℕ → ℕ
logical_neg x =
    bit_and (shift_right (bit_and (complement x) (complement (plus (complement x) 1))) 31) 1

-- `x = (sign & ~x) | (~sign & x)`: a negative number is inverted.
unfoldable pub inverted : ℕ → ℕ
inverted x =
    let sign = shift_right x 31 in
    bit_or (bit_and sign (complement x)) (bit_and (complement sign) x)

-- `!!(x >> 2^i) << i`: how far the search goes on
unfoldable pub jump : ℕ → ℕ → ℕ
jump x i = shift_left (is_zero (is_zero (shift_right x (2 ^ i)))) i

unfoldable pub how_many_bits : ℕ → ℕ
how_many_bits x0 =
    let x1 = inverted x0 in
    let bit16 = jump x1 4 in
    let x2 = shift_right x1 bit16 in
    let bit8 = jump x2 3 in
    let x3 = shift_right x2 bit8 in
    let bit4 = jump x3 2 in
    let x4 = shift_right x3 bit4 in
    let bit2 = jump x4 1 in
    let x5 = shift_right x4 bit2 in
    let bit1 = jump x5 0 in
    let bit0 = shift_right x5 bit1 in
    plus (plus (plus (plus (plus (plus bit16 bit8) bit4) bit2) bit1) bit0) 1
