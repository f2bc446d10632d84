-- ===== src/DataLab/Floats.antt =====
-- The float puzzles of bits.c, on the bits of a `float`.
pub mod Value
pub mod Truncate
pub mod Round
mod Tests
use mathlib.Core.Option
use Prim.Native.Nat.{bit_and, bit_or}
use cmu_15213_csapp3e_lab.Base.{
  ℕ, zero, suc, ◌+◌, ◌-◌, ◌*◌, ◌/◌, ◌%◌, ◌^◌, not, ltb, ◌==◌, if◌then◌else◌, Option, none, some,
}
use cmu_15213_csapp3e_lab.DataLab.Words.{complement, plus, shift_left, shift_right}

unfoldable pub float_twice : ℕ → ℕ
float_twice uf =
    if bit_and uf 0x7f800000 == 0
    then bit_or (bit_and uf 0x80000000) (shift_left (bit_and uf 0x007fffff) 1)
    else if not (bit_and uf 0x7f800000 == 0x7f800000)
    then (let tmp = plus uf (shift_left 1 23) in
        if bit_and tmp 0x7f800000 == 0x7f800000 then shift_left (tmp / 2 ^ 23) 23 else tmp)
    else uf

-- `e` is `exp - 127`, which is negative for an `exp` below 127.
unfoldable pub float_f2i : ℕ → ℕ
float_f2i uf =
    let exp = bit_and (uf / 2 ^ 23) 0xFF in
    let frac = bit_and uf 0x7FFFFF in
    let e = exp - 127 in
    if exp == 0x7F800000
    then 0x80000000
    else if exp == 0
    then 0
    else if ltb exp 127
    then 0
    else if ltb 30 e
    then 0x80000000
    else (let frac2 = bit_or frac 0x800000 in
        let frac3 =
          if not (ltb e 23) then shift_left frac2 (e - 23) else shift_right frac2 (23 - e) in
        if bit_and (uf / 2 ^ 31) 1 == 0 then frac3 else plus (complement frac3) 1)

-- The loop of `float_i2f`: `afterShift` and `shiftLeft`. It runs on fuel, and is `none` without it.
unfoldable pub normalize : ℕ → ℕ → ℕ → Option (ℕ × ℕ)
normalize zero after_shift shift_count = none
normalize (suc fuel) after_shift shift_count =
    let rest = normalize fuel (shift_left after_shift 1) (shift_count + 1) in
    if not (bit_and after_shift 0x80000000 == 0)
    then some (shift_left after_shift 1, shift_count + 1)
    else rest

-- the rounding, and the sum of the fields
unfoldable pub round_off : ℕ → ℕ × ℕ → ℕ
round_off sign (after_shift, shift_count) =
    let flag =
      if ltb 0x0100 (bit_and after_shift 0x01ff)
      then 1
      else if bit_and after_shift 0x03ff == 0x0300
      then 1
      else 0 in
    plus (plus (plus sign (after_shift / 2 ^ 9)) (shift_left (159 - shift_count) 23)) flag

-- A word has 32 bits, so 32 turns are enough.
unfoldable pub float_i2f : ℕ → Option ℕ
float_i2f x =
    if x == 0
    then some 0
    else (let sign = if not (ltb x (2 ^ 31)) then 0x80000000 else 0 in
        let abs_x = if not (ltb x (2 ^ 31)) then (2 ^ 32 - x) % 2 ^ 32 else x in
        Option.map (round_off sign) (normalize 32 abs_x 0))
