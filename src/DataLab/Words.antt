-- ===== src/DataLab/Words.antt =====
-- The operators of C on 32-bit integers. A word is the number of its bits, below 2 ^ 32; `&`, `|` and `^`
-- are `bit_and`, `bit_or` and `bit_xor` of the native numbers.
use cmu_15213_csapp3e_lab.Base.{ℕ, ◌+◌, ◌-◌, ◌*◌, ◌/◌, ◌%◌, ◌^◌, ltb, ◌==◌, if◌then◌else◌}
use cmu_15213_csapp3e_lab.Base.Int.{ℤ, pos, negsuc}

-- `~x`
abbrev pub complement : ℕ → ℕ
complement x = 2 ^ 32 - 1 - x

-- `x + y`, which wraps around
abbrev pub plus : ℕ → ℕ → ℕ
plus x y = (x + y) % 2 ^ 32

-- `x << k`
abbrev pub shift_left : ℕ → ℕ → ℕ
shift_left x k = x * 2 ^ k % 2 ^ 32

-- `x >> k` of an `int`: the sign bit comes in from the left.
abbrev pub shift_right : ℕ → ℕ → ℕ
shift_right x k = if ltb x (2 ^ 31) then x / 2 ^ k else complement (complement x / 2 ^ k)

-- `!x`
abbrev pub is_zero : ℕ → ℕ
is_zero x = if x == 0 then 1 else 0

-- the `int` that a word stands for
abbrev pub signed : ℕ → ℤ
signed x = if ltb x (2 ^ 31) then pos x else negsuc (complement x)
