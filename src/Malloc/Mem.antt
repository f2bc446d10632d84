-- ===== src/Malloc/Mem.antt =====
-- memlib.c: the memory that stands for the process's heap. Addresses are numbers.
pub mod Regions
mod Tests
use cmu_15213_csapp3e_lab.Base.{
  ℕ, ◌+◌, ◌-◌, ◌*◌, ◌^◌, ◌||◌, Bool, Option, none, some, List, [], ◌∷◌, ltb, if◌then◌else◌,
}
use cmu_15213_csapp3e_lab.Base.Int.{ℤ, pos, negsuc, ltb_ℤ, pos_part, neg_part}

-- `MAX_HEAP` of config.h
abbrev pub max_heap : ℕ
max_heap = 20 * 2 ^ 20

-- the private variables
pub record Mem : Type 0 where
  pub mem_start_brk : ℕ
  pub mem_brk : ℕ
  pub mem_max_addr : ℕ

-- `storage` is what `malloc` returns; the program ends if that is NULL.
unfoldable pub mem_init : Option ℕ → Option Mem
mem_init none = none
mem_init (some storage) =
    some (record { mem_start_brk = storage; mem_brk = storage; mem_max_addr = storage + max_heap })

unfoldable pub mem_reset_brk : Mem → Mem
mem_reset_brk m = record m { mem_brk = m.mem_start_brk }

-- `none` is the result -1, with `errno` set.
unfoldable pub mem_sbrk : Mem → ℤ → Option ℕ × Mem
mem_sbrk m incr =
    if ltb_ℤ incr (pos 0) || ltb m.mem_max_addr (m.mem_brk + pos_part incr)
    then (none, m)
    else (some m.mem_brk, record m { mem_brk = m.mem_brk + pos_part incr })

unfoldable pub mem_heap_lo : Mem → ℕ
mem_heap_lo m = m.mem_start_brk

unfoldable pub mem_heap_hi : Mem → ℕ
mem_heap_hi m = m.mem_brk - 1

unfoldable pub mem_heapsize : Mem → ℕ
mem_heapsize m = m.mem_brk - m.mem_start_brk
