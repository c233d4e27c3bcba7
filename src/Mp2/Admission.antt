-- ===== src/Mp2/Admission.antt =====
-- `admission_control` of MP2/mp2.c: integer arithmetic as the kernel is built, with `int` products
-- that wrap at 32 bits and a sum of 64 bits.
pub mod Bound
pub mod Overflow
use cs423_2017sp.Prelude.{
  ℕ, ◌+◌, ◌-◌, ◌%◌, ◌^◌, Bool, ◌&&◌, ◌||◌, Option, none, some, List, [], ◌∷◌, leb, if◌then◌else◌,
}
use cs423_2017sp.Prelude.Int.{ℤ, pos, negsuc, ◌*ℤ◌, eqb_ℤ, wrap32, bits64, tdiv}
use cs423_2017sp.Mp2.Task.{MpTask}

-- `a / b` on `int`; `none` is the trap of the division, by 0 or with a quotient out of range.
unfoldable pub int_div : ℤ → ℤ → Option ℤ
int_div a b =
    if eqb_ℤ b (pos 0) || (eqb_ℤ a (negsuc (2 ^ 31 - 1)) && eqb_ℤ b (negsuc 0))
    then none
    else some (tdiv a b)

-- `processing_time * 1000000 / period`, converted to `unsigned long`.
unfoldable pub task_util : MpTask → Option ℕ
task_util t = elim (int_div (wrap32 (t.processing_time *ℤ pos 1000000)) t.period) [
  | none ↦ none
  | some u ↦ some (bits64 u)
]

-- The loop over the list, from the sum so far.
unfoldable pub add_utils : ℕ → List MpTask → Option ℕ
add_utils total [] = some total
add_utils total (t ∷ ts) = elim (task_util t) [
  | none ↦ none
  | some u ↦ add_utils ((total + u) % 2 ^ 64) ts
]

-- `none` is the trap of a division.
unfoldable pub admission_control : MpTask → List MpTask → Option Bool
admission_control new_task ts = elim (task_util new_task) [
  | none ↦ none
  | some u ↦ elim (add_utils u ts) [ none ↦ none | some total ↦ some (leb total 693000) ]
]
