-- ===== src/Mp2/Admission/Overflow.antt =====
-- The product in `admission_control` of MP2/mp2.c beyond the range of `int`.
use native.Mathlib.Nat.{div-le_self}
use cs423_2017sp.Prelude.{
  ℕ, ◌+◌, ◌-◌, ◌*◌, ◌/◌, ◌^◌, ◌≤◌, ◌<◌, ◌≡◌, ap, some, none, List, arith, leb, length, All,
}
use cs423_2017sp.Prelude.Int.{pos, wrap32, bits64, ◌*ℤ◌}
use cs423_2017sp.Mp2.Task.{MpTask}
use cs423_2017sp.Mp2.Admission.{int_div, task_util, admission_control}
use cs423_2017sp.Mp2.Admission.Bound.{
  IsBounded, utilisation, total_utilisation, add_utils-total, total_utilisation-le, quotient, small,
}

wrapped : (c : ℕ) → 4295 ≤ c → c ≤ 6442 → wrap32 (pos c *ℤ pos 1000000) ≡ pos (c * 1000000 - 2 ^ 32)
unfolding ◌*ℤ◌
wrapped c h k = ground arith

full : (c p : ℕ) → 0 < p → p ≤ c → 1000000 ≤ c * 1000000 / p
full c p h k = grind arith

wrapped_util :
    (c p : ℕ)
    → 4295 ≤ c
    → c ≤ 6442
    → 0 < p
    → (elim (int_div (wrap32 (pos c *ℤ pos 1000000)) (pos p)) [
      | none ↦ none
      | some u ↦ some (bits64 u)
    ])
      ≡ some ((c * 1000000 - 2 ^ 32) / p)
wrapped_util c p h k l =
    rw (wrapped c h k, quotient (c * 1000000 - 2 ^ 32) p (omega arith) l)
      (ap some (small _ (omega (arith, div-le_self (c * 1000000 - 2 ^ 32) p))))

-- A processing time from 4295 to 6442 overflows the product. A task that has one, with a period no
-- longer than it, wants the whole processor or more, but the admission control counts less than it
-- should by 2 ^ 32 in the product: next to tasks with positive periods and processing times from 0
-- to 2147, fewer than 2 ^ 32 of them, it admits the task exactly if that smaller number and their
-- utilisations are at most 693000.
pub admission_control-overflow :
    (c p : ℕ) (t : MpTask) (ts : List MpTask)
    → t.processing_time ≡ pos c
    → t.period ≡ pos p
    → 4295 ≤ c
    → c ≤ 6442
    → 0 < p
    → p ≤ c
    → All IsBounded ts
    → length ts < 2 ^ 32
    → (1000000 ≤ utilisation t)
      × (admission_control t ts
          ≡ some (leb ((c * 1000000 - 2 ^ 32) / p + total_utilisation ts) 693000))
unfolding admission_control task_util
admission_control-overflow c p t ts ec ep h k l le hs few = (
  rw (ec, ep) (full c p l le),
  rw (
    admission_control,
    task_util,
    ec,
    ep,
    wrapped_util c p h k l,
    add_utils-total ((c * 1000000 - 2 ^ 32) / p) ts hs
        (omega (arith, div-le_self (c * 1000000 - 2 ^ 32) p, total_utilisation-le ts hs)),
  ),
)
