-- ===== src/Mp2/Admission/Bound.antt =====
-- The admission control of MP2/mp2.c against its specification: a bound on the sum of the
-- utilisations, in millionths and each rounded down.
use native.Mathlib.Nat.{div-le_self}
use cs423_2017sp.Prelude.{
  ℕ, ◌+◌, ◌*◌, ◌/◌, ◌%◌, ◌^◌, ◌≤◌, ◌<◌, ◌≡◌, ◌∙◌, ap, none, some, List, [], ◌∷◌, arith, leb, length,
  All,
}
use cs423_2017sp.Prelude.Int.{ℤ, pos, negsuc, pos_part, neg_part, wrap32, bits64, ◌*ℤ◌}
use cs423_2017sp.Mp2.Task.{MpTask}
use cs423_2017sp.Mp2.Admission.{int_div, task_util, add_utils, admission_control}

-- A task with a positive period and a processing time from 0 to 2147, whose millionfold is an
-- `int`.
abbrev pub IsBounded : MpTask → Type 0
IsBounded t =
    (0 < pos_part t.period)
    × (pos_part t.period < 2 ^ 31)
    × (neg_part t.processing_time ≡ 0)
    × (pos_part t.processing_time ≤ 2147)

-- The utilisation of a task in millionths.
abbrev pub utilisation : MpTask → ℕ
utilisation t = pos_part t.processing_time * 1000000 / pos_part t.period

abbrev pub total_utilisation : List MpTask → ℕ
total_utilisation [] = 0
total_utilisation (t ∷ ts) = utilisation t + total_utilisation ts

product : (c : ℕ) → c ≤ 2147 → wrap32 (pos c *ℤ pos 1000000) ≡ pos (c * 1000000)
unfolding ◌*ℤ◌
product c h = ground arith

pub quotient : (a b : ℕ) → a < 2 ^ 31 → 0 < b → int_div (pos a) (pos b) ≡ some (pos (a / b))
unfolding int_div
quotient a b h k = ground arith

pub small : (n : ℕ) → n < 2 ^ 64 → n % 2 ^ 64 ≡ n
small n h = omega arith

util-of :
    (c p : ℤ)
    → neg_part c ≡ 0
    → pos_part c ≤ 2147
    → 0 < pos_part p
    → (elim (int_div (wrap32 (c *ℤ pos 1000000)) p) [ none ↦ none | some u ↦ some (bits64 u) ])
      ≡ some (pos_part c * 1000000 / pos_part p)
util-of (pos c) (pos p) e h k =
    rw (product c h, quotient (c * 1000000) p (omega arith) k)
      (ap some (small _ (omega (arith, div-le_self (c * 1000000) p))))
util-of (pos c) (negsuc p) e h k = absurd (omega arith)
util-of (negsuc c) p e h k = absurd (omega arith)

pub task_util-utilisation : (t : MpTask) → IsBounded t → task_util t ≡ some (utilisation t)
unfolding task_util
task_util-utilisation t h = util-of t.processing_time t.period h.2 h.3 h.0

pub add_utils-total :
    (total : ℕ) (ts : List MpTask)
    → All IsBounded ts
    → total + total_utilisation ts < 2 ^ 64
    → add_utils total ts ≡ some (total + total_utilisation ts)
unfolding add_utils
add_utils-total total [] h lt = ap some (omega arith)
add_utils-total total (t ∷ ts) h lt =
    rw (task_util-utilisation t h.0, add_utils)
      (rw (small (total + utilisation t) (omega arith))
        (add_utils-total (total + utilisation t) ts h.1 (omega arith) ∙ ap some (omega arith)))

utilisation-le : (t : MpTask) → IsBounded t → utilisation t ≤ 2147000000
utilisation-le t h =
    omega (arith, div-le_self (pos_part t.processing_time * 1000000) (pos_part t.period))

pub total_utilisation-le :
    (ts : List MpTask) → All IsBounded ts → total_utilisation ts ≤ length ts * 2147000000
total_utilisation-le [] h = omega arith
total_utilisation-le (t ∷ ts) h = omega (arith, utilisation-le t h.0, total_utilisation-le ts h.1)

-- For tasks with positive periods and processing times from 0 to 2147 ms, fewer than 2 ^ 32 of
-- them, the admission control does not trap, and it admits the new task exactly if the sum of all
-- utilisations, with the new one, is at most 693000.
pub admission_control_iff :
    (t : MpTask) (ts : List MpTask)
    → IsBounded t
    → All IsBounded ts
    → length ts < 2 ^ 32
    → admission_control t ts ≡ some (leb (utilisation t + total_utilisation ts) 693000)
unfolding admission_control
admission_control_iff t ts h hs few = rw (
  admission_control,
  task_util-utilisation t h,
  add_utils-total (utilisation t) ts hs
      (omega (arith, utilisation-le t h, total_utilisation-le ts hs)),
)
