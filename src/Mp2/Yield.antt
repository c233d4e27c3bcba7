-- ===== src/Mp2/Yield.antt =====
-- `yield_handle` of MP2/mp2.c. `jiffies` is read twice and may have moved on in between;
-- `msecs_to_jiffies` is the kernel's.
pub mod Releases
use cs423_2017sp.Prelude.{
  ℕ, ◌+◌, ◌%◌, ◌^◌, Bool, true, false, Option, none, some, ◌==◌, ltb, if◌then◌else◌,
}
use cs423_2017sp.Prelude.Int.{ℤ, bits32}
use cs423_2017sp.Prelude.Memory.{Ptr}
use cs423_2017sp.Mp2.Task.{MpTask, Scheduler, sleeping, exists, get_task_by_pid, modify}

-- The next release of a task: the first yield counts from now, a later one from the last release.
unfoldable pub next_release : (ℕ → ℕ) → ℕ → MpTask → ℕ
next_release msecs_to_jiffies jiffies t =
    (t.next_period
      + (if t.next_period == 0
          then (jiffies + msecs_to_jiffies (bits32 t.period)) % 2 ^ 64
          else msecs_to_jiffies (bits32 t.period)))
    % 2 ^ 64

-- What is left of the task if its next period has begun, and if it waits for it.
abbrev pub missed : ℕ → MpTask → MpTask
missed next t = record t { next_period = next }

abbrev pub awaits : ℕ → MpTask → MpTask
awaits next t = record t { next_period = next; timer = some next; task_state = sleeping }

-- `set_task_state` on NULL, or on a Linux task that is gone, is an oops; `live` says which exist.
-- The second field says whether the caller goes to sleep in `schedule`.
unfoldable pub yield_handle :
    (ℕ → ℕ) → (live : Ptr → Bool) → (jiffies later : ℕ) → ℤ → Scheduler → Option (Scheduler × Bool)
yield_handle msecs_to_jiffies live jiffies later pid s = elim (get_task_by_pid pid s.tasks) [
  | none ↦ none
  | some t ↦
      let next = next_release msecs_to_jiffies jiffies t in
      if ltb next later
      then some (record s { tasks = modify t.addr (missed next) s.tasks }, false)
      else if exists live t.task
      then some
          (record s { tasks = modify t.addr (awaits next) s.tasks; dispatcher_awake = true }, true)
      else none
]
