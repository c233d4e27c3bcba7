-- ===== src/Mp2/Registration.antt =====
-- `registration`, `de_registration` and the timer callback of MP2/mp2.c, from the numbers that
-- `sscanf` stored. `none` is a kernel oops: a NULL pointer is read or a division traps.
pub mod Bounded
use cs423_2017sp.Prelude.{true, Option, none, some, List, [], ◌∷◌, ◌==◌, if◌then◌else◌}
use cs423_2017sp.Prelude.Int.{ℤ}
use cs423_2017sp.Prelude.Memory.{Ptr, null}
use cs423_2017sp.Mp2.Task.{
  MpTask, Scheduler, sleeping, ready, get_task_by_pid, modify, list_del, set_state,
}
use cs423_2017sp.Mp2.Admission.{admission_control}

-- `sscanf(…, "%d, %d, %d\n", &pid, &period, &processing_time)`: each number that it reads goes to
-- the next field, and the fields that it does not reach keep what the memory held.
unfoldable pub scan_fields : List ℤ → MpTask → MpTask
scan_fields [] t = t
scan_fields (a ∷ []) t = record t { pid = a }
scan_fields (a ∷ b ∷ []) t = record t { pid = a; period = b }
scan_fields (a ∷ b ∷ c ∷ _) t = record t { pid = a; period = b; processing_time = c }

-- The new structure before the admission control. `memory` is what `kmem_cache_alloc` returned,
-- its address and its old contents; `find_task_by_pid` is the kernel's table of processes.
unfoldable pub new_task : (ℤ → Ptr) → List ℤ → MpTask → MpTask
unfolding scan_fields
new_task find_task_by_pid numbers memory =
    let t = scan_fields numbers memory in
    record t { task_state = sleeping; next_period = 0; task = find_task_by_pid t.pid; timer = none }

unfoldable pub registration : (ℤ → Ptr) → List ℤ → MpTask → Scheduler → Option Scheduler
registration find_task_by_pid numbers memory s =
    if memory.addr == null
    then none
    else elim (admission_control (new_task find_task_by_pid numbers memory) s.tasks) [
      | none ↦ none
      | some admitted ↦
          if admitted
          then some (record s { tasks = new_task find_task_by_pid numbers memory ∷ s.tasks })
          else some s
    ]

-- The structure is freed, so of the writes to it only the removal and the timer's matter.
unfoldable pub de_registration : ℤ → Scheduler → Option Scheduler
de_registration pid s = elim (get_task_by_pid pid s.tasks) [
  | none ↦ none
  | some t ↦
      if s.running_mptask == t.addr
      then some (record {
        tasks = list_del t.addr s.tasks;
        running_mptask = null;
        dispatcher_awake = true;
      })
      else some (record s { tasks = list_del t.addr s.tasks })
]

-- `_timer_callback`, which the timer calls with the pid that it was set up with.
unfoldable pub timer_callback : ℤ → Scheduler → Option Scheduler
timer_callback pid s = elim (get_task_by_pid pid s.tasks) [
  | none ↦ none
  | some t ↦
      some (record s { tasks = modify t.addr (set_state ready) s.tasks; dispatcher_awake = true })
]
