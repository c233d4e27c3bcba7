-- ===== src/Mp2/Dispatcher.antt =====
-- One round of the dispatching thread `thread_fn` of MP2/mp2.c, from its wake-up to the end of its
-- critical section, with the calls that it makes of the Linux scheduler.
pub mod Pick
pub mod Round
pub mod Overlap
use cs423_2017sp.Prelude.{
  ℕ, ◌-◌, ◌^◌, Bool, true, false, ◌&&◌, Option, none, some, List, [], ◌∷◌, ◌++◌, ◌==◌,
  if◌then◌else◌,
}
use cs423_2017sp.Prelude.Int.{ℤ, pos, ltb_ℤ}
use cs423_2017sp.Prelude.Memory.{Ptr, null}
use cs423_2017sp.Mp2.Task.{
  MpTask, Scheduler, ready, running, is_ready, exists, at, modify, set_state,
}

abbrev pub int_max : ℤ
int_max = pos (2 ^ 31 - 1)

pub data Policy : Type 0 where
  sched_normal sched_fifo : Policy

-- A call of `wake_up_process`, or by `__set_priority` of `sched_setscheduler`, on a Linux task.
pub data Call : Type 0 where
  wake_up_process : Ptr → Call
  set_scheduler : Ptr → Policy → ℕ → Call

-- The Linux task of a call.
abbrev pub target : Call → Ptr
target (wake_up_process p) = p
target (set_scheduler p _ _) = p

abbrev pub all_exist : (live : Ptr → Bool) → List Call → Bool
all_exist live [] = true
all_exist live (c ∷ cs) = exists live (target c) && all_exist live cs

-- A call on NULL, or on a Linux task that is gone, is an oops.
abbrev pub perform :
    (live : Ptr → Bool) → Option (Scheduler × List Call) → Option (Scheduler × List Call)
perform live none = none
perform live (some (s, calls)) = if all_exist live calls then some (s, calls) else none

-- `__set_priority`
abbrev pub set_priority : MpTask → Policy → ℕ → Call
set_priority t policy priority = set_scheduler t.task policy priority

-- The loop that looks for the ready task of the smallest period.
unfoldable pub pick : List MpTask → Option MpTask → ℤ → Option MpTask
pick [] task_to_run min_period = task_to_run
pick (t ∷ ts) task_to_run min_period =
    let better = is_ready t.task_state && ltb_ℤ t.period min_period in
    pick ts (if better then some t else task_to_run) (if better then t.period else min_period)

unfoldable pub task_to_run : List MpTask → Option MpTask
unfolding pick
task_to_run ts = pick ts none int_max

-- The part of the round that runs if no task was found.
unfoldable pub stop_running : Scheduler → Option (Scheduler × List Call)
stop_running s =
    if s.running_mptask == null then some (s, []) else elim (at s.running_mptask s.tasks) [
      | none ↦ none
      | some r ↦ some (s, set_priority r sched_normal 0 ∷ [])
    ]

-- The tasks after the test for a preemption, and its calls; `none` reads freed memory.
unfoldable pub preempt : MpTask → Scheduler → Option (List MpTask × List Call)
preempt t s =
    if s.running_mptask == null then some (s.tasks, []) else elim (at s.running_mptask s.tasks) [
      | none ↦ none
      | some r ↦
          if ltb_ℤ t.period r.period
          then some (
            modify s.running_mptask (set_state ready) s.tasks,
            set_priority r sched_normal 0 ∷ [],
          )
          else some (s.tasks, [])
    ]

-- The part that runs if a task was found.
unfoldable pub start_task : MpTask → Scheduler → Option (Scheduler × List Call)
start_task t s = elim (preempt t s) [
  | none ↦ none
  | some (ts, calls) ↦ some (
    record s { tasks = modify t.addr (set_state running) ts; running_mptask = t.addr },
    calls ++ wake_up_process t.task ∷ set_priority t sched_fifo 99 ∷ [],
  )
]

-- What the round writes, and the calls that it makes. The dispatcher sleeps again at the top of
-- the loop.
unfoldable pub arrange : Scheduler → Option (Scheduler × List Call)
arrange s =
    let s' = record s { dispatcher_awake = false } in
    elim (task_to_run s.tasks) [ none ↦ stop_running s' | some t ↦ start_task t s' ]

-- The round, where `live` says which Linux tasks exist; `none` is an oops.
unfoldable pub dispatch : (live : Ptr → Bool) → Scheduler → Option (Scheduler × List Call)
dispatch live s = perform live (arrange s)
