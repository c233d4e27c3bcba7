-- ===== src/Mp2/Registration/Bounded.antt =====
-- The utilisation of the registered tasks of MP2/mp2.c.
use Prim.Native.Nat.{max}
use cs423_2017sp.Prelude.{
  ◌+◌, ◌≤◌, ◌<◌, ◌^◌, ◌≡◌, ◌≢◌, Bool, some, List, [], ◌∷◌, arith, leb, leb→le, length, All,
  Bool-cases, inl, inr, if◌then◌else◌, Option-cases,
}
use cs423_2017sp.Prelude.Int.{ℤ}
use cs423_2017sp.Prelude.Memory.{Ptr, null, not-null}
use cs423_2017sp.Mp2.Task.{MpTask, Scheduler, list_del, get_task_by_pid}
use cs423_2017sp.Mp2.Admission.Bound.{
  IsBounded, utilisation, total_utilisation, admission_control_iff,
}
use cs423_2017sp.Mp2.Registration.{new_task, registration, de_registration}

-- A registration of a task with a positive period and a processing time from 0 to 2147 ms, for
-- which the allocator returned memory, beside fewer than 2 ^ 32 tasks with such periods and times,
-- does not fault; it links the task in front of the list if the sum of the utilisations with it is
-- at most 693000, and changes nothing if it is larger. So the utilisations of the registered tasks
-- never sum to more than 693000 millionths, or than they did before, whichever is larger.
pub registration-bounded :
    (find_task_by_pid : ℤ → Ptr) (numbers : List ℤ) (memory : MpTask) (s : Scheduler)
    → memory.addr ≢ null
    → IsBounded (new_task find_task_by_pid numbers memory)
    → All IsBounded s.tasks
    → length s.tasks < 2 ^ 32
    → (s' : Scheduler) × (registration find_task_by_pid numbers memory s ≡ some s')
      × (s' ≡ (
          if leb
            (utilisation (new_task find_task_by_pid numbers memory) + total_utilisation s.tasks)
            693000
          then record s { tasks = new_task find_task_by_pid numbers memory ∷ s.tasks }
          else s))
      × (total_utilisation s'.tasks ≤ max 693000 (total_utilisation s.tasks))
unfolding registration
registration-bounded find_task_by_pid numbers memory s ok h hs few = elim (Bool-cases fits) [
  | inl yes_fits ↦ (
    record s { tasks = new ∷ s.tasks },
    rw (registration, not-null ok, admission_control_iff new s.tasks h hs few, yes_fits),
    rw yes_fits,
    omega (arith, leb→le _ _ yes_fits),
  )
  | inr too_much ↦ (
    s,
    rw (registration, not-null ok, admission_control_iff new s.tasks h hs few, too_much),
    rw too_much,
    omega arith,
  )
]
  where
    new : MpTask
    new = new_task find_task_by_pid numbers memory

    fits : Bool
    fits = leb (utilisation new + total_utilisation s.tasks) 693000

list_del-total_utilisation :
    (p : Ptr) (ts : List MpTask) → total_utilisation (list_del p ts) ≤ total_utilisation ts
unfolding list_del
list_del-total_utilisation p [] = omega arith
list_del-total_utilisation p (t ∷ ts) = ground (arith, list_del-total_utilisation p ts)

-- A removal that finds its task never raises the sum of the utilisations.
pub de_registration-total_utilisation :
    (pid : ℤ) (s : Scheduler) {s' : Scheduler}
    → de_registration pid s ≡ some s'
    → total_utilisation s'.tasks ≤ total_utilisation s.tasks
unfolding de_registration
de_registration-total_utilisation pid s e = elim (Option-cases (get_task_by_pid pid s.tasks)) [
  | inl missing ↦ absurd (ground arith)
  | inr (t, found) ↦ ground (arith, found, list_del-total_utilisation t.addr s.tasks)
]
