-- ===== src/Mp2/System.antt =====
-- The operations of MP2/mp2.c on one scheduler, in any order. Each runs under the spin lock but
-- `yield_handle`, which the model takes whole too. A registration is two steps, since it checks the
-- admission and links the task in two critical sections. Which Linux tasks exist is free in each
-- step, since processes come and go.
use cs423_2017sp.Prelude.{ℕ, ◌≡◌, ◌≢◌, Bool, true, false, none, some, List, [], ◌∷◌}
use cs423_2017sp.Prelude.Int.{ℤ}
use cs423_2017sp.Prelude.Memory.{Ptr, null}
use cs423_2017sp.Mp2.Task.{MpTask, Scheduler, modify, list_del}
use cs423_2017sp.Mp2.Task.Laws.{In, has}
use cs423_2017sp.Mp2.Admission.{admission_control}
use cs423_2017sp.Mp2.Registration.{new_task, de_registration, timer_callback}
use cs423_2017sp.Mp2.Dispatcher.{Call, dispatch}
use cs423_2017sp.Mp2.Yield.{yield_handle}

-- The scheduler with the tasks of the processes that stand between the two critical sections of
-- `registration`.
pub record System : Type 0 where
  pub scheduler : Scheduler
  pub admitted : List MpTask

-- The kernel marks a timer as no longer pending when it calls its callback.
abbrev pub expire : Ptr → Scheduler → Scheduler
expire p s = record s { tasks = modify p (λ t. record t { timer = none }) s.tasks }

-- Where the slab allocator finds memory: at no structure that is in use.
abbrev pub Unused : Ptr → System → Type 0
Unused p s = (p ≢ null) × (has p s.scheduler.tasks ≡ false) × (has p s.admitted ≡ false)

module _ (find_task_by_pid : ℤ → Ptr) (msecs_to_jiffies : ℕ → ℕ) where
  pub data Step (s : System) : System → Type 0 where
    -- `registration` up to the end of a successful admission control
    admit :
        (numbers : List ℤ) (memory : MpTask)
        → Unused memory.addr s
        → admission_control (new_task find_task_by_pid numbers memory) s.scheduler.tasks ≡ some true
        → Step s (record s { admitted = new_task find_task_by_pid numbers memory ∷ s.admitted })
    -- the rest of `registration`, of any process that has been admitted
    enlist :
        (t : MpTask)
        → In t s.admitted
        → Step s (record {
          scheduler = record (s.scheduler) { tasks = t ∷ s.scheduler.tasks };
          admitted = list_del t.addr s.admitted;
        })
    de_register :
        (pid : ℤ) {s' : Scheduler}
        → de_registration pid s.scheduler ≡ some s'
        → Step s (record s { scheduler = s' })
    fire :
        (t : MpTask) (expiry : ℕ) {s' : Scheduler}
        → In t s.scheduler.tasks
        → t.timer ≡ some expiry
        → timer_callback t.pid (expire t.addr s.scheduler) ≡ some s'
        → Step s (record s { scheduler = s' })
    yield :
        (live : Ptr → Bool) (pid : ℤ) (jiffies later : ℕ) {s' : Scheduler} {sleeps : Bool}
        → yield_handle msecs_to_jiffies live jiffies later pid s.scheduler ≡ some (s', sleeps)
        → Step s (record s { scheduler = s' })
    round :
        (live : Ptr → Bool) {s' : Scheduler} {calls : List Call}
        → s.scheduler.dispatcher_awake ≡ true
        → dispatch live s.scheduler ≡ some (s', calls)
        → Step s (record s { scheduler = s' })

  -- The states that follow from `mp_init`.
  pub data Reach : System → Type 0 where
    start : Reach (record {
      scheduler = record { tasks = []; running_mptask = null; dispatcher_awake = false };
      admitted = [];
    })
    next : {s t : System} → Reach s → Step s t → Reach t
