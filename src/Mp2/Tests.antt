-- ===== src/Mp2/Tests.antt =====
-- Tests of the model of MP2/mp2.c, and its theorems at concrete schedulers.
use cs423_2017sp.Prelude.{
  ℕ, ◌+◌, ◌*◌, ◌-◌, ◌/◌, ◌^◌, ◌≤◌, ◌<◌, ◌≡◌, ◌≢◌, ◌⊎◌, inl, refl, Bool, true, false, ◌&&◌, none,
  some, List, [], ◌∷◌, arith, leb, if◌then◌else◌,
}
use Prim.Native.Nat.{max}
use cs423_2017sp.Prelude.Int.{ℤ, ◌*ℤ◌, pos, negsuc, bits32}
use cs423_2017sp.Prelude.Memory.{Ptr, null}
use cs423_2017sp.Mp2.Task.{
  modify, exists, list_del, MpTask, Scheduler, TaskState, sleeping, ready, running, get_task_by_pid,
  at,
}
use cs423_2017sp.Mp2.Task.Laws.{In, IsValid}
use cs423_2017sp.Mp2.Admission.{int_div, task_util, add_utils, admission_control}
use cs423_2017sp.Mp2.Admission.Bound.{
  IsBounded, utilisation, total_utilisation, admission_control_iff,
}
use cs423_2017sp.Mp2.Admission.Overflow.{admission_control-overflow}
use cs423_2017sp.Mp2.Registration.{new_task, registration, de_registration, timer_callback}
use cs423_2017sp.Mp2.Registration.Bounded.{registration-bounded}
use cs423_2017sp.Mp2.Dispatcher.{
  int_max, Call, preempt, start_task, task_to_run, arrange, perform, dispatch,
}
use cs423_2017sp.Mp2.Dispatcher.Pick.{NoneBelow, Best}
use cs423_2017sp.Mp2.Dispatcher.Round.{Started, demotion, promotion, dispatch-Started}
use cs423_2017sp.Mp2.Dispatcher.Overlap.{dispatch-overlap}
use cs423_2017sp.Mp2.Yield.{next_release, yield_handle}
use cs423_2017sp.Mp2.Yield.Releases.{yield_all, yield_all-releases}
use cs423_2017sp.Mp2.System.{System, Reach, start, next, admit, enlist, yield, fire}
use cs423_2017sp.Mp2.Safety.{oops_needs_gone_task}
use cs423_2017sp.Mp2.Races.{raced_registrations}

abbrev task_of : (addr : Ptr) (pid : ℕ) → TaskState → (period processing_time : ℕ) → MpTask
task_of addr pid st period processing_time = record {
  addr = addr;
  task = addr + 1;
  timer = none;
  task_state = st;
  next_period = 0;
  pid = pos pid;
  period = pos period;
  processing_time = pos processing_time;
}

abbrev short : MpTask
short = task_of 10 1 ready 100 30

abbrev long : MpTask
long = task_of 20 2 running 200 60

abbrev busy : Scheduler
busy = record { tasks = short ∷ long ∷ []; running_mptask = 20; dispatcher_awake = true }

-- The running task has the smaller period.
abbrev overlapping : Scheduler
overlapping = record {
  tasks = task_of 10 1 running 100 30 ∷ task_of 20 2 ready 200 60 ∷ [];
  running_mptask = 10;
  dispatcher_awake = true;
}

abbrev empty : Scheduler
empty = record { tasks = []; running_mptask = null; dispatcher_awake = false }

abbrev find : ℤ → Ptr
find _ = 7

-- The Linux tasks from 7 to 50 exist.
abbrev live : Ptr → Bool
live p = leb 7 p && leb p 50

abbrev same : ℕ → ℕ
same n = n

IsBounded-short : IsBounded short
IsBounded-short = (omega arith, omega arith, refl, omega arith)

IsBounded-long : IsBounded long
IsBounded-long = (omega arith, omega arith, refl, omega arith)

admits_test : admission_control short (long ∷ []) ≡ some true
unfolding admission_control task_util int_div ◌*ℤ◌ add_utils
admits_test = refl

negative_test : admission_control (record short { processing_time = negsuc 0 }) [] ≡ some false
unfolding admission_control task_util int_div ◌*ℤ◌ add_utils
negative_test = refl

zero_period_test : admission_control (record short { period = pos 0 }) [] ≡ none
unfolding admission_control task_util int_div
zero_period_test = refl

unknown_pid_test : de_registration (pos 3) busy ≡ none
unfolding de_registration get_task_by_pid
unknown_pid_test = refl

late_callback_test : timer_callback (pos 3) busy ≡ none
unfolding timer_callback get_task_by_pid
late_callback_test = refl

admission_control_iff_example :
    admission_control short (long ∷ [])
    ≡ some (leb (utilisation short + total_utilisation (long ∷ [])) 693000)
admission_control_iff_example =
    admission_control_iff short (long ∷ []) IsBounded-short (IsBounded-long, tt) (omega arith)

abbrev heavy : MpTask
heavy = task_of 30 3 sleeping 4295 4295

admission_control-overflow_example :
    (1000000 ≤ utilisation heavy)
    × (admission_control heavy (long ∷ [])
        ≡ some (leb ((4295 * 1000000 - 2 ^ 32) / 4295 + total_utilisation (long ∷ [])) 693000))
admission_control-overflow_example =
    admission_control-overflow 4295 4295 heavy (long ∷ []) refl refl (omega arith) (omega arith)
      (omega arith) (omega arith) (IsBounded-long, tt) (omega arith)

abbrev three : List ℤ
three = pos 1 ∷ pos 100 ∷ pos 30 ∷ []

new_task-IsBounded : IsBounded (new_task find three short)
unfolding new_task
new_task-IsBounded = IsBounded-short

abbrev one_task : Scheduler
one_task = record { tasks = long ∷ []; running_mptask = null; dispatcher_awake = false }

registration-bounded_example :
    (s' : Scheduler) × (registration find three short one_task ≡ some s')
    × (s' ≡ (
        if leb (utilisation (new_task find three short) + total_utilisation (long ∷ [])) 693000
        then record one_task { tasks = new_task find three short ∷ long ∷ [] }
        else one_task))
    × (total_utilisation s'.tasks ≤ max 693000 (total_utilisation (long ∷ [])))
registration-bounded_example =
    registration-bounded find three short one_task (λ e. omega arith) new_task-IsBounded
      (IsBounded-long, tt) (omega arith)

de_registration_test :
    de_registration (pos 2) busy
    ≡ some (record { tasks = short ∷ []; running_mptask = null; dispatcher_awake = true })
unfolding de_registration get_task_by_pid list_del
de_registration_test = refl

IsValid-busy : IsValid busy
IsValid-busy = record {
  distinct = ((λ e. omega arith), refl, ((λ e. omega arith), refl, tt));
  tracked = λ _. refl;
}

IsValid-overlapping : IsValid overlapping
IsValid-overlapping = record {
  distinct = ((λ e. omega arith), refl, ((λ e. omega arith), refl, tt));
  tracked = λ _. refl;
}

dispatch-Started_example :
    ((NoneBelow int_max busy.tasks)
      × (dispatch live busy
          ≡ perform live (some (record busy { dispatcher_awake = false }, demotion busy))))
    ⊎ ((t : MpTask) × (s' : Scheduler) × (calls : List Call) × Best int_max busy.tasks t
        × (dispatch live busy ≡ perform live (some (s', calls)))
        × Started busy t s' calls)
dispatch-Started_example = dispatch-Started live busy IsValid-busy

late_test : task_to_run overlapping.tasks ≡ some (task_of 20 2 ready 200 60)
unfolding task_to_run
late_test = refl

current_test : at 10 overlapping.tasks ≡ some (task_of 10 1 running 100 30)
unfolding at
current_test = refl

dispatch-overlap_example :
    (s' : Scheduler) × (calls : List Call) × (dispatch live overlapping
      ≡ perform live (some (s', calls)))
    × (calls ≡ promotion (task_of 20 2 ready 200 60))
    × (s'.running_mptask ≡ 20)
    × (◌≢◌ {A = Ptr} 20 10)
    × (at 20 s'.tasks ≡ some (task_of 20 2 running 200 60))
    × (at 10 s'.tasks ≡ some (task_of 10 1 running 100 30))
dispatch-overlap_example =
    dispatch-overlap live overlapping (task_of 10 1 running 100 30) (task_of 20 2 ready 200 60)
      IsValid-overlapping current_test refl late_test (omega arith)

found_short : get_task_by_pid (pos 1) busy.tasks ≡ some short
unfolding get_task_by_pid
found_short = refl

-- The second yield comes a period too late, the third in time.
yield_all-releases_example :
    (s' : Scheduler) × (t' : MpTask) × (yield_all same live
        (pos 1)
        ((1000, 1010) ∷ (1300, 1310) ∷ (1310, 1320) ∷ [])
        busy
      ≡ some s')
    × (get_task_by_pid (pos 1) s'.tasks ≡ some t')
    × (t'.next_period ≡ 1000 + 3 * same (bits32 (pos 100)))
yield_all-releases_example =
    yield_all-releases same live (pos 1) 1000 1010 ((1300, 1310) ∷ (1310, 1320) ∷ []) busy refl
      IsValid-busy.distinct found_short refl (omega arith) (omega arith)

-- Two tasks of half the processor each.
abbrev half : List ℤ
half = pos 1 ∷ pos 100 ∷ pos 50 ∷ []

abbrev memory_at : Ptr → MpTask
memory_at p = task_of p 0 sleeping 0 0

abbrev halved : Ptr → MpTask
halved p = record (task_of p 1 sleeping 100 50) { task = 7 }

IsBounded-half : (p : Ptr) → IsBounded (new_task find half (memory_at p))
unfolding new_task
IsBounded-half p = (omega arith, omega arith, refl, omega arith)

utilisation-half : (p : Ptr) → utilisation (new_task find half (memory_at p)) ≡ 500000
unfolding new_task
utilisation-half p = refl

raced_registrations_example :
    (t : System) × Reach find same t
    × (t.scheduler.tasks
        ≡ new_task find half (memory_at 10) ∷ new_task find half (memory_at 20) ∷ [])
    × (693000 < total_utilisation t.scheduler.tasks)
raced_registrations_example =
    raced_registrations _ half half (memory_at 10) (memory_at 20) start
      ((λ e. omega arith), refl, refl) ((λ e. omega arith), refl, refl) (λ e. omega arith) tt
      (omega arith) (IsBounded-half 10) (IsBounded-half 20) (omega (arith, utilisation-half 10))
      (omega (arith, utilisation-half 20)) (omega (arith, utilisation-half 10, utilisation-half 20))

-- One of them is registered, has yielded, and its timer has fired.
abbrev woken_state : System
woken_state = record {
  scheduler = record {
    tasks = record (halved 10) { task_state = ready; next_period = 1100 } ∷ [];
    running_mptask = null;
    dispatcher_awake = true;
  };
  admitted = [];
}

Reach-woken_state : Reach find same woken_state
unfolding admission_control task_util int_div ◌*ℤ◌ add_utils new_task list_del yield_handle
    get_task_by_pid modify timer_callback next_release
Reach-woken_state =
    next
      (next
        (next (next start (admit half (memory_at 10) ((λ e. omega arith), refl, refl) refl))
          (enlist (halved 10) (inl refl)))
        (yield live (pos 1) 1000 1010 refl))
      (fire (record (halved 10) { timer = some 1100; next_period = 1100 }) 1100 (inl refl) refl
        refl)

oops_needs_gone_task_example :
    IsValid woken_state.scheduler
    × (((s' : Scheduler) × (calls : List Call) × (dispatch live woken_state.scheduler
            ≡ some (s', calls)))
        ⊎ ((t : MpTask) × In t woken_state.scheduler.tasks × (exists live t.task ≡ false)))
oops_needs_gone_task_example = oops_needs_gone_task live Reach-woken_state

-- The dispatcher starts it, or oopses if its Linux task is gone.
starts_test :
    dispatch live woken_state.scheduler
    ≡ some (
      record {
        tasks = record (halved 10) { task_state = running; next_period = 1100 } ∷ [];
        running_mptask = 10;
        dispatcher_awake = false;
      },
      promotion (halved 10),
    )
unfolding dispatch arrange task_to_run start_task preempt modify
starts_test = refl

gone_test : dispatch (λ p. false) woken_state.scheduler ≡ none
unfolding dispatch arrange task_to_run start_task preempt
gone_test = refl
