-- ===== src/Mp2/Dispatcher/Round.antt =====
-- What one round of the dispatcher of MP2/mp2.c does to the tasks.
use mathlib.Core.Option
use mathlib.Core.Option.{Option}
use cs423_2017sp.Prelude.{
  ◌≡◌, ◌∙◌, refl, ap, ◌⊎◌, inl, inr, Bool, true, false, ◌&&◌, not, none, some, List, [], ◌∷◌, ◌++◌,
  arith, Bool-cases, ◌==◌, if◌then◌else◌,
}
use cs423_2017sp.Prelude.Int.{ltb_ℤ}
use cs423_2017sp.Prelude.Memory.{Ptr, null}
use cs423_2017sp.Mp2.Task.{MpTask, Scheduler, TaskState, ready, running, at, modify, set_state}
use cs423_2017sp.Mp2.Task.Laws.{
  has, Distinct, at-has, at-modify, has-modify, Distinct-modify, IsValid, has-In,
}
use cs423_2017sp.Mp2.Dispatcher.{
  int_max, Call, wake_up_process, set_scheduler, sched_normal, sched_fifo, task_to_run,
  stop_running, preempt, start_task, arrange, perform, dispatch,
}
use cs423_2017sp.Mp2.Dispatcher.Pick.{Best, NoneBelow, task_to_run-Best}

-- Whether `t` takes the processor from the running task.
abbrev pub preempts : MpTask → Scheduler → Bool
preempts t s =
    not (s.running_mptask == null)
    && (elim (at s.running_mptask s.tasks) [ none ↦ false | some r ↦ ltb_ℤ t.period r.period ])

-- The calls that take the processor from the running task.
abbrev pub demotion : Scheduler → List Call
demotion s = elim (at s.running_mptask s.tasks) [
  | none ↦ []
  | some r ↦ set_scheduler r.task sched_normal 0 ∷ []
]

abbrev pub promotion : MpTask → List Call
promotion t = wake_up_process t.task ∷ set_scheduler t.task sched_fifo 99 ∷ []

-- The round that starts `t`: the state of the structure at each address, and the calls.
pub record Started (s : Scheduler) (t : MpTask) (s' : Scheduler) (calls : List Call) : Type 0 where
  pub valid : IsValid s'
  pub current : s'.running_mptask ≡ t.addr
  pub at_each :
      (p : Ptr)
      → at p s'.tasks ≡ (
          if p == t.addr
          then Option.map (set_state running) (at p s.tasks)
          else if preempts t s && p == s.running_mptask
          then Option.map (set_state ready) (at p s.tasks)
          else at p s.tasks)
  pub made : calls ≡ (if preempts t s then demotion s else []) ++ promotion t

-- The tasks and the calls after the test for a preemption.
abbrev preempted : MpTask → Scheduler → List MpTask
preempted t s = if preempts t s then modify s.running_mptask (set_state ready) s.tasks else s.tasks

abbrev demoted : MpTask → Scheduler → List Call
demoted t s = if preempts t s then demotion s else []

preempt_lem :
    (t : MpTask) (s : Scheduler) → IsValid s → preempt t s ≡ some (preempted t s, demoted t s)
unfolding preempt
preempt_lem t s v = elim (Bool-cases (s.running_mptask == null)) [
  | inl e ↦ rw e
  | inr e ↦
      let (r, here, _) = at-has s.running_mptask s.tasks (v.tracked λ n. ground arith) in
      rw (e, here)
        (elim (Bool-cases (ltb_ℤ t.period r.period)) [
          | inl less ↦ rw (less, demotion, here)
          | inr not_less ↦ rw not_less
        ])
]

keeps_state : (st : TaskState) (u : MpTask) → (set_state st u).addr ≡ u.addr
keeps_state st u = refl

Distinct-preempted :
    (t : MpTask) (s : Scheduler) (b : Bool)
    → Distinct s.tasks
    → Distinct (if b then modify s.running_mptask (set_state ready) s.tasks else s.tasks)
Distinct-preempted t s true d =
    Distinct-modify s.running_mptask (set_state ready) s.tasks (keeps_state ready) d
Distinct-preempted t s false d = d

has-preempted :
    (p : Ptr) (s : Scheduler) (b : Bool)
    → has p (if b then modify s.running_mptask (set_state ready) s.tasks else s.tasks)
      ≡ has p s.tasks
has-preempted p s true = has-modify p s.running_mptask (set_state ready) s.tasks (keeps_state ready)
has-preempted p s false = refl

at-preempted :
    (p : Ptr) (s : Scheduler) (b : Bool)
    → at p (if b then modify s.running_mptask (set_state ready) s.tasks else s.tasks) ≡ (
        if b && p == s.running_mptask
        then Option.map (set_state ready) (at p s.tasks)
        else at p s.tasks)
at-preempted p s true = at-modify p s.running_mptask (set_state ready) s.tasks (keeps_state ready)
at-preempted p s false = refl

-- The state that is written last stands.
overwrite :
    (here there : Bool) (o : Option MpTask)
    → (if here
        then Option.map (set_state running) (if there then Option.map (set_state ready) o else o)
        else if there
        then Option.map (set_state ready) o
        else o)
      ≡ (if here
          then Option.map (set_state running) o
          else if there
          then Option.map (set_state ready) o
          else o)
overwrite false there o = refl
overwrite true false o = refl
overwrite true true none = refl
overwrite true true (some u) = refl

-- In a valid state, the round that starts a task of the list never reads freed memory.
start_task-Started :
    (t : MpTask) (s : Scheduler)
    → IsValid s
    → has t.addr s.tasks ≡ true
    → (s' : Scheduler) × (calls : List Call) × (start_task t s ≡ some (s', calls))
      × Started s t s' calls
unfolding start_task
start_task-Started t s v on = (
  record s { tasks = modify t.addr (set_state running) (preempted t s); running_mptask = t.addr },
  demoted t s ++ promotion t,
  rw (start_task, preempt_lem t s v),
  record {
    valid = record {
      distinct =
          Distinct-modify t.addr (set_state running) (preempted t s) (keeps_state running)
            (Distinct-preempted t s (preempts t s) v.distinct);
      tracked = λ _.
          has-modify t.addr t.addr (set_state running) (preempted t s) (keeps_state running)
          ∙ has-preempted t.addr s (preempts t s)
          ∙ on;
    };
    current = refl;
    at_each = λ p.
        at-modify p t.addr (set_state running) (preempted t s) (keeps_state running)
        ∙ rw (at-preempted p s (preempts t s))
            (overwrite (p == t.addr) (preempts t s && p == s.running_mptask) (at p s.tasks));
    made = refl;
  },
)

pub arrange_found :
    (s : Scheduler)
    → IsValid s
    → (t : MpTask) → task_to_run s.tasks ≡ some t
    → has t.addr s.tasks ≡ true
    → (s' : Scheduler) × (calls : List Call) × (arrange s ≡ some (s', calls)) × Started s t s' calls
unfolding arrange
arrange_found s v t e on =
    let (s', calls, run, started) =
      start_task-Started t (record s { dispatcher_awake = false })
        (record { distinct = v.distinct; tracked = v.tracked }) on in
    (
      s',
      calls,
      rw (arrange, e) run,
      record {
        valid = started.valid;
        current = started.current;
        at_each = started.at_each;
        made = started.made;
      },
    )

stop_running_lem :
    (s : Scheduler)
    → IsValid s
    → stop_running (record s { dispatcher_awake = false })
      ≡ some (
        record s { dispatcher_awake = false },
        if s.running_mptask == null then [] else demotion s,
      )
unfolding stop_running
stop_running_lem s v = elim (Bool-cases (s.running_mptask == null)) [
  | inl e ↦ rw e
  | inr e ↦
      let (r, here, _) = at-has s.running_mptask s.tasks (v.tracked λ n. ground arith) in
      rw (e, demotion, here)
]

-- What the round writes and the calls that it makes, in a valid state.
pub arrange-Started :
    (s : Scheduler)
    → IsValid s
    → ((NoneBelow int_max s.tasks)
        × (arrange s
            ≡ some (
              record s { dispatcher_awake = false },
              if s.running_mptask == null then [] else demotion s,
            )))
      ⊎ ((t : MpTask) × (s' : Scheduler) × (calls : List Call) × Best int_max s.tasks t
          × (arrange s ≡ some (s', calls))
          × Started s t s' calls)
unfolding arrange
arrange-Started s v = elim (task_to_run-Best s.tasks) [
  | inl (e, none_below) ↦ inl (none_below, rw (arrange, e) (stop_running_lem s v))
  | inr (t, e, b) ↦
      let (s', calls, run, started) = arrange_found s v t e (has-In t s.tasks b.on) in
      inr (t, s', calls, b, run, started)
]

-- In a valid state a round of the dispatcher reads no structure at NULL or in freed memory, and it
-- oopses exactly if one of its calls is on a Linux task that does not exist. If it finds no ready
-- task of a period below `INT_MAX`, it changes neither the tasks nor `running_mptask`, and the only
-- call is the one that takes the processor from the running task, if there is one. Otherwise it
-- picks a ready task of the smallest period: that becomes `running_mptask` and RUNNING; the task
-- that was running becomes READY and is demoted exactly if its period is larger, all other tasks
-- stay as they are; and the Linux task is woken and promoted.
pub dispatch-Started :
    (live : Ptr → Bool) (s : Scheduler)
    → IsValid s
    → ((NoneBelow int_max s.tasks)
        × (dispatch live s
            ≡ perform live (
                some (
                  record s { dispatcher_awake = false },
                  if s.running_mptask == null then [] else demotion s,
                ))))
      ⊎ ((t : MpTask) × (s' : Scheduler) × (calls : List Call) × Best int_max s.tasks t
          × (dispatch live s ≡ perform live (some (s', calls)))
          × Started s t s' calls)
unfolding dispatch
dispatch-Started live s v = elim (arrange-Started s v) [
  | inl (none_below, run) ↦ inl (none_below, ap (perform live) run)
  | inr (t, s', calls, b, run, started) ↦ inr (t, s', calls, b, ap (perform live) run, started)
]
