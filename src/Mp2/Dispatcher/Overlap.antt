-- ===== src/Mp2/Dispatcher/Overlap.antt =====
-- How many tasks run after a round of the dispatcher of MP2/mp2.c.
use mathlib.Core.Option
use mathlib.Core.Option.{Option}
use mathlib.Core.Path.{subst}
use cs423_2017sp.Prelude.{◌≡◌, ◌≢◌, ◌∙◌, refl, Bool, ap, inl, inr, true, false, some, List, arith}
use cs423_2017sp.Prelude.Int.{◌≤ℤ◌, ltb_ℤ}
use cs423_2017sp.Prelude.Memory.{Ptr, not-null}
use cs423_2017sp.Mp2.Task.{
  MpTask, Scheduler, TaskState, sleeping, ready, running, is_ready, at, set_state,
}
use cs423_2017sp.Mp2.Task.Laws.{has, has-In, at-In, at-ne-null, IsValid}
use cs423_2017sp.Mp2.Dispatcher.{Call, task_to_run, perform, dispatch}
use cs423_2017sp.Mp2.Dispatcher.Pick.{task_to_run-Best}
use cs423_2017sp.Mp2.Dispatcher.Round.{preempts, promotion, arrange_found}

-- No structure but that of `running_mptask` is in the state RUNNING.
abbrev pub IsAlone : Scheduler → Type 0
IsAlone s =
    (p : Ptr) (u : MpTask) → at p s.tasks ≡ some u → u.task_state ≡ running → p ≡ s.running_mptask

ready_of : (st : TaskState) → is_ready st ≡ true → st ≡ ready
ready_of sleeping e = cc
ready_of ready e = refl
ready_of running e = cc

-- What the dispatcher picks stands on the list at its address, and is ready.
picked :
    (s : Scheduler) (t : MpTask)
    → IsValid s
    → task_to_run s.tasks ≡ some t
    → (at t.addr s.tasks ≡ some t) × (has t.addr s.tasks ≡ true) × (t.task_state ≡ ready)
picked s t v e = elim (task_to_run-Best s.tasks) [
  | inl (e', none_below) ↦ cc
  | inr (t', e', b) ↦
      let same : t' ≡ t = cc in
      (
        subst (λ u. at u.addr s.tasks ≡ some u) same (at-In t' s.tasks v.distinct b.on),
        subst (λ u. has u.addr s.tasks ≡ true) same (has-In t' s.tasks b.on),
        subst (λ u. u.task_state ≡ ready) same (ready_of t'.task_state b.is_ready),
      )
]

-- A running task of a larger period is preempted.
preempts-current :
    (s : Scheduler) (t r : MpTask)
    → IsValid s
    → at s.running_mptask s.tasks ≡ some r
    → preempts t s ≡ ltb_ℤ t.period r.period
preempts-current s t r v e = rw (not-null (at-ne-null s.running_mptask s.tasks v.distinct e), e)

-- A round oopses if one of its calls is on a Linux task that does not exist; what follows is what
-- it does else. In a valid state, if the running task is still RUNNING and its period is not larger
-- than that of the picked task, the round does not stop it and starts the picked task beside it:
-- both are RUNNING afterwards, no call demotes the first, and `running_mptask` no longer points to
-- it.
pub dispatch-overlap :
    (live : Ptr → Bool) (s : Scheduler) (r t : MpTask)
    → IsValid s
    → at s.running_mptask s.tasks ≡ some r
    → r.task_state ≡ running
    → task_to_run s.tasks ≡ some t
    → r.period ≤ℤ t.period
    → (s' : Scheduler) × (calls : List Call) × (dispatch live s ≡ perform live (some (s', calls)))
      × (calls ≡ promotion t)
      × (s'.running_mptask ≡ t.addr)
      × (t.addr ≢ s.running_mptask)
      × (at t.addr s'.tasks ≡ some (set_state running t))
      × (at s.running_mptask s'.tasks ≡ some r)
unfolding dispatch
dispatch-overlap live s r t v current runs e le =
    let (here, on, _) = picked s t v e in
    let (s', calls, run, started) = arrange_found s v t e on in
    let stays : preempts t s ≡ false = preempts-current s t r v current ∙ ground arith in
    let apart : t.addr ≢ s.running_mptask = λ same. ground (arith, ap (λ p. at p s.tasks) same) in
    (
      s',
      calls,
      ap (perform live) run,
      started.made ∙ rw stays,
      started.current,
      apart,
      started.at_each t.addr ∙ rw here (ground arith),
      started.at_each s.running_mptask ∙ rw (stays, current) (ground arith),
    )
