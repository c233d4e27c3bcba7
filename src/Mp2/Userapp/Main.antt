-- ===== src/Mp2/Userapp/Main.antt =====
-- `main` of MP2/userapp.c on the scheduler of MP2/mp2.c, behind `atoi` and the measurement of
-- `factorial`. `meets k` is what the k-th write to the file meets, and `meanwhile k` what happens
-- between the k-th yield and the next write: to the scheduler, with the calls that the dispatcher
-- makes. A process that sleeps in the k-th yield goes on only if one of these calls wakes it.
-- `none` is a kernel oops, or a sleep without end.
pub mod Restores
use cs423_2017sp.Prelude.{
  ℕ, zero, suc, ◌<◌, ◌≡◌, ◌∙◌, refl, sym, ap, Bool, true, false, not, ◌&&◌, ◌||◌, Option, none,
  some, List, [], ◌∷◌, ◌++◌, arith, ◌==◌, length, drop, ltb, if◌then◌else◌, Bool-cases, inl, inr,
}
use cs423_2017sp.Prelude.Int.{ℤ, pos, negsuc, pos_part, eqb_ℤ}
use cs423_2017sp.Prelude.Memory.{Ptr, null}
use cs423_2017sp.Mp2.Task.{MpTask, Scheduler, get_task_by_pid, modify, list_del}
use cs423_2017sp.Mp2.Dispatcher.{Call, wake_up_process, set_scheduler}
use cs423_2017sp.Mp2.Admission.{admission_control}
use cs423_2017sp.Mp2.Registration.{new_task, registration, de_registration}
use cs423_2017sp.Mp2.Yield.{next_release, missed, awaits, yield_handle}
use cs423_2017sp.Mp2.Proc.{task_line, mp_read, Meets, mp_write}
use cs423_2017sp.Mp2.Userapp.{reg, yield, unreg, read_status}
use cs423_2017sp.Mp2.Userapp.Lines.{Plain, text_of, listed, Short}
use cs423_2017sp.Mp2.Userapp.Handshake.{handshake}

-- Whether one of the calls wakes this Linux task.
abbrev pub woken : Ptr → List Call → Bool
woken p [] = false
woken p (wake_up_process q ∷ calls) = (q == p) || woken p calls
woken p (set_scheduler _ _ _ ∷ calls) = woken p calls

module _ (decimal : ℤ → List ℕ) (sscanf : (fields : ℕ) → List ℕ → List ℤ)
    (find_task_by_pid : ℤ → Ptr) (msecs_to_jiffies : ℕ → ℕ) (meets : ℕ → Meets)
    (meanwhile : ℕ → Scheduler → Scheduler × List Call) where
  -- The next yields, from the `k`-th write on.
  unfoldable pub yields : (left k : ℕ) → (pid : ℤ) → Scheduler → Option Scheduler
  yields zero k pid s = some s
  yields (suc left) k pid s =
      elim (mp_write sscanf find_task_by_pid msecs_to_jiffies (yield (decimal pid)) (meets k) s) [
        | none ↦ none
        | some (s', sleeps) ↦
            let (s'', calls) = meanwhile k s' in
            let rest = yields left (suc k) pid s'' in
            if sleeps && not (woken (find_task_by_pid pid) calls) then none else rest
      ]

  -- The first yield, those of the loop, and the removal.
  unfoldable pub run_jobs : (num_jobs : ℤ) → (pid : ℤ) → Scheduler → Option Scheduler
  run_jobs num_jobs pid s = elim (yields (suc (pos_part num_jobs)) 1 pid s) [
    | none ↦ none
    | some s' ↦
        elim (mp_write sscanf find_task_by_pid msecs_to_jiffies (unreg (decimal pid))
          (meets (suc (suc (pos_part num_jobs)))) s') [ none ↦ none | some (s'', _) ↦ some s'' ]
  ]

  -- The exit status and the scheduler. `memory` is what `mp_read` finds in its buffer.
  unfoldable pub main :
      (pid period time num_jobs : ℤ) → (memory : List ℕ) → Scheduler → Option (ℕ × Scheduler)
  main pid period time num_jobs memory s =
      elim (mp_write sscanf find_task_by_pid msecs_to_jiffies
        (reg (decimal pid) (decimal period) (decimal time)) (meets 0) s) [
          | none ↦ none
          | some (s₁, _) ↦ elim (mp_read decimal 0 memory s₁) [
            | none ↦ none
            | some (text, _) ↦
                elim (read_status (decimal pid) (decimal period) (decimal time) text) [
                  | none ↦ none
                  | some status ↦
                      let jobs = run_jobs num_jobs pid s₁ in
                      if eqb_ℤ status (pos 0)
                      then elim jobs [ none ↦ none | some s₂ ↦ some (0, s₂) ]
                      else some (1, s₁)
                ]
          ]
        ]
