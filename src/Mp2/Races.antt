-- ===== src/Mp2/Races.antt =====
-- Two registrations of MP2/mp2.c at once.
use cs423_2017sp.Prelude.{
  ℕ, ◌+◌, ◌≤◌, ◌<◌, ◌^◌, ◌≡◌, ◌≢◌, refl, true, false, some, List, ◌∷◌, arith, length, All, ◌==◌,
  ==_iff, inl,
}
use cs423_2017sp.Prelude.Int.{ℤ}
use cs423_2017sp.Prelude.Memory.{Ptr}
use cs423_2017sp.Mp2.Task.{MpTask, list_del}
use cs423_2017sp.Mp2.Task.Laws.{In, has}
use cs423_2017sp.Mp2.Admission.{admission_control}
use cs423_2017sp.Mp2.Admission.Bound.{
  IsBounded, utilisation, total_utilisation, admission_control_iff,
}
use cs423_2017sp.Mp2.Registration.{new_task}
use cs423_2017sp.Mp2.Safety.{new_task-addr}
use cs423_2017sp.Mp2.System.{System, Unused, admit, enlist, Reach, next}

ne→== : {p q : Ptr} → p ≢ q → (p == q) ≡ false
ne→== ne = ground arith

admits :
    (t : MpTask) (ts : List MpTask)
    → IsBounded t
    → All IsBounded ts
    → length ts < 2 ^ 32
    → utilisation t + total_utilisation ts ≤ 693000
    → admission_control t ts ≡ some true
admits t ts h hs few fits = rw (admission_control_iff t ts h hs few) (ground arith)

module _ {find_task_by_pid : ℤ → Ptr} {msecs_to_jiffies : ℕ → ℕ} where
  -- The bound on the utilisation can be broken by two registrations at once. Take any reachable
  -- state with fewer than 2 ^ 32 tasks, memory for two more, and two new tasks, where all have
  -- positive periods and processing times from 0 to 2147 ms. Let each of the two fit beside the
  -- registered tasks, but not both. Then a state is reachable with both on the list: the sum of its
  -- utilisations is above 693000.
  pub raced_registrations :
      (s : System) (a b : List ℤ) (memory_a memory_b : MpTask)
      → Reach find_task_by_pid msecs_to_jiffies s
      → Unused memory_a.addr s
      → Unused memory_b.addr s
      → memory_a.addr ≢ memory_b.addr
      → All IsBounded s.scheduler.tasks
      → length s.scheduler.tasks < 2 ^ 32
      → IsBounded (new_task find_task_by_pid a memory_a)
      → IsBounded (new_task find_task_by_pid b memory_b)
      → utilisation (new_task find_task_by_pid a memory_a) + total_utilisation s.scheduler.tasks
        ≤ 693000
      → utilisation (new_task find_task_by_pid b memory_b) + total_utilisation s.scheduler.tasks
        ≤ 693000
      → 693000
        < utilisation (new_task find_task_by_pid a memory_a)
          + utilisation (new_task find_task_by_pid b memory_b)
          + total_utilisation s.scheduler.tasks
      → (t : System) × Reach find_task_by_pid msecs_to_jiffies t
        × (t.scheduler.tasks
            ≡ new_task find_task_by_pid a memory_a
              ∷ new_task find_task_by_pid b memory_b
              ∷ s.scheduler.tasks)
        × (693000 < total_utilisation t.scheduler.tasks)
  unfolding list_del
  raced_registrations s a b memory_a memory_b r ua ub apart hs few ha hb fa fb over =
      let one = next r (admit a memory_a ua (admits _ s.scheduler.tasks ha hs few fa)) in
      let two =
        next one
          (admit b memory_b (ub.0, ub.1, still_unused) (admits _ s.scheduler.tasks hb hs few fb)) in
      let three = next two (enlist B (inl refl)) in (_, next three (enlist A left), refl, over')
    where
      A : MpTask
      A = new_task find_task_by_pid a memory_a

      B : MpTask
      B = new_task find_task_by_pid b memory_b

      still_unused : has memory_b.addr (A ∷ s.admitted) ≡ false
      still_unused = rw (new_task-addr find_task_by_pid a memory_a) (rw (ne→== apart) ub.2)

      left : In A (list_del B.addr (B ∷ A ∷ s.admitted))
      left = rw (list_del, (==_iff B.addr B.addr).1 refl) (inl refl)

      over' : 693000 < total_utilisation (A ∷ B ∷ s.scheduler.tasks)
      over' = omega arith
