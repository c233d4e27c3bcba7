-- ===== src/Mp2/Userapp/Handshake.antt =====
-- The application of MP2/userapp.c finds its registration in the file of MP2/mp2.c.
use cs423_2017sp.Prelude.{
  ℕ, ◌<◌, ◌≡◌, refl, Bool, true, false, some, List, [], ◌∷◌, ◌++◌, arith, ◌==◌, length,
  length-append, drop, if◌then◌else◌,
}
use cs423_2017sp.Prelude.Int.{ℤ, pos, negsuc}
use cs423_2017sp.Prelude.Memory.{Ptr, null}
use cs423_2017sp.Mp2.Task.{MpTask, Scheduler}
use cs423_2017sp.Mp2.Admission.{admission_control}
use cs423_2017sp.Mp2.Registration.{new_task, registration}
use cs423_2017sp.Mp2.Proc.{task_line, mp_read, Meets, mp_write}
use cs423_2017sp.Mp2.Userapp.{reg, read_status}
use cs423_2017sp.Mp2.Userapp.Lines.{
  Plain, text_of, listed, Short, strings_equal_refl, mp_read-text_of, read_status-listed,
}

filled : (ts : List MpTask) → (ts ≡ [] → false ≡ true) → 0 < length ts
filled [] none_left = absurd (ground (arith, none_left refl))
filled (t ∷ ts) none_left = omega arith

module _ (decimal : ℤ → List ℕ) (sscanf : (fields : ℕ) → List ℕ → List ℤ)
    (find_task_by_pid : ℤ → Ptr) (msecs_to_jiffies : ℕ → ℕ) where
  -- A process that registers learns the outcome. Let it write its pid, period and processing time
  -- to the file, let `sscanf` read back what `fprintf` wrote, and let the slab allocator have
  -- memory. Then `mp_write` returns, the task is in front of the list if the admission control has
  -- accepted it and the list is as before if not, and if the file is read before the process
  -- yields, `read_status` returns 0 when the admission control has accepted the task and -1 when it
  -- has not. It takes that the numbers that `sprintf` writes have no control characters, with 0 as
  -- one digit, that no registered task has the same line before, that the lines are shorter than
  -- 255 characters and together than 2048, and that a first task is accepted.
  pub handshake :
      (pid period time : ℤ) (m : Meets) (memory : List ℕ) (s : Scheduler) (admitted : Bool)
      → ((z : ℤ) → Plain (decimal z))
      → decimal (pos 0) ≡ 48 ∷ []
      → sscanf 3 (drop 3 (reg (decimal pid) (decimal period) (decimal time)))
        ≡ pid ∷ period ∷ time ∷ []
      → (m.memory.addr == null) ≡ false
      → admission_control (new_task find_task_by_pid (pid ∷ period ∷ time ∷ []) m.memory) s.tasks
        ≡ some admitted
      → (s.tasks ≡ [] → admitted ≡ true)
      → let t = new_task find_task_by_pid (pid ∷ period ∷ time ∷ []) m.memory in
        listed decimal (task_line decimal t) s.tasks ≡ false
        → Short decimal (t ∷ s.tasks)
        → length (text_of decimal (t ∷ s.tasks)) < 2048
        → (s' : Scheduler) × (text : List ℕ) × (position : ℕ) × (mp_write sscanf find_task_by_pid
              msecs_to_jiffies
              (reg (decimal pid) (decimal period) (decimal time))
              m
              s
            ≡ some (s', false))
          × (mp_read decimal 0 memory s' ≡ some (text, position))
          × (read_status (decimal pid) (decimal period) (decimal time) text
              ≡ some (if admitted then pos 0 else negsuc 0))
          × (s'.tasks ≡ (if admitted then t ∷ s.tasks else s.tasks))
  unfolding mp_write registration new_task
  handshake pid period time m memory s true plain zero_is scans fresh admission free absent short
        fits =
      let t = new_task find_task_by_pid (pid ∷ period ∷ time ∷ []) m.memory in
      let found : listed decimal (task_line decimal t) (t ∷ s.tasks) ≡ true =
        rw (strings_equal_refl (task_line decimal t)) refl in
      let after : Scheduler = record s { tasks = t ∷ s.tasks } in
      (
        after,
        text_of decimal (t ∷ s.tasks) ++ 0 ∷ [],
        _,
        rw (mp_write, scans, registration, fresh, admission)
            (λ k.
              some (
                record s { tasks = new_task find_task_by_pid (scans k) m.memory ∷ s.tasks },
                false,
              )),
        mp_read-text_of decimal memory after (omega arith) fits,
        rw (read_status-listed decimal plain t (t ∷ s.tasks) zero_is refl short, found) refl,
        refl,
      )
  handshake pid period time m memory s false plain zero_is scans fresh admission free absent short
        fits =
      let t = new_task find_task_by_pid (pid ∷ period ∷ time ∷ []) m.memory in
      let fits' : length (text_of decimal s.tasks) < 2048 =
        omega (arith, fits, length-append (task_line decimal t) (text_of decimal s.tasks)) in
      (
        s,
        text_of decimal s.tasks ++ 0 ∷ [],
        _,
        rw (mp_write, scans, registration, fresh, admission) refl,
        mp_read-text_of decimal memory s (filled s.tasks free) fits',
        rw (read_status-listed decimal plain t s.tasks zero_is refl short.1, absent) refl,
        refl,
      )
