-- ===== src/Mp2/Userapp/Main/Restores.antt =====
-- The application of MP2/userapp.c leaves the list of the scheduler as it was.
use cs423_2017sp.Prelude.{
  ℕ, zero, suc, ◌<◌, ◌≡◌, ◌∙◌, refl, ap, Bool, true, false, ◌&&◌, Option, none, some, List, [], ◌∷◌,
  arith, ◌==◌, length, drop, ltb, if◌then◌else◌, Bool-cases, inl, inr,
}
use cs423_2017sp.Prelude.Int.{ℤ, pos, pos_part, eqb_ℤ}
use cs423_2017sp.Prelude.Memory.{Ptr, null}
use cs423_2017sp.Mp2.Task.{MpTask, Scheduler, exists, get_task_by_pid, modify, list_del}
use cs423_2017sp.Mp2.Dispatcher.{Call}
use cs423_2017sp.Mp2.Admission.{admission_control}
use cs423_2017sp.Mp2.Registration.{new_task, de_registration}
use cs423_2017sp.Mp2.Yield.{next_release, missed, awaits, yield_handle}
use cs423_2017sp.Mp2.Proc.{task_line, Meets, mp_write}
use cs423_2017sp.Mp2.Userapp.{reg, yield, unreg}
use cs423_2017sp.Mp2.Userapp.Lines.{Plain, text_of, listed, Short}
use cs423_2017sp.Mp2.Userapp.Handshake.{handshake}
use cs423_2017sp.Mp2.Userapp.Main.{woken, yields, run_jobs, main}

-- The tasks on a list, by their pids and addresses, and their Linux tasks.
abbrev pub idents : List MpTask → List (ℤ × Ptr × Ptr)
idents [] = []
idents (t ∷ ts) = (t.pid, t.addr, t.task) ∷ idents ts

-- A list whose first task has this pid, address and Linux task.
record Leads (pid : ℤ) (p q : Ptr) (rest : List (ℤ × Ptr × Ptr)) (ts : List MpTask) : Type 0 where
  first : MpTask
  others : List MpTask
  same : ts ≡ first ∷ others
  found : first.pid ≡ pid
  place : first.addr ≡ p
  linux : first.task ≡ q
  behind : idents others ≡ rest

leads :
    (pid : ℤ) (p q : Ptr) (rest : List (ℤ × Ptr × Ptr)) (ts : List MpTask)
    → idents ts ≡ (pid, p, q) ∷ rest
    → Leads pid p q rest ts
leads pid p q rest [] e = absurd (ground (arith, e))
leads pid p q rest (t ∷ ts) e = record {
  first = t;
  others = ts;
  same = refl;
  found = ground (arith, e);
  place = ground (arith, e);
  linux = ground (arith, e);
  behind = ground (arith, e);
}

-- A write that keeps the pid and the address of the task.
pub idents-modify :
    (p : Ptr) (f : MpTask → MpTask) (ts : List MpTask)
    → ((t : MpTask) → (f t).pid ≡ t.pid)
    → ((t : MpTask) → (f t).addr ≡ t.addr)
    → ((t : MpTask) → (f t).task ≡ t.task)
    → idents (modify p f ts) ≡ idents ts
unfolding modify
idents-modify p f [] pids addrs linux = refl
idents-modify p f (t ∷ ts) pids addrs linux = elim (Bool-cases (t.addr == p)) [
  | inl here ↦ rw here (λ i. (pids t i, addrs t i, linux t i) ∷ idents ts)
  | inr there ↦
      rw there (ap (λ is. (t.pid, t.addr, t.task) ∷ is) (idents-modify p f ts pids addrs linux))
]

first_found :
    (t : MpTask) (ts : List MpTask) (pid : ℤ) → t.pid ≡ pid → get_task_by_pid pid (t ∷ ts) ≡ some t
unfolding get_task_by_pid
first_found t ts pid found = let own : eqb_ℤ t.pid pid ≡ true = ground (arith, found) in rw own refl

module _ (decimal : ℤ → List ℕ) (sscanf : (fields : ℕ) → List ℕ → List ℤ)
    (find_task_by_pid : ℤ → Ptr) (msecs_to_jiffies : ℕ → ℕ) where
  yield-idents :
      (pid : ℤ) (p q : Ptr) (rest : List (ℤ × Ptr × Ptr)) (m : Meets) (s : Scheduler)
      → sscanf 1 (decimal pid) ≡ pid ∷ []
      → exists m.live q ≡ true
      → idents s.tasks ≡ (pid, p, q) ∷ rest
      → (s' : Scheduler) × (sleeps : Bool) × (mp_write sscanf find_task_by_pid msecs_to_jiffies
            (yield (decimal pid))
            m
            s
          ≡ some (s', sleeps))
        × (idents s'.tasks ≡ (pid, p, q) ∷ rest)
  unfolding mp_write yield_handle modify
  yield-idents pid p q rest m s scans there e =
      let l = leads pid p q rest s.tasks e in
      let look : get_task_by_pid pid s.tasks ≡ some l.first =
        ap (get_task_by_pid pid) l.same ∙ first_found l.first l.others pid l.found in
      let own : (l.first.addr == l.first.addr) ≡ true = ground arith in
      let next = next_release msecs_to_jiffies m.jiffies l.first in
      let kept : idents (l.first ∷ l.others) ≡ (pid, p, q) ∷ rest =
        λ i. (l.found i, l.place i, l.linux i) ∷ l.behind i in
      let task_there : exists m.live l.first.task ≡ true = ap (exists m.live) l.linux ∙ there in
      elim (Bool-cases (ltb next m.later)) [
        | inl missed_it ↦ (
          record s { tasks = modify l.first.addr (missed next) s.tasks },
          false,
          rw (mp_write, scans, yield_handle, look, missed_it) refl,
          rw (l.same, own) kept,
        )
        | inr waits ↦ (
          record s { tasks = modify l.first.addr (awaits next) s.tasks; dispatcher_awake = true },
          true,
          rw (mp_write, scans, yield_handle, look, waits, task_there) refl,
          rw (l.same, own) kept,
        )
      ]

  unreg-idents :
      (pid : ℤ) (p q : Ptr) (rest : List (ℤ × Ptr × Ptr)) (m : Meets) (s : Scheduler)
      → sscanf 1 (decimal pid) ≡ pid ∷ []
      → idents s.tasks ≡ (pid, p, q) ∷ rest
      → (s' : Scheduler) × (mp_write sscanf find_task_by_pid msecs_to_jiffies
            (unreg (decimal pid))
            m
            s
          ≡ some (s', false))
        × (idents s'.tasks ≡ rest)
  unfolding mp_write de_registration list_del
  unreg-idents pid p q rest m s scans e =
      let l = leads pid p q rest s.tasks e in
      let look : get_task_by_pid pid s.tasks ≡ some l.first =
        ap (get_task_by_pid pid) l.same ∙ first_found l.first l.others pid l.found in
      let own : (l.first.addr == l.first.addr) ≡ true = ground arith in
      elim (Bool-cases (s.running_mptask == l.first.addr)) [
        | inl runs ↦ (
          record {
            tasks = list_del l.first.addr s.tasks;
            running_mptask = null;
            dispatcher_awake = true;
          },
          rw (mp_write, scans, de_registration, look, runs) refl,
          rw (l.same, own) l.behind,
        )
        | inr stands ↦ (
          record s { tasks = list_del l.first.addr s.tasks },
          rw (mp_write, scans, de_registration, look, stands) refl,
          rw (l.same, own) l.behind,
        )
      ]

  continues :
      (sleeps : Bool) (o : Option Scheduler) {s : Scheduler}
      → o ≡ some s
      → (if sleeps && false then none else o) ≡ some s
  continues true o e = e
  continues false o e = e

  module _ (meets : ℕ → Meets) (meanwhile : ℕ → Scheduler → Scheduler × List Call)
      (keeps : (k : ℕ) (s : Scheduler) → idents (meanwhile k s).0.tasks ≡ idents s.tasks) where
    yields-idents :
        (left k : ℕ) (pid : ℤ) (p : Ptr) (rest : List (ℤ × Ptr × Ptr)) (s : Scheduler)
        → sscanf 1 (decimal pid) ≡ pid ∷ []
        → ((k : ℕ) → exists (meets k).live (find_task_by_pid pid) ≡ true)
        → ((k : ℕ) (s : Scheduler) → woken (find_task_by_pid pid) (meanwhile k s).1 ≡ true)
        → idents s.tasks ≡ (pid, p, find_task_by_pid pid) ∷ rest
        → (s' : Scheduler) × (yields decimal sscanf find_task_by_pid msecs_to_jiffies meets
              meanwhile left k pid s
            ≡ some s')
          × (idents s'.tasks ≡ (pid, p, find_task_by_pid pid) ∷ rest)
    unfolding yields
    yields-idents zero k pid p rest s scans there wakes e = (s, refl, e)
    yields-idents (suc left) k pid p rest s scans there wakes e =
        let (s₁, sleeps, run, e₁) =
          yield-idents pid p (find_task_by_pid pid) rest (meets k) s scans (there k) e in
        let (s₂, runs, e₂) =
          yields-idents left (suc k) pid p rest (meanwhile k s₁).0 scans there wakes
            (keeps k s₁ ∙ e₁) in
        (s₂, rw (yields, run) (rw (wakes k s₁) (continues sleeps _ runs)), e₂)

    run_jobs-idents :
        (num_jobs pid : ℤ) (p : Ptr) (rest : List (ℤ × Ptr × Ptr)) (s : Scheduler)
        → sscanf 1 (decimal pid) ≡ pid ∷ []
        → ((k : ℕ) → exists (meets k).live (find_task_by_pid pid) ≡ true)
        → ((k : ℕ) (s : Scheduler) → woken (find_task_by_pid pid) (meanwhile k s).1 ≡ true)
        → idents s.tasks ≡ (pid, p, find_task_by_pid pid) ∷ rest
        → (s' : Scheduler) × (run_jobs decimal sscanf find_task_by_pid msecs_to_jiffies meets
              meanwhile num_jobs pid s
            ≡ some s')
          × (idents s'.tasks ≡ rest)
    unfolding run_jobs
    run_jobs-idents num_jobs pid p rest s scans there wakes e =
        let (s₁, run, e₁) =
          yields-idents (suc (pos_part num_jobs)) 1 pid p rest s scans there wakes e in
        let (s₂, last, e₂) =
          unreg-idents pid p (find_task_by_pid pid) rest (meets (suc (suc (pos_part num_jobs)))) s₁
            scans e₁ in
        (s₂, rw (run_jobs, run, last) refl, e₂)

    -- An application leaves the list of the scheduler as it found it. Let `sscanf` read back what
    -- `fprintf` wrote, and let the registration be as in the handshake of the two, accepted or not.
    -- Let the Linux task of the process be found by its pid and exist at each write, let what
    -- happens between a yield and the next write leave the pids, addresses and Linux tasks on the
    -- list, and let the dispatcher wake the process in that time. Then `main` comes to its end
    -- without a kernel oops, for every number of jobs. It exits with 0 if its task was accepted and
    -- with 1 if not, and the list has the same tasks, by pid, address and Linux task, in the same
    -- order as before.
    pub main-idents :
        (pid period time num_jobs : ℤ) (memory : List ℕ) (s : Scheduler) (admitted : Bool)
        → ((z : ℤ) → Plain (decimal z))
        → decimal (pos 0) ≡ 48 ∷ []
        → sscanf 3 (drop 3 (reg (decimal pid) (decimal period) (decimal time)))
          ≡ pid ∷ period ∷ time ∷ []
        → sscanf 1 (decimal pid) ≡ pid ∷ []
        → ((k : ℕ) → exists (meets k).live (find_task_by_pid pid) ≡ true)
        → ((k : ℕ) (s : Scheduler) → woken (find_task_by_pid pid) (meanwhile k s).1 ≡ true)
        → ((meets 0).memory.addr == null) ≡ false
        → admission_control
            (new_task find_task_by_pid (pid ∷ period ∷ time ∷ []) (meets 0).memory)
            s.tasks
          ≡ some admitted
        → (s.tasks ≡ [] → admitted ≡ true)
        → let t = new_task find_task_by_pid (pid ∷ period ∷ time ∷ []) (meets 0).memory in
          listed decimal (task_line decimal t) s.tasks ≡ false
          → Short decimal (t ∷ s.tasks)
          → length (text_of decimal (t ∷ s.tasks)) < 2048
          → (s' : Scheduler) × (main decimal sscanf find_task_by_pid msecs_to_jiffies meets
                meanwhile pid period time num_jobs memory s
              ≡ some (if admitted then 0 else 1, s'))
            × (idents s'.tasks ≡ idents s.tasks)
    unfolding main new_task
    main-idents pid period time num_jobs memory s true plain zero_is scans scans₁ there wakes fresh
          admission free absent short fits =
        let (s₁, text, position, wrote, reads, status, tasks) =
          handshake decimal sscanf find_task_by_pid msecs_to_jiffies pid period time (meets 0)
            memory s true plain zero_is scans fresh admission free absent short fits in
        let (s₂, run, e) =
          run_jobs-idents num_jobs pid (meets 0).memory.addr (idents s.tasks) s₁ scans₁ there wakes
            (ap idents tasks) in
        (s₂, rw (main, wrote, reads, status, run) refl, e)
    main-idents pid period time num_jobs memory s false plain zero_is scans scans₁ there wakes fresh
          admission free absent short fits =
        let (s₁, text, position, wrote, reads, status, tasks) =
          handshake decimal sscanf find_task_by_pid msecs_to_jiffies pid period time (meets 0)
            memory s false plain zero_is scans fresh admission free absent short fits in
        (s₁, rw (main, wrote, reads, status) refl, ap idents tasks)
