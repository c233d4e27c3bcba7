-- ===== src/Mp2/Yield/Releases.antt =====
-- The release times of a task of MP2/mp2.c.
use mathlib.Core.Path.{subst}
use cs423_2017sp.Prelude.{
  ℕ, suc, ◌+◌, ◌*◌, ◌<◌, ◌^◌, ◌≡◌, ◌∙◌, refl, ap, Bool, true, false, Option, none, some, List, [],
  ◌∷◌, arith, length, Bool-cases, inl, inr, ◌==◌, ltb, ==_iff,
}
use cs423_2017sp.Prelude.Int.{ℤ, bits32, eqb_ℤ}
use cs423_2017sp.Prelude.Memory.{Ptr}
use cs423_2017sp.Mp2.Task.{MpTask, Scheduler, exists, get_task_by_pid, modify}
use cs423_2017sp.Mp2.Task.Laws.{Distinct, get_task_by_pid-found, Distinct-modify}
use cs423_2017sp.Mp2.Yield.{next_release, missed, awaits, yield_handle}

-- A write to the task that a pid finds is seen through the pid.
pub get_task_by_pid-modify_self :
    (pid : ℤ) (f : MpTask → MpTask) (ts : List MpTask) {t : MpTask}
    → ((u : MpTask) → (f u).pid ≡ u.pid)
    → Distinct ts
    → get_task_by_pid pid ts ≡ some t
    → get_task_by_pid pid (modify t.addr f ts) ≡ some (f t)
unfolding get_task_by_pid modify
get_task_by_pid-modify_self pid f [] k d e = cc
get_task_by_pid-modify_self pid f (u ∷ us) {t} k d e = elim (Bool-cases (eqb_ℤ u.pid pid)) [
  | inl h ↦
      let same : u ≡ t = ground arith in
      subst (λ v. get_task_by_pid pid (modify v.addr f (u ∷ us)) ≡ some (f v)) same
        (rw ((==_iff u.addr u.addr).1 refl) (rw (k u) (rw h)))
  | inr h ↦
      let (_, on) = get_task_by_pid-found pid us (rw h at e) in
      let apart : (u.addr == t.addr) ≡ false = ground (arith, d.1) in
      rw (apart, h) (get_task_by_pid-modify_self pid f us k d.2 (rw h at e))
]

-- A task yields again and again, each time with two readings of `jiffies`.
unfoldable pub yield_all :
    (ℕ → ℕ) → (live : Ptr → Bool) → ℤ → List (ℕ × ℕ) → Scheduler → Option Scheduler
yield_all msecs_to_jiffies live pid [] s = some s
yield_all msecs_to_jiffies live pid ((jiffies, later) ∷ js) s =
    elim (yield_handle msecs_to_jiffies live jiffies later pid s) [
      | none ↦ none
      | some (s', sleeps) ↦ yield_all msecs_to_jiffies live pid js s'
    ]

next_release-first :
    (m2j : ℕ → ℕ) (jiffies : ℕ) (t : MpTask)
    → t.next_period ≡ 0
    → jiffies + m2j (bits32 t.period) < 2 ^ 64
    → next_release m2j jiffies t ≡ jiffies + m2j (bits32 t.period)
unfolding next_release
next_release-first m2j jiffies t fresh fits = ground arith

next_release-later :
    (m2j : ℕ → ℕ) (jiffies : ℕ) (t : MpTask)
    → 0 < t.next_period
    → t.next_period + m2j (bits32 t.period) < 2 ^ 64
    → next_release m2j jiffies t ≡ t.next_period + m2j (bits32 t.period)
unfolding next_release
next_release-later m2j jiffies t began fits = ground arith

-- What a yield leaves of the yielding task.
yield_handle-next_period :
    (m2j : ℕ → ℕ) (live : Ptr → Bool) (jiffies later : ℕ) (pid : ℤ) (s : Scheduler) {t : MpTask}
    → exists live t.task ≡ true
    → Distinct s.tasks
    → get_task_by_pid pid s.tasks ≡ some t
    → (s' : Scheduler) × (sleeps : Bool) × (t' : MpTask) × (yield_handle m2j live jiffies later pid
          s
        ≡ some (s', sleeps))
      × Distinct s'.tasks
      × (get_task_by_pid pid s'.tasks ≡ some t')
      × (t'.next_period ≡ next_release m2j jiffies t)
      × (t'.period ≡ t.period)
      × (exists live t'.task ≡ true)
unfolding yield_handle
yield_handle-next_period m2j live jiffies later pid s {t} there d found =
    let next = next_release m2j jiffies t in
    elim (Bool-cases (ltb next later)) [
      | inl late ↦ (
        record s { tasks = modify t.addr (missed next) s.tasks },
        false,
        missed next t,
        rw (yield_handle, found, late),
        Distinct-modify t.addr (missed next) s.tasks (λ u. refl) d,
        get_task_by_pid-modify_self pid (missed next) s.tasks (λ u. refl) d found,
        refl,
        refl,
        there,
      )
      | inr in_time ↦ (
        record s { tasks = modify t.addr (awaits next) s.tasks; dispatcher_awake = true },
        true,
        awaits next t,
        rw (yield_handle, found, in_time, there),
        Distinct-modify t.addr (awaits next) s.tasks (λ u. refl) d,
        get_task_by_pid-modify_self pid (awaits next) s.tasks (λ u. refl) d found,
        refl,
        refl,
        there,
      )
    ]

-- A task that has yielded once: each further yield adds one period to its release time.
later_yields :
    (m2j : ℕ → ℕ) (live : Ptr → Bool) (pid : ℤ) (js : List (ℕ × ℕ)) (s : Scheduler) {t : MpTask}
    → exists live t.task ≡ true
    → Distinct s.tasks
    → get_task_by_pid pid s.tasks ≡ some t
    → 0 < t.next_period
    → t.next_period + length js * m2j (bits32 t.period) < 2 ^ 64
    → (s' : Scheduler) × (t' : MpTask) × (yield_all m2j live pid js s ≡ some s')
      × (get_task_by_pid pid s'.tasks ≡ some t')
      × (t'.next_period ≡ t.next_period + length js * m2j (bits32 t.period))
unfolding yield_all
later_yields m2j live pid [] s {t} there d found began fits = (s, t, refl, found, omega arith)
later_yields m2j live pid ((jiffies, later) ∷ js) s {t} there d found began fits =
    let (s₁, sleeps, t₁, run, d₁, found₁, release, period, there₁) =
      yield_handle-next_period m2j live jiffies later pid s there d found in
    let same : m2j (bits32 t₁.period) ≡ m2j (bits32 t.period) = ap (λ p. m2j (bits32 p)) period in
    let once : t₁.next_period ≡ t.next_period + m2j (bits32 t.period) =
      release ∙ next_release-later m2j jiffies t began (omega arith) in
    let (s', t', runs, found', releases) =
      later_yields m2j live pid js s₁ there₁ d₁ found₁ (omega arith) (rw same (omega arith)) in
    (s', t', rw (yield_all, run) runs, found', releases ∙ rw same (omega arith))

-- Releases do not drift. If a task that has not yielded yet does so `n + 1` times, the first time
-- at the reading `jiffies`, then its last release time is `jiffies` plus `n + 1` periods, whenever
-- the later yields came, early or late. The task is the first one of its pid, no structure is on
-- the list twice, and its Linux task exists throughout. The period is positive in jiffies, and the
-- release times stay below 2 ^ 64.
pub yield_all-releases :
    (msecs_to_jiffies : ℕ → ℕ) (live : Ptr → Bool) (pid : ℤ) (jiffies later : ℕ) (js : List (ℕ × ℕ))
    (s : Scheduler) {t : MpTask}
    → exists live t.task ≡ true
    → Distinct s.tasks
    → get_task_by_pid pid s.tasks ≡ some t
    → t.next_period ≡ 0
    → 0 < msecs_to_jiffies (bits32 t.period)
    → jiffies + suc (length js) * msecs_to_jiffies (bits32 t.period) < 2 ^ 64
    → (s' : Scheduler) × (t' : MpTask) × (yield_all msecs_to_jiffies live pid
          ((jiffies, later) ∷ js)
          s
        ≡ some s')
      × (get_task_by_pid pid s'.tasks ≡ some t')
      × (t'.next_period ≡ jiffies + suc (length js) * msecs_to_jiffies (bits32 t.period))
unfolding yield_all
yield_all-releases m2j live pid jiffies later js s {t} there d found fresh long fits =
    let (s₁, sleeps, t₁, run, d₁, found₁, release, period, there₁) =
      yield_handle-next_period m2j live jiffies later pid s there d found in
    let same : m2j (bits32 t₁.period) ≡ m2j (bits32 t.period) = ap (λ p. m2j (bits32 p)) period in
    let once : t₁.next_period ≡ jiffies + m2j (bits32 t.period) =
      release ∙ next_release-first m2j jiffies t fresh (omega arith) in
    let (s', t', runs, found', releases) =
      later_yields m2j live pid js s₁ there₁ d₁ found₁ (omega arith) (rw same (omega arith)) in
    (s', t', rw (yield_all, run) runs, found', releases ∙ rw same (omega arith))
