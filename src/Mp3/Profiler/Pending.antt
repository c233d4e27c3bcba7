-- ===== src/Mp3/Profiler/Pending.antt =====
-- When MP3/mp3.c samples: the work is queued while a process is registered.
use cs423_2017sp.Prelude.{
  ℕ, ◌≡◌, ◌≢◌, ◌∙◌, refl, sym, ap, Bool, true, false, not, Option, some, List, [], ◌∷◌, arith,
  Bool-cases, Option-cases, inl, inr, ◌==◌, some_inj, if◌then◌else◌,
}
use mathlib.Core.Path.{subst}
use cs423_2017sp.Prelude.Int.{ℤ, eqb_ℤ}
use cs423_2017sp.Prelude.Memory.{null, not-null}
use cs423_2017sp.Mp3.Profiler.{
  Processes, Profiled, Profiler, mp_init, list_empty, get_task_by_pid, list_del, new_task, enlist,
  registration, unregistration, scan_pid, mp_write, sample, store_all, store, usage, mp_work_func,
}

-- Whole operations, in any order. The processes change freely in between, and the work function
-- runs only while it is queued.
pub data Step (to_msecs : ℕ → ℕ) (p : Profiler) : Profiler → Type 0 where
  write :
      (first : ℕ) (scanned : Option ℤ) (stale : ℤ) (memory : Profiled) (ps : Processes)
      {p' : Profiler}
      → mp_write first scanned stale memory ps p ≡ some p'
      → Step to_msecs p p'
  work :
      (jiffies : ℕ) (ps ps' : Processes) {p' : Profiler}
      → p.pending ≡ true
      → mp_work_func to_msecs jiffies p ps ≡ some (p', ps')
      → Step to_msecs p p'

pub data Reach (to_msecs : ℕ → ℕ) : Profiler → Type 0 where
  start : Reach to_msecs mp_init
  later : {p p' : Profiler} → Reach to_msecs p → Step to_msecs p p' → Reach to_msecs p'

-- The work is queued exactly while a process is registered.
abbrev pub Samples : Profiler → Type 0
Samples p = p.pending ≡ not (list_empty p.tasks)

registration-Samples :
    (scanned : Option ℤ) (memory : Profiled) (ps : Processes) (p : Profiler) {p' : Profiler}
    → Samples p
    → registration scanned memory ps p ≡ some p'
    → Samples p'
unfolding registration enlist
registration-Samples scanned memory ps p before e = elim (Bool-cases (memory.addr == null)) [
  | inl no_memory ↦ absurd (ground (arith, no_memory))
  | inr ok ↦
      subst Samples (some_inj (rw (registration, enlist, ok) at e))
        (queued p.tasks p.pending before)
]
  where
    queued :
        (ts : List Profiled) (b : Bool)
        → b ≡ not (list_empty ts)
        → (if list_empty ts then true else b) ≡ true
    queued [] b h = refl
    queued (t ∷ ts) b h = h

found-ne :
    (pid : ℤ) (ts : List Profiled) {t : Profiled}
    → get_task_by_pid pid ts ≡ some t
    → list_empty ts ≡ false
unfolding get_task_by_pid
found-ne pid [] e = cc
found-ne pid (t ∷ ts) e = refl

unregistration-Samples :
    (pid : ℤ) (p : Profiler) {p' : Profiler}
    → Samples p
    → unregistration pid p ≡ some p'
    → Samples p'
unfolding unregistration
unregistration-Samples pid p before e = elim (Option-cases (get_task_by_pid pid p.tasks)) [
  | inl missing ↦ absurd (ground (arith, missing))
  | inr (t, found) ↦
      subst Samples (some_inj (rw (unregistration, found) at e))
        (queued (list_del t.addr p.tasks) (before ∙ ap not (found-ne pid p.tasks found)))
]
  where
    queued :
        (left : List Profiled)
        → p.pending ≡ true
        → (if list_empty left then false else p.pending) ≡ not (list_empty left)
    queued [] h = refl
    queued (u ∷ us) h = h

write-Samples :
    (first : ℕ) (scanned : Option ℤ) (stale : ℤ) (memory : Profiled) (ps : Processes) (p : Profiler)
    {p' : Profiler}
    → Samples p
    → mp_write first scanned stale memory ps p ≡ some p'
    → Samples p'
unfolding mp_write
write-Samples first scanned stale memory ps p before e = elim (Bool-cases (first == 82)) [
  | inl r ↦ registration-Samples scanned memory ps p before (rw (mp_write, r) at e)
  | inr not_r ↦ elim (Bool-cases (first == 85)) [
    | inl u ↦
        unregistration-Samples (scan_pid scanned stale) p before (rw (mp_write, not_r, u) at e)
    | inr other ↦ subst Samples (some_inj (rw (mp_write, not_r, other) at e)) before
  ]
]

store_all-tasks :
    (ws : List ℕ) (p : Profiler) {p' : Profiler} → store_all ws p ≡ some p' → p'.tasks ≡ p.tasks
unfolding store_all store
store_all-tasks [] p e = ap (λ q. q.tasks) (sym (some_inj e))
store_all-tasks (w ∷ ws) p e = elim (Option-cases (store w p)) [
  | inl full ↦ absurd (ground (arith, full))
  | inr (one, run) ↦ store_all-tasks ws one (rw (store_all, run) at e) ∙ ground (arith, run)
]

work-Samples :
    (to_msecs : ℕ → ℕ) (jiffies : ℕ) (ps ps' : Processes) (p : Profiler) {p' : Profiler}
    → Samples p
    → p.pending ≡ true
    → mp_work_func to_msecs jiffies p ps ≡ some (p', ps')
    → Samples p'
unfolding mp_work_func
work-Samples to_msecs jiffies ps ps' p before queued e =
    elim (Option-cases (store_all (sample to_msecs jiffies (usage p ps).0) p)) [
      | inl full ↦ absurd (ground (arith, full))
      | inr (q, run) ↦
          let same = store_all-tasks (sample to_msecs jiffies (usage p ps).0) p run in
          subst Samples (ap (λ r. r.0) (some_inj (rw (mp_work_func, run) at e)))
            (rw same (sym queued ∙ before))
    ]

-- In every state that whole operations reach, the work function is queued exactly if a process is
-- registered: the profiler samples while there is something to sample, and then stops.
pub Reach-Samples : {to_msecs : ℕ → ℕ} {p : Profiler} → Reach to_msecs p → Samples p
unfolding mp_init
Reach-Samples start = refl
Reach-Samples (later {p} r (write first scanned stale memory ps e)) =
    write-Samples first scanned stale memory ps p (Reach-Samples r) e
Reach-Samples {to_msecs} (later {p} r (work jiffies ps ps' queued e)) =
    work-Samples to_msecs jiffies ps ps' p (Reach-Samples r) queued e

-- `registration` looks at the list before it takes the lock, and may act on a list that has
-- changed. If it has seen the one registered process, which is then removed before it takes the
-- lock, and if the allocator returns memory, the new process is on the list but the work function
-- is not queued: it is never sampled.
pub enlist-stalls :
    (scanned : Option ℤ) (memory : Profiled) (ps : Processes) (p : Profiler) (t : Profiled)
    → p.tasks ≡ t ∷ []
    → memory.addr ≢ null
    → (p₁ p₂ : Profiler) × (unregistration t.pid p ≡ some p₁)
      × (enlist (list_empty p.tasks) scanned memory ps p₁ ≡ some p₂)
      × (p₂.tasks ≡ new_task scanned memory ps ∷ [])
      × (p₂.pending ≡ false)
unfolding unregistration enlist get_task_by_pid list_del
enlist-stalls scanned memory ps p t one ok = (
  record p { tasks = []; pending = false },
  record p { tasks = new_task scanned memory ps ∷ []; pending = false },
  rw (unregistration, found, removed),
  rw (enlist, one, not-null ok),
  refl,
  refl,
)
  where
    pid_found : eqb_ℤ t.pid t.pid ≡ true
    pid_found = ground arith

    addr_found : (t.addr == t.addr) ≡ true
    addr_found = ground arith

    found : get_task_by_pid t.pid p.tasks ≡ some t
    found = rw (one, get_task_by_pid, pid_found)

    removed : list_del t.addr p.tasks ≡ []
    removed = rw (one, list_del, addr_found)
