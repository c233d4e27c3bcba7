-- ===== src/Mp2/Safety.antt =====
-- What every order of operations keeps in MP2/mp2.c, and when a round of the dispatcher oopses.
use mathlib.Core.Path.{subst}
use cs423_2017sp.Prelude.{
  ℕ, ◌≡◌, ◌∙◌, refl, sym, ap, ◌⊎◌, Bool, Option-cases, some_inj, All, All-append, if◌then◌else◌,
  inl, inr, true, false, some, List, [], ◌∷◌, arith, Bool-cases, ◌==◌, ==_iff,
}
use cs423_2017sp.Prelude.Int.{ℤ}
use cs423_2017sp.Prelude.Memory.{Ptr, null}
use cs423_2017sp.Mp2.Task.{MpTask, Scheduler, exists, at}
use cs423_2017sp.Mp2.Task.Laws.{
  In, has, Distinct, has-In, at-In, at-ne-null, has-list_del, Distinct-list_del, IsValid,
}
use cs423_2017sp.Mp2.Registration.{scan_fields, new_task}
use cs423_2017sp.Mp2.Dispatcher.{Call, target, all_exist, perform, dispatch}
use cs423_2017sp.Mp2.Dispatcher.Round.{Started, preempts, demotion, promotion, dispatch-Started}
use cs423_2017sp.Mp2.Keeps.{
  Kept, modify-Kept, de_registration-Kept, timer_callback-Kept, yield_handle-Kept, dispatch-Kept,
}
use cs423_2017sp.Mp2.System.{
  System, expire, Step, admit, enlist, de_register, fire, yield, round, Reach, start, next,
}

scan_fields-addr : (numbers : List ℤ) (t : MpTask) → (scan_fields numbers t).addr ≡ t.addr
unfolding scan_fields
scan_fields-addr [] t = refl
scan_fields-addr (a ∷ []) t = refl
scan_fields-addr (a ∷ b ∷ []) t = refl
scan_fields-addr (a ∷ b ∷ c ∷ ns) t = refl

pub new_task-addr :
    (find_task_by_pid : ℤ → Ptr) (numbers : List ℤ) (memory : MpTask)
    → (new_task find_task_by_pid numbers memory).addr ≡ memory.addr
unfolding new_task
new_task-addr f numbers memory = scan_fields-addr numbers memory

-- A call on the Linux task of a structure of the list.
abbrev Sees : List MpTask → Call → Type 0
Sees ts c = (t : MpTask) × In t ts × (target c ≡ t.task)

gone_task :
    (live : Ptr → Bool) (ts : List MpTask) (calls : List Call)
    → All (Sees ts) calls
    → all_exist live calls ≡ false
    → (t : MpTask) × In t ts × (exists live t.task ≡ false)
gone_task live ts [] h e = cc
gone_task live ts (c ∷ cs) (sees, h) e = elim (Bool-cases (exists live (target c))) [
  | inl there ↦ gone_task live ts cs h (rw there at e)
  | inr gone ↦ let (t, on, same) = sees in (t, on, ap (exists live) (sym same) ∙ gone)
]

at-Sees : (p : Ptr) (ts : List MpTask) {r : MpTask} → at p ts ≡ some r → In r ts
unfolding at
at-Sees p [] e = cc
at-Sees p (u ∷ us) e = elim (Bool-cases (u.addr == p)) [
  | inl here ↦ inl (some_inj (rw (at, here) at e))
  | inr there ↦ inr (at-Sees p us (rw (at, there) at e))
]

demotion-Sees : (s : Scheduler) → All (Sees s.tasks) (demotion s)
demotion-Sees s = elim (Option-cases (at s.running_mptask s.tasks)) [
  | inl nowhere ↦ rw (All, nowhere) tt
  | inr (r, here) ↦ rw (All, here) ((r, at-Sees s.running_mptask s.tasks here, refl), tt)
]

if-Sees : (s : Scheduler) (b : Bool) → All (Sees s.tasks) (if b then demotion s else [])
if-Sees s true = demotion-Sees s
if-Sees s false = tt

Started-Sees :
    {s s' : Scheduler} {t : MpTask} {calls : List Call}
    → In t s.tasks
    → Started s t s' calls
    → All (Sees s.tasks) calls
Started-Sees {s} {s'} {t} on st = subst (All (Sees s.tasks)) (sym st.made) (
    All-append (Sees s.tasks) _ (promotion t) (if-Sees s (preempts t s))
      ((t, on, refl), ((t, on, refl), tt)))

-- A round with calls on the Linux tasks of the list.
round-runs :
    (live : Ptr → Bool) (s s' : Scheduler) (calls : List Call)
    → All (Sees s.tasks) calls
    → dispatch live s ≡ perform live (some (s', calls))
    → ((s' : Scheduler) × (calls : List Call) × (dispatch live s ≡ some (s', calls)))
      ⊎ ((t : MpTask) × In t s.tasks × (exists live t.task ≡ false))
round-runs live s s' calls sees run = elim (Bool-cases (all_exist live calls)) [
  | inl there ↦ inl (s', calls, run ∙ rw there refl)
  | inr gone ↦ inr (gone_task live s.tasks calls sees gone)
]

dispatch-runs :
    (live : Ptr → Bool) (s : Scheduler)
    → IsValid s
    → ((s' : Scheduler) × (calls : List Call) × (dispatch live s ≡ some (s', calls)))
      ⊎ ((t : MpTask) × In t s.tasks × (exists live t.task ≡ false))
dispatch-runs live s v = elim (dispatch-Started live s v) [
  | inl (none_below, run) ↦ round-runs live s _ _ (if-Sees' (s.running_mptask == null)) run
  | inr (t, s', calls, b, run, started) ↦ round-runs live s s' calls (Started-Sees b.on started) run
]
  where
    if-Sees' : (b : Bool) → All (Sees s.tasks) (if b then [] else demotion s)
    if-Sees' true = tt
    if-Sees' false = demotion-Sees s

-- What holds in every reachable state: the scheduler is valid, and the structures of the processes
-- between the two critical sections of `registration` are apart from those of the list.
pub record Inv (s : System) : Type 0 where
  pub valid : IsValid s.scheduler
  pub pending : Distinct s.admitted
  pub apart : (p : Ptr) → has p s.admitted ≡ true → has p s.scheduler.tasks ≡ false

Kept-Inv :
    {s : System} {s' : Scheduler} → Inv s → Kept s.scheduler s' → Inv (record s { scheduler = s' })
Kept-Inv inv kept = record {
  valid = kept.valid;
  pending = inv.pending;
  apart = λ p h. kept.within p (inv.apart p h);
}

module _ {find_task_by_pid : ℤ → Ptr} {msecs_to_jiffies : ℕ → ℕ} where
  pub Step-Inv : {s t : System} → Step find_task_by_pid msecs_to_jiffies s t → Inv s → Inv t
  Step-Inv {s} (admit numbers memory (ok, out, out') passed) inv = record {
    valid = inv.valid;
    pending = (rw addr ok, rw addr out', inv.pending);
    apart = λ p h. elim (Bool-cases ((new_task find_task_by_pid numbers memory).addr == p)) [
      | inl here ↦ subst (λ q. has q s.scheduler.tasks ≡ false) (sym addr ∙ (==_iff _ p).0 here) out
      | inr there ↦ inv.apart p (rw there at h)
    ];
  }
    where
      addr : (new_task find_task_by_pid numbers memory).addr ≡ memory.addr
      addr = new_task-addr find_task_by_pid numbers memory
  Step-Inv {s} (enlist t i) inv = record {
    valid = record {
      distinct = (
        at-ne-null t.addr s.admitted inv.pending (at-In t s.admitted inv.pending i),
        inv.apart t.addr (has-In t s.admitted i),
        inv.valid.distinct,
      );
      tracked = λ ne. ground (arith, inv.valid.tracked ne);
    };
    pending = Distinct-list_del t.addr s.admitted inv.pending;
    apart = λ p h. ground (arith, has-list_del p t.addr s.admitted inv.pending, inv.apart p);
  }
  Step-Inv {s} (de_register pid e) inv =
      Kept-Inv inv (de_registration-Kept pid s.scheduler inv.valid e)
  Step-Inv {s} (fire t expiry i pending e) inv =
      let expired =
        modify-Kept t.addr _ s.scheduler.dispatcher_awake s.scheduler (λ u. refl) inv.valid in
      let fired = timer_callback-Kept t.pid (expire t.addr s.scheduler) expired.valid e in
      Kept-Inv inv
        (record { valid = fired.valid; within = λ p out. fired.within p (expired.within p out) })
  Step-Inv {s} (yield live pid jiffies later e) inv =
      Kept-Inv inv
        (yield_handle-Kept msecs_to_jiffies live jiffies later pid s.scheduler inv.valid e)
  Step-Inv {s} (round live awake e) inv = Kept-Inv inv (dispatch-Kept live s.scheduler inv.valid e)

  pub Reach-Inv : {s : System} → Reach find_task_by_pid msecs_to_jiffies s → Inv s
  Reach-Inv start = record {
    valid = record { distinct = tt; tracked = λ ne. absurd (ne refl) };
    pending = tt;
    apart = λ p h. refl;
  }
  Reach-Inv (next r st) = Step-Inv st (Reach-Inv r)

  -- In every state that the module reaches, no structure is on the list twice, `running_mptask` is
  -- NULL or points to a structure of the list, and a round of the dispatcher reads no structure at
  -- NULL or in freed memory. Whichever Linux tasks exist at that time, the round runs through, or
  -- there is a structure on the list whose Linux task does not exist: it was not found at the
  -- registration or has exited since.
  pub oops_needs_gone_task :
      (live : Ptr → Bool) {s : System}
      → Reach find_task_by_pid msecs_to_jiffies s
      → IsValid s.scheduler
        × (((s' : Scheduler) × (calls : List Call) × (dispatch live s.scheduler ≡ some (s', calls)))
            ⊎ ((t : MpTask) × In t s.scheduler.tasks × (exists live t.task ≡ false)))
  oops_needs_gone_task live {s} r =
      ((Reach-Inv r).valid, dispatch-runs live s.scheduler (Reach-Inv r).valid)
