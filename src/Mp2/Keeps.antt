-- ===== src/Mp2/Keeps.antt =====
-- Each operation of MP2/mp2.c keeps the scheduler valid and brings in no structure of its own.
use mathlib.Core.Path.{subst}
use mathlib.Core.Option
use mathlib.Core.Option.{Option}
use cs423_2017sp.Prelude.{
  ℕ, ◌≡◌, ◌∙◌, refl, sym, ap, inl, inr, Bool, true, false, none, some, List, arith, Bool-cases,
  Option-cases, some_inj, ◌==◌, ltb, is_some, if◌then◌else◌,
}
use cs423_2017sp.Prelude.Int.{ℤ}
use cs423_2017sp.Prelude.Memory.{Ptr}
use cs423_2017sp.Mp2.Task.{
  MpTask, Scheduler, ready, running, exists, at, get_task_by_pid, modify, list_del, set_state,
}
use cs423_2017sp.Mp2.Task.Laws.{
  has, has-at, KeepsAddr, has-modify, Distinct-modify, has-list_del, Distinct-list_del, IsValid,
}
use cs423_2017sp.Mp2.Registration.{de_registration, timer_callback}
use cs423_2017sp.Mp2.Dispatcher.{Call, all_exist, arrange, perform, dispatch}
use cs423_2017sp.Mp2.Dispatcher.Round.{arrange-Started, Started}
use cs423_2017sp.Mp2.Yield.{next_release, yield_handle}

-- A valid scheduler with no structure that was not there before.
pub record Kept (s s' : Scheduler) : Type 0 where
  pub valid : IsValid s'
  pub within : (p : Ptr) → has p s.tasks ≡ false → has p s'.tasks ≡ false

pub modify-Kept :
    (p : Ptr) (f : MpTask → MpTask) (b : Bool) (s : Scheduler)
    → KeepsAddr f
    → IsValid s
    → Kept s (record s { tasks = modify p f s.tasks; dispatcher_awake = b })
modify-Kept p f b s k v = record {
  valid = record {
    distinct = Distinct-modify p f s.tasks k v.distinct;
    tracked = λ ne. has-modify s.running_mptask p f s.tasks k ∙ v.tracked ne;
  };
  within = λ q out. has-modify q p f s.tasks k ∙ out;
}

not-has-list_del :
    (p q : Ptr) (s : Scheduler)
    → IsValid s
    → has p s.tasks ≡ false
    → has p (list_del q s.tasks) ≡ false
not-has-list_del p q s v out = ground (arith, has-list_del p q s.tasks v.distinct)

pub de_registration-Kept :
    (pid : ℤ) (s : Scheduler) {s' : Scheduler}
    → IsValid s
    → de_registration pid s ≡ some s'
    → Kept s s'
unfolding de_registration
de_registration-Kept pid s {s'} v e = elim (Option-cases (get_task_by_pid pid s.tasks)) [
  | inl missing ↦ absurd (ground arith)
  | inr (t, found) ↦ elim (Bool-cases (s.running_mptask == t.addr)) [
    | inl here ↦ subst (Kept s) (some_inj (rw (found, here, de_registration) at e)) (record {
      valid = record {
        distinct = Distinct-list_del t.addr s.tasks v.distinct;
        tracked = λ ne. absurd (ne refl);
      };
      within = λ p out. not-has-list_del p t.addr s v out;
    })
    | inr there ↦ subst (Kept s) (some_inj (rw (found, there, de_registration) at e)) (record {
      valid = record {
        distinct = Distinct-list_del t.addr s.tasks v.distinct;
        tracked =
            λ ne. has-list_del s.running_mptask t.addr s.tasks v.distinct ∙ rw there (v.tracked ne);
      };
      within = λ p out. not-has-list_del p t.addr s v out;
    })
  ]
]

pub timer_callback-Kept :
    (pid : ℤ) (s : Scheduler) {s' : Scheduler}
    → IsValid s
    → timer_callback pid s ≡ some s'
    → Kept s s'
unfolding timer_callback
timer_callback-Kept pid s {s'} v e = elim (Option-cases (get_task_by_pid pid s.tasks)) [
  | inl missing ↦ absurd (ground arith)
  | inr (t, found) ↦
      subst (Kept s) (some_inj (rw (found, timer_callback) at e))
        (modify-Kept t.addr (set_state ready) true s (λ u. refl) v)
]

pub yield_handle-Kept :
    (msecs_to_jiffies : ℕ → ℕ) (live : Ptr → Bool) (jiffies later : ℕ) (pid : ℤ) (s : Scheduler)
    {s' : Scheduler} {sleeps : Bool}
    → IsValid s
    → yield_handle msecs_to_jiffies live jiffies later pid s ≡ some (s', sleeps)
    → Kept s s'
unfolding yield_handle
yield_handle-Kept m2j live jiffies later pid s {s'} v e =
    elim (Option-cases (get_task_by_pid pid s.tasks)) [
      | inl missing ↦ absurd (ground arith)
      | inr (t, found) ↦ elim (Bool-cases (ltb (next_release m2j jiffies t) later)) [
        | inl late ↦
            subst (Kept s) (ap (λ r. r.0) (some_inj (rw (found, late, yield_handle) at e)))
              (modify-Kept t.addr _ s.dispatcher_awake s (λ u. refl) v)
        | inr in_time ↦ elim (Bool-cases (exists live t.task)) [
          | inl there ↦
              subst (Kept s)
                (ap (λ r. r.0) (some_inj (rw (found, in_time, there, yield_handle) at e)))
                (modify-Kept t.addr _ true s (λ u. refl) v)
          | inr gone ↦ absurd (ground arith)
        ]
      ]
    ]

is_some-choice :
    (a b : Bool) (f g : MpTask → MpTask) (o : Option MpTask)
    → is_some o ≡ false
    → is_some (if a then Option.map f o else if b then Option.map g o else o) ≡ false
is_some-choice true b f g none e = refl
is_some-choice false true f g none e = refl
is_some-choice false false f g none e = refl
is_some-choice a b f g (some t) e = cc

Started-within :
    {s s' : Scheduler} {t : MpTask} {calls : List Call}
    → Started s t s' calls
    → (p : Ptr) → has p s.tasks ≡ false
    → has p s'.tasks ≡ false
Started-within {s} {s'} {t} st p out =
    has-at p s'.tasks
    ∙ ap is_some (st.at_each p)
    ∙ is_some-choice (p == t.addr) _ (set_state running) (set_state ready) (at p s.tasks)
        (sym (has-at p s.tasks) ∙ out)

arrange-Kept :
    (s : Scheduler) {s' : Scheduler} {calls : List Call}
    → IsValid s
    → arrange s ≡ some (s', calls)
    → Kept s s'
arrange-Kept s {s'} v e = elim (arrange-Started s v) [
  | inl (none_below, run) ↦ subst (Kept s) (ap (λ r. r.0) (some_inj (sym run ∙ e))) (record {
    valid = record { distinct = v.distinct; tracked = v.tracked };
    within = λ p out. out;
  })
  | inr (t, s'', calls, b, run, started) ↦
      subst (Kept s) (ap (λ r. r.0) (some_inj (sym run ∙ e)))
        (record { valid = started.valid; within = Started-within started })
]

performed :
    (live : Ptr → Bool) (o : Option (Scheduler × List Call)) {r : Scheduler × List Call}
    → perform live o ≡ some r
    → o ≡ some r
performed live none e = e
performed live (some (s, calls)) e = elim (Bool-cases (all_exist live calls)) [
  | inl there ↦ rw there at e
  | inr gone ↦ absurd (ground (arith, gone, e))
]

pub dispatch-Kept :
    (live : Ptr → Bool) (s : Scheduler) {s' : Scheduler} {calls : List Call}
    → IsValid s
    → dispatch live s ≡ some (s', calls)
    → Kept s s'
unfolding dispatch
dispatch-Kept live s v e = arrange-Kept s v (performed live (arrange s) e)
