-- ===== src/Mp2/Task/Laws.antt =====
-- Lookups, writes and removals on the task list of MP2/mp2.c.
use mathlib.Core.Option
use cs423_2017sp.Prelude.{
  ◌≡◌, ◌∙◌, ◌≢◌, ◌⊎◌, refl, sym, ap, Bool, true, false, ◌||◌, some, List, [], ◌∷◌, arith, ◌==◌,
  if◌then◌else◌, Bool-cases, inl, inr, ==_iff, is_some,
}
use cs423_2017sp.Prelude.Int.{ℤ, eqb_ℤ, eqb_ℤ→eq}
use cs423_2017sp.Prelude.Memory.{Ptr, null}
use cs423_2017sp.Mp2.Task.{MpTask, Scheduler, get_task_by_pid, at, modify, list_del}

abbrev pub has : Ptr → List MpTask → Bool
has p [] = false
has p (t ∷ ts) = (t.addr == p) || has p ts

-- No structure stands on the list twice, and none is at NULL.
abbrev pub Distinct : List MpTask → Type 0
Distinct [] = Unit
Distinct (t ∷ ts) = (t.addr ≢ null) × (has t.addr ts ≡ false) × Distinct ts

-- A write that keeps the address of the structure.
abbrev pub KeepsAddr : (MpTask → MpTask) → Type 0
KeepsAddr f = (t : MpTask) → (f t).addr ≡ t.addr

pub at-has :
    (p : Ptr) (ts : List MpTask)
    → has p ts ≡ true
    → (t : MpTask) × (at p ts ≡ some t) × (t.addr ≡ p)
unfolding at
at-has p [] h = cc
at-has p (t ∷ ts) h = elim (Bool-cases (t.addr == p)) [
  | inl e ↦ rw e (t, refl, ground arith)
  | inr e ↦ rw e (at-has p ts (rw e at h))
]

pub has-at : (p : Ptr) (ts : List MpTask) → has p ts ≡ is_some (at p ts)
unfolding at
has-at p [] = refl
has-at p (t ∷ ts) = ground (arith, has-at p ts)

pub at-ne-null :
    (p : Ptr) (ts : List MpTask) {t : MpTask} → Distinct ts → at p ts ≡ some t → p ≢ null
unfolding at
at-ne-null p [] d e = cc
at-ne-null p (u ∷ us) {t} d e = elim (Bool-cases (u.addr == p)) [
  | inl h ↦ λ z. d.0 ((==_iff u.addr p).0 h ∙ z)
  | inr h ↦ at-ne-null p us d.2 (rw h at e)
]

pub has-modify :
    (p q : Ptr) (f : MpTask → MpTask) (ts : List MpTask)
    → KeepsAddr f
    → has p (modify q f ts) ≡ has p ts
unfolding modify
has-modify p q f [] k = refl
has-modify p q f (t ∷ ts) k = ground (arith, k t, has-modify p q f ts k)

pub Distinct-modify :
    (q : Ptr) (f : MpTask → MpTask) (ts : List MpTask)
    → KeepsAddr f
    → Distinct ts
    → Distinct (modify q f ts)
unfolding modify
Distinct-modify q f [] k d = tt
Distinct-modify q f (t ∷ ts) k d = elim (Bool-cases (t.addr == q)) [
  | inl e ↦ rw e (ground (arith, k t), rw (k t) d.1, d.2)
  | inr e ↦ rw e (d.0, rw (has-modify t.addr q f ts k) d.1, Distinct-modify q f ts k d.2)
]

pub at-modify :
    (p q : Ptr) (f : MpTask → MpTask) (ts : List MpTask)
    → KeepsAddr f
    → at p (modify q f ts) ≡ (if p == q then Option.map f (at p ts) else at p ts)
unfolding modify at
at-modify p q f [] k = ground arith
at-modify p q f (t ∷ ts) k = ground (arith, k t, at-modify p q f ts k)

pub has-list_del :
    (p q : Ptr) (ts : List MpTask)
    → Distinct ts
    → has p (list_del q ts) ≡ (if p == q then false else has p ts)
unfolding list_del
has-list_del p q [] d = ground arith
has-list_del p q (t ∷ ts) d = ground (arith, has-list_del p q ts d.2)

pub Distinct-list_del : (q : Ptr) (ts : List MpTask) → Distinct ts → Distinct (list_del q ts)
unfolding list_del
Distinct-list_del q [] d = tt
Distinct-list_del q (t ∷ ts) d = elim (Bool-cases (t.addr == q)) [
  | inl e ↦ rw e d.2
  | inr e ↦ rw e (d.0, has-list_del t.addr q ts d.2 ∙ rw e d.1, Distinct-list_del q ts d.2)
]

-- What `__get_task_by_pid` finds has the pid and stands on the list at its own address.
pub get_task_by_pid-found :
    (pid : ℤ) (ts : List MpTask) {t : MpTask}
    → get_task_by_pid pid ts ≡ some t
    → (t.pid ≡ pid) × (has t.addr ts ≡ true)
unfolding get_task_by_pid
get_task_by_pid-found pid [] e = cc
get_task_by_pid-found pid (u ∷ us) {t} e = elim (Bool-cases (eqb_ℤ u.pid pid)) [
  | inl h ↦
      let same : u ≡ t = ground arith in
      (ap (λ v. v.pid) (sym same) ∙ eqb_ℤ→eq u.pid pid h, ground arith)
  | inr h ↦ let (found, on) = get_task_by_pid-found pid us (rw h at e) in (found, ground arith)
]

-- A structure that stands on the list is the one at its address.
pub at_self :
    (pid : ℤ) (ts : List MpTask) {t : MpTask}
    → Distinct ts
    → get_task_by_pid pid ts ≡ some t
    → at t.addr ts ≡ some t
unfolding get_task_by_pid at
at_self pid [] d e = cc
at_self pid (u ∷ us) {t} d e = elim (Bool-cases (eqb_ℤ u.pid pid)) [
  | inl h ↦ let same : u ≡ t = ground arith in ground (arith, ap (λ v. v.addr) same)
  | inr h ↦
      let on = (get_task_by_pid-found pid us (rw h at e)).1 in
      ground (arith, at_self pid us d.2 (rw h at e))
]

-- A structure of the list, and the two ways to find it.
abbrev pub In : MpTask → List MpTask → Type 0
In t [] = ⊥
In t (u ∷ us) = (u ≡ t) ⊎ In t us

pub has-In : (t : MpTask) (ts : List MpTask) → In t ts → has t.addr ts ≡ true
has-In t [] i = absurd i
has-In t (u ∷ us) (inl e) = ground (arith, ap (λ v. v.addr) e)
has-In t (u ∷ us) (inr i) = ground (arith, has-In t us i)

pub at-In : (t : MpTask) (ts : List MpTask) → Distinct ts → In t ts → at t.addr ts ≡ some t
unfolding at
at-In t [] d i = absurd i
at-In t (u ∷ us) d (inl e) = ground (arith, ap (λ v. v.addr) e)
at-In t (u ∷ us) d (inr i) = ground (arith, has-In t us i, at-In t us d.2 i)

-- What every operation of the module keeps: the list is in order, and `running_mptask` is NULL or
-- points to a structure of the list.
pub record IsValid (s : Scheduler) : Type 0 where
  pub distinct : Distinct s.tasks
  pub tracked : s.running_mptask ≢ null → has s.running_mptask s.tasks ≡ true
