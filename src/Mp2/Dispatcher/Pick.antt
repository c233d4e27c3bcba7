-- ===== src/Mp2/Dispatcher/Pick.antt =====
-- The task that the dispatcher of MP2/mp2.c picks: a ready one of the smallest period.
use cs423_2017sp.Prelude.{
  ◌+◌, ◌<◌, ◌≡◌, refl, ◌⊎◌, inl, inr, true, ◌&&◌, Option, none, some, List, [], ◌∷◌, arith,
  Bool-cases, All,
}
use cs423_2017sp.Prelude.Int.{ℤ, pos_part, neg_part, ◌≤ℤ◌, ltb_ℤ}
use cs423_2017sp.Mp2.Task.{MpTask, is_ready}
use cs423_2017sp.Mp2.Task.Laws.{In}
use cs423_2017sp.Mp2.Dispatcher.{int_max, pick, task_to_run}

infix 50 ◌<ℤ◌
abbrev pub ◌<ℤ◌ : ℤ → ℤ → Type 0
a <ℤ b = pos_part a + neg_part b < pos_part b + neg_part a

-- No ready task has a period below `m`.
abbrev pub NoneBelow : ℤ → List MpTask → Type 0
NoneBelow m ts = All (λ u. is_ready u.task_state ≡ true → m ≤ℤ u.period) ts

-- A ready task of the list, of a period below `m`, and no ready task has a smaller one.
pub record Best (m : ℤ) (ts : List MpTask) (t : MpTask) : Type 0 where
  pub on : In t ts
  pub is_ready : is_ready t.task_state ≡ true
  pub below : t.period <ℤ m
  pub least : NoneBelow t.period ts

NoneBelow-le : (m n : ℤ) (ts : List MpTask) → m ≤ℤ n → NoneBelow n ts → NoneBelow m ts
NoneBelow-le m n [] le h = tt
NoneBelow-le m n (t ∷ ts) le h = (λ r. omega (arith, h.0 r), NoneBelow-le m n ts le h.1)

pick-cases :
    (ts : List MpTask) (best : Option MpTask) (m : ℤ)
    → ((pick ts best m ≡ best) × NoneBelow m ts)
      ⊎ ((t : MpTask) × (pick ts best m ≡ some t) × Best m ts t)
unfolding pick
pick-cases [] best m = inl (refl, tt)
pick-cases (u ∷ us) best m = elim (Bool-cases (is_ready u.task_state && ltb_ℤ u.period m)) [
  | inl e ↦ rw e (elim (pick-cases us (some u) u.period) [
    | inl (same, none_below) ↦ inr (
      u,
      same,
      record {
        on = inl refl;
        is_ready = ground arith;
        below = ground arith;
        least = (λ r. omega arith, none_below);
      },
    )
    | inr (t, found, b) ↦ inr (
      t,
      found,
      record {
        on = inr b.on;
        is_ready = b.is_ready;
        below = ground (arith, b.below);
        least = (λ r. omega (arith, b.below), b.least);
      },
    )
  ])
  | inr e ↦ rw e (elim (pick-cases us best m) [
    | inl (same, none_below) ↦ inl (same, (λ r. ground arith, none_below))
    | inr (t, found, b) ↦ inr (
      t,
      found,
      record {
        on = inr b.on;
        is_ready = b.is_ready;
        below = b.below;
        least = (λ r. ground (arith, b.below), b.least);
      },
    )
  ])
]

-- If the dispatcher picks a task, it is a ready task of the list, of a period below `INT_MAX`, and
-- no ready task has a smaller period; if it picks none, no ready task has a period below `INT_MAX`.
pub task_to_run-Best :
    (ts : List MpTask)
    → ((task_to_run ts ≡ none) × NoneBelow int_max ts)
      ⊎ ((t : MpTask) × (task_to_run ts ≡ some t) × Best int_max ts t)
unfolding task_to_run
task_to_run-Best ts = pick-cases ts none int_max
