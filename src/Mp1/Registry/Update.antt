-- ===== src/Mp1/Registry/Update.antt =====
-- What `bottom_fn` of MP1/mp1.c makes of the list.
use cs423_2017sp.Prelude.{
  ℕ, ◌≡◌, refl, ap, ◌⊎◌, inl, inr, none, some, List, [], ◌∷◌, Option-cases, All,
}
use cs423_2017sp.Mp1.Registry.{Entry, Times, get_cpu_use, Module, update_entries, bottom_fn}

abbrev pub On : Entry → List Entry → Type 0
On e [] = ⊥
On e (f ∷ fs) = (f ≡ e) ⊎ On e fs

update_entries-alive :
    (times : Times) (es : List Entry)
    → All (λ e. get_cpu_use times e.pid ≡ some e.cpu_time) (update_entries times es)
unfolding update_entries
update_entries-alive times [] = tt
update_entries-alive times (e ∷ es) = elim (Option-cases (get_cpu_use times e.pid)) [
  | inl gone ↦ rw (update_entries, gone) (update_entries-alive times es)
  | inr (cpu, runs) ↦ rw (update_entries, runs) (runs, update_entries-alive times es)
]

abbrev with_time : ℕ → Entry → Entry
with_time cpu e = record e { cpu_time = cpu }

pub update_entries-On :
    (times : Times) (es : List Entry) (e : Entry) (cpu : ℕ)
    → On e es
    → get_cpu_use times e.pid ≡ some cpu
    → On (record e { cpu_time = cpu }) (update_entries times es)
unfolding update_entries
update_entries-On times [] e cpu on runs = absurd on
update_entries-On times (f ∷ fs) e cpu (inl same) runs =
    let found : get_cpu_use times f.pid ≡ some cpu = rw (ap (λ g. g.pid) same) runs in
    rw (update_entries, found) (inl (ap (with_time cpu) same))
update_entries-On times (f ∷ fs) e cpu (inr on) runs =
    elim (Option-cases (get_cpu_use times f.pid)) [
      | inl gone ↦ rw (update_entries, gone) (update_entries-On times fs e cpu on runs)
      | inr (c, found) ↦ rw (update_entries, found) (inr (update_entries-On times fs e cpu on runs))
    ]

-- An entry that the list had before, with whatever time.
abbrev pub Registered : List Entry → Entry → Type 0
Registered before e = (cpu : ℕ) × On (record e { cpu_time = cpu }) before

Registered-more :
    (f : Entry) (before es : List Entry)
    → All (Registered before) es
    → All (Registered (f ∷ before)) es
Registered-more f before [] h = tt
Registered-more f before (e ∷ es) ((cpu, on), hs) = ((cpu, inr on), Registered-more f before es hs)

update_entries-Registered :
    (times : Times) (es : List Entry) → All (Registered es) (update_entries times es)
unfolding update_entries
update_entries-Registered times [] = tt
update_entries-Registered times (e ∷ es) =
    let rest =
      Registered-more e es (update_entries times es) (update_entries-Registered times es) in
    elim (Option-cases (get_cpu_use times e.pid)) [
      | inl gone ↦ rw (update_entries, gone) rest
      | inr (cpu, runs) ↦ rw (update_entries, runs) ((e.cpu_time, inl refl), rest)
    ]

update_entries-again :
    (times : Times) (es : List Entry)
    → All (λ e. get_cpu_use times e.pid ≡ some e.cpu_time) es
    → update_entries times es ≡ es
unfolding update_entries
update_entries-again times [] h = refl
update_entries-again times (e ∷ es) h =
    rw (update_entries, h.0) (ap (λ rest. e ∷ rest) (update_entries-again times es h.1))

All-On : (P : Entry → Type 0) (es : List Entry) → ((e : Entry) → On e es → P e) → All P es
All-On P [] h = tt
All-On P (e ∷ es) h = (h e (inl refl), All-On P es (λ f on. h f (inr on)))

-- What becomes of an entry: its process is gone, or it is on the list with the time of its process.
abbrev pub IsUpdated : Times → List Entry → Entry → Type 0
IsUpdated times after e =
    (get_cpu_use times e.pid ≡ none)
    ⊎ ((cpu : ℕ) × (get_cpu_use times e.pid ≡ some cpu) × On (record e { cpu_time = cpu }) after)

-- After `bottom_fn` the list holds exactly the registered processes that still exist, each with its
-- current time: every entry is one that was registered and has the time of a process that exists,
-- every registered process that exists is on the list with its time, and a second run with the same
-- times changes no entry.
pub bottom_fn-IsUpdated :
    (times : Times) (m : Module)
    → All (λ e. get_cpu_use times e.pid ≡ some e.cpu_time) (bottom_fn times m).head
      × All (Registered m.head) (bottom_fn times m).head
      × All (IsUpdated times (bottom_fn times m).head) m.head
      × ((bottom_fn times (bottom_fn times m)).head ≡ (bottom_fn times m).head)
unfolding bottom_fn
bottom_fn-IsUpdated times m = (
  update_entries-alive times m.head,
  update_entries-Registered times m.head,
  All-On (IsUpdated times (update_entries times m.head)) m.head λ e on.
      elim (Option-cases (get_cpu_use times e.pid)) [
        | inl gone ↦ inl gone
        | inr (cpu, runs) ↦ inr (cpu, runs, update_entries-On times m.head e cpu on runs)
      ],
  update_entries-again times (update_entries times m.head) (update_entries-alive times m.head),
)
