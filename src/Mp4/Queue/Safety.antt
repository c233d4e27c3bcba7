-- ===== src/Mp4/Queue/Safety.antt =====
-- What holds of the queue of MP4/queue.c in every state that its threads can reach.
use Prim.Native.Nat.{ℕ}
use mathlib.Core.Path.{subst}
use cs423_2017sp.Prelude.{
  ◌≡◌, refl, ◌⊎◌, inl, inr, true, false, some, [], ◌∷◌, ◌++◌, arith, Bool-cases,
}
use cs423_2017sp.Prelude.Int.{ℤ, pos, ◌≤ℤ◌, ltb_ℤ}
use cs423_2017sp.Prelude.Memory.{Ptr, Heap}
use cs423_2017sp.Mp4.Queue.{QueueNode, Queue, Left, is_empty, push_locked, pull_locked}
use cs423_2017sp.Mp4.Queue.Cells.{Cells, items}
use cs423_2017sp.Mp4.Queue.Refine.{IsQueue, push_locked-Pushed, pull_locked-Pulled}
use cs423_2017sp.Mp4.Queue.Threads.{
  Place, away, push_ready, push_waits, pull_ready, pull_waits, System, Reach, start, later,
}
use cs423_2017sp.Mp4.Queue.Invariant.{prepared, Owned, WaitsRightly, Inv, Inv-init}
use cs423_2017sp.Mp4.Queue.Steps.{Step-Inv}

module _ {A : Type 0} where
  -- A queue that is not empty yields an item.
  pull-run :
      {h : Heap (QueueNode A)} {q : Queue} (cs : Cells A)
      → IsQueue h q cs
      → is_empty q ≡ false
      → (x : A) × (l : Left A) × (pull_locked h q ≡ some (x, l))
  unfolding is_empty
  pull-run [] is some_item = absurd (ground (arith, is.size))
  pull-run ((a, x) ∷ cs) is some_item =
      let (l, run, done) = pull_locked-Pulled a x cs is in (x, l, run)

  -- The critical section that the thread at this place is about to run does not fault.
  abbrev pub Runs : System A → Place A → Type 0
  Runs s (push_ready nd x) = (l : Left A) × (push_locked nd s.heap s.queue ≡ some l)
  Runs s pull_ready =
      (is_empty s.queue ≡ true)
      ⊎ ((x : A) × (l : Left A) × (pull_locked s.heap s.queue ≡ some (x, l)))
  Runs s (push_waits nd x) = Unit
  Runs s pull_waits = Unit
  Runs s away = Unit

  Runs-at :
      (s : System A) (cs : Cells A) (p : Place A)
      → IsQueue s.heap s.queue cs
      → ((nd : Ptr) (x : A) → prepared p ≡ some (nd, x) → Owned s.heap cs nd x)
      → Runs s p
  Runs-at s cs (push_ready nd x) shape owned =
      let o = owned nd x refl in
      let (l, run, done) = push_locked-Pushed cs nd x shape o.ne_null o.apart o.holds in (l, run)
  Runs-at s cs pull_ready shape owned = elim (Bool-cases (is_empty s.queue)) [
    | inl none_left ↦ inl none_left
    | inr some_left ↦ inr (pull-run cs shape some_left)
  ]
  Runs-at s cs (push_waits nd x) shape owned = tt
  Runs-at s cs pull_waits shape owned = tt
  Runs-at s cs away shape owned = tt

module _ {A : Type 0} {limit : ℤ} {h : Heap (QueueNode A)} where
  pub Reach-Inv : {s : System A} → Reach limit h s → (cs : Cells A) × Inv limit s cs
  Reach-Inv start = ([], Inv-init limit h)
  Reach-Inv (later r st) = let (cs, inv) = Reach-Inv r in Step-Inv cs st inv

  -- In every reachable state the list that hangs on the queue is intact and holds, in order, what
  -- was pushed and not yet pulled: the items come out in the order in which they went in, none is
  -- lost and none comes twice. With a positive limit it is never longer than the limit.
  pub Reach-fifo :
      {s : System A}
      → Reach limit h s
      → (cs : Cells A) × IsQueue s.heap s.queue cs
        × (s.pushed ≡ s.pulled ++ items cs)
        × ((limit ≤ℤ pos 0) ⊎ (pos s.queue.size ≤ℤ limit))
  Reach-fifo {s} r =
      let (cs, inv) = Reach-Inv r in
      let within =
        subst (λ m. ltb_ℤ (pos 0) m ≡ true → pos s.queue.size ≤ℤ m) inv.limited inv.fits in
      (
        cs,
        inv.shape,
        inv.fifo,
        elim (Bool-cases (ltb_ℤ (pos 0) limit)) [
          | inl limited ↦ inr (within limited)
          | inr unlimited ↦ inl (ground arith)
        ],
      )

  -- No wake-up is lost: in every reachable state, a thread waits in `queue_push` only while the
  -- queue is full and in `queue_pull` only while it is empty. So whenever the test of its loop no
  -- longer holds, the thread has been woken.
  pub no_lost_wakeup : {s : System A} → Reach limit h s → (i : ℕ) → WaitsRightly s.queue (s.place i)
  no_lost_wakeup r i = (Reach-Inv r).1.waits i

  -- No critical section faults: in every reachable state, for each thread that has prepared a node
  -- and wants the mutex, the critical section of `queue_push` runs; and for each that wants to
  -- pull, the queue is empty or that of `queue_pull` runs and takes an item. Neither reads or
  -- writes NULL or freed memory.
  pub no_fault : {s : System A} → Reach limit h s → (i : ℕ) → Runs s (s.place i)
  no_fault {s} r i = let (cs, inv) = Reach-Inv r in Runs-at s cs (s.place i) inv.shape (inv.owned i)
