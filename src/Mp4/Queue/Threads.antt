-- ===== src/Mp4/Queue/Threads.antt =====
-- Threads that call `queue_push` and `queue_pull` of MP4/queue.c on one queue, interleaved in any
-- order. A critical section runs from taking the mutex to giving it up, by the unlock or by the
-- wait, and no other thread touches the queue in between: it is one step. A broadcast makes every
-- waiting thread test again, and so may a wake-up that POSIX allows without a broadcast.
use Prim.Native.Nat.{ℕ}
use native.Mathlib.Decide.{ℕ_discrete}
use mathlib.Core.Logic.{ite}
use cs423_2017sp.Prelude.{◌≡◌, Bool, true, false, none, some, List, [], ◌∷◌, ◌++◌}
use cs423_2017sp.Prelude.Int.{ℤ}
use cs423_2017sp.Prelude.Memory.{Ptr, Heap}
use cs423_2017sp.Mp4.Queue.{
  QueueNode, Queue, Left, queue_create, is_full, is_empty, prepare, push_locked, pull_locked,
}

-- Where a thread stands. `push_ready` has its node and wants the mutex, `push_waits` waits on `cv`.
pub data Place (A : Type 0) : Type 0 where
  away : Place A
  push_ready : Ptr → A → Place A
  push_waits : Ptr → A → Place A
  pull_ready : Place A
  pull_waits : Place A

module _ {A : Type 0} where
  -- A thread that is woken goes back to the test of its loop.
  abbrev pub awake : Place A → Place A
  awake away = away
  awake (push_ready nd x) = push_ready nd x
  awake (push_waits nd x) = push_ready nd x
  awake pull_ready = pull_ready
  awake pull_waits = pull_ready

  -- Every waiting thread is woken if there was a broadcast.
  abbrev pub wake : Bool → Place A → Place A
  wake true p = awake p
  wake false p = p

  abbrev pub update : (ℕ → Place A) → ℕ → Place A → ℕ → Place A
  update f i p j = ite (ℕ_discrete i j) p (f j)

-- The queue, the threads, and the history: what was pushed and what was pulled, oldest first.
pub record System (A : Type 0) : Type 0 where
  pub heap : Heap (QueueNode A)
  pub queue : Queue
  pub place : ℕ → Place A
  pub pushed : List A
  pub pulled : List A

-- Thread `i` leaves its critical section.
abbrev pub leave : {A : Type 0} → System A → ℕ → Left A → System A
leave s i l = record s {
  heap = l.heap;
  queue = l.queue;
  place = λ j. wake l.broadcast (update s.place i away j);
}

pub data Step {A : Type 0} (s : System A) : System A → Type 0 where
  -- `queue_push` is called: `malloc` returns memory that holds no node of the program
  call_push :
      (i : ℕ) (nd : Ptr) (x : A) {h : Heap (QueueNode A)}
      → s.place i ≡ away
      → s.heap nd ≡ none
      → prepare nd x s.heap ≡ some h
      → Step s (record s { heap = h; place = update s.place i (push_ready nd x) })
  call_pull : (i : ℕ) → s.place i ≡ away → Step s (record s { place = update s.place i pull_ready })
  push_blocks :
      (i : ℕ) (nd : Ptr) (x : A)
      → s.place i ≡ push_ready nd x
      → is_full s.queue ≡ true
      → Step s (record s { place = update s.place i (push_waits nd x) })
  push_goes :
      (i : ℕ) (nd : Ptr) (x : A) {l : Left A}
      → s.place i ≡ push_ready nd x
      → is_full s.queue ≡ false
      → push_locked nd s.heap s.queue ≡ some l
      → Step s (record (leave s i l) { pushed = s.pushed ++ x ∷ [] })
  pull_blocks :
      (i : ℕ)
      → s.place i ≡ pull_ready
      → is_empty s.queue ≡ true
      → Step s (record s { place = update s.place i pull_waits })
  pull_goes :
      (i : ℕ) (x : A) {l : Left A}
      → s.place i ≡ pull_ready
      → is_empty s.queue ≡ false
      → pull_locked s.heap s.queue ≡ some (x, l)
      → Step s (record (leave s i l) { pulled = s.pulled ++ x ∷ [] })
  spurious : (i : ℕ) → Step s (record s { place = update s.place i (awake (s.place i)) })

-- After `queue_create`, with every thread outside the functions.
abbrev pub init : {A : Type 0} → ℤ → Heap (QueueNode A) → System A
init limit h = record {
  heap = h;
  queue = queue_create limit;
  place = λ _. away;
  pushed = [];
  pulled = [];
}

pub data Reach {A : Type 0} (limit : ℤ) (h : Heap (QueueNode A)) : System A → Type 0 where
  start : Reach limit h (init limit h)
  later : {s t : System A} → Reach limit h s → Step s t → Reach limit h t
