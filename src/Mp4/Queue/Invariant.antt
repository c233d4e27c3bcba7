-- ===== src/Mp4/Queue/Invariant.antt =====
-- What every interleaving of MP4/queue.c keeps.
use Prim.Native.Nat.{ℕ}
use native.Mathlib.Decide.{ℕ_discrete}
use mathlib.Core.Logic.{ite}
use cs423_2017sp.Prelude.{
  ◌≡◌, ◌≢◌, ◌∙◌, refl, sym, Bool, true, false, Option, none, some, [], ◌++◌, arith,
}
use cs423_2017sp.Prelude.Int.{ℤ, pos, ◌≤ℤ◌, ltb_ℤ}
use cs423_2017sp.Prelude.Memory.{Ptr, null, Heap}
use cs423_2017sp.Mp4.Queue.{QueueNode, node, Queue, queue_create, is_full, is_empty}
use cs423_2017sp.Mp4.Queue.Cells.{Cells, has, items}
use cs423_2017sp.Mp4.Queue.Refine.{IsQueue}
use cs423_2017sp.Mp4.Queue.Threads.{
  Place, away, push_ready, push_waits, pull_ready, pull_waits, awake, wake, update, System, init,
}

-- The size keeps to the limit, if there is one.
abbrev pub Fits : Queue → Type 0
Fits q = ltb_ℤ (pos 0) q.max_size ≡ true → pos q.size ≤ℤ q.max_size

module _ {A : Type 0} where
  -- The node that a thread in `queue_push` has prepared and not yet linked, with its item.
  abbrev pub prepared : Place A → Option (Ptr × A)
  prepared (push_ready nd x) = some (nd, x)
  prepared (push_waits nd x) = some (nd, x)
  prepared away = none
  prepared pull_ready = none
  prepared pull_waits = none

  -- A thread waits only while the test of its loop holds.
  abbrev pub WaitsRightly : Queue → Place A → Type 0
  WaitsRightly q (push_waits _ _) = is_full q ≡ true
  WaitsRightly q pull_waits = is_empty q ≡ true
  WaitsRightly q away = Unit
  WaitsRightly q (push_ready _ _) = Unit
  WaitsRightly q pull_ready = Unit

  -- A prepared node is on the heap and no cell of the queue.
  pub record Owned (h : Heap (QueueNode A)) (cs : Cells A) (nd : Ptr) (x : A) : Type 0 where
    pub ne_null : nd ≢ null
    pub holds : h nd ≡ some (node x null)
    pub apart : has nd cs ≡ false

  abbrev pub AllOwned : Heap (QueueNode A) → Cells A → (ℕ → Place A) → Type 0
  AllOwned h cs f = (i : ℕ) (nd : Ptr) (x : A) → prepared (f i) ≡ some (nd, x) → Owned h cs nd x

  -- No two threads have prepared the same node.
  abbrev pub Own : (ℕ → Place A) → Type 0
  Own f =
      (i j : ℕ) (nd : Ptr) (x y : A)
      → prepared (f i) ≡ some (nd, x)
      → prepared (f j) ≡ some (nd, y)
      → i ≡ j

  abbrev pub AllWait : Queue → (ℕ → Place A) → Type 0
  AllWait q f = (i : ℕ) → WaitsRightly q (f i)

  pub record Inv (limit : ℤ) (s : System A) (cs : Cells A) : Type 0 where
    pub shape : IsQueue s.heap s.queue cs
    pub limited : s.queue.max_size ≡ limit
    pub fits : Fits s.queue
    pub fifo : s.pushed ≡ s.pulled ++ items cs
    pub owned : AllOwned s.heap cs s.place
    pub own : Own s.place
    pub waits : AllWait s.queue s.place

  pub Inv-init : (limit : ℤ) (h : Heap (QueueNode A)) → Inv limit (init limit h) []
  unfolding queue_create
  Inv-init limit h = record {
    shape = record { head = refl; tail = refl; size = refl; linked = tt };
    limited = refl;
    fits = λ e. ground arith;
    fifo = refl;
    owned = λ i nd x e. cc;
    own = λ i j nd x y e e'. cc;
    waits = λ i. tt;
  }

  pub prepared-wake : (b : Bool) (p : Place A) → prepared (wake b p) ≡ prepared p
  prepared-wake false p = refl
  prepared-wake true away = refl
  prepared-wake true (push_ready nd x) = refl
  prepared-wake true (push_waits nd x) = refl
  prepared-wake true pull_ready = refl
  prepared-wake true pull_waits = refl

  pub WaitsRightly-awake : (q : Queue) (p : Place A) → WaitsRightly q (awake p)
  WaitsRightly-awake q away = tt
  WaitsRightly-awake q (push_ready nd x) = tt
  WaitsRightly-awake q (push_waits nd x) = tt
  WaitsRightly-awake q pull_ready = tt
  WaitsRightly-awake q pull_waits = tt

  -- A property of all places after the place of thread `i` has changed.
  pub update-elim :
      (P : Place A → Type 0) (f : ℕ → Place A) (i : ℕ) (p : Place A) (j : ℕ)
      → P p
      → (i ≢ j → P (f j))
      → P (update f i p j)
  update-elim P f i p j new old = elim (ℕ_discrete i j) as (λ d. P (ite d p (f j))) [
    | yes e ↦ new
    | no ne ↦ old ne
  ]

  pub AllOwned-update :
      (h : Heap (QueueNode A)) (cs : Cells A) (f : ℕ → Place A) (i : ℕ) (p : Place A)
      → ((nd : Ptr) (x : A) → prepared p ≡ some (nd, x) → Owned h cs nd x)
      → ((j : ℕ) → i ≢ j → (nd : Ptr) (x : A) → prepared (f j) ≡ some (nd, x) → Owned h cs nd x)
      → AllOwned h cs (update f i p)
  AllOwned-update h cs f i p new old j =
      update-elim (λ q. (nd : Ptr) (x : A) → prepared q ≡ some (nd, x) → Owned h cs nd x) f i p j
        new (old j)

  pub Own-update :
      (f : ℕ → Place A) (i : ℕ) (p : Place A)
      → Own f
      → ((j : ℕ) (nd : Ptr) (x y : A)
          → i ≢ j
          → prepared p ≡ some (nd, x)
          → prepared (f j) ≡ some (nd, y)
          → ⊥)
      → Own (update f i p)
  Own-update f i p own fresh j k nd x y =
      elim (ℕ_discrete i j)
        as (λ d.
          prepared (ite d p (f j)) ≡ some (nd, x)
          → prepared (update f i p k) ≡ some (nd, y)
          → j ≡ k) [
            | yes e ↦
                elim (ℕ_discrete i k)
                  as (λ d.
                    prepared p ≡ some (nd, x) → prepared (ite d p (f k)) ≡ some (nd, y) → j ≡ k) [
                      | yes e' ↦ λ u v. sym e ∙ e'
                      | no ne ↦ λ u v. absurd (fresh k nd x y ne u v)
                    ]
            | no ne ↦
                elim (ℕ_discrete i k)
                  as (λ d.
                    prepared (f j) ≡ some (nd, x)
                    → prepared (ite d p (f k)) ≡ some (nd, y)
                    → j ≡ k) [
                      | yes e' ↦ λ u v. absurd (fresh j nd y x ne v u)
                      | no ne' ↦ λ u v. own j k nd x y u v
                    ]
          ]

  pub AllWait-update :
      (q : Queue) (f : ℕ → Place A) (i : ℕ) (p : Place A)
      → WaitsRightly q p
      → AllWait q f
      → AllWait q (update f i p)
  AllWait-update q f i p new old j = update-elim (WaitsRightly q) f i p j new (λ _. old j)
