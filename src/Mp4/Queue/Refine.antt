-- ===== src/Mp4/Queue/Refine.antt =====
-- MP4/queue.c against lists: each critical section, on a queue that stands for a list of cells.
use mathlib.Core.Path.{subst}
use cs423_2017sp.Prelude.{
  ℕ, zero, suc, ◌+◌, ◌-◌, ◌<◌, ◌≡◌, ◌≢◌, ◌∙◌, refl, sym, ap, ◌&&◌, false, none, some, [], ◌∷◌, ◌++◌,
  arith, length, length-append, ◌==◌, if◌then◌else◌,
}
use cs423_2017sp.Prelude.Int.{ℤ, pos, negsuc, ltb_ℤ, eqb_ℤ, ◌-ℤ◌}
use cs423_2017sp.Prelude.Memory.{Ptr, null, Heap, write, write-ne, load-some, not-null}
use cs423_2017sp.Mp4.Queue.{
  QueueNode, node, Queue, Left, is_full, is_empty, push_locked, pull_locked, destroy_loop,
  queue_destroy,
}
use cs423_2017sp.Mp4.Queue.Cells.{
  Cells, first, last, has, Linked, Linked-write, last-append, last-ne-null, last-load,
  Linked-append, has-last,
}

-- After a pull the size is one below the limit exactly if it was the limit before.
broadcast-pull :
    (size : ℕ) (limit : ℤ)
    → 0 < size
    → (ltb_ℤ (pos 0) limit && eqb_ℤ (pos (size - 1)) (limit -ℤ pos 1))
      ≡ (ltb_ℤ (pos 0) limit && eqb_ℤ (pos size) limit)
unfolding ◌-ℤ◌
broadcast-pull size (pos zero) h = refl
broadcast-pull size (pos (suc n)) h = ground arith
broadcast-pull size (negsuc n) h = ground arith

module _ {A : Type 0} where
  -- The queue stands for the cells `cs`, from the next one that is pulled on.
  pub record IsQueue (h : Heap (QueueNode A)) (q : Queue) (cs : Cells A) : Type 0 where
    pub head : q.head ≡ first cs
    pub tail : q.tail ≡ last cs
    pub size : q.size ≡ length cs
    pub linked : Linked h cs

  -- What `queue_push` leaves: the new cell stands last.
  pub record Pushed (h : Heap (QueueNode A)) (q : Queue) (cs : Cells A) (nd : Ptr) (x : A)
      (l : Left A) : Type 0 where
    pub shape : IsQueue l.heap l.queue (cs ++ (nd, x) ∷ [])
    pub same : (a : Ptr) → has a cs ≡ false → l.heap a ≡ h a
    pub limit : l.queue.max_size ≡ q.max_size
    pub wakes : l.broadcast ≡ is_empty q

  -- On a queue that stands for `cs`, with a prepared node that is no cell of it, the critical
  -- section of `queue_push` runs without a fault, appends the node, changes no other node, keeps
  -- the limit, and broadcasts exactly if the queue was empty.
  pub push_locked-Pushed :
      {h : Heap (QueueNode A)} {q : Queue} (cs : Cells A) (nd : Ptr) (x : A)
      → IsQueue h q cs
      → nd ≢ null
      → has nd cs ≡ false
      → h nd ≡ some (node x null)
      → (l : Left A) × (push_locked nd h q ≡ some l) × Pushed h q cs nd x l
  unfolding push_locked is_empty
  push_locked-Pushed {h} {q} [] nd x is ok out new = (
    record {
      heap = h;
      queue = record q { size = q.size + 1; head = nd; tail = nd };
      broadcast = (q.size + 1) == 1;
    },
    rw is.tail,
    record {
      shape = record {
        head = refl;
        tail = refl;
        size = omega (arith, is.size);
        linked = (ok, new, refl, tt);
      };
      same = λ a _. refl;
      limit = refl;
      wakes = ground (arith, is.size);
    },
  )
  push_locked-Pushed {h} {q} (c ∷ cs) nd x is ok out new =
      let (y, old) = last-load h c cs is.linked in
      let some_tail : q.tail ≢ null = λ e. last-ne-null h c cs is.linked (sym is.tail ∙ e) in
      (
        record {
          heap = write h q.tail (some (node y nd));
          queue = record q { size = q.size + 1; tail = nd };
          broadcast = (q.size + 1) == 1;
        },
        rw (load-some h q.tail some_tail (ap h is.tail ∙ old), not-null some_tail),
        record {
          shape = record {
            head = is.head;
            tail = sym (last-append (c ∷ cs) nd x);
            size = omega (arith, length-append (c ∷ cs) ((nd, x) ∷ []));
            linked =
                subst (λ p. Linked (write h p (some (node y nd))) ((c ∷ cs) ++ (nd, x) ∷ []))
                  (sym is.tail) (Linked-append h c cs nd x y is.linked ok out new old);
          };
          same = λ a free. write-ne h _ λ e. has-last c cs a free (e ∙ is.tail);
          limit = refl;
          wakes = ground (arith, is.size);
        },
      )

  -- What `queue_pull` leaves: the first cell is gone and its node is freed.
  pub record Pulled (h : Heap (QueueNode A)) (q : Queue) (a : Ptr) (cs : Cells A) (l : Left A)
      : Type 0 where
    pub shape : IsQueue l.heap l.queue cs
    pub freed : l.heap a ≡ none
    pub same : (b : Ptr) → b ≢ a → l.heap b ≡ h b
    pub limit : l.queue.max_size ≡ q.max_size
    pub wakes : l.broadcast ≡ is_full q

  -- The tail that `queue_pull` leaves, which it resets when the last node goes.
  tail-pull :
      (a : Ptr) (x : A) (cs : Cells A) {size : ℕ} {tail : Ptr}
      → size ≡ length ((a, x) ∷ cs)
      → tail ≡ last ((a, x) ∷ cs)
      → (if (size - 1) == 0 then null else tail) ≡ last cs
  tail-pull a x [] e t = ground arith
  tail-pull a x (c ∷ cs) e t = ground arith

  -- On a queue that stands for a first cell and `cs`, the critical section of `queue_pull` runs
  -- without a fault, returns the item of the first cell, leaves a queue that stands for `cs`, frees
  -- the first node and changes no other, keeps the limit, and broadcasts exactly if the queue was
  -- full.
  pub pull_locked-Pulled :
      {h : Heap (QueueNode A)} {q : Queue} (a : Ptr) (x : A) (cs : Cells A)
      → IsQueue h q ((a, x) ∷ cs)
      → (l : Left A) × (pull_locked h q ≡ some (x, l)) × Pulled h q a cs l
  unfolding pull_locked is_full
  pull_locked-Pulled {h} {q} a x cs is = (
    record {
      heap = write h q.head none;
      queue = record q {
        size = q.size - 1;
        tail = if (q.size - 1) == 0 then null else q.tail;
        head = first cs;
      };
      broadcast = ltb_ℤ (pos 0) q.max_size && eqb_ℤ (pos (q.size - 1)) (q.max_size -ℤ pos 1);
    },
    rw (load-some h q.head is_node front),
    record {
      shape = record {
        head = refl;
        tail = tail-pull a x cs is.size is.tail;
        size = omega arith;
        linked = rw is.head (Linked-write h a none cs is.linked.2 is.linked.3);
      };
      freed = ground arith;
      same = λ b ne. ground arith;
      limit = refl;
      wakes = broadcast-pull q.size q.max_size (omega arith);
    },
  )
    where
      is_node : q.head ≢ null
      is_node e = is.linked.0 (sym is.head ∙ e)

      front : h q.head ≡ some (node x (first cs))
      front = ap h is.head ∙ is.linked.1

  -- `queue_destroy` frees every node of the queue, once, and no other; the loop ends.
  destroy_loop-free :
      (fuel : ℕ) (h : Heap (QueueNode A)) (cs : Cells A)
      → Linked h cs
      → length cs < fuel
      → (g : Heap (QueueNode A)) × (destroy_loop fuel (first cs) h ≡ some g)
        × ((a : Ptr) → g a ≡ (if has a cs then none else h a))
  unfolding destroy_loop
  destroy_loop-free zero h cs l lt = absurd (omega arith)
  destroy_loop-free (suc fuel) h [] l lt = (h, refl, λ a. refl)
  destroy_loop-free (suc fuel) h ((a, x) ∷ cs) l lt =
      let (g, run, gone) =
        destroy_loop-free fuel (write h a none) cs (Linked-write h a none cs l.2 l.3)
          (omega arith) in
      (g, ground arith, λ b. ground (arith, gone b))

  -- On a queue that stands for `cs`, `queue_destroy` runs without a fault and to its end; it frees
  -- every node of the queue and changes no other.
  pub queue_destroy-free :
      {h : Heap (QueueNode A)} {q : Queue} (cs : Cells A)
      → IsQueue h q cs
      → (g : Heap (QueueNode A)) × (queue_destroy h q ≡ some g)
        × ((a : Ptr) → g a ≡ (if has a cs then none else h a))
  unfolding queue_destroy
  queue_destroy-free {h} {q} cs is =
      rw is.head (destroy_loop-free (q.size + 1) h cs is.linked (omega arith))
