-- ===== src/Mp4/Queue/Steps.antt =====
-- Every step of the threads on the queue of MP4/queue.c keeps the invariant.
use Prim.Native.Nat.{ℕ}
use mathlib.Core.Path.{subst}
use cs423_2017sp.Prelude.{
  ◌≡◌, ◌≢◌, ◌∙◌, sym, ap, Bool, true, false, Option, none, some, [], ◌∷◌, ◌++◌, arith, append_assoc,
  length-append, ◌+◌, ◌≤◌,
}
use cs423_2017sp.Prelude.Int.{ℤ}
use cs423_2017sp.Prelude.Memory.{Ptr, null, Heap, write, write-ne}
use cs423_2017sp.Mp4.Queue.{QueueNode, node, Queue, Left, is_full, is_empty, prepare, pull_locked}
use cs423_2017sp.Mp4.Queue.Cells.{
  Cells, has, items, items-append, Linked-write, not-has_of_none, has-append,
}
use cs423_2017sp.Mp4.Queue.Refine.{Pushed, Pulled, push_locked-Pushed, pull_locked-Pulled}
use cs423_2017sp.Mp4.Queue.Threads.{
  Place, away, push_ready, push_waits, pull_ready, pull_waits, awake, wake, update, System, leave,
  Step, call_push, call_pull, push_blocks, push_goes, pull_blocks, pull_goes, spurious,
}
use cs423_2017sp.Mp4.Queue.Invariant.{
  prepared, WaitsRightly, Fits, Owned, AllOwned, Own, Inv, prepared-wake, WaitsRightly-awake,
  AllOwned-update, Own-update, AllWait-update,
}

Fits-push :
    (q q' : Queue)
    → is_full q ≡ false
    → q'.max_size ≡ q.max_size
    → q'.size ≡ q.size + 1
    → Fits q
    → Fits q'
unfolding is_full
Fits-push q q' room same more fits limited = ground (arith, fits (ground arith))

Fits-pull : (q q' : Queue) → q'.max_size ≡ q.max_size → q'.size ≤ q.size → Fits q → Fits q'
Fits-pull q q' same less fits limited = ground (arith, fits (ground arith))

module _ {A : Type 0} where
  abbrev OwnedIf : Heap (QueueNode A) → Cells A → Option (Ptr × A) → Type 0
  OwnedIf h cs none = Unit
  OwnedIf h cs (some (nd, x)) = Owned h cs nd x

  -- `prepare` writes the new node at the address that it was given.
  prepare-write :
      (nd : Ptr) (x : A) (h : Heap (QueueNode A)) {g : Heap (QueueNode A)}
      → prepare nd x h ≡ some g
      → (nd ≢ null) × (g ≡ write h nd (some (node x null)))
  unfolding prepare
  prepare-write nd x h e = (λ z. ground arith, ground arith)

  -- Behind a push nobody waits: a broadcast has woken all, or nobody waited before it.
  push-AllWait :
      (q q' : Queue) (b : Bool) (p : Place A)
      → b ≡ is_empty q
      → is_full q ≡ false
      → WaitsRightly q p
      → WaitsRightly q' (wake b p)
  push-AllWait q q' true p e full w = WaitsRightly-awake q' p
  push-AllWait q q' false away e full w = tt
  push-AllWait q q' false (push_ready nd x) e full w = tt
  push-AllWait q q' false (push_waits nd x) e full w = cc
  push-AllWait q q' false pull_ready e full w = tt
  push-AllWait q q' false pull_waits e full w = cc

  pull-AllWait :
      (q q' : Queue) (b : Bool) (p : Place A)
      → b ≡ is_full q
      → is_empty q ≡ false
      → WaitsRightly q p
      → WaitsRightly q' (wake b p)
  pull-AllWait q q' true p e full w = WaitsRightly-awake q' p
  pull-AllWait q q' false away e full w = tt
  pull-AllWait q q' false (push_ready nd x) e full w = tt
  pull-AllWait q q' false (push_waits nd x) e full w = cc
  pull-AllWait q q' false pull_ready e full w = tt
  pull-AllWait q q' false pull_waits e full w = cc

  Own-wake : (b : Bool) (f : ℕ → Place A) → Own f → Own (λ j. wake b (f j))
  Own-wake b f own i j nd x y u v =
      own i j nd x y (sym (prepared-wake b (f i)) ∙ u) (sym (prepared-wake b (f j)) ∙ v)

  AllOwned-wake :
      (b : Bool) (h : Heap (QueueNode A)) (cs : Cells A) (f : ℕ → Place A)
      → AllOwned h cs f
      → AllOwned h cs (λ j. wake b (f j))
  AllOwned-wake b h cs f owned i nd x u = owned i nd x (sym (prepared-wake b (f i)) ∙ u)

  module _ {limit : ℤ} {s : System A} {cs : Cells A} (inv : Inv limit s cs) (i : ℕ) where
    -- A step that moves thread `i` and leaves its node, the heap and the queue alone.
    moves-Inv :
        (p : Place A)
        → prepared p ≡ prepared (s.place i)
        → WaitsRightly s.queue p
        → Inv limit (record s { place = update s.place i p }) cs
    moves-Inv p e w = record {
      shape = inv.shape;
      limited = inv.limited;
      fits = inv.fits;
      fifo = inv.fifo;
      owned =
          AllOwned-update s.heap cs s.place i p (λ nd x u. inv.owned i nd x (sym e ∙ u))
            λ j _. inv.owned j;
      own = Own-update s.place i p inv.own λ j nd x y ne u v. ne (inv.own i j nd x y (sym e ∙ u) v);
      waits = AllWait-update s.queue s.place i p w inv.waits;
    }

    call_push-Inv :
        (nd : Ptr) (x : A)
        → s.heap nd ≡ none
        → nd ≢ null
        → Inv limit
            (record s {
              heap = write s.heap nd (some (node x null));
              place = update s.place i (push_ready nd x);
            })
            cs
    call_push-Inv nd x free ok = record {
      shape = record {
        head = inv.shape.head;
        tail = inv.shape.tail;
        size = inv.shape.size;
        linked = Linked-write s.heap nd (some (node x null)) cs unused inv.shape.linked;
      };
      limited = inv.limited;
      fits = inv.fits;
      fifo = inv.fifo;
      owned =
          AllOwned-update _ cs s.place i (push_ready nd x)
            (λ nd' y u.
              subst (OwnedIf _ cs) u
                (record { ne_null = ok; holds = ground arith; apart = unused }))
            λ j ne nd' y u.
              let o = inv.owned j nd' y u in
              record {
                ne_null = o.ne_null;
                holds = write-ne s.heap _ (other j nd' y u) ∙ o.holds;
                apart = o.apart;
              };
      own = Own-update s.place i (push_ready nd x) inv.own λ j nd' y z ne u v. other j nd' z v (cc);
      waits = AllWait-update s.queue s.place i (push_ready nd x) tt inv.waits;
    }
      where
        unused : has nd cs ≡ false
        unused = not-has_of_none s.heap nd cs inv.shape.linked free

        other : (j : ℕ) (nd' : Ptr) (y : A) → prepared (s.place j) ≡ some (nd', y) → nd' ≢ nd
        other j nd' y u e = ground (arith, (inv.owned j nd' y u).holds)

    push-Inv :
        (nd : Ptr) (x : A) (l : Left A)
        → s.place i ≡ push_ready nd x
        → is_full s.queue ≡ false
        → Pushed s.heap s.queue cs nd x l
        → Inv limit (record (leave s i l) { pushed = s.pushed ++ x ∷ [] }) (cs ++ (nd, x) ∷ [])
    push-Inv nd x l at room done = record {
      shape = done.shape;
      limited = done.limit ∙ inv.limited;
      fits =
          Fits-push s.queue l.queue room done.limit
            (omega (arith, inv.shape.size, done.shape.size, length-append cs ((nd, x) ∷ [])))
            inv.fits;
      fifo =
          ap (λ t. t ++ x ∷ []) inv.fifo
          ∙ append_assoc s.pulled (items cs) (x ∷ [])
          ∙ ap (λ t. s.pulled ++ t) (sym (items-append cs ((nd, x) ∷ [])));
      owned = AllOwned-wake l.broadcast l.heap (cs ++ (nd, x) ∷ []) _ (
          AllOwned-update l.heap (cs ++ (nd, x) ∷ []) s.place i away (λ nd' y u. cc)
            λ j ne nd' y u.
              let o = inv.owned j nd' y u in
              record {
                ne_null = o.ne_null;
                holds = done.same nd' o.apart ∙ o.holds;
                apart =
                    has-append cs nd' nd x o.apart
                      λ e. ne (inv.own i j nd x y (ap prepared at) (ground arith));
              });
      own = Own-wake l.broadcast _ (Own-update s.place i away inv.own (λ j nd' y z ne u v. cc));
      waits = λ j.
          push-AllWait s.queue l.queue l.broadcast (update s.place i away j) done.wakes room
            (AllWait-update s.queue s.place i away tt inv.waits j);
    }

  module _ {limit : ℤ} {s : System A} (i : ℕ) where
    pull-Inv :
        (a : Ptr) (x : A) (cs : Cells A) (l : Left A)
        → Inv limit s ((a, x) ∷ cs)
        → is_empty s.queue ≡ false
        → Pulled s.heap s.queue a cs l
        → Inv limit (record (leave s i l) { pulled = s.pulled ++ x ∷ [] }) cs
    pull-Inv a x cs l inv some_item done = record {
      shape = done.shape;
      limited = done.limit ∙ inv.limited;
      fits =
          Fits-pull s.queue l.queue done.limit (omega (arith, inv.shape.size, done.shape.size))
            inv.fits;
      fifo = inv.fifo ∙ sym (append_assoc s.pulled (x ∷ []) (items cs));
      owned = AllOwned-wake l.broadcast l.heap cs _ (
          AllOwned-update l.heap cs s.place i away (λ nd y u. cc)
            λ j ne nd y u.
              let o = inv.owned j nd y u in
              record {
                ne_null = o.ne_null;
                holds = done.same nd (ground (arith, o.apart)) ∙ o.holds;
                apart = ground (arith, o.apart);
              });
      own = Own-wake l.broadcast _ (Own-update s.place i away inv.own (λ j nd y z ne u v. cc));
      waits = λ j.
          pull-AllWait s.queue l.queue l.broadcast (update s.place i away j) done.wakes some_item
            (AllWait-update s.queue s.place i away tt inv.waits j);
    }

    pull_goes-Inv :
        (x : A) (cs : Cells A) {l : Left A}
        → Inv limit s cs
        → is_empty s.queue ≡ false
        → pull_locked s.heap s.queue ≡ some (x, l)
        → (ds : Cells A) × Inv limit (record (leave s i l) { pulled = s.pulled ++ x ∷ [] }) ds
    unfolding is_empty
    pull_goes-Inv x [] inv some_item run = absurd (ground (arith, inv.shape.size))
    pull_goes-Inv x ((a, y) ∷ cs) {l} inv some_item run =
        let (l', run', done) = pull_locked-Pulled a y cs inv.shape in
        let same : (x ≡ y) × (l' ≡ l) = ground arith in
        (
          cs,
          subst (λ z. Inv limit (record (leave s i l) { pulled = s.pulled ++ z ∷ [] }) cs)
              (sym same.0)
              (pull-Inv a y cs l inv some_item (subst (Pulled s.heap s.queue a cs) same.1 done)),
        )

  -- The invariant outlives every step, for the cells that the queue then stands for.
  pub Step-Inv :
      {limit : ℤ} {s t : System A} (cs : Cells A)
      → Step s t
      → Inv limit s cs
      → (ds : Cells A) × Inv limit t ds
  Step-Inv {limit} {s} cs (call_push i nd x at free made) inv =
      let (ok, e) = prepare-write nd x s.heap made in
      (
        cs,
        subst
            (λ h. Inv limit (record s { heap = h; place = update s.place i (push_ready nd x) }) cs)
            (sym e) (call_push-Inv inv i nd x free ok),
      )
  Step-Inv cs (call_pull i at) inv = (cs, moves-Inv inv i pull_ready (ap prepared (sym at)) tt)
  Step-Inv cs (push_blocks i nd x at full) inv =
      (cs, moves-Inv inv i (push_waits nd x) (ap prepared (sym at)) full)
  Step-Inv {s} cs (push_goes i nd x {l} at room run) inv =
      let o = inv.owned i nd x (ap prepared at) in
      let (l', run', done) = push_locked-Pushed cs nd x inv.shape o.ne_null o.apart o.holds in
      let same : l' ≡ l = cc in
      (
        cs ++ (nd, x) ∷ [],
        push-Inv inv i nd x l at room (subst (Pushed s.heap s.queue cs nd x) same done),
      )
  Step-Inv cs (pull_blocks i at empty) inv =
      (cs, moves-Inv inv i pull_waits (ap prepared (sym at)) empty)
  Step-Inv cs (pull_goes i x at some_item run) inv = pull_goes-Inv i x cs inv some_item run
  Step-Inv {s} cs (spurious i) inv = (
    cs,
    moves-Inv inv i (awake (s.place i)) (prepared-wake true (s.place i))
        (WaitsRightly-awake s.queue (s.place i)),
  )
