-- ===== src/Mp4/Queue.antt =====
-- MP4/queue.c and MP4/queue.h: a bounded queue of pointers as a linked list on the heap, shared by
-- threads under a mutex and one condition variable. The functions are split where the source
-- waits: what stands before the lock, the test of the waiting loop, and the rest of the critical
-- section, which also says whether it broadcasts. An item (`void *`) is a value of any type.
pub mod Cells
pub mod Refine
pub mod Threads
pub mod Invariant
pub mod Steps
pub mod Safety
use cs423_2017sp.Prelude.{ℕ, ◌+◌, ◌-◌, Bool, ◌&&◌, Option, none, some, ◌==◌, if◌then◌else◌}
use cs423_2017sp.Prelude.Int.{ℤ, pos, ltb_ℤ, eqb_ℤ, ◌-ℤ◌}
use cs423_2017sp.Prelude.Memory.{Ptr, null, Heap, write, load}

infixl 5 ◌>>=◌
abbrev ◌>>=◌ : {A B : Type 0} → Option A → (A → Option B) → Option B
none >>= f = none
some a >>= f = f a

-- `queue_node_t`; its field `data` is `item` here.
pub record QueueNode (A : Type 0) : Type 0 where
  pub next : Ptr
  pub item : A

abbrev pub node : {A : Type 0} → A → Ptr → QueueNode A
node x p = record { next = p; item = x }

-- `queue_t`, less its mutex and condition variable. `size` counts nodes on the heap, so it stays
-- far below the range of `int`.
pub record Queue : Type 0 where
  pub head : Ptr
  pub tail : Ptr
  pub size : ℕ
  pub max_size : ℤ

-- What a critical section leaves: the heap, the queue, and whether it broadcast on `cv`.
pub record Left (A : Type 0) : Type 0 where
  pub heap : Heap (QueueNode A)
  pub queue : Queue
  pub broadcast : Bool

unfoldable pub queue_create : ℤ → Queue
queue_create max_size = record { head = null; tail = null; size = 0; max_size = max_size }

-- `queue_push` waits while this holds.
unfoldable pub is_full : Queue → Bool
is_full q = ltb_ℤ (pos 0) q.max_size && eqb_ℤ (pos q.size) q.max_size

-- `queue_pull` waits while this holds.
unfoldable pub is_empty : Queue → Bool
is_empty q = q.size == 0

module _ {A : Type 0} where
  -- The node that `queue_push` prepares before it takes the lock; `nd` is what `malloc` returned.
  unfoldable pub prepare : Ptr → A → Heap (QueueNode A) → Option (Heap (QueueNode A))
  prepare nd x h = if nd == null then none else some (write h nd (some (node x null)))

  -- `queue_push` behind its waiting loop.
  unfoldable pub push_locked : Ptr → Heap (QueueNode A) → Queue → Option (Left A)
  push_locked nd h q =
      if q.tail == null
      then some (record {
        heap = h;
        queue = record q { size = q.size + 1; head = nd; tail = nd };
        broadcast = (q.size + 1) == 1;
      })
      else do
        last ← load h q.tail
        some (record {
          heap = write h q.tail (some (record last { next = nd }));
          queue = record q { size = q.size + 1; tail = nd };
          broadcast = (q.size + 1) == 1;
        })

  -- `queue_pull` behind its waiting loop.
  unfoldable pub pull_locked : Heap (QueueNode A) → Queue → Option (A × Left A)
  pull_locked h q = do
    front ← load h q.head
    let size = q.size - 1
    some (
      front.item,
      record {
        heap = write h q.head none;
        queue = record q {
          size = size;
          tail = if size == 0 then null else q.tail;
          head = front.next;
        };
        broadcast = ltb_ℤ (pos 0) q.max_size && eqb_ℤ (pos size) (q.max_size -ℤ pos 1);
      },
    )

  -- The loop of `queue_destroy`, with fuel; `none` is a fault or the end of the fuel.
  destroy_loop : ℕ → Ptr → Heap (QueueNode A) → Option (Heap (QueueNode A))
  destroy_loop ℕ.zero curr h = none
  destroy_loop (ℕ.suc fuel) curr h =
      if curr == null
      then some h
      else do nd ← load h curr; destroy_loop fuel nd.next (write h curr none)

  -- `queue_destroy`: the heap that it leaves. The loop runs once for each node and once more.
  unfoldable pub queue_destroy : Heap (QueueNode A) → Queue → Option (Heap (QueueNode A))
  unfolding destroy_loop
  queue_destroy h q = destroy_loop (q.size + 1) q.head h
