-- ===== src/Mp4/Tests.antt =====
-- Tests of the models of MP4/queue.c and MP4/utils.c, and their theorems at concrete inputs.
use cs423_2017sp.Prelude.{◌/◌}
use cs423_2017sp.Mp4.Wire.{send_single_value}
use cs423_2017sp.Mp4.Throttle.{
  Timeval, elapsed, timespec, compute_with_throttle, Slept, microseconds,
  compute_with_throttle-Slept,
}
use cs423_2017sp.Prelude.{
  ℕ, ◌≡◌, ◌⊎◌, refl, true, false, none, some, List, [], ◌∷◌, ◌++◌, arith, length, if◌then◌else◌,
}
use cs423_2017sp.Prelude.Int.{ℤ, pos, negsuc, ◌≤ℤ◌, ◌+ℤ◌, ◌-ℤ◌, ◌*ℤ◌}
use cs423_2017sp.Prelude.Memory.{Ptr, null, Heap, write}
use cs423_2017sp.Mp4.Queue.{
  QueueNode, node, Queue, Left, queue_create, is_full, push_locked, pull_locked, queue_destroy,
  prepare,
}
use cs423_2017sp.Mp4.Queue.Cells.{Cells, items, has}
use cs423_2017sp.Mp4.Queue.Refine.{
  IsQueue, Pushed, Pulled, push_locked-Pushed, pull_locked-Pulled, queue_destroy-free,
}
use cs423_2017sp.Mp4.Queue.Threads.{
  System, push_ready, away, update, leave, Reach, start, later, init, call_push, push_goes,
}
use cs423_2017sp.Mp4.Queue.Invariant.{WaitsRightly}
use cs423_2017sp.Mp4.Queue.Safety.{Runs, Reach-fifo, no_lost_wakeup, no_fault}
use cs423_2017sp.Mp4.Socket.{
  Answer, interrupted, moves, Received, Sent, read_all_from_socket, write_all_to_socket,
}
use cs423_2017sp.Mp4.Socket.Read.{read_all_complete}

abbrev no_nodes : Heap (QueueNode ℕ)
no_nodes _ = none

-- Node 8 with item 5 stands in the queue, node 9 with item 6 is prepared.
abbrev nodes : Heap (QueueNode ℕ)
nodes = write (write no_nodes 8 (some (node 5 null))) 9 (some (node 6 null))

abbrev one_item : Queue
one_item = record { head = 8; tail = 8; size = 1; max_size = pos 2 }

one_item-IsQueue : IsQueue nodes one_item ((8, 5) ∷ [])
one_item-IsQueue = record {
  head = refl;
  tail = refl;
  size = refl;
  linked = ((λ e. omega arith), refl, refl, tt);
}

push_locked-Pushed_example :
    (l : Left ℕ) × (push_locked 9 nodes one_item ≡ some l)
    × Pushed nodes one_item ((8, 5) ∷ []) 9 6 l
push_locked-Pushed_example =
    push_locked-Pushed ((8, 5) ∷ []) 9 6 one_item-IsQueue (λ e. omega arith) refl refl

pull_locked-Pulled_example :
    (l : Left ℕ) × (pull_locked nodes one_item ≡ some (5, l)) × Pulled nodes one_item 8 [] l
pull_locked-Pulled_example = pull_locked-Pulled 8 5 [] one_item-IsQueue

queue_destroy-free_example :
    (g : Heap (QueueNode ℕ)) × (queue_destroy nodes one_item ≡ some g)
    × ((a : Ptr) → g a ≡ (if has {A = ℕ} a ((8, 5) ∷ []) then none else nodes a))
queue_destroy-free_example = queue_destroy-free ((8, 5) ∷ []) one_item-IsQueue

full_test : is_full (record one_item { size = 2 }) ≡ true
unfolding is_full
full_test = refl

no_limit_test : is_full (record one_item { max_size = negsuc 0 }) ≡ false
unfolding is_full
no_limit_test = refl

-- Thread 0 has called `queue_push` with item 5.
abbrev ready_heap : Heap (QueueNode ℕ)
ready_heap = write no_nodes 8 (some (node 5 null))

abbrev ready_state : System ℕ
ready_state = record (init (pos 2) no_nodes) {
  heap = ready_heap;
  place = update (λ _. away) 0 (push_ready 8 5);
}

Reach-ready_state : Reach (pos 2) no_nodes ready_state
unfolding prepare
Reach-ready_state = later start (call_push 0 8 5 refl refl refl)

-- It has pushed it.
abbrev pushed_left : Left ℕ
pushed_left = record {
  heap = ready_heap;
  queue = record { head = 8; tail = 8; size = 1; max_size = pos 2 };
  broadcast = true;
}

abbrev pushed_state : System ℕ
pushed_state = record (leave ready_state 0 pushed_left) { pushed = 5 ∷ [] }

Reach-pushed_state : Reach (pos 2) no_nodes pushed_state
unfolding push_locked queue_create is_full native.Mathlib.Decide.ℕ_discrete
Reach-pushed_state = later Reach-ready_state (push_goes 0 8 5 {l = pushed_left} refl refl refl)

Reach-fifo_example :
    (cs : Cells ℕ) × IsQueue pushed_state.heap pushed_state.queue cs
    × (pushed_state.pushed ≡ pushed_state.pulled ++ items cs)
    × ((pos 2 ≤ℤ pos 0) ⊎ (pos pushed_state.queue.size ≤ℤ pos 2))
Reach-fifo_example = Reach-fifo Reach-pushed_state

no_lost_wakeup_example : WaitsRightly pushed_state.queue (pushed_state.place 0)
no_lost_wakeup_example = no_lost_wakeup Reach-pushed_state 0

no_fault_example : Runs ready_state (ready_state.place 0)
no_fault_example = no_fault Reach-ready_state 0

abbrev answers : List Answer
answers = interrupted ∷ moves 0 ∷ interrupted ∷ moves 1 ∷ moves 5 ∷ []

abbrev received : Received
received = record { result = pos 3; buffer = 10 ∷ 20 ∷ 30 ∷ []; rest = 40 ∷ [] }

reads : read_all_from_socket answers 3 (10 ∷ 20 ∷ 30 ∷ 40 ∷ []) ≡ some received
unfolding read_all_from_socket
reads = refl

read_all_complete_example :
    (r : Received) × (read_all_from_socket answers 3 (10 ∷ 20 ∷ 30 ∷ 40 ∷ []) ≡ some r)
    × (r.result ≡ pos 3)
    × (r.buffer ++ r.rest ≡ 10 ∷ 20 ∷ 30 ∷ 40 ∷ [])
    × (length r.buffer ≡ 3)
read_all_complete_example =
    read_all_complete answers 3 (10 ∷ 20 ∷ 30 ∷ 40 ∷ []) tt (omega arith) (omega arith)
      (omega arith)

abbrev sent : Sent
sent = record { result = pos 3; sent = 10 ∷ 20 ∷ 30 ∷ [] }

writes : write_all_to_socket (moves 2 ∷ interrupted ∷ moves 1 ∷ []) (10 ∷ 20 ∷ 30 ∷ []) ≡ some sent
unfolding write_all_to_socket
writes = refl

-- -1, the type of a message with the state of a host.
abbrev minus_one : Sent
minus_one = record { result = pos 4; sent = 255 ∷ 255 ∷ 255 ∷ 255 ∷ [] }

sends : send_single_value (moves 4 ∷ []) (negsuc 0) ≡ some minus_one
unfolding send_single_value write_all_to_socket
sends = refl

gets :
    read_all_from_socket (moves 1 ∷ moves 5 ∷ []) 4 (255 ∷ 255 ∷ 255 ∷ 255 ∷ 9 ∷ [])
    ≡ some (record { result = pos 4; buffer = 255 ∷ 255 ∷ 255 ∷ 255 ∷ []; rest = 9 ∷ [] })
unfolding read_all_from_socket
gets = refl

abbrev zeros : ℕ → ℕ
zeros _ = 0

-- The first clock shows 1.9 seconds, the second 4.1.
abbrev clock : Timeval
clock = record { tv_sec = 1; tv_usec = 900000 }

abbrev later_clock : Timeval
later_clock = record { tv_sec = 4; tv_usec = 100000 }

-- With a throttle of 1/2, 1.1 seconds are slept.
abbrev halved : ℤ → ℤ
halved (pos n) = pos (n / 2)
halved (negsuc n) = negsuc (n / 2)

throttle_test : compute_with_throttle halved clock later_clock ≡ (pos 1, pos 100000000)
unfolding compute_with_throttle timespec elapsed ◌*ℤ◌ ◌+ℤ◌ ◌-ℤ◌
throttle_test = refl

compute_with_throttle-Slept_example :
    (elapsed clock later_clock +ℤ pos (microseconds clock) ≡ pos (microseconds later_clock))
    × Slept (halved (elapsed clock later_clock)) (compute_with_throttle halved clock later_clock)
compute_with_throttle-Slept_example = compute_with_throttle-Slept halved clock later_clock
