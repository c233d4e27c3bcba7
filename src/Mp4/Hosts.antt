-- ===== src/Mp4/Hosts.antt =====
-- The load balancer of MP4: what MP4/client.c and MP4/server.c share by MP4/utils.c. A queue of
-- jobs is the list that MP4/queue.c implements; its `(void *) -1` is the integer -1, `negsuc 0`.
-- The array is its slices of `JOB_SIZE` entries, one for each job, of any type. Each side sends its
-- messages under `transfer_mutex`, so that they arrive whole and in order.
pub mod Client
pub mod Server
pub mod System
pub mod View
pub mod Moves
pub mod Quiet
pub mod Steps
pub mod Results
pub mod Balance
pub mod Slices
pub mod Accept
mod Tests
use cs423_2017sp.Prelude.{
  ℕ, zero, suc, ◌+◌, ◌-◌, ◌/◌, Bool, not, ◌&&◌, Option, none, some, List, [], ◌∷◌, ◌++◌, ◌==◌, ltb,
  leb, length, if◌then◌else◌,
}
use cs423_2017sp.Prelude.Int.{ℤ, pos, negsuc, ◌-ℤ◌, ltb_ℤ, eqb_ℤ, wrap32}
use cs423_2017sp.Mp4.Jobs.{job_num}

-- `job` is a message of `transfer` with its slice, `stop` one for the job -1, which has none. Of
-- the state only the number of jobs is ever used.
pub data Message (A : Type 0) : Type 0 where
  job : ℕ → A → Message A
  stop : Message A
  state : ℤ → Message A
  rebalance : Message A

-- Where a thread stands: at the test of its loop, at `queue_pull` or at the next message, in the
-- loop of `adaptor` with that many jobs to transfer, at work on a job, waiting for a slice that
-- does not come, or at its end.
pub data Phase : Type 0 where
  checking : Phase
  waiting : Phase
  moving : ℕ → Phase
  computing : ℕ → Phase
  lost : Phase
  ended : Phase

-- The variables of one process, and the phases of the thread that computes, of that which sends
-- `job_tosend`, and of that which receives.
pub record Host (A : Type 0) : Type 0 where
  pub job_todo : List ℤ
  pub job_tosend : List ℤ
  pub job_array : ℕ → A
  pub peer_num_jobs : ℤ
  pub rebalance_requested : Bool
  pub job_sent : ℕ
  pub worker : Phase
  pub sender : Phase
  pub receiver : Phase

-- What a step of a thread leaves: the process and the messages that it sends.
abbrev pub Sends : Type 0 → Type 0 → Type 0
Sends P A = P × List (Message A)

-- `queue_push`; `none` waits at a full queue.
abbrev pub push : ℤ → List ℤ → Option (List ℤ)
push i q = if ltb (length q) job_num then some (q ++ i ∷ []) else none

-- The slice at the pointer of `create_message`.
abbrev pub slice : ℕ → ℕ
slice id = if ltb job_num id then id - job_num else id

-- Whether `adaptor` asks for jobs, with `transfer_policy` at 1.
unfoldable pub asks : ℕ → ℤ → Bool
asks size peer = ltb_ℤ (wrap32 (pos size -ℤ peer)) (pos 5)

abbrev half : ℤ → ℕ
half (pos n) = n / 2
half (negsuc _) = 0

-- How many jobs `adaptor` transfers, with `transfer_policy` at 1.
unfoldable pub to_transfer : ℕ → ℤ → Bool → ℕ
to_transfer size peer requested =
    if ltb_ℤ (pos 5) (wrap32 (pos size -ℤ peer)) && not (eqb_ℤ peer (negsuc 0)) && requested
    then half (wrap32 (pos size -ℤ peer))
    else 0

abbrev pub move_on : Phase → ℕ → Phase
move_on next zero = next
move_on next (suc n) = moving (suc n)

module _ {A : Type 0} where
  abbrev pub set_slice : (ℕ → A) → ℕ → A → ℕ → A
  set_slice a k b j = if j == k then b else a j

  -- `transfer`, less its calls; `none` reads behind the array.
  unfoldable pub transfer : ℤ → (ℕ → A) → Option (Message A)
  transfer (negsuc _) a = some stop
  transfer (pos id) a = if ltb (slice id) job_num then some (job id (a (slice id))) else none

  -- `state_manager`, once.
  unfoldable pub send_state : Host A → Message A
  send_state h = state (pos (length h.job_todo))

  -- `adaptor` before its loop; its receiver goes on with `next` when the loop is over.
  unfoldable pub adaptor : Phase → Host A → Sends (Host A) A
  unfolding asks to_transfer
  adaptor next h = (
    record h {
      receiver =
          move_on next (to_transfer (length h.job_todo) h.peer_num_jobs h.rebalance_requested);
    },
    if asks (length h.job_todo) h.peer_num_jobs then rebalance ∷ [] else [],
  )

  unfoldable pub state_handle : Phase → ℤ → Host A → Sends (Host A) A
  unfolding adaptor
  state_handle next n h =
      if eqb_ℤ h.peer_num_jobs (negsuc 0) && eqb_ℤ n (pos 0)
      then (record h { receiver = next }, [])
      else adaptor next (record h { peer_num_jobs = n })

  -- One round of the loop of `adaptor` with `n + 1` jobs to transfer, on the queue; `none` waits at
  -- an empty queue or reads behind the array.
  unfoldable pub move_job : Phase → ℕ → List ℤ → Host A → Option (Sends (Host A) A)
  move_job next n [] h = none
  move_job next n (negsuc _ ∷ rest) h = some (record h { job_todo = rest; receiver = next }, [])
  move_job next n (pos j ∷ rest) h = elim (transfer (pos (job_num + j)) h.job_array) [
    | none ↦ none
    | some m ↦
        some (
          record h { job_todo = rest; job_sent = h.job_sent + 1; receiver = move_on next n },
          m ∷ [],
        )
  ]
