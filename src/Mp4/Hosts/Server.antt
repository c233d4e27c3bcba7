-- ===== src/Mp4/Hosts/Server.antt =====
-- The threads of MP4/server.c for its one client, each a function from one point where it waits to
-- the next. `none` means that the thread waits, has ended, or writes out of bounds.
use cs423_2017sp.Prelude.{ℕ, Bool, Option, none, some, List, [], ◌∷◌, ltb, if◌then◌else◌}
use cs423_2017sp.Prelude.Int.{ℤ, pos, negsuc}
use cs423_2017sp.Mp4.Jobs.{job_num}
use cs423_2017sp.Mp4.Hosts.{
  Message, job, stop, state, rebalance, Phase, checking, waiting, moving, computing, lost, ended,
  Host, Sends, push, slice, set_slice, transfer, state_handle,
}

-- `write_to_clients` ends the process after the job -1.
abbrev pub after_send : ℤ → Phase
after_send (pos _) = waiting
after_send (negsuc _) = ended

module _ {A : Type 0} where
  -- `run_server` up to the threads of the first client.
  unfoldable pub run_server : (ℕ → A) → Host A
  run_server array = record {
    job_todo = [];
    job_tosend = [];
    job_array = array;
    peer_num_jobs = negsuc 0;
    rebalance_requested = Bool.false;
    job_sent = 0;
    worker = waiting;
    sender = waiting;
    receiver = waiting;
  }

  -- `compute_worker`
  unfoldable pub worker_pull : List ℤ → Host A → Option (Host A)
  worker_pull [] h = none
  worker_pull (negsuc _ ∷ rest) h = some (record h { job_todo = rest; worker = ended })
  worker_pull (pos j ∷ rest) h = some (record h { job_todo = rest; worker = computing j })

  unfoldable pub worker_compute : (A → A) → ℕ → Host A → Option (Host A)
  worker_compute compute j h = elim (push (pos j) h.job_tosend) [
    | none ↦ none
    | some q ↦ some (record h {
      job_array = set_slice h.job_array j (compute (h.job_array j));
      job_tosend = q;
      worker = waiting;
    })
  ]

  unfoldable pub worker_step : (A → A) → Phase → Host A → Option (Host A)
  unfolding worker_pull worker_compute
  worker_step compute waiting h = worker_pull h.job_todo h
  worker_step compute (computing j) h = worker_compute compute j h
  worker_step compute checking h = none
  worker_step compute (moving _) h = none
  worker_step compute lost h = none
  worker_step compute ended h = none

  -- `write_to_clients`
  unfoldable pub send_job : List ℤ → Host A → Option (Sends (Host A) A)
  send_job [] h = none
  send_job (i ∷ rest) h = elim (transfer i h.job_array) [
    | none ↦ none
    | some m ↦ some (record h { job_tosend = rest; sender = after_send i }, m ∷ [])
  ]

  -- `transfer_handler`
  unfoldable pub transfer_handler : ℕ → A → Host A → Option (Host A)
  transfer_handler id b h =
      if ltb (slice id) job_num
      then elim (push (pos (slice id)) h.job_todo) [
        | none ↦ none
        | some q ↦ some (record h { job_array = set_slice h.job_array (slice id) b; job_todo = q })
      ]
      else none

  -- `process_client` on a message.
  unfoldable pub process_message : Message A → Host A → Option (Sends (Host A) A)
  unfolding transfer_handler
  process_message (job id b) h = elim (transfer_handler id b h) [
    | none ↦ none
    | some h' ↦ some (h', [])
  ]
  process_message stop h = elim (push (negsuc 0) h.job_tosend) [
    | none ↦ none
    | some q ↦ some (record h { job_tosend = q }, [])
  ]
  process_message (state n) h = some (state_handle waiting n h)
  process_message rebalance h = some (record h { rebalance_requested = Bool.true }, [])
