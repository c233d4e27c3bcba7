-- ===== src/Mp4/Hosts/Client.antt =====
-- The threads of MP4/client.c, each a function from one point where it waits or takes a lock to the
-- next. `none` means that the thread waits, has ended, or writes out of bounds.
use cs423_2017sp.Prelude.{
  ℕ, suc, ◌+◌, ◌-◌, Bool, Option, none, some, List, [], ◌∷◌, ◌==◌, ltb, if◌then◌else◌,
}
use cs423_2017sp.Prelude.Int.{ℤ, pos, negsuc}
use cs423_2017sp.Mp4.Jobs.{job_num}
use cs423_2017sp.Mp4.Hosts.{
  Message, job, stop, state, rebalance, Phase, checking, waiting, moving, computing, lost, ended,
  Host, Sends, push, set_slice, transfer, state_handle,
}

-- The jobs that `job_finished` counts are kept as a history.
pub record Client (A : Type 0) : Type 0 where
  pub host : Host A
  pub job_finished : ℕ
  pub job_server_done : ℕ
  pub finished : List ℕ

-- The numbers from `a` on, as the loop of `bootstrap` pushes them.
abbrev pub jobs_from : (a n : ℕ) → List ℤ
jobs_from a ℕ.zero = []
jobs_from a (suc n) = pos a ∷ jobs_from (suc a) n

module _ {A : Type 0} where
  -- `run_client` up to its loop, with `bootstrap`.
  unfoldable pub run_client : (ℕ → A) → Client A
  run_client array = record {
    host = record {
      job_todo = jobs_from 0 512;
      job_tosend = jobs_from 512 512;
      job_array = array;
      peer_num_jobs = negsuc 0;
      rebalance_requested = Bool.false;
      job_sent = 0;
      worker = checking;
      sender = checking;
      receiver = checking;
    };
    job_finished = 0;
    job_server_done = 0;
    finished = [];
  }

  -- The loop of `run_client`: at its test, at `queue_pull`, and at the end of a computation.
  unfoldable pub main_check : Client A → Option (Client A)
  main_check c =
      if ltb c.job_finished job_num
      then some (record c { host = record (c.host) { worker = waiting } })
      else elim (push (negsuc 0) c.host.job_tosend) [
        | none ↦ none
        | some q ↦ some (record c { host = record (c.host) { job_tosend = q; worker = ended } })
      ]

  unfoldable pub main_pull : List ℤ → Client A → Option (Client A)
  main_pull [] c = none
  main_pull (negsuc _ ∷ rest) c =
      some (record c { host = record (c.host) { job_todo = rest; worker = checking } })
  main_pull (pos j ∷ rest) c =
      some (record c { host = record (c.host) { job_todo = rest; worker = computing j } })

  unfoldable pub main_compute : (A → A) → ℕ → Client A → Client A
  main_compute compute j c = record c {
    host = record (c.host) {
      job_array = set_slice c.host.job_array j (compute (c.host.job_array j));
      worker = checking;
    };
    job_finished = c.job_finished + 1;
    finished = j ∷ c.finished;
  }

  unfoldable pub main_step : (A → A) → Phase → Client A → Option (Client A)
  unfolding main_check main_pull main_compute
  main_step compute checking c = main_check c
  main_step compute waiting c = main_pull c.host.job_todo c
  main_step compute (computing j) c = some (main_compute compute j c)
  main_step compute (moving _) c = none
  main_step compute lost c = none
  main_step compute ended c = none

  -- `write_to_server`
  unfoldable pub writer_pull : List ℤ → Client A → Option (Sends (Client A) A)
  writer_pull [] c = none
  writer_pull (i ∷ rest) c = elim (transfer i c.host.job_array) [
    | none ↦ none
    | some m ↦
        some (record c { host = record (c.host) { job_tosend = rest; sender = checking } }, m ∷ [])
  ]

  unfoldable pub writer_step : Phase → Client A → Option (Sends (Client A) A)
  unfolding writer_pull
  writer_step checking c =
      if c.job_finished == job_num
      then some (record c { host = record (c.host) { sender = ended } }, [])
      else some (record c { host = record (c.host) { sender = waiting } }, [])
  writer_step waiting c = writer_pull c.host.job_tosend c
  writer_step (computing _) c = none
  writer_step (moving _) c = none
  writer_step lost c = none
  writer_step ended c = none

  -- `read_from_server` at the test of its loop.
  unfoldable pub reader_check : Client A → Option (Client A)
  reader_check c =
      if c.job_finished == job_num
      then elim (push (negsuc 0) c.host.job_todo) [
        | none ↦ none
        | some q ↦ some (record c { host = record (c.host) { job_todo = q; receiver = ended } })
      ]
      else some (record c { host = record (c.host) { receiver = waiting } })

  -- A result of the server, or a job that it gives back, whose slice is not stored.
  unfoldable pub read_job : ℕ → A → Client A → Option (Client A)
  read_job id b c =
      if ltb id job_num
      then some (record c {
        host = record (c.host) { job_array = set_slice c.host.job_array id b; receiver = checking };
        job_finished = c.job_finished + 1;
        job_server_done = c.job_server_done + 1;
        finished = id ∷ c.finished;
      })
      else elim (push (pos (id - job_num)) c.host.job_todo) [
        | none ↦ none
        | some q ↦ some (record c { host = record (c.host) { job_todo = q; receiver = checking } })
      ]

  -- `read_from_server` on a message. After the job -1 it waits for a slice all the same.
  unfoldable pub read_message : Message A → Client A → Option (Sends (Client A) A)
  unfolding read_job
  read_message (job id b) c = elim (read_job id b c) [ none ↦ none | some c' ↦ some (c', []) ]
  read_message stop c = some (record c { host = record (c.host) { receiver = lost } }, [])
  read_message (state n) c =
      let (h, ms) = state_handle checking n c.host in some (record c { host = h }, ms)
  read_message rebalance c = some (
    record c { host = record (c.host) { rebalance_requested = Bool.true; receiver = checking } },
    [],
  )
