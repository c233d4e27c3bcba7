-- ===== src/Mp4/Hosts/Results/Untold.antt =====
-- An order of the threads' steps in which the client of MP4 ends, and the server is never told that
-- the work is over.
use mathlib.Core.Path.{subst}
use cs423_2017sp.Prelude.{
  All-append, ℕ, ◌≡◌, ◌∙◌, refl, sym, true, false, some, List, [], ◌∷◌, ◌++◌, arith, ltb, ◌==◌, All,
}
use cs423_2017sp.Prelude.Int.{ℤ, pos, negsuc}
use cs423_2017sp.Mp4.Jobs.{job_num}
use cs423_2017sp.Mp4.Hosts.{
  Message, job, stop, state, rebalance, waiting, computing, ended, Phase, Host, Sends, state_handle,
  adaptor, move_job, send_state,
}
use cs423_2017sp.Mp4.Hosts.Client.{
  Client, reader_check, main_step, main_check, main_pull, main_compute, writer_step,
}
use cs423_2017sp.Mp4.Hosts.Server.{
  send_job, worker_step, worker_pull, worker_compute, process_message, transfer_handler,
}
use cs423_2017sp.Mp4.Hosts.System.{
  System, main, write, check, read, work, send, process, move, report, server_move, server_report,
  Step, Reach, later,
}
use cs423_2017sp.Mp4.Hosts.Results.Finishes.{all_computed}
use cs423_2017sp.Mp4.Hosts.Results.Rounds.{main_stops, writer_stops, reader_stops, state_of}
use cs423_2017sp.Mp4.Hosts.Results.Starves.{After, here, onward}

abbrev IsJob : ℤ → Type 0
IsJob (pos _) = Unit
IsJob (negsuc _) = ⊥

module _ {A : Type 0} where
  abbrev TellsMore : Message A → Type 0
  TellsMore (job _ _) = Unit
  TellsMore stop = ⊥
  TellsMore (state _) = Unit
  TellsMore rebalance = Unit

  -- The client's writer and reader have ended, and no job -1 is on its way to the server or in the
  -- server's queue.
  record Untold (s : System A) : Type 0 where
    writer : s.client.host.sender ≡ ended
    reader : s.client.host.receiver ≡ ended
    way : All TellsMore s.to_server
    queue : All IsJob s.server.job_tosend
    server : s.server.sender ≡ waiting

  main_step-Untold :
      (compute : A → A) (p : Phase) (c : Client A) {d : Client A}
      → main_step compute p c ≡ some d
      → (d.host.sender ≡ c.host.sender) × (d.host.receiver ≡ c.host.receiver)
  unfolding main_step main_check main_pull main_compute
  main_step-Untold compute p c run = ground arith

  worker_step-Untold :
      (compute : A → A) (p : Phase) (h : Host A) {g : Host A}
      → worker_step compute p h ≡ some g
      → All IsJob h.job_tosend
      → (g.sender ≡ h.sender) × All IsJob g.job_tosend
  unfolding worker_step worker_pull worker_compute
  worker_step-Untold compute (computing j) h run jobs =
      let more : All IsJob (h.job_tosend ++ pos j ∷ []) =
        All-append IsJob h.job_tosend (pos j ∷ []) jobs (tt, tt) in
      ground (arith, more)
  worker_step-Untold compute p h run jobs = ground arith

  send_job-Untold :
      (q : List ℤ) (h : Host A) {r : Sends (Host A) A}
      → send_job q h ≡ some r
      → All IsJob q
      → (r.0.sender ≡ waiting) × All IsJob r.0.job_tosend
  unfolding send_job
  send_job-Untold [] h run jobs = cc
  send_job-Untold (pos i ∷ rest) h run jobs = ground (arith, jobs)
  send_job-Untold (negsuc i ∷ rest) h run jobs = absurd jobs.0

  process_message-Untold :
      (m : Message A) (h : Host A) {r : Sends (Host A) A}
      → process_message m h ≡ some r
      → TellsMore m
      → (r.0.sender ≡ h.sender) × (r.0.job_tosend ≡ h.job_tosend)
  unfolding process_message transfer_handler state_handle adaptor
  process_message-Untold (job id b) h run more = ground arith
  process_message-Untold stop h run more = absurd more
  process_message-Untold (state n) h run more = ground arith
  process_message-Untold rebalance h run more = ground arith

  move_job-Untold :
      (next : Phase) (n : ℕ) (q : List ℤ) (h : Host A) {r : Sends (Host A) A}
      → move_job next n q h ≡ some r
      → (r.0.sender ≡ h.sender) × (r.0.job_tosend ≡ h.job_tosend)
  unfolding move_job
  move_job-Untold next n q h run = ground arith

  Step-Untold : {compute : A → A} {s t : System A} → Step compute s t → Untold s → Untold t
  unfolding writer_step send_state
  Step-Untold {compute = f} {s = s} (main run) v =
      let kept = main_step-Untold f s.client.host.worker s.client run in
      record {
        writer = kept.0 ∙ v.writer;
        reader = kept.1 ∙ v.reader;
        way = v.way;
        queue = v.queue;
        server = v.server;
      }
  Step-Untold {s = s} (write run) v = absurd (ground (arith, run, v.writer))
  Step-Untold (check at run) v = absurd (ground (arith, at, v.reader))
  Step-Untold (read m rest at same run) v = absurd (ground (arith, at, v.reader))
  Step-Untold (move n at run) v = absurd (ground (arith, at, v.reader))
  Step-Untold {s = s} report v = record {
    writer = v.writer;
    reader = v.reader;
    way = All-append TellsMore s.to_server (send_state s.client.host ∷ []) v.way (tt, tt);
    queue = v.queue;
    server = v.server;
  }
  Step-Untold {compute = f} {s = s} (work run) v =
      let (sender, jobs) = worker_step-Untold f s.server.worker s.server run v.queue in
      record {
        writer = v.writer;
        reader = v.reader;
        way = v.way;
        queue = jobs;
        server = sender ∙ v.server;
      }
  Step-Untold {s = s} (send at run) v =
      let (sender, jobs) = send_job-Untold s.server.job_tosend s.server run v.queue in
      record { writer = v.writer; reader = v.reader; way = v.way; queue = jobs; server = sender }
  Step-Untold {s = s} (process m rest at same run) v =
      let way : All TellsMore (m ∷ rest) = subst (All TellsMore) same v.way in
      let (sender, jobs) = process_message-Untold m s.server run way.0 in
      record {
        writer = v.writer;
        reader = v.reader;
        way = way.1;
        queue = subst (All IsJob) (sym jobs) v.queue;
        server = sender ∙ v.server;
      }
  Step-Untold {s = s} (server_move n at run) v =
      let (sender, jobs) = move_job-Untold waiting n s.server.job_todo s.server run in
      record {
        writer = v.writer;
        reader = v.reader;
        way = v.way;
        queue = subst (All IsJob) (sym jobs) v.queue;
        server = sender ∙ v.server;
      }
  Step-Untold server_report v = record {
    writer = v.writer;
    reader = v.reader;
    way = v.way;
    queue = v.queue;
    server = v.server;
  }

  After-Untold : {compute : A → A} {s t : System A} → After compute s t → Untold s → Untold t
  After-Untold here v = v
  After-Untold (onward past step) v = Step-Untold step (After-Untold past v)

module _ {A : Type 0} {compute : A → A} {array : ℕ → A} where
  -- The threads of the client may end, with all jobs computed, in an order after which the server
  -- is never told: there is a state that the client and the server reach from their start in which
  -- the three threads of the client have ended and the job -1 is still in its queue, and whatever
  -- happens after it, the server's writing thread, which only that job ends, waits for more.
  pub untold :
      (s : System A) × Reach compute array s
      × (s.client.host.worker ≡ ended)
      × (s.client.host.sender ≡ ended)
      × (s.client.host.receiver ≡ ended)
      × (s.client.job_finished ≡ job_num)
      × (s.client.host.job_tosend ≡ negsuc 0 ∷ [])
      × ((t : System A) → After compute s t → t.server.sender ≡ waiting)
  unfolding main_step writer_step reader_check
  untold =
      let (a, b, l, f, d, all, rest) = all_computed {compute = compute} {array = array} in
      let over : ltb f job_num ≡ false = ground (arith, all) in
      let done : (f == job_num) ≡ true = ground (arith, all) in
      let unwritten = later rest (write (writer_stops (state_of rest).client done)) in
      let pushed = later unwritten (main (main_stops (state_of unwritten).client over refl)) in
      let end = later pushed (check refl (reader_stops (state_of pushed).client done refl)) in
      let none_sent : Untold (state_of end) = record {
        writer = refl;
        reader = refl;
        way = tt;
        queue = tt;
        server = refl;
      } in
      (_, end, refl, refl, refl, all, refl, λ t past. (After-Untold past none_sent).server)
