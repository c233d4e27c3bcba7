-- ===== src/Mp4/Hosts/Results/Starves.antt =====
-- The client of MP4 can lose all its work: `adaptor` pulls from the same queue as the computing
-- loop.
use mathlib.Core.Path.{subst}
use cs423_2017sp.Prelude.{
  ℕ, zero, suc, ◌<◌, ◌≡◌, ◌≢◌, ◌⊎◌, inl, inr, ap, refl, true, some, List, [], ◌∷◌, arith, length,
}
use cs423_2017sp.Prelude.Int.{ℤ, pos, negsuc, ◌-ℤ◌}
use cs423_2017sp.Mp4.Jobs.{job_num}
use cs423_2017sp.Mp4.Hosts.{
  state, rebalance, Phase, checking, waiting, moving, ended, Host, Sends, set_slice, send_state,
  asks, to_transfer, adaptor, state_handle, move_job,
}
use cs423_2017sp.Mp4.Hosts.Client.{
  Client, jobs_from, run_client, main_check, main_pull, main_step, writer_pull, writer_step,
  read_message,
}
use cs423_2017sp.Mp4.Hosts.Server.{run_server, process_message}
use cs423_2017sp.Mp4.Hosts.System.{
  System, init, Step, main, write, check, read, move, report, work, send, process, server_move,
  server_report, Reach, start, later,
}
use cs423_2017sp.Mp4.Hosts.Results.Rounds.{
  writer_goes, writer_sends, server_stores, reader_goes, state_of, main_at, local_rounds,
}

length-jobs_from : (a n : ℕ) → length (jobs_from a n) ≡ n
length-jobs_from a zero = refl
length-jobs_from a (suc n) = ap suc (length-jobs_from (suc a) n)

module _ {A : Type 0} (compute : A → A) where
  -- The states that follow from one.
  pub data After (s : System A) : System A → Type 0 where
    here : After s s
    onward : {t u : System A} → After s t → Step compute t u → After s u

module _ {A : Type 0} where
  -- The reader waits in `adaptor` for a job of the empty queue, and so does the computing loop, or
  -- it will.
  record Starved (c : Client A) : Type 0 where
    reader : (n : ℕ) × (c.host.receiver ≡ moving (suc n))
    empty : c.host.job_todo ≡ []
    unfinished : c.job_finished < job_num
    idle : (c.host.worker ≡ waiting) ⊎ (c.host.worker ≡ checking)

  main_step-Starved :
      (compute : A → A) (c : Client A) {d : Client A}
      → main_step compute c.host.worker c ≡ some d
      → Starved c
      → Starved d
  unfolding main_step main_check main_pull
  main_step-Starved compute c {d} run v = elim v.idle [
    | inl waits ↦ ground (arith, subst (λ w. main_step compute w c ≡ some d) waits run, v.empty)
    | inr tests ↦
        let checked : main_check c ≡ some d =
          subst (λ w. main_step compute w c ≡ some d) tests run in
        ground (arith, checked, v.reader, v.empty, v.unfinished)
  ]

  writer_step-Starved :
      (p : Phase) (c : Client A) {q : Sends (Client A) A}
      → writer_step p c ≡ some q
      → Starved c
      → Starved q.0
  unfolding writer_step writer_pull
  writer_step-Starved p c run v = ground (arith, run, v.reader, v.empty, v.unfinished, v.idle)

  Step-Starved :
      {compute : A → A} {s t : System A} → Step compute s t → Starved s.client → Starved t.client
  unfolding move_job
  Step-Starved {compute = f} {s = s} (main run) v = main_step-Starved f s.client run v
  Step-Starved {s = s} (write run) v = writer_step-Starved s.client.host.sender s.client run v
  Step-Starved (check at run) v = absurd (ground (arith, at, v.reader.1))
  Step-Starved (read m rest at same run) v = absurd (ground (arith, at, v.reader.1))
  Step-Starved (move n at run) v = absurd (ground (arith, run, v.empty))
  Step-Starved report v = v
  Step-Starved (work run) v = v
  Step-Starved (send at run) v = v
  Step-Starved (process m rest at same run) v = v
  Step-Starved (server_move n at run) v = v
  Step-Starved server_report v = v

  After-Starved :
      {compute : A → A} {s t : System A} → After compute s t → Starved s.client → Starved t.client
  After-Starved here v = v
  After-Starved (onward past step) v = Step-Starved step (After-Starved past v)

  Starved-runs : (c : Client A) → Starved c → c.host.worker ≢ ended
  Starved-runs c v over = ground (arith, v.idle, over)

  -- The server with one job is asked for the state of a client with 512.
  server_asks :
      (q : List ℤ) (i : ℕ) (h : Host A)
      → length q ≡ 512
      → h.job_todo ≡ pos i ∷ []
      → h.peer_num_jobs ≡ negsuc 0
      → process_message (state (pos (length q))) h
        ≡ some (record h { peer_num_jobs = pos 512; receiver = waiting }, rebalance ∷ [])
  unfolding process_message state_handle adaptor asks to_transfer ◌-ℤ◌
  server_asks q i h long todo peer =
      rw (process_message, state_handle, adaptor, long, todo, peer) refl

  reader_notes :
      (c : Client A)
      → read_message rebalance c
        ≡ some (
          record c { host = record (c.host) { rebalance_requested = true; receiver = checking } },
          [],
        )
  unfolding read_message
  reader_notes c = refl

  client_gives :
      (c : Client A)
      → length c.host.job_todo ≡ 512
      → c.host.peer_num_jobs ≡ negsuc 0
      → c.host.rebalance_requested ≡ true
      → read_message (state (pos 1)) c
        ≡ some (
          record c { host = record (c.host) { peer_num_jobs = pos 1; receiver = moving 255 } },
          [],
        )
  unfolding read_message state_handle adaptor asks to_transfer ◌-ℤ◌
  client_gives c long peer asked = rw (read_message, state_handle, adaptor, long, peer, asked) refl

module _ {A : Type 0} (array : ℕ → A) where
  -- Up to the reader's wait in `adaptor`, from a full queue `q` of jobs.
  abbrev at_start : (q r : List ℤ) → System A
  at_start q r = record (init array) {
    client = record (run_client array) {
      host = record ((run_client array).host) { job_todo = q; job_tosend = pos 512 ∷ r };
    };
  }

  abbrev reader_waits : (r : List ℤ) → System A
  reader_waits r = record (init array) {
    client = record (run_client array) {
      host = record ((run_client array).host) {
        job_tosend = r;
        peer_num_jobs = pos 1;
        rebalance_requested = true;
        receiver = moving 255;
      };
    };
    server = record (run_server array) {
      job_todo = pos 512 ∷ [];
      job_array = set_slice array 512 (array 512);
      peer_num_jobs = pos 512;
    };
  }

module _ {A : Type 0} {compute : A → A} {array : ℕ → A} where
  overloads :
      (q r : List ℤ)
      → length q ≡ 512
      → Reach compute array (at_start array q r)
      → Reach compute array (main_at q array 0 [] (reader_waits array r))
  unfolding run_client run_server writer_step send_state
  overloads q r long start_here =
      let goes = later start_here (write (writer_goes (state_of start_here).client refl)) in
      let sends = later goes (write (writer_sends 512 r (state_of goes).client refl)) in
      let stored =
        later sends
          (process _ [] refl refl (server_stores 512 _ (state_of sends).server refl refl)) in
      let told = later stored report in
      let asked =
        later told
          (process _ [] refl refl (server_asks q 512 (state_of told).server long refl refl)) in
      let answered = later asked server_report in
      let ready = later answered (check refl (reader_goes (state_of answered).client refl)) in
      let requested =
        later ready (read rebalance _ refl refl (reader_notes (state_of ready).client)) in
      let again = later requested (check refl (reader_goes (state_of requested).client refl)) in
      later again
        (read (state (pos 1)) [] refl refl (client_gives (state_of again).client long refl refl))

  -- There is a state that the client and the server reach from their start after which, whatever
  -- happens, the client's computing loop never comes to its end, and some job stays unfinished.
  pub starves :
      (s : System A) × Reach compute array s
      × ((t : System A)
          → After compute s t
          → (t.client.host.worker ≢ ended) × (t.client.job_finished < job_num))
  unfolding run_client run_server
  starves =
      let waits = overloads (jobs_from 0 512) (jobs_from 513 511) (length-jobs_from 0 512) start in
      let (a, l, f, same, end) =
        local_rounds 512 0 0 array [] (reader_waits array (jobs_from 513 511)) (omega arith)
          waits in
      let starved : Starved (state_of end).client = record {
        reader = (254, refl);
        empty = refl;
        unfinished = omega (arith, same);
        idle = inr refl;
      } in
      (
        _,
        end,
        λ t past. let v = After-Starved past starved in (Starved-runs t.client v, v.unfinished),
      )
