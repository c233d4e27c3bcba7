-- ===== src/Mp4/Hosts/Results/Finishes.antt =====
-- An order of the threads' steps in which the client and the server of MP4 compute every job: the
-- client first computes its own half, then the server the other half, job by job.
use cs423_2017sp.Prelude.{
  ℕ, zero, suc, ◌+◌, ◌≤◌, ◌≡◌, refl, Bool, true, false, List, [], ◌∷◌, arith, ltb, ◌==◌,
}
use cs423_2017sp.Prelude.Int.{ℤ, pos, negsuc}
use cs423_2017sp.Mp4.Jobs.{job_num}
use cs423_2017sp.Mp4.Hosts.{checking, waiting, ended}
use cs423_2017sp.Mp4.Hosts.Client.{jobs_from, run_client, main_check, main_step, writer_step}
use cs423_2017sp.Mp4.Hosts.Server.{run_server, worker_pull, worker_compute, worker_step}
use cs423_2017sp.Mp4.Hosts.System.{
  System, init, main, write, check, read, work, send, process, Reach, start, later,
}
use cs423_2017sp.Mp4.Hosts.Results.Rounds.{
  main_stops, writer_goes, writer_sends, server_stores, server_sends, reader_goes, reader_stores,
  state_of, local_rounds,
}

module _ {A : Type 0} where
  -- The system between two jobs.
  abbrev pub at_rest : (todo tosend : List ℤ) → (ℕ → A) → (f d : ℕ) → List ℕ → (ℕ → A) → System A
  at_rest todo tosend a f d l b = record {
    client = record {
      host = record {
        job_todo = todo;
        job_tosend = tosend;
        job_array = a;
        peer_num_jobs = negsuc 0;
        rebalance_requested = Bool.false;
        job_sent = 0;
        worker = checking;
        sender = checking;
        receiver = checking;
      };
      job_finished = f;
      job_server_done = d;
      finished = l;
    };
    server = record {
      job_todo = [];
      job_tosend = [];
      job_array = b;
      peer_num_jobs = negsuc 0;
      rebalance_requested = Bool.false;
      job_sent = 0;
      worker = waiting;
      sender = waiting;
      receiver = waiting;
    };
    to_server = [];
    to_client = [];
  }

module _ {A : Type 0} {compute : A → A} {array : ℕ → A} where
  remote_round :
      (i f d : ℕ) {tosend : List ℤ} {a b : ℕ → A} {l : List ℕ}
      → ltb i job_num ≡ true
      → (f == job_num) ≡ false
      → Reach compute array (at_rest [] (pos i ∷ tosend) a f d l b)
      → (a' : ℕ → A) × (b' : ℕ → A) × Reach compute array
          (at_rest [] tosend a' (f + 1) (d + 1) (i ∷ l) b')
  unfolding writer_step worker_step worker_pull worker_compute
  remote_round i f d small more r =
      let goes = later r (write (writer_goes (state_of r).client more)) in
      let asked = later goes (write (writer_sends i _ (state_of goes).client small)) in
      let stored =
        later asked
          (process _ [] refl refl (server_stores i _ (state_of asked).server small refl)) in
      let computed = later (later stored (work refl)) (work refl) in
      let answered = later computed (send refl (server_sends i (state_of computed).server small)) in
      let ready = later answered (check refl (reader_goes (state_of answered).client more)) in
      (_, _, later ready (read _ [] refl refl (reader_stores i _ (state_of ready).client small)))

  remote_rounds :
      (n i f d : ℕ) {a b : ℕ → A} {l : List ℕ}
      → f + n ≤ job_num
      → i + n ≤ job_num
      → Reach compute array (at_rest [] (jobs_from i n) a f d l b)
      → (a' : ℕ → A) × (b' : ℕ → A) × (l' : List ℕ) × (f' : ℕ) × (d' : ℕ) × (f' ≡ f + n)
        × Reach compute array (at_rest [] [] a' f' d' l' b')
  remote_rounds zero i f d room inside r = (_, _, _, f, _, omega arith, r)
  remote_rounds (suc n) i f d room inside r =
      let (a, b, next) = remote_round i f d (ground arith) (ground arith) r in
      let (a', b', l, f', d', same, end) =
        remote_rounds n (suc i) (f + 1) (d + 1) (omega arith) (omega arith) next in
      (a', b', l, f', d', omega (arith, same), end)

  -- All jobs are computed, and both sides are at rest.
  pub all_computed :
      (a b : ℕ → A) × (l : List ℕ) × (f d : ℕ) × (f ≡ job_num)
      × Reach compute array (at_rest [] [] a f d l b)
  unfolding run_client run_server
  all_computed =
      let (a, l, f, half, mid) = local_rounds 512 0 0 array [] (init array) (omega arith) start in
      let (a', b', l', f', d, same, end) =
        remote_rounds 512 512 f 0 (omega (arith, half)) (omega arith) mid in
      (a', b', l', f', d, omega (arith, half, same), end)

  -- There is an order of the threads' steps in which the client's computing loop comes to its end.
  pub finishes : (s : System A) × Reach compute array s × (s.client.host.worker ≡ ended)
  unfolding main_step main_check
  finishes =
      let (a, b, l, f, d, all, end) = all_computed in
      let over : ltb f job_num ≡ false = ground (arith, all) in
      (_, later end (main (main_stops (state_of end).client over refl)), refl)
