-- ===== src/Mp4/Hosts/Steps/Invariant.antt =====
-- The jobs of the load balancer of MP4 in any order of the threads' steps.
use cs423_2017sp.Prelude.{ℕ, suc, ◌+◌, ◌<◌, ◌≡◌, refl, arith, ltb, leb, ◌&&◌, if◌then◌else◌}
use cs423_2017sp.Mp4.Hosts.{checking, waiting}
use cs423_2017sp.Mp4.Hosts.Client.{jobs_from}
use cs423_2017sp.Mp4.Hosts.System.{
  System, init, Step, main, write, check, read, move, report, work, send, process, server_move,
  server_report, Reach, start, later,
}
use cs423_2017sp.Mp4.Hosts.View.{count, view, Inv}
use cs423_2017sp.Mp4.Hosts.Steps.Client.{
  main-Inv, writer-Inv, reader_check-Inv, read-Inv, client_move-Inv, client_report-Inv,
}
use cs423_2017sp.Mp4.Hosts.Steps.Server.{
  worker-Inv, send_job-Inv, process-Inv, server_move-Inv, server_report-Inv,
}

count-jobs_from :
    (k a n : ℕ) → count k (jobs_from a n) ≡ (if leb a k && ltb k (a + n) then 1 else 0)
count-jobs_from k a ℕ.zero = ground arith
count-jobs_from k a (suc n) = ground (arith, count-jobs_from k (suc a) n)

nothing_below : 0 < 0 → ⊥
nothing_below h = omega arith

-- `bootstrap` puts each job into one queue.
bootstrap-places :
    (k n : ℕ)
    → count k (jobs_from 0 n) + 0 + count k (jobs_from n n) + 0 + 0 + 0 + 0 + 0 + 0
      ≡ (if ltb k (n + n) then 1 else 0)
bootstrap-places k n = ground (arith, count-jobs_from k 0 n, count-jobs_from k n n)

module _ {A : Type 0} {compute : A → A} {array : ℕ → A} where
  init-Inv : Inv compute array (view (init array))
  unfolding cs423_2017sp.Mp4.Hosts.Client.run_client cs423_2017sp.Mp4.Hosts.Server.run_server
  init-Inv = record {
    placed = λ k. bootstrap-places k 512;
    results = λ k. refl;
    fresh = λ k h. refl;
    ready = λ k h. absurd (nothing_below h);
    up = tt;
    down = tt;
  }

  pub Step-Inv :
      {s t : System A} → Step compute s t → Inv compute array (view s) → Inv compute array (view t)
  Step-Inv {s = s} (main run) v = main-Inv s v s.client.host.worker refl run
  Step-Inv {s = s} (write run) v = writer-Inv s v s.client.host.sender refl run
  Step-Inv {s = s} (check at run) v = reader_check-Inv s v run
  Step-Inv {s = s} (read m rest at same run) v = read-Inv s v rest m same run
  Step-Inv {s = s} (move n at run) v =
      client_move-Inv s v checking n s.client.host.job_todo refl run
  Step-Inv {s = s} report v = client_report-Inv s v
  Step-Inv {s = s} (work run) v = worker-Inv s v s.server.worker refl run
  Step-Inv {s = s} (send at run) v = send_job-Inv s v s.server.job_tosend refl run
  Step-Inv {s = s} (process m rest at same run) v = process-Inv s v rest m same run
  Step-Inv {s = s} (server_move n at run) v =
      server_move-Inv s v waiting n s.server.job_todo refl run
  Step-Inv {s = s} server_report v = server_report-Inv s v

  pub Reach-Inv : {s : System A} → Reach compute array s → Inv compute array (view s)
  Reach-Inv start = init-Inv
  Reach-Inv (later r step) = Step-Inv step (Reach-Inv r)
