-- ===== src/Mp4/Hosts/Results/Counts.antt =====
-- `job_finished` of MP4/client.c, and when all the jobs are finished.
use cs423_2017sp.Prelude.{
  ℕ, suc, ◌+◌, ◌≤◌, ◌<◌, ◌≡◌, ◌∙◌, refl, sym, ap, some, List, [], ◌∷◌, arith, ltb, length,
  Bool-cases, Option-cases, inl, inr, if◌then◌else◌,
}
use cs423_2017sp.Prelude.Int.{ℤ, pos, negsuc}
use cs423_2017sp.Mp4.Jobs.{job_num}
use cs423_2017sp.Mp4.Hosts.{
  Message, job, stop, state, rebalance, Phase, checking, waiting, moving, computing, lost, ended,
  Host, Sends, adaptor, move_job, state_handle,
}
use cs423_2017sp.Mp4.Hosts.Client.{
  Client, run_client, main_check, main_pull, main_compute, main_step, writer_step, reader_check,
  read_job, read_message,
}
use cs423_2017sp.Mp4.Hosts.System.{
  System, Step, main, write, check, read, move, report, work, send, process, server_move,
  server_report, Reach, start, later,
}
use cs423_2017sp.Mp4.Hosts.View.{count_done}

total : (ℕ → ℕ) → ℕ → ℕ
total f ℕ.zero = 0
total f (suc n) = total f n + f n

module _ (xs : List ℕ) where
  total_bound : (n : ℕ) → ((k : ℕ) → count_done k xs ≤ 1) → total (λ k. count_done k xs) n ≤ n
  unfolding total
  total_bound ℕ.zero h = omega arith
  total_bound (suc n) h = omega (arith, total_bound n h, h n)

  total_full :
      (n : ℕ)
      → ((k : ℕ) → count_done k xs ≤ 1)
      → n ≤ total (λ k. count_done k xs) n
      → (k : ℕ) → k < n
      → count_done k xs ≡ 1
  unfolding total
  total_full ℕ.zero h full k below = omega arith
  total_full (suc n) h full k below = elim (Bool-cases (ltb k n)) [
    | inl before ↦ total_full n h (omega (arith, h n)) k (ground (arith, before))
    | inr last ↦
        let same : k ≡ n = ground (arith, last) in ground (arith, same, h n, total_bound n h)
  ]

total_zero : (n : ℕ) → total (λ k. 0) n ≡ 0
unfolding total
total_zero ℕ.zero = refl
total_zero (suc n) = omega (arith, total_zero n)

total_step :
    (x : ℕ) (xs : List ℕ) (n : ℕ)
    → total (λ k. count_done k (x ∷ xs)) n
      ≡ (if ltb x n then 1 else 0) + total (λ k. count_done k xs) n
unfolding total
total_step x xs ℕ.zero = ground arith
total_step x xs (suc n) = ground (arith, total_step x xs n)

length-total :
    (xs : List ℕ) (n : ℕ)
    → ((k : ℕ) → n ≤ k → count_done k xs ≡ 0)
    → length xs ≡ total (λ k. count_done k xs) n
length-total [] n h = sym (total_zero n)
length-total (x ∷ xs) n h =
    ground (arith, h x, total_step x xs n, length-total xs n (λ k le. ground (arith, h k le)))

-- As many distinct jobs as there are are all of them.
pub all_done :
    (xs : List ℕ) (n : ℕ)
    → ((k : ℕ) → count_done k xs ≤ (if ltb k n then 1 else 0))
    → n ≤ length xs
    → (k : ℕ) → k < n
    → count_done k xs ≡ 1
all_done xs n h full =
    total_full xs n (λ k. ground (arith, h k))
      (omega (arith, full, length-total xs n (λ k le. ground (arith, h k, le))))

module _ {A : Type 0} where
  -- `job_finished` counts the finished jobs, and the computing loop ends when they are all
  -- finished.
  pub record Counts (c : Client A) : Type 0 where
    pub counted : c.job_finished ≡ length c.finished
    pub complete : c.host.worker ≡ ended → job_num ≤ c.job_finished

  -- What leaves the worker and the finished jobs alone.
  Alike : (c d : Client A) → Type 0
  Alike c d =
      (d.host.worker ≡ c.host.worker)
      × (d.job_finished ≡ c.job_finished)
      × (d.finished ≡ c.finished)

  Alike-Counts : {c d : Client A} → Alike c d → Counts c → Counts d
  unfolding Alike
  Alike-Counts (w, f, l) h = record {
    counted = f ∙ (h.counted ∙ ap length (sym l));
    complete = λ e. omega (arith, f, h.complete (sym w ∙ e));
  }

  main_check-Counts : (c : Client A) {d : Client A} → main_check c ≡ some d → Counts c → Counts d
  unfolding main_check
  main_check-Counts c run h = ground (arith, run, h.counted)

  main_pull-Counts :
      (q : List ℤ) (c : Client A) {d : Client A} → main_pull q c ≡ some d → Counts c → Counts d
  unfolding main_pull
  main_pull-Counts [] c run h = ground (arith, run)
  main_pull-Counts (pos j ∷ r) c run h = ground (arith, run, h.counted)
  main_pull-Counts (negsuc n ∷ r) c run h = ground (arith, run, h.counted)

  main-Counts :
      (compute : A → A) (p : Phase) (c : Client A) {d : Client A}
      → main_step compute p c ≡ some d
      → Counts c
      → Counts d
  unfolding main_step main_compute
  main-Counts compute checking c run h = main_check-Counts c run h
  main-Counts compute waiting c run h = main_pull-Counts c.host.job_todo c run h
  main-Counts compute (computing j) c run h = ground (arith, run, h.counted)
  main-Counts compute (moving _) c run h = ground (arith, run)
  main-Counts compute lost c run h = ground (arith, run)
  main-Counts compute ended c run h = ground (arith, run)

  writer-Alike :
      (p : Phase) (c : Client A) {q : Sends (Client A) A} → writer_step p c ≡ some q → Alike c q.0
  unfolding Alike writer_step
  writer-Alike p c run = ground (arith, run)

  reader_check-Alike : (c : Client A) {d : Client A} → reader_check c ≡ some d → Alike c d
  unfolding Alike reader_check
  reader_check-Alike c run = ground (arith, run)

  state_handle-worker :
      (next : Phase) (n : ℤ) (h : Host A) → (state_handle next n h).0.worker ≡ h.worker
  unfolding state_handle adaptor
  state_handle-worker next n h = ground arith

  move_job-worker :
      (next : Phase) (n : ℕ) (q : List ℤ) (h : Host A) {p : Sends (Host A) A}
      → move_job next n q h ≡ some p
      → p.0.worker ≡ h.worker
  unfolding move_job
  move_job-worker next n [] h run = ground (arith, run)
  move_job-worker next n (negsuc _ ∷ r) h run = ground (arith, run)
  move_job-worker next n (pos j ∷ r) h run = ground (arith, run)

  read_job-Counts :
      (id : ℕ) (b : A) (c : Client A) {d : Client A}
      → read_job id b c ≡ some d
      → Counts c
      → Counts d
  unfolding read_job
  read_job-Counts id b c run h = ground (arith, run, h.counted, h.complete)

  read-Counts :
      (m : Message A) (c : Client A) {p : Sends (Client A) A}
      → read_message m c ≡ some p
      → Counts c
      → Counts p.0
  unfolding read_message
  read-Counts (job id b) c run h = elim (Option-cases (read_job id b c)) [
    | inl none_left ↦ ground (arith, none_left, run)
    | inr (d, some_left) ↦
        let left = read_job-Counts id b c some_left h in
        ground (arith, some_left, run, left.counted, left.complete)
  ]
  read-Counts stop c run h = ground (arith, run, h.counted, h.complete)
  read-Counts (state n) c run h =
      ground (arith, run, h.counted, h.complete, state_handle-worker checking n c.host)
  read-Counts rebalance c run h = ground (arith, run, h.counted, h.complete)

  Step-Counts :
      {compute : A → A} {s t : System A} → Step compute s t → Counts s.client → Counts t.client
  unfolding Alike
  Step-Counts {compute = f} {s = s} (main run) h = main-Counts f s.client.host.worker s.client run h
  Step-Counts {s = s} (write run) h =
      Alike-Counts (writer-Alike s.client.host.sender s.client run) h
  Step-Counts {s = s} (check at run) h = Alike-Counts (reader_check-Alike s.client run) h
  Step-Counts {s = s} (read m rest at same run) h = read-Counts m s.client run h
  Step-Counts {s = s} (move n at run) h =
      Alike-Counts (move_job-worker checking n s.client.host.job_todo s.client.host run, refl, refl)
        h
  Step-Counts report h = h
  Step-Counts (work run) h = h
  Step-Counts (send at run) h = h
  Step-Counts (process m rest at same run) h = h
  Step-Counts (server_move n at run) h = h
  Step-Counts server_report h = h

  pub Reach-Counts :
      {compute : A → A} {array : ℕ → A} {s : System A} → Reach compute array s → Counts s.client
  unfolding run_client
  Reach-Counts start = record { counted = refl; complete = λ e. ground (arith, e) }
  Reach-Counts (later r step) = Step-Counts step (Reach-Counts r)
