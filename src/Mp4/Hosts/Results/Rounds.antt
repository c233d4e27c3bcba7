-- ===== src/Mp4/Hosts/Results/Rounds.antt =====
-- What single steps of the threads of MP4 leave when they succeed, and the client's computing loop
-- on one job after the other.
use cs423_2017sp.Prelude.{
  ℕ, zero, suc, ◌+◌, ◌≤◌, ◌≡◌, refl, true, false, some, List, [], ◌∷◌, arith, ltb, ◌==◌,
}
use cs423_2017sp.Prelude.Int.{ℤ, pos, negsuc}
use cs423_2017sp.Mp4.Jobs.{job_num}
use cs423_2017sp.Mp4.Hosts.{job, checking, waiting, ended, Host, slice, set_slice, transfer}
use cs423_2017sp.Mp4.Hosts.Client.{
  Client, jobs_from, main_check, main_pull, main_compute, main_step, writer_pull, writer_step,
  reader_check, read_job, read_message,
}
use cs423_2017sp.Mp4.Hosts.Server.{send_job, transfer_handler, process_message}
use cs423_2017sp.Mp4.Hosts.System.{System, main, Reach, later}

module _ {A : Type 0} where
  pub main_goes :
      (c : Client A)
      → ltb c.job_finished job_num ≡ true
      → main_check c ≡ some (record c { host = record (c.host) { worker = waiting } })
  unfolding main_check
  main_goes c more = rw more refl

  pub main_stops :
      (c : Client A)
      → ltb c.job_finished job_num ≡ false
      → c.host.job_tosend ≡ []
      → main_check c
        ≡ some (record c { host = record (c.host) { job_tosend = negsuc 0 ∷ []; worker = ended } })
  unfolding main_check
  main_stops c over free = rw (over, free) refl

  pub transfer_home :
      (i : ℕ) (a : ℕ → A) → ltb i job_num ≡ true → transfer (pos i) a ≡ some (job i (a i))
  unfolding transfer
  transfer_home i a small =
      let same : slice i ≡ i = ground (arith, small) in
      let inside : ltb (slice i) job_num ≡ true = ground (arith, small) in
      rw inside (λ k. some (job i (a (same k))))

  pub writer_goes :
      (c : Client A)
      → (c.job_finished == job_num) ≡ false
      → writer_step checking c ≡ some (record c { host = record (c.host) { sender = waiting } }, [])
  unfolding writer_step
  writer_goes c more = rw more refl

  pub writer_stops :
      (c : Client A)
      → (c.job_finished == job_num) ≡ true
      → writer_step checking c ≡ some (record c { host = record (c.host) { sender = ended } }, [])
  unfolding writer_step
  writer_stops c over = rw over refl

  pub reader_stops :
      (c : Client A)
      → (c.job_finished == job_num) ≡ true
      → c.host.job_todo ≡ []
      → reader_check c
        ≡ some (record c { host = record (c.host) { job_todo = negsuc 0 ∷ []; receiver = ended } })
  unfolding reader_check
  reader_stops c over free = rw (over, free) refl

  pub writer_sends :
      (i : ℕ) (rest : List ℤ) (c : Client A)
      → ltb i job_num ≡ true
      → writer_pull (pos i ∷ rest) c
        ≡ some (
          record c { host = record (c.host) { job_tosend = rest; sender = checking } },
          job i (c.host.job_array i) ∷ [],
        )
  unfolding writer_pull
  writer_sends i rest c small = rw (writer_pull, transfer_home i c.host.job_array small) refl

  pub server_stores :
      (i : ℕ) (x : A) (h : Host A)
      → ltb i job_num ≡ true
      → h.job_todo ≡ []
      → process_message (job i x) h
        ≡ some (record h { job_array = set_slice h.job_array i x; job_todo = pos i ∷ [] }, [])
  unfolding process_message transfer_handler
  server_stores i x h small free =
      let same : slice i ≡ i = ground (arith, small) in
      rw (process_message, transfer_handler, same, small, free)
        (λ k.
          some
            (record h { job_array = set_slice h.job_array (same k) x; job_todo = pos i ∷ [] }, []))

  pub server_sends :
      (i : ℕ) (h : Host A)
      → ltb i job_num ≡ true
      → send_job (pos i ∷ []) h
        ≡ some (record h { job_tosend = []; sender = waiting }, job i (h.job_array i) ∷ [])
  unfolding send_job
  server_sends i h small = rw (send_job, transfer_home i h.job_array small) refl

  pub reader_goes :
      (c : Client A)
      → (c.job_finished == job_num) ≡ false
      → reader_check c ≡ some (record c { host = record (c.host) { receiver = waiting } })
  unfolding reader_check
  reader_goes c more = rw more refl

  pub reader_stores :
      (i : ℕ) (x : A) (c : Client A)
      → ltb i job_num ≡ true
      → read_message (job i x) c
        ≡ some (
          record c {
            host = record (c.host) {
              job_array = set_slice c.host.job_array i x;
              receiver = checking;
            };
            job_finished = c.job_finished + 1;
            job_server_done = c.job_server_done + 1;
            finished = i ∷ c.finished;
          },
          [],
        )
  unfolding read_message read_job
  reader_stores i x c small = rw (read_message, read_job, small) refl

  -- The system with other jobs for the computing loop, which stands at its test.
  abbrev pub main_at : List ℤ → (ℕ → A) → ℕ → List ℕ → System A → System A
  main_at todo a f l s = record s {
    client = record (s.client) {
      host = record (s.client.host) { job_todo = todo; job_array = a; worker = checking };
      job_finished = f;
      finished = l;
    };
  }

module _ {A : Type 0} {compute : A → A} {array : ℕ → A} where
  abbrev pub state_of : {s : System A} → Reach compute array s → System A
  state_of {s = s} r = s

  local_round :
      (i f : ℕ) (todo : List ℤ) (a : ℕ → A) (l : List ℕ) (s : System A)
      → ltb f job_num ≡ true
      → Reach compute array (main_at (pos i ∷ todo) a f l s)
      → Reach compute array (main_at todo (set_slice a i (compute (a i))) (f + 1) (i ∷ l) s)
  unfolding main_step main_pull main_compute
  local_round i f todo a l s more r =
      later (later (later r (main (main_goes (state_of r).client more))) (main refl)) (main refl)

  pub local_rounds :
      (n i f : ℕ) (a : ℕ → A) (l : List ℕ) (s : System A)
      → f + n ≤ job_num
      → Reach compute array (main_at (jobs_from i n) a f l s)
      → (a' : ℕ → A) × (l' : List ℕ) × (f' : ℕ) × (f' ≡ f + n)
        × Reach compute array (main_at [] a' f' l' s)
  local_rounds zero i f a l s room r = (_, _, f, omega arith, r)
  local_rounds (suc n) i f a l s room r =
      let next = local_round i f (jobs_from (suc i) n) a l s (ground arith) r in
      let (a', l', f', same, end) = local_rounds n (suc i) (f + 1) _ _ s (omega arith) next in
      (a', l', f', omega (arith, same), end)
