-- ===== src/Mp4/Hosts/Tests.antt =====
-- The theorems on the load balancer and on its messages at concrete inputs.
use cs423_2017sp.Prelude.{
  ℕ, suc, false, ◌*◌, ◌^◌, ◌-◌, ◌+◌, ◌≤◌, ◌<◌, ◌≢◌, ◌≡◌, refl, true, some, List, [], ◌∷◌, ◌++◌,
  arith, length, take, drop, map, replicate, ◌==◌, if◌then◌else◌,
}
use cs423_2017sp.Prelude.Int.{ℤ, pos, negsuc}
use cs423_2017sp.Mp4.Jobs.{job_num, job_size, array_size, store_local}
use cs423_2017sp.Mp4.Socket.{interrupted, moves}
use cs423_2017sp.Mp4.Frames.{Answers, bad}
use cs423_2017sp.Mp4.Frames.Closed.{reader_rounds, reader_rounds-closed}
use cs423_2017sp.Mp4.Frames.State.{state_bytes, peer_of, peer_of-state_bytes}
use cs423_2017sp.Mp4.Frames.Stream.{AllReady, send_all, receive_all, stream_arrives}
use cs423_2017sp.Mp4.Hosts.{Message, state, stop, waiting, ended, Host, adaptor, set_slice}
use cs423_2017sp.Mp4.Hosts.Accept.{Server}
use cs423_2017sp.Mp4.Hosts.Slices.{compute, raised, slices, compute-store_local}
use cs423_2017sp.Mp4.Hosts.Client.{run_client, main_step}
use cs423_2017sp.Mp4.Hosts.System.{System, Reach, start, later, main}
use cs423_2017sp.Mp4.Hosts.View.{places, view}
use cs423_2017sp.Mp4.Hosts.Results.{one_place, ended-computed}
use cs423_2017sp.Mp4.Hosts.Results.Finishes.{finishes}
use cs423_2017sp.Mp4.Hosts.Results.Starves.{After, starves}
use cs423_2017sp.Mp4.Hosts.Results.Untold.{untold}
use cs423_2017sp.Mp4.Hosts.Results.Output.{fill, save, entries, added, repeated, save-raised}
use cs423_2017sp.Mp4.Hosts.Balance.{Moves, given, evens_out}

-- Slices are numbers here, and a computation adds 1.
abbrev first : ℕ → ℕ
first k = k

finishes_example : (s : System ℕ) × Reach suc first s × (s.client.host.worker ≡ ended)
finishes_example = finishes

untold_example :
    (s : System ℕ) × Reach suc first s
    × (s.client.host.worker ≡ ended)
    × (s.client.host.sender ≡ ended)
    × (s.client.host.receiver ≡ ended)
    × (s.client.job_finished ≡ job_num)
    × (s.client.host.job_tosend ≡ negsuc 0 ∷ [])
    × ((t : System ℕ) → After suc s t → t.server.sender ≡ waiting)
untold_example = untold

starves_example :
    (s : System ℕ) × Reach suc first s
    × ((t : System ℕ)
        → After suc s t
        → (t.client.host.worker ≢ ended) × (t.client.job_finished < job_num))
starves_example = starves

ended-computed_example :
    (finishes {compute = suc} {array = first}).0.client.host.job_array 700 ≡ 701
ended-computed_example =
    ended-computed (finishes {compute = suc} {array = first}).1
      (finishes {compute = suc} {array = first}).2 700 (omega arith)

-- The client has computed job 0.
abbrev one_done : (s : System ℕ) × Reach suc first s
unfolding main_step run_client
one_done = (_, later (later (later start (main refl)) (main refl)) (main refl))

one_place_example : places (view one_done.0) 0 ≡ 1
one_place_example = one_place one_done.1 0

abbrev overloaded : Host ℕ
overloaded = record {
  job_todo = map pos (1 ∷ 2 ∷ 3 ∷ 4 ∷ 5 ∷ 6 ∷ 7 ∷ 8 ∷ []);
  job_tosend = [];
  job_array = first;
  peer_num_jobs = pos 1;
  rebalance_requested = true;
  job_sent = 0;
  worker = waiting;
  sender = waiting;
  receiver = waiting;
}

evens_out_example :
    (n : ℕ) × (h' : Host ℕ) × ((adaptor waiting overloaded).1 ≡ [])
    × Moves waiting
        (adaptor waiting overloaded).0
        (given first (take n (1 ∷ 2 ∷ 3 ∷ 4 ∷ 5 ∷ 6 ∷ 7 ∷ 8 ∷ [])))
        h'
    × (h'.receiver ≡ waiting)
    × (h'.job_todo ≡ map pos (drop n (1 ∷ 2 ∷ 3 ∷ 4 ∷ 5 ∷ 6 ∷ 7 ∷ 8 ∷ [])))
    × (h'.job_sent ≡ 0 + n)
    × (1 + n ≤ length h'.job_todo)
    × (length h'.job_todo ≤ 1 + n + 1)
evens_out_example =
    evens_out waiting overloaded 1 (1 ∷ 2 ∷ 3 ∷ 4 ∷ 5 ∷ 6 ∷ 7 ∷ 8 ∷ []) refl refl refl (omega arith)
      (omega arith) (ground arith)

-- The kernel moves the type whole, after an interruption, and the state in bytes.
abbrev answers : Answers
answers = record {
  type = interrupted ∷ moves 4 ∷ moves 1 ∷ moves 1 ∷ moves 1 ∷ [];
  number = replicate 16 (moves 1);
  content = [];
}

-- A state and the job -1 for the server.
abbrev two_messages : List (Message (List ℕ))
two_messages = state (pos 3) ∷ stop ∷ []

both_ready : AllReady suc first (λ i. answers) 0 two_messages
both_ready = (
  ((ground arith, omega arith), (ground arith, omega arith)),
  (((ground arith, omega arith), (ground arith, omega arith), (tt, omega arith)), tt),
)

stream_arrives_example :
    (bytes : List ℕ) × (send_all suc first (λ i. answers) 0 two_messages ≡ some bytes)
    × (receive_all (λ z. 0) false (λ i. answers) 0 2 (bytes ++ 9 ∷ [])
        ≡ some (two_messages, 9 ∷ []))
stream_arrives_example =
    stream_arrives suc first (λ z. 0) false (λ i. answers) (λ i. answers) two_messages (9 ∷ [])
      ((omega arith, omega arith), (refl, tt)) both_ready both_ready

-- After a failure of `accept` two clients came, and the server closed while it waited for a third.
abbrev two_clients : List ℕ
two_clients = 6 ∷ 5 ∷ []

abbrev closed_down : Server
closed_down = record {
  session_end = true;
  client_fd = negsuc 0;
  opened = 6 ∷ [];
  server_open = false;
  started = 2;
  readers = 1;
  accepting = false;
}

-- Entries are numbers here, and the addition adds 1.
compute-store_local_example :
    (stored after : ℕ → ℕ) × (store_local 3 first (λ k. 7) ≡ some stored)
    × (compute suc 3 stored ≡ some after)
    × ((j i : ℕ)
        → i < job_size
        → slices after j i ≡ set_slice (slices (λ k. 7)) 3 (λ k. raised suc 6000 k) j i)
compute-store_local_example = compute-store_local suc 3 first (λ k. 7) (omega arith)

-- The server is gone after each call was interrupted once.
abbrev gone : ℕ → Answers
gone i = record { type = interrupted ∷ moves i ∷ []; number = []; content = [] }

reader_rounds-closed_example :
    reader_rounds (λ i. 1000 + i) gone 0 3 [] ≡ some (bad ∷ bad ∷ bad ∷ [], [], false)
reader_rounds-closed_example =
    reader_rounds-closed (λ i. 1000 + i) gone 0 3 (λ j. tt) (λ j below e. omega (arith, below, e))

fill_test : save (λ x. x ∷ 10 ∷ []) 3 1 (fill 7 2 1 first) ≡ 7 ∷ 10 ∷ 7 ∷ 10 ∷ 3 ∷ 10 ∷ []
unfolding save fill
fill_test = refl

-- Entries are numbers, and the addition adds 1.
abbrev sevens : ℕ → ℕ → ℕ
sevens = slices (fill 7 array_size 0 first)

save-raised_example :
    save
      (λ x. x ∷ 10 ∷ [])
      array_size
      0
      (entries (finishes {compute = added suc} {array = sevens}).0.client.host.job_array)
    ≡ repeated array_size (raised suc 6000 7 ∷ 10 ∷ [])
save-raised_example =
    save-raised suc 7 (λ x. x ∷ 10 ∷ []) first (finishes {compute = added suc} {array = sevens}).1
      (finishes {compute = added suc} {array = sevens}).2

-- 1/2 as a `float` is 63 * 2 ^ 24; the `int` of these bits converts to another `float`.
abbrev to_float : ℤ → ℕ
to_float (pos n) = if n == 63 * 2 ^ 24 then 157 * 2 ^ 23 - 2 ^ 18 else 0
to_float (negsuc n) = 0

peer_of-state_bytes_example :
    peer_of to_float (state_bytes (negsuc 6) (63 * 2 ^ 24) (2 ^ 62 + 1)) ≡ record {
      peer_num_jobs = negsuc 6;
      peer_throttle_value = 157 * 2 ^ 23 - 2 ^ 18;
      peer_cpu_usage = 2 ^ 62 + 1;
    }
peer_of-state_bytes_example =
    peer_of-state_bytes to_float (negsuc 6) (63 * 2 ^ 24) (2 ^ 62 + 1) (omega arith) (omega arith)
      (omega arith)
