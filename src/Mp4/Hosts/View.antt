-- ===== src/Mp4/Hosts/View.antt =====
-- Where the jobs of the load balancer of MP4 are, and with what slices. A view forgets the phases
-- of the threads.
use cs423_2017sp.Prelude.{
  ℕ, ◌+◌, ◌-◌, ◌<◌, ◌≡◌, true, Option, none, some, List, [], ◌∷◌, ◌++◌, arith, ltb, ◌==◌, All,
  if◌then◌else◌,
}
use cs423_2017sp.Prelude.Int.{ℤ, pos, negsuc}
use cs423_2017sp.Mp4.Jobs.{job_num}
use cs423_2017sp.Mp4.Hosts.{
  Message, job, stop, state, rebalance, Phase, checking, waiting, moving, computing, lost, ended,
}
use cs423_2017sp.Mp4.Hosts.System.{System}

pub record View (A : Type 0) : Type 0 where
  pub c_todo : List ℤ
  pub c_hand : Option ℕ
  pub c_tosend : List ℤ
  pub c_array : ℕ → A
  pub done : List ℕ
  pub up : List (Message A)
  pub s_todo : List ℤ
  pub s_hand : Option ℕ
  pub s_tosend : List ℤ
  pub s_array : ℕ → A
  pub down : List (Message A)

-- The job that a worker computes.
abbrev pub in_hand : Phase → Option ℕ
in_hand checking = none
in_hand waiting = none
in_hand (moving _) = none
in_hand (computing j) = some j
in_hand lost = none
in_hand ended = none

abbrev pub view : {A : Type 0} → System A → View A
view s = record {
  c_todo = s.client.host.job_todo;
  c_hand = in_hand s.client.host.worker;
  c_tosend = s.client.host.job_tosend;
  c_array = s.client.host.job_array;
  done = s.client.finished;
  up = s.to_server;
  s_todo = s.server.job_todo;
  s_hand = in_hand s.server.worker;
  s_tosend = s.server.job_tosend;
  s_array = s.server.job_array;
  down = s.to_client;
}

-- How often a job stands in a queue, in a hand, among the finished ones, and on a connection.
abbrev pub item : ℕ → ℤ → ℕ
item k (pos j) = if j == k then 1 else 0
item k (negsuc _) = 0

abbrev pub count : ℕ → List ℤ → ℕ
count k [] = 0
count k (i ∷ q) = item k i + count k q

abbrev pub held : ℕ → Option ℕ → ℕ
held k none = 0
held k (some j) = if j == k then 1 else 0

abbrev pub count_done : ℕ → List ℕ → ℕ
count_done k [] = 0
count_done k (j ∷ js) = (if j == k then 1 else 0) + count_done k js

pub count-append : (k : ℕ) (q : List ℤ) (i : ℤ) → count k (q ++ i ∷ []) ≡ count k q + item k i
count-append k [] i = omega arith
count-append k (j ∷ q) i = omega (arith, count-append k q i)

-- The job that an id on the connection stands for.
abbrev pub home : ℕ → ℕ
home id = if ltb id job_num then id else id - job_num

module _ {A : Type 0} where
  abbrev pub weight : ℕ → Message A → ℕ
  weight k (job id _) = if home id == k then 1 else 0
  weight k stop = 0
  weight k (state _) = 0
  weight k rebalance = 0

  abbrev pub count_sent : ℕ → List (Message A) → ℕ
  count_sent k [] = 0
  count_sent k (m ∷ ms) = weight k m + count_sent k ms

  -- All the places of a job.
  abbrev pub places : View A → ℕ → ℕ
  places v k =
      count k v.c_todo
      + held k v.c_hand
      + count k v.c_tosend
      + count_done k v.done
      + count_sent k v.up
      + count k v.s_todo
      + held k v.s_hand
      + count k v.s_tosend
      + count_sent k v.down

  pub count_sent-append :
      (k : ℕ) (ms ns : List (Message A))
      → count_sent k (ms ++ ns) ≡ count_sent k ms + count_sent k ns
  count_sent-append k [] ns = omega arith
  count_sent-append k (m ∷ ms) ns = omega (arith, count_sent-append k ms ns)

-- The slices that the messages carry: of a job that goes to the server the first one, of a result
-- the computed one. What a job that the server gives back carries is not stored.
module _ {A : Type 0} (compute : A → A) (array : ℕ → A) where
  abbrev pub Up : Message A → Type 0
  Up (job id b) = b ≡ array (home id)
  Up stop = Unit
  Up (state _) = Unit
  Up rebalance = Unit

  abbrev pub Down : Message A → Type 0
  Down (job id b) = ltb id job_num ≡ true → b ≡ compute (array id)
  Down stop = Unit
  Down (state _) = Unit
  Down rebalance = Unit

  -- Each job is in one place, and its slice is where it is needed.
  pub record Inv (v : View A) : Type 0 where
    pub placed : (k : ℕ) → places v k ≡ (if ltb k job_num then 1 else 0)
    pub results :
        (k : ℕ) → v.c_array k ≡ (if count_done k v.done == 0 then array k else compute (array k))
    pub fresh : (k : ℕ) → 0 < count k v.s_todo + held k v.s_hand → v.s_array k ≡ array k
    pub ready : (k : ℕ) → 0 < count k v.s_tosend → v.s_array k ≡ compute (array k)
    pub up : All Up v.up
    pub down : All Down v.down
