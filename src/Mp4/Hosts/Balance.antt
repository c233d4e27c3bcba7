-- ===== src/Mp4/Hosts/Balance.antt =====
-- How `adaptor` of MP4/utils.c evens out the loads of the two sides.
use mathlib.Core.Path.{subst}
use cs423_2017sp.Prelude.{
  ℕ, zero, suc, ◌+◌, ◌-◌, ◌/◌, ◌≤◌, ◌<◌, ◌≡◌, ◌∙◌, refl, sym, ap, Bool, true, false, some, List, [],
  ◌∷◌, ◌++◌, arith, ltb, length, take, drop, map, All,
}
use cs423_2017sp.Prelude.Int.{ℤ, pos, ◌-ℤ◌}
use cs423_2017sp.Mp4.Jobs.{job_num}
use cs423_2017sp.Mp4.Hosts.{
  Message, job, Phase, moving, Host, slice, asks, to_transfer, move_on, transfer, adaptor, move_job,
}

-- Rounds of the loop of `adaptor` with no step of another thread between them, and what they send.
pub data Moves {A : Type 0} (next : Phase) : Host A → List (Message A) → Host A → Type 0 where
  over : {h : Host A} → Moves next h [] h
  round :
      {h h' h'' : Host A} {ms ns : List (Message A)} (n : ℕ)
      → h.receiver ≡ moving (suc n)
      → move_job next n h.job_todo h ≡ some (h', ms)
      → Moves next h' ns h''
      → Moves next h (ms ++ ns) h''

-- The messages that give these jobs away.
abbrev pub given : {A : Type 0} → (ℕ → A) → List ℕ → List (Message A)
given a [] = []
given a (j ∷ js) = job (job_num + j) (a j) ∷ given a js

-- A job whose slice `create_message` finds when it is given away.
abbrev pub Given : ℕ → Type 0
Given j = (0 < j) × (j < job_num)

to_transfer_lem :
    (size p : ℕ)
    → p + 5 < size
    → size ≤ job_num
    → to_transfer size (pos p) Bool.true ≡ (size - p) / 2
unfolding to_transfer ◌-ℤ◌
to_transfer_lem size p far room = ground arith

asks_lem : (size p : ℕ) → p + 5 < size → size ≤ job_num → asks size (pos p) ≡ false
unfolding asks ◌-ℤ◌
asks_lem size p far room = ground arith

module _ {A : Type 0} (next : Phase) where
  gives :
      (j n : ℕ) (q : List ℤ) (h : Host A)
      → Given j
      → move_job next n (pos j ∷ q) h
        ≡ some (
          record h { job_todo = q; job_sent = h.job_sent + 1; receiver = move_on next n },
          job (job_num + j) (h.job_array j) ∷ [],
        )
  unfolding move_job transfer
  gives j n q h inside =
      let same : slice (job_num + j) ≡ j = ground (arith, inside.0, inside.1) in
      let within : ltb (slice (job_num + j)) job_num ≡ true = ground (arith, inside.0, inside.1) in
      rw (move_job, transfer, within)
        (λ k. some (
          record h { job_todo = q; job_sent = h.job_sent + 1; receiver = move_on next n },
          job (job_num + j) (h.job_array (same k)) ∷ [],
        ))

  loop :
      (js : List ℕ) (q : List ℤ) (c : ℕ) (h : Host A)
      → All Given js
      → (c' : ℕ) × (c' ≡ c + length js)
        × Moves next
            (record h {
              job_todo = map pos js ++ q;
              job_sent = c;
              receiver = move_on next (length js);
            })
            (given h.job_array js)
            (record h { job_todo = q; job_sent = c'; receiver = next })
  loop [] q c h inside = (c, omega arith, over)
  loop (j ∷ js) q c h inside =
      let (c', same, rest) = loop js q (c + 1) h inside.1 in
      (
        c',
        omega (arith, same),
        round (length js) refl
            (gives j (length js) (map pos js ++ q)
              (record h {
                job_todo = map pos (j ∷ js) ++ q;
                job_sent = c;
                receiver = moving (suc (length js));
              })
              inside.0)
            rest,
      )

none_left : (n : ℕ) → suc n ≤ 0 → ⊥
none_left n le = omega arith

module _ where
  halves :
      (n : ℕ) (xs : List ℕ)
      → n ≤ length xs
      → All Given xs
      → (map pos xs ≡ map pos (take n xs) ++ map pos (drop n xs))
        × (length (take n xs) ≡ n)
        × (length (map pos (drop n xs)) + n ≡ length xs)
        × (length (map pos xs) ≡ length xs)
        × All Given (take n xs)
  halves zero [] le all = (refl, refl, omega arith, refl, tt)
  halves zero (x ∷ xs) le all =
      let (same, taken, left, long, first) = halves zero xs (omega arith) all.1 in
      (refl, refl, omega (arith, left, long), omega (arith, long), tt)
  halves (suc n) [] le all = absurd (none_left n le)
  halves (suc n) (x ∷ xs) le all =
      let (same, taken, left, long, first) = halves n xs (omega arith) all.1 in
      (ap (λ q. pos x ∷ q) same, ap suc taken, omega (arith, left), ap suc long, (all.0, first))

module _ {A : Type 0} where
  adaptor_quiet :
      (next : Phase) (h : Host A) (size p : ℕ)
      → length h.job_todo ≡ size
      → h.peer_num_jobs ≡ pos p
      → p + 5 < size
      → size ≤ job_num
      → (adaptor next h).1 ≡ []
  unfolding adaptor
  adaptor_quiet next h size p long peer far room =
      ground (arith, long, peer, asks_lem size p far room)

  -- On a side whose queue holds over 5 jobs more than the peer reported, and at most 1024, and that
  -- the peer has asked, `adaptor` asks for nothing. Its loop, when no other thread takes jobs
  -- meanwhile and the queue does not hold job 0, gives away the jobs at the front of the queue, in
  -- order and with their slices, and ends. It counts them, and then the side holds as many jobs as
  -- the peer with the ones it was given, or one more.
  pub evens_out :
      (next : Phase) (h : Host A) (p : ℕ) (jobs : List ℕ)
      → h.job_todo ≡ map pos jobs
      → h.peer_num_jobs ≡ pos p
      → h.rebalance_requested ≡ true
      → p + 5 < length jobs
      → length jobs ≤ job_num
      → All Given jobs
      → (n : ℕ) × (h' : Host A) × ((adaptor next h).1 ≡ [])
        × Moves next (adaptor next h).0 (given h.job_array (take n jobs)) h'
        × (h'.receiver ≡ next)
        × (h'.job_todo ≡ map pos (drop n jobs))
        × (h'.job_sent ≡ h.job_sent + n)
        × (p + n ≤ length h'.job_todo)
        × (length h'.job_todo ≤ p + n + 1)
  unfolding adaptor
  evens_out next h p jobs todo peer asked far room inside =
      let n = (length jobs - p) / 2 in
      let (same, taken, left, long, first) = halves n jobs (omega arith) inside in
      let (c, count, run) = loop next (take n jobs) (map pos (drop n jobs)) h.job_sent h first in
      let total : length h.job_todo ≡ length jobs = ap length todo ∙ long in
      let rounds : to_transfer (length h.job_todo) h.peer_num_jobs h.rebalance_requested ≡ n =
        rw (total, peer, asked) (to_transfer_lem (length jobs) p far room) in
      let goes : record h {
        job_todo = map pos (take n jobs) ++ map pos (drop n jobs);
        receiver = move_on next (length (take n jobs));
      }
          ≡ (adaptor next h).0 =
        λ i. record h {
          job_todo = (sym same ∙ sym todo) i;
          receiver = move_on next ((taken ∙ sym rounds) i);
        } in
      let after : Host A = record h {
        job_todo = map pos (drop n jobs);
        job_sent = c;
        receiver = next;
      } in
      (
        n,
        after,
        adaptor_quiet next h (length jobs) p total peer far room,
        subst (λ (g : Host A). Moves next g (given h.job_array (take n jobs)) after) goes run,
        refl,
        refl,
        omega (arith, count, taken),
        omega (arith, left),
        omega (arith, left),
      )
