-- ===== src/Mp4/Hosts/Steps/Client.antt =====
-- The steps of the client's threads, MP4/client.c.
use mathlib.Core.Path.{subst}
use cs423_2017sp.Prelude.{
  ℕ, ◌+◌, ◌-◌, ◌≡◌, refl, sym, ap, none, some, List, [], ◌∷◌, ◌++◌, arith, ltb, ◌==◌, Bool-cases,
  Option-cases, inl, inr, some_inj, ◌∙◌,
}
use cs423_2017sp.Prelude.Int.{ℤ, pos, negsuc}
use cs423_2017sp.Mp4.Jobs.{job_num}
use cs423_2017sp.Mp4.Hosts.{
  Message, job, stop, state, rebalance, Phase, checking, waiting, moving, computing, lost, ended,
  Host, Sends, transfer, send_state, state_handle, move_on, move_job,
}
use cs423_2017sp.Mp4.Hosts.Client.{
  Client, main_check, main_pull, main_compute, main_step, writer_pull, writer_step, reader_check,
  read_job, read_message,
}
use cs423_2017sp.Mp4.Hosts.System.{System, set_host}
use cs423_2017sp.Mp4.Hosts.View.{in_hand, view, Inv}
use cs423_2017sp.Mp4.Hosts.Moves
use cs423_2017sp.Mp4.Hosts.Quiet
use cs423_2017sp.Mp4.Hosts.Steps.Cases.{
  push_then, transfer_then, client_slice, given_slice, state_handle-Idle,
}

module _ {A : Type 0} {compute : A → A} {array : ℕ → A} (s : System A)
    (inv : Inv compute array (view s)) where
  -- What the system is when the client's part is another.
  abbrev After : Client A → Type 0
  After c = Inv compute array (view (record s { client = c }))

  main_check-Inv :
      {c : Client A} → in_hand s.client.host.worker ≡ none → main_check s.client ≡ some c → After c
  unfolding main_check
  main_check-Inv e run = elim (Bool-cases (ltb s.client.job_finished job_num)) [
    | inl running ↦ subst After (some_inj (rw running at run)) (Quiet.client_free inv e)
    | inr over ↦
        subst After
          (push_then (negsuc 0) s.client.host.job_tosend
            (λ q. record (s.client) {
              host = record (s.client.host) { job_tosend = q; worker = ended };
            })
            (rw over at run))
          (Quiet.client_stop_tosend (Quiet.client_free inv e) 0)
  ]

  main_pull-Inv :
      (q : List ℤ) {c : Client A}
      → s.client.host.job_todo ≡ q
      → in_hand s.client.host.worker ≡ none
      → main_pull q s.client ≡ some c
      → After c
  unfolding main_pull
  main_pull-Inv [] same e run = ground (arith, run)
  main_pull-Inv (pos j ∷ r) same e run =
      subst After (some_inj run) (Moves.client_take inv j r same e)
  main_pull-Inv (negsuc n ∷ r) same e run =
      subst After (some_inj run) (Quiet.client_drop (Quiet.client_free inv e) n r same)

  pub main-Inv :
      (p : Phase) {c : Client A}
      → s.client.host.worker ≡ p
      → main_step compute p s.client ≡ some c
      → After c
  unfolding main_step main_compute
  main-Inv checking same run = main_check-Inv (ap in_hand same) run
  main-Inv waiting same run = main_pull-Inv s.client.host.job_todo refl (ap in_hand same) run
  main-Inv (computing j) same run =
      subst After (some_inj run) (Moves.client_finish inv j (ap in_hand same))
  main-Inv (moving _) same run = ground (arith, run)
  main-Inv lost same run = ground (arith, run)
  main-Inv ended same run = ground (arith, run)

  -- The same with messages that the client's part sends.
  abbrev AfterSend : Sends (Client A) A → Type 0
  AfterSend p = Inv compute array (view (record s { client = p.0; to_server = s.to_server ++ p.1 }))

  abbrev AfterMove : Sends (Host A) A → Type 0
  AfterMove p = AfterSend (set_host s.client p.0, p.1)

  writer_pull-Inv :
      (q : List ℤ) {p : Sends (Client A) A}
      → s.client.host.job_tosend ≡ q
      → writer_pull q s.client ≡ some p
      → AfterSend p
  unfolding writer_pull transfer
  writer_pull-Inv [] same run = ground (arith, run)
  writer_pull-Inv (negsuc n ∷ r) same run =
      subst AfterSend (some_inj run) (Quiet.client_send_stop inv n r same)
  writer_pull-Inv (pos j ∷ r) same run =
      let left : Message A → Sends (Client A) A = λ m. (
        record (s.client) { host = record (s.client.host) { job_tosend = r; sender = checking } },
        m ∷ [],
      ) in
      let at_home = client_slice inv j r same in
      subst AfterSend
        ((λ i. left (job j (s.client.host.job_array (sym at_home i))))
          ∙ (transfer_then j s.client.host.job_array left run).1)
        (Moves.client_send inv j r same)

  pub writer-Inv :
      (ph : Phase) {p : Sends (Client A) A}
      → s.client.host.sender ≡ ph
      → writer_step ph s.client ≡ some p
      → AfterSend p
  unfolding writer_step
  writer-Inv checking same run = elim (Bool-cases (s.client.job_finished == job_num)) [
    | inl over ↦ subst AfterSend (some_inj (rw over at run)) (Quiet.send_up inv [] tt)
    | inr running ↦ subst AfterSend (some_inj (rw running at run)) (Quiet.send_up inv [] tt)
  ]
  writer-Inv waiting same run = writer_pull-Inv s.client.host.job_tosend refl run
  writer-Inv (computing _) same run = ground (arith, run)
  writer-Inv (moving _) same run = ground (arith, run)
  writer-Inv lost same run = ground (arith, run)
  writer-Inv ended same run = ground (arith, run)

  pub reader_check-Inv : {c : Client A} → reader_check s.client ≡ some c → After c
  unfolding reader_check
  reader_check-Inv run = elim (Bool-cases (s.client.job_finished == job_num)) [
    | inl over ↦
        subst After
          (push_then (negsuc 0) s.client.host.job_todo
            (λ q. record (s.client) {
              host = record (s.client.host) { job_todo = q; receiver = ended };
            })
            (rw over at run))
          (Quiet.client_stop_todo inv 0)
    | inr running ↦ subst After (some_inj (rw running at run)) inv
  ]

  pub client_move-Inv :
      (next : Phase) (n : ℕ) (q : List ℤ) {p : Sends (Host A) A}
      → s.client.host.job_todo ≡ q
      → move_job next n q s.client.host ≡ some p
      → AfterMove p
  unfolding move_job transfer
  client_move-Inv next n [] same run = ground (arith, run)
  client_move-Inv next n (negsuc k ∷ r) same run =
      subst AfterMove (some_inj run) (Quiet.send_up (Quiet.client_drop inv k r same) [] tt)
  client_move-Inv next n (pos j ∷ r) same run =
      let left : Message A → Sends (Host A) A = λ m. (
        record (s.client.host) {
          job_todo = r;
          job_sent = s.client.host.job_sent + 1;
          receiver = move_on next n;
        },
        m ∷ [],
      ) in
      let (inside, sent) = transfer_then (job_num + j) s.client.host.job_array left run in
      subst AfterMove
        ((λ i. left (job (job_num + j) (s.client.host.job_array (sym (given_slice j inside) i))))
          ∙ sent)
        (Moves.client_give inv j r same)

  pub client_state-Inv : (next : Phase) (n : ℤ) → AfterMove (state_handle next n s.client.host)
  client_state-Inv next n =
      let (peer, r, ms, same, idle) = state_handle-Idle next n s.client.host in
      subst AfterMove (sym same) (Quiet.send_up inv ms idle)

  pub client_report-Inv :
      Inv compute array
        (view (record s { to_server = s.to_server ++ send_state s.client.host ∷ [] }))
  unfolding send_state
  client_report-Inv = Quiet.send_up inv (send_state s.client.host ∷ []) (tt, tt)

module _ {A : Type 0} {compute : A → A} {array : ℕ → A} (s : System A)
    (inv : Inv compute array (view s)) (rest : List (Message A)) where
  abbrev AfterRead : Sends (Client A) A → Type 0
  AfterRead p =
      Inv compute array
        (view (record s { client = p.0; to_client = rest; to_server = s.to_server ++ p.1 }))

  read_job-Inv :
      (id : ℕ) (b : A) {c : Client A}
      → s.to_client ≡ job id b ∷ rest
      → read_job id b s.client ≡ some c
      → Inv compute array (view (record s { client = c; to_client = rest }))
  unfolding read_job
  read_job-Inv id b same run =
      let AfterJob : Client A → Type 0 =
        λ c. Inv compute array (view (record s { client = c; to_client = rest })) in
      elim (Bool-cases (ltb id job_num)) [
        | inl small ↦
            subst AfterJob (some_inj (rw small at run))
              (Moves.client_result inv id b rest same small)
        | inr large ↦
            subst AfterJob
              (push_then (pos (id - job_num)) s.client.host.job_todo
                (λ q. record (s.client) {
                  host = record (s.client.host) { job_todo = q; receiver = checking };
                })
                (rw large at run))
              (Moves.client_take_back inv id b rest same large)
      ]

  pub read-Inv :
      (m : Message A) {p : Sends (Client A) A}
      → s.to_client ≡ m ∷ rest
      → read_message m s.client ≡ some p
      → AfterRead p
  unfolding read_message
  read-Inv (job id b) same run = elim (Option-cases (read_job id b s.client)) [
    | inl none_left ↦ ground (arith, none_left, run)
    | inr (c, some_left) ↦
        subst AfterRead (some_inj (rw (read_message, some_left) at run))
          (Quiet.send_up (read_job-Inv id b same some_left) [] tt)
  ]
  read-Inv stop same run =
      subst AfterRead (some_inj run)
        (Quiet.send_up (Quiet.receive_down inv stop rest same tt) [] tt)
  read-Inv (state n) same run = subst AfterRead (some_inj run) (
      client_state-Inv (record s { to_client = rest })
        (Quiet.receive_down inv (state n) rest same tt) checking n)
  read-Inv rebalance same run =
      subst AfterRead (some_inj run)
        (Quiet.send_up (Quiet.receive_down inv rebalance rest same tt) [] tt)
