-- ===== src/Mp4/Hosts/Steps/Server.antt =====
-- The steps of the server's threads, MP4/server.c.
use mathlib.Core.Path.{subst}
use cs423_2017sp.Prelude.{
  ℕ, ◌+◌, ◌≡◌, refl, sym, ap, none, some, List, [], ◌∷◌, ◌++◌, arith, ltb, Bool-cases, Option-cases,
  inl, inr, some_inj, ◌∙◌,
}
use cs423_2017sp.Prelude.Int.{ℤ, pos, negsuc}
use cs423_2017sp.Mp4.Jobs.{job_num}
use cs423_2017sp.Mp4.Hosts.{
  Message, job, stop, state, rebalance, Phase, checking, waiting, moving, computing, lost, ended,
  Host, Sends, slice, set_slice, transfer, send_state, state_handle, move_on, move_job,
}
use cs423_2017sp.Mp4.Hosts.Server.{
  worker_pull, worker_compute, worker_step, send_job, transfer_handler, process_message,
}
use cs423_2017sp.Mp4.Hosts.System.{System}
use cs423_2017sp.Mp4.Hosts.View.{in_hand, view, Inv}
use cs423_2017sp.Mp4.Hosts.Moves
use cs423_2017sp.Mp4.Hosts.Quiet
use cs423_2017sp.Mp4.Hosts.Steps.Cases.{push_then, transfer_then, server_slice, state_handle-Idle}

module _ {A : Type 0} {compute : A → A} {array : ℕ → A} (s : System A)
    (inv : Inv compute array (view s)) where
  -- What the system is when the server is another, and when it sends messages.
  abbrev After : Host A → Type 0
  After h = Inv compute array (view (record s { server = h }))

  abbrev AfterSend : Sends (Host A) A → Type 0
  AfterSend p = Inv compute array (view (record s { server = p.0; to_client = s.to_client ++ p.1 }))

  worker_pull-Inv :
      (q : List ℤ) {h : Host A}
      → s.server.job_todo ≡ q
      → in_hand s.server.worker ≡ none
      → worker_pull q s.server ≡ some h
      → After h
  unfolding worker_pull
  worker_pull-Inv [] same e run = ground (arith, run)
  worker_pull-Inv (pos j ∷ r) same e run =
      subst After (some_inj run) (Moves.server_take inv j r same e)
  worker_pull-Inv (negsuc n ∷ r) same e run =
      subst After (some_inj run) (Quiet.server_drop (Quiet.server_free inv e) n r same)

  pub worker-Inv :
      (p : Phase) {h : Host A}
      → s.server.worker ≡ p
      → worker_step compute p s.server ≡ some h
      → After h
  unfolding worker_step worker_compute
  worker-Inv waiting same run = worker_pull-Inv s.server.job_todo refl (ap in_hand same) run
  worker-Inv (computing j) same run =
      subst After
        (push_then (pos j) s.server.job_tosend
          (λ q. record (s.server) {
            job_array = set_slice s.server.job_array j (compute (s.server.job_array j));
            job_tosend = q;
            worker = waiting;
          })
          run)
        (Moves.server_finish inv j (ap in_hand same))
  worker-Inv checking same run = ground (arith, run)
  worker-Inv (moving _) same run = ground (arith, run)
  worker-Inv lost same run = ground (arith, run)
  worker-Inv ended same run = ground (arith, run)

  pub send_job-Inv :
      (q : List ℤ) {p : Sends (Host A) A}
      → s.server.job_tosend ≡ q
      → send_job q s.server ≡ some p
      → AfterSend p
  unfolding send_job transfer
  send_job-Inv [] same run = ground (arith, run)
  send_job-Inv (negsuc n ∷ r) same run =
      subst AfterSend (some_inj run) (Quiet.server_send_stop inv n r same)
  send_job-Inv (pos j ∷ r) same run =
      let left : Message A → Sends (Host A) A =
        λ m. (record (s.server) { job_tosend = r; sender = waiting }, m ∷ []) in
      let at_home = server_slice inv j r same in
      subst AfterSend
        ((λ i. left (job j (s.server.job_array (sym at_home i))))
          ∙ (transfer_then j s.server.job_array left run).1)
        (Moves.server_send inv j r same)

  pub server_move-Inv :
      (next : Phase) (n : ℕ) (q : List ℤ) {p : Sends (Host A) A}
      → s.server.job_todo ≡ q
      → move_job next n q s.server ≡ some p
      → AfterSend p
  unfolding move_job transfer
  server_move-Inv next n [] same run = ground (arith, run)
  server_move-Inv next n (negsuc k ∷ r) same run =
      subst AfterSend (some_inj run) (Quiet.send_down (Quiet.server_drop inv k r same) [] tt)
  server_move-Inv next n (pos j ∷ r) same run =
      let left : Message A → Sends (Host A) A = λ m. (
        record (s.server) {
          job_todo = r;
          job_sent = s.server.job_sent + 1;
          receiver = move_on next n;
        },
        m ∷ [],
      ) in
      let (inside, sent) = transfer_then (job_num + j) s.server.job_array left run in
      subst AfterSend sent
        (Moves.server_give inv j (s.server.job_array (slice (job_num + j))) r same)

  pub server_state-Inv : (next : Phase) (n : ℤ) → AfterSend (state_handle next n s.server)
  server_state-Inv next n =
      let (peer, r, ms, same, idle) = state_handle-Idle next n s.server in
      subst AfterSend (sym same) (Quiet.send_down inv ms idle)

  pub server_report-Inv :
      Inv compute array (view (record s { to_client = s.to_client ++ send_state s.server ∷ [] }))
  unfolding send_state
  server_report-Inv = Quiet.send_down inv (send_state s.server ∷ []) (tt, tt)

module _ {A : Type 0} {compute : A → A} {array : ℕ → A} (s : System A)
    (inv : Inv compute array (view s)) (rest : List (Message A)) where
  abbrev AfterRead : Sends (Host A) A → Type 0
  AfterRead p =
      Inv compute array
        (view (record s { server = p.0; to_server = rest; to_client = s.to_client ++ p.1 }))

  transfer_handler-Inv :
      (id : ℕ) (b : A) {h : Host A}
      → s.to_server ≡ job id b ∷ rest
      → transfer_handler id b s.server ≡ some h
      → Inv compute array (view (record s { server = h; to_server = rest }))
  unfolding transfer_handler
  transfer_handler-Inv id b same run = elim (Bool-cases (ltb (slice id) job_num)) [
    | inl inside ↦
        subst (λ (h : Host A). Inv compute array (view (record s { server = h; to_server = rest })))
          (push_then (pos (slice id)) s.server.job_todo
            (λ q. record (s.server) {
              job_array = set_slice s.server.job_array (slice id) b;
              job_todo = q;
            })
            (rw inside at run))
          (Moves.server_receive inv id b rest same inside)
    | inr outside ↦ ground (arith, outside, run)
  ]

  pub process-Inv :
      (m : Message A) {p : Sends (Host A) A}
      → s.to_server ≡ m ∷ rest
      → process_message m s.server ≡ some p
      → AfterRead p
  unfolding process_message
  process-Inv (job id b) same run = elim (Option-cases (transfer_handler id b s.server)) [
    | inl none_left ↦ ground (arith, none_left, run)
    | inr (h, some_left) ↦
        subst AfterRead (some_inj (rw (process_message, some_left) at run))
          (Quiet.send_down (transfer_handler-Inv id b same some_left) [] tt)
  ]
  process-Inv stop same run =
      subst AfterRead
        (push_then (negsuc 0) s.server.job_tosend (λ q. (record (s.server) { job_tosend = q }, []))
          run)
        (Quiet.send_down (Quiet.server_stop_tosend (Quiet.receive_up inv stop rest same tt) 0) []
          tt)
  process-Inv (state n) same run = subst AfterRead (some_inj run) (
      server_state-Inv (record s { to_server = rest }) (Quiet.receive_up inv (state n) rest same tt)
        waiting n)
  process-Inv rebalance same run =
      subst AfterRead (some_inj run)
        (Quiet.send_down (Quiet.receive_up inv rebalance rest same tt) [] tt)
