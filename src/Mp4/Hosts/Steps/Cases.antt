-- ===== src/Mp4/Hosts/Steps/Cases.antt =====
-- What the calls leave that the threads of the load balancer of MP4 have in common.
use cs423_2017sp.Prelude.{
  ℕ, ◌+◌, ◌≡◌, true, none, some, List, [], ◌∷◌, ◌++◌, arith, ltb, Bool-cases, inl, inr, length,
  ◌&&◌, All,
}
use cs423_2017sp.Prelude.Int.{ℤ, pos, negsuc, eqb_ℤ}
use cs423_2017sp.Mp4.Jobs.{job_num}
use cs423_2017sp.Mp4.Hosts.{
  Message, job, rebalance, Phase, Host, slice, push, asks, to_transfer, move_on, transfer, adaptor,
  state_handle,
}
use cs423_2017sp.Mp4.Hosts.View.{View, Inv}
use cs423_2017sp.Mp4.Hosts.Quiet.{Idle}

pub push_then :
    {B : Type 0} (i : ℤ) (q : List ℤ) (f : List ℤ → B) {b : B}
    → elim (push i q) [ none ↦ none | some q' ↦ some (f q') ] ≡ some b
    → f (q ++ i ∷ []) ≡ b
push_then i q f e = ground (arith, e)

pub transfer_then :
    {A B : Type 0} (id : ℕ) (a : ℕ → A) (f : Message A → B) {b : B}
    → elim (transfer (pos id) a) [ none ↦ none | some m ↦ some (f m) ] ≡ some b
    → (ltb (slice id) job_num ≡ true) × (f (job id (a (slice id))) ≡ b)
unfolding transfer
transfer_then id a f e = ground (arith, e)

module _ {A : Type 0} {compute : A → A} {array : ℕ → A} {v : View A}
    (inv : Inv compute array v) where
  -- A job of a queue stands where its number says.
  pub client_slice : (j : ℕ) (r : List ℤ) → v.c_tosend ≡ pos j ∷ r → slice j ≡ j
  client_slice j r e = ground (arith, inv.placed j)

  pub server_slice : (j : ℕ) (r : List ℤ) → v.s_tosend ≡ pos j ∷ r → slice j ≡ j
  server_slice j r e = ground (arith, inv.placed j)

pub given_slice : (j : ℕ) → ltb (slice (job_num + j)) job_num ≡ true → slice (job_num + j) ≡ j
given_slice j inside = ground arith

-- What `adaptor` and `state_handle` change moves no job.
pub state_handle-Idle :
    {A : Type 0} (next : Phase) (n : ℤ) (h : Host A)
    → (peer : ℤ) × (r : Phase) × (ms : List (Message A)) × (state_handle next n h
        ≡ (record h { peer_num_jobs = peer; receiver = r }, ms))
      × All Idle ms
unfolding state_handle adaptor
state_handle-Idle next n h =
    let loop : Phase = move_on next (to_transfer (length h.job_todo) n h.rebalance_requested) in
    elim (Bool-cases (eqb_ℤ h.peer_num_jobs (negsuc 0) && eqb_ℤ n (pos 0))) [
      | inl first ↦ (h.peer_num_jobs, next, [], ground (arith, first), tt)
      | inr later ↦ elim (Bool-cases (asks (length h.job_todo) n)) [
        | inl ask ↦ (n, loop, rebalance ∷ [], ground (arith, later, ask), (tt, tt))
        | inr fine ↦ (n, loop, [], ground (arith, later, fine), tt)
      ]
    ]
