-- ===== src/Mp4/Hosts/Quiet.antt =====
-- What changes on a view of the load balancer of MP4 when no job moves.
use mathlib.Core.Path.{subst}
use cs423_2017sp.Prelude.{All-append, ℕ, ◌≡◌, refl, none, List, [], ◌∷◌, ◌++◌, arith, All}
use cs423_2017sp.Prelude.Int.{ℤ, negsuc}
use cs423_2017sp.Mp4.Hosts.{Message, job, stop, state, rebalance}
use cs423_2017sp.Mp4.Hosts.View.{View, count_sent, count-append, count_sent-append, Up, Down, Inv}

-- A message that carries no job.
abbrev pub Idle : {A : Type 0} → Message A → Type 0
Idle (job _ _) = ⊥
Idle stop = Unit
Idle (state _) = Unit
Idle rebalance = Unit

Idle-weight : {A : Type 0} (k : ℕ) (ms : List (Message A)) → All Idle ms → count_sent k ms ≡ 0
Idle-weight k [] h = refl
Idle-weight k (job _ _ ∷ ms) h = absurd h.0
Idle-weight k (stop ∷ ms) h = omega (arith, Idle-weight k ms h.1)
Idle-weight k (state _ ∷ ms) h = omega (arith, Idle-weight k ms h.1)
Idle-weight k (rebalance ∷ ms) h = omega (arith, Idle-weight k ms h.1)

Idle-Up :
    {A : Type 0} (compute : A → A) (array : ℕ → A) (ms : List (Message A))
    → All Idle ms
    → All (Up compute array) ms
Idle-Up compute array [] h = tt
Idle-Up compute array (job _ _ ∷ ms) h = absurd h.0
Idle-Up compute array (stop ∷ ms) h = (tt, Idle-Up compute array ms h.1)
Idle-Up compute array (state _ ∷ ms) h = (tt, Idle-Up compute array ms h.1)
Idle-Up compute array (rebalance ∷ ms) h = (tt, Idle-Up compute array ms h.1)

Idle-Down :
    {A : Type 0} (compute : A → A) (array : ℕ → A) (ms : List (Message A))
    → All Idle ms
    → All (Down compute array) ms
Idle-Down compute array [] h = tt
Idle-Down compute array (job _ _ ∷ ms) h = absurd h.0
Idle-Down compute array (stop ∷ ms) h = (tt, Idle-Down compute array ms h.1)
Idle-Down compute array (state _ ∷ ms) h = (tt, Idle-Down compute array ms h.1)
Idle-Down compute array (rebalance ∷ ms) h = (tt, Idle-Down compute array ms h.1)

module _ {A : Type 0} {compute : A → A} {array : ℕ → A} {v : View A}
    (inv : Inv compute array v) where
  -- A worker without a job.
  pub client_free : v.c_hand ≡ none → Inv compute array (record v { c_hand = none })
  client_free e = record {
    placed = λ k. ground (arith, inv.placed k);
    results = inv.results;
    fresh = inv.fresh;
    ready = inv.ready;
    up = inv.up;
    down = inv.down;
  }

  -- The job -1 is taken, put, or sent.
  pub client_drop :
      (n : ℕ) (r : List ℤ) → v.c_todo ≡ negsuc n ∷ r → Inv compute array (record v { c_todo = r })
  client_drop n r e = record {
    placed = λ k. ground (arith, inv.placed k);
    results = inv.results;
    fresh = inv.fresh;
    ready = inv.ready;
    up = inv.up;
    down = inv.down;
  }

  pub client_stop_todo :
      (n : ℕ) → Inv compute array (record v { c_todo = v.c_todo ++ negsuc n ∷ [] })
  client_stop_todo n = record {
    placed = λ k. ground (arith, inv.placed k, count-append k v.c_todo (negsuc n));
    results = inv.results;
    fresh = inv.fresh;
    ready = inv.ready;
    up = inv.up;
    down = inv.down;
  }

  pub client_stop_tosend :
      (n : ℕ) → Inv compute array (record v { c_tosend = v.c_tosend ++ negsuc n ∷ [] })
  client_stop_tosend n = record {
    placed = λ k. ground (arith, inv.placed k, count-append k v.c_tosend (negsuc n));
    results = inv.results;
    fresh = inv.fresh;
    ready = inv.ready;
    up = inv.up;
    down = inv.down;
  }

  pub client_send_stop :
      (n : ℕ) (r : List ℤ)
      → v.c_tosend ≡ negsuc n ∷ r
      → Inv compute array (record v { c_tosend = r; up = v.up ++ stop ∷ [] })
  client_send_stop n r e = record {
    placed = λ k. ground (arith, inv.placed k, count_sent-append k v.up (stop ∷ []));
    results = inv.results;
    fresh = inv.fresh;
    ready = inv.ready;
    up = All-append (Up compute array) v.up (stop ∷ []) inv.up (tt, tt);
    down = inv.down;
  }

  pub server_free : v.s_hand ≡ none → Inv compute array (record v { s_hand = none })
  server_free e = record {
    placed = λ k. ground (arith, inv.placed k);
    results = inv.results;
    fresh = λ k. ground (arith, inv.fresh k);
    ready = inv.ready;
    up = inv.up;
    down = inv.down;
  }

  pub server_drop :
      (n : ℕ) (r : List ℤ) → v.s_todo ≡ negsuc n ∷ r → Inv compute array (record v { s_todo = r })
  server_drop n r e = record {
    placed = λ k. ground (arith, inv.placed k);
    results = inv.results;
    fresh = λ k. ground (arith, inv.fresh k);
    ready = inv.ready;
    up = inv.up;
    down = inv.down;
  }

  pub server_stop_tosend :
      (n : ℕ) → Inv compute array (record v { s_tosend = v.s_tosend ++ negsuc n ∷ [] })
  server_stop_tosend n = record {
    placed = λ k. ground (arith, inv.placed k, count-append k v.s_tosend (negsuc n));
    results = inv.results;
    fresh = inv.fresh;
    ready = λ k. ground (arith, inv.ready k, count-append k v.s_tosend (negsuc n));
    up = inv.up;
    down = inv.down;
  }

  pub server_send_stop :
      (n : ℕ) (r : List ℤ)
      → v.s_tosend ≡ negsuc n ∷ r
      → Inv compute array (record v { s_tosend = r; down = v.down ++ stop ∷ [] })
  server_send_stop n r e = record {
    placed = λ k. ground (arith, inv.placed k, count_sent-append k v.down (stop ∷ []));
    results = inv.results;
    fresh = inv.fresh;
    ready = λ k. ground (arith, inv.ready k);
    up = inv.up;
    down = All-append (Down compute array) v.down (stop ∷ []) inv.down (tt, tt);
  }

  -- A message without a job is sent, or received.
  pub send_up :
      (ms : List (Message A)) → All Idle ms → Inv compute array (record v { up = v.up ++ ms })
  send_up ms h = record {
    placed = λ k. ground (arith, inv.placed k, count_sent-append k v.up ms, Idle-weight k ms h);
    results = inv.results;
    fresh = inv.fresh;
    ready = inv.ready;
    up = All-append (Up compute array) v.up ms inv.up (Idle-Up compute array ms h);
    down = inv.down;
  }

  pub send_down :
      (ms : List (Message A)) → All Idle ms → Inv compute array (record v { down = v.down ++ ms })
  send_down ms h = record {
    placed = λ k. ground (arith, inv.placed k, count_sent-append k v.down ms, Idle-weight k ms h);
    results = inv.results;
    fresh = inv.fresh;
    ready = inv.ready;
    up = inv.up;
    down = All-append (Down compute array) v.down ms inv.down (Idle-Down compute array ms h);
  }

  pub receive_up :
      (m : Message A) (r : List (Message A))
      → v.up ≡ m ∷ r
      → Idle m
      → Inv compute array (record v { up = r })
  receive_up m r e h = record {
    placed = λ k. ground (arith, inv.placed k, Idle-weight k (m ∷ []) (h, tt));
    results = inv.results;
    fresh = inv.fresh;
    ready = inv.ready;
    up = (subst (All (Up compute array)) e inv.up).1;
    down = inv.down;
  }

  pub receive_down :
      (m : Message A) (r : List (Message A))
      → v.down ≡ m ∷ r
      → Idle m
      → Inv compute array (record v { down = r })
  receive_down m r e h = record {
    placed = λ k. ground (arith, inv.placed k, Idle-weight k (m ∷ []) (h, tt));
    results = inv.results;
    fresh = inv.fresh;
    ready = inv.ready;
    up = inv.up;
    down = (subst (All (Down compute array)) e inv.down).1;
  }
