-- ===== src/Mp4/Hosts/Moves.antt =====
-- What moves a job of the load balancer of MP4 from one place to the next, on views.
use mathlib.Core.Path.{subst}
use cs423_2017sp.Prelude.{
  ℕ, ◌+◌, ◌-◌, ◌≡◌, true, false, none, some, List, [], ◌∷◌, ◌++◌, arith, ltb, All, All-append,
}
use cs423_2017sp.Prelude.Int.{ℤ, pos}
use cs423_2017sp.Mp4.Jobs.{job_num}
use cs423_2017sp.Mp4.Hosts.{Message, job, slice, set_slice}
use cs423_2017sp.Mp4.Hosts.View.{View, home, count-append, count_sent-append, Up, Down, Inv}

module _ {A : Type 0} {compute : A → A} {array : ℕ → A} {v : View A}
    (inv : Inv compute array v) where
  -- The client's worker takes a job, and finishes it.
  pub client_take :
      (j : ℕ) (r : List ℤ)
      → v.c_todo ≡ pos j ∷ r
      → v.c_hand ≡ none
      → Inv compute array (record v { c_todo = r; c_hand = some j })
  client_take j r e h = record {
    placed = λ k. ground (arith, inv.placed k);
    results = inv.results;
    fresh = inv.fresh;
    ready = inv.ready;
    up = inv.up;
    down = inv.down;
  }

  pub client_finish :
      (j : ℕ)
      → v.c_hand ≡ some j
      → Inv compute array (record v {
        c_hand = none;
        c_array = set_slice v.c_array j (compute (v.c_array j));
        done = j ∷ v.done;
      })
  client_finish j h = record {
    placed = λ k. ground (arith, inv.placed k);
    results = λ k. ground (arith, inv.placed k, inv.results k);
    fresh = inv.fresh;
    ready = inv.ready;
    up = inv.up;
    down = inv.down;
  }

  -- A job goes to the server: one that was meant for it, or one that the client gives away.
  pub client_send :
      (j : ℕ) (r : List ℤ)
      → v.c_tosend ≡ pos j ∷ r
      → Inv compute array (record v { c_tosend = r; up = v.up ++ job j (v.c_array j) ∷ [] })
  client_send j r e = record {
    placed = λ k.
        ground
          (arith, inv.placed k, inv.placed j, count_sent-append k v.up (job j (v.c_array j) ∷ []));
    results = inv.results;
    fresh = inv.fresh;
    ready = inv.ready;
    up =
        All-append (Up compute array) v.up (job j (v.c_array j) ∷ []) inv.up
          (ground (arith, inv.placed j, inv.results j), tt);
    down = inv.down;
  }

  pub client_give :
      (j : ℕ) (r : List ℤ)
      → v.c_todo ≡ pos j ∷ r
      → Inv compute array
          (record v { c_todo = r; up = v.up ++ job (job_num + j) (v.c_array j) ∷ [] })
  client_give j r e = record {
    placed = λ k.
        ground
          (arith, inv.placed k, count_sent-append k v.up (job (job_num + j) (v.c_array j) ∷ []));
    results = inv.results;
    fresh = inv.fresh;
    ready = inv.ready;
    up =
        All-append (Up compute array) v.up (job (job_num + j) (v.c_array j) ∷ []) inv.up
          (ground (arith, inv.placed j, inv.results j), tt);
    down = inv.down;
  }

  -- The client receives a result, or a job that the server gives back.
  pub client_result :
      (id : ℕ) (b : A) (r : List (Message A))
      → v.down ≡ job id b ∷ r
      → ltb id job_num ≡ true
      → Inv compute array
          (record v { down = r; c_array = set_slice v.c_array id b; done = id ∷ v.done })
  client_result id b r e small =
      let computed : b ≡ compute (array id) =
        (subst (All (Down compute array)) e inv.down).0 small in
      record {
        placed = λ k. ground (arith, inv.placed k);
        results = λ k. ground (arith, inv.placed k, inv.results k);
        fresh = inv.fresh;
        ready = inv.ready;
        up = inv.up;
        down = (subst (All (Down compute array)) e inv.down).1;
      }

  pub client_take_back :
      (id : ℕ) (b : A) (r : List (Message A))
      → v.down ≡ job id b ∷ r
      → ltb id job_num ≡ false
      → Inv compute array (record v { down = r; c_todo = v.c_todo ++ pos (id - job_num) ∷ [] })
  client_take_back id b r e large = record {
    placed = λ k. ground (arith, inv.placed k, count-append k v.c_todo (pos (id - job_num)));
    results = inv.results;
    fresh = inv.fresh;
    ready = inv.ready;
    up = inv.up;
    down = (subst (All (Down compute array)) e inv.down).1;
  }

  -- The server's worker takes a job, and finishes it.
  pub server_take :
      (j : ℕ) (r : List ℤ)
      → v.s_todo ≡ pos j ∷ r
      → v.s_hand ≡ none
      → Inv compute array (record v { s_todo = r; s_hand = some j })
  server_take j r e h = record {
    placed = λ k. ground (arith, inv.placed k);
    results = inv.results;
    fresh = λ k. ground (arith, inv.fresh k);
    ready = inv.ready;
    up = inv.up;
    down = inv.down;
  }

  pub server_finish :
      (j : ℕ)
      → v.s_hand ≡ some j
      → Inv compute array (record v {
        s_hand = none;
        s_array = set_slice v.s_array j (compute (v.s_array j));
        s_tosend = v.s_tosend ++ pos j ∷ [];
      })
  server_finish j h = record {
    placed = λ k. ground (arith, inv.placed k, count-append k v.s_tosend (pos j));
    results = inv.results;
    fresh = λ k. ground (arith, inv.placed k, inv.fresh k);
    ready = λ k.
        ground (arith, inv.placed k, inv.fresh k, inv.ready k, count-append k v.s_tosend (pos j));
    up = inv.up;
    down = inv.down;
  }

  -- A job goes to the client: a result, or one that the server gives back.
  pub server_send :
      (j : ℕ) (r : List ℤ)
      → v.s_tosend ≡ pos j ∷ r
      → Inv compute array (record v { s_tosend = r; down = v.down ++ job j (v.s_array j) ∷ [] })
  server_send j r e = record {
    placed = λ k.
        ground (
          arith,
          inv.placed k,
          inv.placed j,
          count_sent-append k v.down (job j (v.s_array j) ∷ []),
        );
    results = inv.results;
    fresh = inv.fresh;
    ready = λ k. ground (arith, inv.ready k);
    up = inv.up;
    down =
        All-append (Down compute array) v.down (job j (v.s_array j) ∷ []) inv.down
          ((λ small. ground (arith, inv.ready j)), tt);
  }

  pub server_give :
      (j : ℕ) (b : A) (r : List ℤ)
      → v.s_todo ≡ pos j ∷ r
      → Inv compute array (record v { s_todo = r; down = v.down ++ job (job_num + j) b ∷ [] })
  server_give j b r e = record {
    placed =
        λ k. ground (arith, inv.placed k, count_sent-append k v.down (job (job_num + j) b ∷ []));
    results = inv.results;
    fresh = λ k. ground (arith, inv.fresh k);
    ready = inv.ready;
    up = inv.up;
    down =
        All-append (Down compute array) v.down (job (job_num + j) b ∷ []) inv.down
          ((λ small. ground arith), tt);
  }

  -- The server receives a job and stores its slice.
  pub server_receive :
      (id : ℕ) (b : A) (r : List (Message A))
      → v.up ≡ job id b ∷ r
      → ltb (slice id) job_num ≡ true
      → Inv compute array (record v {
        up = r;
        s_array = set_slice v.s_array (slice id) b;
        s_todo = v.s_todo ++ pos (slice id) ∷ [];
      })
  server_receive id b r e inside =
      let first : b ≡ array (home id) = (subst (All (Up compute array)) e inv.up).0 in
      let same : home id ≡ slice id = ground arith in
      record {
        placed = λ k. ground (arith, inv.placed k, count-append k v.s_todo (pos (slice id)));
        results = inv.results;
        fresh = λ k.
            ground (arith, inv.placed k, inv.fresh k, count-append k v.s_todo (pos (slice id)));
        ready = λ k. ground (arith, inv.placed k, inv.ready k);
        up = (subst (All (Up compute array)) e inv.up).1;
        down = inv.down;
      }
