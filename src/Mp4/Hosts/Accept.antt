-- ===== src/Mp4/Hosts/Accept.antt =====
-- How the server of MP4/server.c starts, takes connections and closes: `run_server`, the end of
-- `process_client`, and `close_server`, with the descriptors of its connections. What the threads
-- do with a client in between is in the other files of this folder.
use cs423_2017sp.Prelude.{
  ℕ, zero, suc, ◌+◌, ◌-◌, ◌≡◌, ◌≢◌, refl, Bool, true, false, not, Option, none, some, List, [], ◌∷◌,
  ◌==◌, All, if◌then◌else◌,
}
use cs423_2017sp.Prelude.Int.{ℤ, pos, negsuc, eqb_ℤ}
pub mod Closing

-- The descriptors of connections that are open, the last one first; whether the socket that
-- listens is open; how often the threads of a client were started, how many threads run
-- `process_client`, and whether `run_server` is at its call of `accept`.
pub record Server : Type 0 where
  pub session_end : Bool
  pub client_fd : ℤ
  pub opened : List ℕ
  pub server_open : Bool
  pub started : ℕ
  pub readers : ℕ
  pub accepting : Bool

abbrev pub listening : Server
listening = record {
  session_end = false;
  client_fd = negsuc 0;
  opened = [];
  server_open = true;
  started = 0;
  readers = 0;
  accepting = true;
}

-- `run_server` up to its loop, on what `getaddrinfo`, `bind` and `listen` return; `none` is an
-- exit.
unfoldable pub set_up : (s bound listens : ℤ) → Option Server
set_up s bound listens =
    if eqb_ℤ s (pos 0)
    then if eqb_ℤ bound (pos 0)
      then if eqb_ℤ listens (pos 0) then some listening else none
      else none
    else none

-- The test of the loop.
abbrev pub turn : Server → Server
turn s = record s { accepting = not s.session_end }

-- The body of the loop after `accept`, where `retval` is what the first `pthread_create` returns,
-- and the test of the loop; `none` is an exit.
unfoldable pub accepted : (tmp_client_fd retval : ℤ) → Server → Option Server
accepted tmp_client_fd retval s =
    if eqb_ℤ s.client_fd (negsuc 0)
    then if eqb_ℤ retval (pos 0)
      then some (
          turn (record s {
            client_fd = tmp_client_fd;
            started = s.started + 1;
            readers = s.readers + 1;
          }))
      else none
    else some (turn s)

abbrev pub without : ℕ → List ℕ → List ℕ
without fd [] = []
without fd (x ∷ xs) = let rest = without fd xs in if x == fd then rest else x ∷ rest

-- `close`, which fails for a descriptor that is not open.
abbrev pub close : ℤ → List ℕ → List ℕ
close (pos fd) opened = without fd opened
close (negsuc n) opened = opened

unfoldable pub close_server : Server → Server
close_server s = record s {
  session_end = true;
  opened = if eqb_ℤ s.client_fd (negsuc 0) then s.opened else close s.client_fd s.opened;
  server_open = false;
}

-- The end of `process_client` behind its loop.
unfoldable pub client_left : Server → Server
client_left s = record s {
  opened = close s.client_fd s.opened;
  client_fd = negsuc 0;
  readers = s.readers - 1;
}

-- The server after these connections, the last one first, and so many failures of `accept`.
pub data Serves : (connections : List ℕ) → (failures : ℕ) → Server → Type 0 where
  ready : (s bound listens : ℤ) {t : Server} → set_up s bound listens ≡ some t → Serves [] 0 t
  -- `accept` returns a descriptor that is not in use
  connected :
      (fd : ℕ) (retval : ℤ) {ks : List ℕ} {n : ℕ} {s t : Server}
      → Serves ks n s
      → s.accepting ≡ true
      → s.server_open ≡ true
      → All (λ x. x ≢ fd) s.opened
      → accepted (pos fd) retval (record s { opened = fd ∷ s.opened }) ≡ some t
      → Serves (fd ∷ ks) n t
  failed :
      (retval : ℤ) {ks : List ℕ} {n : ℕ} {s t : Server}
      → Serves ks n s
      → s.accepting ≡ true
      → accepted (negsuc 0) retval s ≡ some t
      → Serves ks (suc n) t
  -- the same, with SIGINT between the return of `accept` and the test of `clientFd`
  torn :
      (fd : ℕ) (retval : ℤ) {ks : List ℕ} {n : ℕ} {s t : Server}
      → Serves ks n s
      → s.accepting ≡ true
      → s.server_open ≡ true
      → All (λ x. x ≢ fd) s.opened
      → accepted (pos fd) retval (close_server (record s { opened = fd ∷ s.opened })) ≡ some t
      → Serves (fd ∷ ks) n t
  -- SIGINT at another time
  sigint : {ks : List ℕ} {n : ℕ} {s : Server} → Serves ks n s → Serves ks n (close_server s)
  -- `process_client` leaves its loop
  leaves :
      {ks : List ℕ} {n : ℕ} {s : Server}
      → Serves ks n s
      → s.session_end ≡ true
      → (s.readers == 0) ≡ false
      → Serves ks n (client_left s)
  -- `process_client` returns at an unknown message
  unknown :
      {ks : List ℕ} {n : ℕ} {s : Server}
      → Serves ks n s
      → (s.readers == 0) ≡ false
      → Serves ks n (record s { readers = s.readers - 1 })
