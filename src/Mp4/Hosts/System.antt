-- ===== src/Mp4/Hosts/System.antt =====
-- The client and the server of MP4 as one system: their threads take steps in any order, and the
-- messages of each side arrive in the order in which they were sent.
use cs423_2017sp.Prelude.{ℕ, suc, ◌≡◌, some, List, [], ◌∷◌, ◌++◌}
use cs423_2017sp.Mp4.Hosts.{Message, waiting, checking, moving, Host, send_state, move_job}
use cs423_2017sp.Mp4.Hosts.Client.{
  Client, run_client, main_step, writer_step, reader_check, read_message,
}
use cs423_2017sp.Mp4.Hosts.Server.{run_server, worker_step, send_job, process_message}

pub record System (A : Type 0) : Type 0 where
  pub client : Client A
  pub server : Host A
  pub to_server : List (Message A)
  pub to_client : List (Message A)

-- Both processes fill their arrays with the same values, and the client is connected.
abbrev pub init : {A : Type 0} → (ℕ → A) → System A
init array = record {
  client = run_client array;
  server = run_server array;
  to_server = [];
  to_client = [];
}

abbrev pub set_host : {A : Type 0} → Client A → Host A → Client A
set_host c h = record c { host = h }

module _ {A : Type 0} (compute : A → A) where
  pub data Step (s : System A) : System A → Type 0 where
    -- the threads of the client
    main :
        {c : Client A}
        → main_step compute s.client.host.worker s.client ≡ some c
        → Step s (record s { client = c })
    write :
        {c : Client A} {ms : List (Message A)}
        → writer_step s.client.host.sender s.client ≡ some (c, ms)
        → Step s (record s { client = c; to_server = s.to_server ++ ms })
    check :
        {c : Client A}
        → s.client.host.receiver ≡ checking
        → reader_check s.client ≡ some c
        → Step s (record s { client = c })
    read :
        (m : Message A) (rest : List (Message A)) {c : Client A} {ms : List (Message A)}
        → s.client.host.receiver ≡ waiting
        → s.to_client ≡ m ∷ rest
        → read_message m s.client ≡ some (c, ms)
        → Step s (record s { client = c; to_client = rest; to_server = s.to_server ++ ms })
    move :
        (n : ℕ) {h : Host A} {ms : List (Message A)}
        → s.client.host.receiver ≡ moving (suc n)
        → move_job checking n s.client.host.job_todo s.client.host ≡ some (h, ms)
        → Step s (record s { client = set_host s.client h; to_server = s.to_server ++ ms })
    report : Step s (record s { to_server = s.to_server ++ send_state s.client.host ∷ [] })
    -- the threads of the server
    work :
        {h : Host A}
        → worker_step compute s.server.worker s.server ≡ some h
        → Step s (record s { server = h })
    send :
        {h : Host A} {ms : List (Message A)}
        → s.server.sender ≡ waiting
        → send_job s.server.job_tosend s.server ≡ some (h, ms)
        → Step s (record s { server = h; to_client = s.to_client ++ ms })
    process :
        (m : Message A) (rest : List (Message A)) {h : Host A} {ms : List (Message A)}
        → s.server.receiver ≡ waiting
        → s.to_server ≡ m ∷ rest
        → process_message m s.server ≡ some (h, ms)
        → Step s (record s { server = h; to_server = rest; to_client = s.to_client ++ ms })
    server_move :
        (n : ℕ) {h : Host A} {ms : List (Message A)}
        → s.server.receiver ≡ moving (suc n)
        → move_job waiting n s.server.job_todo s.server ≡ some (h, ms)
        → Step s (record s { server = h; to_client = s.to_client ++ ms })
    server_report : Step s (record s { to_client = s.to_client ++ send_state s.server ∷ [] })

  pub data Reach (array : ℕ → A) : System A → Type 0 where
    start : Reach array (init array)
    later : {s t : System A} → Reach array s → Step s t → Reach array t
