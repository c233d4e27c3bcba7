-- ===== src/Mp4/Hosts/Accept/Closing.antt =====
-- Which descriptors of connections the server of MP4/server.c closes.
use cs423_2017sp.Prelude.{ℕ, ◌+◌, ◌≤◌, ◌≡◌, ◌≢◌, true, false, List, [], ◌∷◌, ◌++◌, All}
use cs423_2017sp.Prelude.Int.{ℤ, pos, negsuc}
use cs423_2017sp.Mp4.Hosts.Accept.{Server}

-- What was closed already is closed without effect.
abbrev Apart : ℤ → List ℕ → Type 0
Apart (pos fd) opened = All (λ x. x ≢ fd) opened
Apart (negsuc n) opened = Unit

-- All connections but the first one.
abbrev pub but_first : List ℕ → List ℕ
but_first [] = []
but_first (x ∷ []) = []
but_first (x ∷ y ∷ ys) = x ∷ but_first (y ∷ ys)

data Fate (ks : List ℕ) (n : ℕ) (s : Server) : Type 0 where
  idle :
      s.server_open ≡ true
      → s.session_end ≡ false
      → s.client_fd ≡ negsuc 0
      → s.opened ≡ []
      → ks ≡ []
      → s.started ≤ n
      → Fate ks n s
  serving :
      (fd : ℕ) (others : List ℕ)
      → s.server_open ≡ true
      → s.session_end ≡ false
      → s.client_fd ≡ pos fd
      → s.opened ≡ others ++ fd ∷ []
      → All (λ x. x ≢ fd) others
      → ks ≡ others ++ fd ∷ []
      → s.started ≤ n + 1
      → Fate ks n s
  over :
      s.server_open ≡ false
      → s.session_end ≡ true
      → Apart s.client_fd s.opened
      → s.opened ≡ but_first ks
      → s.started ≤ n + 1
      → Fate ks n s
  late :
      (fd : ℕ)
      → s.server_open ≡ false
      → s.session_end ≡ true
      → s.client_fd ≡ pos fd
      → s.opened ≡ fd ∷ []
      → ks ≡ fd ∷ []
      → s.started ≤ n + 1
      → Fate ks n s
