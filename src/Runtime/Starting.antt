-- ===== src/Runtime/Starting.antt =====
-- slp_runtime.cpp: what Start leaves, and which relays count as local.
use sys_slp_client.Base.{
  ℕ, ◌+◌, ◌*◌, ◌/◌, ◌%◌, ◌≤◌, ◌<◌, ◌≡◌, ◌⊎◌, refl, sym, ap, ◌∙◌, subst, Bool, true, false, not,
  ◌==◌, if◌then◌else◌, Option, none, some, List, [], ◌∷◌, ◌↔◌, be32, bswap32, bswap32-bswap32,
  if_same, arith,
}
use sys_slp_client.Servers.{SlpServer}
use sys_slp_client.Client.Connection.{
  SlpClient, opened, client_open, client_close, client_set_credentials, client_handle_auth_me,
}
use sys_slp_client.Runtime.{
  Runtime, StartAnswers, selected, connected, start, start_with, start_opened, start_thread,
  relay_on_local_network,
}

-- A runtime whose client has a socket to the selected server.
pub record IsStarted (a : StartAnswers) (s : SlpServer) (fd : ℕ) (r : Runtime) : Type 0 where
  pub resolved : a.resolved ≡ some r.client.server_ip
  pub socket : (a.socket ≡ some fd) × (r.client.fd ≡ some fd)
  pub port : r.client.server_port ≡ s.port
  pub relay : r.relay_ip ≡ r.client.server_ip
  pub ip : r.ip ≡ a.virtual_ip
  pub flags : (r.running ≡ true) × (r.thread_running ≡ true) × (r.stop_signalled ≡ false)
  pub no_login : r.client.has_credentials ≡ false

-- A runtime that holds no socket.
pub record IsStopped (r : Runtime) : Type 0 where
  pub running : r.running ≡ false
  pub socket : r.client.fd ≡ none

-- Why a start fails.
pub data Cause (a : StartAnswers) : Option SlpServer → Type 0 where
  no_server : Cause a none
  unresolved : (s : SlpServer) → a.resolved ≡ none → Cause a (some s)
  no_socket : (s : SlpServer) → a.socket ≡ none → Cause a (some s)
  unbound : (s : SlpServer) → a.bound ≡ false → Cause a (some s)
  no_thread : (s : SlpServer) → a.thread_created ≡ false → Cause a (some s)

pub data Outcome (a : StartAnswers) : Option SlpServer → Bool × Runtime → Type 0 where
  started :
      (s : SlpServer) (fd : ℕ) (r : Runtime)
      → a.bound ≡ true
      → a.thread_created ≡ true
      → IsStarted a s fd r
      → Outcome a (some s) (true, r)
  failed : (o : Option SlpServer) (r : Runtime) → IsStopped r → Cause a o → Outcome a o (false, r)

module _ (sha1 : List ℕ → List ℕ) where
  set_credentials-fd :
      (user password : List ℕ) (c : SlpClient)
      → (client_set_credentials sha1 user password c).fd ≡ c.fd
  unfolding client_set_credentials
  set_credentials-fd [] password c = refl
  set_credentials-fd (u ∷ user) password c = refl

  thread_lem :
      (a : StartAnswers) (s : SlpServer) (ip fd : ℕ) (r : Runtime) (thread : Bool)
      → a.resolved ≡ some ip
      → a.socket ≡ some fd
      → a.bound ≡ true
      → IsStopped r
      → a.thread_created ≡ thread
      → (let r' = connected a s (opened fd ip s.host s.port) r in
          Outcome a (some s) (
            if thread
            then (true, record r' { running = true })
            else (false, record r' { client = client_close r'.client; thread_running = false })))
  unfolding client_close
  thread_lem a s ip fd r false e e' b stopped t =
      failed (some s) _ (record { running = stopped.running; socket = refl }) (no_thread s t)
  thread_lem a s ip fd r true e e' b stopped t = started s fd _ b t (record {
    resolved = e;
    socket = (e', refl);
    port = refl;
    relay = refl;
    ip = refl;
    flags = (refl, refl, refl);
    no_login = refl;
  })

  opened_lem :
      (a : StartAnswers) (s : SlpServer) (r : Runtime) (resolved socket : Option ℕ) (bound : Bool)
      (c : SlpClient)
      → a.resolved ≡ resolved
      → a.socket ≡ socket
      → a.bound ≡ bound
      → IsStopped r
      → c.fd ≡ none
      → Outcome a
          (some s)
          (start_opened sha1 a s r (client_open resolved socket bound s.host s.port c))
  unfolding start_opened client_open start_thread
  opened_lem a s r none socket bound c e e' b stopped no_fd =
      failed (some s) _ (record { running = stopped.running; socket = no_fd }) (unresolved s e)
  opened_lem a s r (some ip) none bound c e e' b stopped no_fd =
      failed (some s) _ (record { running = stopped.running; socket = no_fd }) (no_socket s e')
  opened_lem a s r (some ip) (some fd) false c e e' b stopped no_fd =
      failed (some s) _ (record { running = stopped.running; socket = no_fd }) (unbound s b)
  opened_lem a s r (some ip) (some fd) true c e e' b stopped no_fd =
      thread_lem a s ip fd r a.thread_created e e' b stopped refl

  start_with_lem :
      (a : StartAnswers) (o : Option SlpServer) (r : Runtime)
      → IsStopped r
      → Outcome a o (start_with sha1 a o r)
  unfolding start_with
  start_with_lem a none r stopped = failed none r stopped no_server
  start_with_lem a (some s) r stopped =
      opened_lem a s r a.resolved a.socket a.bound _ refl refl refl stopped
        (set_credentials-fd s.username s.password r.client ∙ stopped.socket)

  -- Start on a runtime that is stopped and holds no socket. It fails only if no server is selected, its name does not resolve, no
  -- socket is made or bound, or no thread is created, and then the runtime is still stopped and holds no socket. Otherwise it
  -- succeeds: the client has the new socket, the resolved address and the server's port, but no login; the address is kept as the
  -- relay's; and the thread is to run.
  pub start_lem :
      (a : StartAnswers) (r : Runtime) → IsStopped r → Outcome a (selected r) (start sha1 a r)
  unfolding start
  start_lem a r stopped =
      subst
        (λ running.
          Outcome a (selected r) (if running then (true, r) else start_with sha1 a (selected r) r))
        (sym stopped.running) (start_with_lem a (selected r) r stopped)

  Outcome-no_login :
      (a : StartAnswers) (o : Option SlpServer) (r : Runtime)
      → Outcome a o (true, r)
      → r.client.has_credentials ≡ false
  Outcome-no_login a _ r (started s fd _ b t h) = h.no_login

  -- The login that Start gives the client does not outlive the start: after every start that succeeds, whatever the selected
  -- server's name and password are, no challenge of the relay is answered.
  pub start-client_handle_auth_me :
      (a : StartAnswers) (r r' : Runtime) (payload : List ℕ)
      → IsStopped r
      → start sha1 a r ≡ (true, r')
      → client_handle_auth_me sha1 payload r'.client ≡ none
  unfolding client_handle_auth_me
  start-client_handle_auth_me a r r' [] stopped e = refl
  start-client_handle_auth_me a r r' (kind ∷ challenge) stopped e =
      let no_login =
        Outcome-no_login a _ r' (subst (Outcome a (selected r)) e (start_lem a r stopped)) in
      rw no_login (if_same (not (kind == 0)) none)

-- The private networks and the link-local one, by the first octets.
abbrev pub IsPrivate : ℕ → ℕ → Type 0
IsPrivate first second =
    (first ≡ 10)
    ⊎ ((first ≡ 172) × (16 ≤ second) × (second < 32))
    ⊎ ((first ≡ 192) × (second ≡ 168))
    ⊎ ((first ≡ 169) × (second ≡ 254))

be32-zero : (a b c d : ℕ) → be32 a b c d ≡ bswap32 0 → a ≡ 0
unfolding bswap32
be32-zero a b c d e = omega arith

-- RelayOnLocalNetwork holds of a relay's address a.b.c.d, kept in network order, exactly if it is in 10.0.0.0/8, 172.16.0.0/12,
-- 192.168.0.0/16 or 169.254.0.0/16.
pub relay_on_local_network_iff :
    (r : Runtime) (a b c d : ℕ)
    → a < 256
    → b < 256
    → c < 256
    → d < 256
    → r.relay_ip ≡ bswap32 (be32 a b c d)
    → (relay_on_local_network r ≡ true) ↔ IsPrivate a b
unfolding relay_on_local_network
relay_on_local_network_iff r a b c d ha hb hc hd e =
    let host : bswap32 r.relay_ip ≡ be32 a b c d =
      ap bswap32 e ∙ bswap32-bswap32 (be32 a b c d) (omega arith) in
    let first : bswap32 r.relay_ip / 16777216 % 256 ≡ a = omega (arith, host) in
    let first_two : bswap32 r.relay_ip / 65536 % 65536 ≡ a * 256 + b = omega (arith, host) in
    let no_relay : r.relay_ip ≡ 0 → a ≡ 0 = λ z. be32-zero a b c d (sym host ∙ ap bswap32 z) in
    (ground arith, ground arith)
