-- ===== src/Runtime/Reconnecting.antt =====
-- The loop of the client's thread over many rounds.
use sys_slp_client.Base.{
  ℕ, ◌+◌, ◌-◌, ◌≡◌, refl, ◌∙◌, subst, Bool, not, ◌==◌, ltb, leb, Option, none, some, List, [], ◌∷◌,
  if_both, arith, All, All-append, length, drop,
}
use sys_slp_client.Tunnel.Codec.{type_ping}
use sys_slp_client.Client.Connection.{
  SlpClient, type_auth_me, client_reopen, client_send_raw, client_send_keepalive,
  client_handle_auth_me, client_recv,
}
use sys_slp_client.Runtime.{Runtime}
use sys_slp_client.Runtime.Loop.{
  LoopState, Round, Effect, sent, reopened, ldn_tick, tunnelled, count_rx, keepalive_interval_ms,
  to_list, keepalive_failed, keepalive_due, keepalive_part, received_part, round, run_loop,
}

-- What the loop leaves of a runtime.
pub record Keeps (r r' : Runtime) : Type 0 where
  pub running : r'.thread_running ≡ r.thread_running
  pub signalled : r'.stop_signalled ≡ r.stop_signalled
  pub ip : r'.client.server_ip ≡ r.client.server_ip
  pub port : r'.client.server_port ≡ r.client.server_port

Keeps-refl : (r : Runtime) → Keeps r r
Keeps-refl r = record { running = refl; signalled = refl; ip = refl; port = refl }

Keeps-trans : {a b c : Runtime} → Keeps a b → Keeps b c → Keeps a c
Keeps-trans h k = record {
  running = k.running ∙ h.running;
  signalled = k.signalled ∙ h.signalled;
  ip = k.ip ∙ h.ip;
  port = k.port ∙ h.port;
}

reopen-address :
    (socket : Option ℕ) (bound : Bool) (c : SlpClient)
    → ((client_reopen socket bound c).1.server_ip ≡ c.server_ip)
      × ((client_reopen socket bound c).1.server_port ≡ c.server_port)
unfolding client_reopen
reopen-address none bound c = (refl, refl)
reopen-address (some fd) bound c = (ground arith, ground arith)

-- An effect that sends nothing but to this address.
abbrev pub ToRelay : ℕ → ℕ → Effect → Type 0
ToRelay ip port (sent d) = (d.ip ≡ ip) × (d.port ≡ port)
ToRelay ip port (reopened _) = Unit
ToRelay ip port ldn_tick = Unit
ToRelay ip port (tunnelled _ _) = Unit

ToRelay-moved :
    (effects : List Effect) {ip ip' port port' : ℕ}
    → ip' ≡ ip
    → port' ≡ port
    → All (ToRelay ip' port') effects
    → All (ToRelay ip port) effects
ToRelay-moved effects {ip} {ip'} {port} {port'} e e' h =
    subst (λ p. All (ToRelay ip p) effects) e' (subst (λ a. All (ToRelay a port') effects) e h)

-- What a part of a round does.
abbrev Proper : Runtime → List Effect → Runtime → Type 0
Proper r effects r' = Keeps r r' × All (ToRelay r.client.server_ip r.client.server_port) effects

abbrev KeptBy : LoopState → List Effect × LoopState → Type 0
KeptBy l x = Proper l.runtime x.0 x.1.runtime

abbrev ReceivedBy : Runtime → Bool × List Effect × Runtime → Type 0
ReceivedBy r x = Proper r x.1 x.2

keepalive_failed-Proper :
    (i : Round) (l : LoopState)
    → Proper l.runtime (keepalive_failed i l).0 (keepalive_failed i l).1.runtime
unfolding keepalive_failed
keepalive_failed-Proper i l =
    let same = reopen-address i.socket i.bound l.runtime.client in
    if_both (KeptBy l) (leb 3 (l.keepalive_fails + 1))
      (record { running = refl; signalled = refl; ip = same.0; port = same.1 }, (tt, tt))
      (Keeps-refl l.runtime, tt)

keepalive_due-Proper :
    (i : Round) (l : LoopState)
    → Proper l.runtime (keepalive_due i l).0 (keepalive_due i l).1.runtime
unfolding keepalive_due client_send_keepalive client_send_raw
keepalive_due-Proper i l =
    let (kept, proper) = keepalive_failed-Proper i (record l { last_keepalive = i.now }) in
    if_both (KeptBy l) i.keepalive_sent
      (record { running = refl; signalled = refl; ip = refl; port = refl }, ((refl, refl), tt))
      (kept, ((refl, refl), proper))

keepalive_part-Proper :
    (i : Round) (l : LoopState)
    → Proper l.runtime (keepalive_part i l).0 (keepalive_part i l).1.runtime
unfolding keepalive_part
keepalive_part-Proper i l =
    if_both (KeptBy l) (leb keepalive_interval_ms (i.now - l.last_keepalive))
      (keepalive_due-Proper i l) (Keeps-refl l.runtime, tt)

abbrev Address : LoopState → List Effect × LoopState → Type 0
Address l x =
    All (ToRelay l.runtime.client.server_ip l.runtime.client.server_port) x.0
    × (x.1.runtime.client.server_ip ≡ l.runtime.client.server_ip)
    × (x.1.runtime.client.server_port ≡ l.runtime.client.server_port)

module _ (sha1 : List ℕ → List ℕ) where
  answer-ToRelay :
      (payload : List ℕ) (c : SlpClient)
      → All (ToRelay c.server_ip c.server_port) (to_list (client_handle_auth_me sha1 payload c))
  unfolding client_handle_auth_me client_send_raw
  answer-ToRelay [] c = tt
  answer-ToRelay (kind ∷ challenge) c =
      if_both (λ o. All (ToRelay c.server_ip c.server_port) (to_list o)) (not (kind == 0)) tt
        (if_both (λ o. All (ToRelay c.server_ip c.server_port) (to_list o)) (not c.has_credentials)
          tt ((refl, refl), tt))

  counted : (r : Runtime) → Keeps r (count_rx r)
  counted r = record { running = refl; signalled = refl; ip = refl; port = refl }

  received_part-Proper :
      (got : Option (ℕ × List ℕ)) (r : Runtime)
      → Proper r (received_part sha1 got r).1 (received_part sha1 got r).2
  unfolding received_part
  received_part-Proper none r = (Keeps-refl r, tt)
  received_part-Proper (some (type, frame)) r =
      if_both (ReceivedBy r) (type == type_ping) (Keeps-refl r, tt)
        (if_both (ReceivedBy r) (type == type_auth_me)
          (Keeps-refl r, answer-ToRelay (drop 1 frame) r.client)
          (if_both (ReceivedBy r) (ltb 1 (length frame)) (counted r, (tt, tt)) (counted r, tt)))

  pub round-Proper :
      (i : Round) (l : LoopState) → Proper l.runtime (round sha1 i l).1 (round sha1 i l).2.runtime
  unfolding round
  round-Proper i l =
      let (kept, proper) = keepalive_part-Proper i l in
      let (kept', proper') =
        received_part-Proper (client_recv i.received) (keepalive_part i l).1.runtime in
      (
        Keeps-trans kept kept',
        All-append (ToRelay l.runtime.client.server_ip l.runtime.client.server_port)
            (keepalive_part i l).0
            (ldn_tick
              ∷ (received_part sha1 (client_recv i.received) (keepalive_part i l).1.runtime).1)
            proper (tt, ToRelay-moved _ kept.ip kept.port proper'),
      )

  -- The loop over any rounds: it never changes the relay's address, and nothing is sent but to this address.
  pub run_loop-ToRelay :
      (is : List Round) (l : LoopState)
      → All (ToRelay l.runtime.client.server_ip l.runtime.client.server_port) (run_loop sha1 is l).0
        × ((run_loop sha1 is l).1.runtime.client.server_ip ≡ l.runtime.client.server_ip)
        × ((run_loop sha1 is l).1.runtime.client.server_port ≡ l.runtime.client.server_port)
  unfolding run_loop
  run_loop-ToRelay [] l = (tt, refl, refl)
  run_loop-ToRelay (i ∷ is) l =
      let (kept, proper) = round-Proper i l in
      let l' = (round sha1 i l).2 in
      let (rest, ip, port) = run_loop-ToRelay is l' in
      if_both (Address l) (not l.runtime.thread_running) (tt, refl, refl)
        (if_both (Address l) (round sha1 i l).0
          (
            All-append (ToRelay l.runtime.client.server_ip l.runtime.client.server_port)
                (round sha1 i l).1 (run_loop sha1 is l').0 proper
                (ToRelay-moved _ kept.ip kept.port rest),
            ip ∙ kept.ip,
            port ∙ kept.port,
          )
          (proper, kept.ip, kept.port))
