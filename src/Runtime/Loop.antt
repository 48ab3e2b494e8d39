-- ===== src/Runtime/Loop.antt =====
-- slp_runtime.cpp: RunLoop.
use sys_slp_client.Base.{
  ℕ, ◌+◌, ◌-◌, Bool, true, false, not, ◌||◌, ◌==◌, ltb, leb, if◌then◌else◌, Option, none, some,
  List, [], ◌∷◌, ◌++◌, drop, length,
}
use sys_slp_client.Tunnel.Codec.{type_ping}
use sys_slp_client.Client.Connection.{
  SlpClient, SentDatagram, type_auth_me, client_reopen, client_send_keepalive,
  client_handle_auth_me, client_recv,
}
use sys_slp_client.Runtime.{Runtime}

abbrev pub keepalive_interval_ms : ℕ
keepalive_interval_ms = 10000

-- The loop's variables, with the runtime. Times are in milliseconds.
pub record LoopState : Type 0 where
  pub runtime : Runtime
  pub last_keepalive : ℕ
  pub keepalive_fails : ℕ

-- What a round does to the outside, in order.
pub data Effect : Type 0 where
  sent : SentDatagram → Effect
  reopened : (success : Bool) → Effect
  ldn_tick : Effect
  tunnelled : (type : ℕ) → List ℕ → Effect

-- What the system answers during a round: whether the keepalive goes out, a new socket if one is asked for, and what is received.
pub record Round : Type 0 where
  pub now : ℕ
  pub keepalive_sent : Bool
  pub socket : Option ℕ
  pub bound : Bool
  pub received : Option (List ℕ)

abbrev pub with_client : SlpClient → Runtime → Runtime
with_client c r = record r { client = c }

-- The third failure in a row.
unfoldable pub keepalive_failed : Round → LoopState → List Effect × LoopState
unfolding client_reopen
keepalive_failed i l =
    let again = client_reopen i.socket i.bound l.runtime.client in
    if leb 3 (l.keepalive_fails + 1)
    then (
      reopened again.0 ∷ [],
      record l { keepalive_fails = 0; runtime = with_client again.1 l.runtime },
    )
    else ([], record l { keepalive_fails = l.keepalive_fails + 1 })

abbrev pub count_tx : Runtime → Runtime
count_tx r = record r { tx_frames = (r.tx_frames + 1) }

unfoldable pub keepalive_due : Round → LoopState → List Effect × LoopState
unfolding keepalive_failed client_send_keepalive
keepalive_due i l =
    let l' = record l { last_keepalive = i.now } in
    let failed = keepalive_failed i l' in
    let frame = sent (client_send_keepalive l.runtime.client) in
    if i.keepalive_sent
    then (frame ∷ [], record l' { keepalive_fails = 0; runtime = count_tx l.runtime })
    else (frame ∷ failed.0, failed.1)

unfoldable pub keepalive_part : Round → LoopState → List Effect × LoopState
unfolding keepalive_due
keepalive_part i l =
    if leb keepalive_interval_ms (i.now - l.last_keepalive) then keepalive_due i l else ([], l)

abbrev pub count_rx : Runtime → Runtime
count_rx r = record r { rx_frames = (r.rx_frames + 1) }

abbrev pub to_list : Option SentDatagram → List Effect
to_list none = []
to_list (some d) = sent d ∷ []

module _ (sha1 : List ℕ → List ℕ) where
  -- The Boolean tells whether the loop goes on without a look at the stop event.
  unfoldable pub received_part : Option (ℕ × List ℕ) → Runtime → Bool × List Effect × Runtime
  unfolding client_handle_auth_me
  received_part none r = (false, [], r)
  received_part (some (type, frame)) r =
      let body = drop 1 frame in
      if type == type_ping
      then (true, [], r)
      else if type == type_auth_me
      then (true, to_list (client_handle_auth_me sha1 body r.client), r)
      else if ltb 1 (length frame)
      then (false, tunnelled type body ∷ [], count_rx r)
      else (false, [], count_rx r)

  -- A round: its effects, the state, and whether another follows (the flag of the thread is looked at before it).
  unfoldable pub round : Round → LoopState → Bool × List Effect × LoopState
  unfolding keepalive_part received_part client_recv
  round i l =
      let kept = keepalive_part i l in
      let got = received_part (client_recv i.received) kept.1.runtime in
      (
        got.0 || not l.runtime.stop_signalled,
        kept.0 ++ (ldn_tick ∷ got.1),
        record kept.1 { runtime = got.2 },
      )

  -- The loop over the rounds that the system answers, while the thread is to run.
  unfoldable pub run_loop : List Round → LoopState → List Effect × LoopState
  unfolding round
  run_loop [] l = ([], l)
  run_loop (i ∷ is) l =
      let (again, effects, l') = round i l in
      let rest = run_loop is l' in
      if not l.runtime.thread_running
      then ([], l)
      else if again
      then (effects ++ rest.0, rest.1)
      else (effects, l')
