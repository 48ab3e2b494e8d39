-- ===== src/Runtime.antt =====
-- sysmodule/source/slpcfg/slp_runtime.{hpp,cpp}: the runtime of the relay client.
use sys_slp_client.Base.{
  ℕ, zero, suc, ◌+◌, ◌-◌, ◌*◌, ◌/◌, ◌%◌, Bool, true, false, not, ◌&&◌, ◌||◌, ◌==◌, ltb, leb,
  if◌then◌else◌, Option, none, some, List, [], ◌∷◌, ◌++◌, length, take, drop, bswap32,
}
use sys_slp_client.Servers.{SlpServer, servers_get, servers_parse}
use sys_slp_client.Tunnel.Codec.{type_ping}
use sys_slp_client.Client.Connection.{
  SlpClient, SentDatagram, type_auth_me, client_open, client_close, client_reopen,
  client_send_keepalive, client_send_ping, client_set_credentials, client_handle_auth_me,
  client_recv,
}
pub mod VirtualIp
pub mod Decimal
pub mod Persistence
pub mod Loop
pub mod Starting
pub mod Reconnecting
pub mod Retries
pub mod Tests

-- `servers` is the list of servers.c, `sel_index` none for -1.
pub record Runtime : Type 0 where
  pub servers : List SlpServer
  pub client : SlpClient
  pub sel_index : Option ℕ
  pub running : Bool
  pub ip : List ℕ
  pub relay_ip : ℕ
  pub connected_host : List ℕ
  pub thread_running : Bool
  pub stop_signalled : Bool
  pub rx_frames : ℕ
  pub tx_frames : ℕ

-- The selection after the list was read anew.
unfoldable pub reselect : Option ℕ → ℕ → Option ℕ
reselect none count = if ltb 0 count then some 0 else none
reselect (some i) count = if ltb i count then some i else (if ltb 0 count then some 0 else none)

-- `config` is the settings' text, if it can be read.
unfoldable pub reload_servers : Option (List ℕ) → Runtime → ℕ × Runtime
unfolding servers_parse reselect
reload_servers none r = (0, r)
reload_servers (some config) r =
    let servers = servers_parse config in
    (
      length servers,
      record r { servers = servers; sel_index = reselect r.sel_index (length servers) },
    )

-- `m_relay_ip` is in network order.
unfoldable pub relay_on_local_network : Runtime → Bool
relay_on_local_network r =
    let ip = bswap32 r.relay_ip in
    let first = ip / 16777216 % 256 in
    let first_two = ip / 65536 % 65536 in
    if r.relay_ip == 0
    then false
    else if first == 0x0A
    then true
    else if first == 0xAC
    then first_two / 16 == 0xAC1
    else if first == 0xC0
    then first_two == 0xC0A8
    else if first == 0xA9
    then first_two == 0xA9FE
    else false

unfoldable pub select_server : ℕ → Runtime → Bool × Runtime
select_server index r =
    if leb (length r.servers) index then (false, r) else (true, record r { sel_index = some index })

-- What the system answers during Start.
pub record StartAnswers : Type 0 where
  pub resolved : Option ℕ
  pub socket : Option ℕ
  pub bound : Bool
  pub virtual_ip : List ℕ
  pub thread_created : Bool

abbrev pub selected : Runtime → Option SlpServer
selected r = elim r.sel_index [ none ↦ none | some i ↦ servers_get i r.servers ]

-- The runtime with an open client, before the thread.
abbrev pub connected : StartAnswers → SlpServer → SlpClient → Runtime → Runtime
connected a s c r = record r {
  client = c;
  relay_ip = c.server_ip;
  ip = a.virtual_ip;
  connected_host = take 127 s.host;
  stop_signalled = false;
  thread_running = true;
}

module _ (sha1 : List ℕ → List ℕ) where
  unfoldable pub start_thread : StartAnswers → Runtime → Bool × Runtime
  start_thread a r =
      if a.thread_created
      then (true, record r { running = true })
      else (false, record r { client = client_close r.client; thread_running = false })

  -- The result of slpClientOpen tells how Start goes on.
  unfoldable pub start_opened :
      StartAnswers → SlpServer → Runtime → Bool × SlpClient → Bool × Runtime
  unfolding start_thread
  start_opened a s r (false, c) = (false, record r { client = c })
  start_opened a s r (true, c) = start_thread a (connected a s c r)

  unfoldable pub start_with : StartAnswers → Option SlpServer → Runtime → Bool × Runtime
  unfolding start_opened client_open client_set_credentials
  start_with a none r = (false, r)
  start_with a (some s) r = start_opened a s r (
      client_open a.resolved a.socket a.bound s.host s.port
        (client_set_credentials sha1 s.username s.password r.client))

  unfoldable pub start : StartAnswers → Runtime → Bool × Runtime
  unfolding start_with
  start a r = if r.running then (true, r) else start_with a (selected r) r

-- What Stop does once the state is claimed: the thread is waited for, then the client is closed and the tunnel cleared. The Boolean
-- tells whether that is done.
unfoldable pub stop : Runtime → Bool × Runtime
unfolding client_close
stop r = if not r.running then (false, r) else (
  true,
  record r {
    running = false;
    thread_running = false;
    stop_signalled = true;
    client = client_close r.client;
  },
)
