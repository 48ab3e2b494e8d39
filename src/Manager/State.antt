-- ===== src/Manager/State.antt =====
-- proxy_socket_manager.hpp: the manager's state. A method is one step: it holds
-- m_mutex while it uses the table. The calls of a socket that CloseProxySocket, CloseAllProxySockets, Reset and
-- RouteConnectRequest make after releasing it belong to the step.
use sys_slp_client.Base.{ℕ, Bool, Option, none, List, [], replicate}
use sys_slp_client.Net.BsdTypes.{ProtocolType}
use sys_slp_client.Ports.{EphemeralPortPool, empty_pool}
use sys_slp_client.Ring.{Ring}
use sys_slp_client.Socket.State.{ProxySocket, Route}

abbrev pub max_proxy_sockets : ℕ
max_proxy_sockets = 64

abbrev pub max_pending_packets : ℕ
max_pending_packets = 16

abbrev pub pending_payload_max : ℕ
pending_payload_max = 1400

pub record PendingPacket : Type 0 where
  pub source_ip : ℕ
  pub source_port : ℕ
  pub dest_ip : ℕ
  pub dest_port : ℕ
  pub len : ℕ
  pub protocol : ProtocolType
  pub payload : List ℕ

abbrev pub empty_pending : PendingPacket
empty_pending = record {
  source_ip = 0;
  source_port = 0;
  dest_ip = 0;
  dest_port = 0;
  len = 0;
  protocol = ProtocolType.unspecified;
  payload = replicate pending_payload_max 0;
}

-- A file descriptor is only compared. The owning pointer is never null while a method can see it.
abbrev pub Entry : Type 0
Entry = ℕ × ProxySocket

-- A callback is a function pointer, null before it is set and after a reset.
abbrev pub DataCallback : Type 0
DataCallback = Route → ProtocolType → List ℕ → Bool

abbrev pub RouteCallback : Type 0
RouteCallback = Route → ProtocolType → Bool

-- `sockets` lists the hash table in the order in which it is iterated.
pub record ProxySocketManager : Type 0 where
  pub sockets : List Entry
  pub port_pool : EphemeralPortPool
  pub local_ip : ℕ
  pub send_callback : Option DataCallback
  pub proxy_connect_callback : Option RouteCallback
  pub proxy_connect_reply_callback : Option RouteCallback
  pub proxy_disconnect_callback : Option RouteCallback
  pub pending : Ring PendingPacket

-- The pending ring of a new manager. `size` slots.
unfoldable pub new_pending : ℕ → Ring PendingPacket
new_pending size = record { slots = replicate size empty_pending; head = 0; tail = 0; count = 0 }

unfoldable pub new_manager : ProxySocketManager
unfolding new_pending
new_manager = record {
  sockets = [];
  port_pool = empty_pool;
  local_ip = 0;
  send_callback = none;
  proxy_connect_callback = none;
  proxy_connect_reply_callback = none;
  proxy_disconnect_callback = none;
  pending = new_pending max_pending_packets;
}
