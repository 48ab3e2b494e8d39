-- ===== src/Socket/State.antt =====
-- proxy_socket.hpp: the socket's state, and proxy_connect_shim.hpp. The state that the code guards
-- with a mutex is changed by one method at a time; what other threads do during a blocking wait is
-- an argument of the method that waits. The members m_broadcast_address and m_socket_options are
-- written or declared and never read, and are left out.
use sys_slp_client.Base.{ℕ, Bool, true, false, List, [], replicate}
use sys_slp_client.Net.BsdTypes.{
  SocketType, ProtocolType, BsdErrno, SockAddrIn, zero_addr, af_inet, sizeof_sock_addr_in,
}
use sys_slp_client.Ring.{Ring}

abbrev pub proxy_socket_max_queue_size : ℕ
proxy_socket_max_queue_size = 32

abbrev pub proxy_socket_max_payload : ℕ
proxy_socket_max_payload = 2000

pub data ProxySocketState : Type 0 where
  created bound connecting connected listening closed : ProxySocketState

abbrev pub is_created : ProxySocketState → Bool
is_created created = true
is_created _ = false

abbrev pub is_connecting : ProxySocketState → Bool
is_connecting connecting = true
is_connecting _ = false

abbrev pub is_connected : ProxySocketState → Bool
is_connected connected = true
is_connected _ = false

abbrev pub is_listening : ProxySocketState → Bool
is_listening listening = true
is_listening _ = false

abbrev pub is_closed : ProxySocketState → Bool
is_closed closed = true
is_closed _ = false

-- A datagram in a ring slot: `len` bytes of the fixed buffer `payload` count.
pub record ReceivedPacket : Type 0 where
  pub from : SockAddrIn
  pub len : ℕ
  pub payload : List ℕ

abbrev pub empty_packet : ReceivedPacket
empty_packet = record { from = zero_addr; len = 0; payload = replicate proxy_socket_max_payload 0 }

-- `ProxyConnectInfo`; `unspecified` for its protocol means that the connection was accepted.
pub record ProxyConnectInfo : Type 0 where
  pub source_ipv4 : ℕ
  pub source_port : ℕ
  pub dest_ipv4 : ℕ
  pub dest_port : ℕ
  pub protocol : ProtocolType

-- The four addresses of a call of the manager's senders.
pub record Route : Type 0 where
  pub source_ip : ℕ
  pub source_port : ℕ
  pub dest_ip : ℕ
  pub dest_port : ℕ

-- A call that a socket makes on the manager, which hands it to a callback.
pub data Outgoing : Type 0 where
  proxy_data : Route → ProtocolType → List ℕ → Outgoing
  proxy_connect : Route → ProtocolType → Outgoing
  proxy_connect_reply : Route → Outgoing
  proxy_disconnect : Route → Outgoing

-- A socket in an accept queue: nobody can reach it before it is accepted, so it is what
-- `IncomingConnection` made it of.
pub record AcceptedSocket : Type 0 where
  pub type : SocketType
  pub protocol : ProtocolType
  pub local_addr : SockAddrIn
  pub remote_addr : SockAddrIn

pub record ProxySocket : Type 0 where
  pub type : SocketType
  pub protocol : ProtocolType
  pub state : ProxySocketState
  pub non_blocking : Bool
  pub shutdown_read : Bool
  pub shutdown_write : Bool
  pub local_addr : SockAddrIn
  pub remote_addr : SockAddrIn
  pub rx : Ring ReceivedPacket
  pub receive_event : Bool
  pub accept_queue : List AcceptedSocket
  pub accept_event : Bool
  pub connect_response_received : Bool
  pub connect_response : ProxyConnectInfo
  pub connect_event : Bool
  pub broadcast : Bool

-- A method's `Result`.
pub data Outcome : Type 0 where
  success : Outcome
  throws : BsdErrno → Outcome

-- An `s32` result: a byte count, or the negated error number.
pub data Count : Type 0 where
  bytes : ℕ → Count
  failed : BsdErrno → Count

abbrev pub inet_addr : SockAddrIn
inet_addr = record zero_addr { sin_family = af_inet; sin_len = sizeof_sock_addr_in }

abbrev pub no_info : ProxyConnectInfo
no_info = record {
  source_ipv4 = 0;
  source_port = 0;
  dest_ipv4 = 0;
  dest_port = 0;
  protocol = ProtocolType.unspecified;
}

-- The ring of a new socket. `size` slots.
unfoldable pub new_ring : ℕ → Ring ReceivedPacket
new_ring size = record { slots = replicate size empty_packet; head = 0; tail = 0; count = 0 }

unfoldable pub new_socket : SocketType → ProtocolType → ProxySocket
new_socket type protocol = record {
  type = type;
  protocol = protocol;
  state = created;
  non_blocking = false;
  shutdown_read = false;
  shutdown_write = false;
  local_addr = inet_addr;
  remote_addr = inet_addr;
  rx = new_ring proxy_socket_max_queue_size;
  receive_event = false;
  accept_queue = [];
  accept_event = false;
  connect_response_received = false;
  connect_response = no_info;
  connect_event = false;
  broadcast = false;
}

unfoldable pub set_non_blocking : ProxySocket → Bool → ProxySocket
set_non_blocking s on = record s { non_blocking = on }
