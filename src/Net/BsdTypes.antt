-- ===== src/Net/BsdTypes.antt =====
-- sysmodule/source/bsd/bsd_types.hpp: the enumerations and the socket address of the BSD services.
use sys_slp_client.Base.{ℕ, Bool, true, false, List, ◌==◌, bit_and, bswap16, bswap32, replicate}
use sys_slp_client.Net.IpAddr.{IpV4, from_network, network}

pub data SocketType : Type 0 where
  stream dgram raw seqpacket : SocketType

pub data ProtocolType : Type 0 where
  unspecified icmp tcp udp : ProtocolType

-- The enumerators' values. Two enumerations are compared by these.
abbrev pub socket_type_value : SocketType → ℕ
socket_type_value stream = 1
socket_type_value dgram = 2
socket_type_value raw = 3
socket_type_value seqpacket = 5

abbrev pub protocol_value : ProtocolType → ℕ
protocol_value unspecified = 0
protocol_value icmp = 1
protocol_value tcp = 6
protocol_value udp = 17

abbrev pub same_protocol : ProtocolType → ProtocolType → Bool
same_protocol p q = protocol_value p == protocol_value q

abbrev pub is_stream : SocketType → Bool
is_stream stream = true
is_stream _ = false

abbrev pub is_tcp : ProtocolType → Bool
is_tcp tcp = true
is_tcp _ = false

-- The error numbers that the socket layer returns.
pub data BsdErrno : Type 0 where
  bad_f again fault inval dest_addr_req msg_size no_proto_opt op_not_supp : BsdErrno
  af_no_support addr_in_use net_unreach not_conn timed_out conn_refused in_progress : BsdErrno

pub errno_value : BsdErrno → ℕ
errno_value bad_f = 9
errno_value again = 11
errno_value fault = 14
errno_value inval = 22
errno_value dest_addr_req = 121
errno_value msg_size = 122
errno_value no_proto_opt = 109
errno_value op_not_supp = 95
errno_value af_no_support = 106
errno_value addr_in_use = 112
errno_value net_unreach = 114
errno_value not_conn = 128
errno_value timed_out = 116
errno_value conn_refused = 111
errno_value in_progress = 119

-- `AddressFamily::Inet`, and `sizeof(SockAddrIn)`.
abbrev pub af_inet : ℕ
af_inet = 2

abbrev pub sizeof_sock_addr_in : ℕ
sizeof_sock_addr_in = 16

-- `sin_port` and `sin_addr` hold network byte order, as little-endian words of the machine.
pub record SockAddrIn : Type 0 where
  pub sin_len : ℕ
  pub sin_family : ℕ
  pub sin_port : ℕ
  pub sin_addr : ℕ
  pub sin_zero : List ℕ

-- `SockAddrIn x{}`, and what `memset` leaves.
abbrev pub zero_addr : SockAddrIn
zero_addr = record {
  sin_len = 0;
  sin_family = 0;
  sin_port = 0;
  sin_addr = 0;
  sin_zero = replicate 8 0;
}

unfoldable pub get_port : SockAddrIn → ℕ
get_port a = bswap16 a.sin_port

unfoldable pub get_addr : SockAddrIn → ℕ
get_addr a = bswap32 a.sin_addr

unfoldable pub addr : SockAddrIn → IpV4
addr a = from_network a.sin_addr

unfoldable pub set_addr : SockAddrIn → IpV4 → SockAddrIn
set_addr a ip = record a { sin_addr = network ip }

abbrev pub lan_network_base : ℕ
lan_network_base = 0x0A0D0000

abbrev pub lan_network_mask : ℕ
lan_network_mask = 0xFFFF0000

unfoldable pub is_lan_address : ℕ → Bool
is_lan_address ip = bit_and ip lan_network_mask == lan_network_base

-- `SockAddrIn::IsLanAddress`.
unfoldable pub is_lan_sock_addr : SockAddrIn → Bool
unfolding is_lan_address
is_lan_sock_addr a = is_lan_address (bswap32 a.sin_addr)
