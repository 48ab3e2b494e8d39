-- ===== src/Socket/Options.antt =====
-- proxy_socket.cpp: SetSockOpt and GetSockOpt. Option values are `s32`s; a `void *` with its length
-- is a value with the length that the caller states, or `none` for nullptr.
use sys_slp_client.Base.{
  ℕ, Bool, not, ◌&&◌, ◌||◌, ◌==◌, ltb, leb, if◌then◌else◌, Option, none, some,
}
use sys_slp_client.Net.BsdTypes.{BsdErrno, inval, fault, no_proto_opt, socket_type_value}
use sys_slp_client.Socket.State.{ProxySocket, Outcome, success, throws}

abbrev pub sol_socket : ℕ
sol_socket = 0xFFFF

abbrev pub so_broadcast : ℕ
so_broadcast = 0x0020

abbrev pub so_error : ℕ
so_error = 0x1007

abbrev pub so_type : ℕ
so_type = 0x1008

abbrev pub sizeof_s32 : ℕ
sizeof_s32 = 4

-- SO_BROADCAST wants a value that is long enough; every other option is accepted and ignored.
unfoldable pub set_sock_opt : ProxySocket → ℕ → ℕ → Option ℕ → ℕ → Outcome × ProxySocket
set_sock_opt s level optname none optlen =
    if level == sol_socket && optname == so_broadcast then (throws inval, s) else (success, s)
set_sock_opt s level optname (some value) optlen =
    if level == sol_socket && optname == so_broadcast
    then (if leb sizeof_s32 optlen
        then (success, record s { broadcast = not (value == 0) })
        else (throws inval, s))
    else (success, s)

-- The value and the length that are written back.
pub data OptionValue : Type 0 where
  value : ℕ → ℕ → OptionValue
  option_error : BsdErrno → OptionValue

-- `has_out` is false if either pointer is nullptr.
unfoldable pub get_sock_opt : ProxySocket → ℕ → ℕ → Bool → ℕ → OptionValue
get_sock_opt s level optname has_out optlen =
    if not has_out
    then option_error fault
    else if not (level == sol_socket) || ltb optlen sizeof_s32
    then option_error no_proto_opt
    else if optname == so_type
    then value (socket_type_value s.type) sizeof_s32
    else if optname == so_error
    then value 0 sizeof_s32
    else if optname == so_broadcast
    then value (if s.broadcast then 1 else 0) sizeof_s32
    else option_error no_proto_opt
