-- ===== src/Manager/Callbacks.antt =====
-- proxy_socket_manager.cpp: the callbacks to the session, and the senders that call them.
use sys_slp_client.Base.{ℕ, Bool, false, Option, none, some, List}
use sys_slp_client.Net.BsdTypes.{ProtocolType, tcp}
use sys_slp_client.Socket.State.{
  Route, Outgoing, proxy_data, proxy_connect, proxy_connect_reply, proxy_disconnect,
}
use sys_slp_client.Manager.State.{ProxySocketManager, DataCallback, RouteCallback}

unfoldable pub set_send_callback : ProxySocketManager → Option DataCallback → ProxySocketManager
set_send_callback m callback = record m { send_callback = callback }

unfoldable pub set_proxy_connect_callback :
    ProxySocketManager → Option RouteCallback → ProxySocketManager
set_proxy_connect_callback m callback = record m { proxy_connect_callback = callback }

unfoldable pub set_proxy_connect_reply_callback :
    ProxySocketManager → Option RouteCallback → ProxySocketManager
set_proxy_connect_reply_callback m callback = record m { proxy_connect_reply_callback = callback }

unfoldable pub set_proxy_disconnect_callback :
    ProxySocketManager → Option RouteCallback → ProxySocketManager
set_proxy_disconnect_callback m callback = record m { proxy_disconnect_callback = callback }

abbrev call_data : Option DataCallback → Route → ProtocolType → List ℕ → Bool
call_data none route protocol payload = false
call_data (some callback) route protocol payload = callback route protocol payload

abbrev call_route : Option RouteCallback → Route → ProtocolType → Bool
call_route none route protocol = false
call_route (some callback) route protocol = callback route protocol

unfoldable pub send_proxy_data : ProxySocketManager → Route → ProtocolType → List ℕ → Bool
send_proxy_data m route protocol payload = call_data m.send_callback route protocol payload

unfoldable pub send_proxy_connect : ProxySocketManager → Route → ProtocolType → Bool
send_proxy_connect m route protocol = call_route m.proxy_connect_callback route protocol

unfoldable pub send_proxy_connect_reply : ProxySocketManager → Route → ProtocolType → Bool
send_proxy_connect_reply m route protocol = call_route m.proxy_connect_reply_callback route protocol

unfoldable pub send_proxy_disconnect : ProxySocketManager → Route → ProtocolType → Bool
send_proxy_disconnect m route protocol = call_route m.proxy_disconnect_callback route protocol

-- The manager's answer to a socket's call.
unfoldable pub answer : ProxySocketManager → Outgoing → Bool
unfolding send_proxy_data send_proxy_connect send_proxy_connect_reply send_proxy_disconnect
answer m (proxy_data route protocol payload) = send_proxy_data m route protocol payload
answer m (proxy_connect route protocol) = send_proxy_connect m route protocol
answer m (proxy_connect_reply route) = send_proxy_connect_reply m route tcp
answer m (proxy_disconnect route) = send_proxy_disconnect m route tcp
