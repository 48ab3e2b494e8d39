-- ===== src/Socket/Teardown.antt =====
-- proxy_socket.cpp: Shutdown and Close.
use sys_slp_client.Base.{ℕ, true, not, ◌&&◌, ◌==◌, if◌then◌else◌, List, [], ◌∷◌}
use sys_slp_client.Net.BsdTypes.{inval, get_addr, get_port, is_tcp}
use sys_slp_client.Ring.{clear}
use sys_slp_client.Socket.State.{
  ProxySocket, Route, Outgoing, proxy_disconnect, Outcome, success, throws, closed,
}

-- `ShutdownHow`, by its value: 0 reads, 1 writes, 2 both.
unfoldable pub shutdown : ProxySocket → ℕ → Outcome × ProxySocket
shutdown s how =
    if how == 0
    then (success, record s { shutdown_read = true; receive_event = true })
    else if how == 1
    then (success, record s { shutdown_write = true; receive_event = true })
    else if how == 2
    then (success, record s { shutdown_read = true; shutdown_write = true; receive_event = true })
    else (throws inval, s)

unfoldable pub disconnect_route : ProxySocket → Route
disconnect_route s = record {
  source_ip = get_addr s.local_addr;
  source_port = get_port s.local_addr;
  dest_ip = get_addr s.remote_addr;
  dest_port = get_port s.remote_addr;
}

unfoldable pub close : ProxySocket → ProxySocket × List Outgoing
unfolding disconnect_route clear
close s = (
  record s {
    state = closed;
    shutdown_read = true;
    shutdown_write = true;
    receive_event = true;
    rx = clear s.rx;
  },
  if is_tcp s.protocol && not (get_port s.remote_addr == 0)
      then proxy_disconnect (disconnect_route s) ∷ []
      else [],
)
