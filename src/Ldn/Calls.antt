-- ===== src/Ldn/Calls.antt =====
-- ldn_control.{hpp,cpp}: Connect, the queries, and the frames of the relay.
use sys_slp_client.Base.{
  ℕ, zero, suc, ◌+◌, ◌%◌, Bool, true, false, not, ◌||◌, ◌==◌, ltb, if◌then◌else◌, Option, none,
  some, List, [], map, take, drop, ◌++◌,
}
use sys_slp_client.Ldn.State.{
  CommState, is_state_none, is_access_point_created, is_station_connected, NodeInfo, zero_node,
  NetworkInfo, NodeChange, LdnControl, fake_mac,
}
use sys_slp_client.Ldn.Sync.{on_sync_network}
use sys_slp_client.Ldn.Stations.{handle_connect}
use sys_slp_client.Ldn.Scanning.{Arrivals, handle_scan, handle_scan_resp}
use sys_slp_client.Ldn.Heartbeat.{handle_relay_heartbeat}
use sys_slp_client.Ldn.Control.{
  LdnResult, success, failure, bad_state, user_name_bytes_max, RelayHeartbeatPayload,
  handle_relay_bye,
}

-- The polling loop of Connect from round `i` on: whether the session got connected, the Connect frames sent, and the state.
unfoldable pub poll_connected : Arrivals → ℕ → ℕ → LdnControl → Bool × ℕ × LdnControl
poll_connected arrive zero i c = (false, 0, c)
poll_connected arrive (suc left) i c =
    let rest = poll_connected arrive left (i + 1) (arrive i c) in
    let resent : ℕ = if i % 50 == 49 then 1 else 0 in
    if is_station_connected c.session.state then (true, 0, c) else (rest.0, rest.1 + resent, rest.2)

-- The state in which the poll begins.
abbrev pub joining_network : NetworkInfo → LdnControl → LdnControl
joining_network info c = record c {
  scan_results = [];
  scan_filter_lcid = 0;
  session = record c.session { join_active = true; join_target_bssid = info.bssid };
}

-- The node that the Connect frame carries.
abbrev pub own_node : List ℕ → ℕ → LdnControl → NodeInfo
own_node user_name version c = record zero_node {
  ipv4_address = c.session.ipv4_address;
  mac_address = fake_mac c.session.ipv4_address;
  is_connected = true;
  user_name = take user_name_bytes_max user_name;
  local_communication_version = version % 65536;
}

abbrev pub connect_end : Bool × ℕ × LdnControl → LdnResult × ℕ × LdnControl
connect_end (true, sent, c) = (success, sent + 1, c)
connect_end (false, sent, c) = (
  failure 0xCB 64,
  sent + 1,
  record c { session = record c.session { join_active = false; relay_sync_seq_valid = false } },
)

-- The call's result, the Connect frames sent, and the state.
unfoldable pub connect_network : Arrivals → NetworkInfo → LdnControl → LdnResult × ℕ × LdnControl
unfolding poll_connected
connect_network arrive info c =
    let polled = poll_connected arrive 300 0 (joining_network info c) in
    if is_state_none c.session.state
    then (bad_state, 0, c)
    else if info.node_count == 0
    then (failure 0xFD 30, 0, c)
    else connect_end polled

-- The states in which the queries are answered.
abbrev pub has_network : CommState → Bool
has_network s = is_access_point_created s || is_station_connected s

unfoldable pub get_network_info : LdnControl → Option NetworkInfo
get_network_info c = if not (has_network c.session.state) then none else some c.session.network_info

abbrev pub taken : NodeChange → NodeChange
taken n = record n { state_change = 0 }

-- The changes of the first `capacity` nodes, which are taken.
unfoldable pub get_network_info_latest_update : ℕ → LdnControl → LdnResult × List ℕ × LdnControl
get_network_info_latest_update capacity c =
    if ltb 8 capacity
    then (failure 0xFD 50, [], c)
    else if not (has_network c.session.state)
    then (bad_state, [], c)
    else (
      success,
      map (λ n. n.state_change) (take capacity c.node_changes),
      record c {
        node_changes = map taken (take capacity c.node_changes) ++ drop capacity c.node_changes;
      },
    )

unfoldable pub get_security_parameter : LdnControl → Option (ℕ × List ℕ)
get_security_parameter c =
    if not (has_network c.session.state)
    then none
    else some (c.session.network_info.session_id, c.session.network_info.unk_random)

-- A control frame after OnControlFrame's checks. A body is its size's check and what it holds at that size.
pub data LanFrame : Type 0 where
  lan_scan : LanFrame
  lan_scan_resp : (right_size : Bool) → NetworkInfo → LanFrame
  lan_connect : (right_size : Bool) → NodeInfo → LanFrame
  lan_sync_network : (right_size : Bool) → NetworkInfo → (seq : ℕ) → LanFrame
  lan_relay_heartbeat : (right_size : Bool) → RelayHeartbeatPayload → LanFrame
  lan_relay_bye : (right_size : Bool) → RelayHeartbeatPayload → LanFrame
  lan_unknown : LanFrame

-- The switch of OnControlFrame.
unfoldable pub handle_frame : ℕ → ℕ → LanFrame → LdnControl → LdnControl
unfolding handle_scan handle_scan_resp handle_connect on_sync_network handle_relay_heartbeat
    handle_relay_bye
handle_frame now src_ip lan_scan c = (handle_scan now src_ip c).1
handle_frame now src_ip (lan_scan_resp right_size info) c =
    handle_scan_resp src_ip right_size info c
handle_frame now src_ip (lan_connect right_size node) c =
    (handle_connect now src_ip right_size node c).1
handle_frame now src_ip (lan_sync_network right_size info seq) c =
    on_sync_network now right_size info seq c
handle_frame now src_ip (lan_relay_heartbeat right_size hb) c =
    handle_relay_heartbeat now src_ip right_size hb.bssid c
handle_frame now src_ip (lan_relay_bye right_size bye) c = handle_relay_bye src_ip right_size bye c
handle_frame now src_ip lan_unknown c = c
