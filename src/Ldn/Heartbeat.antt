-- ===== src/Ldn/Heartbeat.antt =====
-- ldn_control.cpp: HandleRelayHeartbeat and Tick.
use sys_slp_client.Base.{
  ℕ, suc, ◌-◌, Bool, false, not, ◌&&◌, ◌||◌, ◌==◌, ltb, leb, if◌then◌else◌, Option, some, List, map,
}
use sys_slp_client.Ring.{modify}
use sys_slp_client.Ldn.State.{
  station, is_station, is_station_connected, is_access_point_created, zero_node, Session, Station,
  LdnControl, set_state,
}
use sys_slp_client.Ldn.Stations.{find_station_by_ip, update_nodes}

abbrev pub relay_beacon_interval_ticks : ℕ
relay_beacon_interval_ticks = 96000000

abbrev pub relay_peer_timeout_ticks : ℕ
relay_peer_timeout_ticks = 576000000

-- The frames that Tick sends.
pub data Beacon : Type 0 where
  silent : Beacon
  sync_network : (receivers : List ℕ) → Beacon
  relay_heartbeat : (host_ip bssid ip : ℕ) → Beacon

unfoldable pub touch : ℕ → Station → Station
touch now s = record s { last_seen = now }

unfoldable pub touch_found : ℕ → Option ℕ → List Station → List Station
unfolding touch
touch_found now (some (suc i)) stations = modify stations i (touch now)
touch_found now _ stations = stations

unfoldable pub handle_relay_heartbeat : ℕ → ℕ → Bool → ℕ → LdnControl → LdnControl
unfolding touch_found find_station_by_ip
handle_relay_heartbeat now src_ip right_size bssid h =
    if not right_size
    then h
    else if not (is_access_point_created h.session.state)
    then h
    else if not (bssid == h.session.network_info.bssid)
    then h
    else record h { stations = touch_found now (find_station_by_ip h src_ip) h.stations }

-- One round of the loop that drops silent stations.
unfoldable pub reap : ℕ → Station → Station
reap now s =
    if not s.active || not s.connected
    then s
    else if leb relay_peer_timeout_ticks (now - s.last_seen)
    then record s { active = false; connected = false; node = zero_node }
    else s

unfoldable pub tick_host : ℕ → LdnControl → Beacon × LdnControl
unfolding reap update_nodes
tick_host now h =
    let updated = update_nodes (record h { stations = map (reap now) h.stations }) in
    (sync_network updated.0, updated.1)

-- The host's address, where it is known.
unfoldable pub host_ip : Session → ℕ
host_ip c =
    if is_station_connected c.state && ltb 0 c.network_info.node_count
    then (c.network_info.nodes 0).ipv4_address
    else 0

unfoldable pub heartbeat_of : Session → Beacon
unfolding host_ip
heartbeat_of c =
    if c.join_active && not (host_ip c == 0)
    then relay_heartbeat (host_ip c) c.join_target_bssid c.ipv4_address
    else silent

-- A session that ends: nothing is joined any more.
unfoldable pub end_session : ℕ → LdnControl → LdnControl
unfolding set_state
end_session reason h = set_state station (record h {
  disconnect_reason = reason;
  session = record h.session { join_active = false; relay_sync_seq_valid = false };
})

unfoldable pub lose_host : ℕ → LdnControl → LdnControl
unfolding end_session
lose_host now h =
    if is_station_connected h.session.state
      && leb relay_peer_timeout_ticks (now - h.session.host_last_seen)
    then end_session 6 h
    else h

unfoldable pub tick_due : ℕ → LdnControl → Beacon × LdnControl
unfolding tick_host heartbeat_of lose_host
tick_due now h =
    if is_access_point_created h.session.state
    then tick_host now h
    else if is_station h.session.state || is_station_connected h.session.state
    then (heartbeat_of h.session, lose_host now h)
    else (silent, h)

unfoldable pub tick : ℕ → LdnControl → Beacon × LdnControl
unfolding tick_due
tick now h =
    if ltb (now - h.last_beacon) relay_beacon_interval_ticks
    then (silent, h)
    else tick_due now (record h { last_beacon = now })
