-- ===== src/Ldn/Control.antt =====
-- ldn_control.{hpp,cpp}: the game's calls, and HandleRelayBye.
use sys_slp_client.Base.{
  ℕ, zero, suc, ◌+◌, ◌-◌, ◌*◌, ◌%◌, u8, Bool, true, false, not, ◌&&◌, ◌||◌, ◌==◌, ltb, leb,
  if◌then◌else◌, Option, none, some, List, [], ◌∷◌, ◌++◌, replicate, take, drop, map,
}
use sys_slp_client.Ring.{modify}
use sys_slp_client.Ldn.State.{
  CommState, state_none, initialized, access_point, access_point_created, station, is_state_none,
  is_access_point, is_access_point_created, is_station_connected, zero_node, NetworkInfo,
  zero_network, Session, Station, NodeChange, LdnControl, fake_mac, as_number, set_state,
}
use sys_slp_client.Ldn.Stations.{
  advertise_data_size_max, find_station_by_ip, station_count, station_count_max, update_nodes,
}
use sys_slp_client.Ldn.Heartbeat.{end_session}

abbrev pub zero_station : Station
zero_station = record {
  active = false;
  connected = false;
  src_ip = 0;
  node = zero_node;
  last_seen = 0;
}

abbrev pub no_changes : List NodeChange
no_changes = replicate 8 (record { prev_connected = false; state_change = 0 })

-- The constructor.
abbrev pub new_control : LdnControl
new_control = record {
  session = record {
    state = state_none;
    ipv4_address = 0x0A0D2502;
    network_info = zero_network;
    join_active = false;
    join_target_bssid = 0;
    relay_sync_seq = 0;
    relay_sync_seq_valid = false;
    host_last_seen = 0;
  };
  disconnect_reason = 0;
  config_version = 0;
  advertise_buffer = replicate advertise_data_size_max 0;
  advertise_size = 0;
  self_name = [];
  stations = replicate station_count_max zero_station;
  scan_filter_lcid = 0;
  scan_results = [];
  last_beacon = 0;
  recent_scanners = replicate 16 (record { ip = 0; last_tick = 0; used = false });
  node_changes = no_changes;
  local_network_mode = false;
  signalled = false;
}

-- What a call answers: BadState is description 32 of module 0xCB.
pub data LdnResult : Type 0 where
  success : LdnResult
  failure : (module_id description : ℕ) → LdnResult
  nifm_failure : LdnResult

abbrev pub bad_state : LdnResult
bad_state = failure 0xCB 32

-- The characters from the current octet on; `oct` octets are read.
unfoldable pub parse_ip_from : List ℕ → ℕ → ℕ → ℕ → ℕ
parse_ip_from [] v oct cur =
    if ltb 255 cur || ltb 3 oct
    then 0
    else if oct + 1 == 4
    then v * 256 % 4294967296 + u8 cur
    else 0
parse_ip_from (p ∷ ps) v oct cur =
    let digit = parse_ip_from ps v oct (cur * 10 + (p - b'0')) in
    let dot = parse_ip_from ps (v * 256 % 4294967296 + u8 cur) (oct + 1) 0 in
    if leb b'0' p && leb p b'9'
    then digit
    else if p == b'.'
    then (if ltb 255 cur || ltb 3 oct then 0 else dot)
    else 0

-- `text` has no terminator.
unfoldable pub parse_ip : List ℕ → ℕ
unfolding parse_ip_from
parse_ip text = parse_ip_from text 0 0 0

unfoldable pub clear_station : Station → Station
clear_station s = record s { active = false; connected = false; node = zero_node }

unfoldable pub reset_stations : LdnControl → LdnControl
unfolding clear_station
reset_stations c = record c { stations = map clear_station c.stations }

unfoldable pub init_node_state_change : LdnControl → LdnControl
init_node_state_change c = record c { node_changes = no_changes }

-- `entered` tells whether the network service does all that is asked of it.
unfoldable pub enter_local_network_mode : Bool → LdnControl → LdnResult × LdnControl
enter_local_network_mode entered c =
    if c.local_network_mode
    then (success, c)
    else if entered
    then (success, record c { local_network_mode = true })
    else (nifm_failure, c)

unfoldable pub exit_local_network_mode : LdnControl → LdnControl
exit_local_network_mode c = record c { local_network_mode = false }

-- `virtual_ip` is what GetVirtualIp writes.
unfoldable pub initialize : List ℕ → LdnControl → LdnControl
unfolding parse_ip reset_stations init_node_state_change exit_local_network_mode set_state
initialize virtual_ip c =
    let ip = parse_ip virtual_ip in
    let c' = exit_local_network_mode (
      init_node_state_change (
        reset_stations (record c {
          session = record c.session { ipv4_address = if ip == 0 then 0x0A0D2502 else ip };
          disconnect_reason = 0;
          scan_results = [];
          scan_filter_lcid = 0;
        }))) in
    set_state initialized (record c' { signalled = false })

unfoldable pub finalize : LdnControl → LdnControl
unfolding exit_local_network_mode reset_stations set_state
finalize c =
    let c' = exit_local_network_mode c in
    set_state state_none (
      reset_stations (record c' {
        scan_results = [];
        scan_filter_lcid = 0;
        session = record c'.session { join_active = false; relay_sync_seq_valid = false };
      }))

-- OpenAccessPoint and OpenStation, which differ in the state. A network service that fails is only traced.
unfoldable pub open_as : CommState → Bool → LdnControl → LdnResult × LdnControl
unfolding enter_local_network_mode reset_stations set_state
open_as s entered c =
    let c' = record c { disconnect_reason = 0 } in
    if is_state_none c.session.state
    then (bad_state, c')
    else (success, set_state s (reset_stations (enter_local_network_mode entered c').1))

unfoldable pub open_access_point : Bool → LdnControl → LdnResult × LdnControl
unfolding open_as
open_access_point entered c = open_as access_point entered c

unfoldable pub open_station : Bool → LdnControl → LdnResult × LdnControl
unfolding open_as
open_station entered c = open_as station entered c

-- CloseAccessPoint and CloseStation, which are the same.
unfoldable pub close_session : LdnControl → LdnResult × LdnControl
unfolding exit_local_network_mode reset_stations set_state
close_session c =
    if is_state_none c.session.state
    then (bad_state, c)
    else (success, set_state initialized (reset_stations (exit_local_network_mode c)))

pub record NetworkConfig : Type 0 where
  pub local_communication_id : ℕ
  pub scene_id : ℕ
  pub channel : ℕ
  pub node_count_max : ℕ
  pub local_communication_version : ℕ

pub record CreateNetworkConfig : Type 0 where
  pub security_mode : ℕ
  pub user_name : List ℕ
  pub network_config : NetworkConfig

abbrev pub user_name_bytes_max : ℕ
user_name_bytes_max = 32

-- `12345678` four times.
abbrev pub fake_ssid : List ℕ
fake_ssid =
    let digits = 49 ∷ 50 ∷ 51 ∷ 52 ∷ 53 ∷ 54 ∷ 55 ∷ 56 ∷ [] in
    digits ++ (digits ++ (digits ++ digits))

-- `session_id` and `unk_random` are random.
abbrev pub created_network : CreateNetworkConfig → ℕ → List ℕ → ℕ → NetworkInfo
created_network config session_id unk_random ip = record zero_network {
  bssid = as_number (fake_mac ip) 0;
  ssid = fake_ssid;
  channel = if config.network_config.channel == 0 then 6 else config.network_config.channel;
  link_level = 3;
  network_type = 2;
  local_communication_id = config.network_config.local_communication_id;
  scene_id = config.network_config.scene_id;
  security_mode = config.security_mode;
  node_count_max = config.network_config.node_count_max;
  session_id = session_id;
  unk_random = unk_random;
  advertise_data = replicate advertise_data_size_max 0;
}

-- The state just before UpdateNodes.
unfoldable pub created : CreateNetworkConfig → ℕ → List ℕ → LdnControl → LdnControl
unfolding reset_stations init_node_state_change set_state
created config session_id unk_random c = set_state access_point_created (
    init_node_state_change (
      reset_stations (record c {
        session = record c.session {
          network_info = created_network config session_id unk_random c.session.ipv4_address;
        };
        config_version = config.network_config.local_communication_version;
        self_name = take user_name_bytes_max config.user_name;
        advertise_size = 0;
        advertise_buffer = replicate advertise_data_size_max 0;
      })))

-- With the call's result, the addresses that a SyncNetwork goes to.
unfoldable pub create_network :
    CreateNetworkConfig → ℕ → List ℕ → LdnControl → LdnResult × List ℕ × LdnControl
unfolding update_nodes created
create_network config session_id unk_random c =
    let updated = update_nodes (created config session_id unk_random c) in
    if not (is_access_point c.session.state)
    then (bad_state, [], c)
    else (success, updated.0, updated.1)

-- The payload of a heartbeat or a goodbye.
pub record RelayHeartbeatPayload : Type 0 where
  pub bssid : ℕ
  pub ipv4 : ℕ

-- The goodbye that is broadcast, if there is one.
unfoldable pub destroy_network : LdnControl → Option RelayHeartbeatPayload × LdnControl
unfolding station_count reset_stations set_state
destroy_network c =
    let bye : RelayHeartbeatPayload = record {
      bssid = c.session.network_info.bssid;
      ipv4 = c.session.ipv4_address;
    } in
    let c' = set_state access_point (reset_stations c) in
    if ltb 0 (station_count c) then (some bye, c') else (none, c')

-- The state just before UpdateNodes. A null pointer with a size keeps the bytes.
unfoldable pub advertising : Option (List ℕ) → ℕ → LdnControl → LdnControl
advertising bytes size c = record c {
  advertise_buffer = elim bytes [
    | none ↦ c.advertise_buffer
    | some bs ↦ take size bs ++ drop size c.advertise_buffer
  ];
  advertise_size = size;
  session = record c.session {
    network_info = record c.session.network_info { advertise_data_size = size };
  };
}

unfoldable pub set_advertise_data :
    Option (List ℕ) → ℕ → LdnControl → LdnResult × List ℕ × LdnControl
unfolding advertising update_nodes
set_advertise_data bytes size c =
    let updated = update_nodes (advertising bytes size c) in
    if ltb advertise_data_size_max size
    then (failure 0xFD 10, [], c)
    else (success, updated.0, updated.1)

unfoldable pub set_station_accept_policy : ℕ → LdnControl → LdnControl
set_station_accept_policy policy c = record c {
  session = record c.session {
    network_info = record c.session.network_info { station_accept_policy = policy };
  };
}

-- The slot of a node's number changed.
abbrev pub at_node : ℕ → (Station → Station) → List Station → List Station
at_node zero f stations = stations
at_node (suc i) f stations = modify stations i f

unfoldable pub free_station : Station → Station
free_station s = record s { active = false; connected = false }

unfoldable pub reject : ℕ → LdnControl → List ℕ × LdnControl
unfolding free_station update_nodes
reject node_id c =
    let updated = update_nodes (record c { stations = at_node node_id free_station c.stations }) in
    if ltb node_id 1 || leb 8 node_id then ([], c) else updated

-- Disconnect's goodbye goes to the address with it.
unfoldable pub disconnect : LdnControl → Option (ℕ × RelayHeartbeatPayload) × LdnControl
unfolding reset_stations set_state
disconnect c =
    let s = c.session in
    let bye : RelayHeartbeatPayload = record {
      bssid = s.join_target_bssid;
      ipv4 = s.ipv4_address;
    } in
    let c' = set_state station (
      reset_stations
        (record c { session = record s { join_active = false; relay_sync_seq_valid = false } })) in
    if s.join_active && ltb 0 s.network_info.node_count
    then (some ((s.network_info.nodes 0).ipv4_address, bye), c')
    else (none, c')

-- The station of the found number leaves.
unfoldable pub drop_found : Option ℕ → LdnControl → LdnControl
unfolding clear_station update_nodes
drop_found none c = c
drop_found (some nid) c =
    (update_nodes (record c { stations = at_node nid clear_station c.stations })).1

unfoldable pub host_left : RelayHeartbeatPayload → Session → Bool
host_left bye s =
    s.join_active
    && bye.bssid == s.join_target_bssid
    && bye.ipv4 == (s.network_info.nodes 0).ipv4_address

unfoldable pub handle_relay_bye : ℕ → Bool → RelayHeartbeatPayload → LdnControl → LdnControl
unfolding host_left end_session drop_found find_station_by_ip
handle_relay_bye src_ip right_size bye c =
    if not right_size
    then c
    else if is_station_connected c.session.state
    then (if host_left bye c.session then end_session 3 c else c)
    else if is_access_point_created c.session.state
    then (if not (bye.bssid == c.session.network_info.bssid)
        then c
        else drop_found (find_station_by_ip c src_ip) c)
    else c
