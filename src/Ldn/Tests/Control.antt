-- ===== src/Ldn/Tests/Control.antt =====
-- The game's calls and the frames at concrete inputs.
use sys_slp_client.Base.{
  ℕ, ◌+◌, ◌≡◌, ◌==◌, refl, true, false, ◌⊎◌, List, [], ◌∷◌, some, arith, if◌then◌else◌,
}
use sys_slp_client.Ldn.State.{
  LdnControl, NetworkInfo, NodeInfo, zero_network, zero_node, station, is_station_connected,
}
use sys_slp_client.Ldn.Sync.{on_sync_network}
use sys_slp_client.Ldn.Scanning.{Arrivals, ScanFilter, scan, scanning, handle_scan_resp}
use sys_slp_client.Ldn.Control.{
  new_control, CreateNetworkConfig, initialize, parse_ip, open_access_point, create_network,
}
use sys_slp_client.Ldn.Heartbeat.{tick}
use sys_slp_client.Ldn.Calls.{
  handle_frame, connect_network, joining_network, lan_scan, lan_connect, lan_sync_network,
}
use sys_slp_client.Ldn.Events.{
  Event, call_initialize, call_open_access_point, call_create_network, on_frame, on_tick, run, step,
}
use sys_slp_client.Ldn.Network.{IsConsistent}
use sys_slp_client.Ldn.Invariant.{run-IsConsistent}
use sys_slp_client.Ldn.Membership.{Admits, step-joins}
use sys_slp_client.Ldn.Polling.{Connected, Scanned, connect_network_lem, scan_lem}

-- `10.13.37.3`
abbrev virtual_ip : List ℕ
virtual_ip = 49 ∷ 48 ∷ 46 ∷ 49 ∷ 51 ∷ 46 ∷ 51 ∷ 55 ∷ 46 ∷ 51 ∷ []

parsed : parse_ip virtual_ip ≡ 0x0A0D2503
unfolding parse_ip
parsed = refl

parsed_short : parse_ip (49 ∷ 48 ∷ 46 ∷ 49 ∷ []) ≡ 0
unfolding parse_ip
parsed_short = refl

abbrev config : CreateNetworkConfig
config = record {
  security_mode = 1;
  user_name = 65 ∷ 66 ∷ [];
  network_config = record {
    local_communication_id = 9;
    scene_id = 2;
    channel = 0;
    node_count_max = 8;
    local_communication_version = 3;
  };
}

abbrev guest : NodeInfo
guest = record zero_node { user_name = 67 ∷ [] }

-- A network is created, and 10.13.37.4 scans and joins.
abbrev events : List Event
events =
    call_initialize virtual_ip
    ∷ call_open_access_point true
    ∷ call_create_network config 5 []
    ∷ on_frame 1000 0x0A0D2504 lan_scan
    ∷ on_frame 2000 0x0A0D2504 (lan_connect true guest)
    ∷ on_tick 100000000
    ∷ []

two_nodes : (run events new_control).session.network_info.node_count ≡ 2
unfolding run tick handle_frame create_network open_access_point initialize
two_nodes = refl

run-IsConsistent_example : IsConsistent (run events new_control)
run-IsConsistent_example = run-IsConsistent events

abbrev info : NetworkInfo
info = record zero_network {
  bssid = 77;
  node_count = 2;
  nodes = λ i. record zero_node { ipv4_address = 0x0A0D2502 + i; is_connected = true };
}

abbrev waiting : LdnControl
waiting = record new_control {
  session = record new_control.session { state = station; ipv4_address = 0x0A0D2503 };
}

abbrev sync : Event
sync = on_frame 1000 0x0A0D2502 (lan_sync_network true info 0)

in_network : is_station_connected (step sync waiting).session.state ≡ true
unfolding step handle_frame
in_network = refl

step-joins_example : (is_station_connected waiting.session.state ≡ true) ⊎ Admits waiting sync
step-joins_example = step-joins waiting sync in_network

-- The host answers in the round 60.
abbrev answering : Arrivals
answering i c = if i == 60 then on_sync_network 1000 true info 0 c else c

connect_network_lem_example :
    Connected answering (joining_network info waiting) (connect_network answering info waiting)
connect_network_lem_example = connect_network_lem answering info waiting refl (omega arith)

connects : ((connect_network answering info waiting).1 ≡ 2)
unfolding connect_network on_sync_network
connects = refl

abbrev any_network : ScanFilter
any_network = record {
  by_local_communication_id = false;
  local_communication_id = 0;
  by_session_id = false;
  session_id = 0;
  by_network_type = false;
  network_type = 0;
  by_ssid = false;
  ssid = [];
  by_scene_id = false;
  scene_id = 0;
}

abbrev responding : Arrivals
responding i c = handle_scan_resp 0x0A0D2502 true info c

scan_lem_example :
    (found : List NetworkInfo) × (rounds : ℕ) × (frames : ℕ) × (c' : LdnControl) × (scan responding
        any_network 4 waiting
      ≡ (some (found, rounds, frames), c'))
    × Scanned responding any_network 4 (scanning any_network waiting) found rounds frames c'
scan_lem_example = scan_lem responding any_network 4 waiting refl refl

-- Three rounds, one broadcast and one network.
scan_ends : (scan responding any_network 4 waiting).0 ≡ some (info ∷ [], 3, 1)
unfolding scan handle_scan_resp
scan_ends = refl
