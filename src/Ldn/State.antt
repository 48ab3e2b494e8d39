-- ===== src/Ldn/State.antt =====
-- ldn_interfaces.hpp and ldn_control.{hpp,cpp}: the members of LdnControl, SetState and OnNetworkInfoChanged.
use sys_slp_client.Base.{
  ℕ, ◌+◌, ◌*◌, ◌%◌, ◌/◌, bit_or, Bool, true, false, not, ◌||◌, ◌==◌, if◌then◌else◌, List, [], ◌∷◌,
}
use sys_slp_client.Ldn.Scanners.{ScannerEntry}

pub data CommState : Type 0 where
  state_none initialized access_point access_point_created station station_connected error :
      CommState

abbrev pub comm_state : CommState → ℕ
comm_state state_none = 0
comm_state initialized = 1
comm_state access_point = 2
comm_state access_point_created = 3
comm_state station = 4
comm_state station_connected = 5
comm_state error = 6

abbrev pub is_state_none : CommState → Bool
is_state_none state_none = true
is_state_none _ = false

abbrev pub is_access_point : CommState → Bool
is_access_point access_point = true
is_access_point _ = false

abbrev pub is_access_point_created : CommState → Bool
is_access_point_created access_point_created = true
is_access_point_created _ = false

abbrev pub is_station : CommState → Bool
is_station station = true
is_station _ = false

abbrev pub is_station_connected : CommState → Bool
is_station_connected station_connected = true
is_station_connected _ = false

abbrev pub is_error : CommState → Bool
is_error error = true
is_error _ = false

abbrev pub in_session : CommState → Bool
in_session access_point_created = true
in_session station = true
in_session station_connected = true
in_session _ = false

-- `user_name` has no terminator; `other` is the unused bytes.
pub record NodeInfo : Type 0 where
  pub ipv4_address : ℕ
  pub mac_address : List ℕ
  pub node_id : ℕ
  pub is_connected : Bool
  pub user_name : List ℕ
  pub local_communication_version : ℕ
  pub other : List ℕ

abbrev pub zero_node : NodeInfo
zero_node = record {
  ipv4_address = 0;
  mac_address = 0 ∷ 0 ∷ 0 ∷ 0 ∷ 0 ∷ 0 ∷ [];
  node_id = 0;
  is_connected = false;
  user_name = [];
  local_communication_version = 0;
  other = [];
}

-- `bssid` is the MAC address as one number, `session_id` both its halves as one, and they are only compared. The nodes are
-- given by index, since the loops over a received count do not stop at the array's 8 nodes.
pub record NetworkInfo : Type 0 where
  pub local_communication_id : ℕ
  pub scene_id : ℕ
  pub session_id : ℕ
  pub bssid : ℕ
  pub ssid : List ℕ
  pub channel : ℕ
  pub link_level : ℕ
  pub network_type : ℕ
  pub unk_random : List ℕ
  pub security_mode : ℕ
  pub station_accept_policy : ℕ
  pub node_count_max : ℕ
  pub node_count : ℕ
  pub nodes : ℕ → NodeInfo
  pub advertise_data_size : ℕ
  pub advertise_data : List ℕ

abbrev pub zero_network : NetworkInfo
zero_network = record {
  local_communication_id = 0;
  scene_id = 0;
  session_id = 0;
  bssid = 0;
  ssid = [];
  channel = 0;
  link_level = 0;
  network_type = 0;
  unk_random = [];
  security_mode = 0;
  station_accept_policy = 0;
  node_count_max = 0;
  node_count = 0;
  nodes = λ _. zero_node;
  advertise_data_size = 0;
  advertise_data = [];
}

-- `02:00` and the address's bytes as they lie in memory.
abbrev pub fake_mac : ℕ → List ℕ
fake_mac ip = 2 ∷ 0 ∷ ip % 256 ∷ ip / 256 % 256 ∷ ip / 65536 % 256 ∷ ip / 16777216 % 256 ∷ []

abbrev pub as_number : List ℕ → ℕ → ℕ
as_number [] acc = acc
as_number (b ∷ bs) acc = as_number bs (acc * 256 + b)

-- What the membership test and HandleSyncNetwork read and write.
pub record Session : Type 0 where
  pub state : CommState
  pub ipv4_address : ℕ
  pub network_info : NetworkInfo
  pub join_active : Bool
  pub join_target_bssid : ℕ
  pub relay_sync_seq : ℕ
  pub relay_sync_seq_valid : Bool
  pub host_last_seen : ℕ

pub record Station : Type 0 where
  pub active : Bool
  pub connected : Bool
  pub src_ip : ℕ
  pub node : NodeInfo
  pub last_seen : ℕ

-- An entry of m_prev_node_connected with that of m_node_changes.
pub record NodeChange : Type 0 where
  pub prev_connected : Bool
  pub state_change : ℕ

-- `stations` is the 7 entries of m_stations that the loops visit, `signalled` the state event.
pub record LdnControl : Type 0 where
  pub session : Session
  pub disconnect_reason : ℕ
  pub config_version : ℕ
  pub advertise_buffer : List ℕ
  pub advertise_size : ℕ
  pub self_name : List ℕ
  pub stations : List Station
  pub scan_filter_lcid : ℕ
  pub scan_results : List NetworkInfo
  pub last_beacon : ℕ
  pub recent_scanners : List ScannerEntry
  pub node_changes : List NodeChange
  pub local_network_mode : Bool
  pub signalled : Bool

-- SetState, which signals a change only.
unfoldable pub set_state : CommState → LdnControl → LdnControl
set_state s c = record c {
  session = record c.session { state = s };
  signalled = not (comm_state c.session.state == comm_state s) || c.signalled;
}

unfoldable pub note_change : NodeInfo → NodeChange → NodeChange
note_change n c =
    if n.is_connected
    then (if c.prev_connected
        then c
        else record { prev_connected = true; state_change = bit_or c.state_change 1 })
    else if c.prev_connected
    then record { prev_connected = false; state_change = bit_or c.state_change 2 }
    else c

abbrev pub differs : Bool → Bool → Bool
differs true b = not b
differs false b = b

-- The loop of OnNetworkInfoChanged from node `i` on, and whether it sees a change.
unfoldable pub note_changes : (ℕ → NodeInfo) → ℕ → List NodeChange → List NodeChange
unfolding note_change
note_changes nodes i [] = []
note_changes nodes i (c ∷ cs) = note_change (nodes i) c ∷ note_changes nodes (i + 1) cs

unfoldable pub any_change : (ℕ → NodeInfo) → ℕ → List NodeChange → Bool
any_change nodes i [] = false
any_change nodes i (c ∷ cs) =
    differs (nodes i).is_connected c.prev_connected || any_change nodes (i + 1) cs

unfoldable pub on_network_info_changed : LdnControl → LdnControl
unfolding note_changes any_change
on_network_info_changed c = record c {
  node_changes = note_changes c.session.network_info.nodes 0 c.node_changes;
  signalled = any_change c.session.network_info.nodes 0 c.node_changes || c.signalled;
}
