-- ===== src/Ldn/Stations.antt =====
-- ldn_control.cpp: the host's table of the stations that joined, HandleConnect, BuildNetwork and UpdateNodes.
-- `stations` is the 7 entries of m_stations that the loops visit.
use sys_slp_client.Base.{
  ℕ, zero, suc, ◌+◌, Bool, true, false, not, ◌&&◌, ◌==◌, leb, if◌then◌else◌, Option, none, some,
  List, [], ◌∷◌, length, replicate, take, drop, ◌++◌,
}
use sys_slp_client.Ring.{modify}
use sys_slp_client.Ldn.Scanners.{was_recent_scanner}
use sys_slp_client.Ldn.State.{
  NodeInfo, zero_node, NetworkInfo, Station, LdnControl, is_access_point_created, fake_mac,
  on_network_info_changed,
}

abbrev pub station_count_max : ℕ
station_count_max = 7

-- The loop of the two searches from node `nid` on.
unfoldable pub find_node : (Station → Bool) → ℕ → List Station → Option ℕ
find_node test nid [] = none
find_node test nid (s ∷ rest) =
    let later = find_node test (nid + 1) rest in if test s then some nid else later

unfoldable pub has_ip : ℕ → Station → Bool
has_ip src_ip s = s.active && s.src_ip == src_ip

unfoldable pub find_station_by_ip : LdnControl → ℕ → Option ℕ
unfolding find_node has_ip
find_station_by_ip h src_ip = find_node (has_ip src_ip) 1 h.stations

unfoldable pub find_free_node_id : LdnControl → Option ℕ
unfolding find_node
find_free_node_id h = find_node (λ s. not s.active) 1 h.stations

-- The stations that are in the network, each with its node's number.
unfoldable pub members : ℕ → List Station → List (ℕ × Station)
members nid [] = []
members nid (s ∷ rest) =
    let later = members (nid + 1) rest in
    if s.active && s.connected then (nid, s) ∷ later else later

unfoldable pub station_count : LdnControl → ℕ
unfolding members
station_count h = length (members 1 h.stations)

abbrev pub host_node : LdnControl → NodeInfo
host_node h = record zero_node {
  ipv4_address = h.session.ipv4_address;
  mac_address = fake_mac h.session.ipv4_address;
  is_connected = true;
  user_name = h.self_name;
  local_communication_version = h.config_version;
}

-- Node `i` of the array after the host's: a copy of a member's, or zeroes.
unfoldable pub member_node : List (ℕ × Station) → ℕ → NodeInfo
member_node [] i = zero_node
member_node ((nid, s) ∷ rest) zero = record s.node { node_id = nid; is_connected = true }
member_node (_ ∷ rest) (suc i) = member_node rest i

unfoldable pub node_at : LdnControl → ℕ → NodeInfo
unfolding members member_node
node_at h zero = host_node h
node_at h (suc i) = member_node (members 1 h.stations) i

abbrev pub advertise_data_size_max : ℕ
advertise_data_size_max = 384

-- The first bytes of the array are overwritten, or all of it is cleared.
abbrev pub advertised : LdnControl → List ℕ
advertised h =
    if h.advertise_size == 0
    then replicate advertise_data_size_max 0
    else take h.advertise_size h.advertise_buffer
      ++ drop h.advertise_size h.session.network_info.advertise_data

unfoldable pub build_network : LdnControl → NetworkInfo
unfolding station_count node_at
build_network h = record h.session.network_info {
  node_count = suc (station_count h);
  nodes = node_at h;
  advertise_data_size = h.advertise_size;
  advertise_data = advertised h;
}

abbrev pub addresses : List (ℕ × Station) → List ℕ
addresses [] = []
addresses ((_, s) ∷ rest) = s.src_ip ∷ addresses rest

-- The network rebuilt, and the addresses that a SyncNetwork goes to.
unfoldable pub update_nodes : LdnControl → List ℕ × LdnControl
unfolding build_network members on_network_info_changed
update_nodes h = (
  addresses (members 1 h.stations),
  on_network_info_changed
      (record h { session = record h.session { network_info = build_network h } }),
)

-- What HandleConnect writes into a station's slot.
unfoldable pub seated : ℕ → ℕ → NodeInfo → ℕ → Station
seated now src_ip node nid = record {
  active = true;
  connected = true;
  src_ip = src_ip;
  node = record node {
    ipv4_address = src_ip;
    mac_address = fake_mac src_ip;
    node_id = nid;
    is_connected = true;
  };
  last_seen = now;
}

-- Slot `nid - 1` filled.
unfoldable pub seat : ℕ → ℕ → NodeInfo → ℕ → List Station → List Station
unfolding seated
seat now src_ip node zero stations = stations
seat now src_ip node (suc i) stations = modify stations i (λ _. seated now src_ip node (suc i))

-- The node number of a retry, or else a free one below the limit.
unfoldable pub take_slot : LdnControl → Option ℕ → Option ℕ
unfolding find_free_node_id station_count
take_slot h (some nid) = some nid
take_slot h none = if leb station_count_max (station_count h) then none else find_free_node_id h

abbrev pub is_known : Option ℕ → Bool
is_known none = false
is_known (some _) = true

unfoldable pub admit : ℕ → ℕ → NodeInfo → Option ℕ → LdnControl → Option (List ℕ) × LdnControl
unfolding seat update_nodes
admit now src_ip node none h = (none, h)
admit now src_ip node (some nid) h =
    let updated = update_nodes (record h { stations = seat now src_ip node nid h.stations }) in
    (some updated.0, updated.1)

-- The addresses that a SyncNetwork goes to, if UpdateNodes is reached. `right_size` is the check of the body's
-- length.
unfoldable pub handle_connect : ℕ → ℕ → Bool → NodeInfo → LdnControl → Option (List ℕ) × LdnControl
unfolding find_station_by_ip was_recent_scanner take_slot admit
handle_connect now src_ip right_size node h =
    if not (is_access_point_created h.session.state)
    then (none, h)
    else if not right_size
    then (none, h)
    else if not (was_recent_scanner now src_ip h.recent_scanners)
        && not (is_known (find_station_by_ip h src_ip))
    then (none, h)
    else admit now src_ip node (take_slot h (find_station_by_ip h src_ip)) h
