-- ===== src/Ldn/Sync.antt =====
-- ldn_control.cpp: HandleSyncNetwork and IsKnownSessionPeer.
use sys_slp_client.Base.{
  ℕ, zero, suc, ◌+◌, ◌-◌, Bool, true, false, not, ◌&&◌, ◌||◌, ◌==◌, ltb, if◌then◌else◌, u16,
}
use sys_slp_client.Ldn.State.{
  CommState, station_connected, is_station, is_station_connected, in_session, NodeInfo, NetworkInfo,
  Session, LdnControl, set_state, on_network_info_changed,
}

-- Whether one of the first `n` nodes is connected with the address.
unfoldable pub has_node : ℕ → ℕ → (ℕ → NodeInfo) → Bool
has_node zero ip nodes = false
has_node (suc n) ip nodes =
    let earlier = has_node n ip nodes in
    earlier || (nodes n).is_connected && (nodes n).ipv4_address == ip

unfoldable pub is_known_session_peer : Session → ℕ → Bool
unfolding has_node
is_known_session_peer c ip =
    if not (in_session c.state)
    then true
    else if ip == c.ipv4_address
    then true
    else has_node c.network_info.node_count ip c.network_info.nodes

-- A counter that was applied already, or that is up to 255 behind.
unfoldable pub is_stale : Session → ℕ → Bool
is_stale c relay_seq =
    c.relay_sync_seq_valid && ltb (u16 (c.relay_sync_seq + 65536 - relay_seq)) 256

-- The counter of a frame that is stamped.
unfoldable pub note_seq : Session → ℕ → Session
note_seq c relay_seq =
    if relay_seq == 0
    then c
    else record c { relay_sync_seq = relay_seq; relay_sync_seq_valid = true }

-- The state once the network information was copied in.
unfoldable pub confirmed_state : Session → NetworkInfo → CommState
unfolding has_node
confirmed_state c info =
    if is_station c.state && has_node info.node_count c.ipv4_address info.nodes
    then station_connected
    else c.state

unfoldable pub apply_sync : ℕ → NetworkInfo → Session → Session
unfolding confirmed_state
apply_sync now info c = record c {
  network_info = info;
  host_last_seen = now;
  state = confirmed_state c info;
}

-- The Boolean says whether OnNetworkInfoChanged is called. `right_size` is the check of the body's length.
unfoldable pub handle_sync_network : ℕ → Bool → NetworkInfo → ℕ → Session → Bool × Session
unfolding is_stale note_seq apply_sync
handle_sync_network now right_size info relay_seq c =
    let noted = note_seq c relay_seq in
    if not right_size
    then (false, c)
    else if not (is_station c.state || is_station_connected c.state)
    then (false, c)
    else if not (relay_seq == 0) && is_stale c relay_seq
    then (false, c)
    else if c.join_active && not (info.bssid == c.join_target_bssid)
    then (false, noted)
    else (true, apply_sync now info noted)

-- The members after HandleSyncNetwork, with the state event and the node changes.
unfoldable pub sync_done : Bool × Session → LdnControl → LdnControl
unfolding set_state on_network_info_changed
sync_done (false, s) c =
    set_state s.state (record c { session = record s { state = c.session.state } })
sync_done (true, s) c =
    on_network_info_changed
      (set_state s.state (record c { session = record s { state = c.session.state } }))

unfoldable pub on_sync_network : ℕ → Bool → NetworkInfo → ℕ → LdnControl → LdnControl
unfolding handle_sync_network sync_done
on_sync_network now right_size info relay_seq c =
    sync_done (handle_sync_network now right_size info relay_seq c.session) c
