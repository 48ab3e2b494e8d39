-- ===== src/Ldn/Membership.antt =====
-- How this console gets into a session.
use sys_slp_client.Base.{
  ℕ, ◌≡◌, refl, sym, ap, ◌∙◌, Bool, true, false, ◌&&◌, if◌then◌else◌, inl, inr, List, Option, none,
  some, ◌⊎◌, arith,
}
use sys_slp_client.Ldn.State.{
  CommState, station_connected, LdnControl, NetworkInfo, Session, is_station_connected, is_station,
  set_state, on_network_info_changed, NodeInfo,
}
use sys_slp_client.Ldn.Sync.{
  has_node, sync_done, on_sync_network, apply_sync, confirmed_state, note_seq,
}
use sys_slp_client.Ldn.Scanning.{handle_scan, handle_scan_resp, ScanFilter}
use sys_slp_client.Ldn.Stations.{update_nodes, handle_connect, admit, take_slot, find_station_by_ip}
use sys_slp_client.Ldn.Heartbeat.{
  handle_relay_heartbeat, tick, tick_due, tick_host, lose_host, end_session,
}
use sys_slp_client.Ldn.Control.{
  CreateNetworkConfig, RelayHeartbeatPayload, initialize, finalize, open_as, open_access_point,
  open_station, close_session, create_network, created, destroy_network, set_advertise_data,
  advertising, reject, disconnect, reset_stations, init_node_state_change, exit_local_network_mode,
  enter_local_network_mode, set_station_accept_policy, drop_found, handle_relay_bye,
}
use sys_slp_client.Ldn.Calls.{
  LanFrame, lan_scan, lan_scan_resp, lan_connect, lan_sync_network, lan_relay_heartbeat,
  lan_relay_bye, lan_unknown, handle_frame, get_network_info_latest_update,
}
use sys_slp_client.Ldn.Events.{
  Event, call_initialize, call_finalize, call_open_access_point, call_open_station, call_close,
  call_create_network, call_destroy_network, call_set_advertise_data,
  call_set_station_accept_policy, call_reject, call_scan, call_connect, connect_failed,
  call_disconnect, call_get_network_info_latest_update, call_enter_local_network_mode,
  call_exit_local_network_mode, on_frame, on_tick, begin_scan, begin_connect, step,
}
use sys_slp_client.Ldn.Inbound.{
  Synced, ignored, counted, applied, handle_sync_network-Synced, noted_state,
}

-- A SyncNetwork that makes a station a member of the network.
pub record Admits (c : LdnControl) (e : Event) : Type 0 where
  pub now : ℕ
  pub src_ip : ℕ
  pub info : NetworkInfo
  pub seq : ℕ
  pub frame : e ≡ on_frame now src_ip (lan_sync_network true info seq)
  pub waiting : is_station c.session.state ≡ true
  pub listed : has_node info.node_count c.session.ipv4_address info.nodes ≡ true

-- A step that does not bring this console into a network.
abbrev pub Stays : LdnControl → LdnControl → Type 0
Stays c c' =
    is_station_connected c'.session.state ≡ true → is_station_connected c.session.state ≡ true

module _ (c : LdnControl) where
  open_as-Stays :
      (s : CommState) (entered : Bool)
      → is_station_connected s ≡ false
      → Stays c (open_as s entered c).1
  unfolding open_as reset_stations set_state
  open_as-Stays s entered q h = ground arith

  close_session-Stays : Stays c (close_session c).1
  unfolding close_session exit_local_network_mode reset_stations set_state
  close_session-Stays h = ground arith

  update_nodes-Stays : Stays c (update_nodes c).1
  unfolding update_nodes on_network_info_changed
  update_nodes-Stays h = h

  create_network-Stays :
      (config : CreateNetworkConfig) (session_id : ℕ) (unk_random : List ℕ)
      → Stays c (create_network config session_id unk_random c).2
  unfolding create_network created init_node_state_change reset_stations set_state update_nodes
      on_network_info_changed
  create_network-Stays config session_id unk_random h = ground arith

  destroy_network-Stays : Stays c (destroy_network c).1
  unfolding destroy_network reset_stations set_state
  destroy_network-Stays h = ground arith

  disconnect-Stays : Stays c (disconnect c).1
  unfolding disconnect reset_stations set_state
  disconnect-Stays h = ground arith

  reject-Stays : (node_id : ℕ) → Stays c (reject node_id c).1
  unfolding reject update_nodes on_network_info_changed
  reject-Stays node_id h = ground arith

  set_advertise_data-Stays :
      (bytes : Option (List ℕ)) (size : ℕ) → Stays c (set_advertise_data bytes size c).2
  unfolding set_advertise_data advertising update_nodes on_network_info_changed
  set_advertise_data-Stays bytes size h = ground arith

  begin_scan-Stays : (filter : ScanFilter) → Stays c (begin_scan filter c)
  unfolding begin_scan
  begin_scan-Stays filter h = ground arith

  begin_connect-Stays : (info : NetworkInfo) → Stays c (begin_connect info c)
  unfolding begin_connect
  begin_connect-Stays info h = ground arith

  updates-Stays : (capacity : ℕ) → Stays c (get_network_info_latest_update capacity c).2
  unfolding get_network_info_latest_update
  updates-Stays capacity h = ground arith

  enter-Stays : (entered : Bool) → Stays c (enter_local_network_mode entered c).1
  unfolding enter_local_network_mode
  enter-Stays entered h = ground arith

  handle_scan-Stays : (now src_ip : ℕ) → Stays c (handle_scan now src_ip c).1
  unfolding handle_scan
  handle_scan-Stays now src_ip h = ground arith

  handle_scan_resp-Stays :
      (src_ip : ℕ) (right_size : Bool) (info : NetworkInfo)
      → Stays c (handle_scan_resp src_ip right_size info c)
  unfolding handle_scan_resp
  handle_scan_resp-Stays src_ip right_size info h = ground arith

  admit-Stays :
      (now src_ip : ℕ) (node : NodeInfo) (slot : Option ℕ)
      → Stays c (admit now src_ip node slot c).1
  unfolding admit update_nodes on_network_info_changed
  admit-Stays now src_ip node none h = h
  admit-Stays now src_ip node (some nid) h = h

  handle_connect-Stays :
      (now src_ip : ℕ) (right_size : Bool) (node : NodeInfo)
      → Stays c (handle_connect now src_ip right_size node c).1
  unfolding handle_connect
  handle_connect-Stays now src_ip right_size node h =
      ground (arith, admit-Stays now src_ip node (take_slot c (find_station_by_ip c src_ip)))

  handle_relay_heartbeat-Stays :
      (now src_ip : ℕ) (right_size : Bool) (bssid : ℕ)
      → Stays c (handle_relay_heartbeat now src_ip right_size bssid c)
  unfolding handle_relay_heartbeat
  handle_relay_heartbeat-Stays now src_ip right_size bssid h = ground arith

  drop_found-Stays : (found : Option ℕ) → Stays c (drop_found found c)
  unfolding drop_found update_nodes on_network_info_changed
  drop_found-Stays none h = h
  drop_found-Stays (some nid) h = h

  end_session-Stays : (reason : ℕ) → Stays c (end_session reason c)
  unfolding end_session set_state
  end_session-Stays reason h = absurd (cc h)

  handle_relay_bye-Stays :
      (src_ip : ℕ) (right_size : Bool) (bye : RelayHeartbeatPayload)
      → Stays c (handle_relay_bye src_ip right_size bye c)
  unfolding handle_relay_bye
  handle_relay_bye-Stays src_ip right_size bye h =
      ground (arith, drop_found-Stays (find_station_by_ip c src_ip), end_session-Stays 3)

  lose_host-Stays : (now : ℕ) → Stays c (lose_host now c)
  unfolding lose_host
  lose_host-Stays now h = ground (arith, end_session-Stays 6)

  tick_due-Stays : (now : ℕ) → Stays c (tick_due now c).1
  unfolding tick_due tick_host update_nodes on_network_info_changed
  tick_due-Stays now h = ground (arith, lose_host-Stays now)

tick-Stays : (c : LdnControl) (now : ℕ) → Stays c (tick now c).1
unfolding tick
tick-Stays c now h = ground (arith, tick_due-Stays (record c { last_beacon = now }) now)

-- What a SyncNetwork does to the state.
module _ (now : ℕ) (right_size : Bool) (info : NetworkInfo) (seq : ℕ) (c : LdnControl) where
  noted_ip : (note_seq c.session seq).ipv4_address ≡ c.session.ipv4_address
  unfolding note_seq
  noted_ip = ground arith

  joins :
      (s : CommState) (b : Bool)
      → is_station_connected (if is_station s && b then station_connected else s) ≡ true
      → (is_station_connected s ≡ true) ⊎ (is_station s ≡ true) × (b ≡ true)
  joins s b h = ground arith

  -- The console was a member, or becomes one because it is listed.
  abbrev Joins : Type 0
  Joins =
      (is_station_connected c.session.state ≡ true)
      ⊎ (right_size ≡ true)
        × (is_station c.session.state ≡ true)
        × (has_node info.node_count c.session.ipv4_address info.nodes ≡ true)

  synced_joins :
      (r : Bool × Session)
      → Synced now right_size info seq c.session r
      → is_station_connected (sync_done r c).session.state ≡ true
      → Joins
  unfolding sync_done set_state on_network_info_changed apply_sync confirmed_state
  synced_joins _ ignored h = inl h
  synced_joins _ (counted j) h = inl (sym (ap is_station_connected (noted_state c.session seq)) ∙ h)
  synced_joins _ (applied z j) h =
      elim (joins (note_seq c.session seq).state
        (has_node info.node_count (note_seq c.session seq).ipv4_address info.nodes) h) [
          | inl member ↦ inl (sym (ap is_station_connected (noted_state c.session seq)) ∙ member)
          | inr (waits, listed) ↦ inr (
            z,
            sym (ap is_station (noted_state c.session seq)) ∙ waits,
            sym (ap (λ ip. has_node info.node_count ip info.nodes) noted_ip) ∙ listed,
          )
        ]

handle_frame-joins :
    (c : LdnControl) (now src_ip : ℕ) (f : LanFrame)
    → is_station_connected (handle_frame now src_ip f c).session.state ≡ true
    → (is_station_connected c.session.state ≡ true) ⊎ Admits c (on_frame now src_ip f)
unfolding handle_frame on_sync_network
handle_frame-joins c now src_ip lan_scan h = inl (handle_scan-Stays c now src_ip h)
handle_frame-joins c now src_ip (lan_scan_resp right_size info) h =
    inl (handle_scan_resp-Stays c src_ip right_size info h)
handle_frame-joins c now src_ip (lan_connect right_size node) h =
    inl (handle_connect-Stays c now src_ip right_size node h)
handle_frame-joins c now src_ip (lan_sync_network right_size info seq) h =
    elim (synced_joins now right_size info seq c _
      (handle_sync_network-Synced now right_size info seq c.session) h) [
        | inl member ↦ inl member
        | inr (fits, waits, found) ↦ inr (record {
          now = now;
          src_ip = src_ip;
          info = info;
          seq = seq;
          frame = ap (λ b. on_frame now src_ip (lan_sync_network b info seq)) fits;
          waiting = waits;
          listed = found;
        })
      ]
handle_frame-joins c now src_ip (lan_relay_heartbeat right_size hb) h =
    inl (handle_relay_heartbeat-Stays c now src_ip right_size hb.bssid h)
handle_frame-joins c now src_ip (lan_relay_bye right_size bye) h =
    inl (handle_relay_bye-Stays c src_ip right_size bye h)
handle_frame-joins c now src_ip lan_unknown h = inl h

-- No call, frame or Tick makes this console a member of a network but a SyncNetwork of the right size that lists its address as a
-- connected node, and that reaches it while it is in the Station state.
pub step-joins :
    (c : LdnControl) (e : Event)
    → is_station_connected (step e c).session.state ≡ true
    → (is_station_connected c.session.state ≡ true) ⊎ Admits c e
unfolding step initialize finalize open_access_point open_station exit_local_network_mode
    reset_stations init_node_state_change set_state set_station_accept_policy
step-joins c (call_initialize virtual_ip) h = absurd (cc h)
step-joins c call_finalize h = absurd (cc h)
step-joins c (call_open_access_point entered) h = inl (open_as-Stays c _ entered refl h)
step-joins c (call_open_station entered) h = inl (open_as-Stays c _ entered refl h)
step-joins c call_close h = inl (close_session-Stays c h)
step-joins c (call_create_network config session_id unk_random) h =
    inl (create_network-Stays c config session_id unk_random h)
step-joins c call_destroy_network h = inl (destroy_network-Stays c h)
step-joins c (call_set_advertise_data bytes size) h = inl (set_advertise_data-Stays c bytes size h)
step-joins c (call_set_station_accept_policy policy) h = inl h
step-joins c (call_reject node_id) h = inl (reject-Stays c node_id h)
step-joins c (call_scan filter) h = inl (begin_scan-Stays c filter h)
step-joins c (call_connect info) h = inl (begin_connect-Stays c info h)
step-joins c connect_failed h = inl h
step-joins c call_disconnect h = inl (disconnect-Stays c h)
step-joins c (call_get_network_info_latest_update capacity) h = inl (updates-Stays c capacity h)
step-joins c (call_enter_local_network_mode entered) h = inl (enter-Stays c entered h)
step-joins c call_exit_local_network_mode h = inl h
step-joins c (on_frame now src_ip f) h = handle_frame-joins c now src_ip f h
step-joins c (on_tick now) h = inl (tick-Stays c now h)
