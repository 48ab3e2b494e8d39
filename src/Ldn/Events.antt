-- ===== src/Ldn/Events.antt =====
-- ldn_control.cpp: what can happen to LdnControl while its mutex is held, in any order. Connect and Scan let go of the mutex
-- while they wait, and so are their parts.
use sys_slp_client.Base.{ℕ, Bool, false, ◌||◌, ◌==◌, if◌then◌else◌, Option, List, [], ◌∷◌}
use sys_slp_client.Ldn.State.{NetworkInfo, LdnControl, is_state_none, is_error}
use sys_slp_client.Ldn.Scanning.{ScanFilter, scanning}
use sys_slp_client.Ldn.Heartbeat.{tick}
use sys_slp_client.Ldn.Control.{
  CreateNetworkConfig, initialize, finalize, open_access_point, open_station, close_session,
  create_network, destroy_network, set_advertise_data, set_station_accept_policy, reject,
  disconnect, enter_local_network_mode, exit_local_network_mode,
}
use sys_slp_client.Ldn.Calls.{
  LanFrame, joining_network, connect_end, get_network_info_latest_update, handle_frame,
}

-- The mutex's holders. `call_scan` and `call_connect` begin a call, `connect_failed` ends Connect after its last round.
pub data Event : Type 0 where
  call_initialize : (virtual_ip : List ℕ) → Event
  call_finalize : Event
  call_open_access_point : (entered : Bool) → Event
  call_open_station : (entered : Bool) → Event
  call_close : Event
  call_create_network : CreateNetworkConfig → (session_id : ℕ) → (unk_random : List ℕ) → Event
  call_destroy_network : Event
  call_set_advertise_data : Option (List ℕ) → (size : ℕ) → Event
  call_set_station_accept_policy : (policy : ℕ) → Event
  call_reject : (node_id : ℕ) → Event
  call_scan : ScanFilter → Event
  call_connect : NetworkInfo → Event
  connect_failed : Event
  call_disconnect : Event
  call_get_network_info_latest_update : (capacity : ℕ) → Event
  call_enter_local_network_mode : (entered : Bool) → Event
  call_exit_local_network_mode : Event
  on_frame : (now src_ip : ℕ) → LanFrame → Event
  on_tick : (now : ℕ) → Event

unfoldable pub begin_scan : ScanFilter → LdnControl → LdnControl
begin_scan filter c =
    if is_state_none c.session.state || is_error c.session.state then c else scanning filter c

unfoldable pub begin_connect : NetworkInfo → LdnControl → LdnControl
begin_connect info c =
    if is_state_none c.session.state || info.node_count == 0 then c else joining_network info c

unfoldable pub step : Event → LdnControl → LdnControl
unfolding begin_scan begin_connect
step (call_initialize virtual_ip) c = initialize virtual_ip c
step call_finalize c = finalize c
step (call_open_access_point entered) c = (open_access_point entered c).1
step (call_open_station entered) c = (open_station entered c).1
step call_close c = (close_session c).1
step (call_create_network config session_id unk_random) c =
    (create_network config session_id unk_random c).2
step call_destroy_network c = (destroy_network c).1
step (call_set_advertise_data bytes size) c = (set_advertise_data bytes size c).2
step (call_set_station_accept_policy policy) c = set_station_accept_policy policy c
step (call_reject node_id) c = (reject node_id c).1
step (call_scan filter) c = begin_scan filter c
step (call_connect info) c = begin_connect info c
step connect_failed c = (connect_end (false, 0, c)).2
step call_disconnect c = (disconnect c).1
step (call_get_network_info_latest_update capacity) c =
    (get_network_info_latest_update capacity c).2
step (call_enter_local_network_mode entered) c = (enter_local_network_mode entered c).1
step call_exit_local_network_mode c = exit_local_network_mode c
step (on_frame now src_ip f) c = handle_frame now src_ip f c
step (on_tick now) c = (tick now c).1

unfoldable pub run : List Event → LdnControl → LdnControl
unfolding step
run [] c = c
run (e ∷ es) c = run es (step e c)
