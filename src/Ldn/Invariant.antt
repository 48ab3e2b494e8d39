-- ===== src/Ldn/Invariant.antt =====
-- LdnControl from its constructor on, whatever happens.
use sys_slp_client.Base.{
  ℕ, refl, ap, Bool, true, false, not, ◌||◌, ◌==◌, ltb, inl, inr, List, [], ◌∷◌, Option, arith,
  Bool-cases,
}
use sys_slp_client.Ldn.State.{LdnControl, NetworkInfo, is_state_none, is_error}
use sys_slp_client.Ldn.Scanning.{ScanFilter, scanning}
use sys_slp_client.Ldn.Stations.{station_count, node_at, advertise_data_size_max, has_ip}
use sys_slp_client.Ldn.Control.{
  new_control, set_advertise_data, advertising, set_station_accept_policy, enter_local_network_mode,
  exit_local_network_mode, open_access_point, open_station,
}
use sys_slp_client.Ldn.Calls.{
  LanFrame, lan_scan, lan_scan_resp, lan_connect, lan_sync_network, lan_relay_heartbeat,
  lan_relay_bye, lan_unknown, handle_frame, joining_network, connect_end,
  get_network_info_latest_update, has_network,
}
use sys_slp_client.Ldn.Events.{
  Event, call_initialize, call_finalize, call_open_access_point, call_open_station, call_close,
  call_create_network, call_destroy_network, call_set_advertise_data,
  call_set_station_accept_policy, call_reject, call_scan, call_connect, connect_failed,
  call_disconnect, call_get_network_info_latest_update, call_enter_local_network_mode,
  call_exit_local_network_mode, on_frame, on_tick, begin_scan, begin_connect, step, run,
}
use sys_slp_client.Ldn.Network.{
  IsConsistent, update_nodes-IsConsistent, same_table, same_mirrors, carry,
}
use sys_slp_client.Ldn.Steps.{
  initialize-IsConsistent, finalize-IsConsistent, close_session-IsConsistent, open_as-IsConsistent,
  destroy_network-IsConsistent, disconnect-IsConsistent, create_network-IsConsistent,
  reject-IsConsistent, handle_relay_bye-IsConsistent,
}
use sys_slp_client.Ldn.Inbound.{
  handle_scan-IsConsistent, handle_scan_resp-IsConsistent, handle_connect-IsConsistent,
  on_sync_network-IsConsistent, handle_relay_heartbeat-IsConsistent, tick-IsConsistent,
}

new_control-IsConsistent : IsConsistent new_control
unfolding has_ip
new_control-IsConsistent = record {
  table = record { slots = refl; unique = λ ip. omega arith };
  results = (omega arith, tt);
  network = λ h. cc h;
}

module _ (c : LdnControl) (v : IsConsistent c) where
  handle_frame-IsConsistent :
      (now src_ip : ℕ) (f : LanFrame) → IsConsistent (handle_frame now src_ip f c)
  unfolding handle_frame
  handle_frame-IsConsistent now src_ip lan_scan = handle_scan-IsConsistent c v now src_ip
  handle_frame-IsConsistent now src_ip (lan_scan_resp right_size info) =
      handle_scan_resp-IsConsistent c v src_ip right_size info
  handle_frame-IsConsistent now src_ip (lan_connect right_size node) =
      handle_connect-IsConsistent c v now src_ip right_size node
  handle_frame-IsConsistent now src_ip (lan_sync_network right_size info seq) =
      on_sync_network-IsConsistent c v now right_size info seq
  handle_frame-IsConsistent now src_ip (lan_relay_heartbeat right_size hb) =
      handle_relay_heartbeat-IsConsistent c v now src_ip right_size hb.bssid
  handle_frame-IsConsistent now src_ip (lan_relay_bye right_size bye) =
      handle_relay_bye-IsConsistent c v src_ip right_size bye
  handle_frame-IsConsistent now src_ip lan_unknown = v

  set_advertise_data-IsConsistent :
      (bytes : Option (List ℕ)) (size : ℕ) → IsConsistent (set_advertise_data bytes size c).2
  unfolding set_advertise_data advertising
  set_advertise_data-IsConsistent bytes size =
      elim (Bool-cases (ltb advertise_data_size_max size)) [
        | inl long ↦ rw long v
        | inr fits ↦ rw fits (
            update_nodes-IsConsistent (advertising bytes size c)
              (same_table c (advertising bytes size c) refl v.table) v.results)
      ]

  begin_scan-IsConsistent : (filter : ScanFilter) → IsConsistent (begin_scan filter c)
  unfolding begin_scan station_count node_at
  begin_scan-IsConsistent filter =
      elim (Bool-cases (is_state_none c.session.state || is_error c.session.state)) [
        | inl refused ↦ rw refused v
        | inr begun ↦ rw begun (record {
          table = same_table c (scanning filter c) refl v.table;
          results = (omega arith, tt);
          network = λ h. same_mirrors c (scanning filter c) refl refl (v.network h);
        })
      ]

  begin_connect-IsConsistent : (info : NetworkInfo) → IsConsistent (begin_connect info c)
  unfolding begin_connect station_count node_at
  begin_connect-IsConsistent info =
      elim (Bool-cases (is_state_none c.session.state || info.node_count == 0)) [
        | inl refused ↦ rw refused v
        | inr begun ↦ rw begun (record {
          table = same_table c (joining_network info c) refl v.table;
          results = (omega arith, tt);
          network = λ h. same_mirrors c (joining_network info c) refl refl (v.network h);
        })
      ]

  updates-IsConsistent : (capacity : ℕ) → IsConsistent (get_network_info_latest_update capacity c).2
  unfolding get_network_info_latest_update station_count node_at
  updates-IsConsistent capacity = elim (Bool-cases (ltb 8 capacity)) [
    | inl long ↦ rw long v
    | inr fits ↦ rw fits (elim (Bool-cases (has_network c.session.state)) [
      | inl shown ↦ rw (ap not shown) (carry c _ refl refl refl refl refl v)
      | inr hidden ↦ rw (ap not hidden) v
    ])
  ]

  enter-IsConsistent : (entered : Bool) → IsConsistent (enter_local_network_mode entered c).1
  unfolding enter_local_network_mode station_count node_at
  enter-IsConsistent entered = elim (Bool-cases c.local_network_mode) [
    | inl on ↦ simp on v
    | inr off ↦ simp off (elim (Bool-cases entered) [
      | inl done ↦
          simp done (carry c (record c { local_network_mode = true }) refl refl refl refl refl v)
      | inr failed ↦ simp failed v
    ])
  ]

  step-IsConsistent : (e : Event) → IsConsistent (step e c)
  unfolding step open_access_point open_station set_station_accept_policy exit_local_network_mode
      station_count node_at
  step-IsConsistent (call_initialize virtual_ip) = initialize-IsConsistent c v virtual_ip
  step-IsConsistent call_finalize = finalize-IsConsistent c v
  step-IsConsistent (call_open_access_point entered) = open_as-IsConsistent c v _ entered refl
  step-IsConsistent (call_open_station entered) = open_as-IsConsistent c v _ entered refl
  step-IsConsistent call_close = close_session-IsConsistent c v
  step-IsConsistent (call_create_network config session_id unk_random) =
      create_network-IsConsistent c v config session_id unk_random
  step-IsConsistent call_destroy_network = destroy_network-IsConsistent c v
  step-IsConsistent (call_set_advertise_data bytes size) =
      set_advertise_data-IsConsistent bytes size
  step-IsConsistent (call_set_station_accept_policy policy) =
      carry c (set_station_accept_policy policy c) refl refl refl refl refl v
  step-IsConsistent (call_reject node_id) = reject-IsConsistent c v node_id
  step-IsConsistent (call_scan filter) = begin_scan-IsConsistent filter
  step-IsConsistent (call_connect info) = begin_connect-IsConsistent info
  step-IsConsistent connect_failed =
      carry c (connect_end (false, 0, c)).2 refl refl refl refl refl v
  step-IsConsistent call_disconnect = disconnect-IsConsistent c v
  step-IsConsistent (call_get_network_info_latest_update capacity) = updates-IsConsistent capacity
  step-IsConsistent (call_enter_local_network_mode entered) = enter-IsConsistent entered
  step-IsConsistent call_exit_local_network_mode =
      carry c (exit_local_network_mode c) refl refl refl refl refl v
  step-IsConsistent (on_frame now src_ip f) = handle_frame-IsConsistent now src_ip f
  step-IsConsistent (on_tick now) = tick-IsConsistent c v now

run_from : (es : List Event) (c : LdnControl) → IsConsistent c → IsConsistent (run es c)
unfolding run
run_from [] c v = v
run_from (e ∷ es) c v = run_from es (step e c) (step-IsConsistent c v e)

-- Whatever calls, frames and Ticks happen since the constructor, in any order: there are 7 station slots and no address has two,
-- at most 8 scan results are kept and no network is among them twice, and while this console hosts, the network that it announces
-- is exactly itself and the connected stations of the table, in the table's order, with their count.
pub run-IsConsistent : (es : List Event) → IsConsistent (run es new_control)
run-IsConsistent es = run_from es new_control new_control-IsConsistent
