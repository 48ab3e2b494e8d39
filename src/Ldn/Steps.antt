-- ===== src/Ldn/Steps.antt =====
-- Each call and each frame keeps LdnControl consistent.
use sys_slp_client.Base.{
  ℕ, ◌≤◌, ◌≡◌, refl, sym, ap, subst, Bool, true, false, not, ◌&&◌, ◌||◌, ◌==◌, ltb, leb,
  if◌then◌else◌, inl, inr, List, map, length, Option, none, some, arith, Bool-cases,
}
use sys_slp_client.Ldn.State.{
  CommState, is_state_none, is_access_point, is_access_point_created, is_station_connected,
  NetworkInfo, LdnControl, set_state,
}
use sys_slp_client.Ldn.Scanning.{max_scan_results}
use sys_slp_client.Ldn.Stations.{station_count, node_at, find_station_by_ip}
use sys_slp_client.Ldn.Heartbeat.{end_session}
use sys_slp_client.Ldn.Control.{
  CreateNetworkConfig, RelayHeartbeatPayload, initialize, finalize, open_as, close_session,
  create_network, created, destroy_network, reject, disconnect, reset_stations,
  init_node_state_change, exit_local_network_mode, enter_local_network_mode, clear_station,
  free_station, drop_found, host_left, handle_relay_bye, at_node,
}
use sys_slp_client.Ldn.Joining.{IsValid}
use sys_slp_client.Ldn.Results.{Distinct}
use sys_slp_client.Ldn.Slots.{clear_station-Shrinks, free_station-Shrinks}
use sys_slp_client.Ldn.Network.{
  IsConsistent, update_nodes-IsConsistent, quiet, same_table, same_mirrors, map-IsValid,
  at_node-IsValid,
}

abbrev HasListed : List NetworkInfo → Type 0
HasListed rs = (length rs ≤ max_scan_results) × Distinct rs

entered_lem :
    (entered : Bool) (c : LdnControl)
    → ((enter_local_network_mode entered c).1.stations ≡ c.stations)
      × ((enter_local_network_mode entered c).1.scan_results ≡ c.scan_results)
unfolding enter_local_network_mode
entered_lem entered c = elim (Bool-cases c.local_network_mode) [
  | inl on ↦ rw on (refl, refl)
  | inr off ↦ rw off (elim (Bool-cases entered) [
    | inl done ↦ rw done (refl, refl)
    | inr failed ↦ rw failed (refl, refl)
  ])
]

module _ (c : LdnControl) (v : IsConsistent c) where
  -- All stations taken out.
  abbrev emptied : LdnControl
  emptied = record c { stations = map clear_station c.stations }

  emptied-IsValid : IsValid emptied
  emptied-IsValid = map-IsValid clear_station c clear_station-Shrinks v.table

  pub initialize-IsConsistent : (virtual_ip : List ℕ) → IsConsistent (initialize virtual_ip c)
  unfolding initialize reset_stations init_node_state_change exit_local_network_mode set_state
  initialize-IsConsistent virtual_ip =
      quiet emptied (initialize virtual_ip c) refl emptied-IsValid (omega arith, tt) refl

  pub finalize-IsConsistent : IsConsistent (finalize c)
  unfolding finalize reset_stations exit_local_network_mode set_state
  finalize-IsConsistent = quiet emptied (finalize c) refl emptied-IsValid (omega arith, tt) refl

  pub close_session-IsConsistent : IsConsistent (close_session c).1
  unfolding close_session reset_stations exit_local_network_mode set_state
  close_session-IsConsistent = elim (Bool-cases (is_state_none c.session.state)) [
    | inl absent ↦ rw absent v
    | inr there ↦ rw there (quiet emptied _ refl emptied-IsValid v.results refl)
  ]

  pub open_as-IsConsistent :
      (s : CommState) (entered : Bool)
      → is_access_point_created s ≡ false
      → IsConsistent (open_as s entered c).1
  unfolding open_as reset_stations set_state station_count node_at
  open_as-IsConsistent s entered q = elim (Bool-cases (is_state_none c.session.state)) [
    | inl absent ↦ rw absent (record {
      table = same_table c (record c { disconnect_reason = 0 }) refl v.table;
      results = v.results;
      network = λ h. same_mirrors c (record c { disconnect_reason = 0 }) refl refl (v.network h);
    })
    | inr there ↦ rw there (
        quiet emptied _ (ap (map clear_station) (entered_lem entered c').0) emptied-IsValid
          (subst HasListed (sym (entered_lem entered c').1) v.results) q)
  ]
    where
      c' : LdnControl
      c' = record c { disconnect_reason = 0 }

  pub destroy_network-IsConsistent : IsConsistent (destroy_network c).1
  unfolding destroy_network reset_stations set_state
  destroy_network-IsConsistent = elim (Bool-cases (ltb 0 (station_count c))) [
    | inl some_there ↦ rw some_there (quiet emptied _ refl emptied-IsValid v.results refl)
    | inr alone ↦ rw alone (quiet emptied _ refl emptied-IsValid v.results refl)
  ]

  pub disconnect-IsConsistent : IsConsistent (disconnect c).1
  unfolding disconnect reset_stations set_state
  disconnect-IsConsistent =
      elim (Bool-cases (c.session.join_active && ltb 0 c.session.network_info.node_count)) [
        | inl joined ↦ rw joined (quiet emptied _ refl emptied-IsValid v.results refl)
        | inr free ↦ rw free (quiet emptied _ refl emptied-IsValid v.results refl)
      ]

  pub create_network-IsConsistent :
      (config : CreateNetworkConfig) (session_id : ℕ) (unk_random : List ℕ)
      → IsConsistent (create_network config session_id unk_random c).2
  unfolding create_network created reset_stations init_node_state_change set_state
  create_network-IsConsistent config session_id unk_random =
      elim (Bool-cases (is_access_point c.session.state)) [
        | inl opened ↦ rw opened (
            update_nodes-IsConsistent (created config session_id unk_random c)
              (same_table emptied _ refl emptied-IsValid) v.results)
        | inr closed ↦ rw closed v
      ]

  pub reject-IsConsistent : (node_id : ℕ) → IsConsistent (reject node_id c).1
  unfolding reject
  reject-IsConsistent node_id = elim (Bool-cases (ltb node_id 1 || leb 8 node_id)) [
    | inl out ↦ rw out v
    | inr seat ↦ rw seat (
        update_nodes-IsConsistent (record c { stations = at_node node_id free_station c.stations })
          (at_node-IsValid free_station node_id c free_station-Shrinks v.table) v.results)
  ]

  pub drop_found-IsConsistent : (found : Option ℕ) → IsConsistent (drop_found found c)
  unfolding drop_found
  drop_found-IsConsistent none = v
  drop_found-IsConsistent (some nid) =
      update_nodes-IsConsistent (record c { stations = at_node nid clear_station c.stations })
        (at_node-IsValid clear_station nid c clear_station-Shrinks v.table) v.results

  pub end_session-IsConsistent : (reason : ℕ) → IsConsistent (end_session reason c)
  unfolding end_session set_state
  end_session-IsConsistent reason = quiet c (end_session reason c) refl v.table v.results refl

  pub handle_relay_bye-IsConsistent :
      (src_ip : ℕ) (right_size : Bool) (bye : RelayHeartbeatPayload)
      → IsConsistent (handle_relay_bye src_ip right_size bye c)
  unfolding handle_relay_bye
  handle_relay_bye-IsConsistent src_ip false bye = v
  handle_relay_bye-IsConsistent src_ip true bye = keeps
    where
      goodbye : IsConsistent (if host_left bye c.session then end_session 3 c else c)
      goodbye = elim (Bool-cases (host_left bye c.session)) [
        | inl left ↦ rw left (end_session-IsConsistent 3)
        | inr other ↦ rw other v
      ]

      hosted : IsConsistent (
          if not (bye.bssid == c.session.network_info.bssid)
          then c
          else drop_found (find_station_by_ip c src_ip) c)
      hosted = elim (Bool-cases (bye.bssid == c.session.network_info.bssid)) [
        | inl own ↦ rw (ap not own) (drop_found-IsConsistent (find_station_by_ip c src_ip))
        | inr foreign ↦ rw (ap not foreign) v
      ]

      keeps : IsConsistent (handle_relay_bye src_ip true bye c)
      keeps = elim (Bool-cases (is_station_connected c.session.state)) [
        | inl joined ↦ rw joined goodbye
        | inr apart ↦ rw apart (elim (Bool-cases (is_access_point_created c.session.state)) [
          | inl hosting ↦ rw hosting hosted
          | inr idle ↦ rw idle v
        ])
      ]
