-- ===== src/Ldn/Inbound.antt =====
-- Each frame of the relay and each Tick keeps LdnControl consistent.
use sys_slp_client.Base.{
  ℕ, zero, suc, ◌-◌, ◌≡◌, refl, sym, ap, ◌∙◌, subst, Bool, true, false, not, ◌&&◌, ◌||◌, ◌==◌, ltb,
  leb, if◌then◌else◌, inl, inr, List, map, Option, none, some, ◌⊎◌, Bool-cases,
}
use sys_slp_client.Ring.{modify}
use sys_slp_client.Ldn.State.{
  CommState, access_point_created, station, station_connected, is_access_point_created, is_station,
  is_station_connected, NodeInfo, NetworkInfo, Session, LdnControl, set_state,
  on_network_info_changed,
}
use sys_slp_client.Ldn.Sync.{
  handle_sync_network, sync_done, apply_sync, confirmed_state, note_seq, is_stale, on_sync_network,
}
use sys_slp_client.Ldn.Scanners.{was_recent_scanner, record_scanner}
use sys_slp_client.Ldn.Scanning.{handle_scan, handle_scan_resp, max_scan_results, collect}
use sys_slp_client.Ldn.Stations.{
  station_count, node_at, update_nodes, handle_connect, admit, take_slot, find_station_by_ip,
  is_known, seat,
}
use sys_slp_client.Ldn.Heartbeat.{
  handle_relay_heartbeat, touch_found, touch, tick, tick_due, tick_host, lose_host, reap,
  relay_beacon_interval_ticks, relay_peer_timeout_ticks,
}
use sys_slp_client.Ldn.Joining.{
  IsValid, Handled, handle_connect_lem, not_hosting, wrong_size, stranger, full, joined,
}
use sys_slp_client.Ldn.Results.{length-collect, collect-Distinct}
use sys_slp_client.Ldn.Slots.{touch-Shrinks, reap-Shrinks, member_node-touch, length-members-touch}
use sys_slp_client.Ldn.Network.{
  Mirrors, IsConsistent, update_nodes-IsConsistent, quiet, same_table, same_mirrors, carry,
  map-IsValid, at_node-IsValid,
}
use sys_slp_client.Ldn.Steps.{end_session-IsConsistent}

-- What HandleSyncNetwork answers, and leaves.
pub data Synced (now : ℕ) (right_size : Bool) (info : NetworkInfo) (seq : ℕ) (s : Session)
    : Bool × Session → Type 0 where
  ignored : Synced now right_size info seq s (false, s)
  counted :
      is_station s.state || is_station_connected s.state ≡ true
      → Synced now right_size info seq s (false, note_seq s seq)
  applied :
      right_size ≡ true
      → is_station s.state || is_station_connected s.state ≡ true
      → Synced now right_size info seq s (true, apply_sync now info (note_seq s seq))

pub handle_sync_network-Synced :
    (now : ℕ) (right_size : Bool) (info : NetworkInfo) (seq : ℕ) (s : Session)
    → Synced now right_size info seq s (handle_sync_network now right_size info seq s)
unfolding handle_sync_network
handle_sync_network-Synced now false info seq s = ignored
handle_sync_network-Synced now true info seq s =
    elim (Bool-cases (is_station s.state || is_station_connected s.state)) [
      | inr apart ↦ rw apart ignored
      | inl joined_now ↦ rw joined_now (elim (Bool-cases (not (seq == 0) && is_stale s seq)) [
        | inl stale ↦ rw stale ignored
        | inr fresh ↦
            rw fresh (elim (Bool-cases (s.join_active && not (info.bssid == s.join_target_bssid))) [
              | inl foreign ↦ rw foreign (counted joined_now)
              | inr own ↦ rw own (applied refl joined_now)
            ])
      ])
    ]

not_joined :
    (s : CommState)
    → is_station s || is_station_connected s ≡ true
    → is_access_point_created s ≡ false
not_joined access_point_created h = absurd (cc h)
not_joined station h = refl
not_joined _ h = refl

still_apart :
    (s : CommState) (b : Bool)
    → is_access_point_created s ≡ false
    → is_access_point_created (if is_station s && b then station_connected else s) ≡ false
still_apart station true h = refl
still_apart station false h = refl
still_apart _ b h = h

pub noted_state : (s : Session) (seq : ℕ) → (note_seq s seq).state ≡ s.state
unfolding note_seq
noted_state s seq = elim (Bool-cases (seq == 0)) [
  | inl zero_seq ↦ rw zero_seq refl
  | inr stamped ↦ rw stamped refl
]

module _ (c : LdnControl) (v : IsConsistent c) where
  pub handle_scan_resp-IsConsistent :
      (src_ip : ℕ) (right_size : Bool) (info : NetworkInfo)
      → IsConsistent (handle_scan_resp src_ip right_size info c)
  unfolding handle_scan_resp station_count node_at
  handle_scan_resp-IsConsistent src_ip false info = v
  handle_scan_resp-IsConsistent src_ip true info =
      elim (Bool-cases (src_ip == c.session.ipv4_address)) [
        | inl echo ↦ rw echo v
        | inr other ↦
            rw other
              (elim (Bool-cases (
                not (c.scan_filter_lcid == 0)
                && not (info.local_communication_id == c.scan_filter_lcid))) [
                  | inl unwanted ↦ rw unwanted v
                  | inr wanted ↦ rw wanted collected
                ])
      ]
    where
      c' : LdnControl
      c' = record c { scan_results = collect info max_scan_results c.scan_results }

      collected : IsConsistent c'
      collected = record {
        table = same_table c c' refl v.table;
        results = (
          length-collect info max_scan_results c.scan_results v.results.0,
          collect-Distinct info max_scan_results c.scan_results v.results.1,
        );
        network = λ h. same_mirrors c c' refl refl (v.network h);
      }

  sync_done-IsConsistent :
      (now : ℕ) (right_size : Bool) (info : NetworkInfo) (seq : ℕ) (r : Bool × Session)
      → Synced now right_size info seq c.session r
      → IsConsistent (sync_done r c)
  unfolding sync_done set_state on_network_info_changed apply_sync confirmed_state station_count
      node_at
  sync_done-IsConsistent now right_size info seq _ ignored =
      carry c (sync_done (false, c.session) c) refl refl refl refl refl v
  sync_done-IsConsistent now right_size info seq _ (counted j) =
      quiet c (sync_done (false, note_seq c.session seq) c) refl v.table v.results
        (ap is_access_point_created (noted_state c.session seq) ∙ not_joined c.session.state j)
  sync_done-IsConsistent now right_size info seq _ (applied z j) =
      quiet c (sync_done (true, apply_sync now info (note_seq c.session seq)) c) refl v.table
        v.results
        (still_apart (note_seq c.session seq).state _
          (ap is_access_point_created (noted_state c.session seq) ∙ not_joined c.session.state j))

  pub on_sync_network-IsConsistent :
      (now : ℕ) (right_size : Bool) (info : NetworkInfo) (seq : ℕ)
      → IsConsistent (on_sync_network now right_size info seq c)
  unfolding on_sync_network
  on_sync_network-IsConsistent now right_size info seq =
      sync_done-IsConsistent now right_size info seq _
        (handle_sync_network-Synced now right_size info seq c.session)

  pub handle_scan-IsConsistent : (now src_ip : ℕ) → IsConsistent (handle_scan now src_ip c).1
  unfolding handle_scan station_count node_at
  handle_scan-IsConsistent now src_ip =
      elim (Bool-cases (is_access_point_created c.session.state)) [
        | inl hosting ↦ rw (ap not hosting) (
            carry c (record c { recent_scanners = record_scanner now src_ip c.recent_scanners })
              refl refl refl refl refl v)
        | inr idle ↦ rw (ap not idle) v
      ]

  admit-IsConsistent :
      (now src_ip : ℕ) (node : NodeInfo) (slot : Option ℕ)
      → IsValid (admit now src_ip node slot c).1
      → IsConsistent (admit now src_ip node slot c).1
  unfolding admit update_nodes on_network_info_changed
  admit-IsConsistent now src_ip node none w = v
  admit-IsConsistent now src_ip node (some nid) w =
      update_nodes-IsConsistent (record c { stations = seat now src_ip node nid c.stations })
        (same_table (update_nodes (record c { stations = seat now src_ip node nid c.stations })).1 _
          refl w)
        v.results

  touched-IsValid :
      (now : ℕ) (found : Option ℕ)
      → IsValid (record c { stations = touch_found now found c.stations })
  unfolding touch_found
  touched-IsValid now none = same_table c c refl v.table
  touched-IsValid now (some zero) = same_table c c refl v.table
  touched-IsValid now (some (suc i)) =
      at_node-IsValid (touch now) (suc i) c (touch-Shrinks now) v.table

  touched-Mirrors :
      (now : ℕ) (found : Option ℕ)
      → Mirrors c
      → Mirrors (record c { stations = touch_found now found c.stations })
  unfolding touch_found station_count node_at
  touched-Mirrors now none m = m
  touched-Mirrors now (some zero) m = m
  touched-Mirrors now (some (suc k)) m = record {
    count = m.count ∙ ap suc (sym (length-members-touch now k 1 c.stations));
    same_nodes = same;
  }
    where
      c' : LdnControl
      c' = record c { stations = modify c.stations k (touch now) }

      same : (i : ℕ) → c.session.network_info.nodes i ≡ node_at c' i
      same zero = m.same_nodes 0
      same (suc i) = m.same_nodes (suc i) ∙ sym (member_node-touch now k 1 c.stations i)

  pub handle_relay_heartbeat-IsConsistent :
      (now src_ip : ℕ) (right_size : Bool) (bssid : ℕ)
      → IsConsistent (handle_relay_heartbeat now src_ip right_size bssid c)
  unfolding handle_relay_heartbeat
  handle_relay_heartbeat-IsConsistent now src_ip false bssid = v
  handle_relay_heartbeat-IsConsistent now src_ip true bssid =
      elim (Bool-cases (is_access_point_created c.session.state)) [
        | inr idle ↦ rw (ap not idle) v
        | inl hosting ↦
            rw (ap not hosting) (elim (Bool-cases (bssid == c.session.network_info.bssid)) [
              | inr foreign ↦ rw (ap not foreign) v
              | inl own ↦ rw (ap not own) (record {
                table = touched-IsValid now (find_station_by_ip c src_ip);
                results = v.results;
                network = λ h. touched-Mirrors now (find_station_by_ip c src_ip) (v.network h);
              })
            ])
      ]

  handle_connect_cases :
      (now src_ip : ℕ) (right_size : Bool) (node : NodeInfo)
      → ((handle_connect now src_ip right_size node c).1 ≡ c)
        ⊎ ((handle_connect now src_ip right_size node c).1
            ≡ (admit now src_ip node (take_slot c (find_station_by_ip c src_ip)) c).1)
  unfolding handle_connect
  handle_connect_cases now src_ip false node =
      elim (Bool-cases (is_access_point_created c.session.state)) [
        | inr idle ↦ rw (ap not idle) (inl refl)
        | inl hosting ↦ rw (ap not hosting) (inl refl)
      ]
  handle_connect_cases now src_ip true node =
      elim (Bool-cases (is_access_point_created c.session.state)) [
        | inr idle ↦ rw (ap not idle) (inl refl)
        | inl hosting ↦
            rw (ap not hosting)
              (elim (Bool-cases (
                not (was_recent_scanner now src_ip c.recent_scanners)
                && not (is_known (find_station_by_ip c src_ip)))) [
                  | inl foreign ↦ rw foreign (inl refl)
                  | inr fine ↦ rw fine (inr refl)
                ])
      ]

  handled_IsValid :
      (now src_ip : ℕ) (right_size : Bool) (r : Option (List ℕ) × LdnControl)
      → Handled now src_ip right_size c r
      → IsValid r.1
  handled_IsValid now src_ip right_size _ (not_hosting h) = v.table
  handled_IsValid now src_ip right_size _ (wrong_size h) = v.table
  handled_IsValid now src_ip right_size _ (stranger h k) = v.table
  handled_IsValid now src_ip right_size _ (full h k) = v.table
  handled_IsValid now src_ip right_size _ (joined h' nid _ _ _ w f which others n) = w

  pub handle_connect-IsConsistent :
      (now src_ip : ℕ) (right_size : Bool) (node : NodeInfo)
      → IsConsistent (handle_connect now src_ip right_size node c).1
  handle_connect-IsConsistent now src_ip right_size node =
      elim (handle_connect_cases now src_ip right_size node) [
        | inl same ↦ subst IsConsistent (sym same) v
        | inr let_in ↦ subst IsConsistent (sym let_in) (
            admit-IsConsistent now src_ip node (take_slot c (find_station_by_ip c src_ip)) (
              subst IsValid let_in (
                handled_IsValid now src_ip right_size _
                  (handle_connect_lem now src_ip right_size node c v.table))))
      ]

  tick_host-IsConsistent : (now : ℕ) → IsConsistent (tick_host now c).1
  unfolding tick_host
  tick_host-IsConsistent now =
      update_nodes-IsConsistent (record c { stations = map (reap now) c.stations })
        (map-IsValid (reap now) c (reap-Shrinks now) v.table) v.results

  lose_host-IsConsistent : (now : ℕ) → IsConsistent (lose_host now c)
  unfolding lose_host
  lose_host-IsConsistent now =
      elim (Bool-cases (
        is_station_connected c.session.state
        && leb relay_peer_timeout_ticks (now - c.session.host_last_seen))) [
          | inl lost ↦ rw lost (end_session-IsConsistent c v 6)
          | inr kept ↦ rw kept v
        ]

  tick_due-IsConsistent : (now : ℕ) → IsConsistent (tick_due now c).1
  unfolding tick_due
  tick_due-IsConsistent now = elim (Bool-cases (is_access_point_created c.session.state)) [
    | inl hosting ↦ rw hosting (tick_host-IsConsistent now)
    | inr guest ↦
        rw guest
          (elim (Bool-cases (is_station c.session.state || is_station_connected c.session.state)) [
            | inl there ↦ rw there (lose_host-IsConsistent now)
            | inr idle ↦ rw idle v
          ])
  ]

pub tick-IsConsistent : (c : LdnControl) → IsConsistent c → (now : ℕ) → IsConsistent (tick now c).1
unfolding tick station_count node_at
tick-IsConsistent c v now =
    elim (Bool-cases (ltb (now - c.last_beacon) relay_beacon_interval_ticks)) [
      | inl early ↦ rw early v
      | inr due ↦ rw due (
          tick_due-IsConsistent (record c { last_beacon = now })
            (carry c (record c { last_beacon = now }) refl refl refl refl refl v) now)
    ]
