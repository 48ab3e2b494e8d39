-- ===== src/Ldn/Tests.antt =====
-- The control frames at concrete inputs.
pub mod Control
use sys_slp_client.Base.{
  All, ◌≤◌, inl, inr, Bool-cases, ℕ, ◌+◌, ◌≡◌, refl, ◌==◌, ◌||◌, true, false, some, List, [], ◌∷◌,
  replicate, arith,
}
use sys_slp_client.Ldn.State.{
  zero_network, Station, LdnControl, zero_node, Session, NetworkInfo, station, access_point_created,
}
use sys_slp_client.Ldn.Rle.{compress, decompress}
use sys_slp_client.Ldn.Frames.{send_frame, on_control_frame}
use sys_slp_client.Ldn.Inflate.{Compresses, compress-Compresses}
use sys_slp_client.Ldn.Scanners.{ScannerEntry, record_scanner, was_recent_scanner}
use sys_slp_client.Ldn.Admission.{unused, record_scanner-was_recent_scanner}
use sys_slp_client.Ldn.Sync.{
  is_stale, has_node, apply_sync, handle_sync_network, is_known_session_peer,
}
use sys_slp_client.Ldn.Freshness.{sync_once, known_after_sync, foreign_shadows_own}
use sys_slp_client.Ldn.Stations.{has_ip, handle_connect}
use sys_slp_client.Ldn.Seats.{seats_of}
use sys_slp_client.Ldn.Control.{new_control, zero_station}
use sys_slp_client.Ldn.Joining.{IsValid, Handled, handle_connect_lem}
use sys_slp_client.Ldn.Stations.{find_station_by_ip, find_node}
use sys_slp_client.Ldn.Heartbeat.{tick, handle_relay_heartbeat}
use sys_slp_client.Ldn.Liveness.{Heard, tick-handle_relay_heartbeat}
use sys_slp_client.Ldn.Wire.{on_control_frame-send_frame}

-- A name, a run of zeros, a number.
abbrev body : List ℕ
body = 65 ∷ 66 ∷ 0 ∷ 0 ∷ 0 ∷ 0 ∷ 0 ∷ 7 ∷ 0 ∷ []

packed : compress 1152 body ≡ some (65 ∷ 66 ∷ 0 ∷ 4 ∷ 7 ∷ 0 ∷ 0 ∷ [])
unfolding compress
packed = refl

cut_run : decompress 3 (1 ∷ 0 ∷ 200 ∷ []) ≡ some (1 ∷ 0 ∷ 0 ∷ [])
unfolding decompress
cut_run = refl

compress-Compresses_example : Compresses 8 body (compress 8 body)
compress-Compresses_example = compress-Compresses 8 body

on_control_frame-send_frame_example :
    on_control_frame 1152 (send_frame 1152 2 41 body) ≡ some (2, 41, body)
on_control_frame-send_frame_example =
    on_control_frame-send_frame 1152 2 41 body (omega arith) (omega arith) (omega arith)

-- 16 entries in use by other addresses.
abbrev crowded : List ScannerEntry
crowded = replicate 16 (record unused { ip = 3; last_tick = 1000; used = true })

-- The host's network, with the host and this console in it, and another one.
abbrev own_info : NetworkInfo
own_info = record zero_network {
  bssid = 77;
  node_count = 2;
  nodes = λ i. record zero_node { ipv4_address = 0x0A0D2502 + i; node_id = i; is_connected = true };
}

abbrev foreign_info : NetworkInfo
foreign_info = record own_info { bssid = 78 }

-- The console 10.13.37.3 while it joins.
abbrev joining : Session
joining = record {
  state = station;
  ipv4_address = 0x0A0D2503;
  network_info = foreign_info;
  join_active = true;
  join_target_bssid = 77;
  relay_sync_seq = 5;
  relay_sync_seq_valid = true;
  host_last_seen = 0;
}

counter_nine : is_stale joining 9 ≡ false
unfolding is_stale
counter_nine = refl

sync_once_example :
    let first = handle_sync_network 100 true own_info 9 joining in
    (first ≡ (
      true,
      apply_sync 100 own_info (record joining { relay_sync_seq = 9; relay_sync_seq_valid = true }),
    ))
    × (handle_sync_network 200 true own_info 9 first.1 ≡ (false, first.1))
sync_once_example =
    sync_once 100 own_info 9 joining refl (omega arith) counter_nine 200 (omega arith) refl

counter_two_hundred : is_stale joining 200 ≡ false
unfolding is_stale
counter_two_hundred = refl

foreign_shadows_own_example :
    let first = handle_sync_network 100 true foreign_info 200 joining in
    (first.0 ≡ false)
    × (first.1.network_info ≡ joining.network_info)
    × (handle_sync_network 200 true own_info 9 first.1 ≡ (false, first.1))
foreign_shadows_own_example =
    foreign_shadows_own 100 foreign_info 200 joining refl (omega arith) counter_two_hundred 200 9
      own_info refl (omega arith) (omega arith) (omega arith) (omega arith) (omega arith)

-- Slot 1 is free, 10.13.37.4 has slot 2.
abbrev hosting : LdnControl
hosting = record new_control {
  session = record joining { state = access_point_created };
  recent_scanners = [];
  stations =
      zero_station
      ∷ record zero_station { active = true; connected = true; src_ip = 0x0A0D2504 }
      ∷ replicate 5 zero_station;
}

hosting-IsValid : IsValid hosting
unfolding has_ip
hosting-IsValid = record { slots = refl; unique = one_each }
  where
    one_each : (ip : ℕ) → seats_of ip hosting.stations ≤ 1
    one_each ip = elim (Bool-cases (0x0A0D2504 == ip)) [
      | inl same ↦ rw same (omega arith)
      | inr other ↦ rw other (omega arith)
    ]

handle_connect_lem_example :
    Handled 100 0x0A0D2504 true hosting (handle_connect 100 0x0A0D2504 true zero_node hosting)
handle_connect_lem_example =
    handle_connect_lem 100 0x0A0D2504 true zero_node hosting hosting-IsValid

second_slot : find_station_by_ip hosting 0x0A0D2504 ≡ some 2
unfolding find_station_by_ip find_node has_ip
second_slot = refl

tick-handle_relay_heartbeat_example :
    let after = (tick 800000000 (handle_relay_heartbeat 700000000 0x0A0D2504 true 78 hosting)).1 in
    (find_station_by_ip after 0x0A0D2504 ≡ some 2) × All (Heard 800000000) after.stations
tick-handle_relay_heartbeat_example =
    tick-handle_relay_heartbeat 700000000 800000000 0x0A0D2504 2 hosting refl second_slot
      (omega arith) (omega arith)
