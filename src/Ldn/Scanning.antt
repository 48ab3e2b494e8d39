-- ===== src/Ldn/Scanning.antt =====
-- ldn_control.cpp: HandleScan, HandleScanResp and Scan.
use sys_slp_client.Base.{
  ℕ, zero, suc, ◌+◌, ◌-◌, ◌%◌, Bool, true, false, not, ◌&&◌, ◌||◌, ◌==◌, ltb, leb, if◌then◌else◌,
  Option, none, some, List, [], ◌∷◌, length,
}
use sys_slp_client.Ldn.State.{
  NetworkInfo, LdnControl, is_access_point_created, is_state_none, is_error,
}
use sys_slp_client.Ldn.Scanners.{record_scanner}
use sys_slp_client.Ldn.Stations.{build_network}

abbrev pub max_scan_results : ℕ
max_scan_results = 8

-- The network that goes back to the scanner, if this console hosts.
unfoldable pub handle_scan : ℕ → ℕ → LdnControl → Option NetworkInfo × LdnControl
unfolding record_scanner build_network
handle_scan now src_ip c = if not (is_access_point_created c.session.state) then (none, c) else (
  some (build_network c),
  record c { recent_scanners = record_scanner now src_ip c.recent_scanners },
)

-- The answer of a network replaces its earlier one; `room` places are left for a network not seen before.
unfoldable pub collect : NetworkInfo → ℕ → List NetworkInfo → List NetworkInfo
collect info zero [] = []
collect info (suc room) [] = info ∷ []
collect info room (r ∷ rs) =
    if r.bssid == info.bssid then info ∷ rs else r ∷ collect info (room - 1) rs

unfoldable pub handle_scan_resp : ℕ → Bool → NetworkInfo → LdnControl → LdnControl
unfolding collect
handle_scan_resp src_ip right_size info c =
    if not right_size
    then c
    else if src_ip == c.session.ipv4_address
    then c
    else if not (c.scan_filter_lcid == 0) && not (info.local_communication_id == c.scan_filter_lcid)
    then c
    else record c { scan_results = collect info max_scan_results c.scan_results }

-- A field of the filter counts if its bit of `flag` is set.
pub record ScanFilter : Type 0 where
  pub by_local_communication_id : Bool
  pub local_communication_id : ℕ
  pub by_session_id : Bool
  pub session_id : ℕ
  pub by_network_type : Bool
  pub network_type : ℕ
  pub by_ssid : Bool
  pub ssid : List ℕ
  pub by_scene_id : Bool
  pub scene_id : ℕ

abbrev pub same_bytes : List ℕ → List ℕ → Bool
same_bytes [] [] = true
same_bytes [] (_ ∷ _) = false
same_bytes (_ ∷ _) [] = false
same_bytes (x ∷ xs) (y ∷ ys) = x == y && same_bytes xs ys

-- The value of `copy` for a result.
unfoldable pub passes_filter : ScanFilter → NetworkInfo → Bool
passes_filter filter info =
    (not filter.by_local_communication_id
      || filter.local_communication_id == info.local_communication_id)
    && (not filter.by_session_id || filter.session_id == info.session_id)
    && (not filter.by_network_type || filter.network_type == info.network_type)
    && (not filter.by_ssid || same_bytes filter.ssid info.ssid)
    && (not filter.by_scene_id || filter.scene_id == info.scene_id)

-- The loop that copies results into the caller's buffer, with `room` places left.
unfoldable pub copy_results : ScanFilter → ℕ → List NetworkInfo → List NetworkInfo
unfolding passes_filter
copy_results filter zero rs = []
copy_results filter (suc room) [] = []
copy_results filter (suc room) (r ∷ rs) =
    let copied = copy_results filter room rs in
    let skipped = copy_results filter (suc room) rs in
    if passes_filter filter r then r ∷ copied else skipped

-- What the session gets during the wait of round `i`.
abbrev pub Arrivals : Type 0
Arrivals = ℕ → LdnControl → LdnControl

-- The polling loop from round `i` on: the rounds done, the Scan frames sent, and the state. `left` rounds are left.
unfoldable pub poll_results : Arrivals → ℕ → ℕ → ℕ → ℕ → LdnControl → ℕ × ℕ × LdnControl
poll_results arrive zero i last_count stable c = (0, 0, c)
poll_results arrive (suc left) i last_count stable c =
    let c' = arrive i c in
    let cur = length c'.scan_results in
    let same = ltb 0 cur && cur == last_count in
    let resent : ℕ = if not (i == 0) && i % 3 == 0 then 1 else 0 in
    let rest = poll_results arrive left (i + 1) cur (if same then stable + 1 else 0) c' in
    if same && leb 2 (stable + 1) then (1, resent, c') else (rest.0 + 1, rest.1 + resent, rest.2)

-- The state in which the poll begins.
abbrev pub scanning : ScanFilter → LdnControl → LdnControl
scanning filter c = record c {
  scan_results = [];
  scan_filter_lcid = if filter.by_local_communication_id then filter.local_communication_id else 0;
}

-- The networks found, the rounds waited and the Scan frames sent; none if the state forbids it.
unfoldable pub scan :
    Arrivals → ScanFilter → ℕ → LdnControl → Option (List NetworkInfo × ℕ × ℕ) × LdnControl
unfolding poll_results copy_results
scan arrive filter out_capacity c =
    let polled = poll_results arrive 10 0 0 0 (scanning filter c) in
    if is_state_none c.session.state || is_error c.session.state then (none, c) else (
      some (copy_results filter out_capacity polled.2.scan_results, polled.0, polled.1 + 1),
      polled.2,
    )
