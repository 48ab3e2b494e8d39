-- ===== src/Ldn/Joining.antt =====
-- The station table after HandleConnect.
use sys_slp_client.Base.{
  ℕ, suc, ◌+◌, ◌≤◌, ◌<◌, ◌≡◌, ◌≢◌, ◌⊎◌, refl, sym, subst, ap, ◌∙◌, Bool, true, false, not, ◌&&◌,
  if◌then◌else◌, leb→le, leb_false→lt, ◌==◌, Option, none, some, List, length, arith, Bool-cases,
  Option-cases, inl, inr, ==→eq, eq→==, ==_false→ne, leb,
}
use sys_slp_client.Ldn.State.{Station, LdnControl, is_access_point_created, NodeInfo}
use sys_slp_client.Ring.{modify}
use sys_slp_client.Ldn.Scanners.{was_recent_scanner}
use sys_slp_client.Ldn.Stations.{
  station_count_max, is_known, addresses, members, find_node, has_ip, seated, seat, take_slot,
  admit, find_station_by_ip, find_free_node_id, station_count, handle_connect, update_nodes,
  build_network,
}
use sys_slp_client.Ldn.Seats.{
  seats_of, Fills, find_node-Fills, find_node-none, seats_of-other, seats_of-own, seats_of-retry,
  find_node-other, find_node-new, find_node-retry, length-Fills, length-members, has_ip_other,
  has_ip_free, has_ip-seated,
}

-- 7 slots, and no address has two.
pub record IsValid (h : LdnControl) : Type 0 where
  pub slots : length h.stations ≡ station_count_max
  pub unique : (ip : ℕ) → seats_of ip h.stations ≤ 1

-- A station has the address.
pub IsSeated : ℕ → LdnControl → Type 0
IsSeated src_ip h = (nid : ℕ) × (find_station_by_ip h src_ip ≡ some nid)

-- No station has the address, fewer than 7 are in, and the slot is the first free one.
pub IsAdmitted : ℕ → ℕ → LdnControl → Type 0
IsAdmitted src_ip nid h =
    (find_station_by_ip h src_ip ≡ none)
    × (station_count h < station_count_max)
    × (find_free_node_id h ≡ some nid)

-- What HandleConnect answers, and leaves.
pub data Handled (now src_ip : ℕ) (right_size : Bool) (h : LdnControl)
    : Option (List ℕ) × LdnControl → Type 0 where
  not_hosting :
      is_access_point_created h.session.state ≡ false → Handled now src_ip right_size h (none, h)
  wrong_size : right_size ≡ false → Handled now src_ip right_size h (none, h)
  stranger :
      was_recent_scanner now src_ip h.recent_scanners ≡ false
      → find_station_by_ip h src_ip ≡ none
      → Handled now src_ip right_size h (none, h)
  full :
      find_station_by_ip h src_ip ≡ none
      → (station_count_max ≤ station_count h) ⊎ (find_free_node_id h ≡ none)
      → Handled now src_ip right_size h (none, h)
  joined :
      (h' : LdnControl) (nid : ℕ)
      → is_access_point_created h.session.state ≡ true
      → right_size ≡ true
      → (was_recent_scanner now src_ip h.recent_scanners ≡ true) ⊎ IsSeated src_ip h
      → IsValid h'
      → find_station_by_ip h' src_ip ≡ some nid
      → ((find_station_by_ip h src_ip ≡ some nid) ⊎ IsAdmitted src_ip nid h)
      → ((ip : ℕ) → src_ip ≢ ip → find_station_by_ip h' ip ≡ find_station_by_ip h ip)
      → h'.session.network_info.node_count ≤ 8
      → Handled now src_ip right_size h (some (addresses (members 1 h'.stations)), h')

is_off : (b : Bool) → not b ≡ true → b ≡ false
is_off false h = refl
is_off true h = absurd (cc h)

-- When the guard against foreign sessions applies.
unknown :
    (recent : Bool) (station : Option ℕ)
    → not recent && not (is_known station) ≡ true
    → (recent ≡ false) × (station ≡ none)
unknown false none h = (refl, refl)
unknown false (some _) h = absurd (cc h)
unknown true station h = absurd (cc h)

accepted :
    (recent : Bool) (station : Option ℕ)
    → not recent && not (is_known station) ≡ false
    → (recent ≡ true) ⊎ ((nid : ℕ) × (station ≡ some nid))
accepted true station h = inl refl
accepted false (some nid) h = inr (nid, refl)
accepted false none h = absurd (cc h)

module _ (now src_ip : ℕ) (right_size : Bool) (node : NodeInfo) (h : LdnControl) (v : IsValid h)
    (hosting : is_access_point_created h.session.state ≡ true) (fits : right_size ≡ true)
    (welcome : (was_recent_scanner now src_ip h.recent_scanners ≡ true) ⊎ IsSeated src_ip h) where
  abbrev with_seat : ℕ → LdnControl
  with_seat nid = record h { stations = seat now src_ip node nid h.stations }

  -- The slot `nid` filled, whichever search found it.
  filled :
      (test : Station → Bool) (nid : ℕ)
      → find_node test 1 h.stations ≡ some nid
      → (i : ℕ) × (nid ≡ 1 + i)
        × Fills test (seated now src_ip node nid) i h.stations (with_seat nid).stations
  unfolding seat
  filled test nid e =
      let r = find_node-Fills test (seated now src_ip node nid) 1 nid h.stations e in
      let next = suc_of nid r.0 r.1 in
      (
        r.0,
        r.1,
        subst (Fills test (seated now src_ip node nid) r.0 h.stations)
            (sym (
              ap (λ n. seat now src_ip node n h.stations) next
              ∙ ap (λ n. modify h.stations r.0 (λ _. seated now src_ip node n)) (sym next)))
            r.2,
      )
    where
      suc_of : (n i : ℕ) → n ≡ 1 + i → n ≡ suc i
      suc_of n i e = omega (arith, e)

  -- The rest is the same for a retry and for a new station.
  joined_at :
      (test : Station → Bool) (nid i : ℕ)
      → ((s : Station) (ip : ℕ) → src_ip ≢ ip → test s ≡ true → has_ip ip s ≡ false)
      → Fills test (seated now src_ip node nid) i h.stations (with_seat nid).stations
      → seats_of src_ip (with_seat nid).stations ≤ 1
      → find_node (has_ip src_ip) 1 (with_seat nid).stations ≡ some nid
      → ((find_station_by_ip h src_ip ≡ some nid) ⊎ IsAdmitted src_ip nid h)
      → Handled now src_ip right_size h (admit now src_ip node (some nid) h)
  unfolding find_station_by_ip admit update_nodes build_network station_count
  joined_at test nid i foreign r one found which =
      joined _ nid hosting fits welcome (record { slots = same_length ∙ v.slots; unique = unique })
        found which (λ ip ne. find_node-other src_ip test new mine foreign ip i 1 h.stations _ ne r)
        (omega (arith, length-members 1 (with_seat nid).stations, same_length, v.slots))
    where
      new : Station
      new = seated now src_ip node nid

      mine : (ip : ℕ) → has_ip ip new ≡ (src_ip == ip)
      mine = has_ip-seated now src_ip node nid

      same_length : length (with_seat nid).stations ≡ length h.stations
      same_length = length-Fills src_ip test new mine foreign i h.stations _ r

      unique : (ip : ℕ) → seats_of ip (with_seat nid).stations ≤ 1
      unique ip = elim (Bool-cases (src_ip == ip)) [
        | inl same ↦ subst (λ a. seats_of a (with_seat nid).stations ≤ 1) (==→eq src_ip ip same) one
        | inr other ↦ omega (
          arith,
          v.unique ip,
          seats_of-other src_ip test new mine foreign ip i h.stations (with_seat nid).stations
              (==_false→ne src_ip ip other) r,
        )
      ]

  retried :
      (nid : ℕ)
      → find_station_by_ip h src_ip ≡ some nid
      → Handled now src_ip right_size h (admit now src_ip node (some nid) h)
  unfolding find_station_by_ip
  retried nid e =
      let f = filled (has_ip src_ip) nid e in
      joined_at (has_ip src_ip) nid f.0 (λ s ip. has_ip_other src_ip ip s) f.2
        (omega (arith, seats_of-retry src_ip new own f.0 h.stations _ f.2, v.unique src_ip))
        (find_node-retry src_ip new own f.0 1 h.stations _ f.2 ∙ ap some (sym f.1)) (inl e)
    where
      new : Station
      new = seated now src_ip node nid

      own : has_ip src_ip new ≡ true
      own = has_ip-seated now src_ip node nid src_ip ∙ eq→== src_ip src_ip refl

  added :
      (nid : ℕ)
      → find_station_by_ip h src_ip ≡ none
      → station_count h < station_count_max
      → find_free_node_id h ≡ some nid
      → Handled now src_ip right_size h (admit now src_ip node (some nid) h)
  unfolding find_station_by_ip find_free_node_id IsAdmitted
  added nid absent below e =
      let f = filled free nid e in
      joined_at free nid f.0 foreign f.2
        (omega (
          arith,
          seats_of-own src_ip free new mine foreign f.0 h.stations _ f.2,
          find_node-none src_ip 1 h.stations absent,
        ))
        (find_node-new src_ip free new mine foreign f.0 1 h.stations _ absent f.2
          ∙ ap some (sym f.1))
        (inr (absent, below, e))
    where
      free : Station → Bool
      free s = not s.active

      new : Station
      new = seated now src_ip node nid

      mine : (ip : ℕ) → has_ip ip new ≡ (src_ip == ip)
      mine = has_ip-seated now src_ip node nid

      foreign : (s : Station) (ip : ℕ) → src_ip ≢ ip → free s ≡ true → has_ip ip s ≡ false
      foreign s ip ne = has_ip_free ip s

  admitted :
      Handled now src_ip right_size h
        (admit now src_ip node (take_slot h (find_station_by_ip h src_ip)) h)
  unfolding take_slot admit
  admitted = elim (Option-cases (find_station_by_ip h src_ip)) [
    | inr (nid, e) ↦ rw e (retried nid e)
    | inl absent ↦ rw absent (elim (Bool-cases (leb station_count_max (station_count h))) [
      | inl at_limit ↦
          rw at_limit (full absent (inl (leb→le station_count_max (station_count h) at_limit)))
      | inr room ↦ rw room (elim (Option-cases (find_free_node_id h)) [
        | inl no_slot ↦ rw no_slot (full absent (inr no_slot))
        | inr (nid, e) ↦
            rw e (added nid absent (leb_false→lt station_count_max (station_count h) room) e)
      ])
    ])
  ]

module _ (now src_ip : ℕ) (right_size : Bool) (node : NodeInfo) (h : LdnControl)
    (v : IsValid h) where
  checked :
      is_access_point_created h.session.state ≡ true
      → right_size ≡ true
      → Handled now src_ip right_size h (
          if not (was_recent_scanner now src_ip h.recent_scanners)
            && not (is_known (find_station_by_ip h src_ip))
          then (none, h)
          else admit now src_ip node (take_slot h (find_station_by_ip h src_ip)) h)
  unfolding IsSeated
  checked hosting fits =
      elim (Bool-cases (
        not (was_recent_scanner now src_ip h.recent_scanners)
        && not (is_known (find_station_by_ip h src_ip)))) [
          | inl foreign ↦
              let u = unknown _ (find_station_by_ip h src_ip) foreign in
              rw foreign (stranger u.0 u.1)
          | inr fine ↦ rw fine (
              admitted now src_ip right_size node h v hosting fits
                (accepted _ (find_station_by_ip h src_ip) fine))
        ]

  -- HandleConnect, where the table has 7 slots and no address has two: a frame changes nothing if this console does not host, the
  -- size is wrong, the sender is neither a recent scanner nor a station, or a new station finds no room. Otherwise the
  -- sender has a slot, the one it had before and else the first free one; every other address keeps its slot, the table
  -- still has 7 and none twice, the network lists at most 8 nodes, and a SyncNetwork goes to its members.
  pub handle_connect_lem :
      Handled now src_ip right_size h (handle_connect now src_ip right_size node h)
  unfolding handle_connect
  handle_connect_lem = elim (Bool-cases (is_access_point_created h.session.state)) [
    | inl hosting ↦ rw hosting (elim (Bool-cases right_size) [
      | inl fits ↦ rw (ap not fits) (checked hosting fits)
      | inr misfit ↦ rw (ap not misfit) (wrong_size misfit)
    ])
    | inr idle ↦ rw idle (not_hosting idle)
  ]
