-- ===== src/Ldn/Liveness.antt =====
-- Which stations Tick drops.
use sys_slp_client.Base.{
  ℕ, suc, ◌+◌, ◌-◌, ◌<◌, ◌≡◌, refl, sym, ap, ◌∙◌, true, false, not, ◌&&◌, ◌||◌, leb, some, List, [],
  ◌∷◌, map, arith, Bool-cases, inl, inr, eq→==, le→leb_false, le→ltb_false, ◌≤◌, All,
}
use sys_slp_client.Ldn.State.{Station, LdnControl, zero_node, is_access_point_created}
use sys_slp_client.Ring.{modify}
use sys_slp_client.Ldn.Stations.{find_node, has_ip, find_station_by_ip, update_nodes}
use sys_slp_client.Ldn.Seats.{Fills, here, later, find_node-Fills, find_node_hit, find_node_miss}
use sys_slp_client.Ldn.Heartbeat.{
  relay_beacon_interval_ticks, relay_peer_timeout_ticks, touch, touch_found, handle_relay_heartbeat,
  reap, tick_host, tick_due, tick,
}

-- A heard station stays.
has_ip-reap-touch :
    (a t now : ℕ) (s : Station)
    → now - t < relay_peer_timeout_ticks
    → has_ip a (reap now (touch t s)) ≡ has_ip a s
unfolding has_ip reap touch
has_ip-reap-touch a t now s h =
    rw (le→leb_false relay_peer_timeout_ticks (now - t) h)
      (elim (Bool-cases (not s.active || not s.connected)) [
        | inl out ↦ rw out refl
        | inr seated ↦ rw seated refl
      ])

-- No slot becomes an address's.
has_ip-reap : (a now : ℕ) (s : Station) → has_ip a s ≡ false → has_ip a (reap now s) ≡ false
unfolding has_ip reap
has_ip-reap a now s h = elim (Bool-cases (not s.active || not s.connected)) [
  | inl out ↦ rw out h
  | inr seated ↦ rw seated (elim (Bool-cases (leb relay_peer_timeout_ticks (now - s.last_seen))) [
    | inl mute ↦ rw mute refl
    | inr heard ↦ rw heard h
  ])
]

found_after :
    (a t now : ℕ) (new : Station) (nid i : ℕ) (es es' : List Station)
    → now - t < relay_peer_timeout_ticks
    → Fills (has_ip a) new i es es'
    → find_node (has_ip a) nid (map (reap now) (modify es i (touch t))) ≡ some (nid + i)
found_after a t now new nid _ _ _ fresh (here {s} {es} h) =
    find_node_hit (has_ip a) nid (reap now (touch t s)) (map (reap now) es)
      (has_ip-reap-touch a t now s fresh ∙ h)
    ∙ ap some (omega arith)
found_after a t now new nid _ _ _ fresh (later {i} {s} {es} {es'} h r) =
    find_node_miss (has_ip a) nid (reap now s) (map (reap now) (modify es i (touch t)))
      (has_ip-reap a now s h)
    ∙ found_after a t now new (nid + 1) i es es' fresh r
    ∙ ap some (omega arith)

-- Whether a station in the network was heard within the timeout.
abbrev pub Heard : ℕ → Station → Type 0
Heard now s = s.active && s.connected ≡ true → now - s.last_seen < relay_peer_timeout_ticks

reap-Heard : (now : ℕ) (s : Station) → Heard now (reap now s)
unfolding reap
reap-Heard now s = elim (Bool-cases s.active) [
  | inl active ↦ elim (Bool-cases s.connected) [
    | inl connected ↦
        rw (active, connected)
          (elim (Bool-cases (leb relay_peer_timeout_ticks (now - s.last_seen))) [
            | inl mute ↦ rw mute (λ e. absurd (cc e))
            | inr recent ↦ rw recent (λ _. leb_false→lt recent)
          ])
    | inr apart ↦ rw (active, apart) (λ e. absurd (cc e))
  ]
  | inr free ↦ rw free (λ e. absurd (cc e))
]
  where
    leb_false→lt :
        leb relay_peer_timeout_ticks (now - s.last_seen) ≡ false
        → now - s.last_seen < relay_peer_timeout_ticks
    leb_false→lt e = ground arith

map-reap : (now : ℕ) (es : List Station) → All (Heard now) (map (reap now) es)
map-reap now [] = tt
map-reap now (s ∷ es) = (reap-Heard now s, map-reap now es)

-- Any station.
abbrev zero_station : Station
zero_station = record {
  active = false;
  connected = false;
  src_ip = 0;
  node = zero_node;
  last_seen = 0;
}

module _ (t now src_ip nid : ℕ) (h : LdnControl)
    (hosting : is_access_point_created h.session.state ≡ true)
    (found : find_station_by_ip h src_ip ≡ some nid)
    (due : relay_beacon_interval_ticks ≤ now - h.last_beacon)
    (heard : now - t < relay_peer_timeout_ticks) where
  abbrev beaten : LdnControl
  beaten = handle_relay_heartbeat t src_ip true h.session.network_info.bssid h

  touched : beaten ≡ record h { stations = touch_found t (some nid) h.stations }
  unfolding handle_relay_heartbeat
  touched =
      rw (hosting, eq→== h.session.network_info.bssid h.session.network_info.bssid refl, found) refl

  still_found :
      find_node (has_ip src_ip) 1 (map (reap now) (touch_found t (some nid) h.stations)) ≡ some nid
  unfolding touch_found find_station_by_ip
  still_found =
      let r = find_node-Fills (has_ip src_ip) zero_station 1 nid h.stations found in
      ap (λ n. find_node (has_ip src_ip) 1 (map (reap now) (touch_found t (some n) h.stations)))
        (suc_of nid r.0 r.1)
      ∙ found_after src_ip t now zero_station 1 r.0 h.stations _ heard r.2
      ∙ ap some (sym r.1)
    where
      suc_of : (n i : ℕ) → n ≡ 1 + i → n ≡ suc i
      suc_of n i e = omega (arith, e)

  due_tick :
      tick now (record h { stations = touch_found t (some nid) h.stations })
      ≡ tick_host now
          (record h { stations = touch_found t (some nid) h.stations; last_beacon = now })
  unfolding tick tick_due
  due_tick = rw (le→ltb_false (now - h.last_beacon) relay_beacon_interval_ticks due, hosting) refl

  -- A host that hears a station's heartbeat for its network keeps the station's slot in a Tick that is due less than 30 seconds
  -- later, and that Tick leaves no station in the network that was not heard for 30 seconds.
  pub tick-handle_relay_heartbeat :
      (find_station_by_ip (tick now beaten).1 src_ip ≡ some nid)
      × All (Heard now) (tick now beaten).1.stations
  unfolding find_station_by_ip tick_host update_nodes
  tick-handle_relay_heartbeat = rw (touched, due_tick) (still_found, map-reap now _)
