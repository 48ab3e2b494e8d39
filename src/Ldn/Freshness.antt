-- ===== src/Ldn/Freshness.antt =====
-- Which SyncNetwork frames are applied.
use sys_slp_client.Base.{
  ℕ, ◌+◌, ◌≤◌, ◌<◌, ◌≡◌, ◌≢◌, refl, Bool, true, false, ◌&&◌, ◌||◌, ◌==◌, if◌then◌else◌, arith,
  Bool-cases, inl, inr, ne→==_false, eq→==,
}
use sys_slp_client.Ldn.State.{
  CommState, station, station_connected, is_station, is_station_connected, in_session, NetworkInfo,
  Session,
}
use sys_slp_client.Ldn.Sync.{
  has_node, is_known_session_peer, is_stale, note_seq, confirmed_state, apply_sync,
  handle_sync_network,
}

-- A console that joined, or that is joining.
abbrev pub is_joined : Session → Bool
is_joined c = is_station c.state || is_station_connected c.state

noted_stale :
    (seq seq' : ℕ) (c : Session)
    → seq' ≤ seq
    → seq < seq' + 256
    → seq < 65536
    → is_stale (record c { relay_sync_seq = seq; relay_sync_seq_valid = true }) seq' ≡ true
unfolding is_stale
noted_stale seq seq' c low high h = ground arith

stale_dropped :
    (now : ℕ) (info : NetworkInfo) (seq : ℕ) (c : Session)
    → is_joined c ≡ true
    → seq ≢ 0
    → is_stale c seq ≡ true
    → handle_sync_network now true info seq c ≡ (false, c)
unfolding handle_sync_network
stale_dropped now info seq c j n s = simp (j, ne→==_false seq 0 n, s) refl

joined_after :
    (s : CommState) (b : Bool)
    → is_station s || is_station_connected s ≡ true
    → let s' = if is_station s && b then station_connected else s in
      (is_station s' || is_station_connected s' ≡ true) × (in_session s' ≡ true)
joined_after station true h = (refl, refl)
joined_after station false h = (refl, refl)
joined_after station_connected b h = (refl, refl)
joined_after _ b h = absurd (cc h)

known_lem :
    (c : Session) (ip : ℕ)
    → in_session c.state ≡ true
    → is_known_session_peer c ip
      ≡ (ip == c.ipv4_address || has_node c.network_info.node_count ip c.network_info.nodes)
unfolding is_known_session_peer
known_lem c ip h = elim (Bool-cases (ip == c.ipv4_address)) [
  | inl own ↦ simp (h, own) refl
  | inr other ↦ simp (h, other) refl
]

module _ (now : ℕ) (info : NetworkInfo) (seq : ℕ) (c : Session) (j : is_joined c ≡ true)
    (n : seq ≢ 0) (fresh : is_stale c seq ≡ false) where
  abbrev noted : Session
  noted = record c { relay_sync_seq = seq; relay_sync_seq_valid = true }

  note_lem : note_seq c seq ≡ noted
  unfolding note_seq
  note_lem = rw (ne→==_false seq 0 n) refl

  foreign_noted :
      c.join_active ≡ true
      → info.bssid ≢ c.join_target_bssid
      → handle_sync_network now true info seq c ≡ (false, noted)
  unfolding handle_sync_network
  foreign_noted a f =
      simp (j, ne→==_false seq 0 n, fresh, a, ne→==_false info.bssid c.join_target_bssid f) refl

  own_applied :
      info.bssid ≡ c.join_target_bssid
      → handle_sync_network now true info seq c ≡ (true, apply_sync now info noted)
  unfolding handle_sync_network
  own_applied o = elim (Bool-cases c.join_active) [
    | inl joining ↦
        simp (j, ne→==_false seq 0 n, fresh, joining, eq→== info.bssid c.join_target_bssid o) refl
    | inr idle ↦ simp (j, ne→==_false seq 0 n, fresh, idle) refl
  ]

  applied_state :
      (is_joined (apply_sync now info noted) ≡ true)
      × (in_session (apply_sync now info noted).state ≡ true)
  unfolding apply_sync confirmed_state
  applied_state = joined_after c.state (has_node info.node_count c.ipv4_address info.nodes) j

  again_stale : seq < 65536 → is_stale (apply_sync now info noted) seq ≡ true
  unfolding apply_sync is_stale
  again_stale h = ground arith

  -- A joined console applies a fresh, stamped SyncNetwork of its own network, and ignores the same frame when it comes again.
  pub sync_once :
      (later : ℕ)
      → seq < 65536
      → info.bssid ≡ c.join_target_bssid
      → let first = handle_sync_network now true info seq c in
        (first ≡ (true, apply_sync now info noted))
        × (handle_sync_network later true info seq first.1 ≡ (false, first.1))
  sync_once later h o = (
    own_applied o,
    rw (own_applied o) (
        stale_dropped later info seq (apply_sync now info noted) applied_state.0 n (again_stale h)),
  )

  -- After such a frame exactly the console itself and the connected nodes that the frame counts are known peers.
  pub known_after_sync :
      (ip : ℕ)
      → info.bssid ≡ c.join_target_bssid
      → is_known_session_peer (handle_sync_network now true info seq c).1 ip
        ≡ (ip == c.ipv4_address || has_node info.node_count ip info.nodes)
  unfolding apply_sync
  known_after_sync ip o = rw (own_applied o) known
    where
      known :
          is_known_session_peer (apply_sync now info noted) ip
          ≡ (ip == c.ipv4_address || has_node info.node_count ip info.nodes)
      known = known_lem (apply_sync now info noted) ip applied_state.1

  -- A SyncNetwork of another network is not applied, yet its counter is kept: the next frame of the console's own network is
  -- dropped if its counter is equal or up to 255 lower.
  pub foreign_shadows_own :
      (later seq' : ℕ) (info' : NetworkInfo)
      → c.join_active ≡ true
      → info.bssid ≢ c.join_target_bssid
      → seq' ≢ 0
      → seq' ≤ seq
      → seq < seq' + 256
      → seq < 65536
      → let first = handle_sync_network now true info seq c in
        (first.0 ≡ false)
        × (first.1.network_info ≡ c.network_info)
        × (handle_sync_network later true info' seq' first.1 ≡ (false, first.1))
  foreign_shadows_own later seq' info' a f n' low high h =
      rw (foreign_noted a f) (refl, refl, stale_dropped later info' seq' noted j n' shadowed)
    where
      shadowed : is_stale noted seq' ≡ true
      shadowed = noted_stale seq seq' c low high h
