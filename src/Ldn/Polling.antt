-- ===== src/Ldn/Polling.antt =====
-- The loops in which Connect and Scan wait.
use sys_slp_client.Base.{
  ℕ, zero, suc, ◌+◌, ◌-◌, ◌/◌, ◌%◌, ◌≤◌, ◌<◌, ◌≡◌, ◌≢◌, refl, sym, ap, ◌∙◌, Bool, true, false, not,
  ◌&&◌, ◌==◌, ltb, leb, if◌then◌else◌, inl, inr, List, [], ◌∷◌, length, take, some, ◌⊎◌, arith,
  tests, Bool-cases, ne→==_false,
}
use sys_slp_client.Ldn.State.{
  LdnControl, NetworkInfo, is_station_connected, is_state_none, is_error,
}
use sys_slp_client.Ldn.Scanning.{
  Arrivals, ScanFilter, passes_filter, copy_results, poll_results, scan, scanning,
}
use sys_slp_client.Ldn.Control.{LdnResult, success, failure}
use sys_slp_client.Ldn.Calls.{poll_connected, connect_network, connect_end, joining_network}

-- The state after `k` rounds, of which the first is round `i`.
abbrev pub after_rounds : Arrivals → ℕ → ℕ → LdnControl → LdnControl
after_rounds arrive zero i c = c
after_rounds arrive (suc k) i c = after_rounds arrive k (i + 1) (arrive i c)

abbrev pub connected_after : Arrivals → ℕ → ℕ → LdnControl → Bool
connected_after arrive k i c = is_station_connected (after_rounds arrive k i c).session.state

-- How the polling loop of Connect ends.
pub data Polled (arrive : Arrivals) (left i : ℕ) (c : LdnControl)
    : Bool × ℕ × LdnControl → Type 0 where
  member :
      (k sent : ℕ)
      → k < left
      → connected_after arrive k i c ≡ true
      → ((j : ℕ) → j < k → connected_after arrive j i c ≡ false)
      → sent + i / 50 ≡ (i + k) / 50
      → Polled arrive left i c (true, sent, after_rounds arrive k i c)
  timeout :
      (sent : ℕ)
      → ((j : ℕ) → j < left → connected_after arrive j i c ≡ false)
      → sent + i / 50 ≡ (i + left) / 50
      → Polled arrive left i c (false, sent, after_rounds arrive left i c)

abbrev resent_at : ℕ → ℕ
resent_at i = if i % 50 == 49 then 1 else 0

resent_lem : (i : ℕ) → resent_at i + i / 50 ≡ (i + 1) / 50
resent_lem i = ground arith

one_more :
    (arrive : Arrivals) (left i : ℕ) (c : LdnControl) (r : Bool × ℕ × LdnControl)
    → is_station_connected c.session.state ≡ false
    → Polled arrive left (i + 1) (arrive i c) r
    → Polled arrive (suc left) i c (r.0, r.1 + resent_at i, r.2)
one_more arrive left i c _ apart (member k sent below here earlier count) =
    member (suc k) (sent + resent_at i) (omega (arith, below)) here before
      (omega (arith, count, resent_lem i))
  where
    before : (j : ℕ) → j < suc k → connected_after arrive j i c ≡ false
    before zero h = apart
    before (suc j) h = earlier j (omega (arith, h))
one_more arrive left i c _ apart (timeout sent never count) =
    timeout (sent + resent_at i) before (omega (arith, count, resent_lem i))
  where
    before : (j : ℕ) → j < suc left → connected_after arrive j i c ≡ false
    before zero h = apart
    before (suc j) h = never j (omega (arith, h))

poll_connected-Polled :
    (arrive : Arrivals) (left i : ℕ) (c : LdnControl)
    → Polled arrive left i c (poll_connected arrive left i c)
unfolding poll_connected
poll_connected-Polled arrive zero i c = timeout 0 (λ j h. absurd (omega (arith, h))) (omega arith)
poll_connected-Polled arrive (suc left) i c =
    elim (Bool-cases (is_station_connected c.session.state)) [
      | inl there ↦
          rw there (member 0 0 (omega arith) there (λ j h. absurd (omega (arith, h))) (omega arith))
      | inr apart ↦ rw apart (
          one_more arrive left i c _ apart (poll_connected-Polled arrive left (i + 1) (arrive i c)))
    ]

-- How Connect ends, where `c` is the state in which it begins to poll.
pub data Connected (arrive : Arrivals) (c : LdnControl) : LdnResult × ℕ × LdnControl → Type 0 where
  accepted :
      (k sent : ℕ)
      → k < 300
      → connected_after arrive k 0 c ≡ true
      → ((j : ℕ) → j < k → connected_after arrive j 0 c ≡ false)
      → sent ≡ k / 50 + 1
      → Connected arrive c (success, sent, after_rounds arrive k 0 c)
  gave_up :
      (c' : LdnControl) (sent : ℕ)
      → ((j : ℕ) → j < 300 → connected_after arrive j 0 c ≡ false)
      → sent ≡ 7
      → c'.session.join_active ≡ false
      → Connected arrive c (failure 0xCB 64, sent, c')

connect_end-Connected :
    (arrive : Arrivals) (c : LdnControl) (r : Bool × ℕ × LdnControl)
    → Polled arrive 300 0 c r
    → Connected arrive c (connect_end r)
connect_end-Connected arrive c _ (member k sent below here earlier count) =
    accepted k (sent + 1) below here earlier (omega (arith, count))
connect_end-Connected arrive c _ (timeout sent never count) =
    gave_up _ (sent + 1) never (omega (arith, count)) refl

-- Connect to a network with a node, called in any state but None and whatever the session gets meanwhile: it succeeds as soon as one
-- of 300 polls sees StationConnected, after one Connect frame and one more for every 50 rounds waited; if none does, it fails
-- with 2203-0064 after 7 frames, and no join is active any more.
pub connect_network_lem :
    (arrive : Arrivals) (info : NetworkInfo) (c : LdnControl)
    → is_state_none c.session.state ≡ false
    → info.node_count ≢ 0
    → Connected arrive (joining_network info c) (connect_network arrive info c)
unfolding connect_network
connect_network_lem arrive info c state count =
    rw (state, ne→==_false info.node_count 0 count)
      (connect_end-Connected arrive (joining_network info c) _
        (poll_connected-Polled arrive 300 0 (joining_network info c)))

-- The results that a filter lets through.
abbrev pub kept : ScanFilter → List NetworkInfo → List NetworkInfo
kept filter [] = []
kept filter (r ∷ rs) = if passes_filter filter r then r ∷ kept filter rs else kept filter rs

copy_results_lem :
    (filter : ScanFilter) (room : ℕ) (rs : List NetworkInfo)
    → copy_results filter room rs ≡ take room (kept filter rs)
unfolding copy_results
copy_results_lem filter zero rs = sym (take_none (kept filter rs))
  where
    take_none : (xs : List NetworkInfo) → take 0 xs ≡ []
    take_none [] = refl
    take_none (x ∷ xs) = refl
copy_results_lem filter (suc room) [] = refl
copy_results_lem filter (suc room) (r ∷ rs) = elim (Bool-cases (passes_filter filter r)) [
  | inl wanted ↦ rw wanted (ap (◌∷◌ r) (copy_results_lem filter room rs))
  | inr other ↦ rw other (copy_results_lem filter (suc room) rs)
]

-- How the polling loop of Scan ends: the rounds, the frames and the state.
record Waited (arrive : Arrivals) (left i stable : ℕ) (c : LdnControl) (r : ℕ × ℕ × LdnControl)
    : Type 0 where
  least : (2 ≤ r.0 + stable) ⊎ (r.0 ≡ left)
  most : r.0 ≤ left
  frames : 1 ≤ i → r.1 + (i + 2) / 3 ≡ (i + r.0 + 2) / 3
  early : r.0 < left → 0 < length r.2.scan_results
  state : r.2 ≡ after_rounds arrive r.0 i c

abbrev scan_resent_at : ℕ → ℕ
scan_resent_at i = if not (i == 0) && i % 3 == 0 then 1 else 0

scan_resent_lem : (i : ℕ) → 1 ≤ i → scan_resent_at i + (i + 2) / 3 ≡ (i + 3) / 3
scan_resent_lem i h = ground arith

and_left : (a b : Bool) → a && b ≡ true → a ≡ true
and_left true b h = refl
and_left false b h = absurd (cc h)

one_more_wait :
    (arrive : Arrivals) (left i stable stable' : ℕ) (c : LdnControl) (r : ℕ × ℕ × LdnControl)
    → stable' ≤ stable + 1
    → Waited arrive left (i + 1) stable' (arrive i c) r
    → Waited arrive (suc left) i stable c (r.0 + 1, r.1 + scan_resent_at i, r.2)
one_more_wait arrive left i stable stable' c r s w = record {
  least = elim w.least [
    | inl enough ↦ inl (omega (arith, enough, s))
    | inr all ↦ inr (omega (arith, all))
  ];
  most = omega (arith, w.most);
  frames = λ h. omega (arith, w.frames (omega arith), scan_resent_lem i h);
  early = λ h. w.early (omega (arith, h));
  state = w.state ∙ sym (ap (λ n. after_rounds arrive n i c) next);
}
  where
    next : r.0 + 1 ≡ suc r.0
    next = omega arith

poll_results-Waited :
    (arrive : Arrivals) (left i last_count stable : ℕ) (c : LdnControl)
    → stable ≤ 1
    → Waited arrive left i stable c (poll_results arrive left i last_count stable c)
unfolding poll_results
poll_results-Waited arrive zero i last_count stable c s = record {
  least = inr refl;
  most = omega arith;
  frames = λ h. omega arith;
  early = λ h. absurd (omega (arith, h));
  state = refl;
}
poll_results-Waited arrive (suc left) i last_count stable c s =
    elim (Bool-cases (ltb 0 cur && cur == last_count)) [
      | inr changed ↦ rw changed (
          one_more_wait arrive left i stable 0 c _ (omega arith)
            (poll_results-Waited arrive left (i + 1) cur 0 (arrive i c) (omega arith)))
      | inl same ↦ rw same (elim (Bool-cases (leb 2 (stable + 1))) [
        | inr once ↦ rw once (
            one_more_wait arrive left i stable (stable + 1) c _ (omega arith) (
              poll_results-Waited arrive left (i + 1) cur (stable + 1) (arrive i c) (ground arith)))
        | inl twice ↦ rw twice (record {
          least = inl (omega (tests, twice));
          most = omega arith;
          frames = λ h. omega (arith, scan_resent_lem i h);
          early = λ h. omega (tests, and_left (ltb 0 cur) (cur == last_count) same);
          state = refl;
        })
      ])
    ]
  where
    cur : ℕ
    cur = length (arrive i c).scan_results

-- The whole loop: the first round never counts as stable.
record Ended (arrive : Arrivals) (left : ℕ) (c : LdnControl) (r : ℕ × ℕ × LdnControl) : Type 0 where
  least : (3 ≤ r.0) ⊎ (r.0 ≡ suc left)
  most : r.0 ≤ suc left
  frames : r.1 ≡ (r.0 - 1) / 3
  early : r.0 < suc left → 0 < length r.2.scan_results
  state : r.2 ≡ after_rounds arrive r.0 0 c

never_zero : (n : ℕ) → ltb 0 n && n == 0 ≡ false
never_zero n = ground arith

whole_wait :
    (arrive : Arrivals) (left : ℕ) (c : LdnControl) (r : ℕ × ℕ × LdnControl)
    → Waited arrive left 1 0 (arrive 0 c) r
    → Ended arrive left c (r.0 + 1, r.1 + 0, r.2)
whole_wait arrive left c r w = record {
  least = elim w.least [
    | inl enough ↦ inl (omega (arith, enough))
    | inr all ↦ inr (omega (arith, all))
  ];
  most = omega (arith, w.most);
  frames = omega (arith, w.frames (omega arith));
  early = λ h. w.early (omega (arith, h));
  state = w.state ∙ sym (ap (λ n. after_rounds arrive n 0 c) next);
}
  where
    next : r.0 + 1 ≡ suc r.0
    next = omega arith

poll_results-Ended :
    (arrive : Arrivals) (left : ℕ) (c : LdnControl)
    → Ended arrive left c (poll_results arrive (suc left) 0 0 0 c)
unfolding poll_results
poll_results-Ended arrive left c = rw (never_zero (length (arrive 0 c).scan_results)) (
    whole_wait arrive left c _ (
      poll_results-Waited arrive left 1 (length (arrive 0 c).scan_results) 0 (arrive 0 c)
        (omega arith)))

-- What Scan finds, and how long it takes; `c` is the state in which it begins to poll.
pub record Scanned (arrive : Arrivals) (filter : ScanFilter) (out_capacity : ℕ) (c : LdnControl)
    (found : List NetworkInfo) (rounds frames : ℕ) (c' : LdnControl) : Type 0 where
  pub three_rounds : 3 ≤ rounds
  pub ten_rounds : rounds ≤ 10
  pub ends_early : rounds < 10 → 0 < length c'.scan_results
  pub broadcasts : frames ≡ (rounds - 1) / 3 + 1
  pub state : c' ≡ after_rounds arrive rounds 0 c
  pub results : found ≡ take out_capacity (kept filter c'.scan_results)

outcome_of :
    (arrive : Arrivals) (filter : ScanFilter) (out_capacity : ℕ) (c : LdnControl)
    (r : ℕ × ℕ × LdnControl)
    → Ended arrive 9 c r
    → Scanned arrive filter out_capacity c
        (copy_results filter out_capacity r.2.scan_results)
        r.0
        (r.1 + 1)
        r.2
outcome_of arrive filter out_capacity c r e = record {
  three_rounds = elim e.least [ inl enough ↦ enough | inr all ↦ omega (arith, all) ];
  ten_rounds = omega (arith, e.most);
  ends_early = λ h. e.early (omega (arith, h));
  broadcasts = omega (arith, e.frames);
  state = e.state;
  results = copy_results_lem filter out_capacity r.2.scan_results;
}

-- Scan in any state but None and Error, whatever answers arrive meanwhile: it ends after 3 to 10 waits of 100 ms, before the tenth only
-- with a result at hand, has broadcast once and then every third wait, and answers the first results that pass the filter, as
-- many as there is room for, in the order of their arrival.
pub scan_lem :
    (arrive : Arrivals) (filter : ScanFilter) (out_capacity : ℕ) (c : LdnControl)
    → is_state_none c.session.state ≡ false
    → is_error c.session.state ≡ false
    → (found : List NetworkInfo) × (rounds : ℕ) × (frames : ℕ) × (c' : LdnControl) × (scan arrive
          filter out_capacity c
        ≡ (some (found, rounds, frames), c'))
      × Scanned arrive filter out_capacity (scanning filter c) found rounds frames c'
unfolding scan
scan_lem arrive filter out_capacity c here sound = (
  copy_results filter out_capacity polled.2.scan_results,
  polled.0,
  polled.1 + 1,
  polled.2,
  rw (here, sound) refl,
  outcome_of arrive filter out_capacity (scanning filter c) polled
      (poll_results-Ended arrive 9 (scanning filter c)),
)
  where
    polled : ℕ × ℕ × LdnControl
    polled = poll_results arrive 10 0 0 0 (scanning filter c)
