-- ===== src/Tunnel/Table.antt =====
-- Where FindFragEntry finds the entry of a datagram.
use sys_slp_client.Base.{
  ℕ, zero, suc, ◌+◌, ◌-◌, ◌≤◌, ◌<◌, ◌≡◌, ◌⊎◌, inl, inr, refl, ap, ◌∙◌, true, false, not, ◌&&◌,
  Option, none, some, List, [], ◌∷◌, map, length, length-map, ltb, arith, All, Bool-cases, lt→ltb,
}
use sys_slp_client.Ring.{modify}
use sys_slp_client.Tunnel.Reassembly.{
  FragEntry, expire, prepared, place_of, find_held, find_reuse, reuse_entry, fresh_entry,
  find_frag_entry, holds, int64_max, frag_timeout_ticks,
}

-- No entry stands for a datagram.
abbrev pub Unknown : ℕ → ℕ → List FragEntry → Type 0
Unknown src id es = All (λ e. holds src id e ≡ false) es

-- Ticks are 63 bits wide.
abbrev pub InTime : List FragEntry → Type 0
InTime es = All (λ e. e.last_tick < int64_max) es

find_held-Unknown :
    (src id k : ℕ) (es : List FragEntry) → Unknown src id es → find_held src id k es ≡ none
unfolding find_held
find_held-Unknown src id k [] h = refl
find_held-Unknown src id k (e ∷ es) h = rw h.0 (find_held-Unknown src id (k + 1) es h.1)

-- The one entry that stands for it is found.
pub find_held-modify :
    (src id k i : ℕ) (e : FragEntry) (es : List FragEntry)
    → Unknown src id es
    → i < length es
    → holds src id e ≡ true
    → find_held src id k (modify es i (λ _. e)) ≡ some (k + i)
unfolding find_held
find_held-modify src id k i e [] h l t = absurd (omega arith)
find_held-modify src id k zero e (x ∷ es) h l t = rw t (ap some (omega arith))
find_held-modify src id k (suc i) e (x ∷ es) h l t =
    rw h.0 (find_held-modify src id (k + 1) i e es h.1 (omega arith) t ∙ ap some (omega arith))

holds-expire :
    (src id now : ℕ) (e : FragEntry) → holds src id e ≡ false → holds src id (expire now e) ≡ false
unfolding holds expire
holds-expire src id now e h =
    elim (Bool-cases (e.active && ltb frag_timeout_ticks (now - e.last_tick))) [
      | inl old ↦ rw old
      | inr live ↦ rw live h
    ]

last_tick-expire : (now : ℕ) (e : FragEntry) → (expire now e).last_tick ≡ e.last_tick
unfolding expire
last_tick-expire now e =
    elim (Bool-cases (e.active && ltb frag_timeout_ticks (now - e.last_tick))) [
      | inl old ↦ rw old
      | inr live ↦ rw live
    ]

pub expired-Unknown :
    (src id now : ℕ) (es : List FragEntry)
    → Unknown src id es
    → Unknown src id (map (expire now) es)
expired-Unknown src id now [] h = tt
expired-Unknown src id now (e ∷ es) h =
    (holds-expire src id now e h.0, expired-Unknown src id now es h.1)

expired-InTime : (now : ℕ) (es : List FragEntry) → InTime es → InTime (map (expire now) es)
expired-InTime now [] h = tt
expired-InTime now (e ∷ es) h =
    (omega (arith, last_tick-expire now e, h.0), expired-InTime now es h.1)

-- A place in a list of entries that starts at place `k`.
abbrev Within : ℕ → List FragEntry → ℕ → Type 0
Within k es i = (k ≤ i) × (i < k + length es)

find_reuse-some :
    (k oldest j : ℕ) (es : List FragEntry)
    → (i : ℕ) × (find_reuse k oldest (some j) es ≡ some i) × ((i ≡ j) ⊎ Within k es i)
unfolding find_reuse
find_reuse-some k oldest j [] = (j, refl, inl refl)
find_reuse-some k oldest j (e ∷ es) = elim (Bool-cases (not e.active)) [
  | inl free ↦ (k, rw free refl, inr (omega arith, omega arith))
  | inr busy ↦ elim (Bool-cases (ltb e.last_tick oldest)) [
    | inl older ↦
        let (i, found, at) = find_reuse-some (k + 1) e.last_tick k es in
        (i, rw (busy, older) found, inr (within_later k i e es at))
    | inr newer ↦
        let (i, found, at) = find_reuse-some (k + 1) oldest j es in
        (i, rw (busy, newer) found, later_or k i j e es at)
  ]
]
  where
    within_later :
        (k i : ℕ) (e : FragEntry) (es : List FragEntry)
        → (i ≡ k) ⊎ Within (k + 1) es i
        → Within k (e ∷ es) i
    within_later k i e es (inl same) = (omega arith, omega arith)
    within_later k i e es (inr w) = (omega (arith, w.0), omega (arith, w.1))

    later_or :
        (k i j : ℕ) (e : FragEntry) (es : List FragEntry)
        → (i ≡ j) ⊎ Within (k + 1) es i
        → (i ≡ j) ⊎ Within k (e ∷ es) i
    later_or k i j e es (inl same) = inl same
    later_or k i j e es (inr w) = inr (omega (arith, w.0), omega (arith, w.1))

pub find_reuse-InTime :
    (e : FragEntry) (es : List FragEntry)
    → InTime (e ∷ es)
    → (i : ℕ) × (find_reuse 0 int64_max none (e ∷ es) ≡ some i) × (i < length (e ∷ es))
unfolding find_reuse
find_reuse-InTime e es h = elim (Bool-cases (not e.active)) [
  | inl free ↦ (0, rw free refl, omega arith)
  | inr busy ↦
      let (i, found, at) = find_reuse-some 1 e.last_tick 0 es in
      (i, rw (busy, lt→ltb e.last_tick int64_max h.0) found, below i at)
]
  where
    below : (i : ℕ) → (i ≡ 0) ⊎ Within 1 es i → i < length (e ∷ es)
    below i (inl same) = omega arith
    below i (inr w) = omega (arith, w.1)

lookup-found :
    (now src id i : ℕ) (es : List FragEntry)
    → find_held src id 0 es ≡ some i
    → ◌≡◌ {A = Option ℕ × List FragEntry} (place_of src id es, prepared now src id es) (some i, es)
unfolding place_of prepared
lookup-found now src id i es e = rw (place_of, prepared, e) refl

lookup-absent :
    (now src id i : ℕ) (es : List FragEntry)
    → find_held src id 0 es ≡ none
    → find_reuse 0 int64_max none es ≡ some i
    → ◌≡◌ {A = Option ℕ × List FragEntry}
        (place_of src id es, prepared now src id es)
        (some i, modify es i (λ _. fresh_entry now src id))
unfolding place_of prepared reuse_entry
lookup-absent now src id i es a f = rw (place_of, prepared, a, f) refl

-- For an unknown datagram FindFragEntry puts a fresh entry at some place of the table.
pub find_frag_entry-Unknown :
    (now src id : ℕ) (es : List FragEntry)
    → 0 < length es
    → InTime es
    → Unknown src id es
    → (i : ℕ) × (find_frag_entry now src id es
        ≡ (some i, modify (map (expire now) es) i (λ _. fresh_entry now src id)))
      × (i < length es)
unfolding find_frag_entry
find_frag_entry-Unknown now src id [] h t u = absurd (omega arith)
find_frag_entry-Unknown now src id (e ∷ es) h t u =
    let t' = expired-InTime now (e ∷ es) t in
    let (i, found, below) = find_reuse-InTime (expire now e) (map (expire now) es) t' in
    (
      i,
      lookup-absent now src id i (map (expire now) (e ∷ es))
          (find_held-Unknown src id 0 (map (expire now) (e ∷ es))
            (expired-Unknown src id now (e ∷ es) u))
          found,
      omega (arith, length-map (expire now) es),
    )

expire_fresh : (now : ℕ) (e : FragEntry) → now ≤ e.last_tick + frag_timeout_ticks → expire now e ≡ e
unfolding expire
expire_fresh now e h = elim (Bool-cases e.active) [
  | inl on ↦ rw (on, soon) refl
  | inr off ↦ rw off refl
]
  where
    soon : ltb frag_timeout_ticks (now - e.last_tick) ≡ false
    soon = ground arith

map-modify :
    (f : FragEntry → FragEntry) (es : List FragEntry) (i : ℕ) (e : FragEntry)
    → map f (modify es i (λ _. e)) ≡ modify (map f es) i (λ _. f e)
map-modify f [] i e = refl
map-modify f (x ∷ es) zero e = refl
map-modify f (x ∷ es) (suc i) e = ap (◌∷◌ (f x)) (map-modify f es i e)

-- The entry of a known datagram is found again before its time is over.
pub find_frag_entry-known :
    (now src id i : ℕ) (e : FragEntry) (es : List FragEntry)
    → i < length es
    → Unknown src id es
    → holds src id e ≡ true
    → now ≤ e.last_tick + frag_timeout_ticks
    → find_frag_entry now src id (modify es i (λ _. e))
      ≡ (some i, modify (map (expire now) es) i (λ _. e))
unfolding find_frag_entry
find_frag_entry-known now src id i e es h u t k =
    rw (map-modify (expire now) es i e, expire_fresh now e k)
      (lookup-found now src id i (modify (map (expire now) es) i (λ _. e)) (
        find_held-modify src id 0 i e (map (expire now) es) (expired-Unknown src id now es u)
          (omega (arith, length-map (expire now) es)) t
        ∙ ap some (omega arith)))
