-- ===== src/Ldn/Slots.antt =====
-- The station table under the operations that take stations out or hear from them.
use sys_slp_client.Base.{
  ℕ, zero, suc, ◌+◌, ◌≤◌, ◌≡◌, refl, ap, Bool, true, false, not, ◌&&◌, ◌||◌, if◌then◌else◌, ◌⊎◌,
  inl, inr, List, [], ◌∷◌, map, length, arith, Bool-cases, leb, ◌-◌,
}
use sys_slp_client.Ring.{modify}
use sys_slp_client.Ldn.State.{Station}
use sys_slp_client.Ldn.Stations.{has_ip, members, member_node}
use sys_slp_client.Ldn.Seats.{seats_of}
use sys_slp_client.Ldn.Heartbeat.{reap, touch, relay_peer_timeout_ticks}
use sys_slp_client.Ldn.Control.{at_node, clear_station, free_station}

-- A change of a station that gives no slot to an address.
abbrev pub Shrinks : (Station → Station) → Type 0
Shrinks f = (ip : ℕ) (s : Station) → (has_ip ip (f s) ≡ has_ip ip s) ⊎ (has_ip ip (f s) ≡ false)

seat_le :
    (a b : Bool) (m n : ℕ)
    → (a ≡ b) ⊎ (a ≡ false)
    → m ≤ n
    → (if a then suc m else m) ≤ (if b then suc n else n)
seat_le true true m n e h = omega arith
seat_le true false m n (inl e) h = absurd (cc e)
seat_le true false m n (inr e) h = absurd (cc e)
seat_le false true m n e h = omega arith
seat_le false false m n e h = h

pub seats_of-map :
    (f : Station → Station) (ip : ℕ) (es : List Station)
    → Shrinks f
    → seats_of ip (map f es) ≤ seats_of ip es
seats_of-map f ip [] h = omega arith
seats_of-map f ip (s ∷ es) h =
    seat_le (has_ip ip (f s)) (has_ip ip s) (seats_of ip (map f es)) (seats_of ip es) (h ip s)
      (seats_of-map f ip es h)

seats_of-modify :
    (f : Station → Station) (ip i : ℕ) (es : List Station)
    → Shrinks f
    → seats_of ip (modify es i f) ≤ seats_of ip es
seats_of-modify f ip i [] h = omega arith
seats_of-modify f ip zero (s ∷ es) h =
    seat_le (has_ip ip (f s)) (has_ip ip s) (seats_of ip es) (seats_of ip es) (h ip s) (omega arith)
seats_of-modify f ip (suc i) (s ∷ es) h =
    seat_le (has_ip ip s) (has_ip ip s) (seats_of ip (modify es i f)) (seats_of ip es) (inl refl)
      (seats_of-modify f ip i es h)

pub seats_of-at_node :
    (f : Station → Station) (ip nid : ℕ) (es : List Station)
    → Shrinks f
    → seats_of ip (at_node nid f es) ≤ seats_of ip es
seats_of-at_node f ip zero es h = omega arith
seats_of-at_node f ip (suc i) es h = seats_of-modify f ip i es h

pub length-modify :
    (f : Station → Station) (i : ℕ) (es : List Station) → length (modify es i f) ≡ length es
length-modify f i [] = refl
length-modify f zero (s ∷ es) = refl
length-modify f (suc i) (s ∷ es) = ap suc (length-modify f i es)

pub length-at_node :
    (f : Station → Station) (nid : ℕ) (es : List Station) → length (at_node nid f es) ≡ length es
length-at_node f zero es = refl
length-at_node f (suc i) es = length-modify f i es

pub clear_station-Shrinks : Shrinks clear_station
unfolding has_ip clear_station
clear_station-Shrinks ip s = inr refl

pub free_station-Shrinks : Shrinks free_station
unfolding has_ip free_station
free_station-Shrinks ip s = inr refl

pub touch-Shrinks : (now : ℕ) → Shrinks (touch now)
unfolding has_ip touch
touch-Shrinks now ip s = inl refl

pub reap-Shrinks : (now : ℕ) → Shrinks (reap now)
unfolding has_ip reap
reap-Shrinks now ip s = elim (Bool-cases (not s.active || not s.connected)) [
  | inl out ↦ rw out (inl refl)
  | inr seated ↦ rw seated (elim (Bool-cases (leb relay_peer_timeout_ticks (now - s.last_seen))) [
    | inl mute ↦ rw mute (inr refl)
    | inr heard ↦ rw heard (inl refl)
  ])
]

-- What the network shows of a station is not when it was heard.
touch_member :
    (b : Bool) (nid now : ℕ) (s : Station) (xs ys : List (ℕ × Station))
    → ((i : ℕ) → member_node xs i ≡ member_node ys i)
    → (i : ℕ)
    → member_node (if b then (nid, touch now s) ∷ xs else xs) i
      ≡ member_node (if b then (nid, s) ∷ ys else ys) i
unfolding member_node touch
touch_member false nid now s xs ys h i = h i
touch_member true nid now s xs ys h zero = refl
touch_member true nid now s xs ys h (suc i) = h i

cons_member :
    (b : Bool) (nid : ℕ) (s : Station) (xs ys : List (ℕ × Station))
    → ((i : ℕ) → member_node xs i ≡ member_node ys i)
    → (i : ℕ)
    → member_node (if b then (nid, s) ∷ xs else xs) i
      ≡ member_node (if b then (nid, s) ∷ ys else ys) i
unfolding member_node
cons_member false nid s xs ys h i = h i
cons_member true nid s xs ys h zero = refl
cons_member true nid s xs ys h (suc i) = h i

pub member_node-touch :
    (now k nid : ℕ) (es : List Station) (i : ℕ)
    → member_node (members nid (modify es k (touch now))) i ≡ member_node (members nid es) i
unfolding members touch
member_node-touch now k nid [] i = refl
member_node-touch now zero nid (s ∷ es) i =
    touch_member (s.active && s.connected) nid now s (members (nid + 1) es) (members (nid + 1) es)
      (λ _. refl) i
member_node-touch now (suc k) nid (s ∷ es) i =
    cons_member (s.active && s.connected) nid s (members (nid + 1) (modify es k (touch now)))
      (members (nid + 1) es) (member_node-touch now k (nid + 1) es) i

pub length-members-touch :
    (now k nid : ℕ) (es : List Station)
    → length (members nid (modify es k (touch now))) ≡ length (members nid es)
unfolding members touch
length-members-touch now k nid [] = refl
length-members-touch now zero nid (s ∷ es) = elim (Bool-cases (s.active && s.connected)) [
  | inl joined ↦ rw joined refl
  | inr apart ↦ rw apart refl
]
length-members-touch now (suc k) nid (s ∷ es) = elim (Bool-cases (s.active && s.connected)) [
  | inl joined ↦ rw joined (ap suc (length-members-touch now k (nid + 1) es))
  | inr apart ↦ rw apart (length-members-touch now k (nid + 1) es)
]
