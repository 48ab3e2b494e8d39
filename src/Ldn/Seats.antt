-- ===== src/Ldn/Seats.antt =====
-- The slots of the station table, and what filling one does to the searches.
use sys_slp_client.Base.{
  ℕ, suc, ◌+◌, ◌≤◌, ◌≡◌, ◌≢◌, refl, sym, ap, ◌∙◌, Bool, true, false, not, ◌&&◌, ◌==◌, if◌then◌else◌,
  none, some, List, [], ◌∷◌, length, arith, Bool-cases, inl, inr, ==→eq, eq→==, ne→==_false,
}
use sys_slp_client.Ldn.State.{Station}
use sys_slp_client.Ring.{modify}
use sys_slp_client.Ldn.Stations.{find_node, has_ip, seated, members}

-- How many active slots an address has.
abbrev pub seats_of : ℕ → List Station → ℕ
seats_of ip [] = 0
seats_of ip (s ∷ rest) = if has_ip ip s then suc (seats_of ip rest) else seats_of ip rest

-- The first slot that passes a test, at index `i`, filled.
pub data Fills (test : Station → Bool) (new : Station)
    : ℕ → List Station → List Station → Type 0 where
  here : {s : Station} {es : List Station} → test s ≡ true → Fills test new 0 (s ∷ es) (new ∷ es)
  later :
      {i : ℕ} {s : Station} {es es' : List Station}
      → test s ≡ false
      → Fills test new i es es'
      → Fills test new (suc i) (s ∷ es) (s ∷ es')

some_inj {ℓ} : {A : Type ℓ} {a b : A} → some a ≡ some b → a ≡ b
some_inj e = cc e

pub find_node_miss :
    (test : Station → Bool) (nid : ℕ) (s : Station) (es : List Station)
    → test s ≡ false
    → find_node test nid (s ∷ es) ≡ find_node test (nid + 1) es
unfolding find_node
find_node_miss test nid s es h = rw h refl

pub find_node_hit :
    (test : Station → Bool) (nid : ℕ) (s : Station) (es : List Station)
    → test s ≡ true
    → find_node test nid (s ∷ es) ≡ some nid
unfolding find_node
find_node_hit test nid s es h = rw h refl

-- A slot that a search answers is the first that passes.
pub find_node-Fills :
    (test : Station → Bool) (new : Station) (nid k : ℕ) (es : List Station)
    → find_node test nid es ≡ some k
    → (i : ℕ) × (k ≡ nid + i) × Fills test new i es (modify es i (λ _. new))
unfolding find_node
find_node-Fills test new nid k [] e = absurd (cc e)
find_node-Fills test new nid k (s ∷ es) e = elim (Bool-cases (test s)) [
  | inl hit ↦ (0, omega (arith, some_inj (sym (find_node_hit test nid s es hit) ∙ e)), here hit)
  | inr miss ↦
      let r =
        find_node-Fills test new (nid + 1) k es (sym (find_node_miss test nid s es miss) ∙ e) in
      (suc r.0, omega (arith, r.1), later miss r.2)
]

pub has_ip-seated :
    (now a : ℕ) (node : _) (nid ip : ℕ) → has_ip ip (seated now a node nid) ≡ (a == ip)
unfolding has_ip seated
has_ip-seated now a node nid ip = refl

and_right : (x y : Bool) → x && y ≡ true → y ≡ true
and_right true y h = h
and_right false y h = absurd (cc h)

pub and_false : (x y : Bool) → y ≡ false → x && y ≡ false
and_false true y h = h
and_false false y h = refl

-- A slot of one address is not one of another.
pub has_ip_other : (a ip : ℕ) (s : Station) → a ≢ ip → has_ip a s ≡ true → has_ip ip s ≡ false
unfolding has_ip
has_ip_other a ip s ne h = and_false s.active _ (ne→==_false s.src_ip ip (λ e. ne (sym of_a ∙ e)))
  where
    of_a : s.src_ip ≡ a
    of_a = ==→eq s.src_ip a (and_right s.active _ h)

pub has_ip_free : (ip : ℕ) (s : Station) → not s.active ≡ true → has_ip ip s ≡ false
unfolding has_ip
has_ip_free ip s h = elim (Bool-cases s.active) [
  | inl busy ↦ absurd (cc (sym h ∙ ap not busy))
  | inr idle ↦ rw idle refl
]

-- An address that is not found has no slot.
pub find_node-none :
    (a nid : ℕ) (es : List Station) → find_node (has_ip a) nid es ≡ none → seats_of a es ≡ 0
find_node-none a nid [] e = refl
find_node-none a nid (s ∷ es) e = elim (Bool-cases (has_ip a s)) [
  | inl hit ↦ absurd (cc (sym (find_node_hit (has_ip a) nid s es hit) ∙ e))
  | inr miss ↦
      rw miss (find_node-none a (nid + 1) es (sym (find_node_miss (has_ip a) nid s es miss) ∙ e))
]

-- What filling a slot for `a` does, where a slot that passes the test is no other address's.
module _ (a : ℕ) (test : Station → Bool) (new : Station)
    (mine : (ip : ℕ) → has_ip ip new ≡ (a == ip))
    (foreign : (s : Station) (ip : ℕ) → a ≢ ip → test s ≡ true → has_ip ip s ≡ false) where
  new_other : (ip : ℕ) → a ≢ ip → has_ip ip new ≡ false
  new_other ip ne = mine ip ∙ ne→==_false a ip ne

  new_own : has_ip a new ≡ true
  new_own = mine a ∙ eq→== a a refl

  pub seats_of-other :
      (ip i : ℕ) (es es' : List Station)
      → a ≢ ip
      → Fills test new i es es'
      → seats_of ip es' ≡ seats_of ip es
  seats_of-other ip _ _ _ ne (here {s} h) = rw (new_other ip ne, foreign s ip ne h) refl
  seats_of-other ip _ _ _ ne (later {i} {s} {es} {es'} h r) =
      ap (λ n. if has_ip ip s then suc n else n) (seats_of-other ip i es es' ne r)

  pub find_node-other :
      (ip i nid : ℕ) (es es' : List Station)
      → a ≢ ip
      → Fills test new i es es'
      → find_node (has_ip ip) nid es' ≡ find_node (has_ip ip) nid es
  unfolding find_node
  find_node-other ip _ nid _ _ ne (here {s} h) = rw (new_other ip ne, foreign s ip ne h) refl
  find_node-other ip _ nid _ _ ne (later {i} {s} {es} {es'} h r) =
      ap (λ o. if has_ip ip s then some nid else o) (find_node-other ip i (nid + 1) es es' ne r)

  pub length-Fills :
      (i : ℕ) (es es' : List Station) → Fills test new i es es' → length es' ≡ length es
  length-Fills _ _ _ (here h) = refl
  length-Fills _ _ _ (later {i} {s} {es} {es'} h r) = ap suc (length-Fills i es es' r)

  pub seats_of-own :
      (i : ℕ) (es es' : List Station)
      → Fills test new i es es'
      → seats_of a es' ≤ suc (seats_of a es)
  seats_of-own _ _ _ (here {s} {es} h) = rw new_own (elim (Bool-cases (has_ip a s)) [
    | inl hit ↦ rw hit (omega arith)
    | inr miss ↦ rw miss (omega arith)
  ])
  seats_of-own _ _ _ (later {i} {s} {es} {es'} h r) = elim (Bool-cases (has_ip a s)) [
    | inl hit ↦ rw hit (omega (arith, seats_of-own i es es' r))
    | inr miss ↦ rw miss (seats_of-own i es es' r)
  ]

  -- An address without a slot is found where it is put.
  pub find_node-new :
      (i nid : ℕ) (es es' : List Station)
      → find_node (has_ip a) nid es ≡ none
      → Fills test new i es es'
      → find_node (has_ip a) nid es' ≡ some (nid + i)
  find_node-new _ nid _ _ e (here {s} {es} h) =
      find_node_hit (has_ip a) nid new es new_own ∙ ap some (omega arith)
  find_node-new _ nid _ _ e (later {i} {s} {es} {es'} h r) = elim (Bool-cases (has_ip a s)) [
    | inl hit ↦ absurd (cc (sym (find_node_hit (has_ip a) nid s es hit) ∙ e))
    | inr miss ↦
        find_node_miss (has_ip a) nid s es' miss
        ∙ find_node-new i (nid + 1) es es' (sym (find_node_miss (has_ip a) nid s es miss) ∙ e) r
        ∙ ap some (omega arith)
  ]

-- A retry keeps the address's slot.
module _ (a : ℕ) (new : Station) (own : has_ip a new ≡ true) where
  pub seats_of-retry :
      (i : ℕ) (es es' : List Station)
      → Fills (has_ip a) new i es es'
      → seats_of a es' ≡ seats_of a es
  seats_of-retry _ _ _ (here {s} h) = rw (own, h) refl
  seats_of-retry _ _ _ (later {i} {s} {es} {es'} h r) =
      ap (λ n. if has_ip a s then suc n else n) (seats_of-retry i es es' r)

  pub find_node-retry :
      (i nid : ℕ) (es es' : List Station)
      → Fills (has_ip a) new i es es'
      → find_node (has_ip a) nid es' ≡ some (nid + i)
  find_node-retry _ nid _ _ (here {s} {es} h) =
      find_node_hit (has_ip a) nid new es own ∙ ap some (omega arith)
  find_node-retry _ nid _ _ (later {i} {s} {es} {es'} h r) =
      find_node_miss (has_ip a) nid s es' h
      ∙ find_node-retry i (nid + 1) es es' r
      ∙ ap some (omega arith)

-- The network's members are no more than the slots.
pub length-members : (nid : ℕ) (es : List Station) → length (members nid es) ≤ length es
unfolding members
length-members nid [] = omega arith
length-members nid (s ∷ es) = elim (Bool-cases (s.active && s.connected)) [
  | inl joined ↦ rw joined (omega (arith, length-members (nid + 1) es))
  | inr apart ↦ rw apart (omega (arith, length-members (nid + 1) es))
]
