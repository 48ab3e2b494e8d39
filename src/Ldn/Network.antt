-- ===== src/Ldn/Network.antt =====
-- The network that a host announces, against its station table.
use sys_slp_client.Base.{
  ℕ, suc, ◌≤◌, ◌≡◌, refl, sym, subst, ap, ◌∙◌, true, false, List, [], ◌∷◌, map, length, arith,
}
use sys_slp_client.Ldn.State.{
  is_access_point_created, NodeInfo, Station, LdnControl, on_network_info_changed,
}
use sys_slp_client.Ldn.Stations.{station_count, node_at, update_nodes, build_network}
use sys_slp_client.Ldn.Seats.{seats_of}
use sys_slp_client.Ldn.Joining.{IsValid}
use sys_slp_client.Ldn.Scanning.{max_scan_results}
use sys_slp_client.Ldn.Results.{HasResults, Distinct}
use sys_slp_client.Ldn.Control.{at_node}
use sys_slp_client.Ldn.Slots.{Shrinks, seats_of-map, seats_of-at_node, length-at_node}

-- The network is this console and the stations of the table.
pub record Mirrors (c : LdnControl) : Type 0 where
  pub count : c.session.network_info.node_count ≡ suc (station_count c)
  pub same_nodes : (i : ℕ) → c.session.network_info.nodes i ≡ node_at c i

-- What holds between two holders of the mutex.
pub record IsConsistent (c : LdnControl) : Type 0 where
  pub table : IsValid c
  pub results : HasResults c
  pub network : is_access_point_created c.session.state ≡ true → Mirrors c

-- What a network mirrors is these members.
abbrev pub announces : LdnControl → ℕ × (ℕ → NodeInfo)
announces c = (c.session.network_info.node_count, c.session.network_info.nodes)

abbrev pub expected : LdnControl → ℕ × (ℕ → NodeInfo)
expected c = (suc (station_count c), node_at c)

pub same_mirrors :
    (c c' : LdnControl)
    → announces c' ≡ announces c
    → expected c' ≡ expected c
    → Mirrors c
    → Mirrors c'
same_mirrors c c' e f m = record {
  count = ap (λ p. p.0) e ∙ m.count ∙ sym (ap (λ p. p.0) f);
  same_nodes = λ i. ap (λ p. p.1 i) e ∙ m.same_nodes i ∙ sym (ap (λ p. p.1 i) f);
}

pub update_nodes-IsConsistent :
    (c : LdnControl) → IsValid c → HasResults c → IsConsistent (update_nodes c).1
unfolding update_nodes build_network station_count on_network_info_changed node_at
update_nodes-IsConsistent c v r = record {
  table = record { slots = v.slots; unique = v.unique };
  results = r;
  network = λ _. record { count = refl; same_nodes = λ i. refl };
}

-- Tables that are the same are valid alike.
pub same_table : (c c' : LdnControl) → c'.stations ≡ c.stations → IsValid c → IsValid c'
same_table c c' e v = record {
  slots = ap length e ∙ v.slots;
  unique = λ ip. subst (λ es. seats_of ip es ≤ 1) (sym e) (v.unique ip);
}

-- A console that does not host announces nothing.
pub quiet :
    (c c' : LdnControl)
    → c'.stations ≡ c.stations
    → IsValid c
    → HasResults c'
    → is_access_point_created c'.session.state ≡ false
    → IsConsistent c'
quiet c c' e v r q = record {
  table = same_table c c' e v;
  results = r;
  network = λ h. absurd (cc (sym h ∙ q));
}

pub map-IsValid :
    (f : Station → Station) (c : LdnControl)
    → Shrinks f
    → IsValid c
    → IsValid (record c { stations = map f c.stations })
map-IsValid f c s v = record {
  slots = length-mapped c.stations ∙ v.slots;
  unique = λ ip. omega (arith, seats_of-map f ip c.stations s, v.unique ip);
}
  where
    length-mapped : (es : List Station) → length (map f es) ≡ length es
    length-mapped [] = refl
    length-mapped (e ∷ es) = ap suc (length-mapped es)

pub at_node-IsValid :
    (f : Station → Station) (nid : ℕ) (c : LdnControl)
    → Shrinks f
    → IsValid c
    → IsValid (record c { stations = at_node nid f c.stations })
at_node-IsValid f nid c s v = record {
  slots = length-at_node f nid c.stations ∙ v.slots;
  unique = λ ip. omega (arith, seats_of-at_node f ip nid c.stations s, v.unique ip);
}

-- A change of what the invariant does not read.
pub carry :
    (c c' : LdnControl)
    → c'.stations ≡ c.stations
    → c'.scan_results ≡ c.scan_results
    → c'.session.state ≡ c.session.state
    → announces c' ≡ announces c
    → expected c' ≡ expected c
    → IsConsistent c
    → IsConsistent c'
carry c c' e r s a x v = record {
  table = same_table c c' e v.table;
  results = (
    subst (λ rs. length rs ≤ max_scan_results) (sym r) v.results.0,
    subst Distinct (sym r) v.results.1,
  );
  network = λ h. same_mirrors c c' a x (v.network (sym (ap is_access_point_created s) ∙ h));
}
