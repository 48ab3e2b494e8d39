-- ===== src/Manager/Agreement.antt =====
-- The two searches of proxy_socket_manager.cpp, FindSocketByDestination and
-- FindAllSocketsByDestination.
use sys_slp_client.Base.{
  ℕ, suc, ◌+◌, ◌≡◌, refl, Bool, Option, none, some, List, [], ◌∷◌, Bool-cases, inl, inr, fun_ext,
}
use sys_slp_client.Net.BsdTypes.{ProtocolType}
use sys_slp_client.Socket.State.{ProxySocket}
use sys_slp_client.Manager.State.{ProxySocketManager, Entry}
use sys_slp_client.Manager.Routing.{
  is_destination, is_first_destination, first_from, find_all_from, find_socket_by_destination,
  find_all_sockets_by_destination,
}

-- The first place of an array.
abbrev first_listed : List ℕ → Option ℕ
first_listed [] = none
first_listed (p ∷ _) = some p

abbrev pub place_found : Option (ℕ × ProxySocket) → Option ℕ
place_found none = none
place_found (some (p, _)) = some p

module _ (test : ProxySocket → Bool) where
  first_from-find_all_from :
      (room pos : ℕ) (es : List Entry)
      → place_found (first_from test pos es) ≡ first_listed (find_all_from test (suc room) pos es)
  unfolding first_from find_all_from
  first_from-find_all_from room pos [] = refl
  first_from-find_all_from room pos ((fd, s) ∷ es) = elim (Bool-cases (test s)) [
    | inl hit ↦ rw hit refl
    | inr miss ↦ rw miss (first_from-find_all_from room (pos + 1) es)
  ]

-- The two copies of the guards test the same.
same_guards :
    (dest_ip dest_port : ℕ) (protocol : ProtocolType) (s : ProxySocket)
    → is_first_destination dest_ip dest_port protocol s
      ≡ is_destination dest_ip dest_port protocol s
unfolding is_first_destination is_destination
same_guards dest_ip dest_port protocol s = refl

find_socket-find_all_sockets :
    (m : ProxySocketManager) (dest_ip dest_port : ℕ) (protocol : ProtocolType) (room : ℕ)
    → place_found (find_socket_by_destination m dest_ip dest_port protocol)
      ≡ first_listed (find_all_sockets_by_destination m dest_ip dest_port protocol (suc room))
unfolding find_socket_by_destination find_all_sockets_by_destination
find_socket-find_all_sockets m dest_ip dest_port protocol room =
    rw (fun_ext (same_guards dest_ip dest_port protocol))
      (first_from-find_all_from (is_destination dest_ip dest_port protocol) room 0 m.sockets)
