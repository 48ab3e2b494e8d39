-- ===== src/Service/Promotion.antt =====
-- Which binds go to a proxy socket.
use sys_slp_client.Base.{
  ℕ, ◌≤◌, ◌<◌, ◌≡◌, ◌↔◌, ◌⊎◌, refl, sym, ◌∙◌, subst, true, false, ◌==◌, Option, none, some,
  if_cases, ==→eq, ==_false→ne, arith,
}
use sys_slp_client.Net.IpAddr.{octet, is_any}
use sys_slp_client.Net.BsdTypes.{SockAddrIn, af_inet, addr, get_port}
use sys_slp_client.Net.Encodings.{is_lan_sock_addr_iff}
use sys_slp_client.Manager.Sockets.{create_proxy_socket}
use sys_slp_client.Service.Binding.{Serves, bind_created-Serves, create_proxy_socket-Given}
use sys_slp_client.Service.Bind.{
  SocketInfo, BsdMitmService, BindAnswers, BindReply, forwarded, find_info, promote,
  lan_signature_port, bind_tracked, service_bind,
}

-- The ports of a LAN game.
abbrev pub IsLanPort : ℕ → Type 0
IsLanPort port =
    (port ≡ 30000) ⊎ (port ≡ 35000) ⊎ (port ≡ 11452) ⊎ ((49152 ≤ port) × (port ≤ 49155))

-- An address 10.13.x.x, or 0.0.0.0 on a socket with SO_BROADCAST or on a port of a LAN game.
abbrev pub IsForProxy : SockAddrIn → SocketInfo → Type 0
IsForProxy a info =
    ((octet (addr a) 0 ≡ 10) × (octet (addr a) 1 ≡ 13))
    ⊎ (((addr a).numeric ≡ 0) × ((info.broadcast ≡ true) ⊎ IsLanPort (get_port a)))

lan_signature_port_iff : (port : ℕ) → (lan_signature_port port ≡ true) ↔ IsLanPort port
unfolding lan_signature_port
lan_signature_port_iff port = (ground arith, ground arith)

promote_iff :
    (a : SockAddrIn) (info : SocketInfo)
    → a.sin_addr < 4294967296
    → (promote a info ≡ true) ↔ IsForProxy a info
unfolding promote is_any
promote_iff a info h =
    let (lan, lan') = is_lan_sock_addr_iff a h in
    let (sig, sig') = lan_signature_port_iff (get_port a) in (ground arith, ground arith)

-- What a Bind must be for a proxy socket to answer it: of an IPv4 address that is for a proxy, on a descriptor that is known.
pub record Handled (fd : ℕ) (a : SockAddrIn) (s : BsdMitmService) : Type 0 where
  pub info : SocketInfo
  pub family : a.sin_family ≡ af_inet
  pub known : find_info fd s.socket_info ≡ some info
  pub is_for : IsForProxy a info

pub data Bound (fd : ℕ) (a : SockAddrIn) (s : BsdMitmService)
    : BindReply × BsdMitmService → Type 0 where
  passed_on : ¬ Handled fd a s → Bound fd a s (forwarded, s)
  by_proxy :
      (h : Handled fd a s) (r : BindReply × BsdMitmService)
      → Serves fd a h.info s r
      → Bound fd a s r

found_eq : {x y : SocketInfo} → some x ≡ some y → x ≡ y
found_eq p = cc p

true-false : true ≡ false → ⊥
true-false e = cc e

tracked-Bound :
    (i : BindAnswers) (fd : ℕ) (a : SockAddrIn) (found : Option SocketInfo) (s : BsdMitmService)
    → a.sin_addr < 4294967296
    → a.sin_family ≡ af_inet
    → find_info fd s.socket_info ≡ found
    → Bound fd a s (bind_tracked i fd a found s)
unfolding bind_tracked
tracked-Bound i fd a none s low family e = passed_on (λ h. cc (sym e ∙ h.known))
tracked-Bound i fd a (some info) s low family e =
    if_cases (Bound fd a s) (promote a info) _ _
      (λ yes.
        by_proxy
          (record {
            info = info;
            family = family;
            known = e;
            is_for = (promote_iff a info low).0 yes;
          })
          _
          (bind_created-Serves i fd a info s low family e
            (create_proxy_socket s.manager i.place fd info.type info.protocol)
            (create_proxy_socket-Given s.manager i.place fd info.type info.protocol)))
      (λ no. passed_on (λ h. true-false (
        sym
          ((promote_iff a info low).1 (subst (IsForProxy a) (found_eq (sym h.known ∙ e)) h.is_for))
        ∙ no)))

-- Bind to a whole socket address, whatever the tables hold and the system answers. It goes to a proxy socket if the address is
-- an IPv4 one and the descriptor is known, and the address is 10.13.x.x, or 0.0.0.0 on a socket with SO_BROADCAST or on one of
-- the ports 30000, 35000, 11452 and 49152 to 49155; every other Bind is forwarded to the real service and changes nothing. The
-- proxy socket's Bind fails with ENOMEM, and changes nothing, only if the descriptor has no proxy socket and 64 exist; with
-- EADDRINUSE only if the port is in use, or is 0 and none is left to draw; and with EINVAL only if the descriptor has a proxy
-- socket that is no longer new, which then keeps its state and address while the port stays reserved. Otherwise it succeeds:
-- the descriptor then has a bound proxy socket, whose local address is the game's own with its port reserved, or with a port
-- that was drawn if the game gave 0, and the descriptor is marked as a proxy.
pub service_bind-Bound :
    (i : BindAnswers) (fd : ℕ) (a : SockAddrIn) (s : BsdMitmService)
    → a.sin_addr < 4294967296
    → Bound fd a s (service_bind i fd (some a) s)
unfolding service_bind
service_bind-Bound i fd a s low =
    if_cases (Bound fd a s) (a.sin_family == af_inet) _ _
      (λ yes.
        tracked-Bound i fd a (find_info fd s.socket_info) s low (==→eq a.sin_family af_inet yes)
          refl)
      (λ no. passed_on (λ h. ==_false→ne a.sin_family af_inet no h.family))
