-- ===== src/Net/Encodings.antt =====
-- What holds of the address encodings and of the address translation.
use sys_slp_client.Base.{
  ℕ, ◌%◌, ◌<◌, ◌≡◌, refl, true, ◌↔◌, arith, bswap32, bswap32-bswap32, bswap32-lt,
  bit_and-upper_half,
}
use sys_slp_client.Net.IpAddr.{IpV4, from_network, from_octets, network, octet}
use sys_slp_client.Net.BsdTypes.{
  SockAddrIn, set_addr, addr, get_addr, get_port, is_lan_sock_addr, is_lan_address,
}
use sys_slp_client.Net.LanAddrMap.{
  NetMap, set_real_address, virtual_to_game, game_to_virtual, translation_enabled,
}

-- An address put into a socket address is read back by every accessor, the typed one and the
-- bare one, whatever the structure held before.
pub addr-set_addr :
    (s : SockAddrIn) (ip : IpV4)
    → ip.numeric < 4294967296
    → (addr (set_addr s ip) ≡ ip)
      × (get_addr (set_addr s ip) ≡ ip.numeric)
      × (get_port (set_addr s ip) ≡ get_port s)
unfolding addr set_addr get_addr get_port network from_network
addr-set_addr s ip h =
    (ground (arith, bswap32-bswap32 ip.numeric h), bswap32-bswap32 ip.numeric h, refl)

-- The octets of an address in order are its numeric value.
pub from_octets-octet :
    (ip : IpV4)
    → ip.numeric < 4294967296
    → from_octets (octet ip 0) (octet ip 1) (octet ip 2) (octet ip 3) ≡ ip
unfolding from_octets octet
from_octets-octet ip h = ground arith

-- A socket address is in the LAN exactly when its first two octets are 10 and 13.
pub is_lan_sock_addr_iff :
    (s : SockAddrIn)
    → s.sin_addr < 4294967296
    → (is_lan_sock_addr s ≡ true) ↔ ((octet (addr s) 0 ≡ 10) × (octet (addr s) 1 ≡ 13))
unfolding is_lan_sock_addr is_lan_address addr octet from_network
is_lan_sock_addr_iff s h =
    ground (
      arith,
      bswap32-lt s.sin_addr,
      bit_and-upper_half (bswap32 s.sin_addr) (bswap32-lt s.sin_addr),
    )

-- As shipped, with the switch off, no address is translated in either direction, whatever the
-- console's real address was set to before and is set to now.
pub translation_off :
    (m : NetMap) (real mask a : ℕ)
    → let now = set_real_address translation_enabled m real mask in
      (virtual_to_game now a ≡ a) × (game_to_virtual now a ≡ a)
unfolding set_real_address virtual_to_game game_to_virtual
translation_off m real mask a = (refl, refl)

-- With the switch on, a broadcast destination of the game is sent as it is.
pub game_to_virtual-broadcast : (m : NetMap) (a : ℕ) → a % 256 ≡ 255 → game_to_virtual m a ≡ a
unfolding game_to_virtual
game_to_virtual-broadcast m a h = ground arith
