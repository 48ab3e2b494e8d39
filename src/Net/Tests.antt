-- ===== src/Net/Tests.antt =====
-- Addresses at concrete values.
use sys_slp_client.Base.{◌≡◌, refl, true, bswap32}
use sys_slp_client.Net.IpAddr.{IpV4, network, in_subnet, virtual_net, virtual_mask}
use sys_slp_client.Net.BsdTypes.{SockAddrIn, zero_addr, is_lan_sock_addr}
use sys_slp_client.Net.LanAddrMap.{
  NetMap, set_real_address, virtual_to_game, game_to_virtual, initial,
}

-- 10.13.37.2
abbrev console : IpV4
console = record { numeric = 0x0A0D2502 }

network_bytes : network console ≡ 0x02250D0A
unfolding network bswap32
network_bytes = refl

console_inside : in_subnet console virtual_net virtual_mask ≡ true
unfolding in_subnet
console_inside = refl

abbrev console_addr : SockAddrIn
console_addr = record zero_addr { sin_addr = 0x02250D0A }

console_addr_is_lan : is_lan_sock_addr console_addr ≡ true
unfolding is_lan_sock_addr bswap32
console_addr_is_lan = refl

-- The switch on, at 10.172.227.5 with a /24 mask: a peer is shown on the console's own subnet.
abbrev translating : NetMap
translating = record { real_addr = 0x0AACE305; real_mask = 0xFFFFFF00 }

translated :
    (set_real_address true initial 0x0AACE305 0xFFFFFF00 ≡ translating)
    × (virtual_to_game translating 0x0A0D2564 ≡ 0x0AACE364)
    × (game_to_virtual translating 0x0AACE364 ≡ 0x0A0D2564)
    × (virtual_to_game translating 0x0A0DFFFF ≡ 0x0AACE3FF)
unfolding set_real_address virtual_to_game game_to_virtual
translated = (refl, refl, refl, refl)
