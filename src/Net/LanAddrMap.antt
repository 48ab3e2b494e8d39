-- ===== src/Net/LanAddrMap.antt =====
-- sysmodule/source/bsd/lan_addr_map.{hpp,cpp}: translation between the virtual subnet and the
-- game's own. `enabled` is the compile-time switch `TranslationEnabled`.
use sys_slp_client.Base.{
  ℕ, ◌-◌, ◌%◌, Bool, false, not, ◌&&◌, ◌||◌, ◌==◌, leb, if◌then◌else◌, bit_and, bit_or,
}

abbrev pub virtual_net : ℕ
virtual_net = 0x0A0D0000

abbrev pub virtual_mask : ℕ
virtual_mask = 0xFFFF0000

abbrev pub virtual_peer_net : ℕ
virtual_peer_net = 0x0A0D2500

abbrev pub virtual_bcast : ℕ
virtual_bcast = 0x0A0DFFFF

abbrev pub translation_enabled : Bool
translation_enabled = false

-- `g_real_addr` and `g_real_mask`.
pub record NetMap : Type 0 where
  pub real_addr : ℕ
  pub real_mask : ℕ

abbrev pub initial : NetMap
initial = record { real_addr = 0; real_mask = 0 }

-- `~x` on a 32-bit word.
abbrev pub complement32 : ℕ → ℕ
complement32 x = 4294967295 - x

unfoldable pub is_lan_mode_port : ℕ → Bool
is_lan_mode_port port =
    port == 30000 || port == 40000 || port == 35000 || (leb 49152 port && leb port 49155)

unfoldable pub real_net : NetMap → ℕ
real_net m = bit_and m.real_addr m.real_mask

unfoldable pub real_bcast : NetMap → ℕ
unfolding real_net
real_bcast m = bit_or (real_net m) (complement32 m.real_mask)

unfoldable pub set_real_address : Bool → NetMap → ℕ → ℕ → NetMap
set_real_address enabled m address mask =
    if not enabled
    then initial
    else if not (address == 0) && not (mask == 0) && bit_and address virtual_mask == virtual_net
    then initial
    else record { real_addr = address; real_mask = mask }

unfoldable pub has_real_address : NetMap → Bool
has_real_address m = not (m.real_addr == 0) && not (m.real_mask == 0)

unfoldable pub virtual_to_game : NetMap → ℕ → ℕ
unfolding real_net real_bcast has_real_address
virtual_to_game m virt =
    let mapped : ℕ = bit_or (real_net m) (bit_and virt (complement32 m.real_mask)) in
    if not (has_real_address m)
    then virt
    else if virt == virtual_bcast || virt % 256 == 255
    then real_bcast m
    else if bit_and virt virtual_mask == virtual_net
    then (if mapped == m.real_addr then virt else mapped)
    else virt

unfoldable pub game_to_virtual : NetMap → ℕ → ℕ
unfolding real_net real_bcast has_real_address
game_to_virtual m game =
    if not (has_real_address m)
    then game
    else if game == real_bcast m || game % 256 == 255
    then game
    else if bit_and game m.real_mask == real_net m
    then bit_or virtual_peer_net (bit_and (bit_and game (complement32 m.real_mask)) 255)
    else game
