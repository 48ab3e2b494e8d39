-- ===== src/Service/Tests.antt =====
-- The calls of the service at concrete inputs.
use sys_slp_client.Base.{
  Bool, ℕ, ◌≡◌, refl, true, false, some, none, List, [], ◌∷◌, arith, bswap16, bswap32,
}
use sys_slp_client.Net.BsdTypes.{SockAddrIn, zero_addr, dgram, udp, addr, get_port}
use sys_slp_client.Net.IpAddr.{from_network}
use sys_slp_client.Net.LanAddrMap.{initial}
use sys_slp_client.Socket.State.{ProxySocket, new_socket, new_ring, closed}
use sys_slp_client.Socket.Receive.{incoming_data}
use sys_slp_client.Manager.State.{ProxySocketManager, new_manager}
use sys_slp_client.Manager.Sockets.{get_proxy_socket, get_active_socket_count}
use sys_slp_client.Service.Poll.{PollFd, PollAnswer, poll}
use sys_slp_client.Service.Bind.{
  SocketInfo, BsdMitmService, BindAnswers, promote, service_bind, track_socket,
}
use sys_slp_client.Manager.Lookup.{IsValid}
use sys_slp_client.Service.Table.{service_close, copy_info, save_option, clean_up_session}
use sys_slp_client.Service.Cleanup.{Ended, clean_up_session-Ended}
use sys_slp_client.Service.Sessions.{Sessions, no_sessions, set_at, should_mitm, forget_session}
use sys_slp_client.Service.Bursts.{
  Reach, at_rest, more, passed, intercepted, IsCounted, Reach-IsCounted,
}
use sys_slp_client.Service.Promotion.{Bound, service_bind-Bound}

abbrev idle_socket : ProxySocket
idle_socket = new_socket dgram udp

abbrev full_socket : ProxySocket
full_socket = incoming_data idle_socket (some (1 ∷ 2 ∷ [])) 2 zero_addr

abbrev manager_with : ProxySocket → ProxySocketManager
manager_with s = record new_manager { sockets = (3, s) ∷ [] }

-- Reads of a proxy socket and of a real one.
abbrev entries : List PollFd
entries =
    record { fd = 3; events = 1; revents = 9 } ∷ record { fd = 4; events = 1; revents = 9 } ∷ []

abbrev nothing_ready : List PollFd → PollAnswer
nothing_ready fds = record { success = true; errno = 0; count = 0; fds = fds }

at_once :
    (poll nothing_ready
      (manager_with full_socket)
      (manager_with full_socket)
      entries
      entries
      2).count
    ≡ 1
unfolding poll new_manager incoming_data new_socket get_proxy_socket new_ring
at_once = refl

-- One entry that turns readable and hung up during the real poll counts twice.
counted_twice :
    (poll nothing_ready
      (manager_with idle_socket)
      (manager_with (record full_socket { state = closed }))
      entries
      entries
      2).count
    ≡ 2
unfolding poll new_manager incoming_data new_socket get_proxy_socket new_ring
counted_twice = refl

abbrev service : BsdMitmService
service = track_socket (some 3) dgram none (record {
  session_id = 1;
  mode = 0;
  entered_local_network_mode = false;
  socket_info = [];
  manager = new_manager;
  net = initial;
})

abbrev bind_answers : BindAnswers
bind_answers = record { place = 0; real = none; entered = true }

-- 0.0.0.0:30000
abbrev browse : SockAddrIn
browse = record zero_addr { sin_family = 2; sin_port = bswap16 30000 }

service_bind-Bound_example :
    Bound 3 browse service (service_bind bind_answers 3 (some browse) service)
service_bind-Bound_example = service_bind-Bound bind_answers 3 browse service (omega arith)

abbrev plain : SocketInfo
plain = record { type = dgram; protocol = udp; is_proxy = false; broadcast = false; session_id = 1 }

browse_promoted : promote browse plain ≡ true
unfolding promote addr from_network bswap32 get_port bswap16
browse_promoted = refl

any_port_passed_on : promote (record browse { sin_port = 0 }) plain ≡ false
unfolding promote addr from_network bswap32 get_port bswap16
any_port_passed_on = refl

broadcaster_promoted :
    promote (record browse { sin_port = 0 }) (record plain { broadcast = true }) ≡ true
unfolding promote addr from_network bswap32 get_port bswap16
broadcaster_promoted = refl

-- Two sessions: the first has a proxy socket, descriptor 3.
abbrev two_sessions : BsdMitmService
two_sessions = record service {
  socket_info = (3, record plain { is_proxy = true }) ∷ (5, record plain { session_id = 2 }) ∷ [];
  manager = manager_with full_socket;
}

manager_with-IsValid : IsValid (manager_with full_socket)
unfolding new_manager get_active_socket_count
manager_with-IsValid = record { distinct = (refl, tt); within = omega arith }

clean_up_session-Ended_example :
    IsValid (clean_up_session two_sessions).0.manager
    × Ended two_sessions (clean_up_session two_sessions).0 3 (record plain { is_proxy = true })
unfolding track_socket
clean_up_session-Ended_example =
    clean_up_session-Ended two_sessions 3 (record plain { is_proxy = true }) manager_with-IsValid
      (refl, (refl, tt)) refl

-- A proxy socket that a failed Bind left is not closed with its descriptor.
abbrev after_failed_bind : BsdMitmService
after_failed_bind = record service {
  socket_info = (3, plain) ∷ [];
  manager = manager_with idle_socket;
}

left_open : get_proxy_socket (service_close 3 after_failed_bind).0.manager 3 ≡ some idle_socket
unfolding service_close get_proxy_socket track_socket
left_open = refl

copied_entry :
    (copy_info 5 (some 6) two_sessions).socket_info
    ≡ (6, record plain { session_id = 2 }) ∷ two_sessions.socket_info
unfolding copy_info track_socket
copied_entry = refl

saved : (save_option 5 0xFFFF 0x20 (some 1) after_failed_bind).socket_info ≡ (3, plain) ∷ []
unfolding save_option track_socket
saved = refl

-- An application's first session, its second, and the end of the second.
abbrev first_asked : Bool × Sessions
first_asked = should_mitm true true 0x0100152000022000 80 no_sessions

abbrev second_asked : Bool × Sessions
second_asked = should_mitm true true 0x0100152000022000 80 first_asked.1

skips_first : (first_asked.0 ≡ false) × (second_asked.0 ≡ true)
unfolding should_mitm
skips_first = (refl, refl)

skips_again :
    (should_mitm true true 0x0100152000022000 80 (forget_session 80 second_asked.1)).0 ≡ false
unfolding should_mitm forget_session
skips_again = refl

abbrev one_alive : ℕ → ℕ
one_alive = set_at 80 1 (λ _. 0)

second_reached : Reach second_asked.1 one_alive
unfolding should_mitm
second_reached =
    more first_asked.1 second_asked.1 (λ _. 0) one_alive
      (more no_sessions first_asked.1 (λ _. 0) (λ _. 0) at_rest
        (passed true true 0x0100152000022000 80 no_sessions (λ _. 0) refl))
      (intercepted true true 0x0100152000022000 80 first_asked.1 (λ _. 0) refl (omega arith))

Reach-IsCounted_example : IsCounted second_asked.1 one_alive
Reach-IsCounted_example = Reach-IsCounted second_asked.1 one_alive second_reached
