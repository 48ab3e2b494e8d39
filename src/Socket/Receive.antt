-- ===== src/Socket/Receive.antt =====
-- proxy_socket.cpp: the receive ring. A `const void *` with its length is `none` for nullptr, or
-- the bytes behind it.
use sys_slp_client.Base.{
  ℕ, ◌+◌, ◌/◌, ◌%◌, min, Bool, true, false, not, ◌&&◌, ◌||◌, Option, none, some, List, ltb, ◌==◌,
  if◌then◌else◌, take, copy_into, u16, get_or, zero, suc,
}
use sys_slp_client.Net.BsdTypes.{BsdErrno, bad_f, again, fault, not_conn, SockAddrIn}
use sys_slp_client.Ring.{push_drop_oldest, advance, front}
use sys_slp_client.Socket.State.{
  ProxySocket, ReceivedPacket, empty_packet, is_connected, is_closed, proxy_socket_max_queue_size,
  proxy_socket_max_payload,
}

-- The slot after the write; a nullptr leaves the payload as it was.
unfoldable pub fill_slot : Option (List ℕ) → ℕ → SockAddrIn → ReceivedPacket → ReceivedPacket
unfolding copy_into
fill_slot none copy_len from slot = record slot { from = from; len = u16 copy_len }
fill_slot (some src) copy_len from slot = record {
  from = from;
  len = u16 copy_len;
  payload = copy_into slot.payload src copy_len;
}

unfoldable pub incoming_data : ProxySocket → Option (List ℕ) → ℕ → SockAddrIn → ProxySocket
unfolding push_drop_oldest fill_slot
incoming_data s src len from =
    let copy_len = min len proxy_socket_max_payload in
    record s {
      rx = push_drop_oldest proxy_socket_max_queue_size (fill_slot src copy_len from) s.rx;
      receive_event = true;
    }

-- What `RecvFrom` returns: 0 at end of file, an error, or the bytes that it copied and the sender.
pub data Received : Type 0 where
  eof : Received
  error : BsdErrno → Received
  packet : List ℕ → SockAddrIn → Received

-- The lambda `consume_front`.
unfoldable pub consume_front : ProxySocket → ℕ → Bool → Received × ProxySocket
unfolding advance
consume_front s out_len peek =
    let slot = front empty_packet s.rx in
    let copy_len = min out_len slot.len in
    let rx = if peek then s.rx else advance proxy_socket_max_queue_size s.rx in
    (
      packet (take copy_len slot.payload) slot.from,
      record s { rx = rx; receive_event = if rx.count == 0 then false else s.receive_event },
    )

-- `flags & 0x2` and `flags & 0x80`.
abbrev pub peek_flag : ℕ → Bool
peek_flag flags = flags / 2 % 2 == 1

abbrev pub dontwait_flag : ℕ → Bool
dontwait_flag flags = flags / 128 % 2 == 1

-- After the wait: the event was signalled and a packet is there, or the call gives up.
unfoldable pub after_wait : Bool × ProxySocket → ℕ → Bool → Received × ProxySocket
unfolding consume_front
after_wait (signalled, s) len peek =
    if signalled && ltb 0 s.rx.count then consume_front s len peek else (error again, s)

-- `wait` is `TimedWait` on the receive event: whether it was signalled in time, and the socket as
-- other threads left it. `has_buffer` is false for nullptr.
unfoldable pub recv_from :
    (ProxySocket → Bool × ProxySocket) → ProxySocket → Bool → ℕ → ℕ → Received × ProxySocket
unfolding consume_front after_wait
recv_from wait s has_buffer len flags =
    if s.shutdown_read
    then (eof, s)
    else if is_closed s.state
    then (error bad_f, s)
    else if not has_buffer && ltb 0 len
    then (error fault, s)
    else if not (s.rx.count == 0)
    then consume_front s len (peek_flag flags)
    else if dontwait_flag flags || s.non_blocking
    then (error again, s)
    else after_wait (wait s) len (peek_flag flags)

unfoldable pub recv :
    (ProxySocket → Bool × ProxySocket) → ProxySocket → Bool → ℕ → ℕ → Received × ProxySocket
unfolding recv_from
recv wait s has_buffer len flags =
    if is_connected s.state then recv_from wait s has_buffer len flags else (error not_conn, s)

unfoldable pub has_pending_data : ProxySocket → Bool
has_pending_data s = ltb 0 s.rx.count

-- The loop of `GetPendingDataSize`, `n` packets from index `idx` on.
unfoldable pub pending_size_from : List ReceivedPacket → ℕ → ℕ → ℕ
pending_size_from slots idx zero = 0
pending_size_from slots idx (suc n) =
    (get_or slots idx empty_packet).len
    + pending_size_from slots ((idx + 1) % proxy_socket_max_queue_size) n

unfoldable pub get_pending_data_size : ProxySocket → ℕ
unfolding pending_size_from
get_pending_data_size s = pending_size_from s.rx.slots s.rx.head s.rx.count

-- `wait` is the receive event's wait: `Wait` for 0 ms, which returns when it is signalled, else
-- `TimedWait`.
unfoldable pub wait_for_data : (ℕ → Bool) → ProxySocket → ℕ → Bool
unfolding has_pending_data
wait_for_data wait s timeout_ms =
    if has_pending_data s then true else if timeout_ms == 0 then true else wait timeout_ms

-- The packet at the front, all zeros if there is none.
unfoldable pub pop_front_packet : ProxySocket → Bool → ReceivedPacket × ProxySocket
unfolding advance
pop_front_packet s peek = if s.rx.count == 0 then (empty_packet, s) else (
  front empty_packet s.rx,
  if peek then s else record s { rx = advance proxy_socket_max_queue_size s.rx },
)
