-- ===== src/Socket/Burst.antt =====
-- What a burst of arrivals leaves in the queue, and how many bytes are pending.
use sys_slp_client.Base.{
  ℕ, zero, suc, ◌+◌, ◌-◌, ◌%◌, ◌≤◌, ◌<◌, ◌≡◌, refl, ap, ap₂, sym, ◌∙◌, min, some, List, [], ◌∷◌,
  ◌++◌, map, length, length-append, length-take, length-replicate, leb→le, le→leb_false,
  append_assoc, append-nil, take, drop, get_or, leb, Bool-cases, arith, inl, inr,
}
use sys_slp_client.Base.{All-get_or, All-replicate, All}
use sys_slp_client.Net.BsdTypes.{SocketType, ProtocolType}
use sys_slp_client.Ring.Queue.{bounded}
use sys_slp_client.Ring.Window.{window, window_congr}
use sys_slp_client.Socket.State.{
  ProxySocket, ReceivedPacket, empty_packet, new_ring, new_socket, proxy_socket_max_queue_size,
  proxy_socket_max_payload,
}
use sys_slp_client.Socket.Packets.{
  IsPacket, Datagram, datagram, queue, RxIsValid, empty_packet-IsPacket,
}
use native.Mathlib.Nat.{mod-mod, mod-eq_of_lt}
use sys_slp_client.Socket.Receive.{incoming_data, pending_size_from, get_pending_data_size}
use sys_slp_client.Socket.Fifo.{length-datagrams, incoming_data-RxIsValid, queue-incoming_data}

-- The last `n` entries.
abbrev pub keep_last {ℓ} : {A : Type ℓ} → ℕ → List A → List A
keep_last n xs = drop (length xs - n) xs

-- The datagram as the ring keeps it.
abbrev pub cut : Datagram → Datagram
cut d = (d.0, take (min (length d.1) proxy_socket_max_payload) d.1)

-- Datagrams that arrive one after the other.
pub arrive : ProxySocket → List Datagram → ProxySocket
arrive s [] = s
arrive s ((from, src) ∷ ds) = arrive (incoming_data s (some src) (length src) from) ds

keep_last_all {ℓ} : {A : Type ℓ} (n : ℕ) (xs : List A) → length xs ≤ n → keep_last n xs ≡ xs
keep_last_all n xs h = ap (λ k. drop k xs) {y = 0} (omega arith)

keep_last_first {ℓ} :
    {A : Type ℓ} (n : ℕ) (x : A) (xs : List A)
    → n ≤ length xs
    → keep_last n (x ∷ xs) ≡ keep_last n xs
keep_last_first n x xs h = ap (λ k. drop k (x ∷ xs)) {y = suc (length xs - n)} (omega arith)

-- Dropping the oldest early does not change what is left in the end.
keep_last-bounded {ℓ} :
    {A : Type ℓ} (n : ℕ) (q : List A) (d : A) (rest : List A)
    → 0 < n
    → keep_last n ((bounded n q ++ d ∷ []) ++ rest) ≡ keep_last n (q ++ d ∷ rest)
keep_last-bounded n [] d rest pos = rw (le→leb_false n 0 pos)
keep_last-bounded n (x ∷ q) d rest pos = elim (Bool-cases (leb n (suc (length q)))) [
  | inl full ↦
      rw (full, append_assoc q (d ∷ []) rest)
        (sym (
          keep_last_first n x (q ++ d ∷ rest)
            (omega (arith, leb→le n (suc (length q)) full, length-append q (d ∷ rest)))))
  | inr room ↦ rw (room, append_assoc q (d ∷ []) rest)
]

-- A burst of arrivals at a socket with a well-formed ring leaves the last 32 of the datagrams that were queued and of
-- those that arrived, in order, each with its sender and its first 2000 bytes.
pub queue-arrive :
    (s : ProxySocket) (ds : List Datagram)
    → RxIsValid s.rx
    → queue (arrive s ds) ≡ keep_last proxy_socket_max_queue_size (queue s ++ map cut ds)
unfolding arrive
queue-arrive s [] v = sym (
    keep_last_all proxy_socket_max_queue_size (queue s ++ [])
      (omega (arith, ap length (append-nil (queue s)), length-datagrams s.rx, v.ring.count_le))
    ∙ append-nil (queue s))
queue-arrive s ((from, src) ∷ ds) v =
    queue-arrive (incoming_data s (some src) (length src) from) ds
      (incoming_data-RxIsValid s src (length src) from v (omega arith))
    ∙ ap (λ q. keep_last proxy_socket_max_queue_size (q ++ map cut ds))
        (queue-incoming_data s src (length src) from v (omega arith))
    ∙ keep_last-bounded proxy_socket_max_queue_size (queue s) (cut (from, src)) (map cut ds)
        (omega arith)

-- The bytes of the queued datagrams.
abbrev pub total_bytes : List Datagram → ℕ
total_bytes [] = 0
total_bytes (d ∷ ds) = length d.1 + total_bytes ds

packet_size : (p : ReceivedPacket) → IsPacket p → p.len ≡ length (datagram p).1
packet_size p v = omega (arith, length-take p.len p.payload, v.fits, v.buffer)

pending_window :
    (slots : List ReceivedPacket) (i n : ℕ)
    → i < proxy_socket_max_queue_size
    → All IsPacket slots
    → pending_size_from slots i n
      ≡ total_bytes (map datagram (window proxy_socket_max_queue_size empty_packet slots i n))
unfolding pending_size_from
pending_window slots i zero h v = refl
pending_window slots i (suc n) h v =
    ap₂ ◌+◌
      (packet_size (get_or slots i empty_packet)
          (All-get_or IsPacket slots i empty_packet v empty_packet-IsPacket)
        ∙ ap (λ k. length (datagram (get_or slots k empty_packet)).1) (sym (mod-eq_of_lt h)))
      (pending_window slots ((i + 1) % proxy_socket_max_queue_size) n (omega arith) v
        ∙ ap (λ w. total_bytes (map datagram w))
            (window_congr proxy_socket_max_queue_size empty_packet slots
              ((i + 1) % proxy_socket_max_queue_size) (i + 1) n
              (mod-mod (i + 1) proxy_socket_max_queue_size)))

-- `GetPendingDataSize` is the number of bytes in the queue.
pub pending-total_bytes :
    (s : ProxySocket) → RxIsValid s.rx → get_pending_data_size s ≡ total_bytes (queue s)
unfolding get_pending_data_size
pending-total_bytes s v = pending_window s.rx.slots s.rx.head s.rx.count v.ring.head_in v.slots

-- A new socket's ring is well formed.
pub new_socket-RxIsValid : (t : SocketType) (p : ProtocolType) → RxIsValid (new_socket t p).rx
unfolding new_socket new_ring
new_socket-RxIsValid t p = record {
  ring = record {
    storage = length-replicate proxy_socket_max_queue_size empty_packet;
    some_room = omega arith;
    head_in = omega arith;
    tail_at = refl;
    count_le = omega arith;
  };
  slots = All-replicate IsPacket proxy_socket_max_queue_size empty_packet empty_packet-IsPacket;
}

pub queue-new_socket : (t : SocketType) (p : ProtocolType) → queue (new_socket t p) ≡ []
unfolding new_socket new_ring
queue-new_socket t p = refl
