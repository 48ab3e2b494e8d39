-- ===== src/Socket/Fifo.antt =====
-- Arrivals and removals, on the queue that the ring holds.
use sys_slp_client.Base.{
  ℕ, ◌≤◌, ◌<◌, ◌≡◌, refl, subst, ap, ap₂, sym, ◌∙◌, min, Bool, true, false, Option, some, List, [],
  ◌∷◌, ◌++◌, map, map-append, length, length-map, take, take-min, get_or, if◌then◌else◌, arith,
}
use sys_slp_client.Base.{All}
use sys_slp_client.Ring.Window.{All-modify}
use sys_slp_client.Net.BsdTypes.{SockAddrIn}
use sys_slp_client.Ring.{Ring, push_drop_oldest, advance, front}
use sys_slp_client.Ring.Queue.{
  contents, bounded, contents-push_drop_oldest, contents-front, length-contents,
  push_drop_oldest-IsValid, slots-push_drop_oldest, slots-advance, advance-IsValid,
}
use sys_slp_client.Socket.State.{
  ProxySocket, ReceivedPacket, empty_packet, proxy_socket_max_queue_size, proxy_socket_max_payload,
}
use sys_slp_client.Socket.Packets.{
  IsPacket, Datagram, datagram, datagrams, queue, RxIsValid, fill_slot-IsPacket, datagram-fill_slot,
  map-bounded,
}
use sys_slp_client.Socket.Receive.{Received, packet, fill_slot, incoming_data, consume_front}

module _ (src : List ℕ) (n : ℕ) (from : SockAddrIn) (r : Ring ReceivedPacket) where
  abbrev pushed : Ring ReceivedPacket
  pushed = push_drop_oldest proxy_socket_max_queue_size (fill_slot (some src) n from) r

  datagrams-pushed :
      n ≤ length src
      → n ≤ proxy_socket_max_payload
      → RxIsValid r
      → datagrams pushed
        ≡ bounded proxy_socket_max_queue_size (datagrams r) ++ (from, take n src) ∷ []
  datagrams-pushed h k v =
      ap (map datagram) (
        contents-push_drop_oldest proxy_socket_max_queue_size empty_packet
          (fill_slot (some src) n from) r v.ring)
      ∙ map-append datagram
          (bounded proxy_socket_max_queue_size
            (contents proxy_socket_max_queue_size empty_packet r))
          (fill_slot (some src) n from (get_or r.slots r.tail empty_packet) ∷ [])
      ∙ ap₂ (λ q d. q ++ d ∷ [])
          (map-bounded datagram proxy_socket_max_queue_size
            (contents proxy_socket_max_queue_size empty_packet r))
          (datagram-fill_slot src n from (get_or r.slots r.tail empty_packet) h k)

  pushed-RxIsValid : n ≤ length src → n ≤ proxy_socket_max_payload → RxIsValid r → RxIsValid pushed
  pushed-RxIsValid h k v = record {
    ring =
        push_drop_oldest-IsValid proxy_socket_max_queue_size empty_packet
          (fill_slot (some src) n from) r v.ring;
    slots =
        subst (All IsPacket)
          (sym (
            slots-push_drop_oldest proxy_socket_max_queue_size empty_packet
              (fill_slot (some src) n from) r))
          (All-modify IsPacket r.slots r.tail (fill_slot (some src) n from)
            (λ p w. fill_slot-IsPacket src n from p h k w) v.slots);
  }

rx-incoming_data :
    (s : ProxySocket) (src : Option (List ℕ)) (len : ℕ) (from : SockAddrIn)
    → (incoming_data s src len from).rx
      ≡ push_drop_oldest proxy_socket_max_queue_size
          (fill_slot src (min len proxy_socket_max_payload) from)
          s.rx
unfolding incoming_data
rx-incoming_data s src len from = refl

-- An arrival keeps the ring well formed.
pub incoming_data-RxIsValid :
    (s : ProxySocket) (src : List ℕ) (len : ℕ) (from : SockAddrIn)
    → RxIsValid s.rx
    → len ≤ length src
    → RxIsValid (incoming_data s (some src) len from).rx
incoming_data-RxIsValid s src len from v h = rw (rx-incoming_data s (some src) len from) (
    pushed-RxIsValid src (min len proxy_socket_max_payload) from s.rx (omega arith) (omega arith) v)

-- A datagram that arrives at a socket with a well-formed ring is queued last, with its sender and its first 2000 bytes;
-- a queue that already holds 32 loses its oldest.
pub queue-incoming_data :
    (s : ProxySocket) (src : List ℕ) (len : ℕ) (from : SockAddrIn)
    → RxIsValid s.rx
    → len ≤ length src
    → queue (incoming_data s (some src) len from)
      ≡ bounded proxy_socket_max_queue_size (queue s)
        ++ (from, take (min len proxy_socket_max_payload) src) ∷ []
queue-incoming_data s src len from v h = rw (rx-incoming_data s (some src) len from) (
    datagrams-pushed src (min len proxy_socket_max_payload) from s.rx (omega arith) (omega arith) v)

pub length-datagrams : (r : Ring ReceivedPacket) → length (datagrams r) ≡ r.count
length-datagrams r =
    length-map datagram (contents proxy_socket_max_queue_size empty_packet r)
    ∙ length-contents proxy_socket_max_queue_size empty_packet r

module _ (r : Ring ReceivedPacket) (v : RxIsValid r) where
  advance-RxIsValid : 0 < r.count → RxIsValid (advance proxy_socket_max_queue_size r)
  advance-RxIsValid h = record {
    ring = advance-IsValid proxy_socket_max_queue_size empty_packet r v.ring h;
    slots =
        subst (All IsPacket) (sym (slots-advance proxy_socket_max_queue_size empty_packet r))
          v.slots;
  }

  datagrams-front :
      0 < r.count
      → datagrams r
        ≡ datagram (front empty_packet r) ∷ datagrams (advance proxy_socket_max_queue_size r)
  datagrams-front h =
      ap (map datagram) (contents-front proxy_socket_max_queue_size empty_packet r v.ring h)

-- The oldest datagram of a ring, taken apart.
record Oldest (r : Ring ReceivedPacket) (d : Datagram) (rest : List Datagram) : Type 0 where
  shown : datagram (front empty_packet r) ≡ d
  left : datagrams (advance proxy_socket_max_queue_size r) ≡ rest
  valid : RxIsValid (advance proxy_socket_max_queue_size r)

cons_parts {ℓ} : {A : Type ℓ} {x y : A} {xs ys : List A} → x ∷ xs ≡ y ∷ ys → (x ≡ y) × (xs ≡ ys)
cons_parts e = (cc, cc)

datagrams-Oldest :
    (r : Ring ReceivedPacket) (d : Datagram) (rest : List Datagram)
    → RxIsValid r
    → datagrams r ≡ d ∷ rest
    → Oldest r d rest
datagrams-Oldest r d rest v e =
    let h : 0 < r.count = omega (arith, length-datagrams r, ap length e) in
    let parts = cons_parts (sym (datagrams-front r v h) ∙ e) in
    record { shown = parts.0; left = parts.1; valid = advance-RxIsValid r v h }

-- What a call that copies out the oldest datagram `d` of a queue `d ∷ rest` returns, and leaves.
pub record Delivers (len : ℕ) (peek : Bool) (d : Datagram) (rest : List Datagram)
    (out : Received × ProxySocket) : Type 0 where
  pub result : out.0 ≡ packet (take len d.1) d.0
  pub queued : queue out.1 ≡ (if peek then d ∷ rest else rest)
  pub valid : RxIsValid out.1.rx

copied :
    (s : ProxySocket) (len : ℕ) (d : Datagram) (rest : List Datagram)
    → RxIsValid s.rx
    → queue s ≡ d ∷ rest
    → let slot = front empty_packet s.rx in
      packet (take (min len slot.len) slot.payload) slot.from ≡ packet (take len d.1) d.0
copied s len d rest v e =
    let slot = front empty_packet s.rx in
    ap (λ l. packet l slot.from) (take-min len slot.len slot.payload)
    ∙ ap (λ (x : Datagram). packet (take len x.1) x.0) (datagrams-Oldest s.rx d rest v e).shown

pub consume_front-Delivers :
    (s : ProxySocket) (len : ℕ) (peek : Bool) (d : Datagram) (rest : List Datagram)
    → RxIsValid s.rx
    → queue s ≡ d ∷ rest
    → Delivers len peek d rest (consume_front s len peek)
unfolding consume_front
consume_front-Delivers s len true d rest v e = record {
  result = copied s len d rest v e;
  queued = e;
  valid = v;
}
consume_front-Delivers s len false d rest v e =
    let o = datagrams-Oldest s.rx d rest v e in
    record { result = copied s len d rest v e; queued = o.left; valid = o.valid }
