-- ===== src/Socket/Packets.antt =====
-- The receive ring as a queue of datagrams: each is its sender and its bytes.
use sys_slp_client.Base.{
  ℕ, ◌≤◌, ◌≡◌, ap, ◌∙◌, some, List, map, length-map, map-drop_one, length, take, take-copy_into,
  length-copy_into, copy_into, u16, leb, Bool-cases, arith, length-replicate, inl, inr,
}
use sys_slp_client.Base.{All}
use sys_slp_client.Net.BsdTypes.{SockAddrIn}
use sys_slp_client.Ring.{Ring}
use sys_slp_client.Ring.Queue.{contents, bounded}
use sys_slp_client.Ring.Queue
use sys_slp_client.Socket.State.{
  ProxySocket, ReceivedPacket, empty_packet, proxy_socket_max_queue_size, proxy_socket_max_payload,
}
use sys_slp_client.Socket.Receive.{fill_slot}

-- A slot as the code keeps it: a full-size buffer, and a length within it.
pub record IsPacket (p : ReceivedPacket) : Type 0 where
  pub fits : p.len ≤ proxy_socket_max_payload
  pub buffer : length p.payload ≡ proxy_socket_max_payload

abbrev pub Datagram : Type 0
Datagram = SockAddrIn × List ℕ

abbrev pub datagram : ReceivedPacket → Datagram
datagram p = (p.from, take p.len p.payload)

-- The datagrams that wait in a ring, and in a socket, oldest first.
abbrev pub datagrams : Ring ReceivedPacket → List Datagram
datagrams r = map datagram (contents proxy_socket_max_queue_size empty_packet r)

abbrev pub queue : ProxySocket → List Datagram
queue s = datagrams s.rx

-- The ring is well formed, and its slots are.
pub record RxIsValid (rx : Ring ReceivedPacket) : Type 0 where
  pub ring : Queue.IsValid proxy_socket_max_queue_size rx
  pub slots : All IsPacket rx.slots

-- A write of at most the buffer's size leaves a well-formed slot, which shows exactly the bytes written.
pub fill_slot-IsPacket :
    (src : List ℕ) (n : ℕ) (from : SockAddrIn) (p : ReceivedPacket)
    → n ≤ length src
    → n ≤ proxy_socket_max_payload
    → IsPacket p
    → IsPacket (fill_slot (some src) n from p)
unfolding fill_slot
fill_slot-IsPacket src n from p h k v = record {
  fits = omega arith;
  buffer = length-copy_into p.payload src n h (omega (arith, v.buffer)) ∙ v.buffer;
}

pub datagram-fill_slot :
    (src : List ℕ) (n : ℕ) (from : SockAddrIn) (p : ReceivedPacket)
    → n ≤ length src
    → n ≤ proxy_socket_max_payload
    → datagram (fill_slot (some src) n from p) ≡ (from, take n src)
unfolding fill_slot
datagram-fill_slot src n from p h k = λ i. (from, shown i)
  where
    shown : take (u16 n) (copy_into p.payload src n) ≡ take n src
    shown =
        ap (λ k. take k (copy_into p.payload src n)) (omega arith)
        ∙ take-copy_into p.payload src n n h (omega arith)

pub map-bounded {ℓ κ} :
    {A : Type ℓ} {B : Type κ} (f : A → B) (size : ℕ) (q : List A)
    → map f (bounded size q) ≡ bounded size (map f q)
map-bounded f size q = rw (length-map f q) (elim (Bool-cases (leb size (length q))) [
  | inl full ↦ rw full (map-drop_one f q)
  | inr room ↦ rw room
])

pub empty_packet-IsPacket : IsPacket empty_packet
empty_packet-IsPacket = record {
  fits = omega arith;
  buffer = length-replicate proxy_socket_max_payload (let z : ℕ = 0 in z);
}
