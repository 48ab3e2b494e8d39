-- ===== src/Socket/Delivery.antt =====
-- RecvFrom, on the queue that the ring holds.
use sys_slp_client.Base.{
  ℕ, ◌<◌, if_cases, if_no, if_yes, ◌≡◌, ◌⊎◌, refl, ap, Bool, true, false, not, ◌&&◌, ◌||◌, List, [],
  ◌∷◌, length, ltb, ◌==◌, if◌then◌else◌, Bool-cases, arith, inl, inr,
}
use sys_slp_client.Net.BsdTypes.{again, bad_f, fault}
use sys_slp_client.Socket.State.{ProxySocket, is_closed}
use sys_slp_client.Socket.Packets.{Datagram, queue, RxIsValid}
use sys_slp_client.Socket.Receive.{
  Received, eof, error, consume_front, recv_from, after_wait, peek_flag, dontwait_flag,
}
use sys_slp_client.Socket.Fifo.{Delivers, length-datagrams, consume_front-Delivers}

recv_from_lem :
    (wait : ProxySocket → Bool × ProxySocket) (s : ProxySocket) (len flags : ℕ)
    → recv_from wait s true len flags ≡ (
        if s.shutdown_read
        then (eof, s)
        else if is_closed s.state
        then (error bad_f, s)
        else if not (s.rx.count == 0)
        then consume_front s len (peek_flag flags)
        else if dontwait_flag flags || s.non_blocking
        then (error again, s)
        else after_wait (wait s) len (peek_flag flags))
unfolding recv_from
recv_from_lem wait s len flags = refl

-- `RecvFrom` on a socket that is open for reading, with a buffer: it returns the oldest queued datagram
-- with its sender, cut to the buffer's length, whatever the flags about waiting; the rest of a cut datagram is
-- lost. The datagram stays queued if the caller peeks.
pub recv_from-Delivers :
    (wait : ProxySocket → Bool × ProxySocket) (s : ProxySocket) (len flags : ℕ) (d : Datagram)
    (rest : List Datagram)
    → RxIsValid s.rx
    → s.shutdown_read ≡ false
    → is_closed s.state ≡ false
    → queue s ≡ d ∷ rest
    → Delivers len (peek_flag flags) d rest (recv_from wait s true len flags)
recv_from-Delivers wait s len flags d rest v open_ alive e =
    simp (recv_from_lem wait s len flags, open_, alive, waiting)
      (consume_front-Delivers s len (peek_flag flags) d rest v e)
  where
    waiting : (s.rx.count == 0) ≡ false
    waiting = ground (arith, length-datagrams s.rx, ap length e)

after_wait_lem :
    (w : Bool × ProxySocket) (len : ℕ) (peek : Bool)
    → after_wait w len peek
      ≡ (if w.0 && ltb 0 w.1.rx.count then consume_front w.1 len peek else (error again, w.1))
unfolding after_wait
after_wait_lem (signalled, s) len peek = refl

after_wait-Delivers :
    (w : Bool × ProxySocket) (len : ℕ) (peek : Bool) (d : Datagram) (rest : List Datagram)
    → w.0 ≡ true
    → RxIsValid w.1.rx
    → queue w.1 ≡ d ∷ rest
    → Delivers len peek d rest (after_wait w len peek)
after_wait-Delivers w len peek d rest woken v e =
    rw (after_wait_lem w len peek, woken, waiting) (consume_front-Delivers w.1 len peek d rest v e)
  where
    waiting : ltb 0 w.1.rx.count ≡ true
    waiting = ground (arith, length-datagrams w.1.rx, ap length e)

no_packets : (s : ProxySocket) → queue s ≡ [] → (s.rx.count == 0) ≡ true
no_packets s e = ground (arith, length-datagrams s.rx, ap length e)

-- A datagram that arrives while `RecvFrom` waits on an empty queue is returned like one that was queued before, if the
-- wait was signalled in time.
pub recv_from_woken :
    (wait : ProxySocket → Bool × ProxySocket) (s : ProxySocket) (len flags : ℕ) (d : Datagram)
    (rest : List Datagram)
    → s.shutdown_read ≡ false
    → is_closed s.state ≡ false
    → queue s ≡ []
    → (dontwait_flag flags || s.non_blocking) ≡ false
    → (wait s).0 ≡ true
    → RxIsValid (wait s).1.rx
    → queue (wait s).1 ≡ d ∷ rest
    → Delivers len (peek_flag flags) d rest (recv_from wait s true len flags)
recv_from_woken wait s len flags d rest open_ alive e waits woken v e' =
    simp (recv_from_lem wait s len flags, open_, alive, no_packets s e, waits)
      (after_wait-Delivers (wait s) len (peek_flag flags) d rest woken v e')

-- A socket that is open for reading, and a buffer for what is asked.
abbrev pub CanRead : ProxySocket → Bool → ℕ → Type 0
CanRead s has_buffer len =
    (s.shutdown_read ≡ false) × (is_closed s.state ≡ false) × ((has_buffer ≡ true) ⊎ (len ≡ 0))

and_false : (a b : Bool) → b ≡ false → (a && b) ≡ false
and_false true b h = h
and_false false b h = refl

-- How `RecvFrom` ends, and the socket that it leaves.
pub data Reads (wait : ProxySocket → Bool × ProxySocket) (s : ProxySocket) (has_buffer : Bool)
    (len flags : ℕ) : Received × ProxySocket → Type 0 where
  at_end : s.shutdown_read ≡ true → Reads wait s has_buffer len flags (eof, s)
  after_close :
      s.shutdown_read ≡ false
      → is_closed s.state ≡ true
      → Reads wait s has_buffer len flags (error bad_f, s)
  no_buffer :
      s.shutdown_read ≡ false
      → is_closed s.state ≡ false
      → has_buffer ≡ false
      → 0 < len
      → Reads wait s has_buffer len flags (error fault, s)
  at_once :
      (r : Received × ProxySocket) (d : Datagram) (rest : List Datagram)
      → CanRead s has_buffer len
      → queue s ≡ d ∷ rest
      → Delivers len (peek_flag flags) d rest r
      → Reads wait s has_buffer len flags r
  not_waiting :
      CanRead s has_buffer len
      → queue s ≡ []
      → (dontwait_flag flags || s.non_blocking) ≡ true
      → Reads wait s has_buffer len flags (error again, s)
  woken :
      (r : Received × ProxySocket) (d : Datagram) (rest : List Datagram)
      → CanRead s has_buffer len
      → queue s ≡ []
      → (dontwait_flag flags || s.non_blocking) ≡ false
      → (wait s).0 ≡ true
      → queue (wait s).1 ≡ d ∷ rest
      → Delivers len (peek_flag flags) d rest r
      → Reads wait s has_buffer len flags r
  in_vain :
      CanRead s has_buffer len
      → queue s ≡ []
      → (dontwait_flag flags || s.non_blocking) ≡ false
      → ((wait s).0 ≡ false) ⊎ (queue (wait s).1 ≡ [])
      → Reads wait s has_buffer len flags (error again, (wait s).1)

queue-cases :
    (q : List Datagram) → (q ≡ []) ⊎ ((d : Datagram) × (rest : List Datagram) × (q ≡ d ∷ rest))
queue-cases [] = inl refl
queue-cases (d ∷ rest) = inr (d, rest, refl)

module _ (wait : ProxySocket → Bool × ProxySocket) (s : ProxySocket) (has_buffer : Bool)
    (len flags : ℕ) where
  abbrev P : Received × ProxySocket → Type 0
  P = Reads wait s has_buffer len flags

  waited :
      CanRead s has_buffer len
      → queue s ≡ []
      → (dontwait_flag flags || s.non_blocking) ≡ false
      → RxIsValid (wait s).1.rx
      → P (after_wait (wait s) len (peek_flag flags))
  waited can e waits v = elim (queue-cases (queue (wait s).1)) [
    | inl e' ↦
        rw (after_wait_lem (wait s) len (peek_flag flags), and_false (wait s).0 _ (no_later e'))
          (in_vain can e waits (inr e'))
    | inr (d, rest, e') ↦ elim (Bool-cases (wait s).0) [
      | inl signalled ↦
          woken (after_wait (wait s) len (peek_flag flags)) d rest can e waits signalled e'
            (after_wait-Delivers (wait s) len (peek_flag flags) d rest signalled v e')
      | inr late ↦
          rw (after_wait_lem (wait s) len (peek_flag flags), late) (in_vain can e waits (inl late))
    ]
  ]
    where
      no_later : queue (wait s).1 ≡ [] → ltb 0 (wait s).1.rx.count ≡ false
      no_later e' = ground (arith, length-datagrams (wait s).1.rx, ap length e')

  unwaited :
      CanRead s has_buffer len
      → queue s ≡ []
      → RxIsValid (wait s).1.rx
      → P (
          if dontwait_flag flags || s.non_blocking
          then (error again, s)
          else after_wait (wait s) len (peek_flag flags))
  unwaited can e v = if_cases P _ _ _ (λ h. not_waiting can e h) (λ waits. waited can e waits v)

  with_buffer :
      CanRead s has_buffer len
      → RxIsValid s.rx
      → RxIsValid (wait s).1.rx
      → P (
          if not (s.rx.count == 0)
          then consume_front s len (peek_flag flags)
          else if dontwait_flag flags || s.non_blocking
          then (error again, s)
          else after_wait (wait s) len (peek_flag flags))
  with_buffer can v v' = elim (queue-cases (queue s)) [
    | inl e ↦ if_no P _ _ _ (ap not (no_packets s e)) (unwaited can e v')
    | inr (d, rest, e) ↦ if_yes P _ _ _ (ap not (waiting d rest e)) (
        at_once (consume_front s len (peek_flag flags)) d rest can e
          (consume_front-Delivers s len (peek_flag flags) d rest v e))
  ]
    where
      waiting :
          (d : Datagram) (rest : List Datagram) → queue s ≡ d ∷ rest → (s.rx.count == 0) ≡ false
      waiting d rest e = ground (arith, length-datagrams s.rx, ap length e)

  -- `RecvFrom`, whatever its wait is told and whatever other threads do meanwhile. A socket that is shut down for reading gives the
  -- end of file, a closed one EBADF and a missing buffer of some length EFAULT, each with the socket as it was. Else the
  -- oldest queued datagram is delivered. If none is queued, a call that may not wait gives EAGAIN and leaves the socket as it was;
  -- one that waits delivers the oldest datagram queued after the wait if it was signalled, and else gives EAGAIN with the socket as
  -- the wait left it.
  pub recv_from-Reads :
      RxIsValid s.rx
      → RxIsValid (wait s).1.rx
      → Reads wait s has_buffer len flags (recv_from wait s has_buffer len flags)
  unfolding recv_from
  recv_from-Reads v v' = if_cases P _ _ _ at_end (λ open_.
      if_cases P _ _ _ (after_close open_) (λ alive.
        if_cases P _ _ _
          (λ lacking. no_buffer open_ alive (ground (arith, lacking)) (ground (arith, lacking)))
          (λ given. with_buffer (open_, alive, enough has_buffer given) v v')))
    where
      enough : (b : Bool) → (not b && ltb 0 len) ≡ false → (b ≡ true) ⊎ (len ≡ 0)
      enough true h = inl refl
      enough false h = inr (ground (arith, h))
