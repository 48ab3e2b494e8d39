-- ===== src/Manager/Compaction.antt =====
-- The loop of DeliverPendingPackets, on the queue that the ring holds.
use sys_slp_client.Base.{
  ℕ, zero, suc, ◌+◌, ◌-◌, ◌%◌, ◌≤◌, ◌<◌, ◌≡◌, refl, sym, subst, ap, ap₂, ◌∙◌, Bool, true, false,
  not, ◌==◌, if◌then◌else◌, List, [], ◌∷◌, ◌++◌, length, get_or, keep, append_assoc, append-nil,
  arith, Bool-cases, inl, inr, ==→eq,
}
use sys_slp_client.Net.BsdTypes.{ProtocolType}
use sys_slp_client.Net.LanAddrMap.{NetMap}
use sys_slp_client.Ring.{modify}
use sys_slp_client.Ring.Window.{
  window, window_snoc, window-modify, length-modify, get_or-modify_self,
}
use sys_slp_client.Socket.State.{ProxySocket}
use sys_slp_client.Manager.State.{PendingPacket, empty_pending, max_pending_packets}
use sys_slp_client.Manager.Pending.{Scan, scan_pending, is_for, give, keep_packet, give_packet}
use native.Mathlib.Nat.{mod-add-mod}

abbrev pub span : List PendingPacket → ℕ → ℕ → List PendingPacket
span slots i n = window max_pending_packets empty_pending slots i n

-- Where the loop stands: `i` packets were read and `k` kept, counted from `head`.
pub record At (head i k : ℕ) (c : Scan) : Type 0 where
  pub storage : length c.slots ≡ max_pending_packets
  pub read_at : c.read_idx ≡ (head + i) % max_pending_packets
  pub write_at : c.write_idx ≡ (head + k) % max_pending_packets
  pub behind : k ≤ i
  pub kept_at : c.kept ≡ k

-- The slots after keeping the packet at the read index.
abbrev moved : Scan → PendingPacket → List PendingPacket
moved c pkt =
    if not (c.write_idx == c.read_idx) then modify c.slots c.write_idx (λ _. pkt) else c.slots

module _ (head i k : ℕ) (c : Scan) (a : At head i k c) where
  abbrev pkt : PendingPacket
  pkt = get_or c.slots c.read_idx empty_pending

  next_index :
      (j m : ℕ)
      → j ≡ (head + m) % max_pending_packets
      → (j + 1) % max_pending_packets ≡ (head + suc m) % max_pending_packets
  next_index j m e =
      ap (λ x. (x + 1) % max_pending_packets) e
      ∙ mod-add-mod (head + m) max_pending_packets 1
      ∙ ap (λ x. x % max_pending_packets) (omega arith)

  moved-length : length (moved c pkt) ≡ max_pending_packets
  moved-length = elim (Bool-cases (c.write_idx == c.read_idx)) [
    | inl same ↦ rw same a.storage
    | inr apart ↦ rw apart (length-modify c.slots c.write_idx (λ _. pkt) ∙ a.storage)
  ]

  -- The kept packet stands at the write index.
  moved_shown : get_or (moved c pkt) ((head + k) % max_pending_packets) empty_pending ≡ pkt
  moved_shown = elim (Bool-cases (c.write_idx == c.read_idx)) [
    | inl same ↦ rw same (
        ap (λ j. get_or c.slots j empty_pending)
          (sym a.write_at ∙ ==→eq c.write_idx c.read_idx same))
    | inr apart ↦ rw apart (
        ap (λ j. get_or (modify c.slots c.write_idx (λ _. pkt)) j empty_pending) (sym a.write_at)
        ∙ get_or-modify_self c.slots c.write_idx (λ _. pkt) empty_pending
            (omega (arith, a.storage, a.write_at)))
  ]

  -- A span that starts at `head + j` and that the write index is not in.
  moved_apart :
      (j n off : ℕ)
      → n ≤ off
      → off < max_pending_packets
      → (head + j + off) % max_pending_packets ≡ (head + k) % max_pending_packets
      → span (moved c pkt) (head + j) n ≡ span c.slots (head + j) n
  moved_apart j n off h l e = elim (Bool-cases (c.write_idx == c.read_idx)) [
    | inl same ↦ rw same
    | inr apart ↦ rw apart (
        ap (λ w. span (modify c.slots w (λ _. pkt)) (head + j) n) (a.write_at ∙ sym e)
        ∙ window-modify max_pending_packets empty_pending c.slots (head + j) n off (λ _. pkt) h l)
  ]

  keep_packet-At : i < max_pending_packets → At head (suc i) (suc k) (keep_packet c pkt)
  unfolding keep_packet
  keep_packet-At h = record {
    storage = moved-length;
    read_at = next_index c.read_idx i a.read_at;
    write_at = next_index c.write_idx k a.write_at;
    behind = omega (arith, a.behind);
    kept_at = omega (arith, a.kept_at);
  }

  give_packet-At : (g : NetMap) → At head (suc i) k (give_packet g c pkt)
  unfolding give_packet
  give_packet-At g = record {
    storage = a.storage;
    read_at = next_index c.read_idx i a.read_at;
    write_at = a.write_at;
    behind = omega (arith, a.behind);
    kept_at = a.kept_at;
  }

  -- Keeping a packet makes it the last of the kept ones,
  keep_packet_front :
      i < max_pending_packets
      → span (keep_packet c pkt).slots head (suc k) ≡ span c.slots head k ++ pkt ∷ []
  unfolding keep_packet
  keep_packet_front h =
      window_snoc max_pending_packets empty_pending (moved c pkt) head k
      ∙ ap₂ (λ q x. q ++ x ∷ []) front moved_shown
    where
      from_zero : head + 0 ≡ head
      from_zero = omega arith

      front : span (moved c pkt) head k ≡ span c.slots head k
      front =
          ap (λ j. span (moved c pkt) j k) (sym from_zero)
          ∙ moved_apart 0 k k (omega arith) (omega (arith, a.behind)) (omega arith)
          ∙ ap (λ j. span c.slots j k) from_zero

  -- and changes none of those that are still to be read.
  keep_packet_rest :
      (n : ℕ)
      → suc i + n ≤ max_pending_packets
      → span (keep_packet c pkt).slots (head + suc i) n ≡ span c.slots (head + suc i) n
  unfolding keep_packet
  keep_packet_rest n h =
      moved_apart (suc i) n (max_pending_packets + k - suc i) (omega (arith, a.behind))
        (omega (arith, a.behind)) (omega (arith, a.behind))

  -- The next packet to be read.
  span_first : (n : ℕ) → span c.slots (head + i) (suc n) ≡ pkt ∷ span c.slots (head + suc i) n
  span_first n =
      ap₂ (λ j m. get_or c.slots j empty_pending ∷ span c.slots m n) (sym a.read_at) (omega arith)

-- The packets given to a socket one after the other.
abbrev pub give_all : NetMap → ProxySocket → List PendingPacket → ProxySocket
give_all g s [] = s
give_all g s (p ∷ ps) = give_all g (give g s p) ps

abbrev pub not_for : ℕ → ProtocolType → PendingPacket → Bool
not_for port protocol p = not (is_for port protocol p)

-- What the rest of the loop, `n` packets, makes of a state.
pub record Splits (g : NetMap) (port : ℕ) (protocol : ProtocolType) (head i k n : ℕ) (c c' : Scan)
    : Type 0 where
  pub at_end : At head (i + n) c'.kept c'
  pub kept_queue :
      span c'.slots head c'.kept
      ≡ span c.slots head k ++ keep (not_for port protocol) (span c.slots (head + i) n)
  pub given :
      c'.socket ≡ give_all g c.socket (keep (is_for port protocol) (span c.slots (head + i) n))

module _ (g : NetMap) (port : ℕ) (protocol : ProtocolType) where
  scan_lem :
      (n : ℕ) (c : Scan)
      → let p = get_or c.slots c.read_idx empty_pending in
        scan_pending g port protocol (suc n) c
        ≡ scan_pending g port protocol n
            (if is_for port protocol p then give_packet g c p else keep_packet c p)
  unfolding scan_pending
  scan_lem n c = refl

  scan_done : (c : Scan) → scan_pending g port protocol 0 c ≡ c
  unfolding scan_pending
  scan_done c = refl

  module _ (n head i k : ℕ) (c c' : Scan) (a : At head i k c) where
    abbrev next : PendingPacket
    next = pkt head i k c a

    abbrev rest : List PendingPacket
    rest = span c.slots (head + suc i) n

    keep_hit :
        (test : PendingPacket → Bool)
        → test next ≡ true
        → keep test (span c.slots (head + i) (suc n)) ≡ next ∷ keep test rest
    keep_hit test h = ap (keep test) (span_first head i k c a n) ∙ rw h refl

    keep_miss :
        (test : PendingPacket → Bool)
        → test next ≡ false
        → keep test (span c.slots (head + i) (suc n)) ≡ keep test rest
    keep_miss test h = ap (keep test) (span_first head i k c a n) ∙ rw h refl

    later : At head (suc i + n) c'.kept c' → At head (i + suc n) c'.kept c'
    later = subst (λ j. At head j c'.kept c') (omega arith)

    Splits-give :
        is_for port protocol next ≡ true
        → Splits g port protocol head (suc i) k n (give_packet g c next) c'
        → Splits g port protocol head i k (suc n) c c'
    unfolding give_packet
    Splits-give mine r = record {
      at_end = later r.at_end;
      kept_queue =
          r.kept_queue
          ∙ ap (◌++◌ (span c.slots head k)) (sym (keep_miss (not_for port protocol) (ap not mine)));
      given = r.given ∙ ap (give_all g c.socket) (sym (keep_hit (is_for port protocol) mine));
    }

    socket-keep_packet : (keep_packet c next).socket ≡ c.socket
    unfolding keep_packet
    socket-keep_packet = refl

    Splits-keep :
        is_for port protocol next ≡ false
        → suc i + n ≤ max_pending_packets
        → Splits g port protocol head (suc i) (suc k) n (keep_packet c next) c'
        → Splits g port protocol head i k (suc n) c c'
    Splits-keep other h r = record {
      at_end = later r.at_end;
      kept_queue =
          r.kept_queue
          ∙ ap₂ (λ q w. q ++ keep (not_for port protocol) w)
              (keep_packet_front head i k c a (omega arith)) (keep_packet_rest head i k c a n h)
          ∙ append_assoc (span c.slots head k) (next ∷ []) (keep (not_for port protocol) rest)
          ∙ ap (◌++◌ (span c.slots head k)) (sym (keep_hit (not_for port protocol) (ap not other)));
      given =
          r.given
          ∙ ap₂ (λ s w. give_all g s (keep (is_for port protocol) w)) socket-keep_packet
              (keep_packet_rest head i k c a n h)
          ∙ ap (give_all g c.socket) (sym (keep_miss (is_for port protocol) other));
    }

  pub scan_pending-Splits :
      (n head i k : ℕ) (c : Scan)
      → At head i k c
      → i + n ≤ max_pending_packets
      → Splits g port protocol head i k n c (scan_pending g port protocol n c)
  scan_pending-Splits zero head i k c a h = rw (scan_done c) (record {
    at_end =
        subst (λ j. At head j c.kept c) {x = i} (omega arith)
          (subst (λ j. At head i j c) (sym a.kept_at) a);
    kept_queue = ap (span c.slots head) a.kept_at ∙ sym (append-nil (span c.slots head k));
    given = refl;
  })
  scan_pending-Splits (suc n) head i k c a h =
      elim (Bool-cases (is_for port protocol (pkt head i k c a))) [
        | inl mine ↦
            rw (scan_lem n c, mine)
              (Splits-give n head i k c
                (scan_pending g port protocol n (give_packet g c (pkt head i k c a))) a mine
                (scan_pending-Splits n head (suc i) k (give_packet g c (pkt head i k c a))
                  (give_packet-At head i k c a g) (omega arith)))
        | inr other ↦
            rw (scan_lem n c, other)
              (Splits-keep n head i k c
                (scan_pending g port protocol n (keep_packet c (pkt head i k c a))) a other
                (omega arith)
                (scan_pending-Splits n head (suc i) (suc k) (keep_packet c (pkt head i k c a))
                  (keep_packet-At head i k c a (omega arith)) (omega arith)))
      ]
