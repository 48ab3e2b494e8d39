-- ===== src/Tunnel/Checksum.antt =====
-- The header checksum, as arithmetic.
use sys_slp_client.Base.{ℕ, ◌+◌, ◌-◌, ◌/◌, ◌%◌, ◌<◌, ◌≡◌, ap, ◌∙◌, ◌==◌, if◌then◌else◌, arith}
use sys_slp_client.Tunnel.Packet.{sum_words, fold_carry, ip_checksum, ip_header}

-- Three rounds fold every 32-bit sum, to the residue by 65535 that is not 0 unless the sum is.
pub fold_carry_lem :
    (x : ℕ) → x < 4294967296 → fold_carry 3 x ≡ (if x == 0 then 0 else (x - 1) % 65535 + 1)
unfolding fold_carry
fold_carry_lem x h = ground arith

-- The words of a header besides its checksum.
abbrev pub other_words : ℕ → ℕ → ℕ → ℕ → ℕ
other_words ip_total ip_id src dst =
    50449 + ip_total + ip_id + src / 65536 + src % 65536 + dst / 65536 + dst % 65536

sum_words-ip_header :
    (ip_total ip_id sum src dst : ℕ)
    → ip_total < 65536
    → ip_id < 65536
    → sum < 65536
    → src < 4294967296
    → dst < 4294967296
    → sum_words 0 (ip_header ip_total ip_id sum src dst) ≡ other_words ip_total ip_id src dst + sum
unfolding sum_words ip_header
sum_words-ip_header ip_total ip_id sum src dst a b c d e = omega arith

ip_checksum-ip_header :
    (ip_total ip_id sum src dst : ℕ)
    → ip_total < 65536
    → ip_id < 65536
    → sum < 65536
    → src < 4294967296
    → dst < 4294967296
    → ip_checksum (ip_header ip_total ip_id sum src dst)
      ≡ 65535 - ((other_words ip_total ip_id src dst + sum - 1) % 65535 + 1)
unfolding ip_checksum
ip_checksum-ip_header ip_total ip_id sum src dst a b c d e =
    let s = other_words ip_total ip_id src dst + sum in
    ap (λ x. 65535 - fold_carry 3 x) (sum_words-ip_header ip_total ip_id sum src dst a b c d e)
    ∙ ap (λ x. 65535 - x) (fold_carry_lem s (omega arith) ∙ ground arith)

-- A header with the checksum that was computed over it with a zero in its place verifies: the receiver's checksum over it is 0.
pub ip_checksum_verifies :
    (ip_total ip_id src dst : ℕ)
    → ip_total < 65536
    → ip_id < 65536
    → src < 4294967296
    → dst < 4294967296
    → let sum = ip_checksum (ip_header ip_total ip_id 0 src dst) in
      ip_checksum (ip_header ip_total ip_id sum src dst) ≡ 0
ip_checksum_verifies ip_total ip_id src dst a b d e =
    let known = ip_checksum-ip_header ip_total ip_id 0 src dst a b (omega arith) d e in
    let sum = ip_checksum (ip_header ip_total ip_id 0 src dst) in
    ip_checksum-ip_header ip_total ip_id sum src dst a b (omega (arith, known)) d e
    ∙ omega (arith, known)
