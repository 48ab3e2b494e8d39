-- ===== src/Ldn/Scanners.antt =====
-- ldn_control.cpp: the table of the addresses that scanned lately, RecordScanner and WasRecentScanner.
use sys_slp_client.Base.{
  ℕ, ◌+◌, ◌-◌, Bool, true, false, not, ◌&&◌, ◌||◌, ◌==◌, ltb, leb, if◌then◌else◌, Option, none,
  some, List, [], ◌∷◌,
}
use sys_slp_client.Ring.{modify}

abbrev pub scanner_timeout_ticks : ℕ
scanner_timeout_ticks = 576000000

pub record ScannerEntry : Type 0 where
  pub ip : ℕ
  pub last_tick : ℕ
  pub used : Bool

unfoldable pub is_of : ℕ → ScannerEntry → Bool
is_of src_ip e = e.used && e.ip == src_ip

unfoldable pub is_free : ℕ → ScannerEntry → Bool
is_free now e = not e.used || ltb scanner_timeout_ticks (now - e.last_tick)

-- The loop of RecordScanner from place `i` on: the first entry of the address, or else the first free one, or
-- else `free_slot`. The Boolean tells which.
unfoldable pub scan_slots : ℕ → ℕ → ℕ → Option ℕ → List ScannerEntry → Bool × Option ℕ
unfolding is_of is_free
scan_slots now src_ip i free_slot [] = (false, free_slot)
scan_slots now src_ip i free_slot (e ∷ es) =
    let kept = scan_slots now src_ip (i + 1) free_slot es in
    let here = scan_slots now src_ip (i + 1) (some i) es in
    if is_of src_ip e
    then (true, some i)
    else elim free_slot [ none ↦ if is_free now e then here else kept | some _ ↦ kept ]

-- What is written for the outcome of the loop; a table full of live entries loses its first.
unfoldable pub record_at : ℕ → ℕ → Bool × Option ℕ → List ScannerEntry → List ScannerEntry
record_at now src_ip (true, some i) es = modify es i (λ e. record e { last_tick = now })
record_at now src_ip (false, some i) es =
    modify es i (λ _. record { ip = src_ip; last_tick = now; used = true })
record_at now src_ip (_, none) es =
    modify es 0 (λ _. record { ip = src_ip; last_tick = now; used = true })

unfoldable pub record_scanner : ℕ → ℕ → List ScannerEntry → List ScannerEntry
unfolding scan_slots record_at
record_scanner now src_ip es = record_at now src_ip (scan_slots now src_ip 0 none es) es

unfoldable pub is_recent : ℕ → ℕ → ScannerEntry → Bool
unfolding is_of
is_recent now src_ip e = is_of src_ip e && leb (now - e.last_tick) scanner_timeout_ticks

unfoldable pub was_recent_scanner : ℕ → ℕ → List ScannerEntry → Bool
unfolding is_recent
was_recent_scanner now src_ip [] = false
was_recent_scanner now src_ip (e ∷ es) =
    let later = was_recent_scanner now src_ip es in if is_recent now src_ip e then true else later
