-- ===== src/Ldn/Admission.antt =====
-- Who counts as a recent scanner.
use sys_slp_client.Base.{
  ℕ, zero, suc, ◌+◌, ◌-◌, ◌≤◌, ◌<◌, ◌≡◌, refl, subst, ap, ◌∙◌, Bool, true, false, leb, Option, none,
  some, List, [], ◌∷◌, length, get_or, arith, Bool-cases, inl, inr, eq→==, le→leb, if_same,
}
use sys_slp_client.Ring.{modify}
use sys_slp_client.Ldn.Scanners.{
  ScannerEntry, is_of, is_free, is_recent, scan_slots, record_at, record_scanner,
  was_recent_scanner, scanner_timeout_ticks,
}

abbrev pub unused : ScannerEntry
unused = record { ip = 0; last_tick = 0; used = false }

-- What the loop of RecordScanner finds: an entry of the address, or a place to write one.
data Found (src_ip k : ℕ) (es : List ScannerEntry) (free_slot : Option ℕ)
    : Bool × Option ℕ → Type 0 where
  own :
      (j : ℕ)
      → j < length es
      → is_of src_ip (get_or es j unused) ≡ true
      → Found src_ip k es free_slot (true, some (k + j))
  spare : (j : ℕ) → j < length es → Found src_ip k es free_slot (false, some (k + j))
  given : (i : ℕ) → free_slot ≡ some i → Found src_ip k es free_slot (false, some i)
  full : Found src_ip k es free_slot (false, none)

later_Found :
    (src_ip k : ℕ) (e : ScannerEntry) (es : List ScannerEntry) (free_slot : Option ℕ)
    (out : Bool × Option ℕ)
    → Found src_ip (k + 1) es free_slot out
    → Found src_ip k (e ∷ es) free_slot out
later_Found src_ip k e es free_slot _ (own j h t) =
    subst (λ i. Found src_ip k (e ∷ es) free_slot (true, some i)) {x = k + suc j} (omega arith)
      (own (suc j) (omega arith) t)
later_Found src_ip k e es free_slot _ (spare j h) =
    subst (λ i. Found src_ip k (e ∷ es) free_slot (false, some i)) {x = k + suc j} (omega arith)
      (spare (suc j) (omega arith))
later_Found src_ip k e es free_slot _ (given i h) = given i h
later_Found src_ip k e es free_slot _ full = full

here_Found :
    (src_ip k : ℕ) (e : ScannerEntry) (es : List ScannerEntry) (out : Bool × Option ℕ)
    → Found src_ip (k + 1) es (some k) out
    → Found src_ip k (e ∷ es) none out
here_Found src_ip k e es _ (own j h t) =
    subst (λ i. Found src_ip k (e ∷ es) none (true, some i)) {x = k + suc j} (omega arith)
      (own (suc j) (omega arith) t)
here_Found src_ip k e es _ (spare j h) =
    subst (λ i. Found src_ip k (e ∷ es) none (false, some i)) {x = k + suc j} (omega arith)
      (spare (suc j) (omega arith))
here_Found src_ip k e es _ (given i h) =
    subst (λ i. Found src_ip k (e ∷ es) none (false, some i)) {x = k + 0} (omega arith ∙ same h)
      (spare 0 (omega arith))
  where
    same : some k ≡ some i → k ≡ i
    same x = cc x
here_Found src_ip k e es _ full = full

own_first :
    (src_ip k : ℕ) (e : ScannerEntry) (es : List ScannerEntry) (free_slot : Option ℕ)
    → is_of src_ip e ≡ true
    → Found src_ip k (e ∷ es) free_slot (true, some k)
own_first src_ip k e es free_slot h =
    subst (λ i. Found src_ip k (e ∷ es) free_slot (true, some i)) {x = k + 0} (omega arith)
      (own 0 (omega arith) h)

scan_slots-Found :
    (now src_ip k : ℕ) (free_slot : Option ℕ) (es : List ScannerEntry)
    → Found src_ip k es free_slot (scan_slots now src_ip k free_slot es)
unfolding scan_slots
scan_slots-Found now src_ip k none [] = full
scan_slots-Found now src_ip k (some i) [] = given i refl
scan_slots-Found now src_ip k (some i) (e ∷ es) = elim (Bool-cases (is_of src_ip e)) [
  | inl mine ↦ rw mine (own_first src_ip k e es (some i) mine)
  | inr other ↦ rw other (
      later_Found src_ip k e es (some i) (scan_slots now src_ip (k + 1) (some i) es)
        (scan_slots-Found now src_ip (k + 1) (some i) es))
]
scan_slots-Found now src_ip k none (e ∷ es) = elim (Bool-cases (is_of src_ip e)) [
  | inl mine ↦ rw mine (own_first src_ip k e es none mine)
  | inr other ↦ elim (Bool-cases (is_free now e)) [
    | inl room ↦
        rw (other, room)
          (here_Found src_ip k e es (scan_slots now src_ip (k + 1) (some k) es)
            (scan_slots-Found now src_ip (k + 1) (some k) es))
    | inr busy ↦
        rw (other, busy)
          (later_Found src_ip k e es none (scan_slots now src_ip (k + 1) none es)
            (scan_slots-Found now src_ip (k + 1) none es))
  ]
]

was_recent_scanner-modify :
    (now src_ip i : ℕ) (f : ScannerEntry → ScannerEntry) (es : List ScannerEntry)
    → i < length es
    → is_recent now src_ip (f (get_or es i unused)) ≡ true
    → was_recent_scanner now src_ip (modify es i f) ≡ true
unfolding was_recent_scanner
was_recent_scanner-modify now src_ip i f [] h t = absurd (omega arith)
was_recent_scanner-modify now src_ip zero f (e ∷ es) h t = rw t refl
was_recent_scanner-modify now src_ip (suc i) f (e ∷ es) h t =
    rw (was_recent_scanner-modify now src_ip i f es (omega arith) t)
      (if_same (is_recent now src_ip e) true)

module _ (now now' src_ip : ℕ) (soon : now' ≤ now + scanner_timeout_ticks) where
  in_time : leb (now' - now) scanner_timeout_ticks ≡ true
  in_time = le→leb (now' - now) scanner_timeout_ticks (omega arith)

  new_is_recent :
      is_recent now' src_ip (record { ip = src_ip; last_tick = now; used = true }) ≡ true
  unfolding is_recent is_of
  new_is_recent = rw (eq→== src_ip src_ip refl, in_time) refl

  renewed_is_recent :
      (e : ScannerEntry)
      → is_of src_ip e ≡ true
      → is_recent now' src_ip (record e { last_tick = now }) ≡ true
  unfolding is_recent is_of
  renewed_is_recent e h = rw (h, in_time) refl

  recorded :
      (es : List ScannerEntry) (out : Bool × Option ℕ)
      → 0 < length es
      → Found src_ip 0 es none out
      → was_recent_scanner now' src_ip (record_at now src_ip out es) ≡ true
  unfolding record_at
  recorded es _ h (own j k t) =
      was_recent_scanner-modify now' src_ip (0 + j) (λ e. record e { last_tick = now }) es
        (omega arith)
        (renewed_is_recent (get_or es (0 + j) unused)
          (ap (λ i. is_of src_ip (get_or es i unused)) {y = j} (omega arith) ∙ t))
  recorded es _ h (spare j k) =
      was_recent_scanner-modify now' src_ip (0 + j)
        (λ _. record { ip = src_ip; last_tick = now; used = true }) es (omega arith) new_is_recent
  recorded es _ h (given i k) = absurd (cc k)
  recorded es _ h full =
      was_recent_scanner-modify now' src_ip 0
        (λ _. record { ip = src_ip; last_tick = now; used = true }) es h new_is_recent

  -- An address that scanned counts as a recent scanner for the next 30 seconds, however full the table was.
  pub record_scanner-was_recent_scanner :
      (es : List ScannerEntry)
      → 0 < length es
      → was_recent_scanner now' src_ip (record_scanner now src_ip es) ≡ true
  unfolding record_scanner
  record_scanner-was_recent_scanner es h =
      recorded es (scan_slots now src_ip 0 none es) h (scan_slots-Found now src_ip 0 none es)
