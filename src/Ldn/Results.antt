-- ===== src/Ldn/Results.antt =====
-- The networks that HandleScanResp collects.
use sys_slp_client.Base.{
  ℕ, zero, suc, ◌-◌, ◌≤◌, ◌≡◌, ◌≢◌, refl, sym, ap, ◌∙◌, Bool, true, false, ◌||◌, ◌==◌, inl, inr,
  List, [], ◌∷◌, length, arith, Bool-cases, ==→eq, ==_false→ne, ne→==_false,
}
use sys_slp_client.Ldn.State.{NetworkInfo, LdnControl}
use sys_slp_client.Ldn.Scanning.{collect, max_scan_results}

-- Whether a network is among the results.
abbrev pub lists : ℕ → List NetworkInfo → Bool
lists bssid [] = false
lists bssid (r ∷ rs) = r.bssid == bssid || lists bssid rs

-- No network is listed twice.
abbrev pub Distinct : List NetworkInfo → Type 0
Distinct [] = Unit
Distinct (r ∷ rs) = (lists r.bssid rs ≡ false) × Distinct rs

pub length-collect :
    (info : NetworkInfo) (room : ℕ) (rs : List NetworkInfo)
    → length rs ≤ room
    → length (collect info room rs) ≤ room
unfolding collect
length-collect info zero [] h = omega arith
length-collect info (suc room) [] h = omega arith
length-collect info zero (r ∷ rs) h = absurd (omega (arith, h))
length-collect info (suc room) (r ∷ rs) h = elim (Bool-cases (r.bssid == info.bssid)) [
  | inl same ↦ rw same h
  | inr other ↦ rw other (omega (arith, length-collect info (suc room - 1) rs (omega (arith, h))))
]

or_false : (a b : Bool) → a ≡ false → b ≡ false → a || b ≡ false
or_false false b p q = q
or_false true b p q = absurd (cc p)

left_false : (a b : Bool) → a || b ≡ false → a ≡ false
left_false false b h = refl
left_false true b h = absurd (cc h)

right_false : (a b : Bool) → a || b ≡ false → b ≡ false
right_false false b h = h
right_false true b h = absurd (cc h)

lists-collect :
    (bssid : ℕ) (info : NetworkInfo) (room : ℕ) (rs : List NetworkInfo)
    → info.bssid ≢ bssid
    → lists bssid rs ≡ false
    → lists bssid (collect info room rs) ≡ false
unfolding collect
lists-collect bssid info zero [] ne h = refl
lists-collect bssid info (suc room) [] ne h =
    or_false (info.bssid == bssid) false (ne→==_false info.bssid bssid ne) refl
lists-collect bssid info room (r ∷ rs) ne h = elim (Bool-cases (r.bssid == info.bssid)) [
  | inl same ↦ rw same (
      or_false (info.bssid == bssid) (lists bssid rs) (ne→==_false info.bssid bssid ne)
        (right_false (r.bssid == bssid) (lists bssid rs) h))
  | inr other ↦ rw other (
      or_false (r.bssid == bssid) (lists bssid (collect info (room - 1) rs))
        (left_false (r.bssid == bssid) (lists bssid rs) h)
        (lists-collect bssid info (room - 1) rs ne
          (right_false (r.bssid == bssid) (lists bssid rs) h)))
]

pub collect-Distinct :
    (info : NetworkInfo) (room : ℕ) (rs : List NetworkInfo)
    → Distinct rs
    → Distinct (collect info room rs)
unfolding collect
collect-Distinct info zero [] d = tt
collect-Distinct info (suc room) [] d = (refl, tt)
collect-Distinct info room (r ∷ rs) d = elim (Bool-cases (r.bssid == info.bssid)) [
  | inl same ↦ rw same (ap (λ b. lists b rs) (sym (==→eq r.bssid info.bssid same)) ∙ d.0, d.1)
  | inr other ↦ rw other (
    lists-collect r.bssid info (room - 1) rs (λ e. ==_false→ne r.bssid info.bssid other (sym e))
        d.0,
    collect-Distinct info (room - 1) rs d.1,
  )
]

-- At most 8 results, no network twice.
abbrev pub HasResults : LdnControl → Type 0
HasResults c = (length c.scan_results ≤ max_scan_results) × Distinct c.scan_results
