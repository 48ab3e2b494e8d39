-- ===== src/Tunnel/Guards.antt =====
-- What OnFrag checks of a fragment before it touches the table.
use sys_slp_client.Base.{
  ℕ, ◌+◌, ◌≤◌, ◌<◌, ◌≡◌, ◌⊎◌, inl, inr, refl, Bool, false, ◌||◌, none, some, List, length,
  length-take, take, drop, ltb, leb, ◌==◌, if◌then◌else◌, arith, Bool-cases,
}
use sys_slp_client.Tunnel.Codec.{byte, rd16be, rd32be, slp_mtu}
use sys_slp_client.Tunnel.Reassembly.{Fragment, max_total_parts, parse_frag}

-- A part fits: its number is one of at most 4, and it is no longer than the stride of at most 1400.
pub record Fits (f : Fragment) : Type 0 where
  pub in_total : f.part < f.total
  pub few : f.total ≤ max_total_parts
  pub stride : f.pmtu ≤ slp_mtu
  pub short : length f.chunk ≤ f.pmtu

-- The fields of a fragment, unchecked.
abbrev pub fields : List ℕ → Fragment
fields payload = record {
  src = rd32be payload 0;
  id = rd16be payload 8;
  part = byte payload 10;
  total = byte payload 11;
  pmtu = rd16be payload 14;
  chunk = take (rd16be payload 12) (drop 16 payload);
}

abbrev pub bad_total : List ℕ → Bool
bad_total payload =
    byte payload 11 == 0
    || leb (byte payload 11) (byte payload 10)
    || ltb max_total_parts (byte payload 11)

abbrev pub bad_stride : List ℕ → Bool
bad_stride payload = rd16be payload 14 == 0 || ltb slp_mtu (rd16be payload 14)

abbrev pub bad_length : List ℕ → Bool
bad_length payload =
    ltb (rd16be payload 14) (rd16be payload 12) || ltb (length payload) (16 + rd16be payload 12)

pub parse_frag_lem :
    (payload : List ℕ)
    → parse_frag payload ≡ (
        if ltb (length payload) 16
        then none
        else if bad_total payload
        then none
        else if bad_stride payload
        then none
        else if bad_length payload
        then none
        else some (fields payload))
unfolding parse_frag
parse_frag_lem payload = refl

fields-Fits :
    (payload : List ℕ)
    → bad_total payload ≡ false
    → bad_stride payload ≡ false
    → bad_length payload ≡ false
    → Fits (fields payload)
fields-Fits payload a b c = record {
  in_total = ground (arith, a);
  few = ground (arith, a);
  stride = ground (arith, b);
  short = ground (arith, c, length-take (rd16be payload 12) (drop 16 payload));
}

-- What the guards of OnFrag let through fits.
pub parse_frag-Fits :
    (payload : List ℕ)
    → (parse_frag payload ≡ none) ⊎ ((f : Fragment) × (parse_frag payload ≡ some f) × Fits f)
parse_frag-Fits payload = rw (parse_frag_lem payload) (elim (Bool-cases (ltb (length payload) 16)) [
  | inl short ↦ inl (rw short refl)
  | inr long ↦ elim (Bool-cases (bad_total payload)) [
    | inl a ↦ inl (rw (long, a) refl)
    | inr a ↦ elim (Bool-cases (bad_stride payload)) [
      | inl b ↦ inl (rw (long, a, b) refl)
      | inr b ↦ elim (Bool-cases (bad_length payload)) [
        | inl c ↦ inl (rw (long, a, b, c) refl)
        | inr c ↦ inr (fields payload, rw (long, a, b, c) refl, fields-Fits payload a b c)
      ]
    ]
  ]
])
