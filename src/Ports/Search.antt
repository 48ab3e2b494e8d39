-- ===== src/Ports/Search.antt =====
-- The search loop of `AllocatePort`.
use sys_slp_client.Base.{
  ℕ, zero, suc, ◌+◌, ◌-◌, ◌%◌, ◌<◌, ◌≤◌, ◌≡◌, ◌⊎◌, inl, inr, refl, true, false, none, some,
  Bool-cases, arith, ltb,
}
use sys_slp_client.Ports.{Bitset, ephemeral_port_count, search_free}

-- The index `k` rounds after the hint.
abbrev pub probed : ℕ → ℕ → ℕ
probed hint k = (hint + k) % ephemeral_port_count

-- What a search that starts at round `i` found: the first free index from there, at round `k`.
pub record Found (rounds i hint : ℕ) (b : Bitset) (index : ℕ) : Type 0 where
  pub round : ℕ
  pub from : i ≤ round
  pub before : round < i + rounds
  pub at : index ≡ probed hint round
  pub free : b index ≡ false
  pub first : (k : ℕ) → i ≤ k → k < round → b (probed hint k) ≡ true

search_step :
    (rounds i hint : ℕ) (b : Bitset) (index : ℕ)
    → b (probed hint i) ≡ true
    → Found rounds (i + 1) hint b index
    → Found (suc rounds) i hint b index
search_step rounds i hint b index busy f = record {
  round = f.round;
  from = omega (arith, f.from);
  before = omega (arith, f.before);
  at = f.at;
  free = f.free;
  first = λ k p q. elim (Bool-cases (ltb i k)) [
    | inl later ↦ f.first k (ground arith) q
    | inr here ↦ (let e : k ≡ i = ground arith in rw e busy)
  ];
}

-- The search ends with the first free index of its rounds, or none of them is free.
pub search_free-cases :
    (rounds i hint : ℕ) (b : Bitset)
    → ((index : ℕ) × (search_free rounds i hint b ≡ some index) × Found rounds i hint b index)
      ⊎ ((search_free rounds i hint b ≡ none)
          × ((k : ℕ) → i ≤ k → k < i + rounds → b (probed hint k) ≡ true))
unfolding search_free
search_free-cases zero i hint b = inr (refl, λ k p q. absurd (omega arith))
search_free-cases (suc rounds) i hint b = elim (Bool-cases (b (probed hint i))) [
  | inl busy ↦ rw busy (elim (search_free-cases rounds (i + 1) hint b) [
    | inl (index, e, f) ↦ inl (index, e, search_step rounds i hint b index busy f)
    | inr (e, all) ↦ inr (
      e,
      λ k p q. elim (Bool-cases (ltb i k)) [
        | inl later ↦ all k (ground arith) (omega arith)
        | inr here ↦ (let same : k ≡ i = ground arith in rw same busy)
      ],
    )
  ])
  | inr unset ↦ rw unset (
      inl (
        probed hint i,
        refl,
        record {
          round = i;
          from = omega arith;
          before = omega arith;
          at = refl;
          free = unset;
          first = λ k p q. absurd (omega arith);
        },
      ))
]

-- Going round from a hint in range meets every index.
pub probed_onto :
    (hint index : ℕ)
    → hint < ephemeral_port_count
    → index < ephemeral_port_count
    → probed hint ((index + ephemeral_port_count - hint) % ephemeral_port_count) ≡ index
probed_onto hint index h k = omega arith
