-- ===== src/Ports/Counting.antt =====
-- How `bitset.count()` changes when one bit is written.
use sys_slp_client.Base.{
  ℕ, zero, suc, ◌+◌, ◌<◌, ◌≤◌, ◌≡◌, ◌≢◌, inl, inr, refl, ap, fun_ext, Bool, true, false, Bool-cases,
  arith, ◌==◌,
}
use sys_slp_client.Ports.{Bitset, set_bit, count_bits, no_ports}

-- A bit outside the counted range does not matter.
count_bits-set_bit_above :
    (n i : ℕ) (b : Bitset) (v : Bool) → n ≤ i → count_bits n (set_bit b i v) ≡ count_bits n b
unfolding count_bits
count_bits-set_bit_above zero i b v h = refl
count_bits-set_bit_above (suc n) i b v h =
    ground (arith, count_bits-set_bit_above n i b v (omega arith))

-- A free bit that is set counts once more.
pub count_bits-set :
    (n i : ℕ) (b : Bitset)
    → i < n
    → b i ≡ false
    → count_bits n (set_bit b i true) ≡ count_bits n b + 1
unfolding count_bits
count_bits-set zero i b h e = absurd (omega arith)
count_bits-set (suc n) i b h e = elim (Bool-cases (n == i)) [
  | inl last ↦
      (let same : n ≡ i = ground arith in
        ground (arith, count_bits-set_bit_above n i b true (omega arith), ap b same))
  | inr other ↦ ground (arith, count_bits-set n i b (ground arith) e)
]

-- A set bit that is cleared counts once less.
pub count_bits-clear :
    (n i : ℕ) (b : Bitset)
    → i < n
    → b i ≡ true
    → count_bits n (set_bit b i false) + 1 ≡ count_bits n b
unfolding count_bits
count_bits-clear zero i b h e = absurd (omega arith)
count_bits-clear (suc n) i b h e = elim (Bool-cases (n == i)) [
  | inl last ↦
      (let same : n ≡ i = ground arith in
        ground (arith, count_bits-set_bit_above n i b false (omega arith), ap b same))
  | inr other ↦ ground (arith, count_bits-clear n i b (ground arith) e)
]

pub count_bits-le : (n : ℕ) (b : Bitset) → count_bits n b ≤ n
unfolding count_bits
count_bits-le zero b = omega arith
count_bits-le (suc n) b = ground (arith, count_bits-le n b)

-- A free bit leaves the count below the size.
pub count_bits-lt : (n i : ℕ) (b : Bitset) → i < n → b i ≡ false → count_bits n b < n
count_bits-lt n i b h e =
    omega (arith, count_bits-set n i b h e, count_bits-le n (set_bit b i true))

-- With every bit set the count is the size.
pub count_bits_all : (n : ℕ) (b : Bitset) → ((i : ℕ) → i < n → b i ≡ true) → count_bits n b ≡ n
unfolding count_bits
count_bits_all zero b all = refl
count_bits_all (suc n) b all =
    ground (arith, all n (omega arith), count_bits_all n b (λ i h. all i (omega arith)))

-- Two free bits leave the count at least two below the size.
pub count_bits_two_free :
    (n i j : ℕ) (b : Bitset)
    → i < n
    → j < n
    → i ≢ j
    → b i ≡ false
    → b j ≡ false
    → count_bits n b + 2 ≤ n
count_bits_two_free n i j b hi hj ne ei ej =
    omega
      (arith, count_bits-set n i b hi ei, count_bits-lt n j (set_bit b i true) hj (ground arith))

-- Writing what a bit holds already changes nothing.
pub set_bit-same : (i : ℕ) (b : Bitset) (v : Bool) → b i ≡ v → set_bit b i v ≡ b
set_bit-same i b v e = fun_ext (λ j. same j)
  where
    same : (j : ℕ) → set_bit b i v j ≡ b j
    same j = elim (Bool-cases (j == i)) [
      | inl here ↦ (let at : j ≡ i = ground arith in ground (arith, ap b at))
      | inr other ↦ rw other
    ]

pub count_bits-same :
    (n i : ℕ) (b : Bitset) (v : Bool) → b i ≡ v → count_bits n (set_bit b i v) ≡ count_bits n b
count_bits-same n i b v e = ap (count_bits n) (set_bit-same i b v e)

pub set_bit-set_bit : (i : ℕ) (b : Bitset) → b i ≡ false → set_bit (set_bit b i true) i false ≡ b
set_bit-set_bit i b e = fun_ext (λ j. same j)
  where
    same : (j : ℕ) → set_bit (set_bit b i true) i false j ≡ b j
    same j = elim (Bool-cases (j == i)) [
      | inl here ↦ (let at : j ≡ i = ground arith in ground (arith, ap b at))
      | inr other ↦ rw other
    ]

pub count_bits-no_ports : (n : ℕ) → count_bits n no_ports ≡ 0
unfolding count_bits
count_bits-no_ports zero = refl
count_bits-no_ports (suc n) = omega (arith, count_bits-no_ports n)
