-- ===== src/Ldn/Inflate.antt =====
-- Compress and Decompress together.
use sys_slp_client.Base.{
  ℕ, zero, suc, ◌+◌, ◌-◌, ◌*◌, ◌≤◌, ◌<◌, ◌≡◌, refl, sym, ap, ap₂, ◌∙◌, true, false, ◌==◌, Option,
  none, some, List, [], ◌∷◌, ◌++◌, length, replicate, arith, Bool-cases, inl, inr, ==→eq,
  ne→==_false,
}
use sys_slp_client.Ldn.Rle.{zero_run, emit, compress_from, compress, decompress}

-- A run and what follows it are the input again.
record Runs (limit : ℕ) (xs : List ℕ) (r : ℕ × List ℕ) : Type 0 where
  again : replicate r.0 0 ++ r.1 ≡ xs
  within : r.0 ≤ limit
  size : r.0 + length r.1 ≡ length xs

zeros_more : (n : ℕ) (xs : List ℕ) → replicate (n + 1) 0 ++ xs ≡ 0 ∷ replicate n 0 ++ xs
zeros_more n xs = ap (λ k. replicate k 0 ++ xs) {y = suc n} (omega arith)

zero_run-Runs : (limit : ℕ) (xs : List ℕ) → Runs limit xs (zero_run limit xs)
unfolding zero_run
zero_run-Runs zero xs = record { again = refl; within = omega arith; size = omega arith }
zero_run-Runs (suc limit) [] = record { again = refl; within = omega arith; size = refl }
zero_run-Runs (suc limit) (c ∷ xs) = elim (Bool-cases (c == 0)) [
  | inl nought ↦
      let r = zero_run-Runs limit xs in
      rw nought (record {
        again =
            zeros_more (zero_run limit xs).0 (zero_run limit xs).1
            ∙ ap₂ ◌∷◌ (sym (==→eq c 0 nought)) r.again;
        within = omega (arith, r.within);
        size = omega (arith, r.size);
      })
  | inr other ↦ rw other (record { again = refl; within = omega arith; size = omega arith })
]

-- What the decompressor makes of one written unit.
decompress_zeros :
    (cap d : ℕ) (rest : List ℕ)
    → d < cap
    → decompress cap (0 ∷ d ∷ rest) ≡ emit (0 ∷ replicate d 0) (decompress (cap - 1 - d) rest)
unfolding decompress
decompress_zeros cap d rest h =
    rw (ne→==_false cap 0 (omega arith))
      (ap (λ k. emit (0 ∷ replicate k 0) (decompress (cap - 1 - k) rest)) {y = d} (omega arith))

decompress_literal :
    (cap c : ℕ) (rest : List ℕ)
    → 0 < cap
    → (c == 0) ≡ false
    → decompress cap (c ∷ rest) ≡ emit (c ∷ []) (decompress (cap - 1) rest)
unfolding decompress emit
decompress_literal cap c [] h n = rw (ne→==_false cap 0 (omega arith), n) refl
decompress_literal cap c (d ∷ rest) h n = rw (ne→==_false cap 0 (omega arith), n) refl

-- The compressed form of an input: it is within its room, and decompresses to the input in any buffer that is long enough.
pub record Packs (cap : ℕ) (input packed : List ℕ) : Type 0 where
  pub in_room : length packed ≤ cap
  pub back : (room : ℕ) → length input ≤ room → decompress room packed ≡ some input

-- What Compress answers: a compressed form, or nothing when the room is short.
pub data Compresses (cap : ℕ) (input : List ℕ) : Option (List ℕ) → Type 0 where
  packs : (packed : List ℕ) → Packs cap input packed → Compresses cap input (some packed)
  no_room : cap < 2 * length input → Compresses cap input none

module _ (cap : ℕ) (c : ℕ) (rest : List ℕ) where
  literal-Compresses :
      (o : Option (List ℕ))
      → 0 < cap
      → (c == 0) ≡ false
      → Compresses (cap - 1) rest o
      → Compresses cap (c ∷ rest) (emit (c ∷ []) o)
  unfolding emit
  literal-Compresses none h n (no_room k) = no_room (omega arith)
  literal-Compresses _ h n (packs packed p) = packs (c ∷ packed) (record {
    in_room = omega (arith, p.in_room);
    back = λ room l.
        decompress_literal room c packed (omega arith) n
        ∙ ap (emit (c ∷ [])) (p.back (room - 1) (omega arith));
  })

  run-Compresses :
      (o : Option (List ℕ)) (n : ℕ) (left : List ℕ)
      → 1 < cap
      → (c == 0) ≡ true
      → Runs 255 rest (n, left)
      → Compresses (cap - 2) left o
      → Compresses cap (c ∷ rest) (emit (0 ∷ n ∷ []) o)
  unfolding emit
  run-Compresses none n left h z r (no_room k) = no_room (omega (arith, r.size))
  run-Compresses _ n left h z r (packs packed p) = packs (0 ∷ n ∷ packed) (record {
    in_room = omega (arith, p.in_room);
    back = λ room l.
        decompress_zeros room n packed (omega (arith, r.size))
        ∙ ap (emit (0 ∷ replicate n 0)) (p.back (room - 1 - n) (omega (arith, r.size)))
        ∙ ap some (ap₂ ◌∷◌ (sym (==→eq c 0 z)) r.again);
  })

decompress_empty : (cap : ℕ) → decompress cap [] ≡ some []
unfolding decompress
decompress_empty cap = refl

compress_from-Compresses :
    (fuel cap : ℕ) (input : List ℕ)
    → length input ≤ fuel
    → Compresses cap input (compress_from fuel cap input)
unfolding compress_from
compress_from-Compresses fuel cap [] h =
    packs [] (record { in_room = omega arith; back = λ room l. decompress_empty room })
compress_from-Compresses zero cap (c ∷ rest) h = absurd (omega arith)
compress_from-Compresses (suc fuel) cap (c ∷ rest) h =
    let run = zero_run-Runs 255 rest in
    elim (Bool-cases (cap == 0)) [
      | inl none_left ↦ rw none_left (no_room (ground arith))
      | inr some_left ↦ elim (Bool-cases (c == 0)) [
        | inl nought ↦ elim (Bool-cases (cap == 1)) [
          | inl one_left ↦ rw (some_left, nought, one_left) (no_room (ground arith))
          | inr more_left ↦
              rw (some_left, nought, more_left)
                (run-Compresses cap c rest (compress_from fuel (cap - 2) (zero_run 255 rest).1)
                  (zero_run 255 rest).0 (zero_run 255 rest).1 (ground arith) nought run
                  (compress_from-Compresses fuel (cap - 2) (zero_run 255 rest).1
                    (omega (arith, run.size))))
        ]
        | inr other ↦
            rw (some_left, other)
              (literal-Compresses cap c rest (compress_from fuel (cap - 1) rest) (ground arith)
                other (compress_from-Compresses fuel (cap - 1) rest (omega arith)))
      ]
    ]

-- Compress with `cap` bytes of room: it answers a form of at most `cap` bytes that Decompress turns back into the input, in any buffer that
-- the input fits; it fails only if the room is less than twice the input.
pub compress-Compresses : (cap : ℕ) (input : List ℕ) → Compresses cap input (compress cap input)
unfolding compress
compress-Compresses cap input = compress_from-Compresses (length input) cap input (omega arith)
