-- ===== src/Ldn/Rle.antt =====
-- ldn_control.cpp: Compress and Decompress. `cap` is the room in the output buffer; `none` is the result -1.
use sys_slp_client.Base.{
  ℕ, zero, suc, ◌+◌, ◌-◌, ◌==◌, if◌then◌else◌, Option, none, some, List, [], ◌∷◌, ◌++◌, length,
  replicate, min,
}

-- The zeros at the front, at most `limit`, and what follows them.
unfoldable pub zero_run : ℕ → List ℕ → ℕ × List ℕ
zero_run zero xs = (0, xs)
zero_run (suc limit) [] = (0, [])
zero_run (suc limit) (c ∷ xs) =
    let more = zero_run limit xs in if c == 0 then (more.0 + 1, more.1) else (0, c ∷ xs)

-- Bytes written before the rest, if the rest succeeds.
unfoldable pub emit : List ℕ → Option (List ℕ) → Option (List ℕ)
emit bytes none = none
emit bytes (some rest) = some (bytes ++ rest)

-- The loop of Compress; each round reads at least one byte, so the input's length is enough fuel.
unfoldable pub compress_from : ℕ → ℕ → List ℕ → Option (List ℕ)
unfolding zero_run emit
compress_from fuel cap [] = some []
compress_from zero cap (c ∷ rest) = none
compress_from (suc fuel) cap (c ∷ rest) =
    let run = zero_run 255 rest in
    let zeros = emit (0 ∷ run.0 ∷ []) (compress_from fuel (cap - 2) run.1) in
    let literal = emit (c ∷ []) (compress_from fuel (cap - 1) rest) in
    if cap == 0 then none else if c == 0 then (if cap == 1 then none else zeros) else literal

unfoldable pub compress : ℕ → List ℕ → Option (List ℕ)
unfolding compress_from
compress cap input = compress_from (length input) cap input

-- A zero is followed by the number of further zeros; those that do not fit are dropped.
unfoldable pub decompress : ℕ → List ℕ → Option (List ℕ)
unfolding emit
decompress cap [] = some []
decompress cap (c ∷ []) = if cap == 0 then none else if c == 0 then none else some (c ∷ [])
decompress cap (c ∷ d ∷ rest) =
    let zeros = replicate (min d (cap - 1)) 0 in
    let run = emit (0 ∷ zeros) (decompress (cap - 1 - min d (cap - 1)) rest) in
    let literal = emit (c ∷ []) (decompress (cap - 1) (d ∷ rest)) in
    if cap == 0 then none else if c == 0 then run else literal
