-- ===== src/Runtime/Decimal.antt =====
-- slp_runtime.cpp, ldn_control.cpp: the decimal texts of octets, as they are written and read.
use sys_slp_client.Base.{
  ℕ, ◌+◌, ◌*◌, ◌/◌, ◌%◌, ◌≤◌, ◌<◌, ◌≡◌, refl, sym, ap, ◌∙◌, true, false, some, List, [], ◌∷◌, ◌++◌,
  length, length-append, arith, le→ltb_false, lt→ltb, append-nil,
}
use native.Mathlib.Decide.{dec_lt}
use sys_slp_client.Servers.{is_digit, skip_space}
use sys_slp_client.Ldn.Control.{parse_ip, parse_ip_from}
use sys_slp_client.Runtime.VirtualIp.{
  read_config_text, is_reserved_virtual_octet, print_octet, persisted_text, virtual_ip_text,
  scan_digits, scan_number, scan_signed, scan_u, scan_second, accepted_octets,
  read_persisted_virtual_octets,
}

-- A decimal digit.
abbrev digit : ℕ → ℕ
digit n = b'0' + n

digit-is_digit : (n : ℕ) → n < 10 → is_digit (digit n) ≡ true
digit-is_digit n h = ground arith

scan_digit :
    (n acc : ℕ) (rest : List ℕ)
    → n < 10
    → scan_digits acc (digit n ∷ rest) ≡ scan_digits (acc * 10 + n) rest
unfolding scan_digits
scan_digit n acc rest h = ground arith

parse_digit :
    (n v oct cur : ℕ) (rest : List ℕ)
    → n < 10
    → parse_ip_from (digit n ∷ rest) v oct cur ≡ parse_ip_from rest v oct (cur * 10 + n)
unfolding parse_ip_from
parse_digit n v oct cur rest h = ground arith

-- What print_octet writes, as digits with their number.
data Digits : ℕ → List ℕ → ℕ → Type 0 where
  last : (acc value : ℕ) → acc ≡ value → Digits acc [] value
  next :
      (acc n : ℕ) (rest : List ℕ) (value : ℕ)
      → n < 10
      → Digits (acc * 10 + n) rest value
      → Digits acc (digit n ∷ rest) value

print_octet-Digits : (n : ℕ) → n < 256 → Digits 0 (print_octet n) n
unfolding print_octet
print_octet-Digits n h = elim (dec_lt n 10) [
  | yes small ↦ rw (lt→ltb n 10 small) (next 0 n [] n small (last _ n (omega arith)))
  | no big ↦ rw (le→ltb_false n 10 (omega arith)) (elim (dec_lt n 100) [
    | yes small ↦ rw (lt→ltb n 100 small) (
        next 0 (n / 10) _ n (omega arith)
          (next _ (n % 10) [] n (omega arith) (last _ n (omega arith))))
    | no bigger ↦ rw (le→ltb_false n 100 (omega arith)) (
        next 0 (n / 100) _ n (omega arith) (
          next _ (n / 10 % 10) _ n (omega arith)
            (next _ (n % 10) [] n (omega arith) (last _ n (omega arith)))))
  ])
]

scan-Digits :
    (acc n : ℕ) (text rest : List ℕ)
    → Digits acc text n
    → scan_digits acc (text ++ rest) ≡ scan_digits n rest
scan-Digits acc n _ rest (last _ _ e) = ap (λ k. scan_digits k rest) e
scan-Digits acc n _ rest (next _ d text _ h more) =
    scan_digit d acc (text ++ rest) h ∙ scan-Digits (acc * 10 + d) n text rest more

parse-Digits :
    (v oct acc n : ℕ) (text rest : List ℕ)
    → Digits acc text n
    → parse_ip_from (text ++ rest) v oct acc ≡ parse_ip_from rest v oct n
parse-Digits v oct acc n _ rest (last _ _ e) = ap (λ k. parse_ip_from rest v oct k) e
parse-Digits v oct acc n _ rest (next _ d text _ h more) =
    parse_digit d v oct acc (text ++ rest) h ∙ parse-Digits v oct (acc * 10 + d) n text rest more

parse_dot :
    (v oct cur : ℕ) (rest : List ℕ)
    → cur < 256
    → oct < 3
    → parse_ip_from (b'.' ∷ rest) v oct cur
      ≡ parse_ip_from rest (v * 256 % 4294967296 + cur) (oct + 1) 0
unfolding parse_ip_from
parse_dot v oct cur rest h k = ground arith

parse_end : (v cur : ℕ) → cur < 256 → parse_ip_from [] v 3 cur ≡ v * 256 % 4294967296 + cur
unfolding parse_ip_from
parse_end v cur h = ground arith

-- What ParseIp reads of the text of an address.
pub parse_ip-virtual_ip_text :
    (c d : ℕ) → c < 256 → d < 256 → parse_ip (virtual_ip_text c d) ≡ 0x0A0D0000 + c * 256 + d
unfolding parse_ip virtual_ip_text
parse_ip-virtual_ip_text c d hc hd =
    parse-Digits 2573 2 0 c (print_octet c) (b'.' ∷ print_octet d) (print_octet-Digits c hc)
    ∙ parse_dot 2573 2 c (print_octet d) hc (omega arith)
    ∙ ap (λ t. parse_ip_from t (2573 * 256 % 4294967296 + c) 3 0) (sym (append-nil (print_octet d)))
    ∙ parse-Digits _ 3 0 d (print_octet d) [] (print_octet-Digits d hd)
    ∙ parse_end _ d hd
    ∙ omega arith

print_octet_starts :
    (n : ℕ) → n < 256 → (m : ℕ) × (more : List ℕ) × (m < 10) × (print_octet n ≡ digit m ∷ more)
unfolding print_octet
print_octet_starts n h = elim (dec_lt n 10) [
  | yes small ↦ rw (lt→ltb n 10 small) (n, _, small, refl)
  | no big ↦ rw (le→ltb_false n 10 (omega arith)) (elim (dec_lt n 100) [
    | yes small ↦ rw (lt→ltb n 100 small) (n / 10, _, omega arith, refl)
    | no bigger ↦ rw (le→ltb_false n 100 (omega arith)) (n / 100, _, omega arith, refl)
  ])
]

scan_u-digit :
    (m n : ℕ) (more rest : List ℕ)
    → m < 10
    → n < 256
    → scan_digits 0 (digit m ∷ more) ≡ (n, rest)
    → scan_u (digit m ∷ more) ≡ some (n, rest)
unfolding scan_u skip_space scan_signed scan_number
scan_u-digit m n more rest h k e = ground (arith, e)

-- What `%u` reads of an octet's text before another character.
scan_u-print_octet :
    (n ch : ℕ) (rest : List ℕ)
    → n < 256
    → is_digit ch ≡ false
    → scan_u (print_octet n ++ ch ∷ rest) ≡ some (n, ch ∷ rest)
unfolding scan_digits
scan_u-print_octet n ch rest h other =
    let (m, more, low, e) = print_octet_starts n h in
    ap (λ t. scan_u (t ++ ch ∷ rest)) e
    ∙ scan_u-digit m n (more ++ ch ∷ rest) (ch ∷ rest) low h (
        ap (λ t. scan_digits 0 (t ++ ch ∷ rest)) (sym e)
        ∙ scan-Digits 0 n (print_octet n) (ch ∷ rest) (print_octet-Digits n h)
        ∙ rw other refl)

print_octet-fits : (n : ℕ) → length (print_octet n) ≤ 3
unfolding print_octet
print_octet-fits n = ground arith

persisted_text-fits : (c d : ℕ) → length (persisted_text c d) < 31
unfolding persisted_text
persisted_text-fits c d =
    let a = print_octet-fits c in
    let b = print_octet-fits d in
    rw
      (
        length-append (print_octet c) (b'.' ∷ (print_octet d ++ 10 ∷ [])),
        length-append (print_octet d) (10 ∷ []),
      )
      (omega arith)

persisted_text-not_empty : (c d : ℕ) → 0 < length (persisted_text c d)
unfolding persisted_text
persisted_text-not_empty c d =
    rw (length-append (print_octet c) (b'.' ∷ (print_octet d ++ 10 ∷ []))) (omega arith)

scan_second-print_octet :
    (c d : ℕ) → d < 256 → scan_second (c, b'.' ∷ (print_octet d ++ 10 ∷ [])) ≡ some (c, d)
unfolding scan_second
scan_second-print_octet c d h = rw (scan_u-print_octet d 10 [] h refl) refl

scan_u-persisted_text :
    (c d : ℕ) → c < 256 → scan_u (persisted_text c d) ≡ some (c, b'.' ∷ (print_octet d ++ 10 ∷ []))
unfolding persisted_text
scan_u-persisted_text c d hc = scan_u-print_octet c b'.' (print_octet d ++ 10 ∷ []) hc refl

-- What `snprintf` writes to the file is read back.
pub read_persisted-persisted_text :
    (c d : ℕ)
    → c < 256
    → d < 256
    → is_reserved_virtual_octet c d ≡ false
    → read_persisted_virtual_octets (some (persisted_text c d)) ≡ some (c, d)
unfolding read_persisted_virtual_octets read_config_text accepted_octets
read_persisted-persisted_text c d hc hd free =
    rw
      (
        lt→ltb 0 _ (persisted_text-not_empty c d),
        lt→ltb _ 31 (persisted_text-fits c d),
        scan_u-persisted_text c d hc,
        scan_second-print_octet c d hd,
        le→ltb_false 255 c (omega arith),
        le→ltb_false 255 d (omega arith),
        free,
      )
      refl
