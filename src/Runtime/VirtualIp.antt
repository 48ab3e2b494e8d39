-- ===== src/Runtime/VirtualIp.antt =====
-- slp_runtime.cpp: ReadConfigText, GetVirtualIp and what it calls.
use sys_slp_client.Base.{
  ℕ, zero, suc, ◌+◌, ◌-◌, ◌*◌, ◌/◌, ◌%◌, Bool, true, false, not, ◌&&◌, ◌||◌, ◌==◌, ltb,
  if◌then◌else◌, Option, none, some, List, [], ◌∷◌, ◌++◌, length,
}
use sys_slp_client.Servers.{is_digit, skip_space}

-- A file is its bytes, none if it cannot be read.
unfoldable pub read_config_text : ℕ → Option (List ℕ) → Option (List ℕ)
read_config_text cap none = none
read_config_text cap (some text) =
    if ltb 0 (length text) && ltb (length text) (cap - 1) then some text else none

unfoldable pub is_reserved_virtual_octet : ℕ → ℕ → Bool
is_reserved_virtual_octet c d = c == 0 || c == 255 || c == 37 || d == 0 || d == 255

-- `draws` gives the random octets of an attempt.
unfoldable pub draw_from : ℕ → ℕ → (ℕ → ℕ × ℕ) → ℕ × ℕ
unfolding is_reserved_virtual_octet
draw_from zero attempt draws = (100, 100)
draw_from (suc left) attempt draws =
    let rest = draw_from left (attempt + 1) draws in
    if not (is_reserved_virtual_octet (draws attempt).0 (draws attempt).1)
    then draws attempt
    else rest

unfoldable pub generate_virtual_octets : (ℕ → ℕ × ℕ) → ℕ × ℕ
unfolding draw_from
generate_virtual_octets draws = draw_from 64 0 draws

-- The digits of `%u`, for a number of at most three.
unfoldable pub print_octet : ℕ → List ℕ
print_octet n =
    if ltb n 10
    then (b'0' + n) ∷ []
    else if ltb n 100
    then (b'0' + n / 10) ∷ (b'0' + n % 10) ∷ []
    else (b'0' + n / 100) ∷ (b'0' + n / 10 % 10) ∷ (b'0' + n % 10) ∷ []

unfoldable pub persisted_text : ℕ → ℕ → List ℕ
persisted_text c d = print_octet c ++ (b'.' ∷ (print_octet d ++ 10 ∷ []))

unfoldable pub virtual_ip_text : ℕ → ℕ → List ℕ
virtual_ip_text c d =
    b'1' ∷ b'0' ∷ b'.' ∷ b'1' ∷ b'3' ∷ b'.' ∷ print_octet c ++ b'.' ∷ print_octet d

abbrev pub default_virtual_ip : List ℕ
default_virtual_ip = b'1' ∷ b'0' ∷ b'.' ∷ b'1' ∷ b'3' ∷ b'.' ∷ b'3' ∷ b'7' ∷ b'.' ∷ b'2' ∷ []

abbrev ulong_max : ℕ
ulong_max = 18446744073709551615

-- The digits from here on, with the number before them, and the rest.
unfoldable pub scan_digits : ℕ → List ℕ → ℕ × List ℕ
scan_digits acc [] = (acc, [])
scan_digits acc (c ∷ cs) =
    let rest = scan_digits (acc * 10 + (c - b'0')) cs in if is_digit c then rest else (acc, c ∷ cs)

abbrev starts_with_digit : List ℕ → Bool
starts_with_digit [] = false
starts_with_digit (c ∷ _) = is_digit c

-- The number and the rest, if there is a digit.
unfoldable pub scan_number : Bool → List ℕ → Option (ℕ × List ℕ)
unfolding scan_digits
scan_number negative s =
    let n = (scan_digits 0 s).0 in
    let value = if ltb ulong_max n then ulong_max else if negative then ulong_max + 1 - n else n in
    if starts_with_digit s then some (value % 4294967296, (scan_digits 0 s).1) else none

-- `%u`: blanks, a sign, digits.
unfoldable pub scan_signed : List ℕ → Option (ℕ × List ℕ)
unfolding scan_number
scan_signed [] = none
scan_signed (c ∷ cs) =
    if c == b'-'
    then scan_number true cs
    else if c == b'+'
    then scan_number false cs
    else scan_number false (c ∷ cs)

unfoldable pub scan_u : List ℕ → Option (ℕ × List ℕ)
unfolding scan_signed skip_space
scan_u s = scan_signed (skip_space s)

-- The second number, after the dot.
unfoldable pub scan_second : ℕ × List ℕ → Option (ℕ × ℕ)
unfolding scan_u
scan_second (c, []) = none
scan_second (c, ch ∷ rest) =
    if ch == b'.' then elim (scan_u rest) [ none ↦ none | some (d, _) ↦ some (c, d) ] else none

-- Two octets that are not reserved.
unfoldable pub accepted_octets : ℕ × ℕ → Option (ℕ × ℕ)
unfolding is_reserved_virtual_octet
accepted_octets (c, d) =
    if ltb 255 c || ltb 255 d || is_reserved_virtual_octet c d then none else some (c, d)

abbrev pub and_then {ℓ κ} : {A : Type ℓ} {B : Type κ} → Option A → (A → Option B) → Option B
and_then none f = none
and_then (some a) f = f a

unfoldable pub read_persisted_virtual_octets : Option (List ℕ) → Option (ℕ × ℕ)
unfolding read_config_text scan_u scan_second accepted_octets
read_persisted_virtual_octets file =
    and_then (read_config_text 32 file)
      (λ text. and_then (scan_u text) (λ first. and_then (scan_second first) accepted_octets))

-- What the file system answers to PersistVirtualOctets; `left` is what a new file holds that could not be opened or written.
pub record FileAnswers : Type 0 where
  pub deleted : Bool
  pub created : Bool
  pub opened : Bool
  pub written : Bool
  pub left : List ℕ

-- The file afterwards.
unfoldable pub persist_virtual_octets : FileAnswers → Option (List ℕ) → ℕ × ℕ → Option (List ℕ)
unfolding persisted_text
persist_virtual_octets w file octets =
    let kept = if w.deleted then none else file in
    if not w.created
    then kept
    else if w.opened && w.written
    then some (persisted_text octets.0 octets.1)
    else some w.left

-- What GetVirtualIp writes to its caller, and the file that it leaves. `network_up` tells whether nifm answers.
unfoldable pub drawn_virtual_ip :
    FileAnswers → Option (List ℕ) → Bool → (ℕ → ℕ × ℕ) → Option (ℕ × ℕ) → List ℕ × Option (List ℕ)
unfolding virtual_ip_text persist_virtual_octets generate_virtual_octets
drawn_virtual_ip w file network_up draws (some (c, d)) = (virtual_ip_text c d, file)
drawn_virtual_ip w file network_up draws none =
    let octets = generate_virtual_octets draws in
    if network_up
    then (virtual_ip_text octets.0 octets.1, persist_virtual_octets w file octets)
    else (default_virtual_ip, file)

unfoldable pub get_virtual_ip :
    FileAnswers → Option (List ℕ) → Bool → (ℕ → ℕ × ℕ) → List ℕ × Option (List ℕ)
unfolding read_persisted_virtual_octets drawn_virtual_ip
get_virtual_ip w file network_up draws =
    drawn_virtual_ip w file network_up draws (read_persisted_virtual_octets file)
