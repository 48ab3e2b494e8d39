-- ===== src/Servers.antt =====
-- sysmodule/source/slpcfg/servers.{h,c}: the list of relays in the settings' text. A text has no NUL.
use sys_slp_client.Base.{
  ℕ, zero, suc, ◌+◌, ◌-◌, ◌*◌, Bool, true, false, ◌&&◌, ◌||◌, ◌==◌, ltb, leb, if◌then◌else◌, Option,
  none, some, List, [], ◌∷◌, ◌++◌, length, take,
}

abbrev pub max_servers : ℕ
max_servers = 10

-- Without the terminator: 31, 127, 63 and 63 characters.
abbrev pub widths : List ℕ
widths = 31 ∷ 127 ∷ 7 ∷ 63 ∷ 63 ∷ []

abbrev pub short_widths : List ℕ
short_widths = 31 ∷ 127 ∷ 63 ∷ 63 ∷ []

-- The characters of a line that are kept, `NAME_MAX + HOST_MAX + 8 - 1`.
abbrev pub line_max : ℕ
line_max = 167

abbrev pub default_port : ℕ
default_port = 11451

pub record SlpServer : Type 0 where
  pub name : List ℕ
  pub host : List ℕ
  pub port : ℕ
  pub username : List ℕ
  pub password : List ℕ

abbrev pub is_blank : ℕ → Bool
is_blank c = c == 10 || c == 13 || c == 32 || c == 9

abbrev pub is_space : ℕ → Bool
is_space c = c == 32 || leb 9 c && leb c 13

abbrev pub is_digit : ℕ → Bool
is_digit c = leb b'0' c && leb c b'9'

abbrev pub is_empty : List ℕ → Bool
is_empty [] = true
is_empty (_ ∷ _) = false

-- Blanks at the end go.
unfoldable pub trim : List ℕ → List ℕ
trim [] = []
trim (c ∷ cs) = let rest = trim cs in if is_empty rest && is_blank c then [] else c ∷ rest

-- The text before a character, all of it without one.
unfoldable pub cut_at : ℕ → List ℕ → List ℕ
cut_at stop [] = []
cut_at stop (c ∷ cs) = let rest = cut_at stop cs in if c == stop then [] else c ∷ rest

unfoldable pub skip_space : List ℕ → List ℕ
skip_space [] = []
skip_space (c ∷ cs) = let rest = skip_space cs in if is_space c then rest else c ∷ cs

-- The characters of a token, at most `width`, and what is left.
unfoldable pub read_token : ℕ → List ℕ → List ℕ × List ℕ
read_token zero s = ([], s)
read_token (suc width) [] = ([], [])
read_token (suc width) (c ∷ cs) =
    let rest = read_token width cs in if is_space c then ([], c ∷ cs) else (c ∷ rest.0, rest.1)

-- The tokens that sscanf reads by `%31s %127s ...`; it stops where none is left.
unfoldable pub scan_tokens : List ℕ → List ℕ → List (List ℕ)
unfolding skip_space read_token
scan_tokens [] s = []
scan_tokens (width ∷ widths) s =
    let token = read_token width (skip_space s) in
    let rest = scan_tokens widths token.1 in if is_empty token.0 then [] else token.0 ∷ rest

-- The digits' number, up to another character.
unfoldable pub number : ℕ → List ℕ → ℕ
number acc [] = acc
number acc (c ∷ cs) =
    let rest = number (acc * 10 + (c - b'0')) cs in if is_digit c then rest else acc

-- A negative number is 0 here; as ports both are refused.
unfoldable pub strtol : List ℕ → ℕ
unfolding number
strtol [] = 0
strtol (c ∷ cs) = if c == b'+' then number 0 cs else number 0 (c ∷ cs)

abbrev pub first_digit : List ℕ → Bool
first_digit [] = false
first_digit (c ∷ _) = is_digit c

-- The host and the port of `host:port`, at the last colon.
unfoldable pub after_colon : List ℕ → Option (List ℕ × List ℕ)
after_colon [] = none
after_colon (c ∷ cs) = elim (after_colon cs) [
  | some (host, port) ↦ some (c ∷ host, port)
  | none ↦ if c == b':' then some ([], cs) else none
]

unfoldable pub split_host : List ℕ → List ℕ × ℕ
unfolding after_colon strtol
split_host host = elim (after_colon host) [
  | none ↦ (host, default_port)
  | some (before, port) ↦ (before, strtol port)
]

abbrev pub token_at : ℕ → List (List ℕ) → List ℕ
token_at i [] = []
token_at zero (t ∷ ts) = t
token_at (suc i) (t ∷ ts) = token_at i ts

-- The entry, if the port is one.
unfoldable pub entry : List ℕ → List ℕ → ℕ → List ℕ → List ℕ → Option SlpServer
entry name host port username password =
    if ltb port 1 || ltb 65535 port
    then none
    else some
        (record { name = name; host = host; port = port; username = username; password = password })

-- `name host port [user [pass]]`
unfoldable pub long_form : List (List ℕ) → Option SlpServer
unfolding entry strtol
long_form ts =
    entry (token_at 0 ts) (token_at 1 ts) (strtol (token_at 2 ts)) (token_at 3 ts) (token_at 4 ts)

-- `name host[:port] [user [pass]]`
unfoldable pub short_form : List (List ℕ) → Option SlpServer
unfolding entry split_host
short_form ts =
    if ltb (length ts) 2
    then none
    else entry (token_at 0 ts) (split_host (token_at 1 ts)).0 (split_host (token_at 1 ts)).1
        (token_at 2 ts) (token_at 3 ts)

unfoldable pub parse_trimmed : List ℕ → Option SlpServer
unfolding scan_tokens long_form short_form
parse_trimmed [] = none
parse_trimmed (c ∷ cs) =
    let ts = scan_tokens widths (c ∷ cs) in
    if leb 3 (length ts) && first_digit (token_at 2 ts)
    then long_form ts
    else short_form (scan_tokens short_widths (c ∷ cs))

unfoldable pub parse_line : List ℕ → Option SlpServer
unfolding cut_at trim parse_trimmed
parse_line line = parse_trimmed (trim (cut_at b'#' line))

abbrev pub listed : Option SlpServer → List SlpServer → List SlpServer → List SlpServer
listed none kept skipped = skipped
listed (some s) kept skipped = s ∷ kept

-- The loop of slpServersParse, with `room` places left and `line` read of the current line.
unfoldable pub parse_from : ℕ → List ℕ → List ℕ → List SlpServer
unfolding parse_line
parse_from zero line text = []
parse_from (suc room) line [] = listed (parse_line (take line_max line)) [] []
parse_from (suc room) line (c ∷ cs) =
    let kept = parse_from room [] cs in
    let skipped = parse_from (suc room) [] cs in
    let longer = parse_from (suc room) (line ++ c ∷ []) cs in
    if c == 10 then listed (parse_line (take line_max line)) kept skipped else longer

-- The list that is left: its length is the answer.
unfoldable pub servers_parse : List ℕ → List SlpServer
unfolding parse_from
servers_parse text = parse_from max_servers [] text

-- `none` for a file that cannot be opened. The buffer has 1680 bytes.
unfoldable pub servers_load : Option (List ℕ) → List SlpServer → List SlpServer
unfolding servers_parse
servers_load none servers = servers
servers_load (some text) servers = servers_parse (take 1679 text)

unfoldable pub servers_get : ℕ → List SlpServer → Option SlpServer
servers_get index [] = none
servers_get zero (s ∷ ss) = some s
servers_get (suc index) (s ∷ ss) = servers_get index ss

abbrev same_text : List ℕ → List ℕ → Bool
same_text [] [] = true
same_text [] (_ ∷ _) = false
same_text (_ ∷ _) [] = false
same_text (a ∷ xs) (b ∷ ys) = a == b && same_text xs ys

-- The first server from number `i` on with the name.
unfoldable pub find_name : List ℕ → ℕ → List SlpServer → Option ℕ
find_name name i [] = none
find_name name i (s ∷ ss) =
    let rest = find_name name (i + 1) ss in if same_text s.name name then some i else rest

-- `none` for -1.
unfoldable pub servers_find_by_name : List ℕ → List SlpServer → Option ℕ
unfolding find_name
servers_find_by_name name servers = find_name name 0 servers
