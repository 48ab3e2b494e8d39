-- ===== src/Client/Dns.antt =====
-- slp_client.c: the DNS query and the reading of its answer. A position in a message is the list of the bytes from it on, and is
-- empty at the end and beyond.
use sys_slp_client.Base.{
  ℕ, zero, suc, ◌+◌, ◌-◌, ◌*◌, ◌/◌, ◌%◌, Bool, not, ◌&&◌, ◌||◌, ◌==◌, ltb, leb, if◌then◌else◌,
  Option, none, some, List, [], ◌∷◌, ◌++◌, length, get_or, take, drop, u8, bit_xor,
}

-- The test of a label that ends at a dot or at the end of the name.
unfoldable pub label_fits : ℕ → ℕ → List ℕ → Bool
label_fits cap pos label =
    not (length label == 0 || ltb 63 (length label) || ltb cap (pos + length label + 2))

-- What follows a label that was written, if the rest can be written.
unfoldable pub put_label : Bool → List ℕ → Option (List ℕ) → Option (List ℕ)
put_label fits label none = none
put_label fits label (some rest) = if fits then some (u8 (length label) ∷ label ++ rest) else none

unfoldable pub end_name : ℕ → ℕ → Option (List ℕ)
end_name cap pos = if ltb cap (pos + 2) then none else some (0 ∷ [])

-- The loop of dns_encode_name at position `pos` of the buffer, where `label` is read of the current label and the characters are
-- left. `none` for the answer 0.
unfoldable pub encode_from : ℕ → ℕ → List ℕ → List ℕ → Option (List ℕ)
unfolding label_fits put_label end_name
encode_from cap pos [] [] = end_name cap pos
encode_from cap pos (l ∷ label) [] =
    put_label (label_fits cap pos (l ∷ label)) (l ∷ label)
      (end_name cap (pos + (length (l ∷ label) + 1)))
encode_from cap pos label (c ∷ cs) =
    let next = encode_from cap (pos + (length label + 1)) [] cs in
    let same = encode_from cap pos (label ++ c ∷ []) cs in
    if c == b'.' then put_label (label_fits cap pos label) label next else same

unfoldable pub dns_encode_name : List ℕ → ℕ → Option (List ℕ)
unfolding encode_from
dns_encode_name host cap = encode_from cap 0 [] host

abbrev pub query_header : ℕ → List ℕ
query_header id = u8 (id / 256) ∷ u8 id ∷ 1 ∷ 0 ∷ 0 ∷ 1 ∷ 0 ∷ 0 ∷ 0 ∷ 0 ∷ 0 ∷ 0 ∷ []

-- Type A, class IN.
abbrev pub question_end : List ℕ
question_end = 0 ∷ 1 ∷ 0 ∷ 1 ∷ []

abbrev pub with_name : ℕ → Option (List ℕ) → Option (List ℕ)
with_name id none = none
with_name id (some name) = some (query_header id ++ (name ++ question_end))

-- `none` for -1.
unfoldable pub dns_build_query : List ℕ → ℕ → ℕ → Option (List ℕ)
unfolding dns_encode_name
dns_build_query host id cap = with_name id (dns_encode_name host (cap - 12))

-- The loop over a question's labels, with `left` bytes of the current one left, and then its end.
unfoldable pub skip_question : ℕ → List ℕ → List ℕ
skip_question left [] = []
skip_question (suc left) (_ ∷ s) = skip_question left s
skip_question zero (l ∷ s) =
    let rest = skip_question l s in
    if l == 0 then drop 4 s else if leb 192 l then drop 1 s else rest

-- The loop over an answer's name.
unfoldable pub skip_name : ℕ → List ℕ → List ℕ
skip_name left [] = []
skip_name (suc left) (_ ∷ s) = skip_name left s
skip_name zero (l ∷ s) =
    let rest = skip_name l s in if leb 192 l then drop 1 s else if l == 0 then s else rest

abbrev pub be : List ℕ → ℕ → ℕ
be p i = get_or p i 0 * 256 + get_or p (i + 1) 0

-- The loop over `count` answers. The address is 4 bytes of the buffer, in which `stale` follows the message.
unfoldable pub find_answer : List ℕ → ℕ → List ℕ → Option (List ℕ)
unfolding skip_name
find_answer stale zero s = none
find_answer stale (suc count) s =
    let name_end = skip_name 0 s in
    let later = find_answer stale count (drop (10 + be name_end 8) name_end) in
    if ltb (length s) 12
    then none
    else if ltb (length name_end) 10
    then none
    else if be name_end 0 == 1 && be name_end 8 == 4 && leb 12 (length name_end)
    then some (take 4 (drop 10 (name_end ++ stale)))
    else later

-- The bytes that are copied to the caller's address; `none` for 0.
unfoldable pub dns_parse_response : List ℕ → List ℕ → Option (List ℕ)
unfolding skip_question find_answer
dns_parse_response resp stale =
    let found = find_answer stale (be resp 6) (skip_question 0 (drop 12 resp)) in
    if ltb (length resp) 12
    then none
    else if ltb (get_or resp 2 0) 128 || not (get_or resp 3 0 % 16 == 0)
    then none
    else if be resp 6 == 0
    then none
    else found

-- The transaction's number; the name is ASCII.
unfoldable pub query_id : List ℕ → ℕ
query_id host = bit_xor (get_or host 0 0 * 256 + get_or host 1 0) 0x5A5A

-- `literal` is what inet_pton reads, `answer` the DNS server's answer to the query if one is received, in a buffer that held `stale`.
unfoldable pub resolve_host :
    Option (List ℕ) → (List ℕ → Option (List ℕ)) → List ℕ → List ℕ → Option (List ℕ)
unfolding dns_build_query dns_parse_response query_id
resolve_host (some address) answer stale host = some address
resolve_host none answer stale host = elim (dns_build_query host (query_id host) 512) [
  | none ↦ none
  | some query ↦ elim (answer query) [
    | none ↦ none
    | some resp ↦ dns_parse_response resp (drop (length resp) stale)
  ]
]
