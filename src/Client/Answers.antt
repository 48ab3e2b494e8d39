-- ===== src/Client/Answers.antt =====
-- What the resolver reads of an answer.
use sys_slp_client.Base.{
  ℕ, zero, suc, ◌+◌, ◌*◌, ◌%◌, ◌≤◌, ◌≡◌, ◌≢◌, refl, ap, ◌∙◌, false, ltb, some, List, [], ◌∷◌, ◌++◌,
  length, take, drop, append_assoc, arith, le→ltb_false, le→leb_false, ne→==_false, eq→==,
}
use sys_slp_client.Client.Dns.{
  skip_question, skip_name, find_answer, dns_parse_response, dns_build_query, question_end,
}
use sys_slp_client.Client.Names.{WireName, root, label, Queries, dns_build_query-Queries}

skip_label :
    (bytes rest : List ℕ) → skip_question (length bytes) (bytes ++ rest) ≡ skip_question 0 rest
unfolding skip_question
skip_label [] rest = refl
skip_label (b ∷ bytes) rest = skip_label bytes rest

skip-WireName :
    (name rest : List ℕ) → WireName name → skip_question 0 (name ++ (question_end ++ rest)) ≡ rest
unfolding skip_question
skip-WireName _ rest root = refl
skip-WireName _ rest (label n bytes more e low high w) =
    rw
      (
        ne→==_false n 0 (λ z. absurd (omega (arith, z, low))),
        le→leb_false 192 n (omega (arith, high)),
      )
      (ap (λ s. skip_question n s) (append_assoc bytes more (question_end ++ rest))
        ∙ ap (λ k. skip_question k (bytes ++ (more ++ (question_end ++ rest)))) e
        ∙ skip_label bytes (more ++ (question_end ++ rest))
        ∙ skip-WireName more rest w)

-- A response's header; `x` is the bytes that the resolver does not read.
abbrev pub response_header : (ℕ → ℕ) → ℕ → ℕ → ℕ → ℕ → List ℕ
response_header x flags_hi flags_lo count_hi count_lo =
    x 0 ∷ x 1 ∷ flags_hi ∷ flags_lo ∷ x 2 ∷ x 3 ∷ count_hi ∷ count_lo ∷ x 4 ∷ x 5 ∷ x 6 ∷ x 7 ∷ []

-- An A record up to its address; its name is a pointer.
abbrev pub address_record : (ℕ → ℕ) → List ℕ
address_record x = 192 ∷ x 8 ∷ 0 ∷ 1 ∷ x 9 ∷ x 10 ∷ x 11 ∷ x 12 ∷ x 13 ∷ x 14 ∷ 0 ∷ 4 ∷ []

-- A response to a query.
abbrev pub response : (ℕ → ℕ) → ℕ → ℕ → ℕ → ℕ → List ℕ → List ℕ → List ℕ
response x flags_hi flags_lo count_hi count_lo query rest =
    response_header x flags_hi flags_lo count_hi count_lo
    ++ (drop 12 query ++ (address_record x ++ rest))

module _ (x : ℕ → ℕ) (stale : List ℕ) where
  find_address :
      (n a b : ℕ) (rest : List ℕ)
      → n ≢ 0
      → find_answer stale n (address_record x ++ a ∷ b ∷ rest)
        ≡ some (a ∷ b ∷ take 2 (rest ++ stale))
  unfolding find_answer skip_name
  find_address zero a b rest h = absurd (h refl)
  find_address (suc n) a b rest h = ground arith

  parsed :
      (flags_hi flags_lo count_hi count_lo : ℕ) (body : List ℕ) (a b : ℕ) (rest : List ℕ)
      → 128 ≤ flags_hi
      → flags_lo % 16 ≡ 0
      → count_hi * 256 + count_lo ≢ 0
      → skip_question 0 body ≡ address_record x ++ a ∷ b ∷ rest
      → dns_parse_response (response_header x flags_hi flags_lo count_hi count_lo ++ body) stale
        ≡ some (a ∷ b ∷ take 2 (rest ++ stale))
  unfolding dns_parse_response
  parsed flags_hi flags_lo count_hi count_lo body a b rest hi lo n e =
      rw
        (
          long,
          le→ltb_false flags_hi 128 hi,
          eq→== (flags_lo % 16) 0 lo,
          ne→==_false (count_hi * 256 + count_lo) 0 n,
        )
        (ap (find_answer stale (count_hi * 256 + count_lo)) e
          ∙ find_address (count_hi * 256 + count_lo) a b rest n)
    where
      long : ltb (length (response_header x flags_hi flags_lo count_hi count_lo ++ body)) 12 ≡ false
      long = le→ltb_false _ 12 (omega arith)

module _ (host : List ℕ) (id cap : ℕ) (query : List ℕ)
    (built : dns_build_query host id cap ≡ some query) (x : ℕ → ℕ) (stale : List ℕ)
    (flags_hi flags_lo count_hi count_lo : ℕ) (hi : 128 ≤ flags_hi) (lo : flags_lo % 16 ≡ 0)
    (count : count_hi * 256 + count_lo ≢ 0) where
  asked : Queries cap host id query
  asked = dns_build_query-Queries host id cap query built

  answered :
      (a b : ℕ) (rest : List ℕ)
      → skip_question 0 (drop 12 query ++ (address_record x ++ a ∷ b ∷ rest))
        ≡ address_record x ++ a ∷ b ∷ rest
  answered a b rest =
      ap (λ q. skip_question 0 (drop 12 q ++ (address_record x ++ a ∷ b ∷ rest))) asked.layout
      ∙ ap (skip_question 0)
          (append_assoc asked.wire_name question_end (address_record x ++ a ∷ b ∷ rest))
      ∙ skip-WireName asked.wire_name (address_record x ++ a ∷ b ∷ rest) asked.is_name

  -- An answer to the query that dns_build_query built, whose header says that it is a response without an error and has records: the
  -- address of an A record that follows the question is read, in the order of its bytes, whatever follows it.
  pub dns_parse_response-build_query :
      (a b c d : ℕ) (rest : List ℕ)
      → dns_parse_response
          (response x flags_hi flags_lo count_hi count_lo query (a ∷ b ∷ c ∷ d ∷ rest))
          stale
        ≡ some (a ∷ b ∷ c ∷ d ∷ [])
  dns_parse_response-build_query a b c d rest =
      parsed x stale flags_hi flags_lo count_hi count_lo
        (drop 12 query ++ (address_record x ++ a ∷ b ∷ c ∷ d ∷ rest)) a b (c ∷ d ∷ rest) hi lo count
        (answered a b (c ∷ d ∷ rest))

  -- Such an answer that is cut off after two bytes of its address is accepted, and the other two bytes are what the buffer held
  -- behind it.
  pub dns_parse_response_over_read :
      (a b : ℕ)
      → dns_parse_response (response x flags_hi flags_lo count_hi count_lo query (a ∷ b ∷ [])) stale
        ≡ some (a ∷ b ∷ take 2 stale)
  dns_parse_response_over_read a b =
      parsed x stale flags_hi flags_lo count_hi count_lo
        (drop 12 query ++ (address_record x ++ a ∷ b ∷ [])) a b [] hi lo count (answered a b [])
