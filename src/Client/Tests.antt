-- ===== src/Client/Tests.antt =====
-- The resolver and the login at concrete inputs.
use sys_slp_client.Base.{
  ℕ, ◌+◌, ◌≡◌, refl, true, false, some, none, List, [], ◌∷◌, length, replicate, arith,
}
use sys_slp_client.Client.Dns.{dns_build_query, dns_parse_response}
use sys_slp_client.Client.Connection.{
  SlpClient, cleared_client, opened, SentDatagram, client_set_credentials, client_handle_auth_me,
  client_recv, client_reopen,
}
use sys_slp_client.Client.Names.{Queries, dns_build_query-Queries}
use sys_slp_client.Client.Answers.{
  response, dns_parse_response-build_query, dns_parse_response_over_read,
}
use sys_slp_client.Client.Login.{Accepts, handle_auth_me-set_credentials}

-- `ab.c`
abbrev host : List ℕ
host = 97 ∷ 98 ∷ 46 ∷ 99 ∷ []

abbrev query : List ℕ
query =
    0x12 ∷ 0x34 ∷ 1 ∷ 0 ∷ 0 ∷ 1 ∷ 0 ∷ 0 ∷ 0 ∷ 0 ∷ 0 ∷ 0 ∷ 2 ∷ 97 ∷ 98 ∷ 1 ∷ 99 ∷ 0 ∷ 0 ∷ 1 ∷ 0 ∷ 1
    ∷ []

built : dns_build_query host 0x1234 512 ≡ some query
unfolding dns_build_query
built = refl

-- The name fits a buffer of 19 bytes, the query does not.
overrun : dns_build_query host 0x1234 19 ≡ some query
unfolding dns_build_query
overrun = refl

no_room : dns_build_query host 0x1234 18 ≡ none
unfolding dns_build_query
no_room = refl

empty_label : dns_build_query (97 ∷ 46 ∷ 46 ∷ 98 ∷ []) 0x1234 512 ≡ none
unfolding dns_build_query
empty_label = refl

dns_build_query-Queries_example : Queries 19 host 0x1234 query
dns_build_query-Queries_example = dns_build_query-Queries host 0x1234 19 query overrun

abbrev other : ℕ → ℕ
other i = i + 3

dns_parse_response-build_query_example :
    dns_parse_response (response other 0x81 0x80 0 1 query (10 ∷ 1 ∷ 2 ∷ 3 ∷ 0 ∷ [])) (7 ∷ [])
    ≡ some (10 ∷ 1 ∷ 2 ∷ 3 ∷ [])
dns_parse_response-build_query_example =
    dns_parse_response-build_query host 0x1234 512 query built other (7 ∷ []) 0x81 0x80 0 1
      (omega arith) refl (λ z. absurd (omega (arith, z))) 10 1 2 3 (0 ∷ [])

dns_parse_response_over_read_example :
    dns_parse_response (response other 0x81 0x80 0 1 query (10 ∷ 1 ∷ [])) (66 ∷ 67 ∷ 68 ∷ [])
    ≡ some (10 ∷ 1 ∷ 66 ∷ 67 ∷ [])
dns_parse_response_over_read_example =
    dns_parse_response_over_read host 0x1234 512 query built other (66 ∷ 67 ∷ 68 ∷ []) 0x81 0x80 0 1
      (omega arith) refl (λ z. absurd (omega (arith, z))) 10 1

-- A hash of 20 bytes.
abbrev hash : List ℕ → List ℕ
hash m = length m ∷ replicate 19 7

abbrev relay : SlpClient
relay = opened 5 0x0100000A host 11451

handle_auth_me-set_credentials_example :
    (d : SentDatagram) × (client_handle_auth_me hash
        (0 ∷ 1 ∷ 2 ∷ 3 ∷ [])
        (client_set_credentials hash (117 ∷ 118 ∷ []) (112 ∷ []) relay)
      ≡ some d)
    × (d.ip ≡ 0x0100000A)
    × (d.port ≡ 11451)
    × Accepts hash (117 ∷ 118 ∷ []) (112 ∷ []) (1 ∷ 2 ∷ 3 ∷ []) d.bytes
handle_auth_me-set_credentials_example =
    handle_auth_me-set_credentials hash (λ m. refl) 117 (118 ∷ []) (112 ∷ []) (1 ∷ 2 ∷ 3 ∷ []) relay
      (omega arith)

received : client_recv (some (130 ∷ 1 ∷ [])) ≡ some (2, 130 ∷ 1 ∷ [])
unfolding client_recv
received = refl

reopened_elsewhere : (client_reopen (some 9) true cleared_client).0 ≡ false
unfolding client_reopen
reopened_elsewhere = refl
