-- ===== src/Client/Login.antt =====
-- The answer to a relay's challenge.
use sys_slp_client.Base.{
  ℕ, ◌≡◌, ◌≤◌, refl, ◌∙◌, some, List, [], ◌∷◌, ◌++◌, length, take, drop, take_exact, drop_exact,
  take_all,
}
use sys_slp_client.Client.Connection.{
  SlpClient, SentDatagram, username_max, client_set_credentials, client_handle_auth_me,
  client_send_raw,
}

-- A relay that knows the hash of the password checks an answer to its challenge: the type, the digest, and the name after it.
pub record Accepts (sha1 : List ℕ → List ℕ) (user password challenge : List ℕ) (frame : List ℕ)
    : Type 0 where
  pub type : take 1 frame ≡ 4 ∷ []
  pub digest : take 20 (drop 1 frame) ≡ sha1 (sha1 password ++ challenge)
  pub name : drop 21 frame ≡ user

-- Where SHA-1 has 20 bytes and the name is not empty and fits: a client that was given the credentials answers a challenge of
-- kind 0, to the relay, with a frame that a relay with the same password accepts.
pub handle_auth_me-set_credentials :
    (sha1 : List ℕ → List ℕ)
    → ((m : List ℕ) → length (sha1 m) ≡ 20)
    → (u : ℕ) (user password challenge : List ℕ) (c : SlpClient) → length (u ∷ user) ≤ username_max
    → (d : SentDatagram) × (client_handle_auth_me sha1
          (0 ∷ challenge)
          (client_set_credentials sha1 (u ∷ user) password c)
        ≡ some d)
      × (d.ip ≡ c.server_ip)
      × (d.port ≡ c.server_port)
      × Accepts sha1 (u ∷ user) password challenge d.bytes
unfolding client_set_credentials client_handle_auth_me client_send_raw
handle_auth_me-set_credentials sha1 twenty u user password challenge c fits = (
  _,
  refl,
  refl,
  refl,
  record {
    type = refl;
    digest = take_exact 20 (sha1 (sha1 password ++ challenge)) _ (twenty _);
    name =
        drop_exact 20 (sha1 (sha1 password ++ challenge)) _ (twenty _)
        ∙ take_all username_max (u ∷ user) fits;
  },
)
