-- ===== src/Client/Connection.antt =====
-- slp_client.c: the socket to the relay, and the login. The answers of the system's calls are arguments; SHA-1 is one too.
use sys_slp_client.Base.{
  ℕ, ◌%◌, Bool, true, false, not, ◌||◌, ◌==◌, if◌then◌else◌, Option, none, some, List, [], ◌∷◌,
  ◌++◌, take, replicate,
}
use sys_slp_client.Tunnel.Codec.{frame_keepalive, frame_ping}

abbrev pub type_auth_me : ℕ
type_auth_me = 4

-- `fd` is none for -1. A text has no terminator.
pub record SlpClient : Type 0 where
  pub fd : Option ℕ
  pub server_ip : ℕ
  pub server_port : ℕ
  pub host : List ℕ
  pub has_credentials : Bool
  pub username : List ℕ
  pub password_sha1 : List ℕ

-- All bytes 0.
abbrev pub cleared_client : SlpClient
cleared_client = record {
  fd = some 0;
  server_ip = 0;
  server_port = 0;
  host = [];
  has_credentials = false;
  username = [];
  password_sha1 = replicate 20 0;
}

abbrev pub host_max : ℕ
host_max = 127

abbrev pub username_max : ℕ
username_max = 63

-- What slpClientOpen leaves once the socket is bound.
abbrev pub opened : ℕ → ℕ → List ℕ → ℕ → SlpClient
opened fd ip host port = record cleared_client {
  fd = some fd;
  server_ip = ip;
  server_port = port;
  host = take host_max host;
}

-- `resolved` is the answer of slpResolveHost, `socket` the new descriptor, and `bound` tells whether it could be bound.
unfoldable pub client_open : Option ℕ → Option ℕ → Bool → List ℕ → ℕ → SlpClient → Bool × SlpClient
client_open none socket bound host port c = (false, c)
client_open (some ip) none bound host port c = (false, c)
client_open (some ip) (some fd) bound host port c =
    if bound then (true, opened fd ip host port) else (false, c)

unfoldable pub client_close : SlpClient → SlpClient
client_close c = record c { fd = none }

unfoldable pub client_reopen : Option ℕ → Bool → SlpClient → Bool × SlpClient
client_reopen none bound c = (false, c)
client_reopen (some fd) bound c =
    if c.server_ip == 0 || c.server_port == 0
    then (false, c)
    else if bound
    then (true, record c { fd = some fd })
    else (false, c)

pub record SentDatagram : Type 0 where
  pub fd : Option ℕ
  pub ip : ℕ
  pub port : ℕ
  pub bytes : List ℕ

-- What is handed to sendto.
unfoldable pub client_send_raw : List ℕ → SlpClient → SentDatagram
client_send_raw bytes c = record {
  fd = c.fd;
  ip = c.server_ip;
  port = c.server_port;
  bytes = bytes;
}

unfoldable pub client_send_keepalive : SlpClient → SentDatagram
unfolding client_send_raw frame_keepalive
client_send_keepalive c = client_send_raw frame_keepalive c

unfoldable pub client_send_ping : ℕ → SlpClient → SentDatagram
unfolding client_send_raw frame_ping
client_send_ping ts c = client_send_raw (frame_ping ts) c

-- A received frame with its type; none for a timeout or an empty datagram.
unfoldable pub client_recv : Option (List ℕ) → Option (ℕ × List ℕ)
client_recv none = none
client_recv (some []) = none
client_recv (some (b ∷ bytes)) = some (b % 128, b ∷ bytes)

module _ (sha1 : List ℕ → List ℕ) where
  -- An empty text is as good as none.
  unfoldable pub client_set_credentials : List ℕ → List ℕ → SlpClient → SlpClient
  client_set_credentials [] password c = record c {
    has_credentials = false;
    username = [];
    password_sha1 = replicate 20 0;
  }
  client_set_credentials (u ∷ username) password c = record c {
    has_credentials = true;
    username = take username_max (u ∷ username);
    password_sha1 = sha1 password;
  }

  -- The frame that answers a challenge, if one does. The first byte is the kind of login.
  unfoldable pub client_handle_auth_me : List ℕ → SlpClient → Option SentDatagram
  unfolding client_send_raw
  client_handle_auth_me [] c = none
  client_handle_auth_me (auth_type ∷ challenge) c =
      if not (auth_type == 0)
      then none
      else if not c.has_credentials
      then none
      else some
          (client_send_raw (type_auth_me ∷ sha1 (c.password_sha1 ++ challenge) ++ c.username) c)
