-- ===== src/Service/Ready.antt =====
-- What a poll reports.
use sys_slp_client.Base.{
  ℕ, ◌+◌, ◌<◌, ◌≡◌, ◌⊎◌, Bool, true, false, not, ◌&&◌, ◌||◌, ◌==◌, if◌then◌else◌, Option, none,
  some, List, [], ◌∷◌, ◌++◌, length, take, drop, map,
}
use sys_slp_client.Socket.State.{ProxySocket, is_closed}
use sys_slp_client.Socket.Receive.{has_pending_data}
use sys_slp_client.Manager.State.{ProxySocketManager}
use sys_slp_client.Manager.Sockets.{get_proxy_socket, is_proxy_socket}
use sys_slp_client.Service.Poll.{
  PollFd, PollAnswer, Checked, wants, pollin, pollout, set_revents, flag_count,
}

-- The sum of the flags that hold: readable 1, writable 4, hung up 16.
abbrev pub flags : Bool → Bool → Bool → ℕ
flags readable writable hung_up =
    (if readable then 1 else 0) + (if writable then 4 else 0) + (if hung_up then 16 else 0)

-- A proxy socket is readable if a datagram is queued, writable always, and hung up if it is closed; the first two are told if asked.
abbrev pub socket_flags : ProxySocket → PollFd → ℕ
socket_flags s p =
    flags (wants pollin p && has_pending_data s) (wants pollout p) (is_closed s.state)

-- An entry of a proxy socket with its flags, and of another with none.
abbrev pub reported_as : PollFd → Option ProxySocket → PollFd
reported_as p none = set_revents 0 p
reported_as p (some s) = set_revents (socket_flags s p) p

abbrev pub reported : ProxySocketManager → PollFd → PollFd
reported m p = reported_as p (get_proxy_socket m p.fd)

-- After the real poll: an entry of another socket stays as the service left it.
abbrev pub merged_as : PollFd → Option ProxySocket → PollFd
merged_as p none = p
merged_as p (some s) = set_revents (socket_flags s p) p

abbrev pub merged : ProxySocketManager → PollFd → PollFd
merged m p = merged_as p (get_proxy_socket m p.fd)

-- The entries with a flag.
unfoldable pub ready : List PollFd → ℕ
ready [] = 0
ready (p ∷ ps) = if not (p.revents == 0) then ready ps + 1 else ready ps

unfoldable pub any_proxy : ProxySocketManager → List PollFd → Bool
any_proxy m [] = false
any_proxy m (p ∷ ps) = is_proxy_socket m p.fd || any_proxy m ps

unfoldable pub any_real : ProxySocketManager → List PollFd → Bool
any_real m [] = false
any_real m (p ∷ ps) = not (is_proxy_socket m p.fd) || any_real m ps

abbrev summary : ProxySocketManager → List PollFd → Checked
summary m ps = record {
  fds = map (reported m) ps;
  has_proxy_sockets = any_proxy m ps;
  has_real_sockets = any_real m ps;
  ready_count = ready (map (reported m) ps);
}

-- The flags that hold, one by one.
unfoldable pub flag_total : ProxySocketManager → List PollFd → ℕ
flag_total m [] = 0
flag_total m (p ∷ ps) =
    let rest = flag_total m ps in
    elim (get_proxy_socket m p.fd) [ none ↦ rest | some s ↦ rest + flag_count s p ]

module _ (real : List PollFd → PollAnswer) (m later : ProxySocketManager)
    (fds_in : List PollFd) where
  -- How a poll of the `watched` entries is answered; `untouched` are those of the buffer behind them.
  pub data Polled (watched untouched : List PollFd) : PollAnswer → Type 0 where
    by_proxies :
        any_proxy m watched ≡ true
        → (any_real m watched ≡ false) ⊎ (0 < ready (map (reported m) watched))
        → Polled watched untouched (record {
          success = true;
          errno = 0;
          count = ready (map (reported m) watched);
          fds = map (reported m) watched ++ untouched;
        })
    by_service : any_proxy m watched ≡ false → Polled watched untouched (real fds_in)
    failed :
        any_proxy m watched ≡ true
        → (real fds_in).success ≡ false
        → Polled watched untouched (real fds_in)
    by_both :
        any_proxy m watched ≡ true
        → any_real m watched ≡ true
        → ready (map (reported m) watched) ≡ 0
        → (real fds_in).success ≡ true
        → Polled watched untouched (record (real fds_in) {
          count = (real fds_in).count + flag_total later (take (length watched) (real fds_in).fds);
          fds =
              map (merged later) (take (length watched) (real fds_in).fds)
              ++ drop (length watched) (real fds_in).fds;
        })
