-- ===== src/Service/Poll.antt =====
-- bsd_mitm_service.cpp: Poll. The real service is a parameter.
use sys_slp_client.Base.{
  ℕ, ◌+◌, min, bit_and, bit_or, Bool, true, false, not, ◌&&◌, ◌==◌, ltb, leb, if◌then◌else◌, Option,
  none, some, List, [], ◌∷◌, ◌++◌, length, take, drop,
}
use sys_slp_client.Socket.State.{ProxySocket, is_closed}
use sys_slp_client.Socket.Receive.{has_pending_data}
use sys_slp_client.Manager.State.{ProxySocketManager}
use sys_slp_client.Manager.Sockets.{get_proxy_socket}

-- `POLLIN`, `POLLOUT` and `POLLHUP` of poll.h.
abbrev pub pollin : ℕ
pollin = 1

abbrev pub pollout : ℕ
pollout = 4

abbrev pub pollhup : ℕ
pollhup = 16

pub record PollFd : Type 0 where
  pub fd : ℕ
  pub events : ℕ
  pub revents : ℕ

abbrev pub wants : ℕ → PollFd → Bool
wants flag p = not (bit_and p.events flag == 0)

abbrev pub set_revents : ℕ → PollFd → PollFd
set_revents r p = record p { revents = r }

-- The flags of a proxy socket, from none.
unfoldable pub proxy_revents : ProxySocket → PollFd → ℕ
unfolding has_pending_data
proxy_revents s p =
    let readable = if wants pollin p && has_pending_data s then bit_or 0 pollin else 0 in
    let writable = if wants pollout p then bit_or readable pollout else readable in
    if is_closed s.state then bit_or writable pollhup else writable

-- What the first loop finds.
pub record Checked : Type 0 where
  pub fds : List PollFd
  pub has_proxy_sockets : Bool
  pub has_real_sockets : Bool
  pub ready_count : ℕ

unfoldable pub check_fd : PollFd → Option ProxySocket → Checked → Checked
unfolding proxy_revents
check_fd p none c = record c { fds = set_revents 0 p ∷ c.fds; has_real_sockets = true }
check_fd p (some s) c =
    let r = proxy_revents s p in
    record c {
      fds = set_revents r p ∷ c.fds;
      has_proxy_sockets = true;
      ready_count = if not (r == 0) then c.ready_count + 1 else c.ready_count;
    }

unfoldable pub check_fds : ProxySocketManager → List PollFd → Checked
unfolding check_fd
check_fds m [] = record {
  fds = [];
  has_proxy_sockets = false;
  has_real_sockets = false;
  ready_count = 0;
}
check_fds m (p ∷ ps) = check_fd p (get_proxy_socket m p.fd) (check_fds m ps)

abbrev pub cleared : PollFd → Option ProxySocket → PollFd
cleared p none = set_revents 0 p
cleared p (some _) = p

-- The loop that marks the other sockets as not ready.
unfoldable pub clear_real : ProxySocketManager → List PollFd → List PollFd
clear_real m [] = []
clear_real m (p ∷ ps) = cleared p (get_proxy_socket m p.fd) ∷ clear_real m ps

-- The flags of a socket, one by one, as the last loop counts them.
abbrev pub flag_count : ProxySocket → PollFd → ℕ
flag_count s p =
    (if wants pollin p && has_pending_data s then 1 else 0)
    + (if wants pollout p then 1 else 0)
    + (if is_closed s.state then 1 else 0)

abbrev pub merge_fd : PollFd → Option ProxySocket → List PollFd × ℕ → List PollFd × ℕ
merge_fd p none rest = (p ∷ rest.0, rest.1)
merge_fd p (some s) rest = (set_revents (proxy_revents s p) p ∷ rest.0, rest.1 + flag_count s p)

-- The merge after the real poll: the entries, and what is added to its count.
unfoldable pub merge_fds : ProxySocketManager → List PollFd → List PollFd × ℕ
merge_fds m [] = ([], 0)
merge_fds m (p ∷ ps) = merge_fd p (get_proxy_socket m p.fd) (merge_fds m ps)

-- An answer of the real service: what it leaves in the caller's buffer is `fds`.
pub record PollAnswer : Type 0 where
  pub success : Bool
  pub errno : ℕ
  pub count : ℕ
  pub fds : List PollFd

-- The buffer after the copy, if the copy fits.
abbrev pub copied : List PollFd → List PollFd → List PollFd
copied fds_in fds_out =
    if leb (length fds_in) (length fds_out) then fds_in ++ drop (length fds_in) fds_out else fds_out

-- `real` is the service, `later` the manager when it returns. The buffers' sizes are in entries.
unfoldable pub poll_checked :
    (List PollFd → PollAnswer)
    → ProxySocketManager
    → ProxySocketManager
    → List PollFd
    → ℕ
    → List PollFd
    → Checked
    → PollAnswer
unfolding clear_real merge_fds
poll_checked real m later fds_in num untouched c =
    let out = real fds_in in
    let merged = merge_fds later (take num out.fds) in
    if c.has_proxy_sockets && not c.has_real_sockets
    then record { success = true; errno = 0; count = c.ready_count; fds = c.fds ++ untouched }
    else if c.has_proxy_sockets && ltb 0 c.ready_count
    then record {
      success = true;
      errno = 0;
      count = c.ready_count;
      fds = clear_real m c.fds ++ untouched;
    }
    else if c.has_proxy_sockets && out.success
    then record out { count = out.count + merged.1; fds = merged.0 ++ drop num out.fds }
    else out

unfoldable pub poll :
    (List PollFd → PollAnswer)
    → ProxySocketManager
    → ProxySocketManager
    → List PollFd
    → List PollFd
    → ℕ
    → PollAnswer
unfolding poll_checked check_fds
poll real m later fds_in fds_out nfds =
    let buffer = copied fds_in fds_out in
    let num = min nfds (length buffer) in
    poll_checked real m later fds_in num (drop num buffer) (check_fds m (take num buffer))
