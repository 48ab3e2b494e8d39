-- ===== src/Service/Cleanup.antt =====
-- What a session leaves when it ends.
use sys_slp_client.Base.{
  ℕ, ◌≡◌, refl, sym, ap, ◌∙◌, Bool, true, false, ◌&&◌, ◌||◌, ◌==◌, if◌then◌else◌, Option, none,
  some, List, [], ◌∷◌, Bool-cases, if_both, eq→==, subst, inl, inr, ==→eq,
}
use sys_slp_client.Socket.State.{ProxySocket, Outgoing}
use sys_slp_client.Manager.State.{ProxySocketManager}
use sys_slp_client.Manager.Sockets.{close_proxy_socket, get_proxy_socket}
use sys_slp_client.Manager.Lookup.{IsValid, Closed, unknown, known, close_proxy_socket_lem}
use sys_slp_client.Service.Bind.{SocketInfo, find_info, BsdMitmService}
use sys_slp_client.Service.Table.{own_proxies, of_others, close_fds, clean_up_session}

-- The manager without a descriptor.
pub record Without (gone : ℕ → Bool) (m m' : ProxySocketManager) : Type 0 where
  pub valid : IsValid m'
  pub lookups :
      (fd : ℕ) → get_proxy_socket m' fd ≡ (if gone fd then none else get_proxy_socket m fd)

Closed-Without :
    (m : ProxySocketManager) (fd : ℕ) (r : Bool × ProxySocketManager × List Outgoing)
    → IsValid m
    → Closed m fd r
    → Without (λ fd'. fd == fd') m r.1
Closed-Without m fd _ v (unknown e) = record { valid = v; lookups = λ fd'. absent fd' }
  where
    absent :
        (fd' : ℕ) → get_proxy_socket m fd' ≡ (if fd == fd' then none else get_proxy_socket m fd')
    absent fd' = elim (Bool-cases (fd == fd')) [
      | inl same ↦ rw same (ap (get_proxy_socket m) (sym (==→eq fd fd' same)) ∙ e)
      | inr other ↦ rw other refl
    ]
Closed-Without m fd _ v (known s m' e v' lookups count pool) = record {
  valid = v';
  lookups = lookups;
}

abbrev pub listed_in : List ℕ → ℕ → Bool
listed_in [] fd = false
listed_in (x ∷ xs) fd = (x == fd) || listed_in xs fd

close_fds-Without :
    (fds : List ℕ) (m : ProxySocketManager)
    → IsValid m
    → Without (listed_in fds) m (close_fds fds m).0
unfolding close_fds
close_fds-Without [] m v = record { valid = v; lookups = λ fd. refl }
close_fds-Without (x ∷ xs) m v =
    let first = Closed-Without m x (close_proxy_socket m x) v (close_proxy_socket_lem m x v) in
    let rest = close_fds-Without xs (close_proxy_socket m x).1 first.valid in
    record {
      valid = rest.valid;
      lookups = λ fd.
          rest.lookups fd
          ∙ ap (λ o. if listed_in xs fd then none else o) (first.lookups fd)
          ∙ both (x == fd) (listed_in xs fd) (get_proxy_socket m fd);
    }
  where
    both :
        (a b : Bool) (o : Option ProxySocket)
        → (if b then none else (if a then none else o)) ≡ (if a || b then none else o)
    both true true o = refl
    both true false o = refl
    both false b o = refl

abbrev pub DistinctKeys : List (ℕ × SocketInfo) → Type 0
DistinctKeys [] = Unit
DistinctKeys ((fd, _) ∷ rest) = (find_info fd rest ≡ none) × DistinctKeys rest

-- What is left of a table, and which of its proxy sockets are closed, for one descriptor.
abbrev After : ℕ → List (ℕ × SocketInfo) → ℕ → Option SocketInfo → Type 0
After session table fd none =
    (find_info fd (of_others session table) ≡ none)
    × (listed_in (own_proxies session table) fd ≡ false)
After session table fd (some info) =
    (find_info fd (of_others session table)
      ≡ (if info.session_id == session then none else some info))
    × (listed_in (own_proxies session table) fd ≡ (info.session_id == session && info.is_proxy))

module _ (session fd key : ℕ) (info : SocketInfo) (rest : List (ℕ × SocketInfo))
    (other : (key == fd) ≡ false) where
  of_others_skip :
      find_info fd (of_others session ((key, info) ∷ rest)) ≡ find_info fd (of_others session rest)
  unfolding of_others
  of_others_skip =
      if_both (λ t. find_info fd t ≡ find_info fd (of_others session rest))
        (info.session_id == session) refl (rw other refl)

  own_proxies_skip :
      listed_in (own_proxies session ((key, info) ∷ rest)) fd
      ≡ listed_in (own_proxies session rest) fd
  unfolding own_proxies
  own_proxies_skip =
      if_both P (info.session_id == session) (if_both P info.is_proxy (rw other refl) refl) refl
    where
      P : List ℕ → Type 0
      P fds = listed_in fds fd ≡ listed_in (own_proxies session rest) fd

  After-skip :
      (found : Option SocketInfo)
      → After session rest fd found
      → After session ((key, info) ∷ rest) fd found
  After-skip none (h, k) = (of_others_skip ∙ h, own_proxies_skip ∙ k)
  After-skip (some i) (h, k) = (of_others_skip ∙ h, own_proxies_skip ∙ k)

After-found :
    (session fd : ℕ) (info : SocketInfo) (rest : List (ℕ × SocketInfo))
    → After session rest fd none
    → After session ((fd, info) ∷ rest) fd (some info)
unfolding of_others own_proxies
After-found session fd info rest (h, k) =
    (table (info.session_id == session), closed (info.session_id == session) info.is_proxy)
  where
    table :
        (own : Bool)
        → find_info fd (if own then of_others session rest else (fd, info) ∷ of_others session rest)
          ≡ (if own then none else some info)
    table true = h
    table false = rw (eq→== fd fd refl) refl

    closed :
        (own proxy : Bool)
        → listed_in
            (if own
              then (if proxy then fd ∷ own_proxies session rest else own_proxies session rest)
              else own_proxies session rest)
            fd
          ≡ (own && proxy)
    closed true true = rw (eq→== fd fd refl) refl
    closed true false = k
    closed false proxy = k

absent-After :
    (session fd : ℕ) (table : List (ℕ × SocketInfo))
    → find_info fd table ≡ none
    → After session table fd none
unfolding of_others own_proxies
absent-After session fd [] e = (refl, refl)
absent-After session fd ((key, info) ∷ rest) e = elim (Bool-cases (key == fd)) [
  | inl same ↦ absurd (cc (sym (ap (λ b. if b then some info else find_info fd rest) same) ∙ e))
  | inr other ↦ After-skip session fd key info rest other none (
      absent-After session fd rest
        (sym (ap (λ b. if b then some info else find_info fd rest) other) ∙ e))
]

found-After :
    (session fd : ℕ) (table : List (ℕ × SocketInfo)) (info : SocketInfo)
    → DistinctKeys table
    → find_info fd table ≡ some info
    → After session table fd (some info)
found-After session fd [] info d e = absurd (cc e)
found-After session fd ((key, i) ∷ rest) info (new, d) e = elim (Bool-cases (key == fd)) [
  | inl same ↦
      let here : some i ≡ some info =
        sym (ap (λ b. if b then some i else find_info fd rest) same) ∙ e in
      subst (After session ((key, i) ∷ rest) fd) here (
        subst (λ k. After session ((k, i) ∷ rest) fd (some i)) (sym (==→eq key fd same))
          (After-found session fd i rest (
            absent-After session fd rest
              (ap (λ k. find_info k rest) (sym (==→eq key fd same)) ∙ new))))
  | inr other ↦ After-skip session fd key i rest other (some info) (
      found-After session fd rest info d
        (sym (ap (λ b. if b then some i else find_info fd rest) other) ∙ e))
]

-- What the end of a session leaves of a descriptor with an entry: of its own nothing, and no proxy socket if it had one; of another
-- session all.
abbrev pub Ended : BsdMitmService → BsdMitmService → ℕ → SocketInfo → Type 0
Ended s s' fd info =
    (find_info fd s'.socket_info ≡ (if info.session_id == s.session_id then none else some info))
    × (get_proxy_socket s'.manager fd ≡ (
        if info.session_id == s.session_id && info.is_proxy
        then none
        else get_proxy_socket s.manager fd))

-- The destructor of a session, where no descriptor has two entries or two proxy sockets and at most 64 proxy sockets exist: the
-- session's own entries are gone and its proxied descriptors have no proxy socket any more; the entries of the other sessions and
-- the proxy sockets of all other known descriptors stay.
pub clean_up_session-Ended :
    (s : BsdMitmService) (fd : ℕ) (info : SocketInfo)
    → IsValid s.manager
    → DistinctKeys s.socket_info
    → find_info fd s.socket_info ≡ some info
    → IsValid (clean_up_session s).0.manager × Ended s (clean_up_session s).0 fd info
unfolding clean_up_session
clean_up_session-Ended s fd info v d e =
    let closed = close_fds-Without (own_proxies s.session_id s.socket_info) s.manager v in
    let (left, gone) = found-After s.session_id fd s.socket_info info d e in
    (
      closed.valid,
      (left, closed.lookups fd ∙ ap (λ b. if b then none else get_proxy_socket s.manager fd) gone),
    )
