-- ===== src/Manager/Lookup.antt =====
-- What creating and closing sockets does to the table.
use sys_slp_client.Base.{
  ℕ, zero, suc, ◌≤◌, ◌<◌, ◌≡◌, ◌≢◌, refl, sym, ap, ◌∙◌, Bool, true, false, ◌==◌, leb, if◌then◌else◌,
  Option, none, some, List, [], ◌∷◌, length, arith, Bool-cases, Option-cases, inl, inr, ==→eq,
  eq→==, ne→==_false, ==_false→ne, leb→le,
}
use sys_slp_client.Net.BsdTypes.{SocketType, ProtocolType}
use sys_slp_client.Socket.State.{ProxySocket, Outgoing, new_socket}
use sys_slp_client.Socket.Teardown.{close}
use sys_slp_client.Manager.State.{ProxySocketManager, Entry, max_proxy_sockets}
use sys_slp_client.Manager.Sockets.{
  find_fd, erase_fd, insert_at, create_proxy_socket, create_if_absent, get_proxy_socket,
  close_proxy_socket, close_found, without_port, get_active_socket_count,
}

-- No file descriptor stands twice in the table.
abbrev pub Distinct : List Entry → Type 0
Distinct [] = Unit
Distinct ((fd, _) ∷ es) = (find_fd es fd ≡ none) × Distinct es

-- A hash table within its limit.
pub record IsValid (m : ProxySocketManager) : Type 0 where
  pub distinct : Distinct m.sockets
  pub within : length m.sockets ≤ max_proxy_sockets

some_none {ℓ} : {A : Type ℓ} {a : A} {B : Type 0} → some a ≡ none → B
some_none e = absurd (cc e)

find_fd_here :
    (key fd : ℕ) (s : ProxySocket) (es : List Entry)
    → key == fd ≡ true
    → find_fd ((key, s) ∷ es) fd ≡ some s
find_fd_here key fd s es h = rw h

find_fd_later :
    (key fd : ℕ) (s : ProxySocket) (es : List Entry)
    → key == fd ≡ false
    → find_fd ((key, s) ∷ es) fd ≡ find_fd es fd
find_fd_later key fd s es h = rw h

pub find_fd-insert_at :
    (place fd : ℕ) (s : ProxySocket) (es : List Entry)
    → find_fd es fd ≡ none
    → find_fd (insert_at place (fd, s) es) fd ≡ some s
find_fd-insert_at zero fd s es h = rw (eq→== fd fd refl)
find_fd-insert_at (suc place) fd s [] h = rw (eq→== fd fd refl)
find_fd-insert_at (suc place) fd s ((key, t) ∷ es) h = elim (Bool-cases (key == fd)) [
  | inl same ↦ some_none (sym (find_fd_here key fd t es same) ∙ h)
  | inr other ↦
      rw other (find_fd-insert_at place fd s es (sym (find_fd_later key fd t es other) ∙ h))
]

find_fd-insert_at_ne :
    (place fd fd' : ℕ) (s : ProxySocket) (es : List Entry)
    → fd ≢ fd'
    → find_fd (insert_at place (fd, s) es) fd' ≡ find_fd es fd'
find_fd-insert_at_ne zero fd fd' s es h = rw (ne→==_false fd fd' h)
find_fd-insert_at_ne (suc place) fd fd' s [] h = rw (ne→==_false fd fd' h)
find_fd-insert_at_ne (suc place) fd fd' s ((key, t) ∷ es) h =
    ap (λ o. if key == fd' then some t else o) (find_fd-insert_at_ne place fd fd' s es h)

length-insert_at :
    (place : ℕ) (e : Entry) (es : List Entry) → length (insert_at place e es) ≡ suc (length es)
length-insert_at zero e es = refl
length-insert_at (suc place) e [] = refl
length-insert_at (suc place) e (x ∷ es) = ap suc (length-insert_at place e es)

insert_at-Distinct :
    (place fd : ℕ) (s : ProxySocket) (es : List Entry)
    → find_fd es fd ≡ none
    → Distinct es
    → Distinct (insert_at place (fd, s) es)
insert_at-Distinct zero fd s es h d = (h, d)
insert_at-Distinct (suc place) fd s [] h d = (refl, tt)
insert_at-Distinct (suc place) fd s ((key, t) ∷ es) h d = elim (Bool-cases (key == fd)) [
  | inl same ↦ some_none (sym (find_fd_here key fd t es same) ∙ h)
  | inr other ↦ (
    find_fd-insert_at_ne place fd key s es (λ e. ==_false→ne key fd other (sym e)) ∙ d.0,
    insert_at-Distinct place fd s es (sym (find_fd_later key fd t es other) ∙ h) d.1,
  )
]

-- What `CreateProxySocket` answers, and leaves.
pub data Created (m : ProxySocketManager) (fd : ℕ) (type : SocketType) (protocol : ProtocolType)
    : Option ProxySocket × ProxySocketManager → Type 0 where
  existing :
      (s : ProxySocket) → get_proxy_socket m fd ≡ some s → Created m fd type protocol (some s, m)
  full :
      get_proxy_socket m fd ≡ none
      → max_proxy_sockets ≤ get_active_socket_count m
      → Created m fd type protocol (none, m)
  fresh :
      (m' : ProxySocketManager)
      → get_proxy_socket m fd ≡ none
      → IsValid m'
      → ((fd' : ℕ)
          → get_proxy_socket m' fd'
            ≡ (if fd == fd' then some (new_socket type protocol) else get_proxy_socket m fd'))
      → get_active_socket_count m' ≡ suc (get_active_socket_count m)
      → m'.port_pool ≡ m.port_pool
      → Created m fd type protocol (some (new_socket type protocol), m')

module _ (m : ProxySocketManager) (place fd : ℕ) (type : SocketType) (protocol : ProtocolType)
    (v : IsValid m) where
  abbrev inserted : ProxySocketManager
  inserted = record m { sockets = insert_at place (fd, new_socket type protocol) m.sockets }

  lookups :
      find_fd m.sockets fd ≡ none
      → (fd' : ℕ)
      → get_proxy_socket inserted fd'
        ≡ (if fd == fd' then some (new_socket type protocol) else get_proxy_socket m fd')
  unfolding get_proxy_socket
  lookups e fd' = elim (Bool-cases (fd == fd')) [
    | inl same ↦ rw same (
        ap (find_fd inserted.sockets) (sym (==→eq fd fd' same))
        ∙ find_fd-insert_at place fd (new_socket type protocol) m.sockets e)
    | inr other ↦ rw other (
        find_fd-insert_at_ne place fd fd' (new_socket type protocol) m.sockets
          (==_false→ne fd fd' other))
  ]

  inserted-Created :
      find_fd m.sockets fd ≡ none
      → length m.sockets < max_proxy_sockets
      → Created m fd type protocol (some (new_socket type protocol), inserted)
  unfolding get_proxy_socket get_active_socket_count
  inserted-Created e h =
      fresh inserted e
        (record {
          distinct = insert_at-Distinct place fd (new_socket type protocol) m.sockets e v.distinct;
          within = omega (arith, length-insert_at place (fd, new_socket type protocol) m.sockets);
        })
        (lookups e) (length-insert_at place (fd, new_socket type protocol) m.sockets) refl

  -- CreateProxySocket on a table without duplicates and within its limit: an existing socket is returned and nothing changes; with 64
  -- sockets a new one is refused and nothing changes; otherwise the table gains exactly the file descriptor with a fresh
  -- socket, and stays without duplicates and within its limit.
  pub create_proxy_socket_lem :
      Created m fd type protocol (create_proxy_socket m place fd type protocol)
  unfolding create_proxy_socket create_if_absent get_proxy_socket get_active_socket_count
  create_proxy_socket_lem = elim (Option-cases (find_fd m.sockets fd)) [
    | inl e ↦ rw e (elim (Bool-cases (leb max_proxy_sockets (length m.sockets))) [
      | inl at_limit ↦ rw at_limit (full e (leb→le max_proxy_sockets (length m.sockets) at_limit))
      | inr room ↦ rw room (inserted-Created e (ground arith))
    ])
    | inr (s, e) ↦ rw e (existing s e)
  ]

find_fd-erase_fd : (es : List Entry) (fd : ℕ) → Distinct es → find_fd (erase_fd es fd) fd ≡ none
find_fd-erase_fd [] fd d = refl
find_fd-erase_fd ((key, s) ∷ es) fd d = elim (Bool-cases (key == fd)) [
  | inl same ↦ rw same (ap (find_fd es) (sym (==→eq key fd same)) ∙ d.0)
  | inr other ↦ rw (other, other) (find_fd-erase_fd es fd d.1)
]

find_fd-erase_fd_ne :
    (es : List Entry) (fd fd' : ℕ) → fd ≢ fd' → find_fd (erase_fd es fd) fd' ≡ find_fd es fd'
find_fd-erase_fd_ne [] fd fd' h = refl
find_fd-erase_fd_ne ((key, s) ∷ es) fd fd' h = elim (Bool-cases (key == fd)) [
  | inl same ↦ rw (same, ne→==_false key fd' (λ e. h (sym (==→eq key fd same) ∙ e)))
  | inr other ↦
      rw other (ap (λ o. if key == fd' then some s else o) (find_fd-erase_fd_ne es fd fd' h))
]

length-erase_fd :
    (es : List Entry) (fd : ℕ) (s : ProxySocket)
    → find_fd es fd ≡ some s
    → suc (length (erase_fd es fd)) ≡ length es
length-erase_fd [] fd s e = some_none (sym e)
length-erase_fd ((key, t) ∷ es) fd s e = elim (Bool-cases (key == fd)) [
  | inl same ↦ rw same
  | inr other ↦
      rw other (ap suc (length-erase_fd es fd s (sym (find_fd_later key fd t es other) ∙ e)))
]

erase_fd-Distinct : (es : List Entry) (fd : ℕ) → Distinct es → Distinct (erase_fd es fd)
erase_fd-Distinct [] fd d = tt
erase_fd-Distinct ((key, s) ∷ es) fd d = elim (Bool-cases (key == fd)) [
  | inl same ↦ rw same d.1
  | inr other ↦ rw other (
    find_fd-erase_fd_ne es fd key (λ e. ==_false→ne key fd other (sym e)) ∙ d.0,
    erase_fd-Distinct es fd d.1,
  )
]

-- What `CloseProxySocket` answers, and leaves.
pub data Closed (m : ProxySocketManager) (fd : ℕ)
    : Bool × ProxySocketManager × List Outgoing → Type 0 where
  unknown : get_proxy_socket m fd ≡ none → Closed m fd (false, m, [])
  known :
      (s : ProxySocket) (m' : ProxySocketManager)
      → get_proxy_socket m fd ≡ some s
      → IsValid m'
      → ((fd' : ℕ) → get_proxy_socket m' fd' ≡ (if fd == fd' then none else get_proxy_socket m fd'))
      → suc (get_active_socket_count m') ≡ get_active_socket_count m
      → m'.port_pool ≡ without_port m.port_pool s
      → Closed m fd (true, m', (close s).1)

module _ (m : ProxySocketManager) (fd : ℕ) (v : IsValid m) where
  abbrev erased : ProxySocket → ProxySocketManager
  erased s = record m { port_pool = without_port m.port_pool s; sockets = erase_fd m.sockets fd }

  erased_lookups :
      (s : ProxySocket) (fd' : ℕ)
      → get_proxy_socket (erased s) fd' ≡ (if fd == fd' then none else get_proxy_socket m fd')
  unfolding get_proxy_socket
  erased_lookups s fd' = elim (Bool-cases (fd == fd')) [
    | inl same ↦ rw same (
        ap (find_fd (erase_fd m.sockets fd)) (sym (==→eq fd fd' same))
        ∙ find_fd-erase_fd m.sockets fd v.distinct)
    | inr other ↦ rw other (find_fd-erase_fd_ne m.sockets fd fd' (==_false→ne fd fd' other))
  ]

  pub close_proxy_socket_lem : Closed m fd (close_proxy_socket m fd)
  unfolding close_proxy_socket close_found get_proxy_socket get_active_socket_count
  close_proxy_socket_lem = elim (Option-cases (find_fd m.sockets fd)) [
    | inl e ↦ rw e (unknown e)
    | inr (s, e) ↦ rw e (
        known s (erased s) e
          (record {
            distinct = erase_fd-Distinct m.sockets fd v.distinct;
            within = omega (arith, length-erase_fd m.sockets fd s e, v.within);
          })
          (erased_lookups s) (length-erase_fd m.sockets fd s e) refl)
  ]
