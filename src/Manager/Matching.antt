-- ===== src/Manager/Matching.antt =====
-- Which sockets a datagram reaches.
use sys_slp_client.Base.{
  ℕ, zero, suc, ◌+◌, ◌≡◌, refl, sym, ap, ◌∙◌, Bool, true, false, if◌then◌else◌, List, [], ◌∷◌, map,
  arith, Bool-cases, inl, inr,
}
use sys_slp_client.Ring.{modify}
use sys_slp_client.Socket.State.{ProxySocket}
use sys_slp_client.Manager.State.{Entry}
use sys_slp_client.Manager.Routing.{find_all_from, deliver_entry, deliver_to}

-- The first `n` sockets that pass a test changed, in place.
abbrev pub change_first :
    ℕ → (ProxySocket → Bool) → (ProxySocket → ProxySocket) → List Entry → List Entry
change_first zero test f es = es
change_first (suc n) test f [] = []
change_first (suc n) test f ((fd, s) ∷ es) =
    if test s
    then (fd, f s) ∷ change_first n test f es
    else (fd, s) ∷ change_first (suc n) test f es

-- Whether a socket passes the test.
abbrev pub any : (ProxySocket → Bool) → List Entry → Bool
any test [] = false
any test ((_, s) ∷ es) = if test s then true else any test es

module _ (test : ProxySocket → Bool) where
  -- Places count on from the first.
  find_all_from-shift :
      (room pos : ℕ) (es : List Entry)
      → find_all_from test room (pos + 1) es ≡ map suc (find_all_from test room pos es)
  unfolding find_all_from
  find_all_from-shift zero pos [] = refl
  find_all_from-shift (suc room) pos [] = refl
  find_all_from-shift zero pos (e ∷ es) = refl
  find_all_from-shift (suc room) pos ((fd, s) ∷ es) = elim (Bool-cases (test s)) [
    | inl hit ↦ rw hit (λ i. at i ∷ find_all_from-shift room (pos + 1) es i)
    | inr miss ↦ rw miss (find_all_from-shift (suc room) (pos + 1) es)
  ]
    where
      at : pos + 1 ≡ suc pos
      at = omega arith

  module _ (f : ProxySocket → ProxySocket) where
    deliver_to-later :
        (places : List ℕ) (e : Entry) (es : List Entry)
        → deliver_to f (map suc places) (e ∷ es) ≡ e ∷ deliver_to f places es
    deliver_to-later [] e es = refl
    deliver_to-later (p ∷ places) e es = deliver_to-later places e (modify es p (deliver_entry f))

    -- Delivering to the found places changes the first sockets that pass.
    pub deliver_to-find_all :
        (room : ℕ) (es : List Entry)
        → deliver_to f (find_all_from test room 0 es) es ≡ change_first room test f es
    unfolding find_all_from
    deliver_to-find_all zero [] = refl
    deliver_to-find_all (suc room) [] = refl
    deliver_to-find_all zero (e ∷ es) = refl
    deliver_to-find_all (suc room) ((fd, s) ∷ es) = elim (Bool-cases (test s)) [
      | inl hit ↦
          rw (hit, find_all_from-shift room 0 es)
            (deliver_to-later (find_all_from test room 0 es) (fd, f s) es
              ∙ ap (◌∷◌ (fd, f s)) (deliver_to-find_all room es))
      | inr miss ↦
          rw (miss, find_all_from-shift (suc room) 0 es)
            (deliver_to-later (find_all_from test (suc room) 0 es) (fd, s) es
              ∙ ap (◌∷◌ (fd, s)) (deliver_to-find_all (suc room) es))
    ]

  any_hit :
      (fd : ℕ) (s : ProxySocket) (es : List Entry) → test s ≡ true → any test ((fd, s) ∷ es) ≡ true
  any_hit fd s es e = rw e

  any_miss :
      (fd : ℕ) (s : ProxySocket) (es : List Entry)
      → test s ≡ false
      → any test ((fd, s) ∷ es) ≡ any test es
  any_miss fd s es e = rw e

  pub any-find_all :
      (room pos : ℕ) (es : List Entry) → any test es ≡ false → find_all_from test room pos es ≡ []
  unfolding find_all_from
  any-find_all zero pos [] h = refl
  any-find_all (suc room) pos [] h = refl
  any-find_all zero pos (e ∷ es) h = refl
  any-find_all (suc room) pos ((fd, s) ∷ es) h = elim (Bool-cases (test s)) [
    | inl hit ↦ absurd (cc (any_hit fd s es hit, h))
    | inr miss ↦ rw miss (any-find_all (suc room) (pos + 1) es (sym (any_miss fd s es miss) ∙ h))
  ]

  pub any_found :
      (room pos : ℕ) (es : List Entry)
      → any test es ≡ true
      → (p : ℕ) × (rest : List ℕ) × (find_all_from test (suc room) pos es ≡ p ∷ rest)
  unfolding find_all_from
  any_found room pos [] h = absurd (cc h)
  any_found room pos ((fd, s) ∷ es) h = elim (Bool-cases (test s)) [
    | inl hit ↦ (pos, find_all_from test room (pos + 1) es, rw hit refl)
    | inr miss ↦
        let r = any_found room (pos + 1) es (sym (any_miss fd s es miss) ∙ h) in
        (r.0, r.1, rw miss r.2)
  ]
