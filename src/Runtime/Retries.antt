-- ===== src/Runtime/Retries.antt =====
-- slp_runtime.cpp, RunLoop: keepalives that fail.
use sys_slp_client.Base.{
  ℕ, ◌+◌, ◌-◌, ◌*◌, ◌<◌, ◌≡◌, inl, inr, refl, ap, ◌∙◌, Bool, true, false, not, ◌||◌, ◌==◌, ltb, leb,
  if◌then◌else◌, Option, none, some, List, [], ◌∷◌, ◌++◌, Bool-cases, if_both, if_no, if_yes,
  leb→le, leb_false→lt, arith, All, length, drop,
}
use sys_slp_client.Client.Connection.{
  SentDatagram, type_auth_me, client_handle_auth_me, client_recv,
}
use sys_slp_client.Tunnel.Codec.{type_ping}
use sys_slp_client.Runtime.{Runtime}
use sys_slp_client.Runtime.Loop.{
  LoopState, Round, Effect, sent, reopened, ldn_tick, tunnelled, keepalive_interval_ms, to_list,
  keepalive_failed, keepalive_due, keepalive_part, received_part, round, run_loop,
}
use sys_slp_client.Runtime.Reconnecting.{round-Proper}

-- The new sockets that were asked for.
unfoldable pub reopens : List Effect → ℕ
reopens [] = 0
reopens (sent _ ∷ es) = reopens es
reopens (reopened _ ∷ es) = reopens es + 1
reopens (ldn_tick ∷ es) = reopens es
reopens (tunnelled _ _ ∷ es) = reopens es

-- The rounds that come ten seconds or more after the last keepalive.
unfoldable pub due_rounds : ℕ → List Round → ℕ
due_rounds last [] = 0
due_rounds last (i ∷ is) =
    let due = due_rounds i.now is in
    let rest = due_rounds last is in
    if leb keepalive_interval_ms (i.now - last) then due + 1 else rest

reopens-append : (es fs : List Effect) → reopens (es ++ fs) ≡ reopens es + reopens fs
unfolding reopens
reopens-append [] fs = omega arith
reopens-append (sent _ ∷ es) fs = reopens-append es fs
reopens-append (reopened _ ∷ es) fs = omega (arith, reopens-append es fs)
reopens-append (ldn_tick ∷ es) fs = reopens-append es fs
reopens-append (tunnelled _ _ ∷ es) fs = reopens-append es fs

-- The failures that are counted after a round, or told by a new socket.
abbrev Counted : ℕ → ℕ → List Effect × LoopState → Type 0
Counted fails last x =
    (reopens x.0 * 3 + x.1.keepalive_fails ≡ fails)
    × (x.1.keepalive_fails < 3)
    × (x.1.last_keepalive ≡ last)

keepalive_failed-Counted :
    (i : Round) (l : LoopState)
    → l.keepalive_fails < 3
    → Counted (l.keepalive_fails + 1) l.last_keepalive (keepalive_failed i l)
unfolding keepalive_failed reopens
keepalive_failed-Counted i l h = elim (Bool-cases (leb 3 (l.keepalive_fails + 1))) [
  | inl third ↦ rw third (omega (arith, leb→le 3 _ third), omega arith, refl)
  | inr early ↦ rw early (omega arith, omega (arith, leb_false→lt 3 _ early), refl)
]

keepalive_part-Counted :
    (i : Round) (l : LoopState)
    → i.keepalive_sent ≡ false
    → l.keepalive_fails < 3
    → (let due = leb keepalive_interval_ms (i.now - l.last_keepalive) in
        Counted
          (if due then l.keepalive_fails + 1 else l.keepalive_fails)
          (if due then i.now else l.last_keepalive)
          (keepalive_part i l))
unfolding keepalive_part keepalive_due reopens
keepalive_part-Counted i l lost h =
    elim (Bool-cases (leb keepalive_interval_ms (i.now - l.last_keepalive))) [
      | inl due ↦ rw due (
          if_no (Counted (l.keepalive_fails + 1) i.now) i.keepalive_sent _ _ lost
            (keepalive_failed-Counted i (record l { last_keepalive = i.now }) h))
      | inr early ↦ rw early (omega arith, h, refl)
    ]

to_list-NoReopens : (o : Option SentDatagram) → reopens (to_list o) ≡ 0
unfolding reopens
to_list-NoReopens none = refl
to_list-NoReopens (some d) = refl

or_not : (b c : Bool) → c ≡ false → (b || not c) ≡ true
or_not true c e = refl
or_not false c e = ap not e

sum_rounds :
    (due : Bool) (rounds : ℕ → ℕ) (f f' f'' r r' now last last' : ℕ)
    → r * 3 + f' ≡ (if due then f + 1 else f)
    → last' ≡ (if due then now else last)
    → r' * 3 + f'' ≡ f' + rounds last'
    → (r + r') * 3 + f'' ≡ f + (if due then rounds now + 1 else rounds last)
sum_rounds true rounds f f' f'' r r' now last last' e e' k = omega (arith, e, k, ap rounds e')
sum_rounds false rounds f f' f'' r r' now last last' e e' k = omega (arith, e, k, ap rounds e')

abbrev pub CountedIn : ℕ → ℕ → List Effect × LoopState → Type 0
CountedIn fails due x =
    (reopens x.0 * 3 + x.1.keepalive_fails ≡ fails + due) × (x.1.keepalive_fails < 3)

module _ (sha1 : List ℕ → List ℕ) where
  abbrev NoReopens : Bool × List Effect × Runtime → Type 0
  NoReopens x = reopens x.1 ≡ 0

  received_part-NoReopens :
      (got : Option (ℕ × List ℕ)) (r : Runtime) → NoReopens (received_part sha1 got r)
  unfolding received_part reopens
  received_part-NoReopens none r = refl
  received_part-NoReopens (some (type, frame)) r = if_both NoReopens (type == type_ping) refl (
      if_both NoReopens (type == type_auth_me)
        (to_list-NoReopens (client_handle_auth_me sha1 (drop 1 frame) r.client))
        (if_both NoReopens (ltb 1 (length frame)) refl refl))

  round-again :
      (i : Round) (l : LoopState) → l.runtime.stop_signalled ≡ false → (round sha1 i l).0 ≡ true
  unfolding round
  round-again i l free = or_not _ l.runtime.stop_signalled free

  round-Counted :
      (i : Round) (l : LoopState)
      → i.keepalive_sent ≡ false
      → l.keepalive_fails < 3
      → (let due = leb keepalive_interval_ms (i.now - l.last_keepalive) in
          Counted
            (if due then l.keepalive_fails + 1 else l.keepalive_fails)
            (if due then i.now else l.last_keepalive)
            ((round sha1 i l).1, (round sha1 i l).2))
  unfolding round reopens
  round-Counted i l lost h =
      let (sum, low, last) = keepalive_part-Counted i l lost h in
      let kept = keepalive_part i l in
      let quiet = received_part-NoReopens (client_recv i.received) kept.1.runtime in
      (
        rw
            (
              reopens-append kept.0
                  (ldn_tick ∷ (received_part sha1 (client_recv i.received) kept.1.runtime).1),
              quiet,
            )
            (omega (arith, sum)),
        low,
        last,
      )

  -- The loop over rounds in which no keepalive can be sent, while nobody stops it, from a count of less than 3 failures: the
  -- failures counted at the end, with 3 for each new socket that was asked for, are those at the start and one for each round
  -- that came 10 seconds or more after the last attempt; and the count stays below 3.
  pub run_loop-CountedIn :
      (is : List Round) (l : LoopState)
      → All (λ i. i.keepalive_sent ≡ false) is
      → l.runtime.thread_running ≡ true
      → l.runtime.stop_signalled ≡ false
      → l.keepalive_fails < 3
      → CountedIn l.keepalive_fails (due_rounds l.last_keepalive is) (run_loop sha1 is l)
  unfolding run_loop due_rounds reopens
  run_loop-CountedIn [] l lost running free h = (omega arith, h)
  run_loop-CountedIn (i ∷ is) l (lost, more) running free h =
      let due = leb keepalive_interval_ms (i.now - l.last_keepalive) in
      let (_, es, l') = round sha1 i l in
      let rest = run_loop sha1 is l' in
      let (kept, _) = round-Proper sha1 i l in
      let (sum, low, last) = round-Counted i l lost h in
      let (total, below) =
        run_loop-CountedIn is l' more (kept.running ∙ running) (kept.signalled ∙ free) low in
      let P = CountedIn l.keepalive_fails (due_rounds l.last_keepalive (i ∷ is)) in
      if_no P (not l.runtime.thread_running) ([], l) _ (ap not running)
        (if_yes P (round sha1 i l).0 (es ++ rest.0, rest.1) (es, l') (round-again i l free)
          (
            ap (λ n. n * 3 + rest.1.keepalive_fails) (reopens-append es rest.0)
                ∙ sum_rounds due (λ t. due_rounds t is) l.keepalive_fails l'.keepalive_fails
                    rest.1.keepalive_fails (reopens es) (reopens rest.0) i.now l.last_keepalive
                    l'.last_keepalive sum last total,
            below,
          ))
