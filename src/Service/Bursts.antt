-- ===== src/Service/Bursts.antt =====
-- Sessions that come and go.
use sys_slp_client.Base.{
  ℕ, ◌+◌, ◌-◌, ◌%◌, ◌<◌, ◌≡◌, ◌≢◌, inl, inr, refl, subst, Bool, true, false, not, ◌==◌, leb,
  if◌then◌else◌, Bool-cases, ==→eq, if_cases, if_both, if_no, ne→==_false, leb→le, arith,
}
use sys_slp_client.Service.Sessions.{
  Sessions, no_sessions, set_at, our_program_id, should_mitm, forget_session,
}

-- What may happen; `alive` counts the services of each process that are alive. ShouldMitm with true makes one, the destructor ends
-- one.
pub data Step : Sessions → (ℕ → ℕ) → Sessions → (ℕ → ℕ) → Type 0 where
  intercepted :
      (running is_application : Bool) (program_id pid : ℕ) (s : Sessions) (alive : ℕ → ℕ)
      → (should_mitm running is_application program_id pid s).0 ≡ true
      → alive pid + 1 < 4294967296
      → Step s alive
          (should_mitm running is_application program_id pid s).1
          (set_at pid (alive pid + 1) alive)
  passed :
      (running is_application : Bool) (program_id pid : ℕ) (s : Sessions) (alive : ℕ → ℕ)
      → (should_mitm running is_application program_id pid s).0 ≡ false
      → Step s alive (should_mitm running is_application program_id pid s).1 alive
  ended :
      (pid : ℕ) (s : Sessions) (alive : ℕ → ℕ)
      → pid ≢ 0
      → 0 < alive pid
      → Step s alive (forget_session pid s) (set_at pid (alive pid - 1) alive)

pub data Reach : Sessions → (ℕ → ℕ) → Type 0 where
  at_rest : Reach no_sessions (λ _. 0)
  more :
      (s s' : Sessions) (alive alive' : ℕ → ℕ)
      → Reach s alive
      → Step s alive s' alive'
      → Reach s' alive'

-- The count is that of the services alive, and a process with one has had its first session passed on.
pub record IsCounted (s : Sessions) (alive : ℕ → ℕ) : Type 0 where
  pub count : (pid : ℕ) → s.live pid ≡ alive pid
  pub first : (pid : ℕ) → 0 < alive pid → s.skipped pid ≡ true

set_at-same :
    (f g : ℕ → ℕ) (key a b k : ℕ) → a ≡ b → f k ≡ g k → set_at key a f k ≡ set_at key b g k
set_at-same f g key a b k e h = rw (e, h) refl

-- The three ends of ShouldMitm.
pub data Decided (pid : ℕ) (s : Sessions) : Bool × Sessions → Type 0 where
  unchanged : Decided pid s (false, s)
  dummy :
      s.skipped pid ≡ false
      → Decided pid s (false, record s { skipped = set_at pid true s.skipped })
  accepted_session :
      s.skipped pid ≡ true
      → Decided pid s (true, record s { live = set_at pid ((s.live pid + 1) % 4294967296) s.live })

should_mitm-Decided :
    (running is_application : Bool) (program_id pid : ℕ) (s : Sessions)
    → Decided pid s (should_mitm running is_application program_id pid s)
unfolding should_mitm
should_mitm-Decided running is_application program_id pid s =
    if_both (Decided pid s) (not running) unchanged (
      if_both (Decided pid s) (program_id == our_program_id) unchanged (
        if_both (Decided pid s) (not is_application) unchanged (
          if_cases (Decided pid s) (not (s.skipped pid)) _ _ (λ e. dummy (not_true _ e))
            (λ e. accepted_session (not_no _ e)))))
  where
    not_true : (b : Bool) → not b ≡ true → b ≡ false
    not_true true e = cc e
    not_true false e = refl

    not_no : (b : Bool) → not b ≡ false → b ≡ true
    not_no true e = refl
    not_no false e = cc e

module _ (pid : ℕ) (s : Sessions) (alive : ℕ → ℕ) (h : IsCounted s alive) where
  accepted-IsCounted :
      (r : Bool × Sessions)
      → Decided pid s r
      → r.0 ≡ true
      → alive pid + 1 < 4294967296
      → IsCounted r.1 (set_at pid (alive pid + 1) alive)
  accepted-IsCounted _ unchanged e low = absurd (cc e)
  accepted-IsCounted _ (dummy _) e low = absurd (cc e)
  accepted-IsCounted _ (accepted_session skipped) e low = record {
    count = λ k. set_at-same s.live alive pid _ _ k (omega (arith, h.count pid, low)) (h.count k);
    first = λ k some. elim (Bool-cases (pid == k)) [
      | inl same ↦ subst (λ q. s.skipped q ≡ true) (==→eq pid k same) skipped
      | inr other ↦ h.first k (subst (λ b. 0 < (if b then alive pid + 1 else alive k)) other some)
    ];
  }

  passed-IsCounted : (r : Bool × Sessions) → Decided pid s r → r.0 ≡ false → IsCounted r.1 alive
  passed-IsCounted _ unchanged e = h
  passed-IsCounted _ (dummy _) e = record {
    count = h.count;
    first = λ k some. if_both (λ b. b ≡ true) (pid == k) refl (h.first k some);
  }
  passed-IsCounted _ (accepted_session _) e = absurd (cc e)

ended-IsCounted :
    (pid : ℕ) (s : Sessions) (alive : ℕ → ℕ)
    → IsCounted s alive
    → pid ≢ 0
    → 0 < alive pid
    → IsCounted (forget_session pid s) (set_at pid (alive pid - 1) alive)
unfolding forget_session
ended-IsCounted pid s alive h some_pid some = if_no P (pid == 0) _ _ (ne→==_false pid 0 some_pid) (
    if_no P (s.live pid == 0) _ _
      (ne→==_false (s.live pid) 0 (λ z. absurd (omega (arith, z, h.count pid, some))))
      (if_cases P (leb (s.live pid) 1) _ _
        (λ single.
          let one : alive pid ≡ 1 =
            omega (arith, leb→le (s.live pid) 1 single, h.count pid, some) in
          record {
            count = λ k.
                set_at-same s.live alive pid 0 (alive pid - 1) k (omega (arith, one)) (h.count k);
            first = λ k more_alive. elim (Bool-cases (pid == k)) [
              | inl same ↦
                  let none_left =
                    subst (λ b. 0 < (if b then alive pid - 1 else alive k)) same more_alive in
                  absurd (omega (arith, one, none_left))
              | inr other ↦ rw other (
                  h.first k
                    (subst (λ b. 0 < (if b then alive pid - 1 else alive k)) other more_alive))
            ];
          })
        (λ several. record {
          count = λ k. set_at-same s.live alive pid _ _ k (omega (arith, h.count pid)) (h.count k);
          first = λ k more_alive. elim (Bool-cases (pid == k)) [
            | inl same ↦ subst (λ q. s.skipped q ≡ true) (==→eq pid k same) (h.first pid some)
            | inr other ↦
                h.first k (subst (λ b. 0 < (if b then alive pid - 1 else alive k)) other more_alive)
          ];
        })))
  where
    P : Sessions → Type 0
    P s' = IsCounted s' (set_at pid (alive pid - 1) alive)

Step-IsCounted :
    (s s' : Sessions) (alive alive' : ℕ → ℕ)
    → IsCounted s alive
    → Step s alive s' alive'
    → IsCounted s' alive'
Step-IsCounted s _ alive _ h (intercepted running app program pid _ _ e low) =
    accepted-IsCounted pid s alive h _ (should_mitm-Decided running app program pid s) e low
Step-IsCounted s _ alive _ h (passed running app program pid _ _ e) =
    passed-IsCounted pid s alive h _ (should_mitm-Decided running app program pid s) e
Step-IsCounted s _ alive _ h (ended pid _ _ some_pid some) =
    ended-IsCounted pid s alive h some_pid some

-- However ShouldMitm is asked and services end, with fewer than 2^32 services at a time and none of process 0 among those that
-- end: a process's live count is the number of its services that are alive, and while one is, its skip is remembered.
pub Reach-IsCounted : (s : Sessions) (alive : ℕ → ℕ) → Reach s alive → IsCounted s alive
Reach-IsCounted _ _ at_rest = record {
  count = λ pid. refl;
  first = λ pid some. absurd (omega (arith, some));
}
Reach-IsCounted _ _ (more s s' alive alive' r step) =
    Step-IsCounted s s' alive alive' (Reach-IsCounted s alive r) step
