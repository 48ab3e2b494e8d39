-- ===== src/Service/Sessions.antt =====
-- bsd_mitm_service.cpp: which sessions are intercepted, in ShouldMitm and the destructor.
use sys_slp_client.Base.{ℕ, ◌+◌, ◌-◌, ◌%◌, Bool, true, false, not, ◌==◌, leb, if◌then◌else◌}

-- `g_mitm_pid_skipped` and `g_mitm_pid_live`; a process without an entry has false and 0.
pub record Sessions : Type 0 where
  pub skipped : ℕ → Bool
  pub live : ℕ → ℕ

abbrev pub no_sessions : Sessions
no_sessions = record { skipped = λ _. false; live = λ _. 0 }

abbrev pub set_at {ℓ} : {A : Type ℓ} → ℕ → A → (ℕ → A) → ℕ → A
set_at key x f k = if key == k then x else f k

abbrev pub our_program_id : ℕ
our_program_id = 0x4200000000000011

-- `running` tells of the runtime, `is_application` what `IsApplicationId` says of the program.
unfoldable pub should_mitm : Bool → Bool → ℕ → ℕ → Sessions → Bool × Sessions
should_mitm running is_application program_id pid s =
    if not running
    then (false, s)
    else if program_id == our_program_id
    then (false, s)
    else if not is_application
    then (false, s)
    else if not (s.skipped pid)
    then (false, record s { skipped = set_at pid true s.skipped })
    else (true, record s { live = set_at pid ((s.live pid + 1) % 4294967296) s.live })

-- The destructor's last part, for a session of the process.
unfoldable pub forget_session : ℕ → Sessions → Sessions
forget_session pid s =
    if pid == 0
    then s
    else if s.live pid == 0
    then s
    else if leb (s.live pid) 1
    then record s { skipped = set_at pid false s.skipped; live = set_at pid 0 s.live }
    else record s { live = set_at pid (s.live pid - 1) s.live }
