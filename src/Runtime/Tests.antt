-- ===== src/Runtime/Tests.antt =====
-- The runtime at concrete inputs.
use sys_slp_client.Base.{
  ℕ, zero, suc, ◌≡◌, refl, true, false, some, none, List, [], ◌∷◌, length, replicate, arith,
}
use sys_slp_client.Servers.{SlpServer, servers_parse, servers_get}
use sys_slp_client.Client.Connection.{opened, cleared_client, client_handle_auth_me}
use sys_slp_client.Runtime.{Runtime, StartAnswers, start, stop}
use sys_slp_client.Runtime.VirtualIp.{
  FileAnswers, read_persisted_virtual_octets, virtual_ip_text, persisted_text, print_octet,
}
use sys_slp_client.Runtime.Starting.{Outcome, IsStopped, start_lem, start-client_handle_auth_me}
use sys_slp_client.Runtime.Loop.{LoopState, Round, run_loop}
use sys_slp_client.Runtime.Retries.{CountedIn, due_rounds, run_loop-CountedIn}

-- 10.13.100.7
printed :
    virtual_ip_text 100 7
    ≡ b'1' ∷ b'0' ∷ b'.' ∷ b'1' ∷ b'3' ∷ b'.' ∷ b'1' ∷ b'0' ∷ b'0' ∷ b'.' ∷ b'7' ∷ []
unfolding virtual_ip_text print_octet
printed = refl

reserved_file : read_persisted_virtual_octets (some (persisted_text 37 2)) ≡ none
unfolding read_persisted_virtual_octets persisted_text print_octet
reserved_file = refl

-- A blank, then 12.+3
blanks_and_sign :
    read_persisted_virtual_octets (some (32 ∷ b'1' ∷ b'2' ∷ b'.' ∷ b'+' ∷ b'3' ∷ [])) ≡ some (12, 3)
unfolding read_persisted_virtual_octets
blanks_and_sign = refl

-- The first draw is reserved.
abbrev draws : ℕ → ℕ × ℕ
draws zero = (37, 9)
draws (suc i) = (41, 9)

abbrev all_done : FileAnswers
all_done = record { deleted = false; created = true; opened = true; written = true; left = [] }

-- s 10.0.0.1:900 u p
abbrev settings : List ℕ
settings =
    115 ∷ 32 ∷ 49 ∷ 48 ∷ 46 ∷ 48 ∷ 46 ∷ 48 ∷ 46 ∷ 49 ∷ 58 ∷ 57 ∷ 48 ∷ 48 ∷ 32 ∷ 117 ∷ 32 ∷ 112 ∷ []

abbrev server : SlpServer
server = record {
  name = 115 ∷ [];
  host = 49 ∷ 48 ∷ 46 ∷ 48 ∷ 46 ∷ 48 ∷ 46 ∷ 49 ∷ [];
  port = 900;
  username = 117 ∷ [];
  password = 112 ∷ [];
}

parsed : servers_parse settings ≡ server ∷ []
unfolding servers_parse
parsed = refl

abbrev stopped_runtime : Runtime
stopped_runtime = record {
  servers = server ∷ [];
  client = record cleared_client { fd = none };
  sel_index = some 0;
  running = false;
  ip = [];
  relay_ip = 0;
  connected_host = [];
  thread_running = false;
  stop_signalled = false;
  rx_frames = 0;
  tx_frames = 0;
}

abbrev answers : StartAnswers
answers = record {
  resolved = some 0x0100000A;
  socket = some 5;
  bound = true;
  virtual_ip = b'1' ∷ [];
  thread_created = true;
}

abbrev hash : List ℕ → List ℕ
hash m = length m ∷ replicate 19 7

abbrev running : Runtime
running = (start hash answers stopped_runtime).1

stopped_runtime-IsStopped : IsStopped stopped_runtime
stopped_runtime-IsStopped = record { running = refl; socket = refl }

start_lem_example : Outcome answers (some server) (start hash answers stopped_runtime)
unfolding servers_get
start_lem_example = start_lem hash answers stopped_runtime stopped_runtime-IsStopped

start-client_handle_auth_me_example :
    client_handle_auth_me hash (0 ∷ 1 ∷ 2 ∷ []) running.client ≡ none
unfolding start servers_get
start-client_handle_auth_me_example =
    start-client_handle_auth_me hash answers stopped_runtime running (0 ∷ 1 ∷ 2 ∷ [])
      stopped_runtime-IsStopped refl

abbrev looping : LoopState
looping = record {
  runtime = record stopped_runtime {
    client = opened 5 0x0100000A server.host 900;
    thread_running = true;
    running = true;
  };
  last_keepalive = 0;
  keepalive_fails = 0;
}

abbrev round_at : ℕ → Round
round_at now = record {
  now = now;
  keepalive_sent = false;
  socket = some 6;
  bound = true;
  received = some (1 ∷ 2 ∷ 3 ∷ []);
}

abbrev four_rounds : List Round
four_rounds = round_at 10000 ∷ round_at 15000 ∷ round_at 20000 ∷ round_at 30000 ∷ []

three_due : due_rounds 0 four_rounds ≡ 3
unfolding due_rounds
three_due = refl

fresh_socket : (run_loop hash four_rounds looping).1.runtime.client.fd ≡ some 6
unfolding run_loop
fresh_socket = refl

run_loop-CountedIn_example :
    CountedIn 0 (due_rounds 0 four_rounds) (run_loop hash four_rounds looping)
run_loop-CountedIn_example =
    run_loop-CountedIn hash four_rounds looping (refl, (refl, (refl, (refl, tt)))) refl refl
      (omega arith)

stopped_again : (stop running).1.client.fd ≡ none
unfolding stop start servers_get
stopped_again = refl
