-- ===== src/Controller.antt =====
-- src/SimulationController.cc: the controller's side of the session with all workers, and the file
-- of the merged results.
--
-- The workers are links: the replies and the data message that each of them has sent or will send,
-- what the library's calls for its data connection return, and what `new char[1024]` holds. A reply
-- that never comes blocks the controller.
pub mod Commands
pub mod Collection
pub mod Merge
mod Tests
use key_value_cluster_perf.Base.{
  ℕ, ◌+◌, Bytes, List, [], ◌∷◌, ◌++◌, Option, none, some, same, codes, if◌then◌else◌, ℤ, negsuc,
  eq_ℤ,
}
use key_value_cluster_perf.Buffer.{c_string}
use key_value_cluster_perf.Configuration.{read_string}
use key_value_cluster_perf.Decimal.{print_int}
use key_value_cluster_perf.Mq.{
  Mq, Outcome, done, blocked, ◌>>=◌, DestroyResult, new_mq, open_socket, connect, close_socket,
  destroy,
}
use key_value_cluster_perf.StdMap.{StringMap, at}
use key_value_cluster_perf.Transfer.{Connection, receive_data_from_worker}

pub record Link : Type 0 where
  pub replies : List Bytes
  pub message : Option Bytes
  pub connection : Connection
  pub buffer : Bytes

abbrev pub queues : List Link → List (List Bytes)
queues [] = []
queues (l ∷ ls) = l.replies ∷ queues ls

-- SimulationController::sendAllNodes: the commands that each worker has been sent, in order.
unfoldable pub send_all_nodes : Bytes → List (List Bytes) → List (List Bytes)
send_all_nodes command [] = []
send_all_nodes command (sent ∷ others) = (sent ++ (command ∷ [])) ∷ send_all_nodes command others

-- SimulationController::getAllNodes: the replies that are left, and how many were wrong. A wrong
-- reply is only printed.
unfoldable pub get_all_nodes : Bytes → List (List Bytes) → Outcome (List (List Bytes) × ℕ)
get_all_nodes expected [] = done ([], 0)
get_all_nodes expected ([] ∷ others) = blocked
get_all_nodes expected ((reply ∷ replies) ∷ others) = do
  rest ← get_all_nodes expected others
  done (replies ∷ rest.0, (if same reply expected then 0 else 1) + rest.1)

pub record Collected : Type 0 where
  pub all_results : List StringMap
  pub data_hosts : List Bytes
  pub stray : ℕ

-- The loop of `run` that gets the results back; GETRESULTS is sent in the same round.
unfoldable pub collect : List Bytes → List Link → Outcome Collected
collect data_hosts [] = done (record { all_results = []; data_hosts = data_hosts; stray = 0 })
collect data_hosts (l ∷ ls) = do
  received ← receive_data_from_worker l.connection data_hosts l.buffer l.message
  rest ← collect received.1 ls
  done (record {
    all_results = read_string (c_string received.0.cells) ∷ rest.all_results;
    data_hosts = rest.data_hosts;
    stray = received.0.stray + rest.stray;
  })

-- One line of the file.
csv_line : StringMap → Bytes
csv_line r =
    at r (codes "hostname")
    ++ (b','
        ∷ (at r (codes "objects")
            ++ (b','
                ∷ (at r (codes "size") ++ (b',' ∷ (at r (codes "duration") ++ (b'\n' ∷ [])))))))

csv_lines : List StringMap → Bytes
unfolding csv_line
csv_lines [] = []
csv_lines (r ∷ rs) = csv_line r ++ csv_lines rs

-- SimulationController::mergeResults: the contents of the file.
unfoldable pub merge_results : List StringMap → Bytes
unfolding csv_lines
merge_results results =
    codes "Hostname, Loaded objects, Total data size, Time duration\n" ++ csv_lines results

-- The name of the file: `configured` is mConfiguration->simulationIteration, and `member` the
-- controller's own simulationIteration, which no code sets.
unfoldable pub results_file : ℤ → ℤ → Bytes
results_file configured member =
    if eq_ℤ configured (negsuc 0)
    then codes "results.csv"
    else codes "results" ++ (print_int member ++ codes ".csv")

pub record Report : Type 0 where
  pub sent : List (List Bytes)
  pub wrong : ℕ
  pub collected : Collected
  pub file : Bytes
  pub merged : Bytes

-- The commands that were sent to workers of which none has been sent any.
abbrev pub no_commands : List Link → List (List Bytes)
no_commands [] = []
no_commands (l ∷ ls) = [] ∷ no_commands ls

-- The command connections, one to each command host.
unfoldable pub connect_all : List Connection → Outcome (List Mq)
unfolding new_mq open_socket connect
connect_all [] = done []
connect_all (z ∷ zs) = do
  mq ← new_mq z.created
  opened ← open_socket mq z.opened
  _ ← connect opened z.attached
  rest ← connect_all zs
  done (opened ∷ rest)

-- SimulationController::~SimulationController, with what zmq_ctx_destroy returns for each. The
-- sockets that the loop closes are those of copies of the list's elements.
unfoldable pub close_all : List Mq → List DestroyResult → Outcome (Unit {0})
unfolding close_socket destroy
close_all [] results = done tt
close_all (mq ∷ mqs) [] = blocked
close_all (mq ∷ mqs) (result ∷ results) = do
  closed ← close_socket mq
  _ ← destroy closed result
  close_all mqs results

-- SimulationController::run
unfoldable pub run : ℤ → ℤ → List Connection → List Bytes → List Link → Outcome Report
run configured member commands data_hosts links = do
  _ ← connect_all commands
  let asked_init = send_all_nodes (codes "INIT") (no_commands links)
  initialised ← get_all_nodes (codes "INITDONE") (queues links)
  let asked_go = send_all_nodes (codes "GO") asked_init
  ready ← get_all_nodes (codes "RESULTSREADY") initialised.0
  let asked_results = send_all_nodes (codes "GETRESULTS") asked_go
  collected ← collect data_hosts links
  reported ← get_all_nodes (codes "DONERESULTS") ready.0
  let asked_exit = send_all_nodes (codes "EXIT") asked_results
  exiting ← get_all_nodes (codes "EXITING") reported.0
  done (record {
    sent = asked_exit;
    wrong = initialised.1 + (ready.1 + (reported.1 + exiting.1));
    collected = collected;
    file = results_file configured member;
    merged = merge_results collected.all_results;
  })
