-- ===== src/Network.antt =====
-- The controller of src/SimulationController.cc and the workers of src/SimulationWorker.cc as
-- processes that run at the same time: between them are queues, and which process moves next is
-- open.
--
-- A step of the controller is one call of its `run` that sends or receives, a step of a worker one
-- round of its loop. The queues are those of the ZeroMQ pair sockets, which keep the order and lose
-- nothing. A fetch takes its message from the worker whose data address is the first of the data
-- hosts, whichever worker was sent GETRESULTS. All workers use one broker, and its state is shared;
-- the requests of one round are not mixed with those of another worker's round: that is Interleaved.
pub mod Stages
pub mod Sites
pub mod Calls
pub mod Program
pub mod Staged
pub mod Rounds
pub mod Invariant
pub mod Preserved
pub mod Totals
pub mod Progress
pub mod Liveness
pub mod Collected
pub mod Refinement
pub mod Shared
pub mod Database
pub mod Requests
pub mod Interleaved
pub mod Lingering
pub mod Sample
use key_value_cluster_perf.Base.{
  ℕ, zero, suc, ◌+◌, ◌<◌, Bytes, Bool, true, List, [], ◌∷◌, ◌++◌, Option, some, same, codes,
  if◌then◌else◌, ◌≡◌, ◌==◌,
}
use key_value_cluster_perf.Buffer.{Buffer, c_string}
use key_value_cluster_perf.Configuration.{read_string}
use key_value_cluster_perf.Connector.{Entry}
use key_value_cluster_perf.Mq.{Outcome}
use key_value_cluster_perf.StdMap.{StringMap}
use key_value_cluster_perf.Transfer.{Connection, receive_data_from_worker}
use key_value_cluster_perf.Worker.{
  Construction, World, Worker, Turn, Answer, new_worker, listening, command_of, handle_command,
  some_of,
}

-- The calls that SimulationController::run makes on the connections of worker `i`.
pub data Action : Type 0 where
  send get : (i : ℕ) → Bytes → Action
  fetch : (i : ℕ) → Action

-- The loops of sendAllNodes and getAllNodes over the nodes from `i` on, of which `k` are left.
unfoldable pub send_from : Bytes → ℕ → ℕ → List Action
send_from command i zero = []
send_from command i (suc k) = send i command ∷ send_from command (suc i) k

unfoldable pub get_from : Bytes → ℕ → ℕ → List Action
get_from expected i zero = []
get_from expected i (suc k) = get i expected ∷ get_from expected (suc i) k

-- The loop that gets the results back.
unfoldable pub fetch_from : ℕ → ℕ → List Action
fetch_from i zero = []
fetch_from i (suc k) = send i (codes "GETRESULTS") ∷ (fetch i ∷ fetch_from (suc i) k)

-- The calls of SimulationController::run over `n` nodes, in order.
unfoldable pub session : ℕ → List Action
unfolding send_from get_from fetch_from
session n =
    send_from (codes "INIT") 0 n
    ++ (get_from (codes "INITDONE") 0 n
        ++ (send_from (codes "GO") 0 n
            ++ (get_from (codes "RESULTSREADY") 0 n
                ++ (fetch_from 0 n
                    ++ (get_from (codes "DONERESULTS") 0 n
                        ++ (send_from (codes "EXIT") 0 n ++ get_from (codes "EXITING") 0 n))))))

abbrev pub update {ℓ} : {A : Type ℓ} → (ℕ → A) → ℕ → A → ℕ → A
update f i a j = if i == j then a else f j

module _ (w : World) where
  -- What one worker and the controller's connection to it meet: the address of its data port, the
  -- files under the data path, what the library's calls for the data connection return on both
  -- sides and when the connector is made, what the arrays and the message hold before they are
  -- written, and whether zmq_bind bound the command socket: a worker whose socket is not bound
  -- receives nothing.
  pub record Site : Type 0 where
    pub data_address : Bytes
    pub files : Option (List (Entry w.Duration))
    pub connection : Connection
    pub buffer : Bytes
    pub body : Bytes
    pub link_connection : Connection
    pub link_buffer : Bytes
    pub construction : Construction
    pub bound : Bool

  abbrev pub turn_at : Site → Bytes → Turn w.Duration
  turn_at k request = record {
    request = request;
    files = k.files;
    connection = k.connection;
    buffer = k.buffer;
    body = k.body;
    construction = k.construction;
  }

  -- A worker, the commands on their way to it, and its replies and data messages on their way to
  -- the controller.
  pub record Peer : Type 0 where
    pub commands : List Bytes
    pub replies : List Bytes
    pub messages : List Bytes
    pub worker : Worker w.Duration

  pub record System : Type 0 where
    pub program : List Action
    pub data_hosts : List Bytes
    pub all_results : List StringMap
    pub stray : ℕ
    pub wrong : ℕ
    pub stored : w.broker.State
    pub peers : ℕ → Peer

  abbrev pub cells_of : List Buffer → List Bytes
  cells_of [] = []
  cells_of (b ∷ bs) = b.cells ∷ cells_of bs

  abbrev pub after_send : System → List Action → ℕ → Bytes → System
  after_send s rest i command =
      let p = s.peers i in
      record s {
        program = rest;
        peers = update s.peers i (record p { commands = p.commands ++ (command ∷ []) });
      }

  -- A wrong reply is only printed.
  abbrev pub after_get : System → List Action → ℕ → Bytes → Bytes → List Bytes → System
  after_get s rest i expected reply replies = record s {
    program = rest;
    wrong = s.wrong + (if same reply expected then 0 else 1);
    peers = update s.peers i (record (s.peers i) { replies = replies });
  }

  abbrev pub after_fetch : System → List Action → ℕ → List Bytes → Buffer → List Bytes → System
  after_fetch s rest i messages received hosts = record s {
    program = rest;
    data_hosts = hosts;
    all_results = s.all_results ++ (read_string (c_string received.cells) ∷ []);
    stray = s.stray + received.stray;
    peers = update s.peers i (record (s.peers i) { messages = messages });
  }

  abbrev pub after_work : System → ℕ → List Bytes → Answer w → System
  after_work s i commands a =
      let p = s.peers i in
      record s {
        stored = a.stored;
        peers = update s.peers i (record {
          commands = commands;
          replies = p.replies ++ (a.reply ∷ []);
          messages = p.messages ++ cells_of (some_of w a.sent);
          worker = a.worker;
        });
      }

  module _ (sites : ℕ → Site) (n : ℕ) where
    pub data Step (s : System) : System → Type 0 where
      send :
          (i : ℕ) {command : Bytes} {rest : List Action}
          → s.program ≡ Action.send i command ∷ rest
          → Step s (after_send s rest i command)
      get :
          (i : ℕ) {expected reply : Bytes} {replies : List Bytes} {rest : List Action}
          → s.program ≡ Action.get i expected ∷ rest
          → (s.peers i).replies ≡ reply ∷ replies
          → Step s (after_get s rest i expected reply replies)
      fetch :
          (i : ℕ) {j : ℕ} {message host : Bytes} {messages others hosts : List Bytes}
          {received : Buffer} {rest : List Action}
          → s.program ≡ Action.fetch i ∷ rest
          → s.data_hosts ≡ host ∷ others
          → j < n
          → (sites j).data_address ≡ host
          → (s.peers j).messages ≡ message ∷ messages
          → receive_data_from_worker
              (sites i).link_connection
              s.data_hosts
              (sites i).link_buffer
              (some message)
            ≡ Outcome.done (received, hosts)
          → Step s (after_fetch s rest j messages received hosts)
      work :
          (i : ℕ) {command : Bytes} {commands : List Bytes} {a : Answer w}
          → i < n
          → (sites i).bound ≡ true
          → listening (s.peers i).worker.state ≡ true
          → (s.peers i).commands ≡ command ∷ commands
          → handle_command w
              (command_of command)
              (s.peers i).worker
              s.stored
              (turn_at (sites i) command)
            ≡ Outcome.done a
          → Step s (after_work s i commands a)

    -- All processes are at their beginning, and no message is on its way.
    abbrev pub start : List Bytes → w.broker.State → System
    start hosts stored = record {
      program = session n;
      data_hosts = hosts;
      all_results = [];
      stray = 0;
      wrong = 0;
      stored = stored;
      peers = λ i. record { commands = []; replies = []; messages = []; worker = new_worker };
    }

    -- Executions of some number of steps.
    pub data Steps (s : System) : ℕ → System → Type 0 where
      here : Steps s 0 s
      next : {k : ℕ} {t u : System} → Steps s k t → Step t u → Steps s (suc k) u
