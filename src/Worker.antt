-- ===== src/Worker.antt =====
-- src/SimulationWorker.cc: the worker's loop over the commands of the controller.
pub mod Standing
pub mod Discipline
pub mod Protocol
pub mod Run
pub mod Setup
mod Tests
use key_value_cluster_perf.Base.{
  ◌||◌, ℕ, Bytes, Bool, true, false, List, [], ◌∷◌, ◌++◌, Option, none, some, same, codes,
  if◌then◌else◌, ℤ, ◌≡◌,
}
use key_value_cluster_perf.Buffer.{Buffer}
use key_value_cluster_perf.Broker.{Codec, Broker}
use key_value_cluster_perf.Configuration.{write_string}
use key_value_cluster_perf.Connector.{Connector, Entry, run}
use key_value_cluster_perf.Connector.Lifetime.{Members, new_members}
use key_value_cluster_perf.Mq.{Outcome, ◌>>=◌}
use key_value_cluster_perf.Results.{Platform, get_results as connector_results}
use key_value_cluster_perf.Transfer.{Connection, fill_buffer, send_data_to_controller}

pub data SimulatorState : Type 0 where
  start results exit error done : SimulatorState

-- The pointer to the connector: the constructor leaves it unset, and `delete` leaves it dangling. The
-- destructor of a connector also shuts down the protobuf library of the process: `late` is a connector
-- that was made after that.
pub data ConnectorPointer (T : Type 0) : Type 0 where
  unset : ConnectorPointer T
  live late : Connector T → ConnectorPointer T
  deleted : ConnectorPointer T

pub record Worker (T : Type 0) : Type 0 where
  pub state : SimulatorState
  pub connector : ConnectorPointer T

-- What the worker runs in: the libraries and the machine, and the byte limit and the
-- size of the values of its configuration.
pub record World : Type 1 where
  pub codec : Codec
  pub broker : Broker
  pub Duration : Type 0
  pub plus : Duration → Duration → Duration
  pub no_time : Duration
  pub platform : Platform Duration
  pub bytes_limit : ℤ
  pub value_size : ℤ

-- What the library's calls return when a connector is made, for its own connection and that of its
-- MessageSender, and what the array of its value holds before it is written.
pub record Construction : Type 0 where
  pub connection : Connection
  pub sender : Connection
  pub cells : Bytes

-- One round of the loop, as the worker meets it: the request, the files under the data path, what
-- the library's calls for the data connection return, and what the array and the message held.
pub record Turn (T : Type 0) : Type 0 where
  pub request : Bytes
  pub files : Option (List (Entry T))
  pub connection : Connection
  pub buffer : Bytes
  pub body : Bytes
  pub construction : Construction

-- SimulationWorker::SimulationWorker
abbrev pub new_worker : {T : Type 0} → Worker T
new_worker = record { state = start; connector = unset }

-- The commands, tested in the order of the source.
pub data Command : Type 0 where
  init go get_results restart exit_command unknown : Command

unfoldable pub command_of : Bytes → Command
command_of request =
    if same request (codes "INIT")
    then init
    else if same request (codes "GO")
    then go
    else if same request (codes "GETRESULTS")
    then get_results
    else if same request (codes "RESTART")
    then restart
    else if same request (codes "EXIT")
    then exit_command
    else unknown

-- The test of the loop: (state != EXIT) && (state != ERROR)
unfoldable pub listening : SimulatorState → Bool
listening exit = false
listening error = false
listening _ = true

module _ (w : World) where
  -- The state of the worker and of the broker's side, the reply, and the data message, if any.
  pub record Answer : Type 0 where
    pub worker : Worker w.Duration
    pub stored : w.broker.State
    pub reply : Bytes
    pub sent : Option Buffer

  abbrev answer : Worker w.Duration → w.broker.State → Bytes → Option Buffer → Answer
  answer n s reply sent = record { worker = n; stored = s; reply = reply; sent = sent }

  -- The constructor of a connector: it may end the process, or do what is undefined.
  abbrev pub construct : Construction → Outcome Members
  construct k = new_members k.connection k.sender w.value_size k.cells

  abbrev pub Constructs : Construction → Type 0
  Constructs k = (m : Members) × (construct k ≡ Outcome.done m)

  -- The counters, the duration and the limit of a connector that has been made.
  abbrev pub new_connector : Connector w.Duration
  new_connector = record {
    loaded_objects = 0;
    total_data_size = 0;
    duration = w.no_time;
    bytes_limit = w.bytes_limit;
  }

  -- connector = new DBConnector(_config), which has come back: the connector that was there is not
  -- deleted, and a library that was shut down stays so.
  pub made : ConnectorPointer w.Duration → ConnectorPointer w.Duration
  made unset = live new_connector
  made (live d) = live new_connector
  made (late d) = late new_connector
  made deleted = late new_connector

  -- Is there a file, for which the connector will make messages?
  abbrev pub uses_messages : Option (List (Entry w.Duration)) → Bool
  uses_messages none = false
  uses_messages (some []) = false
  uses_messages (some (e ∷ es)) = let more = uses_messages (some es) in e.regular || more

  -- connector->run()
  run_connector : ConnectorPointer w.Duration → w.broker.State → Turn w.Duration → Outcome Answer
  run_connector (live d) s turn =
      let (d', s', _created) = run w.codec w.broker w.plus d s turn.files in
      Outcome.done
        (answer (record { state = results; connector = live d' }) s' (codes "RESULTSREADY") none)
  run_connector (late d) s turn =
      let (d', s', _created) = run w.codec w.broker w.plus d s turn.files in
      if uses_messages turn.files
      then Outcome.undefined
      else Outcome.done
          (answer (record { state = results; connector = late d' }) s' (codes "RESULTSREADY") none)
  run_connector _ s turn = Outcome.undefined

  -- The text of the results, through the array and over the data connection.
  send_text : Option Bytes → Turn w.Duration → Outcome Buffer
  send_text (some results_data) turn =
      send_data_to_controller turn.connection (fill_buffer turn.buffer results_data).cells turn.body
  send_text none turn = Outcome.undefined

  report_connector :
      ConnectorPointer w.Duration
      → Worker w.Duration
      → w.broker.State
      → Turn w.Duration
      → Outcome Answer
  report_connector (live d) n s turn = do
    message ← send_text (write_string (connector_results w.platform d)) turn
    Outcome.done (answer (record n { connector = deleted }) s (codes "DONERESULTS") (some message))
  report_connector (late d) n s turn = do
    message ← send_text (write_string (connector_results w.platform d)) turn
    Outcome.done (answer (record n { connector = deleted }) s (codes "DONERESULTS") (some message))
  report_connector _ n s turn = Outcome.undefined

  -- The body of the loop.
  pub handle_command :
      Command → Worker w.Duration → w.broker.State → Turn w.Duration → Outcome Answer
  handle_command init n s turn = do
    _ ← construct turn.construction
    Outcome.done (answer (record n { connector = made n.connector }) s (codes "INITDONE") none)
  handle_command go n s turn = run_connector n.connector s turn
  handle_command get_results n s turn = report_connector n.connector n s turn
  handle_command restart n s turn =
      Outcome.done (answer (record n { state = start }) s (codes "RESTARTING") none)
  handle_command exit_command n s turn =
      Outcome.done (answer (record n { state = exit }) s (codes "EXITING") none)
  handle_command unknown n s turn = Outcome.done (answer n s (codes "") none)

  pub record Session : Type 0 where
    pub worker : Worker w.Duration
    pub stored : w.broker.State
    pub replies : List Bytes
    pub sent : List Buffer

  abbrev pub some_of : Option Buffer → List Buffer
  some_of none = []
  some_of (some b) = b ∷ []

  -- The worker has read the turns that it takes, and answered each.
  pub listen : Worker w.Duration → w.broker.State → List (Turn w.Duration) → Outcome Session
  listen n s [] = Outcome.done (record { worker = n; stored = s; replies = []; sent = [] })
  listen n s (turn ∷ turns) = elim (listening n.state) [
    | false ↦ Outcome.done (record { worker = n; stored = s; replies = []; sent = [] })
    | true ↦ do
      a ← handle_command (command_of turn.request) n s turn
      session ← listen a.worker a.stored turns
      Outcome.done (record {
        worker = session.worker;
        stored = session.stored;
        replies = a.reply ∷ session.replies;
        sent = some_of a.sent ++ session.sent;
      })
  ]
