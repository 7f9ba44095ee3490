-- ===== src/Worker/Standing.antt =====
-- How the worker's pointer to its connector stands, and what each command makes of it.
use key_value_cluster_perf.Base.{
  Bytes, codes, Bool-cases, ap, inl, inr, none, not, codes, Bool, true, false, some, ◌≡◌, refl, ◌∙◌,
}
use key_value_cluster_perf.Buffer.{Buffer}
use key_value_cluster_perf.Connector.{Connector, run}
use key_value_cluster_perf.Mq.{Outcome, ◌>>=◌}
use key_value_cluster_perf.Results.{get_results}
use key_value_cluster_perf.Configuration.{write_string}
use key_value_cluster_perf.Results.Delivery.{results_written}
use key_value_cluster_perf.Transfer.Delivery.{IsUp, send_data_done}
use key_value_cluster_perf.Connector.Lifetime.{Members}
use key_value_cluster_perf.Worker.{
  Constructs, SimulatorState, uses_messages, made, ConnectorPointer, Worker, World, Turn, Command,
  Answer, listening, handle_command, send_text, run_connector, report_connector,
}

-- How the worker's pointer stands: no connector yet, one that is usable, one that has been deleted, or
-- one that was made after a deletion, when the protobuf library has been shut down.
pub data Standing : Type 0 where
  never usable ended stale : Standing

abbrev pub standing : {T : Type 0} → ConnectorPointer T → Standing
standing ConnectorPointer.unset = never
standing (ConnectorPointer.live d) = usable
standing (ConnectorPointer.late d) = stale
standing ConnectorPointer.deleted = ended

-- How it stands after a command, and whether the command may be given; the test is whether a GO finds
-- files.
abbrev pub leaves : Command × Bool → Standing → Standing
leaves (Command.init, uses) never = usable
leaves (Command.init, uses) usable = usable
leaves (Command.init, uses) ended = stale
leaves (Command.init, uses) stale = stale
leaves (Command.get_results, uses) q = ended
leaves (_, uses) q = q

abbrev pub allows : Command × Bool → Standing → Bool
allows (Command.go, uses) usable = true
allows (Command.go, uses) stale = not uses
allows (Command.go, uses) _ = false
allows (Command.get_results, uses) usable = true
allows (Command.get_results, uses) stale = true
allows (Command.get_results, uses) _ = false
allows (_, uses) q = true

-- What the worker replies.
abbrev pub reply_to : Command → Bytes
reply_to Command.init = codes "INITDONE"
reply_to Command.go = codes "RESULTSREADY"
reply_to Command.get_results = codes "DONERESULTS"
reply_to Command.restart = codes "RESTARTING"
reply_to Command.exit_command = codes "EXITING"
reply_to Command.unknown = codes ""

abbrev pub stops : Command → Bool
stops Command.exit_command = true
stops _ = false

module _ (w : World) where
  send_text_done :
      (d : Connector w.Duration) (turn : Turn w.Duration)
      → IsUp turn.connection
      → (message : Buffer) × (send_text w (write_string (get_results w.platform d)) turn
          ≡ Outcome.done message)
  unfolding send_text
  send_text_done d turn up =
      let (text, written) = results_written w.platform d in
      rw (written, send_text) (send_data_done turn.connection _ turn.body up)

  abbrev ran_late : Connector w.Duration → w.broker.State → Turn w.Duration → Answer w
  ran_late d s turn =
      let (d', s', _created) = run w.codec w.broker w.plus d s turn.files in
      record {
        worker = record { state = SimulatorState.results; connector = ConnectorPointer.late d' };
        stored = s';
        reply = codes "RESULTSREADY";
        sent = none;
      }

  run_connector_done :
      (q : ConnectorPointer w.Duration) (s : w.broker.State) (turn : Turn w.Duration)
      → allows (Command.go, uses_messages w turn.files) (standing q) ≡ true
      → (a : Answer w) × (run_connector w q s turn ≡ Outcome.done a)
        × (standing a.worker.connector ≡ standing q)
        × (listening a.worker.state ≡ true)
        × (a.reply ≡ codes "RESULTSREADY")
  unfolding run_connector listening
  run_connector_done (ConnectorPointer.live d) s turn h = (_, refl, refl, refl, refl)
  run_connector_done (ConnectorPointer.late d) s turn h =
      elim (Bool-cases (uses_messages w turn.files)) [
        | inl uses ↦ let h' = rw uses at h in cc
        | inr uses_none ↦ (ran_late d s turn, rw uses_none refl, refl, refl, refl)
      ]
  run_connector_done ConnectorPointer.unset s turn h = cc
  run_connector_done ConnectorPointer.deleted s turn h = cc

  abbrev reported : Worker w.Duration → w.broker.State → Buffer → Answer w
  reported n s message = record {
    worker = record n { connector = ConnectorPointer.deleted };
    stored = s;
    reply = codes "DONERESULTS";
    sent = some message;
  }

  made_standing :
      (q : ConnectorPointer w.Duration) (uses : Bool)
      → standing (made w q) ≡ leaves (Command.init, uses) (standing q)
  unfolding made
  made_standing ConnectorPointer.unset uses = refl
  made_standing (ConnectorPointer.live d) uses = refl
  made_standing (ConnectorPointer.late d) uses = refl
  made_standing ConnectorPointer.deleted uses = refl

  report_connector_done :
      (q : ConnectorPointer w.Duration) (n : Worker w.Duration) (s : w.broker.State)
      (turn : Turn w.Duration)
      → IsUp turn.connection
      → allows (Command.get_results, uses_messages w turn.files) (standing q) ≡ true
      → (a : Answer w) × (report_connector w q n s turn ≡ Outcome.done a)
        × (standing a.worker.connector ≡ ended)
        × (a.worker.state ≡ n.state)
        × (a.reply ≡ codes "DONERESULTS")
  unfolding report_connector
  report_connector_done (ConnectorPointer.live d) n s turn up h =
      let (message, sent) = send_text_done d turn up in
      (reported n s message, rw sent refl, refl, refl, refl)
  report_connector_done (ConnectorPointer.late d) n s turn up h =
      let (message, sent) = send_text_done d turn up in
      (reported n s message, rw sent refl, refl, refl, refl)
  report_connector_done ConnectorPointer.unset n s turn up h = cc
  report_connector_done ConnectorPointer.deleted n s turn up h = cc

  abbrev with_connector : Worker w.Duration → w.broker.State → Answer w
  with_connector n s = record {
    worker = record n { connector = made w n.connector };
    stored = s;
    reply = codes "INITDONE";
    sent = none;
  }

  pub handle_command_done :
      (c : Command) (n : Worker w.Duration) (s : w.broker.State) (turn : Turn w.Duration)
      → IsUp turn.connection
      → (c ≡ Command.init → Constructs w turn.construction)
      → listening n.state ≡ true
      → allows (c, uses_messages w turn.files) (standing n.connector) ≡ true
      → (a : Answer w) × (handle_command w c n s turn ≡ Outcome.done a)
        × (standing a.worker.connector
            ≡ leaves (c, uses_messages w turn.files) (standing n.connector))
        × (listening a.worker.state ≡ not (stops c))
        × (a.reply ≡ reply_to c)
  unfolding handle_command listening
  handle_command_done Command.init n s turn up makes on h =
      let (m, made_it) = makes refl in
      (
        with_connector n s,
        ap (λ (o : Outcome Members). o >>= λ _. Outcome.done (with_connector n s)) made_it,
        made_standing n.connector (uses_messages w turn.files),
        on,
        refl,
      )
  handle_command_done Command.go n s turn up makes on h =
      let (a, ran, there, on', reply) = run_connector_done n.connector s turn h in
      (a, ran, there, on', reply)
  handle_command_done Command.get_results n s turn up makes on h =
      let (a, told, gone, still, reply) = report_connector_done n.connector n s turn up h in
      (a, told, gone, ap listening still ∙ on, reply)
  handle_command_done Command.restart n s turn up makes on h = (_, refl, refl, refl, refl)
  handle_command_done Command.exit_command n s turn up makes on h = (_, refl, refl, refl, refl)
  handle_command_done Command.unknown n s turn up makes on h = (_, refl, refl, on, refl)

  run_connector_undefined :
      (q : ConnectorPointer w.Duration) (s : w.broker.State) (turn : Turn w.Duration)
      → allows (Command.go, uses_messages w turn.files) (standing q) ≡ false
      → run_connector w q s turn ≡ Outcome.undefined
  unfolding run_connector
  run_connector_undefined (ConnectorPointer.live d) s turn h = cc
  run_connector_undefined (ConnectorPointer.late d) s turn h =
      elim (Bool-cases (uses_messages w turn.files)) [
        | inl uses ↦ rw uses refl
        | inr uses_none ↦ let h' = rw uses_none at h in cc
      ]
  run_connector_undefined ConnectorPointer.unset s turn h = refl
  run_connector_undefined ConnectorPointer.deleted s turn h = refl

  report_connector_undefined :
      (q : ConnectorPointer w.Duration) (n : Worker w.Duration) (s : w.broker.State)
      (turn : Turn w.Duration)
      → allows (Command.get_results, uses_messages w turn.files) (standing q) ≡ false
      → report_connector w q n s turn ≡ Outcome.undefined
  unfolding report_connector
  report_connector_undefined (ConnectorPointer.live d) n s turn h = cc
  report_connector_undefined (ConnectorPointer.late d) n s turn h = cc
  report_connector_undefined ConnectorPointer.unset n s turn h = refl
  report_connector_undefined ConnectorPointer.deleted n s turn h = refl

  pub handle_command_undefined :
      (c : Command) (n : Worker w.Duration) (s : w.broker.State) (turn : Turn w.Duration)
      → allows (c, uses_messages w turn.files) (standing n.connector) ≡ false
      → handle_command w c n s turn ≡ Outcome.undefined
  unfolding handle_command
  handle_command_undefined Command.go n s turn h = run_connector_undefined n.connector s turn h
  handle_command_undefined Command.get_results n s turn h =
      report_connector_undefined n.connector n s turn h
  handle_command_undefined Command.init n s turn h = cc
  handle_command_undefined _ n s turn h = cc
