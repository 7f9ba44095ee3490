-- ===== src/Network/Sites.antt =====
-- A worker and the controller's connection to it at each stage.
use key_value_cluster_perf.Base.{
  ◌<◌, Bytes, true, List, [], ◌∷◌, ◌++◌, some, codes, ◌≡◌, refl, ap, ◌∙◌, length,
}
use key_value_cluster_perf.Buffer.{Buffer}
use key_value_cluster_perf.Configuration.{write_string}
use key_value_cluster_perf.Connector.{Connector, run}
use key_value_cluster_perf.Connector.Accounting.{run_independent}
use key_value_cluster_perf.Mq.{Outcome}
use key_value_cluster_perf.Results.{get_results}
use key_value_cluster_perf.Transfer.{buffer_size, fill_buffer}
use key_value_cluster_perf.Transfer.Delivery.{IsUp, send_data_lem, fill_buffer_lem}
use key_value_cluster_perf.Worker.{
  World, Worker, SimulatorState, ConnectorPointer, Constructs, Answer, new_worker, new_connector,
  command_of, handle_command, listening, some_of,
}
use key_value_cluster_perf.Worker.Protocol.{
  after_init, after_go, after_report, connector_after_run, step_init, step_go, step_get_results,
  step_exit,
}
use key_value_cluster_perf.Network.{Site, Peer, turn_at, cells_of}
use key_value_cluster_perf.Network.Stages.{
  Stage, fresh, asked_init, initialised, asked_go, ready, asked_results, fetched, reported,
  asked_exit, finished,
}

module _ (w : World) (s₀ : w.broker.State) where
  -- A site as it is meant to be: the command socket of the worker is bound, the constructor of the
  -- connector comes back, the data connections are up on both sides, the arrays and the
  -- message have their sizes, and the text of the results fits in them.
  pub record IsSound (k : Site w) : Type 0 where
    pub bound : k.bound ≡ true
    pub constructs : Constructs w k.construction
    pub worker_up : IsUp k.connection
    pub buffer_length : length k.buffer ≡ buffer_size
    pub body_length : length k.body ≡ buffer_size
    pub link_up : IsUp k.link_connection
    pub link_length : length k.link_buffer ≡ buffer_size
    pub text : Bytes
    pub written :
        write_string (get_results w.platform (connector_after_run w s₀ (turn_at w k (codes "GO"))))
        ≡ some text
    pub short : length text < buffer_size

  module _ (k : Site w) where
    abbrev pub connector : Connector w.Duration
    connector = connector_after_run w s₀ (turn_at w k (codes "GO"))

    abbrev quiet : Worker w.Duration → Peer w
    quiet n = record { commands = []; replies = []; messages = []; worker = n }

    abbrev asked : Bytes → Worker w.Duration → Peer w
    asked command n = record { commands = command ∷ []; replies = []; messages = []; worker = n }

    abbrev replied : Bytes → Worker w.Duration → Peer w
    replied reply n = record { commands = []; replies = reply ∷ []; messages = []; worker = n }

    abbrev started : Worker w.Duration
    started = record {
      state = SimulatorState.start;
      connector = ConnectorPointer.live (new_connector w);
    }

    abbrev has_run : Worker w.Duration
    has_run = record { state = SimulatorState.results; connector = ConnectorPointer.live connector }

    abbrev has_reported : Worker w.Duration
    has_reported = record { state = SimulatorState.results; connector = ConnectorPointer.deleted }

    abbrev pub has_exited : Worker w.Duration
    has_exited = record { state = SimulatorState.exit; connector = ConnectorPointer.deleted }

    -- The peer before the worker has read its last command.
    abbrev pub unanswered : Bytes → Stage → Peer w
    unanswered text fresh = quiet new_worker
    unanswered text asked_init = asked (codes "INIT") new_worker
    unanswered text initialised = quiet started
    unanswered text asked_go = asked (codes "GO") started
    unanswered text ready = quiet has_run
    unanswered text asked_results = asked (codes "GETRESULTS") has_run
    unanswered text fetched = replied (codes "DONERESULTS") has_reported
    unanswered text reported = quiet has_reported
    unanswered text asked_exit = asked (codes "EXIT") has_reported
    unanswered text finished = quiet has_exited

    -- The peer when it has.
    abbrev pub answered : Bytes → Stage → Peer w
    answered text asked_init = replied (codes "INITDONE") started
    answered text asked_go = replied (codes "RESULTSREADY") has_run
    answered text asked_results = record (replied (codes "DONERESULTS") has_reported) {
      messages = (fill_buffer k.buffer text).cells ∷ [];
    }
    answered text asked_exit = replied (codes "EXITING") has_exited
    answered text t = unanswered text t

    -- What a round of the worker makes of the peer.
    abbrev pub worked : Peer w → List Bytes → Answer w → Peer w
    worked p commands a = record {
      commands = commands;
      replies = p.replies ++ (a.reply ∷ []);
      messages = p.messages ++ cells_of w (some_of w a.sent);
      worker = a.worker;
    }

    -- The database after a round: only GO changes it.
    abbrev pub stored_by : Stage → w.broker.State → w.broker.State
    stored_by asked_go stored = (run w.codec w.broker w.plus (new_connector w) stored k.files).1
    stored_by t stored = stored

    abbrev Works : Bytes → Stage → w.broker.State → Bytes → List Bytes → Type 0
    Works text t stored command commands =
        let p = unanswered text t in
        (a : Answer w) × (handle_command w (command_of command) p.worker stored
            (turn_at w k command)
          ≡ Outcome.done a)
        × (listening p.worker.state ≡ true)
        × (worked p commands a ≡ answered text t)
        × (a.stored ≡ stored_by t stored)

    -- A worker that has a command waiting is able to do it, whatever the database holds, and the
    -- peer comes to be answered.
    pub work-answered :
        (sound : IsSound k) (t : Stage) (stored : w.broker.State) (command : Bytes)
        (commands : List Bytes)
        → (unanswered sound.text t).commands ≡ command ∷ commands
        → Works sound.text t stored command commands
    unfolding listening
    work-answered sound asked_init stored command commands h =
        let e : command ≡ codes "INIT" = cc in
        let r : commands ≡ [] = cc in
        (
          _,
          step_init w new_worker stored (turn_at w k command) sound.constructs refl e,
          refl,
          ap
              (λ (cs : List Bytes).
                worked (asked (codes "INIT") new_worker) cs (after_init w new_worker stored))
              r,
          refl,
        )
    work-answered sound asked_go stored command commands h =
        let e : command ≡ codes "GO" = cc in
        let r : commands ≡ [] = cc in
        (
          _,
          step_go w started stored (turn_at w k command) refl e,
          refl,
          ap
                (λ (cs : List Bytes).
                  worked (asked (codes "GO") started) cs (after_go w stored (turn_at w k command)))
                r
              ∙ ap
                  (λ (d : Connector w.Duration). replied (codes "RESULTSREADY") (record {
                    state = SimulatorState.results;
                    connector = ConnectorPointer.live d;
                  }))
                  (run_independent w.codec w.broker w.plus (new_connector w) stored s₀ k.files),
          refl,
        )
    work-answered sound asked_results stored command commands h =
        let e : command ≡ codes "GETRESULTS" = cc in
        let r : commands ≡ [] = cc in
        let message : Buffer = record {
          cells = (fill_buffer k.buffer sound.text).cells;
          stray = 0;
        } in
        (
          _,
          step_get_results w has_run stored (turn_at w k command) connector sound.text message refl
              e sound.written
              (send_data_lem k.connection _ k.body sound.worker_up
                (fill_buffer_lem k.buffer sound.text sound.buffer_length).0 sound.body_length),
          refl,
          ap
              (λ (cs : List Bytes).
                worked (asked (codes "GETRESULTS") has_run) cs
                  (after_report w has_run stored message))
              r,
          refl,
        )
    work-answered sound asked_exit stored command commands h =
        let e : command ≡ codes "EXIT" = cc in
        let r : commands ≡ [] = cc in
        (
          _,
          step_exit w has_reported stored (turn_at w k command) e,
          refl,
          ap (λ (cs : List Bytes). record (answered sound.text asked_exit) { commands = cs }) r,
          refl,
        )
    work-answered sound fresh stored command commands h = cc
    work-answered sound initialised stored command commands h = cc
    work-answered sound ready stored command commands h = cc
    work-answered sound fetched stored command commands h = cc
    work-answered sound reported stored command commands h = cc
    work-answered sound finished stored command commands h = cc
