-- ===== src/Cluster.antt =====
-- The controller of src/SimulationController.cc with the workers of src/SimulationWorker.cc behind
-- its sockets: each link carries what a worker's own session gives.
mod Tests
use mathlib.Core.Path.{ap₂}
use key_value_cluster_perf.Base.{
  ℕ, ◌<◌, Bytes, List, [], ◌∷◌, Option, none, some, ◌≡◌, refl, ap, ◌∙◌, sym, All, length, codes, ℤ,
  arith,
}
use key_value_cluster_perf.Buffer.{Buffer}
use key_value_cluster_perf.Configuration.{write_string}
use key_value_cluster_perf.Mq.{Mq, Outcome, done}
use key_value_cluster_perf.Mq.Lifecycle.{done-eq}
use key_value_cluster_perf.Results.{get_results}
use key_value_cluster_perf.Results.Delivery.{IsPlain, results_read}
use key_value_cluster_perf.StdMap.{StringMap}
use key_value_cluster_perf.Transfer.{Connection, buffer_size, fill_buffer}
use key_value_cluster_perf.Transfer.Delivery.{IsUp, fill_buffer_lem}
use key_value_cluster_perf.Worker.{World, Turn, Session, listen, new_worker}
use key_value_cluster_perf.Worker.Protocol.{
  IsProtocol, connector_after_run, listen-Constructs, listen_protocol,
}
use key_value_cluster_perf.Controller.{
  Link, Collected, Report, run, connect_all, merge_results, results_file,
}
use key_value_cluster_perf.Controller.Commands.{each, protocol_replies}
use key_value_cluster_perf.Controller.Collection.{IsReady, read_all, collect-read_all, run_protocol}

module _ (w : World) where
  -- A worker: what the broker's side holds when it starts, the turns of its session, the text of
  -- its results, its session, and the link that the controller has to it.
  pub record Node : Type 0 where
    pub stored : w.broker.State
    pub init_turn : Turn w.Duration
    pub go_turn : Turn w.Duration
    pub results_turn : Turn w.Duration
    pub exit_turn : Turn w.Duration
    pub text : Bytes
    pub session : Session w
    pub link : Link

  abbrev pub node_results : Node → StringMap
  node_results n = get_results w.platform (connector_after_run w n.stored n.go_turn)

  abbrev first_message : List Buffer → Option Bytes
  first_message [] = none
  first_message (b ∷ bs) = some b.cells

  -- The turns are the commands of the controller, the worker's session runs over them, the link
  -- carries its replies and its message, the data connections are up on both sides, the arrays have
  -- their sizes, and the text of the results fits in them.
  pub record IsServed (n : Node) : Type 0 where
    pub protocol : IsProtocol n.init_turn n.go_turn n.results_turn n.exit_turn
    pub ran :
        listen w new_worker n.stored (n.init_turn ∷ n.go_turn ∷ n.results_turn ∷ n.exit_turn ∷ [])
        ≡ Outcome.done n.session
    pub replies : n.link.replies ≡ n.session.replies
    pub message : n.link.message ≡ first_message n.session.sent
    pub worker_up : IsUp n.results_turn.connection
    pub worker_array : length n.results_turn.buffer ≡ buffer_size
    pub worker_body : length n.results_turn.body ≡ buffer_size
    pub controller_up : IsUp n.link.connection
    pub controller_array : length n.link.buffer ≡ buffer_size
    pub written : write_string (node_results n) ≡ some n.text
    pub short : length n.text < buffer_size

  abbrev pub links : List Node → List Link
  links [] = []
  links (n ∷ ns) = n.link ∷ links ns

  abbrev pub all_node_results : List Node → List StringMap
  all_node_results [] = []
  all_node_results (n ∷ ns) = node_results n ∷ all_node_results ns

  module _ (plain : IsPlain w.platform) where
    abbrev array : Node → Buffer
    array n = fill_buffer n.results_turn.buffer n.text

    -- The session of a worker that is served is that of the protocol.
    node_session :
        (n : Node)
        → IsServed n
        → (n.session.replies ≡ protocol_replies)
          × (first_message n.session.sent ≡ some (array n).cells)
    node_session n h =
        let session = done-eq _ _ (
          sym h.ran
          ∙ listen_protocol w n.stored n.init_turn n.go_turn n.results_turn n.exit_turn [] n.text
              h.protocol
              (listen-Constructs w n.stored n.init_turn _ n.session h.protocol.first h.ran)
              h.worker_up h.worker_array h.worker_body h.written) in
        (
          ap (λ (s : Session w). s.replies) session,
          ap (λ (s : Session w). first_message s.sent) session,
        )

    node-IsReady : (n : Node) → IsServed n → IsReady n.link
    node-IsReady n h = record {
      up = h.controller_up;
      array = h.controller_array;
      contents = (array n).cells;
      message = h.message ∙ (node_session n h).1;
      whole = (fill_buffer_lem n.results_turn.buffer n.text h.worker_array).0;
    }

    all-IsReady : (ns : List Node) → All IsServed ns → All IsReady (links ns)
    all-IsReady [] h = tt
    all-IsReady (n ∷ ns) h = (node-IsReady n h.0, all-IsReady ns h.1)

    all_replies :
        (ns : List Node) → All IsServed ns → All (λ l. l.replies ≡ protocol_replies) (links ns)
    all_replies [] h = tt
    all_replies (n ∷ ns) h = (h.0.replies ∙ (node_session n h.0).0, all_replies ns h.1)

    read_all-links :
        (ns : List Node) (h : All IsServed ns)
        → read_all (links ns) (all-IsReady ns h) ≡ all_node_results ns
    unfolding all-IsReady node-IsReady
    read_all-links [] h = refl
    read_all-links (n ∷ ns) h =
        ap₂ ◌∷◌
          (results_read w.platform (connector_after_run w n.stored n.go_turn) n.results_turn.buffer
            n.text plain h.0.worker_array h.0.written h.0.short).0
          (read_all-links ns h.1)

    -- The controller over workers that are served, with a data host for each: no reply is wrong,
    -- each worker is sent INIT, GO, GETRESULTS and EXIT, the collected results are those of the
    -- workers' own runs, in order, the file holds them, and one byte is written outside each array.
    pub run-listen :
        (configured member : ℤ) (commands : List Connection) (data_hosts : List Bytes)
        (ns : List Node) (mqs : List Mq)
        → connect_all commands ≡ done mqs
        → length data_hosts ≡ length (links ns)
        → All IsServed ns
        → run configured member commands data_hosts (links ns)
          ≡ done (record {
            sent =
                each
                  (codes "INIT" ∷ codes "GO" ∷ codes "GETRESULTS" ∷ codes "EXIT" ∷ [])
                  (links ns);
            wrong = 0;
            collected = record {
              all_results = all_node_results ns;
              data_hosts = [];
              stray = length (links ns);
            };
            file = results_file configured member;
            merged = merge_results (all_node_results ns);
          })
    run-listen configured member commands data_hosts ns mqs connected enough h =
        run_protocol configured member commands data_hosts (links ns) connected (all_replies ns h) (
          collect-read_all data_hosts (links ns) (all-IsReady ns h) enough
          ∙ ap
              (λ (rs : List StringMap).
                done (record { all_results = rs; data_hosts = []; stray = length (links ns) }))
              (read_all-links ns h))
