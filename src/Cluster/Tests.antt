-- ===== src/Cluster/Tests.antt =====
-- A controller over one worker.
use key_value_cluster_perf.Base.{
  ℕ, ◌+◌, Bytes, [], ◌∷◌, some, ◌≡◌, refl, codes, true, less, pos, negsuc, arith,
}
use key_value_cluster_perf.StdMap.{insert, lookup, at}
use key_value_cluster_perf.Configuration.{write_string}
use key_value_cluster_perf.Connector.{
  run, load, limit_passed, put_value, get_value, key_of, transmit, run_entries,
}
use key_value_cluster_perf.Decimal.{print_nat}
use key_value_cluster_perf.Mq.{done, live}
use key_value_cluster_perf.Results.{get_results}
use key_value_cluster_perf.Transfer.{buffer_size, fill_buffer}
use key_value_cluster_perf.Worker.{SimulatorState, ConnectorPointer, Turn, new_connector}
use key_value_cluster_perf.Worker.Protocol.{listen_protocol}
use key_value_cluster_perf.Controller.{Link, connect_all, merge_results, results_file}
use key_value_cluster_perf.Controller.Commands.{each, protocol_replies}
use key_value_cluster_perf.Cluster.{
  Node, IsServed, node_results, links, all_node_results, run-listen,
}
use key_value_cluster_perf.Samples.{
  construction, constructs, world, codec, broker, connection, connection-IsUp, platform-IsPlain,
  garbage, length-garbage,
}

abbrev array : Bytes
array = garbage buffer_size

abbrev turn : Bytes → Turn ℕ
turn request = record {
  request = request;
  files = some (
      record { path = codes "/OCDB/a.root"; regular = true; payload = 1 ∷ 2 ∷ []; elapsed = 7 }
      ∷ []);
  connection = connection;
  buffer = array;
  body = array;
  construction = construction;
}

abbrev text : Bytes
text = codes "duration=7\nhostname=node1\nobjects=1\nsize=2"

abbrev message : Bytes
message = (fill_buffer array text).cells

abbrev node : Node world
node = record {
  stored = [];
  init_turn = turn (codes "INIT");
  go_turn = turn (codes "GO");
  results_turn = turn (codes "GETRESULTS");
  exit_turn = turn (codes "EXIT");
  text = text;
  session = record {
    worker = record { state = SimulatorState.exit; connector = ConnectorPointer.deleted };
    stored = (run codec broker ◌+◌ (new_connector world) [] (turn (codes "GO")).files).1;
    replies = protocol_replies;
    sent = record { cells = message; stray = 0 } ∷ [];
  };
  link = record {
    replies = protocol_replies;
    message = some message;
    connection = connection;
    buffer = array;
  };
}

node_written : write_string (node_results world node) ≡ some text
unfolding write_string get_results insert less lookup at print_nat run run_entries transmit load
    limit_passed put_value get_value key_of
node_written = refl

node-IsServed : IsServed world node
node-IsServed = record {
  protocol = record { first = refl; second = refl; third = refl; fourth = refl };
  ran =
      listen_protocol world [] (turn (codes "INIT")) (turn (codes "GO")) (turn (codes "GETRESULTS"))
        (turn (codes "EXIT")) [] text
        (record { first = refl; second = refl; third = refl; fourth = refl }) constructs
        connection-IsUp (length-garbage buffer_size) (length-garbage buffer_size) node_written;
  replies = refl;
  message = refl;
  worker_up = connection-IsUp;
  worker_array = length-garbage buffer_size;
  worker_body = length-garbage buffer_size;
  controller_up = connection-IsUp;
  controller_array = length-garbage buffer_size;
  written = node_written;
  short = omega arith;
}

connected :
    connect_all (connection ∷ [])
    ≡ done (record { context = live; socket = live; open_sockets = 1 } ∷ [])
unfolding connect_all
connected = refl

run-listen_example :
    key_value_cluster_perf.Controller.run
      (negsuc 0)
      (pos 0)
      (connection ∷ [])
      (codes "tcp://*:6001" ∷ [])
      (links world (node ∷ []))
    ≡ done (record {
      sent =
          each
            (codes "INIT" ∷ codes "GO" ∷ codes "GETRESULTS" ∷ codes "EXIT" ∷ [])
            (links world (node ∷ []));
      wrong = 0;
      collected = record {
        all_results = all_node_results world (node ∷ []);
        data_hosts = [];
        stray = 1;
      };
      file = results_file (negsuc 0) (pos 0);
      merged = merge_results (all_node_results world (node ∷ []));
    })
run-listen_example =
    run-listen world platform-IsPlain (negsuc 0) (pos 0) (connection ∷ [])
      (codes "tcp://*:6001" ∷ []) (node ∷ []) _ connected refl (node-IsServed, tt)
