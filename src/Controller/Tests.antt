-- ===== src/Controller/Tests.antt =====
-- The controller over two links with given replies, for the theorems with assumptions.
use mathlib.Core.List.{map}
use key_value_cluster_perf.Base.{
  ◌⊎◌, Bytes, List, [], ◌∷◌, some, ◌≡◌, refl, codes, All, arith, lacks→Lacks,
}
use key_value_cluster_perf.Configuration.{lines}
use key_value_cluster_perf.Mq.{done, undefined, live}
use key_value_cluster_perf.StdMap.{StringMap, at}
use key_value_cluster_perf.Transfer.{buffer_size}
use key_value_cluster_perf.Controller.{Link, collect, connect_all, merge_results}
use key_value_cluster_perf.Controller.Commands.{
  protocol_replies, IsServedBy, IsStuck, get_all_nodes-cases,
}
use key_value_cluster_perf.Controller.Collection.{
  IsReady, read_all, collect-read_all, collect_undefined,
}
use key_value_cluster_perf.Controller.Merge.{columns, lines-merge_results}
use key_value_cluster_perf.Samples.{connection, connection-IsUp, garbage, length-garbage}

abbrev link : Link
link = record {
  replies = protocol_replies;
  message = some (garbage buffer_size);
  connection = connection;
  buffer = garbage buffer_size;
}

link-IsReady : IsReady link
link-IsReady = record {
  up = connection-IsUp;
  array = length-garbage buffer_size;
  contents = garbage buffer_size;
  message = refl;
  whole = length-garbage buffer_size;
}

abbrev links : List Link
links = link ∷ link ∷ []

abbrev ready : All IsReady links
ready = (link-IsReady, (link-IsReady, tt))

abbrev hosts : List Bytes
hosts = codes "tcp://*:6001" ∷ codes "tcp://*:6002" ∷ []

collected :
    collect hosts links
    ≡ done (record { all_results = read_all links ready; data_hosts = []; stray = 2 })
collected = collect-read_all hosts links ready refl

collect_undefined_example : collect (codes "tcp://*:6001" ∷ []) links ≡ undefined
collect_undefined_example = collect_undefined (codes "tcp://*:6001" ∷ []) links ready (omega arith)

connected :
    connect_all (connection ∷ connection ∷ [])
    ≡ done (
        record { context = live; socket = live; open_sockets = 1 }
        ∷ record { context = live; socket = live; open_sockets = 1 }
        ∷ [])
unfolding connect_all
connected = refl

-- The second worker answers a GO before it is ready.
abbrev queued : List (List Bytes)
queued = (codes "DONERESULTS" ∷ []) ∷ [] ∷ []

get_all_nodes-cases_example :
    IsServedBy (codes "RESULTSREADY") queued ⊎ IsStuck (codes "RESULTSREADY") queued
get_all_nodes-cases_example = get_all_nodes-cases (codes "RESULTSREADY") queued

abbrev merged_results : StringMap
merged_results =
    (codes "duration", codes "7")
    ∷ (codes "hostname", codes "node1")
    ∷ (codes "objects", codes "1")
    ∷ (codes "size", codes "2")
    ∷ []

lines-merge_results_example :
    lines (merge_results (merged_results ∷ []))
    ≡ codes "Hostname, Loaded objects, Total data size, Time duration"
      ∷ map columns (merged_results ∷ [])
unfolding at
lines-merge_results_example = lines-merge_results (merged_results ∷ []) (
  record {
    hostname = lacks→Lacks b'\n' (at merged_results (codes "hostname")) refl;
    objects = lacks→Lacks b'\n' (at merged_results (codes "objects")) refl;
    size = lacks→Lacks b'\n' (at merged_results (codes "size")) refl;
    duration = lacks→Lacks b'\n' (at merged_results (codes "duration")) refl;
  },
  tt,
)
