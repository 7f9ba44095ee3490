-- ===== src/Launcher/Tests.antt =====
-- The program at a command line, and at two hosts of three nodes.
use key_value_cluster_perf.Base.{[], ◌∷◌, some, ◌≡◌, refl, arith, length, pos}
use key_value_cluster_perf.Mq.{done}
use key_value_cluster_perf.Transfer.{buffer_size}
use key_value_cluster_perf.Controller.{Link, collect}
use key_value_cluster_perf.Controller.Collection.{IsReady, read_all}
use key_value_cluster_perf.Launcher.{parsed, HostLists, add_hosts, Started, main, or_else}
use key_value_cluster_perf.Launcher.Hosts.{host_elements, all_data_addresses}
use key_value_cluster_perf.Launcher.Counts.{add_hosts_limit}
use key_value_cluster_perf.Launcher.Start.{worker_tree, configured, main-configured}
use key_value_cluster_perf.Launcher.Session.{main-collect}
use key_value_cluster_perf.Samples.{connection, connection-IsUp, garbage, length-garbage}
use key_value_cluster_perf.Launcher.Sample.{hosts, hosts-PortsFit, vm, settings, junk, vm-IsRole}

add_hosts_limit_example :
    (lists : HostLists) × (add_hosts
        (pos 2)
        (host_elements hosts)
        (record { command_hosts = []; data_hosts = [] })
      ≡ parsed lists)
    × (length lists.command_hosts ≡ 4)
add_hosts_limit_example = add_hosts_limit 1 hosts hosts-PortsFit (omega arith, (omega arith, tt))

main-configured_example :
    main 0 junk
      (some vm)
      (some (record { hosts = some (host_elements hosts) }))
      (some (worker_tree settings))
    ≡ Started.controller_runs (configured 0 vm hosts settings)
main-configured_example = main-configured 0 junk vm hosts settings vm-IsRole hosts-PortsFit

abbrev link : Link
link = record {
  replies = [];
  message = some (garbage buffer_size);
  connection = connection;
  buffer = garbage buffer_size;
}

link-IsReady : IsReady link
link-IsReady = record {
  up = connection-IsUp;
  array = length-garbage buffer_size;
  contents = garbage buffer_size;
  message = refl;
  whole = length-garbage buffer_size;
}

main-collect_example :
    collect (all_data_addresses (pos 1) hosts) (link ∷ link ∷ [])
    ≡ done (record {
      all_results = read_all (link ∷ link ∷ []) (link-IsReady, (link-IsReady, tt));
      data_hosts = [];
      stray = 2;
    })
unfolding or_else
main-collect_example =
    main-collect 0 junk (some vm) (some (record { hosts = some (host_elements hosts) }))
      (some (worker_tree settings)) (link ∷ link ∷ []) (link-IsReady, (link-IsReady, tt))
      main-configured_example refl
