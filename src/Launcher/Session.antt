-- ===== src/Launcher/Session.antt =====
-- The program as a controller: what src/KeyValueClusterPerf.cc hands to
-- src/SimulationController.cc.
use mathlib.Core.Path.{subst}
use key_value_cluster_perf.Base.{List, [], Option, ◌≡◌, sym, ◌∙◌, All, length}
use key_value_cluster_perf.Mq.{done}
use key_value_cluster_perf.Controller.{Link, collect}
use key_value_cluster_perf.Controller.Collection.{IsReady, read_all, collect-read_all}
use key_value_cluster_perf.Launcher.{
  ControllerTree, WorkerTree, Configuration, Uninitialised, VariablesMap, Started, main,
}
use key_value_cluster_perf.Launcher.Start.{Justified, main-Justified}

module _ {Double : Type 0} where
  -- Whatever the command line and the files hold, the controller that the program starts, over one
  -- link that is ready for each of its command hosts, reads the results of every link and never
  -- runs out of data hosts.
  pub main-collect :
      (minus_one : Double) (u : Uninitialised Double) (line : Option (VariablesMap Double))
      (controller_file : Option ControllerTree) (worker_file : Option (WorkerTree Double))
      {c : Configuration Double} (links : List Link) (ready : All IsReady links)
      → main minus_one u line controller_file worker_file ≡ Started.controller_runs c
      → length links ≡ length c.hosts.command_hosts
      → collect c.hosts.data_hosts links
        ≡ done
            (record { all_results = read_all links ready; data_hosts = []; stray = length links })
  main-collect minus_one u line controller_file worker_file {c} links ready started one_each =
      let justified =
        subst (Justified line) started
          (main-Justified minus_one u line controller_file worker_file) in
      collect-read_all c.hosts.data_hosts links ready (justified.1 ∙ sym one_each)
