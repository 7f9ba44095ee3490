-- ===== src/Launcher/Workers/Tests.antt =====
-- A controller and two workers, each started from its command line.
use key_value_cluster_perf.Base.{
  List, inr, Bytes, ℤ, ◌+ℤ◌, zero, suc, drop, ◌++◌, get_elem?, ℕ, ◌<◌, lacks→Lacks, negsuc, true,
  false, [], ◌∷◌, none, some, codes, ◌≡◌, refl, All, arith, pos,
}
use key_value_cluster_perf.Controller.{Report}
use key_value_cluster_perf.Launcher.Distinct.{HasName}
use key_value_cluster_perf.Launcher.Apart.{entry_at, all_data_addresses-Distinct}
use key_value_cluster_perf.Launcher.Benchmark.{AreAt, config, data_hosts, Distinct-AreHosts}
use key_value_cluster_perf.Launcher.Places.{all_places}
use key_value_cluster_perf.Launcher.Workers.{
  PortsApart, Naming, Process, IsWorker, place_of, data_endpoint, bound_endpoint, IsStarted,
  AreWorkers, main-cluster,
}
use key_value_cluster_perf.Network.{Site}
use key_value_cluster_perf.Network.Sites.{IsSound}
use key_value_cluster_perf.Network.Sample.{site_at, site_at-IsSound, connected}
use key_value_cluster_perf.Network.Program.{numbered}
use key_value_cluster_perf.Network.Collected.{results_at, exited}
use key_value_cluster_perf.Network.Refinement.{RunGives}
use key_value_cluster_perf.Network.Interleaved.{Mixture, opening, Steps, here}
use key_value_cluster_perf.Network.Interleaved.Ends.{interleaved_completes}
use key_value_cluster_perf.Samples.{world, platform-IsPlain, connection}
use key_value_cluster_perf.Launcher.{VariablesMap, Started, main, or_else, address}
use key_value_cluster_perf.Launcher.Hosts.{Host, PortsFit, host_elements, all_data_addresses}
use key_value_cluster_perf.Launcher.Role.{IsRole}
use key_value_cluster_perf.Launcher.Start.{worker_tree, configured}
use key_value_cluster_perf.Launcher.Sample.{settings, junk}
use key_value_cluster_perf.Launcher.Sample

-- Two of the three nodes of one host.
abbrev hosts : List Host
hosts = record { node = codes "10.0.0.1"; command = pos 3000; port = pos 4000; nodes = pos 3 } ∷ []

hosts-PortsFit : All PortsFit hosts
hosts-PortsFit = ((omega arith, omega arith), tt)

abbrev vm : VariablesMap ℕ
vm = record Sample.vm { host_limit = some (pos 2) }

vm-IsRole : IsRole vm
vm-IsRole = record { no_help = refl; one = refl }

hosts-HasName : All HasName hosts
hosts-HasName = (lacks→Lacks b':' (codes "10.0.0.1") refl, tt)

hosts-PortsApart : PortsApart hosts
unfolding ◌+ℤ◌
hosts-PortsApart = ((inr (inr (omega arith)), tt), (tt, tt))

abbrev sites : ℕ → Site world
sites i = site_at (entry_at (all_data_addresses (pos 2) hosts) i)

sites-IsSound : (i : ℕ) → IsSound world [] (sites i)
sites-IsSound i = site_at-IsSound (sites i).data_address

sites-AreAt : AreAt world sites (data_hosts world sites 0 vm hosts settings)
unfolding or_else
sites-AreAt i lt = refl

abbrev first : Mixture world
first = opening world sites 2 (data_hosts world sites 0 vm hosts settings) []

finished : (u : Mixture world) × (j : ℕ) × Steps world sites 2 first j u × (u.system.program ≡ [])
unfolding or_else
finished =
    interleaved_completes world sites 2 [] sites-IsSound []
      (data_hosts world sites 0 vm hosts settings) 0 first
      (Distinct-AreHosts world sites (data_hosts world sites 0 vm hosts settings) sites-AreAt
        (all_data_addresses-Distinct (pos 2) hosts hosts-HasName (tt, tt)))
      here

abbrev worker_line : ℤ → ℤ → VariablesMap ℕ
worker_line command port = record {
  help = false;
  controller = false;
  worker = true;
  host_limit = none;
  bytes_limit = none;
  simulation_iteration = none;
  command_port = some command;
  data_port = some port;
}

abbrev processes : ℕ → Process ℕ
processes zero = record { node = codes "10.0.0.1"; line = worker_line (pos 3000) (pos 4000) }
processes (suc i) = record { node = codes "10.0.0.1"; line = worker_line (pos 3001) (pos 4001) }

abbrev naming : Naming
naming = record {
  reached = λ node endpoint. codes "tcp://" ++ (node ++ drop 7 endpoint);
  wildcard = λ node port. refl;
}

worker_line-IsRole : (command port : ℤ) → IsRole (worker_line command port)
worker_line-IsRole command port = record { no_help = refl; one = refl }

processes-placed :
    (i : ℕ) → i < 2 → get_elem? (all_places (pos 2) hosts) i ≡ some (place_of (processes i))
unfolding or_else ◌+ℤ◌
processes-placed zero lt = refl
processes-placed (suc zero) lt = refl
processes-placed (suc (suc i)) lt = absurd (omega (arith, lt))

processes-there :
    (i : ℕ) → i < 2 → (sites i).data_address ≡ data_endpoint naming 0 hosts settings (processes i)
unfolding or_else bound_endpoint address ◌+ℤ◌
processes-there zero lt = refl
processes-there (suc zero) lt = refl
processes-there (suc (suc i)) lt = absurd (omega (arith, lt))

processes-IsWorker : (i : ℕ) → IsWorker (processes i)
processes-IsWorker zero = record { role = worker_line-IsRole (pos 3000) (pos 4000); worker = refl }
processes-IsWorker (suc i) = record {
  role = worker_line-IsRole (pos 3001) (pos 4001);
  worker = refl;
}

-- The name of every node, and the limit that a number stands for, 0 being no limit.
abbrev hostname_of : Bytes → Bytes
hostname_of node = codes "node1"

abbrev whole : ℕ → ℤ
whole zero = negsuc 0
whole (suc limit) = pos (suc limit)

whole_limit :
    (i : ℕ) → i < 2 → whole (configured 0 (processes i).line hosts settings).bytes_limit ≡ negsuc 0
unfolding or_else
whole_limit zero lt = refl
whole_limit (suc i) lt = refl

processes-AreWorkers : AreWorkers naming 0 hosts settings world sites vm processes hostname_of whole
unfolding or_else
processes-AreWorkers = record {
  workers = λ i lt. processes-IsWorker i;
  placed = processes-placed;
  there = processes-there;
  hostname = λ i lt. refl;
  bytes_limit = whole_limit;
  value_size = λ i lt. refl;
}

main-cluster_example :
    ((i : ℕ)
      → i < 2
      → IsStarted naming 0 hosts settings junk
          (processes i)
          (entry_at (config world sites 0 vm hosts settings).hosts.command_hosts i))
    × (main 0 junk
          (some vm)
          (some (record { hosts = some (host_elements hosts) }))
          (some (worker_tree settings))
        ≡ Started.controller_runs (configured 0 vm hosts settings))
    × (finished.0.system.all_results ≡ numbered (results_at world [] sites) 0 2)
    × ((r : Report) × RunGives world [] sites 2 sites-IsSound platform-IsPlain
          (negsuc 0)
          (pos 0)
          (connection ∷ (connection ∷ []))
          (data_hosts world sites 0 vm hosts settings)
          r
        × (finished.0.system.all_results ≡ r.collected.all_results)
        × (finished.0.system.wrong ≡ r.wrong))
    × ((i : ℕ) → i < 2 → finished.0.system.peers i ≡ exited world)
unfolding or_else
main-cluster_example =
    main-cluster naming 0 hosts settings world sites vm processes junk [] sites-IsSound
      platform-IsPlain (pos 0) (connection ∷ (connection ∷ [])) _ [] finished.1 finished.0
      hostname_of whole vm-IsRole refl hosts-PortsFit hosts-HasName hosts-PortsApart
      processes-AreWorkers connected finished.2 finished.3
