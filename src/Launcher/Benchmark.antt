-- ===== src/Launcher/Benchmark.antt =====
-- The whole program: the controller that src/KeyValueClusterPerf.cc starts, over workers that run at
-- the same time.
use key_value_cluster_perf.Base.{
  arith, ℕ, ◌<◌, Bytes, true, List, [], some, ◌≡◌, ap, sym, ◌∙◌, All, length, ℤ, if◌then◌else◌,
  negsuc,
}
use key_value_cluster_perf.Controller.{Report, connect_all}
use key_value_cluster_perf.Mq.{Mq, Outcome}
use key_value_cluster_perf.Results.Delivery.{IsPlain}
use key_value_cluster_perf.Transfer.{Connection}
use key_value_cluster_perf.Worker.{World}
use key_value_cluster_perf.Launcher.{
  Uninitialised, VariablesMap, Configuration, Started, main, or_else,
}
use key_value_cluster_perf.Launcher.Hosts.{Host, PortsFit, host_elements}
use key_value_cluster_perf.Launcher.Role.{IsRole}
use key_value_cluster_perf.Launcher.Start.{Settings, configured, worker_tree, main-configured}
use key_value_cluster_perf.Launcher.Distinct.{HasName, ApartAll, Distinct}
use key_value_cluster_perf.Launcher.Apart.{
  all_data_addresses-Distinct, entry_at, entry_at-injective, numbered-entry_at,
}
use key_value_cluster_perf.Network.{Site}
use key_value_cluster_perf.Network.Sites.{IsSound}
use key_value_cluster_perf.Network.Invariant.{AreHosts}
use key_value_cluster_perf.Network.Collected.{results_at, numbered-cong, exited}
use key_value_cluster_perf.Network.Refinement.{RunGives}
use key_value_cluster_perf.Network.Interleaved.{Mixture, opening, Steps}
use key_value_cluster_perf.Network.Interleaved.Outcome.{interleaved-run, interleaved_results}
use key_value_cluster_perf.Network.Program.{numbered}

module _ (w : World) (sites : ℕ → Site w) where
  -- Worker `i` is at the address at position `i` of the list.
  abbrev pub AreAt : List Bytes → Type 0
  AreAt hosts = (i : ℕ) → i < length hosts → (sites i).data_address ≡ entry_at hosts i

  pub Distinct-AreHosts :
      (hosts : List Bytes) → AreAt hosts → Distinct hosts → AreHosts w sites (length hosts) hosts
  Distinct-AreHosts hosts at distinct = (
    sym (
        numbered-cong _ (entry_at hosts) 0 (length hosts) (λ i lt. at i (omega (arith, lt)))
        ∙ numbered-entry_at hosts),
    λ i j h k e. entry_at-injective hosts i j distinct h k (sym (at i h) ∙ e ∙ at j k),
  )

  module _ {Double : Type 0} (minus_one : Double) (vm : VariablesMap Double) (hs : List Host)
      (s : Settings Double) where
    -- The configuration of the controller, and its data hosts.
    abbrev pub config : Configuration Double
    config = configured minus_one vm hs s

    abbrev pub data_hosts : List Bytes
    data_hosts = config.hosts.data_hosts

    -- The program is started with options for a controller and not for help, with complete host
    -- elements, whose ports stay in an int, whose nodes have no colon in their names, and of which
    -- any two have different nodes or ports that do not meet, and with a complete worker's file.
    -- Then it starts a controller, and over sound sites at its data hosts, with command connections
    -- that are made, whichever process moves next, the requests of several workers taking turns at
    -- the database: when the controller has nothing left to do, its results are those of the
    -- workers' own runs, in the order of the hosts, and those that its `run` gives over one worker
    -- after the other, with as many wrong replies; and all workers are in the state EXIT with their
    -- connector deleted and nothing on its way.
    pub main-interleaved :
        (u : Uninitialised Double) (s₀ : w.broker.State) (sound : (i : ℕ) → IsSound w s₀ (sites i))
        (plain : IsPlain w.platform) (member : ℤ) (commands : List Connection) (mqs : List Mq)
        (stored : w.broker.State) (k : ℕ) (m : Mixture w)
        → IsRole vm
        → vm.controller ≡ true
        → All PortsFit hs
        → All HasName hs
        → ApartAll hs
        → connect_all commands ≡ Outcome.done mqs
        → AreAt data_hosts
        → Steps w sites
            (length data_hosts)
            (opening w sites (length data_hosts) data_hosts stored)
            k
            m
        → m.system.program ≡ []
        → (main minus_one u
              (some vm)
              (some (record { hosts = some (host_elements hs) }))
              (some (worker_tree s))
            ≡ Started.controller_runs config)
          × (m.system.all_results ≡ numbered (results_at w s₀ sites) 0 (length data_hosts))
          × ((r : Report) × RunGives w s₀ sites
                (length data_hosts)
                sound
                plain
                config.simulation_iteration
                member
                commands
                data_hosts
                r
              × (m.system.all_results ≡ r.collected.all_results)
              × (m.system.wrong ≡ r.wrong))
          × ((i : ℕ) → i < length data_hosts → m.system.peers i ≡ exited w)
    main-interleaved u s₀ sound plain member commands mqs stored k m role is_controller fits named
          apart connected at steps none_left =
        let hosted =
          Distinct-AreHosts data_hosts at
            (all_data_addresses-Distinct (or_else vm.host_limit (negsuc 0)) hs named apart) in
        let ((r, gives, results, _hosts, _stray, wrong), all_exited) =
          interleaved-run w s₀ sites (length data_hosts) sound plain config.simulation_iteration
            member commands mqs data_hosts stored k m connected hosted steps none_left in
        (
          main-configured minus_one u vm hs s role fits
              ∙ ap (λ b. if b then Started.controller_runs config else Started.worker_runs config)
                  is_controller,
          interleaved_results w s₀ sites (length data_hosts) sound plain data_hosts stored k m
              hosted steps none_left,
          (r, gives, results, wrong),
          all_exited,
        )
