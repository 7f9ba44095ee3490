-- ===== src/Launcher/Workers.antt =====
-- The workers that src/KeyValueClusterPerf.cc starts, where src/SimulationWorker.cc binds their
-- sockets, and the controller that finds them there.
mod Tests
use key_value_cluster_perf.Base.{
  ℕ, ◌<◌, Bytes, true, List, [], ◌++◌, some, codes, ◌≡◌, ap, sym, ◌∙◌, All, length, ℤ, pos, negsuc,
  if◌then◌else◌, get_elem?, not, map, ◌∷◌,
}
use key_value_cluster_perf.Controller.{Report, connect_all}
use key_value_cluster_perf.Decimal.{print_int}
use key_value_cluster_perf.Mq.{Mq, Outcome}
use key_value_cluster_perf.Results.Delivery.{IsPlain}
use key_value_cluster_perf.Transfer.{Connection}
use key_value_cluster_perf.Worker.{World}
use key_value_cluster_perf.Launcher.{
  Uninitialised, VariablesMap, Configuration, Started, main, or_else, address,
}
use key_value_cluster_perf.Launcher.Hosts.{
  Host, PortsFit, host_elements, all_command_addresses, all_data_addresses,
}
use key_value_cluster_perf.Launcher.Role.{IsRole}
use key_value_cluster_perf.Launcher.Start.{Settings, configured, worker_tree, main-configured}
use key_value_cluster_perf.Launcher.Distinct.{HasName, AreApart, ApartAll}
use key_value_cluster_perf.Launcher.Apart.{entry_at}
use key_value_cluster_perf.Launcher.Places.{
  Place, all_places, command_address, data_address, all_places-command, all_places-data,
  entry_at-map,
}
use key_value_cluster_perf.Launcher.Benchmark.{config, data_hosts, main-interleaved}
use key_value_cluster_perf.Network.{Site}
use key_value_cluster_perf.Network.Sites.{IsSound}
use key_value_cluster_perf.Network.Collected.{results_at, exited}
use key_value_cluster_perf.Network.Refinement.{RunGives}
use key_value_cluster_perf.Network.Interleaved.{Mixture, opening, Steps}
use key_value_cluster_perf.Network.Program.{numbered}

-- "tcp://*:" << mCommandPortNumber, and the same of mDataPortNumber.
unfoldable pub bound_endpoint : ℤ → Bytes
bound_endpoint port = codes "tcp://*:" ++ print_int port

-- Under which address a peer reaches a socket that is bound to an endpoint at a node. ZeroMQ
-- documents that `*` stands for all interfaces of the node.
pub record Naming : Type 0 where
  pub reached : Bytes → Bytes → Bytes
  pub wildcard :
      (node : Bytes) (port : ℤ)
      → reached node (codes "tcp://*:" ++ print_int port)
        ≡ codes "tcp://" ++ (node ++ (codes ":" ++ print_int port))

reached-bound_endpoint :
    (naming : Naming) (node : Bytes) (port : ℤ)
    → naming.reached node (bound_endpoint port) ≡ address node port
unfolding bound_endpoint address
reached-bound_endpoint naming node port = naming.wildcard node port

-- The ports of the workers' command sockets in place of those of their data sockets.
abbrev pub command_ports : Host → Host
command_ports h = record h { port = h.command }

-- No port of a node is given to two sockets, whether for commands or for data.
abbrev pub PortsApart : List Host → Type 0
PortsApart hs = ApartAll (hs ++ map command_ports hs)

All-left : {A : Type 0} (P : A → Type 0) (xs ys : List A) → All P (xs ++ ys) → All P xs
All-left P [] ys h = tt
All-left P (x ∷ xs) ys h = (h.0, All-left P xs ys h.1)

ApartAll-left : (hs ks : List Host) → ApartAll (hs ++ ks) → ApartAll hs
ApartAll-left [] ks h = tt
ApartAll-left (x ∷ hs) ks h = (All-left (AreApart x) hs ks h.0, ApartAll-left hs ks h.1)

-- The program on a node, with its command line.
pub record Process (Double : Type 0) : Type 0 where
  pub node : Bytes
  pub line : VariablesMap Double

module _ {Double : Type 0} where
  pub record IsWorker (p : Process Double) : Type 0 where
    pub role : IsRole p.line
    pub worker : p.line.worker ≡ true

  -- Its node, with the ports of its command line or else their defaults.
  abbrev pub place_of : Process Double → Place
  place_of p = record {
    node = p.node;
    command = or_else p.line.command_port (pos 3000);
    port = or_else p.line.data_port (pos 4000);
  }

module _ (naming : Naming) {Double : Type 0} (minus_one : Double) (hs : List Host)
    (s : Settings Double) where
  -- Where the sockets of a worker are reached, which it binds to the ports of its configuration.
  abbrev pub command_endpoint : Process Double → Bytes
  command_endpoint p =
      naming.reached p.node (bound_endpoint (configured minus_one p.line hs s).command_port)

  abbrev pub data_endpoint : Process Double → Bytes
  data_endpoint p =
      naming.reached p.node (bound_endpoint (configured minus_one p.line hs s).data_port)

  module _ (limit : ℤ) (i : ℕ) (p : Process Double)
      (placed : get_elem? (all_places limit hs) i ≡ some (place_of p)) where
    command_endpoint-entry_at : entry_at (all_command_addresses limit hs) i ≡ command_endpoint p
    command_endpoint-entry_at =
        ap (λ (l : List Bytes). entry_at l i) (sym (all_places-command limit hs))
        ∙ entry_at-map command_address (all_places limit hs) i (place_of p) placed
        ∙ sym (reached-bound_endpoint naming p.node (place_of p).command)

    data_endpoint-entry_at : data_endpoint p ≡ entry_at (all_data_addresses limit hs) i
    data_endpoint-entry_at =
        reached-bound_endpoint naming p.node (place_of p).port
        ∙ sym (entry_at-map data_address (all_places limit hs) i (place_of p) placed)
        ∙ ap (λ (l : List Bytes). entry_at l i) (all_places-data limit hs)

  worker_started :
      (u : Uninitialised Double) (p : Process Double)
      → IsWorker p
      → All PortsFit hs
      → main minus_one u
          (some p.line)
          (some (record { hosts = some (host_elements hs) }))
          (some (worker_tree s))
        ≡ Started.worker_runs (configured minus_one p.line hs s)
  worker_started u p is_worker fits =
      main-configured minus_one u p.line hs s is_worker.role fits
      ∙ ap
          (λ b.
            if b
            then Started.controller_runs (configured minus_one p.line hs s)
            else Started.worker_runs (configured minus_one p.line hs s))
          (is_worker.role.one ∙ ap not is_worker.worker)

  -- The configuration of worker `p`, which its program starts, and where the controller looks for
  -- its command socket.
  abbrev pub IsStarted : Uninitialised Double → Process Double → Bytes → Type 0
  IsStarted u p host =
      (main minus_one u (some p.line) (some (record { hosts = some (host_elements hs) }))
          (some (worker_tree s))
        ≡ Started.worker_runs (configured minus_one p.line hs s))
      × (host ≡ command_endpoint p)

  module _ (w : World) (sites : ℕ → Site w) (vm : VariablesMap Double)
      (processes : ℕ → Process Double) where
    abbrev controller_config : Configuration Double
    controller_config = config w sites minus_one vm hs s

    abbrev pub node_count : ℕ
    node_count = length (data_hosts w sites minus_one vm hs s)

    -- Each process is a worker on the node and with the ports that the `host` elements give the node
    -- of its number, and its site is where its data socket is reached. The world in which the workers
    -- run has the host name that gethostname gives on each of their nodes, and the byte limit and the
    -- value size of each of their configurations.
    pub record AreWorkers (hostname_of : Bytes → Bytes) (whole : Double → ℤ) : Type 0 where
      pub workers : (i : ℕ) → i < node_count → IsWorker (processes i)
      pub placed :
          (i : ℕ)
          → i < node_count
          → get_elem? (all_places (or_else vm.host_limit (negsuc 0)) hs) i
            ≡ some (place_of (processes i))
      pub there : (i : ℕ) → i < node_count → (sites i).data_address ≡ data_endpoint (processes i)
      pub hostname : (i : ℕ) → i < node_count → hostname_of (processes i).node ≡ w.platform.hostname
      pub bytes_limit :
          (i : ℕ)
          → i < node_count
          → whole (configured minus_one (processes i).line hs s).bytes_limit ≡ w.bytes_limit
      pub value_size :
          (i : ℕ)
          → i < node_count
          → (configured minus_one (processes i).line hs s).value_distribution_size ≡ w.value_size

    -- The program is started as a worker for each node that the `host` elements stand for, on that
    -- node and with its ports, and with options for a controller and not for help, with the same
    -- files: complete host elements, whose ports stay in an int, whose nodes have no colon in their
    -- names, and of which no two give a socket the same port of the same node, be it for commands
    -- or for data, and a complete worker's file. The nodes have one host name, and the
    -- configurations of the workers one byte limit, those of the world, as is the value size of the
    -- worker's file. Then each worker is started, and the controller has at its position the
    -- address at which its command socket is reached; the controller is started; and over sites
    -- that are sound (the command socket bound, the constructor of the connector coming back on
    -- INIT, the data connections up, the results of a run short enough for the array), where the
    -- data sockets are reached, with command connections that are made, whichever process moves
    -- next, the requests of several workers taking turns at the database: when the controller has
    -- nothing left to do, its results are those of the workers' own runs, in the order of the
    -- nodes, and those that its `run` gives over one worker after the other, with as many wrong
    -- replies; and all workers are in the state EXIT with their connector deleted and nothing on
    -- its way.
    pub main-cluster :
        (u : Uninitialised Double) (s₀ : w.broker.State) (sound : (i : ℕ) → IsSound w s₀ (sites i))
        (plain : IsPlain w.platform) (member : ℤ) (commands : List Connection) (mqs : List Mq)
        (stored : w.broker.State) (k : ℕ) (m : Mixture w) (hostname_of : Bytes → Bytes)
        (whole : Double → ℤ)
        → IsRole vm
        → vm.controller ≡ true
        → All PortsFit hs
        → All HasName hs
        → PortsApart hs
        → AreWorkers hostname_of whole
        → connect_all commands ≡ Outcome.done mqs
        → Steps w sites node_count
            (opening w sites node_count controller_config.hosts.data_hosts stored)
            k
            m
        → m.system.program ≡ []
        → ((i : ℕ)
            → i < node_count
            → IsStarted u (processes i) (entry_at controller_config.hosts.command_hosts i))
          × (main minus_one u
                (some vm)
                (some (record { hosts = some (host_elements hs) }))
                (some (worker_tree s))
              ≡ Started.controller_runs controller_config)
          × (m.system.all_results ≡ numbered (results_at w s₀ sites) 0 node_count)
          × ((r : Report) × RunGives w s₀ sites node_count sound plain
                controller_config.simulation_iteration member commands
                controller_config.hosts.data_hosts r
              × (m.system.all_results ≡ r.collected.all_results)
              × (m.system.wrong ≡ r.wrong))
          × ((i : ℕ) → i < node_count → m.system.peers i ≡ exited w)
    main-cluster u s₀ sound plain member commands mqs stored k m hostname_of whole role
          is_controller fits named apart running connected steps none_left =
        let limit = or_else vm.host_limit (negsuc 0) in
        let (started, results, report, all_exited) =
          main-interleaved w sites minus_one vm hs s u s₀ sound plain member commands mqs stored k m
            role is_controller fits named (ApartAll-left hs (map command_ports hs) apart) connected
            (λ i lt.
              running.there i lt
              ∙ data_endpoint-entry_at limit i (processes i) (running.placed i lt))
            steps none_left in
        (
          λ i lt. (
            worker_started u (processes i) (running.workers i lt) fits,
            command_endpoint-entry_at limit i (processes i) (running.placed i lt),
          ),
          started,
          results,
          report,
          all_exited,
        )
