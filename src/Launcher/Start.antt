-- ===== src/Launcher/Start.antt =====
-- What `main` starts, and when it ends before.
use mathlib.Core.Path.{subst}
use key_value_cluster_perf.Base.{
  Bytes, Bool, true, false, List, [], Option, none, some, ◌≡◌, refl, sym, All, arith, ℤ, pos,
  negsuc, ◌⊎◌, inl, inr, Bool-cases, if◌then◌else◌,
}
use key_value_cluster_perf.Launcher.{
  Parsed, parsed, refused, thrown, undefined, get, HostLists, add_hosts, ControllerTree, WorkerTree,
  Configuration, Uninitialised, VariablesMap, Started, or_else, new_configuration, apply_options,
  parse_cmd_line, parse_controller_xml, parse_worker_xml, main, conclude,
}
use key_value_cluster_perf.Launcher.Hosts.{
  Host, PortsFit, host_elements, all_command_addresses, all_data_addresses, add_hosts-addresses,
}
use key_value_cluster_perf.Launcher.Role.{given, IsRole, accept_options_lem, IsRole-cases}
use key_value_cluster_perf.Launcher.Counts.{
  Ensures, Ensures-bind, Ensures-then, AsMany, add_hosts-AsMany,
}

-- The values of the worker's file.
pub record Settings (Double : Type 0) : Type 0 where
  pub pattern_type : Bytes
  pub min_key : ℤ
  pub max_key : ℤ
  pub ratio : Double
  pub database : Bytes
  pub security : Bytes
  pub broker : Bytes
  pub distribution : Bytes
  pub size : ℤ

module _ {Double : Type 0} where
  -- What started the program is the option for its role, and a controller or worker that starts has
  -- as many data addresses as command addresses.
  abbrev Asked : Option (VariablesMap Double) → Bool → HostLists → Type 0
  Asked line controller hosts =
      ((vm : VariablesMap Double) × (line ≡ some vm) × (IsRole vm × (vm.controller ≡ controller)))
      × AsMany hosts

  abbrev pub Justified : Option (VariablesMap Double) → Started Double → Type 0
  Justified line (Started.ended n) = Unit
  Justified line (Started.controller_runs c) = Asked line true c.hosts
  Justified line (Started.worker_runs c) = Asked line false c.hosts
  Justified line Started.broken = Unit

  abbrev Sound : Option (VariablesMap Double) → Configuration Double → Type 0
  Sound line c = Asked line c.controller c.hosts

  parse_cmd_line-Sound :
      (line : Option (VariablesMap Double)) (minus_one : Double) (u : Uninitialised Double)
      → Ensures (Sound line) (parse_cmd_line line (new_configuration minus_one u))
  unfolding parse_cmd_line apply_options
  parse_cmd_line-Sound none minus_one u = tt
  parse_cmd_line-Sound (some vm) minus_one u =
      elim (IsRole-cases vm (new_configuration minus_one u)) [
        | inl e ↦ rw e tt
        | inr role ↦
            rw (accept_options_lem vm (new_configuration minus_one u) role)
              ((vm, refl, (role, sym (given vm.controller))), refl)
      ]

  parse_controller_xml-Sound :
      (line : Option (VariablesMap Double)) (file : Option ControllerTree)
      (c : Configuration Double)
      → Sound line c
      → Ensures (Sound line) (parse_controller_xml file c)
  unfolding parse_controller_xml
  parse_controller_xml-Sound line file c sound = Ensures-bind (Sound line) (get file) _ (λ pt.
      Ensures-bind (Sound line) (get pt.hosts) _ (λ children.
        Ensures-then AsMany (Sound line) (add_hosts c.host_limit children c.hosts) _
          (add_hosts-AsMany c.host_limit children c.hosts sound.1)
          (λ hosts as_many. (sound.0, as_many))))

  parse_worker_xml-Sound :
      (line : Option (VariablesMap Double)) (file : Option (WorkerTree Double))
      (c : Configuration Double)
      → Sound line c
      → Ensures (Sound line) (parse_worker_xml file c)
  unfolding parse_worker_xml
  parse_worker_xml-Sound line file c sound =
      let S = Sound line in
      Ensures-bind S (get file) _ (λ pt. Ensures-bind S (get pt.access_pattern_type) _ (λ a.
        Ensures-bind S (get pt.access_pattern_min_key) _ (λ b.
          Ensures-bind S (get pt.access_pattern_max_key) _ (λ d.
            Ensures-bind S (get pt.access_pattern_read_write_ratio) _ (λ e.
              Ensures-bind S (get pt.database_type) _ (λ f.
                Ensures-bind S (get pt.database_security) _ (λ g.
                  Ensures-bind S (get pt.database_broker) _ (λ h.
                    Ensures-bind S (get pt.value_distribution_type) _
                      (λ i. Ensures-bind S (get pt.value_distribution_size) _ (λ j. sound))))))))))

  conclude-Justified :
      (line : Option (VariablesMap Double)) (o : Parsed (Configuration Double))
      → Ensures (Sound line) o
      → Justified line (conclude o)
  conclude-Justified line (parsed c) sound = elim (Bool-cases c.controller) [
    | inl e ↦ rw e (subst (λ (b : Bool). Asked line b c.hosts) e sound)
    | inr e ↦ rw e (subst (λ (b : Bool). Asked line b c.hosts) e sound)
  ]
  conclude-Justified line refused sound = tt
  conclude-Justified line thrown sound = tt
  conclude-Justified line undefined sound = tt

  -- Whatever the command line and the files hold, a controller is started only for --controller
  -- without --worker and --help, a worker only for --worker without --controller and --help, and
  -- either has as many data addresses as command addresses.
  pub main-Justified :
      (minus_one : Double) (u : Uninitialised Double) (line : Option (VariablesMap Double))
      (controller_file : Option ControllerTree) (worker_file : Option (WorkerTree Double))
      → Justified line (main minus_one u line controller_file worker_file)
  unfolding main
  main-Justified minus_one u line controller_file worker_file = conclude-Justified line _ (
      Ensures-then (Sound line) (Sound line) (parse_cmd_line line (new_configuration minus_one u)) _
        (parse_cmd_line-Sound line minus_one u)
        (λ c k.
          Ensures-then (Sound line) (Sound line) (parse_controller_xml controller_file c) _
            (parse_controller_xml-Sound line controller_file c k)
            (λ c' k'. parse_worker_xml-Sound line worker_file c' k')))

  -- A command line that asks for help, or for both roles or none, ends the program with code 0, and
  -- one that the library refuses ends it with code 1, whatever the files hold.
  pub main_refused :
      (minus_one : Double) (u : Uninitialised Double) (vm : VariablesMap Double)
      (controller_file : Option ControllerTree) (worker_file : Option (WorkerTree Double))
      → (vm.help ≡ true) ⊎ (vm.controller ≡ vm.worker)
      → (main minus_one u (some vm) controller_file worker_file ≡ Started.ended 0)
        × (main minus_one u none controller_file worker_file ≡ Started.ended 1)
  unfolding main parse_cmd_line
  main_refused minus_one u vm controller_file worker_file why =
      elim (IsRole-cases vm (new_configuration minus_one u)) [
        | inl e ↦ (rw e refl, refl)
        | inr role ↦ absurd (ground (arith, why, role.no_help, role.one))
      ]

  abbrev pub worker_tree : Settings Double → WorkerTree Double
  worker_tree s = record {
    access_pattern_type = some s.pattern_type;
    access_pattern_min_key = some s.min_key;
    access_pattern_max_key = some s.max_key;
    access_pattern_read_write_ratio = some s.ratio;
    database_type = some s.database;
    database_security = some s.security;
    database_broker = some s.broker;
    value_distribution_type = some s.distribution;
    value_distribution_size = some s.size;
  }

  -- The configuration of a program that is started with these options and files.
  abbrev pub configured :
      Double → VariablesMap Double → List Host → Settings Double → Configuration Double
  configured minus_one vm hs s =
      let limit = or_else vm.host_limit (negsuc 0) in
      record {
        controller = vm.controller;
        hosts = record {
          command_hosts = all_command_addresses limit hs;
          data_hosts = all_data_addresses limit hs;
        };
        host_limit = limit;
        simulation_iteration = or_else vm.simulation_iteration (negsuc 0);
        bytes_limit = or_else vm.bytes_limit minus_one;
        worker = vm.worker;
        command_port = or_else vm.command_port (pos 3000);
        data_port = or_else vm.data_port (pos 4000);
        access_pattern_type = s.pattern_type;
        access_pattern_min_key = s.min_key;
        access_pattern_max_key = s.max_key;
        access_pattern_read_write_ratio = s.ratio;
        database_type = s.database;
        database_security = s.security;
        database_broker = s.broker;
        value_distribution_type = s.distribution;
        value_distribution_size = s.size;
      }

  -- With options that ask for one role and not for help, host elements whose values are all there
  -- and whose ports stay in an int, and a worker's file with all its values, the program starts in
  -- that role, with the options that are given or else their defaults, the addresses of the host
  -- elements, and the values of the worker's file.
  pub main-configured :
      (minus_one : Double) (u : Uninitialised Double) (vm : VariablesMap Double) (hs : List Host)
      (s : Settings Double)
      → IsRole vm
      → All PortsFit hs
      → main minus_one u
          (some vm)
          (some (record { hosts = some (host_elements hs) }))
          (some (worker_tree s))
        ≡ (if vm.controller
            then Started.controller_runs (configured minus_one vm hs s)
            else Started.worker_runs (configured minus_one vm hs s))
  unfolding main parse_cmd_line parse_controller_xml parse_worker_xml apply_options
  main-configured minus_one u vm hs s role fits =
      rw (accept_options_lem vm (new_configuration minus_one u) role) (
        rw
          (add_hosts-addresses (or_else vm.host_limit (negsuc 0)) hs
            (record { command_hosts = []; data_hosts = [] }) fits)
          (rw (given vm.controller) (rw (given vm.worker) refl)))
