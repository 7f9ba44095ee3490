-- ===== src/Launcher.antt =====
-- src/KeyValueClusterPerf.cc: the command line, the two XML files and `main`, with the record of
-- src/ConfigurationManager.h that they fill.
--
-- What boost::program_options makes of the command line and what boost::property_tree makes of the
-- files are arguments: for an option or an element that is not there, `none`. A floating-point
-- number is of a type that is an argument. An int has 32 bits, and the overflow of a sum is
-- undefined.
mod Elements
mod Hosts
mod Distinct
mod Apart
mod Places
pub mod Benchmark
mod Workers
mod Counts
mod Role
mod Start
mod Session
mod Sample
mod Tests
use key_value_cluster_perf.Base.{
  ℕ, zero, suc, ◌+◌, ◌^◌, Bytes, Bool, true, false, ◌&&◌, ◌||◌, not, leb, List, [], ◌∷◌, ◌++◌,
  Option, none, some, same, codes, if◌then◌else◌, ℤ, pos, negsuc, ◌+ℤ◌,
}
pub use Elements.{Parsed, parsed, refused, thrown, undefined, ◌>>=◌, get, HostTree, HostLists}
unfoldable pub use Elements.{int_sum, address, limit_reached, add_nodes, add_host, add_hosts}

pub record ControllerTree : Type 0 where
  pub hosts : Option (List (Bytes × HostTree))

module _ (Double : Type 0) where
  pub record WorkerTree : Type 0 where
    pub access_pattern_type : Option Bytes
    pub access_pattern_min_key : Option ℤ
    pub access_pattern_max_key : Option ℤ
    pub access_pattern_read_write_ratio : Option Double
    pub database_type : Option Bytes
    pub database_security : Option Bytes
    pub database_broker : Option Bytes
    pub value_distribution_type : Option Bytes
    pub value_distribution_size : Option ℤ

  pub record Configuration : Type 0 where
    pub controller : Bool
    pub hosts : HostLists
    pub host_limit : ℤ
    pub simulation_iteration : ℤ
    pub bytes_limit : Double
    pub worker : Bool
    pub command_port : ℤ
    pub data_port : ℤ
    pub access_pattern_type : Bytes
    pub access_pattern_min_key : ℤ
    pub access_pattern_max_key : ℤ
    pub access_pattern_read_write_ratio : Double
    pub database_type : Bytes
    pub database_security : Bytes
    pub database_broker : Bytes
    pub value_distribution_type : Bytes
    pub value_distribution_size : ℤ

  -- The members that `Configuration_t config;` leaves without a value.
  pub record Uninitialised : Type 0 where
    pub min_key : ℤ
    pub max_key : ℤ
    pub read_write_ratio : Double
    pub size : ℤ

  -- The options of the command line; of those that take no value, whether they are there.
  pub record VariablesMap : Type 0 where
    pub help : Bool
    pub controller : Bool
    pub worker : Bool
    pub host_limit : Option ℤ
    pub bytes_limit : Option Double
    pub simulation_iteration : Option ℤ
    pub command_port : Option ℤ
    pub data_port : Option ℤ

  -- The exit code of `main`, or what it runs; `broken` is what is undefined.
  pub data Started : Type 0 where
    ended : ℕ → Started
    controller_runs worker_runs : Configuration → Started
    broken : Started

-- An option that is given replaces the value.
unfoldable pub or_else {ℓ} : {A : Type ℓ} → Option A → A → A
or_else none a = a
or_else (some b) a = b

module _ {Double : Type 0} where
  -- Configuration_t config; -1 as a double is an argument.
  abbrev pub new_configuration : Double → Uninitialised Double → Configuration Double
  new_configuration minus_one u = record {
    controller = false;
    hosts = record { command_hosts = []; data_hosts = [] };
    host_limit = negsuc 0;
    simulation_iteration = negsuc 0;
    bytes_limit = minus_one;
    worker = false;
    command_port = pos 3000;
    data_port = pos 4000;
    access_pattern_type = [];
    access_pattern_min_key = u.min_key;
    access_pattern_max_key = u.max_key;
    access_pattern_read_write_ratio = u.read_write_ratio;
    database_type = [];
    database_security = [];
    database_broker = [];
    value_distribution_type = [];
    value_distribution_size = u.size;
  }

  -- The assignments of parse_cmd_line, behind its early returns.
  unfoldable pub apply_options : VariablesMap Double → Configuration Double → Configuration Double
  unfolding or_else
  apply_options vm c = record c {
    controller = if vm.controller then true else c.controller;
    worker = if vm.worker then true else c.worker;
    host_limit = or_else vm.host_limit c.host_limit;
    bytes_limit = or_else vm.bytes_limit c.bytes_limit;
    simulation_iteration = or_else vm.simulation_iteration c.simulation_iteration;
    command_port = or_else vm.command_port c.command_port;
    data_port = or_else vm.data_port c.data_port;
  }

  -- The early returns of parse_cmd_line.
  unfoldable pub accept_options :
      VariablesMap Double → Configuration Double → Parsed (Configuration Double)
  unfolding apply_options
  accept_options vm c =
      if vm.help
      then refused
      else if vm.controller && vm.worker
      then refused
      else if not vm.controller && not vm.worker
      then refused
      else parsed (apply_options vm c)

  unfoldable pub parse_cmd_line :
      Option (VariablesMap Double) → Configuration Double → Parsed (Configuration Double)
  unfolding accept_options
  parse_cmd_line line c = get line >>= λ vm. accept_options vm c

  unfoldable pub parse_controller_xml :
      Option ControllerTree → Configuration Double → Parsed (Configuration Double)
  parse_controller_xml file c = do
    pt ← get file
    children ← get pt.hosts
    hosts ← add_hosts c.host_limit children c.hosts
    parsed (record c { hosts = hosts })

  unfoldable pub parse_worker_xml :
      Option (WorkerTree Double) → Configuration Double → Parsed (Configuration Double)
  parse_worker_xml file c = do
    pt ← get file
    pattern_type ← get pt.access_pattern_type
    min_key ← get pt.access_pattern_min_key
    max_key ← get pt.access_pattern_max_key
    ratio ← get pt.access_pattern_read_write_ratio
    database ← get pt.database_type
    security ← get pt.database_security
    broker ← get pt.database_broker
    distribution ← get pt.value_distribution_type
    size ← get pt.value_distribution_size
    parsed (record c {
      access_pattern_type = pattern_type;
      access_pattern_min_key = min_key;
      access_pattern_max_key = max_key;
      access_pattern_read_write_ratio = ratio;
      database_type = database;
      database_security = security;
      database_broker = broker;
      value_distribution_type = distribution;
      value_distribution_size = size;
    })

  -- `return 0` and `return 1` of `main`, and what it starts.
  abbrev pub conclude : Parsed (Configuration Double) → Started Double
  conclude (parsed c) = if c.controller then Started.controller_runs c else Started.worker_runs c
  conclude refused = Started.ended 0
  conclude thrown = Started.ended 1
  conclude undefined = Started.broken

  unfoldable pub main :
      Double
      → Uninitialised Double
      → Option (VariablesMap Double)
      → Option ControllerTree
      → Option (WorkerTree Double)
      → Started Double
  main minus_one u line controller_file worker_file = conclude (do
    c ← parse_cmd_line line (new_configuration minus_one u)
    c' ← parse_controller_xml controller_file c
    parse_worker_xml worker_file c')
