-- ===== src/Launcher/Sample.antt =====
-- A command line, and two hosts of three nodes each.
use key_value_cluster_perf.Base.{
  ℕ, true, false, List, [], ◌∷◌, none, some, codes, refl, All, arith, pos,
}
use key_value_cluster_perf.Launcher.{Uninitialised, VariablesMap}
use key_value_cluster_perf.Launcher.Hosts.{Host, PortsFit}
use key_value_cluster_perf.Launcher.Role.{IsRole}
use key_value_cluster_perf.Launcher.Start.{Settings}

abbrev pub hosts : List Host
hosts =
    record { node = codes "10.0.0.1"; command = pos 3000; port = pos 4000; nodes = pos 3 }
    ∷ record { node = codes "10.0.0.2"; command = pos 3000; port = pos 4000; nodes = pos 3 }
    ∷ []

pub hosts-PortsFit : All PortsFit hosts
hosts-PortsFit = ((omega arith, omega arith), ((omega arith, omega arith), tt))

abbrev pub vm : VariablesMap ℕ
vm = record {
  help = false;
  controller = true;
  worker = false;
  host_limit = some (pos 1);
  bytes_limit = none;
  simulation_iteration = none;
  command_port = none;
  data_port = none;
}

abbrev pub settings : Settings ℕ
settings = record {
  pattern_type = codes "Random";
  min_key = pos 1;
  max_key = pos 9;
  ratio = 1;
  database = codes "RiakJava";
  security = codes "none";
  broker = codes "tcp://localhost:5555";
  distribution = codes "Constant";
  size = pos 3;
}

abbrev pub junk : Uninitialised ℕ
junk = record { min_key = pos 77; max_key = pos 78; read_write_ratio = 79; size = pos 80 }

pub vm-IsRole : IsRole vm
vm-IsRole = record { no_help = refl; one = refl }
