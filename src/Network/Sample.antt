-- ===== src/Network/Sample.antt =====
-- A controller and two workers that run at the same time.
use key_value_cluster_perf.Base.{
  same, same_iff, Bool, zero, suc, ◌+◌, All, ℕ, Bytes, List, [], ◌∷◌, ◌++◌, some, ◌≡◌, refl, codes,
  less, arith, true,
}
use key_value_cluster_perf.StdMap.{insert, lookup, at}
use key_value_cluster_perf.Configuration.{write_string}
use key_value_cluster_perf.Connector.{
  run, load, limit_passed, put_value, get_value, key_of, transmit, run_entries,
}
use key_value_cluster_perf.Controller.{connect_all}
use key_value_cluster_perf.Decimal.{print_nat}
use key_value_cluster_perf.Mq.{Outcome, live}
use key_value_cluster_perf.Results.{get_results}
use key_value_cluster_perf.Transfer.{buffer_size}
use key_value_cluster_perf.Worker.Protocol.{connector_after_run}
use key_value_cluster_perf.Samples.{
  construction, constructs, world, connection, connection-IsUp, garbage, length-garbage,
}
use key_value_cluster_perf.Network.{Site, turn_at}
use key_value_cluster_perf.Network.Invariant.{IsApart, AreHosts}
use key_value_cluster_perf.Network.Sites.{IsSound}
use key_value_cluster_perf.Network.Shared.{files_of}
use key_value_cluster_perf.Connector.Order.{IsDetermined}

-- A worker at an address, with one file.
abbrev pub site_at : Bytes → Site world
site_at address = record {
  data_address = address;
  files = some (
      record { path = codes "/OCDB/a.root"; regular = true; payload = 1 ∷ 2 ∷ []; elapsed = 7 }
      ∷ []);
  connection = connection;
  buffer = garbage buffer_size;
  body = garbage buffer_size;
  link_connection = connection;
  link_buffer = garbage buffer_size;
  construction = construction;
  bound = true;
}

text_written :
    write_string (
      get_results world.platform
        (connector_after_run world [] (turn_at world (site_at []) (codes "GO"))))
    ≡ some (codes "duration=7\nhostname=node1\nobjects=1\nsize=2")
unfolding write_string get_results insert less lookup at print_nat run run_entries transmit load
    limit_passed put_value get_value key_of
text_written = refl

pub site_at-IsSound : (address : Bytes) → IsSound world [] (site_at address)
site_at-IsSound address = record {
  bound = refl;
  constructs = constructs;
  worker_up = connection-IsUp;
  buffer_length = length-garbage buffer_size;
  body_length = length-garbage buffer_size;
  link_up = connection-IsUp;
  link_length = length-garbage buffer_size;
  text = codes "duration=7\nhostname=node1\nobjects=1\nsize=2";
  written = text_written;
  short = omega arith;
}

abbrev pub sites : ℕ → Site world
sites i = site_at (codes "tcp://*:600" ++ ((48 + i) ∷ []))

pub site-IsSound : (i : ℕ) → IsSound world [] (sites i)
site-IsSound i = site_at-IsSound (sites i).data_address

abbrev pub hosts : List Bytes
hosts = codes "tcp://*:6000" ∷ codes "tcp://*:6001" ∷ []

abbrev same_address : ℕ → ℕ → Bool
same_address i j = same (sites i).data_address (sites j).data_address

alike : (i j : ℕ) → (sites i).data_address ≡ (sites j).data_address → same_address i j ≡ true
alike i j e = (same_iff (sites i).data_address (sites j).data_address).1 e

sites-IsApart : IsApart world sites 2
sites-IsApart zero zero h k e = refl
sites-IsApart (suc zero) (suc zero) h k e = refl
sites-IsApart zero (suc zero) h k e = let told = alike 0 1 e in cc
sites-IsApart (suc zero) zero h k e = let told = alike 1 0 e in cc
sites-IsApart (suc (suc i)) j h k e = absurd (omega (arith, h))
sites-IsApart zero (suc (suc j)) h k e = absurd (omega (arith, k))
sites-IsApart (suc zero) (suc (suc j)) h k e = absurd (omega (arith, k))

pub sites-AreHosts : AreHosts world sites 2 hosts
sites-AreHosts = (refl, sites-IsApart)

pub connected :
    connect_all (connection ∷ (connection ∷ []))
    ≡ Outcome.done (
        record { context = live; socket = live; open_sockets = 1 }
        ∷ (record { context = live; socket = live; open_sockets = 1 } ∷ []))
unfolding connect_all
connected = refl

abbrev pub content : Bytes → Bytes
content key = 1 ∷ 2 ∷ []

pub site-IsDetermined : (i : ℕ) → All (IsDetermined content) (files_of (sites i).files)
site-IsDetermined i = (refl, tt)
