-- ===== src/Results.antt =====
-- DBConnector::getResults of src/DBConnector.cc, and the answer of the worker to GETRESULTS.
pub mod Delivery
mod Tests
use key_value_cluster_perf.Base.{ℕ, Bytes, [], codes, Option, none, some}
use key_value_cluster_perf.StdMap.{StringMap, insert}
use key_value_cluster_perf.Decimal.{print_nat}
use key_value_cluster_perf.Connector.{Connector}

-- What the operating system and the library's streams give: the host's name, and the texts of a
-- double and of a time duration.
pub record Platform (T : Type 0) : Type 0 where
  pub hostname : Bytes
  pub show_double : ℕ → Bytes
  pub show_duration : T → Bytes

-- The map is filled in the order of the source.
unfoldable pub get_results : {T : Type 0} → Platform T → Connector T → StringMap
get_results p d = insert (codes "duration") (p.show_duration d.duration) (
    insert (codes "size") (p.show_double d.total_data_size) (
      insert (codes "objects") (print_nat d.loaded_objects)
        (insert (codes "hostname") p.hostname [])))
