-- ===== src/Workload/Tests.antt =====
-- A generator, operations on numbers in place of doubles, and a range of keys that crosses 0.
use key_value_cluster_perf.Base.{
  some, none, if◌then◌else◌, codes, ◌≡◌, arith, ℤ, pos, negsuc, ◌&&◌, leb_ℤ,
}
use key_value_cluster_perf.Decimal.{print_int}
use key_value_cluster_perf.Mq.{done}
use key_value_cluster_perf.StdMap.{StringMap, lookup, IsSorted}
use key_value_cluster_perf.Workload.{
  initialisation_pairs, random_access_pattern, ocdb_access_pattern, read_only_access_pattern,
  write_only_access_pattern,
}
use key_value_cluster_perf.Workload.Keys.{KeyRange, initialisation_pairs_lem}
use key_value_cluster_perf.Workload.Patterns.{PreventsMissing, patterns-PreventsMissing}
use key_value_cluster_perf.Samples.{random, doubles}

range : KeyRange (negsuc 1) (pos 3)
range = record {
  below = omega arith;
  max_int = omega arith;
  min_int = omega arith;
  width_int = omega arith;
}

initialisation_pairs_lem_example :
    (pairs : StringMap) × (initialisation_pairs (negsuc 1) (pos 3) (codes "XX") ≡ done pairs)
    × IsSorted pairs
    × ((k : ℤ)
        → lookup (print_int k) pairs
          ≡ (if leb_ℤ (negsuc 1) k && leb_ℤ k (pos 3) then some (codes "XX") else none))
initialisation_pairs_lem_example = initialisation_pairs_lem (negsuc 1) (pos 3) (codes "XX") range

patterns-PreventsMissing_example :
    PreventsMissing random (random_access_pattern random doubles (negsuc 1) (pos 3) 2 (codes "XX"))
    × PreventsMissing random (ocdb_access_pattern random doubles (negsuc 1) (pos 3) 2 (codes "XX"))
    × PreventsMissing random (read_only_access_pattern random (negsuc 1) (pos 3) (codes "XX"))
    × PreventsMissing random (write_only_access_pattern random (negsuc 1) (pos 3) (codes "XX"))
patterns-PreventsMissing_example =
    patterns-PreventsMissing random (negsuc 1) (pos 3) (codes "XX") range doubles 2
