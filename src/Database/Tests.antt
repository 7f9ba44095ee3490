-- ===== src/Database/Tests.antt =====
-- RiakJava over a concrete broker, with an access pattern.
use key_value_cluster_perf.Base.{ℕ, codes, ◌≡◌, arith, pos}
use key_value_cluster_perf.Mq.{done}
use key_value_cluster_perf.Workload.{AccessPattern, random_access_pattern}
use key_value_cluster_perf.Workload.Keys.{KeyRange}
use key_value_cluster_perf.Workload.Patterns.{PreventsMissing, patterns-PreventsMissing}
use key_value_cluster_perf.Database.{RiakState, IsStore, riak_java, initialise, burn_in_out}
use key_value_cluster_perf.Database.Riak.{riak_java-IsStore}
use key_value_cluster_perf.Database.Access.{Holds, burn_in_out-initialise}
use key_value_cluster_perf.Samples.{
  codec, broker, broker-Stores, random, doubles, hashes, riak_start,
}

riak_java-IsStore_example : IsStore (riak_java hashes codec broker)
riak_java-IsStore_example = riak_java-IsStore hashes codec broker broker-Stores

store : IsStore (riak_java hashes codec broker)
store = riak_java-IsStore hashes codec broker broker-Stores

range : KeyRange (pos 1) (pos 9)
range = record {
  below = omega arith;
  max_int = omega arith;
  min_int = omega arith;
  width_int = omega arith;
}

abbrev pattern : AccessPattern random
pattern = random_access_pattern random doubles (pos 1) (pos 9) 2 (codes "XX")

prevents : PreventsMissing random pattern
prevents = (patterns-PreventsMissing random (pos 1) (pos 9) (codes "XX") range doubles 2).0

burn_in_out-initialise_example :
    (r : ℕ) × (s : RiakState hashes codec broker) × (burn_in_out random pattern
        (riak_java hashes codec broker)
        100
        7
        (initialise (riak_java hashes codec broker) prevents.pairs riak_start)
      ≡ done (r, s))
    × Holds (riak_java hashes codec broker) store prevents.pairs s
burn_in_out-initialise_example =
    burn_in_out-initialise (riak_java hashes codec broker) store random pattern prevents 100 7
      riak_start
