-- ===== src/Simulator/Tests.antt =====
-- A simulation of 100 accesses, and two clock readings.
use key_value_cluster_perf.Base.{
  ℕ, ◌/◌, List, ◌∷◌, none, true, false, ◌⊎◌, [], codes, ◌≡◌, refl, arith, pos,
}
use key_value_cluster_perf.Decimal.{print_nat}
use key_value_cluster_perf.Simulator.Object.{
  Floating, Timing, Simulator, Method, simulating, burning, calls,
}
use key_value_cluster_perf.Simulator.Quotients.{IsShort}
use key_value_cluster_perf.Simulator.Statistics.{all_some_runs, Counted, calls-Counted}
use key_value_cluster_perf.Mq.{undefined}
use key_value_cluster_perf.Workload.{AccessPattern, random_access_pattern}
use key_value_cluster_perf.Workload.Keys.{KeyRange}
use key_value_cluster_perf.Workload.Patterns.{PreventsMissing, patterns-PreventsMissing}
use key_value_cluster_perf.Database.{KeyValueDb, IsStore, riak_java, initialise}
use key_value_cluster_perf.Database.Riak.{riak_java-IsStore}
use key_value_cluster_perf.Database.Access.{initialise-Holds}
use key_value_cluster_perf.Simulator.{Simulated, Timespec}
use key_value_cluster_perf.Simulator.Counts.{IsSimulation}
use key_value_cluster_perf.Samples.{
  codec, broker, broker-Stores, random, doubles, hashes, riak_start,
}

abbrev database : KeyValueDb
database = riak_java hashes codec broker

store : IsStore database
store = riak_java-IsStore hashes codec broker broker-Stores

range : KeyRange (pos 1) (pos 9)
range = record {
  below = omega arith;
  max_int = omega arith;
  min_int = omega arith;
  width_int = omega arith;
}

abbrev pattern : AccessPattern random
pattern = random_access_pattern random doubles (pos 1) (pos 9) 2 (codes "XX")

prevents : PreventsMissing random pattern
prevents = (patterns-PreventsMissing random (pos 1) (pos 9) (codes "XX") range doubles 2).0

abbrev start : Simulated random pattern database
start = record {
  random = 7;
  stored = initialise database prevents.pairs riak_start;
  counts = (0, 0);
  values = [];
}

start-IsSimulation : IsSimulation random pattern database prevents.pairs store start
start-IsSimulation = record {
  holds = initialise-Holds database store prevents.pairs riak_start prevents.sorted;
  as_many = refl;
  all_found = tt;
}

-- The second reading has fewer nanoseconds than the first.
abbrev before : Timespec
before = record { tv_sec = 5; tv_nsec = 999999999 }

abbrev after : Timespec
after = record { tv_sec = 7; tv_nsec = 1 }

abbrev floating : Floating
floating = record {
  Double = ℕ;
  thousandths = λ n. n / 1000;
  divide = λ d runs. d / 100;
  text = print_nat;
}

abbrev timing : Timing
timing = record {
  start = before;
  stop = after;
  elapsed = record { microseconds = pos 1000000; milliseconds = pos 1000; seconds = pos 1 };
}

-- A burn-in, a simulation of 100 accesses, another of 50, and a burn-out.
abbrev methods : List (Method floating random pattern database)
methods =
    burning (pos 5)
    ∷ simulating (pos 100) timing
    ∷ simulating (pos 50) timing
    ∷ burning (pos 5)
    ∷ []

abbrev made : Simulator floating random pattern database
made = record { simulated = start; duration = none }

timing-IsShort : IsShort timing.elapsed
timing-IsShort = (λ e. cc, λ e. cc, λ e. cc)

calls-Counted_example :
    ((all_some_runs floating random pattern database methods ≡ false)
      × (calls floating random pattern database methods made ≡ undefined))
    ⊎ ((all_some_runs floating random pattern database methods ≡ true)
        × Counted floating random pattern database prevents store methods made)
calls-Counted_example =
    calls-Counted floating random pattern database prevents store methods made start-IsSimulation
      (timing-IsShort, (timing-IsShort, tt)) (omega arith)
