-- ===== src/Simulator.antt =====
-- src/Simulator.cc: the simulation that counts reads and writes, its results, the file that merges
-- the results of several simulators, and the measured time.
--
-- Doubles are an argument. The databases that the constructor can choose are arguments, as are the
-- patterns and the distribution.
mod Counts
mod Clock
mod Object
mod Quotients
mod Statistics
mod Tests
use key_value_cluster_perf.Base.{
  ℕ, zero, suc, ◌+◌, ◌-◌, ◌==◌, ◌*◌, ◌%◌, ◌^◌, Bytes, true, false, List, [], ◌∷◌, ◌++◌, Option,
  none, some, same, codes, if◌then◌else◌, ℤ, pos, negsuc, ◌-ℤ◌,
}
use key_value_cluster_perf.Database.{KeyValueDb, access}
use key_value_cluster_perf.Decimal.{print_nat}
use key_value_cluster_perf.Mq.{Outcome, done, undefined, ◌>>=◌}
use key_value_cluster_perf.StdMap.{StringMap, insert, at}
use key_value_cluster_perf.Workload.{Random, SingleAccess, AccessPattern}

-- reads++ and writes++ on an int that is not negative.
unfoldable pub increment : ℕ → Outcome ℕ
increment n = if n == 2 ^ 31 - 1 then undefined else done (n + 1)

abbrev pub appended : List Bytes → Option Bytes → List Bytes
appended values none = values
appended values (some value) = values ++ (value ∷ [])

-- What an access adds to the counters `reads` and `writes`.
unfoldable pub count_access : SingleAccess → ℕ × ℕ → Outcome (ℕ × ℕ)
unfolding increment
count_access a (reads, writes) = elim a.read [
  | true ↦ do more ← increment reads; done (more, writes)
  | false ↦ do more ← increment writes; done (reads, more)
]

module _ (g : Random) (p : AccessPattern g) (db : KeyValueDb) where
  -- What `simulate` changes; `values` are those that the reads gave, in order, which are not kept.
  pub record Simulated : Type 0 where
    pub random : g.State
    pub stored : db.State
    pub counts : ℕ × ℕ
    pub values : List Bytes

  -- The loop of Simulator::simulate.
  unfoldable pub simulate : ℕ → Simulated → Outcome Simulated
  unfolding count_access
  simulate zero m = done m
  simulate (suc runs) m = do
    next ← p.get_next m.random
    counts ← count_access next.0 m.counts
    let (stored, value) = access db next.0 m.stored
    simulate runs (record {
      random = next.1;
      stored = stored;
      counts = counts;
      values = appended m.values value;
    })

-- Simulator::getResults, with the host's name and the text of the duration.
unfoldable pub simulator_results : Bytes → ℕ × ℕ → Bytes → StringMap
simulator_results hostname (reads, writes) duration = insert (codes "duration") duration (
    insert (codes "writes") (print_nat writes)
      (insert (codes "reads") (print_nat reads) (insert (codes "hostname") hostname [])))

-- Simulator::mergeResults: the contents of the file.
simulator_line : StringMap → Bytes
simulator_line r =
    at r (codes "hostname")
    ++ (b','
        ∷ (at r (codes "reads")
            ++ (b','
                ∷ (at r (codes "writes") ++ (b',' ∷ (at r (codes "duration") ++ (b'\n' ∷ [])))))))

simulator_lines : List StringMap → Bytes
unfolding simulator_line
simulator_lines [] = []
simulator_lines (r ∷ rs) = simulator_line r ++ simulator_lines rs

unfoldable pub simulator_merge_results : List StringMap → Bytes
unfolding simulator_lines
simulator_merge_results results =
    codes "HostName,#reads,#writes,total_duration\n" ++ simulator_lines results

pub record Timespec : Type 0 where
  pub tv_sec : ℕ
  pub tv_nsec : ℕ

-- The conversion of a long to uint64_t.
to_uint64 : ℤ → ℕ
to_uint64 (pos n) = n % 2 ^ 64
to_uint64 (negsuc n) = 2 ^ 64 - 1 - n % 2 ^ 64

-- nanosecondsDifference of Simulator::calculateDurationMicroseconds, before the division by 1000.0.
unfoldable pub nanoseconds_difference : Timespec → Timespec → ℕ
unfolding to_uint64
nanoseconds_difference start stop =
    let seconds = to_uint64 (pos stop.tv_sec -ℤ pos start.tv_sec) in
    let nanoseconds = to_uint64 (pos stop.tv_nsec -ℤ pos start.tv_nsec) in
    (nanoseconds + seconds * 1000000000 % 2 ^ 64) % 2 ^ 64
