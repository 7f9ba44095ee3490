-- ===== src/Simulator/Object.antt =====
-- src/Simulator.cc: the methods simulate, burnInOut and getResults as they change the object, with
-- the clocks that simulate reads and the latencies that it prints.
--
-- A division of integers by 0 is undefined, and so is that of the least long by -1. Doubles are an
-- argument. The constructor gives the duration no value.
use key_value_cluster_perf.Base.{
  rounds, ℕ, zero, suc, ◌-◌, ◌/◌, ◌^◌, ◌==◌, Bytes, List, [], ◌∷◌, Option, none, some,
  if◌then◌else◌, ℤ, pos, negsuc,
}
use key_value_cluster_perf.Database.{KeyValueDb, burn_in_out}
use key_value_cluster_perf.Mq.{Outcome, done, undefined, ◌>>=◌}
use key_value_cluster_perf.StdMap.{StringMap}
use key_value_cluster_perf.Workload.{Random, AccessPattern}
use key_value_cluster_perf.Simulator.{
  Simulated, simulate, simulator_results, Timespec, nanoseconds_difference,
}

-- The operations on doubles: the division of an uint64_t by 1000.0, that of a double by an int, and
-- the text of a double.
pub record Floating : Type 1 where
  pub Double : Type 0
  pub thousandths : ℕ → Double
  pub divide : Double → ℤ → Double
  pub text : Double → Bytes

-- now - before, in microseconds, milliseconds and seconds, or each of these by the runs.
pub record Latency : Type 0 where
  pub microseconds : ℤ
  pub milliseconds : ℤ
  pub seconds : ℤ

-- What the clocks give in one simulation.
pub record Timing : Type 0 where
  pub start : Timespec
  pub stop : Timespec
  pub elapsed : Latency

abbrev negated : ℕ → ℤ
negated zero = pos 0
negated (suc n) = negsuc n

-- a / b of a long and an int, rounded towards 0.
unfoldable pub quotient : ℤ → ℤ → Outcome ℤ
quotient a (pos zero) = undefined
quotient (pos a) (pos (suc b)) = done (pos (a / suc b))
quotient (negsuc a) (pos (suc b)) = done (negated (suc a / suc b))
quotient (pos a) (negsuc b) = done (negated (a / suc b))
quotient (negsuc a) (negsuc zero) = if a == 2 ^ 63 - 1 then undefined else done (pos (suc a))
quotient (negsuc a) (negsuc (suc b)) = done (pos (suc a / suc (suc b)))

unfoldable pub by_runs : Latency → ℤ → Outcome Latency
unfolding quotient
by_runs t runs = do
  microseconds ← quotient t.microseconds runs
  milliseconds ← quotient t.milliseconds runs
  seconds ← quotient t.seconds runs
  done (record { microseconds = microseconds; milliseconds = milliseconds; seconds = seconds })

module _ (f : Floating) (g : Random) (p : AccessPattern g) (db : KeyValueDb) where
  pub record Simulator : Type 0 where
    pub simulated : Simulated g p db
    pub duration : Option f.Double

  -- The two lines that simulate prints.
  pub record Printed : Type 0 where
    pub total : f.Double
    pub per_run : f.Double
    pub latency : Latency
    pub latency_per_run : Latency

  -- Simulator::simulate
  unfoldable pub simulate_runs : ℤ → Timing → Simulator → Outcome (Simulator × Printed)
  unfolding by_runs
  simulate_runs runs t m = do
    simulated ← simulate g p db (rounds runs) m.simulated
    let total = f.thousandths (nanoseconds_difference t.start t.stop)
    latency_per_run ← by_runs t.elapsed runs
    done (
      record { simulated = simulated; duration = some total },
      record {
        total = total;
        per_run = f.divide total runs;
        latency = t.elapsed;
        latency_per_run = latency_per_run;
      },
    )

  -- Simulator::burnInOut
  unfoldable pub burn_runs : ℤ → Simulator → Outcome Simulator
  burn_runs runs m = do
    burnt ← burn_in_out g p db (rounds runs) m.simulated.random m.simulated.stored
    done (record m { simulated = record m.simulated { random = burnt.0; stored = burnt.1 } })

  -- Simulator::getResults, with the host's name.
  unfoldable pub results_of : Bytes → Simulator → Outcome StringMap
  results_of hostname m = elim m.duration [
    | none ↦ undefined
    | some duration ↦ done (simulator_results hostname m.simulated.counts (f.text duration))
  ]

  -- What a caller does with the object.
  pub data Method : Type 0 where
    simulating : ℤ → Timing → Method
    burning : ℤ → Method

  unfoldable pub call : Method → Simulator → Outcome Simulator
  unfolding simulate_runs burn_runs
  call (simulating runs t) m = do ran ← simulate_runs runs t m; done ran.0
  call (burning runs) m = burn_runs runs m

  unfoldable pub calls : List Method → Simulator → Outcome Simulator
  unfolding call
  calls [] m = done m
  calls (method ∷ methods) m = do next ← call method m; calls methods next
