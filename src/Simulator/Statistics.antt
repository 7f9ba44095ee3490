-- ===== src/Simulator/Statistics.antt =====
-- What the object has counted and measured after any sequence of simulations and burn-ins.
use key_value_cluster_perf.Base.{
  rounds, ℕ, ◌+◌, ◌^◌, ◌<◌, Bool, true, false, ◌&&◌, List, [], ◌∷◌, Option, some, ℤ, ◌≡◌, ◌⊎◌, refl,
  ap, ◌∙◌, arith, inl, inr, Bool-cases,
}
use key_value_cluster_perf.Database.{KeyValueDb, IsStore}
use key_value_cluster_perf.Database.Access.{burn_in_out-Holds}
use key_value_cluster_perf.Mq.{done, undefined}
use key_value_cluster_perf.Workload.{Random, AccessPattern}
use key_value_cluster_perf.Workload.Patterns.{PreventsMissing}
use key_value_cluster_perf.Simulator.{nanoseconds_difference}
use key_value_cluster_perf.Simulator.Counts.{IsSimulation, simulate-IsSimulation}
use key_value_cluster_perf.Simulator.Quotients.{
  IsShort, is_some_runs, by_runs_done, by_runs_undefined,
}
use key_value_cluster_perf.Simulator.Object.{
  Floating, Timing, Simulator, simulate_runs, burn_runs, Method, simulating, burning, call, calls,
}

module _ (f : Floating) (g : Random) (p : AccessPattern g) (db : KeyValueDb) where
  -- The rounds of the simulations; burn-ins do not count.
  abbrev pub simulated_rounds : List (Method f g p db) → ℕ
  simulated_rounds [] = 0
  simulated_rounds (simulating runs t ∷ ms) = rounds runs + simulated_rounds ms
  simulated_rounds (burning runs ∷ ms) = simulated_rounds ms

  -- The time of the last simulation.
  abbrev pub last_duration : Option f.Double → List (Method f g p db) → Option f.Double
  last_duration old [] = old
  last_duration old (simulating runs t ∷ ms) =
      last_duration (some (f.thousandths (nanoseconds_difference t.start t.stop))) ms
  last_duration old (burning runs ∷ ms) = last_duration old ms

  -- No simulation has 0 runs.
  abbrev pub all_some_runs : List (Method f g p db) → Bool
  all_some_runs [] = true
  all_some_runs (simulating runs t ∷ ms) = is_some_runs runs && all_some_runs ms
  all_some_runs (burning runs ∷ ms) = all_some_runs ms

  abbrev pub AllShort : List (Method f g p db) → Type 0
  AllShort [] = Unit
  AllShort (simulating runs t ∷ ms) = IsShort t.elapsed × AllShort ms
  AllShort (burning runs ∷ ms) = AllShort ms

  module _ (prevents : PreventsMissing g p) (store : IsStore db) where
    abbrev Goes : Simulator f g p db → Type 0
    Goes m = IsSimulation g p db prevents.pairs store m.simulated

    abbrev pub sum_of : Simulator f g p db → ℕ
    sum_of m = m.simulated.counts.0 + m.simulated.counts.1

    simulate_runs_lem :
        (runs : ℤ) (t : Timing) (m : Simulator f g p db)
        → Goes m
        → IsShort t.elapsed
        → sum_of m + rounds runs < 2 ^ 31
        → ((is_some_runs runs ≡ false) × (call f g p db (simulating runs t) m ≡ undefined))
          ⊎ ((is_some_runs runs ≡ true)
              × (m' : Simulator f g p db) × (call f g p db (simulating runs t) m ≡ done m')
              × (sum_of m' ≡ sum_of m + rounds runs)
              × (m'.duration ≡ some (f.thousandths (nanoseconds_difference t.start t.stop)))
              × Goes m')
    unfolding call simulate_runs
    simulate_runs_lem runs t m h short few =
        let (ran, does, sum, goes) =
          simulate-IsSimulation g p db prevents store (rounds runs) m.simulated h few in
        elim (Bool-cases (is_some_runs runs)) [
          | inl e ↦
              let (u, divides) = by_runs_done t.elapsed runs short e in
              inr (
                e,
                record {
                  simulated = ran;
                  duration = some (f.thousandths (nanoseconds_difference t.start t.stop));
                },
                rw does (rw divides refl),
                sum,
                refl,
                goes,
              )
          | inr e ↦ inl (e, rw does (rw (by_runs_undefined t.elapsed runs e) refl))
        ]

    burn_runs_lem :
        (runs : ℤ) (m : Simulator f g p db)
        → Goes m
        → (m' : Simulator f g p db) × (call f g p db (burning runs) m ≡ done m')
          × (m'.simulated.counts ≡ m.simulated.counts)
          × (m'.duration ≡ m.duration)
          × Goes m'
    unfolding call burn_runs
    burn_runs_lem runs m h =
        let (r, s, does, kept) =
          burn_in_out-Holds db store g p prevents (rounds runs) m.simulated.random
            m.simulated.stored h.holds in
        (
          record m { simulated = record m.simulated { random = r; stored = s } },
          rw does refl,
          refl,
          refl,
          record { holds = kept; as_many = h.as_many; all_found = h.all_found },
        )

    -- What a sequence of calls comes to.
    abbrev pub Counted : List (Method f g p db) → Simulator f g p db → Type 0
    Counted ms m =
        (m' : Simulator f g p db) × (calls f g p db ms m ≡ done m')
        × (sum_of m' ≡ sum_of m + simulated_rounds ms)
        × (m'.duration ≡ last_duration m.duration ms)
        × IsSimulation g p db prevents.pairs store m'.simulated

    next_Counted :
        (method : Method f g p db) (ms : List (Method f g p db)) (m next : Simulator f g p db)
        → call f g p db method m ≡ done next
        → (m' : Simulator f g p db) → calls f g p db ms next ≡ done m'
        → calls f g p db (method ∷ ms) m ≡ done m'
    unfolding calls
    next_Counted method ms m next first m' rest = rw first rest

    -- With a pattern that prevents missing keys, over a database that stores and holds what the
    -- pattern initialises, with counters that stay in an int and clocks that do not give the least
    -- long: any sequence of simulations and burn-ins with no simulation of 0 runs comes to its end,
    -- whatever the random numbers are; it adds the rounds of all its simulations, and none of its
    -- burn-ins, to the sum of reads and writes, and has the duration of the last simulation alone;
    -- and there are as many values as reads, each of them a value of the initialisation. A sequence
    -- with a simulation of 0 runs divides by 0.
    pub calls-Counted :
        (ms : List (Method f g p db)) (m : Simulator f g p db)
        → IsSimulation g p db prevents.pairs store m.simulated
        → AllShort ms
        → sum_of m + simulated_rounds ms < 2 ^ 31
        → ((all_some_runs ms ≡ false) × (calls f g p db ms m ≡ undefined))
          ⊎ ((all_some_runs ms ≡ true) × Counted ms m)
    unfolding calls
    calls-Counted [] m h short few = inr (refl, (m, refl, omega arith, refl, h))
    calls-Counted (simulating runs t ∷ ms) m h (short, shorts) few =
        elim (simulate_runs_lem runs t m h short (omega (arith, few))) [
          | inl (e, fails) ↦ inl (rw e refl, rw fails refl)
          | inr (e, next, does, sum, measured, goes) ↦
              elim (calls-Counted ms next goes shorts (omega (arith, few, sum))) [
                | inl (e', fails) ↦ inl (rw (e, e') refl, rw does fails)
                | inr (e', (m', ran, total, last, kept)) ↦ inr (
                  rw (e, e') refl,
                  (
                    m',
                    next_Counted (simulating runs t) ms m next does m' ran,
                    omega (arith, total, sum),
                    last ∙ ap (λ (o : Option f.Double). last_duration o ms) measured,
                    kept,
                  ),
                )
              ]
        ]
    calls-Counted (burning runs ∷ ms) m h shorts few =
        let (next, does, same_counts, same_duration, goes) = burn_runs_lem runs m h in
        let sum : sum_of next ≡ sum_of m = ap (λ (c : ℕ × ℕ). c.0 + c.1) same_counts in
        elim (calls-Counted ms next goes shorts (omega (arith, few, sum))) [
          | inl (e', fails) ↦ inl (e', rw does fails)
          | inr (e', (m', ran, total, last, kept)) ↦ inr (
            e',
            (
              m',
              next_Counted (burning runs) ms m next does m' ran,
              omega (arith, total, sum),
              last ∙ ap (λ (o : Option f.Double). last_duration o ms) same_duration,
              kept,
            ),
          )
        ]
