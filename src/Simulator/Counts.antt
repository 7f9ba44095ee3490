-- ===== src/Simulator/Counts.antt =====
-- What the simulation counts and reads.
use key_value_cluster_perf.Base.{
  ℕ, zero, suc, ◌+◌, ◌-◌, ◌^◌, ◌<◌, Bytes, Bool, true, false, List, [], ◌∷◌, none, some,
  if◌then◌else◌, ◌≡◌, refl, ◌∙◌, arith, Bool-cases, inl, inr, All, All-append, length,
  length-append,
}
use key_value_cluster_perf.Database.{KeyValueDb, IsStore, access}
use key_value_cluster_perf.Database.Access.{Holds, access_lem}
use key_value_cluster_perf.Mq.{done}
use key_value_cluster_perf.StdMap.{StringMap, lookup}
use key_value_cluster_perf.Workload.{Random, SingleAccess, AccessPattern}
use key_value_cluster_perf.Workload.Patterns.{PreventsMissing}
use key_value_cluster_perf.Simulator.{increment, appended, count_access, Simulated, simulate}

-- A value that the map has under some key.
abbrev pub IsValue : StringMap → Bytes → Type 0
IsValue m value = (key : Bytes) × (lookup key m ≡ some value)

increment_lem : (n : ℕ) → n < 2 ^ 31 - 1 → increment n ≡ done (n + 1)
unfolding increment
increment_lem n h = ground (arith, h)

-- One access adds 1 to one of the counters, and the reads are those that give a value.
count_access_lem :
    (a : SingleAccess) (counts : ℕ × ℕ)
    → counts.0 + counts.1 < 2 ^ 31 - 1
    → (after : ℕ × ℕ) × (count_access a counts ≡ done after)
      × (after.0 + after.1 ≡ counts.0 + counts.1 + 1)
      × (after.0 ≡ counts.0 + (if a.read then 1 else 0))
unfolding count_access
count_access_lem a (reads, writes) h = elim (Bool-cases a.read) [
  | inl e ↦ (
    (reads + 1, writes),
    rw (e, count_access) (rw (increment_lem reads (omega (arith, h))) refl),
    omega arith,
    rw e refl,
  )
  | inr e ↦ (
    (reads, writes + 1),
    rw (e, count_access) (rw (increment_lem writes (omega (arith, h))) refl),
    omega arith,
    rw e (omega arith),
  )
]

appended_lem :
    (values : List Bytes) (read : Bool) (value : Bytes)
    → length (appended values (if read then some value else none))
      ≡ length values + (if read then 1 else 0)
appended_lem values true value = length-append values (value ∷ [])
appended_lem values false value = omega arith

appended-All :
    (m : StringMap) (values : List Bytes) (read : Bool) (value : Bytes)
    → All (IsValue m) values
    → IsValue m value
    → All (IsValue m) (appended values (if read then some value else none))
appended-All m values true value h k = All-append (IsValue m) values (value ∷ []) h (k, tt)
appended-All m values false value h k = h

module _ (g : Random) (p : AccessPattern g) (db : KeyValueDb) where
  -- The database holds what the pattern initialises, there are as many values as reads, and each is
  -- a value of the initialisation.
  pub record IsSimulation (pairs : StringMap) (store : IsStore db) (m : Simulated g p db)
      : Type 0 where
    pub holds : Holds db store pairs m.stored
    pub as_many : length m.values ≡ m.counts.0
    pub all_found : All (IsValue pairs) m.values

  -- With a pattern that prevents missing keys, over a database that stores and holds what the
  -- pattern initialises, and with counters that stay in an int, `runs` rounds of the simulation
  -- come to their end whatever the random numbers are, add `runs` to the sum of reads and writes,
  -- and keep that there are as many values as reads, each of them a value of the initialisation.
  pub simulate-IsSimulation :
      (prevents : PreventsMissing g p) (store : IsStore db) (runs : ℕ) (m : Simulated g p db)
      → IsSimulation prevents.pairs store m
      → m.counts.0 + m.counts.1 + runs < 2 ^ 31
      → (m' : Simulated g p db) × (simulate g p db runs m ≡ done m')
        × (m'.counts.0 + m'.counts.1 ≡ m.counts.0 + m.counts.1 + runs)
        × IsSimulation prevents.pairs store m'
  unfolding simulate
  simulate-IsSimulation prevents store zero m h short = (m, refl, omega arith, h)
  simulate-IsSimulation prevents store (suc runs) m h short =
      let (a, r, next, found) = prevents.access m.random in
      let (counts, counted, sum, reads) = count_access_lem a m.counts (omega (arith, short)) in
      let (kept, value) = access_lem db store prevents.pairs a m.stored h.holds found in
      let m₁ : Simulated g p db = record {
        random = r;
        stored = (access db a m.stored).0;
        counts = counts;
        values = appended m.values (access db a m.stored).1;
      } in
      let (m', ran, total, last) =
        simulate-IsSimulation prevents store runs m₁
          (record {
            holds = kept;
            as_many =
                rw value (appended_lem m.values a.read a.value ∙ omega (arith, h.as_many, reads));
            all_found =
                rw value
                  (appended-All prevents.pairs m.values a.read a.value h.all_found (a.key, found));
          })
          (omega (arith, short, sum)) in
      (m', rw next (rw counted ran), omega (arith, total, sum), last)
