-- ===== src/Network/Requests/Tests.antt =====
-- Two connectors over one database, whose requests take turns.
use key_value_cluster_perf.Base.{
  ℕ, zero, suc, ◌+◌, ◌<◌, Bytes, List, [], ◌∷◌, true, ◌≡◌, refl, codes, All, negsuc, arith,
}
use key_value_cluster_perf.Connector.{Connector, Entry, run_entries, load, limit_passed}
use key_value_cluster_perf.Connector.Order.{IsDetermined}
use key_value_cluster_perf.Samples.{codec, broker, broker-Stores}
use key_value_cluster_perf.Network.Requests.{Shared, IsOver, put, get, Steps, here, next, begin}
use key_value_cluster_perf.Network.Requests.Finish.{over-run_entries}

abbrev connectors : ℕ → Connector ℕ
connectors i = record {
  loaded_objects = 0;
  total_data_size = 0;
  duration = 0;
  bytes_limit = negsuc 0;
}

-- The file is at both.
abbrev shared_file : Entry ℕ
shared_file = record {
  path = codes "/OCDB/Run0.root";
  regular = true;
  payload = 4 ∷ [];
  elapsed = 5;
}

abbrev files : ℕ → List (Entry ℕ)
files i = shared_file ∷ []

abbrev content : Bytes → Bytes
content key = 4 ∷ []

files-IsDetermined : (i : ℕ) → All (IsDetermined content) (files i)
files-IsDetermined i = (refl, tt)

abbrev first : Shared codec broker ◌+◌
first = begin codec broker ◌+◌ [] connectors files

-- Both have put the file before either gets it.
abbrev Reaches : Shared codec broker ◌+◌ → Type 0
Reaches = Steps codec broker ◌+◌ 2 first 4

mixed : (t : Shared codec broker ◌+◌) × Reaches t
unfolding load limit_passed
mixed = (
  _,
  next
      (next
        (next (next here (put 0 (omega arith) refl refl refl)) (put 1 (omega arith) refl refl refl))
        (get 0 (omega arith) refl))
      (get 1 (omega arith) refl),
)

mixed-IsOver : (i : ℕ) → i < 2 → IsOver codec broker ◌+◌ (mixed.0.runners i)
unfolding mixed load limit_passed
mixed-IsOver zero h = (refl, refl)
mixed-IsOver (suc zero) h = (refl, refl)
mixed-IsOver (suc (suc i)) h = absurd (omega (arith, h))

over-run_entries_example :
    ((mixed.0.runners 0).connector ≡ (run_entries codec broker ◌+◌ (connectors 0) [] (files 0)).0)
    × ((mixed.0.runners 0).made ≡ (run_entries codec broker ◌+◌ (connectors 0) [] (files 0)).2)
over-run_entries_example =
    over-run_entries codec broker broker-Stores ◌+◌ content connectors files files-IsDetermined [] 2
      4 mixed.0 0 mixed.1 (mixed-IsOver 0 (omega arith))
