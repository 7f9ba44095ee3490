-- ===== src/Network/Shared.antt =====
-- What a key of the shared database holds, by which workers have run.
use key_value_cluster_perf.Base.{
  ℕ, zero, suc, ◌<◌, ◌≤◌, ◌==◌, ==_iff, Bool, true, false, Bool-cases, Bytes, List, [], Option,
  none, some, if◌then◌else◌, ◌≡◌, refl, ap, sym, ◌∙◌, arith, inl, inr, All,
}
use key_value_cluster_perf.Broker.{Stores}
use key_value_cluster_perf.Connector.{Connector, Entry, run, run_entries}
use key_value_cluster_perf.Connector.Accounting.{transmitted, All-transmitted}
use key_value_cluster_perf.Connector.Order.{IsDetermined, latest_comm}
use key_value_cluster_perf.Connector.Storage.{latest, run_entries-latest}
use key_value_cluster_perf.Worker.{World, SimulatorState, new_connector}
use key_value_cluster_perf.Network.{update, Site, Peer}

-- The worker has done GO.
abbrev pub ran : SimulatorState → Bool
ran SimulatorState.start = false
ran s = true

abbrev pub files_of : {T : Type 0} → Option (List (Entry T)) → List (Entry T)
files_of none = []
files_of (some files) = files

-- A data path that does not exist is as one with no files.
pub run_entries-files_of :
    (w : World) (d : Connector w.Duration) (s : w.broker.State)
    (found : Option (List (Entry w.Duration)))
    → run_entries w.codec w.broker w.plus d s (files_of found)
      ≡ run w.codec w.broker w.plus d s found
unfolding run run_entries
run_entries-files_of w d s none = refl
run_entries-files_of w d s (some es) = refl

module _ (w : World) (stores : Stores w.codec w.broker) (sites : ℕ → Site w) where
  -- The database after the runs of the first `k` workers, one after the other.
  abbrev pub stored_after : ℕ → w.broker.State → w.broker.State
  stored_after zero stored = stored
  stored_after (suc k) stored =
      (run w.codec w.broker w.plus (new_connector w) (stored_after k stored) (sites k).files).1

  abbrev pub sent : ℕ → List (Entry w.Duration)
  sent i = transmitted (new_connector w) (files_of (sites i).files)

  pub run-latest :
      (stored : w.broker.State) (files : Option (List (Entry w.Duration))) (key : Bytes)
      → stores.view (run w.codec w.broker w.plus (new_connector w) stored files).1 key
        ≡ latest key (stores.view stored key) (transmitted (new_connector w) (files_of files))
  unfolding run
  run-latest stored none key = refl
  run-latest stored (some files) key =
      (run_entries-latest w.codec w.broker stores w.plus (new_connector w) stored files).1 key

  -- What a key holds when those of the first `k` workers have run that have done GO.
  abbrev pub holds : Bytes → (ℕ → Peer w) → ℕ → Option Bytes → Option Bytes
  holds key peers zero old = old
  holds key peers (suc k) old =
      let rest = holds key peers k old in
      if ran (peers k).worker.state then latest key rest (sent k) else rest

  holds-outside :
      (key : Bytes) (peers : ℕ → Peer w) (i : ℕ) (p : Peer w) (k : ℕ) (old : Option Bytes)
      → k ≤ i
      → holds key (update peers i p) k old ≡ holds key peers k old
  holds-outside key peers i p zero old h = refl
  holds-outside key peers i p (suc k) old h =
      let e : (i == k) ≡ false = ground arith in
      let before = holds-outside key peers i p k old (omega (arith, h)) in rw (e, before) refl

  -- A peer whose worker has done GO just as before.
  pub holds-same :
      (key : Bytes) (peers : ℕ → Peer w) (i : ℕ) (p : Peer w) (k : ℕ) (old : Option Bytes)
      → ran p.worker.state ≡ ran (peers i).worker.state
      → holds key (update peers i p) k old ≡ holds key peers k old
  holds-same key peers i p zero old h = refl
  holds-same key peers i p (suc k) old h =
      let before = holds-same key peers i p k old h in
      elim (Bool-cases (i == k)) [
        | inr other ↦ rw (other, before) refl
        | inl is_i ↦
            let now : ran p.worker.state ≡ ran (peers k).worker.state =
              h ∙ ap (λ (j : ℕ). ran (peers j).worker.state) ((==_iff i k).0 is_i) in
            rw (is_i, before, now) refl
      ]

  module _ (content : Bytes → Bytes)
      (determined : (i : ℕ) → All (IsDetermined content) (files_of (sites i).files)) where
    sent_comm :
        (key : Bytes) (old : Option Bytes) (i j : ℕ)
        → latest key (latest key old (sent i)) (sent j)
          ≡ latest key (latest key old (sent j)) (sent i)
    sent_comm key old i j =
        latest_comm content key old (sent i) (sent j)
          (All-transmitted (IsDetermined content) (new_connector w) _ (determined i))
          (All-transmitted (IsDetermined content) (new_connector w) _ (determined j))

    -- A peer whose worker has done GO only now.
    pub holds-ran :
        (key : Bytes) (peers : ℕ → Peer w) (i : ℕ) (p : Peer w) (k : ℕ) (old : Option Bytes)
        → ran (peers i).worker.state ≡ false
        → ran p.worker.state ≡ true
        → i < k
        → holds key (update peers i p) k old ≡ latest key (holds key peers k old) (sent i)
    holds-ran key peers i p zero old not_yet since h = absurd (omega (arith, h))
    holds-ran key peers i p (suc k) old not_yet since h = elim (Bool-cases (i == k)) [
      | inl is_i ↦
          let same_i : i ≡ k = (==_iff i k).0 is_i in
          let before = holds-outside key peers i p k old (omega (arith, same_i)) in
          let not_yet' : ran (peers k).worker.state ≡ false =
            ap (λ (j : ℕ). ran (peers j).worker.state) (sym same_i) ∙ not_yet in
          rw (is_i, before, since, not_yet')
            (ap (λ (j : ℕ). latest key (holds key peers k old) (sent j)) (sym same_i))
      | inr other ↦
          let before = holds-ran key peers i p k old not_yet since (ground (arith, h, other)) in
          elim (Bool-cases (ran (peers k).worker.state)) [
            | inl ran_k ↦ rw (other, before, ran_k) (sent_comm key (holds key peers k old) i k)
            | inr not_ran_k ↦ rw (other, before, not_ran_k) refl
          ]
    ]
