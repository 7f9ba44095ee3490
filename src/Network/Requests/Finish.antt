-- ===== src/Network/Requests/Finish.antt =====
-- Where the connectors come to, whichever request is next.
use key_value_cluster_perf.Base.{
  ℕ, zero, suc, ◌<◌, Bytes, List, ◌++◌, append-nil, Option, ◌≡◌, refl, ap, sym, ◌∙◌, arith, All,
}
use key_value_cluster_perf.Broker.{Codec, Broker, Stores}
use key_value_cluster_perf.Connector.{Connector, Entry, run_entries}
use key_value_cluster_perf.Connector.Accounting.{transmitted}
use key_value_cluster_perf.Connector.Order.{IsDetermined}
use key_value_cluster_perf.Connector.Storage.{latest, payloads, run_entries-latest}
use key_value_cluster_perf.Network.Requests.{one_by_one, IsOver, Runner, Shared, Steps, begin}
use key_value_cluster_perf.Network.Requests.Alone.{over-Runs}
use key_value_cluster_perf.Network.Requests.Invariant.{Steps-Inv, begin-Inv}
use key_value_cluster_perf.Network.Requests.Shares.{pending, held}

module _ (c : Codec) (b : Broker) (stores : Stores c b) {T : Type 0} (plus : T → T → T)
    (content : Bytes → Bytes) (connectors : ℕ → Connector T) (files : ℕ → List (Entry T))
    (determined : (i : ℕ) → All (IsDetermined content) (files i)) (s₀ : b.State) (n : ℕ) where
  held_all :
      (key : Bytes) (runners : ℕ → Runner c b plus) (k : ℕ)
      → ((i : ℕ) → i < k → (runners i).sent ≡ transmitted (connectors i) (files i))
      → held c b stores plus content key runners k (stores.view s₀ key)
        ≡ stores.view (one_by_one c b plus s₀ connectors files k) key
  held_all key runners zero h = refl
  held_all key runners (suc k) h =
      ap (latest key (held c b stores plus content key runners k (stores.view s₀ key)))
        (h k (omega arith))
      ∙ ap (λ (o : Option Bytes). latest key o (transmitted (connectors k) (files k)))
          (held_all key runners k (λ i lt. h i (omega (arith, lt))))
      ∙ sym (
          (run_entries-latest c b stores plus (connectors k)
              (one_by_one c b plus s₀ connectors files k) (files k)).1
            key)

  -- With a database that stores what it is sent, and files of which those of one key are equal,
  -- whichever connector makes the next request: a connector that has come to its end has counted
  -- and created what its run alone counts and creates, whether or not the others have come to
  -- theirs.
  pub over-run_entries :
      (k : ℕ) (t : Shared c b plus) (i : ℕ)
      → Steps c b plus n (begin c b plus s₀ connectors files) k t
      → IsOver c b plus (t.runners i)
      → ((t.runners i).connector ≡ (run_entries c b plus (connectors i) s₀ (files i)).0)
        × ((t.runners i).made ≡ (run_entries c b plus (connectors i) s₀ (files i)).2)
  over-run_entries k t i steps (idle, none_left) =
      let h =
        Steps-Inv c b stores plus content connectors files determined s₀ n steps
          (begin-Inv c b stores plus content connectors files determined s₀ n) in
      let r = t.runners i in
      let (runs, makes, _there) = h.fits i in
      let (counted, sent) = over-Runs c b plus s₀ (connectors i) (files i) r idle none_left runs in
      (
        counted,
        sym (append-nil r.made)
            ∙ ap (λ (o : Option (Entry T)). r.made ++ pending c b stores plus content o) (sym idle)
            ∙ sym makes
            ∙ ap payloads sent
            ∙ sym (run_entries-latest c b stores plus (connectors i) s₀ (files i)).0,
      )

  -- When all of the `n` connectors have come to their end, each key holds what it holds after their
  -- runs one after the other: with a database that stores what it is sent, and files of which those
  -- of one key are equal.
  pub over-one_by_one :
      (k : ℕ) (t : Shared c b plus) (key : Bytes)
      → Steps c b plus n (begin c b plus s₀ connectors files) k t
      → ((i : ℕ) → i < n → IsOver c b plus (t.runners i))
      → stores.view t.stored key ≡ stores.view (one_by_one c b plus s₀ connectors files n) key
  over-one_by_one k t key steps over =
      let h =
        Steps-Inv c b stores plus content connectors files determined s₀ n steps
          (begin-Inv c b stores plus content connectors files determined s₀ n) in
      h.views key
      ∙ held_all key t.runners n (λ i lt.
        (over-Runs c b plus s₀ (connectors i) (files i) (t.runners i) (over i lt).0 (over i lt).1
          (h.fits i).0).1)
