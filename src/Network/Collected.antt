-- ===== src/Network/Collected.antt =====
-- What the controller has collected, and what is on its way, in every state of the processes.
use mathlib.Core.Path.{subst, ap₂}
use key_value_cluster_perf.Base.{
  ℕ, zero, suc, ◌+◌, ◌<◌, ◌≤◌, Bytes, List, [], ◌∷◌, ◌++◌, append-nil, length, ◌≡◌, refl, ap, sym,
  ◌∙◌, arith, inl, inr,
}
use key_value_cluster_perf.Results.{get_results}
use key_value_cluster_perf.Results.Delivery.{IsPlain, results_read}
use key_value_cluster_perf.StdMap.{StringMap}
use key_value_cluster_perf.Worker.{World, SimulatorState, ConnectorPointer}
use key_value_cluster_perf.Network.{Site, Peer, System, Steps, start}
use key_value_cluster_perf.Network.Stages.{Stage, fresh}
use key_value_cluster_perf.Network.Sites.{IsSound, connector, answered, unanswered}
use key_value_cluster_perf.Network.Program.{length-fetched_by, numbered}
use key_value_cluster_perf.Network.Staged.{AtSite}
use key_value_cluster_perf.Network.Invariant.{
  address_of, AreHosts, Books, Inv, result_of, start-Inv,
}
use key_value_cluster_perf.Network.Preserved.{Steps-Inv}

pub numbered-cong {ℓ} :
    {A : Type ℓ} (f g : ℕ → A) (i k : ℕ)
    → ((j : ℕ) → j < i + k → f j ≡ g j)
    → numbered f i k ≡ numbered g i k
numbered-cong f g i zero h = refl
numbered-cong f g i (suc k) h =
    ap₂ ◌∷◌ (h i (omega arith)) (numbered-cong f g (suc i) k (λ j lt. h j (omega (arith, lt))))

module _ (w : World) where
  -- At most one command or reply is on its way between the controller and a worker, and at most one
  -- data message.
  abbrev pub IsCalm : Peer w → Type 0
  IsCalm p = (length p.commands + length p.replies ≤ 1) × (length p.messages ≤ 1)

  abbrev pub exited : Peer w
  exited = record {
    commands = [];
    replies = [];
    messages = [];
    worker = record { state = SimulatorState.exit; connector = ConnectorPointer.deleted };
  }

  module _ (s₀ : w.broker.State) (sites : ℕ → Site w) where
    -- The results of a run of worker `i` alone.
    abbrev pub results_at : ℕ → StringMap
    results_at i = get_results w.platform (connector w s₀ (sites i))

    module _ (n : ℕ) (sound : (i : ℕ) → IsSound w s₀ (sites i)) (plain : IsPlain w.platform) where
      result_of-results_at : (i : ℕ) → result_of w s₀ sites n sound i ≡ results_at i
      result_of-results_at i =
          (results_read w.platform (connector w s₀ (sites i)) (sites i).buffer (sound i).text plain
            (sound i).buffer_length (sound i).written (sound i).short).0

      unanswered-IsCalm : (i : ℕ) (t : Stage) → IsCalm (unanswered w s₀ (sites i) (sound i).text t)
      unanswered-IsCalm i fresh = (omega arith, omega arith)
      unanswered-IsCalm i t = (omega arith, omega arith)

      answered-IsCalm : (i : ℕ) (t : Stage) → IsCalm (answered w s₀ (sites i) (sound i).text t)
      answered-IsCalm i fresh = (omega arith, omega arith)
      answered-IsCalm i t = (omega arith, omega arith)

      at-IsCalm : (i : ℕ) (t : Stage) (p : Peer w) → AtSite w s₀ sites n sound i t p → IsCalm p
      at-IsCalm i t p (inl e) = subst IsCalm (sym e) (unanswered-IsCalm i t)
      at-IsCalm i t p (inr e) = subst IsCalm (sym e) (answered-IsCalm i t)

      -- What holds between the controller and the workers in every state.
      abbrev pub Holds : System w → Type 0
      Holds t =
          (t.wrong ≡ 0)
          × ((left : List StringMap) × (t.all_results ++ left ≡ numbered results_at 0 n)
              × (length t.data_hosts ≡ length left)
              × (t.stray + length left ≡ n))
          × ((i : ℕ) → i < n → IsCalm (t.peers i))

      pub Inv-Holds : (t : System w) → Inv w s₀ sites n sound t → Holds t
      Inv-Holds t h =
          let (collected, hosts_left, outside) = h.books in
          (
            h.right,
            (
              _,
              collected ∙ numbered-cong _ _ 0 n (λ j lt. result_of-results_at j),
              ap (λ (hs : List Bytes). length hs) hosts_left
                  ∙ length-fetched_by (address_of w s₀ sites n sound) (result_of w s₀ sites n sound)
                      t.program,
              outside,
            ),
            λ i lt. at-IsCalm i (h.staged.stage i) (t.peers i) (h.staged.at i lt),
          )

      -- Whichever process moves next, over sites that are sound, the data hosts being the
      -- addresses of the `n` nodes, in order and all different: in every state that is reached no
      -- reply was wrong, the results so far are those of the first workers' own runs, in order, a
      -- data host is left for each of the others, one byte was written outside each array that was
      -- filled, and between the controller and each worker at most one command or reply and at
      -- most one data message are on their way.
      pub reached :
          (hosts : List Bytes) (stored : w.broker.State) (k : ℕ) (t : System w)
          → AreHosts w sites n hosts
          → Steps w sites n (start w sites n hosts stored) k t
          → (t.wrong ≡ 0)
            × ((left : List StringMap) × (t.all_results ++ left ≡ numbered results_at 0 n)
                × (length t.data_hosts ≡ length left)
                × (t.stray + length left ≡ n))
            × ((i : ℕ) → i < n → IsCalm (t.peers i))
      reached hosts stored k t enough steps =
          Inv-Holds t
            (Steps-Inv w s₀ sites n sound steps (start-Inv w s₀ sites n sound hosts stored enough))

      -- The results, when nothing is left to do.
      pub over-results :
          (t : System w)
          → t.program ≡ []
          → Inv w s₀ sites n sound t
          → t.all_results ≡ numbered results_at 0 n
      over-results t none_left h =
          let (collected, _hosts, _outside) =
            subst (Books w s₀ sites n sound t.data_hosts t.all_results t.stray) none_left h.books in
          sym (append-nil t.all_results)
          ∙ collected
          ∙ numbered-cong _ _ 0 n (λ j lt. result_of-results_at j)
