-- ===== src/Network/Interleaved/Reached.antt =====
-- Every state that is reached from the opening one is as it should be.
use key_value_cluster_perf.Base.{ℕ, zero, suc, Bytes, List, ◌≡◌, refl, arith}
use key_value_cluster_perf.Worker.{World}
use key_value_cluster_perf.Network.{Site}
use key_value_cluster_perf.Network.Sites.{IsSound}
use key_value_cluster_perf.Network.Totals.{total, total_none}
use key_value_cluster_perf.Network.Program.{weight-session}
use key_value_cluster_perf.Network.Progress.{unread}
use key_value_cluster_perf.Network.Invariant.{AreHosts, start-Inv}
use key_value_cluster_perf.Network.Requests
use key_value_cluster_perf.Network.Interleaved.{
  idle, Mixture, opening, Step, whole, begin, request, finish, Steps, here, next,
}
use key_value_cluster_perf.Network.Interleaved.Invariant.{one_if_idle, Mixed, whole-Mixed}
use key_value_cluster_perf.Network.Interleaved.Loops.{begin-Mixed, request-Mixed}
use key_value_cluster_perf.Network.Interleaved.Replies.{finish-Mixed}

all_idle : (k : ℕ) → total one_if_idle (λ i. idle) k ≡ k
all_idle zero = refl
all_idle (suc k) = omega (arith, all_idle k)

module _ (w : World) (s₀ : w.broker.State) (sites : ℕ → Site w) (n : ℕ)
    (sound : (i : ℕ) → IsSound w s₀ (sites i)) (stored : w.broker.State) where
  pub Step-Mixed :
      {k : ℕ} {m m' : Mixture w}
      → Step w sites n m m'
      → Mixed w s₀ sites n sound stored k m
      → Mixed w s₀ sites n sound stored (suc k) m'
  Step-Mixed {k} {m} (whole step h) inv = whole-Mixed w s₀ sites n sound stored k m step h inv
  Step-Mixed {k} {m} (begin i {command} {commands} {d} lt bound calm _listens waiting is_go live)
        inv =
      begin-Mixed w s₀ sites n sound stored k m i command commands d lt calm waiting is_go live inv
  Step-Mixed {k} {m} (request step runs) inv =
      request-Mixed w s₀ sites n sound stored k m step runs inv
  Step-Mixed {k} {m} (finish i lt runs ended) inv =
      finish-Mixed w s₀ sites n sound stored k m i lt runs ended inv

  opening-Mixed :
      (hosts : List Bytes)
      → AreHosts w sites n hosts
      → Mixed w s₀ sites n sound stored 0 (opening w sites n hosts stored)
  opening-Mixed hosts enough =
      let none =
        total_none (unread w) (opening w sites n hosts stored).system.peers n (λ i lt. refl) in
      record {
        base = start-Inv w s₀ sites n sound hosts stored enough;
        fits = λ i. (refl, refl);
        asked = 0;
        requests = Requests.Steps.here;
        counted = omega (arith, none, weight-session n, all_idle n);
      }

  pub reached-Mixed :
      (hosts : List Bytes) {k : ℕ} {m : Mixture w}
      → AreHosts w sites n hosts
      → Steps w sites n (opening w sites n hosts stored) k m
      → Mixed w s₀ sites n sound stored k m
  reached-Mixed hosts enough here = opening-Mixed hosts enough
  reached-Mixed hosts enough (next steps step) = Step-Mixed step (reached-Mixed hosts enough steps)
