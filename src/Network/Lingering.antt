-- ===== src/Network/Lingering.antt =====
-- The processes of Network/Interleaved, where the end of a data connection waits: `destroy` of
-- src/MQ.cc, at the end of sendDataToController, calls zmq_ctx_destroy, which by default comes back
-- only when the messages of the socket have been passed on to the peer. Here that is when the
-- controller has taken the message, the latest that it can be. Until then the worker has not sent
-- DONERESULTS, and takes no command.
--
-- A step is one of Interleaved that does not need such a reply or worker, or the end of the wait.
mod Projection
mod Moves
pub mod Waits
mod Tests
use key_value_cluster_perf.Base.{
  ℕ, suc, ◌<◌, Bool, true, false, Bytes, List, [], Option, none, some, ◌≡◌, ◌≢◌, ◌⊎◌,
}
use key_value_cluster_perf.Buffer.{Buffer}
use key_value_cluster_perf.Worker.{World}
use key_value_cluster_perf.Network
use key_value_cluster_perf.Network.{update, Site}
use key_value_cluster_perf.Network.Interleaved
use key_value_cluster_perf.Network.Interleaved.{Mixture, opening}

-- A message has been sent over the data connection.
abbrev pub has_sent : Option Buffer → Bool
has_sent none = false
has_sent (some message) = true

module _ (w : World) where
  -- `held` workers wait in `destroy`: the last of their replies has not been sent.
  pub record Linger : Type 0 where
    pub mixture : Mixture w
    pub held : ℕ → Bool

  module _ (sites : ℕ → Site w) (n : ℕ) where
    -- A step that does not need a worker that waits, or the reply that it has not sent.
    abbrev pub IsFree :
        (s : Linger) {m : Mixture w} → Interleaved.Step w sites n s.mixture m → Type 0
    IsFree s (Interleaved.Step.whole (Network.Step.send i e) h) = Unit
    IsFree s (Interleaved.Step.whole (Network.Step.get i {replies = replies} e r) h) =
        (s.held i ≡ false) ⊎ (replies ≢ [])
    IsFree s (Interleaved.Step.whole (Network.Step.fetch i e first lt is_host r got) h) = Unit
    IsFree s (Interleaved.Step.whole (Network.Step.work i lt bound listens waiting does) h) =
        s.held i ≡ false
    IsFree s (Interleaved.Step.begin i lt bound calm listens waiting is_go live) = s.held i ≡ false
    IsFree s (Interleaved.Step.request step runs) = Unit
    IsFree s (Interleaved.Step.finish i lt runs ended) = Unit

    -- A worker that has sent its message waits from then on.
    abbrev pub held_after :
        (s : Linger) {m : Mixture w} → Interleaved.Step w sites n s.mixture m → ℕ → Bool
    held_after s (Interleaved.Step.whole (Network.Step.send i e) h) = s.held
    held_after s (Interleaved.Step.whole (Network.Step.get i e r) h) = s.held
    held_after s (Interleaved.Step.whole (Network.Step.fetch i e first lt is_host r got) h) = s.held
    held_after s
          (Interleaved.Step.whole (Network.Step.work i {a = a} lt bound listens waiting does) h) =
        update s.held i (has_sent a.sent)
    held_after s (Interleaved.Step.begin i lt bound calm listens waiting is_go live) = s.held
    held_after s (Interleaved.Step.request step runs) = s.held
    held_after s (Interleaved.Step.finish i lt runs ended) = s.held

    pub data Step (s : Linger) : Linger → Type 0 where
      go :
          {m : Mixture w} (step : Interleaved.Step w sites n s.mixture m)
          → IsFree s step
          → Step s (record { mixture = m; held = held_after s step })
      release :
          (i : ℕ)
          → i < n
          → s.held i ≡ true
          → (s.mixture.system.peers i).messages ≡ []
          → Step s (record s { held = update s.held i false })

    abbrev pub lingering_start : List Bytes → w.broker.State → Linger
    lingering_start hosts stored = record {
      mixture = opening w sites n hosts stored;
      held = λ i. false;
    }

    -- Executions of some number of steps.
    pub data Steps (s : Linger) : ℕ → Linger → Type 0 where
      here : Steps s 0 s
      next : {k : ℕ} {t u : Linger} → Steps s k t → Step t u → Steps s (suc k) u
