-- ===== src/Network/Database.antt =====
-- What the workers leave in the database that they share.
use key_value_cluster_perf.Base.{
  ℕ, zero, suc, ◌<◌, true, false, Bytes, List, [], ◌∷◌, Option, ◌≡◌, refl, ap, sym, ◌∙◌, arith, inl,
  inr, All, ◌⊎◌,
}
use key_value_cluster_perf.Broker.{Stores}
use key_value_cluster_perf.Connector.{run}
use key_value_cluster_perf.Connector.Order.{IsDetermined}
use key_value_cluster_perf.Connector.Storage.{latest}
use key_value_cluster_perf.Mq.{Outcome}
use key_value_cluster_perf.Worker.{
  World, Answer, new_connector, new_worker, command_of, handle_command,
}
use key_value_cluster_perf.Network.{
  turn_at, after_work, Site, Peer, System, Step, send, get, fetch, work, start, Steps, here, next,
}
use key_value_cluster_perf.Network.Stages.{Stage, fresh, asked_go}
use key_value_cluster_perf.Network.Sites.{IsSound, answered, unanswered, stored_by, worked}
use key_value_cluster_perf.Network.Shared.{
  ran, files_of, stored_after, sent, run-latest, holds, holds-same, holds-ran,
}
use key_value_cluster_perf.Network.Progress.{over_peer}
use key_value_cluster_perf.Network.Rounds.{at-Rounds}
use key_value_cluster_perf.Network.Invariant.{AreHosts, Inv, start-Inv}
use key_value_cluster_perf.Network.Preserved.{Steps-Inv}

module _ (w : World) (stores : Stores w.codec w.broker) (sites : ℕ → Site w)
    (content : Bytes → Bytes)
    (determined : (i : ℕ) → All (IsDetermined content) (files_of (sites i).files))
    (s₀ : w.broker.State) (n : ℕ) (sound : (i : ℕ) → IsSound w s₀ (sites i))
    (stored : w.broker.State) where
  -- Each key holds what those workers have left that have done GO.
  abbrev Holds : System w → Type 0
  Holds s =
      (key : Bytes)
      → stores.view s.stored key ≡ holds w stores sites key s.peers n (stores.view stored key)

  -- A round is that of GO, or leaves the database as it is.
  round-cases :
      (i : ℕ) (t : Stage) (s : w.broker.State)
      → ((ran (answered w s₀ (sites i) (sound i).text t).worker.state
            ≡ ran (unanswered w s₀ (sites i) (sound i).text t).worker.state)
          × (stored_by w s₀ (sites i) t s ≡ s))
        ⊎ ((ran (unanswered w s₀ (sites i) (sound i).text t).worker.state ≡ false)
            × (ran (answered w s₀ (sites i) (sound i).text t).worker.state ≡ true)
            × (stored_by w s₀ (sites i) t s
                ≡ (run w.codec w.broker w.plus (new_connector w) s (sites i).files).1))
  round-cases i asked_go s = inr (refl, refl, refl)
  round-cases i fresh s = inl (refl, refl)
  round-cases i t s = inl (refl, refl)

  work-Holds :
      (s : System w) (i : ℕ) (command : Bytes) (commands : List Bytes) (a : Answer w)
      → i < n
      → (s.peers i).commands ≡ command ∷ commands
      → handle_command w
          (command_of command)
          (s.peers i).worker
          s.stored
          (turn_at w (sites i) command)
        ≡ Outcome.done a
      → Inv w s₀ sites n sound s
      → Holds s
      → Holds (after_work w s i commands a)
  work-Holds s i command commands a lt waiting does h holds_now key =
      let t = h.staged.stage i in
      let p' = worked w s₀ (sites i) (s.peers i) commands a in
      let (was, becomes, leaves) =
        at-Rounds w s₀ sites n sound i t s.stored command commands a (s.peers i) (h.staged.at i lt)
          waiting does in
      let ran_was = ap (λ (p : Peer w). ran p.worker.state) was in
      let ran_becomes = ap (λ (p : Peer w). ran p.worker.state) becomes in
      elim (round-cases i t s.stored) [
        | inl (as_before, kept) ↦
            ap (λ (b : w.broker.State). stores.view b key) (leaves ∙ kept)
            ∙ holds_now key
            ∙ sym (
                holds-same w stores sites key s.peers i p' n (stores.view stored key)
                  (ran_becomes ∙ as_before ∙ sym ran_was))
        | inr (not_yet, since, goes) ↦
            ap (λ (b : w.broker.State). stores.view b key) (leaves ∙ goes)
            ∙ run-latest w stores sites s.stored (sites i).files key
            ∙ ap (λ (o : Option Bytes). latest key o (sent w stores sites i)) (holds_now key)
            ∙ sym (
                holds-ran w stores sites content determined key s.peers i p' n
                  (stores.view stored key) (ran_was ∙ not_yet) (ran_becomes ∙ since) lt)
      ]

  Step-Holds : {s t : System w} → Step w sites n s t → Inv w s₀ sites n sound s → Holds s → Holds t
  Step-Holds {s} (send i e) h holds_now = λ key.
      holds_now key
      ∙ sym (holds-same w stores sites key s.peers i _ n (stores.view stored key) refl)
  Step-Holds {s} (get i e r) h holds_now = λ key.
      holds_now key
      ∙ sym (holds-same w stores sites key s.peers i _ n (stores.view stored key) refl)
  Step-Holds {s} (fetch i {j} e first lt is_host r got) h holds_now = λ key.
      holds_now key
      ∙ sym (holds-same w stores sites key s.peers j _ n (stores.view stored key) refl)
  Step-Holds {s} (work i {command} {commands} {a} lt bound _listens waiting does) h holds_now =
      work-Holds s i command commands a lt waiting does h holds_now

  Steps-Holds :
      {s t : System w} {k : ℕ}
      → Steps w sites n s k t
      → Inv w s₀ sites n sound s
      → Holds s
      → Holds t
  Steps-Holds here h holds_now = holds_now
  Steps-Holds (next steps step) h holds_now =
      Step-Holds step (Steps-Inv w s₀ sites n sound steps h) (Steps-Holds steps h holds_now)

  holds_none :
      (key : Bytes) (k : ℕ) (old : Option Bytes)
      → holds w stores sites key
          (λ i. record { commands = []; replies = []; messages = []; worker = new_worker })
          k
          old
        ≡ old
  holds_none key zero old = refl
  holds_none key (suc k) old = holds_none key k old

  holds_all :
      (key : Bytes) (peers : ℕ → Peer w) (k : ℕ)
      → ((i : ℕ) → i < k → ran (peers i).worker.state ≡ true)
      → holds w stores sites key peers k (stores.view stored key)
        ≡ stores.view (stored_after w stores sites k stored) key
  holds_all key peers zero h = refl
  holds_all key peers (suc k) h = rw (h k (omega arith)) (
      ap (λ (o : Option Bytes). latest key o (sent w stores sites k))
        (holds_all key peers k (λ i lt. h i (omega (arith, lt))))
      ∙ sym (run-latest w stores sites (stored_after w stores sites k stored) (sites k).files key))

  -- Whichever process moves next, over sites that are sound, the data hosts being the addresses of
  -- the `n` nodes, in order and all different, and with a database that stores what it is sent and
  -- files of which those of one key are equal, at whichever workers: when the controller has
  -- nothing left to do, each key holds what it holds after the runs of the workers one after the
  -- other.
  pub finished-stored_after :
      (hosts : List Bytes) (k : ℕ) (t : System w) (key : Bytes)
      → AreHosts w sites n hosts
      → Steps w sites n (start w sites n hosts stored) k t
      → t.program ≡ []
      → stores.view t.stored key ≡ stores.view (stored_after w stores sites n stored) key
  finished-stored_after hosts k t key enough steps none_left =
      let first = start-Inv w s₀ sites n sound hosts stored enough in
      let last = Steps-Inv w s₀ sites n sound steps first in
      Steps-Holds steps first (λ other. sym (holds_none other n (stores.view stored other))) key
      ∙ holds_all key t.peers n (λ i lt.
        ap (λ (p : Peer w). ran p.worker.state)
          (over_peer w s₀ sites n sound t i none_left lt last))
