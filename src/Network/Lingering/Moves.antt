-- ===== src/Network/Lingering/Moves.antt =====
-- Where a process of Network/Interleaved can move, one can move although workers wait.
use mathlib.Core.Path.{subst}
use key_value_cluster_perf.Base.{
  ℕ, ◌<◌, Bool-cases, false, Bytes, List, [], ◌∷◌, ◌≡◌, ap, sym, ◌∙◌, ◌⊎◌, inl, inr,
}
use key_value_cluster_perf.Worker.{World}
use key_value_cluster_perf.Network
use key_value_cluster_perf.Network.{Action, Site, Peer}
use key_value_cluster_perf.Network.Stages.{
  Call, get, Stage, todo, asked_init, asked_go, fetched, asked_exit,
}
use key_value_cluster_perf.Network.Sites.{IsSound}
use key_value_cluster_perf.Network.Calls.{no_message}
use key_value_cluster_perf.Network.Staged.{AtSite}
use key_value_cluster_perf.Network.Invariant.{call-Next}
use key_value_cluster_perf.Network.Interleaved
use key_value_cluster_perf.Network.Interleaved.{Phase, Mixture}
use key_value_cluster_perf.Network.Interleaved.Go.{none_waits}
use key_value_cluster_perf.Network.Interleaved.Invariant.{Mixed}
use key_value_cluster_perf.Network.Interleaved.Mirror.{
  mirror, restored, restored_messages, restored_calm,
}
use key_value_cluster_perf.Network.Lingering.{Linger, Step, go, release}

abbrev pub CanMove : (w : World) → (ℕ → Site w) → ℕ → Linger w → Type 0
CanMove w sites n s = (s' : Linger w) × Step w sites n s s'

module _ (w : World) (s₀ : w.broker.State) (sites : ℕ → Site w) (n : ℕ)
    (sound : (i : ℕ) → IsSound w s₀ (sites i)) where
  -- While the controller is to take a reply of a worker, no data message of it is on its way.
  get_no_message :
      (i : ℕ) (t : Stage) (p : Peer w) (expected : Bytes) (cs : List Call)
      → get expected ∷ cs ≡ todo t
      → AtSite w s₀ sites n sound i t p
      → p.messages ≡ []
  get_no_message i asked_init p expected cs h (inl e) = ap (λ (q : Peer w). q.messages) e
  get_no_message i asked_init p expected cs h (inr e) = ap (λ (q : Peer w). q.messages) e
  get_no_message i asked_go p expected cs h (inl e) = ap (λ (q : Peer w). q.messages) e
  get_no_message i asked_go p expected cs h (inr e) = ap (λ (q : Peer w). q.messages) e
  get_no_message i fetched p expected cs h (inl e) = ap (λ (q : Peer w). q.messages) e
  get_no_message i fetched p expected cs h (inr e) = ap (λ (q : Peer w). q.messages) e
  get_no_message i asked_exit p expected cs h (inl e) = ap (λ (q : Peer w). q.messages) e
  get_no_message i asked_exit p expected cs h (inr e) = ap (λ (q : Peer w). q.messages) e
  get_no_message i t p expected cs h at = cc

  -- Nor while a command waits at the worker.
  command_no_message :
      (i : ℕ) (t : Stage) (p : Peer w) (command : Bytes) (commands : List Bytes)
      → AtSite w s₀ sites n sound i t p
      → p.commands ≡ command ∷ commands
      → p.messages ≡ []
  command_no_message i t p command commands (inl e) waiting =
      ap (λ (q : Peer w). q.messages) e ∙ no_message w s₀ (sites i) (sound i).text t
  command_no_message i t p command commands (inr e) waiting =
      let none_there = none_waits w s₀ sites n sound i t in
      let there = ap (λ (q : Peer w). q.commands) e in cc

  -- A worker that is needed is free, or can be.
  freed :
      (s : Linger w) (i : ℕ)
      → i < n
      → (s.mixture.system.peers i).messages ≡ []
      → (s.held i ≡ false) ⊎ CanMove w sites n s
  freed s i lt taken = elim (Bool-cases (s.held i)) [
    | inl held ↦ inr (_, release i lt held taken)
    | inr calm ↦ inl calm
  ]

  module _ (stored : w.broker.State) where
    -- A worker that is not in its loop and at which a command waits.
    command_taken :
        {k : ℕ} (m : Mixture w) (i : ℕ) (command : Bytes) (commands : List Bytes)
        → i < n
        → Interleaved.is_busy (m.phase i) ≡ false
        → (m.system.peers i).commands ≡ command ∷ commands
        → Mixed w s₀ sites n sound stored k m
        → (m.system.peers i).messages ≡ []
    command_taken m i command commands lt calm waiting inv =
        let stage = inv.base.staged.stage i in
        command_no_message i stage (m.system.peers i) command commands
          (subst (AtSite w s₀ sites n sound i stage)
            (restored_calm w (m.phase i) (m.system.peers i) calm) (inv.base.staged.at i lt))
          waiting

    pub step_moves :
        {k : ℕ} (s : Linger w) {m : Mixture w}
        → Interleaved.Step w sites n s.mixture m
        → Mixed w s₀ sites n sound stored k s.mixture
        → CanMove w sites n s
    step_moves s (Interleaved.Step.whole (Network.Step.send i e) whole) inv =
        (_, go (Interleaved.Step.whole (Network.Step.send i e) whole) tt)
    step_moves s (Interleaved.Step.whole (Network.Step.get i {expected} {rest = rest} e r) whole)
          inv =
        let m = s.mixture in
        let (lt, (t, cs, left, at)) =
          call-Next w s₀ sites n sound (mirror w m) (Action.get i expected) rest e inv.base in
        let taken =
          sym (restored_messages w (m.phase i) (m.system.peers i))
          ∙ get_no_message i t (restored w (m.phase i) (m.system.peers i)) expected cs left at in
        elim (freed s i lt taken) [
          | inl calm ↦ (_, go (Interleaved.Step.whole (Network.Step.get i e r) whole) (inl calm))
          | inr moves ↦ moves
        ]
    step_moves s (Interleaved.Step.whole (Network.Step.fetch i e first lt is_host r got) whole)
          inv =
        (_, go (Interleaved.Step.whole (Network.Step.fetch i e first lt is_host r got) whole) tt)
    step_moves s
          (Interleaved.Step.whole
            (Network.Step.work i {command} {commands} lt bound listens waiting does)
            whole)
          inv =
        elim (freed s i lt (command_taken s.mixture i command commands lt whole.0 waiting inv)) [
          | inl calm ↦ (
            _,
            go (Interleaved.Step.whole (Network.Step.work i lt bound listens waiting does) whole)
                calm,
          )
          | inr moves ↦ moves
        ]
    step_moves s
          (Interleaved.Step.begin i {command} {commands} lt bound calm listens waiting is_go live)
          inv =
        elim (freed s i lt (command_taken s.mixture i command commands lt calm waiting inv)) [
          | inl free ↦
              (_, go (Interleaved.Step.begin i lt bound calm listens waiting is_go live) free)
          | inr moves ↦ moves
        ]
    step_moves s (Interleaved.Step.request step runs) inv =
        (_, go (Interleaved.Step.request step runs) tt)
    step_moves s (Interleaved.Step.finish i lt runs ended) inv =
        (_, go (Interleaved.Step.finish i lt runs ended) tt)
