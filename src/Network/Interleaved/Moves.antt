-- ===== src/Network/Interleaved/Moves.antt =====
-- The next step of a worker in GO, and the step that one of the mirrored state stands for.
use key_value_cluster_perf.Base.{
  List, ℕ, ◌<◌, Bytes, ◌∷◌, ◌≡◌, refl, ap, sym, ◌∙◌, inl, inr, true, false, ◌⊎◌,
}
use key_value_cluster_perf.Mq.{Outcome}
use key_value_cluster_perf.Connector.{Connector}
use key_value_cluster_perf.Worker.{
  World, Answer, Command, ConnectorPointer, command_of, listening, handle_command,
}
use key_value_cluster_perf.Network
use key_value_cluster_perf.Network.Requests
use key_value_cluster_perf.Network.Requests.{Shared, mover}
use key_value_cluster_perf.Network.{Site, System, turn_at}
use key_value_cluster_perf.Network.Requests.Bound.{runner-Moves}
use key_value_cluster_perf.Network.Interleaved.{
  Mixture, shared, is_busy, Step, whole, begin, request, finish, after_finish, after_request,
}
use key_value_cluster_perf.Network.Interleaved.Mirror.{
  mirror, restored_calm, restored_messages, restored_replies, Phase-cases,
}

-- A worker with a command begins its loop with it, or does not.
starts-cases :
    {T : Type 0} (p : ConnectorPointer T) (c : Command)
    → ((c ≡ Command.go) × (d : Connector T) × (p ≡ ConnectorPointer.live d))
      ⊎ ¬ ((c ≡ Command.go) × (d : Connector T) × (p ≡ ConnectorPointer.live d))
starts-cases (ConnectorPointer.live d) Command.go = inl (refl, d, refl)
starts-cases ConnectorPointer.unset Command.go = inr (λ h. let e = h.2 in cc)
starts-cases (ConnectorPointer.late d) Command.go = inr (λ h. let e = h.2 in cc)
starts-cases ConnectorPointer.deleted Command.go = inr (λ h. let e = h.2 in cc)
starts-cases p Command.init = inr (λ h. let e = h.0 in cc)
starts-cases p Command.get_results = inr (λ h. let e = h.0 in cc)
starts-cases p Command.restart = inr (λ h. let e = h.0 in cc)
starts-cases p Command.exit_command = inr (λ h. let e = h.0 in cc)
starts-cases p Command.unknown = inr (λ h. let e = h.0 in cc)

module _ (w : World) (sites : ℕ → Site w) (n : ℕ) where
  abbrev pub CanMove : Mixture w → Type 0
  CanMove m = (m' : Mixture w) × Step w sites n m m'

  -- A worker in its loop can reply, or its connector can make a request.
  abbrev pub LoopMoves : Mixture w → ℕ → Type 0
  LoopMoves m i =
      Step w sites n m (after_finish w m i)
      ⊎ ((t : Shared w.codec w.broker w.plus) × (step : Requests.Step w.codec w.broker w.plus n
            (shared w m) t)
          × (mover w.codec w.broker w.plus n step ≡ i)
          × Step w sites n m (after_request w m t))

  pub loop_moves : (m : Mixture w) (i : ℕ) → i < n → is_busy (m.phase i) ≡ true → LoopMoves m i
  loop_moves m i lt runs = elim (runner-Moves w.codec w.broker w.plus n (shared w m) i lt) [
    | inl ended ↦ inl (finish i lt runs ended)
    | inr (t, step, moved) ↦
        inr (t, step, moved, request step (ap (λ (j : ℕ). is_busy (m.phase j)) moved ∙ runs))
  ]

  loop-CanMove : (m : Mixture w) (i : ℕ) → LoopMoves m i → CanMove m
  loop-CanMove m i (inl step) = (_, step)
  loop-CanMove m i (inr (t, asks, moved, step)) = (_, step)

  -- A worker that is not in its loop takes its next command.
  command_moves :
      (m : Mixture w) (i : ℕ) {command : Bytes} {commands : List Bytes} {a : Answer w}
      → i < n
      → (sites i).bound ≡ true
      → is_busy (m.phase i) ≡ false
      → listening (m.system.peers i).worker.state ≡ true
      → (m.system.peers i).commands ≡ command ∷ commands
      → handle_command w
          (command_of command)
          (m.system.peers i).worker
          m.system.stored
          (turn_at w (sites i) command)
        ≡ Outcome.done a
      → CanMove m
  command_moves m i {command} lt bound calm listens waiting does =
      elim (starts-cases (m.system.peers i).worker.connector (command_of command)) [
        | inl (is_go, d, live) ↦ (_, begin i lt bound calm listens waiting is_go live)
        | inr no_run ↦ (_, whole (Network.Step.work i lt bound listens waiting does) (calm, no_run))
      ]

  -- A step of the mirrored state can be made, or one that leads to it.
  pub mirror_moves :
      (m : Mixture w) {t : System w} → Network.Step w sites n (mirror w m) t → CanMove m
  mirror_moves m (Network.Step.send i e) = (_, whole (Network.Step.send i e) tt)
  mirror_moves m (Network.Step.get i e r) = (
    _,
    whole (Network.Step.get i e (sym (restored_replies w (m.phase i) (m.system.peers i)) ∙ r)) tt,
  )
  mirror_moves m (Network.Step.fetch i {j = j} e first lt is_host r got) = (
    _,
    whole
        (Network.Step.fetch i e first lt is_host
          (sym (restored_messages w (m.phase j) (m.system.peers j)) ∙ r) got)
        tt,
  )
  mirror_moves m (Network.Step.work i {command} lt bound listens waiting does) =
      elim (Phase-cases (m.phase i)) [
        | inl runs ↦ loop-CanMove m i (loop_moves m i lt (ap is_busy runs))
        | inr calm ↦
            let same = restored_calm w (m.phase i) (m.system.peers i) calm in
            command_moves m i lt bound calm
              (ap (λ (p : Network.Peer w). listening p.worker.state) (sym same) ∙ listens)
              (ap (λ (p : Network.Peer w). p.commands) (sym same) ∙ waiting)
              (ap
                  (λ (p : Network.Peer w).
                    handle_command w (command_of command) p.worker m.system.stored
                      (turn_at w (sites i) command))
                  (sym same)
                ∙ does)
      ]
