-- ===== src/Network/Interleaved/Go.antt =====
-- The command GO among the stages of a worker: it has it waiting at one stage only, and no other
-- round changes the database or whether the worker has run.
use key_value_cluster_perf.Base.{
  ℕ, Bytes, List, [], ◌∷◌, codes, ◌≡◌, refl, ap, sym, ◌∙◌, inl, inr, ◌⊎◌,
}
use key_value_cluster_perf.Mq.{Outcome}
use key_value_cluster_perf.Worker.{
  World, Answer, Command, command_of, handle_command, new_connector,
}
use key_value_cluster_perf.Network.{Site, Peer, turn_at}
use key_value_cluster_perf.Network.Stages.{
  Stage, fresh, asked_init, asked_go, asked_results, asked_exit,
}
use key_value_cluster_perf.Network.Sites.{IsSound, answered, unanswered, stored_by}
use key_value_cluster_perf.Network.Staged.{AtSite}
use key_value_cluster_perf.Network.Rounds.{at-Rounds}
use key_value_cluster_perf.Network.Shared.{ran}
use key_value_cluster_perf.Network.Interleaved.{StartsRun}

module _ (w : World) (s₀ : w.broker.State) (sites : ℕ → Site w) (n : ℕ)
    (sound : (i : ℕ) → IsSound w s₀ (sites i)) where
  abbrev pub waits : ℕ → Stage → Peer w
  waits i t = unanswered w s₀ (sites i) (sound i).text t

  go-stage :
      (i : ℕ) (t : Stage) (command : Bytes) (commands : List Bytes)
      → (waits i t).commands ≡ command ∷ commands
      → command_of command ≡ Command.go
      → t ≡ asked_go
  unfolding command_of
  go-stage i asked_go command commands h e = refl
  go-stage i asked_init command commands h e =
      let is_init : command ≡ codes "INIT" = cc in
      let other : Command.init ≡ Command.go = ap command_of (sym is_init) ∙ e in cc
  go-stage i asked_results command commands h e =
      let is_results : command ≡ codes "GETRESULTS" = cc in
      let other : Command.get_results ≡ Command.go = ap command_of (sym is_results) ∙ e in cc
  go-stage i asked_exit command commands h e =
      let is_exit : command ≡ codes "EXIT" = cc in
      let other : Command.exit_command ≡ Command.go = ap command_of (sym is_exit) ∙ e in cc
  go-stage i t command commands h e = cc

  pub none_waits : (i : ℕ) (t : Stage) → (answered w s₀ (sites i) (sound i).text t).commands ≡ []
  none_waits i fresh = refl
  none_waits i t = refl

  -- A worker at which GO waits is at the stage where it has not read it.
  pub go-waits :
      (i : ℕ) (t : Stage) (p : Peer w) (command : Bytes) (commands : List Bytes)
      → AtSite w s₀ sites n sound i t p
      → p.commands ≡ command ∷ commands
      → command_of command ≡ Command.go
      → p ≡ waits i asked_go
  go-waits i t p command commands (inl e) waiting is_go =
      e
      ∙ ap (waits i)
          (go-stage i t command commands (sym (ap (λ (q : Peer w). q.commands) e) ∙ waiting) is_go)
  go-waits i t p command commands (inr e) waiting is_go =
      let none_there = none_waits i t in let there = ap (λ (q : Peer w). q.commands) e in cc

  -- The stage at which GO waits, or a round that leaves the database as it is.
  stage-cases :
      (i : ℕ) (t : Stage) (stored : w.broker.State)
      → (t ≡ asked_go)
        ⊎ ((ran (answered w s₀ (sites i) (sound i).text t).worker.state
              ≡ ran (waits i t).worker.state)
            × (stored_by w s₀ (sites i) t stored ≡ stored))
  stage-cases i asked_go stored = inl refl
  stage-cases i fresh stored = inr (refl, refl)
  stage-cases i t stored = inr (refl, refl)

  -- A round that is no GO of a worker with a connector.
  pub quiet-round :
      (i : ℕ) (t : Stage) (p : Peer w) (stored : w.broker.State) (command : Bytes)
      (commands : List Bytes) (a : Answer w)
      → AtSite w s₀ sites n sound i t p
      → p.commands ≡ command ∷ commands
      → handle_command w (command_of command) p.worker stored (turn_at w (sites i) command)
        ≡ Outcome.done a
      → ¬ StartsRun p.worker command
      → (ran a.worker.state ≡ ran p.worker.state) × (a.stored ≡ stored)
  unfolding command_of
  quiet-round i t p stored command commands a at waiting does no_run =
      let (was, becomes, leaves) =
        at-Rounds w s₀ sites n sound i t stored command commands a p at waiting does in
      elim (stage-cases i t stored) [
        | inr (as_before, kept) ↦ (
          ap (λ (q : Peer w). ran q.worker.state) becomes
              ∙ as_before
              ∙ sym (ap (λ (q : Peer w). ran q.worker.state) was),
          leaves ∙ kept,
        )
        | inl is_go ↦
            let at_go : p ≡ waits i asked_go = was ∙ ap (waits i) is_go in
            let there : command ∷ commands ≡ codes "GO" ∷ [] =
              sym waiting ∙ ap (λ (q : Peer w). q.commands) at_go in
            let goes : command ≡ codes "GO" = cc in
            absurd (
              no_run (
                ap command_of goes,
                new_connector w,
                ap (λ (q : Peer w). q.worker.connector) at_go,
              ))
      ]
