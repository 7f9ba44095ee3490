-- ===== src/Network/Rounds.antt =====
-- One round of a worker, at each stage.
use mathlib.Core.Path.{subst}
use key_value_cluster_perf.Base.{true, ℕ, Bytes, List, [], ◌∷◌, ◌≡◌, refl, ap, sym, ◌∙◌, inl, inr}
use key_value_cluster_perf.Mq.{Outcome}
use key_value_cluster_perf.Mq.Lifecycle.{done-eq}
use key_value_cluster_perf.Worker.{World, Answer, command_of, handle_command, listening}
use key_value_cluster_perf.Network.{turn_at, Site, Peer}
use key_value_cluster_perf.Network.Stages.{Stage, fresh}
use key_value_cluster_perf.Network.Sites.{
  IsSound, work-answered, worked, answered, unanswered, stored_by,
}
use key_value_cluster_perf.Network.Staged.{AtSite}

-- A worker is in its loop, and what it does with its next command ends.
abbrev pub IsAble : (w : World) → Site w → w.broker.State → Bytes → Peer w → Type 0
IsAble w k stored command p =
    (listening p.worker.state ≡ true)
    × ((a : Answer w) × (handle_command w (command_of command) p.worker stored (turn_at w k command)
          ≡ Outcome.done a))

module _ (w : World) (s₀ : w.broker.State) (sites : ℕ → Site w) (n : ℕ)
    (sound : (i : ℕ) → IsSound w s₀ (sites i)) where
  no_command : (i : ℕ) (t : Stage) → (answered w s₀ (sites i) (sound i).text t).commands ≡ []
  no_command i fresh = refl
  no_command i t = refl

  -- What a worker's round with its next command comes to.
  abbrev Rounds : ℕ → Stage → w.broker.State → Bytes → List Bytes → Answer w → Peer w → Type 0
  Rounds i t stored command commands a p =
      p.commands ≡ command ∷ commands
      → handle_command w (command_of command) p.worker stored (turn_at w (sites i) command)
        ≡ Outcome.done a
      → (p ≡ unanswered w s₀ (sites i) (sound i).text t)
        × (worked w s₀ (sites i) p commands a ≡ answered w s₀ (sites i) (sound i).text t)
        × (a.stored ≡ stored_by w s₀ (sites i) t stored)

  unanswered-Rounds :
      (i : ℕ) (t : Stage) (stored : w.broker.State) (command : Bytes) (commands : List Bytes)
      (a : Answer w)
      → Rounds i t stored command commands a (unanswered w s₀ (sites i) (sound i).text t)
  unanswered-Rounds i t stored command commands a waiting does =
      let (a', does', _listens, becomes, leaves) =
        work-answered w s₀ (sites i) (sound i) t stored command commands waiting in
      let only = done-eq a a' (sym does ∙ does') in
      (
        refl,
        ap
              (λ (b : Answer w).
                worked w s₀ (sites i) (unanswered w s₀ (sites i) (sound i).text t) commands b)
              only
            ∙ becomes,
        ap (λ (b : Answer w). b.stored) only ∙ leaves,
      )

  -- A worker that does a command has answered it, and has changed the database if it was GO.
  pub at-Rounds :
      (i : ℕ) (t : Stage) (stored : w.broker.State) (command : Bytes) (commands : List Bytes)
      (a : Answer w) (p : Peer w)
      → AtSite w s₀ sites n sound i t p
      → Rounds i t stored command commands a p
  at-Rounds i t stored command commands a p (inl e) =
      subst (Rounds i t stored command commands a) (sym e)
        (unanswered-Rounds i t stored command commands a)
  at-Rounds i t stored command commands a p (inr e) = λ waiting does.
      let none_there = no_command i t in let there = ap (λ (q : Peer w). q.commands) e in cc

  abbrev Can : ℕ → w.broker.State → Bytes → List Bytes → Peer w → Type 0
  Can i stored command commands p =
      p.commands ≡ command ∷ commands → IsAble w (sites i) stored command p

  unanswered-Can :
      (i : ℕ) (t : Stage) (stored : w.broker.State) (command : Bytes) (commands : List Bytes)
      → Can i stored command commands (unanswered w s₀ (sites i) (sound i).text t)
  unanswered-Can i t stored command commands waiting =
      let (a, does, listens, _becomes, _stored) =
        work-answered w s₀ (sites i) (sound i) t stored command commands waiting in
      (listens, (a, does))

  -- A worker that has a command waiting is able to do it.
  pub at-Can :
      (i : ℕ) (t : Stage) (stored : w.broker.State) (command : Bytes) (commands : List Bytes)
      (p : Peer w)
      → AtSite w s₀ sites n sound i t p
      → Can i stored command commands p
  at-Can i t stored command commands p (inl e) =
      subst (Can i stored command commands) (sym e) (unanswered-Can i t stored command commands)
  at-Can i t stored command commands p (inr e) = λ waiting.
      let none_there = no_command i t in let there = ap (λ (q : Peer w). q.commands) e in cc
