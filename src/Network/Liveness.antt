-- ===== src/Network/Liveness.antt =====
-- The processes of the controller and the workers do not get stuck, and the number of their steps
-- is known in advance.
use key_value_cluster_perf.Base.{
  ◌∷◌, ℕ, zero, suc, ◌+◌, ◌*◌, ◌<◌, Bytes, List, [], ◌≡◌, refl, arith, inl, inr, ◌⊎◌,
}
use key_value_cluster_perf.Worker.{World}
use key_value_cluster_perf.Network.{Site, System, Step, start, Steps, here, next}
use key_value_cluster_perf.Network.Sites.{IsSound}
use key_value_cluster_perf.Network.Program.{weight-session}
use key_value_cluster_perf.Network.Totals.{total_none}
use key_value_cluster_perf.Network.Rounds.{IsAble, at-Can}
use key_value_cluster_perf.Network.Progress.{unread, measure, Steps-measure, over-measure, moves}
use key_value_cluster_perf.Network.Invariant.{AreHosts, Inv, start-Inv}
use key_value_cluster_perf.Network.Preserved.{Steps-Inv}

module _ (w : World) (s₀ : w.broker.State) (sites : ℕ → Site w) (n : ℕ)
    (sound : (i : ℕ) → IsSound w s₀ (sites i)) where
  Steps-cons :
      {s t u : System w} {k : ℕ}
      → Step w sites n s t
      → Steps w sites n t k u
      → Steps w sites n s (suc k) u
  Steps-cons step here = next here step
  Steps-cons step (next steps last) = next (Steps-cons step steps) last

  abbrev Completes : System w → Type 0
  Completes s = (u : System w) × (j : ℕ) × Steps w sites n s j u × (u.program ≡ [])

  complete :
      (m : ℕ) (s : System w)
      → measure w s₀ sites n sound s ≡ m
      → Inv w s₀ sites n sound s
      → Completes s
  complete zero s e h = elim (moves w s₀ sites n sound s h) [
    | inl none_left ↦ (s, 0, here, none_left)
    | inr (t, _step, less, _h) ↦ absurd (omega (arith, e, less))
  ]
  complete (suc m) s e h = elim (moves w s₀ sites n sound s h) [
    | inl none_left ↦ (s, 0, here, none_left)
    | inr (t, step, less, h') ↦
        let (u, j, steps, none_left) = complete m t (omega (arith, e, less)) h' in
        (u, suc j, Steps-cons step steps, none_left)
  ]

  start-measure :
      (hosts : List Bytes) (stored : w.broker.State)
      → measure w s₀ sites n sound (start w sites n hosts stored) ≡ 13 * n
  start-measure hosts stored =
      let none = total_none (unread w) (start w sites n hosts stored).peers n (λ i lt. refl) in
      omega (arith, none, weight-session n)

  count :
      (hosts : List Bytes) (stored : w.broker.State) (k : ℕ) (t : System w)
      → AreHosts w sites n hosts
      → Steps w sites n (start w sites n hosts stored) k t
      → k + measure w s₀ sites n sound t ≡ 13 * n
  count hosts stored k t enough steps =
      let total =
        Steps-measure w s₀ sites n sound steps (start-Inv w s₀ sites n sound hosts stored enough) in
      omega (arith, total, start-measure hosts stored)

  -- Whichever process moves next, over sites that are sound, the data hosts being the addresses of
  -- the `n` nodes, in order and all different: an execution of `k` steps has finished, with all
  -- commands done and exactly 13 * n steps, or is shorter and some process can move. So there is
  -- no deadlock, and no endless execution.
  pub ends :
      (hosts : List Bytes) (stored : w.broker.State) (k : ℕ) (t : System w)
      → AreHosts w sites n hosts
      → Steps w sites n (start w sites n hosts stored) k t
      → ((t.program ≡ []) × (k ≡ 13 * n)) ⊎ ((k < 13 * n) × ((u : System w) × Step w sites n t u))
  ends hosts stored k t enough steps =
      let h =
        Steps-Inv w s₀ sites n sound steps (start-Inv w s₀ sites n sound hosts stored enough) in
      let total = count hosts stored k t enough steps in
      elim (moves w s₀ sites n sound t h) [
        | inl none_left ↦
            let zero_left = over-measure w s₀ sites n sound t none_left h in
            inl (none_left, omega (arith, total, zero_left))
        | inr (u, step, less, _h) ↦ inr (omega (arith, total, less), (u, step))
      ]

  -- Whatever the processes have done so far, they can go on to a state in which the controller has
  -- nothing left to do, and all of it takes 13 * n steps: over sites that are sound, the data
  -- hosts being the addresses of the `n` nodes, in order and all different.
  pub completes :
      (hosts : List Bytes) (stored : w.broker.State) (k : ℕ) (t : System w)
      → AreHosts w sites n hosts
      → Steps w sites n (start w sites n hosts stored) k t
      → (u : System w) × (j : ℕ) × Steps w sites n t j u × (u.program ≡ []) × (k + j ≡ 13 * n)
  completes hosts stored k t enough steps =
      let h =
        Steps-Inv w s₀ sites n sound steps (start-Inv w s₀ sites n sound hosts stored enough) in
      let (u, j, later, none_left) = complete (measure w s₀ sites n sound t) t refl h in
      let total = count hosts stored k t enough steps in
      let rest = Steps-measure w s₀ sites n sound later h in
      let zero_left =
        over-measure w s₀ sites n sound u none_left (Steps-Inv w s₀ sites n sound later h) in
      (u, j, later, none_left, omega (arith, total, rest, zero_left))

  -- Whichever process moves next, over sites that are sound, the data hosts being the addresses of
  -- the `n` nodes, in order and all different: in every state that is reached, a worker at which a
  -- command waits is in its loop, and what it does with the command ends, with no fault and no
  -- wait.
  pub able :
      (hosts : List Bytes) (stored : w.broker.State) (k : ℕ) (t : System w) (i : ℕ)
      (command : Bytes) (commands : List Bytes)
      → AreHosts w sites n hosts
      → Steps w sites n (start w sites n hosts stored) k t
      → i < n
      → (t.peers i).commands ≡ command ∷ commands
      → IsAble w (sites i) t.stored command (t.peers i)
  able hosts stored k t i command commands enough steps lt waiting =
      let h =
        Steps-Inv w s₀ sites n sound steps (start-Inv w s₀ sites n sound hosts stored enough) in
      at-Can w s₀ sites n sound i (h.staged.stage i) t.stored command commands (t.peers i)
        (h.staged.at i lt) waiting
