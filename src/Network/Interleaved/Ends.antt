-- ===== src/Network/Interleaved/Ends.antt =====
-- The processes do not get stuck, and their steps are bounded, where the requests of several
-- workers take turns at the database.
use key_value_cluster_perf.Base.{
  zero, suc, List, [], ℕ, ◌+◌, ◌*◌, ◌<◌, ◌≤◌, Bytes, ◌∷◌, ◌≡◌, inl, inr, arith, false, ◌⊎◌,
}
use key_value_cluster_perf.Worker.{World}
use key_value_cluster_perf.Network.Rounds.{IsAble}
use key_value_cluster_perf.Network.{Site}
use key_value_cluster_perf.Network.Sites.{IsSound}
use key_value_cluster_perf.Network.Invariant.{AreHosts}
use key_value_cluster_perf.Network.Progress
use key_value_cluster_perf.Network.Requests.Bound.{all_entries, stops}
use key_value_cluster_perf.Network.Interleaved.{Mixture, is_busy, opening, Step, Steps, here, next}
use key_value_cluster_perf.Network.Interleaved.Invariant.{connectors, files}
use key_value_cluster_perf.Network.Interleaved.Mirror.{mirror}
use key_value_cluster_perf.Network.Interleaved.Reached.{reached-Mixed}
use key_value_cluster_perf.Network.Interleaved.Moves.{CanMove, LoopMoves, mirror_moves}

module _ (w : World) (sites : ℕ → Site w) (n : ℕ) where
  Steps-cons :
      {m m' u : Mixture w} {k : ℕ}
      → Step w sites n m m'
      → Steps w sites n m' k u
      → Steps w sites n m (suc k) u
  Steps-cons step here = next here step
  Steps-cons step (next steps last) = next (Steps-cons step steps) last

  module _ (s₀ : w.broker.State) (sound : (i : ℕ) → IsSound w s₀ (sites i))
      (stored : w.broker.State) where
    -- Two steps for each entry of a worker, and fourteen for each worker.
    abbrev pub most : ℕ
    most = 14 * n + 2 * all_entries (files w s₀ sites n sound stored) n

    pub interleaved_ends :
        (hosts : List Bytes) (k : ℕ) (m : Mixture w)
        → AreHosts w sites n hosts
        → Steps w sites n (opening w sites n hosts stored) k m
        → (k ≤ most) × ((m.system.program ≡ []) ⊎ CanMove w sites n m)
    interleaved_ends hosts k m enough steps =
        let inv = reached-Mixed w s₀ sites n sound stored hosts enough steps in
        let asked =
          (stops w.codec w.broker w.plus n stored (connectors w s₀ sites n sound stored)
            (files w s₀ sites n sound stored) inv.asked _ inv.requests).0 in
        (
          omega (arith, inv.counted, asked),
          elim (Progress.moves w s₀ sites n sound (mirror w m) inv.base) [
            | inl none_left ↦ inl none_left
            | inr (t, step, _less, _inv) ↦ inr (mirror_moves w sites n m step)
          ],
        )

    abbrev Completes : Mixture w → Type 0
    Completes m = (u : Mixture w) × (j : ℕ) × Steps w sites n m j u × (u.system.program ≡ [])

    complete :
        (fuel k : ℕ) (hosts : List Bytes) (m : Mixture w)
        → most < k + fuel
        → AreHosts w sites n hosts
        → Steps w sites n (opening w sites n hosts stored) k m
        → Completes m
    complete zero k hosts m enough_fuel enough steps =
        let bound = (interleaved_ends hosts k m enough steps).0 in
        absurd (omega (arith, enough_fuel, bound))
    complete (suc fuel) k hosts m enough_fuel enough steps =
        elim ((interleaved_ends hosts k m enough steps).1) [
          | inl none_left ↦ (m, 0, here, none_left)
          | inr (m', step) ↦
              let (u, j, later, none_left) =
                complete fuel (suc k) hosts m' (omega (arith, enough_fuel)) enough
                  (next steps step) in
              (u, suc j, Steps-cons step later, none_left)
        ]

    pub interleaved_completes :
        (hosts : List Bytes) (k : ℕ) (m : Mixture w)
        → AreHosts w sites n hosts
        → Steps w sites n (opening w sites n hosts stored) k m
        → (u : Mixture w) × (j : ℕ) × Steps w sites n m j u × (u.system.program ≡ [])
    interleaved_completes hosts k m enough steps =
        complete (suc most) k hosts m (omega arith) enough steps

    -- A worker waits for a command, or can do the one that waits for it, or is in its loop and can
    -- go on.
    abbrev pub WorkerCan : Mixture w → ℕ → Type 0
    WorkerCan m i =
        ((is_busy (m.phase i) ≡ false) × ((m.system.peers i).commands ≡ []))
        ⊎ ((is_busy (m.phase i) ≡ false)
            × (command : Bytes) × (commands : List Bytes) × ((m.system.peers i).commands
                ≡ command ∷ commands)
            × IsAble w (sites i) m.system.stored command (m.system.peers i))
        ⊎ LoopMoves w sites n m i
