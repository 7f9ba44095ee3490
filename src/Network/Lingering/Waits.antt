-- ===== src/Network/Lingering/Waits.antt =====
-- The processes come to their end although a worker waits until its data message is taken.
use key_value_cluster_perf.Base.{
  ◌+◌, zero, suc, ℕ, ◌*◌, ◌<◌, ◌≤◌, Bool, true, false, Bytes, List, [], ◌≡◌, refl, ap, ◌⊎◌, inl,
  inr, arith,
}
use key_value_cluster_perf.Results.Delivery.{IsPlain}
use key_value_cluster_perf.Worker.{World}
use key_value_cluster_perf.Network.{Site, Peer}
use key_value_cluster_perf.Network.Sites.{IsSound}
use key_value_cluster_perf.Network.Program.{numbered}
use key_value_cluster_perf.Network.Invariant.{AreHosts}
use key_value_cluster_perf.Network.Collected.{results_at, exited}
use key_value_cluster_perf.Network.Interleaved.Reached.{reached-Mixed}
use key_value_cluster_perf.Network.Interleaved.Outcome.{interleaved_results, interleaved_exited}
use key_value_cluster_perf.Network.Interleaved.Ends.{most, interleaved_ends}
use key_value_cluster_perf.Network.Lingering.{Linger, Step, lingering_start, Steps, here, next}
use key_value_cluster_perf.Network.Lingering.Moves.{CanMove, step_moves}
use key_value_cluster_perf.Network.Lingering.Projection.{projected}

module _ (w : World) (s₀ : w.broker.State) (sites : ℕ → Site w) (n : ℕ)
    (sound : (i : ℕ) → IsSound w s₀ (sites i)) where
  module _ (stored : w.broker.State) where
    pub lingering_ends :
        (hosts : List Bytes) (k : ℕ) (s : Linger w)
        → AreHosts w sites n hosts
        → Steps w sites n (lingering_start w sites n hosts stored) k s
        → (k ≤ 2 * most w sites n s₀ sound stored)
          × ((s.mixture.system.program ≡ []) ⊎ CanMove w sites n s)
    lingering_ends hosts k s enough steps =
        let h = projected w sites n hosts stored steps in
        let (bound, moves) =
          interleaved_ends w sites n s₀ sound stored hosts h.moved s.mixture enough h.path in
        (
          omega (arith, h.few, bound),
          elim moves [
            | inl none_left ↦ inl none_left
            | inr (m, step) ↦ inr (
                step_moves w s₀ sites n sound stored s step
                  (reached-Mixed w s₀ sites n sound stored hosts enough h.path))
          ],
        )

    Steps-cons :
        {s s' u : Linger w} {k : ℕ}
        → Step w sites n s s'
        → Steps w sites n s' k u
        → Steps w sites n s (suc k) u
    Steps-cons step here = next here step
    Steps-cons step (next steps last) = next (Steps-cons step steps) last

    complete :
        (fuel k : ℕ) (hosts : List Bytes) (s : Linger w)
        → 2 * most w sites n s₀ sound stored < k + fuel
        → AreHosts w sites n hosts
        → Steps w sites n (lingering_start w sites n hosts stored) k s
        → (u : Linger w) × (j : ℕ) × Steps w sites n s j u × (u.mixture.system.program ≡ [])
    complete zero k hosts s enough_fuel enough steps =
        let bound = (lingering_ends hosts k s enough steps).0 in
        absurd (omega (arith, enough_fuel, bound))
    complete (suc fuel) k hosts s enough_fuel enough steps =
        elim ((lingering_ends hosts k s enough steps).1) [
          | inl none_left ↦ (s, 0, here, none_left)
          | inr (s', step) ↦
              let (u, j, later, none_left) =
                complete fuel (suc k) hosts s' (omega (arith, enough_fuel)) enough
                  (next steps step) in
              (u, suc j, Steps-cons step later, none_left)
        ]

    -- Whatever the processes have done so far, with each worker waiting until its data message is
    -- taken, they can go on to a state in which the controller has nothing left to do.
    pub lingering_completes :
        (hosts : List Bytes) (k : ℕ) (s : Linger w)
        → AreHosts w sites n hosts
        → Steps w sites n (lingering_start w sites n hosts stored) k s
        → (u : Linger w) × (j : ℕ) × Steps w sites n s j u × (u.mixture.system.program ≡ [])
    lingering_completes hosts k s enough steps =
        complete (suc (2 * most w sites n s₀ sound stored)) k hosts s (omega arith) enough steps

    held_not :
        (held : Bool) (p : Peer w)
        → (held ≡ true → p.replies ≡ [] → ⊥)
        → p ≡ exited w
        → held ≡ false
    held_not false p h gone = refl
    held_not true p h gone = absurd (h refl (ap (λ (q : Peer w). q.replies) gone))

    -- Whichever process moves next, the requests of several workers taking turns at the database,
    -- and each worker waiting with DONERESULTS until its data message is taken, over sites that are
    -- sound (the command socket bound, the constructor of the connector coming back on INIT, the
    -- data connections up, the results of a run short enough for the array), the data hosts being
    -- the addresses of the `n` nodes, in order and all different: when the controller has nothing
    -- left to do, its results are those of the workers' own runs, in the order of the hosts, no
    -- reply was wrong, and all workers are in the state EXIT with their connector deleted, with
    -- nothing on its way, and none of them waits.
    pub lingering_finished :
        (plain : IsPlain w.platform) (hosts : List Bytes) (k : ℕ) (s : Linger w)
        → AreHosts w sites n hosts
        → Steps w sites n (lingering_start w sites n hosts stored) k s
        → s.mixture.system.program ≡ []
        → (s.mixture.system.all_results ≡ numbered (results_at w s₀ sites) 0 n)
          × (s.mixture.system.wrong ≡ 0)
          × ((i : ℕ) → i < n → (s.mixture.system.peers i ≡ exited w) × (s.held i ≡ false))
    lingering_finished plain hosts k s enough steps none_left =
        let h = projected w sites n hosts stored steps in
        let m = s.mixture in
        let inv = reached-Mixed w s₀ sites n sound stored hosts enough h.path in
        (
          interleaved_results w s₀ sites n sound plain hosts stored h.moved m enough h.path
              none_left,
          inv.base.right,
          λ i lt.
              let gone =
                interleaved_exited w s₀ sites n sound hosts stored h.moved m i enough h.path
                  none_left lt in
              (gone, held_not (s.held i) (m.system.peers i) (h.replies i) gone),
        )
