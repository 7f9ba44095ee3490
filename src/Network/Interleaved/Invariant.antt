-- ===== src/Network/Interleaved/Invariant.antt =====
-- What holds in every state that the processes reach, where the requests of several workers take
-- turns: the mirrored state is as in Network, and the loops are those of Network.Requests.
use mathlib.Core.Path.{subst}
use key_value_cluster_perf.Base.{
  ℕ, suc, ◌+◌, ◌*◌, Bool, true, false, List, [], ◌∷◌, ◌++◌, ◌≡◌, refl, sym, arith,
}
use key_value_cluster_perf.Connector.{Connector, Entry}
use key_value_cluster_perf.Worker.{World, new_connector}
use key_value_cluster_perf.Network
use key_value_cluster_perf.Network.{update, Site, Peer, System}
use key_value_cluster_perf.Network.Sites.{IsSound}
use key_value_cluster_perf.Network.Staged.{update-cases, AtSite}
use key_value_cluster_perf.Network.Shared.{ran, files_of}
use key_value_cluster_perf.Network.Totals.{total}
use key_value_cluster_perf.Network.Progress.{measure, Step-measure}
use key_value_cluster_perf.Network.Invariant.{Inv}
use key_value_cluster_perf.Network.Preserved.{Step-Inv}
use key_value_cluster_perf.Network.Requests
use key_value_cluster_perf.Network.Requests.{IsOver, Shared, mover}
use key_value_cluster_perf.Network.Interleaved.{
  Phase, idle, busy, over, Mixture, IsWhole, Loop, first_loop, shared,
}
use key_value_cluster_perf.Network.Interleaved.Go.{quiet-round}
use key_value_cluster_perf.Network.Interleaved.Mirror.{mirror, restored_calm, mirror-Step}

-- A worker that has not begun GO.
abbrev pub one_if_idle : Phase → ℕ
one_if_idle idle = 1
one_if_idle f = 0

module _ (w : World) (s₀ : w.broker.State) (sites : ℕ → Site w) (n : ℕ)
    (sound : (i : ℕ) → IsSound w s₀ (sites i)) (stored : w.broker.State) where
  abbrev pub files : ℕ → List (Entry w.Duration)
  files i = files_of (sites i).files

  abbrev pub connectors : ℕ → Connector w.Duration
  connectors i = new_connector w

  -- A worker that has not run has not begun its loop, and one that has run is through with it.
  abbrev pub Fits : ℕ → Phase → Bool → Loop w → Type 0
  Fits i idle has_run r = (has_run ≡ false) × (r ≡ first_loop w (new_connector w) (sites i))
  Fits i busy has_run r = Unit
  Fits i over has_run r = (has_run ≡ true) × IsOver w.codec w.broker w.plus r

  abbrev pub Requested : ℕ → Shared w.codec w.broker w.plus → Type 0
  Requested k s =
      Requests.Steps w.codec w.broker w.plus n
        (Requests.begin w.codec w.broker w.plus stored connectors files) k s

  abbrev pub FitsAt : Mixture w → ℕ → Type 0
  FitsAt m i = Fits i (m.phase i) (ran (m.system.peers i).worker.state) (m.runners i)

  -- `k` steps have been made, `asked` of them those of the loops.
  pub record Mixed (k : ℕ) (m : Mixture w) : Type 0 where
    pub base : Inv w s₀ sites n sound (mirror w m)
    pub fits : (i : ℕ) → FitsAt m i
    pub asked : ℕ
    pub requests : Requested asked (shared w m)
    pub counted :
        k + measure w s₀ sites n sound (mirror w m) + total one_if_idle m.phase n ≡ 14 * n + asked

  -- A peer whose worker has run just as before.
  Fits-ran : (i : ℕ) (f : Phase) (b b' : Bool) (r : Loop w) → b' ≡ b → Fits i f b r → Fits i f b' r
  Fits-ran i f b b' r e h = subst (λ (x : Bool). Fits i f x r) (sym e) h

  peer-Fits :
      (m : Mixture w) (i : ℕ) (p : Peer w) (j : ℕ)
      → ran p.worker.state ≡ ran (m.system.peers i).worker.state
      → ((j : ℕ) → FitsAt m j)
      → Fits j (m.phase j) (ran (update m.system.peers i p j).worker.state) (m.runners j)
  peer-Fits m i p j same_ran h =
      update-cases (λ (l : ℕ) (q : Peer w). Fits l (m.phase l) (ran q.worker.state) (m.runners l))
        m.system.peers i p j (Fits-ran i (m.phase i) _ _ (m.runners i) same_ran (h i))
        (λ other. h j)

  abbrev Kept : Mixture w → System w → Type 0
  Kept m t =
      ((j : ℕ) → Fits j (m.phase j) (ran (t.peers j).worker.state) (m.runners j))
      × (t.stored ≡ m.system.stored)

  whole-Kept :
      (m : Mixture w) {t : System w} (step : Network.Step w sites n m.system t)
      → IsWhole w sites n m step
      → Inv w s₀ sites n sound (mirror w m)
      → ((j : ℕ) → FitsAt m j)
      → Kept m t
  whole-Kept m (Network.Step.send i {command} e) h inv fits =
      let p = m.system.peers i in
      (λ j. peer-Fits m i (record p { commands = p.commands ++ (command ∷ []) }) j refl fits, refl)
  whole-Kept m (Network.Step.get i {replies = replies} e r) h inv fits =
      (λ j. peer-Fits m i (record (m.system.peers i) { replies = replies }) j refl fits, refl)
  whole-Kept m (Network.Step.fetch i {j = l} {messages = messages} e first lt is_host r got) h inv
        fits =
      (λ j. peer-Fits m l (record (m.system.peers l) { messages = messages }) j refl fits, refl)
  whole-Kept m (Network.Step.work i {command} {commands} {a} lt bound listens waiting does) h inv
        fits =
      let p = m.system.peers i in
      let at =
        subst (AtSite w s₀ sites n sound i (inv.staged.stage i)) (restored_calm w (m.phase i) p h.0)
          (inv.staged.at i lt) in
      let (same_ran, kept) =
        quiet-round w s₀ sites n sound i (inv.staged.stage i) p m.system.stored command commands a
          at waiting does h.1 in
      (λ j. peer-Fits m i _ j same_ran fits, kept)

  pub whole-Mixed :
      (k : ℕ) (m : Mixture w) {t : System w} (step : Network.Step w sites n m.system t)
      → IsWhole w sites n m step
      → Mixed k m
      → Mixed (suc k) (record m { system = t })
  whole-Mixed k m {t} step h inv =
      let step' = mirror-Step w sites n m step h in
      let (fits, kept) = whole-Kept m step h inv.base inv.fits in
      let less = Step-measure w s₀ sites n sound step' inv.base in
      record {
        base = Step-Inv w s₀ sites n sound step' inv.base;
        fits = fits;
        asked = inv.asked;
        requests =
            subst
              (λ (s : w.broker.State).
                Requested inv.asked (record { stored = s; runners = m.runners }))
              (sym kept) inv.requests;
        counted = omega (arith, inv.counted, less);
      }
