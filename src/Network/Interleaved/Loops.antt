-- ===== src/Network/Interleaved/Loops.antt =====
-- The steps of a worker in GO: it begins its loop, and makes its requests.
use mathlib.Core.Path.{subst, fun_ext}
use key_value_cluster_perf.Base.{
  ℕ, suc, ◌<◌, ◌==◌, ==_iff, Bool, Bool-cases, true, false, Bytes, List, [], ◌∷◌, codes, ◌≡◌, refl,
  ap, sym, ◌∙◌, inl, inr, arith,
}
use key_value_cluster_perf.Connector.{Connector}
use key_value_cluster_perf.Worker.{World, ConnectorPointer, Command, command_of, new_connector}
use key_value_cluster_perf.Network.{update, Site, Peer, System}
use key_value_cluster_perf.Network.Sites.{IsSound}
use key_value_cluster_perf.Network.Staged.{update-cases, AtSite}
use key_value_cluster_perf.Network.Shared.{ran}
use key_value_cluster_perf.Network.Totals.{total-update}
use key_value_cluster_perf.Network.Progress.{measure}
use key_value_cluster_perf.Network.Invariant.{Inv}
use key_value_cluster_perf.Network.Requests
use key_value_cluster_perf.Network.Requests.{IsOver, Shared, mover}
use key_value_cluster_perf.Network.Interleaved.{
  Phase, idle, busy, over, is_busy, Mixture, Loop, first_loop, shared, after_begin, after_request,
}
use key_value_cluster_perf.Network.Interleaved.Go.{go-waits}
use key_value_cluster_perf.Network.Interleaved.Mirror.{mirror, restored_calm, mirror-update}
use key_value_cluster_perf.Network.Interleaved.Invariant.{
  one_if_idle, Fits, FitsAt, Mixed, Requested,
}

update_self {ℓ} : {A : Type ℓ} (f : ℕ → A) (i : ℕ) → update f i (f i) ≡ f
update_self f i =
    fun_ext (λ j. elim (Bool-cases (i == j)) [
      | inl e ↦ rw e (ap f ((==_iff i j).0 e))
      | inr e ↦ rw e refl
    ])

module _ (w : World) (s₀ : w.broker.State) (sites : ℕ → Site w) (n : ℕ)
    (sound : (i : ℕ) → IsSound w s₀ (sites i)) (stored : w.broker.State) where
  pub Inv-stored :
      (s : System w) (other : w.broker.State)
      → Inv w s₀ sites n sound s
      → Inv w s₀ sites n sound (record s { stored = other })
  Inv-stored s other h = record {
    staged = h.staged;
    right = h.right;
    books = h.books;
    apart = h.apart;
  }

  -- A worker that has not run, and is not in its loop.
  idle_of :
      (i : ℕ) (f : Phase) (b : Bool) (r : Loop w)
      → is_busy f ≡ false
      → b ≡ false
      → Fits w s₀ sites n sound stored i f b r
      → (f ≡ idle) × (r ≡ first_loop w (new_connector w) (sites i))
  idle_of i idle b r calm not_yet (_not_yet, first) = (refl, first)
  idle_of i busy b r calm not_yet h = cc
  idle_of i over b r calm not_yet (since, _over) = cc

  busy-Fits :
      (i : ℕ) (f : Phase) (b : Bool) (r : Loop w)
      → is_busy f ≡ true
      → Fits w s₀ sites n sound stored i f b r
  busy-Fits i busy b r h = tt
  busy-Fits i idle b r h = cc
  busy-Fits i over b r h = cc

  -- A worker that takes GO.
  record Takes (m : Mixture w) (i : ℕ) (command : Bytes) (commands : List Bytes)
      (d : Connector w.Duration) : Type 0 where
    mirrored : (mirror w m).peers ≡ (mirror w (after_begin w m i commands d (sites i))).peers
    runners : m.runners ≡ update m.runners i (first_loop w d (sites i))
    is_idle : m.phase i ≡ idle

  takes :
      (k : ℕ) (m : Mixture w) (i : ℕ) (command : Bytes) (commands : List Bytes)
      (d : Connector w.Duration)
      → i < n
      → is_busy (m.phase i) ≡ false
      → (m.system.peers i).commands ≡ command ∷ commands
      → command_of command ≡ Command.go
      → (m.system.peers i).worker.connector ≡ ConnectorPointer.live d
      → Mixed w s₀ sites n sound stored k m
      → Takes m i command commands d
  takes k m i command commands d lt calm waiting is_go live inv =
      let p = m.system.peers i in
      let stage = inv.base.staged.stage i in
      let at =
        subst (AtSite w s₀ sites n sound i stage) (restored_calm w (m.phase i) p calm)
          (inv.base.staged.at i lt) in
      let was = go-waits w s₀ sites n sound i stage p command commands at waiting is_go in
      let there : command ∷ commands ≡ codes "GO" ∷ [] =
        sym waiting ∙ ap (λ (q : Peer w). q.commands) was in
      let goes : command ≡ codes "GO" = cc in
      let is_new : ConnectorPointer.live d ≡ ConnectorPointer.live (new_connector w) =
        sym live ∙ ap (λ (q : Peer w). q.worker.connector) was in
      let new : d ≡ new_connector w = cc in
      let (is_idle, first) =
        idle_of i (m.phase i) _ (m.runners i) calm (ap (λ (q : Peer w). ran q.worker.state) was)
          (inv.fits i) in
      record {
        is_idle = is_idle;
        runners =
            sym (update_self m.runners i)
            ∙ ap (update m.runners i)
                (first ∙ ap (λ (e : Connector w.Duration). first_loop w e (sites i)) (sym new));
        mirrored =
            sym (update_self (mirror w m).peers i)
            ∙ ap (update (mirror w m).peers i) (
                restored_calm w (m.phase i) p calm
                ∙ ap (λ (cs : List Bytes). record p { commands = cs })
                    (waiting ∙ ap (λ (b : Bytes). b ∷ commands) goes))
            ∙ mirror-update w m.system.peers m.phase i (record p { commands = commands }) busy;
      }

  pub begin-Mixed :
      (k : ℕ) (m : Mixture w) (i : ℕ) (command : Bytes) (commands : List Bytes)
      (d : Connector w.Duration)
      → i < n
      → is_busy (m.phase i) ≡ false
      → (m.system.peers i).commands ≡ command ∷ commands
      → command_of command ≡ Command.go
      → (m.system.peers i).worker.connector ≡ ConnectorPointer.live d
      → Mixed w s₀ sites n sound stored k m
      → Mixed w s₀ sites n sound stored (suc k) (after_begin w m i commands d (sites i))
  begin-Mixed k m i command commands d lt calm waiting is_go live inv =
      let h = takes k m i command commands d lt calm waiting is_go live inv in
      let count = total-update one_if_idle m.phase i busy n lt in
      let one = ap one_if_idle h.is_idle in
      let same_measure =
        ap (λ (ps : ℕ → Peer w). measure w s₀ sites n sound (record m.system { peers = ps }))
          h.mirrored in
      record {
        base =
            subst (λ (ps : ℕ → Peer w). Inv w s₀ sites n sound (record m.system { peers = ps }))
              h.mirrored inv.base;
        fits = λ j. elim (Bool-cases (i == j)) [ inl e ↦ rw e tt | inr e ↦ rw e (inv.fits j) ];
        asked = inv.asked;
        requests =
            subst
              (λ (rs : ℕ → Loop w).
                Requested w s₀ sites n sound stored inv.asked
                  (record { stored = m.system.stored; runners = rs }))
              h.runners inv.requests;
        counted = omega (arith, inv.counted, count, one, same_measure);
      }

  request-FitsAt :
      (m : Mixture w) (i : ℕ) (r : Loop w) (j : ℕ)
      → is_busy (m.phase i) ≡ true
      → ((j : ℕ) → FitsAt w s₀ sites n sound stored m j)
      → FitsAt w s₀ sites n sound stored (record m { runners = update m.runners i r }) j
  request-FitsAt m i r j runs h =
      update-cases
        (λ (l : ℕ) (q : Loop w).
          Fits w s₀ sites n sound stored l (m.phase l) (ran (m.system.peers l).worker.state) q)
        m.runners i r j (busy-Fits i (m.phase i) _ r runs) (λ other. h j)

  request_fits :
      (m : Mixture w) {t : Shared w.codec w.broker w.plus} (j : ℕ)
      (step : Requests.Step w.codec w.broker w.plus n (shared w m) t)
      → is_busy (m.phase (mover w.codec w.broker w.plus n step)) ≡ true
      → ((j : ℕ) → FitsAt w s₀ sites n sound stored m j)
      → FitsAt w s₀ sites n sound stored (after_request w m t) j
  request_fits m j (Requests.Step.skip i lt none_waits first no_file) runs h =
      request-FitsAt m i _ j runs h
  request_fits m j (Requests.Step.put i lt none_waits first is_file) runs h =
      request-FitsAt m i _ j runs h
  request_fits m j (Requests.Step.get i lt waiting) runs h = request-FitsAt m i _ j runs h

  pub request-Mixed :
      (k : ℕ) (m : Mixture w) {t : Shared w.codec w.broker w.plus}
      (step : Requests.Step w.codec w.broker w.plus n (shared w m) t)
      → is_busy (m.phase (mover w.codec w.broker w.plus n step)) ≡ true
      → Mixed w s₀ sites n sound stored k m
      → Mixed w s₀ sites n sound stored (suc k) (after_request w m t)
  request-Mixed k m {t} step runs inv = record {
    base = Inv-stored (mirror w m) t.stored inv.base;
    fits = λ j. request_fits m j step runs inv.fits;
    asked = suc inv.asked;
    requests = Requests.Steps.next inv.requests step;
    counted = omega (arith, inv.counted);
  }
