-- ===== src/Network/Interleaved/Replies.antt =====
-- The end of a worker's GO, where its connector has counted what it counts alone.
use mathlib.Core.Path.{subst}
use key_value_cluster_perf.Base.{
  ℕ, suc, ◌<◌, ◌==◌, ==_iff, Bool-cases, true, Bytes, List, [], ◌∷◌, codes, ◌≡◌, refl, ap, sym, ◌∙◌,
  inl, inr, arith,
}
use key_value_cluster_perf.Connector.{Connector}
use key_value_cluster_perf.Worker.{
  World, Answer, listening, handle_command, command_of, new_connector,
}
use key_value_cluster_perf.Network
use key_value_cluster_perf.Network.{update, Site, Peer, System, after_work, turn_at}
use key_value_cluster_perf.Network.Stages.{asked_go}
use key_value_cluster_perf.Network.Sites.{IsSound, work-answered, worked, connector}
use key_value_cluster_perf.Network.Shared.{run_entries-files_of}
use key_value_cluster_perf.Network.Totals.{total-update}
use key_value_cluster_perf.Network.Progress.{measure, Step-measure}
use key_value_cluster_perf.Network.Invariant.{Inv}
use key_value_cluster_perf.Network.Preserved.{Step-Inv}
use key_value_cluster_perf.Network.Requests.{IsOver}
use key_value_cluster_perf.Network.Requests.Alone.{Steps-Runs, over-Runs}
use key_value_cluster_perf.Network.Interleaved.{
  Phase, idle, busy, over, is_busy, Mixture, after_finish, has_run,
}
use key_value_cluster_perf.Network.Interleaved.Go.{waits, go-waits}
use key_value_cluster_perf.Network.Interleaved.Mirror.{mirror, restored, mirror-update}
use key_value_cluster_perf.Network.Interleaved.Invariant.{
  one_if_idle, FitsAt, Mixed, files, connectors,
}
use key_value_cluster_perf.Network.Interleaved.Loops.{Inv-stored}

module _ (w : World) (s₀ : w.broker.State) (sites : ℕ → Site w) (n : ℕ)
    (sound : (i : ℕ) → IsSound w s₀ (sites i)) (stored : w.broker.State) where
  -- What a connector has counted that is through with its loop.
  pub counted_alone :
      {k : ℕ} (m : Mixture w) (i : ℕ)
      → Mixed w s₀ sites n sound stored k m
      → IsOver w.codec w.broker w.plus (m.runners i)
      → (m.runners i).connector ≡ connector w s₀ (sites i)
  counted_alone m i inv (none_waits, none_left) =
      (over-Runs w.codec w.broker w.plus s₀ (new_connector w) (files w s₀ sites n sound stored i)
        (m.runners i) none_waits none_left
        (Steps-Runs w.codec w.broker w.plus s₀ (connectors w s₀ sites n sound stored)
          (files w s₀ sites n sound stored) n stored i inv.requests)).0
      ∙ ap (λ (r : Connector w.Duration × w.broker.State × List Bytes). r.0)
          (run_entries-files_of w (new_connector w) s₀ (sites i).files)

  is_busy-eq : (f : Phase) → is_busy f ≡ true → f ≡ busy
  is_busy-eq busy h = refl
  is_busy-eq idle h = cc
  is_busy-eq over h = cc

  -- A worker in its loop: in the mirrored state it has GO to do.
  pub in_loop :
      {k : ℕ} (m : Mixture w) (i : ℕ)
      → i < n
      → is_busy (m.phase i) ≡ true
      → Mixed w s₀ sites n sound stored k m
      → restored w (m.phase i) (m.system.peers i) ≡ waits w s₀ sites n sound i asked_go
  unfolding command_of
  in_loop m i lt runs inv =
      let p = m.system.peers i in
      let f = is_busy-eq (m.phase i) runs in
      go-waits w s₀ sites n sound i (inv.base.staged.stage i) (restored w (m.phase i) p)
        (codes "GO") p.commands (inv.base.staged.at i lt)
        (ap (λ (g : Phase). (restored w g p).commands) f) refl

  -- A round of GO in the mirrored state leaves what the reply leaves.
  record Replies (m : Mixture w) (i : ℕ) : Type 0 where
    answer : Answer w
    step : Network.Step w sites n (mirror w m) (after_work w (mirror w m) i [] answer)
    mirrored : (after_work w (mirror w m) i [] answer).peers ≡ (mirror w (after_finish w m i)).peers

  abbrev untaken : Peer w → Peer w
  untaken p = record p { commands = codes "GO" ∷ p.commands }

  abbrev tail : List Bytes → List Bytes
  tail [] = []
  tail (c ∷ cs) = cs

  replies :
      (k : ℕ) (m : Mixture w) (i : ℕ)
      → i < n
      → is_busy (m.phase i) ≡ true
      → IsOver w.codec w.broker w.plus (m.runners i)
      → Mixed w s₀ sites n sound stored k m
      → Replies m i
  replies k m i lt runs ended inv =
      let p = m.system.peers i in
      let was = in_loop m i lt runs inv in
      let f = is_busy-eq (m.phase i) runs in
      let (a, does, listens, becomes, _leaves) =
        work-answered w s₀ (sites i) (sound i) asked_go m.system.stored (codes "GO") [] refl in
      let counts = counted_alone m i inv ended in
      let taken : p ≡ record (waits w s₀ sites n sound i asked_go) { commands = [] } =
        ap (λ (q : Peer w). record q { commands = tail q.commands })
          (ap (λ (g : Phase). restored w g p) (sym f) ∙ was) in
      record {
        answer = a;
        step =
            Network.Step.work i lt (sound i).bound
              (ap (λ (q : Peer w). listening q.worker.state) was ∙ listens)
              (ap (λ (q : Peer w). q.commands) was)
              (ap
                  (λ (q : Peer w).
                    handle_command w (command_of (codes "GO")) q.worker m.system.stored
                      (turn_at w (sites i) (codes "GO")))
                  was
                ∙ does);
        mirrored =
            ap (λ (q : Peer w). update (mirror w m).peers i (worked w s₀ (sites i) q [] a)) was
            ∙ ap (update (mirror w m).peers i) (
                becomes
                ∙ ap
                    (λ (d : Connector w.Duration).
                      has_run w (record (waits w s₀ sites n sound i asked_go) { commands = [] })
                        (record (m.runners i) { connector = d }))
                    (sym counts)
                ∙ ap (λ (q : Peer w). has_run w q (m.runners i)) (sym taken))
            ∙ mirror-update w m.system.peers m.phase i (has_run w p (m.runners i)) over;
      }

  -- The states that are equal to one that changes at `i`.
  finish-FitsAt :
      (m : Mixture w) (i j : ℕ)
      → IsOver w.codec w.broker w.plus (m.runners i)
      → FitsAt w s₀ sites n sound stored m j
      → FitsAt w s₀ sites n sound stored (after_finish w m i) j
  finish-FitsAt m i j ended h = elim (Bool-cases (i == j)) [
    | inl e ↦
        let now =
          subst (λ (l : ℕ). IsOver w.codec w.broker w.plus (m.runners l)) ((==_iff i j).0 e)
            ended in
        rw e (refl, now)
    | inr e ↦ rw e h
  ]

  pub finish-Mixed :
      (k : ℕ) (m : Mixture w) (i : ℕ)
      → i < n
      → is_busy (m.phase i) ≡ true
      → IsOver w.codec w.broker w.plus (m.runners i)
      → Mixed w s₀ sites n sound stored k m
      → Mixed w s₀ sites n sound stored (suc k) (after_finish w m i)
  finish-Mixed k m i lt runs ended inv =
      let h = replies k m i lt runs ended inv in
      let s' = after_work w (mirror w m) i [] h.answer in
      let less = Step-measure w s₀ sites n sound h.step inv.base in
      let count = total-update one_if_idle m.phase i over n lt in
      let none = ap one_if_idle (is_busy-eq (m.phase i) runs) in
      let same_measure =
        ap (λ (ps : ℕ → Peer w). measure w s₀ sites n sound (record m.system { peers = ps }))
          h.mirrored in
      record {
        base =
            subst (λ (ps : ℕ → Peer w). Inv w s₀ sites n sound (record m.system { peers = ps }))
              h.mirrored
              (Inv-stored w s₀ sites n sound stored s' m.system.stored
                (Step-Inv w s₀ sites n sound h.step inv.base));
        fits = λ j. finish-FitsAt m i j ended (inv.fits j);
        asked = inv.asked;
        requests = inv.requests;
        counted = omega (arith, inv.counted, less, count, none, same_measure);
      }
