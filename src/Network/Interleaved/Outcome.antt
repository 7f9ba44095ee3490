-- ===== src/Network/Interleaved/Outcome.antt =====
-- What every execution gives where the requests of several workers take turns at the database.
use mathlib.Core.Path.{subst}
use key_value_cluster_perf.Base.{
  length, ◌+◌, ◌++◌, arith, ℕ, zero, suc, ◌<◌, Bytes, List, [], ◌≡◌, refl, ap, sym, ◌∙◌, All, ℤ,
  true, false,
}
use key_value_cluster_perf.Broker.{Stores}
use key_value_cluster_perf.Controller.{Report, connect_all}
use key_value_cluster_perf.Connector.{run, run_entries, Connector}
use key_value_cluster_perf.Connector.Order.{IsDetermined}
use key_value_cluster_perf.Mq.{Mq, Outcome}
use key_value_cluster_perf.Results.Delivery.{IsPlain}
use key_value_cluster_perf.Transfer.{Connection}
use key_value_cluster_perf.StdMap.{StringMap}
use key_value_cluster_perf.Network.Program.{numbered}
use key_value_cluster_perf.Worker.{World, new_connector}
use key_value_cluster_perf.Network.{Site, Peer}
use key_value_cluster_perf.Network.Sites.{IsSound}
use key_value_cluster_perf.Network.Invariant.{AreHosts}
use key_value_cluster_perf.Network.Progress.{over_peer}
use key_value_cluster_perf.Network.Collected.{over-results, IsCalm, Inv-Holds, results_at, exited}
use key_value_cluster_perf.Network.Refinement.{over-Gives, RunGives}
use key_value_cluster_perf.Network.Requests.{one_by_one, IsOver}
use key_value_cluster_perf.Network.Requests.Finish.{over-run_entries, over-one_by_one}
use key_value_cluster_perf.Network.Shared.{ran, files_of, run_entries-files_of, stored_after}
use key_value_cluster_perf.Network.Interleaved.{
  Phase, idle, busy, over, Mixture, Loop, is_busy, opening, Steps,
}
use key_value_cluster_perf.Network.Interleaved.Invariant.{Mixed, Fits, connectors, files}
use key_value_cluster_perf.Network.Interleaved.Mirror.{mirror, restored, restored_calm}
use key_value_cluster_perf.Network.Interleaved.Reached.{reached-Mixed}

module _ (w : World) (s₀ : w.broker.State) (sites : ℕ → Site w) (n : ℕ)
    (sound : (i : ℕ) → IsSound w s₀ (sites i)) where
  -- A worker that has exited in the mirrored state is not in its loop.
  exited_calm : (f : Phase) (p : Peer w) → restored w f p ≡ exited w → is_busy f ≡ false
  exited_calm busy p h = let there = ap (λ (q : Peer w). q.commands) h in cc
  exited_calm idle p h = refl
  exited_calm over p h = refl

  exited_peer :
      (m : Mixture w) (i : ℕ) → (mirror w m).peers i ≡ exited w → m.system.peers i ≡ exited w
  exited_peer m i h =
      sym (
        restored_calm w (m.phase i) (m.system.peers i)
          (exited_calm (m.phase i) (m.system.peers i) h))
      ∙ h

  -- Whichever process moves next, the requests of several workers taking turns at the database,
  -- over sites that are sound (the command socket bound, the constructor of the connector coming
  -- back on INIT, the data connections up, the results of a run short enough for the array), the
  -- data hosts being the addresses of the `n` nodes, in order and all different, and command
  -- connections that are made: when the controller has nothing left to do, it has the results, the
  -- data hosts, the wrong replies and the bytes outside the arrays that its `run` gives over one
  -- worker after the other, each alone; all workers are in the state EXIT with their connector
  -- deleted, and nothing is on its way.
  pub interleaved-run :
      (plain : IsPlain w.platform) (configured member : ℤ) (commands : List Connection)
      (mqs : List Mq) (hosts : List Bytes) (stored : w.broker.State) (k : ℕ) (m : Mixture w)
      → connect_all commands ≡ Outcome.done mqs
      → AreHosts w sites n hosts
      → Steps w sites n (opening w sites n hosts stored) k m
      → m.system.program ≡ []
      → ((r : Report) × RunGives w s₀ sites n sound plain configured member commands hosts r
          × (m.system.all_results ≡ r.collected.all_results)
          × (m.system.data_hosts ≡ r.collected.data_hosts)
          × (m.system.stray ≡ r.collected.stray)
          × (m.system.wrong ≡ r.wrong))
        × ((i : ℕ) → i < n → m.system.peers i ≡ exited w)
  interleaved-run plain configured member commands mqs hosts stored k m connected enough steps
        none_left =
      let inv = reached-Mixed w s₀ sites n sound stored hosts enough steps in
      let (report, all_exited) =
        over-Gives w s₀ sites n sound plain configured member commands mqs hosts (mirror w m)
          connected enough none_left inv.base in
      (report, λ i lt. exited_peer m i (all_exited i lt))

  restored-IsCalm : (f : Phase) (p : Peer w) → IsCalm w (restored w f p) → IsCalm w p
  restored-IsCalm busy p h = (omega (arith, h.0), h.1)
  restored-IsCalm idle p h = h
  restored-IsCalm over p h = h

  -- Whichever process moves next, the requests of several workers taking turns at the database,
  -- over sites that are sound (the command socket bound, the constructor of the connector coming
  -- back on INIT, the data connections up, the results of a run short enough for the array), the
  -- data hosts being the addresses of the `n` nodes, in order and all different: in every state
  -- that is reached no reply was wrong, the results so far are those of the first workers' own
  -- runs, in order, a data host is left for each of the others, one byte was written outside each
  -- array that was filled, and between the controller and each worker at most one command or reply
  -- and at most one data message are on their way.
  pub interleaved_reached :
      (plain : IsPlain w.platform) (hosts : List Bytes) (stored : w.broker.State) (k : ℕ)
      (m : Mixture w)
      → AreHosts w sites n hosts
      → Steps w sites n (opening w sites n hosts stored) k m
      → (m.system.wrong ≡ 0)
        × ((left : List StringMap) × (m.system.all_results ++ left
              ≡ numbered (results_at w s₀ sites) 0 n)
            × (length m.system.data_hosts ≡ length left)
            × (m.system.stray + length left ≡ n))
        × ((i : ℕ) → i < n → IsCalm w (m.system.peers i))
  interleaved_reached plain hosts stored k m enough steps =
      let inv = reached-Mixed w s₀ sites n sound stored hosts enough steps in
      let (right, got, calm) = Inv-Holds w s₀ sites n sound plain (mirror w m) inv.base in
      (right, got, λ i lt. restored-IsCalm (m.phase i) (m.system.peers i) (calm i lt))

  -- The workers, when the controller has nothing left to do.
  pub interleaved_exited :
      (hosts : List Bytes) (stored : w.broker.State) (k : ℕ) (m : Mixture w) (i : ℕ)
      → AreHosts w sites n hosts
      → Steps w sites n (opening w sites n hosts stored) k m
      → m.system.program ≡ []
      → i < n
      → m.system.peers i ≡ exited w
  interleaved_exited hosts stored k m i enough steps none_left lt = exited_peer m i (
      over_peer w s₀ sites n sound (mirror w m) i none_left lt
        (reached-Mixed w s₀ sites n sound stored hosts enough steps).base)

  -- The results, when the controller has nothing left to do.
  pub interleaved_results :
      (plain : IsPlain w.platform) (hosts : List Bytes) (stored : w.broker.State) (k : ℕ)
      (m : Mixture w)
      → AreHosts w sites n hosts
      → Steps w sites n (opening w sites n hosts stored) k m
      → m.system.program ≡ []
      → m.system.all_results ≡ numbered (results_at w s₀ sites) 0 n
  interleaved_results plain hosts stored k m enough steps none_left =
      let inv = reached-Mixed w s₀ sites n sound stored hosts enough steps in
      over-results w s₀ sites n sound plain (mirror w m) none_left inv.base

  ran_over :
      (stored : w.broker.State) (i : ℕ) (f : Phase) (r : Loop w)
      → is_busy f ≡ false
      → Fits w s₀ sites n sound stored i f true r
      → IsOver w.codec w.broker w.plus r
  ran_over stored i over r calm (_since, ended) = ended
  ran_over stored i idle r calm (not_yet, _first) = cc
  ran_over stored i busy r calm h = cc

  exited_over :
      (stored : w.broker.State) {k : ℕ} (m : Mixture w) (i : ℕ)
      → i < n
      → m.system.program ≡ []
      → Mixed w s₀ sites n sound stored k m
      → IsOver w.codec w.broker w.plus (m.runners i)
  exited_over stored m i lt none_left inv =
      let gone = over_peer w s₀ sites n sound (mirror w m) i none_left lt inv.base in
      let calm = exited_calm (m.phase i) (m.system.peers i) gone in
      ran_over stored i (m.phase i) (m.runners i) calm (
        subst
          (λ (p : Peer w).
            Fits w s₀ sites n sound stored i (m.phase i) (ran p.worker.state) (m.runners i))
          (exited_peer m i gone) (inv.fits i))

  module _ (stores : Stores w.codec w.broker) (content : Bytes → Bytes)
      (determined : (i : ℕ) → All (IsDetermined content) (files_of (sites i).files)) where
    one_by_one-stored_after :
        (stored : w.broker.State) (k : ℕ)
        → one_by_one w.codec w.broker w.plus stored
            (connectors w s₀ sites n sound stored)
            (files w s₀ sites n sound stored)
            k
          ≡ stored_after w stores sites k stored
    one_by_one-stored_after stored zero = refl
    one_by_one-stored_after stored (suc k) =
        ap
          (λ (s : w.broker.State).
            (run_entries w.codec w.broker w.plus (new_connector w) s (files_of (sites k).files)).1)
          (one_by_one-stored_after stored k)
        ∙ ap (λ (r : Connector w.Duration × w.broker.State × List Bytes). r.1)
            (run_entries-files_of w (new_connector w) (stored_after w stores sites k stored)
              (sites k).files)

    -- Whichever process moves next, the requests of several workers taking turns at the database,
    -- over sites that are sound (the command socket bound, the constructor of the connector coming
    -- back on INIT, the data connections up, the results of a run short enough for the array), the
    -- data hosts being the addresses of the `n` nodes, in order and all different, and with a
    -- database that stores what it is sent and files of which those of one key are equal, at
    -- whichever workers: when the controller has nothing left to do, each key holds what it holds
    -- after the runs of the workers one after the other, and each worker's connector has created
    -- the objects that its run alone creates.
    pub interleaved-stored_after :
        (hosts : List Bytes) (stored : w.broker.State) (k : ℕ) (m : Mixture w) (key : Bytes)
        → AreHosts w sites n hosts
        → Steps w sites n (opening w sites n hosts stored) k m
        → m.system.program ≡ []
        → (stores.view m.system.stored key ≡ stores.view (stored_after w stores sites n stored) key)
          × ((i : ℕ)
              → i < n
              → (m.runners i).made
                ≡ (run w.codec w.broker w.plus (new_connector w) stored (sites i).files).2)
    interleaved-stored_after hosts stored k m key enough steps none_left =
        let inv = reached-Mixed w s₀ sites n sound stored hosts enough steps in
        (
          over-one_by_one w.codec w.broker stores w.plus content
                (connectors w s₀ sites n sound stored) (files w s₀ sites n sound stored) determined
                stored n inv.asked _ key inv.requests
                (λ i lt. exited_over stored m i lt none_left inv)
              ∙ ap (λ (s : w.broker.State). stores.view s key) (one_by_one-stored_after stored n),
          λ i lt.
              (over-run_entries w.codec w.broker stores w.plus content
                (connectors w s₀ sites n sound stored) (files w s₀ sites n sound stored) determined
                stored n inv.asked _ i inv.requests (exited_over stored m i lt none_left inv)).1
              ∙ ap (λ (r : Connector w.Duration × w.broker.State × List Bytes). r.2)
                  (run_entries-files_of w (new_connector w) stored (sites i).files),
        )
