-- ===== src/Network/Lingering/Tests.antt =====
-- A controller and one worker, which waits until its data message is taken.
use key_value_cluster_perf.Base.{◌≡◌, ◌<◌, false, ℕ, Bytes, List, [], ◌∷◌, codes, refl, arith, inl}
use key_value_cluster_perf.Samples.{constructs, platform-IsPlain, world}
use key_value_cluster_perf.Network.Program.{numbered}
use key_value_cluster_perf.Network.Collected.{results_at, exited}
use key_value_cluster_perf.Network.Lingering.Waits.{lingering_completes, lingering_finished}
use key_value_cluster_perf.Network.Sites.{work-answered}
use key_value_cluster_perf.Network.Stages.{asked_results}
use key_value_cluster_perf.Connector.{run, run_entries, transmit, load, limit_passed}
use key_value_cluster_perf.Worker.{command_of, listening, new_worker}
use key_value_cluster_perf.Worker.Protocol.{step_init}
use key_value_cluster_perf.Network
use key_value_cluster_perf.Network.{session, send_from, get_from, fetch_from, turn_at}
use key_value_cluster_perf.Network.Invariant.{AreHosts}
use key_value_cluster_perf.Network.Requests
use key_value_cluster_perf.Network.Sample.{sites, site-IsSound}
use key_value_cluster_perf.Network.Interleaved
use key_value_cluster_perf.Network.Lingering.{Linger, go, lingering_start, Steps, here, next}

abbrev one_host : List Bytes
one_host = codes "tcp://*:6000" ∷ []

one_host-AreHosts : AreHosts world sites 1 one_host
one_host-AreHosts = (refl, λ i j h k e. omega (arith, h, k))

abbrev Begins : ℕ → Linger world → Type 0
Begins = Steps world sites 1 (lingering_start world sites 1 one_host [])

-- The worker has replied to GO, and is sent GETRESULTS.
asked : (s : Linger world) × Begins 10 s
unfolding session send_from get_from fetch_from command_of listening load limit_passed
asked =
    let s1 = next here (go (Interleaved.Step.whole (Network.Step.send 0 refl) tt) tt) in
    (
      _,
      next
          (next
            (next
              (next
                (next
                  (next
                    (next
                      (next
                        (next s1 (
                          go
                            (Interleaved.Step.whole
                              (Network.Step.work 0 (omega arith) refl refl refl (
                                step_init world new_worker []
                                  (turn_at world (sites 0) (codes "INIT")) constructs refl refl))
                              (refl, λ h. let e = h.0 in cc))
                            refl))
                        (go (Interleaved.Step.whole (Network.Step.get 0 refl refl) tt) (inl refl)))
                      (go (Interleaved.Step.whole (Network.Step.send 0 refl) tt) tt))
                    (go (Interleaved.Step.begin 0 (omega arith) refl refl refl refl refl refl)
                      refl))
                  (go
                    (Interleaved.Step.request (Requests.Step.put 0 (omega arith) refl refl refl)
                      refl)
                    tt))
                (go (Interleaved.Step.request (Requests.Step.get 0 (omega arith) refl) refl) tt))
              (go (Interleaved.Step.finish 0 (omega arith) refl (refl, refl)) tt))
            (go (Interleaved.Step.whole (Network.Step.get 0 refl refl) tt) (inl refl)))
          (go (Interleaved.Step.whole (Network.Step.send 0 refl) tt) tt),
    )

-- It has sent its message, and waits.
held : (s : Linger world) × Begins 11 s
unfolding asked session send_from get_from fetch_from command_of listening load limit_passed run
    run_entries transmit
held =
    let (a, does, listens, becomes, leaves) =
      work-answered world [] (sites 0) (site-IsSound 0) asked_results asked.0.mixture.system.stored
        (codes "GETRESULTS") [] refl in
    (
      _,
      next asked.1 (
          go
            (Interleaved.Step.whole (Network.Step.work 0 {a = a} (omega arith) refl refl refl does)
              (refl, λ h. let e = h.0 in cc))
            refl),
    )

abbrev finished : (u : Linger world) × (j : ℕ) × Begins j u × (u.mixture.system.program ≡ [])
finished = lingering_completes world [] sites 1 site-IsSound [] one_host 0 _ one_host-AreHosts here

lingering_finished_example :
    (finished.0.mixture.system.all_results ≡ numbered (results_at world [] sites) 0 1)
    × (finished.0.mixture.system.wrong ≡ 0)
    × ((i : ℕ)
        → i < 1
        → (finished.0.mixture.system.peers i ≡ exited world) × (finished.0.held i ≡ false))
lingering_finished_example =
    lingering_finished world [] sites 1 site-IsSound [] platform-IsPlain one_host finished.1
      finished.0 one_host-AreHosts finished.2 finished.3
