-- ===== src/Network/Interleaved/Tests.antt =====
-- A controller and two workers, of which both are in GO at the same time.
use key_value_cluster_perf.Base.{
  ℕ, ◌+◌, ◌<◌, List, [], ◌∷◌, ◌++◌, length, codes, ◌≡◌, ◌≢◌, refl, arith, pos, negsuc,
}
use key_value_cluster_perf.Controller.{Report}
use key_value_cluster_perf.Worker.{command_of, listening, new_connector, new_worker}
use key_value_cluster_perf.Samples.{constructs, world, connection, platform-IsPlain, broker-Stores}
use key_value_cluster_perf.Network.{session, send_from, get_from, fetch_from, turn_at}
use key_value_cluster_perf.Network
use key_value_cluster_perf.Network.Requests
use key_value_cluster_perf.Network.Sample.{
  sites, hosts, content, site-IsSound, sites-AreHosts, connected, site-IsDetermined,
}
use key_value_cluster_perf.Network.Interleaved.{
  Mixture, opening, whole, begin, request, Steps, here, next,
}
use key_value_cluster_perf.Worker.Protocol.{step_init}
use key_value_cluster_perf.StdMap.{StringMap, lookup}
use key_value_cluster_perf.Connector.{run}
use key_value_cluster_perf.Network.Program.{numbered}
use key_value_cluster_perf.Network.Shared.{stored_after}
use key_value_cluster_perf.Network.Collected.{results_at, IsCalm, exited}
use key_value_cluster_perf.Network.Refinement.{RunGives}
use key_value_cluster_perf.Network.Interleaved.Outcome.{
  interleaved-run, interleaved_reached, interleaved-stored_after,
}
use key_value_cluster_perf.Network.Interleaved.Silent.{HoldsUp, OnlyInit, SparesAll, silent_held}
use key_value_cluster_perf.Network.Interleaved.Ends.{interleaved_completes}

abbrev Begins : ℕ → Mixture world → Type 0
Begins = Steps world sites 2 (opening world sites 2 hosts [])

-- Both workers have done INIT, and the controller has their replies.
ready : (m : Mixture world) × Begins 7 m
unfolding session send_from get_from command_of listening
ready = (
  _,
  next
      (next
        (next
          (next
            (next
              (next (next here (whole (Network.Step.send 0 refl) tt))
                (whole (Network.Step.send 1 refl) tt))
              (whole
                (Network.Step.work 0 (omega arith) refl refl refl (
                  step_init world new_worker [] (turn_at world (sites 0) (codes "INIT")) constructs
                    refl refl))
                (refl, λ h. let e = h.0 in cc)))
            (whole
              (Network.Step.work 1 (omega arith) refl refl refl (
                step_init world new_worker [] (turn_at world (sites 1) (codes "INIT")) constructs
                  refl refl))
              (refl, λ h. let e = h.0 in cc)))
          (whole (Network.Step.get 0 refl refl) tt))
        (whole (Network.Step.get 1 refl refl) tt))
      (whole (Network.Step.send 0 refl) tt),
)

-- Both have put their file, and neither has got it back.
mixed : (m : Mixture world) × Begins 12 m
unfolding ready session send_from command_of listening
mixed = (
  _,
  next
      (next
        (next
          (next (next ready.1 (begin 0 (omega arith) refl refl refl refl refl refl))
            (request (Requests.Step.put 0 (omega arith) refl refl refl) refl))
          (whole (Network.Step.send 1 refl) tt))
        (begin 1 (omega arith) refl refl refl refl refl refl))
      (request (Requests.Step.put 1 (omega arith) refl refl refl) refl),
)

-- The first worker has done INIT, and the second has not moved.
one_silent : (m : Mixture world) × (steps : Begins 4 m) × SparesAll world sites 2 1 steps
unfolding session send_from get_from command_of listening
one_silent = (
  _,
  next
      (next
        (next (next here (whole (Network.Step.send 0 refl) tt))
          (whole (Network.Step.send 1 refl) tt))
        (whole
          (Network.Step.work 0 (omega arith) refl refl refl (
            step_init world new_worker [] (turn_at world (sites 0) (codes "INIT")) constructs refl
              refl))
          (refl, λ h. let e = h.0 in cc)))
      (whole (Network.Step.get 0 refl refl) tt),
  ((((tt, tt), tt), omega arith), tt),
)

silent_held_example :
    HoldsUp 1 one_silent.0.system.program
    × (one_silent.0.system.program ≢ [])
    × (one_silent.0.system.all_results ≡ [])
    × ((j : ℕ) → OnlyInit (one_silent.0.system.peers j))
    × (one_silent.0.system.stored ≡ [])
silent_held_example =
    silent_held world sites 2 1 hosts [] 4 one_silent.0 (omega arith) one_silent.1 one_silent.2

abbrev finished : (u : Mixture world) × (j : ℕ) × Begins j u × (u.system.program ≡ [])
finished = interleaved_completes world sites 2 [] site-IsSound [] hosts 0 _ sites-AreHosts here

interleaved_reached_example :
    (mixed.0.system.wrong ≡ 0)
    × ((left : List StringMap) × (mixed.0.system.all_results ++ left
          ≡ numbered (results_at world [] sites) 0 2)
        × (length mixed.0.system.data_hosts ≡ length left)
        × (mixed.0.system.stray + length left ≡ 2))
    × ((i : ℕ) → i < 2 → IsCalm world (mixed.0.system.peers i))
interleaved_reached_example =
    interleaved_reached world [] sites 2 site-IsSound platform-IsPlain hosts [] 12 mixed.0
      sites-AreHosts mixed.1

interleaved-run_example :
    ((r : Report) × RunGives world [] sites 2 site-IsSound platform-IsPlain
        (negsuc 0)
        (pos 0)
        (connection ∷ (connection ∷ []))
        hosts
        r
      × (finished.0.system.all_results ≡ r.collected.all_results)
      × (finished.0.system.data_hosts ≡ r.collected.data_hosts)
      × (finished.0.system.stray ≡ r.collected.stray)
      × (finished.0.system.wrong ≡ r.wrong))
    × ((i : ℕ) → i < 2 → finished.0.system.peers i ≡ exited world)
interleaved-run_example =
    interleaved-run world [] sites 2 site-IsSound platform-IsPlain (negsuc 0) (pos 0)
      (connection ∷ (connection ∷ [])) _ hosts [] finished.1 finished.0 connected sites-AreHosts
      finished.2 finished.3

interleaved-stored_after_example :
    (lookup (codes "a") finished.0.system.stored
      ≡ lookup (codes "a") (stored_after world broker-Stores sites 2 []))
    × ((i : ℕ)
        → i < 2
        → (finished.0.runners i).made
          ≡ (run world.codec world.broker world.plus (new_connector world) [] (sites i).files).2)
interleaved-stored_after_example =
    interleaved-stored_after world [] sites 2 site-IsSound broker-Stores content site-IsDetermined
      hosts [] finished.1 finished.0 (codes "a") sites-AreHosts finished.2 finished.3
