-- ===== src/Network/Interleaved.antt =====
-- The controller and the workers as processes that run at the same time, where a worker's GO is no
-- longer one step: `run` of src/DBConnector.cc is in the middle of its loop while the controller and
-- the other workers go on, and the requests of several workers take turns at the database.
--
-- A step is one of Network that is not the GO of a worker with a connector, the beginning of such a
-- GO, a step of Network.Requests of a worker that is in it, or its end, with the reply.
pub mod Go
pub mod Invariant
mod Loops
mod Replies
pub mod Outcome
pub mod Ends
pub mod Moves
mod Tests
pub mod Reached
pub mod Mirror
mod Silent
use key_value_cluster_perf.Base.{
  ℕ, suc, ◌<◌, Bool, true, false, Bytes, List, [], ◌∷◌, ◌++◌, none, codes, ◌≡◌,
}
use key_value_cluster_perf.Connector.{Connector}
use key_value_cluster_perf.Worker.{
  World, Worker, SimulatorState, ConnectorPointer, command_of, Command, listening, new_connector,
}
use key_value_cluster_perf.Network
use key_value_cluster_perf.Network.{update, Site, Peer, System, start}
use key_value_cluster_perf.Network.Requests
use key_value_cluster_perf.Network.Requests.{Runner, Shared, IsOver, mover}
use key_value_cluster_perf.Network.Shared.{files_of}

-- Where a worker is with GO: it has not begun, is in the loop of its connector, or has replied.
pub data Phase : Type 0 where
  idle busy over : Phase

abbrev pub is_busy : Phase → Bool
is_busy busy = true
is_busy _ = false

-- A worker's command is GO, and its connector is there and may use the protobuf library. The GO
-- of any other worker makes no request, and stays one step.
abbrev pub StartsRun : {T : Type 0} → Worker T → Bytes → Type 0
StartsRun {T} n command =
    (command_of command ≡ Command.go) × (d : Connector T) × (n.connector ≡ ConnectorPointer.live d)

module _ (w : World) where
  abbrev pub Loop : Type 0
  Loop = Runner w.codec w.broker w.plus

  -- `runners` are the loops of the connectors: that of a worker in GO, or its last.
  pub record Mixture : Type 0 where
    pub system : System w
    pub phase : ℕ → Phase
    pub runners : ℕ → Loop

  abbrev pub shared : Mixture → Shared w.codec w.broker w.plus
  shared m = record { stored = m.system.stored; runners = m.runners }

  -- The loop of a connector that has done nothing yet.
  abbrev pub first_loop : Connector w.Duration → Site w → Loop
  first_loop d k = record {
    connector = d;
    entries = files_of k.files;
    waiting = none;
    sent = [];
    made = [];
  }

  -- The worker takes GO from the queue, and its connector begins.
  abbrev pub after_begin : Mixture → ℕ → List Bytes → Connector w.Duration → Site w → Mixture
  after_begin m i commands d k =
      let p = m.system.peers i in
      record {
        system = record m.system {
          peers = update m.system.peers i (record p { commands = commands });
        };
        phase = update m.phase i busy;
        runners = update m.runners i (first_loop d k);
      }

  abbrev pub after_request : Mixture → Shared w.codec w.broker w.plus → Mixture
  after_request m t = record m {
    system = record m.system { stored = t.stored };
    runners = t.runners;
  }

  -- The state is RESULTS, and the reply is sent.
  abbrev pub has_run : Peer w → Loop → Peer w
  has_run p r = record p {
    replies = p.replies ++ (codes "RESULTSREADY" ∷ []);
    worker = record {
      state = SimulatorState.results;
      connector = ConnectorPointer.live r.connector;
    };
  }

  abbrev pub after_finish : Mixture → ℕ → Mixture
  after_finish m i = record m {
    system = record m.system {
      peers = update m.system.peers i (has_run (m.system.peers i) (m.runners i));
    };
    phase = update m.phase i over;
  }

  module _ (sites : ℕ → Site w) (n : ℕ) where
    -- A step that Network has and that is no part of a GO with a connector: a worker that is in GO
    -- takes no command.
    abbrev pub IsWhole : (m : Mixture) {t : System w} → Network.Step w sites n m.system t → Type 0
    IsWhole m (Network.Step.send i e) = Unit
    IsWhole m (Network.Step.get i e r) = Unit
    IsWhole m (Network.Step.fetch i e first lt is_host r got) = Unit
    IsWhole m (Network.Step.work i {command} lt bound listens waiting does) =
        (is_busy (m.phase i) ≡ false) × ¬ StartsRun (m.system.peers i).worker command

    pub data Step (m : Mixture) : Mixture → Type 0 where
      whole :
          {t : System w} (step : Network.Step w sites n m.system t)
          → IsWhole m step
          → Step m (record m { system = t })
      begin :
          (i : ℕ) {command : Bytes} {commands : List Bytes} {d : Connector w.Duration}
          → i < n
          → (sites i).bound ≡ true
          → is_busy (m.phase i) ≡ false
          → listening (m.system.peers i).worker.state ≡ true
          → (m.system.peers i).commands ≡ command ∷ commands
          → command_of command ≡ Command.go
          → (m.system.peers i).worker.connector ≡ ConnectorPointer.live d
          → Step m (after_begin m i commands d (sites i))
      request :
          {t : Shared w.codec w.broker w.plus}
          (step : Requests.Step w.codec w.broker w.plus n (shared m) t)
          → is_busy (m.phase (mover w.codec w.broker w.plus n step)) ≡ true
          → Step m (after_request m t)
      finish :
          (i : ℕ)
          → i < n
          → is_busy (m.phase i) ≡ true
          → IsOver w.codec w.broker w.plus (m.runners i)
          → Step m (after_finish m i)

    -- All processes are at their beginning.
    abbrev pub opening : List Bytes → w.broker.State → Mixture
    opening hosts stored = record {
      system = start w sites n hosts stored;
      phase = λ i. idle;
      runners = λ i. first_loop (new_connector w) (sites i);
    }

    -- Executions of some number of steps.
    pub data Steps (m : Mixture) : ℕ → Mixture → Type 0 where
      here : Steps m 0 m
      next : {k : ℕ} {t u : Mixture} → Steps m k t → Step t u → Steps m (suc k) u
