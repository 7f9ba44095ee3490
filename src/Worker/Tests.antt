-- ===== src/Worker/Tests.antt =====
-- A worker with concrete libraries over the commands of one session.
use key_value_cluster_perf.Base.{
  All, ◌&&◌, false, ◌⊎◌, ℕ, ◌+◌, Bytes, List, [], ◌∷◌, some, ◌≡◌, refl, codes, true, less,
}
use key_value_cluster_perf.StdMap.{insert, lookup, at}
use key_value_cluster_perf.Configuration.{write_string}
use key_value_cluster_perf.Connector.{
  run, load, limit_passed, put_value, get_value, key_of, transmit, run_entries,
}
use key_value_cluster_perf.Decimal.{print_nat}
use key_value_cluster_perf.Mq.{Mq, Outcome, exited}
use key_value_cluster_perf.Results.{get_results}
use key_value_cluster_perf.Transfer.{Connection, buffer_size, fill_buffer}
use key_value_cluster_perf.Worker.{
  SimulatorState, ConnectorPointer, Turn, Session, command_of, listening, listen, new_worker,
  new_connector,
}
use key_value_cluster_perf.Worker.Discipline.{CanDo, listen_undisciplined}
use key_value_cluster_perf.Worker.Protocol.{listen_protocol, connector_after_run}
use key_value_cluster_perf.Worker.Setup.{is_built, goes_on, listen_init}
use key_value_cluster_perf.Connector.Lifetime.{exit_code}
use key_value_cluster_perf.Worker.Run
use key_value_cluster_perf.Worker.Run.{run_outcomes, IsClosed}
use key_value_cluster_perf.Samples.{
  construction, constructs, world, codec, broker, connection, connection-IsUp, garbage,
  length-garbage,
}

abbrev array : Bytes
array = garbage buffer_size

abbrev turn : Bytes → Turn ℕ
turn request = record {
  request = request;
  files = some (
      record { path = codes "/OCDB/a.root"; regular = true; payload = 1 ∷ 2 ∷ []; elapsed = 7 }
      ∷ []);
  connection = connection;
  buffer = array;
  body = array;
  construction = construction;
}

abbrev turns : List (Turn ℕ)
turns =
    turn (codes "INIT") ∷ turn (codes "GO") ∷ turn (codes "GETRESULTS") ∷ turn (codes "EXIT") ∷ []

can_do : (request : Bytes) → CanDo world (turn request)
can_do request = (connection-IsUp, λ is_init. constructs)

-- A second round in one process, after the first connector has been deleted.
abbrev again : List (Turn ℕ)
again =
    turn (codes "INIT")
    ∷ turn (codes "GO")
    ∷ turn (codes "GETRESULTS")
    ∷ turn (codes "INIT")
    ∷ turn (codes "GO")
    ∷ []

again-CanDo : All (CanDo world) again
again-CanDo = (
  can_do (codes "INIT"),
  (
    can_do (codes "GO"),
    (can_do (codes "GETRESULTS"), (can_do (codes "INIT"), (can_do (codes "GO"), tt))),
  ),
)

listen_undisciplined_example : listen world new_worker [] again ≡ Outcome.undefined
unfolding command_of listening
listen_undisciplined_example = listen_undisciplined world new_worker [] again refl again-CanDo refl

abbrev text : Bytes
text = codes "duration=7\nhostname=node1\nobjects=1\nsize=2"

written :
    write_string (get_results world.platform (connector_after_run world [] (turn (codes "GO"))))
    ≡ some text
unfolding write_string get_results insert less lookup at print_nat run run_entries transmit load
    limit_passed put_value get_value key_of
written = refl

abbrev unbound : Connection
unbound = record connection { attached = false }

abbrev session : Session world
session = record {
  worker = record { state = SimulatorState.exit; connector = ConnectorPointer.deleted };
  stored = (run codec broker ◌+◌ (new_connector world) [] (turn (codes "GO")).files).1;
  replies = codes "INITDONE" ∷ codes "RESULTSREADY" ∷ codes "DONERESULTS" ∷ codes "EXITING" ∷ [];
  sent = record { cells = (fill_buffer array text).cells; stray = 0 } ∷ [];
}

listened : listen world new_worker [] turns ≡ Outcome.done session
listened =
    listen_protocol world [] (turn (codes "INIT")) (turn (codes "GO")) (turn (codes "GETRESULTS"))
      (turn (codes "EXIT")) [] text
      (record { first = refl; second = refl; third = refl; fourth = refl }) constructs
      connection-IsUp (length-garbage buffer_size) (length-garbage buffer_size) written

-- The port of the command connection is taken.
run_outcomes_example :
    (((unbound.created && unbound.opened) ≡ false)
      × (key_value_cluster_perf.Worker.Run.run world unbound [] turns ≡ Outcome.exited 1))
    ⊎ (((unbound.created && unbound.opened) ≡ true)
        × (unbound.attached ≡ false)
        × (key_value_cluster_perf.Worker.Run.run world unbound [] turns ≡ Outcome.blocked))
    ⊎ (((unbound.created && unbound.opened) ≡ true)
        × (unbound.attached ≡ true)
        × (mq : Mq) × (key_value_cluster_perf.Worker.Run.run world unbound [] turns
            ≡ Outcome.done (session, mq))
        × IsClosed world mq)
unfolding listening
run_outcomes_example = run_outcomes world unbound [] turns session listened refl

-- The broker of the MessageSender cannot be reached.
abbrev refused : Turn ℕ
refused = record (turn (codes "INIT")) {
  construction = record construction { sender = record connection { attached = false } };
}

listen_init_example :
    ((is_built world refused.construction ≡ false)
      × (listen world new_worker [] (refused ∷ [])
          ≡ exited (exit_code refused.construction.connection refused.construction.sender)))
    ⊎ ((is_built world refused.construction ≡ true)
        × (listen world new_worker [] (refused ∷ []) ≡ goes_on world new_worker [] []))
unfolding command_of listening
listen_init_example = listen_init world 2 new_worker [] refused [] refl refl refl
