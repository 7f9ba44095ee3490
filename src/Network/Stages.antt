-- ===== src/Network/Stages.antt =====
-- How far the controller and one worker have come with each other.
use key_value_cluster_perf.Base.{Bytes, List, [], ◌∷◌, codes, ◌≡◌}

-- What the controller has still to do with one worker, the next first.
pub data Call : Type 0 where
  send get : Bytes → Call
  fetch : Call

pub data Stage : Type 0 where
  fresh asked_init initialised asked_go ready asked_results fetched reported asked_exit finished :
      Stage

abbrev at_asked_exit : List Call
at_asked_exit = get (codes "EXITING") ∷ []

abbrev at_fetched : List Call
at_fetched = get (codes "DONERESULTS") ∷ (send (codes "EXIT") ∷ at_asked_exit)

abbrev at_ready : List Call
at_ready = send (codes "GETRESULTS") ∷ (fetch ∷ at_fetched)

abbrev at_initialised : List Call
at_initialised = send (codes "GO") ∷ (get (codes "RESULTSREADY") ∷ at_ready)

abbrev at_asked_init : List Call
at_asked_init = get (codes "INITDONE") ∷ at_initialised

abbrev pub todo : Stage → List Call
todo fresh = send (codes "INIT") ∷ at_asked_init
todo asked_init = at_asked_init
todo initialised = at_initialised
todo asked_go = get (codes "RESULTSREADY") ∷ at_ready
todo ready = at_ready
todo asked_results = fetch ∷ at_fetched
todo fetched = at_fetched
todo reported = send (codes "EXIT") ∷ at_asked_exit
todo asked_exit = at_asked_exit
todo finished = []

abbrev pub after : Stage → Stage
after fresh = asked_init
after asked_init = initialised
after initialised = asked_go
after asked_go = ready
after ready = asked_results
after asked_results = fetched
after fetched = reported
after reported = asked_exit
after asked_exit = finished
after finished = finished

pub tail-todo : (t : Stage) (c : Call) (cs : List Call) → c ∷ cs ≡ todo t → cs ≡ todo (after t)
tail-todo fresh c cs h = cc
tail-todo asked_init c cs h = cc
tail-todo initialised c cs h = cc
tail-todo asked_go c cs h = cc
tail-todo ready c cs h = cc
tail-todo asked_results c cs h = cc
tail-todo fetched c cs h = cc
tail-todo reported c cs h = cc
tail-todo asked_exit c cs h = cc
tail-todo finished c cs h = cc
