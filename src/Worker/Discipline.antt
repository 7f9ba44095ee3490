-- ===== src/Worker/Discipline.antt =====
-- When the worker's pointer to its connector is valid.
use key_value_cluster_perf.Base.{
  Bytes, if◌then◌else◌, Bool-cases, All, inl, inr, none, ◌||◌, Bool, true, false, ◌&&◌, List, [],
  ◌∷◌, ◌++◌, ◌≡◌, refl, arith, ◌⊎◌,
}
use key_value_cluster_perf.Mq.{Outcome}
use key_value_cluster_perf.Transfer.Delivery.{IsUp}
use key_value_cluster_perf.Worker.{
  Constructs, uses_messages, some_of, Worker, World, Turn, Command, command_of, Answer, Session,
  listening, handle_command, listen,
}
use key_value_cluster_perf.Worker.Standing.{
  Standing, standing, leaves, allows, stops, reply_to, handle_command_done,
  handle_command_undefined,
}

-- The commands in an order that never uses what is not there: GO and GETRESULTS come after an INIT
-- with no GETRESULTS between, and a GO that comes after any GETRESULTS finds no files. What follows an
-- EXIT is not read.
abbrev pub disciplined : Standing → List (Command × Bool) → Bool
disciplined q [] = true
disciplined q (c ∷ cs) = let rest = disciplined (leaves c q) cs in allows c q && (stops c.0 || rest)

module _ (w : World) where
  abbrev pub command_at : Turn w.Duration → Command × Bool
  command_at turn = (command_of turn.request, uses_messages w turn.files)

  abbrev pub commands : List (Turn w.Duration) → List (Command × Bool)
  commands [] = []
  commands (turn ∷ turns) = command_at turn ∷ commands turns

  abbrev stopped : Worker w.Duration → w.broker.State → Session w
  stopped n s = record { worker = n; stored = s; replies = []; sent = [] }

  -- The session behind one more answer.
  abbrev answered_first : Answer w → Session w → Session w
  answered_first a session = record session {
    replies = a.reply ∷ session.replies;
    sent = some_of w a.sent ++ session.sent;
  }

  pub listen-stopped :
      (n : Worker w.Duration) (s : w.broker.State) (turns : List (Turn w.Duration))
      → listening n.state ≡ false
      → listen w n s turns ≡ Outcome.done (stopped n s)
  unfolding listen
  listen-stopped n s [] off = refl
  listen-stopped n s (turn ∷ turns) off = ground arith

  pub listen_next :
      (n : Worker w.Duration) (s : w.broker.State) (turn : Turn w.Duration)
      (turns : List (Turn w.Duration)) {a : Answer w} {session : Session w}
      → listening n.state ≡ true
      → handle_command w (command_of turn.request) n s turn ≡ Outcome.done a
      → listen w a.worker a.stored turns ≡ Outcome.done session
      → listen w n s (turn ∷ turns) ≡ Outcome.done (answered_first a session)
  unfolding listen
  listen_next n s turn turns on first later = ground arith

  listen_faults :
      (n : Worker w.Duration) (s : w.broker.State) (turn : Turn w.Duration)
      (turns : List (Turn w.Duration)) {a : Answer w}
      → listening n.state ≡ true
      → (handle_command w (command_of turn.request) n s turn ≡ Outcome.undefined)
        ⊎ ((handle_command w (command_of turn.request) n s turn ≡ Outcome.done a)
            × (listen w a.worker a.stored turns ≡ Outcome.undefined))
      → listen w n s (turn ∷ turns) ≡ Outcome.undefined
  unfolding listen
  listen_faults n s turn turns on h = ground arith

  abbrev answer_of : Worker w.Duration → w.broker.State → Answer w
  answer_of n s = record { worker = n; stored = s; reply = []; sent = none }

  or_false : (a b : Bool) → (a || b) ≡ false → (a ≡ false) × (b ≡ false)
  or_false a b h = ground arith

  -- The data connection is up, and on INIT the constructor of the connector comes back.
  abbrev pub CanDo : Turn w.Duration → Type 0
  CanDo turn =
      IsUp turn.connection
      × (command_of turn.request ≡ Command.init → Constructs w turn.construction)

  -- The replies to the commands up to the first EXIT.
  abbrev pub replies_to : List (Command × Bool) → List Bytes
  replies_to [] = []
  replies_to (c ∷ cs) = let rest = replies_to cs in reply_to c.0 ∷ (if stops c.0 then [] else rest)

  -- While the data connections are up and the constructor of the connector comes back, in the
  -- course of any other sequence the worker uses a connector that is not there, or the protobuf
  -- library when it has been shut down, which is undefined behaviour.
  pub listen_undisciplined :
      (n : Worker w.Duration) (s : w.broker.State) (turns : List (Turn w.Duration))
      → listening n.state ≡ true
      → All CanDo turns
      → disciplined (standing n.connector) (commands turns) ≡ false
      → listen w n s turns ≡ Outcome.undefined
  listen_undisciplined n s [] on up bad = cc
  listen_undisciplined n s (turn ∷ turns) on up bad =
      let c = command_of turn.request in
      let q = standing n.connector in
      elim (Bool-cases (allows (command_at turn) q)) [
        | inr refused ↦
            listen_faults n s turn turns {a = answer_of n s} on
              (inl (handle_command_undefined w c n s turn refused))
        | inl allowed ↦
            let (a, first, there', on', reply) =
              handle_command_done w c n s turn up.0.0 up.0.1 on allowed in
            let (more, rest) = or_false (stops c) _ (rw allowed at bad) in
            listen_faults n s turn turns on (
              inr (
                first,
                listen_undisciplined a.worker a.stored turns (rw more at on') up.1 (rw there' rest),
              ))
      ]
