-- ===== src/Worker/Setup.antt =====
-- src/SimulationWorker.cc: the command INIT, on which the constructor of src/DBConnector.cc is run.
use key_value_cluster_perf.Base.{
  ℕ, suc, Bool, true, false, ◌&&◌, List, ◌∷◌, ◌≡◌, ap, ◌∙◌, ◌⊎◌, inl, inr, codes, pos, none, ◌++◌,
  ℤ, refl, arith,
}
use key_value_cluster_perf.Connector.Lifetime.{
  Members, new_members, is_up, exit_code, new_members_lem,
}
use key_value_cluster_perf.Mq.{Outcome, done, exited, blocked, undefined, ◌>>=◌}
use key_value_cluster_perf.Worker.{
  World, Worker, Turn, Session, Answer, Command, Construction, command_of, listening,
  handle_command, listen, made, construct, some_of,
}

module _ (w : World) where
  -- All library calls of the constructor succeed.
  abbrev pub is_built : Construction → Bool
  is_built k = is_up k.connection && is_up k.sender

  -- The loop after the reply INITDONE.
  abbrev pub goes_on :
      Worker w.Duration → w.broker.State → List (Turn w.Duration) → Outcome (Session w)
  goes_on n s turns = do
    session ← listen w (record n { connector = made w n.connector }) s turns
    done (record session { replies = codes "INITDONE" ∷ session.replies })

  -- The loop after a round that answered `a`.
  abbrev after_round : List (Turn w.Duration) → Answer w → Outcome (Session w)
  after_round turns a = do
    session ← listen w a.worker a.stored turns
    done (record {
      worker = session.worker;
      stored = session.stored;
      replies = a.reply ∷ session.replies;
      sent = some_of w a.sent ++ session.sent;
    })

  listen-round :
      (n : Worker w.Duration) (s : w.broker.State) (turn : Turn w.Duration)
      (turns : List (Turn w.Duration))
      → listening n.state ≡ true
      → listen w n s (turn ∷ turns)
        ≡ (handle_command w (command_of turn.request) n s turn >>= after_round turns)
  unfolding listen
  listen-round n s turn turns on = ground arith

  abbrev init_answer : Worker w.Duration → w.broker.State → Answer w
  init_answer n s = record {
    worker = record n { connector = made w n.connector };
    stored = s;
    reply = codes "INITDONE";
    sent = none;
  }

  bind-constant :
      {A B C : Type 0} (o : Outcome A) (b : B) (f : B → Outcome C)
      → ((o >>= λ _. done b) >>= f) ≡ (o >>= λ _. f b)
  bind-constant (done a) b f = refl
  bind-constant (exited k) b f = refl
  bind-constant blocked b f = refl
  bind-constant undefined b f = refl

  listen-construct :
      (n : Worker w.Duration) (s : w.broker.State) (turn : Turn w.Duration)
      (turns : List (Turn w.Duration))
      → listening n.state ≡ true
      → command_of turn.request ≡ Command.init
      → listen w n s (turn ∷ turns) ≡ (construct w turn.construction >>= λ _. goes_on n s turns)
  unfolding handle_command
  listen-construct n s turn turns on e =
      listen-round n s turn turns on
      ∙ ap (λ (c : Command). handle_command w c n s turn >>= after_round turns) e
      ∙ bind-constant (construct w turn.construction) (init_answer n s) (after_round turns)

  -- For values of a size above 0, a worker in its loop that is sent INIT: if a library call of the
  -- constructor of the connector fails, the process ends, with no reply, with code 255 if the
  -- context of `mq` was made and a call of the MessageSender failed, and else with code 1; if they
  -- all succeed, the worker replies INITDONE, and goes on with a new connector.
  pub listen_init :
      (size : ℕ) (n : Worker w.Duration) (s : w.broker.State) (turn : Turn w.Duration)
      (turns : List (Turn w.Duration))
      → w.value_size ≡ pos (suc size)
      → listening n.state ≡ true
      → command_of turn.request ≡ Command.init
      → ((is_built turn.construction ≡ false)
          × (listen w n s (turn ∷ turns)
              ≡ exited (exit_code turn.construction.connection turn.construction.sender)))
        ⊎ ((is_built turn.construction ≡ true) × (listen w n s (turn ∷ turns) ≡ goes_on n s turns))
  listen_init size n s turn turns above on e =
      let k = turn.construction in
      let goes = listen-construct n s turn turns on e in
      let sized = ap (λ (z : ℤ). new_members k.connection k.sender z k.cells) above in
      let next = λ (o : Outcome Members). o >>= λ _. goes_on n s turns in
      elim (new_members_lem k.connection k.sender size k.cells) [
        | inl (down, ended) ↦ inl (down, goes ∙ ap next (sized ∙ ended))
        | inr (up, built) ↦ inr (up, goes ∙ ap next (sized ∙ built))
      ]
