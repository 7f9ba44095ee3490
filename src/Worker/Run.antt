-- ===== src/Worker/Run.antt =====
-- src/SimulationWorker.cc: the method run, which is the loop between the set-up and the end of the
-- command connection.
use key_value_cluster_perf.Base.{
  Bool, true, false, ◌&&◌, List, [], if◌then◌else◌, ◌≡◌, refl, ◌⊎◌, inl, inr, Bool-cases,
}
use key_value_cluster_perf.Mq.{
  Mq, Outcome, done, exited, blocked, ◌>>=◌, null, live, destroyed, destroyed_ok, interrupted,
  failed, DestroyResult, new_mq, open_socket, bind, close_socket, destroy,
}
use key_value_cluster_perf.Transfer.{Connection}
use key_value_cluster_perf.Worker.{World, Turn, Session, new_worker, listening, listen}

-- A loop that goes on waits for a request that does not come.
abbrev left_loop : Bool → Outcome (Unit {0})
left_loop true = blocked
left_loop false = done tt

module _ (w : World) where
  -- SimulationWorker::run. The result of bind is not looked at, and nothing arrives at a socket
  -- that is not bound.
  unfoldable pub run :
      Connection → w.broker.State → List (Turn w.Duration) → Outcome (Session w × Mq)
  run z s turns = do
    mq ← new_mq z.created
    opened ← open_socket mq z.opened
    bound ← bind opened z.attached
    session ← listen w new_worker s (if bound then turns else [])
    _ ← left_loop (listening session.worker.state)
    closed ← close_socket opened
    ended ← destroy closed z.ended
    done (session, ended)

  abbrev ends_with : DestroyResult → Mq
  ends_with destroyed_ok = record { context = destroyed; socket = null; open_sockets = 0 }
  ends_with interrupted = record { context = live; socket = null; open_sockets = 0 }
  ends_with failed = record { context = null; socket = null; open_sockets = 0 }

  -- The pointer to the socket is null, and the library holds no socket open.
  abbrev pub IsClosed : Mq → Type 0
  IsClosed mq = (mq.socket ≡ null) × (mq.open_sockets ≡ 0)

  ends-IsClosed : (r : DestroyResult) → IsClosed (ends_with r)
  ends-IsClosed destroyed_ok = (refl, refl)
  ends-IsClosed interrupted = (refl, refl)
  ends-IsClosed failed = (refl, refl)

  -- Over requests after which the worker has left its loop, whatever the library's calls return for
  -- the command connection: if zmq_ctx_new or zmq_socket fails, the process ends with code 1; if
  -- only zmq_bind fails, of which the worker takes no notice, it waits for ever; and else it runs to
  -- its end with the session of its loop, a null pointer to the socket and no socket that the
  -- library holds open. No pointer that is not live is handed to the library.
  pub run_outcomes :
      (z : Connection) (s : w.broker.State) (turns : List (Turn w.Duration)) (session : Session w)
      → listen w new_worker s turns ≡ done session
      → listening session.worker.state ≡ false
      → (((z.created && z.opened) ≡ false) × (run z s turns ≡ exited 1))
        ⊎ (((z.created && z.opened) ≡ true) × (z.attached ≡ false) × (run z s turns ≡ blocked))
        ⊎ (((z.created && z.opened) ≡ true)
            × (z.attached ≡ true)
            × (mq : Mq) × (run z s turns ≡ done (session, mq))
            × IsClosed mq)
  unfolding run new_mq open_socket bind close_socket destroy listen listening
  run_outcomes z s turns session h over = elim (Bool-cases z.created) [
    | inr e ↦ inl (rw e refl, rw e refl)
    | inl e ↦ elim (Bool-cases z.opened) [
      | inr e' ↦ inl (rw (e, e') refl, rw (e, e') refl)
      | inl e' ↦ elim (Bool-cases z.attached) [
        | inr e'' ↦ inr (inl (rw (e, e') refl, e'', rw (e, e', e'') refl))
        | inl e'' ↦ inr (
            inr (
              rw (e, e') refl,
              e'',
              ends_with z.ended,
              rw (e, e', e'', h, over) refl,
              ends-IsClosed z.ended,
            ))
      ]
    ]
  ]
