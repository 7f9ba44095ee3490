-- ===== src/Database/Sender.antt =====
-- The ZeroMQ context and socket of src/MessageSender.cc. What the library's calls return is an
-- argument.
use key_value_cluster_perf.Base.{Bool, true, false, ◌-◌}
use key_value_cluster_perf.Mq.{
  Mq, Handle, null, live, destroyed, Outcome, done, exited, ◌>>=◌, use_handle, when_closed,
  DestroyResult, destroyed_ok, interrupted, failed,
}

-- MessageSender::MessageSender: a call that fails ends the process by exit(-1).
unfoldable pub new_sender : Bool → Bool → Bool → Outcome Mq
new_sender false opened attached = exited 255
new_sender true false attached = exited 255
new_sender true true false = exited 255
new_sender true true true = done (record { context = live; socket = live; open_sockets = 1 })

-- zmq_close, unless the pointer is null.
close_sender_socket : Handle → Mq → Outcome Mq
close_sender_socket null m = done m
close_sender_socket h m =
    use_handle h (done (record m { socket = null; open_sockets = m.open_sockets - 1 }))

-- zmq_ctx_destroy; a failure is printed.
destroy_sender_context : Mq → DestroyResult → Mq
destroy_sender_context m destroyed_ok = record m { context = destroyed }
destroy_sender_context m interrupted = m
destroy_sender_context m failed = m

-- MessageSender::~MessageSender
unfoldable pub delete_sender : Mq → DestroyResult → Outcome Mq
unfolding close_sender_socket destroy_sender_context
delete_sender m result = do
  closed ← close_sender_socket m.socket m
  use_handle closed.context
      (when_closed closed.open_sockets (done (destroy_sender_context closed result)))
