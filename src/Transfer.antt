-- ===== src/Transfer.antt =====
-- The results on their way from a worker to the controller: src/SimulationWorker.cc (the buffer of
-- GETRESULTS and sendDataToController) and src/SimulationController.cc (receiveDataFromWorker).
--
-- Arrays and message bodies hold arbitrary bytes before they are written.
pub mod Delivery
mod Ends
mod Tests
use key_value_cluster_perf.Base.{
  ℕ, ◌-◌, Bytes, Bool, List, [], ◌∷◌, Option, none, some, if◌then◌else◌,
}
use key_value_cluster_perf.Buffer.{Buffer, strcpy, write_at}
use key_value_cluster_perf.Mq.{
  Mq, Outcome, done, undefined, blocked, ◌>>=◌, DestroyResult, new_mq, open_socket, bind, connect,
  send, receive_sized, close_socket, destroy,
}

abbrev pub buffer_size : ℕ
buffer_size = 1024

-- What the library's calls on a data connection return; `attached` is that of zmq_bind on the
-- worker and of zmq_connect on the controller.
pub record Connection : Type 0 where
  pub created : Bool
  pub opened : Bool
  pub attached : Bool
  pub ended : DestroyResult

-- strcpy(buffer, resultsData.c_str()); buffer[sizeof(buffer) - 1] = 0;
pub fill_buffer : Bytes → Bytes → Buffer
fill_buffer buffer results_data = write_at (strcpy results_data buffer) (buffer_size - 1) 0

-- The message that the worker sends; `body` is what the message held before. The result of bind is
-- not looked at; a send over a socket that is not bound waits for a peer for ever.
pub send_data_to_controller : Connection → Bytes → Bytes → Outcome Buffer
unfolding new_mq open_socket bind send close_socket destroy
send_data_to_controller z buffer body = do
  mq ← new_mq z.created
  opened ← open_socket mq z.opened
  bound ← bind opened z.attached
  message ← if bound then send opened buffer buffer_size body else blocked
  closed ← close_socket opened
  _ ← destroy closed z.ended
  done message

-- The first of the data hosts is connected to, and taken off the list.
pub receive_data_from_worker :
    Connection → List Bytes → Bytes → Option Bytes → Outcome (Buffer × List Bytes)
unfolding new_mq open_socket connect receive_sized close_socket destroy
receive_data_from_worker z [] buffer received = undefined
receive_data_from_worker z (host ∷ data_hosts) buffer received = do
  mq ← new_mq z.created
  opened ← open_socket mq z.opened
  _ ← connect opened z.attached
  filled ← receive_sized opened buffer buffer_size received
  closed ← close_socket opened
  _ ← destroy closed z.ended
  done (write_at filled buffer_size 0, data_hosts)
