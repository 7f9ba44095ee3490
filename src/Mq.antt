-- ===== src/Mq.antt =====
-- src/MQ.cc: a ZeroMQ context with one socket. The library's calls are arguments: what each of them
-- returned.
pub mod Lifecycle
use key_value_cluster_perf.Base.{
  ℕ, zero, suc, ◌-◌, Bytes, Bool, true, false, Option, none, some, List, [], ◌∷◌, length,
}
use key_value_cluster_perf.Buffer.{Buffer, memcpy}

-- A pointer that the library gave out: none yet, the null pointer, a live object, or one that the
-- library has destroyed since.
pub data Handle : Type 0 where
  unset null live destroyed : Handle

-- The two pointers, and how many sockets of the context the library holds open.
pub record Mq : Type 0 where
  pub context : Handle
  pub socket : Handle
  pub open_sockets : ℕ

-- A call that gives back no result has ended the process, or waits for ever for a message, or has
-- done what is undefined, such as passing to the library a pointer that is not live.
pub data Outcome {ℓ} (A : Type ℓ) : Type ℓ where
  done : A → Outcome A
  exited : ℕ → Outcome A
  blocked : Outcome A
  undefined : Outcome A

infixl 5 ◌>>=◌
abbrev pub ◌>>=◌ {ℓ κ} : {A : Type ℓ} {B : Type κ} → Outcome A → (A → Outcome B) → Outcome B
done a >>= f = f a
exited n >>= f = exited n
blocked >>= f = blocked
undefined >>= f = undefined

-- Uses a handle as an argument of a library call.
abbrev pub use_handle {ℓ} : {A : Type ℓ} → Handle → Outcome A → Outcome A
use_handle live next = next
use_handle unset next = undefined
use_handle null next = undefined
use_handle destroyed next = undefined

-- What zmq_ctx_destroy returned: 0, or an error with errno EINTR, or one with another errno.
pub data DestroyResult : Type 0 where
  destroyed_ok interrupted failed : DestroyResult

-- MQ::MQ: `created` is whether zmq_ctx_new gave a context. The constructor leaves mSocket alone.
unfoldable pub new_mq : Bool → Outcome Mq
new_mq false = exited 1
new_mq true = done (record { context = live; socket = unset; open_sockets = 0 })

destroy_result : Mq → DestroyResult → Mq
destroy_result mq destroyed_ok = record mq { context = destroyed }
destroy_result mq interrupted = mq
destroy_result mq failed = record mq { context = null }

-- zmq_ctx_destroy comes back only when all sockets of the context have been closed.
abbrev pub when_closed {ℓ} : {A : Type ℓ} → ℕ → Outcome A → Outcome A
when_closed zero next = next
when_closed (suc n) next = blocked

-- MQ::destroy
destroy_context : Handle → Mq → DestroyResult → Outcome Mq
unfolding destroy_result
destroy_context null mq result = done mq
destroy_context h mq result =
    use_handle h (when_closed mq.open_sockets (done (destroy_result mq result)))

unfoldable pub destroy : Mq → DestroyResult → Outcome Mq
unfolding destroy_context
destroy mq result = destroy_context mq.context mq result

-- MQ::openSocket: `opened` is whether zmq_socket gave a socket.
open_result : Mq → Bool → Outcome Mq
open_result mq false = exited 1
open_result mq true = done (record mq { socket = live; open_sockets = suc mq.open_sockets })

unfoldable pub open_socket : Mq → Bool → Outcome Mq
unfolding open_result
open_socket mq opened = use_handle mq.context (open_result mq opened)

-- MQ::closeSocket: zmq_close of a live socket closes it, and the pointer is cleared.
close_handle : Handle → Mq → Outcome Mq
close_handle null mq = done mq
close_handle h mq =
    use_handle h (done (record mq { socket = null; open_sockets = mq.open_sockets - 1 }))

unfoldable pub close_socket : Mq → Outcome Mq
unfolding close_handle
close_socket mq = close_handle mq.socket mq

-- MQ::bind: `bound` is whether zmq_bind succeeded.
unfoldable pub bind : Mq → Bool → Outcome Bool
bind mq bound = use_handle mq.socket (done bound)

-- MQ::connect: a failure ends the process.
connect_result : Bool → Outcome (Unit {0})
connect_result true = done tt
connect_result false = exited 1

unfoldable pub connect : Mq → Bool → Outcome (Unit {0})
unfolding connect_result
connect mq connected = use_handle mq.socket (connect_result connected)

-- MQ::send: the message that is sent, `size` bytes copied into a fresh message body.
unfoldable pub send : Mq → Bytes → ℕ → Bytes → Outcome Buffer
send mq buffer size body = use_handle mq.socket (done (memcpy size buffer body))

-- The message that zmq_msg_recv gave: after a failure it is the empty one.
pub message_data : Option Bytes → Bytes
message_data none = []
message_data (some message) = message

-- std::string MQ::receive() and MQ::receive(std::vector<char>*)
unfoldable pub receive : Mq → Option Bytes → Outcome Bytes
unfolding message_data
receive mq received = use_handle mq.socket (done (message_data received))

-- MQ::receive(char*& buffer): all of the message is copied, whatever the buffer holds.
unfoldable pub receive_all : Mq → Bytes → Option Bytes → Outcome Buffer
unfolding message_data
receive_all mq buffer received =
    let message = message_data received in
    use_handle mq.socket (done (memcpy (length message) message buffer))

-- MQ::receive(char*& buffer, int size)
unfoldable pub receive_sized : Mq → Bytes → ℕ → Option Bytes → Outcome Buffer
unfolding message_data
receive_sized mq buffer size received =
    use_handle mq.socket (done (memcpy size (message_data received) buffer))
