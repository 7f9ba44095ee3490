-- ===== src/Transfer/Ends.antt =====
-- How the two ends of a data connection come to their end, whatever the library's calls return.
use key_value_cluster_perf.Base.{
  Bytes, Bool, true, false, ◌&&◌, List, ◌∷◌, Option, ◌≡◌, refl, ◌⊎◌, inl, inr, Bool-cases,
}
use key_value_cluster_perf.Buffer.{Buffer, memcpy, write_at}
use key_value_cluster_perf.Mq.{message_data, done, exited, blocked, destroy}
use key_value_cluster_perf.Transfer.{
  Connection, buffer_size, send_data_to_controller, receive_data_from_worker,
}

abbrev pub is_open : Connection → Bool
is_open z = z.created && z.opened

-- The controller's array with the message, nothing if no message came, and a NUL behind its end.
abbrev pub taken : Bytes → Option Bytes → Buffer
taken buffer received = write_at (memcpy buffer_size (message_data received) buffer) buffer_size 0

sending :
    (z : Connection) (buffer body : Bytes)
    → ((is_open z ≡ false) × (send_data_to_controller z buffer body ≡ exited 1))
      ⊎ ((is_open z ≡ true)
          × (z.attached ≡ false)
          × (send_data_to_controller z buffer body ≡ blocked))
      ⊎ ((is_open z ≡ true)
          × (z.attached ≡ true)
          × (send_data_to_controller z buffer body ≡ done (memcpy buffer_size buffer body)))
unfolding send_data_to_controller destroy
sending z buffer body = elim (Bool-cases z.created) [
  | inr e ↦ inl (rw e refl, rw e refl)
  | inl e ↦ elim (Bool-cases z.opened) [
    | inr f ↦ inl (rw (e, f) refl, rw (e, f) refl)
    | inl f ↦ elim (Bool-cases z.attached) [
      | inr g ↦ inr (inl (rw (e, f) refl, g, rw (e, f, g) refl))
      | inl g ↦ inr (inr (rw (e, f) refl, g, rw (e, f, g) refl))
    ]
  ]
]

receiving :
    (z : Connection) (host buffer : Bytes) (hosts : List Bytes) (received : Option Bytes)
    → (((is_open z && z.attached) ≡ false)
        × (receive_data_from_worker z (host ∷ hosts) buffer received ≡ exited 1))
      ⊎ (((is_open z && z.attached) ≡ true)
          × (receive_data_from_worker z (host ∷ hosts) buffer received
              ≡ done (taken buffer received, hosts)))
unfolding receive_data_from_worker destroy
receiving z host buffer hosts received = elim (Bool-cases z.created) [
  | inr e ↦ inl (rw e refl, rw e refl)
  | inl e ↦ elim (Bool-cases z.opened) [
    | inr f ↦ inl (rw (e, f) refl, rw (e, f) refl)
    | inl f ↦ elim (Bool-cases z.attached) [
      | inr g ↦ inl (rw (e, f, g) refl, rw (e, f, g) refl)
      | inl g ↦ inr (rw (e, f, g) refl, rw (e, f, g) refl)
    ]
  ]
]

-- Whatever the library's calls return: the worker's end of a data connection ends the process with
-- code 1 exactly if zmq_ctx_new or zmq_socket failed, waits for ever if only zmq_bind failed, and
-- else sends the array; the controller's end ends the process with code 1 exactly if zmq_ctx_new,
-- zmq_socket or zmq_connect failed, and else takes the message into its array and the first data
-- host off the list. Neither hands the library a pointer that is not live, nor destroys a context
-- with an open socket, which would wait for ever.
pub connections_end :
    (z z' : Connection) (buffer body host buffer' : Bytes) (hosts : List Bytes)
    (received : Option Bytes)
    → (((is_open z ≡ false) × (send_data_to_controller z buffer body ≡ exited 1))
        ⊎ ((is_open z ≡ true)
            × (z.attached ≡ false)
            × (send_data_to_controller z buffer body ≡ blocked))
        ⊎ ((is_open z ≡ true)
            × (z.attached ≡ true)
            × (send_data_to_controller z buffer body ≡ done (memcpy buffer_size buffer body))))
      × (((is_open z' && z'.attached) ≡ false)
            × (receive_data_from_worker z' (host ∷ hosts) buffer' received ≡ exited 1)
          ⊎ (((is_open z' && z'.attached) ≡ true)
              × (receive_data_from_worker z' (host ∷ hosts) buffer' received
                  ≡ done (taken buffer' received, hosts))))
connections_end z z' buffer body host buffer' hosts received =
    (sending z buffer body, receiving z' host buffer' hosts received)
