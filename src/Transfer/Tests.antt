-- ===== src/Transfer/Tests.antt =====
-- A text in arrays of 1024 bytes.
use key_value_cluster_perf.Base.{
  true, false, ◌&&◌, ◌⊎◌, ◌+◌, ◌-◌, Bytes, [], ◌∷◌, some, ◌≡◌, codes, length, take,
}
use key_value_cluster_perf.Buffer.{Buffer, c_string, memcpy}
use key_value_cluster_perf.Mq.{done, exited, blocked}
use key_value_cluster_perf.Transfer.{
  buffer_size, fill_buffer, send_data_to_controller, receive_data_from_worker,
}
use key_value_cluster_perf.Transfer.Delivery.{receive-send}
use key_value_cluster_perf.Transfer.Ends.{is_open, taken, connections_end}
use key_value_cluster_perf.Samples.{connection, connection-IsUp, garbage, length-garbage}

abbrev array : Bytes
array = garbage buffer_size

receive-send_example :
    (sent : Buffer) × (received : Buffer) × (send_data_to_controller connection
        (fill_buffer array (codes "size=3")).cells
        array
      ≡ done sent)
    × (receive_data_from_worker connection (codes "tcp://a:4000" ∷ []) array (some sent.cells)
        ≡ done (received, []))
    × (c_string received.cells ≡ take (buffer_size - 1) (c_string (codes "size=3")))
    × ((fill_buffer array (codes "size=3")).stray
        ≡ length (c_string (codes "size=3")) + 1 - buffer_size)
    × (sent.stray ≡ 0)
    × (received.stray ≡ 1)
receive-send_example =
    receive-send connection connection (codes "tcp://a:4000") [] array array array (codes "size=3")
      connection-IsUp connection-IsUp (length-garbage buffer_size) (length-garbage buffer_size)
      (length-garbage buffer_size)

connections_end_example :
    (((is_open connection ≡ false) × (send_data_to_controller connection array array ≡ exited 1))
      ⊎ ((is_open connection ≡ true)
          × (connection.attached ≡ false)
          × (send_data_to_controller connection array array ≡ blocked))
      ⊎ ((is_open connection ≡ true)
          × (connection.attached ≡ true)
          × (send_data_to_controller connection array array
              ≡ done (memcpy buffer_size array array))))
    × (((is_open connection && connection.attached) ≡ false)
          × (receive_data_from_worker connection (codes "tcp://a:4000" ∷ []) array (some array)
              ≡ exited 1)
        ⊎ (((is_open connection && connection.attached) ≡ true)
            × (receive_data_from_worker connection (codes "tcp://a:4000" ∷ []) array (some array)
                ≡ done (taken array (some array), []))))
connections_end_example =
    connections_end connection connection array array (codes "tcp://a:4000") array [] (some array)
