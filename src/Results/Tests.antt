-- ===== src/Results/Tests.antt =====
-- The results of a concrete connector.
use key_value_cluster_perf.Base.{ℕ, Bytes, [], ◌∷◌, some, ◌≡◌, refl, codes, negsuc, arith, less}
use key_value_cluster_perf.Buffer.{Buffer, c_string}
use key_value_cluster_perf.StdMap.{insert, lookup, at}
use key_value_cluster_perf.Configuration.{write_string, read_string}
use key_value_cluster_perf.Connector.{Connector}
use key_value_cluster_perf.Decimal.{print_nat}
use key_value_cluster_perf.Mq.{done}
use key_value_cluster_perf.Results.{get_results}
use key_value_cluster_perf.Results.Delivery.{results_delivered}
use key_value_cluster_perf.Transfer.{
  buffer_size, fill_buffer, send_data_to_controller, receive_data_from_worker,
}
use key_value_cluster_perf.Samples.{
  connection, connection-IsUp, platform, platform-IsPlain, garbage, length-garbage,
}

abbrev array : Bytes
array = garbage buffer_size

abbrev after_run : Connector ℕ
after_run = record {
  loaded_objects = 2;
  total_data_size = 1500;
  duration = 40;
  bytes_limit = negsuc 0;
}

abbrev text : Bytes
text = codes "duration=40\nhostname=node1\nobjects=2\nsize=1500"

written : write_string (get_results platform after_run) ≡ some text
unfolding write_string get_results insert less lookup at print_nat
written = refl

results_delivered_example :
    (sent : Buffer) × (received : Buffer) × (send_data_to_controller connection
        (fill_buffer array text).cells
        array
      ≡ done sent)
    × (receive_data_from_worker connection (codes "tcp://a:4000" ∷ []) array (some sent.cells)
        ≡ done (received, []))
    × (read_string (c_string received.cells) ≡ get_results platform after_run)
    × ((fill_buffer array text).stray ≡ 0)
    × (received.stray ≡ 1)
results_delivered_example =
    results_delivered platform after_run connection connection (codes "tcp://a:4000") [] array array
      array text platform-IsPlain connection-IsUp connection-IsUp (length-garbage buffer_size)
      (length-garbage buffer_size) (length-garbage buffer_size) written (omega arith)
