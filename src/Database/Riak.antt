-- ===== src/Database/Riak.antt =====
-- src/RiakJavaKeyValueDB.cc over a broker that stores what it is sent is a database that stores.
use key_value_cluster_perf.Base.{Bytes, ◌≡◌, refl, ap, ◌∙◌, arith}
use key_value_cluster_perf.Broker.{
  Codec, Broker, Stores, put_message, get_message, ok_reply, error_reply,
}
use key_value_cluster_perf.Database.{
  Hashes, RiakState, IsStore, riak_put_value, riak_get_value, riak_java, send_receive, log_error,
}

module _ (h : Hashes) (c : Codec) (b : Broker) (stores : Stores c b) where
  riak_put_value_stored :
      (key value : Bytes) (s : RiakState h c b)
      → (riak_put_value h c b key value s).stored
        ≡ (b.exchange s.stored (c.encode (put_message key value))).0
  unfolding riak_put_value send_receive log_error
  riak_put_value_stored key value s = ground arith

  riak_get_value_stored :
      (key : Bytes) (s : RiakState h c b)
      → (riak_get_value h c b key s).0.stored ≡ (b.exchange s.stored (c.encode (get_message key))).0
  unfolding riak_get_value send_receive log_error
  riak_get_value_stored key s = ground arith

  -- With a broker that stores what it is sent, whichever hashes are enabled, the methods of
  -- RiakJava store too: a put sets its key and no other, a get changes no key and gives the value
  -- of its key, or the empty string for a key that is not set.
  pub riak_java-IsStore : IsStore (riak_java h c b)
  unfolding riak_get_value send_receive
  riak_java-IsStore = record {
    view = λ s key. stores.view s.stored key;
    put_view = λ s key value other.
        ap (λ (t : b.State). stores.view t other) (riak_put_value_stored key value s)
        ∙ stores.put_view s.stored key value other;
    get_view = λ s key other.
        ap (λ (t : b.State). stores.view t other) (riak_get_value_stored key s)
        ∙ stores.get_view s.stored key other;
    get_found = λ s key value found.
        rw (stores.get_found s.stored key value found) (rw (c.decode-encode (ok_reply value)) refl);
    get_missing = λ s key missing.
        rw (stores.get_missing s.stored key missing)
          (rw (c.decode-encode (error_reply (stores.error_text s.stored key))) refl);
  }
