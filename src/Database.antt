-- ===== src/Database.antt =====
-- The databases of src/KeyValueDB.cc, src/DummyKeyValueDB.cc, src/RamCloudKeyValueDB.cc and
-- src/RiakJavaKeyValueDB.cc with src/MessageSender.cc, and the loops over them of
-- src/DBConnector.cc and src/Simulator.cc.
--
-- The hashes of src/sha1.cc and src/vmac.c are arguments. Messages pass as bytes; what zmq_msg_send
-- and zmq_msg_recv return is only printed by the source, and is left out.
pub mod Riak
pub mod Access
pub mod Sender
mod Tests
use key_value_cluster_perf.Base.{
  ℕ, zero, suc, ◌+◌, ◌-◌, ◌==◌, ◌*◌, ◌%◌, ◌^◌, Bytes, Bool, true, false, List, [], ◌∷◌, ◌++◌,
  Option, none, some, same, codes, if◌then◌else◌, ◌≡◌, ℤ, pos, ◌-ℤ◌, pos_part, neg_part,
}
use key_value_cluster_perf.Broker.{Message, Codec, Broker, put_message, get_message}
use key_value_cluster_perf.Decimal.{print_nat}
use key_value_cluster_perf.Mq.{Outcome, done, undefined, ◌>>=◌}
use key_value_cluster_perf.StdMap.{StringMap, insert, at}
use key_value_cluster_perf.Workload.{Random, SingleAccess, AccessPattern}

-- The virtual methods of class KeyValueDB, over all that they change.
pub record KeyValueDb : Type 1 where
  pub State : Type 0
  pub put_value : Bytes → Bytes → State → State
  pub get_value : Bytes → State → State × Bytes
  pub delete_value : Bytes → State → State

-- KeyValueDB::initialise; the map `rest` is what the iterator has still to visit.
unfoldable pub initialise : (db : KeyValueDb) → StringMap → db.State → db.State
initialise db [] s = s
initialise db ((key, value) ∷ rest) s = initialise db rest (db.put_value key value s)

-- DummyKeyValueDB
abbrev pub dummy : Type 0 → KeyValueDb
dummy S = record {
  State = S;
  put_value = λ key value s. s;
  get_value = λ key s. (s, codes "");
  delete_value = λ key s. s;
}

-- RamCloudKeyValueDB, whose bodies are commented out.
abbrev pub ram_cloud : Type 0 → KeyValueDb
ram_cloud S = record {
  State = S;
  put_value = λ key value s. s;
  get_value = λ key s. (s, codes "");
  delete_value = λ key s. s;
}

-- The hash functions, with the key that vmac is given.
pub record Hashes : Type 0 where
  pub sha1 : Bytes → Bytes
  pub vmac : Bytes → ℕ

pub record MessageSender : Type 0 where
  pub sha1_enabled : Bool
  pub vmac_enabled : Bool
  pub sha1_hash : Bytes
  pub vmac_hash : ℕ

-- The settings of MessageSender::MessageSender; `junk` is what vmacHash holds at first.
unfoldable pub new_message_sender : Bytes → ℕ → MessageSender
new_message_sender security junk = record {
  sha1_enabled = same security (codes "sha1");
  vmac_enabled = same security (codes "vmac");
  sha1_hash = [];
  vmac_hash = junk;
}

module _ (h : Hashes) (c : Codec) (b : Broker) where
  -- The sender, the broker's side, and what has been printed to the log.
  pub record RiakState : Type 0 where
    pub sender : MessageSender
    pub stored : b.State
    pub log : List Bytes

  -- The hashes that MessageSender::send computes, and does not send.
  hash_message : Bytes → MessageSender → MessageSender
  hash_message message m = record m {
    sha1_hash = if m.sha1_enabled then h.sha1 message else m.sha1_hash;
    vmac_hash = if m.vmac_enabled then h.vmac message else m.vmac_hash;
  }

  -- MessageSender::send and then MessageSender::receive.
  send_receive : Bytes → RiakState → RiakState × Bytes
  unfolding hash_message
  send_receive message s =
      let (stored, reply) = b.exchange s.stored message in
      (record s { sender = hash_message message s.sender; stored = stored }, reply)

  log_error : Message → RiakState → RiakState
  log_error reply s =
      if same reply.command (codes "OK") then s else record s { log = s.log ++ (reply.error ∷ []) }

  unfoldable pub riak_put_value : Bytes → Bytes → RiakState → RiakState
  unfolding send_receive log_error
  riak_put_value key value s =
      let (s', reply) = send_receive (c.encode (put_message key value)) s in
      log_error (c.decode reply) s'

  -- A reply that is not "OK" gives the empty string.
  unfoldable pub riak_get_value : Bytes → RiakState → RiakState × Bytes
  unfolding send_receive log_error
  riak_get_value key s =
      let (s', reply) = send_receive (c.encode (get_message key)) s in
      let m = c.decode reply in
      (log_error m s', if same m.command (codes "OK") then m.value else codes "")

  unfoldable pub riak_delete_value : Bytes → RiakState → RiakState
  riak_delete_value key s = record s {
    log = s.log ++ (codes "Delete not implemented in RiakJava" ∷ []);
  }

  abbrev pub riak_java : KeyValueDb
  riak_java = record {
    State = RiakState;
    put_value = riak_put_value;
    get_value = riak_get_value;
    delete_value = riak_delete_value;
  }

-- A database that stores: a put sets its key and no other, a get changes no key and gives the value
-- of its key, and the empty string for a key that is not set.
pub record IsStore (db : KeyValueDb) : Type 0 where
  pub view : db.State → Bytes → Option Bytes
  pub put_view :
      (s : db.State) (key value other : Bytes)
      → view (db.put_value key value s) other
        ≡ (if same key other then some value else view s other)
  pub get_view :
      (s : db.State) (key other : Bytes) → view (db.get_value key s).0 other ≡ view s other
  pub get_found :
      (s : db.State) (key value : Bytes) → view s key ≡ some value → (db.get_value key s).1 ≡ value
  pub get_missing :
      (s : db.State) (key : Bytes) → view s key ≡ none → (db.get_value key s).1 ≡ codes ""

-- What one access does, and the value of a read.
unfoldable pub access : (db : KeyValueDb) → SingleAccess → db.State → db.State × Option Bytes
access db a s =
    let (s', value) = db.get_value a.key s in
    if a.read then (s', some value) else (db.put_value a.key a.value s, none)

module _ (g : Random) (p : AccessPattern g) (db : KeyValueDb) where
  -- DBConnector::burnInOut and Simulator::burnInOut, over `runs` rounds.
  unfoldable pub burn_in_out : ℕ → g.State → db.State → Outcome (g.State × db.State)
  unfolding access
  burn_in_out zero r s = done (r, s)
  burn_in_out (suc runs) r s = do
    next ← p.get_next r
    burn_in_out runs next.1 (access db next.0 s).0
