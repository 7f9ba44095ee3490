-- ===== src/Broker.antt =====
-- What stands behind the sockets of the program and is not part of it: the generated class
-- `messaging::RequestMessage` (the fields of the protobuf schema that the program sets and reads),
-- the broker with the database behind it, and the assumption that they store what they are sent.
use key_value_cluster_perf.Base.{Bytes, Option, none, some, ◌≡◌, same, if◌then◌else◌, codes}

pub record Message : Type 0 where
  pub command : Bytes
  pub key : Bytes
  pub value : Bytes
  pub error : Bytes

-- A new message, before any field is set.
abbrev pub new_message : Message
new_message = record { command = codes ""; key = codes ""; value = codes ""; error = codes "" }

-- Serialisation, and parsing, which gives some message for any bytes.
pub record Codec : Type 0 where
  pub encode : Message → Bytes
  pub decode : Bytes → Message
  pub decode-encode : (m : Message) → decode (encode m) ≡ m

-- A ZeroMQ request socket that is connected to the broker: each request has one reply.
pub record Broker : Type 1 where
  pub State : Type 0
  pub exchange : State → Bytes → State × Bytes

abbrev pub put_message : Bytes → Bytes → Message
put_message key value = record new_message { command = codes "PUT"; key = key; value = value }

abbrev pub get_message : Bytes → Message
get_message key = record new_message { command = codes "GET"; key = key }

abbrev pub ok_reply : Bytes → Message
ok_reply value = record new_message { command = codes "OK"; value = value }

abbrev pub error_reply : Bytes → Message
error_reply error = record new_message { command = codes "ERROR"; error = error }

-- The database behind the broker is a map: PUT is answered by OK and sets its key, GET of a key
-- that is set is answered by OK and the value, GET of another by ERROR with some text, and neither
-- changes more.
pub record Stores (c : Codec) (b : Broker) : Type 0 where
  pub view : b.State → Bytes → Option Bytes
  pub error_text : b.State → Bytes → Bytes
  pub put_reply :
      (s : b.State) (key value : Bytes)
      → (b.exchange s (c.encode (put_message key value))).1 ≡ c.encode (ok_reply (codes ""))
  pub put_view :
      (s : b.State) (key value other : Bytes)
      → view (b.exchange s (c.encode (put_message key value))).0 other
        ≡ (if same key other then some value else view s other)
  pub get_found :
      (s : b.State) (key value : Bytes)
      → view s key ≡ some value
      → (b.exchange s (c.encode (get_message key))).1 ≡ c.encode (ok_reply value)
  pub get_missing :
      (s : b.State) (key : Bytes)
      → view s key ≡ none
      → (b.exchange s (c.encode (get_message key))).1 ≡ c.encode (error_reply (error_text s key))
  pub get_view :
      (s : b.State) (key other : Bytes)
      → view (b.exchange s (c.encode (get_message key))).0 other ≡ view s other
