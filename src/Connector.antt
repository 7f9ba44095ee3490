-- ===== src/Connector.antt =====
-- src/DBConnector.cc: the traversal of a directory of ROOT files, each of which is loaded, sent to
-- the broker under a key that is made of its name, and read back.
--
-- `T` is the type of time durations (boost::posix_time::time_duration). ROOT's serialisation is the
-- `payload` of an entry. Byte counts and the limit, doubles in the source, are whole numbers here.
pub mod Key
pub mod Accounting
pub mod Storage
pub mod Objects
pub mod Creation
pub mod Order
mod Bag
pub mod Lifetime
mod Tests
use key_value_cluster_perf.Base.{
  ℕ, suc, ◌+◌, ◌%◌, ◌^◌, Bytes, Bool, true, false, not, ◌&&◌, List, [], ◌∷◌, ◌++◌, Option, none,
  some, same, ◌==◌, if◌then◌else◌, length, drop, take, codes, ℤ, pos, negsuc, ltb_ℤ, eq_ℤ,
}
use key_value_cluster_perf.Broker.{Message, Codec, Broker, put_message, get_message}

-- The members of `DBConnector` that its methods change, and `mBytesLimit`.
pub record Connector (T : Type 0) : Type 0 where
  pub loaded_objects : ℕ
  pub total_data_size : ℕ
  pub duration : T
  pub bytes_limit : ℤ

-- What the recursive directory iterator points at: the path, `is_regular_file`, the buffer that
-- ROOT serialises the file to, and the time that its put/get cycle takes.
pub record Entry (T : Type 0) : Type 0 where
  pub path : Bytes
  pub regular : Bool
  pub payload : Bytes
  pub elapsed : T

-- s.rfind(b): `none` is npos.
rfind_at : ℕ → ℕ → Option ℕ → Option ℕ
rfind_at b c (some i) = some (suc i)
rfind_at b c none = if c == b then some 0 else none

pub rfind : ℕ → Bytes → Option ℕ
unfolding rfind_at
rfind b [] = none
rfind b (c ∷ cs) = rfind_at b c (rfind b cs)

-- s.substr(pos + 1): npos + 1 is 0.
pub after : Option ℕ → Bytes → Bytes
after none s = s
after (some i) s = drop (suc i) s

-- s.substr(0, pos): npos stands for all of the text.
pub before : Option ℕ → Bytes → Bytes
before none s = s
before (some i) s = take i s

-- The key of a file: its path without the directories and without the extension.
unfoldable pub key_of : Bytes → Bytes
unfolding rfind after before
key_of path = let str = after (rfind b'/' path) path in before (rfind b'.' str) str

module _ {T : Type 0} where
  -- The counters that `load` changes; mLoadedObjects is an unsigned int.
  unfoldable pub load : Connector T → Entry T → Connector T
  load d e = record d {
    loaded_objects = (d.loaded_objects + 1) % 2 ^ 32;
    total_data_size = d.total_data_size + length e.payload;
  }

  -- mBytesLimit != -1 && mTotalDataSize > mBytesLimit
  unfoldable pub limit_passed : Connector T → Bool
  limit_passed d =
      not (eq_ℤ d.bytes_limit (negsuc 0)) && ltb_ℤ d.bytes_limit (pos d.total_data_size)

module _ (c : Codec) (b : Broker) where
  -- The error of a reply, which is printed if its command is not "OK".
  printed : Message → Option Bytes
  printed reply = if same reply.command (codes "OK") then none else some reply.error

  -- The new state of the broker's side, and what is printed.
  unfoldable pub put_value : b.State → Bytes → Bytes → b.State × Option Bytes
  unfolding printed
  put_value s key value =
      let (s', reply) = b.exchange s (c.encode (put_message key value)) in
      (s', printed (c.decode reply))

  -- The new state, the value of the reply whatever its command is, and what is printed.
  unfoldable pub get_value : b.State → Bytes → b.State × Bytes × Option Bytes
  unfolding printed
  get_value s key =
      let (s', reply) = b.exchange s (c.encode (get_message key)) in
      let m = c.decode reply in (s', m.value, printed m)

  module _ {T : Type 0} (plus : T → T → T) where
    -- What `run` leaves behind: the connector, the broker's side, and the objects that `create`
    -- was given, in order.
    abbrev Run : Type 0
    Run = Connector T × b.State × List Bytes

    -- The put/get cycle of one regular file.
    unfoldable pub transmit : Connector T → b.State → Entry T → Run
    transmit d s e =
        let key = key_of e.path in
        let d' = load d e in
        let (s', _printed) = put_value s key e.payload in
        let (s'', value, _printed') = get_value s' key in
        (record d' { duration = plus d'.duration e.elapsed }, s'', value ∷ [])

    -- The loop of `run` over the entries, with its `break`.
    unfoldable pub run_entries : Connector T → b.State → List (Entry T) → Run
    run_entries d s [] = (d, s, [])
    run_entries d s (e ∷ es) =
        let (d', s', made) = transmit d s e in
        let rest = run_entries d' s' es in
        let skipped = run_entries d s es in
        if e.regular
        then (if limit_passed d' then (d', s', made) else (rest.0, rest.1, made ++ rest.2))
        else skipped

    -- `none` is a data path that does not exist or is no directory.
    unfoldable pub run : Connector T → b.State → Option (List (Entry T)) → Run
    unfolding run_entries
    run d s none = (d, s, [])
    run d s (some entries) = run_entries d s entries
