-- ===== src/Connector/Objects.antt =====
-- src/DBConnector.cc: `create`, which makes an object of the bytes that came back, and the object
-- that `load` serialises. ROOT's class TBufferFile is an interface.
use key_value_cluster_perf.Base.{ℕ, Bytes, List, [], ◌∷◌, Option, ◌≡◌, ◌≢◌}
use key_value_cluster_perf.Mq.{Outcome, done, undefined, ◌>>=◌}

-- TBufferFile over the objects of class AliCDBEntry; `none` is the null pointer.
pub record Root : Type 1 where
  pub Object : Type 0
  pub Buffer : Type 0
  pub write_buffer : Buffer
  pub write_object : Buffer → Option Object → Buffer
  pub write_buf : Buffer → Bytes → Buffer
  pub set_read_mode : Buffer → Buffer
  pub set_buffer_offset : Buffer → ℕ → Buffer
  pub contents : Buffer → Bytes
  pub read_object : Buffer → Option Object

module _ (r : Root) where
  -- The bytes that `load` makes of the object of a file.
  unfoldable pub serialised : Option r.Object → Bytes
  serialised en = r.contents (r.write_object r.write_buffer en)

  abbrev pub from_start : r.Buffer → Option r.Object
  from_start buf = r.read_object (r.set_buffer_offset (r.set_read_mode buf) 0)

  -- DBConnector::create. It takes the address of the first byte, which an empty vector does not
  -- have.
  unfoldable pub create : Bytes → Outcome (Option r.Object)
  create [] = undefined
  create (byte ∷ bytes) = done (from_start (r.write_buf r.write_buffer (byte ∷ bytes)))

  -- The calls of `create` in a run.
  unfoldable pub create_all : List Bytes → Outcome (List (Option r.Object))
  unfolding create
  create_all [] = done []
  create_all (value ∷ values) = do en ← create value; rest ← create_all values; done (en ∷ rest)

  -- Bytes that are written to a new buffer are its contents; what is read from the start depends on
  -- the contents alone; an object that was written is read back, and takes up some bytes.
  pub record Serialises : Type 0 where
    pub copied : (value : Bytes) → r.contents (r.write_buf r.write_buffer value) ≡ value
    pub same_contents :
        (buf buf' : r.Buffer) → r.contents buf ≡ r.contents buf' → from_start buf ≡ from_start buf'
    pub read_back : (en : Option r.Object) → from_start (r.write_object r.write_buffer en) ≡ en
    pub some_bytes : (en : Option r.Object) → r.contents (r.write_object r.write_buffer en) ≢ []
