-- ===== src/Connector/Creation.antt =====
-- Which objects a run creates.
use key_value_cluster_perf.Base.{
  Bytes, List, [], ◌∷◌, Option, none, map, ◌≡◌, refl, ap, ◌∙◌, sym, All,
}
use key_value_cluster_perf.Broker.{Codec, Broker, Stores}
use key_value_cluster_perf.Connector.{Connector, Entry, get_value, run_entries}
use key_value_cluster_perf.Connector.Accounting.{transmitted, All-transmitted}
use key_value_cluster_perf.Connector.Objects.{Root, Serialises, serialised, create, create_all}
use key_value_cluster_perf.Connector.Storage.{payloads, run_entries-latest, get_value_lem}
use key_value_cluster_perf.Mq.{done, undefined}

module _ (r : Root) (laws : Serialises r) where
  create_lem :
      (value : Bytes) (en : Option r.Object) → value ≡ serialised r en → create r value ≡ done en
  unfolding create serialised
  create_lem [] en h = absurd (laws.some_bytes en (sym h))
  create_lem (byte ∷ bytes) en h =
      ap done (laws.same_contents _ _ (laws.copied (byte ∷ bytes) ∙ h) ∙ laws.read_back en)

  module _ {T : Type 0} (object_of : Entry T → Option r.Object) where
    -- The payload of a file is what ROOT makes of its object.
    abbrev pub IsSerialised : Entry T → Type 0
    IsSerialised e = e.payload ≡ serialised r (object_of e)

    create_all_lem :
        (es : List (Entry T))
        → All IsSerialised es
        → create_all r (payloads es) ≡ done (map object_of es)
    unfolding create_all
    create_all_lem [] h = refl
    create_all_lem (e ∷ es) h =
        rw (create_lem e.payload (object_of e) h.0, create_all_lem es h.1) refl

    module _ (c : Codec) (b : Broker) (stores : Stores c b) (plus : T → T → T) where
      -- With a database that stores what it is sent, and files whose bytes are what ROOT makes of
      -- their objects: a run creates the objects of the files that it transmits again, in order,
      -- and no call of `create` is undefined.
      pub run_entries-create_all :
          (d : Connector T) (s : b.State) (es : List (Entry T))
          → All IsSerialised es
          → create_all r (run_entries c b plus d s es).2 ≡ done (map object_of (transmitted d es))
      run_entries-create_all d s es h =
          ap (create_all r) (run_entries-latest c b stores plus d s es).0
          ∙ create_all_lem (transmitted d es) (All-transmitted IsSerialised d es h)

-- With a database that stores what it is sent, an object that is to be created of a key that is
-- missing is not refused: `getValue` prints the error and returns no bytes, and `create` is
-- undefined for them.
pub create-get_value :
    (r : Root) (c : Codec) (b : Broker) (stores : Stores c b) (s : b.State) (key : Bytes)
    → stores.view s key ≡ none
    → create r (get_value c b s key).1 ≡ undefined
unfolding create
create-get_value r c b stores s key missing =
    ap (create r) ((get_value_lem c b stores s key).1 missing).0
