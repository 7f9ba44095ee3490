-- ===== src/Connector/Storage.antt =====
-- What a run leaves in a database that stores what it is sent.
use key_value_cluster_perf.Base.{
  Bytes, List, [], ◌∷◌, Option, none, some, same, same_refl, codes, if◌then◌else◌, ◌≡◌, refl, ap,
  ◌∙◌, arith,
}
use key_value_cluster_perf.Broker.{Codec, Broker, Stores, ok_reply, error_reply}
use key_value_cluster_perf.Connector.{
  Connector, Entry, load, limit_passed, key_of, put_value, get_value, transmit, run_entries,
}
use key_value_cluster_perf.Connector.Accounting.{transmitted}

module _ {T : Type 0} where
  -- The payload of the last of the files whose key is `key`, or else what was there before.
  abbrev pub latest : Bytes → Option Bytes → List (Entry T) → Option Bytes
  latest key old [] = old
  latest key old (e ∷ es) = latest key (if same (key_of e.path) key then some e.payload else old) es

  abbrev pub payloads : List (Entry T) → List Bytes
  payloads [] = []
  payloads (e ∷ es) = e.payload ∷ payloads es

module _ (c : Codec) (b : Broker) (stores : Stores c b) where
  pub put_value_lem :
      (s : b.State) (key value : Bytes)
      → ((put_value c b s key value).1 ≡ none)
        × ((other : Bytes)
            → stores.view (put_value c b s key value).0 other
              ≡ (if same key other then some value else stores.view s other))
  unfolding put_value
  put_value_lem s key value = (
    rw (stores.put_reply s key value) (rw (c.decode-encode (ok_reply (codes ""))) refl),
    stores.put_view s key value,
  )

  -- With a database that stores what it is sent, a GET returns the value of its key and prints
  -- nothing, or for a missing key returns the empty value and prints the broker's error; either way
  -- no key changes.
  pub get_value_lem :
      (s : b.State) (key : Bytes)
      → ((value : Bytes)
          → stores.view s key ≡ some value
          → ((get_value c b s key).1 ≡ value) × ((get_value c b s key).2 ≡ none))
        × (stores.view s key ≡ none
            → ((get_value c b s key).1 ≡ [])
              × ((get_value c b s key).2 ≡ some (stores.error_text s key)))
        × ((other : Bytes) → stores.view (get_value c b s key).0 other ≡ stores.view s other)
  unfolding get_value
  get_value_lem s key = (
    (λ value found.
        let e =
          ap c.decode (stores.get_found s key value found) ∙ c.decode-encode (ok_reply value) in
        (rw e refl, rw e refl)),
    (λ missing.
        let text = stores.error_text s key in
        let e =
          ap c.decode (stores.get_missing s key missing) ∙ c.decode-encode (error_reply text) in
        (rw e refl, rw e refl)),
    stores.get_view s key,
  )

  module _ {T : Type 0} (plus : T → T → T) where
    transmit_lem :
        (d : Connector T) (s : b.State) (e : Entry T)
        → ((transmit c b plus d s e).2 ≡ e.payload ∷ [])
          × ((key : Bytes)
              → stores.view (transmit c b plus d s e).1 key
                ≡ (if same (key_of e.path) key then some e.payload else stores.view s key))
    unfolding transmit
    transmit_lem d s e =
        let put = put_value_lem s (key_of e.path) e.payload in
        let s' = (put_value c b s (key_of e.path) e.payload).0 in
        let get = get_value_lem s' (key_of e.path) in
        let found : stores.view s' (key_of e.path) ≡ some e.payload =
          rw (put.1 (key_of e.path), same_refl (key_of e.path)) refl in
        (rw (get.0 e.payload found).0 refl, λ key. get.2 key ∙ put.1 key)

    -- With a database that stores what it is sent: after a run each key holds the payload of the
    -- last transmitted file with that key, or what it held before if there is none; and the objects
    -- that are created are the payloads sent, in order.
    pub run_entries-latest :
        (d : Connector T) (s : b.State) (es : List (Entry T))
        → ((run_entries c b plus d s es).2 ≡ payloads (transmitted d es))
          × ((key : Bytes)
              → stores.view (run_entries c b plus d s es).1 key
                ≡ latest key (stores.view s key) (transmitted d es))
    unfolding run_entries transmit load limit_passed
    run_entries-latest d s [] = (refl, λ key. refl)
    run_entries-latest d s (e ∷ es) =
        let sent = transmit_lem d s e in
        let next = run_entries-latest (transmit c b plus d s e).0 (transmit c b plus d s e).1 es in
        let skipped = run_entries-latest d s es in
        (
          ground (arith, sent.0, next.0, skipped.0),
          λ key. ground (arith, sent.1 key, next.1 key, skipped.1 key),
        )
