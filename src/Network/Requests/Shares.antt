-- ===== src/Network/Requests/Shares.antt =====
-- What the connectors leave in the database, and the objects that they make of its answers, if
-- files of one key are equal.
use key_value_cluster_perf.Base.{
  ℕ, zero, suc, ◌<◌, ◌≤◌, ◌==◌, ==_iff, Bool-cases, inl, inr, false, Bytes, List, [], ◌∷◌, ◌++◌,
  Option, none, some, if◌then◌else◌, ◌≡◌, refl, ap, sym, ◌∙◌, arith, All, same, same_iff,
}
use key_value_cluster_perf.Broker.{Codec, Broker, Stores}
use key_value_cluster_perf.Connector.{Entry, key_of, put_value, get_value}
use key_value_cluster_perf.Connector.Order.{IsDetermined, latest-cases}
use key_value_cluster_perf.Connector.Storage.{latest, payloads, put_value_lem, get_value_lem}
use key_value_cluster_perf.Network.{update}
use key_value_cluster_perf.Network.Requests.{Runner}

module _ {T : Type 0} where
  latest-append :
      (key : Bytes) (old : Option Bytes) (es : List (Entry T)) (e : Entry T)
      → latest key old (es ++ (e ∷ []))
        ≡ (if same (key_of e.path) key then some e.payload else latest key old es)
  latest-append key old [] e = refl
  latest-append key old (f ∷ es) e =
      latest-append key (if same (key_of f.path) key then some f.payload else old) es e

  pub payloads-append : (es fs : List (Entry T)) → payloads (es ++ fs) ≡ payloads es ++ payloads fs
  payloads-append [] fs = refl
  payloads-append (e ∷ es) fs = ap (◌∷◌ e.payload) (payloads-append es fs)

  pub All-left : (P : Entry T → Type 0) (es fs : List (Entry T)) → All P (es ++ fs) → All P es
  All-left P [] fs h = tt
  All-left P (e ∷ es) fs h = (h.0, All-left P es fs h.1)

  pub All-last :
      (P : Entry T → Type 0) (es : List (Entry T)) (e : Entry T) → All P (es ++ (e ∷ [])) → P e
  All-last P [] e h = h.0
  All-last P (f ∷ es) e h = All-last P es e h.1

module _ (c : Codec) (b : Broker) (stores : Stores c b) {T : Type 0} (plus : T → T → T)
    (content : Bytes → Bytes) where
  abbrev pub pending : Option (Entry T) → List Bytes
  pending none = []
  pending (some e) = e.payload ∷ []

  -- The objects made are the files sent, but for the one that is not got yet.
  abbrev pub Makes : Runner c b plus → Type 0
  Makes r = payloads r.sent ≡ r.made ++ pending r.waiting

  -- That one is in the database.
  abbrev pub IsThere : b.State → Option (Entry T) → Type 0
  IsThere s none = Unit {0}
  IsThere s (some e) = (stores.view s (key_of e.path) ≡ some e.payload) × IsDetermined content e

  pub put-IsThere :
      (s : b.State) (e : Entry T) (o : Option (Entry T))
      → IsDetermined content e
      → IsThere s o
      → IsThere (put_value c b s (key_of e.path) e.payload).0 o
  put-IsThere s e none h there = tt
  put-IsThere s e (some f) h (there, k) =
      let views = (put_value_lem c b stores s (key_of e.path) e.payload).1 (key_of f.path) in
      elim (Bool-cases (same (key_of e.path) (key_of f.path))) [
        | inr other ↦ (views ∙ rw other there, k)
        | inl is_key ↦
            let keys : key_of e.path ≡ key_of f.path =
              (same_iff (key_of e.path) (key_of f.path)).0 is_key in
            (views ∙ rw is_key (ap some (h ∙ ap content keys ∙ sym k)), k)
      ]

  pub get-IsThere :
      (s : b.State) (key : Bytes) (o : Option (Entry T))
      → IsThere s o
      → IsThere (get_value c b s key).0 o
  get-IsThere s key none there = tt
  get-IsThere s key (some f) (there, k) =
      ((get_value_lem c b stores s key).2 (key_of f.path) ∙ there, k)

  -- What a key holds by the files that the first `k` connectors have put.
  abbrev pub held : Bytes → (ℕ → Runner c b plus) → ℕ → Option Bytes → Option Bytes
  held key runners zero old = old
  held key runners (suc k) old = latest key (held key runners k old) (runners k).sent

  pub held-same :
      (key : Bytes) (runners : ℕ → Runner c b plus) (i : ℕ) (r : Runner c b plus) (k : ℕ)
      (old : Option Bytes)
      → r.sent ≡ (runners i).sent
      → held key (update runners i r) k old ≡ held key runners k old
  held-same key runners i r zero old h = refl
  held-same key runners i r (suc k) old h =
      let before = held-same key runners i r k old h in
      elim (Bool-cases (i == k)) [
        | inr other ↦ rw (other, before) refl
        | inl is_i ↦
            let now : r.sent ≡ (runners k).sent =
              h ∙ ap (λ (j : ℕ). (runners j).sent) ((==_iff i k).0 is_i) in
            rw (is_i, before, now) refl
      ]

  held-outside :
      (key : Bytes) (runners : ℕ → Runner c b plus) (i : ℕ) (r : Runner c b plus) (k : ℕ)
      (old : Option Bytes)
      → k ≤ i
      → held key (update runners i r) k old ≡ held key runners k old
  held-outside key runners i r zero old h = refl
  held-outside key runners i r (suc k) old h =
      let e : (i == k) ≡ false = ground arith in
      let before = held-outside key runners i r k old (omega (arith, h)) in rw (e, before) refl

  -- A file that was put is not changed by those that were put before it.
  kept :
      (key : Bytes) (old : Option Bytes) (es : List (Entry T)) (e : Entry T)
      → All (IsDetermined content) es
      → IsDetermined content e
      → latest key (if same (key_of e.path) key then some e.payload else old) es
        ≡ (if same (key_of e.path) key then some e.payload else latest key old es)
  kept key old es e all h = elim (Bool-cases (same (key_of e.path) key)) [
    | inr other ↦ rw other refl
    | inl is_key ↦
        let value : e.payload ≡ content key =
          h ∙ ap content ((same_iff (key_of e.path) key).0 is_key) in
        rw is_key (elim (latest-cases content key es all) [
          | inl leaves ↦ leaves (some e.payload)
          | inr gives ↦ gives (some e.payload) ∙ ap some (sym value)
        ])
  ]

  -- One more file that a connector has put.
  pub held-put :
      (key : Bytes) (runners : ℕ → Runner c b plus) (i : ℕ) (r : Runner c b plus) (e : Entry T)
      (k : ℕ) (old : Option Bytes)
      → ((j : ℕ) → All (IsDetermined content) (runners j).sent)
      → IsDetermined content e
      → r.sent ≡ (runners i).sent ++ (e ∷ [])
      → i < k
      → held key (update runners i r) k old
        ≡ (if same (key_of e.path) key then some e.payload else held key runners k old)
  held-put key runners i r e zero old all h sent lt = absurd (omega (arith, lt))
  held-put key runners i r e (suc k) old all h sent lt = elim (Bool-cases (i == k)) [
    | inl is_i ↦
        let same_i : i ≡ k = (==_iff i k).0 is_i in
        let before = held-outside key runners i r k old (omega (arith, same_i)) in
        let now : r.sent ≡ (runners k).sent ++ (e ∷ []) =
          sent ∙ ap (λ (j : ℕ). (runners j).sent ++ (e ∷ [])) same_i in
        rw (is_i, before, now) (latest-append key (held key runners k old) (runners k).sent e)
    | inr other ↦
        let before = held-put key runners i r e k old all h sent (ground (arith, lt, other)) in
        rw (other, before) (kept key (held key runners k old) (runners k).sent e (all k) h)
  ]
