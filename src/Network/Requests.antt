-- ===== src/Network/Requests.antt =====
-- The loops of several connectors (`run` of src/DBConnector.cc) over one database: the request of
-- one may come between any two requests of another.
--
-- A step is a file that is passed over, the PUT of a file that has been loaded, or the GET of that
-- file with what is left of the round.
pub mod Alone
pub mod Shares
mod Invariant
pub mod Finish
pub mod Bound
mod Tests
use key_value_cluster_perf.Base.{
  ℕ, zero, suc, ◌<◌, true, false, Bytes, List, [], ◌∷◌, ◌++◌, Option, none, some, if◌then◌else◌,
  ◌≡◌,
}
use key_value_cluster_perf.Broker.{Codec, Broker}
use key_value_cluster_perf.Connector.{
  Connector, Entry, load, limit_passed, key_of, put_value, get_value, run_entries,
}
use key_value_cluster_perf.Network.{update}

module _ (c : Codec) (b : Broker) {T : Type 0} (plus : T → T → T) where
  -- A connector in its loop: the entries that are left, the file that has been put and not got, the
  -- files that have been put, and the objects that `create` was given.
  pub record Runner : Type 0 where
    pub connector : Connector T
    pub entries : List (Entry T)
    pub waiting : Option (Entry T)
    pub sent : List (Entry T)
    pub made : List Bytes

  pub record Shared : Type 0 where
    pub stored : b.State
    pub runners : ℕ → Runner

  -- The loop has ended.
  abbrev pub IsOver : Runner → Type 0
  IsOver r = (r.waiting ≡ none) × (r.entries ≡ [])

  abbrev pub timed : Connector T → Entry T → Connector T
  timed d e = record d { duration = plus d.duration e.elapsed }

  -- The entries after a round: none, if the limit was passed.
  abbrev pub left : Connector T → List (Entry T) → List (Entry T)
  left d es = if limit_passed d then [] else es

  abbrev pub skipped : Runner → List (Entry T) → Runner
  skipped r es = record r { entries = es }

  abbrev pub has_put : Runner → Entry T → List (Entry T) → Runner
  has_put r e es = record r {
    connector = load r.connector e;
    entries = es;
    waiting = some e;
    sent = r.sent ++ (e ∷ []);
  }

  abbrev pub has_got : Runner → Entry T → Bytes → Runner
  has_got r e value =
      let d = timed r.connector e in
      record r {
        connector = d;
        entries = left d r.entries;
        waiting = none;
        made = r.made ++ (value ∷ []);
      }

  abbrev pub after_skip : Shared → ℕ → List (Entry T) → Shared
  after_skip s i es = record s { runners = update s.runners i (skipped (s.runners i) es) }

  abbrev pub after_put : Shared → ℕ → Entry T → List (Entry T) → Shared
  after_put s i e es = record {
    stored = (put_value c b s.stored (key_of e.path) e.payload).0;
    runners = update s.runners i (has_put (s.runners i) e es);
  }

  abbrev pub after_get : Shared → ℕ → Entry T → Shared
  after_get s i e =
      let got = get_value c b s.stored (key_of e.path) in
      record { stored = got.0; runners = update s.runners i (has_got (s.runners i) e got.1) }

  module _ (n : ℕ) where
    pub data Step (s : Shared) : Shared → Type 0 where
      skip :
          (i : ℕ) {e : Entry T} {es : List (Entry T)}
          → i < n
          → (s.runners i).waiting ≡ none
          → (s.runners i).entries ≡ e ∷ es
          → e.regular ≡ false
          → Step s (after_skip s i es)
      put :
          (i : ℕ) {e : Entry T} {es : List (Entry T)}
          → i < n
          → (s.runners i).waiting ≡ none
          → (s.runners i).entries ≡ e ∷ es
          → e.regular ≡ true
          → Step s (after_put s i e es)
      get :
          (i : ℕ) {e : Entry T} → i < n → (s.runners i).waiting ≡ some e → Step s (after_get s i e)

    -- The connector that makes a step.
    abbrev pub mover : {s t : Shared} → Step s t → ℕ
    mover (skip i lt idle first no_file) = i
    mover (put i lt idle first is_file) = i
    mover (get i lt waits) = i

    pub data Steps (s : Shared) : ℕ → Shared → Type 0 where
      here : Steps s 0 s
      next : {k : ℕ} {t u : Shared} → Steps s k t → Step t u → Steps s (suc k) u

  abbrev pub begin : b.State → (ℕ → Connector T) → (ℕ → List (Entry T)) → Shared
  begin stored connectors files = record {
    stored = stored;
    runners = λ i. record {
      connector = connectors i;
      entries = files i;
      waiting = none;
      sent = [];
      made = [];
    };
  }

  -- The database after the runs of the first `k` connectors, one after the other.
  abbrev pub one_by_one : b.State → (ℕ → Connector T) → (ℕ → List (Entry T)) → ℕ → b.State
  one_by_one stored connectors files zero = stored
  one_by_one stored connectors files (suc k) =
      (run_entries c b plus (connectors k) (one_by_one stored connectors files k) (files k)).1
