-- ===== src/Network/Requests/Invariant.antt =====
-- What holds of the connectors and of the database between the requests, whichever is next.
use mathlib.Core.Path.{subst}
use key_value_cluster_perf.Base.{
  ℕ, zero, suc, ◌<◌, true, false, Bytes, List, [], ◌∷◌, ◌++◌, append-nil, Option, none, some,
  if◌then◌else◌, ◌≡◌, refl, ap, sym, ◌∙◌, All, same, same_refl,
}
use key_value_cluster_perf.Broker.{Codec, Broker, Stores}
use key_value_cluster_perf.Connector.{Connector, Entry, key_of, put_value, get_value}
use key_value_cluster_perf.Connector.Accounting.{All-transmitted}
use key_value_cluster_perf.Connector.Order.{IsDetermined}
use key_value_cluster_perf.Connector.Storage.{payloads, put_value_lem, get_value_lem}
use key_value_cluster_perf.Network.Staged.{update-cases}
use key_value_cluster_perf.Network.Requests.{
  Runner, Shared, Step, skip, put, get, Steps, here, next, begin, after_skip, after_put, after_get,
  has_put, has_got, skipped,
}
use key_value_cluster_perf.Network.Requests.Alone.{Runs, skip-Runs, put-Runs, get-Runs}
use key_value_cluster_perf.Network.Requests.Shares.{
  payloads-append, All-left, All-last, Makes, IsThere, pending, put-IsThere, get-IsThere, held,
  held-same, held-put,
}

module _ (c : Codec) (b : Broker) (stores : Stores c b) {T : Type 0} (plus : T → T → T)
    (content : Bytes → Bytes) (connectors : ℕ → Connector T) (files : ℕ → List (Entry T))
    (determined : (i : ℕ) → All (IsDetermined content) (files i)) (s₀ : b.State) (n : ℕ) where
  -- The connector goes on as it would alone, with the objects of the files sent, and the file that
  -- is not got yet is in the database.
  abbrev pub Fits : b.State → ℕ → Runner c b plus → Type 0
  Fits s i r =
      Runs c b plus s₀ (connectors i) (files i) r
      × Makes c b stores plus content r
      × IsThere c b stores plus content s r.waiting

  pub record Inv (s : Shared c b plus) : Type 0 where
    pub fits : (i : ℕ) → Fits s.stored i (s.runners i)
    pub views :
        (key : Bytes)
        → stores.view s.stored key
          ≡ held c b stores plus content key s.runners n (stores.view s₀ key)

  Sent-IsDetermined :
      (i : ℕ) (s : b.State) (r : Runner c b plus) → Fits s i r → All (IsDetermined content) r.sent
  Sent-IsDetermined i s r ((_ends, sends), _makes, _there) =
      All-left (IsDetermined content) r.sent _ (
        subst (All (IsDetermined content)) (sym sends)
          (All-transmitted (IsDetermined content) (connectors i) (files i) (determined i)))

  skip-Inv :
      (s : Shared c b plus) (i : ℕ) (e : Entry T) (es : List (Entry T))
      → (s.runners i).waiting ≡ none
      → (s.runners i).entries ≡ e ∷ es
      → e.regular ≡ false
      → Inv s
      → Inv (after_skip c b plus s i es)
  skip-Inv s i e es idle first no_file h =
      let (runs, makes, there) = h.fits i in
      record {
        fits = λ j.
            update-cases (Fits s.stored) s.runners i (skipped c b plus (s.runners i) es) j
              (
                skip-Runs c b plus s₀ (connectors i) (files i) (s.runners i) e es idle first no_file
                    runs,
                makes,
                there,
              )
              (λ other. h.fits j);
        views = λ key.
            h.views key
            ∙ sym (
                held-same c b stores plus content key s.runners i
                  (skipped c b plus (s.runners i) es) n _ refl);
      }

  put-Inv :
      (s : Shared c b plus) (i : ℕ) (e : Entry T) (es : List (Entry T))
      → i < n
      → (s.runners i).waiting ≡ none
      → (s.runners i).entries ≡ e ∷ es
      → e.regular ≡ true
      → Inv s
      → Inv (after_put c b plus s i e es)
  put-Inv s i e es lt idle first is_file h =
      let r = s.runners i in
      let r' = has_put c b plus r e es in
      let (runs, makes, _there) = h.fits i in
      let runs' = put-Runs c b plus s₀ (connectors i) (files i) r e es idle first is_file runs in
      let is_determined : IsDetermined content e = All-last (IsDetermined content) r.sent e (
        All-left (IsDetermined content) (r.sent ++ (e ∷ [])) _ (
          subst (All (IsDetermined content)) (sym runs'.1)
            (All-transmitted (IsDetermined content) (connectors i) (files i) (determined i)))) in
      let made_all : payloads r.sent ≡ r.made =
        makes
        ∙ ap (λ (o : Option (Entry T)). r.made ++ pending c b stores plus content o) idle
        ∙ append-nil r.made in
      let made_next : Makes c b stores plus content r' =
        payloads-append r.sent (e ∷ []) ∙ ap (λ (l : List Bytes). l ++ (e.payload ∷ [])) made_all in
      let view = (put_value_lem c b stores s.stored (key_of e.path) e.payload).1 in
      record {
        fits = λ j.
            update-cases (Fits (put_value c b s.stored (key_of e.path) e.payload).0) s.runners i r'
              j
              (
                runs',
                made_next,
                (view (key_of e.path) ∙ rw (same_refl (key_of e.path)) refl, is_determined),
              )
              (λ other.
                let (runs_j, makes_j, there_j) = h.fits j in
                (
                  runs_j,
                  makes_j,
                  put-IsThere c b stores plus content s.stored e (s.runners j).waiting is_determined
                      there_j,
                ));
        views = λ key.
            view key
            ∙ ap (λ (o : Option Bytes). if same (key_of e.path) key then some e.payload else o)
                (h.views key)
            ∙ sym (
                held-put c b stores plus content key s.runners i r' e n _
                  (λ j. Sent-IsDetermined j s.stored (s.runners j) (h.fits j)) is_determined refl
                  lt);
      }

  get-Inv :
      (s : Shared c b plus) (i : ℕ) (e : Entry T)
      → (s.runners i).waiting ≡ some e
      → Inv s
      → Inv (after_get c b plus s i e)
  get-Inv s i e waits h =
      let r = s.runners i in
      let got = get_value c b s.stored (key_of e.path) in
      let r' = has_got c b plus r e got.1 in
      let (runs, makes, there) = h.fits i in
      let found = (subst (IsThere c b stores plus content s.stored) waits there).0 in
      let value = ((get_value_lem c b stores s.stored (key_of e.path)).0 e.payload found).0 in
      let made_next : Makes c b stores plus content r' =
        makes
        ∙ ap (λ (o : Option (Entry T)). r.made ++ pending c b stores plus content o) waits
        ∙ ap (λ (v : Bytes). r.made ++ (v ∷ [])) (sym value)
        ∙ sym (append-nil (r.made ++ (got.1 ∷ []))) in
      record {
        fits = λ j.
            update-cases (Fits got.0) s.runners i r' j
              (get-Runs c b plus s₀ (connectors i) (files i) r e got.1 waits runs, made_next, tt)
              (λ other.
                let (runs_j, makes_j, there_j) = h.fits j in
                (
                  runs_j,
                  makes_j,
                  get-IsThere c b stores plus content s.stored (key_of e.path) (s.runners j).waiting
                      there_j,
                ));
        views = λ key.
            (get_value_lem c b stores s.stored (key_of e.path)).2 key
            ∙ h.views key
            ∙ sym (held-same c b stores plus content key s.runners i r' n _ refl);
      }

  Step-Inv : {s t : Shared c b plus} → Step c b plus n s t → Inv s → Inv t
  Step-Inv {s} (skip i {e} {es} _lt idle first no_file) h = skip-Inv s i e es idle first no_file h
  Step-Inv {s} (put i {e} {es} lt idle first is_file) h = put-Inv s i e es lt idle first is_file h
  Step-Inv {s} (get i {e} _lt waits) h = get-Inv s i e waits h

  pub Steps-Inv : {s t : Shared c b plus} {k : ℕ} → Steps c b plus n s k t → Inv s → Inv t
  Steps-Inv here h = h
  Steps-Inv (next steps step) h = Step-Inv step (Steps-Inv steps h)

  held_none :
      (key : Bytes) (k : ℕ) (old : Option Bytes)
      → held c b stores plus content key (begin c b plus s₀ connectors files).runners k old ≡ old
  held_none key zero old = refl
  held_none key (suc k) old = held_none key k old

  pub begin-Inv : Inv (begin c b plus s₀ connectors files)
  begin-Inv = record {
    fits = λ i. ((refl, refl), refl, tt);
    views = λ key. sym (held_none key n (stores.view s₀ key));
  }
