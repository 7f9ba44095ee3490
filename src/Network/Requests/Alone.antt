-- ===== src/Network/Requests/Alone.antt =====
-- What a connector counts and sends is what it counts and sends alone, whatever the others do.
use mathlib.Core.Path.{subst}
use key_value_cluster_perf.Base.{
  ℕ, true, false, Bytes, List, [], ◌∷◌, ◌++◌, append_assoc, append-nil, Option, none, some, ◌≡◌,
  refl, ap, sym, ◌∙◌, arith,
}
use key_value_cluster_perf.Broker.{Codec, Broker}
use key_value_cluster_perf.Connector.{
  Connector, Entry, get_value, key_of, load, limit_passed, transmit, run_entries,
}
use key_value_cluster_perf.Connector.Accounting.{transmitted, run_entries_independent}
use key_value_cluster_perf.Network.Staged.{update-cases}
use key_value_cluster_perf.Network.Requests.{
  Runner, timed, left, skipped, has_put, has_got, Shared, Step, skip, put, get, Steps, here, next,
  begin,
}

module _ (c : Codec) (b : Broker) {T : Type 0} (plus : T → T → T) (s₀ : b.State) where
  -- What the connector is in the end, if it goes on alone.
  abbrev in_the_end : Option (Entry T) → Connector T → List (Entry T) → Connector T
  in_the_end none d es = (run_entries c b plus d s₀ es).0
  in_the_end (some e) d es =
      let d' = timed c b plus d e in (run_entries c b plus d' s₀ (left c b plus d' es)).0

  -- The files that it is still to send.
  abbrev to_send : Option (Entry T) → Connector T → List (Entry T) → List (Entry T)
  to_send none d es = transmitted d es
  to_send (some e) d es = let d' = timed c b plus d e in transmitted d' (left c b plus d' es)

  -- A connector `d` over `files` has come to this.
  abbrev Going :
      Connector T
      → List (Entry T)
      → Option (Entry T)
      → Connector T
      → List (Entry T)
      → List (Entry T)
      → Type 0
  Going d files waiting now es sent =
      (in_the_end waiting now es ≡ (run_entries c b plus d s₀ files).0)
      × (sent ++ to_send waiting now es ≡ transmitted d files)

  abbrev pub Runs : Connector T → List (Entry T) → Runner c b plus → Type 0
  Runs d files r = Going d files r.waiting r.connector r.entries r.sent

  skip-in_the_end :
      (d : Connector T) (e : Entry T) (es : List (Entry T))
      → e.regular ≡ false
      → (in_the_end none d (e ∷ es) ≡ in_the_end none d es)
        × (to_send none d (e ∷ es) ≡ to_send none d es)
  unfolding run_entries
  skip-in_the_end d e es h = (rw h refl, rw h refl)

  put-in_the_end :
      (d : Connector T) (e : Entry T) (es : List (Entry T))
      → e.regular ≡ true
      → (in_the_end none d (e ∷ es) ≡ in_the_end (some e) (load d e) es)
        × (to_send none d (e ∷ es) ≡ e ∷ to_send (some e) (load d e) es)
  unfolding run_entries transmit load limit_passed
  put-in_the_end d e es h =
      let d' = timed c b plus (load d e) e in
      (
        ground (arith, h, run_entries_independent c b plus d' (transmit c b plus d s₀ e).1 s₀ es),
        ground (arith, h),
      )

  going :
      (d : Connector T) (files : List (Entry T)) (r : Runner c b plus) (o : Option (Entry T))
      (es : List (Entry T))
      → r.waiting ≡ o
      → r.entries ≡ es
      → Runs d files r
      → Going d files o r.connector es r.sent
  going d files r o es idle first h =
      subst (λ (l : List (Entry T)). Going d files o r.connector l r.sent) first
        (subst (λ (w : Option (Entry T)). Going d files w r.connector r.entries r.sent) idle h)

  pub skip-Runs :
      (d : Connector T) (files : List (Entry T)) (r : Runner c b plus) (e : Entry T)
      (es : List (Entry T))
      → r.waiting ≡ none
      → r.entries ≡ e ∷ es
      → e.regular ≡ false
      → Runs d files r
      → Runs d files (skipped c b plus r es)
  skip-Runs d files r e es idle first no_file h =
      let (same_end, same_rest) = skip-in_the_end r.connector e es no_file in
      let (ends, sends) = going d files r none (e ∷ es) idle first h in
      subst (λ (o : Option (Entry T)). Going d files o r.connector es r.sent) (sym idle)
        (sym same_end ∙ ends, ap (λ (l : List (Entry T)). r.sent ++ l) (sym same_rest) ∙ sends)

  pub put-Runs :
      (d : Connector T) (files : List (Entry T)) (r : Runner c b plus) (e : Entry T)
      (es : List (Entry T))
      → r.waiting ≡ none
      → r.entries ≡ e ∷ es
      → e.regular ≡ true
      → Runs d files r
      → Runs d files (has_put c b plus r e es)
  put-Runs d files r e es idle first is_file h =
      let (same_end, same_rest) = put-in_the_end r.connector e es is_file in
      let (ends, sends) = going d files r none (e ∷ es) idle first h in
      (
        sym same_end ∙ ends,
        append_assoc r.sent (e ∷ []) _
            ∙ ap (λ (l : List (Entry T)). r.sent ++ l) (sym same_rest)
            ∙ sends,
      )

  pub get-Runs :
      (d : Connector T) (files : List (Entry T)) (r : Runner c b plus) (e : Entry T) (value : Bytes)
      → r.waiting ≡ some e
      → Runs d files r
      → Runs d files (has_got c b plus r e value)
  get-Runs d files r e value waits h = going d files r (some e) r.entries waits refl h

  -- A connector with nothing left.
  pub over-Runs :
      (d : Connector T) (files : List (Entry T)) (r : Runner c b plus)
      → r.waiting ≡ none
      → r.entries ≡ []
      → Runs d files r
      → (r.connector ≡ (run_entries c b plus d s₀ files).0) × (r.sent ≡ transmitted d files)
  unfolding run_entries
  over-Runs d files r idle none_left h =
      let (ends, sends) = going d files r none [] idle none_left h in
      (ends, sym (append-nil r.sent) ∙ sends)

  module _ (connectors : ℕ → Connector T) (files : ℕ → List (Entry T)) (n : ℕ) where
    abbrev GoesOn : ℕ → Runner c b plus → Type 0
    GoesOn i r = Runs (connectors i) (files i) r

    Step-GoesOn :
        {s t : Shared c b plus} (j : ℕ)
        → Step c b plus n s t
        → ((i : ℕ) → GoesOn i (s.runners i))
        → GoesOn j (t.runners j)
    Step-GoesOn {s} j (skip i {e} {es} _lt idle first no_file) h =
        update-cases GoesOn s.runners i _ j
          (skip-Runs (connectors i) (files i) (s.runners i) e es idle first no_file (h i))
          (λ other. h j)
    Step-GoesOn {s} j (put i {e} {es} _lt idle first is_file) h =
        update-cases GoesOn s.runners i _ j
          (put-Runs (connectors i) (files i) (s.runners i) e es idle first is_file (h i))
          (λ other. h j)
    Step-GoesOn {s} j (get i {e} _lt waits) h =
        update-cases GoesOn s.runners i _ j
          (get-Runs (connectors i) (files i) (s.runners i) e
            (get_value c b s.stored (key_of e.path)).1 waits (h i))
          (λ other. h j)

    -- Each connector goes on as it would alone.
    pub Steps-Runs :
        (stored : b.State) {k : ℕ} {t : Shared c b plus} (i : ℕ)
        → Steps c b plus n (begin c b plus stored connectors files) k t
        → GoesOn i (t.runners i)
    Steps-Runs stored i here = (refl, refl)
    Steps-Runs stored i (next steps step) = Step-GoesOn i step (λ j. Steps-Runs stored j steps)
