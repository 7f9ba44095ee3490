-- ===== src/Connector/Accounting.antt =====
-- Which files a run transmits, and what it counts.
use key_value_cluster_perf.Base.{
  Bool-cases, inl, inr, Option, none, some, ◌∙◌, ℕ, ◌+◌, ◌%◌, ◌^◌, ◌<◌, ◌≤◌, not, ◌&&◌, List, [],
  ◌∷◌, if◌then◌else◌, ◌≡◌, refl, ap, length, arith, All, ℤ, pos, negsuc, ltb_ℤ, eq_ℤ,
}
use key_value_cluster_perf.Broker.{Codec, Broker}
use key_value_cluster_perf.Connector.{
  Connector, Entry, load, limit_passed, transmit, run_entries, run,
}

module _ {T : Type 0} where
  abbrev pub regular_files : List (Entry T) → List (Entry T)
  regular_files [] = []
  regular_files (e ∷ es) = if e.regular then e ∷ regular_files es else regular_files es

  -- The files up to the first one that takes the total over the limit, with that one.
  abbrev pub within_limit : ℤ → ℕ → List (Entry T) → List (Entry T)
  within_limit limit total [] = []
  within_limit limit total (e ∷ es) =
      let more = within_limit limit (total + length e.payload) es in
      e
      ∷ (if not (eq_ℤ limit (negsuc 0)) && ltb_ℤ limit (pos (total + length e.payload))
          then []
          else more)

  abbrev pub total_size : List (Entry T) → ℕ
  total_size [] = 0
  total_size (e ∷ es) = length e.payload + total_size es

  -- The files that a run over `es` transmits.
  abbrev pub transmitted : Connector T → List (Entry T) → List (Entry T)
  transmitted d es = within_limit d.bytes_limit d.total_data_size (regular_files es)

  within_limit_unlimited : (total : ℕ) (es : List (Entry T)) → within_limit (negsuc 0) total es ≡ es
  within_limit_unlimited total [] = refl
  within_limit_unlimited total (e ∷ es) =
      ap (◌∷◌ e) (within_limit_unlimited (total + length e.payload) es)

  within_limit_overshoot :
      (limit most total : ℕ) (es : List (Entry T))
      → All (λ e. length e.payload ≤ most) es
      → total ≤ limit
      → total + total_size (within_limit (pos limit) total es) ≤ limit + most
  within_limit_overshoot limit most total [] h k = omega arith
  within_limit_overshoot limit most total (e ∷ es) h k =
      ground (arith, within_limit_overshoot limit most (total + length e.payload) es h.1)

  within_limit_all :
      (limit total : ℕ) (es : List (Entry T))
      → total + total_size (within_limit (pos limit) total es) ≤ limit
      → within_limit (pos limit) total es ≡ es
  within_limit_all limit total [] h = refl
  within_limit_all limit total (e ∷ es) h =
      ground (arith, within_limit_all limit (total + length e.payload) es)

  module _ {κ} (P : Entry T → Type κ) where
    All-regular_files : (es : List (Entry T)) → All P es → All P (regular_files es)
    All-regular_files [] h = tt
    All-regular_files (e ∷ es) h = elim (Bool-cases e.regular) [
      | inl is_file ↦ simp is_file (h.0, All-regular_files es h.1)
      | inr no_file ↦ rw no_file (All-regular_files es h.1)
    ]

    All-within_limit :
        (limit : ℤ) (total : ℕ) (es : List (Entry T))
        → All P es
        → All P (within_limit limit total es)
    All-within_limit limit total [] h = tt
    All-within_limit limit total (e ∷ es) h =
        let stops = not (eq_ℤ limit (negsuc 0)) && ltb_ℤ limit (pos (total + length e.payload)) in
        elim (Bool-cases stops) [
          | inl passed ↦ rw passed (h.0, tt)
          | inr not_passed ↦
              rw not_passed (h.0, All-within_limit limit (total + length e.payload) es h.1)
        ]

    -- What holds of all files holds of those that a run transmits.
    pub All-transmitted :
        (d : Connector T) (es : List (Entry T)) → All P es → All P (transmitted d es)
    All-transmitted d es h =
        All-within_limit d.bytes_limit d.total_data_size (regular_files es) (All-regular_files es h)

  pub transmitted_unlimited :
      (d : Connector T) (es : List (Entry T))
      → d.bytes_limit ≡ negsuc 0
      → transmitted d es ≡ regular_files es
  transmitted_unlimited d es e = rw e (within_limit_unlimited d.total_data_size (regular_files es))

module _ (c : Codec) (b : Broker) {T : Type 0} (plus : T → T → T) where
  -- A run counts the files that it transmits: it adds their number to the loaded objects, modulo
  -- 2^32, and their sizes to the total, and it hands as many objects to `create`.
  pub run_entries_counts :
      (d : Connector T) (s : b.State) (es : List (Entry T))
      → d.loaded_objects < 2 ^ 32
      → ((run_entries c b plus d s es).0.loaded_objects
          ≡ (d.loaded_objects + length (transmitted d es)) % 2 ^ 32)
        × ((run_entries c b plus d s es).0.total_data_size
            ≡ d.total_data_size + total_size (transmitted d es))
        × (length (run_entries c b plus d s es).2 ≡ length (transmitted d es))
  unfolding run_entries transmit load limit_passed
  run_entries_counts d s [] h = (omega arith, omega arith, refl)
  run_entries_counts d s (e ∷ es) h =
      let d' = (transmit c b plus d s e).0 in
      let s' = (transmit c b plus d s e).1 in
      ground (arith, run_entries_counts d' s' es, run_entries_counts d s es h)

  -- With a limit that is not yet passed, a run stops after the first file that takes the total over
  -- it: the total ends at most one file above the limit, and it is above it unless the run has
  -- transmitted every regular file.
  pub run_entries_limit :
      (d : Connector T) (s : b.State) (es : List (Entry T)) (limit most : ℕ)
      → d.loaded_objects < 2 ^ 32
      → d.bytes_limit ≡ pos limit
      → d.total_data_size ≤ limit
      → All (λ e. length e.payload ≤ most) (regular_files es)
      → ((run_entries c b plus d s es).0.total_data_size ≤ limit + most)
        × ((run_entries c b plus d s es).0.total_data_size ≤ limit
            → transmitted d es ≡ regular_files es)
  run_entries_limit d s es limit most h e k a =
      let total = (run_entries_counts d s es h).1 in
      let total' =
        total
        ∙ ap
            (λ (l : ℤ).
              d.total_data_size + total_size (within_limit l d.total_data_size (regular_files es)))
            e in
      (
        rw total' (within_limit_overshoot limit most d.total_data_size (regular_files es) a k),
        λ below.
            rw e (within_limit_all limit d.total_data_size (regular_files es) (rw total' at below)),
      )

  -- Without a limit, -1, a run adds the number of all regular files to the loaded objects, modulo
  -- 2^32, and their sizes to the total.
  pub run_entries_unlimited :
      (d : Connector T) (s : b.State) (es : List (Entry T))
      → d.loaded_objects < 2 ^ 32
      → d.bytes_limit ≡ negsuc 0
      → ((run_entries c b plus d s es).0.loaded_objects
          ≡ (d.loaded_objects + length (regular_files es)) % 2 ^ 32)
        × ((run_entries c b plus d s es).0.total_data_size
            ≡ d.total_data_size + total_size (regular_files es))
  run_entries_unlimited d s es h e =
      let (loaded, total, _made) = run_entries_counts d s es h in
      let all = transmitted_unlimited d es e in (rw (← all) loaded, rw (← all) total)

  pub run_entries_independent :
      (d : Connector T) (s s' : b.State) (es : List (Entry T))
      → (run_entries c b plus d s es).0 ≡ (run_entries c b plus d s' es).0
  unfolding run_entries transmit
  run_entries_independent d s s' [] = refl
  run_entries_independent d s s' (e ∷ es) = ground (
    arith,
    run_entries_independent d s s' es,
    run_entries_independent (transmit c b plus d s e).0 (transmit c b plus d s e).1
        (transmit c b plus d s' e).1 es,
  )

  -- What a run counts does not depend on what the database holds.
  pub run_independent :
      (d : Connector T) (s s' : b.State) (files : Option (List (Entry T)))
      → (run c b plus d s files).0 ≡ (run c b plus d s' files).0
  unfolding run
  run_independent d s s' none = refl
  run_independent d s s' (some es) = run_entries_independent d s s' es
