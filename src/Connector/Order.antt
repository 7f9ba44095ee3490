-- ===== src/Connector/Order.antt =====
-- The order in which the directory iterator gives the files.
use mathlib.Core.Logic.{∥∥₁_elim}
use mathlib.Core.List.{Permᴰ, Perm}
use key_value_cluster_perf.Base.{
  ◌⊎◌, [], ℕ, ◌+◌, ◌%◌, ◌^◌, ◌<◌, Bytes, List, ◌∷◌, Option, some, same, same_iff, Bool-cases, inl,
  inr, ◌≡◌, refl, ap, sym, ◌∙◌, All, length, negsuc, arith,
}
use key_value_cluster_perf.Broker.{Codec, Broker, Stores}
use key_value_cluster_perf.Connector.{Connector, Entry, key_of, run_entries}
use key_value_cluster_perf.Connector.Accounting.{
  regular_files, total_size, transmitted_unlimited, run_entries_unlimited,
}
use key_value_cluster_perf.Connector.Storage.{latest, run_entries-latest}

module _ {T : Type 0} (content : Bytes → Bytes) where
  -- The bytes of a file are those that its key stands for: files of one key are equal.
  abbrev pub IsDetermined : Entry T → Type 0
  IsDetermined e = e.payload ≡ content (key_of e.path)

  -- Files that are determined leave a key alone, or give it what it stands for.
  pub latest-cases :
      (key : Bytes) (es : List (Entry T))
      → All IsDetermined es
      → ((old : Option Bytes) → latest key old es ≡ old)
        ⊎ ((old : Option Bytes) → latest key old es ≡ some (content key))
  latest-cases key [] h = inl (λ old. refl)
  latest-cases key (e ∷ es) h = elim (latest-cases key es h.1) [
    | inr gives ↦ inr (λ old. gives _)
    | inl leaves ↦ elim (Bool-cases (same (key_of e.path) key)) [
      | inr other ↦ inl (λ old. rw other (leaves old))
      | inl is_key ↦
          let e' = h.0 ∙ ap content ((same_iff (key_of e.path) key).0 is_key) in
          inr (λ old. rw is_key (leaves (some e.payload) ∙ ap some e'))
    ]
  ]

  -- Two lists of such files may come in either order.
  pub latest_comm :
      (key : Bytes) (old : Option Bytes) (es fs : List (Entry T))
      → All IsDetermined es
      → All IsDetermined fs
      → latest key (latest key old es) fs ≡ latest key (latest key old fs) es
  latest_comm key old es fs h k = elim (latest-cases key es h) [
    | inl leaves ↦ ap (λ (o : Option Bytes). latest key o fs) (leaves old) ∙ sym (leaves _)
    | inr gives ↦ elim (latest-cases key fs k) [
      | inl leaves ↦ leaves _ ∙ sym (ap (λ (o : Option Bytes). latest key o es) (leaves old))
      | inr gives' ↦ gives' _ ∙ sym (gives _)
    ]
  ]

  abbrev Same : List (Entry T) → List (Entry T) → Type 0
  Same es es' =
      (length (regular_files es) ≡ length (regular_files es'))
      × (total_size (regular_files es) ≡ total_size (regular_files es'))
      × ((key : Bytes) (old : Option Bytes)
          → latest key old (regular_files es) ≡ latest key old (regular_files es'))
      × All IsDetermined es'

  latest_same :
      (e f : Entry T) (key : Bytes) (old : Option Bytes) (es : List (Entry T))
      → IsDetermined e
      → IsDetermined f
      → latest key old (e ∷ f ∷ es) ≡ latest key old (f ∷ e ∷ es)
  latest_same e f key old es h k =
      ap (λ (o : Option Bytes). latest key o es)
        (elim (Bool-cases (same (key_of e.path) key)) [
          | inr not_e ↦ rw not_e refl
          | inl is_e ↦ elim (Bool-cases (same (key_of f.path) key)) [
            | inr not_f ↦ rw (not_f, is_e) refl
            | inl is_f ↦
                let key_e : key_of e.path ≡ key = (same_iff (key_of e.path) key).0 is_e in
                let key_f : key_of f.path ≡ key = (same_iff (key_of f.path) key).0 is_f in
                let payloads_eq : f.payload ≡ e.payload =
                  k ∙ ap content (key_f ∙ sym key_e) ∙ sym h in
                rw (is_e, is_f) (ap some payloads_eq)
          ]
        ])

  cons-Same :
      (e : Entry T) (es es' : List (Entry T))
      → All IsDetermined (e ∷ es)
      → Same es es'
      → Same (e ∷ es) (e ∷ es')
  cons-Same e es es' h (count, size, views, h') = (
    ground (arith, count),
    ground (arith, size),
    λ key old. elim (Bool-cases e.regular) [
      | inl is_file ↦ rw is_file (views key _)
      | inr no_file ↦ rw no_file (views key old)
    ],
    (h.0, h'),
  )

  swap-Same :
      (e f : Entry T) (es : List (Entry T))
      → All IsDetermined (e ∷ f ∷ es)
      → Same (e ∷ f ∷ es) (f ∷ e ∷ es)
  swap-Same e f es h = (
    ground arith,
    ground arith,
    λ key old. elim (Bool-cases e.regular) [
      | inr no_file ↦ rw no_file refl
      | inl is_file ↦ elim (Bool-cases f.regular) [
        | inr no_file ↦ rw (no_file, is_file) refl
        | inl is_file' ↦
            rw (is_file, is_file') (latest_same e f key old (regular_files es) h.0 h.1.0)
      ]
    ],
    (h.1.0, (h.0, h.1.1)),
  )

  Permᴰ-Same : {es es' : List (Entry T)} → Permᴰ es es' → All IsDetermined es → Same es es'
  Permᴰ-Same Permᴰ.nil h = (refl, refl, (λ key old. refl), tt)
  Permᴰ-Same (Permᴰ.cons {a} {b} {l₁} {l₂} e p) h =
      rw (← e) (cons-Same a l₁ l₂ h (Permᴰ-Same p h.1))
  Permᴰ-Same (Permᴰ.swap {a} {b} {a'} {b'} {l} e f) h = rw (← e, ← f) (swap-Same a b l h)
  Permᴰ-Same (Permᴰ.trans p q) h =
      let (count, size, views, h') = Permᴰ-Same p h in
      let (count', size', views', h'') = Permᴰ-Same q h' in
      (count ∙ count', size ∙ size', (λ key old. views key old ∙ views' key old), h'')

module _ (c : Codec) (b : Broker) (stores : Stores c b) {T : Type 0} (plus : T → T → T) where
  left_by :
      (d : Connector T) (s : b.State) (es : List (Entry T))
      → d.bytes_limit ≡ negsuc 0
      → (key : Bytes)
      → stores.view (run_entries c b plus d s es).1 key
        ≡ latest key (stores.view s key) (regular_files es)
  left_by d s es limit key =
      (run_entries-latest c b stores plus d s es).1 key
      ∙ ap (latest key (stores.view s key)) (transmitted_unlimited d es limit)

  -- Two runs count the same, and leave the same in the database.
  abbrev pub SameRun : Connector T → b.State → List (Entry T) → List (Entry T) → Type 0
  SameRun d s es es' =
      let (d₁, s₁, _made₁) = run_entries c b plus d s es in
      let (d₂, s₂, _made₂) = run_entries c b plus d s es' in
      (d₁.loaded_objects ≡ d₂.loaded_objects)
      × (d₁.total_data_size ≡ d₂.total_data_size)
      × ((key : Bytes) → stores.view s₁ key ≡ stores.view s₂ key)

  SameRun-prop :
      (d : Connector T) (s : b.State) (es es' : List (Entry T)) → IsProp (SameRun d s es es')
  SameRun-prop d s es es' = hlevel

  -- With a database that stores what it is sent, without a limit, -1, and with files of which those
  -- of one key are equal: in whatever order the files are found, a run counts the same number and
  -- the same size, and leaves the same value under each key.
  pub run_entries-Perm :
      (content : Bytes → Bytes) (d : Connector T) (s : b.State) (es es' : List (Entry T))
      → d.loaded_objects < 2 ^ 32
      → d.bytes_limit ≡ negsuc 0
      → All (IsDetermined content) es
      → Perm es es'
      → SameRun d s es es'
  run_entries-Perm content d s es es' h limit determined perm =
      ∥∥₁_elim perm (SameRun-prop d s es es') (λ p.
        let (count, size, views, _h) = Permᴰ-Same content p determined in
        let (loaded, total) = run_entries_unlimited c b plus d s es h limit in
        let (loaded', total') = run_entries_unlimited c b plus d s es' h limit in
        (
          loaded ∙ ap (λ (k : ℕ). (d.loaded_objects + k) % 2 ^ 32) count ∙ sym loaded',
          total ∙ ap (λ (k : ℕ). d.total_data_size + k) size ∙ sym total',
          λ key.
              left_by d s es limit key
              ∙ views key (stores.view s key)
              ∙ sym (left_by d s es' limit key),
        ))
