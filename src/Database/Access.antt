-- ===== src/Database/Access.antt =====
-- Accesses of a pattern to a database that stores, behind its initialisation.
use mathlib.Core.Path.{subst}
use key_value_cluster_perf.Base.{
  ℕ, zero, suc, Bytes, [], ◌∷◌, Option, none, some, same, same_iff, less_irrefl, if◌then◌else◌, ◌≡◌,
  refl, ap, ◌∙◌, arith, Bool-cases, inl, inr,
}
use key_value_cluster_perf.Mq.{done}
use key_value_cluster_perf.StdMap.{StringMap, lookup, Before, IsSorted}
use key_value_cluster_perf.Workload.{Random, SingleAccess, AccessPattern}
use key_value_cluster_perf.Workload.Patterns.{PreventsMissing}
use key_value_cluster_perf.Database.{KeyValueDb, IsStore, initialise, access, burn_in_out}

lookup-Before : (key : Bytes) (m : StringMap) → Before key m → lookup key m ≡ none
unfolding lookup
lookup-Before key [] h = refl
lookup-Before key ((k, v) ∷ m) h = elim (Bool-cases (same k key)) [
  | inl e ↦ absurd (ground (arith, (same_iff k key).0 e, h.0, less_irrefl key))
  | inr e ↦ rw e (lookup-Before key m h.1)
]

abbrev pub or_before : Option Bytes → Option Bytes → Option Bytes
or_before none old = old
or_before (some v) old = some v

module _ (db : KeyValueDb) (store : IsStore db) where
  -- After the initialisation with a sorted map each of its keys has its value, and every other key
  -- what it had before.
  pub initialise_lem :
      (m : StringMap) (s : db.State) (key : Bytes)
      → IsSorted m
      → store.view (initialise db m s) key ≡ or_before (lookup key m) (store.view s key)
  unfolding initialise lookup
  initialise_lem [] s key h = refl
  initialise_lem ((k, v) ∷ m) s key h = elim (Bool-cases (same k key)) [
    | inl e ↦
        initialise_lem m (db.put_value k v s) key h.1
        ∙ ap (λ (o : Option Bytes). or_before o (store.view (db.put_value k v s) key))
            (lookup-Before key m (subst (λ (j : Bytes). Before j m) ((same_iff k key).0 e) h.0))
        ∙ store.put_view s k v key
        ∙ rw e refl
    | inr e ↦
        initialise_lem m (db.put_value k v s) key h.1
        ∙ ap (or_before (lookup key m)) (store.put_view s k v key)
        ∙ rw e refl
  ]

  -- Every key of the map is set to its value.
  abbrev pub Holds : StringMap → db.State → Type 0
  Holds m s = (key value : Bytes) → lookup key m ≡ some value → store.view s key ≡ some value

  pub initialise-Holds : (m : StringMap) (s : db.State) → IsSorted m → Holds m (initialise db m s)
  initialise-Holds m s h key value found =
      initialise_lem m s key h ∙ ap (λ (o : Option Bytes). or_before o (store.view s key)) found

  -- An access with a key and value of the map keeps the values of the map, and a read gives the
  -- value.
  pub access_lem :
      (m : StringMap) (a : SingleAccess) (s : db.State)
      → Holds m s
      → lookup a.key m ≡ some a.value
      → Holds m (access db a s).0 × ((access db a s).1 ≡ (if a.read then some a.value else none))
  unfolding access
  access_lem m a s holds found = elim (Bool-cases a.read) [
    | inl e ↦ (
      rw e (λ key value h. store.get_view s a.key key ∙ holds key value h),
      rw e (ap some (store.get_found s a.key a.value (holds a.key a.value found))),
    )
    | inr e ↦ (
      rw e (λ key value h.
          store.put_view s a.key a.value key
          ∙ ground (arith, same_iff a.key key, found, h, holds key value h)),
      rw e refl,
    )
  ]

  pub burn_in_out-Holds :
      (g : Random) (p : AccessPattern g) (prevents : PreventsMissing g p) (runs : ℕ) (r : g.State)
      (s : db.State)
      → Holds prevents.pairs s
      → (r' : g.State) × (s' : db.State) × (burn_in_out g p db runs r s ≡ done (r', s'))
        × Holds prevents.pairs s'
  unfolding burn_in_out
  burn_in_out-Holds g p prevents zero r s holds = (r, s, refl, holds)
  burn_in_out-Holds g p prevents (suc runs) r s holds =
      let (a, r₁, next, found) = prevents.access r in
      let (r', s', ran, kept) =
        burn_in_out-Holds g p prevents runs r₁ (access db a s).0
          (access_lem prevents.pairs a s holds found).0 in
      (r', s', rw next ran, kept)

  -- With a pattern that prevents missing keys, after the initialisation of a database that stores
  -- the burn-in comes to its end, whatever the random numbers are and whatever the database held,
  -- and every key of the initialisation has its value.
  pub burn_in_out-initialise :
      (g : Random) (p : AccessPattern g) (prevents : PreventsMissing g p) (runs : ℕ) (r : g.State)
      (s : db.State)
      → (r' : g.State) × (s' : db.State) × (burn_in_out g p db runs r
            (initialise db prevents.pairs s)
          ≡ done (r', s'))
        × Holds prevents.pairs s'
  burn_in_out-initialise g p prevents runs r s =
      burn_in_out-Holds g p prevents runs r _ (initialise-Holds prevents.pairs s prevents.sorted)
