-- ===== src/Workload/Patterns.antt =====
-- What every access pattern promises: each access is to a key that the initialisation has set.
use key_value_cluster_perf.Base.{
  ℕ, not, Bytes, Bool, true, false, some, none, if◌then◌else◌, ◌≡◌, refl, ap, ◌∙◌, arith, ℤ, pos,
  ◌&&◌, leb_ℤ, ◌≤ℤ◌, ◌+ℤ◌,
}
use key_value_cluster_perf.Decimal.{print_int}
use key_value_cluster_perf.Mq.{Outcome, done}
use key_value_cluster_perf.StdMap.{StringMap, lookup, IsSorted}
use key_value_cluster_perf.Workload.{
  border_access, plain_access, initialisation_pairs, Random, Doubles, SingleAccess, AccessPattern,
  next_key, read_write_border, random_access_pattern, ocdb_access_pattern, read_only_access_pattern,
  write_only_access_pattern,
}
use key_value_cluster_perf.Workload.Keys.{KeyRange, next_key_lem, initialisation_pairs_lem}

module _ (g : Random) where
  -- The promise of AccessPattern.h: the initialisation is there, and every access finds its key in
  -- it, with the value of the access.
  pub record PreventsMissing (p : AccessPattern g) : Type 0 where
    pub pairs : StringMap
    pub initialised : p.get_initialisation_key_value_pairs ≡ done pairs
    pub sorted : IsSorted pairs
    pub access :
        (s : g.State)
        → (a : SingleAccess) × (s' : g.State) × (p.get_next s ≡ done (a, s'))
          × (lookup a.key pairs ≡ some a.value)

  in_range :
      (min_key max_key key : ℤ)
      → min_key ≤ℤ key
      → key +ℤ pos 1 ≤ℤ max_key
      → (leb_ℤ min_key key && leb_ℤ key max_key) ≡ true
  unfolding ◌+ℤ◌
  in_range min_key max_key key h k = ground (arith, h, k)

  module _ (min_key max_key : ℤ) (value : Bytes) (range : KeyRange min_key max_key) where
    abbrev pairs_set : StringMap
    pairs_set = (initialisation_pairs_lem min_key max_key value range).0

    key_found :
        (r : ℕ)
        → (key : ℤ) × (next_key min_key max_key r ≡ done key)
          × (lookup (print_int key) pairs_set ≡ some value)
    key_found r =
        let (key, is_key, above, under) = next_key_lem min_key max_key r range in
        (
          key,
          is_key,
          (initialisation_pairs_lem min_key max_key value range).3 key
              ∙ ap (λ (b : Bool). if b then some value else none)
                  (in_range min_key max_key key above under),
        )

    -- An access finds its key in the map of the initialisation.
    abbrev Finds : (g.State → Outcome (SingleAccess × g.State)) → Type 0
    Finds get_next =
        (s : g.State)
        → (a : SingleAccess) × (s' : g.State) × (get_next s ≡ done (a, s'))
          × (lookup a.key pairs_set ≡ some a.value)

    border_access-Finds :
        (d : Doubles) (border : d.Double) → Finds (border_access g d border min_key max_key value)
    border_access-Finds d border s =
        let (r, s') = g.next s in
        let (r', s'') = g.next s' in
        let (key, is_key, found) = key_found r' in
        (
          record {
            read = not (d.greater (d.divide (d.of_nat r) d.rand_max) border);
            key = print_int key;
            value = value;
          },
          s'',
          rw is_key refl,
          found,
        )

    plain_access-Finds : (read : Bool) → Finds (plain_access g read min_key max_key value)
    plain_access-Finds read s =
        let (r, s') = g.next s in
        let (key, is_key, found) = key_found r in
        (record { read = read; key = print_int key; value = value }, s', rw is_key refl, found)

    promise :
        (get_next : g.State → Outcome (SingleAccess × g.State))
        → Finds get_next
        → PreventsMissing (record {
          get_next = get_next;
          get_initialisation_key_value_pairs = initialisation_pairs min_key max_key value;
        })
    promise get_next finds =
        let (pairs, initialised, sorted, found) =
          initialisation_pairs_lem min_key max_key value range in
        record { pairs = pairs_set; initialised = initialised; sorted = sorted; access = finds }

    -- Over a range of keys with minKey below maxKey, whose numbers stay in an int, each of the four
    -- patterns is able to give an access whatever the random numbers are, and each access has a key
    -- that its initialisation sets to the value of the access.
    pub patterns-PreventsMissing :
        (d : Doubles) (ratio : d.Double)
        → PreventsMissing (random_access_pattern g d min_key max_key ratio value)
          × PreventsMissing (ocdb_access_pattern g d min_key max_key ratio value)
          × PreventsMissing (read_only_access_pattern g min_key max_key value)
          × PreventsMissing (write_only_access_pattern g min_key max_key value)
    unfolding random_access_pattern ocdb_access_pattern read_only_access_pattern
        write_only_access_pattern
    patterns-PreventsMissing d ratio = (
      promise _ (border_access-Finds d (read_write_border g d ratio)),
      promise _ (border_access-Finds d (read_write_border g d ratio)),
      promise _ (plain_access-Finds true),
      promise _ (plain_access-Finds false),
    )
