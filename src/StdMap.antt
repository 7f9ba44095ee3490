-- ===== src/StdMap.antt =====
-- std::map<string, string>, whose uses are in src/ConfigurationManager.cc and src/DBConnector.cc:
-- the entries in the order of their keys.
pub mod Laws
use key_value_cluster_perf.Base.{
  ℕ, Bytes, Bool, true, List, [], ◌∷◌, Option, none, some, same, less, if◌then◌else◌, ◌≡◌, All,
}

abbrev pub StringMap : Type 0
StringMap = List (Bytes × Bytes)

-- m.find(key)
unfoldable pub lookup : Bytes → StringMap → Option Bytes
lookup key [] = none
lookup key ((k, v) ∷ m) = if same k key then some v else lookup key m

-- m[key] = value: the tree is searched by the order of the keys alone.
unfoldable pub insert : Bytes → Bytes → StringMap → StringMap
insert key value [] = (key, value) ∷ []
insert key value ((k, v) ∷ m) =
    if less key k
    then (key, value) ∷ (k, v) ∷ m
    else if less k key
    then (k, v) ∷ insert key value m
    else (k, value) ∷ m

abbrev or_empty : Option Bytes → Bytes
or_empty none = []
or_empty (some v) = v

-- m[key] read: a missing key is given the empty string.
unfoldable pub at : StringMap → Bytes → Bytes
unfolding lookup
at m key = or_empty (lookup key m)

-- `key` stands before every key of the map.
abbrev pub Before : Bytes → StringMap → Type 0
Before key m = All (λ e. less key e.0 ≡ true) m

-- The invariant of the tree: the keys are strictly increasing.
abbrev pub IsSorted : StringMap → Type 0
IsSorted [] = Unit
IsSorted ((k, v) ∷ m) = Before k m × IsSorted m
