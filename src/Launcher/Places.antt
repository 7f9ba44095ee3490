-- ===== src/Launcher/Places.antt =====
-- The nodes and ports that the `host` elements stand for, of which the address lists are made.
use mathlib.Core.List.{map-append}
use key_value_cluster_perf.Base.{
  rounds, ℕ, zero, suc, Bytes, List, [], ◌∷◌, ◌++◌, map, some, ◌≡◌, refl, ap, ℤ, pos, ◌+ℤ◌,
  get_elem?,
}
use key_value_cluster_perf.Launcher.{address}
use key_value_cluster_perf.Launcher.Hosts.{
  Host, limited, addresses, all_command_addresses, all_data_addresses,
}
use key_value_cluster_perf.Launcher.Apart.{entry_at}

-- A node, and a port of each kind on it.
pub record Place : Type 0 where
  pub node : Bytes
  pub command : ℤ
  pub port : ℤ

abbrev pub places_from : Bytes → ℤ → ℤ → ℕ → ℕ → List Place
places_from node command port i zero = []
places_from node command port i (suc k) =
    record { node = node; command = command +ℤ pos i; port = port +ℤ pos i }
    ∷ places_from node command port (suc i) k

-- For each element, its first nodes with consecutive ports: all, or as many as the limit lets.
abbrev pub all_places : ℤ → List Host → List Place
all_places limit [] = []
all_places limit (h ∷ hs) =
    places_from h.node h.command h.port 0 (limited limit (rounds h.nodes)) ++ all_places limit hs

abbrev pub command_address : Place → Bytes
command_address p = address p.node p.command

abbrev pub data_address : Place → Bytes
data_address p = address p.node p.port

addresses-command :
    (node : Bytes) (command port : ℤ) (i k : ℕ)
    → map command_address (places_from node command port i k) ≡ addresses node command i k
addresses-command node command port i zero = refl
addresses-command node command port i (suc k) =
    ap (◌∷◌ (address node (command +ℤ pos i))) (addresses-command node command port (suc i) k)

addresses-data :
    (node : Bytes) (command port : ℤ) (i k : ℕ)
    → map data_address (places_from node command port i k) ≡ addresses node port i k
addresses-data node command port i zero = refl
addresses-data node command port i (suc k) =
    ap (◌∷◌ (address node (port +ℤ pos i))) (addresses-data node command port (suc i) k)

pub all_places-command :
    (limit : ℤ) (hs : List Host)
    → map command_address (all_places limit hs) ≡ all_command_addresses limit hs
all_places-command limit [] = refl
all_places-command limit (h ∷ hs) = simp (
  map-append,
  addresses-command h.node h.command h.port 0 (limited limit (rounds h.nodes)),
  all_places-command limit hs,
)

pub all_places-data :
    (limit : ℤ) (hs : List Host)
    → map data_address (all_places limit hs) ≡ all_data_addresses limit hs
all_places-data limit [] = refl
all_places-data limit (h ∷ hs) = simp (
  map-append,
  addresses-data h.node h.command h.port 0 (limited limit (rounds h.nodes)),
  all_places-data limit hs,
)

pub entry_at-map :
    (f : Place → Bytes) (ps : List Place) (i : ℕ) (p : Place)
    → get_elem? ps i ≡ some p
    → entry_at (map f ps) i ≡ f p
entry_at-map f [] i p h = cc
entry_at-map f (q ∷ ps) zero p h = cc
entry_at-map f (q ∷ ps) (suc i) p h = entry_at-map f ps i p h
