-- ===== src/Launcher/Elements.antt =====
-- The loop of parseControllerXML of src/KeyValueClusterPerf.cc over the `host` elements.
use key_value_cluster_perf.Base.{
  rounds, ℕ, zero, suc, ◌+◌, ◌^◌, Bytes, Bool, true, false, leb, List, [], ◌∷◌, ◌++◌, Option, none,
  some, same, codes, if◌then◌else◌, ℤ, pos, negsuc, ◌+ℤ◌,
}
use key_value_cluster_perf.Decimal.{print_int}

-- The end of a parser: a value, the answer `false`, an exception, or what is undefined.
pub data Parsed {ℓ} (A : Type ℓ) : Type ℓ where
  parsed : A → Parsed A
  refused : Parsed A
  thrown : Parsed A
  undefined : Parsed A

infixl 5 ◌>>=◌
abbrev pub ◌>>=◌ {ℓ κ} : {A : Type ℓ} {B : Type κ} → Parsed A → (A → Parsed B) → Parsed B
parsed a >>= f = f a
refused >>= f = refused
thrown >>= f = thrown
undefined >>= f = undefined

-- ptree::get and ptree::get_child: an element that is missing, or has no such value, throws.
abbrev pub get {ℓ} : {A : Type ℓ} → Option A → Parsed A
get none = thrown
get (some a) = parsed a

-- The elements below one child of `hosts`.
pub record HostTree : Type 0 where
  pub first_command_port : Option ℤ
  pub first_data_port : Option ℤ
  pub number_of_nodes : Option ℤ
  pub node_address : Option Bytes

pub record HostLists : Type 0 where
  pub command_hosts : List Bytes
  pub data_hosts : List Bytes

-- The sum of two ints of which the second is not negative.
unfoldable pub int_sum : ℤ → ℕ → Parsed ℤ
int_sum (pos n) i = if leb (2 ^ 31) (n + i) then undefined else parsed (pos (n + i))
int_sum (negsuc n) i = parsed (negsuc n +ℤ pos i)

-- "tcp://" << nodeAddress << ":" << port
unfoldable pub address : Bytes → ℤ → Bytes
address node port = codes "tcp://" ++ (node ++ (codes ":" ++ print_int port))

-- hostLimit > 0 && i >= hostLimit
unfoldable pub limit_reached : ℤ → ℕ → Bool
limit_reached (pos zero) i = false
limit_reached (pos (suc n)) i = leb (suc n) i
limit_reached (negsuc n) i = false

-- The loop of one host from `i` on, with `left` rounds to go.
unfoldable pub add_nodes : ℤ → Bytes → ℤ → ℤ → ℕ → ℕ → HostLists → Parsed HostLists
unfolding int_sum
add_nodes limit node command data_port i zero hosts = parsed hosts
add_nodes limit node command data_port i (suc left) hosts = elim (limit_reached limit i) [
  | true ↦ parsed hosts
  | false ↦ do
    command_port ← int_sum command i
    port ← int_sum data_port i
    add_nodes limit node command data_port (suc i) left (record {
      command_hosts = hosts.command_hosts ++ (address node command_port ∷ []);
      data_hosts = hosts.data_hosts ++ (address node port ∷ []);
    })
]

unfoldable pub add_host : ℤ → HostTree → HostLists → Parsed HostLists
add_host limit t hosts = do
  command ← get t.first_command_port
  data_port ← get t.first_data_port
  nodes ← get t.number_of_nodes
  node ← get t.node_address
  add_nodes limit node command data_port 0 (rounds nodes) hosts

-- The loop over the children of `hosts`, each with its name.
unfoldable pub add_hosts : ℤ → List (Bytes × HostTree) → HostLists → Parsed HostLists
add_hosts limit [] hosts = parsed hosts
add_hosts limit ((name, t) ∷ children) hosts = elim (same name (codes "host")) [
  | false ↦ add_hosts limit children hosts
  | true ↦ do more ← add_host limit t hosts; add_hosts limit children more
]
