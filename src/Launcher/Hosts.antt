-- ===== src/Launcher/Hosts.antt =====
-- The host lists that the loop over the `host` elements builds.
use key_value_cluster_perf.Base.{
  rounds, ℕ, zero, suc, ◌+◌, ◌^◌, ◌<◌, ◌≤◌, Bytes, false, List, [], ◌∷◌, ◌++◌, some, codes, ◌≡◌,
  refl, ap, All, arith, length, append_assoc, append-nil, ℤ, pos, negsuc, ◌+ℤ◌, pos_part, inl, inr,
  Bool-cases, leb, if◌then◌else◌, ◌-◌,
}
use key_value_cluster_perf.Launcher.{
  parsed, HostTree, HostLists, int_sum, address, limit_reached, add_nodes, add_host, add_hosts,
}

-- How many nodes of one host are taken: all, or at most a limit that is above 0.
abbrev pub limited : ℤ → ℕ → ℕ
limited (pos zero) n = n
limited (pos (suc l)) n = if leb (suc l) n then suc l else n
limited (negsuc l) n = n

-- "tcp://node:port", "tcp://node:port+1" and so on.
abbrev pub addresses : Bytes → ℤ → ℕ → ℕ → List Bytes
addresses node port i zero = []
addresses node port i (suc k) = address node (port +ℤ pos i) ∷ addresses node port (suc i) k

pub length-addresses : (node : Bytes) (port : ℤ) (i k : ℕ) → length (addresses node port i k) ≡ k
length-addresses node port i zero = refl
length-addresses node port i (suc k) = ap suc (length-addresses node port (suc i) k)

int_sum-add :
    (port : ℤ) (i : ℕ) → pos_part port + i < 2 ^ 31 → int_sum port i ≡ parsed (port +ℤ pos i)
unfolding int_sum ◌+ℤ◌
int_sum-add (pos n) i h = ground arith
int_sum-add (negsuc n) i h = refl

-- The rounds that a loop from `i` on with `left` rounds to go makes before the limit ends it.
abbrev pub rounds_taken : ℤ → ℕ → ℕ → ℕ
rounds_taken limit i zero = 0
rounds_taken limit i (suc left) =
    if limit_reached limit i then 0 else suc (rounds_taken limit (suc i) left)

pub add_nodes-addresses :
    (limit : ℤ) (node : Bytes) (command port : ℤ) (i left : ℕ) (hosts : HostLists)
    → pos_part command + (i + left) ≤ 2 ^ 31
    → pos_part port + (i + left) ≤ 2 ^ 31
    → add_nodes limit node command port i left hosts
      ≡ parsed (record {
        command_hosts = hosts.command_hosts ++ addresses node command i (rounds_taken limit i left);
        data_hosts = hosts.data_hosts ++ addresses node port i (rounds_taken limit i left);
      })
unfolding add_nodes
add_nodes-addresses limit node command port i zero hosts h k =
    rw (append-nil hosts.command_hosts) (rw (append-nil hosts.data_hosts) refl)
add_nodes-addresses limit node command port i (suc left) hosts h k =
    elim (Bool-cases (limit_reached limit i)) [
      | inl e ↦
          rw (e, add_nodes)
            (rw (append-nil hosts.command_hosts) (rw (append-nil hosts.data_hosts) refl))
      | inr e ↦
          rw (e, add_nodes)
            (rw (int_sum-add command i (omega arith)) (
              rw (int_sum-add port i (omega arith)) (
                rw
                  (add_nodes-addresses limit node command port (suc i) left _ (omega arith)
                    (omega arith))
                  (simp append_assoc))))
    ]

rounds_below :
    (l i left : ℕ)
    → i ≤ suc l
    → rounds_taken (pos (suc l)) i left ≡ (if leb (suc l) (i + left) then suc l - i else left)
unfolding limit_reached
rounds_below l i zero h = ground arith
rounds_below l i (suc left) h = elim (Bool-cases (leb (suc l) i)) [
  | inl e ↦ ground arith
  | inr e ↦ ground (arith, rounds_below l (suc i) left (ground arith))
]

rounds_unlimited :
    (limit : ℤ) (i left : ℕ)
    → ((j : ℕ) → limit_reached limit j ≡ false)
    → rounds_taken limit i left ≡ left
rounds_unlimited limit i zero h = refl
rounds_unlimited limit i (suc left) h = rw (h i) (ap suc (rounds_unlimited limit (suc i) left h))

rounds_taken-limited : (limit : ℤ) (left : ℕ) → rounds_taken limit 0 left ≡ limited limit left
unfolding limit_reached
rounds_taken-limited (pos zero) left = rounds_unlimited (pos zero) 0 left (λ j. refl)
rounds_taken-limited (pos (suc l)) left = ground (arith, rounds_below l 0 left (omega arith))
rounds_taken-limited (negsuc l) left = rounds_unlimited (negsuc l) 0 left (λ j. refl)

-- An element as `host` is meant to be: all its values are there.
pub record Host : Type 0 where
  pub node : Bytes
  pub command : ℤ
  pub port : ℤ
  pub nodes : ℤ

abbrev pub host_tree : Host → HostTree
host_tree h = record {
  first_command_port = some h.command;
  first_data_port = some h.port;
  number_of_nodes = some h.nodes;
  node_address = some h.node;
}

-- The last port of each kind is an int, and so is the number behind it.
abbrev pub PortsFit : Host → Type 0
PortsFit h =
    (pos_part h.command + rounds h.nodes ≤ 2 ^ 31) × (pos_part h.port + rounds h.nodes ≤ 2 ^ 31)

abbrev pub host_elements : List Host → List (Bytes × HostTree)
host_elements [] = []
host_elements (h ∷ hs) = (codes "host", host_tree h) ∷ host_elements hs

abbrev pub all_command_addresses : ℤ → List Host → List Bytes
all_command_addresses limit [] = []
all_command_addresses limit (h ∷ hs) =
    addresses h.node h.command 0 (limited limit (rounds h.nodes)) ++ all_command_addresses limit hs

abbrev pub all_data_addresses : ℤ → List Host → List Bytes
all_data_addresses limit [] = []
all_data_addresses limit (h ∷ hs) =
    addresses h.node h.port 0 (limited limit (rounds h.nodes)) ++ all_data_addresses limit hs

-- The `host` elements whose values are all there, and whose ports stay in an int, add to the lists,
-- for each element in order, the addresses of its first nodes with consecutive ports: all its
-- nodes, or with a limit above 0 at most that many of each element.
pub add_hosts-addresses :
    (limit : ℤ) (hs : List Host) (lists : HostLists)
    → All PortsFit hs
    → add_hosts limit (host_elements hs) lists
      ≡ parsed (record {
        command_hosts = lists.command_hosts ++ all_command_addresses limit hs;
        data_hosts = lists.data_hosts ++ all_data_addresses limit hs;
      })
unfolding add_hosts add_host
add_hosts-addresses limit [] lists fits =
    rw (append-nil lists.command_hosts) (rw (append-nil lists.data_hosts) refl)
add_hosts-addresses limit (h ∷ hs) lists fits =
    rw
      (add_nodes-addresses limit h.node h.command h.port 0 (rounds h.nodes) lists
        (omega (arith, fits.0.0)) (omega (arith, fits.0.1)))
      (rw (rounds_taken-limited limit (rounds h.nodes))
        (rw (add_hosts-addresses limit hs _ fits.1) (simp append_assoc)))

total_limited : ℤ → List Host → ℕ
total_limited limit [] = 0
total_limited limit (h ∷ hs) = limited limit (rounds h.nodes) + total_limited limit hs
