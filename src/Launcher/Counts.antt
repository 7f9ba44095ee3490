-- ===== src/Launcher/Counts.antt =====
-- How many hosts the lists have, and which of them differ.
use key_value_cluster_perf.Base.{
  rounds, ℕ, zero, suc, ◌+◌, ◌*◌, ◌<◌, ◌≤◌, Bytes, List, [], ◌∷◌, ◌++◌, codes, same, ◌≡◌, ◌≢◌, ap,
  sym, ◌∙◌, All, arith, length, length-append, append-nil, ℤ, pos, negsuc, ◌+ℤ◌, inl, inr,
  Bool-cases,
}
use key_value_cluster_perf.Decimal.{print_int_injective}
use key_value_cluster_perf.Launcher.{
  Parsed, parsed, refused, thrown, undefined, get, ◌>>=◌, HostTree, HostLists, address,
  limit_reached, add_nodes, int_sum, add_host, add_hosts,
}
use key_value_cluster_perf.Launcher.Hosts.{
  limited, addresses, length-addresses, Host, PortsFit, host_elements, all_command_addresses,
  all_data_addresses, add_hosts-addresses,
}

append_cancel : (p a b : Bytes) → p ++ a ≡ p ++ b → a ≡ b
append_cancel [] a b h = h
append_cancel (x ∷ p) a b h = append_cancel p a b cc

address_injective : (node : Bytes) (p q : ℤ) → address node p ≡ address node q → p ≡ q
unfolding address
address_injective node p q h =
    print_int_injective p q (
      append_cancel (codes ":") _ _ (append_cancel node _ _ (append_cancel (codes "tcp://") _ _ h)))

port_injective : (port : ℤ) (i j : ℕ) → port +ℤ pos i ≡ port +ℤ pos j → i ≡ j
unfolding ◌+ℤ◌
port_injective (pos n) i j h = ground (arith, h)
port_injective (negsuc n) i j h = ground (arith, h)

-- No two elements are the same.
abbrev pub Distinct : List Bytes → Type 0
Distinct [] = Unit
Distinct (x ∷ xs) = All (λ y. x ≢ y) xs × Distinct xs

addresses_behind :
    (node : Bytes) (port : ℤ) (i j k : ℕ)
    → i < j
    → All (λ y. address node (port +ℤ pos i) ≢ y) (addresses node port j k)
addresses_behind node port i j zero h = tt
addresses_behind node port i j (suc k) h = (
  λ e. absurd (omega (arith, h, port_injective port i j (address_injective node _ _ e))),
  addresses_behind node port i (suc j) k (omega arith),
)

addresses-Distinct : (node : Bytes) (port : ℤ) (i k : ℕ) → Distinct (addresses node port i k)
addresses-Distinct node port i zero = tt
addresses-Distinct node port i (suc k) =
    (addresses_behind node port i (suc i) k (omega arith), addresses-Distinct node port (suc i) k)

-- If one host element is all there is, with all its values and with ports that stay in an int, the
-- command addresses are all different, and so are the data addresses.
pub add_hosts-Distinct :
    (limit : ℤ) (h : Host)
    → PortsFit h
    → (lists : HostLists) × (add_hosts limit
          (host_elements (h ∷ []))
          (record { command_hosts = []; data_hosts = [] })
        ≡ parsed lists)
      × (Distinct lists.command_hosts × Distinct lists.data_hosts)
add_hosts-Distinct limit h fits =
    let k = limited limit (rounds h.nodes) in
    (
      record {
        command_hosts = addresses h.node h.command 0 k;
        data_hosts = addresses h.node h.port 0 k;
      },
      simp append-nil at (
          add_hosts-addresses limit (h ∷ []) (record { command_hosts = []; data_hosts = [] })
            (fits, tt)),
      (addresses-Distinct h.node h.command 0 k, addresses-Distinct h.node h.port 0 k),
    )

limited-many : (l n : ℕ) → suc l ≤ n → limited (pos (suc l)) n ≡ suc l
limited-many l n h = ground (arith, h)

length-all_command_addresses :
    (l : ℕ) (hs : List Host)
    → All (λ h. suc l ≤ rounds h.nodes) hs
    → length (all_command_addresses (pos (suc l)) hs) ≡ length hs * suc l
length-all_command_addresses l [] many = omega arith
length-all_command_addresses l (h ∷ hs) many = rw (limited-many l (rounds h.nodes) many.0) (
    rw
      (length-append (addresses h.node h.command 0 (suc l))
        (all_command_addresses (pos (suc l)) hs))
      (rw (length-addresses h.node h.command 0 (suc l))
        (rw (length-all_command_addresses l hs many.1) (grind arith))))

-- With complete host elements whose ports stay in an int, a limit above 0 that no element's number
-- of nodes is below, and no hosts before, the controller is given that many hosts for each element.
pub add_hosts_limit :
    (l : ℕ) (hs : List Host)
    → All PortsFit hs
    → All (λ h. suc l ≤ rounds h.nodes) hs
    → (lists : HostLists) × (add_hosts
          (pos (suc l))
          (host_elements hs)
          (record { command_hosts = []; data_hosts = [] })
        ≡ parsed lists)
      × (length lists.command_hosts ≡ length hs * suc l)
add_hosts_limit l hs fits many = (
  record {
    command_hosts = all_command_addresses (pos (suc l)) hs;
    data_hosts = all_data_addresses (pos (suc l)) hs;
  },
  add_hosts-addresses (pos (suc l)) hs _ fits,
  length-all_command_addresses l hs many,
)

-- If there is a value, it is one of these.
abbrev pub Ensures {ℓ κ} : {A : Type ℓ} → (A → Type κ) → Parsed A → Type κ
Ensures P (parsed a) = P a
Ensures P refused = Unit
Ensures P thrown = Unit
Ensures P undefined = Unit

pub Ensures-bind {ℓ κ ι} :
    {A : Type ℓ} {B : Type κ} (Q : B → Type ι) (o : Parsed A) (f : A → Parsed B)
    → ((a : A) → Ensures Q (f a))
    → Ensures Q (o >>= f)
Ensures-bind Q (parsed a) f h = h a
Ensures-bind Q refused f h = tt
Ensures-bind Q thrown f h = tt
Ensures-bind Q undefined f h = tt

pub Ensures-then {ℓ κ ι μ} :
    {A : Type ℓ} {B : Type κ} (P : A → Type μ) (Q : B → Type ι) (o : Parsed A) (f : A → Parsed B)
    → Ensures P o
    → ((a : A) → P a → Ensures Q (f a))
    → Ensures Q (o >>= f)
Ensures-then P Q (parsed a) f k h = h a k
Ensures-then P Q refused f k h = tt
Ensures-then P Q thrown f k h = tt
Ensures-then P Q undefined f k h = tt

-- There are as many data addresses as command addresses.
abbrev pub AsMany : HostLists → Type 0
AsMany lists = length lists.data_hosts ≡ length lists.command_hosts

add_nodes-AsMany :
    (limit : ℤ) (node : Bytes) (command port : ℤ) (i left : ℕ) (lists : HostLists)
    → AsMany lists
    → Ensures AsMany (add_nodes limit node command port i left lists)
unfolding add_nodes
add_nodes-AsMany limit node command port i zero lists as_many = as_many
add_nodes-AsMany limit node command port i (suc left) lists as_many =
    elim (Bool-cases (limit_reached limit i)) [
      | inl e ↦ rw (e, add_nodes) as_many
      | inr e ↦
          rw (e, add_nodes)
            (Ensures-bind AsMany (int_sum command i) _ (λ p.
              Ensures-bind AsMany (int_sum port i) _ (λ q.
                add_nodes-AsMany limit node command port (suc i) left _ (
                  length-append lists.data_hosts (address node q ∷ [])
                  ∙ ap (λ n. n + 1) as_many
                  ∙ sym (length-append lists.command_hosts (address node p ∷ []))))))
    ]

add_host-AsMany :
    (limit : ℤ) (t : HostTree) (lists : HostLists)
    → AsMany lists
    → Ensures AsMany (add_host limit t lists)
unfolding add_host
add_host-AsMany limit t lists as_many = Ensures-bind AsMany (get t.first_command_port) _ (λ command.
    Ensures-bind AsMany (get t.first_data_port) _ (λ port.
      Ensures-bind AsMany (get t.number_of_nodes) _ (λ nodes.
        Ensures-bind AsMany (get t.node_address) _
          (λ node. add_nodes-AsMany limit node command port 0 (rounds nodes) lists as_many))))

-- Whatever the elements hold, if the loop over them ends with lists of hosts, these have as many
-- data addresses as command addresses when those before the loop had.
pub add_hosts-AsMany :
    (limit : ℤ) (children : List (Bytes × HostTree)) (lists : HostLists)
    → AsMany lists
    → Ensures AsMany (add_hosts limit children lists)
unfolding add_hosts
add_hosts-AsMany limit [] lists as_many = as_many
add_hosts-AsMany limit ((name, t) ∷ children) lists as_many =
    elim (Bool-cases (same name (codes "host"))) [
      | inl e ↦
          rw (e, add_hosts)
            (Ensures-then AsMany AsMany (add_host limit t lists) _
              (add_host-AsMany limit t lists as_many)
              (λ more k. add_hosts-AsMany limit children more k))
      | inr e ↦ rw (e, add_hosts) (add_hosts-AsMany limit children lists as_many)
    ]
