-- ===== src/Launcher/Apart.antt =====
-- The data addresses of the controller's host lists are all different, if the elements are.
use key_value_cluster_perf.Base.{
  rounds, ℕ, zero, suc, ◌+◌, ◌<◌, ◌≤◌, Bytes, List, [], ◌∷◌, ◌++◌, ◌≡◌, ◌≢◌, refl, ap, sym, ◌∙◌,
  All, All-append, arith, length, ℤ, pos, negsuc, ◌+ℤ◌,
}
use key_value_cluster_perf.Launcher.{address}
use key_value_cluster_perf.Launcher.Hosts.{Host, limited, addresses, all_data_addresses}
use key_value_cluster_perf.Launcher.Distinct.{
  Misses, Distinct, AreApart, ApartAll, HasName, same_host, other_host,
}
use key_value_cluster_perf.Network.Program.{numbered}

Distinct-append :
    (xs ys : List Bytes) → Distinct xs → Distinct ys → All (Misses ys) xs → Distinct (xs ++ ys)
Distinct-append [] ys h k apart = k
Distinct-append (x ∷ xs) ys h k apart =
    (All-append (λ y. x ≢ y) xs ys h.0 apart.0, Distinct-append xs ys h.1 k apart.1)

-- The addresses of the numbers from `i` on.
addresses-All :
    (P : Bytes → Type 0) (node : Bytes) (port : ℤ) (i k : ℕ)
    → ((j : ℕ) → i ≤ j → j < i + k → P (address node (port +ℤ pos j)))
    → All P (addresses node port i k)
addresses-All P node port i zero h = tt
addresses-All P node port i (suc k) h = (
  h i (omega arith) (omega arith),
  addresses-All P node port (suc i) k (λ j le lt. h j (omega (arith, le)) (omega (arith, lt))),
)

addresses-Distinct : (node : Bytes) (port : ℤ) (i k : ℕ) → Distinct (addresses node port i k)
addresses-Distinct node port i zero = tt
addresses-Distinct node port i (suc k) = (
  addresses-All (λ y. address node (port +ℤ pos i) ≢ y) node port (suc i) k
      (λ j le lt e.
        let same_number = same_host node port i j e in absurd (omega (arith, le, same_number))),
  addresses-Distinct node port (suc i) k,
)

limited-le : (limit : ℤ) (n : ℕ) → limited limit n ≤ n
limited-le (pos zero) n = omega arith
limited-le (pos (suc l)) n = ground arith
limited-le (negsuc l) n = omega arith

-- An address of one element among those of the others.
others-Misses :
    (limit : ℤ) (h : Host) (i : ℕ) (hs : List Host)
    → i < rounds h.nodes
    → HasName h
    → All HasName hs
    → All (AreApart h) hs
    → Misses (all_data_addresses limit hs) (address h.node (h.port +ℤ pos i))
others-Misses limit h i [] lt named all_named apart = tt
others-Misses limit h i (k ∷ ks) lt named all_named apart =
    let x = address h.node (h.port +ℤ pos i) in
    let few = limited-le limit (rounds k.nodes) in
    All-append (λ y. x ≢ y) (addresses k.node k.port 0 (limited limit (rounds k.nodes)))
      (all_data_addresses limit ks)
      (addresses-All (λ y. x ≢ y) k.node k.port 0 (limited limit (rounds k.nodes))
        (λ j le below. other_host h k i j named all_named.0 apart.0 lt (omega (arith, below, few))))
      (others-Misses limit h i ks lt named all_named.1 apart.1)

-- Of elements with names of nodes that have no colon, any two of which differ in the node or have
-- ports that do not meet, all data addresses are different.
pub all_data_addresses-Distinct :
    (limit : ℤ) (hs : List Host)
    → All HasName hs
    → ApartAll hs
    → Distinct (all_data_addresses limit hs)
all_data_addresses-Distinct limit [] named apart = tt
all_data_addresses-Distinct limit (h ∷ hs) named apart =
    let k = limited limit (rounds h.nodes) in
    let few = limited-le limit (rounds h.nodes) in
    Distinct-append (addresses h.node h.port 0 k) (all_data_addresses limit hs)
      (addresses-Distinct h.node h.port 0 k) (all_data_addresses-Distinct limit hs named.1 apart.1)
      (addresses-All (Misses (all_data_addresses limit hs)) h.node h.port 0 k (λ i le below.
        others-Misses limit h i hs (omega (arith, below, few)) named.0 named.1 apart.0))

-- The element at a position, or the empty text.
abbrev pub entry_at : List Bytes → ℕ → Bytes
entry_at [] i = []
entry_at (x ∷ xs) zero = x
entry_at (x ∷ xs) (suc i) = entry_at xs i

entry_at-Misses :
    (xs : List Bytes) (x : Bytes) (j : ℕ) → j < length xs → Misses xs x → x ≢ entry_at xs j
entry_at-Misses [] x j h misses = absurd (omega (arith, h))
entry_at-Misses (y ∷ ys) x zero h misses = misses.0
entry_at-Misses (y ∷ ys) x (suc j) h misses = entry_at-Misses ys x j (omega (arith, h)) misses.1

-- Positions of a list with no element twice that hold the same are the same.
pub entry_at-injective :
    (xs : List Bytes) (i j : ℕ)
    → Distinct xs
    → i < length xs
    → j < length xs
    → entry_at xs i ≡ entry_at xs j
    → i ≡ j
entry_at-injective [] i j d h k e = absurd (omega (arith, h))
entry_at-injective (x ∷ xs) zero zero d h k e = refl
entry_at-injective (x ∷ xs) zero (suc j) d h k e =
    absurd (entry_at-Misses xs x j (omega (arith, k)) d.0 e)
entry_at-injective (x ∷ xs) (suc i) zero d h k e =
    absurd (entry_at-Misses xs x i (omega (arith, h)) d.0 (sym e))
entry_at-injective (x ∷ xs) (suc i) (suc j) d h k e =
    ap suc (entry_at-injective xs i j d.1 (omega (arith, h)) (omega (arith, k)) e)

numbered-shift : (r : ℕ → Bytes) (i k : ℕ) → numbered r (suc i) k ≡ numbered (λ j. r (suc j)) i k
numbered-shift r i zero = refl
numbered-shift r i (suc k) = ap (◌∷◌ (r (suc i))) (numbered-shift r (suc i) k)

-- A list is that of its entries.
pub numbered-entry_at : (xs : List Bytes) → numbered (entry_at xs) 0 (length xs) ≡ xs
numbered-entry_at [] = refl
numbered-entry_at (x ∷ xs) =
    ap (◌∷◌ x) (numbered-shift (entry_at (x ∷ xs)) 0 (length xs) ∙ numbered-entry_at xs)
