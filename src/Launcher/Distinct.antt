-- ===== src/Launcher/Distinct.antt =====
-- When two addresses of the controller's host lists are the same.
use key_value_cluster_perf.Base.{
  rounds, ℕ, ◌+◌, ◌<◌, ◌==◌, Bytes, Lacks, List, [], ◌∷◌, ◌++◌, codes, ◌≡◌, ◌≢◌, refl, ap, sym, ◌∙◌,
  ◌⊎◌, inl, inr, All, arith, length, drop, if◌then◌else◌, ℤ, pos, negsuc, ◌+ℤ◌, ◌≤ℤ◌, pos_part,
  neg_part,
}
use key_value_cluster_perf.Decimal.{print_int, print_int_injective}
use key_value_cluster_perf.Launcher.{address}
use key_value_cluster_perf.Launcher.Hosts.{Host}

abbrev pub Misses : List Bytes → Bytes → Type 0
Misses ys x = All (λ y. x ≢ y) ys

-- No address stands twice in the list.
abbrev pub Distinct : List Bytes → Type 0
Distinct [] = Unit
Distinct (x ∷ xs) = Misses xs x × Distinct xs

-- The ports of the first host end before those of the second begin.
abbrev Before : Host → Host → Type 0
Before h k = (h.port +ℤ pos (rounds h.nodes)) ≤ℤ k.port

-- Two elements have different nodes, or ports that do not meet.
abbrev pub AreApart : Host → Host → Type 0
AreApart h k = (h.node ≢ k.node) ⊎ Before h k ⊎ Before k h

abbrev pub ApartAll : List Host → Type 0
ApartAll [] = Unit
ApartAll (h ∷ hs) = All (AreApart h) hs × ApartAll hs

-- The name of a node has no colon.
abbrev pub HasName : Host → Type 0
HasName h = Lacks b':' h.node

-- The text before the first byte `b`.
until : ℕ → Bytes → Bytes
until b [] = []
until b (c ∷ cs) = let rest = until b cs in if c == b then [] else c ∷ rest

until-append : (b : ℕ) (s r : Bytes) → Lacks b s → until b (s ++ (b ∷ r)) ≡ s
unfolding until
until-append b [] r h = ground arith
until-append b (c ∷ s) r h = ground (arith, until-append b s r h.1, h.0)

drop-append : (xs ys : Bytes) → drop (length xs) (xs ++ ys) ≡ ys
drop-append [] ys = refl
drop-append (x ∷ xs) ys = drop-append xs ys

address-node :
    (n m : Bytes) (p q : ℤ) → Lacks b':' n → Lacks b':' m → address n p ≡ address m q → n ≡ m
unfolding address
address-node n m p q h k e =
    sym (until-append b':' n (print_int p) h)
    ∙ ap (λ (s : Bytes). until b':' (drop 6 s)) e
    ∙ until-append b':' m (print_int q) k

address-port : (n : Bytes) (p q : ℤ) → address n p ≡ address n q → p ≡ q
unfolding address
address-port n p q e = print_int_injective p q (
    ap (drop 1) (
      sym (drop-append n (codes ":" ++ print_int p))
      ∙ ap (λ (s : Bytes). drop (length n) (drop 6 s)) e
      ∙ drop-append n (codes ":" ++ print_int q)))

sum_parts :
    (a : ℤ) (i : ℕ) → pos_part (a +ℤ pos i) + neg_part a ≡ pos_part a + i + neg_part (a +ℤ pos i)
unfolding ◌+ℤ◌
sum_parts (pos a) i = ground arith
sum_parts (negsuc a) i = ground arith

-- Two addresses of one host.
pub same_host :
    (n : Bytes) (p : ℤ) (i j : ℕ) → address n (p +ℤ pos i) ≡ address n (p +ℤ pos j) → i ≡ j
same_host n p i j e =
    let same_port = address-port n (p +ℤ pos i) (p +ℤ pos j) e in
    let first = sum_parts p i in
    let second = sum_parts p j in
    let up = ap pos_part same_port in
    let down = ap neg_part same_port in omega (arith, first, second, up, down)

-- Ports that do not meet.
ports_apart : (p q : ℤ) (i j k : ℕ) → i < k → (p +ℤ pos k) ≤ℤ q → p +ℤ pos i ≢ q +ℤ pos j
ports_apart p q i j k lt before e =
    let first = sum_parts p i in
    let second = sum_parts q j in
    let last = sum_parts p k in
    let up = ap pos_part e in
    let down = ap neg_part e in omega (arith, first, second, last, up, down, before, lt)

pub other_host :
    (h k : Host) (i j : ℕ)
    → HasName h
    → HasName k
    → AreApart h k
    → i < rounds h.nodes
    → j < rounds k.nodes
    → address h.node (h.port +ℤ pos i) ≢ address k.node (k.port +ℤ pos j)
other_host h k i j named named' (inl other) lt lt' e =
    other (address-node h.node k.node _ _ named named' e)
other_host h k i j named named' (inr (inl before)) lt lt' e =
    ports_apart h.port k.port i j (rounds h.nodes) lt before (
      address-port k.node _ _ (
        ap (λ (n : Bytes). address n (h.port +ℤ pos i))
          (sym (address-node h.node k.node _ _ named named' e))
        ∙ e))
other_host h k i j named named' (inr (inr before)) lt lt' e =
    ports_apart k.port h.port j i (rounds k.nodes) lt' before (
      sym (
        address-port k.node _ _ (
          ap (λ (n : Bytes). address n (h.port +ℤ pos i))
            (sym (address-node h.node k.node _ _ named named' e))
          ∙ e)))
