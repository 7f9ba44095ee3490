-- ===== src/Workload/Keys.antt =====
-- The keys that the access patterns read and write, and those that they initialise.
use key_value_cluster_perf.Base.{
  ℕ, zero, suc, ◌+◌, ◌-◌, ◌%◌, ◌^◌, ◌≤◌, ◌<◌, Bytes, Bool, true, false, ◌||◌, if◌then◌else◌, [],
  Option, some, none, same, same_refl, ◌≡◌, refl, ap, sym, ◌∙◌, arith, ℤ, pos, negsuc, pos_part,
  neg_part, ◌+ℤ◌, ◌-ℤ◌, ◌≤ℤ◌, eq_of_parts, Bool-cases, ltb, leb, eq_ℤ, leb_ℤ, same_iff, ◌&&◌, inl,
  inr,
}
use native.Mathlib.Nat.{mod-lt, zero-lt-suc}
use key_value_cluster_perf.Decimal.{print_int, print_int_injective}
use key_value_cluster_perf.Mq.{done, undefined}
use key_value_cluster_perf.StdMap.{StringMap, lookup, insert, IsSorted}
use key_value_cluster_perf.StdMap.Laws.{lookup-insert, insert-IsSorted}
use key_value_cluster_perf.Workload.{
  int_range, int_result, next_key, initialise_keys, initialisation_pairs, key_rounds,
}

-- The least key is below the greatest, the number behind the greatest is an int, and so is their
-- difference.
pub record KeyRange (min_key max_key : ℤ) : Type 0 where
  pub below : pos_part min_key + neg_part max_key < pos_part max_key + neg_part min_key
  pub max_int : pos_part max_key < 2 ^ 31 - 1
  pub min_int : neg_part min_key ≤ 2 ^ 31
  pub width_int :
      pos_part max_key + neg_part min_key < 2 ^ 31 + (pos_part min_key + neg_part max_key)

-- Their difference is above 0, and does not leave the range.
width_lem :
    (min_key max_key : ℤ)
    → KeyRange min_key max_key
    → (w : ℕ) × (max_key -ℤ min_key ≡ pos (suc w))
      × (suc w < 2 ^ 31)
      × (pos_part max_key + neg_part min_key ≡ suc w + (pos_part min_key + neg_part max_key))
unfolding ◌-ℤ◌
width_lem min_key max_key h = (
  (pos_part max_key + neg_part min_key) - (pos_part min_key + neg_part max_key) - 1,
  ground (arith, h.below),
  omega (arith, h.below, h.width_int),
  omega (arith, h.below),
)

offset_lem :
    (x w : ℕ) (min_key max_key : ℤ)
    → KeyRange min_key max_key
    → x < suc w
    → pos_part max_key + neg_part min_key ≡ suc w + (pos_part min_key + neg_part max_key)
    → (int_result (pos x +ℤ min_key) ≡ done (pos x +ℤ min_key))
      × (min_key ≤ℤ pos x +ℤ min_key)
      × (pos x +ℤ min_key +ℤ pos 1 ≤ℤ max_key)
unfolding int_result ◌+ℤ◌
offset_lem x w (pos a) (pos b) h k e =
    (ground (arith, h.max_int, k, e), ground (arith, k, e), ground (arith, k, e))
offset_lem x w (pos a) (negsuc b) h k e = absurd (omega (arith, h.below))
offset_lem x w (negsuc a) (pos b) h k e =
    (ground (arith, h.max_int, h.min_int, k, e), ground (arith, k, e), ground (arith, k, e))
offset_lem x w (negsuc a) (negsuc b) h k e =
    (ground (arith, h.max_int, h.min_int, k, e), ground (arith, k, e), ground (arith, k, e))

int_range_lem : (n : ℕ) → n < 2 ^ 31 → int_range (pos n) ≡ true
int_range_lem n h = ground (arith, h)

-- The key of any random number is one of minKey, ..., maxKey - 1.
pub next_key_lem :
    (min_key max_key : ℤ) (r : ℕ)
    → KeyRange min_key max_key
    → (key : ℤ) × (next_key min_key max_key r ≡ done key)
      × (min_key ≤ℤ key)
      × (key +ℤ pos 1 ≤ℤ max_key)
unfolding next_key int_result
next_key_lem min_key max_key r h =
    let (w, width, short, parts) = width_lem min_key max_key h in
    let small : r % suc w < suc w = mod-lt r (zero-lt-suc w) in
    let (whole, above, under) = offset_lem (r % suc w) w min_key max_key h small parts in
    (
      pos (r % suc w) +ℤ min_key,
      rw width (rw (int_range_lem (suc w) short) (rw whole refl)),
      above,
      under,
    )

no_width : (min_key : ℤ) → min_key -ℤ min_key ≡ pos 0
unfolding ◌-ℤ◌
no_width min_key = ground arith

-- With maxKey = minKey the remainder is by zero.
pub next_key_undefined : (min_key : ℤ) (r : ℕ) → next_key min_key min_key r ≡ undefined
unfolding next_key
next_key_undefined min_key r = rw (no_width min_key) refl

-- Is the key one of the `left` numbers from `i` on?
abbrev pub among : ℤ → ℕ → Bytes → Bool
among i zero key = false
among i (suc left) key = same (print_int i) key || among (i +ℤ pos 1) left key

initialise_keys_lem :
    (value : Bytes) (i : ℤ) (left : ℕ) (pairs : StringMap) (key : Bytes)
    → lookup key (initialise_keys value i left pairs)
      ≡ (if among i left key then some value else lookup key pairs)
unfolding initialise_keys
initialise_keys_lem value i zero pairs key = refl
initialise_keys_lem value i (suc left) pairs key =
    initialise_keys_lem value (i +ℤ pos 1) left (insert (print_int i) value pairs) key
    ∙ ap (λ (o : Option Bytes). if among (i +ℤ pos 1) left key then some value else o)
        (lookup-insert (print_int i) value key pairs)
    ∙ ground arith

initialise_keys-IsSorted :
    (value : Bytes) (i : ℤ) (left : ℕ) (pairs : StringMap)
    → IsSorted pairs
    → IsSorted (initialise_keys value i left pairs)
unfolding initialise_keys
initialise_keys-IsSorted value i zero pairs h = h
initialise_keys-IsSorted value i (suc left) pairs h =
    initialise_keys-IsSorted value (i +ℤ pos 1) left _ (insert-IsSorted (print_int i) value pairs h)

-- Is `k` one of the `left` integers from `i` on?
abbrev pub within : ℤ → ℕ → ℤ → Bool
within i left k =
    leb (pos_part i + neg_part k) (pos_part k + neg_part i)
    && ltb (pos_part k + neg_part i) (pos_part i + neg_part k + left)

same-print_int : (i k : ℤ) → same (print_int i) (print_int k) ≡ eq_ℤ i k
same-print_int i k = elim (Bool-cases (eq_ℤ i k)) [
  | inl e ↦ rw e (rw (eq_of_parts i k (ground (arith, e))) (same_refl (print_int k)))
  | inr e ↦ elim (Bool-cases (same (print_int i) (print_int k))) [
    | inl f ↦
        absurd
          (ground (arith, e, print_int_injective i k ((same_iff (print_int i) (print_int k)).0 f)))
    | inr f ↦ f ∙ sym e
  ]
]

within-suc :
    (i : ℤ) (left : ℕ) (k : ℤ) → (eq_ℤ i k || within (i +ℤ pos 1) left k) ≡ within i (suc left) k
unfolding ◌+ℤ◌
within-suc (pos a) left k = ground arith
within-suc (negsuc a) left k = ground arith

among-within : (i : ℤ) (left : ℕ) (k : ℤ) → among i left (print_int k) ≡ within i left k
among-within i zero k = ground arith
among-within i (suc left) k =
    rw (same-print_int i k) (rw (among-within (i +ℤ pos 1) left k) (within-suc i left k))

next_int :
    (min_key max_key : ℤ)
    → KeyRange min_key max_key
    → int_result (max_key +ℤ pos 1) ≡ done (max_key +ℤ pos 1)
unfolding int_result ◌+ℤ◌
next_int min_key (pos b) h = ground (arith, h.max_int)
next_int min_key (negsuc b) h = ground (arith, h.below, h.min_int)

within_range :
    (min_key max_key k : ℤ)
    → KeyRange min_key max_key
    → within min_key (key_rounds min_key max_key) k ≡ (leb_ℤ min_key k && leb_ℤ k max_key)
unfolding ◌+ℤ◌ ◌-ℤ◌
within_range min_key max_key k h = ground (arith, h.below)

-- Over a range of keys with minKey below maxKey, whose numbers stay in an int, the map of the
-- initialisation is sorted, has the value under every key from minKey to maxKey, both included, and
-- under no other integer.
pub initialisation_pairs_lem :
    (min_key max_key : ℤ) (value : Bytes)
    → KeyRange min_key max_key
    → (pairs : StringMap) × (initialisation_pairs min_key max_key value ≡ done pairs)
      × IsSorted pairs
      × ((k : ℤ)
          → lookup (print_int k) pairs
            ≡ (if leb_ℤ min_key k && leb_ℤ k max_key then some value else none))
unfolding initialisation_pairs lookup
initialisation_pairs_lem min_key max_key value h = (
  initialise_keys value min_key (key_rounds min_key max_key) [],
  rw (next_int min_key max_key h) refl,
  initialise_keys-IsSorted value min_key (key_rounds min_key max_key) [] tt,
  λ k.
      initialise_keys_lem value min_key (key_rounds min_key max_key) [] (print_int k)
      ∙ rw (among-within min_key (key_rounds min_key max_key) k)
          (rw (within_range min_key max_key k h) refl),
)
