-- ===== src/Decimal.antt =====
-- `stringstream << n` for the integers that the program prints: port numbers, keys and counters.
use mathlib.Core.Path.{subst}
use key_value_cluster_perf.Base.{
  ℕ, zero, suc, ◌+◌, ◌-◌, ◌*◌, ◌/◌, ◌%◌, ◌<◌, ◌≤◌, Bytes, Lacks, [], ◌∷◌, ◌++◌, ltb, if◌then◌else◌,
  ◌≡◌, ◌≢◌, refl, ap, sym, ◌∙◌, arith, All, All-append, Bool-cases, inl, inr, ℤ, pos, negsuc,
  ltb→lt, ltb→le,
}

-- The digits of `n`, with fuel above `n`.
digits_onto : ℕ → ℕ → Bytes
digits_onto zero n = []
digits_onto (suc fuel) n =
    let more = digits_onto fuel (n / 10) ++ ((48 + n % 10) ∷ []) in
    if ltb n 10 then (48 + n) ∷ [] else more

unfoldable pub print_nat : ℕ → Bytes
unfolding digits_onto
print_nat n = digits_onto (suc n) n

unfoldable pub print_int : ℤ → Bytes
print_int (pos n) = print_nat n
print_int (negsuc n) = b'-' ∷ print_nat (suc n)

-- Reading decimal digits, the inverse of printing.
value_from : ℕ → Bytes → ℕ
value_from acc [] = acc
value_from acc (c ∷ cs) = value_from (acc * 10 + (c - 48)) cs

value_from-append :
    (acc : ℕ) (xs : Bytes) (c : ℕ)
    → value_from acc (xs ++ (c ∷ [])) ≡ value_from acc xs * 10 + (c - 48)
unfolding value_from
value_from-append acc [] c = refl
value_from-append acc (x ∷ xs) c = value_from-append (acc * 10 + (x - 48)) xs c

value_from-digits_onto : (fuel n : ℕ) → n < fuel → value_from 0 (digits_onto fuel n) ≡ n
unfolding digits_onto
value_from-digits_onto zero n h = absurd (omega arith)
value_from-digits_onto (suc fuel) n h = elim (Bool-cases (ltb n 10)) [
  | inl small ↦ rw small (unfold value_from in omega arith)
  | inr large ↦ rw large (
      rw value_from-append (
        omega (
          arith,
          ltb→le n 10 large,
          value_from-digits_onto fuel (n / 10) (omega (arith, ltb→le n 10 large)),
        )))
]

IsDigit : ℕ → Type 0
IsDigit c = (48 ≤ c) × (c ≤ 57)

digits_onto-IsDigit : (fuel n : ℕ) → All IsDigit (digits_onto fuel n)
unfolding digits_onto IsDigit
digits_onto-IsDigit zero n = tt
digits_onto-IsDigit (suc fuel) n = elim (Bool-cases (ltb n 10)) [
  | inl small ↦ rw small (omega (arith, ltb→lt n 10 small))
  | inr large ↦
      rw large (
        All-append _ (digits_onto fuel (n / 10)) _ (digits_onto-IsDigit fuel (n / 10))
          (omega arith))
]

Lacks-IsDigit : (b : ℕ) (s : Bytes) → b < 48 → All IsDigit s → Lacks b s
unfolding IsDigit
Lacks-IsDigit b [] h d = tt
Lacks-IsDigit b (c ∷ s) h d = (ground arith, Lacks-IsDigit b s h d.1)

-- The digits of a number hold no byte below '0': no newline, no '=', no sign and no NUL.
pub print_nat-Lacks : (b n : ℕ) → b < 48 → Lacks b (print_nat n)
print_nat-Lacks b n h = unfold print_nat in Lacks-IsDigit b _ h (digits_onto-IsDigit (suc n) n)

value_from-print_nat : (n : ℕ) → value_from 0 (print_nat n) ≡ n
unfolding print_nat
value_from-print_nat n = value_from-digits_onto (suc n) n (omega arith)

print_nat_injective : (m n : ℕ) → print_nat m ≡ print_nat n → m ≡ n
print_nat_injective m n h =
    sym (value_from-print_nat m) ∙ ap (value_from 0) h ∙ value_from-print_nat n

print_nat-ne-minus : (n : ℕ) (s : Bytes) → print_nat n ≢ b'-' ∷ s
print_nat-ne-minus n s e =
    let h : Lacks b'-' (b'-' ∷ s) = subst (Lacks b'-') e (print_nat-Lacks b'-' n (omega arith)) in
    cc (h.0)

-- Two integers that are printed alike are equal.
pub print_int_injective : (m n : ℤ) → print_int m ≡ print_int n → m ≡ n
unfolding print_int
print_int_injective (pos m) (pos n) h = ap pos (print_nat_injective m n h)
print_int_injective (pos m) (negsuc n) h = absurd (print_nat-ne-minus m _ h)
print_int_injective (negsuc m) (pos n) h = absurd (print_nat-ne-minus n _ (sym h))
print_int_injective (negsuc m) (negsuc n) h =
    ap negsuc (omega (arith, print_nat_injective (suc m) (suc n) (ap tail h)))
  where
    tail : Bytes → Bytes
    tail [] = []
    tail (c ∷ cs) = cs
