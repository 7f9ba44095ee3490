-- ===== src/Network/Totals.antt =====
-- Sums over a family of processes, one of which changes.
use key_value_cluster_perf.Base.{
  ℕ, zero, suc, ◌+◌, ◌<◌, ◌≤◌, ◌==◌, ==_iff, Bool-cases, false, ◌≡◌, refl, ap, arith, inl, inr,
}
use key_value_cluster_perf.Network.{update}

module _ {ℓ} {A : Type ℓ} (amount : A → ℕ) where
  abbrev pub total : (ℕ → A) → ℕ → ℕ
  total family zero = 0
  total family (suc k) = amount (family k) + total family k

  total-outside :
      (family : ℕ → A) (i : ℕ) (a : A) (k : ℕ)
      → k ≤ i
      → total (update family i a) k ≡ total family k
  total-outside family i a zero h = refl
  total-outside family i a (suc k) h =
      let e : (i == k) ≡ false = ground arith in
      let before = total-outside family i a k (omega (arith, h)) in rw (e, before) refl

  pub total-update :
      (family : ℕ → A) (i : ℕ) (a : A) (k : ℕ)
      → i < k
      → total (update family i a) k + amount (family i) ≡ total family k + amount a
  total-update family i a zero h = omega (arith, h)
  total-update family i a (suc k) h = elim (Bool-cases (i == k)) [
    | inl e ↦
        let same_i : i ≡ k = (==_iff i k).0 e in
        let before = total-outside family i a k (omega (arith, same_i)) in
        let there : amount (family i) ≡ amount (family k) =
          ap (λ (m : ℕ). amount (family m)) same_i in
        rw (e, before) (omega (arith, there))
    | inr e ↦
        let lt : i < k = ground (arith, h, e) in
        let before = total-update family i a k lt in rw e (omega (arith, before))
  ]

  -- Nothing waits where every queue is empty.
  pub total_none :
      (family : ℕ → A) (k : ℕ) → ((i : ℕ) → i < k → amount (family i) ≡ 0) → total family k ≡ 0
  total_none family zero h = refl
  total_none family (suc k) h =
      let here = h k (omega arith) in
      let before = total_none family k (λ i lt. h i (omega (arith, lt))) in
      omega (arith, here, before)
