-- ===== src/Workload/Values.antt =====
-- The value that src/ConstantValueDistribution.cc gives.
use key_value_cluster_perf.Base.{
  ℕ, zero, suc, Bytes, [], ◌∷◌, ◌≡◌, refl, ap, arith, length, set, pos, negsuc,
}
use key_value_cluster_perf.Buffer.{c_string}
use key_value_cluster_perf.Mq.{done, exited, undefined}
use key_value_cluster_perf.Workload.{fill, constant_value}

abbrev pub repeated : ℕ → ℕ → Bytes
repeated b zero = []
repeated b (suc n) = b ∷ repeated b n

c_string-fill :
    (n : ℕ) (cells : Bytes)
    → length cells ≡ suc n
    → c_string (set (fill b'X' n cells) n 0) ≡ repeated b'X' n
unfolding c_string
c_string-fill n [] h = absurd (omega (arith, h))
c_string-fill zero (c ∷ cells) h = refl
c_string-fill (suc n) (c ∷ cells) h = ap (◌∷◌ b'X') (c_string-fill n cells (omega (arith, h)))

-- For a size of n + 1 the value is n times the byte 'X', one less than the size, whatever the array
-- held; for a size of 0 the constructor writes outside its array, and a negative size ends the
-- process.
pub constant_value_lem :
    (n : ℕ) (cells : Bytes)
    → length cells ≡ suc n
    → (constant_value (pos (suc n)) cells ≡ done (repeated b'X' n))
      × (constant_value (pos 0) [] ≡ undefined)
      × (constant_value (negsuc n) [] ≡ exited 134)
unfolding constant_value
constant_value_lem n cells h = (ap done (c_string-fill n cells h), refl, refl)
