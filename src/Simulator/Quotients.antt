-- ===== src/Simulator/Quotients.antt =====
-- When the latencies of `simulate` can be divided by its runs.
use key_value_cluster_perf.Base.{
  zero, suc, ◌-◌, ◌^◌, ◌==◌, Bool, true, false, ℤ, pos, negsuc, ◌≡◌, ◌≢◌, refl, arith, inl, inr,
  Bool-cases,
}
use key_value_cluster_perf.Mq.{done, undefined}
use key_value_cluster_perf.Simulator.Object.{Latency, quotient, by_runs}

-- The least long.
abbrev least : ℤ
least = negsuc (2 ^ 63 - 1)

-- The times that the clock gives are not the least long, whose quotient by -1 is none.
abbrev pub IsShort : Latency → Type 0
IsShort t = (t.microseconds ≢ least) × (t.milliseconds ≢ least) × (t.seconds ≢ least)

-- The runs are not 0.
abbrev pub is_some_runs : ℤ → Bool
is_some_runs (pos zero) = false
is_some_runs runs = true

quotient_done :
    (a runs : ℤ) → a ≢ least → is_some_runs runs ≡ true → (q : ℤ) × (quotient a runs ≡ done q)
unfolding quotient
quotient_done a (pos zero) h e = cc
quotient_done (pos a) (pos (suc b)) h e = (_, refl)
quotient_done (negsuc a) (pos (suc b)) h e = (_, refl)
quotient_done (pos a) (negsuc b) h e = (_, refl)
quotient_done (negsuc a) (negsuc zero) h e = elim (Bool-cases (a == 2 ^ 63 - 1)) [
  | inl is_least ↦ absurd (h (ground arith))
  | inr other ↦ (pos (suc a), rw other refl)
]
quotient_done (negsuc a) (negsuc (suc b)) h e = (_, refl)

pub by_runs_done :
    (t : Latency) (runs : ℤ)
    → IsShort t
    → is_some_runs runs ≡ true
    → (u : Latency) × (by_runs t runs ≡ done u)
unfolding by_runs
by_runs_done t runs (h, k, l) e =
    let (q, first) = quotient_done t.microseconds runs h e in
    let (q', second) = quotient_done t.milliseconds runs k e in
    let (q'', third) = quotient_done t.seconds runs l e in
    (
      record { microseconds = q; milliseconds = q'; seconds = q'' },
      rw first (rw second (rw third refl)),
    )

pub by_runs_undefined :
    (t : Latency) (runs : ℤ) → is_some_runs runs ≡ false → by_runs t runs ≡ undefined
unfolding by_runs quotient
by_runs_undefined t (pos zero) e = refl
by_runs_undefined t (pos (suc n)) e = cc
by_runs_undefined t (negsuc n) e = cc
