-- ===== src/Network/Requests/Bound.antt =====
-- The loops of the connectors come to their end, whichever request is next.
use mathlib.Core.Path.{subst}
use key_value_cluster_perf.Base.{
  ◌==◌, ==_iff, ℕ, zero, suc, ◌+◌, ◌*◌, ◌<◌, ◌≤◌, Bool-cases, inl, inr, ◌⊎◌, List, [], ◌∷◌, Option,
  none, some, ◌≡◌, refl, ap, sym, arith, length,
}
use key_value_cluster_perf.Broker.{Codec, Broker}
use key_value_cluster_perf.Connector.{Connector, Entry, limit_passed, get_value, key_of}
use key_value_cluster_perf.Network.Totals.{total, total-update}
use key_value_cluster_perf.Network.Requests.{
  IsOver, mover, Runner, Shared, Step, skip, put, get, Steps, here, next, begin, has_put, has_got,
  skipped, timed, left,
}

-- The entries of the first `n` connectors.
abbrev pub all_entries : {T : Type 0} → (ℕ → List (Entry T)) → ℕ → ℕ
all_entries files n = total (λ (es : List (Entry _)). length es) files n

module _ (c : Codec) (b : Broker) {T : Type 0} (plus : T → T → T) (n : ℕ) where
  abbrev one_for : Option (Entry T) → ℕ
  one_for none = 0
  one_for (some e) = 1

  -- The requests that a connector has still to make, at most.
  abbrev cost : Runner c b plus → ℕ
  cost r = 2 * length r.entries + one_for r.waiting

  left-length : (d : Connector T) (es : List (Entry T)) → length (left c b plus d es) ≤ length es
  left-length d es = elim (Bool-cases (limit_passed d)) [
    | inl passed ↦ rw passed (omega arith)
    | inr not_passed ↦ rw not_passed (omega arith)
  ]

  abbrev costs : Shared c b plus → ℕ
  costs s = total cost s.runners n

  Step-costs : {s t : Shared c b plus} → Step c b plus n s t → costs t < costs s
  Step-costs {s} (skip i {e} {es} lt idle first _no_file) =
      let count = total-update cost s.runners i (skipped c b plus (s.runners i) es) n lt in
      let entries = ap (λ (l : List (Entry T)). length l) first in omega (arith, count, entries)
  Step-costs {s} (put i {e} {es} lt idle first _is_file) =
      let count = total-update cost s.runners i (has_put c b plus (s.runners i) e es) n lt in
      let entries = ap (λ (l : List (Entry T)). length l) first in
      let none_waits = ap one_for idle in omega (arith, count, entries, none_waits)
  Step-costs {s} (get i {e} lt waits) =
      let r = s.runners i in
      let got = get_value c b s.stored (key_of e.path) in
      let count = total-update cost s.runners i (has_got c b plus r e got.1) n lt in
      let fewer = left-length (timed c b plus r.connector e) r.entries in
      let one_waits = ap one_for waits in omega (arith, count, fewer, one_waits)

  Steps-costs : {s t : Shared c b plus} {k : ℕ} → Steps c b plus n s k t → k + costs t ≤ costs s
  Steps-costs here = omega arith
  Steps-costs (next steps step) =
      let before = Steps-costs steps in let less = Step-costs step in omega (arith, before, less)

  abbrev pub Moves : Shared c b plus → Type 0
  Moves s = (t : Shared c b plus) × Step c b plus n s t

  waiting-cases : (o : Option (Entry T)) → (o ≡ none) ⊎ ((e : Entry T) × (o ≡ some e))
  waiting-cases none = inl refl
  waiting-cases (some e) = inr (e, refl)

  entries-cases :
      (es : List (Entry T))
      → (es ≡ []) ⊎ ((e : Entry T) × (rest : List (Entry T)) × (es ≡ e ∷ rest))
  entries-cases [] = inl refl
  entries-cases (e ∷ rest) = inr (e, rest, refl)

  -- A connector has come to its end, or can go on.
  pub runner-Moves :
      (s : Shared c b plus) (i : ℕ)
      → i < n
      → IsOver c b plus (s.runners i)
        ⊎ ((t : Shared c b plus) × (step : Step c b plus n s t) × (mover c b plus n step ≡ i))
  runner-Moves s i lt = elim (waiting-cases (s.runners i).waiting) [
    | inr (e, waits) ↦ inr (_, get i lt waits, refl)
    | inl idle ↦ elim (entries-cases (s.runners i).entries) [
      | inl none_left ↦ inl (idle, none_left)
      | inr (e, rest, first) ↦ elim (Bool-cases e.regular) [
        | inl is_file ↦ inr (_, put i lt idle first is_file, refl)
        | inr no_file ↦ inr (_, skip i lt idle first no_file, refl)
      ]
    ]
  ]

  all-Moves :
      (s : Shared c b plus) (k : ℕ)
      → k ≤ n
      → ((i : ℕ) → i < k → IsOver c b plus (s.runners i)) ⊎ Moves s
  all-Moves s zero h = inl (λ i lt. absurd (omega (arith, lt)))
  all-Moves s (suc k) h = elim (runner-Moves s k (omega (arith, h))) [
    | inr (t, step, _mover) ↦ inr (t, step)
    | inl over ↦ elim (all-Moves s k (omega (arith, h))) [
      | inr moves ↦ inr moves
      | inl others ↦ inl (λ i lt. elim (Bool-cases (i == k)) [
        | inl is_k ↦
            subst (λ (j : ℕ). IsOver c b plus (s.runners j)) (sym ((==_iff i k).0 is_k)) over
        | inr other ↦ others i (ground (arith, lt, other))
      ])
    ]
  ]

  begin-costs :
      (s₀ : b.State) (connectors : ℕ → Connector T) (files : ℕ → List (Entry T)) (k : ℕ)
      → total cost (begin c b plus s₀ connectors files).runners k ≡ 2 * all_entries files k
  begin-costs s₀ connectors files zero = refl
  begin-costs s₀ connectors files (suc k) = omega (arith, begin-costs s₀ connectors files k)

  -- Whichever connector makes the next request, the steps are at most two for each entry of the
  -- connectors, and as long as one of them has not come to its end, some step is possible.
  pub stops :
      (s₀ : b.State) (connectors : ℕ → Connector T) (files : ℕ → List (Entry T)) (k : ℕ)
      (t : Shared c b plus)
      → Steps c b plus n (begin c b plus s₀ connectors files) k t
      → (k ≤ 2 * all_entries files n)
        × (((i : ℕ) → i < n → IsOver c b plus (t.runners i)) ⊎ Moves t)
  stops s₀ connectors files k t steps =
      let bound = Steps-costs steps in
      let first = begin-costs s₀ connectors files n in
      (omega (arith, bound, first), all-Moves t n (omega arith))
