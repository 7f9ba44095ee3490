-- ===== src/StdMap/Laws.antt =====
-- Insertion keeps the order of the keys, and lookup reads the last value that was inserted.
use key_value_cluster_perf.Base.{
  Bytes, true, [], ◌∷◌, some, same, less, if◌then◌else◌, ◌≡◌, refl, arith, Bool-cases, inl, inr,
  same_iff, less_irrefl, less_trans, less_total,
}
use key_value_cluster_perf.StdMap.{StringMap, lookup, insert, Before, IsSorted}

Before-trans : (a b : Bytes) (m : StringMap) → less a b ≡ true → Before b m → Before a m
Before-trans a b [] h k = tt
Before-trans a b (e ∷ m) h k = (less_trans a b e.0 h k.0, Before-trans a b m h k.1)

Before-insert :
    (a key value : Bytes) (m : StringMap)
    → less a key ≡ true
    → Before a m
    → Before a (insert key value m)
unfolding insert
Before-insert a key value [] h b = (h, tt)
Before-insert a key value ((k, v) ∷ m) h b = ground (arith, Before-insert a key value m h b.1)

-- `m[key] = value` keeps the keys of the map in strictly increasing order.
pub insert-IsSorted :
    (key value : Bytes) (m : StringMap) → IsSorted m → IsSorted (insert key value m)
unfolding insert
insert-IsSorted key value [] s = (tt, tt)
insert-IsSorted key value ((k, v) ∷ m) s = elim (Bool-cases (less key k)) [
  | inl lt ↦ rw lt ((lt, Before-trans key k m lt s.0), s)
  | inr ge ↦ rw ge (elim (Bool-cases (less k key)) [
    | inl gt ↦ rw gt (Before-insert k key value m gt s.0, insert-IsSorted key value m s.1)
    | inr le ↦ rw le s
  ])
]

-- After `m[key] = value` the map holds `value` under `key`, and under any other key what it held.
pub lookup-insert :
    (key value j : Bytes) (m : StringMap)
    → lookup j (insert key value m) ≡ (if same key j then some value else lookup j m)
unfolding lookup insert
lookup-insert key value j [] = refl
lookup-insert key value j ((k, v) ∷ m) = ground (
  arith,
  lookup-insert key value j m,
  less_total key k,
  same_iff key j,
  same_iff k j,
  same_iff key k,
  less_irrefl k,
)
