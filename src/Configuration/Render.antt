-- ===== src/Configuration/Render.antt =====
-- What `writeString` writes of a sorted map: each key with its own value.
use mathlib.Core.Path.{subst}
use key_value_cluster_perf.Base.{
  Bytes, true, [], ◌∷◌, ◌++◌, Option, none, some, less, ◌≡◌, refl, sym, ◌∙◌, arith, same_iff,
  same_refl, less_irrefl, append_assoc,
}
use key_value_cluster_perf.StdMap.{StringMap, at, IsSorted, Before}
use key_value_cluster_perf.Configuration.{write_entry, write_rest, write_string}

abbrev pub entry_line : Bytes × Bytes → Bytes
entry_line (k, v) = k ++ (b'=' ∷ v)

abbrev pub render_rest : StringMap → Bytes
render_rest [] = []
render_rest (e ∷ m) = b'\n' ∷ (entry_line e ++ render_rest m)

abbrev pub render : StringMap → Option Bytes
render [] = none
render (e ∷ m) = some (entry_line e ++ render_rest m)

pub Before-middle :
    (key k v : Bytes) (front back : StringMap)
    → Before key (front ++ ((k, v) ∷ back))
    → less key k ≡ true
Before-middle key k v [] back h = h.0
Before-middle key k v (e ∷ front) back h = Before-middle key k v front back h.1

-- In a sorted map the entry that an iterator points at is the one that its key finds.
pub at_middle :
    (front back : StringMap) (k v : Bytes)
    → IsSorted (front ++ ((k, v) ∷ back))
    → at (front ++ ((k, v) ∷ back)) k ≡ v
unfolding at
at_middle [] back k v s = rw same_refl refl
at_middle ((j, w) ∷ front) back k v s = ground (
  arith,
  at_middle front back k v s.1,
  Before-middle j k v front back s.0,
  same_iff j k,
  less_irrefl k,
)

at_pointed :
    (whole front back : StringMap) (k v : Bytes)
    → whole ≡ front ++ ((k, v) ∷ back)
    → IsSorted whole
    → at whole k ≡ v
at_pointed whole front back k v e s = rw e (at_middle front back k v (subst IsSorted e s))

write_rest-render_rest :
    (whole front m : StringMap)
    → whole ≡ front ++ m
    → IsSorted whole
    → write_rest whole m ≡ render_rest m
unfolding write_rest
write_rest-render_rest whole front [] e s = refl
write_rest-render_rest whole front ((k, v) ∷ m) e s = rw (at_pointed whole front m k v e s) (
    rw
      (write_rest-render_rest whole (front ++ ((k, v) ∷ [])) m
        (e ∙ sym (append_assoc front ((k, v) ∷ []) m)) s)
      refl)

pub write_string-render : (m : StringMap) → IsSorted m → write_string m ≡ render m
unfolding write_string write_entry
write_string-render [] s = refl
write_string-render ((k, v) ∷ m) s =
    rw (at_pointed ((k, v) ∷ m) [] m k v refl s)
      (rw (write_rest-render_rest ((k, v) ∷ m) ((k, v) ∷ []) m refl s) refl)
