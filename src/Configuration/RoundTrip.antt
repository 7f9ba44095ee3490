-- ===== src/Configuration/RoundTrip.antt =====
-- `readString` and `writeString` against each other.
use mathlib.Core.List.{map}
use mathlib.Core.Path.{subst}
use key_value_cluster_perf.Base.{
  Bytes, List, [], ◌∷◌, ◌++◌, Option, none, some, ◌≡◌, refl, sym, ◌∙◌, ◌≢◌, All, arith, Bool-cases,
  inl, inr, append_assoc, append-nil, less_irrefl, less_trans,
}
use key_value_cluster_perf.StdMap.{StringMap, insert, IsSorted}
use key_value_cluster_perf.StdMap.Laws.{insert-IsSorted}
use key_value_cluster_perf.Configuration.{
  lines, is_comment, split_line, add_entry, read_line, read_lines, read_string, write_string,
}
use key_value_cluster_perf.Configuration.Render.{
  entry_line, render_rest, write_string-render, Before-middle,
}
use key_value_cluster_perf.Configuration.Clean.{
  IsClean, read_line-entry_line, lines-render_rest, read_string-IsClean,
}

insert_last :
    (front back : StringMap) (k v : Bytes)
    → IsSorted (front ++ ((k, v) ∷ back))
    → insert k v front ≡ front ++ ((k, v) ∷ [])
unfolding insert
insert_last [] back k v s = refl
insert_last ((j, w) ∷ front) back k v s = ground (
  arith,
  insert_last front back k v s.1,
  Before-middle j k v front back s.0,
  less_irrefl k,
  less_trans k j k,
)

read_lines-entry_line :
    (front m : StringMap)
    → IsSorted (front ++ m)
    → All IsClean m
    → read_lines front (map entry_line m) ≡ front ++ m
unfolding read_lines
read_lines-entry_line front [] s c = sym (append-nil front)
read_lines-entry_line front ((k, v) ∷ m) s c =
    let regroup = append_assoc front ((k, v) ∷ []) m in
    rw (read_line-entry_line front k v c.0, read_lines)
      (rw (insert_last front m k v s) (
        read_lines-entry_line (front ++ ((k, v) ∷ [])) m (subst IsSorted (sym regroup) s) c.1
        ∙ regroup))

-- A map whose keys are in order, which is not empty, and whose entries each fit on a line is
-- written to a text, and reading that text gives the map back.
pub read_string-write_string :
    (m : StringMap)
    → m ≢ []
    → IsSorted m
    → All IsClean m
    → (text : Bytes) × (write_string m ≡ some text) × (read_string text ≡ m)
unfolding read_string
read_string-write_string [] ne s c = absurd (ne refl)
read_string-write_string ((k, v) ∷ m) ne s c = (
  entry_line (k, v) ++ render_rest m,
  write_string-render ((k, v) ∷ m) s,
  rw (lines-render_rest k v m c.0 c.1) (read_lines-entry_line [] ((k, v) ∷ m) s c),
)

add_entry-IsSorted :
    (acc : StringMap) (o : Option (Bytes × Bytes)) → IsSorted acc → IsSorted (add_entry acc o)
unfolding add_entry
add_entry-IsSorted acc none s = s
add_entry-IsSorted acc (some (k, v)) s = insert-IsSorted k v acc s

read_line-IsSorted : (acc : StringMap) (l : Bytes) → IsSorted acc → IsSorted (read_line acc l)
unfolding read_line
read_line-IsSorted acc l s = elim (Bool-cases (is_comment l)) [
  | inl comment ↦ rw comment s
  | inr entry ↦ rw entry (add_entry-IsSorted acc (split_line l) s)
]

read_lines-IsSorted :
    (acc : StringMap) (ls : List Bytes) → IsSorted acc → IsSorted (read_lines acc ls)
unfolding read_lines
read_lines-IsSorted acc [] s = s
read_lines-IsSorted acc (l ∷ ls) s =
    read_lines-IsSorted (read_line acc l) ls (read_line-IsSorted acc l s)

pub read_string-IsSorted : (str : Bytes) → IsSorted (read_string str)
unfolding read_string
read_string-IsSorted str = read_lines-IsSorted [] (lines str) tt

-- Any text that holds an entry, comments and lines with no '=' included, is normalised: what was
-- read of it can be written, and reading that gives the same map.
pub read_string-write_string-read_string :
    (str : Bytes)
    → read_string str ≢ []
    → (text : Bytes) × (write_string (read_string str) ≡ some text)
      × (read_string text ≡ read_string str)
read_string-write_string-read_string str ne =
    read_string-write_string (read_string str) ne (read_string-IsSorted str)
      (read_string-IsClean str)
