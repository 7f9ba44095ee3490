-- ===== src/Configuration/Tests.antt =====
-- Concrete texts, maps and files, for the theorems with assumptions.
use key_value_cluster_perf.Base.{
  Bytes, [], ◌∷◌, ◌++◌, none, some, ◌≡◌, ◌≢◌, refl, codes, All, lacks→Lacks, less,
}
use key_value_cluster_perf.StdMap.{StringMap, IsSorted, insert, lookup, at}
use key_value_cluster_perf.Configuration.{read_string, write_string, Files, is_comment}
use key_value_cluster_perf.Configuration.Append.{read_string-append}
use key_value_cluster_perf.Configuration.Clean.{IsClean, literal-IsClean}
use key_value_cluster_perf.Configuration.Render.{entry_line}
use key_value_cluster_perf.Configuration.RoundTrip.{
  read_string-write_string, read_string-write_string-read_string,
}

abbrev text : Bytes
text = codes "# comment\nsize=12\n\nno entry\nhostname=a=b\nsize=30\n"

abbrev entries : StringMap
entries = (codes "hostname", codes "a=b") ∷ (codes "size", codes "30") ∷ []

read_string-text : read_string text ≡ entries
unfolding read_string is_comment insert less
read_string-text = refl

write_string-entries : write_string entries ≡ some (codes "hostname=a=b\nsize=30")
unfolding write_string at lookup
write_string-entries = refl

write_string-empty : write_string [] ≡ none
unfolding write_string
write_string-empty = refl

entries-IsSorted : IsSorted entries
unfolding less
entries-IsSorted = ((refl, tt), (tt, tt))

entries-IsClean : All IsClean entries
unfolding is_comment
entries-IsClean = (
  literal-IsClean _ _ refl refl refl (lacks→Lacks b'\n' (codes "a=b") refl),
  (literal-IsClean _ _ refl refl refl (lacks→Lacks b'\n' (codes "30") refl), tt),
)

entries-ne-nil : entries ≢ []
entries-ne-nil e = cc

read_string-write_string_example :
    (str : Bytes) × (write_string entries ≡ some str) × (read_string str ≡ entries)
read_string-write_string_example =
    read_string-write_string entries entries-ne-nil entries-IsSorted entries-IsClean

text-ne-nil : read_string text ≢ []
text-ne-nil e = cc (read_string-text, e)

read_string-write_string-read_string_example :
    (str : Bytes) × (write_string (read_string text) ≡ some str)
    × (read_string str ≡ read_string text)
read_string-write_string-read_string_example = read_string-write_string-read_string text text-ne-nil

read_string-append_example :
    read_string (text ++ (b'\n' ∷ entry_line (codes "size", codes "7")))
    ≡ insert (codes "size") (codes "7") (read_string text)
unfolding is_comment
read_string-append_example =
    read_string-append text (codes "size") (codes "7")
      (literal-IsClean _ _ refl refl refl (lacks→Lacks b'\n' (codes "7") refl))

abbrev no_files : Files
no_files name = none
