-- ===== src/Controller/Merge.antt =====
-- The file of the merged results.
use mathlib.Core.List.{map}
use key_value_cluster_perf.Base.{
  Bytes, Lacks, lacks→Lacks, List, [], ◌∷◌, ◌++◌, codes, ◌≡◌, ◌≢◌, refl, ap, ◌∙◌, All, All-append,
  arith, append_assoc, ℤ, negsuc,
}
use key_value_cluster_perf.Configuration.{lines}
use key_value_cluster_perf.Configuration.Lines.{lines-line}
use key_value_cluster_perf.Decimal.{print_int}
use key_value_cluster_perf.StdMap.{StringMap, at}
use key_value_cluster_perf.Controller.{csv_line, csv_lines, merge_results, results_file}

-- The four columns of one worker.
abbrev pub columns : StringMap → Bytes
columns r =
    at r (codes "hostname")
    ++ (b','
        ∷ (at r (codes "objects")
            ++ (b',' ∷ (at r (codes "size") ++ (b',' ∷ at r (codes "duration"))))))

-- None of the values that are written holds a newline.
pub record FitsLine (r : StringMap) : Type 0 where
  pub hostname : Lacks b'\n' (at r (codes "hostname"))
  pub objects : Lacks b'\n' (at r (codes "objects"))
  pub size : Lacks b'\n' (at r (codes "size"))
  pub duration : Lacks b'\n' (at r (codes "duration"))

csv_line-columns : (r : StringMap) → csv_line r ≡ columns r ++ (b'\n' ∷ [])
unfolding csv_line
csv_line-columns r = simp append_assoc

columns-Lacks : (r : StringMap) → FitsLine r → Lacks b'\n' (columns r)
columns-Lacks r h = All-append _ (at r (codes "hostname")) _ h.hostname (
  refl,
  All-append _ (at r (codes "objects")) _ h.objects
      (refl, All-append _ (at r (codes "size")) _ h.size (refl, h.duration)),
)

lines-csv_lines : (rs : List StringMap) → All FitsLine rs → lines (csv_lines rs) ≡ map columns rs
unfolding csv_lines
lines-csv_lines [] h = unfold lines in refl
lines-csv_lines (r ∷ rs) h = rw (csv_line-columns r) (
    rw (append_assoc (columns r) (b'\n' ∷ []) (csv_lines rs)) (
      rw (lines-line (columns r) (csv_lines rs) (columns-Lacks r h.0))
        (rw (lines-csv_lines rs h.1) refl)))

-- If no value holds a newline, the file has the line of the header and one line for each worker, in
-- their order, with the host's name, the objects, the size and the duration.
pub lines-merge_results :
    (rs : List StringMap)
    → All FitsLine rs
    → lines (merge_results rs)
      ≡ codes "Hostname, Loaded objects, Total data size, Time duration" ∷ map columns rs
unfolding merge_results
lines-merge_results rs h =
    lines-line (codes "Hostname, Loaded objects, Total data size, Time duration") (csv_lines rs)
      (lacks→Lacks b'\n' (codes "Hostname, Loaded objects, Total data size, Time duration") refl)
    ∙ ap (◌∷◌ (codes "Hostname, Loaded objects, Total data size, Time duration"))
        (lines-csv_lines rs h)

-- Runs that are configured with different iterations, none of them -1, write to one and the same
-- file if the controller's own member is the same.
pub results_file_ignores_iteration :
    (i j member : ℤ)
    → i ≢ negsuc 0
    → j ≢ negsuc 0
    → (results_file i member ≡ results_file j member)
      × (results_file i member ≡ codes "results" ++ (print_int member ++ codes ".csv"))
unfolding results_file
results_file_ignores_iteration i j member hi hj = (ground arith, ground arith)
