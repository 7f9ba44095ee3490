-- ===== src/Configuration/Append.antt =====
-- Texts put together: what is read of a text followed by one more line, and of a written file.
use key_value_cluster_perf.Base.{
  Bytes, false, List, [], ◌∷◌, ◌++◌, some, ◌==◌, if◌then◌else◌, ◌≡◌, ℕ, refl, ap, ◌∙◌, ◌≢◌, ◌⊎◌,
  All, arith, Bool-cases, inl, inr, same, same_refl,
}
use key_value_cluster_perf.StdMap.{StringMap, insert, IsSorted}
use key_value_cluster_perf.Configuration.{
  lines, push, read_line, read_lines, read_string, Files, read_file, write_file, store,
}
use key_value_cluster_perf.Configuration.Lines.{lines_last}
use key_value_cluster_perf.Configuration.Render.{entry_line}
use key_value_cluster_perf.Configuration.Clean.{
  IsClean, read_line-entry_line, entry_line-Lacks, entry_line-ne-nil,
}
use key_value_cluster_perf.Configuration.RoundTrip.{read_string-write_string}

push-append : (c : ℕ) (ls ms : List Bytes) → ls ≢ [] → push c (ls ++ ms) ≡ push c ls ++ ms
unfolding push
push-append c [] ms h = absurd (h refl)
push-append c (l ∷ ls) ms h = refl

push-ne-nil : (c : ℕ) (ls : List Bytes) → push c ls ≢ []
unfolding push
push-ne-nil c [] e = cc
push-ne-nil c (l ∷ ls) e = cc

lines_ended-ne-nil : (s : Bytes) → lines (s ++ (b'\n' ∷ [])) ≢ []
unfolding lines
lines_ended-ne-nil [] e = cc
lines_ended-ne-nil (c ∷ s) e = ground (arith, push-ne-nil c (lines (s ++ (b'\n' ∷ []))))

-- A newline in the middle splits the lines of a text into those before it and those behind it.
lines-append : (s t : Bytes) → lines (s ++ (b'\n' ∷ t)) ≡ lines (s ++ (b'\n' ∷ [])) ++ lines t
unfolding lines
lines-append [] t = refl
lines-append (c ∷ s) t = elim (Bool-cases (c == b'\n')) [
  | inl e ↦ rw e (rw (lines-append s t) refl)
  | inr e ↦ rw e (
      rw (lines-append s t)
        (push-append c (lines (s ++ (b'\n' ∷ []))) (lines t) (lines_ended-ne-nil s)))
]

-- A newline at the end adds an empty line, or none at all.
push_ended :
    (c : ℕ) (ended plain : List Bytes)
    → ended ≢ []
    → (ended ≡ plain) ⊎ (ended ≡ plain ++ ([] ∷ []))
    → (push c ended ≡ push c plain) ⊎ (push c ended ≡ push c plain ++ ([] ∷ []))
unfolding push
push_ended c ended plain ne (inl e) = inl (ap (push c) e)
push_ended c ended [] ne (inr e) = inl (rw e refl)
push_ended c ended (l ∷ ls) ne (inr e) = inr (rw e refl)

lines_ended :
    (s : Bytes)
    → (lines (s ++ (b'\n' ∷ [])) ≡ lines s) ⊎ (lines (s ++ (b'\n' ∷ [])) ≡ lines s ++ ([] ∷ []))
unfolding lines
lines_ended [] = inr refl
lines_ended (c ∷ s) = elim (Bool-cases (c == b'\n')) [
  | inl e ↦ rw e (cons_empty (lines_ended s))
  | inr e ↦ rw e (push_ended c _ (lines s) (lines_ended-ne-nil s) (lines_ended s))
]
  where
    cons_empty :
        {ls ms : List Bytes}
        → (ls ≡ ms) ⊎ (ls ≡ ms ++ ([] ∷ []))
        → ([] ∷ ls ≡ [] ∷ ms) ⊎ ([] ∷ ls ≡ [] ∷ (ms ++ ([] ∷ [])))
    cons_empty (inl e) = inl (ap (◌∷◌ []) e)
    cons_empty (inr e) = inr (ap (◌∷◌ []) e)

read_lines-append :
    (acc : StringMap) (ls ms : List Bytes)
    → read_lines acc (ls ++ ms) ≡ read_lines (read_lines acc ls) ms
unfolding read_lines
read_lines-append acc [] ms = refl
read_lines-append acc (l ∷ ls) ms = read_lines-append (read_line acc l) ls ms

read_line_empty : (acc : StringMap) → read_line acc [] ≡ acc
unfolding read_line
read_line_empty acc = refl

read_lines_ended :
    (acc : StringMap) (s : Bytes)
    → read_lines acc (lines (s ++ (b'\n' ∷ []))) ≡ read_lines acc (lines s)
read_lines_ended acc s = elim (lines_ended s) [
  | inl e ↦ rw e refl
  | inr e ↦
      rw (e, read_lines-append acc (lines s) ([] ∷ []))
        (unfold read_lines in read_line_empty (read_lines acc (lines s)))
]

-- A line 'key=value' behind any text, whose entry fits on a line, sets that key, over whatever the
-- text says of it, and changes nothing else.
pub read_string-append :
    (str k v : Bytes)
    → IsClean (k, v)
    → read_string (str ++ (b'\n' ∷ entry_line (k, v))) ≡ insert k v (read_string str)
read_string-append str k v c =
    unfold read_string in
    ap (read_lines []) (lines-append str (entry_line (k, v)))
    ∙ read_lines-append [] (lines (str ++ (b'\n' ∷ []))) (lines (entry_line (k, v)))
    ∙ rw (read_lines_ended [] str) (
        rw (lines_last _ (entry_line-Lacks k v c) (entry_line-ne-nil k v))
          (read_line-entry_line (read_lines [] (lines str)) k v c))

-- A map that is not empty, whose keys are in order and whose entries each fit on a line, is written
-- to a file, which is read back as that map, and the other files are untouched.
pub read_file-write_file :
    (files : Files) (file_name : Bytes) (m : StringMap)
    → m ≢ []
    → IsSorted m
    → All IsClean m
    → (files' : Files) × (write_file files file_name m ≡ some files')
      × (read_file files' file_name ≡ m)
      × ((other : Bytes) → same file_name other ≡ false → files' other ≡ files other)
unfolding write_file read_file
read_file-write_file files file_name m ne s c =
    let (text, written, read) = read_string-write_string m ne s c in
    (
      (λ name. if same file_name name then some text else files name),
      ap (store files file_name) written,
      rw same_refl read,
      λ other differs. rw differs refl,
    )
