-- ===== src/Configuration/Clean.antt =====
-- The entries that a line of the format can express, and what `readString` does with such a line.
use mathlib.Core.List.{map}
use mathlib.Core.Path.{subst}
use key_value_cluster_perf.Base.{
  true, ◌==◌, lacks, lacks→Lacks, ℕ, Lacks, Bytes, false, List, [], ◌∷◌, ◌++◌, Option, none, some,
  ◌≡◌, refl, less, sym, ap, ◌∙◌, ◌≢◌, All, All-append, Bool-cases, inl, inr, append-nil,
}
use key_value_cluster_perf.StdMap.{StringMap, insert}
use key_value_cluster_perf.Configuration.{
  lines, is_comment, split_line, add_entry, read_line, read_lines, read_string,
}
use key_value_cluster_perf.Configuration.Lines.{
  Splits, lines-line, lines_last, lines-Lacks, split_line-entry, split_line-Splits, Lacks-prefix,
  Lacks-suffix,
}
use key_value_cluster_perf.Configuration.Render.{entry_line, render_rest}

-- The key holds no '=' and does not begin with '#', and neither text holds a newline.
pub record IsClean (e : Bytes × Bytes) : Type 0 where
  pub key_line : Lacks b'\n' e.0
  pub key_equals : Lacks b'=' e.0
  pub key_comment : is_comment e.0 ≡ false
  pub value_line : Lacks b'\n' e.1

-- An entry under a key that is written out.
pub literal-IsClean :
    (k v : Bytes)
    → lacks b'\n' k ≡ true
    → lacks b'=' k ≡ true
    → is_comment k ≡ false
    → Lacks b'\n' v
    → IsClean (k, v)
literal-IsClean k v l e c h = record {
  key_line = lacks→Lacks b'\n' k l;
  key_equals = lacks→Lacks b'=' k e;
  key_comment = c;
  value_line = h;
}

is_comment-entry_line : (k v : Bytes) → is_comment (k ++ (b'=' ∷ v)) ≡ is_comment k
unfolding is_comment
is_comment-entry_line [] v = refl
is_comment-entry_line (c ∷ k) v = refl

pub read_line-entry_line :
    (acc : StringMap) (k v : Bytes)
    → IsClean (k, v)
    → read_line acc (entry_line (k, v)) ≡ insert k v acc
unfolding read_line
read_line-entry_line acc k v c =
    rw (is_comment-entry_line k v, c.key_comment, split_line-entry k v c.key_equals) refl

pub entry_line-Lacks : (k v : Bytes) → IsClean (k, v) → Lacks b'\n' (entry_line (k, v))
entry_line-Lacks k v c = All-append _ k (b'=' ∷ v) c.key_line (refl, c.value_line)

pub entry_line-ne-nil : (k v : Bytes) → k ++ (b'=' ∷ v) ≢ []
entry_line-ne-nil [] v e = cc
entry_line-ne-nil (c ∷ k) v e = cc

-- The lines of what `writeString` writes are its entries.
pub lines-render_rest :
    (k v : Bytes) (m : StringMap)
    → IsClean (k, v)
    → All IsClean m
    → lines (entry_line (k, v) ++ render_rest m) ≡ map entry_line ((k, v) ∷ m)
lines-render_rest k v [] c h =
    rw append-nil (lines_last _ (entry_line-Lacks k v c) (entry_line-ne-nil k v))
lines-render_rest k v ((j, w) ∷ m) c h =
    rw (lines-line _ (entry_line (j, w) ++ render_rest m) (entry_line-Lacks k v c))
      (rw (lines-render_rest j w m h.0 h.1) refl)

insert-All-IsClean :
    (k v : Bytes) (m : StringMap) → IsClean (k, v) → All IsClean m → All IsClean (insert k v m)
unfolding insert
insert-All-IsClean k v [] c h = (c, tt)
insert-All-IsClean k v ((j, w) ∷ m) c h = elim (Bool-cases (less k j)) [
  | inl before ↦ rw before (c, h)
  | inr after ↦ rw after (elim (Bool-cases (less j k)) [
    | inl behind ↦ rw behind (h.0, insert-All-IsClean k v m c h.1)
    | inr equal ↦ rw equal (
      record {
        key_line = h.0.key_line;
        key_equals = h.0.key_equals;
        key_comment = h.0.key_comment;
        value_line = c.value_line;
      },
      h.1,
    )
  ])
]

split-IsClean :
    (line k v : Bytes)
    → Lacks b'\n' line
    → is_comment line ≡ false
    → Splits line k v
    → IsClean (k, v)
split-IsClean line k v l nc s =
    let all = subst (Lacks b'\n') s.joined l in
    record {
      key_line = Lacks-prefix b'\n' k (b'=' ∷ v) all;
      key_equals = s.first;
      key_comment = sym (is_comment-entry_line k v) ∙ sym (ap is_comment s.joined) ∙ nc;
      value_line = (Lacks-suffix b'\n' k (b'=' ∷ v) all).1;
    }

add_entry-All-IsClean :
    (acc : StringMap) (line : Bytes) (o : Option (Bytes × Bytes))
    → split_line line ≡ o
    → Lacks b'\n' line
    → is_comment line ≡ false
    → All IsClean acc
    → All IsClean (add_entry acc o)
unfolding add_entry
add_entry-All-IsClean acc line none e l nc h = h
add_entry-All-IsClean acc line (some (k, v)) e l nc h =
    insert-All-IsClean k v acc (split-IsClean line k v l nc (split_line-Splits line k v e)) h

read_line-All-IsClean :
    (acc : StringMap) (line : Bytes)
    → Lacks b'\n' line
    → All IsClean acc
    → All IsClean (read_line acc line)
unfolding read_line
read_line-All-IsClean acc line l h = elim (Bool-cases (is_comment line)) [
  | inl comment ↦ rw comment h
  | inr entry ↦ rw entry (add_entry-All-IsClean acc line (split_line line) refl l entry h)
]

read_lines-All-IsClean :
    (acc : StringMap) (ls : List Bytes)
    → All (Lacks b'\n') ls
    → All IsClean acc
    → All IsClean (read_lines acc ls)
unfolding read_lines
read_lines-All-IsClean acc [] l h = h
read_lines-All-IsClean acc (line ∷ ls) l h =
    read_lines-All-IsClean (read_line acc line) ls l.1 (read_line-All-IsClean acc line l.0 h)

-- Whatever the text, each entry that is read from it can be written on a line of its own.
pub read_string-IsClean : (str : Bytes) → All IsClean (read_string str)
unfolding read_string
read_string-IsClean str = read_lines-All-IsClean [] (lines str) (lines-Lacks str) tt

-- A byte that no key and no value holds, and that is neither '=' nor a newline, is not in the text.
pub render_rest-Lacks :
    (b : ℕ) (k v : Bytes) (m : StringMap)
    → (b'=' == b) ≡ false
    → (b'\n' == b) ≡ false
    → Lacks b k × Lacks b v
    → All (λ e. Lacks b e.0 × Lacks b e.1) m
    → Lacks b (entry_line (k, v) ++ render_rest m)
render_rest-Lacks b k v m e n h hs =
    All-append _ (entry_line (k, v)) (render_rest m) (All-append _ k (b'=' ∷ v) h.0 (e, h.1))
      (rest m hs)
  where
    rest : (m : StringMap) → All (λ e. Lacks b e.0 × Lacks b e.1) m → Lacks b (render_rest m)
    rest [] hs = tt
    rest ((j, w) ∷ m) hs = (
      n,
      All-append _ (entry_line (j, w)) (render_rest m)
          (All-append _ j (b'=' ∷ w) hs.0.0 (e, hs.0.1)) (rest m hs.1),
    )
