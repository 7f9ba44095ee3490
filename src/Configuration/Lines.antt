-- ===== src/Configuration/Lines.antt =====
-- Splitting a text into lines, and a line at its '='.
use mathlib.Core.Option
use mathlib.Core.Path.{subst}
use key_value_cluster_perf.Base.{
  Lacks, ℕ, Bytes, false, List, [], ◌∷◌, ◌++◌, Option, none, some, ◌==◌, ◌≡◌, refl, ap, some-eq,
  ==_iff, ◌≢◌, All, Bool-cases, inl, inr,
}
use key_value_cluster_perf.Configuration.{lines, push, split_line, cons_key}

pub lines-line :
    (line rest : Bytes) → Lacks b'\n' line → lines (line ++ (b'\n' ∷ rest)) ≡ line ∷ lines rest
unfolding lines
lines-line [] rest h = refl
lines-line (c ∷ cs) rest h = rw (lines-line cs rest h.1, h.0) refl

pub lines_last : (line : Bytes) → Lacks b'\n' line → line ≢ [] → lines line ≡ line ∷ []
unfolding lines
lines_last [] h ne = absurd (ne refl)
lines_last (c ∷ []) h ne = rw h.0 refl
lines_last (c ∷ d ∷ cs) h ne = rw (lines_last (d ∷ cs) h.1 (λ e. cc), h.0) refl

push-Lacks :
    (c : ℕ) (ls : List Bytes)
    → (c == b'\n') ≡ false
    → All (Lacks b'\n') ls
    → All (Lacks b'\n') (push c ls)
unfolding push
push-Lacks c [] h k = ((h, tt), tt)
push-Lacks c (l ∷ ls) h k = ((h, k.0), k.1)

-- No line holds a newline.
pub lines-Lacks : (s : Bytes) → All (Lacks b'\n') (lines s)
unfolding lines
lines-Lacks [] = tt
lines-Lacks (c ∷ cs) = elim (Bool-cases (c == b'\n')) [
  | inl e ↦ rw e (tt, lines-Lacks cs)
  | inr e ↦ rw e (push-Lacks c (lines cs) e (lines-Lacks cs))
]

pub split_line-entry :
    (key value : Bytes) → Lacks b'=' key → split_line (key ++ (b'=' ∷ value)) ≡ some (key, value)
unfolding split_line
split_line-entry [] value h = refl
split_line-entry (c ∷ key) value h = rw (h.0, split_line-entry key value h.1) refl

-- What `split_line` returns of a line: the text before the first '=', and all that follows it.
pub record Splits (line key value : Bytes) : Type 0 where
  pub joined : line ≡ key ++ (b'=' ∷ value)
  pub first : Lacks b'=' key

Splits-cons :
    (c : ℕ) (cs : Bytes) (o : Option (Bytes × Bytes)) {key value : Bytes}
    → (c == b'=') ≡ false
    → ((k v : Bytes) → o ≡ some (k, v) → Splits cs k v)
    → Option.map (cons_key c) o ≡ some (key, value)
    → Splits (c ∷ cs) key value
unfolding cons_key
Splits-cons c cs none e ih h = cc
Splits-cons c cs (some (k, v)) e ih h =
    let s = ih k v refl in
    subst (λ (p : Bytes × Bytes). Splits (c ∷ cs) p.0 p.1) (some-eq _ _ h)
      (record { joined = ap (◌∷◌ c) s.joined; first = (e, s.first) })

pub split_line-Splits :
    (line key value : Bytes) → split_line line ≡ some (key, value) → Splits line key value
unfolding split_line
split_line-Splits [] key value h = cc
split_line-Splits (c ∷ cs) key value h = elim (Bool-cases (c == b'=')) [
  | inl e ↦
      subst (λ (p : Bytes × Bytes). Splits (c ∷ cs) p.0 p.1)
        (some-eq ([], cs) (key, value) (rw e at h))
        (record { joined = ap (λ (d : ℕ). d ∷ cs) ((==_iff c b'=').0 e); first = tt })
  | inr e ↦ Splits-cons c cs (split_line cs) e (split_line-Splits cs) (rw e at h)
]

pub Lacks-prefix : (b : ℕ) (xs ys : Bytes) → Lacks b (xs ++ ys) → Lacks b xs
Lacks-prefix b [] ys h = tt
Lacks-prefix b (x ∷ xs) ys h = (h.0, Lacks-prefix b xs ys h.1)

pub Lacks-suffix : (b : ℕ) (xs ys : Bytes) → Lacks b (xs ++ ys) → Lacks b ys
Lacks-suffix b [] ys h = h
Lacks-suffix b (x ∷ xs) ys h = Lacks-suffix b xs ys h.1
