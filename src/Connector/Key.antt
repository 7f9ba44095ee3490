-- ===== src/Connector/Key.antt =====
-- The key of a file.
use key_value_cluster_perf.Base.{
  ℕ, suc, Bytes, Lacks, List, [], ◌∷◌, ◌++◌, none, some, ◌≡◌, refl, ap, length, take, drop,
  All-append, ==_iff,
}
use key_value_cluster_perf.Connector.{rfind, key_of}

rfind-none : (b : ℕ) (s : Bytes) → Lacks b s → rfind b s ≡ none
unfolding rfind
rfind-none b [] h = refl
rfind-none b (c ∷ s) h = rw (rfind-none b s h.1, h.0) refl

rfind-append :
    (b : ℕ) (front back : Bytes)
    → Lacks b back
    → rfind b (front ++ (b ∷ back)) ≡ some (length front)
unfolding rfind
rfind-append b [] back h = rw (rfind-none b back h, (==_iff b b).1 refl) refl
rfind-append b (c ∷ front) back h = rw (rfind-append b front back h) refl

module _ {A : Type 0} where
  drop_front :
      (front : List A) (a : A) (back : List A)
      → drop (suc (length front)) (front ++ (a ∷ back)) ≡ back
  drop_front [] a back = refl
  drop_front (x ∷ front) a back = drop_front front a back

  take_front :
      (front : List A) (a : A) (back : List A) → take (length front) (front ++ (a ∷ back)) ≡ front
  take_front [] a back = refl
  take_front (x ∷ front) a back = ap (◌∷◌ x) (take_front front a back)

-- For names with no slash: the key of 'directory/name.extension' is the name, whatever dots the
-- directories and the name hold, if the extension has no dot; and a file name with no dot is kept
-- whole.
pub key_of_path :
    (directory name extension : Bytes)
    → Lacks b'/' name
    → Lacks b'/' extension
    → Lacks b'.' extension
    → (key_of (directory ++ (b'/' ∷ (name ++ (b'.' ∷ extension)))) ≡ name)
      × (key_of (directory ++ (b'/' ∷ extension)) ≡ extension)
unfolding key_of
key_of_path directory name extension slash slash' dot = (
  rw
      (rfind-append b'/' directory (name ++ (b'.' ∷ extension))
        (All-append _ name (b'.' ∷ extension) slash (refl, slash')))
      (rw (drop_front directory b'/' (name ++ (b'.' ∷ extension)))
        (rw (rfind-append b'.' name extension dot) (take_front name b'.' extension))),
  rw (rfind-append b'/' directory extension slash')
      (rw (drop_front directory b'/' extension) (rw (rfind-none b'.' extension dot) refl)),
)
