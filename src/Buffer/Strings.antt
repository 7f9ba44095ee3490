-- ===== src/Buffer/Strings.antt =====
-- What a fixed array keeps of a string that is copied into it.
use key_value_cluster_perf.Base.{
  ℕ, zero, suc, ◌+◌, ◌-◌, ◌≤◌, Bytes, false, [], ◌∷◌, ◌≡◌, refl, ap, length, set, take, ◌==◌, arith,
  All,
}
use key_value_cluster_perf.Buffer.{strcpy, memcpy, c_string}

pub length-strcpy : (source cells : Bytes) → length (strcpy source cells).cells ≡ length cells
unfolding strcpy
length-strcpy [] [] = refl
length-strcpy [] (b ∷ bs) = refl
length-strcpy (c ∷ cs) [] = ground (arith, length-strcpy cs [])
length-strcpy (c ∷ cs) (b ∷ bs) = ground (arith, length-strcpy cs bs)

-- `strcpy` writes outside the array as many bytes as the string and its NUL are longer than it.
pub stray-strcpy :
    (source cells : Bytes)
    → (strcpy source cells).stray ≡ length (c_string source) + 1 - length cells
unfolding strcpy c_string
stray-strcpy [] [] = refl
stray-strcpy [] (b ∷ bs) = omega arith
stray-strcpy (c ∷ cs) [] = ground (arith, stray-strcpy cs [])
stray-strcpy (c ∷ cs) (b ∷ bs) = ground (arith, stray-strcpy cs bs)

-- With the last cell cleared the array holds the string, cut to what fits.
pub c_string-set-strcpy :
    (source cells : Bytes) (n : ℕ)
    → length cells ≡ suc n
    → c_string (set (strcpy source cells).cells n 0) ≡ take n (c_string source)
unfolding strcpy c_string
c_string-set-strcpy source [] n h = absurd (omega arith)
c_string-set-strcpy [] (b ∷ bs) zero h = refl
c_string-set-strcpy [] (b ∷ bs) (suc n) h = refl
c_string-set-strcpy (c ∷ cs) (b ∷ bs) zero h = ground arith
c_string-set-strcpy (c ∷ cs) (b ∷ bs) (suc n) h =
    ground (arith, c_string-set-strcpy cs bs n (omega arith))

pub memcpy_whole :
    (n : ℕ) (source cells : Bytes)
    → length source ≡ n
    → length cells ≡ n
    → memcpy n source cells ≡ record { cells = source; stray = 0 }
unfolding memcpy
memcpy_whole zero [] [] h k = refl
memcpy_whole zero [] (b ∷ bs) h k = absurd (omega arith)
memcpy_whole zero (c ∷ cs) cells h k = absurd (omega arith)
memcpy_whole (suc n) [] cells h k = absurd (omega arith)
memcpy_whole (suc n) (c ∷ cs) [] h k = absurd (omega arith)
memcpy_whole (suc n) (c ∷ cs) (b ∷ bs) h k =
    rw (memcpy_whole n cs bs (omega arith) (omega arith)) refl

pub take_all : (n : ℕ) (s : Bytes) → length s ≤ n → take n s ≡ s
take_all zero [] h = refl
take_all zero (c ∷ s) h = absurd (omega arith)
take_all (suc n) [] h = refl
take_all (suc n) (c ∷ s) h = ap (◌∷◌ c) (take_all n s (omega arith))

-- A text that holds no NUL is its own C string.
pub c_string_self : (s : Bytes) → All (λ c. (c == 0) ≡ false) s → c_string s ≡ s
unfolding c_string
c_string_self [] h = refl
c_string_self (c ∷ s) h = rw (h.0, c_string_self s h.1) refl
