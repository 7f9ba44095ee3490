-- ===== src/Network/Program.antt =====
-- The list of the controller's calls, as each worker sees it.
use key_value_cluster_perf.Base.{
  ℕ, zero, suc, ◌+◌, ◌*◌, ◌<◌, ◌≤◌, ◌==◌, leb, ltb, ◌&&◌, true, List, [], ◌∷◌, ◌++◌, Bytes, codes,
  if◌then◌else◌, ◌≡◌, refl, ap, All, All-append, length, append-nil, arith,
}
use key_value_cluster_perf.Network.{
  Action, send, get, fetch, send_from, get_from, fetch_from, session,
}
use key_value_cluster_perf.Network.Stages.{Call, fresh, todo}

abbrev pub index : Action → ℕ
index (send i command) = i
index (get i expected) = i
index (fetch i) = i

abbrev pub call_of : Action → Call
call_of (send i command) = Call.send command
call_of (get i expected) = Call.get expected
call_of (fetch i) = Call.fetch

-- The calls on the connections of worker `j`.
abbrev pub mine : ℕ → List Action → List Call
mine j [] = []
mine j (a ∷ rest) = let calls = mine j rest in if index a == j then call_of a ∷ calls else calls

-- What the fetches give, one for each.
abbrev pub fetched_by {ℓ} : {A : Type ℓ} → (ℕ → A) → List Action → List A
fetched_by r [] = []
fetched_by r (send i command ∷ rest) = fetched_by r rest
fetched_by r (get i expected ∷ rest) = fetched_by r rest
fetched_by r (fetch i ∷ rest) = r i ∷ fetched_by r rest

-- r i, r (i + 1) and so on, `k` of them.
abbrev pub numbered {ℓ} : {A : Type ℓ} → (ℕ → A) → ℕ → ℕ → List A
numbered r i zero = []
numbered r i (suc k) = r i ∷ numbered r (suc i) k

-- A command that is sent is a step of the controller and a step of the worker.
abbrev pub weight : List Action → ℕ
weight [] = 0
weight (send i command ∷ rest) = 2 + weight rest
weight (get i expected ∷ rest) = 1 + weight rest
weight (fetch i ∷ rest) = 1 + weight rest

mine-append : (j : ℕ) (rest bs : List Action) → mine j (rest ++ bs) ≡ mine j rest ++ mine j bs
mine-append j [] bs = refl
mine-append j (a ∷ xs) ys = ground (arith, mine-append j xs ys)

fetched_by-append {ℓ} :
    {A : Type ℓ} (r : ℕ → A) (rest bs : List Action)
    → fetched_by r (rest ++ bs) ≡ fetched_by r rest ++ fetched_by r bs
fetched_by-append r [] bs = refl
fetched_by-append r (send i command ∷ rest) bs = fetched_by-append r rest bs
fetched_by-append r (get i expected ∷ rest) bs = fetched_by-append r rest bs
fetched_by-append r (fetch i ∷ rest) bs = ap (◌∷◌ (r i)) (fetched_by-append r rest bs)

weight-append : (rest bs : List Action) → weight (rest ++ bs) ≡ weight rest + weight bs
weight-append [] bs = omega arith
weight-append (send i command ∷ rest) bs = omega (arith, weight-append rest bs)
weight-append (get i expected ∷ rest) bs = omega (arith, weight-append rest bs)
weight-append (fetch i ∷ rest) bs = omega (arith, weight-append rest bs)

-- Is `j` one of the `k` numbers from `i` on?
abbrev within : ℕ → ℕ → ℕ → List Call → List Call
within i k j calls = if leb i j && ltb j (i + k) then calls else []

mine-send_from :
    (j : ℕ) (command : Bytes) (i k : ℕ)
    → mine j (send_from command i k) ≡ within i k j (Call.send command ∷ [])
unfolding send_from
mine-send_from j command i zero = ground arith
mine-send_from j command i (suc k) = ground (arith, mine-send_from j command (suc i) k)

mine-get_from :
    (j : ℕ) (expected : Bytes) (i k : ℕ)
    → mine j (get_from expected i k) ≡ within i k j (Call.get expected ∷ [])
unfolding get_from
mine-get_from j expected i zero = ground arith
mine-get_from j expected i (suc k) = ground (arith, mine-get_from j expected (suc i) k)

mine-fetch_from :
    (j i k : ℕ)
    → mine j (fetch_from i k) ≡ within i k j (Call.send (codes "GETRESULTS") ∷ (Call.fetch ∷ []))
unfolding fetch_from
mine-fetch_from j i zero = ground arith
mine-fetch_from j i (suc k) = ground (arith, mine-fetch_from j (suc i) k)

inside : (n j : ℕ) → j < n → (leb 0 j && ltb j (0 + n)) ≡ true
inside n j h = ground (arith, h)

-- Each of the nodes is sent INIT, GO, GETRESULTS and EXIT, and asked for each reply and the
-- results.
pub mine-session : (n j : ℕ) → j < n → mine j (session n) ≡ todo fresh
unfolding session
mine-session n j h =
    simp (mine-append, mine-send_from, mine-get_from, mine-fetch_from) (rw (inside n j h) refl)

fetched_by-send_from {ℓ} :
    {A : Type ℓ} (r : ℕ → A) (command : Bytes) (i k : ℕ) → fetched_by r (send_from command i k) ≡ []
unfolding send_from
fetched_by-send_from r command i zero = refl
fetched_by-send_from r command i (suc k) = fetched_by-send_from r command (suc i) k

fetched_by-get_from {ℓ} :
    {A : Type ℓ} (r : ℕ → A) (expected : Bytes) (i k : ℕ)
    → fetched_by r (get_from expected i k) ≡ []
unfolding get_from
fetched_by-get_from r expected i zero = refl
fetched_by-get_from r expected i (suc k) = fetched_by-get_from r expected (suc i) k

fetched_by-fetch_from {ℓ} :
    {A : Type ℓ} (r : ℕ → A) (i k : ℕ) → fetched_by r (fetch_from i k) ≡ numbered r i k
unfolding fetch_from
fetched_by-fetch_from r i zero = refl
fetched_by-fetch_from r i (suc k) = ap (◌∷◌ (r i)) (fetched_by-fetch_from r (suc i) k)

-- The results of all nodes are fetched, in order.
pub fetched_by-session {ℓ} :
    {A : Type ℓ} (r : ℕ → A) (n : ℕ) → fetched_by r (session n) ≡ numbered r 0 n
unfolding session
fetched_by-session r n = simp (
  fetched_by-append, fetched_by-send_from, fetched_by-get_from, fetched_by-fetch_from, append-nil,
)

pub length-numbered {ℓ} : {A : Type ℓ} (r : ℕ → A) (i k : ℕ) → length (numbered r i k) ≡ k
length-numbered r i zero = refl
length-numbered r i (suc k) = ap suc (length-numbered r (suc i) k)

-- The number of fetches does not depend on what they give.
pub length-fetched_by {ℓ κ} :
    {A : Type ℓ} {B : Type κ} (r : ℕ → A) (r' : ℕ → B) (rest : List Action)
    → length (fetched_by r rest) ≡ length (fetched_by r' rest)
length-fetched_by r r' [] = refl
length-fetched_by r r' (send i command ∷ rest) = length-fetched_by r r' rest
length-fetched_by r r' (get i expected ∷ rest) = length-fetched_by r r' rest
length-fetched_by r r' (fetch i ∷ rest) = ap suc (length-fetched_by r r' rest)

weight-send_from : (command : Bytes) (i k : ℕ) → weight (send_from command i k) ≡ 2 * k
unfolding send_from
weight-send_from command i zero = omega arith
weight-send_from command i (suc k) = omega (arith, weight-send_from command (suc i) k)

weight-get_from : (expected : Bytes) (i k : ℕ) → weight (get_from expected i k) ≡ k
unfolding get_from
weight-get_from expected i zero = omega arith
weight-get_from expected i (suc k) = omega (arith, weight-get_from expected (suc i) k)

weight-fetch_from : (i k : ℕ) → weight (fetch_from i k) ≡ 3 * k
unfolding fetch_from
weight-fetch_from i zero = omega arith
weight-fetch_from i (suc k) = omega (arith, weight-fetch_from (suc i) k)

pub weight-session : (n : ℕ) → weight (session n) ≡ 13 * n
unfolding session
weight-session n =
    simp (weight-append, weight-send_from, weight-get_from, weight-fetch_from) (omega arith)

-- The calls are on the connections of the `n` nodes.
abbrev pub Within : ℕ → List Action → Type 0
Within n = All (λ a. index a < n)

Within-send_from :
    (n : ℕ) (command : Bytes) (i k : ℕ) → i + k ≤ n → Within n (send_from command i k)
unfolding send_from
Within-send_from n command i zero h = tt
Within-send_from n command i (suc k) h =
    (omega (arith, h), Within-send_from n command (suc i) k (omega (arith, h)))

Within-get_from :
    (n : ℕ) (expected : Bytes) (i k : ℕ) → i + k ≤ n → Within n (get_from expected i k)
unfolding get_from
Within-get_from n expected i zero h = tt
Within-get_from n expected i (suc k) h =
    (omega (arith, h), Within-get_from n expected (suc i) k (omega (arith, h)))

Within-fetch_from : (n i k : ℕ) → i + k ≤ n → Within n (fetch_from i k)
unfolding fetch_from
Within-fetch_from n i zero h = tt
Within-fetch_from n i (suc k) h =
    (omega (arith, h), (omega (arith, h), Within-fetch_from n (suc i) k (omega (arith, h))))

Within-append : (n : ℕ) (xs ys : List Action) → Within n xs → Within n ys → Within n (xs ++ ys)
Within-append n xs ys h k = All-append (λ a. index a < n) xs ys h k

pub Within-session : (n : ℕ) → Within n (session n)
unfolding session
Within-session n = Within-append n _ _ (Within-send_from n _ 0 n (omega arith)) (
    Within-append n _ _ (Within-get_from n _ 0 n (omega arith)) (
      Within-append n _ _ (Within-send_from n _ 0 n (omega arith)) (
        Within-append n _ _ (Within-get_from n _ 0 n (omega arith)) (
          Within-append n _ _ (Within-fetch_from n 0 n (omega arith)) (
            Within-append n _ _ (Within-get_from n _ 0 n (omega arith)) (
              Within-append n _ _ (Within-send_from n _ 0 n (omega arith))
                (Within-get_from n _ 0 n (omega arith))))))))
