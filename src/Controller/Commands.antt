-- ===== src/Controller/Commands.antt =====
-- What the controller sends and gets, if every worker follows the protocol.
use mathlib.Core.Path.{ap₂}
use key_value_cluster_perf.Base.{
  ℕ, ◌+◌, Bytes, List, [], ◌∷◌, ◌++◌, same, same_refl, codes, if◌then◌else◌, ◌≡◌, refl, ap, All,
  arith, length, suc, ◌⊎◌, inl, inr, ◌∙◌,
}
use key_value_cluster_perf.Mq.{done, blocked}
use key_value_cluster_perf.Controller.{Link, queues, send_all_nodes, get_all_nodes, no_commands}

-- Each queue begins with the reply that is expected, and what is behind it.
pub answers : Bytes → List (List Bytes) → List (List Bytes)
answers reply [] = []
answers reply (q ∷ qs) = (reply ∷ q) ∷ answers reply qs

pub get_all_nodes-answers :
    (expected : Bytes) (qs : List (List Bytes))
    → get_all_nodes expected (answers expected qs) ≡ done (qs, 0)
unfolding get_all_nodes answers
get_all_nodes-answers expected [] = refl
get_all_nodes-answers expected (q ∷ qs) = rw (get_all_nodes-answers expected qs) (rw same_refl refl)

-- One list of commands for each link.
abbrev pub each : List Bytes → List Link → List (List Bytes)
each commands [] = []
each commands (l ∷ ls) = commands ∷ each commands ls

pub send_all_nodes-each :
    (command : Bytes) (commands : List Bytes) (links : List Link)
    → send_all_nodes command (each commands links) ≡ each (commands ++ (command ∷ [])) links
unfolding send_all_nodes
send_all_nodes-each command commands [] = refl
send_all_nodes-each command commands (l ∷ ls) =
    ap (◌∷◌ (commands ++ (command ∷ []))) (send_all_nodes-each command commands ls)

pub no_commands-each : (links : List Link) → no_commands links ≡ each [] links
no_commands-each [] = refl
no_commands-each (l ∷ ls) = ap (◌∷◌ []) (no_commands-each ls)

-- A worker's replies are those of the protocol.
abbrev pub protocol_replies : List Bytes
protocol_replies =
    codes "INITDONE" ∷ codes "RESULTSREADY" ∷ codes "DONERESULTS" ∷ codes "EXITING" ∷ []

pub queues-answers :
    (links : List Link)
    → All (λ l. l.replies ≡ protocol_replies) links
    → queues links
      ≡ answers (codes "INITDONE") (
          answers
            (codes "RESULTSREADY")
            (answers (codes "DONERESULTS") (answers (codes "EXITING") (each [] links))))
unfolding answers
queues-answers [] h = refl
queues-answers (l ∷ ls) h = ap₂ ◌∷◌ h.0 (queues-answers ls h.1)

abbrev pub heads : List Bytes → List (List Bytes) → List (List Bytes)
heads [] qs = []
heads (r ∷ rs) [] = []
heads (r ∷ rs) (q ∷ qs) = (r ∷ q) ∷ heads rs qs

abbrev pub wrong_among : Bytes → List Bytes → ℕ
wrong_among expected [] = 0
wrong_among expected (r ∷ rs) = (if same r expected then 0 else 1) + wrong_among expected rs

get_all_nodes_lem :
    (expected : Bytes) (replies : List Bytes) (qs : List (List Bytes))
    → length replies ≡ length qs
    → get_all_nodes expected (heads replies qs) ≡ done (qs, wrong_among expected replies)
unfolding get_all_nodes
get_all_nodes_lem expected [] [] h = refl
get_all_nodes_lem expected [] (q ∷ qs) h = absurd (omega arith)
get_all_nodes_lem expected (r ∷ rs) [] h = absurd (omega arith)
get_all_nodes_lem expected (r ∷ rs) (q ∷ qs) h =
    rw (get_all_nodes_lem expected rs qs (omega arith)) refl

-- Every worker has replied, and the replies are taken.
abbrev pub IsServedBy : Bytes → List (List Bytes) → Type 0
IsServedBy expected qs =
    (replies : List Bytes) × (rest : List (List Bytes)) × (qs ≡ heads replies rest)
    × (length replies ≡ length rest)
    × (get_all_nodes expected qs ≡ done (rest, wrong_among expected replies))

-- Some worker has not, and the controller waits for ever.
abbrev pub IsStuck : Bytes → List (List Bytes) → Type 0
IsStuck expected qs =
    (before : List (List Bytes)) × (after : List (List Bytes)) × (qs ≡ before ++ ([] ∷ after))
    × (get_all_nodes expected qs ≡ blocked)

-- If each of the workers has replied, whatever the replies are, the controller takes one reply of
-- each, and counts, and does no more about, those that are not the expected one. If some worker has
-- not replied and never will, the controller waits for ever, whatever the others have replied.
pub get_all_nodes-cases :
    (expected : Bytes) (qs : List (List Bytes)) → IsServedBy expected qs ⊎ IsStuck expected qs
unfolding get_all_nodes
get_all_nodes-cases expected [] = inl ([], [], refl, refl, refl)
get_all_nodes-cases expected ([] ∷ qs) = inr ([], qs, refl, refl)
get_all_nodes-cases expected ((r ∷ q) ∷ qs) = elim (get_all_nodes-cases expected qs) [
  | inl (replies, rest, e, as_many, _taken) ↦
      let as_many' = ap suc as_many in
      let e' = ap (◌∷◌ (r ∷ q)) e in
      inl (
        r ∷ replies,
        q ∷ rest,
        e',
        as_many',
        ap (get_all_nodes expected) e'
            ∙ get_all_nodes_lem expected (r ∷ replies) (q ∷ rest) as_many',
      )
  | inr (before, after, e, waits) ↦ inr ((r ∷ q) ∷ before, after, ap (◌∷◌ (r ∷ q)) e, rw waits refl)
]
