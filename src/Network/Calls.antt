-- ===== src/Network/Calls.antt =====
-- One call of the controller on its connection to one worker, at each stage.
use mathlib.Core.Path.{subst}
use key_value_cluster_perf.Base.{
  sym, Bytes, true, List, [], ◌∷◌, ◌++◌, codes, same, ◌≡◌, refl, ap, ◌∙◌, ◌⊎◌, inl, inr,
}
use key_value_cluster_perf.Transfer.{fill_buffer}
use key_value_cluster_perf.Worker.{World}
use key_value_cluster_perf.Network.{Site, Peer}
use key_value_cluster_perf.Network.Stages.{
  fetch, asked_go, asked_init, asked_exit, asked_results, Call, send, get, Stage, fresh,
  initialised, ready, fetched, reported, todo, after,
}
use key_value_cluster_perf.Network.Sites.{unanswered, answered}

module _ (w : World) (s₀ : w.broker.State) (k : Site w) (text : Bytes) where
  -- The peer at a stage: the worker has read its last command, or not yet.
  abbrev pub At : Stage → Peer w → Type 0
  At t p = (p ≡ unanswered w s₀ k text t) ⊎ (p ≡ answered w s₀ k text t)

  abbrev sent : Bytes → Peer w → Peer w
  sent command p = record p { commands = p.commands ++ (command ∷ []) }

  sent-At :
      (t : Stage) (command : Bytes) (cs : List Call)
      → send command ∷ cs ≡ todo t
      → (sent command (unanswered w s₀ k text t) ≡ unanswered w s₀ k text (after t))
        × (sent command (answered w s₀ k text t) ≡ unanswered w s₀ k text (after t))
  sent-At fresh command cs h = let e : command ≡ codes "INIT" = cc in (rw e refl, rw e refl)
  sent-At initialised command cs h = let e : command ≡ codes "GO" = cc in (rw e refl, rw e refl)
  sent-At ready command cs h = let e : command ≡ codes "GETRESULTS" = cc in (rw e refl, rw e refl)
  sent-At reported command cs h = let e : command ≡ codes "EXIT" = cc in (rw e refl, rw e refl)
  sent-At t command cs h = cc

  -- A command that is sent takes the peer to the next stage.
  pub send-At :
      (t : Stage) (p : Peer w) (command : Bytes) (cs : List Call)
      → send command ∷ cs ≡ todo t
      → At t p
      → At (after t) (sent command p)
  send-At t p command cs h (inl e) = inl (ap (sent command) e ∙ (sent-At t command cs h).0)
  send-At t p command cs h (inr e) = inl (ap (sent command) e ∙ (sent-At t command cs h).1)

  -- What a reply that is taken leaves.
  abbrev Gets : Stage → Peer w → Bytes → Bytes → List Bytes → Type 0
  Gets t p expected reply replies =
      (same reply expected ≡ true) × At (after t) (record p { replies = replies })

  unanswered-Gets :
      (t : Stage) (expected reply : Bytes) (replies : List Bytes) (cs : List Call)
      → get expected ∷ cs ≡ todo t
      → (unanswered w s₀ k text t).replies ≡ reply ∷ replies
      → Gets t (unanswered w s₀ k text t) expected reply replies
  unanswered-Gets fetched expected reply replies cs h r =
      let e : expected ≡ codes "DONERESULTS" = cc in
      let e' : reply ≡ codes "DONERESULTS" = cc in
      let e'' : replies ≡ [] = cc in rw (e, e', e'') (refl, inl refl)
  unanswered-Gets t expected reply replies cs h r = cc

  answered-Gets :
      (t : Stage) (expected reply : Bytes) (replies : List Bytes) (cs : List Call)
      → get expected ∷ cs ≡ todo t
      → (answered w s₀ k text t).replies ≡ reply ∷ replies
      → Gets t (answered w s₀ k text t) expected reply replies
  answered-Gets asked_init expected reply replies cs h r =
      let e : expected ≡ codes "INITDONE" = cc in
      let e' : reply ≡ codes "INITDONE" = cc in
      let e'' : replies ≡ [] = cc in rw (e, e', e'') (refl, inl refl)
  answered-Gets asked_go expected reply replies cs h r =
      let e : expected ≡ codes "RESULTSREADY" = cc in
      let e' : reply ≡ codes "RESULTSREADY" = cc in
      let e'' : replies ≡ [] = cc in rw (e, e', e'') (refl, inl refl)
  answered-Gets asked_exit expected reply replies cs h r =
      let e : expected ≡ codes "EXITING" = cc in
      let e' : reply ≡ codes "EXITING" = cc in
      let e'' : replies ≡ [] = cc in rw (e, e', e'') (refl, inl refl)
  answered-Gets fetched expected reply replies cs h r =
      unanswered-Gets fetched expected reply replies cs h r
  answered-Gets t expected reply replies cs h r = cc

  -- A reply that is taken is the expected one, and takes the peer to the next stage.
  pub get-At :
      (t : Stage) (p : Peer w) (expected reply : Bytes) (replies : List Bytes) (cs : List Call)
      → get expected ∷ cs ≡ todo t
      → At t p
      → p.replies ≡ reply ∷ replies
      → Gets t p expected reply replies
  get-At t p expected reply replies cs h (inl e) r =
      subst (λ (q : Peer w). Gets t q expected reply replies) (sym e)
        (unanswered-Gets t expected reply replies cs h (sym (ap (λ (q : Peer w). q.replies) e) ∙ r))
  get-At t p expected reply replies cs h (inr e) r =
      subst (λ (q : Peer w). Gets t q expected reply replies) (sym e)
        (answered-Gets t expected reply replies cs h (sym (ap (λ (q : Peer w). q.replies) e) ∙ r))

  abbrev results_array : Bytes
  results_array = (fill_buffer k.buffer text).cells

  abbrev Fetches : Stage → Peer w → Bytes → List Bytes → Type 0
  Fetches t p message messages =
      (message ≡ results_array) × At (after t) (record p { messages = messages })

  answered-Fetches :
      (t : Stage) (message : Bytes) (messages : List Bytes) (cs : List Call)
      → fetch ∷ cs ≡ todo t
      → (answered w s₀ k text t).messages ≡ message ∷ messages
      → Fetches t (answered w s₀ k text t) message messages
  answered-Fetches asked_results message messages cs h r =
      let e : message ≡ results_array = cc in let e' : messages ≡ [] = cc in (e, rw e' (inl refl))
  answered-Fetches t message messages cs h r = cc

  pub no_message : (t : Stage) → (unanswered w s₀ k text t).messages ≡ []
  no_message fresh = refl
  no_message t = refl

  -- A message that is taken is the array with the results, and takes the peer to the next stage.
  pub fetch-At :
      (t : Stage) (p : Peer w) (message : Bytes) (messages : List Bytes) (cs : List Call)
      → fetch ∷ cs ≡ todo t
      → At t p
      → p.messages ≡ message ∷ messages
      → Fetches t p message messages
  fetch-At t p message messages cs h (inl e) r =
      let none_there = no_message t in let there = ap (λ (q : Peer w). q.messages) e in cc
  fetch-At t p message messages cs h (inr e) r =
      subst (λ (q : Peer w). Fetches t q message messages) (sym e)
        (answered-Fetches t message messages cs h (sym (ap (λ (q : Peer w). q.messages) e) ∙ r))

  -- A command waits at the worker, or the peer has the list.
  abbrev pub Waits : Stage → Peer w → Type 0
  Waits t p =
      (command : Bytes) × (commands : List Bytes) × ((unanswered w s₀ k text t).commands
        ≡ command ∷ commands)
      × (p ≡ unanswered w s₀ k text t)

  -- Where the controller waits for a reply, the reply is there or the worker has a command to do.
  pub get-Waits :
      (t : Stage) (p : Peer w) (expected : Bytes) (cs : List Call)
      → get expected ∷ cs ≡ todo t
      → At t p
      → ((reply : Bytes) × (replies : List Bytes) × (p.replies ≡ reply ∷ replies)) ⊎ Waits t p
  get-Waits asked_init p expected cs h (inl e) = inr (_, _, refl, e)
  get-Waits asked_go p expected cs h (inl e) = inr (_, _, refl, e)
  get-Waits asked_exit p expected cs h (inl e) = inr (_, _, refl, e)
  get-Waits fetched p expected cs h (inl e) = inl (_, _, ap (λ (q : Peer w). q.replies) e)
  get-Waits asked_init p expected cs h (inr e) = inl (_, _, ap (λ (q : Peer w). q.replies) e)
  get-Waits asked_go p expected cs h (inr e) = inl (_, _, ap (λ (q : Peer w). q.replies) e)
  get-Waits asked_exit p expected cs h (inr e) = inl (_, _, ap (λ (q : Peer w). q.replies) e)
  get-Waits fetched p expected cs h (inr e) = inl (_, _, ap (λ (q : Peer w). q.replies) e)
  get-Waits t p expected cs h at = cc

  -- Where it waits for the data, likewise.
  pub fetch-Waits :
      (t : Stage) (p : Peer w) (cs : List Call)
      → fetch ∷ cs ≡ todo t
      → At t p
      → ((message : Bytes) × (messages : List Bytes) × (p.messages ≡ message ∷ messages))
        ⊎ Waits t p
  fetch-Waits asked_results p cs h (inl e) = inr (_, _, refl, e)
  fetch-Waits asked_results p cs h (inr e) = inl (_, _, ap (λ (q : Peer w). q.messages) e)
  fetch-Waits t p cs h at = cc
