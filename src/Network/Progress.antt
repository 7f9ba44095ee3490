-- ===== src/Network/Progress.antt =====
-- A state in which the controller has something left to do has a next step, and the steps that are
-- left are counted.
use mathlib.Core.Path.{subst}
use key_value_cluster_perf.Base.{
  length-append, ℕ, suc, ◌+◌, ◌<◌, Bytes, List, [], ◌∷◌, ◌++◌, some, length, ◌≡◌, refl, ap, sym,
  ◌∙◌, arith, inl, inr, ◌⊎◌,
}
use key_value_cluster_perf.Transfer.{receive_data_from_worker}
use key_value_cluster_perf.Worker.{World}
use key_value_cluster_perf.Network.{
  Action, Site, Peer, System, Step, send, get, fetch, work, Steps, here, next,
}
use key_value_cluster_perf.Network.Stages.{Stage, finished, todo}
use key_value_cluster_perf.Network.Sites.{IsSound, worked, answered}
use key_value_cluster_perf.Network.Calls.{Waits, get-Waits, fetch-Waits, fetch-At}
use key_value_cluster_perf.Network.Program.{fetched_by, weight, mine}
use key_value_cluster_perf.Network.Rounds.{at-Can}
use key_value_cluster_perf.Network.Staged.{AtSite}
use key_value_cluster_perf.Network.Totals.{total, total-update, total_none}
use key_value_cluster_perf.Network.Invariant.{address_of, Books, received_whole, Inv, call-Next}
use key_value_cluster_perf.Network.Preserved.{Step-Inv, Steps-Inv}

-- The commands on their way to a worker.
abbrev pub unread : (w : World) → Peer w → ℕ
unread w p = length p.commands

module _ (w : World) (s₀ : w.broker.State) (sites : ℕ → Site w) (n : ℕ)
    (sound : (i : ℕ) → IsSound w s₀ (sites i)) where
  -- The steps that are left: the controller's calls, and a round for each command on its way or
  -- still to be sent.
  abbrev pub measure : System w → ℕ
  measure s = weight s.program + total (unread w) s.peers n

  pub Step-measure :
      {s t : System w} → Step w sites n s t → Inv w s₀ sites n sound s → suc (measure t) ≡ measure s
  Step-measure {s} (send i {command} {rest} e) h =
      let (lt, _) = call-Next w s₀ sites n sound s (Action.send i command) rest e h in
      let count =
        total-update (unread w) s.peers i
          (record (s.peers i) { commands = (s.peers i).commands ++ (command ∷ []) }) n lt in
      let weights = ap weight e in
      let more = length-append (s.peers i).commands (command ∷ []) in
      omega (arith, count, weights, more)
  Step-measure {s} (get i {expected} {reply} {replies} {rest} e r) h =
      let (lt, _) = call-Next w s₀ sites n sound s (Action.get i expected) rest e h in
      let count =
        total-update (unread w) s.peers i (record (s.peers i) { replies = replies }) n lt in
      let weights = ap weight e in omega (arith, count, weights)
  Step-measure {s} (fetch i {j} {messages = messages} e first lt is_host r got) h =
      let count =
        total-update (unread w) s.peers j (record (s.peers j) { messages = messages }) n lt in
      let weights = ap weight e in omega (arith, count, weights)
  Step-measure {s} (work i {command} {commands} {a} lt bound _listens there does) h =
      let count =
        total-update (unread w) s.peers i (worked w s₀ (sites i) (s.peers i) commands a) n lt in
      let one = ap (λ (cs : List Bytes). length cs) there in omega (arith, count, one)

  -- A worker that has a command waiting does it.
  round :
      (s : System w) (i : ℕ) (t : Stage)
      → i < n
      → Waits w s₀ (sites i) (sound i).text t (s.peers i)
      → (u : System w) × Step w sites n s u
  round s i t lt (command, commands, there, e) =
      let waiting = ap (λ (p : Peer w). p.commands) e ∙ there in
      let (listens, (a, does)) =
        at-Can w s₀ sites n sound i t s.stored command commands (s.peers i) (inl e) waiting in
      (_, work i lt (sound i).bound listens waiting does)

  -- The data host that is next is the address of the worker whose turn it is.
  host_left :
      (s : System w) (i : ℕ) (rest : List Action)
      → s.program ≡ Action.fetch i ∷ rest
      → Inv w s₀ sites n sound s
      → s.data_hosts ≡ (sites i).data_address ∷ fetched_by (address_of w s₀ sites n sound) rest
  host_left s i rest e h =
      (subst (Books w s₀ sites n sound s.data_hosts s.all_results s.stray) e h.books).1

  -- The controller's next call is possible, or the worker that it waits for can do a command.
  progress :
      (s : System w) (a : Action) (rest : List Action)
      → s.program ≡ a ∷ rest
      → Inv w s₀ sites n sound s
      → (t : System w) × Step w sites n s t
  progress s (Action.send i command) rest e h = (_, send i e)
  progress s (Action.get i expected) rest e h =
      let (lt, (t, cs, left, at)) =
        call-Next w s₀ sites n sound s (Action.get i expected) rest e h in
      elim (get-Waits w s₀ (sites i) (sound i).text t (s.peers i) expected cs left at) [
        | inl (reply, replies, there) ↦ (_, get i e there)
        | inr waits ↦ round s i t lt waits
      ]
  progress s (Action.fetch i) rest e h =
      let (lt, (t, cs, left, at)) = call-Next w s₀ sites n sound s (Action.fetch i) rest e h in
      elim (fetch-Waits w s₀ (sites i) (sound i).text t (s.peers i) cs left at) [
        | inl (message, messages, there) ↦
            let some_host = host_left s i rest e h in
            let whole =
              (fetch-At w s₀ (sites i) (sound i).text t (s.peers i) message messages cs left at
                there).0 in
            (
              _,
              fetch i e some_host lt refl there (
                  ap
                    (λ (hs : List Bytes).
                      receive_data_from_worker (sites i).link_connection hs (sites i).link_buffer
                        (some message))
                    some_host
                  ∙ received_whole w s₀ sites n sound i _ _ message whole),
            )
        | inr waits ↦ round s i t lt waits
      ]

  pub Steps-measure :
      {s t : System w} {k : ℕ}
      → Steps w sites n s k t
      → Inv w s₀ sites n sound s
      → k + measure t ≡ measure s
  Steps-measure here h = omega arith
  Steps-measure (next steps step) h =
      let before = Steps-measure steps h in
      let one = Step-measure step (Steps-Inv w s₀ sites n sound steps h) in
      omega (arith, before, one)

  -- A worker that nothing is left for has exited.
  over : (t : Stage) → [] ≡ todo t → t ≡ finished
  over finished h = refl
  over t h = cc

  pub over_peer :
      (s : System w) (i : ℕ)
      → s.program ≡ []
      → i < n
      → Inv w s₀ sites n sound s
      → s.peers i ≡ answered w s₀ (sites i) (sound i).text finished
  over_peer s i e lt h =
      let last = over (h.staged.stage i) (ap (mine i) (sym e) ∙ h.staged.behind i lt) in
      elim (subst (λ (t : Stage). AtSite w s₀ sites n sound i t (s.peers i)) last
        (h.staged.at i lt)) [ inl q ↦ q | inr q ↦ q ]

  pub over-measure : (s : System w) → s.program ≡ [] → Inv w s₀ sites n sound s → measure s ≡ 0
  over-measure s e h =
      let none =
        total_none (unread w) s.peers n
          (λ i lt. ap (λ (p : Peer w). length p.commands) (over_peer s i e lt h)) in
      let weights = ap weight e in omega (arith, none, weights)

  program-cases :
      (program : List Action)
      → (program ≡ []) ⊎ ((a : Action) × (rest : List Action) × (program ≡ a ∷ rest))
  program-cases [] = inl refl
  program-cases (a ∷ rest) = inr (a, rest, refl)

  -- A state in which the controller has something to do moves, with fewer steps left.
  pub moves :
      (s : System w)
      → Inv w s₀ sites n sound s
      → (s.program ≡ [])
        ⊎ ((t : System w) × Step w sites n s t
            × (suc (measure t) ≡ measure s)
            × Inv w s₀ sites n sound t)
  moves s h = elim (program-cases s.program) [
    | inl none_left ↦ inl none_left
    | inr (a, rest, e) ↦
        let (t, step) = progress s a rest e h in
        inr (t, step, Step-measure step h, Step-Inv w s₀ sites n sound step h)
  ]
