-- ===== src/Network/Interleaved/Silent.antt =====
-- A worker that never moves: `run` of src/SimulationWorker.cc takes no notice of a port that is
-- taken, and then waits for ever.
use mathlib.Core.Path.{subst}
use key_value_cluster_perf.Base.{
  ==_iff, ◌==◌, ℕ, zero, suc, ◌+◌, ◌<◌, ◌≤◌, Bool-cases, false, Bytes, List, [], ◌∷◌, ◌++◌, codes,
  ◌≡◌, ◌≢◌, refl, ap, sym, ◌∙◌, ◌⊎◌, inl, inr, All, All-append, arith,
}
use key_value_cluster_perf.Worker.{World, command_of, Command}
use key_value_cluster_perf.Network
use key_value_cluster_perf.Network.{
  update, turn_at, after_work, Site, Peer, System, Action, send_from, get_from, session,
}
use key_value_cluster_perf.Worker.Protocol.{init-stored}
use key_value_cluster_perf.Network.Staged.{update-cases}
use key_value_cluster_perf.Network.Requests.{mover}
use key_value_cluster_perf.Network.Interleaved.{
  Mixture, Step, whole, begin, request, finish, Steps, here, next, opening, is_busy,
}

-- Before the calls do anything but send INIT and take replies, they take one of worker `i`.
abbrev pub HoldsUp : ℕ → List Action → Type 0
HoldsUp i [] = ⊥
HoldsUp i (Action.send j command ∷ rest) = (command ≡ codes "INIT") × HoldsUp i rest
HoldsUp i (Action.get j expected ∷ rest) = (j ≡ i) ⊎ HoldsUp i rest
HoldsUp i (Action.fetch j ∷ rest) = ⊥

HoldsUp-send_from :
    (i j k : ℕ) (rest : List Action)
    → HoldsUp i rest
    → HoldsUp i (send_from (codes "INIT") j k ++ rest)
unfolding send_from
HoldsUp-send_from i j zero rest h = h
HoldsUp-send_from i j (suc k) rest h = (refl, HoldsUp-send_from i (suc j) k rest h)

HoldsUp-get_from :
    (i : ℕ) (expected : Bytes) (j k : ℕ) (rest : List Action)
    → j ≤ i
    → i < j + k
    → HoldsUp i (get_from expected j k ++ rest)
unfolding get_from
HoldsUp-get_from i expected j zero rest h lt = absurd (omega (arith, h, lt))
HoldsUp-get_from i expected j (suc k) rest h lt = elim (Bool-cases (j == i)) [
  | inl e ↦ inl ((==_iff j i).0 e)
  | inr e ↦ inr (HoldsUp-get_from i expected (suc j) k rest (ground arith) (omega (arith, lt)))
]

HoldsUp-session : (i n : ℕ) → i < n → HoldsUp i (session n)
unfolding session
HoldsUp-session i n lt =
    HoldsUp-send_from i 0 n _
      (HoldsUp-get_from i (codes "INITDONE") 0 n _ (omega arith) (omega (arith, lt)))

HoldsUp-ne-nil : (i : ℕ) (rest : List Action) → HoldsUp i rest → rest ≢ []
HoldsUp-ne-nil i [] h = absurd h
HoldsUp-ne-nil i (a ∷ rest) h = λ e. cc

no_go : (command : Bytes) → command ≡ codes "INIT" → command_of command ≢ Command.go
unfolding command_of
no_go command e go = let init = sym (ap command_of e) ∙ go in cc

-- No other command is on its way to the worker.
abbrev pub OnlyInit : {w : World} → Peer w → Type 0
OnlyInit p = All (λ (c : Bytes). c ≡ codes "INIT") p.commands

module _ (w : World) (sites : ℕ → Site w) (n i : ℕ) where
  -- A step of another process than worker `i`.
  abbrev pub Spares : {m t : Mixture w} → Step w sites n m t → Type 0
  Spares (whole (Network.Step.work j _lt _bound _listens _waiting _does) _is_whole) = j ≢ i
  Spares (whole (Network.Step.send j _e) _is_whole) = Unit
  Spares (whole (Network.Step.get j _e _r) _is_whole) = Unit
  Spares (whole (Network.Step.fetch j _e _first _lt _is_host _r _got) _is_whole) = Unit
  Spares (begin j _lt _bound _calm _listens _waiting _is_go _live) = j ≢ i
  Spares (request step _runs) = mover w.codec w.broker w.plus n step ≢ i
  Spares (finish j _lt _runs _ended) = j ≢ i

  abbrev pub SparesAll : {m t : Mixture w} {k : ℕ} → Steps w sites n m k t → Type 0
  SparesAll here = Unit
  SparesAll (next steps step) = SparesAll steps × Spares step

  record Held (stored : w.broker.State) (m : Mixture w) : Type 0 where
    held_up : HoldsUp i m.system.program
    unanswered : (m.system.peers i).replies ≡ []
    inits : (j : ℕ) → OnlyInit (m.system.peers j)
    calm : (j : ℕ) → is_busy (m.phase j) ≡ false
    none_yet : m.system.all_results ≡ []
    untouched : m.system.stored ≡ stored

  -- Another peer is changed, or the replies of this one stay unread.
  updated_unanswered :
      (peers : ℕ → Peer w) (j : ℕ) (p : Peer w)
      → (peers i).replies ≡ []
      → (j ≡ i → p.replies ≡ [])
      → (update peers j p i).replies ≡ []
  updated_unanswered peers j p h changed =
      update-cases (λ (k : ℕ) (q : Peer w). k ≡ i → q.replies ≡ []) peers j p i changed
        (λ other same_one. h) refl

  updated_inits :
      (peers : ℕ → Peer w) (j : ℕ) (p : Peer w)
      → ((k : ℕ) → OnlyInit (peers k))
      → OnlyInit p
      → (k : ℕ) → OnlyInit (update peers j p k)
  updated_inits peers j p h given k =
      update-cases (λ (l : ℕ) (q : Peer w). OnlyInit q) peers j p k given (λ other. h k)

  Step-Held :
      (stored : w.broker.State) {m t : Mixture w} (step : Step w sites n m t)
      → Spares step
      → Held stored m
      → Held stored t
  Step-Held stored {m} (whole (Network.Step.send j {command} {rest} e) _is_whole) spares h =
      let p = m.system.peers j in
      let (is_init, later) = subst (HoldsUp i) e h.held_up in
      let p' : Peer w = record p { commands = p.commands ++ (command ∷ []) } in
      record {
        held_up = later;
        unanswered = updated_unanswered m.system.peers j p' h.unanswered (λ same_one.
            subst (λ (k : ℕ). (m.system.peers k).replies ≡ []) (sym same_one) h.unanswered);
        inits =
            updated_inits m.system.peers j p' h.inits
              (All-append _ p.commands (command ∷ []) (h.inits j) (is_init, tt));
        calm = h.calm;
        none_yet = h.none_yet;
        untouched = h.untouched;
      }
  Step-Held stored {m} (whole (Network.Step.get j {replies = replies} {rest = rest} e r) _is_whole)
        spares h =
      let p' : Peer w = record (m.system.peers j) { replies = replies } in
      let no_reply : j ≢ i = λ same_one. (let u = h.unanswered in cc) in
      elim (subst (HoldsUp i) e h.held_up) [
        | inl same_one ↦ absurd (no_reply same_one)
        | inr later ↦ record {
          held_up = later;
          unanswered =
              updated_unanswered m.system.peers j p' h.unanswered
                (λ same_one. absurd (no_reply same_one));
          inits = updated_inits m.system.peers j p' h.inits (h.inits j);
          calm = h.calm;
          none_yet = h.none_yet;
          untouched = h.untouched;
        }
      ]
  Step-Held stored {m} (whole (Network.Step.fetch j e _first _lt _is_host _r _got) _is_whole) spares
        h =
      absurd (subst (HoldsUp i) e h.held_up)
  Step-Held stored {m}
        (whole
          (Network.Step.work j {command} {commands} {a} _lt _bound _listens waiting does)
          _is_whole)
        spares h =
      let p = m.system.peers j in
      let (is_init, others) = subst (All (λ (c : Bytes). c ≡ codes "INIT")) waiting (h.inits j) in
      let p' = (after_work w m.system j commands a).peers j in
      record {
        held_up = h.held_up;
        unanswered =
            updated_unanswered m.system.peers j _ h.unanswered
              (λ same_one. absurd (spares same_one));
        inits = updated_inits m.system.peers j _ h.inits others;
        calm = h.calm;
        none_yet = h.none_yet;
        untouched =
            init-stored w p.worker m.system.stored (turn_at w (sites j) command) a is_init does
            ∙ h.untouched;
      }
  Step-Held stored {m} (begin j {command} _lt _bound _calm _listens waiting is_go _live) spares h =
      let (is_init, _others) = subst (All (λ (c : Bytes). c ≡ codes "INIT")) waiting (h.inits j) in
      absurd (no_go command is_init is_go)
  Step-Held stored (request step runs) spares h =
      let calm = h.calm (mover w.codec w.broker w.plus n step) in cc
  Step-Held stored (finish j _lt runs _ended) spares h = let calm = h.calm j in cc

  Steps-Held :
      (stored : w.broker.State) {m t : Mixture w} {k : ℕ} (steps : Steps w sites n m k t)
      → SparesAll steps
      → Held stored m
      → Held stored t
  Steps-Held stored here spares h = h
  Steps-Held stored (next steps step) (spares, last) h =
      Step-Held stored step last (Steps-Held stored steps spares h)

  -- When one of the `n` workers never moves, whatever the others do: before any call but those that
  -- send INIT and take the replies, the controller has to take a reply of that worker, so that it
  -- does not come to its end; it has no results, nothing but INIT is on its way to a worker, and the
  -- database is as before.
  pub silent_held :
      (hosts : List Bytes) (stored : w.broker.State) (k : ℕ) (m : Mixture w)
      → i < n
      → (steps : Steps w sites n (opening w sites n hosts stored) k m) → SparesAll steps
      → HoldsUp i m.system.program
        × (m.system.program ≢ [])
        × (m.system.all_results ≡ [])
        × ((j : ℕ) → OnlyInit (m.system.peers j))
        × (m.system.stored ≡ stored)
  silent_held hosts stored k m lt steps spares =
      let h = Steps-Held stored steps spares (record {
        held_up = HoldsUp-session i n lt;
        unanswered = refl;
        inits = λ j. tt;
        calm = λ j. refl;
        none_yet = refl;
        untouched = refl;
      }) in
      (h.held_up, HoldsUp-ne-nil i _ h.held_up, h.none_yet, h.inits, h.untouched)
