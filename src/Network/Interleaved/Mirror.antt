-- ===== src/Network/Interleaved/Mirror.antt =====
-- A state with workers in GO, and the state of Network that it mirrors: there such a worker has not
-- taken its command yet.
use mathlib.Core.Path.{subst, fun_ext}
use key_value_cluster_perf.Base.{
  ℕ, ◌==◌, ==_iff, Bool-cases, false, Bytes, List, [], ◌∷◌, ◌++◌, codes, ◌≡◌, refl, ap, sym, ◌∙◌,
  inl, inr, ◌⊎◌,
}
use key_value_cluster_perf.Worker.{
  World, Worker, Answer, some_of, listening, command_of, handle_command,
}
use key_value_cluster_perf.Network
use key_value_cluster_perf.Network.{
  update, Site, Peer, System, turn_at, after_work, after_send, after_get, after_fetch, cells_of,
}
use key_value_cluster_perf.Network.Interleaved.{Phase, idle, busy, over, is_busy, Mixture, IsWhole}

-- The phase, with the equation.
pub Phase-cases : (f : Phase) → (f ≡ busy) ⊎ (is_busy f ≡ false)
Phase-cases busy = inl refl
Phase-cases idle = inr refl
Phase-cases over = inr refl

module _ (w : World) where
  abbrev pub restored : Phase → Peer w → Peer w
  restored busy p = record p { commands = codes "GO" ∷ p.commands }
  restored f p = p

  -- The mirrored state.
  abbrev pub mirror : Mixture w → System w
  mirror m = record m.system { peers = λ i. restored (m.phase i) (m.system.peers i) }

  pub restored_calm : (f : Phase) (p : Peer w) → is_busy f ≡ false → restored f p ≡ p
  restored_calm busy p h = cc
  restored_calm idle p h = refl
  restored_calm over p h = refl

  pub restored_replies : (f : Phase) (p : Peer w) → (restored f p).replies ≡ p.replies
  restored_replies busy p = refl
  restored_replies idle p = refl
  restored_replies over p = refl

  pub restored_messages : (f : Phase) (p : Peer w) → (restored f p).messages ≡ p.messages
  restored_messages busy p = refl
  restored_messages idle p = refl
  restored_messages over p = refl

  pub restored_worker : (f : Phase) (p : Peer w) → (restored f p).worker ≡ p.worker
  restored_worker busy p = refl
  restored_worker idle p = refl
  restored_worker over p = refl

  abbrev sent : Peer w → Bytes → Peer w
  sent p command = record p { commands = p.commands ++ (command ∷ []) }

  restored-sent :
      (f : Phase) (p : Peer w) (command : Bytes)
      → sent (restored f p) command ≡ restored f (sent p command)
  restored-sent busy p command = refl
  restored-sent idle p command = refl
  restored-sent over p command = refl

  abbrev replied : Peer w → List Bytes → Peer w
  replied p replies = record p { replies = replies }

  restored-replied :
      (f : Phase) (p : Peer w) (replies : List Bytes)
      → replied (restored f p) replies ≡ restored f (replied p replies)
  restored-replied busy p replies = refl
  restored-replied idle p replies = refl
  restored-replied over p replies = refl

  abbrev delivered : Peer w → List Bytes → Peer w
  delivered p messages = record p { messages = messages }

  restored-delivered :
      (f : Phase) (p : Peer w) (messages : List Bytes)
      → delivered (restored f p) messages ≡ restored f (delivered p messages)
  restored-delivered busy p messages = refl
  restored-delivered idle p messages = refl
  restored-delivered over p messages = refl

  abbrev has_worked : Peer w → List Bytes → Answer w → Peer w
  has_worked p commands a = record {
    commands = commands;
    replies = p.replies ++ (a.reply ∷ []);
    messages = p.messages ++ cells_of w (some_of w a.sent);
    worker = a.worker;
  }

  -- The mirrored peers, where one peer and its phase change.
  pub mirror-update :
      (peers : ℕ → Peer w) (phase : ℕ → Phase) (i : ℕ) (p : Peer w) (f : Phase)
      → update (λ j. restored (phase j) (peers j)) i (restored f p)
        ≡ (λ j. restored (update phase i f j) (update peers i p j))
  mirror-update peers phase i p f =
      fun_ext (λ j. elim (Bool-cases (i == j)) [ inl e ↦ rw e refl | inr e ↦ rw e refl ])

  -- The same, where the phase stays.
  mirror-peer :
      (peers : ℕ → Peer w) (phase : ℕ → Phase) (i : ℕ) (p q : Peer w)
      → q ≡ restored (phase i) p
      → update (λ j. restored (phase j) (peers j)) i q
        ≡ (λ j. restored (phase j) (update peers i p j))
  mirror-peer peers phase i p q h = fun_ext (λ j. elim (Bool-cases (i == j)) [
    | inl e ↦ rw e (h ∙ ap (λ (m : ℕ). restored (phase m) p) ((==_iff i j).0 e))
    | inr e ↦ rw e refl
  ])

  module _ (sites : ℕ → Site w) (n : ℕ) where
    abbrev MovesTo : Mixture w → System w → (ℕ → Peer w) → Type 0
    MovesTo m t peers = Network.Step w sites n (mirror m) (record t { peers = peers })

    -- The step of the mirrored states.
    pub mirror-Step :
        (m : Mixture w) {t : System w} (step : Network.Step w sites n m.system t)
        → IsWhole w sites n m step
        → Network.Step w sites n (mirror m) (mirror (record m { system = t }))
    mirror-Step m (Network.Step.send i {command} {rest} e) h =
        let p = m.system.peers i in
        subst (MovesTo m (after_send w m.system rest i command))
          (mirror-peer m.system.peers m.phase i (sent p command) _
            (restored-sent (m.phase i) p command))
          (Network.Step.send i e)
    mirror-Step m (Network.Step.get i {expected} {reply} {replies} {rest} e r) h =
        let p = m.system.peers i in
        subst (MovesTo m (after_get w m.system rest i expected reply replies))
          (mirror-peer m.system.peers m.phase i (replied p replies) _
            (restored-replied (m.phase i) p replies))
          (Network.Step.get i e (restored_replies (m.phase i) p ∙ r))
    mirror-Step m
          (Network.Step.fetch i {j} {message} {host} {messages} {others} {hosts} {received} {rest} e
            first lt is_host r got)
          h =
        let p = m.system.peers j in
        subst (MovesTo m (after_fetch w m.system rest j messages received hosts))
          (mirror-peer m.system.peers m.phase j (delivered p messages) _
            (restored-delivered (m.phase j) p messages))
          (Network.Step.fetch i e first lt is_host (restored_messages (m.phase j) p ∙ r) got)
    mirror-Step m (Network.Step.work i {command} {commands} {a} lt bound listens waiting does) h =
        let p = m.system.peers i in
        let calm = restored_calm (m.phase i) p h.0 in
        let same_worker = restored_worker (m.phase i) p in
        subst (MovesTo m (after_work w m.system i commands a))
          (mirror-peer m.system.peers m.phase i (has_worked p commands a) _ (
            ap (λ (q : Peer w). has_worked q commands a) calm
            ∙ sym (restored_calm (m.phase i) (has_worked p commands a) h.0)))
          (Network.Step.work i lt bound
            (ap (λ (v : Worker w.Duration). listening v.state) same_worker ∙ listens)
            (ap (λ (q : Peer w). q.commands) calm ∙ waiting)
            (ap
                (λ (v : Worker w.Duration).
                  handle_command w (command_of command) v m.system.stored
                    (turn_at w (sites i) command))
                same_worker
              ∙ does))
