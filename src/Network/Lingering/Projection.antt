-- ===== src/Network/Lingering/Projection.antt =====
-- An execution with waits is one of Interleaved, with at most as many waits as steps.
use key_value_cluster_perf.Base.{
  ℕ, suc, ◌+◌, ◌*◌, ◌<◌, ◌≤◌, ◌==◌, Bool, Bool-cases, true, false, Bytes, List, [], ◌∷◌, ◌++◌, ◌≡◌,
  ◌≢◌, refl, ap, sym, ◌∙◌, inl, inr, arith,
}
use key_value_cluster_perf.Worker.{World}
use key_value_cluster_perf.Network
use key_value_cluster_perf.Network.{update, Site, Peer}
use key_value_cluster_perf.Network.Staged.{update-cases}
use key_value_cluster_perf.Network.Totals.{total, total-update, total_none}
use key_value_cluster_perf.Network.Interleaved
use key_value_cluster_perf.Network.Interleaved.{Mixture, opening}
use key_value_cluster_perf.Network.Lingering.{
  has_sent, Linger, IsFree, held_after, go, release, lingering_start, Steps, here, next,
}

abbrev pub one_if_held : Bool → ℕ
one_if_held true = 1
one_if_held false = 0

append-ne-nil : (xs : List Bytes) (x : Bytes) → xs ++ (x ∷ []) ≢ []
append-ne-nil [] x e = cc
append-ne-nil (y ∷ ys) x e = cc

module _ (w : World) (sites : ℕ → Site w) (n : ℕ) where
  -- A worker that waits has a reply in its queue: the one that it has not sent.
  abbrev HasReply : Bool → Peer w → Type 0
  HasReply held p = held ≡ true → p.replies ≢ []

  abbrev AllReplies : Linger w → Type 0
  AllReplies s = (i : ℕ) → HasReply (s.held i) (s.mixture.system.peers i)

  one_peer :
      (s : Linger w) (i : ℕ) (p : Peer w) (j : ℕ)
      → AllReplies s
      → HasReply (s.held i) p
      → HasReply (s.held j) (update s.mixture.system.peers i p j)
  one_peer s i p j h given =
      update-cases (λ (l : ℕ) (q : Peer w). HasReply (s.held l) q) s.mixture.system.peers i p j
        given (λ other. h j)

  go-HasReply :
      (s : Linger w) {m : Mixture w} (step : Interleaved.Step w sites n s.mixture m) (j : ℕ)
      → IsFree w sites n s step
      → AllReplies s
      → HasReply (held_after w sites n s step j) (m.system.peers j)
  go-HasReply s (Interleaved.Step.whole (Network.Step.send i {command} e) whole) j free h =
      let p = s.mixture.system.peers i in
      one_peer s i (record p { commands = p.commands ++ (command ∷ []) }) j h (h i)
  go-HasReply s (Interleaved.Step.whole (Network.Step.get i {replies = replies} e r) whole) j
        (inl calm) h =
      one_peer s i (record (s.mixture.system.peers i) { replies = replies }) j h
        (λ held. let never : false ≡ true = sym calm ∙ held in cc)
  go-HasReply s (Interleaved.Step.whole (Network.Step.get i {replies = replies} e r) whole) j
        (inr more) h =
      one_peer s i (record (s.mixture.system.peers i) { replies = replies }) j h (λ held. more)
  go-HasReply s
        (Interleaved.Step.whole
          (Network.Step.fetch i {j = l} {messages = messages} e first lt is_host r got)
          whole)
        j free h =
      one_peer s l (record (s.mixture.system.peers l) { messages = messages }) j h (h l)
  go-HasReply s
        (Interleaved.Step.whole (Network.Step.work i {a = a} lt bound listens waiting does) whole) j
        free h =
      elim (Bool-cases (i == j)) [
        | inl e ↦ rw e (λ held. append-ne-nil (s.mixture.system.peers i).replies a.reply)
        | inr e ↦ rw e (h j)
      ]
  go-HasReply s
        (Interleaved.Step.begin i {commands = commands} lt bound calm listens waiting is_go live) j
        free h =
      one_peer s i (record (s.mixture.system.peers i) { commands = commands }) j h (h i)
  go-HasReply s (Interleaved.Step.request step runs) j free h = h j
  go-HasReply s (Interleaved.Step.finish i lt runs ended) j free h =
      one_peer s i (Interleaved.has_run w (s.mixture.system.peers i) (s.mixture.runners i)) j h
        (λ held. append-ne-nil (s.mixture.system.peers i).replies _)

  one_more :
      (held : ℕ → Bool) (i : ℕ) (b : Bool)
      → i < n
      → total one_if_held (update held i b) n ≤ total one_if_held held n + 1
  one_more held i true lt = omega (arith, total-update one_if_held held i true n lt)
  one_more held i false lt = omega (arith, total-update one_if_held held i false n lt)

  go_total :
      (s : Linger w) {m : Mixture w} (step : Interleaved.Step w sites n s.mixture m)
      → total one_if_held (held_after w sites n s step) n ≤ total one_if_held s.held n + 1
  go_total s (Interleaved.Step.whole (Network.Step.send i e) whole) = omega arith
  go_total s (Interleaved.Step.whole (Network.Step.get i e r) whole) = omega arith
  go_total s (Interleaved.Step.whole (Network.Step.fetch i e first lt is_host r got) whole) =
      omega arith
  go_total s
        (Interleaved.Step.whole (Network.Step.work i {a = a} lt bound listens waiting does) whole) =
      one_more s.held i (has_sent a.sent) lt
  go_total s (Interleaved.Step.begin i lt bound calm listens waiting is_go live) = omega arith
  go_total s (Interleaved.Step.request step runs) = omega arith
  go_total s (Interleaved.Step.finish i lt runs ended) = omega arith

  -- `k` steps, of which `moved` are steps of Interleaved.
  pub record Projected (hosts : List Bytes) (stored : w.broker.State) (k : ℕ) (s : Linger w)
      : Type 0 where
    pub moved : ℕ
    pub path : Interleaved.Steps w sites n (opening w sites n hosts stored) moved s.mixture
    pub few : k + total one_if_held s.held n ≤ 2 * moved
    pub replies : AllReplies s

  release-HasReply :
      (s : Linger w) (i j : ℕ)
      → AllReplies s
      → HasReply (update s.held i false j) (s.mixture.system.peers j)
  release-HasReply s i j h = elim (Bool-cases (i == j)) [
    | inl e ↦ rw e (λ held. cc)
    | inr e ↦ rw e (h j)
  ]

  pub projected :
      (hosts : List Bytes) (stored : w.broker.State) {k : ℕ} {s : Linger w}
      → Steps w sites n (lingering_start w sites n hosts stored) k s
      → Projected hosts stored k s
  projected hosts stored here = record {
    moved = 0;
    path = Interleaved.Steps.here;
    few = omega (arith, total_none one_if_held (λ i. false) n (λ i lt. refl));
    replies = λ i held. cc;
  }
  projected hosts stored (next {t = t} steps (go step free)) =
      let h = projected hosts stored steps in
      record {
        moved = suc h.moved;
        path = Interleaved.Steps.next h.path step;
        few = omega (arith, h.few, go_total t step);
        replies = λ j. go-HasReply t step j free h.replies;
      }
  projected hosts stored (next {t = t} steps (release i lt held taken)) =
      let h = projected hosts stored steps in
      let fewer = total-update one_if_held t.held i false n lt in
      let one = ap one_if_held held in
      record {
        moved = h.moved;
        path = h.path;
        few = omega (arith, h.few, fewer, one);
        replies = λ j. release-HasReply t i j h.replies;
      }
