-- ===== src/Network/Preserved.antt =====
-- Each step of the processes keeps what holds in every state.
use mathlib.Core.Path.{subst}
use key_value_cluster_perf.Base.{
  inr, ℕ, ◌<◌, Bytes, List, [], ◌∷◌, ◌++◌, append_assoc, some, ◌≡◌, refl, ap, sym, ◌∙◌, arith,
}
use key_value_cluster_perf.Buffer.{Buffer, c_string}
use key_value_cluster_perf.Configuration.{read_string}
use key_value_cluster_perf.Mq.{Outcome}
use key_value_cluster_perf.Transfer.{receive_data_from_worker}
use key_value_cluster_perf.Worker.{World, Answer, command_of, handle_command}
use key_value_cluster_perf.Network.{
  Action, turn_at, Site, System, Step, send, get, fetch, work, Steps, here, next, after_fetch,
  after_get, after_send, after_work,
}
use key_value_cluster_perf.Network.Sites.{IsSound}
use key_value_cluster_perf.Network.Calls.{send-At, get-At, fetch-At}
use key_value_cluster_perf.Network.Rounds.{at-Rounds}
use key_value_cluster_perf.Network.Program.{fetched_by}
use key_value_cluster_perf.Network.Staged.{call-Staged, work-Staged}
use key_value_cluster_perf.Network.Invariant.{
  Inv, Books, address_of, result_of, call-Next, received_lem,
}

module _ (w : World) (s₀ : w.broker.State) (sites : ℕ → Site w) (n : ℕ)
    (sound : (i : ℕ) → IsSound w s₀ (sites i)) where
  send-Inv :
      (s : System w) (i : ℕ) (command : Bytes) (rest : List Action)
      → s.program ≡ Action.send i command ∷ rest
      → Inv w s₀ sites n sound s
      → Inv w s₀ sites n sound (after_send w s rest i command)
  send-Inv s i command rest e h = record {
    staged =
        call-Staged w s₀ sites n sound (Action.send i command) rest _ h.staged e
          (λ t cs. send-At w s₀ (sites i) (sound i).text t (s.peers i) command cs);
    right = h.right;
    apart = h.apart;
    books = subst (Books w s₀ sites n sound s.data_hosts s.all_results s.stray) e h.books;
  }

  get-Inv :
      (s : System w) (i : ℕ) (expected reply : Bytes) (replies : List Bytes) (rest : List Action)
      → s.program ≡ Action.get i expected ∷ rest
      → (s.peers i).replies ≡ reply ∷ replies
      → Inv w s₀ sites n sound s
      → Inv w s₀ sites n sound (after_get w s rest i expected reply replies)
  get-Inv s i expected reply replies rest e r h =
      let (_lt, (t, cs, left, at)) =
        call-Next w s₀ sites n sound s (Action.get i expected) rest e h in
      let right =
        (get-At w s₀ (sites i) (sound i).text t (s.peers i) expected reply replies cs left at
          r).0 in
      record {
        staged =
            call-Staged w s₀ sites n sound (Action.get i expected) rest _ h.staged e
              (λ t' cs' left' at'.
                (get-At w s₀ (sites i) (sound i).text t' (s.peers i) expected reply replies cs'
                  left' at' r).1);
        right = rw (right, h.right) refl;
        apart = h.apart;
        books = subst (Books w s₀ sites n sound s.data_hosts s.all_results s.stray) e h.books;
      }

  fetch-Inv :
      (s : System w) (i : ℕ) (message : Bytes) (messages hosts : List Bytes) (received : Buffer)
      (rest : List Action)
      → s.program ≡ Action.fetch i ∷ rest
      → (s.peers i).messages ≡ message ∷ messages
      → receive_data_from_worker
          (sites i).link_connection
          s.data_hosts
          (sites i).link_buffer
          (some message)
        ≡ Outcome.done (received, hosts)
      → Inv w s₀ sites n sound s
      → Inv w s₀ sites n sound (after_fetch w s rest i messages received hosts)
  fetch-Inv s i message messages hosts received rest e r got h =
      let (_lt, (t, cs, left, at)) = call-Next w s₀ sites n sound s (Action.fetch i) rest e h in
      let (collected, addresses, outside) =
        subst (Books w s₀ sites n sound s.data_hosts s.all_results s.stray) e h.books in
      let (read, stray, hosts_left) =
        received_lem w s₀ sites n sound i (address_of w s₀ sites n sound i)
          (fetched_by (address_of w s₀ sites n sound) rest) hosts received message
          (fetch-At w s₀ (sites i) (sound i).text t (s.peers i) message messages cs left at r).0
          (subst
            (λ (hs : List Bytes).
              receive_data_from_worker (sites i).link_connection hs (sites i).link_buffer
                (some message)
              ≡ Outcome.done (received, hosts))
            addresses got) in
      record {
        staged =
            call-Staged w s₀ sites n sound (Action.fetch i) rest _ h.staged e (λ t' cs' left' at'.
              (fetch-At w s₀ (sites i) (sound i).text t' (s.peers i) message messages cs' left' at'
                r).1);
        right = h.right;
        apart = h.apart;
        books = (
          append_assoc s.all_results (read_string (c_string received.cells) ∷ []) _
              ∙ ap
                  (λ (b : Bytes).
                    s.all_results
                    ++ (read_string (c_string b) ∷ fetched_by (result_of w s₀ sites n sound) rest))
                  read
              ∙ collected,
          hosts_left,
          rw stray (omega (arith, outside)),
        );
      }

  -- The address that is taken off the list is that of the worker whose turn it is.
  fetched-eq :
      (s : System w) (i j : ℕ) (host : Bytes) (others : List Bytes) (rest : List Action)
      → s.program ≡ Action.fetch i ∷ rest
      → s.data_hosts ≡ host ∷ others
      → j < n
      → (sites j).data_address ≡ host
      → Inv w s₀ sites n sound s
      → i ≡ j
  fetched-eq s i j host others rest e first lt is_host h =
      let (_collected, addresses, _outside) =
        subst (Books w s₀ sites n sound s.data_hosts s.all_results s.stray) e h.books in
      let same_host : address_of w s₀ sites n sound i ≡ host = cc in
      h.apart i j (call-Next w s₀ sites n sound s (Action.fetch i) rest e h).0 lt
        (same_host ∙ sym is_host)

  -- A round of a worker.
  work-Inv :
      (s : System w) (i : ℕ) (command : Bytes) (commands : List Bytes) (a : Answer w)
      → i < n
      → (s.peers i).commands ≡ command ∷ commands
      → handle_command w
          (command_of command)
          (s.peers i).worker
          s.stored
          (turn_at w (sites i) command)
        ≡ Outcome.done a
      → Inv w s₀ sites n sound s
      → Inv w s₀ sites n sound (after_work w s i commands a)
  work-Inv s i command commands a lt waiting does h = record {
    staged = work-Staged w s₀ sites n sound i _ h.staged lt (λ t at.
        inr
          (at-Rounds w s₀ sites n sound i t s.stored command commands a (s.peers i) at waiting
            does).1);
    right = h.right;
    apart = h.apart;
    books = h.books;
  }

  pub Step-Inv :
      {s t : System w} → Step w sites n s t → Inv w s₀ sites n sound s → Inv w s₀ sites n sound t
  Step-Inv (send i {command} {rest} e) h = send-Inv _ i command rest e h
  Step-Inv (get i {expected} {reply} {replies} {rest} e r) h =
      get-Inv _ i expected reply replies rest e r h
  Step-Inv {s}
        (fetch i {j} {message} {host} {messages} {others} {hosts} {received} {rest} e first lt
          is_host r got)
        h =
      subst
        (λ (m : ℕ).
          (s.peers m).messages ≡ message ∷ messages
          → Inv w s₀ sites n sound (after_fetch w s rest m messages received hosts))
        (fetched-eq s i j host others rest e first lt is_host h)
        (λ r'. fetch-Inv s i message messages hosts received rest e r' got h) r
  Step-Inv (work i {command} {commands} {a} lt bound _listens waiting does) h =
      work-Inv _ i command commands a lt waiting does h

  pub Steps-Inv :
      {s t : System w} {k : ℕ}
      → Steps w sites n s k t
      → Inv w s₀ sites n sound s
      → Inv w s₀ sites n sound t
  Steps-Inv here h = h
  Steps-Inv (next steps step) h = Step-Inv step (Steps-Inv steps h)
