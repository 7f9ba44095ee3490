-- ===== src/Network/Invariant.antt =====
-- What holds in every state that the processes reach, whichever moves next.
use key_value_cluster_perf.Base.{
  ℕ, ◌+◌, ◌<◌, Bytes, List, ◌∷◌, ◌++◌, some, ◌≡◌, refl, ap, sym, ◌∙◌, length, arith, inl,
}
use key_value_cluster_perf.Buffer.{Buffer, c_string}
use key_value_cluster_perf.Configuration.{read_string}
use key_value_cluster_perf.Mq.{Outcome}
use key_value_cluster_perf.Mq.Lifecycle.{done-eq}
use key_value_cluster_perf.StdMap.{StringMap}
use key_value_cluster_perf.Transfer.{fill_buffer, receive_data_from_worker}
use key_value_cluster_perf.Transfer.Delivery.{receive_data_lem, fill_buffer_lem}
use key_value_cluster_perf.Worker.{World}
use key_value_cluster_perf.Network.{Action, Site, System, start}
use key_value_cluster_perf.Network.Stages.{Call, Stage, fresh, todo}
use key_value_cluster_perf.Network.Sites.{IsSound}
use key_value_cluster_perf.Network.Program.{
  index, call_of, mine, fetched_by, numbered, mine-session, fetched_by-session, length-numbered,
  Within-session,
}
use key_value_cluster_perf.Network.Staged.{Staged, call_left, AtSite}

module _ (w : World) (sites : ℕ → Site w) (n : ℕ) where
  -- No two workers have the same address.
  abbrev pub IsApart : Type 0
  IsApart = (i j : ℕ) → i < n → j < n → (sites i).data_address ≡ (sites j).data_address → i ≡ j

  -- The data hosts are the addresses of the workers, in the order of the command connections.
  abbrev pub AreHosts : List Bytes → Type 0
  AreHosts hosts = (hosts ≡ numbered (λ i. (sites i).data_address) 0 n) × IsApart

module _ (w : World) (s₀ : w.broker.State) (sites : ℕ → Site w) (n : ℕ)
    (sound : (i : ℕ) → IsSound w s₀ (sites i)) where
  -- The message that worker `i` sends, and what the controller reads in it.
  abbrev pub message_of : ℕ → Bytes
  message_of i = (fill_buffer (sites i).buffer (sound i).text).cells

  abbrev pub result_of : ℕ → StringMap
  result_of i = read_string (c_string (message_of i))

  abbrev pub address_of : ℕ → Bytes
  address_of i = (sites i).data_address

  -- The results are those of the first workers, in order, and the others are to be fetched, of
  -- which the data hosts are the addresses; one byte was written outside each array that was
  -- filled.
  abbrev pub Books : List Bytes → List StringMap → ℕ → List Action → Type 0
  Books hosts results stray program =
      let left = fetched_by result_of program in
      (results ++ left ≡ numbered result_of 0 n)
      × (hosts ≡ fetched_by address_of program)
      × (stray + length left ≡ n)

  -- Every worker is at its stage, no reply was wrong, and the results are as above.
  pub record Inv (s : System w) : Type 0 where
    pub staged : Staged w s₀ sites n sound s.program s.peers
    pub right : s.wrong ≡ 0
    pub books : Books s.data_hosts s.all_results s.stray s.program
    pub apart : IsApart w sites n

  pub start-Inv :
      (hosts : List Bytes) (stored : w.broker.State)
      → AreHosts w sites n hosts
      → Inv (start w sites n hosts stored)
  start-Inv hosts stored (given, apart) = record {
    staged = record {
      stage = λ i. fresh;
      behind = λ i lt. mine-session n i lt;
      at = λ i lt. inl refl;
      within = Within-session n;
    };
    right = refl;
    apart = apart;
    books = (
      fetched_by-session result_of n,
      given ∙ sym (fetched_by-session address_of n),
      rw (fetched_by-session result_of n) (omega (arith, length-numbered result_of 0 n)),
    );
  }

  -- The controller receives a message of a worker whole.
  pub received_whole :
      (i : ℕ) (host : Bytes) (hosts : List Bytes) (message : Bytes)
      → message ≡ message_of i
      → receive_data_from_worker
          (sites i).link_connection
          (host ∷ hosts)
          (sites i).link_buffer
          (some message)
        ≡ Outcome.done (record { cells = message; stray = 1 }, hosts)
  received_whole i host hosts message e =
      receive_data_lem (sites i).link_connection host hosts (sites i).link_buffer message
        (sound i).link_up (sound i).link_length
        (ap (λ (m : Bytes). length m) e
          ∙ (fill_buffer_lem (sites i).buffer (sound i).text (sound i).buffer_length).0)

  -- What the controller gets of a message of a worker.
  pub received_lem :
      (i : ℕ) (host : Bytes) (hosts hosts' : List Bytes) (received : Buffer) (message : Bytes)
      → message ≡ message_of i
      → receive_data_from_worker
          (sites i).link_connection
          (host ∷ hosts)
          (sites i).link_buffer
          (some message)
        ≡ Outcome.done (received, hosts')
      → (received.cells ≡ message_of i) × (received.stray ≡ 1) × (hosts' ≡ hosts)
  received_lem i host hosts hosts' received message e h =
      let got = done-eq _ _ (sym h ∙ received_whole i host hosts message e) in
      (
        ap (λ (q : Buffer × List Bytes). q.0.cells) got ∙ e,
        ap (λ (q : Buffer × List Bytes). q.0.stray) got,
        ap (λ (q : Buffer × List Bytes). q.1) got,
      )

  -- The stage of a worker, where the controller's next call is on its connection.
  abbrev Next : Action → System w → Type 0
  Next a s =
      (t : Stage) × (cs : List Call) × (call_of a ∷ cs ≡ todo t)
      × AtSite w s₀ sites n sound (index a) t (s.peers (index a))

  pub call-Next :
      (s : System w) (a : Action) (rest : List Action)
      → s.program ≡ a ∷ rest
      → Inv s
      → (index a < n) × Next a s
  call-Next s a rest e h =
      let (lt, left) = call_left w s₀ sites n sound a rest h.staged e in
      (lt, (h.staged.stage (index a), mine (index a) rest, left, h.staged.at (index a) lt))
