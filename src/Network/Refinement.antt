-- ===== src/Network/Refinement.antt =====
-- What every execution of the controller and the workers gives, whichever process moves next, is
-- what the controller's `run` over one worker after the other gives.
use mathlib.Core.Path.{subst}
use key_value_cluster_perf.Base.{
  ℕ, zero, suc, ◌<◌, Bytes, List, [], ◌∷◌, some, length, All, ◌≡◌, refl, ap, sym, ◌∙◌, arith, codes,
  ℤ,
}
use key_value_cluster_perf.Cluster.{Node, IsServed, links, all_node_results, run-listen}
use key_value_cluster_perf.Controller.{Report, connect_all, run}
use key_value_cluster_perf.Controller.Commands.{protocol_replies}
use key_value_cluster_perf.Connector
use key_value_cluster_perf.Mq.{Mq, Outcome}
use key_value_cluster_perf.Results.Delivery.{IsPlain}
use key_value_cluster_perf.Transfer.{Connection}
use key_value_cluster_perf.Worker.{World, Session, new_connector}
use key_value_cluster_perf.Worker.Protocol.{report, listen_protocol}
use key_value_cluster_perf.Network.{Site, System, Steps, start, turn_at}
use key_value_cluster_perf.Network.Sites.{IsSound, has_exited}
use key_value_cluster_perf.Network.Program.{length-numbered, numbered}
use key_value_cluster_perf.Network.Invariant.{AreHosts, Books, Inv, message_of, start-Inv}
use key_value_cluster_perf.Network.Preserved.{Steps-Inv}
use key_value_cluster_perf.Network.Progress.{over_peer}
use key_value_cluster_perf.Network.Collected.{exited, results_at, over-results}

module _ (w : World) (s₀ : w.broker.State) (sites : ℕ → Site w) (n : ℕ)
    (sound : (i : ℕ) → IsSound w s₀ (sites i)) (plain : IsPlain w.platform) where
  abbrev session_of : ℕ → Session w
  session_of i = record {
    worker = (has_exited w s₀ (sites i));
    stored = (Connector.run w.codec w.broker w.plus (new_connector w) s₀ (sites i).files).1;
    replies = protocol_replies;
    sent =
        report w s₀ (turn_at w (sites i) (codes "GO")) (turn_at w (sites i) (codes "GETRESULTS"))
          (sound i).text
        ∷ [];
  }

  -- Worker `i` alone with the controller.
  abbrev pub node_of : ℕ → Node w
  node_of i =
      let k = sites i in
      record {
        stored = s₀;
        init_turn = turn_at w k (codes "INIT");
        go_turn = turn_at w k (codes "GO");
        results_turn = turn_at w k (codes "GETRESULTS");
        exit_turn = turn_at w k (codes "EXIT");
        text = (sound i).text;
        session = session_of i;
        link = record {
          replies = protocol_replies;
          message = some (message_of w s₀ sites n sound i);
          connection = k.link_connection;
          buffer = k.link_buffer;
        };
      }

  node_of-IsServed : (i : ℕ) → IsServed w (node_of i)
  node_of-IsServed i =
      let k = sites i in
      record {
        protocol = record { first = refl; second = refl; third = refl; fourth = refl };
        ran =
            listen_protocol w s₀ (node_of i).init_turn (node_of i).go_turn (node_of i).results_turn
              (node_of i).exit_turn [] (sound i).text
              (record { first = refl; second = refl; third = refl; fourth = refl })
              (sound i).constructs (sound i).worker_up (sound i).buffer_length (sound i).body_length
              (sound i).written;
        replies = refl;
        message = refl;
        worker_up = (sound i).worker_up;
        worker_array = (sound i).buffer_length;
        worker_body = (sound i).body_length;
        controller_up = (sound i).link_up;
        controller_array = (sound i).link_length;
        written = (sound i).written;
        short = (sound i).short;
      }

  numbered-IsServed : (i k : ℕ) → All (IsServed w) (numbered node_of i k)
  numbered-IsServed i zero = tt
  numbered-IsServed i (suc k) = (node_of-IsServed i, numbered-IsServed (suc i) k)

  all_results_of :
      (i k : ℕ) → all_node_results w (numbered node_of i k) ≡ numbered (results_at w s₀ sites) i k
  all_results_of i zero = refl
  all_results_of i (suc k) = ap (◌∷◌ (results_at w s₀ sites i)) (all_results_of (suc i) k)

  links_of : (i k : ℕ) → length (links w (numbered node_of i k)) ≡ k
  links_of i zero = refl
  links_of i (suc k) = ap suc (links_of (suc i) k)

  abbrev pub RunGives : ℤ → ℤ → List Connection → List Bytes → Report → Type 0
  RunGives configured member commands hosts r =
      run configured member commands hosts (links w (numbered node_of 0 n)) ≡ Outcome.done r

  -- What the controller has got, and where the workers are, when nothing is left to do.
  abbrev pub Gives : ℤ → ℤ → List Connection → List Bytes → System w → Type 0
  Gives configured member commands hosts t =
      ((r : Report) × RunGives configured member commands hosts r
        × (t.all_results ≡ r.collected.all_results)
        × (t.data_hosts ≡ r.collected.data_hosts)
        × (t.stray ≡ r.collected.stray)
        × (t.wrong ≡ r.wrong))
      × ((i : ℕ) → i < n → t.peers i ≡ exited w)

  pub over-Gives :
      (configured member : ℤ) (commands : List Connection) (mqs : List Mq) (hosts : List Bytes)
      (t : System w)
      → connect_all commands ≡ Outcome.done mqs
      → AreHosts w sites n hosts
      → t.program ≡ []
      → Inv w s₀ sites n sound t
      → Gives configured member commands hosts t
  over-Gives configured member commands mqs hosts t connected enough none_left h =
      let (_collected, hosts_left, outside) =
        subst (Books w s₀ sites n sound t.data_hosts t.all_results t.stray) none_left h.books in
      (
        (
          _,
          run-listen w plain configured member commands hosts (numbered node_of 0 n) mqs connected
              (ap (λ (hs : List Bytes). length hs) enough.0
                ∙ length-numbered _ 0 n
                ∙ sym (links_of 0 n))
              (numbered-IsServed 0 n),
          over-results w s₀ sites n sound plain t none_left h ∙ sym (all_results_of 0 n),
          hosts_left,
          omega (arith, outside, links_of 0 n),
          h.right,
        ),
        λ i lt. over_peer w s₀ sites n sound t i none_left lt h,
      )

  -- Whichever process moves next, over sites that are sound, the data hosts being the
  -- addresses of the `n` nodes, in order and all different, and command connections that are
  -- made: when the controller has nothing left to do, it has the results, the data hosts, the
  -- wrong replies and the bytes outside the arrays that its `run` gives over one worker after
  -- the other, each alone; all workers are in the state EXIT with their connector deleted, and
  -- nothing is on its way.
  pub finished-run :
      (configured member : ℤ) (commands : List Connection) (mqs : List Mq) (hosts : List Bytes)
      (stored : w.broker.State) (k : ℕ) (t : System w)
      → connect_all commands ≡ Outcome.done mqs
      → AreHosts w sites n hosts
      → Steps w sites n (start w sites n hosts stored) k t
      → t.program ≡ []
      → ((r : Report) × RunGives configured member commands hosts r
          × (t.all_results ≡ r.collected.all_results)
          × (t.data_hosts ≡ r.collected.data_hosts)
          × (t.stray ≡ r.collected.stray)
          × (t.wrong ≡ r.wrong))
        × ((i : ℕ) → i < n → t.peers i ≡ exited w)
  finished-run configured member commands mqs hosts stored k t connected enough steps none_left =
      over-Gives configured member commands mqs hosts t connected enough none_left
        (Steps-Inv w s₀ sites n sound steps (start-Inv w s₀ sites n sound hosts stored enough))
