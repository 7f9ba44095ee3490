-- ===== src/Worker/Protocol.antt =====
-- The session that src/SimulationController.cc leads with each worker.
use key_value_cluster_perf.Base.{
  arith, sym, Bytes, List, [], ◌∷◌, Option, none, some, ◌≡◌, refl, ap, ◌∙◌, length, codes,
}
use key_value_cluster_perf.Buffer.{Buffer}
use key_value_cluster_perf.Configuration.{write_string}
use key_value_cluster_perf.Connector.{Connector, run}
use key_value_cluster_perf.Mq.{Outcome, ◌>>=◌}
use key_value_cluster_perf.Connector.Lifetime.{Members}
use key_value_cluster_perf.Results.{get_results}
use key_value_cluster_perf.Transfer.{buffer_size, fill_buffer, send_data_to_controller}
use key_value_cluster_perf.Transfer.Delivery.{IsUp, send_data_lem, fill_buffer_lem}
use key_value_cluster_perf.Worker.{
  Construction, construct, Constructs, made, SimulatorState, ConnectorPointer, Worker, World, Turn,
  command_of, Answer, new_worker, Session, listening, handle_command, send_text, run_connector,
  report_connector, listen, new_connector,
}
use key_value_cluster_perf.Worker.Discipline.{listen_next, listen-stopped}

-- The turns in which the controller's four commands arrive.
pub record IsProtocol {T : Type 0} (t₁ t₂ t₃ t₄ : Turn T) : Type 0 where
  pub first : t₁.request ≡ codes "INIT"
  pub second : t₂.request ≡ codes "GO"
  pub third : t₃.request ≡ codes "GETRESULTS"
  pub fourth : t₄.request ≡ codes "EXIT"

module _ (w : World) where
  -- The connector after the run of a fresh one.
  abbrev pub connector_after_run : w.broker.State → Turn w.Duration → Connector w.Duration
  connector_after_run s t = (run w.codec w.broker w.plus (new_connector w) s t.files).0

  abbrev pub report : w.broker.State → Turn w.Duration → Turn w.Duration → Bytes → Buffer
  report s t t' text = record { cells = (fill_buffer t'.buffer text).cells; stray = 0 }

  abbrev pub after_init : Worker w.Duration → w.broker.State → Answer w
  after_init n s = record {
    worker = record n { connector = ConnectorPointer.live (new_connector w) };
    stored = s;
    reply = codes "INITDONE";
    sent = none;
  }

  abbrev made_init : Worker w.Duration → w.broker.State → Answer w
  made_init n s = record (after_init n s) { worker = record n { connector = made w n.connector } }

  pub step_init :
      (n : Worker w.Duration) (s : w.broker.State) (t : Turn w.Duration)
      → Constructs w t.construction
      → n.connector ≡ ConnectorPointer.unset
      → t.request ≡ codes "INIT"
      → handle_command w (command_of t.request) n s t ≡ Outcome.done (after_init n s)
  unfolding handle_command command_of made
  step_init n s t (m, made_it) q e =
      ap (λ (r : Bytes). handle_command w (command_of r) n s t) e
      ∙ ap (λ (o : Outcome Members). o >>= λ _. Outcome.done (made_init n s)) made_it
      ∙ ap
          (λ (c : ConnectorPointer w.Duration).
            Outcome.done (record (after_init n s) { worker = record n { connector = made w c } }))
          q

  constructed-stored :
      (n : Worker w.Duration) (s : w.broker.State) (k : Construction) (a : Answer w)
      → (construct w k >>= λ _. Outcome.done (made_init n s)) ≡ Outcome.done a
      → a.stored ≡ s
  constructed-stored n s k a h = ground arith

  -- INIT makes no request of the broker.
  pub init-stored :
      (n : Worker w.Duration) (s : w.broker.State) (t : Turn w.Duration) (a : Answer w)
      → t.request ≡ codes "INIT"
      → handle_command w (command_of t.request) n s t ≡ Outcome.done a
      → a.stored ≡ s
  unfolding handle_command command_of
  init-stored n s t a e h =
      constructed-stored n s t.construction a
        (sym (ap (λ (r : Bytes). handle_command w (command_of r) n s t) e) ∙ h)

  abbrev pub after_go : w.broker.State → Turn w.Duration → Answer w
  after_go s t = record {
    worker = record {
      state = SimulatorState.results;
      connector = ConnectorPointer.live (connector_after_run s t);
    };
    stored = (run w.codec w.broker w.plus (new_connector w) s t.files).1;
    reply = codes "RESULTSREADY";
    sent = none;
  }

  pub step_go :
      (n : Worker w.Duration) (s : w.broker.State) (t : Turn w.Duration)
      → n.connector ≡ ConnectorPointer.live (new_connector w)
      → t.request ≡ codes "GO"
      → handle_command w (command_of t.request) n s t ≡ Outcome.done (after_go s t)
  unfolding handle_command command_of run_connector
  step_go n s t q e =
      ap (λ (r : Bytes). handle_command w (command_of r) n s t) e
      ∙ ap (λ (c : ConnectorPointer w.Duration). run_connector w c s t) q

  abbrev pub after_report : Worker w.Duration → w.broker.State → Buffer → Answer w
  after_report n s message = record {
    worker = record n { connector = ConnectorPointer.deleted };
    stored = s;
    reply = codes "DONERESULTS";
    sent = some message;
  }

  pub step_get_results :
      (n : Worker w.Duration) (s : w.broker.State) (t : Turn w.Duration) (d : Connector w.Duration)
      (text : Bytes) (message : Buffer)
      → n.connector ≡ ConnectorPointer.live d
      → t.request ≡ codes "GETRESULTS"
      → write_string (get_results w.platform d) ≡ some text
      → send_data_to_controller t.connection (fill_buffer t.buffer text).cells t.body
        ≡ Outcome.done message
      → handle_command w (command_of t.request) n s t ≡ Outcome.done (after_report n s message)
  unfolding handle_command command_of report_connector send_text
  step_get_results n s t d text message q e written sending =
      ap (λ (r : Bytes). handle_command w (command_of r) n s t) e
      ∙ ap (λ (c : ConnectorPointer w.Duration). report_connector w c n s t) q
      ∙ ap (λ (o : Option Bytes). send_text w o t >>= λ m. Outcome.done (after_report n s m))
          written
      ∙ ap (λ (o : Outcome Buffer). o >>= λ m. Outcome.done (after_report n s m)) sending

  pub step_exit :
      (n : Worker w.Duration) (s : w.broker.State) (t : Turn w.Duration)
      → t.request ≡ codes "EXIT"
      → handle_command w (command_of t.request) n s t
        ≡ Outcome.done (record {
          worker = record n { state = SimulatorState.exit };
          stored = s;
          reply = codes "EXITING";
          sent = none;
        })
  unfolding handle_command command_of
  step_exit n s t e = ap (λ (r : Bytes). handle_command w (command_of r) n s t) e

  bind-done :
      {A B : Type 0} (o : Outcome A) (f : A → Outcome B) (b : B)
      → (o >>= f) ≡ Outcome.done b
      → (a : A) × (o ≡ Outcome.done a)
  bind-done (Outcome.done a) f b h = (a, refl)
  bind-done (Outcome.exited n) f b h = cc
  bind-done Outcome.blocked f b h = cc
  bind-done Outcome.undefined f b h = cc

  -- Where a session begins with INIT and is done, the constructor has come back.
  pub listen-Constructs :
      (s : w.broker.State) (t : Turn w.Duration) (turns : List (Turn w.Duration))
      (session : Session w)
      → t.request ≡ codes "INIT"
      → listen w new_worker s (t ∷ turns) ≡ Outcome.done session
      → Constructs w t.construction
  unfolding listen listening handle_command command_of
  listen-Constructs s t turns session e h =
      let (a, first) =
        bind-done (handle_command w (command_of t.request) new_worker s t) _ session h in
      let made_first =
        sym (ap (λ (r : Bytes). handle_command w (command_of r) new_worker s t) e) ∙ first in
      bind-done (construct w t.construction) _ a made_first

  pub listen_protocol :
      (s : w.broker.State) (t₁ t₂ t₃ t₄ : Turn w.Duration) (later : List (Turn w.Duration))
      (text : Bytes)
      → IsProtocol t₁ t₂ t₃ t₄
      → Constructs w t₁.construction
      → IsUp t₃.connection
      → length t₃.buffer ≡ buffer_size
      → length t₃.body ≡ buffer_size
      → write_string (get_results w.platform (connector_after_run s t₂)) ≡ some text
      → listen w new_worker s (t₁ ∷ t₂ ∷ t₃ ∷ t₄ ∷ later)
        ≡ Outcome.done (record {
          worker = record { state = SimulatorState.exit; connector = ConnectorPointer.deleted };
          stored = (run w.codec w.broker w.plus (new_connector w) s t₂.files).1;
          replies =
              codes "INITDONE" ∷ codes "RESULTSREADY" ∷ codes "DONERESULTS" ∷ codes "EXITING" ∷ [];
          sent = report s t₂ t₃ text ∷ [];
        })
  unfolding listening
  listen_protocol s t₁ t₂ t₃ t₄ later text p makes up h k written =
      let sending =
        send_data_lem t₃.connection (fill_buffer t₃.buffer text).cells t₃.body up
          (fill_buffer_lem t₃.buffer text h).0 k in
      let d = connector_after_run s t₂ in
      listen_next w new_worker s t₁ _ refl (step_init new_worker s t₁ makes refl p.first) (
        listen_next w _ s t₂ _ refl (step_go _ s t₂ refl p.second) (
          listen_next w _ _ t₃ _ refl
            (step_get_results _ _ t₃ d text (report s t₂ t₃ text) refl p.third written sending)
            (listen_next w _ _ t₄ later refl (step_exit _ _ t₄ p.fourth)
              (listen-stopped w _ _ later refl))))
