-- ===== src/Controller/Collection.antt =====
-- The results that the controller collects, and a run over workers that follow the protocol.
use key_value_cluster_perf.Base.{
  ◌<◌, suc, Bytes, List, [], ◌∷◌, Option, some, codes, ◌≡◌, refl, ap, ◌∙◌, All, arith, length, ℤ,
}
use key_value_cluster_perf.Buffer.{c_string}
use key_value_cluster_perf.Configuration.{read_string}
use key_value_cluster_perf.Mq.{Mq, done, undefined, live, DestroyResult, destroy}
use key_value_cluster_perf.StdMap.{StringMap}
use key_value_cluster_perf.Transfer.{Connection, buffer_size, receive_data_from_worker}
use key_value_cluster_perf.Transfer.Delivery.{IsUp, receive_data_lem, receive_data_no_host}
use key_value_cluster_perf.Controller.{
  Link, Collected, collect, run, connect_all, close_all, merge_results, results_file,
}
use key_value_cluster_perf.Controller.Commands.{
  get_all_nodes-answers, each, send_all_nodes-each, no_commands-each, protocol_replies,
  queues-answers,
}

-- The data connection of the link is up, its array has 1024 bytes, and so has its message.
pub record IsReady (l : Link) : Type 0 where
  pub up : IsUp l.connection
  pub array : length l.buffer ≡ buffer_size
  pub contents : Bytes
  pub message : l.message ≡ some contents
  pub whole : length contents ≡ buffer_size

abbrev pub read_all : (links : List Link) → All IsReady links → List StringMap
read_all [] ready = []
read_all (l ∷ ls) ready = read_string (c_string ready.0.contents) ∷ read_all ls ready.1

collect_first :
    (host : Bytes) (hosts : List Bytes) (l : Link) (ls : List Link) (ready : IsReady l)
    {c : Collected}
    → collect hosts ls ≡ done c
    → collect (host ∷ hosts) (l ∷ ls)
      ≡ done (record {
        all_results = read_string (c_string ready.contents) ∷ c.all_results;
        data_hosts = c.data_hosts;
        stray = suc c.stray;
      })
unfolding collect
collect_first host hosts l ls ready {c} h =
    let received =
      ap (λ (m : Option Bytes). receive_data_from_worker l.connection (host ∷ hosts) l.buffer m)
        ready.message
      ∙ receive_data_lem l.connection host hosts l.buffer ready.contents ready.up ready.array
          ready.whole in
    ground (arith, received, h)

-- With a data host for each link, the controller reads the message of each, in order, uses up the
-- data hosts, and writes one byte outside each of its arrays.
pub collect-read_all :
    (data_hosts : List Bytes) (links : List Link) (ready : All IsReady links)
    → length data_hosts ≡ length links
    → collect data_hosts links
      ≡ done (record { all_results = read_all links ready; data_hosts = []; stray = length links })
collect-read_all [] [] ready h = unfold collect in refl
collect-read_all [] (l ∷ ls) ready h = absurd (omega arith)
collect-read_all (host ∷ hosts) [] ready h = absurd (omega arith)
collect-read_all (host ∷ hosts) (l ∷ ls) ready h =
    collect_first host hosts l ls ready.0 (collect-read_all hosts ls ready.1 (omega arith))

-- With fewer data hosts than links, all of them ready, it reads the front of an empty list, which
-- is undefined behaviour.
pub collect_undefined :
    (data_hosts : List Bytes) (links : List Link)
    → All IsReady links
    → length data_hosts < length links
    → collect data_hosts links ≡ undefined
unfolding collect
collect_undefined data_hosts [] ready h = absurd (omega arith)
collect_undefined [] (l ∷ ls) ready h =
    rw (receive_data_no_host l.connection l.buffer l.message) refl
collect_undefined (host ∷ hosts) (l ∷ ls) ready h =
    let received =
      ap (λ (m : Option Bytes). receive_data_from_worker l.connection (host ∷ hosts) l.buffer m)
        ready.0.message
      ∙ receive_data_lem l.connection host hosts l.buffer ready.0.contents ready.0.up ready.0.array
          ready.0.whole in
    ground (arith, received, collect_undefined hosts ls ready.1)

-- A run in which every command host can be connected to, every worker gives the four replies of the
-- protocol, and the results are collected: no reply is wrong, each worker has been sent INIT, GO,
-- GETRESULTS and EXIT, and the file is that of the collected results.
pub run_protocol :
    (configured member : ℤ) (commands : List Connection) (data_hosts : List Bytes)
    (links : List Link) {mqs : List Mq} {c : Collected}
    → connect_all commands ≡ done mqs
    → All (λ l. l.replies ≡ protocol_replies) links
    → collect data_hosts links ≡ done c
    → run configured member commands data_hosts links
      ≡ done (record {
        sent = each (codes "INIT" ∷ codes "GO" ∷ codes "GETRESULTS" ∷ codes "EXIT" ∷ []) links;
        wrong = 0;
        collected = c;
        file = results_file configured member;
        merged = merge_results c.all_results;
      })
unfolding run
run_protocol configured member commands data_hosts links connected replies got = rw connected (
    rw (queues-answers links replies) (
      rw (get_all_nodes-answers (codes "INITDONE")) (
        rw (get_all_nodes-answers (codes "RESULTSREADY")) (
          rw got (
            rw (get_all_nodes-answers (codes "DONERESULTS")) (
              rw (get_all_nodes-answers (codes "EXITING"))
                (rw (no_commands-each links) (simp send_all_nodes-each))))))))

-- Connecting to command hosts that are up gives as many connections, and the destructor ends each
-- of them with no pointer that is not live, whatever the library returns.
pub close_all-connect_all :
    (commands : List Connection) (results : List DestroyResult)
    → All IsUp commands
    → length results ≡ length commands
    → (mqs : List Mq) × (connect_all commands ≡ done mqs)
      × (length mqs ≡ length commands)
      × (close_all mqs results ≡ done tt)
unfolding connect_all close_all destroy
close_all-connect_all [] [] up h = ([], refl, refl, refl)
close_all-connect_all [] (r ∷ rs) up h = absurd (omega arith)
close_all-connect_all (z ∷ zs) [] up h = absurd (omega arith)
close_all-connect_all (z ∷ zs) (r ∷ rs) up h =
    let (mqs, connected, as_many, closed) = close_all-connect_all zs rs up.1 (omega arith) in
    (
      record { context = live; socket = live; open_sockets = 1 } ∷ mqs,
      ground (arith, connected),
      ap suc as_many,
      ground (arith, closed),
    )
