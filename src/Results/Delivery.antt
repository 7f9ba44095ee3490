-- ===== src/Results/Delivery.antt =====
-- The results of a worker reach the controller.
use mathlib.Core.Path.{subst}
use key_value_cluster_perf.Base.{
  ℕ, ◌<◌, Bytes, Lacks, lacks→Lacks, less, List, [], ◌∷◌, some, some-eq, ◌≡◌, ◌≢◌, refl, sym, ap,
  ◌∙◌, length, arith, codes, All,
}
use key_value_cluster_perf.StdMap.{insert, IsSorted}
use key_value_cluster_perf.StdMap.Laws.{insert-IsSorted}
use key_value_cluster_perf.Buffer.{Buffer, c_string}
use key_value_cluster_perf.Configuration.{write_string, read_string, is_comment}
use key_value_cluster_perf.Configuration.Clean.{IsClean, literal-IsClean, render_rest-Lacks}
use key_value_cluster_perf.Configuration.Render.{render, write_string-render}
use key_value_cluster_perf.Configuration.RoundTrip.{read_string-write_string}
use key_value_cluster_perf.Decimal.{print_nat, print_nat-Lacks}
use key_value_cluster_perf.Connector.{Connector}
use key_value_cluster_perf.Mq.{done}
use key_value_cluster_perf.Results.{Platform, get_results}
use key_value_cluster_perf.Transfer.{
  Connection, buffer_size, fill_buffer, send_data_to_controller, receive_data_from_worker,
}
use key_value_cluster_perf.Transfer.Delivery.{IsUp, receive-send, fits_whole, fill_buffer_lem}

-- The texts of the platform hold no newline and no NUL.
pub record IsPlain {T : Type 0} (p : Platform T) : Type 0 where
  pub hostname_line : Lacks b'\n' p.hostname
  pub double_line : (n : ℕ) → Lacks b'\n' (p.show_double n)
  pub duration_line : (t : T) → Lacks b'\n' (p.show_duration t)
  pub hostname_nul : Lacks 0 p.hostname
  pub double_nul : (n : ℕ) → Lacks 0 (p.show_double n)
  pub duration_nul : (t : T) → Lacks 0 (p.show_duration t)

module _ {T : Type 0} (p : Platform T) (d : Connector T) where
  -- The entries in the order of the map.
  get_results_lem :
      get_results p d
      ≡ (codes "duration", p.show_duration d.duration)
        ∷ (codes "hostname", p.hostname)
        ∷ (codes "objects", print_nat d.loaded_objects)
        ∷ (codes "size", p.show_double d.total_data_size)
        ∷ []
  unfolding get_results insert less
  get_results_lem = refl

  get_results-IsSorted : IsSorted (get_results p d)
  unfolding get_results
  get_results-IsSorted =
      insert-IsSorted _ _ _
        (insert-IsSorted _ _ _ (insert-IsSorted _ _ _ (insert-IsSorted _ _ [] tt)))

  get_results-IsClean : IsPlain p → All IsClean (get_results p d)
  unfolding is_comment
  get_results-IsClean plain = rw get_results_lem (
    literal-IsClean _ _ refl refl refl (plain.duration_line d.duration),
    (
      literal-IsClean _ _ refl refl refl plain.hostname_line,
      (
        literal-IsClean _ _ refl refl refl (print_nat-Lacks b'\n' d.loaded_objects (omega arith)),
        (literal-IsClean _ _ refl refl refl (plain.double_line d.total_data_size), tt),
      ),
    ),
  )

  pub results_written : (text : Bytes) × (write_string (get_results p d) ≡ some text)
  results_written =
      (_, write_string-render (get_results p d) get_results-IsSorted ∙ ap render get_results_lem)

  -- The text that the worker writes of its results, and that it holds no NUL.
  results_text :
      IsPlain p → (text : Bytes) × (write_string (get_results p d) ≡ some text) × Lacks 0 text
  results_text plain =
      let objects = print_nat-Lacks 0 d.loaded_objects (omega arith) in
      (
        _,
        write_string-render (get_results p d) get_results-IsSorted ∙ ap render get_results_lem,
        render_rest-Lacks 0 (codes "duration") (p.show_duration d.duration)
            ((codes "hostname", p.hostname)
              ∷ (codes "objects", print_nat d.loaded_objects)
              ∷ (codes "size", p.show_double d.total_data_size)
              ∷ [])
            refl refl (lacks→Lacks 0 (codes "duration") refl, plain.duration_nul d.duration)
            (
              (lacks→Lacks 0 (codes "hostname") refl, plain.hostname_nul),
              (
                (lacks→Lacks 0 (codes "objects") refl, objects),
                ((lacks→Lacks 0 (codes "size") refl, plain.double_nul d.total_data_size), tt),
              ),
            ),
      )

  results_ne-nil : get_results p d ≢ []
  results_ne-nil e = cc (get_results_lem, e)

  -- What is read of the worker's array, if the text fits.
  pub results_read :
      (buffer text : Bytes)
      → IsPlain p
      → length buffer ≡ buffer_size
      → write_string (get_results p d) ≡ some text
      → length text < buffer_size
      → (read_string (c_string (fill_buffer buffer text).cells) ≡ get_results p d)
        × ((fill_buffer buffer text).stray ≡ 0)
  results_read buffer text plain h written short =
      let (_whole, kept, overflow) = fill_buffer_lem buffer text h in
      let (text', written', nul) = results_text plain in
      let same_text : text' ≡ text = some-eq text' text (sym written' ∙ written) in
      let (whole, inside) = fits_whole text (subst (Lacks 0) same_text nul) short in
      let (again, rewritten, read) =
        read_string-write_string (get_results p d) results_ne-nil get_results-IsSorted
          (get_results-IsClean plain) in
      let same_again : again ≡ text = some-eq again text (sym rewritten ∙ written) in
      (ap read_string (kept ∙ whole ∙ sym same_again) ∙ read, overflow ∙ inside)

  -- Over connections that are up, results whose text is shorter than the 1024 bytes of the arrays
  -- arrive as they are: what the controller reads is the map of the worker. Nothing is written
  -- outside the worker's array, and one byte outside the controller's.
  pub results_delivered :
      (z z' : Connection) (host : Bytes) (hosts : List Bytes) (buffer body buffer' text : Bytes)
      → IsPlain p
      → IsUp z
      → IsUp z'
      → length buffer ≡ buffer_size
      → length body ≡ buffer_size
      → length buffer' ≡ buffer_size
      → write_string (get_results p d) ≡ some text
      → length text < buffer_size
      → (sent : Buffer) × (received : Buffer) × (send_data_to_controller z
            (fill_buffer buffer text).cells
            body
          ≡ done sent)
        × (receive_data_from_worker z' (host ∷ hosts) buffer' (some sent.cells)
            ≡ done (received, hosts))
        × (read_string (c_string received.cells) ≡ get_results p d)
        × ((fill_buffer buffer text).stray ≡ 0)
        × (received.stray ≡ 1)
  results_delivered z z' host hosts buffer body buffer' text plain up up' h k l written short =
      let (sent, received, sending, receiving, kept, _overflow, _none, one) =
        receive-send z z' host hosts buffer body buffer' text up up' h k l in
      let (read, inside) = results_read buffer text plain h written short in
      let same_string = kept ∙ sym (fill_buffer_lem buffer text h).1 in
      (sent, received, sending, receiving, ap read_string same_string ∙ read, inside, one)
