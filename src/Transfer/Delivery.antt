-- ===== src/Transfer/Delivery.antt =====
-- What the controller reads of the text that a worker wrote.
use key_value_cluster_perf.Base.{
  [], Option, refl, Lacks, ◌<◌, ℕ, suc, ◌+◌, ◌-◌, Bytes, true, List, ◌∷◌, some, ◌≡◌, ap, ◌∙◌,
  length, take, set, length-set, arith,
}
use key_value_cluster_perf.Buffer.{memcpy, Buffer, strcpy, write_at, c_string}
use key_value_cluster_perf.Buffer.Strings.{
  c_string_self, take_all, length-strcpy, stray-strcpy, c_string-set-strcpy, memcpy_whole,
}
use key_value_cluster_perf.Mq.{undefined, done, destroy}
use key_value_cluster_perf.Transfer.{
  Connection, buffer_size, fill_buffer, send_data_to_controller, receive_data_from_worker,
}

-- Every call of the library on the connection succeeds, but perhaps the last.
pub record IsUp (z : Connection) : Type 0 where
  pub created : z.created ≡ true
  pub opened : z.opened ≡ true
  pub attached : z.attached ≡ true

-- A write at the last index, and one behind it.
write_at_last :
    (b : Buffer) (n v : ℕ)
    → length b.cells ≡ suc n
    → write_at b n v ≡ record { cells = set b.cells n v; stray = b.stray }
unfolding write_at
write_at_last b n v h = ground arith

write_at_end :
    (b : Buffer) (n v : ℕ)
    → length b.cells ≡ n
    → write_at b n v ≡ record { cells = b.cells; stray = suc b.stray }
unfolding write_at
write_at_end b n v h = ground arith

pub fill_buffer_lem :
    (buffer text : Bytes)
    → length buffer ≡ buffer_size
    → (length (fill_buffer buffer text).cells ≡ buffer_size)
      × (c_string (fill_buffer buffer text).cells ≡ take (buffer_size - 1) (c_string text))
      × ((fill_buffer buffer text).stray ≡ length (c_string text) + 1 - buffer_size)
unfolding fill_buffer
fill_buffer_lem buffer text h =
    let copied = length-strcpy text buffer ∙ h in
    rw (write_at_last (strcpy text buffer) 1023 0 copied) (
      length-set (strcpy text buffer).cells 1023 0 ∙ copied,
      c_string-set-strcpy text buffer 1023 h,
      stray-strcpy text buffer ∙ ap (λ (l : ℕ). length (c_string text) + 1 - l) h,
    )

pub send_data_lem :
    (z : Connection) (buffer body : Bytes)
    → IsUp z
    → length buffer ≡ buffer_size
    → length body ≡ buffer_size
    → send_data_to_controller z buffer body ≡ done (record { cells = buffer; stray = 0 })
unfolding send_data_to_controller destroy
send_data_lem z buffer body up h k = ground (arith, memcpy_whole buffer_size buffer body h k)

pub receive_data_lem :
    (z : Connection) (host : Bytes) (hosts : List Bytes) (buffer message : Bytes)
    → IsUp z
    → length buffer ≡ buffer_size
    → length message ≡ buffer_size
    → receive_data_from_worker z (host ∷ hosts) buffer (some message)
      ≡ done (record { cells = message; stray = 1 }, hosts)
unfolding receive_data_from_worker destroy
receive_data_lem z host hosts buffer message up h k = ground (
  arith,
  memcpy_whole buffer_size message buffer k h,
  write_at_end (record { cells = message; stray = 0 }) buffer_size 0 k,
)

-- Over connections that are up, whatever the arrays held before: the controller reads the text of
-- the worker up to its first NUL, cut to 1023 bytes. The worker's `strcpy` writes outside its array
-- as many bytes as the text and its NUL are over 1024, and the controller writes one byte outside
-- its own array, always.
pub receive-send :
    (z z' : Connection) (host : Bytes) (hosts : List Bytes) (buffer body buffer' text : Bytes)
    → IsUp z
    → IsUp z'
    → length buffer ≡ buffer_size
    → length body ≡ buffer_size
    → length buffer' ≡ buffer_size
    → (sent : Buffer) × (received : Buffer) × (send_data_to_controller z
          (fill_buffer buffer text).cells
          body
        ≡ done sent)
      × (receive_data_from_worker z' (host ∷ hosts) buffer' (some sent.cells)
          ≡ done (received, hosts))
      × (c_string received.cells ≡ take (buffer_size - 1) (c_string text))
      × ((fill_buffer buffer text).stray ≡ length (c_string text) + 1 - buffer_size)
      × (sent.stray ≡ 0)
      × (received.stray ≡ 1)
receive-send z z' host hosts buffer body buffer' text up up' h k l =
    let (full, text_kept, overflow) = fill_buffer_lem buffer text h in
    let cells = (fill_buffer buffer text).cells in
    (
      record { cells = cells; stray = 0 },
      record { cells = cells; stray = 1 },
      send_data_lem z cells body up full k,
      receive_data_lem z' host hosts buffer' cells up' l full,
      text_kept,
      overflow,
      refl,
      refl,
    )

-- A text that fits in the array is read whole, and none of it is written outside the array.
pub fits_whole :
    (text : Bytes)
    → Lacks 0 text
    → length text < buffer_size
    → (take (buffer_size - 1) (c_string text) ≡ text)
      × (length (c_string text) + 1 - buffer_size ≡ 0)
fits_whole text plain short =
    let whole = c_string_self text plain in
    (
      ap (take 1023) whole ∙ take_all 1023 text (omega arith),
      omega (arith, ap (λ (s : Bytes). length s) whole),
    )

-- Over a connection that is up a message is sent, whatever the arrays hold.
pub send_data_done :
    (z : Connection) (buffer body : Bytes)
    → IsUp z
    → (sent : Buffer) × (send_data_to_controller z buffer body ≡ done sent)
unfolding send_data_to_controller destroy
send_data_done z buffer body up = (memcpy buffer_size buffer body, ground arith)

-- With no data host left the controller reads the front of an empty list.
pub receive_data_no_host :
    (z : Connection) (buffer : Bytes) (received : Option Bytes)
    → receive_data_from_worker z [] buffer received ≡ undefined
unfolding receive_data_from_worker
receive_data_no_host z buffer received = refl
