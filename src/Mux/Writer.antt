-- ===== src/Mux/Writer.antt =====
-- crates/spdy-mux/src/mux/writer.rs: what the writer task does with one command, and its exchange
-- with the workers after a flush.
pub mod Wire
pub mod Closes
pub mod Open
pub mod Start
pub mod Loop
pub mod Queues
pub mod Turns
pub mod Empties
pub mod Watchdog
use kube_portforward.Prelude.{ℕ, ◌+◌, List, [], ◌∷◌, ◌++◌, Bool, true, false, length, if◌then◌else◌}
use kube_portforward.Prelude.Maps.{update}
use kube_portforward.Error.{ok, err}
use kube_portforward.Wire.{Bytes}
use kube_portforward.Frame.{Headers}
use kube_portforward.Flate.{Flate}
use kube_portforward.Codec.{
  SpdyCodec, encode_data, encode_ping, encode_window_update, encode_goaway, encode_rst_stream,
  encode_syn_stream,
}
use kube_portforward.Mux.{goaway_status_ok}
use kube_portforward.Mux.Channel.{Mpsc, sent, full, disconnected}
use kube_portforward.Mux.Commands.{MuxCommand, StreamRegistration}
use kube_portforward.Mux.Reader.{worker_of}

-- The transport, a `WsFrameWriter` under `timeout`: the answers of the writes to come, `true` for
-- `Ok(Ok(()))`; when none is left, a write times out. `wire` has the payloads that were written.
pub record Sink : Type 0 where
  pub answers : List Bool
  pub wire : List Bytes
  pub pongs : List Bytes

pub record Writer (flate : Flate) : Type 0 where
  pub sink : Sink
  pub codec : SpdyCodec flate
  pub pending_closes : List ℕ

abbrev next_answer : List Bool → Bool
next_answer [] = false
next_answer (a ∷ answers) = a

abbrev later_answers : List Bool → List Bool
later_answers [] = []
later_answers (a ∷ answers) = answers

-- `timeout(write_timeout, writer.write_binary(payload))`, and `write_pong`.
unfoldable pub write_binary : Bytes → Sink → Bool × Sink
write_binary payload s = (
  next_answer s.answers,
  record s {
    answers = later_answers s.answers;
    wire = if next_answer s.answers then s.wire ++ payload ∷ [] else s.wire;
  },
)

unfoldable pub write_pong : Bytes → Sink → Bool × Sink
write_pong payload s = (
  next_answer s.answers,
  record s {
    answers = later_answers s.answers;
    pongs = if next_answer s.answers then s.pongs ++ payload ∷ [] else s.pongs;
  },
)

-- The frame of a command that is one frame and is not handled inline.
unfoldable pub encode_command : MuxCommand → Bytes
encode_command (MuxCommand.open_stream_pair error_id data_id error_headers data_headers) = []
encode_command (MuxCommand.send_ws_pong payload) = []
encode_command (MuxCommand.close_stream stream_id status) = []
encode_command (MuxCommand.send_data stream_id payload fin) = encode_data stream_id payload fin
encode_command (MuxCommand.send_raw_frame frame) = frame
encode_command (MuxCommand.encode_ping id) = encode_ping id
encode_command (MuxCommand.encode_window_update stream_id delta) =
    encode_window_update stream_id delta
encode_command (MuxCommand.go_away last_good_stream_id) =
    encode_goaway last_good_stream_id goaway_status_ok

-- `(had_error, bytes_written)`, and the state.
abbrev pub Processed : Flate → Type 0
Processed flate = Bool × ℕ × Writer flate

module _ {flate : Flate} where
  -- `write_with_timeout!`: on success, go on with the count.
  unfoldable pub write_with_timeout :
      Bytes → ℕ → Writer flate → (ℕ → Writer flate → Processed flate) → Processed flate
  unfolding write_binary
  write_with_timeout payload bytes_written w next =
      let (written, sink') = write_binary payload w.sink in
      let w' = record w { sink = sink' } in
      elim written [
        | true ↦ next (bytes_written + length payload) w'
        | false ↦ (true, bytes_written, w')
      ]

  -- A SYN_STREAM frame without FIN.
  unfoldable pub write_syn :
      ℕ → Headers → ℕ → Writer flate → (ℕ → Writer flate → Processed flate) → Processed flate
  unfolding write_with_timeout
  write_syn stream_id headers bytes_written w next =
      let (encoded, codec') = encode_syn_stream w.codec stream_id headers false in
      let w' = record w { codec = codec' } in
      elim encoded [
        | ok frame ↦ write_with_timeout frame bytes_written w' next
        | err e ↦ (true, bytes_written, w')
      ]

  abbrev pub finished : ℕ → Writer flate → Processed flate
  finished n w = (false, n, w)

  -- The three writes of OpenStreamPair, from the last to the first.
  unfoldable pub half_close_error : ℕ → ℕ → Writer flate → Processed flate
  unfolding write_with_timeout
  half_close_error error_id n w = write_with_timeout (encode_data error_id [] true) n w finished

  unfoldable pub open_data : ℕ → ℕ → Headers → ℕ → Writer flate → Processed flate
  unfolding write_syn half_close_error
  open_data error_id data_id data_headers n w =
      write_syn data_id data_headers n w (half_close_error error_id)

  unfoldable pub process_open_pair : ℕ → ℕ → Headers → Headers → Writer flate → Processed flate
  unfolding write_syn open_data
  process_open_pair error_id data_id error_headers data_headers w =
      write_syn error_id error_headers 0 w (open_data error_id data_id data_headers)

  abbrev pub queue_close : ℕ → ℕ → Writer flate → Processed flate
  queue_close stream_id n w =
      (false, n, record w { pending_closes = w.pending_closes ++ stream_id ∷ [] })

  unfoldable pub process_close : ℕ → ℕ → Writer flate → Processed flate
  unfolding write_with_timeout
  process_close stream_id status w =
      write_with_timeout (encode_rst_stream stream_id status) 0 w (queue_close stream_id)

  unfoldable pub process_writer_command : MuxCommand → Writer flate → Processed flate
  unfolding process_open_pair process_close write_pong encode_command write_with_timeout
  process_writer_command (MuxCommand.open_stream_pair error_id data_id error_headers data_headers)
        w =
      process_open_pair error_id data_id error_headers data_headers w
  process_writer_command (MuxCommand.send_ws_pong payload) w =
      let (written, sink') = write_pong payload w.sink in
      (if written then false else true, 0, record w { sink = sink' })
  process_writer_command (MuxCommand.close_stream stream_id status) w =
      process_close stream_id status w
  process_writer_command command w = write_with_timeout (encode_command command) 0 w finished

  -- A run of commands that are at hand, as in each branch of the loop: it stops at the first error.
  -- The last component lists what was not taken.
  unfoldable pub process_batch :
      List MuxCommand → Writer flate → Bool × ℕ × Writer flate × List MuxCommand
  unfolding process_writer_command
  process_batch [] w = (false, 0, w, [])
  process_batch (c ∷ cs) w =
      let (had_error, n, w') = process_writer_command c w in
      let (had_error', n', w'', left) = process_batch cs w' in
      if had_error then (true, n, w', cs) else (had_error', n + n', w'', left)

-- The deferred close notifications: the channels, those to be tried again, and `had_error`. On
-- `Closed` the loop stops, and the rest are gone.
module _ (mpsc : Mpsc) where
  abbrev pub Registrations : Type 0
  Registrations = ℕ → mpsc.Chan StreamRegistration

  unfoldable pub drain_closes : List ℕ → Registrations → Registrations × List ℕ × Bool
  drain_closes [] txs = (txs, [], false)
  drain_closes (stream_id ∷ closes) txs =
      let worker = worker_of stream_id in
      let (r, tx) =
        mpsc.try_send StreamRegistration (txs worker) (StreamRegistration.closes stream_id) in
      let txs' = update txs worker tx in
      let (txs'', requeued, had_error) = drain_closes closes txs' in
      elim r [
        | sent ↦ (txs'', requeued, had_error)
        | full ↦ (txs'', stream_id ∷ requeued, had_error)
        | disconnected ↦ (txs', [], true)
      ]
