-- ===== src/Mux/Writer/Loop.antt =====
-- crates/spdy-mux/src/mux/writer.rs: the select! loop of `run_writer`.
use kube_portforward.Prelude.{
  ℕ, ◌+◌, ◌*◌, ◌-◌, ◌%◌, ◌^◌, List, [], ◌∷◌, ◌++◌, Bool, true, false, not, ◌&&◌, ◌==◌, ltb, length,
  take, drop, if◌then◌else◌,
}
use kube_portforward.Flate.{Flate}
use kube_portforward.Codec.{encode_ping}
use kube_portforward.Mux.Channel.{Mpsc}
use kube_portforward.Mux.Commands.{MuxCommand}
use kube_portforward.Mux.Writer.{Writer, Registrations, write_binary, process_batch, drain_closes}
use kube_portforward.Mux.Writer.Start.{flush, start_writer}

abbrev pub write_batch_cap : ℕ
write_batch_cap = 64

abbrev pub opportunistic_cap : ℕ
opportunistic_cap = write_batch_cap - 1

-- The task between two turns of the loop; its three queues hold what was sent to it. Instants are
-- numbers of nanoseconds.
pub record WriterTask (flate : Flate) (mpsc : Mpsc) : Type 0 where
  pub writer : Writer flate
  pub window_rx : List MuxCommand
  pub control_rx : List MuxCommand
  pub cmd_rx : List MuxCommand
  pub close_reg_txs : Registrations mpsc
  pub ping_id : ℕ
  pub bytes_since_flush : ℕ
  pub last_writer_progress : ℕ
  pub is_cancelled : Bool

-- What one `select!` finds: what has been sent since the last turn, and which of the other branches
-- are ready. The late ones are sent after its look at their channel and before the branch that is
-- taken reads it; `is_closed` says that the senders of a channel are gone.
pub record Found : Type 0 where
  pub is_cancelled : Bool
  pub windows : List MuxCommand
  pub controls : List MuxCommand
  pub commands : List MuxCommand
  pub late_controls : List MuxCommand
  pub late_commands : List MuxCommand
  pub window_is_closed : Bool
  pub control_is_closed : Bool
  pub cmd_is_closed : Bool
  pub ping_tick : Bool
  pub stall_tick : Bool
  pub now : ℕ

module _ {flate : Flate} {mpsc : Mpsc} where
  unfoldable pub receive : Found → WriterTask flate mpsc → WriterTask flate mpsc
  receive found t = record t {
    window_rx = t.window_rx ++ found.windows;
    control_rx = t.control_rx ++ found.controls;
    cmd_rx = t.cmd_rx ++ found.commands;
  }

  -- A branch yields `had_error` and the task. The first takes all that its channel has.
  unfoldable pub on_windows :
      MuxCommand → List MuxCommand → WriterTask flate mpsc → Bool × WriterTask flate mpsc
  unfolding process_batch
  on_windows c cs t =
      let (had_error, n, writer, left) = process_batch (c ∷ cs) t.writer in
      (
        had_error,
        record t { writer = writer; window_rx = left; bytes_since_flush = t.bytes_since_flush + n },
      )

  -- One, and as many more as the cap allows.
  unfoldable pub on_controls :
      MuxCommand → List MuxCommand → WriterTask flate mpsc → Bool × WriterTask flate mpsc
  unfolding process_batch
  on_controls c cs t =
      let (had_error, n, writer, left) = process_batch (c ∷ take opportunistic_cap cs) t.writer in
      (
        had_error,
        record t {
          writer = writer;
          control_rx = left ++ drop opportunistic_cap cs;
          bytes_since_flush = t.bytes_since_flush + n;
        },
      )

  -- The control commands that have come meanwhile go first.
  unfoldable pub drain_controls : WriterTask flate mpsc → Bool × WriterTask flate mpsc
  unfolding process_batch
  drain_controls t =
      let (had_error, n, writer, left) = process_batch t.control_rx t.writer in
      (
        had_error,
        record t {
          writer = writer;
          control_rx = left;
          bytes_since_flush = t.bytes_since_flush + n;
        },
      )

  unfoldable pub send_commands :
      MuxCommand → List MuxCommand → WriterTask flate mpsc → Bool × WriterTask flate mpsc
  unfolding process_batch
  send_commands c cs t =
      let (had_error, n, writer, left) = process_batch (c ∷ take opportunistic_cap cs) t.writer in
      (
        had_error,
        record t {
          writer = writer;
          cmd_rx = left ++ drop opportunistic_cap cs;
          bytes_since_flush = t.bytes_since_flush + n;
        },
      )

  unfoldable pub on_commands :
      Found → MuxCommand → List MuxCommand → WriterTask flate mpsc → Bool × WriterTask flate mpsc
  unfolding drain_controls send_commands
  on_commands found c cs t =
      let late = record t { control_rx = t.control_rx ++ found.late_controls; cmd_rx = cs } in
      let (had_error, t') = drain_controls late in
      if had_error then (true, t') else send_commands c cs t'

  unfoldable pub on_ping_tick : WriterTask flate mpsc → Bool × WriterTask flate mpsc
  unfolding write_binary
  on_ping_tick t =
      let (written, sink) = write_binary (encode_ping t.ping_id) t.writer.sink in
      (
        not written,
        record t { writer = record (t.writer) { sink = sink }; ping_id = (t.ping_id + 2) % 2 ^ 32 },
      )

  -- Whether the loop goes on, from here on.
  unfoldable pub flush_batch : ℕ → WriterTask flate mpsc → Bool × WriterTask flate mpsc
  unfolding flush
  flush_batch now t =
      let (flushed, sink) = flush t.writer.sink in
      let t' = record t { writer = record (t.writer) { sink = sink } } in
      if t.bytes_since_flush == 0
      then (true, t)
      else if flushed
      then (true, record t' { bytes_since_flush = 0; last_writer_progress = now })
      else (false, t')

  unfoldable pub notify_workers : WriterTask flate mpsc → Bool × WriterTask flate mpsc
  unfolding drain_closes
  notify_workers t =
      let (txs, requeued, had_error) = drain_closes mpsc t.writer.pending_closes t.close_reg_txs in
      (
        not had_error,
        record t { writer = record (t.writer) { pending_closes = requeued }; close_reg_txs = txs },
      )

  unfoldable pub end_turn : ℕ → Bool × WriterTask flate mpsc → Bool × WriterTask flate mpsc
  unfolding flush_batch notify_workers
  end_turn now (had_error, t) =
      let (goes_on, t') = flush_batch now t in
      if had_error then (false, t) else if goes_on then notify_workers t' else (false, t')

  -- The stall watchdog: `continue`, unless it ends the loop and cancels the session.
  unfoldable pub on_stall_tick : ℕ → Found → WriterTask flate mpsc → Bool × WriterTask flate mpsc
  on_stall_tick write_timeout found t =
      let t' = record t {
        control_rx = t.control_rx ++ found.late_controls;
        cmd_rx = t.cmd_rx ++ found.late_commands;
      } in
      let queued = length t'.control_rx + length t'.cmd_rx in
      if ltb (write_timeout * 2) (found.now - t.last_writer_progress) && ltb 0 queued
      then (false, record t' { is_cancelled = true })
      else (true, t')

  unfoldable pub on_ticks : ℕ → Found → WriterTask flate mpsc → Bool × WriterTask flate mpsc
  unfolding end_turn on_ping_tick on_stall_tick
  on_ticks write_timeout found t =
      if found.ping_tick
      then end_turn found.now (on_ping_tick t)
      else if found.stall_tick
      then on_stall_tick write_timeout found t
      else (true, t)

  -- The branches of `select!` in their order, from the data channel, the control channel and the
  -- window channel on. When none is ready the task waits.
  unfoldable pub from_commands :
      ℕ → Found → List MuxCommand → WriterTask flate mpsc → Bool × WriterTask flate mpsc
  unfolding end_turn on_commands on_ticks
  from_commands write_timeout found [] t =
      if found.cmd_is_closed then (false, t) else on_ticks write_timeout found t
  from_commands write_timeout found (c ∷ cs) t = end_turn found.now (on_commands found c cs t)

  unfoldable pub from_controls :
      ℕ → Found → List MuxCommand → WriterTask flate mpsc → Bool × WriterTask flate mpsc
  unfolding end_turn on_controls from_commands
  from_controls write_timeout found [] t =
      if found.control_is_closed then (false, t) else from_commands write_timeout found t.cmd_rx t
  from_controls write_timeout found (c ∷ cs) t = end_turn found.now (on_controls c cs t)

  unfoldable pub from_windows :
      ℕ → Found → List MuxCommand → WriterTask flate mpsc → Bool × WriterTask flate mpsc
  unfolding end_turn on_windows from_controls
  from_windows write_timeout found [] t =
      if found.window_is_closed
      then (false, t)
      else from_controls write_timeout found t.control_rx t
  from_windows write_timeout found (c ∷ cs) t = end_turn found.now (on_windows c cs t)

  -- One turn of the loop: whether it goes on.
  unfoldable pub writer_turn : ℕ → Found → WriterTask flate mpsc → Bool × WriterTask flate mpsc
  unfolding receive from_windows
  writer_turn write_timeout found t =
      let t' = receive found t in
      if found.is_cancelled then (false, t') else from_windows write_timeout found t'.window_rx t'

  -- The turns of the loop until it ends.
  unfoldable pub writer_loop : ℕ → List Found → WriterTask flate mpsc → Bool × WriterTask flate mpsc
  unfolding writer_turn
  writer_loop write_timeout [] t = (true, t)
  writer_loop write_timeout (found ∷ later) t =
      let (goes_on, t') = writer_turn write_timeout found t in
      let rest = writer_loop write_timeout later t' in if goes_on then rest else (false, t')

  -- The end of the task: the session is cancelled, however the loop ended.
  unfoldable pub end_writer : Bool × WriterTask flate mpsc → WriterTask flate mpsc
  end_writer (goes_on, t) = if goes_on then t else record t { is_cancelled = true }

  -- The windows and limits are those that the task announces.
  unfoldable pub run_writer : ℕ → ℕ → ℕ → List Found → WriterTask flate mpsc → WriterTask flate mpsc
  unfolding start_writer writer_loop end_writer
  run_writer write_timeout initial_window_size max_concurrent_streams turns t =
      let (started, sink) = start_writer initial_window_size max_concurrent_streams t.writer.sink in
      let t' = record t { writer = record (t.writer) { sink = sink } } in
      end_writer (if started then writer_loop write_timeout turns t' else (false, t'))
