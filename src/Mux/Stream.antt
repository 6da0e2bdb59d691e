-- ===== src/Mux/Stream.antt =====
-- crates/spdy-mux/src/stream.rs: a stream that is opened on its first use. The handle and the sender
-- that a stream holds are shared; each call takes the handle, and gives it back as it leaves it.
pub mod Lazy
use kube_portforward.Prelude.{
  ℕ, zero, suc, [], ◌∷◌, Bool, true, false, Option, none, some, if◌then◌else◌,
}
use kube_portforward.Prelude.Int.{ℤ}
use kube_portforward.Error.{Result, ok, err}
use kube_portforward.Wire.{Bytes}
use kube_portforward.Frame.{Headers}
use kube_portforward.Mux.Channel.{Mpsc}
use kube_portforward.Mux.Handle.{MuxHandle, OpenedStreamParts, realize_stream_pair}
use kube_portforward.Mux.Guard.{
  PairReleaseGuard, StreamGuard, disarm, drop_release_guard, drop_stream_guard,
}
use kube_portforward.Mux.Reading.{ReadSide, poll_read_channel}
use kube_portforward.Mux.Writing.{
  Polled, ready, broken_pipe, WriteSender, WindowSeen, poll_write_via_sender, poll_shutdown_opened,
}

-- The two senders are one option: they are taken together.
pub record Unopened : Type 0 where
  pub error_headers : Headers
  pub data_headers : Headers
  pub pending_txs : Option (ℕ × ℕ)
  pub max_frame_size : ℕ
  pub reading : ReadSide
  pub release_guard : PairReleaseGuard

-- `graceful_shutdown` is shared with the guard, and kept there.
pub record Opened : Type 0 where
  pub send_window : ℕ
  pub max_frame_size : ℕ
  pub reading : ReadSide
  pub guard : StreamGuard

pub data StreamState : Type 0 where
  unopened : Unopened → StreamState
  opened : Opened → StreamState

-- `finish_unopened_stream`: the guard of the reservation is disarmed.
unfoldable pub finish_unopened_stream : Unopened → OpenedStreamParts → Opened
finish_unopened_stream u parts = record {
  send_window = parts.send_window;
  max_frame_size = u.max_frame_size;
  reading = u.reading;
  guard = record { data_id = parts.data_id; error_id = parts.error_id; graceful_shutdown = false };
}

-- What `ensure_realized` takes out of the stream before it asks the handle.
unfoldable pub taken : Unopened → Unopened
taken u = record u { error_headers = []; data_headers = []; pending_txs = none }

module _ {mpsc : Mpsc} where
  -- `finish_unopened_stream` on success; the flag is `Ok`. The disarmed guard is dropped.
  unfoldable pub after_realize :
      Unopened → Result OpenedStreamParts × MuxHandle mpsc → Bool × StreamState × MuxHandle mpsc
  unfolding finish_unopened_stream taken disarm drop_release_guard
  after_realize u (err e, h) = (false, unopened (taken u), h)
  after_realize u (ok parts, h) =
      (true, opened (finish_unopened_stream u parts), drop_release_guard (disarm u.release_guard) h)

  -- `ensure_realized`, and what becomes of its result.
  unfoldable pub open_unopened :
      Bool → Unopened → Option (ℕ × ℕ) → MuxHandle mpsc → Bool × StreamState × MuxHandle mpsc
  unfolding after_realize taken realize_stream_pair
  open_unopened early u none h = (false, unopened (taken u), h)
  open_unopened early u (some (data_tx, error_tx)) h =
      after_realize u (realize_stream_pair early u.error_headers u.data_headers data_tx error_tx h)

  -- `early` is what the handle's first look at its flags saw.
  unfoldable pub ensure_open :
      Bool → StreamState → MuxHandle mpsc → Bool × StreamState × MuxHandle mpsc
  unfolding open_unopened
  ensure_open early (opened o) h = (true, opened o, h)
  ensure_open early (unopened u) h = open_unopened early u u.pending_txs h

  -- The read of an opened stream, and of one that could not be opened.
  unfoldable pub read_opened :
      ℕ → Bool × StreamState × MuxHandle mpsc → Polled Bytes × StreamState × MuxHandle mpsc
  read_opened room (false, s, h) = (broken_pipe, s, h)
  read_opened room (true, unopened u, h) = (broken_pipe, unopened u, h)
  read_opened room (true, opened o, h) =
      let (r, reading') = poll_read_channel o.reading room in
      (r, opened (record o { reading = reading' }), h)

  -- `poll_read` into a buffer with room for `room` bytes.
  unfoldable pub poll_read :
      Bool → ℕ → StreamState → MuxHandle mpsc → Polled Bytes × StreamState × MuxHandle mpsc
  unfolding ensure_open read_opened
  poll_read early zero s h = (ready [], s, h)
  poll_read early (suc room) s h = read_opened (suc room) (ensure_open early s h)

  -- The result of a write with the sender and the window, and the stream and the handle.
  unfoldable pub write_opened :
      WriteSender
      → WindowSeen
      → Bytes
      → Bool × StreamState × MuxHandle mpsc
      → (Polled ℕ × WriteSender × ℤ) × StreamState × MuxHandle mpsc
  unfolding poll_write_via_sender
  write_opened tx seen buf (false, s, h) = ((broken_pipe, tx, seen.debited), s, h)
  write_opened tx seen buf (true, unopened u, h) = ((broken_pipe, tx, seen.debited), unopened u, h)
  write_opened tx seen buf (true, opened o, h) = (
    if o.guard.graceful_shutdown
        then (broken_pipe, tx, seen.debited)
        else poll_write_via_sender tx o.guard.data_id seen o.max_frame_size buf,
    opened o,
    h,
  )

  -- `poll_write`: nothing to write never opens the stream.
  unfoldable pub poll_write :
      Bool
      → WriteSender
      → WindowSeen
      → Bytes
      → StreamState
      → MuxHandle mpsc
      → (Polled ℕ × WriteSender × ℤ) × StreamState × MuxHandle mpsc
  unfolding ensure_open write_opened
  poll_write early tx seen [] s h = ((ready 0, tx, seen.debited), s, h)
  poll_write early tx seen (b ∷ bs) s h = write_opened tx seen (b ∷ bs) (ensure_open early s h)

  unfoldable pub shutdown_opened :
      WriteSender
      → Bool × StreamState × MuxHandle mpsc
      → (Polled (Unit {0}) × WriteSender) × StreamState × MuxHandle mpsc
  unfolding poll_shutdown_opened
  shutdown_opened tx (false, s, h) = ((broken_pipe, tx), s, h)
  shutdown_opened tx (true, unopened u, h) = ((broken_pipe, tx), unopened u, h)
  shutdown_opened tx (true, opened o, h) =
      let (r, tx', graceful) = poll_shutdown_opened o.guard.graceful_shutdown tx o.guard.data_id in
      ((r, tx'), opened (record o { guard = record (o.guard) { graceful_shutdown = graceful } }), h)

  unfoldable pub poll_shutdown :
      Bool
      → WriteSender
      → StreamState
      → MuxHandle mpsc
      → (Polled (Unit {0}) × WriteSender) × StreamState × MuxHandle mpsc
  unfolding ensure_open shutdown_opened
  poll_shutdown early tx s h = shutdown_opened tx (ensure_open early s h)

  -- Dropping a stream drops the guard that it holds.
  unfoldable pub drop_stream_state : StreamState → MuxHandle mpsc → MuxHandle mpsc
  unfolding drop_release_guard drop_stream_guard
  drop_stream_state (unopened u) h = drop_release_guard u.release_guard h
  drop_stream_state (opened o) h = drop_stream_guard o.guard h
