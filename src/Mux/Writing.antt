-- ===== src/Mux/Writing.antt =====
-- crates/spdy-mux/src/stream.rs: `poll_write_via_sender`, the send path of a stream, with the bytes
-- that it puts on the command channel.
pub mod Sent
use kube_portforward.Prelude.{
  ℕ, ◌-◌, ◌%◌, ◌^◌, min, List, [], ◌∷◌, ◌++◌, Bool, true, false, length, take, ◌==◌, if◌then◌else◌,
}
use kube_portforward.Prelude.Int.{ℤ}
use kube_portforward.Wire.{Bytes, u32_bytes, low31, low24}
use kube_portforward.Mux.Window.{is_closed, available, consume}
use kube_portforward.Mux.Channel.{SendResult, sent, full, disconnected}
use kube_portforward.Mux.Commands.{MuxCommand, send_raw_frame, send_data}

-- `Poll<io::Result<A>>`; every error of this path is `broken_pipe()`.
pub data Polled (A : Type 0) : Type 0 where
  pending : Polled A
  ready : A → Polled A
  broken_pipe : Polled A

-- `write_tx`, a `PollSender`: what `poll_reserve` answers, and what `send_item` answers once the
-- permit is there. The channel may be closed in between.
pub record WriteSender : Type 0 where
  pub reserve : SendResult
  pub open_at_send : Bool
  pub queued : List MuxCommand

-- The window at the first look, at the look after the waker is registered, and at the successful
-- step of `consume`: other threads may have moved it in between.
pub record WindowSeen : Type 0 where
  pub early : ℤ
  pub again : ℤ
  pub debited : ℤ

unfoldable pub max_payload : ℕ → ℕ → ℕ
max_payload max_frame_size len = if max_frame_size - 8 == 0 then len else max_frame_size - 8

unfoldable pub write_size : ℕ → Bytes → ℤ → ℕ
unfolding max_payload
write_size max_frame_size buf window =
    min (min (length buf) (available window)) (max_payload max_frame_size (length buf))

-- Both loads of the window; `none` is `Poll::Pending`, and a closed window is size 0 of `some`.
unfoldable pub chosen_size : ℕ → Bytes → WindowSeen → Polled ℕ
unfolding write_size is_closed
chosen_size max_frame_size buf seen =
    if write_size max_frame_size buf seen.early == 0
    then (if is_closed seen.again
        then broken_pipe
        else if write_size max_frame_size buf seen.again == 0
        then pending
        else ready (write_size max_frame_size buf seen.again))
    else ready (write_size max_frame_size buf seen.early)

-- The frame of the first `n` bytes.
unfoldable pub raw_frame : ℕ → Bytes → Bytes
raw_frame stream_id payload =
    u32_bytes (low31 stream_id) ++ u32_bytes (low24 (length payload % 2 ^ 32)) ++ payload

unfoldable pub send_item : WriteSender → MuxCommand → Bool × WriteSender
send_item tx command =
    if tx.open_at_send
    then (true, record tx { queued = tx.queued ++ command ∷ [] })
    else (false, tx)

-- The debit and the send; the last component is the window.
unfoldable pub send_sized : WriteSender → ℕ → ℤ → Bytes → Polled ℕ → Polled ℕ × WriteSender × ℤ
unfolding consume raw_frame send_item
send_sized tx stream_id window buf pending = (pending, tx, window)
send_sized tx stream_id window buf broken_pipe = (broken_pipe, tx, window)
send_sized tx stream_id window buf (ready n) =
    let (debited, window') = consume window n in
    if debited
    then (let (delivered, tx') = send_item tx (send_raw_frame (raw_frame stream_id (take n buf))) in
        if delivered then (ready n, tx', window') else (broken_pipe, tx', window'))
    else (broken_pipe, tx, window')

unfoldable pub poll_write_via_sender :
    WriteSender → ℕ → WindowSeen → ℕ → Bytes → Polled ℕ × WriteSender × ℤ
unfolding is_closed chosen_size send_sized
poll_write_via_sender tx stream_id seen max_frame_size buf =
    if is_closed seen.early then (broken_pipe, tx, seen.debited) else elim tx.reserve [
      | sent ↦ send_sized tx stream_id seen.debited buf (chosen_size max_frame_size buf seen)
      | disconnected ↦ (broken_pipe, tx, seen.debited)
      | full ↦ (pending, tx, seen.debited)
    ]

-- `poll_shutdown_opened`; the flag is `graceful_shutdown`.
unfoldable pub poll_shutdown_opened :
    Bool → WriteSender → ℕ → Polled (Unit {0}) × WriteSender × Bool
unfolding send_item
poll_shutdown_opened true tx data_id = (ready tt, tx, true)
poll_shutdown_opened false tx data_id = elim tx.reserve [
  | full ↦ (pending, tx, false)
  | disconnected ↦ (broken_pipe, tx, false)
  | sent ↦
      let (delivered, tx') = send_item tx (send_data data_id [] true) in
      if delivered then (ready tt, tx', true) else (broken_pipe, tx', false)
]
