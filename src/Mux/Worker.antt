-- ===== src/Mux/Worker.antt =====
-- crates/spdy-mux/src/mux/worker.rs: a frame worker, which owns the streams of one shard. What it
-- shares with other tasks (windows, channels, one-shot replies) is a store passed from step to step.
pub mod Teardown
pub mod GoAway
pub mod Flow
pub mod Full
use kube_portforward.Prelude.{
  ℕ, ◌+◌, ◌/◌, ◌%◌, ◌^◌, List, [], ◌∷◌, ◌++◌, Bool, true, false, Option, none, some, length, ltb,
  if◌then◌else◌,
}
use kube_portforward.Prelude.Int.{ℤ}
use kube_portforward.Prelude.Maps.{lookup, insert, remove, update}
use kube_portforward.Error.{Result, ok, err, Error, stream_reset, mux_closed}
use kube_portforward.Wire.{Bytes}
use kube_portforward.Frame.{Frame}
use kube_portforward.Mux.Channel.{Mpsc, sent, full, disconnected}
use kube_portforward.Mux.Commands.{
  MuxCommand, StreamRegistration, close_stream, encode_window_update,
}
use kube_portforward.Mux.{rst_status_invalid_stream, rst_status_cancel, rst_status_flow_control}
use kube_portforward.Mux.Window.{closed_window, replenish, apply_delta}

-- `data_tx` and `send_window` are addresses in the store.
pub record StreamState : Type 0 where
  pub data_tx : Option ℕ
  pub send_window : ℕ
  pub consumed_since_update : ℕ

-- The two maps that `run_frame_worker` owns; a pending reply is the address of a one-shot sender.
pub record Worker : Type 0 where
  pub streams : List (ℕ × StreamState)
  pub pending_replies : List (ℕ × ℕ)

-- What the worker shares with other tasks. `replies` lists the one-shot results in the order in
-- which they were sent.
pub record Shared (mpsc : Mpsc) : Type 0 where
  pub windows : ℕ → ℤ
  pub data_channels : ℕ → mpsc.Chan Bytes
  pub replies : List (ℕ × Result (Unit {0}))
  pub control : mpsc.Chan MuxCommand
  pub window_updates : mpsc.Chan MuxCommand

abbrev pub State : Mpsc → Type 0
State mpsc = Worker × Shared mpsc

abbrev set_stream : Worker → ℕ → StreamState → Worker
set_stream w id st = record w { streams = insert id st w.streams }

-- `for state in streams.values() { state.send_window.apply_delta(delta) }`.
unfoldable pub resize_windows : ℤ → List (ℕ × StreamState) → (ℕ → ℤ) → (ℕ → ℤ)
resize_windows delta [] windows = windows
resize_windows delta ((id, st) ∷ sts) windows =
    resize_windows delta sts
      (update windows st.send_window (apply_delta (windows st.send_window) delta))

-- `streams.keys().filter(|&&id| id > last_good_stream_id)`.
unfoldable pub bad_ids : ℕ → List (ℕ × StreamState) → List ℕ
bad_ids last_good [] = []
bad_ids last_good ((id, st) ∷ sts) =
    let rest = bad_ids last_good sts in if ltb last_good id then id ∷ rest else rest

unfoldable pub fail_replies : List (ℕ × ℕ) → List (ℕ × Result (Unit {0}))
fail_replies [] = []
fail_replies ((id, at) ∷ ps) = (at, err mux_closed) ∷ fail_replies ps

unfoldable pub close_windows : List (ℕ × StreamState) → (ℕ → ℤ) → (ℕ → ℤ)
close_windows [] windows = windows
close_windows ((id, st) ∷ sts) windows =
    close_windows sts (update windows st.send_window closed_window)

module _ {mpsc : Mpsc} where
  -- `let _ = cmd_tx.try_send(MuxCommand::CloseStream { … })`.
  unfoldable pub send_close : ℕ → ℕ → Shared mpsc → Shared mpsc
  send_close id status s = record s {
    control = (mpsc.try_send MuxCommand s.control (close_stream id status)).1;
  }

  unfoldable pub close_window : ℕ → Shared mpsc → Shared mpsc
  close_window at s = record s { windows = update s.windows at closed_window }

  unfoldable pub send_reply : ℕ → Result (Unit {0}) → Shared mpsc → Shared mpsc
  send_reply at r s = record s { replies = s.replies ++ (at, r) ∷ [] }

  -- `pending_replies.remove(&id)`, and the answer to the sender that was there.
  unfoldable pub answer : ℕ → Result (Unit {0}) → State mpsc → State mpsc
  unfolding send_reply
  answer id r (w, s) = elim (lookup id w.pending_replies) [
    | none ↦ (w, s)
    | some at ↦ (record w { pending_replies = remove id w.pending_replies }, send_reply at r s)
  ]

  -- `streams.remove(&id)`, and `close` on the window of the entry that was there.
  unfoldable pub drop_stream : ℕ → State mpsc → State mpsc
  unfolding close_window
  drop_stream id (w, s) = elim (lookup id w.streams) [
    | none ↦ (w, s)
    | some st ↦ (record w { streams = remove id w.streams }, close_window st.send_window s)
  ]

  -- `state.data_tx = None`, on the entry if there is one.
  unfoldable pub half_close : ℕ → State mpsc → State mpsc
  half_close id (w, s) = elim (lookup id w.streams) [
    | none ↦ (w, s)
    | some st ↦ (set_stream w id (record st { data_tx = none }), s)
  ]

  -- `data.len()` bytes were delivered: the counter, and the WINDOW_UPDATE once half the window is
  -- used. The counter starts again only if the update could be queued.
  unfoldable pub count_delivered : ℕ → ℕ → ℕ → StreamState → State mpsc → State mpsc
  count_delivered initial_window id len st (w, s) =
      let consumed = st.consumed_since_update + len in
      if ltb consumed (initial_window / 2)
      then (set_stream w id (record st { consumed_since_update = consumed }), s)
      else (let (r, window_updates') =
            mpsc.try_send MuxCommand s.window_updates
              (encode_window_update id (consumed % 2 ^ 32)) in
          let s' = record s { window_updates = window_updates' } in
          elim r [
            | sent ↦ (set_stream w id (record st { consumed_since_update = 0 }), s')
            | _ ↦ (set_stream w id (record st { consumed_since_update = consumed }), s')
          ])

  -- `data_tx.try_send(payload)`; the flag says that the stream is to be removed.
  unfoldable pub deliver : ℕ → ℕ → Bytes → StreamState → ℕ → State mpsc → State mpsc × Bool
  unfolding count_delivered
  deliver initial_window id payload st ch (w, s) =
      let (r, channel) = mpsc.try_send Bytes (s.data_channels ch) payload in
      let s' = record s { data_channels = update s.data_channels ch channel } in
      elim r [
        | sent ↦ (count_delivered initial_window id (length payload) st (w, s'), false)
        | full ↦ ((w, s'), false)
        | disconnected ↦ ((w, s'), true)
      ]

  -- A payload that is not empty.
  unfoldable pub on_payload : ℕ → ℕ → Bytes → State mpsc → State mpsc × Bool
  unfolding deliver send_close
  on_payload initial_window id payload (w, s) = elim (lookup id w.streams) [
    | none ↦ ((w, send_close id rst_status_invalid_stream s), false)
    | some st ↦ elim st.data_tx [
      | none ↦ ((w, s), false)
      | some ch ↦ deliver initial_window id payload st ch (w, s)
    ]
  ]

  unfoldable pub on_fin : ℕ → Bool → State mpsc → State mpsc
  unfolding half_close
  on_fin id true ws = half_close id ws
  on_fin id false ws = ws

  -- Behind the payload: the removal of a stream whose reader is gone, or else the FIN.
  unfoldable pub after_payload : ℕ → Bool → State mpsc × Bool → State mpsc
  unfolding on_fin send_close
  after_payload id fin ((w, s), true) =
      (record w { streams = remove id w.streams }, send_close id rst_status_flow_control s)
  after_payload id fin (ws, false) = on_fin id fin ws

  unfoldable pub on_data : ℕ → ℕ → Bytes → Bool → State mpsc → State mpsc
  unfolding on_payload after_payload
  on_data initial_window id [] fin ws = on_fin id fin ws
  on_data initial_window id (b ∷ bs) fin ws =
      after_payload id fin (on_payload initial_window id (b ∷ bs) ws)

  unfoldable pub on_syn_reply : ℕ → Bool → State mpsc → State mpsc
  unfolding answer send_close on_fin
  on_syn_reply id fin (w, s) = on_fin id fin (elim (lookup id w.pending_replies) [
    | some at ↦ answer id (ok tt) (w, s)
    | none ↦ elim (lookup id w.streams) [
      | some st ↦ (w, s)
      | none ↦ (w, send_close id rst_status_invalid_stream s)
    ]
  ])

  unfoldable pub on_window_update : ℕ → ℕ → State mpsc → State mpsc
  on_window_update id delta (w, s) = elim (lookup id w.streams) [
    | none ↦ (w, s)
    | some st ↦
        let at = st.send_window in
        (w, record s { windows = update s.windows at (replenish (s.windows at) delta) })
  ]

  unfoldable pub dispatch_frame_in_worker : ℕ → Frame → State mpsc → State mpsc
  unfolding on_data on_syn_reply answer drop_stream on_window_update
  dispatch_frame_in_worker initial_window (Frame.data_frame id payload fin) ws =
      on_data initial_window id payload fin ws
  dispatch_frame_in_worker initial_window (Frame.syn_reply id headers fin) ws =
      on_syn_reply id fin ws
  dispatch_frame_in_worker initial_window (Frame.rst_stream id status) ws =
      answer id (err (stream_reset id status)) (drop_stream id ws)
  dispatch_frame_in_worker initial_window (Frame.window_update id delta) ws =
      on_window_update id delta ws
  dispatch_frame_in_worker initial_window _ ws = ws

  unfoldable pub refuse : ℕ → ℕ → ℕ → State mpsc → State mpsc
  unfolding answer drop_stream send_close
  refuse last_good status id ws =
      let (w, s) = answer id (err (Error.go_away last_good status)) (drop_stream id ws) in
      (w, send_close id rst_status_cancel s)

  unfoldable pub refuse_all : ℕ → ℕ → List ℕ → State mpsc → State mpsc
  unfolding refuse
  refuse_all last_good status [] ws = ws
  refuse_all last_good status (id ∷ ids) ws =
      refuse_all last_good status ids (refuse last_good status id ws)

  unfoldable pub apply_registration : StreamRegistration → State mpsc → State mpsc
  unfolding drop_stream resize_windows bad_ids refuse_all
  apply_registration (StreamRegistration.opens id data_tx reply_tx window) (w, s) = (
    record {
      streams =
          insert id
            (record { data_tx = some data_tx; send_window = window; consumed_since_update = 0 })
            w.streams;
      pending_replies = insert id reply_tx w.pending_replies;
    },
    s,
  )
  apply_registration (StreamRegistration.closes id) ws =
      let (w, s) = drop_stream id ws in
      (record w { pending_replies = remove id w.pending_replies }, s)
  apply_registration (StreamRegistration.settings_window_delta delta) (w, s) =
      (w, record s { windows = resize_windows delta w.streams s.windows })
  apply_registration (StreamRegistration.go_away last_good status) ws =
      refuse_all last_good status (bad_ids last_good ws.0.streams) ws

  -- The end of `run_frame_worker`: every pending reply fails and every window is closed.
  unfoldable pub shut_down : State mpsc → State mpsc
  unfolding fail_replies close_windows
  shut_down (w, s) = (
    record { streams = []; pending_replies = [] },
    record s {
      replies = s.replies ++ fail_replies w.pending_replies;
      windows = close_windows w.streams s.windows;
    },
  )

-- How one `select!` of the loop ends: a message was received, or a channel or the session closed.
pub data Selected : Type 0 where
  registration : StreamRegistration → Selected
  frame : Frame → Selected
  stop : Selected

-- One round of the loop: the close registrations and then the open registrations that wait, which
-- are drained first, and what `select!` takes after them.
pub record Round : Type 0 where
  pub close_regs : List StreamRegistration
  pub open_regs : List StreamRegistration
  pub selected : Selected

module _ {mpsc : Mpsc} where
  unfoldable pub apply_all : List StreamRegistration → State mpsc → State mpsc
  unfolding apply_registration
  apply_all [] ws = ws
  apply_all (reg ∷ regs) ws = apply_all regs (apply_registration reg ws)

  unfoldable pub drain_registrations : Round → State mpsc → State mpsc
  unfolding apply_all
  drain_registrations round ws = apply_all round.open_regs (apply_all round.close_regs ws)

  -- The flag says that the worker has ended.
  unfoldable pub run_frame_worker : ℕ → List Round → State mpsc → State mpsc × Bool
  unfolding drain_registrations dispatch_frame_in_worker shut_down
  run_frame_worker initial_window [] ws = (ws, false)
  run_frame_worker initial_window (round ∷ rounds) ws =
      let ws' = drain_registrations round ws in
      elim round.selected [
        | registration reg ↦ run_frame_worker initial_window rounds (apply_registration reg ws')
        | frame f ↦
            run_frame_worker initial_window rounds (dispatch_frame_in_worker initial_window f ws')
        | stop ↦ (shut_down ws', true)
      ]
