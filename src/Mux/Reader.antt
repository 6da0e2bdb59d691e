-- ===== src/Mux/Reader.antt =====
-- crates/spdy-mux/src/mux/reader.rs: the reader task. Instants and durations are numbers of one
-- unit; what the transport and the clock do is a list of events.
pub mod Loop
pub mod Rounds
pub mod Ends
pub mod Idle
pub mod Session
pub mod Fragments
pub mod Oversized
use kube_portforward.Prelude.{
  ℕ, zero, suc, ◌+◌, ◌/◌, ◌%◌, ◌^◌, List, [], ◌∷◌, ◌++◌, Bool, true, Option, none, some, length,
  ltb, ◌==◌, if◌then◌else◌,
}
use kube_portforward.Prelude.Int.{ℤ, sub_ℕ}
use kube_portforward.Prelude.Maps.{update}
use kube_portforward.Error.{Result, ok}
use kube_portforward.Wire.{Bytes}
use kube_portforward.Frame.{Frame}
use kube_portforward.Flate.{Flate}
use kube_portforward.Codec.{SpdyCodec, set_max_frame_size}
use kube_portforward.Mux.{frame_workers, rst_status_refused_stream, rst_status_flow_control}
use kube_portforward.Mux.Channel.{Mpsc, SendResult, sent}
use kube_portforward.Mux.Commands.{MuxCommand, StreamRegistration}
use kube_portforward.Mux.Window.{replenish}

pub record ReaderConfig : Type 0 where
  pub initial_window_size : ℕ
  pub idle_timeout : ℕ
  pub ping_timeout : ℕ
  pub configured_max_frame_size : ℕ

pub record ReaderChannels (mpsc : Mpsc) : Type 0 where
  pub control : mpsc.Chan MuxCommand
  pub window_updates : mpsc.Chan MuxCommand
  pub frame_txs : ℕ → mpsc.Chan Frame
  pub reg_txs : ℕ → mpsc.Chan StreamRegistration
  pub close_reg_txs : ℕ → mpsc.Chan StreamRegistration

pub record ReaderSharedState : Type 0 where
  pub cancelled : Bool
  pub peer_initial_window : ℕ
  pub peer_max_concurrent : ℕ
  pub goaway_received : Bool
  pub session_send_window : ℤ
  pub max_frame_size : ℕ

-- What `route_frame` works on. `waiting_ping_ready` is the address of the one-shot sender that the
-- first PING answer goes to, and `ping_answers` lists the addresses that were answered `Ok(())`.
pub record ReaderContext (mpsc : Mpsc) (flate : Flate) : Type 0 where
  pub config : ReaderConfig
  pub channels : ReaderChannels mpsc
  pub shared : ReaderSharedState
  pub waiting_ping_ready : Option ℕ
  pub ping_answers : List ℕ
  pub session_recv_consumed : ℕ
  pub codec : SpdyCodec flate

-- The shard of a stream.
abbrev pub worker_of : ℕ → ℕ
worker_of stream_id = stream_id % frame_workers

-- `new_size as i64 - old_size as i64`.
abbrev pub window_delta : ℕ → ℕ → ℤ
window_delta new_size old_size = sub_ℕ new_size old_size

module _ (mpsc : Mpsc) where
  -- `for tx in txs.iter() { let _ = tx.try_send(message) }` over the first `n` channels.
  unfoldable pub broadcast :
      ℕ
      → StreamRegistration
      → (ℕ → mpsc.Chan StreamRegistration)
      → (ℕ → mpsc.Chan StreamRegistration)
  broadcast zero message txs = txs
  broadcast (suc n) message txs =
      update (broadcast n message txs) n (mpsc.try_send StreamRegistration (txs n) message).1

module _ {mpsc : Mpsc} where
  unfoldable pub send_control : MuxCommand → ReaderChannels mpsc → ReaderChannels mpsc
  send_control command ch = record ch { control = (mpsc.try_send MuxCommand ch.control command).1 }

  -- `frame_txs[worker].try_send(frame)`.
  unfoldable pub to_worker : ℕ → Frame → ReaderChannels mpsc → SendResult × ReaderChannels mpsc
  to_worker stream_id f ch =
      let worker = worker_of stream_id in
      let (r, tx) = mpsc.try_send Frame (ch.frame_txs worker) f in
      (r, record ch { frame_txs = update ch.frame_txs worker tx })

module _ {mpsc : Mpsc} {flate : Flate} where
  abbrev with_channels : ReaderContext mpsc flate → ReaderChannels mpsc → ReaderContext mpsc flate
  with_channels ctx ch = record ctx { channels = ch }

  -- The session-level receive window: count the bytes, and give them back once they are half of it.
  unfoldable pub count_session : ℕ → ReaderContext mpsc flate → ReaderContext mpsc flate
  count_session len ctx =
      let consumed = ctx.session_recv_consumed + len in
      if ltb consumed (ctx.config.initial_window_size / 2)
      then record ctx { session_recv_consumed = consumed }
      else (let (r, window_updates') =
            mpsc.try_send MuxCommand ctx.channels.window_updates
              (MuxCommand.encode_window_update 0 (consumed % 2 ^ 32)) in
          let ctx' =
            with_channels ctx (record (ctx.channels) { window_updates = window_updates' }) in
          elim r [
            | sent ↦ record ctx' { session_recv_consumed = 0 }
            | _ ↦ record ctx' { session_recv_consumed = consumed }
          ])

  unfoldable pub count_payload : Bytes → ReaderContext mpsc flate → ReaderContext mpsc flate
  unfolding count_session
  count_payload [] ctx = ctx
  count_payload (b ∷ bs) ctx = count_session (length (b ∷ bs)) ctx

  unfoldable pub route_data : ℕ → Bytes → Bool → ReaderContext mpsc flate → ReaderContext mpsc flate
  unfolding count_payload to_worker send_control
  route_data stream_id payload fin ctx =
      let ctx' = count_payload payload ctx in
      let (r, ch) = to_worker stream_id (Frame.data_frame stream_id payload fin) ctx'.channels in
      elim r [
        | sent ↦ with_channels ctx' ch
        | _ ↦
            with_channels ctx'
              (send_control (MuxCommand.close_stream stream_id rst_status_flow_control) ch)
      ]

  -- SYN_REPLY, RST_STREAM and the WINDOW_UPDATE of a stream: dropped if the queue is full.
  unfoldable pub route_to_worker : ℕ → Frame → ReaderContext mpsc flate → ReaderContext mpsc flate
  unfolding to_worker
  route_to_worker stream_id f ctx = with_channels ctx (to_worker stream_id f ctx.channels).1

  unfoldable pub route_window_update : ℕ → ℕ → ReaderContext mpsc flate → ReaderContext mpsc flate
  unfolding route_to_worker
  route_window_update stream_id delta ctx =
      if stream_id == 0
      then record ctx {
        shared = record (ctx.shared) {
          session_send_window = replenish ctx.shared.session_send_window delta;
        };
      }
      else route_to_worker stream_id (Frame.window_update stream_id delta) ctx

  unfoldable pub route_ping : ℕ → ReaderContext mpsc flate → ReaderContext mpsc flate
  unfolding send_control
  route_ping id ctx = elim ctx.waiting_ping_ready [
    | some tx ↦ record ctx { waiting_ping_ready = none; ping_answers = ctx.ping_answers ++ tx ∷ [] }
    | none ↦
        if (id % 2) == 0
        then with_channels ctx (send_control (MuxCommand.encode_ping id) ctx.channels)
        else ctx
  ]

  unfoldable pub route_go_away : ℕ → ℕ → ReaderContext mpsc flate → ReaderContext mpsc flate
  unfolding broadcast
  route_go_away last_good status ctx = record ctx {
    shared = record (ctx.shared) { goaway_received = true };
    channels = record (ctx.channels) {
      close_reg_txs =
          broadcast mpsc frame_workers (StreamRegistration.go_away last_good status)
            ctx.channels.close_reg_txs;
    };
  }

  unfoldable pub on_initial_window : Option ℕ → ReaderContext mpsc flate → ReaderContext mpsc flate
  unfolding broadcast
  on_initial_window none ctx = ctx
  on_initial_window (some new_size) ctx =
      let old_size = ctx.shared.peer_initial_window in
      let ctx' = record ctx { shared = record (ctx.shared) { peer_initial_window = new_size } } in
      if new_size == old_size then ctx' else record ctx' {
        channels = record (ctx'.channels) {
          reg_txs =
              broadcast mpsc frame_workers
                (StreamRegistration.settings_window_delta (window_delta new_size old_size))
                ctx'.channels.reg_txs;
        };
      }

  unfoldable pub on_max_concurrent : Option ℕ → ReaderContext mpsc flate → ReaderContext mpsc flate
  on_max_concurrent none ctx = ctx
  on_max_concurrent (some max) ctx = record ctx {
    shared = record (ctx.shared) { peer_max_concurrent = max };
  }

  unfoldable pub on_max_frame_size : Option ℕ → ReaderContext mpsc flate → ReaderContext mpsc flate
  unfolding set_max_frame_size
  on_max_frame_size none ctx = ctx
  on_max_frame_size (some mfs) ctx = record ctx {
    shared = record (ctx.shared) { max_frame_size = mfs };
    codec = set_max_frame_size ctx.codec mfs;
  }

  unfoldable pub route_frame :
      Frame → ReaderContext mpsc flate → Result (Unit {0}) × ReaderContext mpsc flate
  unfolding route_data route_to_worker route_window_update route_ping route_go_away
      on_initial_window on_max_concurrent on_max_frame_size send_control
  route_frame (Frame.data_frame id payload fin) ctx = (ok tt, route_data id payload fin ctx)
  route_frame (Frame.syn_reply id headers fin) ctx =
      (ok tt, route_to_worker id (Frame.syn_reply id headers fin) ctx)
  route_frame (Frame.rst_stream id status) ctx =
      (ok tt, route_to_worker id (Frame.rst_stream id status) ctx)
  route_frame (Frame.window_update id delta) ctx = (ok tt, route_window_update id delta ctx)
  route_frame (Frame.ping id) ctx = (ok tt, route_ping id ctx)
  route_frame (Frame.go_away last_good status) ctx = (ok tt, route_go_away last_good status ctx)
  route_frame (Frame.syn_stream id headers fin) ctx = (
    ok tt,
    with_channels ctx
        (send_control (MuxCommand.close_stream id rst_status_refused_stream) ctx.channels),
  )
  route_frame (Frame.settings window streams size) ctx =
      (ok tt, on_max_frame_size size (on_max_concurrent streams (on_initial_window window ctx)))
  route_frame Frame.unknown ctx = (ok tt, ctx)
