-- ===== src/Mux/Reader/Session.antt =====
-- crates/spdy-mux/src/mux/reader.rs: the session's receive window.
use kube_portforward.Prelude.{ℕ, ◌+◌, ◌%◌, ◌^◌, ◌<◌, ◌≡◌, ◌∙◌, [], ◌∷◌, Bool, length, arith}
use kube_portforward.Wire.{Bytes}
use kube_portforward.Frame.{Frame}
use kube_portforward.Flate.{Flate}
use kube_portforward.Mux.Channel.{Mpsc, MpscLaws}
use kube_portforward.Mux.Commands.{MuxCommand, encode_window_update}
use kube_portforward.Mux.Worker.Flow.{updates_for, updates_for-append, one_update}
use kube_portforward.Mux.Reader.{
  ReaderContext, count_session, count_payload, route_data, route_frame, to_worker, send_control,
}

module _ {mpsc : Mpsc} {flate : Flate} where
  -- What the peer is owed for the session: bytes that are counted, and updates on their way.
  unfoldable pub owed_session : ReaderContext mpsc flate → ℕ
  owed_session ctx =
      ctx.session_recv_consumed + updates_for 0 (mpsc.queue MuxCommand ctx.channels.window_updates)

module _ {mpsc : Mpsc} {flate : Flate} (laws : MpscLaws mpsc) where
  owed_session-count_session :
      (len : ℕ) (ctx : ReaderContext mpsc flate)
      → ctx.session_recv_consumed + len < 2 ^ 32
      → owed_session (count_session len ctx) ≡ owed_session ctx + len
  unfolding owed_session count_session
  owed_session-count_session len ctx h =
      let delta = (ctx.session_recv_consumed + len) % 2 ^ 32 in
      let q = mpsc.queue MuxCommand ctx.channels.window_updates in
      ground (
        arith,
        updates_for-append 0 q (encode_window_update 0 delta),
        one_update 0 delta,
        laws.queue-try_send MuxCommand ctx.channels.window_updates (encode_window_update 0 delta),
        laws.queue-try_send_refused MuxCommand ctx.channels.window_updates
            (encode_window_update 0 delta),
      )

  owed_session-count_payload :
      (payload : Bytes) (ctx : ReaderContext mpsc flate)
      → ctx.session_recv_consumed + length payload < 2 ^ 32
      → owed_session (count_payload payload ctx) ≡ owed_session ctx + length payload
  unfolding count_payload
  owed_session-count_payload [] ctx h = omega arith
  owed_session-count_payload (b ∷ bs) ctx h = owed_session-count_session (length (b ∷ bs)) ctx h

  owed_session-route_data :
      (id : ℕ) (payload : Bytes) (fin : Bool) (ctx : ReaderContext mpsc flate)
      → owed_session (route_data id payload fin ctx) ≡ owed_session (count_payload payload ctx)
  unfolding owed_session route_data to_worker send_control
  owed_session-route_data id payload fin ctx = ground arith

  -- Routing a DATA frame adds just the length of its payload to what the peer is owed of the session
  -- window, as bytes counted and WINDOW_UPDATEs on their way: also if the update channel or the
  -- worker's queue is full. (The counter and the payload together stay below 2^32, since a delta is a
  -- u32.)
  owed_session-route_frame :
      (id : ℕ) (payload : Bytes) (fin : Bool) (ctx : ReaderContext mpsc flate)
      → ctx.session_recv_consumed + length payload < 2 ^ 32
      → owed_session (route_frame (Frame.data_frame id payload fin) ctx).1
        ≡ owed_session ctx + length payload
  unfolding route_frame
  owed_session-route_frame id payload fin ctx h =
      owed_session-route_data id payload fin ctx ∙ owed_session-count_payload payload ctx h
