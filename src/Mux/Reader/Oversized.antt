-- ===== src/Mux/Reader/Oversized.antt =====
-- crates/spdy-mux/src/mux/reader.rs: the reader's inner loop on a frame that is larger than is
-- allowed.
use kube_portforward.Prelude.{
  ◌+◌, ◌≤◌, ◌<◌, ◌≡◌, refl, ◌∙◌, [], true, false, length, drop, leb, arith,
}
use kube_portforward.Wire.{Bytes, low31, u32_at}
use kube_portforward.Mux.{rst_status_flow_control}
use kube_portforward.Mux.Commands.{MuxCommand}
use kube_portforward.Flate.{Flate}
use kube_portforward.Codec.{payload_len}
use kube_portforward.Codec.Decode.{IsOversized, decode_frame-oversized}
use kube_portforward.Mux.Channel.{Mpsc}
use kube_portforward.Mux.Reader.{ReaderContext, send_control}
use kube_portforward.Mux.Reader.Loop.{cleared, skip_frame, on_decoded, drain_all}
use kube_portforward.Mux.Reader.Rounds.{drain_all-round}

module _ {mpsc : Mpsc} {flate : Flate} where
  -- The peer is told that the stream is closed.
  abbrev pub refused : ReaderContext mpsc flate → Bytes → ReaderContext mpsc flate
  refused ctx buf =
      let told = MuxCommand.close_stream (low31 (u32_at buf 0)) rst_status_flow_control in
      record ctx { channels = send_control told ctx.channels }

  -- An oversized frame that is in the buffer with its whole payload is skipped exactly: the peer is
  -- told that the stream is closed for a flow control error, and the loop goes on with the bytes
  -- behind the frame.
  drain_all-oversized :
      (ctx : ReaderContext mpsc flate) (buf : Bytes)
      → IsOversized ctx.codec buf
      → 8 + payload_len buf ≤ length buf
      → drain_all ctx buf ≡ drain_all (refused ctx buf) (drop (8 + payload_len buf) buf)
  unfolding on_decoded skip_frame
  drain_all-oversized ctx buf o h =
      drain_all-round ctx buf o.0
      ∙ rw (decode_frame-oversized ctx.codec buf o, on_decoded, skip_frame, fits) refl
    where
      fits : leb (8 + payload_len buf) (length buf) ≡ true
      fits = ground arith

  -- An oversized frame of which a part is still to come empties the buffer, but the length of the
  -- missing part is not kept: the next message is read as if a frame began at its first byte.
  drain_all-oversized_part :
      (ctx : ReaderContext mpsc flate) (buf : Bytes)
      → IsOversized ctx.codec buf
      → length buf < 8 + payload_len buf
      → drain_all ctx buf ≡ record { exit = cleared; context = refused ctx buf; buf = [] }
  unfolding on_decoded skip_frame
  drain_all-oversized_part ctx buf o h =
      drain_all-round ctx buf o.0
      ∙ rw (decode_frame-oversized ctx.codec buf o, on_decoded, skip_frame, cut) refl
    where
      cut : leb (8 + payload_len buf) (length buf) ≡ false
      cut = ground arith
