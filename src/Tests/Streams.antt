-- ===== src/Tests/Streams.antt =====
-- The theorems on the two directions of a stream at concrete inputs.
use kube_portforward.Prelude.{◌<◌, ◌≡◌, refl, [], ◌∷◌, ◌++◌, true, false, none, some, arith}
use kube_portforward.Prelude.Int.{pos}
use kube_portforward.Error.{ok}
use kube_portforward.Wire.{Bytes}
use kube_portforward.Frame.{data_frame}
use kube_portforward.Codec.{SpdyCodec, decode_frame}
use kube_portforward.Mux.Channel.{sent}
use kube_portforward.Mux.Commands.{send_raw_frame}
use kube_portforward.Mux.Writing.{
  pending, ready, WriteSender, WindowSeen, raw_frame, poll_write_via_sender,
}
use kube_portforward.Mux.Writing.Sent.{Allowed, Sent, poll_write-Sent, decode-poll_write}
use kube_portforward.Mux.Reading.{received, closed, not_yet, ReadSide, poll_read_channel}
use kube_portforward.Mux.Reading.Delivered.{Delivers, reads, fills, calls, calls-Delivers}
use kube_portforward.Tests.Models.{stored_flate}

abbrev idle : WriteSender
idle = record { reserve = sent; open_at_send = true; queued = [] }

-- The window grew between the look and the debit.
abbrev two_left : WindowSeen
two_left = record { early = pos 2; again = pos 2; debited = pos 5 }

abbrev empty_window : WindowSeen
empty_window = record { early = pos 0; again = pos 0; debited = pos 0 }

abbrev after_write : WriteSender
after_write = record idle { queued = send_raw_frame (raw_frame 3 (7 ∷ 8 ∷ [])) ∷ [] }

written : poll_write_via_sender idle 3 two_left 16 (7 ∷ 8 ∷ 9 ∷ []) ≡ (ready 2, after_write, pos 3)
unfolding poll_write_via_sender
written = refl

poll_write-Sent_example :
    (0 < 2)
    × (Allowed 16 (7 ∷ 8 ∷ 9 ∷ []) two_left 2
        × Sent idle 3 (pos 5) (7 ∷ 8 ∷ 9 ∷ []) 2 after_write (pos 3))
poll_write-Sent_example =
    poll_write-Sent idle 3 two_left 16 (7 ∷ 8 ∷ 9 ∷ []) 2 after_write (pos 3) written

abbrev peer : SpdyCodec stored_flate
peer = record { compressor = (tt, false); decompressor = (tt, false); max_frame_size = 16 }

decode-poll_write_example :
    (frame : Bytes) × (after_write.queued ≡ [] ++ send_raw_frame frame ∷ [])
    × (decode_frame peer (frame ++ 1 ∷ []) ≡ record {
      result = ok (some (data_frame 3 (7 ∷ 8 ∷ []) false));
      codec = peer;
      buf = 1 ∷ [];
    })
decode-poll_write_example =
    decode-poll_write peer (1 ∷ []) idle 3 two_left 16 (7 ∷ 8 ∷ 9 ∷ []) 2 after_write (pos 3)
      (omega arith) (omega arith) (omega arith) written

waits : (poll_write_via_sender idle 3 empty_window 16 (7 ∷ [])).0 ≡ pending
unfolding poll_write_via_sender
waits = refl

-- Two messages, a pause, and the end.
abbrev side : ReadSide
side = record {
  rx = received (1 ∷ 2 ∷ 3 ∷ []) ∷ not_yet ∷ received (4 ∷ 5 ∷ []) ∷ closed ∷ [];
  read_buf = none;
  read_eof = false;
}

calls-Delivers_example :
    Delivers side
      (calls (reads 2 ∷ fills 1 ∷ reads 7 ∷ fills 1 ∷ []) side).0
      (calls (reads 2 ∷ fills 1 ∷ reads 7 ∷ fills 1 ∷ []) side).1
calls-Delivers_example =
    calls-Delivers (reads 2 ∷ fills 1 ∷ reads 7 ∷ fills 1 ∷ []) side (λ e. absurd cc)

ended :
    (poll_read_channel (record { rx = closed ∷ []; read_buf = none; read_eof = false }) 8).0
    ≡ ready []
unfolding poll_read_channel
ended = refl
