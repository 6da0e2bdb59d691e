-- ===== src/Tests/Readers.antt =====
-- The reader's theorems at concrete inputs.
use kube_portforward.Prelude.{◌≡◌, refl, [], ◌∷◌, ◌++◌, false, some}
use kube_portforward.Prelude.Int.{pos}
use kube_portforward.Wire.{Bytes}
use kube_portforward.Codec.{decode_frame, decode_body, decode_control_frame}
use kube_portforward.Mux.Reader.{ReaderContext, route_frame}
use kube_portforward.Mux.Reader.Loop.{waiting, drain_all}
use kube_portforward.Mux.Reader.Fragments.{drain_all-append}
use kube_portforward.Tests.Models.{stored_flate, bounded}

abbrev context : ReaderContext bounded stored_flate
context = record {
  config = record {
    initial_window_size = 64;
    idle_timeout = 10;
    ping_timeout = 5;
    configured_max_frame_size = 4;
  };
  channels = record {
    control = ([], 2);
    window_updates = ([], 1);
    frame_txs = λ worker. ([], 3);
    reg_txs = λ worker. ([], 3);
    close_reg_txs = λ worker. ([], 3);
  };
  shared = record {
    cancelled = false;
    peer_initial_window = 64;
    peer_max_concurrent = 0;
    goaway_received = false;
    session_send_window = pos 64;
    max_frame_size = 4;
  };
  waiting_ping_ready = some 9;
  ping_answers = [];
  session_recv_consumed = 0;
  codec = record { compressor = (tt, false); decompressor = (tt, false); max_frame_size = 4 };
}

-- A DATA frame of two bytes on stream 3, a PING, and the first bytes of another DATA frame.
abbrev data_and_ping : Bytes
data_and_ping =
    0 ∷ 0 ∷ 0 ∷ 3 ∷ 0 ∷ 0 ∷ 0 ∷ 2 ∷ 7 ∷ 8 ∷ 0x80 ∷ 3 ∷ 0 ∷ 6 ∷ 0 ∷ 0 ∷ 0 ∷ 4 ∷ 0 ∷ 0 ∷ 0 ∷ 1 ∷ 0 ∷ 0
    ∷ 0 ∷ 3 ∷ 0 ∷ 0 ∷ 0 ∷ 1 ∷ []

waits : (drain_all context data_and_ping).exit ≡ waiting
unfolding drain_all decode_frame decode_body route_frame decode_control_frame
waits = refl

drain_all-append_example :
    drain_all context (data_and_ping ++ 5 ∷ [])
    ≡ drain_all
        (drain_all context data_and_ping).context
        ((drain_all context data_and_ping).buf ++ 5 ∷ [])
drain_all-append_example = drain_all-append context data_and_ping (5 ∷ []) waits
