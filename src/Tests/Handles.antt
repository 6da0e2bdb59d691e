-- ===== src/Tests/Handles.antt =====
-- The theorems on opening and closing pairs of streams, and on the writer, at concrete inputs.
use kube_portforward.Prelude.{
  some, none, ℕ, ◌+◌, ◌-◌, ◌≤◌, ◌≡◌, refl, [], ◌∷◌, ◌++◌, true, false, ◌||◌, arith,
}
use kube_portforward.Prelude.Int.{pos}
use kube_portforward.Error.{Result, ok, err, capacity_exhausted}
use kube_portforward.Wire.{Bytes}
use kube_portforward.Codec.{encode_data, encode_syn_stream}
use kube_portforward.Headers.{header_block, block_entries}
use kube_portforward.Deflate.{compress_headers, resize}
use kube_portforward.Mux.{max_stream_id, rst_status_cancel}
use kube_portforward.Mux.Commands.{MuxCommand}
use kube_portforward.Mux.Handle.{
  MuxHandle, OpenedStreamParts, open_stream_pair, operating_limit, hard_limit, realize_stream_pair,
}
use kube_portforward.Mux.Handle.Capacity.{open_stream_pair_bounded}
use kube_portforward.Mux.Handle.Realized.{next_of}
use kube_portforward.Mux.Handle.Opened.{Announced, realize-Announced}
use kube_portforward.Mux.Guard.{StreamGuard, drop_stream_guard}
use kube_portforward.Mux.Guard.Dropped.{closings, controls, drop_stream_guard_notifies}
use kube_portforward.Mux.Stream.{Unopened, unopened, ensure_open}
use kube_portforward.Mux.Writer.{Writer, process_writer_command, drain_closes}
use kube_portforward.Mux.Writer.{Sink}
use kube_portforward.Frame.{ping, settings}
use kube_portforward.Codec.{decode_frame}
use kube_portforward.Wire.{Bytes}
use kube_portforward.Mux.Writer.Start.{start_writer}
use kube_portforward.Mux.Writer.Start.Announced.{start_writer_announces}
use kube_portforward.Mux.Writer.Open.{open_pair_order}
use kube_portforward.Mux.Writer.Closes.{Kept, notices, drain_closes-Kept}
use kube_portforward.Tests.Models.{stored, stored_flate, bounded, bounded_laws}

-- One pair is open, and two are allowed.
abbrev pub handle : MuxHandle bounded
handle = record {
  cmd_tx = ([], 4);
  control_tx = ([], 4);
  reg_txs = λ worker. ([], 2);
  close_reg_txs = λ worker. ([], 2);
  active_pairs = 1;
  open_seq = record { next_stream_id = 5 };
  peer_initial_window = 64;
  peer_max_concurrent = 0;
  local_max_concurrent = 3;
  local_operating_max = 2;
  goaway_received = false;
  max_frame_size = 16;
  closed = false;
  windows = λ at. pos 0;
  fresh = 10;
}

abbrev pub reserved : MuxHandle bounded
reserved = record handle { active_pairs = 2 }

reserves : open_stream_pair handle ≡ (ok 16, reserved)
unfolding open_stream_pair
reserves = refl

open_stream_pair_bounded_example :
    (2 ≡ 1 + 1)
    × (2 ≤ operating_limit handle)
    × (2 ≤ hard_limit handle)
    × ((handle.closed || handle.goaway_received) ≡ false)
open_stream_pair_bounded_example =
    open_stream_pair_bounded handle 16 reserved (omega arith) reserves

refuses : open_stream_pair reserved ≡ (err (capacity_exhausted 2 2), reserved)
unfolding open_stream_pair
refuses = refl

abbrev parts : OpenedStreamParts
parts = record { data_id = 7; error_id = 5; send_window = 12 }

abbrev outcome : Result OpenedStreamParts × MuxHandle bounded
outcome = realize_stream_pair false [] [] 1 2 reserved

opened : outcome ≡ (ok parts, outcome.1)
unfolding realize_stream_pair
opened = refl

realize-Announced_example :
    (5 + 2 ≤ max_stream_id)
    × (next_of outcome.1 ≡ 5 + 4)
    × Announced bounded_laws 5 7 [] [] 1 2 reserved parts outcome.1
realize-Announced_example =
    realize-Announced bounded_laws false [] [] 1 2 reserved parts outcome.1 (omega arith) opened

abbrev guard : StreamGuard
guard = record { data_id = 7; error_id = 5; graceful_shutdown = false }

drop_stream_guard_notifies_example :
    ((worker : ℕ)
      → closings bounded_laws (drop_stream_guard guard reserved) worker
        ≡ closings bounded_laws reserved worker ++ notices worker (5 ∷ 7 ∷ []))
    × (controls bounded_laws (drop_stream_guard guard reserved)
        ≡ [] ++ MuxCommand.close_stream 7 rst_status_cancel ∷ [])
    × ((drop_stream_guard guard reserved).active_pairs ≡ 2 - 1)
drop_stream_guard_notifies_example =
    drop_stream_guard_notifies bounded_laws guard reserved (omega arith) (omega arith)

abbrev writer : Writer stored_flate
writer = record {
  sink = record { answers = true ∷ true ∷ true ∷ false ∷ []; wire = []; pongs = [] };
  codec = record { compressor = (tt, false); decompressor = (tt, false); max_frame_size = 16 };
  pending_closes = [];
}

no_error : (process_writer_command (MuxCommand.open_stream_pair 1 3 [] []) writer).0 ≡ false
unfolding process_writer_command encode_syn_stream compress_headers header_block block_entries
    stored resize
no_error = refl

open_pair_order_example :
    (frame1 frame2 : Bytes) × ((encode_syn_stream writer.codec 1 [] false).0 ≡ ok frame1)
    × ((encode_syn_stream (encode_syn_stream writer.codec 1 [] false).1 3 [] false).0 ≡ ok frame2)
    × ((process_writer_command (MuxCommand.open_stream_pair 1 3 [] []) writer).2.sink.wire
        ≡ [] ++ frame1 ∷ frame2 ∷ encode_data 1 [] true ∷ [])
open_pair_order_example = open_pair_order 1 3 [] [] writer no_error

alive : (drain_closes bounded (3 ∷ 8 ∷ []) (λ worker. ([], 1))).2 ≡ false
unfolding drain_closes
alive = refl

-- The second notification finds its worker's channel full.
drain_closes-Kept_example :
    Kept bounded_laws
      (3 ∷ 8 ∷ [])
      (λ worker. ([], 1))
      (drain_closes bounded (3 ∷ 8 ∷ []) (λ worker. ([], 1)))
drain_closes-Kept_example = drain_closes-Kept bounded_laws (3 ∷ 8 ∷ []) (λ worker. ([], 1)) alive

abbrev lazy_stream : Unopened
lazy_stream = record {
  error_headers = [];
  data_headers = [];
  pending_txs = some (1, 2);
  max_frame_size = 16;
  reading = record { rx = []; read_buf = none; read_eof = false };
  release_guard = record { armed = true };
}

-- The connection closes before the first use.
abbrev closed_handle : MuxHandle bounded
closed_handle = record reserved { closed = true }

fails : (ensure_open false (unopened lazy_stream) closed_handle).0 ≡ false
unfolding ensure_open
fails = refl

abbrev patient_sink : Sink
patient_sink = record { answers = true ∷ true ∷ true ∷ true ∷ []; wire = []; pongs = [] }

starts : (start_writer 65536 100 patient_sink).0 ≡ true
unfolding start_writer
starts = refl

start_writer_announces_example :
    (frame1 frame2 : Bytes) × ((start_writer 65536 100 patient_sink).1.wire
      ≡ [] ++ frame1 ∷ frame2 ∷ [])
    × (decode_frame writer.codec (frame1 ++ (frame2 ++ 1 ∷ []))
        ≡ record { result = ok (some (ping 1)); codec = writer.codec; buf = frame2 ++ 1 ∷ [] })
    × (decode_frame writer.codec (frame2 ++ 1 ∷ []) ≡ record {
      result = ok (some (settings (some 65536) (some 100) none));
      codec = writer.codec;
      buf = 1 ∷ [];
    })
start_writer_announces_example =
    start_writer_announces writer.codec (1 ∷ []) 65536 100 patient_sink (omega arith) (omega arith)
      starts
