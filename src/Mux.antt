-- ===== src/Mux.antt =====
-- crates/spdy-mux/src/mux: the multiplexer's tasks. This file has the constants of mod.rs.
pub mod Channel
pub mod Commands
pub mod Window
pub mod Worker
pub mod Reader
pub mod Handle
pub mod Guard
pub mod Writing
pub mod Writer
pub mod Reading
pub mod Stream
use kube_portforward.Prelude.{ℕ}

abbrev pub frame_workers : ℕ
frame_workers = 5

abbrev pub write_batch_cap : ℕ
write_batch_cap = 64

abbrev pub rst_status_invalid_stream : ℕ
rst_status_invalid_stream = 2

abbrev pub rst_status_refused_stream : ℕ
rst_status_refused_stream = 3

abbrev pub rst_status_cancel : ℕ
rst_status_cancel = 5

abbrev pub rst_status_flow_control : ℕ
rst_status_flow_control = 7

abbrev pub goaway_status_ok : ℕ
goaway_status_ok = 0

abbrev pub max_stream_id : ℕ
max_stream_id = 0x7fff_ffff
