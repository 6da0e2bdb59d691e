-- ===== src/Frame.antt =====
-- crates/spdy-mux/src/codec.rs: a decoded frame, and the constants of the wire format.
use kube_portforward.Prelude.{ℕ, ◌^◌, List, Bool, Option}
use kube_portforward.Wire.{Bytes}

-- A header list: names and values are the bytes of a Rust `String`.
abbrev pub Headers : Type 0
Headers = List (Bytes × Bytes)

-- The source's `Data` is `data_frame`, since `data` is a reserved word here.
pub data Frame : Type 0 where
  syn_stream : ℕ → Headers → Bool → Frame
  syn_reply : ℕ → Headers → Bool → Frame
  data_frame : ℕ → Bytes → Bool → Frame
  rst_stream : ℕ → ℕ → Frame
  ping : ℕ → Frame
  go_away : ℕ → ℕ → Frame
  window_update : ℕ → ℕ → Frame
  settings : Option ℕ → Option ℕ → Option ℕ → Frame
  unknown : Frame

abbrev pub spdy_version : ℕ
spdy_version = 0x8003

abbrev pub syn_stream_type : ℕ
syn_stream_type = 1

abbrev pub syn_reply_type : ℕ
syn_reply_type = 2

abbrev pub rst_stream_type : ℕ
rst_stream_type = 3

abbrev pub settings_type : ℕ
settings_type = 4

abbrev pub ping_type : ℕ
ping_type = 6

abbrev pub goaway_type : ℕ
goaway_type = 7

abbrev pub window_update_type : ℕ
window_update_type = 9

abbrev pub settings_initial_window_size : ℕ
settings_initial_window_size = 7

abbrev pub settings_max_concurrent_streams : ℕ
settings_max_concurrent_streams = 4

abbrev pub max_control_frame_size : ℕ
max_control_frame_size = 2 ^ 20

abbrev pub max_header_block_size : ℕ
max_header_block_size = 2 ^ 20
