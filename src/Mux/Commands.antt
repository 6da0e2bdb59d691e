-- ===== src/Mux/Commands.antt =====
-- crates/spdy-mux/src/mux/commands.rs: what the tasks send to one another. A sender or a window
-- that a message carries is the address of a shared object.
use kube_portforward.Prelude.{ℕ, Bool}
use kube_portforward.Prelude.Int.{ℤ}
use kube_portforward.Wire.{Bytes}
use kube_portforward.Frame.{Headers}

pub data MuxCommand : Type 0 where
  open_stream_pair : ℕ → ℕ → Headers → Headers → MuxCommand
  send_data : ℕ → Bytes → Bool → MuxCommand
  send_raw_frame : Bytes → MuxCommand
  close_stream : ℕ → ℕ → MuxCommand
  encode_ping : ℕ → MuxCommand
  send_ws_pong : Bytes → MuxCommand
  encode_window_update : ℕ → ℕ → MuxCommand
  go_away : ℕ → MuxCommand

-- The fields of `Open`: stream, data sender, reply sender, window.
pub data StreamRegistration : Type 0 where
  opens : ℕ → ℕ → ℕ → ℕ → StreamRegistration
  closes : ℕ → StreamRegistration
  settings_window_delta : ℤ → StreamRegistration
  go_away : ℕ → ℕ → StreamRegistration

pub record OpenState : Type 0 where
  pub next_stream_id : ℕ
