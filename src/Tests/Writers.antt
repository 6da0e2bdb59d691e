-- ===== src/Tests/Writers.antt =====
-- The theorems on the loop of the writer at concrete inputs.
use kube_portforward.Prelude.{◌≡◌, refl, List, [], ◌∷◌, true, false, arith, ◌≤◌}
use kube_portforward.Codec.{encode_ping, encode_data}
use kube_portforward.Mux.Commands.{MuxCommand}
use kube_portforward.Mux.Writer.{Writer}
use kube_portforward.Mux.Writer.Loop.{WriterTask, Found, receive, writer_turn, writer_loop}
use kube_portforward.Mux.Writer.Queues.{Holds}
use kube_portforward.Mux.Writer.Turns.{Served, writer_turn-Served}
use kube_portforward.Mux.Writer.Empties.{IsQuiet, turns_needed, writer_loop_empties}
use kube_portforward.Mux.Writer.Watchdog.{Stalled, writer_turn-Stalled}
use kube_portforward.Tests.Models.{stored_flate, bounded}

abbrev writer : Writer stored_flate
writer = record {
  sink = record { answers = true ∷ true ∷ true ∷ true ∷ true ∷ []; wire = []; pongs = [] };
  codec = record { compressor = (tt, false); decompressor = (tt, false); max_frame_size = 16 };
  pending_closes = 5 ∷ [];
}

abbrev ping : MuxCommand
ping = MuxCommand.encode_ping 9

abbrev data_command : MuxCommand
data_command = MuxCommand.send_data 1 (7 ∷ []) false

-- One data command is queued.
abbrev task : WriterTask stored_flate bounded
task = record {
  writer = writer;
  window_rx = [];
  control_rx = [];
  cmd_rx = data_command ∷ [];
  close_reg_txs = λ worker. ([], 1);
  ping_id = 3;
  bytes_since_flush = 0;
  last_writer_progress = 0;
  is_cancelled = false;
}

abbrev quiet : Found
quiet = record {
  is_cancelled = false;
  windows = [];
  controls = [];
  commands = [];
  late_controls = [];
  late_commands = [];
  window_is_closed = false;
  control_is_closed = false;
  cmd_is_closed = false;
  ping_tick = false;
  stall_tick = false;
  now = 50;
}

-- A control command has come.
abbrev controlled : Found
controlled = record quiet { controls = ping ∷ [] }

control_goes_on : (writer_turn 10 controlled task).0 ≡ true
unfolding writer_turn encode_ping
control_goes_on = refl

-- The data command waits.
data_waits : (writer_turn 10 controlled task).1.cmd_rx ≡ data_command ∷ []
unfolding writer_turn encode_ping
data_waits = refl

writer_turn-Served_example :
    Served controlled (receive controlled task) (writer_turn 10 controlled task).1
writer_turn-Served_example = writer_turn-Served 10 controlled task control_goes_on

nothing_sent : IsQuiet quiet
nothing_sent = record {
  no_windows = refl;
  no_controls = refl;
  no_commands = refl;
  no_late_controls = refl;
  no_late_commands = refl;
}

abbrev with_control : WriterTask stored_flate bounded
with_control = record task { control_rx = ping ∷ [] }

abbrev two_turns : List Found
two_turns = quiet ∷ quiet ∷ []

loop_goes_on : (writer_loop 10 two_turns with_control).0 ≡ true
unfolding writer_loop encode_ping encode_data
loop_goes_on = refl

few_turns : turns_needed [] (ping ∷ []) (data_command ∷ []) ≤ 2
unfolding turns_needed
few_turns = omega arith

writer_loop_empties_example : Holds [] [] [] (writer_loop 10 two_turns with_control).1
writer_loop_empties_example =
    writer_loop_empties 10 two_turns with_control (nothing_sent, (nothing_sent, tt)) few_turns
      loop_goes_on

-- A task that was idle for long, and a command that is sent just before the watchdog looks.
abbrev idle_task : WriterTask stored_flate bounded
idle_task = record task { cmd_rx = [] }

abbrev unlucky : Found
unlucky = record quiet { stall_tick = true; late_commands = data_command ∷ [] }

is_killed : (writer_turn 10 unlucky idle_task).1.is_cancelled ≡ true
unfolding writer_turn
is_killed = refl

writer_turn-Stalled_example : Stalled 10 unlucky (receive unlucky idle_task)
writer_turn-Stalled_example = writer_turn-Stalled 10 unlucky idle_task refl is_killed
