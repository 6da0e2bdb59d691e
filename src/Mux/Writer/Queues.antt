-- ===== src/Mux/Writer/Queues.antt =====
-- crates/spdy-mux/src/mux/writer.rs, the loop of `run_writer`: which commands a turn takes.
use kube_portforward.Prelude.{
  ℕ, ◌≡◌, refl, sym, ap, ◌∙◌, List, [], ◌∷◌, ◌++◌, Bool, true, false, take, drop, if◌then◌else◌,
  arith,
}
use kube_portforward.Flate.{Flate}
use kube_portforward.Mux.Channel.{Mpsc}
use kube_portforward.Mux.Commands.{MuxCommand}
use kube_portforward.Mux.Writer.{Writer, process_batch, process_writer_command}
use kube_portforward.Mux.Writer.Loop.{
  opportunistic_cap, write_batch_cap, WriterTask, Found, on_windows, on_controls, drain_controls,
  send_commands, on_commands, flush_batch, notify_workers, end_turn,
}

module _ {flate : Flate} where
  process_batch_left :
      (cs : List MuxCommand) (w : Writer flate)
      → (process_batch cs w).0 ≡ false
      → (process_batch cs w).3 ≡ []
  unfolding process_batch
  process_batch_left [] w e = refl
  process_batch_left (c ∷ cs) w e =
      ground (arith, process_batch_left cs (process_writer_command c w).2)

  -- A batch after a batch.
  process_batch-append :
      (xs ys : List MuxCommand) (w : Writer flate)
      → (process_batch xs w).0 ≡ false
      → ((process_batch (xs ++ ys) w).0 ≡ (process_batch ys (process_batch xs w).2).0)
        × ((process_batch (xs ++ ys) w).2 ≡ (process_batch ys (process_batch xs w).2).2)
  unfolding process_batch
  process_batch-append [] ys w e = (refl, refl)
  process_batch-append (c ∷ xs) ys w e =
      ground (arith, process_batch-append xs ys (process_writer_command c w).2)

module _ {flate : Flate} {mpsc : Mpsc} where
  -- The three queues of a task.
  abbrev pub Holds :
      List MuxCommand → List MuxCommand → List MuxCommand → WriterTask flate mpsc → Type 0
  Holds windows controls commands t =
      (t.window_rx ≡ windows) × (t.control_rx ≡ controls) × (t.cmd_rx ≡ commands)

  -- The flush and the notifications leave the queues and the wire alone.
  pub end_turn-Holds :
      (now : ℕ) (had_error : Bool) (t : WriterTask flate mpsc)
      → (end_turn now (had_error, t)).0 ≡ true
      → (had_error ≡ false)
        × Holds t.window_rx t.control_rx t.cmd_rx (end_turn now (had_error, t)).1
        × ((end_turn now (had_error, t)).1.writer.sink.wire ≡ t.writer.sink.wire)
        × ((end_turn now (had_error, t)).1.bytes_since_flush ≡ 0)
        × ((end_turn now (had_error, t)).1.is_cancelled ≡ t.is_cancelled)
  unfolding end_turn flush_batch notify_workers
  end_turn-Holds now had_error t e = ground arith

  -- A turn that goes on wrote this batch and nothing else, and left these commands in the queues.
  pub record Took (batch windows controls commands : List MuxCommand) (t t' : WriterTask flate mpsc)
      : Type 0 where
    pub written : (process_batch batch t.writer).0 ≡ false
    pub wire : t'.writer.sink.wire ≡ (process_batch batch t.writer).2.sink.wire
    pub queues : Holds windows controls commands t'
    pub flushed : t'.bytes_since_flush ≡ 0
    pub same_token : t'.is_cancelled ≡ t.is_cancelled

  pub windows-Took :
      (now : ℕ) (c : MuxCommand) (cs : List MuxCommand) (t : WriterTask flate mpsc)
      → (end_turn now (on_windows c cs t)).0 ≡ true
      → Took (c ∷ cs) [] t.control_rx t.cmd_rx t (end_turn now (on_windows c cs t)).1
  unfolding on_windows
  windows-Took now c cs t e =
      let (fine, (a, b, d), wire, flushed, token) =
        end_turn-Holds now (on_windows c cs t).0 (on_windows c cs t).1 e in
      record {
        written = fine;
        wire = wire;
        queues = (a ∙ process_batch_left (c ∷ cs) t.writer fine, b, d);
        flushed = flushed;
        same_token = token;
      }

  pub controls-Took :
      (now : ℕ) (c : MuxCommand) (cs : List MuxCommand) (t : WriterTask flate mpsc)
      → (end_turn now (on_controls c cs t)).0 ≡ true
      → Took
          (take write_batch_cap (c ∷ cs))
          t.window_rx
          (drop write_batch_cap (c ∷ cs))
          t.cmd_rx
          t
          (end_turn now (on_controls c cs t)).1
  unfolding on_controls
  controls-Took now c cs t e =
      let (fine, (a, b, d), wire, flushed, token) =
        end_turn-Holds now (on_controls c cs t).0 (on_controls c cs t).1 e in
      record {
        written = fine;
        wire = wire;
        queues = (
          a,
          b
              ∙ ap (λ left. left ++ drop opportunistic_cap cs)
                  (process_batch_left (c ∷ take opportunistic_cap cs) t.writer fine),
          d,
        );
        flushed = flushed;
        same_token = token;
      }

  send-Took :
      (now : ℕ) (c : MuxCommand) (cs : List MuxCommand) (t : WriterTask flate mpsc)
      → (end_turn now (send_commands c cs t)).0 ≡ true
      → Took
          (take write_batch_cap (c ∷ cs))
          t.window_rx
          t.control_rx
          (drop write_batch_cap (c ∷ cs))
          t
          (end_turn now (send_commands c cs t)).1
  unfolding send_commands
  send-Took now c cs t e =
      let (fine, (a, b, d), wire, flushed, token) =
        end_turn-Holds now (send_commands c cs t).0 (send_commands c cs t).1 e in
      record {
        written = fine;
        wire = wire;
        queues = (
          a,
          b,
          d
              ∙ ap (λ left. left ++ drop opportunistic_cap cs)
                  (process_batch_left (c ∷ take opportunistic_cap cs) t.writer fine),
        );
        flushed = flushed;
        same_token = token;
      }

  after_controls-Took :
      (now : ℕ) (c : MuxCommand) (cs : List MuxCommand) (had_error : Bool)
      (t : WriterTask flate mpsc)
      → (end_turn now (if had_error then (true, t) else send_commands c cs t)).0 ≡ true
      → (had_error ≡ false)
        × Took
            (take write_batch_cap (c ∷ cs))
            t.window_rx
            t.control_rx
            (drop write_batch_cap (c ∷ cs))
            t
            (end_turn now (if had_error then (true, t) else send_commands c cs t)).1
  after_controls-Took now c cs true t e = absurd (cc (end_turn-Holds now true t e).0)
  after_controls-Took now c cs false t e = (refl, send-Took now c cs t e)

  pub commands-Took :
      (found : Found) (c : MuxCommand) (cs : List MuxCommand) (t : WriterTask flate mpsc)
      → (end_turn found.now (on_commands found c cs t)).0 ≡ true
      → Took
          ((t.control_rx ++ found.late_controls) ++ take write_batch_cap (c ∷ cs))
          t.window_rx
          []
          (drop write_batch_cap (c ∷ cs))
          t
          (end_turn found.now (on_commands found c cs t)).1
  unfolding on_commands drain_controls
  commands-Took found c cs t e =
      let controls = t.control_rx ++ found.late_controls in
      let batch = take write_batch_cap (c ∷ cs) in
      let drained = drain_controls (record t { control_rx = controls; cmd_rx = cs }) in
      let (fine, took) = after_controls-Took found.now c cs drained.0 drained.1 e in
      let (both, same) = process_batch-append controls batch t.writer fine in
      record {
        written = both ∙ took.written;
        wire = took.wire ∙ sym (ap (λ (w : Writer flate). w.sink.wire) same);
        queues = (
          took.queues.0,
          took.queues.1 ∙ process_batch_left controls t.writer fine,
          took.queues.2,
        );
        flushed = took.flushed;
        same_token = took.same_token;
      }
