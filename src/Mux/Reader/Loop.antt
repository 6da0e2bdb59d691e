-- ===== src/Mux/Reader/Loop.antt =====
-- crates/spdy-mux/src/mux/reader.rs: `run_reader`, the loop around `route_frame`.
use kube_portforward.Prelude.{
  ℕ, zero, suc, ◌+◌, ◌-◌, List, [], ◌∷◌, ◌++◌, Bool, true, false, Option, none, some, not, length,
  drop, ltb, leb, if◌then◌else◌,
}
use kube_portforward.Error.{Result, ok, err, frame_too_large}
use kube_portforward.Wire.{Bytes}
use kube_portforward.Frame.{Frame}
use kube_portforward.Flate.{Flate}
use kube_portforward.Codec.{decode_frame, payload_len}
use kube_portforward.Mux.{rst_status_flow_control}
use kube_portforward.Mux.Channel.{Mpsc}
use kube_portforward.Mux.Commands.{MuxCommand}
use kube_portforward.Mux.Reader.{ReaderContext, route_frame, send_control}

-- How the inner loop over the frame buffer ends: for want of bytes, after `frame_buf.clear()`, or
-- with `should_break`. `out_of_fuel` is no exit of the program.
pub data Exit : Type 0 where
  waiting cleared broken out_of_fuel : Exit

-- The exit, the context, and the frame buffer.
pub record Drained (mpsc : Mpsc) (flate : Flate) : Type 0 where
  pub exit : Exit
  pub context : ReaderContext mpsc flate
  pub buf : Bytes

abbrev pub Next : Mpsc → Flate → Type 0
Next mpsc flate = ReaderContext mpsc flate → Bytes → Drained mpsc flate

module _ {mpsc : Mpsc} {flate : Flate} where
  unfoldable pub after_route :
      Next mpsc flate → Bytes → Result (Unit {0}) × ReaderContext mpsc flate → Drained mpsc flate
  after_route next buf (ok _, ctx) = next ctx buf
  after_route next buf (err e, ctx) = record { exit = broken; context = ctx; buf = buf }

  -- `Err(Error::FrameTooLarge { .. })`: the peer is told, and the frame is skipped if it is whole.
  unfoldable pub skip_frame :
      Next mpsc flate → Bytes → ℕ → ReaderContext mpsc flate → Drained mpsc flate
  skip_frame next buf stream_id ctx =
      let told = MuxCommand.close_stream stream_id rst_status_flow_control in
      let ctx' = record ctx { channels = send_control told ctx.channels } in
      let total = 8 + payload_len buf in
      elim (leb total (length buf)) [
        | true ↦ next ctx' (drop total buf)
        | false ↦ record { exit = cleared; context = ctx'; buf = [] }
      ]

  unfoldable pub on_decoded :
      Next mpsc flate
      → Result (Option Frame)
      → Bytes
      → ReaderContext mpsc flate
      → Drained mpsc flate
  unfolding after_route skip_frame
  on_decoded next (ok none) buf ctx = record { exit = waiting; context = ctx; buf = buf }
  on_decoded next (ok (some f)) buf ctx = after_route next buf (route_frame f ctx)
  on_decoded next (err (frame_too_large stream_id size max)) buf ctx =
      skip_frame next buf stream_id ctx
  on_decoded next (err e) buf ctx = record { exit = broken; context = ctx; buf = buf }

  -- `while frame_buf.len() >= 8 { … }`.
  unfoldable pub drain : ℕ → ReaderContext mpsc flate → Bytes → Drained mpsc flate
  unfolding on_decoded
  drain zero ctx buf = record { exit = out_of_fuel; context = ctx; buf = buf }
  drain (suc fuel) ctx buf =
      let d = decode_frame ctx.codec buf in
      elim (ltb (length buf) 8) [
        | true ↦ record { exit = waiting; context = ctx; buf = buf }
        | false ↦ on_decoded (drain fuel) d.result d.buf (record ctx { codec = d.codec })
      ]

  -- Each round takes eight bytes at least, so the length is enough fuel.
  unfoldable pub drain_all : ReaderContext mpsc flate → Bytes → Drained mpsc flate
  unfolding drain
  drain_all ctx buf = drain (suc (length buf)) ctx buf

abbrev ended : Exit → Bool
ended broken = true
ended _ = false

-- What `select!` finds. `idle_elapsed` is the sleep; its guard is checked here.
pub data Event : Type 0 where
  cancelled : Event
  idle_elapsed : Event
  binary : Bytes → Event
  ws_ping : Bytes → Event
  ws_close : Event
  ws_error : Event

-- The instant at the top of the loop, the event, and the instant at which it is handled.
pub record Turn : Type 0 where
  pub top : ℕ
  pub event : Event
  pub now : ℕ

-- The local variables of `run_reader`.
pub record Reader (mpsc : Mpsc) (flate : Flate) : Type 0 where
  pub context : ReaderContext mpsc flate
  pub frame_buf : Bytes
  pub last_frame_time : ℕ
  pub idle_ping_sent : Bool
  pub idle_probe_sent_at : Option ℕ

module _ {mpsc : Mpsc} {flate : Flate} where
  -- A message of any kind resets the idle tracking.
  unfoldable pub heard : ℕ → Reader mpsc flate → Reader mpsc flate
  heard now r = record r {
    last_frame_time = now;
    idle_ping_sent = false;
    idle_probe_sent_at = none;
  }

  unfoldable pub control_of : MuxCommand → Reader mpsc flate → Reader mpsc flate
  control_of command r = record r {
    context = record (r.context) { channels = send_control command r.context.channels };
  }

  -- `sent_at.elapsed() >= ping_timeout`.
  unfoldable pub probe_expired : ℕ → Reader mpsc flate → Bool
  probe_expired top r = elim r.idle_probe_sent_at [
    | none ↦ false
    | some sent_at ↦ leb r.context.config.ping_timeout (top - sent_at)
  ]

  unfoldable pub idle_armed : Reader mpsc flate → Bool
  idle_armed r = elim r.idle_probe_sent_at [ none ↦ not r.idle_ping_sent | some t ↦ false ]

  unfoldable pub on_idle : ℕ → Reader mpsc flate → Reader mpsc flate
  unfolding idle_armed control_of
  on_idle now r =
      if idle_armed r
      then record (control_of (MuxCommand.encode_ping 0xffff_fffd) r) {
        idle_ping_sent = true;
        idle_probe_sent_at = some now;
      }
      else r

  -- A binary message; the flag says that the loop breaks.
  unfoldable pub on_binary : ℕ → Bytes → Reader mpsc flate → Reader mpsc flate × Bool
  unfolding heard drain_all
  on_binary now payload r =
      let r' = heard now r in
      let d = drain_all r'.context (r'.frame_buf ++ payload) in
      (record r' { context = d.context; frame_buf = d.buf }, ended d.exit)

  unfoldable pub on_event : ℕ → Event → Reader mpsc flate → Reader mpsc flate × Bool
  unfolding on_idle on_binary control_of heard
  on_event now cancelled r = (r, true)
  on_event now idle_elapsed r = (on_idle now r, false)
  on_event now (binary payload) r = on_binary now payload r
  on_event now (ws_ping p) r = (control_of (MuxCommand.send_ws_pong p) (heard now r), false)
  on_event now ws_close r = (r, true)
  on_event now ws_error r = (r, true)

  unfoldable pub turn : Turn → Reader mpsc flate → Reader mpsc flate × Bool
  unfolding probe_expired on_event
  turn t r = if probe_expired t.top r then (r, true) else on_event t.now t.event r

  -- The end of `run_reader`: `shared.cancel.cancel()`.
  unfoldable pub cancel_session : Reader mpsc flate → Reader mpsc flate
  cancel_session r = record r {
    context = record (r.context) { shared = record (r.context.shared) { cancelled = true } };
  }

  -- The flag says that the task has ended.
  unfoldable pub run_reader : List Turn → Reader mpsc flate → Reader mpsc flate × Bool
  unfolding turn cancel_session
  run_reader [] r = (r, false)
  run_reader (t ∷ ts) r =
      let (r', stop) = turn t r in
      elim stop [ true ↦ (cancel_session r', true) | false ↦ run_reader ts r' ]
