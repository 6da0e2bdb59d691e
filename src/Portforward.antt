-- ===== src/Portforward.antt =====
-- crates/kube-portforward/src/session.rs: a session for one port with spare streams that were opened
-- ahead, and `Forwarder::connect_on_pod` of forwarder/mod.rs, which takes a stream from it.
pub mod Spares
pub mod Connects
use Prim.Native.Char.{code}
use Prim.Native.String.{String}
use kube_portforward.Prelude.{
  ℕ, zero, suc, ◌+◌, ◌/◌, ◌%◌, ◌^◌, ◌⊎◌, inl, inr, List, [], ◌∷◌, ◌++◌, Option, none, some, Bool,
  true, false, not, ◌||◌, ◌==◌, ltb, leb, length, if◌then◌else◌,
}
use kube_portforward.Error.{Result, ok, err}
use kube_portforward.Wire.{Bytes}
use kube_portforward.Frame.{Headers}
use kube_portforward.Mux.Channel.{Mpsc}
use kube_portforward.Session
use kube_portforward.Session.{Session}
use kube_portforward.Pods.{ReadyPod}
use kube_portforward.Forwarder.{ForwardError, configuration, spdy, cancelled}
use kube_portforward.Forwarder

abbrev pub spare_stream_cap : ℕ
spare_stream_cap = 16

abbrev pub spare_stream_low_watermark : ℕ
spare_stream_low_watermark = 8

-- A stream with the frame size that it keeps; whether its remote end has closed changes with time.
pub record Stream : Type 0 where
  pub frame_size : ℕ
  pub is_read_closed : Bool

pub record PortSession (mpsc : Mpsc) : Type 0 where
  pub inner : Session mpsc
  pub port : ℕ
  pub next_request_id : ℕ
  pub spare_streams : List Stream
  pub replenishing : Bool

abbrev pub codes : String → Bytes
codes String.[] = []
codes (String.◌∷◌ c s) = code c ∷ codes s

-- `to_string`, with at most `rounds` digits.
unfoldable pub digits : ℕ → ℕ → Bytes
digits zero n = []
digits (suc rounds) n =
    let more = digits rounds (n / 10) in
    let last = (n % 10 + b'0') ∷ [] in if ltb n 10 then last else more ++ last

-- A u32 has ten digits at most.
unfoldable pub to_string : ℕ → Bytes
unfolding digits
to_string n = digits 10 n

-- What an operation answers: an error, or a value.
abbrev pub Answer : Type 0 → Type 0
Answer A = ForwardError ⊎ A

unfoldable pub stream_headers : String → ℕ → ℕ → Headers
unfolding to_string
stream_headers stream_type port request_id =
    (codes "streamtype", codes stream_type)
    ∷ (codes "port", to_string port)
    ∷ (codes "requestid", to_string request_id)
    ∷ []

-- The first spare stream that is not closed, and the spares behind it.
unfoldable pub pop_open : List Stream → Option Stream × List Stream
pop_open [] = (none, [])
pop_open (stream ∷ spares) =
    let rest = pop_open spares in if not stream.is_read_closed then (some stream, spares) else rest

module _ {mpsc : Mpsc} where
  unfoldable pub from_spdy : Session mpsc → ℕ → PortSession mpsc
  from_spdy inner port = record {
    inner = inner;
    port = port;
    next_request_id = 0;
    spare_streams = [];
    replenishing = false;
  }

  -- The error headers and the data headers.
  unfoldable pub portforward_headers : PortSession mpsc → (Headers × Headers) × PortSession mpsc
  unfolding stream_headers
  portforward_headers p = (
    (
      stream_headers "error" p.port p.next_request_id,
      stream_headers "data" p.port p.next_request_id,
    ),
    record p { next_request_id = (p.next_request_id + 1) % 2 ^ 32 },
  )

  abbrev pub from_opened :
      PortSession mpsc → Result ℕ × Session mpsc → Answer Stream × PortSession mpsc
  from_opened p (ok frame_size, inner) =
      (inr (record { frame_size = frame_size; is_read_closed = false }), record p { inner = inner })
  from_opened p (err e, inner) = (inl (spdy e), record p { inner = inner })

  -- The headers are kept by the stream until it is used.
  unfoldable pub open_new_stream : ℕ → PortSession mpsc → Answer Stream × PortSession mpsc
  unfolding portforward_headers Session.open_stream_pair
  open_new_stream elapsed p =
      from_opened (portforward_headers p).1 (Session.open_stream_pair elapsed p.inner)

  unfoldable pub connect : ℕ → PortSession mpsc → Answer Stream × PortSession mpsc
  unfolding pop_open open_new_stream
  connect elapsed p =
      let (found, spares) = pop_open p.spare_streams in
      let p' = record p { spare_streams = spares } in
      elim found [ some stream ↦ (inr stream, p') | none ↦ open_new_stream elapsed p' ]

  -- One round of the loop after the tests: the stream that was opened becomes the last spare.
  abbrev pub on_spare :
      Answer Stream × PortSession mpsc → (PortSession mpsc → PortSession mpsc) → PortSession mpsc
  on_spare (inr stream, p) further =
      further (record p { spare_streams = p.spare_streams ++ stream ∷ [] })
  on_spare (inl e, p) further = p

  -- `rounds` are those that the loop can make before the spares are complete.
  unfoldable pub replenish_loop : ℕ → ℕ → PortSession mpsc → PortSession mpsc
  unfolding open_new_stream Session.is_full
  replenish_loop zero elapsed p = p
  replenish_loop (suc rounds) elapsed p =
      let further = on_spare (open_new_stream elapsed p) (replenish_loop rounds elapsed) in
      if not (ltb (length p.spare_streams) spare_stream_cap)
      then p
      else if Session.is_full p.inner || p.inner.cancel
      then p
      else further

  -- The guard clears the flag at the end.
  unfoldable pub replenish_spare_streams : ℕ → PortSession mpsc → PortSession mpsc
  unfolding replenish_loop
  replenish_spare_streams elapsed p =
      if p.replenishing
      then p
      else record (replenish_loop spare_stream_cap elapsed (record p { replenishing = true })) {
        replenishing = false;
      }

  unfoldable pub needs_replenish : PortSession mpsc → Bool
  needs_replenish p = leb (length p.spare_streams) spare_stream_low_watermark

-- The session as the pool of the forwarder sees it, for the pod that it was opened for: its methods ask
-- the multiplexer.
unfoldable pub seen : {mpsc : Mpsc} → ReadyPod → PortSession mpsc → Forwarder.Session
unfolding Session.is_full Session.is_drained Session.in_use Session.total_operating_capacity
    needs_replenish
seen pod p = record {
  pod = pod;
  port = p.port;
  is_cancelled = p.inner.cancel;
  is_full = Session.is_full p.inner;
  is_drained = Session.is_drained p.inner;
  needs_replenish = needs_replenish p;
  in_use = Session.in_use p.inner;
  operating_capacity = Session.total_operating_capacity p.inner;
}

-- What one round of `connect_on_pod` comes to: `ensure_session_for_pod`, and `connect` on its session.
pub record Attempt : Type 0 where
  pub ensured : Answer ReadyPod
  pub connected : Answer Stream

-- `attempts n` is the round with `n` rounds left after it.
unfoldable pub connect_rounds : ℕ → ℕ → (ℕ → Attempt) → Answer (Stream × ReadyPod)
connect_rounds zero max_sessions attempts = inl (Forwarder.capacity_exhausted 0 max_sessions)
connect_rounds (suc n) max_sessions attempts =
    let rest = connect_rounds n max_sessions attempts in
    elim (attempts n).ensured [
      | inl e ↦ inl e
      | inr pod ↦ elim (attempts n).connected [
        | inr stream ↦ inr (stream, pod)
        | inl (Forwarder.capacity_exhausted in_use limit) ↦ rest
        | inl e ↦ inl e
      ]
    ]

-- `is_cancelled` is the forwarder's token when the call is first polled.
unfoldable pub connect_on_pod : Bool → ℕ → ℕ → (ℕ → Attempt) → Answer (Stream × ReadyPod)
unfolding connect_rounds
connect_on_pod is_cancelled max_sessions target_port attempts =
    if is_cancelled
    then inl cancelled
    else if target_port == 0
    then inl (configuration "target port must be greater than zero")
    else connect_rounds max_sessions max_sessions attempts
