-- ===== src/Mux/Reading.antt =====
-- crates/spdy-mux/src/stream.rs: the receive path of a stream: `poll_read_channel`,
-- `poll_fill_buf_channel` and `consume_channel_buf`.
pub mod Delivered
pub mod Eof
use kube_portforward.Prelude.{
  ℕ, min, List, [], ◌∷◌, Bool, true, false, Option, none, some, length, take, drop, leb, ltb, ◌==◌,
  if◌then◌else◌,
}
use kube_portforward.Wire.{Bytes}
use kube_portforward.Mux.Writing.{Polled, pending, ready}

-- What `rx.poll_recv` answers: a message, `None`, or `Poll::Pending`.
pub data Recv : Type 0 where
  received : Bytes → Recv
  closed : Recv
  not_yet : Recv

-- `rx` is what the receiver answers from here on, one for each call of `poll_recv`; a receiver that
-- has no more answers is pending.
pub record ReadSide : Type 0 where
  pub rx : List Recv
  pub read_buf : Option Bytes
  pub read_eof : Bool

unfoldable pub read_buffered : ReadSide → Bytes → ℕ → Polled Bytes × ReadSide
read_buffered s remaining room =
    let to_copy = min (length remaining) room in
    (
      ready (take to_copy remaining),
      record s {
        read_buf = if leb (length remaining) to_copy then none else some (drop to_copy remaining);
      },
    )

unfoldable pub read_received : ReadSide → Bytes → ℕ → Polled Bytes × ReadSide
read_received s chunk room =
    let to_copy = min (length chunk) room in
    (
      ready (take to_copy chunk),
      record s {
        read_buf = if ltb to_copy (length chunk) then some (drop to_copy chunk) else s.read_buf;
      },
    )

unfoldable pub read_polled : ReadSide → List Recv → ℕ → Polled Bytes × ReadSide
unfolding read_received
read_polled s [] room = (pending, record s { rx = [] })
read_polled s (received chunk ∷ rx) room = read_received (record s { rx = rx }) chunk room
read_polled s (closed ∷ rx) room = (ready [], record s { rx = rx; read_eof = true })
read_polled s (not_yet ∷ rx) room = (pending, record s { rx = rx })

-- What is put into the caller's buffer, which has `room` bytes left.
unfoldable pub poll_read_channel : ReadSide → ℕ → Polled Bytes × ReadSide
unfolding read_buffered read_polled
poll_read_channel s room = if s.read_eof then (ready [], s) else elim s.read_buf [
  | some remaining ↦ read_buffered s remaining room
  | none ↦ read_polled s s.rx room
]

-- The loop of `poll_fill_buf_channel`, once the buffer is empty and dropped.
unfoldable pub fill_polled : Bool → List Recv → Polled Bytes × ReadSide
fill_polled true rx = (ready [], record { rx = rx; read_buf = none; read_eof = true })
fill_polled false [] = (pending, record { rx = []; read_buf = none; read_eof = false })
fill_polled false (not_yet ∷ rx) = (pending, record { rx = rx; read_buf = none; read_eof = false })
fill_polled false (closed ∷ rx) = (ready [], record { rx = rx; read_buf = none; read_eof = true })
fill_polled false (received [] ∷ rx) = fill_polled false rx
fill_polled false (received (b ∷ bs) ∷ rx) =
    (ready (b ∷ bs), record { rx = rx; read_buf = some (b ∷ bs); read_eof = false })

unfoldable pub fill_buffered : ReadSide → Option Bytes → Polled Bytes × ReadSide
unfolding fill_polled
fill_buffered s (some (b ∷ bs)) = (ready (b ∷ bs), s)
fill_buffered s (some []) = fill_polled s.read_eof s.rx
fill_buffered s none = fill_polled s.read_eof s.rx

unfoldable pub poll_fill_buf_channel : ReadSide → Polled Bytes × ReadSide
unfolding fill_buffered
poll_fill_buf_channel s = fill_buffered s s.read_buf

unfoldable pub consume_channel_buf : ReadSide → ℕ → ReadSide
consume_channel_buf s amt = elim s.read_buf [
  | none ↦ s
  | some bytes ↦
      let consumed = min amt (length bytes) in
      record s {
        read_buf = if length (drop consumed bytes) == 0 then none else some (drop consumed bytes);
      }
]
