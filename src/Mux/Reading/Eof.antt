-- ===== src/Mux/Reading/Eof.antt =====
-- crates/spdy-mux/src/stream.rs: the end of a stream, as a reader sees it.
use kube_portforward.Prelude.{
  ℕ, zero, suc, ◌<◌, min, ◌≡◌, ◌≢◌, refl, List, [], ◌∷◌, Bool, true, false, Option, none, some,
  length, take, arith,
}
use kube_portforward.Wire.{Bytes}
use kube_portforward.Mux.Writing.{ready}
use kube_portforward.Mux.Reading.{
  Recv, received, closed, not_yet, ReadSide, read_buffered, read_received, read_polled,
  poll_read_channel,
}
use kube_portforward.Mux.Reading.Delivered.{left, IsSettled, side}

-- No message is empty, as the worker sends none.
abbrev pub AreFull : List Recv → Type 0
AreFull [] = Unit {0}
AreFull (received chunk ∷ rx) = (0 < length chunk) × AreFull rx
AreFull (closed ∷ rx) = AreFull rx
AreFull (not_yet ∷ rx) = AreFull rx

take_some : (n : ℕ) (xs : Bytes) → 0 < n → 0 < length xs → take n xs ≢ []
take_some zero xs h k e = absurd (omega arith)
take_some (suc n) [] h k e = absurd (omega arith)
take_some (suc n) (x ∷ xs) h k e = cc

ready_injective : (xs : Bytes) → ready xs ≡ ready [] → xs ≡ []
ready_injective xs e = cc

min_some : (m n : ℕ) → 0 < m → 0 < n → 0 < min m n
min_some m n h k = ground arith

nonempty : (xs : Bytes) → some xs ≢ some [] → 0 < length xs
nonempty [] h = absurd (h refl)
nonempty (x ∷ xs) h = omega arith

end_parts :
    (rx : List Recv) (b : Option Bytes) (eof : Bool) (room : ℕ)
    → IsSettled (side rx b eof)
    → AreFull rx
    → b ≢ some []
    → 0 < room
    → (poll_read_channel (side rx b eof) room).0 ≡ ready []
    → left (side rx b eof) ≡ []
unfolding poll_read_channel read_polled read_received read_buffered
end_parts rx none true room h k n r e = refl
end_parts rx (some bytes) true room h k n r e = absurd (cc (h refl))
end_parts rx (some bytes) false room h k n r e = absurd (
    take_some (min (length bytes) room) bytes (min_some _ _ (nonempty bytes n) r) (nonempty bytes n)
      (ready_injective _ e))
end_parts [] none false room h k n r e = refl
end_parts (received chunk ∷ rx) none false room h k n r e =
    absurd
      (take_some (min (length chunk) room) chunk (min_some _ _ k.0 r) k.0 (ready_injective _ e))
end_parts (closed ∷ rx) none false room h k n r e = refl
end_parts (not_yet ∷ rx) none false room h k n r e = absurd cc

-- A read into a buffer with room reports the end of the stream, by no bytes at all, only when
-- everything has been handed out; the messages and the kept remainder must not be empty.
poll_read_end :
    (s : ReadSide) (room : ℕ)
    → IsSettled s
    → AreFull s.rx
    → s.read_buf ≢ some []
    → 0 < room
    → (poll_read_channel s room).0 ≡ ready []
    → left s ≡ []
poll_read_end s room h k b r = end_parts s.rx s.read_buf s.read_eof room h k b r
