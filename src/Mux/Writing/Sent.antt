-- ===== src/Mux/Writing/Sent.antt =====
-- crates/spdy-mux/src/stream.rs: the outcomes of `poll_write_via_sender`.
use kube_portforward.Prelude.{
  ℕ, ◌+◌, ◌-◌, ◌%◌, ◌^◌, ◌≤◌, ◌<◌, ◌≡◌, ◌⊎◌, inl, inr, refl, ap, sym, [], ◌∷◌, ◌++◌, true, false,
  some, Bool-cases, length, take, ◌==◌, arith, length-take,
}
use kube_portforward.Prelude.Int.{ℤ}
use kube_portforward.Wire.{Bytes, u32_bytes, low31, low24, flags_len}
use kube_portforward.Error.{ok}
use kube_portforward.Frame.{data_frame}
use kube_portforward.Flate.{Flate}
use kube_portforward.Codec.{SpdyCodec, encode_data, decode_frame}
use kube_portforward.Codec.RoundTrip.{decode-encode_data}
use kube_portforward.Mux.Window.{is_closed, available, consume, debit}
use kube_portforward.Mux.Channel.{sent, full, SendResult-cases}
use kube_portforward.Mux.Commands.{send_raw_frame}
use kube_portforward.Mux.Writing.{
  Polled, pending, ready, broken_pipe, WriteSender, WindowSeen, max_payload, write_size,
  chosen_size, raw_frame, send_item, send_sized, poll_write_via_sender,
}

raw_frame-encode_data :
    (stream_id : ℕ) (payload : Bytes)
    → length payload < 2 ^ 24
    → raw_frame stream_id payload ≡ encode_data stream_id payload false
unfolding raw_frame encode_data flags_len
raw_frame-encode_data stream_id payload h =
    ap (λ f. u32_bytes (low31 stream_id) ++ (u32_bytes f ++ payload)) (sym same)
  where
    same : flags_len false (length payload % 2 ^ 32) ≡ low24 (length payload % 2 ^ 32)
    same = ground arith

-- The sizes that the write may have.
abbrev pub Allowed : ℕ → Bytes → WindowSeen → ℕ → Type 0
Allowed max_frame_size buf seen n =
    (n ≤ length buf)
    × ((8 < max_frame_size → n ≤ max_frame_size - 8)
        × ((n ≤ available seen.early) ⊎ (n ≤ available seen.again)))

write_size_bounds :
    (max_frame_size : ℕ) (buf : Bytes) (w : ℤ)
    → (write_size max_frame_size buf w ≤ length buf)
      × ((8 < max_frame_size → write_size max_frame_size buf w ≤ max_frame_size - 8)
          × (write_size max_frame_size buf w ≤ available w))
unfolding write_size max_payload
write_size_bounds max_frame_size buf w = (ground arith, (λ h. ground arith, ground arith))

chosen_size-Allowed :
    (max_frame_size : ℕ) (buf : Bytes) (seen : WindowSeen) (n : ℕ)
    → chosen_size max_frame_size buf seen ≡ ready n
    → Allowed max_frame_size buf seen n × (0 < n)
unfolding chosen_size
chosen_size-Allowed max_frame_size buf seen n e =
    elim (Bool-cases (write_size max_frame_size buf seen.early == 0)) [
      | inl z ↦ grind (arith, write_size_bounds max_frame_size buf seen.again)
      | inr z ↦ grind (arith, write_size_bounds max_frame_size buf seen.early)
    ]

-- What a write that came through has done.
abbrev pub Sent : WriteSender → ℕ → ℤ → Bytes → ℕ → WriteSender → ℤ → Type 0
Sent tx stream_id window buf n tx' window' =
    (is_closed window ≡ false)
    × ((window' ≡ debit window n)
        × (tx'.queued ≡ tx.queued ++ send_raw_frame (raw_frame stream_id (take n buf)) ∷ []))

send_sized-Sent :
    (tx : WriteSender) (stream_id : ℕ) (window : ℤ) (buf : Bytes) (p : Polled ℕ) (n : ℕ)
    (tx' : WriteSender) (window' : ℤ)
    → send_sized tx stream_id window buf p ≡ (ready n, tx', window')
    → (p ≡ ready n) × Sent tx stream_id window buf n tx' window'
unfolding send_sized consume send_item
send_sized-Sent tx stream_id window buf pending n tx' window' e = cc
send_sized-Sent tx stream_id window buf broken_pipe n tx' window' e = cc
send_sized-Sent tx stream_id window buf (ready m) n tx' window' e =
    elim (Bool-cases (is_closed window)) [ inl c ↦ ground arith | inr c ↦ ground arith ]

-- A write that comes through takes a prefix of the buffer that is not empty, no longer than what is
-- left of the window at one of the two looks and, where the frame size is above 8, no longer than the
-- frame size less 8; it puts one raw frame with just this prefix on the command channel, and takes its
-- length from the window, which was open at that moment.
pub poll_write-Sent :
    (tx : WriteSender) (stream_id : ℕ) (seen : WindowSeen) (max_frame_size : ℕ) (buf : Bytes)
    (n : ℕ) (tx' : WriteSender) (window' : ℤ)
    → poll_write_via_sender tx stream_id seen max_frame_size buf ≡ (ready n, tx', window')
    → (0 < n)
      × (Allowed max_frame_size buf seen n × Sent tx stream_id seen.debited buf n tx' window')
unfolding poll_write_via_sender
poll_write-Sent tx stream_id seen max_frame_size buf n tx' window' e =
    elim (Bool-cases (is_closed seen.early)) [
      | inl c ↦ absurd (ground arith)
      | inr c ↦ elim (SendResult-cases tx.reserve) [
        | inl r ↦ came_through (
            send_sized-Sent tx stream_id seen.debited buf (chosen_size max_frame_size buf seen) n
              tx' window' (ground arith))
        | inr (inl r) ↦ absurd (ground arith)
        | inr (inr r) ↦ absurd (ground arith)
      ]
    ]
  where
    came_through :
        (chosen_size max_frame_size buf seen ≡ ready n)
          × Sent tx stream_id seen.debited buf n tx' window'
        → (0 < n)
          × (Allowed max_frame_size buf seen n × Sent tx stream_id seen.debited buf n tx' window')
    came_through (size, h) = (
      (chosen_size-Allowed max_frame_size buf seen n size).1,
      ((chosen_size-Allowed max_frame_size buf seen n size).0, h),
    )

-- What a peer whose limit is at least the stream's frame size decodes: if the frame size is between
-- 9 and 2^24 + 7, the frame of a write that came through is read back as the DATA frame of this
-- stream, without FIN, with just the bytes that the write took.
pub decode-poll_write :
    {flate : Flate} (codec : SpdyCodec flate) (rest : Bytes) (tx : WriteSender) (stream_id : ℕ)
    (seen : WindowSeen) (max_frame_size : ℕ) (buf : Bytes) (n : ℕ) (tx' : WriteSender) (window' : ℤ)
    → 8 < max_frame_size
    → max_frame_size < 2 ^ 24 + 8
    → max_frame_size ≤ codec.max_frame_size
    → poll_write_via_sender tx stream_id seen max_frame_size buf ≡ (ready n, tx', window')
    → (frame : Bytes) × (tx'.queued ≡ tx.queued ++ send_raw_frame frame ∷ [])
      × (decode_frame codec (frame ++ rest) ≡ record {
        result = ok (some (data_frame (low31 stream_id) (take n buf) false));
        codec = codec;
        buf = rest;
      })
decode-poll_write codec rest tx stream_id seen max_frame_size buf n tx' window' h i j e = (
  raw_frame stream_id (take n buf),
  done.1.1.1.1,
  rw (raw_frame-encode_data stream_id (take n buf) short)
      (decode-encode_data codec stream_id (take n buf) false rest (omega (arith, size, j)) short),
)
  where
    done :
        (0 < n)
        × (Allowed max_frame_size buf seen n × Sent tx stream_id seen.debited buf n tx' window')
    done = poll_write-Sent tx stream_id seen max_frame_size buf n tx' window' e

    size : length (take n buf) ≤ max_frame_size - 8
    size = omega (arith, length-take n buf, done.1.0.1.0 h)

    short : length (take n buf) < 2 ^ 24
    short = omega (arith, size, i)

write_size-zero :
    (max_frame_size : ℕ) (buf : Bytes) (w : ℤ)
    → 0 < length buf
    → write_size max_frame_size buf w ≡ 0
    → available w ≡ 0
unfolding write_size max_payload
write_size-zero max_frame_size buf w h e = ground arith

chosen_size-pending :
    (max_frame_size : ℕ) (buf : Bytes) (seen : WindowSeen)
    → 0 < length buf
    → chosen_size max_frame_size buf seen ≡ pending
    → (available seen.early ≡ 0) × (available seen.again ≡ 0)
unfolding chosen_size
chosen_size-pending max_frame_size buf seen h e = (
  write_size-zero max_frame_size buf seen.early h (ground arith),
  write_size-zero max_frame_size buf seen.again h (ground arith),
)

send_sized-pending :
    (tx : WriteSender) (stream_id : ℕ) (window : ℤ) (buf : Bytes) (p : Polled ℕ)
    → (send_sized tx stream_id window buf p).0 ≡ pending
    → p ≡ pending
unfolding send_sized consume send_item
send_sized-pending tx stream_id window buf pending e = refl
send_sized-pending tx stream_id window buf broken_pipe e = e
send_sized-pending tx stream_id window buf (ready n) e = ground arith

send_sized-closed :
    (tx : WriteSender) (stream_id : ℕ) (window : ℤ) (buf : Bytes) (p : Polled ℕ)
    → is_closed window ≡ true
    → (send_sized tx stream_id window buf p).1 ≡ tx
unfolding send_sized consume
send_sized-closed tx stream_id window buf pending h = refl
send_sized-closed tx stream_id window buf broken_pipe h = refl
send_sized-closed tx stream_id window buf (ready n) h = rw (h) refl

-- A write that must wait has done nothing: no frame is queued, the window keeps its value, and
-- either the channel was full or the window was empty at both looks.
poll_write-pending :
    (tx : WriteSender) (stream_id : ℕ) (seen : WindowSeen) (max_frame_size : ℕ) (buf : Bytes)
    → 0 < length buf
    → (poll_write_via_sender tx stream_id seen max_frame_size buf).0 ≡ pending
    → (poll_write_via_sender tx stream_id seen max_frame_size buf ≡ (pending, tx, seen.debited))
      × ((tx.reserve ≡ full) ⊎ ((available seen.early ≡ 0) × (available seen.again ≡ 0)))
unfolding poll_write_via_sender send_sized
poll_write-pending tx stream_id seen max_frame_size buf h e =
    elim (Bool-cases (is_closed seen.early)) [
      | inl c ↦ absurd (ground arith)
      | inr c ↦ elim (SendResult-cases tx.reserve) [
        | inl r ↦ waits (send_sized-pending tx stream_id seen.debited buf _ (ground arith)) r c
        | inr (inl r) ↦ (ground arith, inl r)
        | inr (inr r) ↦ absurd (ground arith)
      ]
    ]
  where
    waits :
        chosen_size max_frame_size buf seen ≡ pending
        → tx.reserve ≡ sent
        → is_closed seen.early ≡ false
        → (poll_write_via_sender tx stream_id seen max_frame_size buf ≡ (pending, tx, seen.debited))
          × ((tx.reserve ≡ full) ⊎ ((available seen.early ≡ 0) × (available seen.again ≡ 0)))
    waits k r c = (ground arith, inr (chosen_size-pending max_frame_size buf seen h k))

-- A window that is closed before the write, or before its debit, refuses the bytes: the writer sees
-- a broken pipe or waits for the channel, and no frame is queued.
poll_write-closed :
    (tx : WriteSender) (stream_id : ℕ) (seen : WindowSeen) (max_frame_size : ℕ) (buf : Bytes)
    → is_closed seen.debited ≡ true
    → (poll_write_via_sender tx stream_id seen max_frame_size buf).1 ≡ tx
unfolding poll_write_via_sender
poll_write-closed tx stream_id seen max_frame_size buf h =
    elim (Bool-cases (is_closed seen.early)) [
      | inl c ↦ ground arith
      | inr c ↦ elim (SendResult-cases tx.reserve) [
        | inl r ↦ ground (
          arith,
          send_sized-closed tx stream_id seen.debited buf (chosen_size max_frame_size buf seen) h,
        )
        | inr (inl r) ↦ ground arith
        | inr (inr r) ↦ ground arith
      ]
    ]
