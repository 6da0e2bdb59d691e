-- ===== src/Codec/Sizes.antt =====
-- crates/spdy-mux/src/codec.rs: which answers of `decode_frame` come from which of its checks.
use kube_portforward.Prelude.{
  ℕ, zero, suc, ◌+◌, ◌%◌, ◌≤◌, ◌≡◌, refl, ap, inl, inr, [], ◌∷◌, ◌++◌, Bool, true, false, none,
  some, Option, length, drop, arith, length-drop, Option-cases, ◌==◌,
}
use kube_portforward.Error.{Result, ok, err, Error, frame_too_large, ◌>>=◌}
use kube_portforward.Wire.{Bytes, u32_at}
use kube_portforward.Frame.{Frame, Headers}
use kube_portforward.Headers.{parse_header_block, parse_entries, read_name, read_value, read_sized}
use kube_portforward.Dictionary.{spdy_dict}
use kube_portforward.Flate.{Flate, Flated, flated, failed, Status, status_ok, buf_error, stream_end}
use kube_portforward.Inflate.{
  Stream, Again, grow_header_buffer, make_room, grow_and_retry, on_status, on_call, decompress_loop,
  decompress_headers,
}
use kube_portforward.Codec.{
  SpdyCodec, decode_frame, decode_body, split_frame, decode_control_frame, decode_syn, payload_len,
}
use kube_portforward.Codec.Decode.{
  frame_cases, decode_frame-partial, decode_frame-oversized, decode_frame-whole, decode_body-buf,
}

abbrev oversize : Error → Bool
oversize (frame_too_large a b c) = true
oversize _ = false

abbrev pub is_too_large {ℓ} : {A : Type ℓ} → Result A → Bool
is_too_large (ok a) = false
is_too_large (err e) = oversize e

-- Binding keeps that.
bind_sized {ℓ κ} :
    {A : Type ℓ} {B : Type κ} (m : Result A) (f : A → Result B)
    → is_too_large m ≡ false
    → ((a : A) → is_too_large (f a) ≡ false)
    → is_too_large (m >>= f) ≡ false
bind_sized (ok a) f h k = k a
bind_sized (err e) f h k = h

read_sized_sized :
    (a b : Error) (bs : Bytes)
    → oversize a ≡ false
    → oversize b ≡ false
    → is_too_large (read_sized a b bs) ≡ false
unfolding read_sized
read_sized_sized a b bs h k = ground arith

parse_entries_sized : (n : ℕ) (bs : Bytes) → is_too_large (parse_entries n bs) ≡ false
unfolding parse_entries read_name read_value
parse_entries_sized zero bs = refl
parse_entries_sized (suc n) bs =
    bind_sized (read_name bs) _ (read_sized_sized _ _ bs refl refl) λ named.
      bind_sized (read_value named.1) _ (read_sized_sized _ _ named.1 refl refl) λ valued.
        bind_sized (parse_entries n valued.1) _ (parse_entries_sized n valued.1) λ hs. refl

parse_header_block_sized : (bs : Bytes) → is_too_large (parse_header_block bs) ≡ false
unfolding parse_header_block
parse_header_block_sized bs = ground (arith, parse_entries_sized (u32_at bs 0) (drop 4 bs))

grow_sized : (size : ℕ) → is_too_large (grow_header_buffer size) ≡ false
unfolding grow_header_buffer
grow_sized size = ground arith

make_room_sized : (cur size : ℕ) → is_too_large (make_room cur size) ≡ false
unfolding make_room
make_room_sized cur size = ground (arith, grow_sized size)

module _ (flate : Flate) (compressed : Bytes) where
  abbrev Sized : Again flate → Type 0
  Sized again =
      (s : Stream flate) (cur_in : ℕ) (output : Bytes) (size : ℕ)
      → is_too_large (again s cur_in output size).0 ≡ false

  grow_and_retry-Sized :
      (again : Again flate)
      → Sized again
      → (r : Result ℕ) → is_too_large r ≡ false
      → (s : Stream flate) (cur_in : ℕ) (output : Bytes)
      → is_too_large (grow_and_retry flate r again s cur_in output).0 ≡ false
  unfolding grow_and_retry
  grow_and_retry-Sized again h (ok size) k s cur_in output = h s cur_in output size
  grow_and_retry-Sized again h (err e) k s cur_in output = k

  on_status-Sized :
      (again : Again flate)
      → Sized again
      → (s : Stream flate) (cur_in : ℕ) (output : Bytes) (size : ℕ) (none_new : Bool) (st : Status)
      → is_too_large (on_status flate again compressed s cur_in output size none_new st).0 ≡ false
  unfolding on_status
  on_status-Sized again h s cur_in output size none_new status_ok =
      ground (arith, parse_header_block_sized output, h s cur_in output size)
  on_status-Sized again h s cur_in output size none_new buf_error = ground (
    arith,
    parse_header_block_sized output,
    grow_and_retry-Sized again h (grow_header_buffer size) (grow_sized size) s cur_in output,
  )
  on_status-Sized again h s cur_in output size none_new stream_end = parse_header_block_sized output

  on_call-Sized :
      (again : Again flate)
      → Sized again
      → (dict_set : Bool) (cur_in : ℕ) (output : Bytes) (size : ℕ) (call : Flated flate.Inflater)
      → is_too_large (on_call flate again compressed dict_set cur_in output size call).0 ≡ false
  unfolding on_call
  on_call-Sized again h dict_set cur_in output size (flated st consumed produced d) =
      on_status-Sized again h (d, dict_set) (cur_in + consumed) (output ++ produced) size _ st
  on_call-Sized again h true cur_in output size (failed true consumed produced d) = refl
  on_call-Sized again h true cur_in output size (failed false consumed produced d) = refl
  on_call-Sized again h false cur_in output size (failed false consumed produced d) = refl
  on_call-Sized again h false cur_in output size (failed true consumed produced d) =
      elim (Option-cases (flate.inflate_dictionary d spdy_dict)) [
        | inl e ↦ rw (e, on_call) refl
        | inr (d', e) ↦ rw (e, on_call) (h (d', true) (cur_in + consumed) (output ++ produced) size)
      ]

  decompress_loop-Sized : (fuel : ℕ) → Sized (decompress_loop flate fuel compressed)
  unfolding decompress_loop
  decompress_loop-Sized zero s cur_in output size = refl
  decompress_loop-Sized (suc fuel) s cur_in output size =
      with_room (make_room (length output) size) (make_room_sized (length output) size) refl
        (decompress_loop-Sized fuel)
    where
      with_room :
          (r : Result ℕ)
          → is_too_large r ≡ false
          → make_room (length output) size ≡ r
          → Sized (decompress_loop flate fuel compressed)
          → is_too_large (decompress_loop flate (suc fuel) compressed s cur_in output size).0
            ≡ false
      with_room (err e) h k ih = rw (k, decompress_loop) h
      with_room (ok size') h k ih =
          rw (k, decompress_loop)
            (on_call-Sized (decompress_loop flate fuel compressed) ih s.1 cur_in output size' _)

module _ {flate : Flate} (codec : SpdyCodec flate) where
  decompress_headers_sized :
      (s : Stream flate) (bs : Bytes) → is_too_large (decompress_headers flate s bs).0 ≡ false
  unfolding decompress_headers
  decompress_headers_sized s [] = refl
  decompress_headers_sized s (b ∷ bs) = decompress_loop-Sized flate (b ∷ bs) _ s 0 [] _

  decode_syn_sized :
      (bs : Bytes) (f : Headers → Frame) → is_too_large (decode_syn codec bs f).0 ≡ false
  unfolding decode_syn
  decode_syn_sized bs f =
      bind_sized (decompress_headers flate codec.decompressor bs).0 _
        (decompress_headers_sized codec.decompressor bs) (λ hs. refl)

  decode_control_frame_sized :
      (frame_type flags : ℕ) (payload : Bytes)
      → is_too_large (decode_control_frame codec frame_type flags payload).0 ≡ false
  unfolding decode_control_frame
  decode_control_frame_sized frame_type flags payload = ground (
    arith,
    decode_syn_sized (drop 10 payload)
        (λ hs. Frame.syn_stream (u32_at payload 0) hs ((flags % 2) == 1)),
    decode_syn_sized (drop 4 payload)
        (λ hs. Frame.syn_reply (u32_at payload 0) hs ((flags % 2) == 1)),
  )

-- A frame that is whole is decoded, or refused for another reason than its size.
module _ {flate : Flate} (codec : SpdyCodec flate) where
  abbrev decided : Result (Option Frame) → Bool
  decided (ok none) = false
  decided (ok (some f)) = true
  decided (err e) = true

  bind_decided : (r : Result Frame) → decided (r >>= λ f. ok (some f)) ≡ true
  bind_decided (ok f) = refl
  bind_decided (err e) = refl

  split_frame_sized :
      (control : Bool) (first frame_type flags : ℕ) (payload rest : Bytes)
      → (is_too_large (split_frame codec control first frame_type flags payload rest).result
          ≡ false)
        × (decided (split_frame codec control first frame_type flags payload rest).result ≡ true)
  unfolding split_frame
  split_frame_sized false first frame_type flags payload rest = (refl, refl)
  split_frame_sized true first frame_type flags payload rest = (
    bind_sized (decode_control_frame codec frame_type flags payload).0 _
        (decode_control_frame_sized codec frame_type flags payload) (λ f. refl),
    bind_decided (decode_control_frame codec frame_type flags payload).0,
  )

  decode_body_sized :
      (buf : Bytes)
      → (is_too_large (decode_body codec buf).result ≡ false)
        × (decided (decode_body codec buf).result ≡ true)
  unfolding decode_body
  decode_body_sized buf = split_frame_sized _ _ _ _ _ _

  -- If more bytes are wanted, nothing has changed.
  pub decode_frame-none :
      (buf : Bytes)
      → (decode_frame codec buf).result ≡ ok none
      → decode_frame codec buf ≡ record { result = ok none; codec = codec; buf = buf }
  decode_frame-none buf e = elim (frame_cases codec buf) [
    | inl p ↦ decode_frame-partial codec buf p
    | inr (inl o) ↦ cc (e, decode_frame-oversized codec buf o)
    | inr (inr w) ↦ cc (e, decode_frame-whole codec buf w, (decode_body_sized buf).1)
  ]

  -- If the frame is too large, nothing has changed either, and its header is in the buffer.
  pub decode_frame-too_large :
      (buf : Bytes)
      → is_too_large (decode_frame codec buf).result ≡ true
      → (8 ≤ length buf) × ((decode_frame codec buf).buf ≡ buf)
  decode_frame-too_large buf e = elim (frame_cases codec buf) [
    | inl p ↦ cc (e, decode_frame-partial codec buf p)
    | inr (inl o) ↦ (o.0, ap (λ d. d.buf) (decode_frame-oversized codec buf o))
    | inr (inr w) ↦ cc (e, decode_frame-whole codec buf w, (decode_body_sized buf).0)
  ]

  -- A frame that was decoded has taken its eight header bytes at least.
  pub decode_frame_shrinks :
      (buf : Bytes) (f : Frame)
      → (decode_frame codec buf).result ≡ ok (some f)
      → length (decode_frame codec buf).buf + 8 ≤ length buf
  decode_frame_shrinks buf f e = elim (frame_cases codec buf) [
    | inl p ↦ cc (e, decode_frame-partial codec buf p)
    | inr (inl o) ↦ cc (e, decode_frame-oversized codec buf o)
    | inr (inr w) ↦
        rw (decode_frame-whole codec buf w, decode_body-buf codec buf)
          (omega (arith, w, length-drop (8 + payload_len buf) buf))
  ]
