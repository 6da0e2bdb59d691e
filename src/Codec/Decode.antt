-- ===== src/Codec/Decode.antt =====
-- crates/spdy-mux/src/codec.rs: `decode_frame` on a buffer that grows.
use kube_portforward.Prelude.{
  ℕ, ◌+◌, ◌%◌, ◌^◌, ◌≤◌, ◌<◌, ◌≡◌, ◌≢◌, ◌⊎◌, refl, ap, inl, inr, ◌++◌, Bool, true, false, none,
  length, drop, arith, length-append, get_or-append, take-append, drop-append,
}
use kube_portforward.Error.{ok, err, frame_too_large}
use kube_portforward.Wire.{Bytes, u16_at, u32_at, low24, low31}
use kube_portforward.Flate.{Flate}
use kube_portforward.Codec.{
  SpdyCodec, Decoded, decode_frame, decode_body, split_frame, payload_len, frame_limit,
}

u32_at-append : (i : ℕ) (xs ys : Bytes) → i + 3 < length xs → u32_at (xs ++ ys) i ≡ u32_at xs i
u32_at-append i xs ys h = ground (
  arith,
  get_or-append xs ys i 0,
  get_or-append xs ys (i + 1) 0,
  get_or-append xs ys (i + 2) 0,
  get_or-append xs ys (i + 3) 0,
)

u16_at-append : (i : ℕ) (xs ys : Bytes) → i + 1 < length xs → u16_at (xs ++ ys) i ≡ u16_at xs i
u16_at-append i xs ys h = ground (arith, get_or-append xs ys i 0, get_or-append xs ys (i + 1) 0)

-- The three answers of `decode_frame`, by the length of the buffer and the length field.
module _ {flate : Flate} (codec : SpdyCodec flate) (buf : Bytes) where
  abbrev pub IsPartial : Type 0
  IsPartial =
      (length buf < 8)
      ⊎ ((payload_len buf ≤ frame_limit codec buf) × (length buf < 8 + payload_len buf))

  abbrev pub IsOversized : Type 0
  IsOversized = (8 ≤ length buf) × (frame_limit codec buf < payload_len buf)

  abbrev pub IsWhole : Type 0
  IsWhole = (payload_len buf ≤ frame_limit codec buf) × (8 + payload_len buf ≤ length buf)

  abbrev too_large : Decoded flate
  too_large = record {
    result =
        err (
          frame_too_large (low31 (u32_at buf 0)) (payload_len buf)
            (frame_limit codec buf % 2 ^ 32));
    codec = codec;
    buf = buf;
  }

  pub frame_cases : IsPartial ⊎ (IsOversized ⊎ IsWhole)
  frame_cases = grind arith

  pub decode_frame-partial :
      IsPartial → decode_frame codec buf ≡ record { result = ok none; codec = codec; buf = buf }
  unfolding decode_frame
  decode_frame-partial h = ground arith

  pub decode_frame-oversized : IsOversized → decode_frame codec buf ≡ too_large
  unfolding decode_frame
  decode_frame-oversized h = ground arith

  pub decode_frame-whole : IsWhole → decode_frame codec buf ≡ decode_body codec buf
  unfolding decode_frame
  decode_frame-whole h = ground arith

split_frame-buf :
    {flate : Flate} (codec : SpdyCodec flate) (control : Bool) (first frame_type flags : ℕ)
    (payload rest : Bytes)
    → (split_frame codec control first frame_type flags payload rest).buf ≡ rest
unfolding split_frame
split_frame-buf codec true first frame_type flags payload rest = refl
split_frame-buf codec false first frame_type flags payload rest = refl

-- The same answer, with more bytes at the end of the buffer.
abbrev pub extend : {flate : Flate} → Decoded flate → Bytes → Decoded flate
extend d more = record d { buf = d.buf ++ more }

split_frame-append :
    {flate : Flate} (codec : SpdyCodec flate) (control : Bool) (first frame_type flags : ℕ)
    (payload rest more : Bytes)
    → split_frame codec control first frame_type flags payload (rest ++ more)
      ≡ extend (split_frame codec control first frame_type flags payload rest) more
unfolding split_frame
split_frame-append codec true first frame_type flags payload rest more = refl
split_frame-append codec false first frame_type flags payload rest more = refl

pub decode_body-buf :
    {flate : Flate} (codec : SpdyCodec flate) (buf : Bytes)
    → (decode_body codec buf).buf ≡ drop (8 + payload_len buf) buf
unfolding decode_body
decode_body-buf codec buf = split_frame-buf codec _ _ _ _ _ _

module _ {flate : Flate} (codec : SpdyCodec flate) (buf more : Bytes) where
  pub payload_len-append : 8 ≤ length buf → payload_len (buf ++ more) ≡ payload_len buf
  payload_len-append h = ap low24 (u32_at-append 4 buf more (omega arith))

  frame_limit-append : 8 ≤ length buf → frame_limit codec (buf ++ more) ≡ frame_limit codec buf
  frame_limit-append h = rw (u16_at-append 0 buf more (omega arith))

  decode_body-append :
      8 + payload_len buf ≤ length buf
      → decode_body codec (buf ++ more) ≡ extend (decode_body codec buf) more
  unfolding decode_body
  decode_body-append h =
      rw
        (
          u16_at-append 0 buf more (omega arith),
          u16_at-append 2 buf more (omega arith),
          u32_at-append 0 buf more (omega arith),
          u32_at-append 4 buf more (omega arith),
          take-append (8 + payload_len buf) buf more h,
          drop-append (8 + payload_len buf) buf more h,
        )
        (split_frame-append codec _ _ _ _ _ _ more)

  -- Bytes that arrive later do not change a frame that is decided, be it decoded or refused; they
  -- stay behind it in the buffer.
  pub decode_frame-append :
      (decode_frame codec buf).result ≢ ok none
      → decode_frame codec (buf ++ more) ≡ extend (decode_frame codec buf) more
  decode_frame-append n = elim (frame_cases codec buf) [
    | inl p ↦ absurd (n (ap (λ d. d.result) (decode_frame-partial codec buf p)))
    | inr (inl o) ↦
        rw
          (
            decode_frame-oversized codec buf o,
            decode_frame-oversized codec (buf ++ more)
                (ground (arith, o, length-append buf more, payload_len-append, frame_limit-append)),
            u32_at-append 0 buf more (omega arith),
            payload_len-append o.0,
            frame_limit-append o.0,
          )
          refl
    | inr (inr w) ↦
        rw
          (
            decode_frame-whole codec buf w,
            decode_frame-whole codec (buf ++ more)
                (ground (arith, w, length-append buf more, payload_len-append, frame_limit-append)),
          )
          (decode_body-append w.1)
  ]
