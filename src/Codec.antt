-- ===== src/Codec.antt =====
-- crates/spdy-mux/src/codec.rs: the SPDY/3.1 codec. The encoders that do not compress ignore the
-- codec's state, and so do their models.
pub mod Settings
pub mod Decode
pub mod Sizes
pub mod RoundTrip
use kube_portforward.Prelude.{
  ℕ, ◌+◌, ◌*◌, ◌/◌, ◌%◌, ◌^◌, List, ◌∷◌, ◌++◌, Bool, true, false, Option, none, some, length, take,
  drop, ltb, ◌==◌, if◌then◌else◌,
}
use kube_portforward.Error.{Result, ok, err, invalid_frame, frame_too_large, ◌>>=◌, ◌>>◌}
use kube_portforward.Wire.{Bytes, u16_bytes, u32_bytes, u16_at, u32_at, flags_len, low31, low24}
use kube_portforward.Frame.{
  Frame, Headers, syn_stream, syn_reply, data_frame, rst_stream, ping, go_away, window_update,
  unknown, spdy_version, syn_stream_type, syn_reply_type, rst_stream_type, settings_type, ping_type,
  goaway_type, window_update_type, max_control_frame_size,
}
use kube_portforward.Flate.{Flate}
use kube_portforward.Inflate
use kube_portforward.Deflate
use Settings.{read_settings, encode_entries}

-- The eight bytes in front of a control frame's payload.
abbrev pub control_header : ℕ → ℕ → Bytes
control_header frame_type flags_and_len =
    u16_bytes spdy_version ++ (u16_bytes frame_type ++ u32_bytes flags_and_len)

unfoldable pub encode_data : ℕ → Bytes → Bool → Bytes
encode_data stream_id payload fin =
    u32_bytes (low31 stream_id) ++ (u32_bytes (flags_len fin (length payload % 2 ^ 32)) ++ payload)

unfoldable pub encode_rst_stream : ℕ → ℕ → Bytes
encode_rst_stream stream_id status =
    control_header rst_stream_type 8 ++ (u32_bytes stream_id ++ u32_bytes status)

unfoldable pub encode_ping : ℕ → Bytes
encode_ping id = control_header ping_type 4 ++ u32_bytes id

unfoldable pub encode_window_update : ℕ → ℕ → Bytes
encode_window_update stream_id delta =
    control_header window_update_type 8 ++ (u32_bytes stream_id ++ u32_bytes delta)

unfoldable pub encode_goaway : ℕ → ℕ → Bytes
encode_goaway last_good_stream_id status =
    control_header goaway_type 8 ++ (u32_bytes last_good_stream_id ++ u32_bytes status)

unfoldable pub encode_settings : List (ℕ × ℕ) → Bytes
encode_settings entries =
    control_header settings_type ((4 + length entries * 8) % 2 ^ 32)
    ++ (u32_bytes (length entries % 2 ^ 32) ++ encode_entries entries)

-- The frame around a compressed header block.
abbrev pub syn_stream_frame : ℕ → Bytes → Bool → ℕ → Bytes
syn_stream_frame stream_id compressed fin priority =
    control_header syn_stream_type (flags_len fin ((10 + length compressed) % 2 ^ 32))
    ++ (u32_bytes stream_id ++ (u32_bytes 0 ++ ((priority % 8 * 32) ∷ 0 ∷ compressed)))

abbrev pub has_fin : ℕ → Bool
has_fin flags = flags % 2 == 1

-- The length field of the header, and whether bit 15 of the first half-word is set.
abbrev pub payload_len : Bytes → ℕ
payload_len buf = low24 (u32_at buf 4)

abbrev pub is_control : Bytes → Bool
is_control buf = (u16_at buf 0 / 2 ^ 15 % 2) == 1

-- `compress_buf` is scratch space: it is cleared before each use.
pub record SpdyCodec (flate : Flate) : Type 0 where
  pub compressor : Deflate.Stream flate
  pub decompressor : Inflate.Stream flate
  pub max_frame_size : ℕ

-- What `decode_frame` leaves behind: its result, the codec and the buffer.
pub record Decoded (flate : Flate) : Type 0 where
  pub result : Result (Option Frame)
  pub codec : SpdyCodec flate
  pub buf : Bytes

module _ {flate : Flate} where
  unfoldable pub set_max_frame_size : SpdyCodec flate → ℕ → SpdyCodec flate
  set_max_frame_size codec size = record codec { max_frame_size = size }

  unfoldable pub encode_syn_stream_with_priority :
      SpdyCodec flate → ℕ → Headers → Bool → ℕ → Result Bytes × SpdyCodec flate
  encode_syn_stream_with_priority codec stream_id headers fin priority =
      let (compressed, compressor') = Deflate.compress_headers flate codec.compressor headers in
      (
        do block ← compressed; ok (syn_stream_frame stream_id block fin priority),
        record codec { compressor = compressor' },
      )

  unfoldable pub encode_syn_stream :
      SpdyCodec flate → ℕ → Headers → Bool → Result Bytes × SpdyCodec flate
  unfolding encode_syn_stream_with_priority
  encode_syn_stream codec stream_id headers fin =
      encode_syn_stream_with_priority codec stream_id headers fin 0

  -- A header block behind a checked prefix: `decompress_headers` and the frame around its result.
  unfoldable pub decode_syn :
      SpdyCodec flate → Bytes → (Headers → Frame) → Result Frame × SpdyCodec flate
  decode_syn codec compressed frame =
      let (headers, decompressor') =
        Inflate.decompress_headers flate codec.decompressor compressed in
      (do hs ← headers; ok (frame hs), record codec { decompressor = decompressor' })

  unfoldable pub decode_control_frame :
      SpdyCodec flate → ℕ → ℕ → Bytes → Result Frame × SpdyCodec flate
  unfolding decode_syn read_settings
  decode_control_frame codec frame_type flags payload =
      let n = length payload in
      if frame_type == syn_stream_type
      then if ltb n 10
        then (err (invalid_frame "SYN_STREAM payload too short"), codec)
        else decode_syn codec (drop 10 payload)
            (λ hs. syn_stream (u32_at payload 0) hs (has_fin flags))
      else if frame_type == syn_reply_type
      then if ltb n 4
        then (err (invalid_frame "SYN_REPLY payload too short"), codec)
        else decode_syn codec (drop 4 payload)
            (λ hs. syn_reply (u32_at payload 0) hs (has_fin flags))
      else if frame_type == rst_stream_type
      then if ltb n 8
        then (err (invalid_frame "RST_STREAM payload too short"), codec)
        else (ok (rst_stream (u32_at payload 0) (u32_at payload 4)), codec)
      else if frame_type == ping_type
      then if ltb n 4
        then (err (invalid_frame "PING payload too short"), codec)
        else (ok (ping (u32_at payload 0)), codec)
      else if frame_type == goaway_type
      then if ltb n 8
        then (err (invalid_frame "GOAWAY payload too short"), codec)
        else (ok (go_away (u32_at payload 0) (u32_at payload 4)), codec)
      else if frame_type == settings_type
      then (ok (read_settings payload), codec)
      else if frame_type == window_update_type
      then if ltb n 8
        then (err (invalid_frame "WINDOW_UPDATE payload too short"), codec)
        else (ok (window_update (u32_at payload 0) (u32_at payload 4)), codec)
      else (ok unknown, codec)

  abbrev pub frame_limit : SpdyCodec flate → Bytes → ℕ
  frame_limit codec buf = if is_control buf then max_control_frame_size else codec.max_frame_size

  -- The two branches at the end of `decode_frame`, on the words of the header, the payload, and
  -- the buffer after `split_to`: the frame's bytes have left it, also on an error.
  unfoldable pub split_frame : SpdyCodec flate → Bool → ℕ → ℕ → ℕ → Bytes → Bytes → Decoded flate
  split_frame codec true first_u32 frame_type flags payload rest =
      let (frame, codec') = decode_control_frame codec frame_type flags payload in
      record { result = (do f ← frame; ok (some f)); codec = codec'; buf = rest }
  split_frame codec false first_u32 frame_type flags payload rest = record {
    result = ok (some (data_frame (low31 first_u32) payload (has_fin flags)));
    codec = codec;
    buf = rest;
  }

  unfoldable pub decode_body : SpdyCodec flate → Bytes → Decoded flate
  unfolding split_frame
  decode_body codec buf =
      let total = 8 + payload_len buf in
      split_frame codec (is_control buf) (u32_at buf 0) (u16_at buf 2)
        (u32_at buf 4 / 2 ^ 24 % 2 ^ 8) (drop 8 (take total buf)) (drop total buf)

  unfoldable pub decode_frame : SpdyCodec flate → Bytes → Decoded flate
  decode_frame codec buf =
      if ltb (length buf) 8
      then record { result = ok none; codec = codec; buf = buf }
      else if ltb (frame_limit codec buf) (payload_len buf)
      then record {
        result = err (
            frame_too_large (low31 (u32_at buf 0)) (payload_len buf)
              (frame_limit codec buf % 2 ^ 32));
        codec = codec;
        buf = buf;
      }
      else if ltb (length buf) (8 + payload_len buf)
      then record { result = ok none; codec = codec; buf = buf }
      else decode_body codec buf
