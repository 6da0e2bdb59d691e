-- ===== src/Codec/RoundTrip.antt =====
-- crates/spdy-mux/src/codec.rs: `decode_frame` on what the encoders write.
use kube_portforward.Prelude.{
  ℕ, ◌+◌, ◌*◌, ◌/◌, ◌%◌, ◌^◌, ◌≤◌, ◌<◌, ◌≡◌, refl, ◌∙◌, List, [], ◌∷◌, ◌++◌, Bool, false, none,
  some, Option, length, take, drop, arith, length-append, append_assoc, take-length-append,
  drop-length-append, if◌then◌else◌, ◌==◌,
}
use kube_portforward.Error.{ok}
use kube_portforward.Wire.{Bytes, u16_at, u24_at, u32_at, low31, u32_bytes, flags_len}
use kube_portforward.Frame.{
  Frame, rst_stream, ping, go_away, window_update, data_frame, settings, settings_type,
  max_control_frame_size,
}
use kube_portforward.Flate.{Flate}
use kube_portforward.Codec.{
  SpdyCodec, Decoded, decode_frame, decode_body, decode_control_frame, split_frame, payload_len,
  is_control, frame_limit, encode_rst_stream, encode_ping, encode_goaway, encode_window_update,
  encode_data, encode_settings, has_fin, control_header,
}
use kube_portforward.Codec.Settings.{
  Values, no_values, assign, read_entries, encode_entries, read_settings,
}
use kube_portforward.Codec.Decode.{decode_frame-whole}

module _ {flate : Flate} (codec : SpdyCodec flate) (rest : Bytes) where
  -- The frame `f` was decoded, the codec is unchanged, and `rest` is left.
  abbrev pub reads : Frame → Decoded flate
  reads f = record { result = ok (some f); codec = codec; buf = rest }

  -- The frames of two words: RST_STREAM, GOAWAY and WINDOW_UPDATE, over any two 32-bit numbers.
  decode-encode_rst_stream :
      (stream_id status : ℕ)
      → stream_id < 2 ^ 32
      → status < 2 ^ 32
      → decode_frame codec (encode_rst_stream stream_id status ++ rest)
        ≡ reads (rst_stream stream_id status)
  unfolding decode_frame decode_body decode_control_frame encode_rst_stream
  decode-encode_rst_stream stream_id status h k = ground arith

  decode-encode_goaway :
      (last_good status : ℕ)
      → last_good < 2 ^ 32
      → status < 2 ^ 32
      → decode_frame codec (encode_goaway last_good status ++ rest)
        ≡ reads (go_away last_good status)
  unfolding decode_frame decode_body decode_control_frame encode_goaway
  decode-encode_goaway last_good status h k = ground arith

  decode-encode_window_update :
      (stream_id delta : ℕ)
      → stream_id < 2 ^ 32
      → delta < 2 ^ 32
      → decode_frame codec (encode_window_update stream_id delta ++ rest)
        ≡ reads (window_update stream_id delta)
  unfolding decode_frame decode_body decode_control_frame encode_window_update
  decode-encode_window_update stream_id delta h k = ground arith

  decode-encode_ping :
      (id : ℕ) → id < 2 ^ 32 → decode_frame codec (encode_ping id ++ rest) ≡ reads (ping id)
  unfolding decode_frame decode_body decode_control_frame encode_ping
  decode-encode_ping id h = ground arith

-- The four control frames of a fixed size, over any two 32-bit numbers: what is encoded is decoded
-- again, the codec is unchanged, and whatever follows in the buffer is left there.
pub decode-encode_control :
    {flate : Flate} (codec : SpdyCodec flate) (rest : Bytes) (a b : ℕ)
    → a < 2 ^ 32
    → b < 2 ^ 32
    → (decode_frame codec (encode_ping a ++ rest) ≡ reads codec rest (ping a))
      × (decode_frame codec (encode_rst_stream a b ++ rest) ≡ reads codec rest (rst_stream a b))
      × (decode_frame codec (encode_goaway a b ++ rest) ≡ reads codec rest (go_away a b))
      × (decode_frame codec (encode_window_update a b ++ rest)
          ≡ reads codec rest (window_update a b))
decode-encode_control codec rest a b h k = (
  decode-encode_ping codec rest a h,
  decode-encode_rst_stream codec rest a b h k,
  decode-encode_goaway codec rest a b h k,
  decode-encode_window_update codec rest a b h k,
)

-- A buffer that is cut as a header of eight bytes, a payload as long as the header says, and more.
decode_frame-framed :
    {flate : Flate} (codec : SpdyCodec flate) (header payload rest : Bytes)
    → length header ≡ 8
    → payload_len (header ++ (payload ++ rest)) ≡ length payload
    → length payload ≤ frame_limit codec (header ++ (payload ++ rest))
    → let buf = header ++ (payload ++ rest) in
      decode_frame codec buf
      ≡ split_frame codec
          (is_control buf)
          (u32_at buf 0)
          (u16_at buf 2)
          (u32_at buf 4 / 2 ^ 24 % 2 ^ 8)
          payload
          rest
unfolding decode_body
decode_frame-framed codec header payload rest h n l =
    decode_frame-whole codec (header ++ (payload ++ rest))
      (rw n (l, omega (arith, length-append header (payload ++ rest), length-append payload rest)))
    ∙ rw (n, taken, dropped) refl
  where
    total : 8 + length payload ≡ length (header ++ payload)
    total = omega (arith, length-append header payload)

    taken : drop 8 (take (8 + length payload) (header ++ (payload ++ rest))) ≡ payload
    taken =
        rw (total, ← append_assoc, take-length-append (header ++ payload) rest, ← h)
          (drop-length-append header payload)

    dropped : drop (8 + length payload) (header ++ (payload ++ rest)) ≡ rest
    dropped = rw (total, ← append_assoc) (drop-length-append (header ++ payload) rest)

-- A DATA frame, with any stream number, either FIN flag, and a payload within the receiver's limit and
-- shorter than 2^24 bytes, is decoded to the low 31 bits of the number, the payload and the flag; the
-- codec is unchanged, and whatever follows in the buffer is left there.
pub decode-encode_data :
    {flate : Flate} (codec : SpdyCodec flate) (stream_id : ℕ) (payload : Bytes) (fin : Bool)
    (rest : Bytes)
    → length payload ≤ codec.max_frame_size
    → length payload < 2 ^ 24
    → decode_frame codec (encode_data stream_id payload fin ++ rest) ≡ record {
      result = ok (some (data_frame (low31 stream_id) payload fin));
      codec = codec;
      buf = rest;
    }
unfolding encode_data split_frame flags_len
decode-encode_data codec stream_id payload fin rest l n =
    decode_frame-framed codec header payload rest refl (ground (arith, len)) (ground (arith, limit))
    ∙ ground (arith, limit, flag)
  where
    header : Bytes
    header = u32_bytes (low31 stream_id) ++ u32_bytes (flags_len fin (length payload % 2 ^ 32))

    len : payload_len (header ++ (payload ++ rest)) ≡ length payload
    len = ground arith

    limit : is_control (header ++ (payload ++ rest)) ≡ false
    limit = ground arith

    flag : has_fin (u32_at (header ++ (payload ++ rest)) 4 / 2 ^ 24 % 2 ^ 8) ≡ fin
    flag = ground arith

-- The last value that the entries give to a setting.
unfoldable pub last_value : ℕ → List (ℕ × ℕ) → Option ℕ → Option ℕ
last_value key [] v = v
last_value key ((id, value) ∷ es) v = last_value key es (if id == key then some value else v)

-- Each identifier fits three bytes and each value four.
abbrev pub AreEntries : List (ℕ × ℕ) → Type 0
AreEntries [] = Unit
AreEntries ((id, value) ∷ es) = (id < 2 ^ 24) × (value < 2 ^ 32) × AreEntries es

abbrev last_values : List (ℕ × ℕ) → Values → Values
last_values es vs = record {
  initial_window_size = last_value 7 es vs.initial_window_size;
  max_concurrent_streams = last_value 4 es vs.max_concurrent_streams;
  max_frame_size = last_value 5 es vs.max_frame_size;
}

read_entries-encode_entries :
    (es : List (ℕ × ℕ)) (vs : Values)
    → AreEntries es
    → read_entries (length es) (encode_entries es) vs ≡ last_values es vs
unfolding read_entries encode_entries last_value
read_entries-encode_entries [] vs h = refl
read_entries-encode_entries ((id, value) ∷ es) vs h =
    ground (arith, entry, assigned, read_entries-encode_entries es (assign id value vs) h.2)
  where
    id_eq : u24_at (encode_entries ((id, value) ∷ es)) 1 ≡ id
    id_eq = omega (arith, h.0)

    value_eq : u32_at (encode_entries ((id, value) ∷ es)) 4 ≡ value
    value_eq = omega (arith, h.1)

    entry :
        assign
          (u24_at (encode_entries ((id, value) ∷ es)) 1)
          (u32_at (encode_entries ((id, value) ∷ es)) 4)
          vs
        ≡ assign id value vs
    entry = cc (id_eq, value_eq)

    assigned : last_values es (assign id value vs) ≡ last_values ((id, value) ∷ es) vs
    assigned = unfold assign in ground arith

length-encode_entries : (es : List (ℕ × ℕ)) → length (encode_entries es) ≡ length es * 8
unfolding encode_entries
length-encode_entries [] = refl
length-encode_entries (e ∷ es) = omega (arith, length-encode_entries es)

-- A SETTINGS frame whose entries fit the limit on control frames reads back as, for each of the
-- settings 7, 4 and 5, the last value that the entries give it.
pub decode-encode_settings :
    {flate : Flate} (codec : SpdyCodec flate) (es : List (ℕ × ℕ)) (rest : Bytes)
    → AreEntries es
    → 4 + length es * 8 ≤ max_control_frame_size
    → decode_frame codec (encode_settings es ++ rest) ≡ record {
      result =
          ok (some (settings (last_value 7 es none) (last_value 4 es none) (last_value 5 es none)));
      codec = codec;
      buf = rest;
    }
unfolding encode_settings split_frame decode_control_frame read_settings
decode-encode_settings codec es rest h l = rw (append_assoc header payload rest) (
    decode_frame-framed codec header payload rest refl (ground (arith, size)) (ground (arith, size))
    ∙ ground (arith, count, read_entries-encode_entries es no_values h))
  where
    header : Bytes
    header = control_header settings_type ((4 + length es * 8) % 2 ^ 32)

    payload : Bytes
    payload = u32_bytes (length es % 2 ^ 32) ++ encode_entries es

    size : length payload ≡ 4 + length es * 8
    size = omega (arith, length-encode_entries es)

    count : u32_at payload 0 ≡ length es
    count = omega arith
