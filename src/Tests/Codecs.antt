-- ===== src/Tests/Codecs.antt =====
-- The codec's theorems at concrete inputs.
use kube_portforward.Prelude.{◌≡◌, refl, [], ◌∷◌, ◌++◌, true, false, some, arith}
use kube_portforward.Error.{ok}
use kube_portforward.Wire.{Bytes}
use kube_portforward.Frame.{Headers, data_frame}
use kube_portforward.Headers.{parse_entries, header_block, parse_header_block, to_ascii_lowercase}
use kube_portforward.Headers.Utf8.{from_utf8_lossy}
use kube_portforward.Headers.RoundTrip.{parse_header_block-header_block, AreSendable}
use kube_portforward.Inflate
use kube_portforward.Inflate.Total.{IsAnswer, decompress_headers-IsAnswer}
use kube_portforward.Codec.{SpdyCodec, decode_frame, decode_body, encode_data}
use kube_portforward.Codec.Decode.{decode_frame-append, extend}
use kube_portforward.Codec.RoundTrip.{decode-encode_data}
use kube_portforward.Tests.Models.{stored_flate, asking, asking_flate, asking_laws}

-- "Port: 80" and "streamtype: data".
abbrev sample_headers : Headers
sample_headers =
    (0x50 ∷ 0x6f ∷ 0x72 ∷ 0x74 ∷ [], 0x38 ∷ 0x30 ∷ []) ∷ (0x73 ∷ 0x74 ∷ [], 0x64 ∷ 0x61 ∷ []) ∷ []

sample_headers-AreSendable : AreSendable sample_headers
unfolding to_ascii_lowercase from_utf8_lossy
sample_headers-AreSendable =
    ((omega arith, refl), (omega arith, refl), ((omega arith, refl), (omega arith, refl), tt))

parse_header_block-header_block_example :
    parse_header_block (header_block sample_headers)
    ≡ ok (
        (0x70 ∷ 0x6f ∷ 0x72 ∷ 0x74 ∷ [], 0x38 ∷ 0x30 ∷ [])
        ∷ (0x73 ∷ 0x74 ∷ [], 0x64 ∷ 0x61 ∷ [])
        ∷ [])
unfolding to_ascii_lowercase
parse_header_block-header_block_example =
    parse_header_block-header_block sample_headers (omega arith) sample_headers-AreSendable

-- A zlib header, and an empty header list behind it.
abbrev first_block : Bytes
first_block = 0x78 ∷ 0xbb ∷ 0 ∷ 0 ∷ 0 ∷ 0 ∷ []

-- The round after the dictionary begins behind the zlib header.
first_block_read :
    Inflate.decompress_headers asking_flate (false, false) first_block ≡ (ok [], (true, true))
unfolding Inflate.decompress_headers asking Inflate.make_room parse_header_block parse_entries
first_block_read = refl

decompress_headers-IsAnswer_example :
    IsAnswer (Inflate.decompress_headers asking_flate (false, false) first_block).0
decompress_headers-IsAnswer_example =
    decompress_headers-IsAnswer asking_flate asking_laws (false, false) first_block (omega arith)

abbrev codec : SpdyCodec stored_flate
codec = record { compressor = (tt, false); decompressor = (tt, false); max_frame_size = 1024 }

-- A DATA frame of two bytes on stream 3 with FIN, and the first byte of the next frame.
abbrev some_bytes : Bytes
some_bytes = 0 ∷ 0 ∷ 0 ∷ 3 ∷ 1 ∷ 0 ∷ 0 ∷ 2 ∷ 7 ∷ 8 ∷ 0x80 ∷ []

decode_some_bytes :
    decode_frame codec some_bytes
    ≡ record { result = ok (some (data_frame 3 (7 ∷ 8 ∷ []) true)); codec = codec; buf = 0x80 ∷ [] }
unfolding decode_frame decode_body
decode_some_bytes = refl

decode_frame-append_example :
    decode_frame codec (some_bytes ++ (0x03 ∷ 0 ∷ []))
    ≡ extend (decode_frame codec some_bytes) (0x03 ∷ 0 ∷ [])
decode_frame-append_example =
    decode_frame-append codec some_bytes (0x03 ∷ 0 ∷ []) (rw decode_some_bytes (λ e. cc))

decode-encode_data_example :
    decode_frame codec (encode_data 5 (1 ∷ 2 ∷ 3 ∷ []) true ++ (9 ∷ [])) ≡ record {
      result = ok (some (data_frame 5 (1 ∷ 2 ∷ 3 ∷ []) true));
      codec = codec;
      buf = 9 ∷ [];
    }
decode-encode_data_example =
    decode-encode_data codec 5 (1 ∷ 2 ∷ 3 ∷ []) true (9 ∷ []) (omega arith) (omega arith)
