-- ===== src/Headers.antt =====
-- crates/spdy-mux/src/codec.rs: the header block inside a SYN frame, as plain bytes.
pub mod Utf8
pub mod RoundTrip
use kube_portforward.Prelude.{
  ℕ, zero, suc, ◌+◌, ◌-◌, ◌/◌, ◌%◌, ◌^◌, [], ◌∷◌, ◌++◌, map, length, take, drop, ltb, leb, ◌&&◌,
  if◌then◌else◌,
}
use kube_portforward.Error.{Error, Result, ok, err, invalid_frame, ◌>>=◌, ◌>>◌, reject}
use kube_portforward.Wire.{Bytes, u32_bytes, u32_at}
use kube_portforward.Frame.{Headers}
use Utf8.{from_utf8_lossy}

-- `to_ascii_lowercase` on one byte.
to_lower : ℕ → ℕ
to_lower b = if leb b'A' b && leb b b'Z' then b + 32 else b

unfoldable pub to_ascii_lowercase : Bytes → Bytes
unfolding to_lower
to_ascii_lowercase s = map to_lower s

-- A length-prefixed byte string, as the block holds names and values.
unfoldable pub sized : Bytes → Bytes
sized s = u32_bytes (length s % 2 ^ 32) ++ s

unfoldable pub block_entries : Headers → Bytes
block_entries [] = []
block_entries ((name, value) ∷ hs) =
    sized (to_ascii_lowercase name) ++ (sized value ++ block_entries hs)

-- The uncompressed block that `compress_headers` builds.
unfoldable pub header_block : Headers → Bytes
header_block hs = u32_bytes (length hs % 2 ^ 32) ++ block_entries hs

-- A length-prefixed string at the front, with the bytes behind it. The two errors are those of a
-- missing length and of a missing body.
unfoldable pub read_sized : Error → Error → Bytes → Result (Bytes × Bytes)
read_sized no_length no_body bs =
    if ltb (length bs) 4
    then err no_length
    else (let n = u32_at bs 0 in
        let body = drop 4 bs in
        if ltb (length body) n then err no_body else ok (take n body, drop n body))

unfoldable pub read_name : Bytes → Result (Bytes × Bytes)
read_name =
    read_sized (invalid_frame "header block truncated at name length")
      (invalid_frame "header block truncated at name")

unfoldable pub read_value : Bytes → Result (Bytes × Bytes)
read_value =
    read_sized (invalid_frame "header block truncated at value length")
      (invalid_frame "header block truncated at value")

-- The loop over `0..num_headers`; `bs` is the block from `offset` on.
unfoldable pub parse_entries : ℕ → Bytes → Result Headers
parse_entries zero bs = ok []
parse_entries (suc n) bs = do
  (name, bs') ← read_name bs
  (value, rest) ← read_value bs'
  headers ← parse_entries n rest
  ok ((from_utf8_lossy name, from_utf8_lossy value) ∷ headers)

unfoldable pub parse_header_block : Bytes → Result Headers
parse_header_block block = do
  reject (ltb (length block) 4) (invalid_frame "header block too short")
  let num_headers = u32_at block 0
  reject (ltb ((length block - 4) / 8) num_headers)
      (invalid_frame "header count exceeds header block")
  parse_entries num_headers (drop 4 block)
