-- ===== src/Headers/RoundTrip.antt =====
-- crates/spdy-mux/src/codec.rs: `parse_header_block` on a block that `compress_headers` has
-- serialised.
use kube_portforward.Prelude.{
  ◌*◌, ◌^◌, ◌≤◌, ◌<◌, [], ◌∷◌, ◌++◌, ◌≡◌, refl, length, length-append, take-length-append,
  drop-length-append, arith, append_assoc, append-nil,
}
use kube_portforward.Error.{Error, ok}
use kube_portforward.Wire.{Bytes}
use kube_portforward.Wire.Words.{u32_at-u32_bytes}
use kube_portforward.Frame.{Headers}
use kube_portforward.Headers.Utf8.{from_utf8_lossy}
use kube_portforward.Headers.{
  sized, block_entries, header_block, read_sized, read_name, read_value, parse_entries,
  parse_header_block, to_ascii_lowercase,
}

read_sized-sized :
    (e f : Error) (s rest : Bytes)
    → length s < 2 ^ 32
    → read_sized e f (sized s ++ rest) ≡ ok (s, rest)
unfolding read_sized sized
read_sized-sized e f s rest h = ground (
  arith,
  length-append s rest,
  take-length-append s rest,
  drop-length-append s rest,
  u32_at-u32_bytes (length s) (s ++ rest),
)

-- What a string has to satisfy to be sent: its length fits the prefix, and it is UTF-8.
abbrev pub IsText : Bytes → Type 0
IsText s = (length s < 2 ^ 32) × (from_utf8_lossy s ≡ s)

-- Names go out in lower case.
abbrev pub AreSendable : Headers → Type 0
AreSendable [] = Unit
AreSendable ((name, value) ∷ hs) = IsText (to_ascii_lowercase name) × IsText value × AreSendable hs

abbrev pub lowered : Headers → Headers
lowered [] = []
lowered ((name, value) ∷ hs) = (to_ascii_lowercase name, value) ∷ lowered hs

parse_entries-block_entries :
    (hs : Headers) (rest : Bytes)
    → AreSendable hs
    → parse_entries (length hs) (block_entries hs ++ rest) ≡ ok (lowered hs)
unfolding parse_entries block_entries read_name read_value
parse_entries-block_entries [] rest h = refl
parse_entries-block_entries ((name, value) ∷ hs) rest h = simp (
  append_assoc,
  read_sized-sized _ _ (to_ascii_lowercase name) (sized value ++ (block_entries hs ++ rest)) h.0.0,
  read_sized-sized _ _ value (block_entries hs ++ rest) h.1.0,
  h.0.1,
  h.1.1,
  parse_entries-block_entries hs rest h.2,
)

length-block_entries-ge : (hs : Headers) → length hs * 8 ≤ length (block_entries hs)
unfolding block_entries sized
length-block_entries-ge [] = omega arith
length-block_entries-ge ((name, value) ∷ hs) =
    let name' = to_ascii_lowercase name in
    omega (
      arith,
      length-append name' (sized value ++ block_entries hs),
      length-append value (block_entries hs),
      length-block_entries-ge hs,
    )

-- A header list of fewer than 2^32 headers, whose lower-cased names and values are UTF-8 and
-- shorter than 2^32 bytes, parses back from its block with its names in lower case.
pub parse_header_block-header_block :
    (hs : Headers)
    → length hs < 2 ^ 32
    → AreSendable hs
    → parse_header_block (header_block hs) ≡ ok (lowered hs)
unfolding parse_header_block header_block
parse_header_block-header_block hs n h = ground (
  arith,
  length-block_entries-ge hs,
  u32_at-u32_bytes (length hs) (block_entries hs),
  append-nil (block_entries hs),
  parse_entries-block_entries hs [] h,
)
