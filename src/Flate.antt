-- ===== src/Flate.antt =====
-- The zlib library (the crate flate2), which is not part of the repository: the calls that
-- crates/spdy-mux/src/codec.rs makes of it, and what zlib documents of them.
use kube_portforward.Prelude.{ℕ, ◌+◌, ◌≤◌, ◌<◌, ◌≡◌, Bool, Option, length, drop}
use kube_portforward.Wire.{Bytes}

pub data Status : Type 0 where
  status_ok buf_error stream_end : Status

-- One call on a state `S`: how far `total_in` moved, and the bytes that were written. A failed call
-- moves the counters too (zlib takes its header before it asks for a dictionary); it says first
-- whether it asks for a dictionary.
pub data Flated (S : Type 0) : Type 0 where
  flated : Status → ℕ → Bytes → S → Flated S
  failed : Bool → ℕ → Bytes → S → Flated S

-- `decompress` and `compress` take the input that is left and the room in the output buffer.
pub record Flate : Type 1 where
  pub Inflater : Type 0
  pub Deflater : Type 0
  pub decompress : Inflater → Bytes → ℕ → Flated Inflater
  pub inflate_dictionary : Inflater → Bytes → Option Inflater
  pub compress : Deflater → Bytes → ℕ → Flated Deflater
  pub deflate_dictionary : Deflater → Bytes → Option Deflater
  -- `deflateBound`: how much output the state and the input that is left can still give.
  pub deflate_bound : Deflater → Bytes → ℕ

-- What a call reports: it takes no more than it is given, writes no more than fits, and, where it has
-- room for output, says Z_OK only if it read or wrote a byte, unless there is nothing to read.
abbrev pub Fits : {S : Type 0} → Bytes → ℕ → Flated S → Type 0
Fits input room (flated s consumed produced state) =
    (consumed ≤ length input)
    × (length produced ≤ room)
    × (s ≡ status_ok → 0 < room → 0 < length input → 0 < consumed + length produced)
Fits input room (failed needs consumed produced state) =
    (consumed ≤ length input) × (length produced ≤ room)

-- A compressor with room stops for want of input only, and its output is bounded.
abbrev pub Compresses :
    (flate : Flate) → flate.Deflater → Bytes → ℕ → Flated flate.Deflater → Type 0
Compresses flate d input room (flated s consumed produced d') =
    (length produced + flate.deflate_bound d' (drop consumed input) ≤ flate.deflate_bound d input)
    × (s ≡ buf_error → 0 < room → (length input ≤ consumed) × (length produced ≡ 0))
Compresses flate d input room (failed needs consumed produced d') = Unit

pub record FlateLaws (flate : Flate) : Type 0 where
  pub decompress-Fits :
      (d : flate.Inflater) (input : Bytes) (room : ℕ)
      → Fits input room (flate.decompress d input room)
  pub compress-Fits :
      (d : flate.Deflater) (input : Bytes) (room : ℕ)
      → Fits input room (flate.compress d input room)
  pub compress-Compresses :
      (d : flate.Deflater) (input : Bytes) (room : ℕ)
      → Compresses flate d input room (flate.compress d input room)
