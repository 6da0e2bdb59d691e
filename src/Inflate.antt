-- ===== src/Inflate.antt =====
-- crates/spdy-mux/src/codec.rs: `decompress_headers` and the buffer that it grows.
pub mod Total
use kube_portforward.Prelude.{
  ℕ, zero, suc, ◌+◌, ◌-◌, ◌*◌, min, [], ◌∷◌, ◌++◌, Bool, true, false, not, ◌&&◌, none, some, length,
  drop, leb, ◌==◌, if◌then◌else◌,
}
use kube_portforward.Error.{Result, ok, err, invalid_frame, compression, out_of_fuel}
use kube_portforward.Wire.{Bytes}
use kube_portforward.Frame.{Headers, max_header_block_size}
use kube_portforward.Flate.{Flate, Flated, flated, failed, Status, status_ok, buf_error, stream_end}
use kube_portforward.Headers.{parse_header_block}
use kube_portforward.Dictionary.{spdy_dict}

-- The new length of the buffer.
unfoldable pub grow_header_buffer : ℕ → Result ℕ
grow_header_buffer size =
    if leb max_header_block_size size
    then err (invalid_frame "header block too large")
    else ok (min (size * 2) max_header_block_size)

-- The check at the top of the loop: `if cur_out >= output.len().saturating_sub(256)`.
unfoldable pub make_room : ℕ → ℕ → Result ℕ
make_room cur_out size = if leb (size - 256) cur_out then grow_header_buffer size else ok size

module _ (flate : Flate) where
  open flate use {Inflater, decompress, inflate_dictionary}

  -- The decoder's half of the codec: the zlib stream, and whether it has its dictionary.
  abbrev pub Stream : Type 0
  Stream = Inflater × Bool

  abbrev pub Decompressed : Type 0
  Decompressed = Result Headers × Stream

  -- `again` is the next round of the loop: stream, input used, output so far, buffer length.
  abbrev pub Again : Type 0
  Again = Stream → ℕ → Bytes → ℕ → Decompressed

  unfoldable pub grow_and_retry : Result ℕ → Again → Stream → ℕ → Bytes → Decompressed
  grow_and_retry (ok size) again s cur_in output = again s cur_in output size
  grow_and_retry (err e) again s cur_in output = (err e, s)

  -- What the loop does with a call that succeeded.
  unfoldable pub on_status : Again → Bytes → Stream → ℕ → Bytes → ℕ → Bool → Status → Decompressed
  on_status again compressed s cur_in output size produced_none status_ok =
      elim (leb (length compressed) cur_in && produced_none) [
        | true ↦ (parse_header_block output, s)
        | false ↦ again s cur_in output size
      ]
  on_status again compressed s cur_in output size produced_none buf_error =
      elim (leb (length compressed) cur_in) [
        | true ↦ (parse_header_block output, s)
        | false ↦ grow_and_retry (grow_header_buffer size) again s cur_in output
      ]
  on_status again compressed s cur_in output size produced_none stream_end =
      (parse_header_block output, s)

  -- The counters are read again at the top of each round, after a call that failed too.
  unfoldable pub on_call : Again → Bytes → Bool → ℕ → Bytes → ℕ → Flated Inflater → Decompressed
  unfolding on_status grow_and_retry
  on_call again compressed dict_set cur_in output size (flated status consumed produced d) =
      on_status again compressed (d, dict_set) (cur_in + consumed) (output ++ produced) size
        (length produced == 0) status
  on_call again compressed dict_set cur_in output size
        (failed needs_dictionary consumed produced d) =
      elim (needs_dictionary && not dict_set) [
        | false ↦ (err compression, (d, dict_set))
        | true ↦ elim (inflate_dictionary d spdy_dict) [
          | none ↦ (err compression, (d, dict_set))
          | some d' ↦ again (d', true) (cur_in + consumed) (output ++ produced) size
        ]
      ]

  unfoldable pub decompress_loop : ℕ → Bytes → Stream → ℕ → Bytes → ℕ → Decompressed
  unfolding on_call
  decompress_loop zero compressed s cur_in output size = (err out_of_fuel, s)
  decompress_loop (suc fuel) compressed s cur_in output size =
      elim (make_room (length output) size) [
        | err e ↦ (err e, s)
        | ok size' ↦
            on_call (decompress_loop fuel compressed) compressed s.1 cur_in output size'
              (decompress s.0 (drop cur_in compressed) (size' - length output))
      ]

  -- Each round reads, writes, grows the buffer or sets the dictionary.
  abbrev pub decompress_fuel : Bytes → ℕ
  decompress_fuel compressed = length compressed + (2 * max_header_block_size + 2)

  unfoldable pub decompress_headers : Stream → Bytes → Decompressed
  unfolding decompress_loop
  decompress_headers s [] = (ok [], s)
  decompress_headers s (b ∷ bs) =
      decompress_loop (decompress_fuel (b ∷ bs)) (b ∷ bs) s 0 []
        (min (length (b ∷ bs) * 4 + 1024) max_header_block_size)
