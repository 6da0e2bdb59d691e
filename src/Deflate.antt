-- ===== src/Deflate.antt =====
-- crates/spdy-mux/src/codec.rs: `compress_headers`.
pub mod Total
use kube_portforward.Prelude.{
  ℕ, zero, suc, ◌+◌, ◌-◌, ◌*◌, [], ◌++◌, Bool, true, false, ◌&&◌, none, some, Option, length, drop,
  leb, ◌==◌, if◌then◌else◌,
}
use kube_portforward.Error.{Result, ok, err, compression, out_of_fuel}
use kube_portforward.Wire.{Bytes}
use kube_portforward.Frame.{Headers}
use kube_portforward.Flate.{Flate, Flated, flated, failed, Status, stream_end}
use kube_portforward.Headers.{header_block}
use kube_portforward.Dictionary.{spdy_dict}

-- `compress_buf` is grown when fewer than 64 bytes are left.
unfoldable pub resize : ℕ → ℕ → ℕ
resize total_out size = if leb (size - 64) total_out then size * 2 else size

module _ (flate : Flate) where
  open flate use {Deflater, compress, deflate_dictionary, deflate_bound}

  -- The encoder's half of the codec: the zlib stream, and whether it has its dictionary.
  abbrev pub Stream : Type 0
  Stream = Deflater × Bool

  abbrev pub Compressed : Type 0
  Compressed = Result Bytes × Stream

  abbrev pub Again : Type 0
  Again = Deflater → ℕ → Bytes → ℕ → Compressed

  -- What a call says: `output` is all that was written so far.
  unfoldable pub on_status : Again → Bytes → Deflater → ℕ → Bytes → ℕ → Bool → Status → Compressed
  on_status again block d total_in output size produced_none stream_end = (ok output, (d, true))
  on_status again block d total_in output size produced_none _ =
      elim (leb (length block) total_in && produced_none) [
        | true ↦ (ok output, (d, true))
        | false ↦ again d total_in output (resize (length output) size)
      ]

  unfoldable pub on_call : Again → Bytes → ℕ → Bytes → ℕ → Flated Deflater → Compressed
  unfolding on_status
  on_call again block total_in output size (flated status consumed produced d) =
      on_status again block d (total_in + consumed) (output ++ produced) size (length produced == 0)
        status
  on_call again block total_in output size (failed needs_dictionary consumed produced d) =
      (err compression, (d, true))

  unfoldable pub compress_loop : ℕ → Bytes → Deflater → ℕ → Bytes → ℕ → Compressed
  unfolding on_call
  compress_loop zero block d total_in output size = (err out_of_fuel, (d, true))
  compress_loop (suc fuel) block d total_in output size =
      on_call (compress_loop fuel block) block total_in output size
        (compress d (drop total_in block) (size - length output))

  -- The dictionary is set on first use.
  unfoldable pub with_dictionary : Stream → Option Deflater
  with_dictionary (d, true) = some d
  with_dictionary (d, false) = deflate_dictionary d spdy_dict

  -- Each round reads or writes, and what is written is bounded.
  abbrev pub compress_fuel : Deflater → Bytes → ℕ
  compress_fuel d block = length block + (deflate_bound d block + 1)

  unfoldable pub compress_headers : Stream → Headers → Compressed
  unfolding with_dictionary compress_loop
  compress_headers s headers =
      let block = header_block headers in
      elim (with_dictionary s) [
        | none ↦ (err compression, s)
        | some d ↦ compress_loop (compress_fuel d block) block d 0 [] (length block + 512)
      ]
