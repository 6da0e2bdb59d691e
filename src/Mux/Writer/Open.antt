-- ===== src/Mux/Writer/Open.antt =====
-- crates/spdy-mux/src/mux/writer.rs: the frames that open a pair of streams.
use kube_portforward.Prelude.{
  ℕ, ◌+◌, ◌≡◌, refl, ap, sym, ◌∙◌, List, [], ◌∷◌, ◌++◌, Bool, true, false, length, append_assoc,
}
use kube_portforward.Error.{Error, Result, ok, err}
use kube_portforward.Wire.{Bytes}
use kube_portforward.Frame.{Headers}
use kube_portforward.Flate.{Flate}
use kube_portforward.Codec.{SpdyCodec, encode_data, encode_syn_stream}
use kube_portforward.Mux.Commands.{MuxCommand}
use kube_portforward.Mux.Writer.{
  Writer, Processed, write_binary, write_with_timeout, write_syn, finished, half_close_error,
  open_data, process_open_pair, process_writer_command,
}
use kube_portforward.Mux.Writer.Wire.{writer_at}

gathered :
    (wire : List Bytes) (a b c : Bytes)
    → ((wire ++ a ∷ []) ++ b ∷ []) ++ c ∷ [] ≡ wire ++ a ∷ b ∷ c ∷ []
gathered wire a b c =
    append_assoc (wire ++ a ∷ []) (b ∷ []) (c ∷ []) ∙ append_assoc wire (a ∷ []) (b ∷ c ∷ [])

module _ {flate : Flate} where
  -- A write that was not an error has put its payload on the wire, and the writer has gone on.
  abbrev WentOn :
      Bytes → ℕ → Writer flate → (ℕ → Writer flate → Processed flate) → Processed flate → Type 0
  WentOn payload n w next p =
      (w' : Writer flate) × (w'.sink.wire ≡ w.sink.wire ++ payload ∷ [])
      × (w'.codec ≡ w.codec)
      × (p ≡ next (n + length payload) w')

  write_parts-WentOn :
      (answers : List Bool) (wire pongs : List Bytes) (codec : SpdyCodec flate) (closes : List ℕ)
      (payload : Bytes) (n : ℕ) (next : ℕ → Writer flate → Processed flate)
      → (write_with_timeout payload n (writer_at answers wire pongs codec closes) next).0 ≡ false
      → WentOn payload n
          (writer_at answers wire pongs codec closes)
          next
          (write_with_timeout payload n (writer_at answers wire pongs codec closes) next)
  unfolding write_with_timeout write_binary
  write_parts-WentOn [] wire pongs codec closes payload n next e = absurd cc
  write_parts-WentOn (false ∷ answers) wire pongs codec closes payload n next e = absurd cc
  write_parts-WentOn (true ∷ answers) wire pongs codec closes payload n next e =
      (writer_at answers (wire ++ payload ∷ []) pongs codec closes, refl, refl, refl)

  write-WentOn :
      (payload : Bytes) (n : ℕ) (w : Writer flate) (next : ℕ → Writer flate → Processed flate)
      → (write_with_timeout payload n w next).0 ≡ false
      → WentOn payload n w next (write_with_timeout payload n w next)
  write-WentOn payload n w next e =
      write_parts-WentOn w.sink.answers w.sink.wire w.sink.pongs w.codec w.pending_closes payload n
        next e

  -- The same for a SYN_STREAM, whose encoding changes the compressor.
  abbrev SynWentOn :
      ℕ → Headers → Writer flate → (ℕ → Writer flate → Processed flate) → Processed flate → Type 0
  SynWentOn stream_id headers w next p =
      (frame : Bytes) × ((encode_syn_stream w.codec stream_id headers false).0 ≡ ok frame)
      × (w' : Writer flate) × (w'.sink.wire ≡ w.sink.wire ++ frame ∷ [])
      × (w'.codec ≡ (encode_syn_stream w.codec stream_id headers false).1)
      × (n : ℕ) × (p ≡ next n w')

  syn-WentOn :
      (stream_id : ℕ) (headers : Headers) (n : ℕ) (w : Writer flate)
      (next : ℕ → Writer flate → Processed flate)
      → (write_syn stream_id headers n w next).0 ≡ false
      → SynWentOn stream_id headers w next (write_syn stream_id headers n w next)
  unfolding write_syn
  syn-WentOn stream_id headers n w next h =
      by_result (encode_syn_stream w.codec stream_id headers false).0 refl
    where
      w1 : Writer flate
      w1 = record w { codec = (encode_syn_stream w.codec stream_id headers false).1 }

      written :
          (frame : Bytes)
          → (encode_syn_stream w.codec stream_id headers false).0 ≡ ok frame
          → write_syn stream_id headers n w next ≡ write_with_timeout frame n w1 next
      written frame e = rw (e, write_syn) refl

      by_result :
          (r : Result Bytes)
          → (encode_syn_stream w.codec stream_id headers false).0 ≡ r
          → SynWentOn stream_id headers w next (write_syn stream_id headers n w next)
      by_result (ok frame) e =
          let (w', wire, codec, step) =
            write-WentOn frame n w1 next (sym (ap (λ p. p.0) (written frame e)) ∙ h) in
          (frame, e, w', wire, codec, n + length frame, written frame e ∙ step)
      by_result (err x) e = absurd (cc (refused x e))
        where
          refused :
              (x : Error)
              → (encode_syn_stream w.codec stream_id headers false).0 ≡ err x
              → (write_syn stream_id headers n w next).0 ≡ true
          refused x e = rw (e, write_syn) refl

  -- If OpenStreamPair is written without an error, then three frames have been added to the wire, in
  -- this order: the SYN_STREAM of the error stream, the SYN_STREAM of the data stream, compressed
  -- with the state that the first one left, and an empty DATA frame with FIN on the error stream.
  pub open_pair_order :
      (error_id data_id : ℕ) (error_headers data_headers : Headers) (w : Writer flate)
      → let opened =
          process_writer_command
            (MuxCommand.open_stream_pair error_id data_id error_headers data_headers)
            w in
        opened.0 ≡ false
        → let (encoded, codec1) = encode_syn_stream w.codec error_id error_headers false in
          (frame1 frame2 : Bytes) × (encoded ≡ ok frame1)
          × ((encode_syn_stream codec1 data_id data_headers false).0 ≡ ok frame2)
          × (opened.2.sink.wire
              ≡ w.sink.wire ++ frame1 ∷ frame2 ∷ encode_data error_id [] true ∷ [])
  unfolding process_writer_command process_open_pair open_data half_close_error
  open_pair_order error_id data_id error_headers data_headers w h =
      let (f1, e1, w1, wire1, codec1, n1, step1) =
        syn-WentOn error_id error_headers 0 w (open_data error_id data_id data_headers) h in
      let (f2, e2, w2, wire2, codec2, n2, step2) =
        syn-WentOn data_id data_headers n1 w1 (half_close_error error_id)
          (sym (ap (λ p. p.0) step1) ∙ h) in
      let (w3, wire3, codec3, step3) =
        write-WentOn (encode_data error_id [] true) n2 w2 finished
          (sym (ap (λ p. p.0) (step1 ∙ step2)) ∙ h) in
      (
        f1,
        f2,
        e1,
        ap (λ c. (encode_syn_stream c data_id data_headers false).0) (sym codec1) ∙ e2,
        ap (λ p. p.2.sink.wire) (step1 ∙ step2 ∙ step3)
            ∙ wire3
            ∙ rw (wire2, wire1) (gathered w.sink.wire f1 f2 (encode_data error_id [] true)),
      )
