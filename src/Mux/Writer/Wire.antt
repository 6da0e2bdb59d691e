-- ===== src/Mux/Writer/Wire.antt =====
-- crates/spdy-mux/src/mux/writer.rs: the bytes on the wire, and the count of them.
use kube_portforward.Prelude.{
  ℕ, ◌+◌, ◌≡◌, refl, ap, sym, ◌∙◌, inl, inr, List, [], ◌∷◌, ◌++◌, Bool, true, false, Bool-cases,
  length, append-nil, append_assoc, arith,
}
use kube_portforward.Error.{Result, ok, err}
use kube_portforward.Wire.{Bytes}
use kube_portforward.Frame.{Headers}
use kube_portforward.Flate.{Flate}
use kube_portforward.Codec.{SpdyCodec, encode_data, encode_rst_stream, encode_syn_stream}
use kube_portforward.Mux.Commands.{MuxCommand}
use kube_portforward.Mux.Writer.{
  Writer, Processed, write_binary, write_pong, encode_command, write_with_timeout, write_syn,
  finished, half_close_error, open_data, queue_close, process_open_pair, process_close,
  process_writer_command, process_batch,
}

abbrev pub total_length : List Bytes → ℕ
total_length [] = 0
total_length (p ∷ ps) = length p + total_length ps

total_length-append :
    (ps qs : List Bytes) → total_length (ps ++ qs) ≡ total_length ps + total_length qs
total_length-append [] qs = omega arith
total_length-append (p ∷ ps) qs = omega (arith, total_length-append ps qs)

-- From a wire with so many bytes counted to a wire with so many counted: some more payloads are on
-- it, and the count has grown by their length.
abbrev pub Appended : List Bytes → ℕ → List Bytes → ℕ → Type 0
Appended wire counted wire' counted' =
    (frames : List Bytes) × (wire' ≡ wire ++ frames) × (counted' ≡ counted + total_length frames)

Appended-trans :
    (wire wire1 wire2 : List Bytes) (n n1 n2 : ℕ)
    → Appended wire n wire1 n1
    → Appended wire1 n1 wire2 n2
    → Appended wire n wire2 n2
Appended-trans wire wire1 wire2 n n1 n2 (frames, e, k) (frames', e', k') = (
  frames ++ frames',
  e' ∙ ap (λ xs. xs ++ frames') e ∙ append_assoc wire frames frames',
  omega (arith, k, k', total_length-append frames frames'),
)

Appended-refl : (wire : List Bytes) (n : ℕ) → Appended wire n wire n
Appended-refl wire n = ([], sym (append-nil wire), omega arith)

module _ {flate : Flate} where
  -- The same for the outcome of a step of the writer.
  abbrev pub Wrote : Writer flate → ℕ → Processed flate → Type 0
  Wrote w counted (had_error, n, w') = Appended w.sink.wire counted w'.sink.wire n

  abbrev pub writer_at :
      List Bool → List Bytes → List Bytes → SpdyCodec flate → List ℕ → Writer flate
  writer_at answers wire pongs codec closes = record {
    sink = record { answers = answers; wire = wire; pongs = pongs };
    codec = codec;
    pending_closes = closes;
  }

  write_parts-Wrote :
      (answers : List Bool) (wire pongs : List Bytes) (codec : SpdyCodec flate) (closes : List ℕ)
      (payload : Bytes) (counted : ℕ) (next : ℕ → Writer flate → Processed flate)
      → ((n : ℕ) (w' : Writer flate) → Wrote w' n (next n w'))
      → Wrote
          (writer_at answers wire pongs codec closes)
          counted
          (write_with_timeout payload counted (writer_at answers wire pongs codec closes) next)
  unfolding write_with_timeout write_binary
  write_parts-Wrote [] wire pongs codec closes payload counted next h = Appended-refl wire counted
  write_parts-Wrote (false ∷ answers) wire pongs codec closes payload counted next h =
      Appended-refl wire counted
  write_parts-Wrote (true ∷ answers) wire pongs codec closes payload counted next h =
      let w' = writer_at answers (wire ++ payload ∷ []) pongs codec closes in
      let n' = counted + length payload in
      Appended-trans wire (wire ++ payload ∷ []) (next n' w').2.sink.wire counted n' (next n' w').1
        (payload ∷ [], refl, omega arith) (h n' w')

  write-Wrote :
      (payload : Bytes) (counted : ℕ) (w : Writer flate) (next : ℕ → Writer flate → Processed flate)
      → ((n : ℕ) (w' : Writer flate) → Wrote w' n (next n w'))
      → Wrote w counted (write_with_timeout payload counted w next)
  write-Wrote payload counted w next h =
      write_parts-Wrote w.sink.answers w.sink.wire w.sink.pongs w.codec w.pending_closes payload
        counted next h

  syn-Wrote :
      (stream_id : ℕ) (headers : Headers) (counted : ℕ) (w : Writer flate)
      (next : ℕ → Writer flate → Processed flate)
      → ((n : ℕ) (w' : Writer flate) → Wrote w' n (next n w'))
      → Wrote w counted (write_syn stream_id headers counted w next)
  unfolding write_syn
  syn-Wrote stream_id headers counted w next h =
      by_result (encode_syn_stream w.codec stream_id headers false).0 refl
    where
      w1 : Writer flate
      w1 = record w { codec = (encode_syn_stream w.codec stream_id headers false).1 }

      by_result :
          (r : Result Bytes)
          → (encode_syn_stream w.codec stream_id headers false).0 ≡ r
          → Wrote w counted (write_syn stream_id headers counted w next)
      by_result (ok frame) e = rw (e, write_syn) (write-Wrote frame counted w1 next h)
      by_result (err x) e = rw (e, write_syn) (Appended-refl w.sink.wire counted)

  open_data-Wrote :
      (error_id data_id : ℕ) (data_headers : Headers) (n : ℕ) (w : Writer flate)
      → Wrote w n (open_data error_id data_id data_headers n w)
  unfolding open_data half_close_error
  open_data-Wrote error_id data_id data_headers n w =
      syn-Wrote data_id data_headers n w (half_close_error error_id) λ n' w'.
        write-Wrote (encode_data error_id [] true) n' w' finished
          λ n'' w''. Appended-refl w''.sink.wire n''

  -- Whatever a command comes to, in success or in failure, the writer has only appended payloads to
  -- the wire, and the number of bytes that it reports is their total length.
  process-Wrote : (c : MuxCommand) (w : Writer flate) → Wrote w 0 (process_writer_command c w)
  unfolding process_writer_command process_open_pair process_close write_pong
  process-Wrote (MuxCommand.open_stream_pair error_id data_id error_headers data_headers) w =
      syn-Wrote error_id error_headers 0 w (open_data error_id data_id data_headers)
        (open_data-Wrote error_id data_id data_headers)
  process-Wrote (MuxCommand.send_ws_pong payload) w = Appended-refl w.sink.wire 0
  process-Wrote (MuxCommand.close_stream stream_id status) w =
      write-Wrote (encode_rst_stream stream_id status) 0 w (queue_close stream_id)
        (λ n w'. Appended-refl w'.sink.wire n)
  process-Wrote command w =
      write-Wrote (encode_command command) 0 w finished (λ n w'. Appended-refl w'.sink.wire n)

  -- The same for a run of commands: the count by which the writer decides to flush is the total
  -- length of what was written, however many commands were taken and whether or not one failed.
  process_batch-Wrote :
      (cs : List MuxCommand) (w : Writer flate)
      → Appended w.sink.wire 0 (process_batch cs w).2.sink.wire (process_batch cs w).1
  unfolding process_batch
  process_batch-Wrote [] w = Appended-refl w.sink.wire 0
  process_batch-Wrote (c ∷ cs) w = elim (Bool-cases (process_writer_command c w).0) [
    | inl e ↦ rw (e, process_batch) (process-Wrote c w)
    | inr e ↦
        rw (e, process_batch)
          (both (process-Wrote c w) (process_batch-Wrote cs (process_writer_command c w).2))
  ]
    where
      both :
          Wrote w 0 (process_writer_command c w)
          → Appended
              (process_writer_command c w).2.sink.wire
              0
              (process_batch cs (process_writer_command c w).2).2.sink.wire
              (process_batch cs (process_writer_command c w).2).1
          → Appended w.sink.wire 0
              (process_batch cs (process_writer_command c w).2).2.sink.wire
              ((process_writer_command c w).1 + (process_batch cs (process_writer_command c w).2).1)
      both (fs, e, k) (gs, e', k') = (
        fs ++ gs,
        e' ∙ ap (λ xs. xs ++ gs) e ∙ append_assoc w.sink.wire fs gs,
        omega (arith, k, k', total_length-append fs gs),
      )
