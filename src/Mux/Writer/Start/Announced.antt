-- ===== src/Mux/Writer/Start/Announced.antt =====
-- crates/spdy-mux/src/mux/writer.rs: what the peer reads first.
use kube_portforward.Prelude.{
  ℕ, ◌^◌, ◌<◌, ◌≡◌, refl, ap, sym, ◌∙◌, List, [], ◌∷◌, ◌++◌, Bool, true, false, none, some, arith,
  append_assoc,
}
use kube_portforward.Error.{ok}
use kube_portforward.Wire.{Bytes}
use kube_portforward.Frame.{ping, settings}
use kube_portforward.Flate.{Flate}
use kube_portforward.Codec.{SpdyCodec, decode_frame, encode_ping, encode_settings}
use kube_portforward.Codec.RoundTrip.{decode-encode_control, decode-encode_settings, last_value}
use kube_portforward.Mux.Writer.{Sink, write_binary}
use kube_portforward.Mux.Writer.Start.{
  flush, send_flushed, own_settings, started, announce, start_writer,
}

-- A frame that was sent is on the wire, and the writer has gone on.
send_parts :
    (answers : List Bool) (wire pongs : List Bytes) (frame : Bytes) (next : Sink → Bool × Sink)
    → let s : Sink = record { answers = answers; wire = wire; pongs = pongs } in
      (send_flushed frame s next).0 ≡ true
      → (s' : Sink) × (s'.wire ≡ wire ++ frame ∷ []) × (send_flushed frame s next ≡ next s')
unfolding send_flushed write_binary flush
send_parts [] wire pongs frame next h = absurd cc
send_parts (false ∷ answers) wire pongs frame next h = absurd cc
send_parts (true ∷ []) wire pongs frame next h = absurd cc
send_parts (true ∷ false ∷ answers) wire pongs frame next h = absurd cc
send_parts (true ∷ true ∷ answers) wire pongs frame next h =
    (record { answers = answers; wire = wire ++ frame ∷ []; pongs = pongs }, refl, refl)

send_flushed_through :
    (frame : Bytes) (s : Sink) (next : Sink → Bool × Sink)
    → (send_flushed frame s next).0 ≡ true
    → (s' : Sink) × (s'.wire ≡ s.wire ++ frame ∷ []) × (send_flushed frame s next ≡ next s')
send_flushed_through frame s next h = send_parts s.answers s.wire s.pongs frame next h

-- A writer that has started has put two frames on the wire and nothing else, and the peer's codec
-- reads them as PING 1 and as SETTINGS with the initial window and the number of streams that were
-- configured, and leaves what comes behind them.
pub start_writer_announces :
    {flate : Flate} (codec : SpdyCodec flate) (rest : Bytes)
    (initial_window_size max_concurrent_streams : ℕ) (s : Sink)
    → initial_window_size < 2 ^ 32
    → max_concurrent_streams < 2 ^ 32
    → (start_writer initial_window_size max_concurrent_streams s).0 ≡ true
    → (frame1 frame2 : Bytes) × ((start_writer initial_window_size max_concurrent_streams s).1.wire
        ≡ s.wire ++ frame1 ∷ frame2 ∷ [])
      × (decode_frame codec (frame1 ++ (frame2 ++ rest))
          ≡ record { result = ok (some (ping 1)); codec = codec; buf = frame2 ++ rest })
      × (decode_frame codec (frame2 ++ rest) ≡ record {
        result = ok (some (settings (some initial_window_size) (some max_concurrent_streams) none));
        codec = codec;
        buf = rest;
      })
unfolding start_writer announce last_value
start_writer_announces codec rest initial max s h k e =
    let frame2 = encode_settings (own_settings initial max) in
    let (s1, wire1, step1) = send_flushed_through (encode_ping 1) s (announce frame2) e in
    let (s2, wire2, step2) =
      send_flushed_through frame2 s1 started (sym (ap (λ p. p.0) step1) ∙ e) in
    (
      encode_ping 1,
      frame2,
      ap (λ p. p.1.wire) (step1 ∙ step2)
          ∙ wire2
          ∙ ap (λ w. w ++ frame2 ∷ []) wire1
          ∙ append_assoc s.wire (encode_ping 1 ∷ []) (frame2 ∷ []),
      (decode-encode_control codec (frame2 ++ rest) 1 1 (omega arith) (omega arith)).0,
      decode-encode_settings codec (own_settings initial max) rest
          (omega arith, h, (omega arith, k, tt)) (omega arith),
    )
