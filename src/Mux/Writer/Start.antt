-- ===== src/Mux/Writer/Start.antt =====
-- crates/spdy-mux/src/mux/writer.rs: what `run_writer` sends before its loop.
pub mod Announced
use kube_portforward.Prelude.{ℕ, List, [], ◌∷◌, Bool, true, false}
use kube_portforward.Wire.{Bytes}
use kube_portforward.Codec.{encode_ping, encode_settings}
use kube_portforward.Mux.Writer.{Sink, next_answer, later_answers, write_binary}

-- `timeout(write_timeout, writer.flush())`.
unfoldable pub flush : Sink → Bool × Sink
flush s = (next_answer s.answers, record s { answers = later_answers s.answers })

-- A frame that is written and flushed. Otherwise the session is cancelled and the task returns: the
-- flag is false.
unfoldable pub send_flushed : Bytes → Sink → (Sink → Bool × Sink) → Bool × Sink
unfolding write_binary flush
send_flushed frame s next =
    let (written, s1) = write_binary frame s in
    let (flushed, s2) = flush s1 in
    let rest = next s2 in
    elim written [ false ↦ (false, s1) | true ↦ elim flushed [ false ↦ (false, s2) | true ↦ rest ] ]

-- INITIAL_WINDOW_SIZE and MAX_CONCURRENT_STREAMS.
abbrev pub own_settings : ℕ → ℕ → List (ℕ × ℕ)
own_settings initial_window_size max_concurrent_streams =
    (7, initial_window_size) ∷ (4, max_concurrent_streams) ∷ []

abbrev pub started : Sink → Bool × Sink
started s = (true, s)

-- The second of the two frames.
unfoldable pub announce : Bytes → Sink → Bool × Sink
unfolding send_flushed
announce frame s = send_flushed frame s started

unfoldable pub start_writer : ℕ → ℕ → Sink → Bool × Sink
unfolding send_flushed announce
start_writer initial_window_size max_concurrent_streams s =
    send_flushed (encode_ping 1) s
      (announce (encode_settings (own_settings initial_window_size max_concurrent_streams)))
